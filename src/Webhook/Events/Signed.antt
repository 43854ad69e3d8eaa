-- ===== src/Webhook/Events/Signed.antt =====
-- modules/webhook/instagram/instagram-webhook.service.ts: which events are accepted.
use mathlib.Core.Path.{subst}
use trafego_flow.Common.{
  ℕ, ◌≡◌, refl, ap, sym, ◌∙◌, inl, inr, ◌↔◌, ◌≢◌, true, Option, none, some, String, or_else, List,
  arith,
}
use trafego_flow.Common.Text.{truthy?}
use trafego_flow.Common.Http.{Exception, Result, ok, err}
use trafego_flow.Common.Action.{
  throw, query, catch, ◌>>=◌, bind_ok, bind_err, bind_returns, Triple-ok,
}
use trafego_flow.Common.Store.{Cache, Cached}
use trafego_flow.Integrations.{Integrations, IntegrationEntity, AesCrypto, find_by_page_id}
use trafego_flow.Integrations.Freshness.{IsFresh, find_by_page_id-Holds}
use trafego_flow.Webhook.Events.{
  InstagramWebhookPayload, Queue, Platform, first_page, expected_header, validate_signature,
  integration_of, resolve_app_secret, handle_event,
}
use trafego_flow.Webhook.Events.Jobs.{jobs_of, added, enqueue_events-Adds}

module _ {W : Type 0} (platform : Platform) (raw_body : List ℕ) (signature : Option String)
    (app_secret : String) (w : W) where
  validate_signature_same :
      or_else signature "" ≡ expected_header platform app_secret raw_body
      → validate_signature platform raw_body signature app_secret w ≡ (ok tt, w)
  unfolding validate_signature ◌>>=◌
  validate_signature_same e = ground (
    arith,
    e,
    platform.timing_safe_equal_same
        (platform.buffer_from (expected_header platform app_secret raw_body)),
  )

  validate_signature_ok :
      (w' : W)
      → validate_signature platform raw_body signature app_secret w ≡ (ok tt, w')
      → (or_else signature "" ≡ expected_header platform app_secret raw_body) × (w' ≡ w)
  unfolding validate_signature ◌>>=◌
  validate_signature_ok w' e =
      let header = expected_header platform app_secret raw_body in
      let equal =
        platform.timing_safe_equal_true (platform.buffer_from header)
          (platform.buffer_from (or_else signature "")) in
      let same = platform.buffer_from-inj header (or_else signature "") in ground arith

  validate_signature_world : (validate_signature platform raw_body signature app_secret w).1 ≡ w
  unfolding validate_signature ◌>>=◌
  validate_signature_world = ground arith

module _ {W : Type 0} (integrations : Integrations W) (cache : Cache W IntegrationEntity) where
  integration_of-some :
      (p : Option String) (w v : W) (i : IntegrationEntity)
      → integration_of integrations cache p w ≡ (ok (some i), v)
      → (page_id : String) × (p ≡ some page_id)
        × (truthy? p ≡ true)
        × (find_by_page_id integrations cache page_id w ≡ (ok i, v))
  unfolding integration_of catch ◌>>=◌
  integration_of-some none w v i e = cc
  integration_of-some (some p) w v i e =
      (p, refl, truth, found (find_by_page_id integrations cache p w) refl)
    where
      truth : truthy? (some p) ≡ true
      truth = ground arith

      found :
          (x : Result IntegrationEntity × W)
          → find_by_page_id integrations cache p w ≡ x
          → find_by_page_id integrations cache p w ≡ (ok i, v)
      found (ok j, u) h = ground arith
      found (err x, u) h = ground arith

module _ {W : Type 0} (crypto : AesCrypto) where
  resolve_app_secret_ok :
      (o : Option IntegrationEntity) (w v : W) (secret : String)
      → resolve_app_secret crypto o w ≡ (ok secret, v)
      → (i : IntegrationEntity) × (o ≡ some i)
        × (v ≡ w)
        × (crypto.decrypt (or_else i.app_secret "") ≡ ok secret)
  unfolding resolve_app_secret catch throw query
  resolve_app_secret_ok none w v secret e = cc
  resolve_app_secret_ok (some i) w v secret e = (i, refl, ground arith, ground arith)

module _ {W : Type 0} (integrations : Integrations W) (cache : Cache W IntegrationEntity) where
  integration_of_same :
      (page_id : String) (w v : W) (i : IntegrationEntity)
      → truthy? (some page_id) ≡ true
      → find_by_page_id integrations cache page_id w ≡ (ok i, v)
      → integration_of integrations cache (some page_id) w ≡ (ok (some i), v)
  unfolding integration_of catch ◌>>=◌
  integration_of_same page_id w v i truth found = ground arith

  integration_of_ok :
      (p : Option String) (w w' : W) (e : Exception)
      → integration_of integrations cache p w ≢ (err e, w')
  unfolding integration_of catch ◌>>=◌
  integration_of_ok none w w' e h = cc
  integration_of_ok (some p) w w' e h = go (find_by_page_id integrations cache p w) refl
    where
      go : (x : Result IntegrationEntity × W) → find_by_page_id integrations cache p w ≡ x → ⊥
      go (ok i, v) same = ground arith
      go (err x, v) same = ground arith

module _ {W : Type 0} (crypto : AesCrypto) where
  resolve_app_secret_same :
      (i : IntegrationEntity) (w : W) (secret : String)
      → crypto.decrypt (or_else i.app_secret "") ≡ ok secret
      → resolve_app_secret crypto (some i) w ≡ (ok secret, w)
  unfolding resolve_app_secret catch throw query
  resolve_app_secret_same i w secret e = ground arith

  resolve_app_secret_world :
      (o : Option IntegrationEntity) (w : W) → (resolve_app_secret crypto o w).1 ≡ w
  unfolding resolve_app_secret catch throw query
  resolve_app_secret_world none w = refl
  resolve_app_secret_world (some i) w = ground arith

module _ {W : Type 0} (integrations : Integrations W) (cache : Cache W IntegrationEntity)
    (crypto : AesCrypto) (platform : Platform) (queue : Queue W) (payload : InstagramWebhookPayload)
    (raw_body : List ℕ) (signature : Option String) where
  -- The search for the page of the first entry finds an integration, and the event is signed with
  -- its secret.
  abbrev pub Accepted : W → W → Type 0
  Accepted w v =
      (page_id : String) × (i : IntegrationEntity) × (app_secret : String) × (first_page
          payload.entry
        ≡ some page_id)
      × (truthy? (some page_id) ≡ true)
      × (find_by_page_id integrations cache page_id w ≡ (ok i, v))
      × (crypto.decrypt (or_else i.app_secret "") ≡ ok app_secret)
      × (or_else signature "" ≡ expected_header platform app_secret raw_body)

  handle_event_ok :
      (w w' : W)
      → handle_event integrations cache crypto platform queue payload raw_body signature w
        ≡ (ok tt, w')
      → (v : W) × Accepted w v × (w' ≡ added queue (jobs_of payload) v)
  unfolding handle_event
  handle_event_ok w w' e =
      let (o, v, found, e) = bind_ok _ _ w e in
      let (secret, u, resolved, e) = bind_ok _ _ v e in
      let (_, t, valid, e) = bind_ok _ _ u e in
      let (i, is, same, decrypted) = resolve_app_secret_ok crypto o v u secret resolved in
      let (signed, still) = validate_signature_ok platform raw_body signature secret u t valid in
      let (page_id, first, truth, row) =
        integration_of-some integrations cache (first_page payload.entry) w v i (cc (found, is)) in
      (
        v,
        (page_id, i, secret, first, cc (first, truth), row, decrypted, signed),
        ap (λ x. x.1) (sym e ∙ enqueue_events-Adds queue payload t)
            ∙ ap (added queue (jobs_of payload)) (still ∙ same),
      )

  handle_event_accepts :
      (w v : W)
      → Accepted w v
      → handle_event integrations cache crypto platform queue payload raw_body signature w
        ≡ (ok tt, added queue (jobs_of payload) v)
  unfolding handle_event
  handle_event_accepts w v (page_id, i, secret, first, truth, found, decrypted, signed) =
      bind_returns _ _ w
        (ap (λ p. integration_of integrations cache p w) first
          ∙ integration_of_same integrations cache page_id w v i truth found)
        (bind_returns _ _ v (resolve_app_secret_same crypto i v secret decrypted) (
          bind_returns _ _ v (validate_signature_same platform raw_body signature secret v signed)
            (enqueue_events-Adds queue payload v)))

  -- A webhook event is accepted exactly if its first entry names a page whose integration the
  -- search finds, the secret of that integration decrypts, and the signature is that of the body
  -- under it; whether jobs can be queued plays no part.
  pub handle_event_iff :
      (w : W)
      → ((handle_event integrations cache crypto platform queue payload raw_body signature w).0
          ≡ ok tt)
        ↔ ((v : W) × Accepted w v)
  handle_event_iff w = (returned, λ h. ap (λ x. x.0) (handle_event_accepts w h.0 h.1))
    where
      returned :
          (handle_event integrations cache crypto platform queue payload raw_body signature w).0
            ≡ ok tt
          → (v : W) × Accepted w v
      returned e =
          let (v, h, same) =
            handle_event_ok w
              (handle_event integrations cache crypto platform queue payload raw_body signature w).1
              (ap
                (λ r. (
                  r,
                  (handle_event integrations cache crypto platform queue payload raw_body signature
                      w).1,
                ))
                e) in
          (v, h)

  -- A webhook event that is refused leaves the world as the search for the integration of its
  -- first entry's page has left it, so that no job is queued.
  pub handle_event_refused :
      (w w' : W) (e : Exception)
      → handle_event integrations cache crypto platform queue payload raw_body signature w
        ≡ (err e, w')
      → w' ≡ (integration_of integrations cache (first_page payload.entry) w).1
  unfolding handle_event
  handle_event_refused w w' e failed = elim (bind_err _ _ w failed) [
    | inl h ↦ absurd (integration_of_ok integrations cache (first_page payload.entry) w w' e h)
    | inr (o, v, found, h) ↦ elim (bind_err _ _ v h) [
      | inl h ↦
          sym (ap (λ x. x.1) h) ∙ resolve_app_secret_world crypto o v ∙ sym (ap (λ x. x.1) found)
      | inr (secret, u, resolved, h) ↦ elim (bind_err _ _ u h) [
        | inl h ↦
            sym (ap (λ x. x.1) h)
            ∙ validate_signature_world platform raw_body signature secret u
            ∙ sym (ap (λ x. x.1) resolved)
            ∙ resolve_app_secret_world crypto o v
            ∙ sym (ap (λ x. x.1) found)
        | inr (_, t, valid, h) ↦ cc (h, enqueue_events-Adds queue payload t)
      ]
    ]
  ]

  -- In a fresh world, a webhook event that is accepted is signed with the secret of an
  -- integration, which is a row of the table and has the page of the first entry; afterwards the
  -- queue has been given, in their order, the jobs of all entries.
  pub handle_event_sound :
      (apart : Cached integrations cache) (w w' : W)
      → IsFresh integrations cache w
      → handle_event integrations cache crypto platform queue payload raw_body signature w
        ≡ (ok tt, w')
      → (i : IntegrationEntity) × (app_secret : String) × (v : W) × (first_page payload.entry
          ≡ some i.page_id)
        × (find_by_page_id integrations cache i.page_id w ≡ (ok i, v))
        × (integrations.get v i.id ≡ some i)
        × (crypto.decrypt (or_else i.app_secret "") ≡ ok app_secret)
        × (or_else signature "" ≡ expected_header platform app_secret raw_body)
        × (w' ≡ added queue (jobs_of payload) v)
  handle_event_sound apart w w' fresh e =
      let (v, (page_id, i, secret, first, truth, found, decrypted, signed), same) =
        handle_event_ok w w' e in
      let (_, row, page) =
        Triple-ok w (find_by_page_id-Holds integrations cache apart page_id) fresh found in
      (
        i,
        secret,
        v,
        first ∙ ap some (sym page),
        subst (λ p. find_by_page_id integrations cache p w ≡ (ok i, v)) (sym page) found,
        row,
        decrypted,
        signed,
        same,
      )
