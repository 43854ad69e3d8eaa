-- ===== src/Integrations/Stored.antt =====
-- modules/integrations/integrations.service.ts: the secrets that are stored can be read again.
use mathlib.Core.Path.{subst}
use trafego_flow.Common.{
  ℕ, Bool, true, false, ◌≡◌, refl, sym, ap, ◌∙◌, inl, inr, Option, none, some, String, str_eq,
  eq_iff, arith, if◌then◌else◌,
}
use trafego_flow.Common.Text.{truthy?}
use trafego_flow.Common.Http.{Exception, ok, http, conflict}
use trafego_flow.Common.Action.{pure, throw, bind_ok, catch_ok}
use trafego_flow.Common.Store.{Cache, Cached}
use trafego_flow.Clients.{is_unique_violation}
use trafego_flow.Integrations.{
  Integrations, IntegrationEntity, CreateIntegrationDto, AesCrypto, new_integration, encrypted,
  create, cache_by_id, cache_by_page,
}

-- A stored secret decrypts to the one that was given; an empty one is not stored.
abbrev pub Decrypts : AesCrypto → Option String → Option String → Type 0
Decrypts crypto stored none = stored ≡ none
Decrypts crypto stored (some secret) =
    (s : String) × (stored ≡ (if truthy? (some secret) then some s else none))
    × (crypto.decrypt s ≡ ok secret)

encrypted-Decrypts :
    (to_date : String → ℕ) (crypto : AesCrypto) (iv : String) (secret : Option String)
    → Decrypts crypto (encrypted to_date crypto iv secret) secret
encrypted-Decrypts to_date crypto iv none = refl
encrypted-Decrypts to_date crypto iv (some secret) =
    (crypto.encrypt iv secret, refl, crypto.decrypt-encrypt iv secret)

module _ {W : Type 0} (repo : Integrations W) (cache : Cache W IntegrationEntity)
    (apart : Cached repo cache) (to_date : String → ℕ) (crypto : AesCrypto)
    (token_iv secret_iv : String) where
  refuses :
      (e : Exception) (w : W) {i : IntegrationEntity} {w' : W} {C : Type 0}
      → (if is_unique_violation e
            then throw (http conflict "An integration with this pageId already exists")
            else throw e)
          w
        ≡ (ok i, w')
      → C
  unfolding throw
  refuses e w {i} {w'} {C} h = go (is_unique_violation e) h
    where
      go :
          (b : Bool)
          → (if b
                then throw (http conflict "An integration with this pageId already exists")
                else throw e)
              w
            ≡ (ok i, w')
          → C
      go true k = absurd (cc k)
      go false k = absurd (cc k)

  -- A successful creation of an integration adds a row under a new key, with the requested page;
  -- its access token decrypts to the one that was given, and so does its secret, which is stored
  -- exactly where one was given that is not empty.
  pub create-Decrypts :
      (dto : CreateIntegrationDto) (w w' : W) (i : IntegrationEntity)
      → create repo cache to_date crypto token_iv secret_iv dto w ≡ (ok i, w')
      → (repo.get w i.id ≡ none)
        × (repo.get w' i.id ≡ some i)
        × (i.page_id ≡ dto.page_id)
        × (crypto.decrypt i.access_token ≡ ok dto.access_token)
        × Decrypts crypto i.app_secret dto.app_secret
  unfolding create pure
  create-Decrypts dto w w' i h = elim (catch_ok _ _ w h) [
    | inl h ↦
        let (saved, v, inserted, h) = bind_ok _ _ w h in
        let (_, u, set_one, h) = bind_ok _ _ v h in
        let (_, t, set_two, h) = bind_ok _ _ u h in
        let (free, made, rows) =
          repo.insert_ok (new_integration to_date crypto token_iv secret_iv dto) w inserted in
        let same : saved ≡ i = cc h in
        let last : t ≡ w' = cc h in
        subst
          (λ x.
            (repo.get w x.id ≡ none)
            × (repo.get w' x.id ≡ some x)
            × (x.page_id ≡ dto.page_id)
            × (crypto.decrypt x.access_token ≡ ok dto.access_token)
            × Decrypts crypto x.app_secret dto.app_secret)
          same
          (
            free,
            ap (λ x. repo.get x saved.id) (sym last ∙ sym (ap (λ x. x.1) set_two))
                ∙ apart.get-set (cache_by_page saved.page_id) saved u saved.id
                ∙ ap (λ x. repo.get x saved.id) (sym (ap (λ x. x.1) set_one))
                ∙ apart.get-set (cache_by_id saved.id) saved v saved.id
                ∙ rows saved.id
                ∙ found saved,
            ap (λ x. x.page_id) made,
            ap (λ x. crypto.decrypt x.access_token) made
                ∙ crypto.decrypt-encrypt token_iv dto.access_token,
            subst (λ x. Decrypts crypto x.app_secret dto.app_secret) (sym made)
                (encrypted-Decrypts to_date crypto secret_iv dto.app_secret),
          )
    | inr (e, v, thrown, h) ↦ refuses e v h
  ]
    where
      found :
          (x : IntegrationEntity) → (if str_eq x.id x.id then some x else repo.get w x.id) ≡ some x
      found x = ground (arith, eq_iff x.id x.id)
