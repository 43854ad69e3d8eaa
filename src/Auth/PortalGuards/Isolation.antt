-- ===== src/Auth/PortalGuards/Isolation.antt =====
-- common/guards/client-portal-auth.guard.ts, modules/auth/guards/client-portal-scope.guard.ts: a
-- principal of the portal reaches only its own client.
use trafego_flow.Common.{
  ◌≡◌, ◌⊎◌, inl, inr, refl, sym, ap, ◌∙◌, true, false, Option, none, some, str_eq, arith, eq_iff,
  String, Bool-cases, Option-cases, or_option,
}
use trafego_flow.Common.Http.{ok}
use trafego_flow.Common.Action.{◌>>=◌, pure, throw}
use trafego_flow.Common.Store.{Cache, Cached}
use trafego_flow.Clients.{Clients, ClientEntity}
use trafego_flow.Clients.Freshness.{IsFresh}
use trafego_flow.Auth.{
  JwtPayload, Request, extract_bearer_token, is_master_key, client_portal_scope,
}
use trafego_flow.Auth.Portal.{PortalUsers, ClientPortalUserEntity, Crypto, assert_access}
use trafego_flow.Auth.Portal.Access.{MayAccess, assert_access_sound}
use trafego_flow.Auth.PortalGuards.{
  client_portal_auth_guard, client_portal_scope_guard, admit, disagree,
}

-- Where the client ids of a request do not disagree, each one given is the one that is checked.
agreed :
    (query body : Option String) (x y : String)
    → disagree query body ≡ false
    → or_option query body ≡ some x
    → (query ≡ some y) ⊎ (body ≡ some y)
    → y ≡ x
agreed none none x y d o g = ground arith
agreed none (some b) x y d o g = ground arith
agreed (some q) none x y d o g = ground arith
agreed (some q) (some b) x y d o g = ground (arith, eq_iff q b)

own_or_none :
    (given own : Option String)
    → ((y : String) → given ≡ some y → own ≡ some y)
    → (given ≡ none) ⊎ (given ≡ own)
own_or_none none own h = inl refl
own_or_none (some y) own h = inr (sym (h y refl))

module _ {W : Type 0} (users : PortalUsers W) (crypto : Crypto) (clients : Clients W)
    (cache : Cache W ClientEntity) (apart : Cached clients cache) where
  scope_checked :
      (query body : Option String) (request r : Request) (p : JwtPayload) (w0 w : W)
      → request.user ≡ some p
      → client_portal_scope_guard users crypto clients cache query body request w0 ≡ (ok r, w)
      → (disagree query body ≡ false)
        × (assert_access users crypto clients cache p (or_option query body) w0 ≡ (ok tt, w))
        × (r ≡ request)
  unfolding client_portal_scope_guard ◌>>=◌
  scope_checked query body request r p w0 w user done = ground arith

  -- A request of a user in the portal's scope that ClientPortalScopeGuard lets through, in a world
  -- where cached clients are fresh, goes on unchanged; its query string and its body each name no
  -- client or the user's own, one of them names it, and the account and the client exist and are
  -- active.
  pub client_portal_scope_guard_sound :
      (query body : Option String) (request r : Request) (p : JwtPayload) (w0 w : W)
      → IsFresh clients cache w0
      → request.user ≡ some p
      → p.scope ≡ some client_portal_scope
      → client_portal_scope_guard users crypto clients cache query body request w0 ≡ (ok r, w)
      → (r ≡ request)
        × (u : ClientPortalUserEntity) × (c : ClientEntity) × MayAccess users crypto clients cache
            apart w0 p
            (or_option query body)
            u
            c
        × ((query ≡ none) ⊎ (query ≡ p.client_id))
        × ((body ≡ none) ⊎ (body ≡ p.client_id))
  client_portal_scope_guard_sound query body request r p w0 w fresh user portal done =
      let (d, checked, same) = scope_checked query body request r p w0 w user done in
      let (u, c, may) =
        assert_access_sound users crypto clients cache apart p (or_option query body) w0 w fresh
          portal checked in
      (
        same,
        u,
        c,
        may,
        own_or_none query p.client_id (λ y given.
            may.own ∙ ap some (sym (agreed query body may.client_id y d may.asked (inl given)))),
        own_or_none body p.client_id (λ y given.
            may.own ∙ ap some (sym (agreed query body may.client_id y d may.asked (inr given)))),
      )

  module _ (verify : String → Option JwtPayload) (master : Option String) where
    -- What lets a request past the guard of the portal's routes, in the world `w0`: the master key,
    -- which puts no user on the request, or a token that is not scoped, or one of the portal whose
    -- account and client exist and are active.
    pub data Passes (w0 : W) (request r : Request) : Type 0 where
      by_key : is_master_key master request.x_api_key ≡ true → r ≡ request → Passes w0 request r
      by_session :
          (token : String) (p : JwtPayload)
          → extract_bearer_token request ≡ some token
          → verify token ≡ some p
          → p.scope ≡ none
          → r ≡ record request { user = some p }
          → Passes w0 request r
      by_portal :
          (token : String) (p : JwtPayload) (u : ClientPortalUserEntity) (c : ClientEntity)
          → extract_bearer_token request ≡ some token
          → verify token ≡ some p
          → p.scope ≡ some client_portal_scope
          → MayAccess users crypto clients cache apart w0 p p.client_id u c
          → r ≡ record request { user = some p }
          → Passes w0 request r

    admit-Passes :
        (request r : Request) (token : String) (p : JwtPayload) (w0 w : W)
        → IsFresh clients cache w0
        → extract_bearer_token request ≡ some token
        → verify token ≡ some p
        → admit users crypto clients cache verify master request p w0 ≡ (ok r, w)
        → Passes w0 request r
    unfolding admit ◌>>=◌
    admit-Passes request r token p w0 w fresh carried verified done = elim (Option-cases p.scope) [
      | inl unscoped ↦ by_session token p carried verified unscoped (ground arith)
      | inr (scope, scoped) ↦ elim (Bool-cases (str_eq scope client_portal_scope)) [
        | inr foreign ↦ absurd (ground arith)
        | inl same ↦
            let portal : p.scope ≡ some client_portal_scope =
              scoped ∙ ap some ((eq_iff _ _).0 same) in
            let step : (assert_access users crypto clients cache p p.client_id w0 ≡ (ok tt, w))
                × (r ≡ record request { user = some p }) =
              ground arith in
            let (u, c, may) =
              assert_access_sound users crypto clients cache apart p p.client_id w0 w fresh portal
                step.0 in
            by_portal token p u c carried verified portal may step.1
      ]
    ]

    -- In a world where cached clients are fresh, ClientPortalAuthGuard lets a request through only
    -- with the master key, with a valid token without a scope, or with a valid portal token whose
    -- account and own client exist and are active.
    pub client_portal_auth_guard_sound :
        (request r : Request) (w0 w : W)
        → IsFresh clients cache w0
        → client_portal_auth_guard users crypto clients cache verify master request w0 ≡ (ok r, w)
        → Passes w0 request r
    unfolding client_portal_auth_guard pure throw
    client_portal_auth_guard_sound request r w0 w fresh done =
        elim (Bool-cases (is_master_key master request.x_api_key)) [
          | inl key ↦ by_key key (ground arith)
          | inr other ↦ elim (Option-cases (extract_bearer_token request)) [
            | inl missing ↦ absurd (ground arith)
            | inr (token, carried) ↦ elim (Option-cases (verify token)) [
              | inl bad ↦ absurd (ground arith)
              | inr (p, verified) ↦
                  admit-Passes request r token p w0 w fresh carried verified (ground arith)
            ]
          ]
        ]
