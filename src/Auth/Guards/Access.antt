-- ===== src/Auth/Guards/Access.antt =====
-- common/guards, modules/auth/guards/jwt-auth.guard.ts: which requests the guards let through.
use trafego_flow.Common.{
  true, false, Option, none, some, List, [], ◌∷◌, ◌≡◌, ◌⊎◌, ◌↔◌, inl, inr, refl, Member, arith,
  String, eq_iff, Option-cases, ◌∙◌, Bool-cases,
}
use trafego_flow.Common.Http.{Result-cases, Exception, http, unauthorized, ok, err}
use trafego_flow.Auth.{
  UserRole, admin, member, JwtPayload, Request, extract_bearer_token, is_master_key,
  upload_token_scope, api_key,
}
use trafego_flow.Auth.Guards.{
  jwt_auth_guard, session_of, session, auth_guard, media_upload_auth_guard, roles_guard,
  includes_role, require_role, require_user, after,
}

module _ (verify : String → Option JwtPayload) where
  -- The request carries a valid session token, one with no scope, whose payload is `p`.
  pub record HasSession (request : Request) (p : JwtPayload) : Type 0 where
    pub token : String
    pub carried : extract_bearer_token request ≡ some token
    pub verified : verify token ≡ some p
    pub unscoped : p.scope ≡ none

  session_of-eq-ok :
      (missing : Exception) (request r : Request) (o : Option String)
      → session_of verify missing request o ≡ ok r
      → (token : String) × (p : JwtPayload) × (o ≡ some token)
        × (verify token ≡ some p)
        × (p.scope ≡ none)
        × (r ≡ record request { user = some p })
  unfolding session_of session
  session_of-eq-ok missing request r none e = cc
  session_of-eq-ok missing request r (some token) e = elim (Option-cases (verify token)) [
    | inl bad ↦ ground arith
    | inr (p, good) ↦ (token, p, refl, good, ground arith, ground arith)
  ]

  -- JwtAuthGuard lets through exactly the requests with a valid token without a scope, and puts
  -- its payload on the request.
  pub jwt_auth_guard_iff :
      (request r : Request)
      → (jwt_auth_guard verify request ≡ ok r)
        ↔ ((p : JwtPayload) × HasSession request p × (r ≡ record request { user = some p }))
  unfolding jwt_auth_guard
  jwt_auth_guard_iff request r = (to, from)
    where
      to :
          jwt_auth_guard verify request ≡ ok r
          → (p : JwtPayload) × HasSession request p × (r ≡ record request { user = some p })
      to e =
          let (token, p, carried, verified, unscoped, changed) =
            session_of-eq-ok _ request r (extract_bearer_token request) e in
          (
            p,
            record { token = token; carried = carried; verified = verified; unscoped = unscoped },
            changed,
          )

      from :
          (p : JwtPayload) × HasSession request p × (r ≡ record request { user = some p })
          → jwt_auth_guard verify request ≡ ok r
      from (p, h, e) = ground (arith, h.carried, h.verified, h.unscoped)

  module _ (master : Option String) where
    -- The request has the master key and is marked so, or it has no master key but a session token,
    -- whose payload satisfies `Q` and is put on the request.
    abbrev pub Enters : (JwtPayload → Type 0) → Request → Request → Type 0
    Enters Q request r =
        ((is_master_key master request.x_api_key ≡ true)
          × (r ≡ record request { auth_method = some api_key }))
        ⊎ ((is_master_key master request.x_api_key ≡ false)
            × (p : JwtPayload) × HasSession request p
            × Q p
            × (r ≡ record request { user = some p }))

    -- AuthGuard lets through exactly the requests with the master key, which it marks, and those
    -- without it that carry a valid token without a scope, whose payload it puts on the request.
    pub auth_guard_iff :
        (request r : Request)
        → (auth_guard verify master request ≡ ok r) ↔ Enters (λ _. Unit {0}) request r
    unfolding auth_guard
    auth_guard_iff request r = (to, from)
      where
        to : auth_guard verify master request ≡ ok r → Enters (λ _. Unit {0}) request r
        to e = elim (Bool-cases (is_master_key master request.x_api_key)) [
          | inl key ↦ inl (key, ground arith)
          | inr other ↦
              let (token, p, carried, verified, unscoped, changed) =
                session_of-eq-ok _ request r (extract_bearer_token request) (rw other at e) in
              inr (
                other,
                p,
                record {
                  token = token;
                  carried = carried;
                  verified = verified;
                  unscoped = unscoped;
                },
                tt,
                changed,
              )
        ]

        from : Enters (λ _. Unit {0}) request r → auth_guard verify master request ≡ ok r
        from (inl (key, e)) = ground arith
        from (inr (other, p, h, u, e)) = ground (arith, h.carried, h.verified, h.unscoped)

    -- Without the master key a request with a valid token that has a scope is refused by AuthGuard
    -- and by JwtAuthGuard, and let through by MediaUploadAuthGuard exactly if the scope is that of
    -- uploads.
    pub scoped_token :
        (request : Request) (token scope : String) (p : JwtPayload)
        → is_master_key master request.x_api_key ≡ false
        → extract_bearer_token request ≡ some token
        → verify token ≡ some p
        → p.scope ≡ some scope
        → (auth_guard verify master request
            ≡ err (http unauthorized "This token cannot be used for this endpoint"))
          × (jwt_auth_guard verify request
              ≡ err (http unauthorized "This token cannot be used for this endpoint"))
          × ((media_upload_auth_guard verify master request ≡ ok (record request { user = some p }))
              ↔ (scope ≡ upload_token_scope))
    unfolding auth_guard jwt_auth_guard media_upload_auth_guard
    scoped_token request token scope p key carried verified scoped =
        (ground arith, ground arith, ground (arith, eq_iff scope upload_token_scope))

includes_role_iff :
    (roles : List UserRole) (role : UserRole)
    → (includes_role roles role ≡ true) ↔ Member role roles
unfolding includes_role
includes_role_iff [] role = (λ e. cc, λ m. absurd m)
includes_role_iff (admin ∷ roles) admin = ground arith
includes_role_iff (admin ∷ roles) member = ground (arith, includes_role_iff roles member)
includes_role_iff (member ∷ roles) admin = ground (arith, includes_role_iff roles admin)
includes_role_iff (member ∷ roles) member = ground arith

-- The user has one of the roles.
abbrev pub HasRole : List UserRole → JwtPayload → Type 0
HasRole roles p = (role : UserRole) × (p.role ≡ some role) × Member role roles

require_role-user :
    (roles : List UserRole) (request r : Request) (p : JwtPayload)
    → (require_role roles request (some p) ≡ ok r) ↔ (HasRole roles p × (r ≡ request))
unfolding require_role require_user
require_role-user roles request r p = elim (Option-cases p.role) [
  | inl missing ↦ ground arith
  | inr (role, has) ↦ (
    λ e. ((role, has, (includes_role_iff roles role).0 (ground arith)), ground arith),
    λ h. let listed = (includes_role_iff roles h.0.0).1 h.0.2 in ground arith,
  )
]

module _ (verify : String → Option JwtPayload) (master : Option String) where
  -- For a route that requires a role and a request that arrives with no user and no mark, the
  -- handler runs after AuthGuard and RolesGuard exactly for the master key and for a session whose
  -- user has one of the roles.
  pub auth_then_roles_iff :
      (role : UserRole) (roles : List UserRole) (request r : Request)
      → request.user ≡ none
      → request.auth_method ≡ none
      → (after (auth_guard verify master request) (roles_guard (role ∷ roles)) ≡ ok r)
        ↔ Enters verify master (HasRole (role ∷ roles)) request r
  unfolding roles_guard
  auth_then_roles_iff role roles request r user mark = (to, from)
    where
      to :
          after (auth_guard verify master request) (roles_guard (role ∷ roles)) ≡ ok r
          → Enters verify master (HasRole (role ∷ roles)) request r
      to e = elim (Result-cases (auth_guard verify master request)) [
        | inr (x, bad) ↦ ground arith
        | inl (mid, passed) ↦ elim ((auth_guard_iff verify master request mid).0 passed) [
          | inl (key, changed) ↦ inl (key, ground arith)
          | inr (other, p, h, u, changed) ↦
              let q = (require_role-user (role ∷ roles) mid r p).0 (ground arith) in
              inr (other, p, h, q.0, q.1 ∙ changed)
        ]
      ]

      from :
          Enters verify master (HasRole (role ∷ roles)) request r
          → after (auth_guard verify master request) (roles_guard (role ∷ roles)) ≡ ok r
      from (inl (key, changed)) =
          let passed = (auth_guard_iff verify master request r).1 (inl (key, changed)) in
          ground arith
      from (inr (other, p, h, q, changed)) =
          let passed =
            (auth_guard_iff verify master request r).1 (inr (other, p, h, tt, changed)) in
          let allowed = (require_role-user (role ∷ roles) r r p).1 (q, refl) in ground arith
