-- ===== src/Auth/Portal/Access.antt =====
-- modules/auth/client-portal-auth.service.ts: who is let in, by `login` and by `assertAccess`.
use mathlib.Core.Path.{subst}
use trafego_flow.Common.{
  ◌≡◌, ◌≢◌, inl, inr, refl, sym, Bool, true, false, Option, none, some, not, ◌&&◌, str_eq, arith,
  eq_iff, if◌then◌else◌, String, Bool-cases, eq_true_of_not, and_true,
}
use trafego_flow.Common.Text.{truthy}
use trafego_flow.Common.Http.{Exception, ok}
use trafego_flow.Common.Action.{
  Triple, Triple-bind, Triple-catch, Triple-pure, Triple-throw, Triple-throw_if, Triple-weaken,
  Triple-given, Triple-ok, pure, throw,
}
use trafego_flow.Common.Store.{Cache, Cached}
use trafego_flow.Common.Rows.{Triple-lookup}
use trafego_flow.Clients.{Clients, ClientEntity}
use trafego_flow.Clients.Freshness.{IsFresh, Reads, find_one-Reads}
use trafego_flow.Auth.{JwtPayload, client_portal_scope}
use trafego_flow.Auth.Portal.{
  PortalUsers, ClientPortalUserEntity, Crypto, LoginResult, login, accepts, holds, portal_payload,
  client_or, invalid_credentials, access_denied, is_not_found, assert_access, check_target,
  check_access,
}
use trafego_flow.Auth.Portal.Passwords.{holds-some}

-- What a refusal leaves open: it may come from a check or from a failing service.
abbrev pub Refused : {W : Type 0} → Exception → W → Type 0
Refused e w = Unit

Triple-throw_either :
    {W A : Type 0} {P : W → Type 0} {Q : A → W → Type 0} (b : Bool) (x y : Exception)
    → Triple P (if b then throw x else throw y) Q Refused
Triple-throw_either true x y = Triple-throw x (λ w h. tt)
Triple-throw_either false x y = Triple-throw y (λ w h. tt)

module _ {W : Type 0} (users : PortalUsers W) (crypto : Crypto) (clients : Clients W)
    (cache : Cache W ClientEntity) (apart : Cached clients cache) where
  client_or-Reads :
      (denied : Exception) (k : String) (w0 : W)
      → IsFresh clients cache w0
      → Triple
          (λ w. w ≡ w0)
          (client_or users crypto clients cache denied k)
          (λ c _. clients.get w0 k ≡ some c)
          Refused
  client_or-Reads denied k w0 fresh =
      Triple-catch Refused
        (record {
          at = λ w same.
              (Triple-weaken _ _ (find_one-Reads clients cache apart k (clients.get w0 k))
                  (λ c _ h. h.1) (λ _ _ h. tt)).at
                w (subst (Reads clients cache apart k (clients.get w0 k)) (sym same) (fresh, refl));
        })
        λ e. Triple-throw_either (is_not_found e) denied e

  -- The account and the client that a login rests on, as the tables hold them.
  pub record MayLogIn (w : W) (email password : String) (u : ClientPortalUserEntity)
      (c : ClientEntity) : Type 0 where
    pub row : users.get w u.id ≡ some u
    pub email_is : u.email ≡ email
    pub active : u.is_active ≡ true
    pub stored : String
    pub hashed : u.password_hash ≡ some stored
    pub matches : crypto.compare password stored ≡ true
    pub client_row : clients.get w u.client_id ≡ some c
    pub client_active : c.is_active ≡ true

  accepted :
      (o : Option String) (password : String)
      → accepts users crypto o password ≡ true
      → (stored : String) × (o ≡ some stored) × (crypto.compare password stored ≡ true)
  unfolding accepts
  accepted none password h = cc
  accepted (some stored) password h = (stored, refl, h)

  -- A successful portal login, in a world where cached clients are fresh, was made with the email
  -- and the password of an active account of an active client; its token is the signed payload of
  -- that account, and it reports whether the password must be changed.
  pub login_sound :
      (email password : String) (w0 w : W) (r : LoginResult)
      → IsFresh clients cache w0
      → login users crypto clients cache email password w0 ≡ (ok r, w)
      → (u : ClientPortalUserEntity) × (c : ClientEntity) × MayLogIn w0 email password u c
        × (r.access_token ≡ crypto.sign (portal_payload u))
        × (r.must_change_password ≡ u.must_change_password)
  unfolding login
  login_sound email password w0 w r fresh done = Triple-ok w0 checks refl done
    where
      checks :
          Triple
            (λ w. w ≡ w0)
            (login users crypto clients cache email password)
            (λ r w.
              (u : ClientPortalUserEntity) × (c : ClientEntity) × MayLogIn w0 email password u c
              × (r.access_token ≡ crypto.sign (portal_payload u))
              × (r.must_change_password ≡ u.must_change_password))
            Refused
      checks =
          Triple-lookup users w0 _ _ (λ y. tt)
            λ user row found.
              Triple-bind
                (λ _ w. (w ≡ w0) × (accepts users crypto user.password_hash password ≡ true))
                (Triple-throw_if _ _ (λ w c same. (same, eq_true_of_not _ c)) (λ w c h. tt))
                λ _.
                  Triple-bind
                    (λ c w.
                      (clients.get w0 user.client_id ≡ some c)
                      × (accepts users crypto user.password_hash password ≡ true))
                    (Triple-given
                      (λ _. client_or-Reads invalid_credentials user.client_id w0 fresh))
                    λ client.
                      Triple-bind (λ _ w. MayLogIn w0 email password user client)
                        (Triple-throw_if _ _
                          (λ w c h.
                            let (stored, hashed, matches) =
                              accepted user.password_hash password h.1 in
                            record {
                              row = row;
                              email_is =
                                  (eq_iff user.email email).0
                                    (and_true (str_eq user.email email) user.is_active found).0;
                              active = (and_true (str_eq user.email email) user.is_active found).1;
                              stored = stored;
                              hashed = hashed;
                              matches = matches;
                              client_row = h.0;
                              client_active = eq_true_of_not _ c;
                            })
                          (λ w c h. tt))
                        λ _.
                          Triple-pure
                            (record {
                              access_token = crypto.sign (portal_payload user);
                              expires_in = crypto.jwt_expires_in;
                              must_change_password = user.must_change_password;
                            })
                            (λ w h. (user, client, h, refl, refl))

  -- What `assertAccess` has checked for a token of the portal.
  pub record MayAccess (w : W) (payload : JwtPayload) (target : Option String)
      (u : ClientPortalUserEntity) (c : ClientEntity) : Type 0 where
    pub client_id : String
    pub asked : target ≡ some client_id
    pub own : payload.client_id ≡ some client_id
    pub row : users.get w payload.sub ≡ some u
    pub active : u.is_active ≡ true
    pub client_row : clients.get w client_id ≡ some c
    pub client_active : c.is_active ≡ true

  check_target_sound :
      (payload : JwtPayload) (target : Option String) (w0 w : W)
      → IsFresh clients cache w0
      → check_target users crypto clients cache payload target w0 ≡ (ok tt, w)
      → (u : ClientPortalUserEntity) × (c : ClientEntity) × MayAccess w0 payload target u c
  unfolding check_target throw
  check_target_sound payload none w0 w fresh done = cc
  check_target_sound payload (some target) w0 w fresh done =
      elim (Bool-cases (truthy target && holds payload.client_id target)) [
        | inr other ↦ absurd (ground arith)
        | inl own ↦ Triple-ok w0 {w' = w} (checks own) refl (ground arith)
      ]
    where
      checks :
          (truthy target && holds payload.client_id target) ≡ true
          → Triple
              (λ w. w ≡ w0)
              (check_access users crypto clients cache payload target)
              (λ _ w.
                (u : ClientPortalUserEntity) × (c : ClientEntity) × MayAccess w0 payload
                  (some target)
                  u
                  c)
              Refused
      checks own =
          Triple-lookup users w0 _ _ (λ y. tt)
            λ user row found.
              Triple-bind (λ _ w. (w ≡ w0) × (user.is_active ≡ true))
                (Triple-throw_if _ _ (λ w c same. (same, eq_true_of_not _ c)) (λ w c h. tt))
                λ _.
                  Triple-bind (λ c w. (clients.get w0 target ≡ some c) × (user.is_active ≡ true))
                    (Triple-given (λ _. client_or-Reads access_denied target w0 fresh))
                    λ client.
                      Triple-throw_if _ _
                        (λ w c h. (
                          user,
                          client,
                          record {
                            client_id = target;
                            asked = refl;
                            own =
                                holds-some _ _
                                  (and_true (truthy target) (holds payload.client_id target) own).1;
                            row =
                                subst (λ j. users.get w0 j ≡ some user)
                                  ((eq_iff user.id payload.sub).0 found) row;
                            active = h.1;
                            client_row = h.0;
                            client_active = eq_true_of_not _ c;
                          },
                        ))
                        (λ w c h. tt)

  -- In a world where cached clients are fresh, assertAccess lets a token in the portal's scope
  -- through only for its own client, while the account that it names and that client both exist
  -- and are active.
  pub assert_access_sound :
      (payload : JwtPayload) (target : Option String) (w0 w : W)
      → IsFresh clients cache w0
      → payload.scope ≡ some client_portal_scope
      → assert_access users crypto clients cache payload target w0 ≡ (ok tt, w)
      → (u : ClientPortalUserEntity) × (c : ClientEntity) × MayAccess w0 payload target u c
  unfolding assert_access
  assert_access_sound payload target w0 w fresh portal done =
      check_target_sound payload target w0 w fresh (
        subst
          (λ o.
            (if not (holds o client_portal_scope)
                then pure tt
                else check_target users crypto clients cache payload target)
              w0
            ≡ (ok tt, w))
          portal done)

  -- assertAccess lets a token with another scope or none through for every client, and changes
  -- nothing.
  pub assert_access_others :
      (payload : JwtPayload) (target : Option String) (w : W)
      → payload.scope ≢ some client_portal_scope
      → assert_access users crypto clients cache payload target w ≡ (ok tt, w)
  unfolding assert_access pure
  assert_access_others payload target w other =
      elim (Bool-cases (holds payload.scope client_portal_scope)) [
        | inl same ↦ absurd (other (holds-some _ _ same))
        | inr no_portal ↦ rw no_portal
      ]
