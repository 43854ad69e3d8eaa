-- ===== src/Auth/Portal/Passwords.antt =====
-- modules/auth/client-portal-auth.service.ts: the operations that write an account, by what they do
-- to the table of accounts.
use mathlib.Core.Path.{subst}
use trafego_flow.Common.{
  ℕ, ◌<◌, ◌≡◌, refl, ap, ◌∙◌, true, false, Option, none, some, str_eq, arith, eq_iff, if◌then◌else◌,
  String, Bool-cases, Option-cases, inl, inr,
}
use trafego_flow.Common.Http.{Exception, ok, err}
use trafego_flow.Common.Action.{
  Post, Triple, Triple-bind, Triple-pure, Triple-throw_if, Triple-step, Triple-given, Triple-ok,
  Triple-fails,
}
use trafego_flow.Common.Rows.{Triple-lookup}
use trafego_flow.Auth.Portal.{
  PortalUsers, ClientPortalUserEntity, Crypto, reset_password, change_password,
  reset_to_default_password, accepts, holds, expired,
}

pub holds-some : (o : Option String) (s : String) → holds o s ≡ true → o ≡ some s
holds-some none s h = cc
holds-some (some t) s h = ap some ((eq_iff t s).0 h)

module _ {W : Type 0} (users : PortalUsers W) where
  -- The table is that of `w0` but for one row, the one with the id of `u`, which is now `u`.
  abbrev pub Writes : W → ClientPortalUserEntity → W → Type 0
  Writes w0 u w = (j : String) → users.get w j ≡ (if str_eq u.id j then some u else users.get w0 j)

  -- The table is that of `w0`.
  abbrev pub Unchanged : W → W → Type 0
  Unchanged w0 w = (j : String) → users.get w j ≡ users.get w0 j

  -- From `w0`, a write of an account that has a row.
  pub save-Writes :
      (w0 : W) (u : ClientPortalUserEntity)
      → Triple (λ w. w ≡ w0) (users.save u) (λ u' w. Writes w0 u w) (λ _. Unchanged w0)
  save-Writes w0 u =
      Triple-step _
        (λ w w' u' e same j.
          (users.save_ok u w e).1 j
          ∙ ap (λ v. if str_eq u.id j then some u else users.get v j) same)
        (λ w w' x e same j. users.save_err u w e j ∙ ap (λ v. users.get v j) same)

  module _ (crypto : Crypto) where
    -- The row that an unexpired reset token belongs to.
    pub record Redeems (w : W) (token : String) (now : ℕ) (u : ClientPortalUserEntity)
        : Type 0 where
      pub row : users.get w u.id ≡ some u
      pub hashed : u.password_reset_token_hash ≡ some (crypto.sha256 token)
      pub at : ℕ
      pub expires : u.password_reset_expires_at ≡ some at
      pub in_time : now < at

    abbrev pub redeemed : ClientPortalUserEntity → (password salt : String) → ClientPortalUserEntity
    redeemed u password salt = record u {
      password_hash = some (crypto.hash salt password);
      password_reset_token_hash = none;
      password_reset_expires_at = none;
    }

    pub reset_password-Writes :
        (token password salt : String) (now : ℕ) (w0 : W)
        → Triple
            (λ w. w ≡ w0)
            (reset_password users crypto token password salt now)
            (λ _ w.
              (u : ClientPortalUserEntity) × Redeems w0 token now u
              × Writes w0 (redeemed u password salt) w)
            (λ _. Unchanged w0)
    unfolding reset_password
    reset_password-Writes token password salt now w0 =
        Triple-lookup users w0 _ _ (λ y j. refl)
          λ user row hashed.
            Triple-bind (λ _ w. (w ≡ w0) × Redeems w0 token now user)
              (Triple-throw_if _ _ (λ w c same. (same, redeems user row hashed c))
                (λ w c same j. ap (λ v. users.get v j) same))
              λ _.
                Triple-bind _ (Triple-given (λ _. save-Writes w0 (redeemed user password salt)))
                  λ _. Triple-pure tt (λ w h. (user, h.1, h.0))
      where
        redeems :
            (user : ClientPortalUserEntity)
            → users.get w0 user.id ≡ some user
            → holds user.password_reset_token_hash (crypto.sha256 token) ≡ true
            → expired users crypto now user.password_reset_expires_at ≡ false
            → Redeems w0 token now user
        redeems user row hashed fresh = elim (Option-cases user.password_reset_expires_at) [
          | inl never ↦ ground arith
          | inr (at, e) ↦ record {
            row = row;
            hashed = holds-some _ _ hashed;
            at = at;
            expires = e;
            in_time = ground arith;
          }
        ]

    pub change_password-Triple :
        (id old_password new_password salt : String) (w0 : W)
        → Triple
            (λ w. w ≡ w0)
            (change_password users crypto id old_password new_password salt)
            (λ _ w.
              (u : ClientPortalUserEntity) × (users.get w0 id ≡ some u)
              × ((stored : String) × (u.password_hash ≡ some stored)
                  × (crypto.compare old_password stored ≡ true))
              × Writes w0
                  (record u {
                    password_hash = some (crypto.hash salt new_password);
                    must_change_password = false;
                  })
                  w)
            (λ _. Unchanged w0)
    unfolding change_password accepts
    change_password-Triple id old_password new_password salt w0 =
        Triple-lookup users w0 _ _ (λ y j. refl)
          λ user row same_id.
            Triple-bind
              (λ _ w. (w ≡ w0) × (accepts users crypto user.password_hash old_password ≡ true))
              (Triple-throw_if _ _ (λ w c same. (same, ground arith))
                (λ w c same j. ap (λ v. users.get v j) same))
              λ _. Triple-bind _ (Triple-given (λ _. save-Writes w0 _)) λ _. Triple-pure tt (λ w h.
                (
                  user,
                  subst (λ j. users.get w0 j ≡ some user) ((eq_iff user.id id).0 same_id) row,
                  known user.password_hash h.1,
                  h.0,
                ))
      where
        known :
            (o : Option String)
            → accepts users crypto o old_password ≡ true
            → (stored : String) × (o ≡ some stored) × (crypto.compare old_password stored ≡ true)
        known none h = cc
        known (some stored) h = (stored, refl, h)

    -- The account after a reset by an administrator.
    abbrev pub defaulted : ClientPortalUserEntity → String → ClientPortalUserEntity
    defaulted u salt = record u {
      password_hash = some (crypto.hash salt crypto.default_password);
      must_change_password = true;
      password_reset_token_hash = none;
      password_reset_expires_at = none;
    }

    pub reset_to_default_password-Triple :
        (id salt : String) (w0 : W)
        → Triple
            (λ w. w ≡ w0)
            (reset_to_default_password users crypto id salt)
            (λ _ w.
              (u : ClientPortalUserEntity) × (users.get w0 id ≡ some u)
              × Writes w0 (defaulted u salt) w)
            (λ _. Unchanged w0)
    unfolding reset_to_default_password
    reset_to_default_password-Triple id salt w0 =
        Triple-lookup users w0 _ _ (λ y j. refl)
          λ user row same_id. Triple-bind _ (save-Writes w0 (defaulted user salt)) λ _.
            Triple-pure tt (λ w h. (
              user,
              subst (λ j. users.get w0 j ≡ some user) ((eq_iff user.id id).0 same_id) row,
              h,
            ))

    -- No two accounts wait for the same reset token.
    abbrev pub TokensDistinct : W → Type 0
    TokensDistinct w =
        (i j : String) (u v : ClientPortalUserEntity) (h : String)
        → users.get w i ≡ some u
        → users.get w j ≡ some v
        → u.password_reset_token_hash ≡ some h
        → v.password_reset_token_hash ≡ some h
        → i ≡ j

    no_redeem :
        (token password salt : String) (now now' : ℕ) (w0 w : W) (u v : ClientPortalUserEntity)
        → TokensDistinct w0
        → Redeems w0 token now u
        → Writes w0 (redeemed u password salt) w
        → Redeems w token now' v
        → ⊥
    no_redeem token password salt now now' w0 w u v distinct first written second =
        elim (Bool-cases (str_eq u.id v.id)) [
          | inl same ↦ ground (arith, written v.id, second.row, second.hashed)
          | inr other ↦
              let old : users.get w0 v.id ≡ some v = ground (arith, written v.id, second.row) in
              let same = distinct u.id v.id u v _ first.row old first.hashed second.hashed in
              cc ((eq_iff u.id v.id).1 same)
        ]

    -- Where no two accounts wait for the same reset token, after a successful reset every further
    -- reset with that token, at any time and to any password, throws and changes no account.
    pub reset_token_once :
        (token password salt : String) (now : ℕ) (w0 w : W)
        → TokensDistinct w0
        → reset_password users crypto token password salt now w0 ≡ (ok tt, w)
        → (password' salt' : String) (now' : ℕ)
        → (e : Exception) × (w' : W) × (reset_password users crypto token password' salt' now' w
            ≡ (err e, w'))
          × Unchanged w w'
    reset_token_once token password salt now w0 w distinct done password' salt' now' =
        let (u, first, written) =
          Triple-ok w0 (reset_password-Writes token password salt now w0) refl done in
        Triple-fails w (reset_password-Writes token password' salt' now' w) refl
          λ _ w' h. no_redeem token password salt now now' w0 w u h.0 distinct first written h.1

    -- A successful password reset finds the account whose unexpired token was given, stores the
    -- new password, takes the token away and changes no other account; one that throws changes no
    -- account.
    pub reset_password-Redeems :
        (token password salt : String) (now : ℕ) (w : W)
        → Post
            (λ _ w'.
              (u : ClientPortalUserEntity) × Redeems w token now u
              × Writes w (redeemed u password salt) w')
            (λ _ w'. Unchanged w w')
            (reset_password users crypto token password salt now w)
    reset_password-Redeems token password salt now w =
        (reset_password-Writes token password salt now w).at w refl

    -- A successful change of password was asked for with the account's current password, stores
    -- the new one, ends the obligation to change it and changes no other account; one that throws
    -- changes no account.
    pub change_password-Writes :
        (id old_password new_password salt : String) (w : W)
        → Post
            (λ _ w'.
              (u : ClientPortalUserEntity) × (users.get w id ≡ some u)
              × ((stored : String) × (u.password_hash ≡ some stored)
                  × (crypto.compare old_password stored ≡ true))
              × Writes w
                  (record u {
                    password_hash = some (crypto.hash salt new_password);
                    must_change_password = false;
                  })
                  w')
            (λ _ w'. Unchanged w w')
            (change_password users crypto id old_password new_password salt w)
    change_password-Writes id old_password new_password salt w =
        (change_password-Triple id old_password new_password salt w).at w refl

    -- A successful reset to the default password finds the account, obliges its user to choose
    -- another password, takes a pending reset token away and changes no other account; one that
    -- throws changes no account.
    pub reset_to_default_password-Writes :
        (id salt : String) (w : W)
        → Post
            (λ _ w'.
              (u : ClientPortalUserEntity) × (users.get w id ≡ some u)
              × Writes w (defaulted u salt) w')
            (λ _ w'. Unchanged w w')
            (reset_to_default_password users crypto id salt w)
    reset_to_default_password-Writes id salt w =
        (reset_to_default_password-Triple id salt w).at w refl
