-- ===== src/Auth/Portal.antt =====
-- modules/auth/client-portal-auth.service.ts: the accounts of the client portal.
pub mod Access
pub mod Passwords
use Prim.Native.String
use Prim.Native.String.{String}
use trafego_flow.Common.{
  ℕ, ◌+◌, ◌≡◌, Bool, true, false, Option, none, some, not, ◌&&◌, ◌||◌, str_eq, leb, if◌then◌else◌,
}
use trafego_flow.Common.Text.{truthy?}
use trafego_flow.Common.Http.{
  Exception, http, query_failed, bad_request, unauthorized, forbidden, not_found, conflict, Result,
}
use trafego_flow.Common.Action.{Action, pure, throw, query, catch, throw_if, or_throw, ◌>>=◌, ◌>>◌}
use trafego_flow.Common.Store.{Repository, Cache}
use trafego_flow.Clients
use trafego_flow.Clients.{Clients, ClientEntity}
use trafego_flow.Auth.{JwtPayload, client_portal_scope}

-- entities/client-portal-user.entity.ts; times are milliseconds since the epoch
pub record ClientPortalUserEntity : Type 0 where
  pub id : String
  pub client_id : String
  pub email : String
  pub password_hash : Option String
  pub is_active : Bool
  pub must_change_password : Bool
  pub password_reset_token_hash : Option String
  pub password_reset_expires_at : Option ℕ

abbrev pub PortalUsers : Type 0 → Type 0
PortalUsers W = Repository W ClientPortalUserEntity (λ u. u.id)

-- CLIENT_PORTAL_RESET_TOKEN_TTL_MS
abbrev pub reset_token_ttl_ms : ℕ
reset_token_ttl_ms = 3600000

-- What the service relies on of bcrypt, SHA-256, the JWT signer and the configuration.
-- `hash salt password` is `bcrypt.hash`, which draws the salt.
pub record Crypto : Type 0 where
  pub hash : (salt password : String) → String
  pub compare : (password stored : String) → Bool
  pub compare-hash : (salt password : String) → compare password (hash salt password) ≡ true
  pub sha256 : String → String
  pub sign : JwtPayload → String
  pub default_password : String
  pub jwt_expires_in : String

-- `ClientPortalLoginResult`
pub record LoginResult : Type 0 where
  pub access_token : String
  pub expires_in : String
  pub must_change_password : Bool

-- a nullable column compared with a value
abbrev pub holds : Option String → String → Bool
holds none s = false
holds (some t) s = str_eq t s

abbrev pub invalid_credentials : Exception
invalid_credentials = http unauthorized "Invalid credentials"

abbrev pub account_not_found : Exception
account_not_found = http not_found "Client portal account not found"

abbrev pub access_denied : Exception
access_denied = http forbidden "Access denied"

abbrev pub invalid_current : Exception
invalid_current = http bad_request "Invalid current password"

abbrev pub invalid_token : Exception
invalid_token = http unauthorized "Invalid or expired token"

-- `err instanceof NotFoundException`
pub is_not_found : Exception → Bool
is_not_found (http not_found message) = true
is_not_found _ = false

-- what `createAccount` throws instead of an error of the database
pub account_error : Exception → Exception
account_error (query_failed (some code) constraint) =
    if str_eq code "23505"
    then (if holds constraint "UQ_client_portal_users_client_id"
        then http conflict "This client already has a portal account"
        else http conflict "A client portal account with this email already exists")
    else if str_eq code "23503"
    then http not_found "Client not found"
    else query_failed (some code) constraint
account_error e = e

-- the payload that `login` signs
abbrev pub portal_payload : ClientPortalUserEntity → JwtPayload
portal_payload user = record {
  sub = user.id;
  email = none;
  name = none;
  role = none;
  scope = some client_portal_scope;
  client_id = some user.client_id;
}

module _ {W : Type 0} (users : PortalUsers W) (crypto : Crypto) where
  abbrev new_account : (client_id email salt id : String) → ClientPortalUserEntity
  new_account client_id email salt id = record {
    id = id;
    client_id = client_id;
    email = email;
    password_hash = some (crypto.hash salt crypto.default_password);
    is_active = true;
    must_change_password = true;
    password_reset_token_hash = none;
    password_reset_expires_at = none;
  }

  -- `createAccount`
  unfoldable pub create_account : (client_id email salt : String) → Action W ClientPortalUserEntity
  unfolding account_error
  create_account client_id email salt =
      catch (users.insert (new_account client_id email salt)) λ e. throw (account_error e)

  -- `resetToDefaultPassword`
  unfoldable pub reset_to_default_password : (id salt : String) → Action W (Unit {0})
  reset_to_default_password id salt = do
    found ← query (users.find_one (λ u. str_eq u.id id))
    user ← or_throw found account_not_found
    users.save (record user {
      password_hash = some (crypto.hash salt crypto.default_password);
      must_change_password = true;
      password_reset_token_hash = none;
      password_reset_expires_at = none;
    })
    pure tt

  -- `findByClient`
  unfoldable pub find_by_client : String → Action W (Option ClientPortalUserEntity)
  find_by_client client_id = query (users.find_one (λ u. str_eq u.client_id client_id))

  -- `findById`
  unfoldable pub find_by_id : String → Action W ClientPortalUserEntity
  find_by_id id = do
    found ← query (users.find_one (λ u. str_eq u.id id))
    or_throw found account_not_found

  -- `remove`
  unfoldable pub remove : String → Action W (Unit {0})
  remove id = do
    found ← query (users.find_one (λ u. str_eq u.id id))
    or_throw found account_not_found
    users.delete id

  -- `setActive`
  unfoldable pub set_active : String → Bool → Action W ClientPortalUserEntity
  set_active id is_active = do
    found ← query (users.find_one (λ u. str_eq u.id id))
    user ← or_throw found account_not_found
    users.save (record user { is_active = is_active })

  -- `passwordHash === null` or a comparison that fails
  accepts : Option String → String → Bool
  accepts none password = false
  accepts (some stored) password = crypto.compare password stored

  -- `changePassword`
  unfoldable pub change_password :
      (user_id old_password new_password salt : String) → Action W (Unit {0})
  unfolding accepts
  change_password user_id old_password new_password salt = do
    found ← query (users.find_one (λ u. str_eq u.id user_id))
    user ← or_throw found invalid_current
    throw_if (not (accepts user.password_hash old_password)) invalid_current
    users.save (record user {
      password_hash = some (crypto.hash salt new_password);
      must_change_password = false;
    })
    pure tt

  -- `generateAndStoreToken`, with the random token and the clock given
  unfoldable pub generate_and_store_token :
      (token : String) (now : ℕ) → ClientPortalUserEntity → Action W String
  generate_and_store_token token now user = do
    users.save (record user {
      password_reset_token_hash = some (crypto.sha256 token);
      password_reset_expires_at = some (now + reset_token_ttl_ms);
    })
    pure token

  -- `forgotPassword`. What is not awaited, the email to the user that was found, is returned as a
  -- task that runs after the caller has been answered.
  unfoldable pub forgot_password : String → Action W (Option ClientPortalUserEntity)
  forgot_password email = query (users.find_one (λ u. str_eq u.email email && u.is_active))

  -- `!expiresAt || expiresAt.getTime() <= Date.now()`
  abbrev expired : ℕ → Option ℕ → Bool
  expired now none = true
  expired now (some at) = leb at now

  -- `resetPassword`
  unfoldable pub reset_password : (token password salt : String) (now : ℕ) → Action W (Unit {0})
  reset_password token password salt now = do
    found ← query (users.find_one (λ u. holds u.password_reset_token_hash (crypto.sha256 token)))
    user ← or_throw found invalid_token
    throw_if (expired now user.password_reset_expires_at) invalid_token
    users.save (record user {
      password_hash = some (crypto.hash salt password);
      password_reset_token_hash = none;
      password_reset_expires_at = none;
    })
    pure tt

  module _ (clients : Clients W) (cache : Cache W ClientEntity) where
    -- `try { clientsService.findOne } catch`, where a missing client is `denied`
    abbrev client_or : Exception → String → Action W ClientEntity
    client_or denied id =
        catch (Clients.find_one clients cache id)
          λ e. if is_not_found e then throw denied else throw e

    -- `login`
    unfoldable pub login : (email password : String) → Action W LoginResult
    unfolding accepts
    login email password = do
      found ← query (users.find_one (λ u. str_eq u.email email && u.is_active))
      user ← or_throw found invalid_credentials
      throw_if (not (accepts user.password_hash password)) invalid_credentials
      client ← client_or invalid_credentials user.client_id
      throw_if (not client.is_active) invalid_credentials
      pure (record {
        access_token = crypto.sign (portal_payload user);
        expires_in = crypto.jwt_expires_in;
        must_change_password = user.must_change_password;
      })

    -- the checks of `assertAccess` for a token of the portal and the client that it is for
    check_access : JwtPayload → String → Action W (Unit {0})
    check_access payload target = do
      found ← query (users.find_one (λ u. str_eq u.id payload.sub))
      user ← or_throw found access_denied
      throw_if (not user.is_active) access_denied
      client ← client_or access_denied target
      throw_if (not client.is_active) access_denied

    check_target : JwtPayload → Option String → Action W (Unit {0})
    unfolding check_access
    check_target payload none = throw access_denied
    check_target payload (some target) =
        if not (truthy? (some target) && holds payload.client_id target)
        then throw access_denied
        else check_access payload target

    -- `assertAccess`
    unfoldable pub assert_access : JwtPayload → Option String → Action W (Unit {0})
    unfolding check_target
    assert_access payload target =
        if not (holds payload.scope client_portal_scope)
        then pure tt
        else check_target payload target

    -- `ClientPortalAuthService.sendResetPasswordEmail`, over what sends a mail
    unfoldable pub send_reset_password_email :
        (send : (to link : String) → Action W (Unit {0})) (portal_url token : String) (now : ℕ)
        → ClientPortalUserEntity
        → Action W (Unit {0})
    send_reset_password_email send portal_url token now user = do
      stored ← generate_and_store_token token now user
      send user.email (String.◌++◌ portal_url (String.◌++◌ "/redefinir-senha?token=" stored))
