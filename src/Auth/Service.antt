-- ===== src/Auth/Service.antt =====
-- modules/auth/auth.service.ts: the administrators, their login and their tokens for uploads.
pub mod Uploads
use Prim.Native.String
use trafego_flow.Common.{
  Bool, true, false, not, ◌&&◌, Option, none, some, String, str_eq, if◌then◌else◌,
}
use trafego_flow.Common.Http.{Exception, http, unauthorized, conflict}
use trafego_flow.Common.Action.{Action, pure, throw, throw_if, query, catch, or_throw, ◌>>=◌, ◌>>◌}
use trafego_flow.Common.Store.{Repository}
use trafego_flow.Clients.{is_unique_violation}
use trafego_flow.Auth.{UserRole, JwtPayload, upload_token_scope}

pub record UserEntity : Type 0 where
  pub id : String
  pub name : String
  pub email : String
  pub password_hash : String
  pub is_active : Bool
  pub role : UserRole

pub record CreateUserDto : Type 0 where
  pub name : String
  pub email : String
  pub password : String
  pub role : UserRole

pub record LoginDto : Type 0 where
  pub email : String
  pub password : String

-- The type of every token is `Bearer`.
pub record LoginResult : Type 0 where
  pub access_token : String
  pub expires_in : String
  pub user : UserEntity

pub record UploadTokenResult : Type 0 where
  pub access_token : String
  pub expires_in : String

-- UPLOAD_TOKEN_EXPIRES_IN
abbrev pub upload_token_expires_in : String
upload_token_expires_in = "5m"

-- bcrypt, the signer of tokens, with the time for which one is valid, and the configuration
pub record Platform : Type 0 where
  pub hash : (salt password : String) → String
  pub compare : (password stored : String) → Bool
  pub sign : JwtPayload → (expires_in : String) → String
  pub jwt_expires_in : String

abbrev pub Users : Type 0 → Type 0
Users W = Repository W UserEntity (λ u. u.id)

abbrev pub user_payload : UserEntity → JwtPayload
user_payload user = record {
  sub = user.id;
  email = some user.email;
  name = some user.name;
  role = some user.role;
  scope = none;
  client_id = none;
}

abbrev pub upload_payload : JwtPayload → JwtPayload
upload_payload current_user = record {
  sub = current_user.sub;
  email = current_user.email;
  name = current_user.name;
  role = none;
  scope = some upload_token_scope;
  client_id = none;
}

abbrev pub new_user : (password_hash : String) → CreateUserDto → String → UserEntity
new_user password_hash dto id = record {
  id = id;
  name = dto.name;
  email = dto.email;
  password_hash = password_hash;
  is_active = true;
  role = dto.role;
}

module _ {W : Type 0} (users : Users W) (platform : Platform) where
  -- `login`
  unfoldable pub login : LoginDto → Action W LoginResult
  login dto = do
    found ← query (users.find_one (λ u. str_eq u.email dto.email && u.is_active))
    user ← or_throw found (http unauthorized "Invalid credentials")
    throw_if (not (platform.compare dto.password user.password_hash))
        (http unauthorized "Invalid credentials")
    pure (record {
      access_token = platform.sign (user_payload user) platform.jwt_expires_in;
      expires_in = platform.jwt_expires_in;
      user = user;
    })

  -- `createUser`
  unfoldable pub create_user : (salt : String) → CreateUserDto → Action W UserEntity
  create_user salt dto = catch (users.insert (new_user (platform.hash salt dto.password) dto)) λ e.
      if is_unique_violation e
      then throw (http conflict "A user with this email already exists")
      else throw e

  -- `issueUploadToken`
  unfoldable pub issue_upload_token : JwtPayload → Action W UploadTokenResult
  issue_upload_token current_user = pure (record {
    access_token = platform.sign (upload_payload current_user) upload_token_expires_in;
    expires_in = upload_token_expires_in;
  })

  -- `findById`
  unfoldable pub find_by_id : String → Action W UserEntity
  find_by_id id = do
    found ← query (users.find_one (λ u. str_eq u.id id && u.is_active))
    or_throw found (http unauthorized "User no longer exists or is inactive")
