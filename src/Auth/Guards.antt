-- ===== src/Auth/Guards.antt =====
-- common/guards and modules/auth/guards/jwt-auth.guard.ts: the guards that decide from the request
-- alone. A guard throws, or returns the request as it has changed it.
pub mod Access
use trafego_flow.Common.{
  Bool, true, false, Option, none, some, String, str_eq, List, [], ◌∷◌, not, ◌&&◌, ◌||◌,
  if◌then◌else◌, is_some,
}
use trafego_flow.Common.Http.{Exception, http, unauthorized, forbidden, Result, ok, err}
use trafego_flow.Auth.{
  UserRole, admin, member, JwtPayload, Request, AuthMethod, extract_bearer_token, is_master_key,
  upload_token_scope, api_key,
}

abbrev pub unauthorized_error : String → Exception
unauthorized_error message = http unauthorized message

-- `payload.scope !== undefined && payload.scope !== scope`
abbrev pub foreign_scope : (scope : String) → Option String → Bool
foreign_scope scope none = false
foreign_scope scope (some s) = not (str_eq s scope)

-- `roles.includes(role)`
pub includes_role : List UserRole → UserRole → Bool
includes_role [] role = false
includes_role (admin ∷ roles) admin = true
includes_role (member ∷ roles) member = true
includes_role (_ ∷ roles) role = includes_role roles role

-- `verify` is `jwtService.verifyAsync`: the payload of a token with a valid signature that has not
-- expired. `master` is the configured key `app.masterApiKey`.
module _ (verify : String → Option JwtPayload) where
  -- the part of `AuthGuard` and `JwtAuthGuard` after the token has been found
  session : Request → Option JwtPayload → Result Request
  session request none = err (unauthorized_error "Invalid or expired token")
  session request (some payload) =
      if is_some payload.scope
      then err (unauthorized_error "This token cannot be used for this endpoint")
      else ok (record request { user = some payload })

  session_of : Exception → Request → Option String → Result Request
  unfolding session
  session_of missing request none = err missing
  session_of missing request (some token) = session request (verify token)

  -- `JwtAuthGuard.canActivate`
  unfoldable pub jwt_auth_guard : Request → Result Request
  unfolding session_of
  jwt_auth_guard request =
      session_of (unauthorized_error "Missing Bearer token") request (extract_bearer_token request)

  module _ (master : Option String) where
    -- `ApiKeyGuard.canActivate`
    unfoldable pub api_key_guard : Request → Result Request
    api_key_guard request =
        if not (is_master_key master request.x_api_key)
        then err (unauthorized_error "Invalid or missing API key")
        else ok request

    -- `AuthGuard.canActivate`
    unfoldable pub auth_guard : Request → Result Request
    unfolding session_of
    auth_guard request =
        if is_master_key master request.x_api_key
        then ok (record request { auth_method = some api_key })
        else session_of (unauthorized_error "Provide a valid API key or Bearer token") request
            (extract_bearer_token request)

    upload : Request → Option JwtPayload → Result Request
    upload request none = err (unauthorized_error "Invalid or expired token")
    upload request (some payload) =
        if foreign_scope upload_token_scope payload.scope
        then err (unauthorized_error "This token cannot be used for uploads")
        else ok (record request { user = some payload })

    upload_of : Request → Option String → Result Request
    unfolding upload
    upload_of request none = err (unauthorized_error "Provide a valid API key or Bearer token")
    upload_of request (some token) = upload request (verify token)

    -- `MediaUploadAuthGuard.canActivate`
    unfoldable pub media_upload_auth_guard : Request → Result Request
    unfolding upload_of
    media_upload_auth_guard request =
        if is_master_key master request.x_api_key
        then ok request
        else upload_of request (extract_bearer_token request)

-- the part of `RolesGuard` where a user is known
require_user : List UserRole → Request → Option UserRole → Result Request
require_user roles request none = err (http forbidden "Insufficient role for this action")
require_user roles request (some role) =
    if includes_role roles role
    then ok request
    else err (http forbidden "Insufficient role for this action")

-- the part of `RolesGuard` where a role is required
require_role : List UserRole → Request → Option JwtPayload → Result Request
unfolding require_user includes_role
require_role roles request none =
    if is_some request.auth_method
    then ok request
    else err (http forbidden "Insufficient role for this action")
require_role roles request (some user) = require_user roles request user.role

-- `RolesGuard.canActivate`; `roles` is what the `@Roles` decorator requires
unfoldable pub roles_guard : List UserRole → Request → Result Request
unfolding require_role
roles_guard [] request = ok request
roles_guard (role ∷ roles) request = require_role (role ∷ roles) request request.user

-- `@UseGuards(first, second)`: the second guard sees the request as the first has changed it.
abbrev pub after : Result Request → (Request → Result Request) → Result Request
after (ok request) guard = guard request
after (err e) guard = err e
