-- ===== src/Auth/PortalGuards.antt =====
-- common/guards/client-portal-auth.guard.ts and modules/auth/guards/client-portal-scope.guard.ts:
-- the guards of the routes that a client of the portal may use.
pub mod Isolation
use Prim.Native.String.{String}
use trafego_flow.Common.{
  Bool, true, false, Option, none, some, not, ◌&&◌, str_eq, or_option, if◌then◌else◌,
}
use trafego_flow.Common.Http.{Exception, http, unauthorized, forbidden}
use trafego_flow.Common.Action.{Action, pure, throw, ◌>>=◌, ◌>>◌}
use trafego_flow.Common.Store.{Cache}
use trafego_flow.Clients.{Clients, ClientEntity}
use trafego_flow.Auth.{
  JwtPayload, Request, extract_bearer_token, is_master_key, client_portal_scope,
}
use trafego_flow.Auth.Guards.{foreign_scope, unauthorized_error}
use trafego_flow.Auth.Portal.{PortalUsers, Crypto, assert_access, holds}

-- `query !== undefined && body !== undefined && query !== body`
abbrev pub disagree : Option String → Option String → Bool
disagree (some q) (some b) = not (str_eq q b)
disagree _ _ = false

module _ {W : Type 0} (users : PortalUsers W) (crypto : Crypto) (clients : Clients W)
    (cache : Cache W ClientEntity) where
  module _ (verify : String → Option JwtPayload) (master : Option String) where
    admit : Request → JwtPayload → Action W Request
    admit request payload =
        if foreign_scope client_portal_scope payload.scope
        then throw (unauthorized_error "This token cannot be used for the client portal")
        else if holds payload.scope client_portal_scope
        then (do
          assert_access users crypto clients cache payload payload.client_id
          pure (record request { user = some payload }))
        else pure (record request { user = some payload })

    admit_verified : Request → Option JwtPayload → Action W Request
    unfolding admit
    admit_verified request none = throw (unauthorized_error "Invalid or expired token")
    admit_verified request (some payload) = admit request payload

    admit_token : Request → Option String → Action W Request
    unfolding admit_verified
    admit_token request none = throw (unauthorized_error "Provide a valid API key or Bearer token")
    admit_token request (some token) = admit_verified request (verify token)

    -- `ClientPortalAuthGuard.canActivate`
    unfoldable pub client_portal_auth_guard : Request → Action W Request
    unfolding admit_token
    client_portal_auth_guard request =
        if is_master_key master request.x_api_key
        then pure request
        else admit_token request (extract_bearer_token request)

  check_scope : (query body : Option String) → Option JwtPayload → Action W (Unit {0})
  check_scope query body none = pure tt
  check_scope query body (some user) =
      if disagree query body
      then throw (http forbidden "clientId in query and body must match")
      else assert_access users crypto clients cache user (or_option query body)

  -- `ClientPortalScopeGuard.canActivate`, given the `clientId` of the query string and of the body
  unfoldable pub client_portal_scope_guard :
      (query body : Option String) → Request → Action W Request
  unfolding check_scope
  client_portal_scope_guard query body request = do
    check_scope query body request.user
    pure request
