-- ===== src/Auth.antt =====
-- modules/auth: the token payload and the request that the guards of common/guards and
-- modules/auth/guards pass on.
pub mod Bearer
pub mod Guards
pub mod Portal
pub mod Service
pub mod PortalGuards
mod Sample
mod Tests
mod PortalTests
use Prim.Native.String.{String}
use trafego_flow.Common.{
  Bool, false, Option, none, some, List, [], ◌∷◌, not, ◌&&◌, str_eq, if◌then◌else◌,
}
use trafego_flow.Common.Text.{truthy, truthy?, split}

-- constants/user-role.constant.ts
pub data UserRole : Type 0 where
  admin member : UserRole

abbrev pub client_portal_scope : String
client_portal_scope = "client-portal"

abbrev pub upload_token_scope : String
upload_token_scope = "media-upload"

-- interfaces/auth-service.interface.ts. A token of the client portal has no email and no name.
pub record JwtPayload : Type 0 where
  pub sub : String
  pub email : Option String
  pub name : Option String
  pub role : Option UserRole
  pub scope : Option String
  pub client_id : Option String

-- `authMethod?: 'api-key'`
pub data AuthMethod : Type 0 where
  api_key : AuthMethod

-- `RequestWithUser`: the two headers that a guard reads, and what a guard sets.
pub record Request : Type 0 where
  pub x_api_key : Option String
  pub authorization : Option String
  pub user : Option JwtPayload
  pub auth_method : Option AuthMethod

-- the first two pieces of the header
abbrev bearer_of : List String → Option String
bearer_of (scheme ∷ token ∷ rest) =
    if str_eq scheme "Bearer" && truthy token then some token else none
bearer_of _ = none

abbrev pieces : Option String → List String
pieces none = []
pieces (some header) = split " " header

-- `extractBearerToken`
unfoldable pub extract_bearer_token : Request → Option String
unfolding split
extract_bearer_token request = bearer_of (pieces request.authorization)

-- `apiKey && apiKey === config.get('app.masterApiKey')`
unfoldable pub is_master_key : (master : Option String) → Option String → Bool
is_master_key none key = false
is_master_key (some master) none = false
is_master_key (some master) (some key) = truthy key && str_eq key master
