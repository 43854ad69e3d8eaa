-- ===== src/Auth/Service/Uploads.antt =====
-- modules/auth/auth.service.ts: how far a token for uploads reaches, by common/guards.
use trafego_flow.Common.{◌≡◌, refl, sym, ap, ◌∙◌, false, Option, none, some, String}
use trafego_flow.Common.Http.{ok, err, http, unauthorized}
use trafego_flow.Common.Action.{pure}
use trafego_flow.Auth.{JwtPayload, Request, upload_token_scope, extract_bearer_token, is_master_key}
use trafego_flow.Auth.Guards.{auth_guard, jwt_auth_guard, media_upload_auth_guard}
use trafego_flow.Auth.Guards.Access.{scoped_token}
use trafego_flow.Auth.Service.{
  Users, Platform, UploadTokenResult, upload_payload, issue_upload_token,
}

-- What a token for uploads says of a user: who it is, the scope, and no role.
pub record UploadsAs (current_user payload : JwtPayload) : Type 0 where
  pub same_sub : payload.sub ≡ current_user.sub
  pub same_email : payload.email ≡ current_user.email
  pub same_name : payload.name ≡ current_user.name
  pub no_role : payload.role ≡ none
  pub scoped : payload.scope ≡ some "media-upload"
  pub no_client : payload.client_id ≡ none

payload_eq :
    (current_user payload : JwtPayload)
    → UploadsAs current_user payload
    → payload ≡ upload_payload current_user
payload_eq current_user payload says i = record {
  sub = says.same_sub i;
  email = says.same_email i;
  name = says.same_name i;
  role = says.no_role i;
  scope = says.scoped i;
  client_id = says.no_client i;
}

module _ {W : Type 0} (users : Users W) (platform : Platform) (verify : String → Option JwtPayload)
    (master : Option String) where
  -- Where the payload that names a user, with its id, email and name, the scope of uploads and
  -- neither a role nor a client, verifies once it is signed for five minutes: without the master
  -- key, a request that carries a token that issueUploadToken has made for that user is refused by
  -- AuthGuard and JwtAuthGuard, and MediaUploadAuthGuard lets it through with that payload.
  pub issue_upload_token_confined :
      (current_user payload : JwtPayload) (w w' : W) (r : UploadTokenResult) (request : Request)
      → UploadsAs current_user payload
      → verify (platform.sign payload "5m") ≡ some payload
      → issue_upload_token users platform current_user w ≡ (ok r, w')
      → is_master_key master request.x_api_key ≡ false
      → extract_bearer_token request ≡ some r.access_token
      → (auth_guard verify master request
          ≡ err (http unauthorized "This token cannot be used for this endpoint"))
        × (jwt_auth_guard verify request
            ≡ err (http unauthorized "This token cannot be used for this endpoint"))
        × (media_upload_auth_guard verify master request
            ≡ ok (record request { user = some payload }))
  unfolding issue_upload_token pure
  issue_upload_token_confined current_user payload w w' r request says verified issued key carried =
      let token : platform.sign (upload_payload current_user) "5m" ≡ r.access_token = cc issued in
      let same = payload_eq current_user payload says in
      let (refused, also, passed) =
        scoped_token verify master request r.access_token upload_token_scope payload key carried
          (ap verify (sym token ∙ ap (λ p. platform.sign p "5m") (sym same)) ∙ verified)
          says.scoped in
      (refused, also, passed.1 refl)
