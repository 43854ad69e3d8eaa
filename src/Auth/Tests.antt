-- ===== src/Auth/Tests.antt =====
-- The guards and the clients on concrete requests.
use mathlib.Core.Path.{◌≡◌, refl}
use trafego_flow.Common.{none, some, Option, List, String, str_eq, [], ◌∷◌, ◌↔◌, if◌then◌else◌}
use trafego_flow.Common.Text.{split}
use trafego_flow.Common.Http.{ok, err, http, unauthorized}
use trafego_flow.Common.Action.{Post, pure}
use trafego_flow.Clients
use trafego_flow.Clients.{ClientEntity, Clients, UpdateClientDto}
use trafego_flow.Clients.Updates.{IsUpdated}
use trafego_flow.Clients.Freshness.{IsFresh, FreshBut, find_one-IsFresh, update-IsFresh}
use trafego_flow.Auth.{
  admin, JwtPayload, Request, client_portal_scope, upload_token_scope, extract_bearer_token,
  is_master_key,
}
use trafego_flow.Auth.Bearer.{Carries, extract_bearer_token_iff}
use trafego_flow.Auth.Guards.{
  auth_guard, jwt_auth_guard, media_upload_auth_guard, roles_guard, after,
}
use trafego_flow.Auth.Guards.Access.{
  Enters, HasRole, auth_guard_iff, scoped_token, auth_then_roles_iff,
}
use trafego_flow.Auth.Sample.{
  client_rows, client_cache, apart, world, world-IsFresh, renaming, session_payload, portal_payload,
  verify, with_header,
}
use trafego_flow.Common.Memory.{memory}
use trafego_flow.Auth.Service.{UserEntity, Users, Platform, issue_upload_token}
use trafego_flow.Auth.Service.Uploads.{issue_upload_token_confined}

find_one-IsFresh_example :
    Post
      (λ c w.
        (client_rows.get world "c1" ≡ some c)
        × IsFresh client_rows client_cache w
        × (client_rows.get w "c1" ≡ client_rows.get world "c1"))
      (λ e w.
        IsFresh client_rows client_cache w × (client_rows.get w "c1" ≡ client_rows.get world "c1"))
      (Clients.find_one client_rows client_cache "c1" world)
find_one-IsFresh_example = find_one-IsFresh client_rows client_cache apart "c1" world world-IsFresh

update-IsFresh_example :
    Post
      (λ r w.
        IsFresh client_rows client_cache w
        × (client_rows.get w "c1" ≡ r)
        × (c : ClientEntity) × (client_rows.get world "c1" ≡ some c)
        × (new : ClientEntity) × (r ≡ some new)
        × IsUpdated renaming c new)
      (λ e w. FreshBut client_rows client_cache apart "c1" w)
      (Clients.update client_rows client_cache "c1" renaming world)
update-IsFresh_example =
    update-IsFresh client_rows client_cache apart "c1" renaming world world-IsFresh

bearer_test : extract_bearer_token (with_header "Bearer abc") ≡ some "abc"
unfolding extract_bearer_token
bearer_test = refl

extract_bearer_token_iff_example :
    (extract_bearer_token (with_header "Bearer abc") ≡ some "abc") ↔ Carries "Bearer abc" "abc"
extract_bearer_token_iff_example =
    extract_bearer_token_iff (with_header "Bearer abc") "Bearer abc" "abc" refl

abbrev let_in : Request
let_in = record (with_header "Bearer abc") { user = some session_payload }

auth_guard_iff_example :
    (auth_guard verify (some "key") (with_header "Bearer abc") ≡ ok let_in)
    ↔ Enters verify (some "key") (λ _. Unit {0}) (with_header "Bearer abc") let_in
auth_guard_iff_example = auth_guard_iff verify (some "key") (with_header "Bearer abc") let_in

scoped_token_example :
    (auth_guard verify (some "key") (with_header "Bearer portal")
      ≡ err (http unauthorized "This token cannot be used for this endpoint"))
    × (jwt_auth_guard verify (with_header "Bearer portal")
        ≡ err (http unauthorized "This token cannot be used for this endpoint"))
    × ((media_upload_auth_guard verify (some "key") (with_header "Bearer portal")
          ≡ ok (record (with_header "Bearer portal") { user = some portal_payload }))
        ↔ (client_portal_scope ≡ upload_token_scope))
unfolding extract_bearer_token is_master_key
scoped_token_example =
    scoped_token verify (some "key") (with_header "Bearer portal") "portal" client_portal_scope
      portal_payload refl refl refl refl

auth_then_roles_iff_example :
    (after (auth_guard verify (some "key") (with_header "Bearer abc")) (roles_guard (admin ∷ []))
      ≡ ok let_in)
    ↔ Enters verify (some "key") (HasRole (admin ∷ [])) (with_header "Bearer abc") let_in
auth_then_roles_iff_example =
    auth_then_roles_iff verify (some "key") admin [] (with_header "Bearer abc") let_in refl refl

abbrev users : Users (List UserEntity)
users = memory (λ u. u.id) (record { view = λ w. w; put = λ t w. t; view-put = λ t w. refl })

-- the signature of a token for five minutes is `up`
abbrev platform : Platform
platform = record {
  hash = λ salt password. password;
  compare = str_eq;
  sign = λ p expires. if str_eq expires "5m" then "up" else "abc";
  jwt_expires_in = "1d";
}

abbrev upload_of_session : JwtPayload
upload_of_session = record session_payload {
  role = none;
  scope = some "media-upload";
  client_id = none;
}

abbrev verify_upload : String → Option JwtPayload
verify_upload token = if str_eq token "up" then some upload_of_session else none

issue_upload_token_confined_example :
    (auth_guard verify_upload (some "key") (with_header "Bearer up")
      ≡ err (http unauthorized "This token cannot be used for this endpoint"))
    × (jwt_auth_guard verify_upload (with_header "Bearer up")
        ≡ err (http unauthorized "This token cannot be used for this endpoint"))
    × (media_upload_auth_guard verify_upload (some "key") (with_header "Bearer up")
        ≡ ok (record (with_header "Bearer up") { user = some upload_of_session }))
unfolding issue_upload_token extract_bearer_token is_master_key split pure
issue_upload_token_confined_example =
    issue_upload_token_confined users platform verify_upload (some "key") session_payload
      upload_of_session [] [] (record { access_token = "up"; expires_in = "5m" })
      (with_header "Bearer up")
      (record {
        same_sub = refl;
        same_email = refl;
        same_name = refl;
        no_role = refl;
        scoped = refl;
        no_client = refl;
      })
      refl refl refl refl
