-- ===== src/Auth/PortalTests.antt =====
-- The accounts of the portal on concrete requests.
use mathlib.Core.Path.{◌≡◌, refl}
use trafego_flow.Common.{false, Option, none, some, [], ◌∷◌, ◌⊎◌, String, eq_iff, arith}
use trafego_flow.Common.Http.{Exception, ok, err}
use trafego_flow.Common.Memory.{first}
use trafego_flow.Common.Action.{catch, Post, ◌>>=◌}
use trafego_flow.Clients
use trafego_flow.Clients.{ClientEntity, Clients, UpdateClientDto}
use trafego_flow.Auth.{Request, extract_bearer_token, is_master_key}
use trafego_flow.Auth.Portal.{
  LoginResult, portal_payload as payload_of, ClientPortalUserEntity, login, assert_access,
  reset_password,
}
use trafego_flow.Auth.Portal.Passwords.{
  reset_password-Redeems, reset_token_once, TokensDistinct, Redeems, Unchanged, Writes, redeemed,
}
use trafego_flow.Auth.Portal.Access.{login_sound, MayLogIn, assert_access_sound, MayAccess}
use trafego_flow.Auth.PortalGuards.{client_portal_auth_guard, client_portal_scope_guard}
use trafego_flow.Auth.PortalGuards.Isolation.{
  client_portal_scope_guard_sound, client_portal_auth_guard_sound, Passes,
}
use trafego_flow.Auth.Sample.{
  World, accounts, client_rows, client_cache, apart, crypto, acme, ann, world, world-IsFresh,
  portal_payload, verify, with_header,
}

abbrev after_reset : World
after_reset = record world {
  accounts =
      record ann {
        password_hash = some "new";
        password_reset_token_hash = none;
        password_reset_expires_at = none;
      }
      ∷ ann
      ∷ [];
}

reset_runs : reset_password accounts crypto "t1" "new" "salt" 999 world ≡ (ok tt, after_reset)
unfolding reset_password ◌>>=◌ first
reset_runs = refl

world-TokensDistinct : TokensDistinct accounts crypto world
world-TokensDistinct i j u v h p q a b = ground (arith, eq_iff "u1" i, eq_iff "u1" j)

reset_token_once_example :
    (e : Exception) × (w : World) × (reset_password accounts crypto "t1" "again" "salt" 5
        after_reset
      ≡ (err e, w))
    × Unchanged accounts after_reset w
reset_token_once_example =
    reset_token_once accounts crypto "t1" "new" "salt" 999 world after_reset world-TokensDistinct
      reset_runs "again" "salt" 5

reset_password-Redeems_example :
    Post
      (λ _ w.
        (u : ClientPortalUserEntity) × Redeems accounts crypto world "t1" 999 u
        × Writes accounts world (redeemed accounts crypto u "new" "salt") w)
      (λ _ w. Unchanged accounts world w)
      (reset_password accounts crypto "t1" "new" "salt" 999 world)
reset_password-Redeems_example = reset_password-Redeems accounts crypto "t1" "new" "salt" 999 world

abbrev after_login : World
after_login = record world { cached = ("client:id:c1", acme) ∷ [] }

abbrev logged_in : LoginResult
logged_in = record { access_token = "u1"; expires_in = "1d"; must_change_password = false }

login_runs :
    login accounts crypto client_rows client_cache "ann@example.com" "secret" world
    ≡ (ok logged_in, after_login)
unfolding login ◌>>=◌ first Clients.find_one catch
login_runs = refl

login_sound_example :
    (u : ClientPortalUserEntity) × (c : ClientEntity) × MayLogIn accounts crypto client_rows
      client_cache apart world "ann@example.com" "secret" u c
    × (logged_in.access_token ≡ crypto.sign (payload_of u))
    × (logged_in.must_change_password ≡ u.must_change_password)
login_sound_example =
    login_sound accounts crypto client_rows client_cache apart "ann@example.com" "secret" world
      after_login logged_in world-IsFresh login_runs

access_runs :
    assert_access accounts crypto client_rows client_cache portal_payload (some "c1") world
    ≡ (ok tt, after_login)
unfolding assert_access ◌>>=◌ first Clients.find_one catch
access_runs = refl

assert_access_sound_example :
    (u : ClientPortalUserEntity) × (c : ClientEntity) × MayAccess accounts crypto client_rows
      client_cache apart world portal_payload
      (some "c1")
      u
      c
assert_access_sound_example =
    assert_access_sound accounts crypto client_rows client_cache apart portal_payload (some "c1")
      world after_login world-IsFresh refl access_runs

abbrev portal_request : Request
portal_request = record (with_header "Bearer portal") { user = some portal_payload }

scope_runs :
    client_portal_scope_guard accounts crypto client_rows client_cache
      (some "c1")
      none
      portal_request
      world
    ≡ (ok portal_request, after_login)
unfolding client_portal_scope_guard assert_access ◌>>=◌ first Clients.find_one catch
scope_runs = refl

abbrev own_client : Option String
own_client = some "c1"

abbrev no_client : Option String
no_client = none

client_portal_scope_guard_sound_example :
    (portal_request ≡ portal_request)
    × (u : ClientPortalUserEntity) × (c : ClientEntity) × MayAccess accounts crypto client_rows
        client_cache apart world portal_payload
        (some "c1")
        u
        c
    × ((own_client ≡ none) ⊎ (own_client ≡ own_client))
    × ((no_client ≡ none) ⊎ (no_client ≡ own_client))
client_portal_scope_guard_sound_example =
    client_portal_scope_guard_sound accounts crypto client_rows client_cache apart (some "c1") none
      portal_request portal_request portal_payload world after_login world-IsFresh refl refl
      scope_runs

portal_runs :
    client_portal_auth_guard accounts crypto client_rows client_cache verify
      (some "key")
      (with_header "Bearer portal")
      world
    ≡ (ok portal_request, after_login)
unfolding client_portal_auth_guard assert_access extract_bearer_token is_master_key ◌>>=◌ first
    Clients.find_one catch
portal_runs = refl

client_portal_auth_guard_sound_example :
    Passes accounts crypto client_rows client_cache apart verify
      (some "key")
      world
      (with_header "Bearer portal")
      portal_request
client_portal_auth_guard_sound_example =
    client_portal_auth_guard_sound accounts crypto client_rows client_cache apart verify
      (some "key") (with_header "Bearer portal") portal_request world after_login world-IsFresh
      portal_runs
