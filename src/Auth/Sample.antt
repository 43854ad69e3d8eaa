-- ===== src/Auth/Sample.antt =====
-- Accounts, clients and requests for the tests, over tables in memory.
use mathlib.Core.Path.{refl}
use text.Mathlib.TextPositions.{eq_refl}
use trafego_flow.Common.{
  true, false, Option, none, some, List, [], ◌∷◌, String, str_eq, if◌then◌else◌,
}
use trafego_flow.Common.Store.{Cached, Cache}
use trafego_flow.Common.Memory.{Table, memory}
use trafego_flow.Common.MemoryCache.{memory_cache}
use trafego_flow.Clients.{ClientEntity, Clients, UpdateClientDto, undefined, null, value}
use trafego_flow.Clients.Freshness.{IsFresh}
use trafego_flow.Auth.{admin, JwtPayload, Request, client_portal_scope}
use trafego_flow.Auth.Portal.{ClientPortalUserEntity, PortalUsers, Crypto}

pub record World : Type 0 where
  pub accounts : List ClientPortalUserEntity
  pub clients : List ClientEntity
  pub cached : List (String × ClientEntity)

abbrev pub account_table : Table World ClientPortalUserEntity
account_table = record {
  view = λ w. w.accounts;
  put = λ t w. record w { accounts = t };
  view-put = λ t w. refl;
}

abbrev pub client_table : Table World ClientEntity
client_table = record {
  view = λ w. w.clients;
  put = λ t w. record w { clients = t };
  view-put = λ t w. refl;
}

abbrev pub cache_table : Table World (String × ClientEntity)
cache_table = record {
  view = λ w. w.cached;
  put = λ t w. record w { cached = t };
  view-put = λ t w. refl;
}

abbrev pub accounts : PortalUsers World
accounts = memory (λ u. u.id) account_table

abbrev pub client_rows : Clients World
client_rows = memory (λ c. c.id) client_table

abbrev pub client_cache : Cache World ClientEntity
client_cache = memory_cache cache_table

pub apart : Cached client_rows client_cache
apart = record {
  get-set = λ k e w j. refl;
  get-del = λ k w j. refl;
  peek-save = λ e w j. refl;
  peek-insert = λ mk w j. refl;
  peek-delete = λ k w j. refl;
}

abbrev pub crypto : Crypto
crypto = record {
  hash = λ salt password. password;
  compare = str_eq;
  compare-hash = λ salt password. eq_refl password;
  sha256 = λ token. token;
  sign = λ p. p.sub;
  default_password = "change-me";
  jwt_expires_in = "1d";
}

abbrev pub acme : ClientEntity
acme = record {
  id = "c1";
  name = "Acme";
  email = "acme@example.com";
  is_active = true;
  phone = none;
  whatsapp_group_code = none;
  google_drive_folder_url = none;
  ai_strategy_context = none;
  profile_type = none;
}

abbrev pub ann : ClientPortalUserEntity
ann = record {
  id = "u1";
  client_id = "c1";
  email = "ann@example.com";
  password_hash = some "secret";
  is_active = true;
  must_change_password = false;
  password_reset_token_hash = some "t1";
  password_reset_expires_at = some 1000;
}

abbrev pub world : World
world = record { accounts = ann ∷ []; clients = acme ∷ []; cached = [] }

pub world-IsFresh : IsFresh client_rows client_cache world
world-IsFresh k c h = cc

abbrev pub renaming : UpdateClientDto
renaming = record {
  name = value "Acme Ltda";
  email = undefined;
  phone = null;
  whatsapp_group_code = undefined;
  google_drive_folder_url = undefined;
  profile_type = undefined;
}

-- Tokens are known by their text.
abbrev pub session_payload : JwtPayload
session_payload = record {
  sub = "a1";
  email = some "root@example.com";
  name = some "Root";
  role = some admin;
  scope = none;
  client_id = none;
}

abbrev pub portal_payload : JwtPayload
portal_payload = record {
  sub = "u1";
  email = none;
  name = none;
  role = none;
  scope = some client_portal_scope;
  client_id = some "c1";
}

abbrev pub verify : String → Option JwtPayload
verify token =
    if str_eq token "abc"
    then some session_payload
    else if str_eq token "portal"
    then some portal_payload
    else none

abbrev pub with_header : String → Request
with_header header = record {
  x_api_key = none;
  authorization = some header;
  user = none;
  auth_method = none;
}
