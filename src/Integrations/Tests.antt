-- ===== src/Integrations/Tests.antt =====
-- An integration that is created over tables in memory.

use mathlib.Core.Path.{◌≡◌, refl}
use trafego_flow.Common.{true, none, some, List, [], ◌∷◌, String}
use trafego_flow.Common.Http.{ok}
use trafego_flow.Common.Memory.{Table, memory, insert_row}
use trafego_flow.Common.MemoryCache.{memory_cache, drop_entry}
use trafego_flow.Common.Action.{◌>>=◌, catch}
use trafego_flow.Common.Store.{Cached, Cache}
use trafego_flow.Integrations.{
  Integrations, IntegrationEntity, CreateIntegrationDto, AesCrypto, instagram, create,
}
use trafego_flow.Integrations.Stored.{Decrypts, create-Decrypts}

record World : Type 0 where
  connected : List IntegrationEntity
  cached : List (String × IntegrationEntity)

abbrev integration_table : Table World IntegrationEntity
integration_table = record {
  view = λ w. w.connected;
  put = λ t w. record w { connected = t };
  view-put = λ t w. refl;
}

abbrev cache_table : Table World (String × IntegrationEntity)
cache_table = record {
  view = λ w. w.cached;
  put = λ t w. record w { cached = t };
  view-put = λ t w. refl;
}

abbrev integrations : Integrations World
integrations = memory (λ i. i.id) integration_table

abbrev cache : Cache World IntegrationEntity
cache = memory_cache cache_table

apart : Cached integrations cache
apart = record {
  get-set = λ k e w j. refl;
  get-del = λ k w j. refl;
  peek-save = λ e w j. refl;
  peek-insert = λ mk w j. refl;
  peek-delete = λ k w j. refl;
}

-- a letter before the text stands for its encryption
abbrev opened : String → String
opened String.[] = ""
opened (String.◌∷◌ c s) = s

abbrev crypto : AesCrypto
crypto = record {
  encrypt = λ iv plaintext. String.◌∷◌ "x" plaintext;
  decrypt = λ ciphertext. ok (opened ciphertext);
  decrypt-encrypt = λ iv plaintext. refl;
}

abbrev request : CreateIntegrationDto
request = record {
  client_id = "c1";
  platform = instagram;
  page_id = "p1";
  access_token = "token";
  app_secret = some "secret";
  token_expires_at = none;
}

abbrev page : IntegrationEntity
page = record {
  id = "n";
  client_id = "c1";
  platform = instagram;
  page_id = "p1";
  access_token = "xtoken";
  app_secret = some "xsecret";
  token_expires_at = none;
  is_active = true;
}

abbrev empty : World
empty = record { connected = []; cached = [] }

abbrev stored : World
stored = record {
  connected = page ∷ [];
  cached = ("integration:page:p1", page) ∷ ("integration:id:n", page) ∷ [];
}

creates : create integrations cache (λ s. 0) crypto "iv1" "iv2" request empty ≡ (ok page, stored)
unfolding create ◌>>=◌ catch insert_row drop_entry
creates = refl

create-Decrypts_example :
    (integrations.get empty "n" ≡ none)
    × (integrations.get stored "n" ≡ some page)
    × (page.page_id ≡ request.page_id)
    × (crypto.decrypt "xtoken" ≡ ok "token")
    × Decrypts crypto (some "xsecret") (some "secret")
create-Decrypts_example =
    create-Decrypts integrations cache apart (λ s. 0) crypto "iv1" "iv2" request empty stored page
      creates
