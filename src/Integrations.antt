-- ===== src/Integrations.antt =====
-- modules/integrations: the pages that clients have connected, with their secrets, which are stored
-- encrypted (common/crypto/aes.service.ts).
pub mod Freshness
pub mod Stored
mod Tests
use Prim.Native.String
use trafego_flow.Common.{
  ℕ, Bool, true, false, ◌&&◌, ◌≡◌, Option, none, some, String, str_eq, or_else, List, if◌then◌else◌,
}
use trafego_flow.Common.Text.{truthy?}
use trafego_flow.Common.Http.{Exception, http, Result, ok, not_found, conflict}
use trafego_flow.Common.Action.{Action, pure, throw, query, catch, or_throw, ◌>>=◌, ◌>>◌}
use trafego_flow.Common.Store.{Repository, Cache}
use trafego_flow.Clients.{is_unique_violation}

pub data MetaPlatform : Type 0 where
  instagram whatsapp : MetaPlatform

-- The columns of an integration; times are milliseconds.
pub record IntegrationEntity : Type 0 where
  pub id : String
  pub client_id : String
  pub platform : MetaPlatform
  pub page_id : String
  pub access_token : String
  pub app_secret : Option String
  pub token_expires_at : Option ℕ
  pub is_active : Bool

pub record CreateIntegrationDto : Type 0 where
  pub client_id : String
  pub platform : MetaPlatform
  pub page_id : String
  pub access_token : String
  pub app_secret : Option String
  pub token_expires_at : Option String

pub record UpdateIntegrationDto : Type 0 where
  pub access_token : Option String
  pub app_secret : Option String
  pub token_expires_at : Option String
  pub is_active : Option Bool

-- AES-256-GCM for the key of the server: `encrypt` takes the random initialization vector, and a
-- text that was not encrypted, or was changed, throws.
pub record AesCrypto : Type 0 where
  pub encrypt : (iv plaintext : String) → String
  pub decrypt : String → Result String
  pub decrypt-encrypt : (iv plaintext : String) → decrypt (encrypt iv plaintext) ≡ ok plaintext

abbrev pub is_instagram : IntegrationEntity → Bool
is_instagram i = elim i.platform [ instagram ↦ true | whatsapp ↦ false ]

abbrev pub Integrations : Type 0 → Type 0
Integrations W = Repository W IntegrationEntity (λ i. i.id)

abbrev pub cache_by_id : String → String
cache_by_id id = String.◌++◌ "integration:id:" id

abbrev pub cache_by_page : String → String
cache_by_page page_id = String.◌++◌ "integration:page:" page_id

-- `new Date(text)`
module _ (to_date : String → ℕ) where
  abbrev pub date_of : Option String → Option ℕ
  date_of none = none
  date_of (some text) = if truthy? (some text) then some (to_date text) else none

  module _ (crypto : AesCrypto) where
    -- the encrypted text of a secret that is given and not empty
    abbrev pub encrypted : String → Option String → Option String
    encrypted iv none = none
    encrypted iv (some secret) =
        if truthy? (some secret) then some (crypto.encrypt iv secret) else none

    -- the row that `create` stores; the two texts are encrypted apart
    abbrev pub new_integration :
        (token_iv secret_iv : String) → CreateIntegrationDto → String → IntegrationEntity
    new_integration token_iv secret_iv dto id = record {
      id = id;
      client_id = dto.client_id;
      platform = dto.platform;
      page_id = dto.page_id;
      access_token = crypto.encrypt token_iv dto.access_token;
      app_secret = encrypted secret_iv dto.app_secret;
      token_expires_at = date_of dto.token_expires_at;
      is_active = true;
    }

    -- `{ ...integration, ...patch }`; TypeORM leaves a column as it is whose value is undefined
    abbrev pub patched :
        (token_iv secret_iv : String) → IntegrationEntity → UpdateIntegrationDto → IntegrationEntity
    patched token_iv secret_iv integration dto = record integration {
      is_active = elim dto.is_active [ none ↦ integration.is_active | some b ↦ b ];
      token_expires_at = elim (date_of dto.token_expires_at) [
        | none ↦ integration.token_expires_at
        | some t ↦ some t
      ];
      access_token = or_else (encrypted token_iv dto.access_token) integration.access_token;
      app_secret = elim (encrypted secret_iv dto.app_secret) [
        | none ↦ integration.app_secret
        | some s ↦ some s
      ];
    }

module _ {W : Type 0} (repo : Integrations W) (cache : Cache W IntegrationEntity) where
  -- `IntegrationsService.create`
  unfoldable pub create :
      (to_date : String → ℕ) (crypto : AesCrypto) (token_iv secret_iv : String)
      → CreateIntegrationDto
      → Action W IntegrationEntity
  create to_date crypto token_iv secret_iv dto =
      catch
        (do
          saved ← repo.insert (new_integration to_date crypto token_iv secret_iv dto)
          cache.set (cache_by_id saved.id) saved
          cache.set (cache_by_page saved.page_id) saved
          pure saved)
        λ e.
          if is_unique_violation e
          then throw (http conflict "An integration with this pageId already exists")
          else throw e

  -- `IntegrationsService.findAll`
  unfoldable pub find_all : String → Action W (List IntegrationEntity)
  find_all client_id = query (repo.find (λ i. str_eq i.client_id client_id && i.is_active))

  unfoldable pub from_cache : String → Option IntegrationEntity → Action W IntegrationEntity
  from_cache id (some cached) = pure cached
  from_cache id none = do
    found ← query (repo.find_one (λ i. str_eq i.id id))
    integration ←
        or_throw found (http not_found (String.◌++◌ "Integration " (String.◌++◌ id " not found")))
    cache.set (cache_by_id id) integration
    pure integration

  -- `IntegrationsService.findOne`
  unfoldable pub find_one : String → Action W IntegrationEntity
  unfolding from_cache
  find_one id = do cached ← query (cache.get (cache_by_id id)); from_cache id cached

  unfoldable pub page_from_cache : String → Option IntegrationEntity → Action W IntegrationEntity
  page_from_cache page_id (some cached) = pure cached
  page_from_cache page_id none = do
    found ← query (repo.find_one (λ i. str_eq i.page_id page_id))
    integration ←
        or_throw found (
          http not_found (String.◌++◌ "Integration for pageId " (String.◌++◌ page_id " not found")))
    cache.set (cache_by_id integration.id) integration
    cache.set (cache_by_page page_id) integration
    pure integration

  -- `IntegrationsService.findByPageId`
  unfoldable pub find_by_page_id : String → Action W IntegrationEntity
  unfolding page_from_cache
  find_by_page_id page_id = do
    cached ← query (cache.get (cache_by_page page_id))
    page_from_cache page_id cached

  -- `IntegrationsService.update`
  unfoldable pub update :
      (to_date : String → ℕ) (crypto : AesCrypto) (token_iv secret_iv : String)
      → String
      → UpdateIntegrationDto
      → Action W IntegrationEntity
  unfolding find_one
  update to_date crypto token_iv secret_iv id dto = do
    integration ← find_one id
    updated ← repo.save (patched to_date crypto token_iv secret_iv integration dto)
    cache.del (cache_by_id id)
    cache.del (cache_by_page integration.page_id)
    pure updated

  -- `IntegrationsService.remove`
  unfoldable pub remove : String → Action W (Unit {0})
  unfolding find_one
  remove id = do
    integration ← find_one id
    repo.delete integration.id
    cache.del (cache_by_id id)
    cache.del (cache_by_page integration.page_id)
