-- ===== src/Clients.antt =====
-- modules/clients: the client entity and `ClientsService`, which reads clients through a cache.
pub mod Freshness
pub mod Updates
use trafego_flow.Common.{Bool, true, false, Option, none, some, String, str_eq, List, if◌then◌else◌}
use trafego_flow.Common.Http.{Exception, http, query_failed, not_found, conflict}
use trafego_flow.Common.Action.{Action, pure, throw, query, catch, or_throw, ◌>>=◌, ◌>>◌}
use trafego_flow.Common.Store.{Repository, Cache}
use Prim.Native.String

pub data ClientProfileType : Type 0 where
  site_sales message_sales live_sales : ClientProfileType

pub record ClientEntity : Type 0 where
  pub id : String
  pub name : String
  pub email : String
  pub is_active : Bool
  pub phone : Option String
  pub whatsapp_group_code : Option String
  pub google_drive_folder_url : Option String
  pub ai_strategy_context : Option String
  pub profile_type : Option ClientProfileType

pub record CreateClientDto : Type 0 where
  pub name : String
  pub email : String
  pub phone : Option String
  pub whatsapp_group_code : Option String
  pub google_drive_folder_url : Option String
  pub profile_type : Option ClientProfileType

-- A property of a request that a check lets through with `@IsOptional`: left out, `null`, or with
-- a value.
pub data Property (A : Type 0) : Type 0 where
  undefined null : Property A
  value : A → Property A

-- `PartialType(CreateClientDto)`, which makes every property optional
pub record UpdateClientDto : Type 0 where
  pub name : Property String
  pub email : Property String
  pub phone : Property String
  pub whatsapp_group_code : Property String
  pub google_drive_folder_url : Property String
  pub profile_type : Property ClientProfileType

-- `cacheKey`
abbrev pub cache_key : String → String
cache_key id = String.◌++◌ "client:id:" id

-- `repo.create(dto)`; the columns that the request does not set have their defaults
abbrev new_client : CreateClientDto → String → ClientEntity
new_client dto id = record {
  id = id;
  name = dto.name;
  email = dto.email;
  is_active = true;
  phone = dto.phone;
  whatsapp_group_code = dto.whatsapp_group_code;
  google_drive_folder_url = dto.google_drive_folder_url;
  ai_strategy_context = none;
  profile_type = dto.profile_type;
}

-- what a property leaves in a column that may be null
abbrev set_nullable : {A : Type 0} → Property A → Option A → Option A
set_nullable undefined old = old
set_nullable null old = none
set_nullable (value v) old = some v

-- what it leaves in one that may not, if it can
abbrev set_required : {A : Type 0} → Property A → A → Option A
set_required undefined old = some old
set_required null old = none
set_required (value v) old = some v

abbrev with_required : (name email : Option String) → ClientEntity → Option ClientEntity
with_required (some name) (some email) client = some (record client { name = name; email = email })
with_required _ _ client = none

-- `{ ...client, ...dto }`, if it is a row that the table can hold: `name` and `email` may not be
-- null
abbrev pub merge : ClientEntity → UpdateClientDto → Option ClientEntity
merge client dto =
    with_required (set_required dto.name client.name) (set_required dto.email client.email)
      (record client {
        phone = set_nullable dto.phone client.phone;
        whatsapp_group_code = set_nullable dto.whatsapp_group_code client.whatsapp_group_code;
        google_drive_folder_url =
            set_nullable dto.google_drive_folder_url client.google_drive_folder_url;
        profile_type = set_nullable dto.profile_type client.profile_type;
      })

-- PostgreSQL's answer to a null in a column that may not be null
abbrev pub not_null_violation : Exception
not_null_violation = query_failed (some "23502") none

abbrev client_not_found : String → Exception
client_not_found id = http not_found (String.◌++◌ "Client " (String.◌++◌ id " not found"))

-- `err instanceof QueryFailedError && err.code === '23505'`
pub is_unique_violation : Exception → Bool
is_unique_violation (query_failed (some code) constraint) = str_eq code "23505"
is_unique_violation _ = false

-- The table of clients.
abbrev pub Clients : Type 0 → Type 0
Clients W = Repository W ClientEntity (λ c. c.id)

module _ {W : Type 0} (repo : Clients W) (cache : Cache W ClientEntity) where
  -- `ClientsService.create`
  unfoldable pub create : CreateClientDto → Action W ClientEntity
  unfolding is_unique_violation
  create dto = catch (repo.insert (new_client dto)) λ e.
      if is_unique_violation e
      then throw (http conflict "A client with this email already exists")
      else throw e

  -- `ClientsService.findAll`
  unfoldable pub find_all : Action W (List ClientEntity)
  find_all = query (repo.find (λ c. c.is_active))

  -- the rest of `findOne`, by what the cache holds
  from_cache : String → Option ClientEntity → Action W ClientEntity
  from_cache id (some cached) = pure cached
  from_cache id none = do
    found ← query (repo.find_one (λ c. str_eq c.id id))
    client ← or_throw found (client_not_found id)
    cache.set (cache_key id) client
    pure client

  -- `ClientsService.findOne`
  unfoldable pub find_one : String → Action W ClientEntity
  unfolding from_cache
  find_one id = do cached ← query (cache.get (cache_key id)); from_cache id cached

  -- `ClientsService.update`; the row is read again at the end, and may be missing
  unfoldable pub update : String → UpdateClientDto → Action W (Option ClientEntity)
  unfolding find_one
  update id dto = do
    client ← find_one id
    row ← or_throw (merge client dto) not_null_violation
    repo.save row
    cache.del (cache_key id)
    query (repo.find_one (λ c. str_eq c.id id))

  -- `ClientsService.remove`
  unfoldable pub remove : String → Action W (Unit {0})
  unfolding find_one
  remove id = do client ← find_one id; repo.delete client.id; cache.del (cache_key id)

  -- `ClientsService.clearCache`
  unfoldable pub clear_cache : String → Action W (Unit {0})
  clear_cache id = cache.del (cache_key id)
