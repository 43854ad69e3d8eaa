-- ===== src/Groups.antt =====
-- modules/whatsapp-groups/whatsapp-groups.service.ts: the groups that clients' reports go to.
pub mod Grouping
use Prim.Native.String
use trafego_flow.Common.{
  Bool, true, false, ◌&&◌, Option, none, some, String, str_eq, or_else, or_option, List, [], ◌∷◌,
  ◌++◌, if◌then◌else◌,
}
use trafego_flow.Common.Http.{Exception, http, not_found, conflict}
use trafego_flow.Common.Action.{Action, pure, throw, query, catch, or_throw, ◌>>=◌, ◌>>◌}
use trafego_flow.Common.Store.{Repository, Cache}
use trafego_flow.Clients.{is_unique_violation}

pub record WhatsAppGroupEntity : Type 0 where
  pub id : String
  pub client_id : String
  pub group_jid : String
  pub label : Option String
  pub is_active : Bool

pub record CreateWhatsAppGroupDto : Type 0 where
  pub client_id : String
  pub group_jid : String
  pub label : Option String

pub record UpdateWhatsAppGroupDto : Type 0 where
  pub label : Option String
  pub is_active : Option Bool

abbrev pub cache_by_id : String → String
cache_by_id id = String.◌++◌ "whatsapp:group:id:" id

abbrev pub cache_by_client : String → String
cache_by_client client_id = String.◌++◌ "whatsapp:groups:client:" client_id

abbrev pub new_group : CreateWhatsAppGroupDto → String → WhatsAppGroupEntity
new_group dto id = record {
  id = id;
  client_id = dto.client_id;
  group_jid = dto.group_jid;
  label = dto.label;
  is_active = true;
}

-- `{ ...group, ...dto }`, for the fields that the request has
abbrev pub merge : WhatsAppGroupEntity → UpdateWhatsAppGroupDto → WhatsAppGroupEntity
merge group dto = record group {
  label = or_option dto.label group.label;
  is_active = elim dto.is_active [ none ↦ group.is_active | some b ↦ b ];
}

-- `map.set(g.clientId, [...(map.get(g.clientId) ?? []), g])`; a map is the list of its entries, and
-- a new key goes last
abbrev pub add_group :
    WhatsAppGroupEntity
    → List (String × List WhatsAppGroupEntity)
    → List (String × List WhatsAppGroupEntity)
add_group g [] = (g.client_id, g ∷ []) ∷ []
add_group g ((key, groups) ∷ rest) =
    if str_eq key g.client_id
    then (key, groups ++ (g ∷ [])) ∷ rest
    else (key, groups) ∷ add_group g rest

-- the loop over the groups
abbrev pub group_from :
    List (String × List WhatsAppGroupEntity)
    → List WhatsAppGroupEntity
    → List (String × List WhatsAppGroupEntity)
group_from map_ [] = map_
group_from map_ (g ∷ gs) = group_from (add_group g map_) gs

abbrev pub Groups : Type 0 → Type 0
Groups W = Repository W WhatsAppGroupEntity (λ g. g.id)

-- An entry of a cache lives five minutes; a cached value may be lost at any time.
module _ {W : Type 0} (repo : Groups W) (cache : Cache W WhatsAppGroupEntity)
    (lists : Cache W (List WhatsAppGroupEntity)) where
  -- `create`
  unfoldable pub create : CreateWhatsAppGroupDto → Action W WhatsAppGroupEntity
  create dto =
      catch
        (do
          saved ← repo.insert (new_group dto)
          lists.del (cache_by_client saved.client_id)
          cache.set (cache_by_id saved.id) saved
          pure saved)
        λ e.
          if is_unique_violation e
          then throw (http conflict "Já existe um grupo com este groupJid")
          else throw e

  all_from_cache : String → Option (List WhatsAppGroupEntity) → Action W (List WhatsAppGroupEntity)
  all_from_cache client_id (some cached) = pure cached
  all_from_cache client_id none = do
    groups ← query (repo.find (λ g. str_eq g.client_id client_id && g.is_active))
    lists.set (cache_by_client client_id) groups
    pure groups

  -- `findAll`
  unfoldable pub find_all : String → Action W (List WhatsAppGroupEntity)
  unfolding all_from_cache
  find_all client_id = do
    cached ← query (lists.get (cache_by_client client_id))
    all_from_cache client_id cached

  from_cache : String → Option WhatsAppGroupEntity → Action W WhatsAppGroupEntity
  from_cache id (some cached) = pure cached
  from_cache id none = do
    found ← query (repo.find_one (λ g. str_eq g.id id))
    group ←
        or_throw found
          (http not_found (String.◌++◌ "WhatsApp group " (String.◌++◌ id " not found")))
    cache.set (cache_by_id id) group
    pure group

  -- `findOne`
  unfoldable pub find_one : String → Action W WhatsAppGroupEntity
  unfolding from_cache
  find_one id = do cached ← query (cache.get (cache_by_id id)); from_cache id cached

  -- `update`
  unfoldable pub update : String → UpdateWhatsAppGroupDto → Action W WhatsAppGroupEntity
  unfolding find_one
  update id dto = do
    group ← find_one id
    updated ← repo.save (merge group dto)
    cache.del (cache_by_id id)
    lists.del (cache_by_client group.client_id)
    pure updated

  -- `remove`
  unfoldable pub remove : String → Action W (Unit {0})
  unfolding find_one
  remove id = do
    group ← find_one id
    repo.delete group.id
    cache.del (cache_by_id id)
    lists.del (cache_by_client group.client_id)

  -- `findAllActiveGroupedByClientId`
  unfoldable pub find_all_active_grouped_by_client_id :
      Action W (List (String × List WhatsAppGroupEntity))
  find_all_active_grouped_by_client_id = do
    groups ← query (repo.find (λ g. g.is_active))
    pure (group_from [] groups)
