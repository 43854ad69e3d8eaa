-- ===== src/AdAccounts.antt =====
-- modules/ad-accounts: the ad accounts of the clients, their tokens, which are stored encrypted, and
-- what Meta says of a token (meta-token.service.ts).
pub mod Tokens
use Prim.Native.String
use trafego_flow.Common.{
  ℕ, ◌+◌, ◌*◌, leb, Bool, true, false, not, ◌&&◌, Option, none, some, String, str_eq, or_else,
  or_option, List, [], ◌∷◌, if◌then◌else◌,
}
use trafego_flow.Common.Text.{truthy?}
use trafego_flow.Common.Http.{Exception, http, not_found, conflict}
use trafego_flow.Common.Action.{Action, pure, throw, query, catch, or_throw, ◌>>=◌, ◌>>◌}
use trafego_flow.Common.Store.{Repository, Cache}
use trafego_flow.Clients.{is_unique_violation}
use trafego_flow.Integrations.{AesCrypto, date_of, encrypted}

-- The columns of an account; times are milliseconds.
pub record AdAccountEntity : Type 0 where
  pub id : String
  pub client_id : String
  pub ad_account_id : String
  pub account_name : Option String
  pub access_token : String
  pub token_expires_at : Option ℕ
  pub is_active : Bool

pub record CreateAdAccountDto : Type 0 where
  pub client_id : String
  pub ad_account_id : String
  pub account_name : Option String
  pub access_token : String
  pub token_expires_at : Option String

pub record UpdateAdAccountDto : Type 0 where
  pub access_token : Option String
  pub token_expires_at : Option String
  pub is_active : Option Bool
  pub account_name : Option String

pub record TokenValidationResult : Type 0 where
  pub valid : Bool
  pub app_id : Option String
  pub token_type : Option String
  pub expires_at : Option String
  pub scopes : List String
  pub user_id : Option String

-- The fields of `data` in an answer of `debug_token`, each of which may be missing.
pub record DebugToken : Type 0 where
  pub is_valid : Option Bool
  pub app_id : Option String
  pub token_type : Option String
  pub expires_at : Option ℕ
  pub scopes : Option (List String)
  pub user_id : Option String

-- An answer of Meta, an answer that refuses (with its `data`, if it has any), or no answer.
pub data DebugAnswer : Type 0 where
  answered : DebugToken → DebugAnswer
  refused : Option DebugToken → DebugAnswer
  unanswered : Exception → DebugAnswer

abbrev pub AdAccounts : Type 0 → Type 0
AdAccounts W = Repository W AdAccountEntity (λ a. a.id)

abbrev pub cache_by_id : String → String
cache_by_id id = String.◌++◌ "ad-account:id:" id

abbrev pub cache_by_act : String → String
cache_by_act ad_account_id = String.◌++◌ "ad-account:act:" ad_account_id

abbrev pub or_kept : {A : Type 0} → Option A → A → A
or_kept none a = a
or_kept (some b) a = b

module _ (to_date : String → ℕ) (crypto : AesCrypto) where
  abbrev pub new_account : (iv : String) → CreateAdAccountDto → String → AdAccountEntity
  new_account iv dto id = record {
    id = id;
    client_id = dto.client_id;
    ad_account_id = dto.ad_account_id;
    account_name = dto.account_name;
    access_token = crypto.encrypt iv dto.access_token;
    token_expires_at = date_of to_date dto.token_expires_at;
    is_active = true;
  }

  -- `{ ...account, ...patch }`; TypeORM leaves a column as it is whose value is undefined
  abbrev pub patched : (iv : String) → AdAccountEntity → UpdateAdAccountDto → AdAccountEntity
  patched iv account dto = record account {
    is_active = or_kept dto.is_active account.is_active;
    account_name = or_option dto.account_name account.account_name;
    token_expires_at = elim (date_of to_date dto.token_expires_at) [
      | none ↦ account.token_expires_at
      | some t ↦ some t
    ];
    access_token = or_else (encrypted to_date crypto iv dto.access_token) account.access_token;
  }

module _ {W : Type 0} (repo : AdAccounts W) (cache : Cache W AdAccountEntity) where
  -- `create`
  unfoldable pub create :
      (to_date : String → ℕ) (crypto : AesCrypto) (iv : String)
      → CreateAdAccountDto
      → Action W AdAccountEntity
  create to_date crypto iv dto =
      catch
        (do
          saved ← repo.insert (new_account to_date crypto iv dto)
          cache.set (cache_by_id saved.id) saved
          cache.set (cache_by_act saved.ad_account_id) saved
          pure saved)
        λ e.
          if is_unique_violation e
          then throw (http conflict "An ad account with this adAccountId already exists")
          else throw e

  -- `findAll`
  unfoldable pub find_all : String → Action W (List AdAccountEntity)
  find_all client_id = query (repo.find (λ a. str_eq a.client_id client_id && a.is_active))

  unfoldable pub from_cache : String → Option AdAccountEntity → Action W AdAccountEntity
  from_cache id (some cached) = pure cached
  from_cache id none = do
    found ← query (repo.find_one (λ a. str_eq a.id id))
    account ←
        or_throw found (http not_found (String.◌++◌ "Ad account " (String.◌++◌ id " not found")))
    cache.set (cache_by_id id) account
    pure account

  -- `findOne`
  unfoldable pub find_one : String → Action W AdAccountEntity
  unfolding from_cache
  find_one id = do cached ← query (cache.get (cache_by_id id)); from_cache id cached

  unfoldable pub act_from_cache : String → Option AdAccountEntity → Action W AdAccountEntity
  act_from_cache ad_account_id (some cached) = pure cached
  act_from_cache ad_account_id none = do
    found ← query (repo.find_one (λ a. str_eq a.ad_account_id ad_account_id))
    account ←
        or_throw found
          (http not_found (String.◌++◌ "Ad account " (String.◌++◌ ad_account_id " not found")))
    cache.set (cache_by_id account.id) account
    cache.set (cache_by_act ad_account_id) account
    pure account

  -- `findByAdAccountId`
  unfoldable pub find_by_ad_account_id : String → Action W AdAccountEntity
  unfolding act_from_cache
  find_by_ad_account_id ad_account_id = do
    cached ← query (cache.get (cache_by_act ad_account_id))
    act_from_cache ad_account_id cached

  -- `update`
  unfoldable pub update :
      (to_date : String → ℕ) (crypto : AesCrypto) (iv id : String)
      → UpdateAdAccountDto
      → Action W AdAccountEntity
  unfolding find_one
  update to_date crypto iv id dto = do
    account ← find_one id
    updated ← repo.save (patched to_date crypto iv account dto)
    cache.del (cache_by_id id)
    cache.del (cache_by_act account.ad_account_id)
    pure updated

  -- `remove`
  unfoldable pub remove : String → Action W (Unit {0})
  unfolding find_one
  remove id = do
    account ← find_one id
    repo.delete account.id
    cache.del (cache_by_id id)
    cache.del (cache_by_act account.ad_account_id)

  -- `LessThanOrEqual(deadline)` of a nullable column
  abbrev pub expires_by : ℕ → AdAccountEntity → Bool
  expires_by deadline account = elim account.token_expires_at [
    | none ↦ false
    | some t ↦ leb t deadline
  ]

  -- `findExpiring`, for the time that `setDate` makes of today and the days ahead
  unfoldable pub find_expiring : (client_id : String) → ℕ → Action W (List AdAccountEntity)
  find_expiring client_id deadline =
      query
        (repo.find (λ a. str_eq a.client_id client_id && (a.is_active && expires_by deadline a)))

  -- `findAllExpiring`
  unfoldable pub find_all_expiring : ℕ → Action W (List AdAccountEntity)
  find_all_expiring deadline = query (repo.find (λ a. a.is_active && expires_by deadline a))
