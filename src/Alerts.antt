-- ===== src/Alerts.antt =====
-- modules/alert-jobs and modules/adset-alerts: the jobs that report each day on the ad sets of the
-- clients, and their message to the managers.
pub mod Runs
pub mod Order
pub mod Rows
pub mod Stored
mod Tests
use Prim.Native.String
use Prim.Native.String.{◌++◌}
use mathlib.Core.Option
use trafego_flow.Common.{
  ℕ, Bool, true, false, not, ◌&&◌, Option, none, some, String, str_eq, or_else, List, [], ◌∷◌, map,
  sort_with, if◌then◌else◌,
}
use mathlib.Core.List.{◌++◌ as append}
use trafego_flow.Common.Text.{split, join_with}
use trafego_flow.Common.Http.{Exception, http, not_found}
use trafego_flow.Common.Action.{Action, query, or_throw, ◌>>=◌, ◌>>◌}
use trafego_flow.Common.Store.{Repository}

pub data AlertJobStatus : Type 0 where
  active inactive : AlertJobStatus

pub data AlertJobType : Type 0 where
  adset_insights : AlertJobType

pub record AlertJobEntity : Type 0 where
  pub id : String
  pub job_type : AlertJobType
  pub status : AlertJobStatus
  pub client_id : Option String
  pub fields : List String

pub record CreateAlertJobDto : Type 0 where
  pub job_type : AlertJobType
  pub status : Option AlertJobStatus
  pub client_id : Option String
  pub fields : Option (List String)

pub record UpdateAlertJobDto : Type 0 where
  pub status : Option AlertJobStatus
  pub fields : Option (List String)

abbrev is_status : AlertJobStatus → AlertJobStatus → Bool
is_status active active = true
is_status inactive inactive = true
is_status _ _ = false

abbrev pub AlertJobs : Type 0 → Type 0
AlertJobs W = Repository W AlertJobEntity (λ j. j.id)

abbrev given : {A : Type 0} → A → Option A → A
given default none = default
given default (some a) = a

abbrev pub new_job : CreateAlertJobDto → String → AlertJobEntity
new_job dto id = record {
  id = id;
  job_type = dto.job_type;
  status = given active dto.status;
  client_id = dto.client_id;
  fields = given ("roas" ∷ "last_updated" ∷ []) dto.fields;
}

abbrev pub updated_job : AlertJobEntity → UpdateAlertJobDto → AlertJobEntity
updated_job job dto = record job {
  status = given job.status dto.status;
  fields = given job.fields dto.fields;
}

module _ {W : Type 0} (jobs : AlertJobs W) where
  -- `findAll`, whose filters may be undefined; there is one type, which every job has
  unfoldable pub find_all :
      Option AlertJobStatus → Option AlertJobType → Action W (List AlertJobEntity)
  find_all status type =
      query (jobs.find (λ j. elim status [ none ↦ true | some s ↦ is_status j.status s ]))

  -- `findActive`
  unfoldable pub find_active : Action W (List AlertJobEntity)
  find_active = query (jobs.find (λ j. is_status j.status active))

  -- `create`
  unfoldable pub create : CreateAlertJobDto → Action W AlertJobEntity
  create dto = jobs.insert (new_job dto)

  -- `update`
  unfoldable pub update : String → UpdateAlertJobDto → Action W AlertJobEntity
  update id dto = do
    found ← query (jobs.find_one (λ j. str_eq j.id id))
    job ← or_throw found (http not_found ("AlertJob " ++ (id ++ " not found")))
    jobs.save (updated_job job dto)

-- What the code uses of JavaScript's numbers; a return that is kept is positive, so that it can be
-- compared.
pub record Roas : Type 1 where
  pub Float : Type 0
  pub parse_float : String → Float
  pub is_positive : Float → Bool
  pub to_fixed_2 : Float → String
  pub leb : Float → Float → Bool

pub record AdsetRow (Float : Type 0) : Type 0 where
  pub adset_name : String
  pub roas : Option Float
  pub updated_time : String

pub record ClientBucket (Float : Type 0) : Type 0 where
  pub client_name : String
  pub adsets : List (AdsetRow Float)

module _ (numbers : Roas) where
  -- the comparison of two returns is at most 0
  abbrev pub roas_leb : Option numbers.Float → Option numbers.Float → Bool
  roas_leb none none = true
  roas_leb none (some y) = false
  roas_leb (some x) none = true
  roas_leb (some x) (some y) = numbers.leb x y

  abbrev pub in_order : AdsetRow numbers.Float → AdsetRow numbers.Float → Bool
  in_order a b = roas_leb a.roas b.roas

  abbrev pub sort_adsets : List (AdsetRow numbers.Float) → List (AdsetRow numbers.Float)
  sort_adsets adsets = sort_with in_order adsets

  -- `formatDate`, of the parts of a date; a missing one is printed `undefined`
  abbrev pub format_date : List String → String
  format_date [] = "undefined/undefined/undefined"
  format_date (year ∷ []) = "undefined/undefined/" ++ year
  format_date (year ∷ month ∷ []) = "undefined/" ++ (month ++ ("/" ++ year))
  format_date (year ∷ month ∷ day ∷ rest) = day ++ ("/" ++ (month ++ ("/" ++ year)))

  abbrev pub adset_line : AdsetRow numbers.Float → String
  adset_line adset =
      adset.adset_name
      ++ (" | "
          ++ (elim adset.roas [ none ↦ "–" | some x ↦ numbers.to_fixed_2 x ]
              ++ (" | " ++ format_date (split "-" adset.updated_time))))

  abbrev pub bucket_lines : ClientBucket numbers.Float → List String
  bucket_lines bucket = lines bucket.adsets
    where
      lines : List (AdsetRow numbers.Float) → List String
      lines [] = []
      lines (adset ∷ adsets) =
          ("*Nome do cliente*: " ++ bucket.client_name)
          ∷ ""
          ∷ "📋 *Conjunto de anúncios* | 📈 *ROAS* | 🗓 *Última atualização*"
          ∷ append (map adset_line (sort_adsets (adset ∷ adsets))) ("" ∷ [])

  abbrev all_lines : List (String × ClientBucket numbers.Float) → List String
  all_lines [] = []
  all_lines ((id, bucket) ∷ buckets) = append (bucket_lines bucket) (all_lines buckets)

  abbrev error_lines : List String → List String
  error_lines [] = []
  error_lines (e ∷ es) = "⚠\u{fe0f} *Erros:*" ∷ map (λ e. "- " ++ e) (e ∷ es)

  -- `formatMessage`; `trim` is that of JavaScript's strings
  unfoldable pub format_message :
      (trim : String → String) → List (String × ClientBucket numbers.Float) → List String → String
  unfolding join_with
  format_message trim buckets errors =
      trim (join_with "\n" (append (all_lines buckets) (error_lines errors)))
