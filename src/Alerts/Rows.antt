-- ===== src/Alerts/Rows.antt =====
-- modules/adset-alerts/adset-alerts.service.ts: the rows of the message, client by client.
use trafego_flow.Common.{
  ℕ, ◌+◌, ◌≡◌, refl, ap, String, str_eq, eq_iff, List, [], ◌∷◌, ◌++◌, length, Bool-cases, inl, inr,
  length-append, arith, if◌then◌else◌,
}
use trafego_flow.Alerts.{AdsetRow, ClientBucket}
use trafego_flow.Alerts.Runs.{AdsetAlertSnapshot, add_row}

-- The rows of all clients.
abbrev pub count_rows : {Float : Type 0} → List (String × ClientBucket Float) → ℕ
count_rows [] = 0
count_rows ((client_id, bucket) ∷ buckets) = length bucket.adsets + count_rows buckets

-- The rows of a client.
abbrev pub rows_of :
    {Float : Type 0} → String → List (String × ClientBucket Float) → List (AdsetRow Float)
rows_of client_id [] = []
rows_of client_id ((key, bucket) ∷ buckets) =
    if str_eq key client_id then bucket.adsets else rows_of client_id buckets

-- The rows that a client's snapshots, with their ids, make.
abbrev pub rows_for :
    {Float : Type 0} → String → List (String × AdsetAlertSnapshot Float) → List (AdsetRow Float)
rows_for client_id [] = []
rows_for client_id ((id, s) ∷ snapshots) =
    if str_eq s.client_id client_id
    then record { adset_name = s.adset_name; roas = s.roas; updated_time = s.updated_time }
      ∷ rows_for client_id snapshots
    else rows_for client_id snapshots

abbrev pub ids_of : {Float : Type 0} → List (String × AdsetAlertSnapshot Float) → List String
ids_of [] = []
ids_of ((id, s) ∷ snapshots) = id ∷ ids_of snapshots

module _ {Float : Type 0} where
  pub count_rows-add_row :
      (client_id client_name : String) (row : AdsetRow Float)
      (buckets : List (String × ClientBucket Float))
      → count_rows (add_row client_id client_name row buckets) ≡ count_rows buckets + 1
  count_rows-add_row client_id client_name row [] = refl
  count_rows-add_row client_id client_name row ((key, bucket) ∷ buckets) =
      elim (Bool-cases (str_eq key client_id)) [
        | inl e ↦ rw e (omega (arith, length-append bucket.adsets (row ∷ [])))
        | inr e ↦ rw e (omega (arith, count_rows-add_row client_id client_name row buckets))
      ]

  pub rows_of-add_row :
      (c client_id client_name : String) (row : AdsetRow Float)
      (buckets : List (String × ClientBucket Float))
      → rows_of c (add_row client_id client_name row buckets)
        ≡ (if str_eq client_id c then rows_of c buckets ++ (row ∷ []) else rows_of c buckets)
  rows_of-add_row c client_id client_name row [] = ground arith
  rows_of-add_row c client_id client_name row ((key, bucket) ∷ buckets) =
      let ih = rows_of-add_row c client_id client_name row buckets in
      ground (arith, ih, eq_iff key client_id, eq_iff key c, eq_iff client_id c)

  pub rows_for-append :
      (c id : String) (s : AdsetAlertSnapshot Float)
      (snapshots : List (String × AdsetAlertSnapshot Float))
      → rows_for c (snapshots ++ ((id, s) ∷ [])) ≡ (
          if str_eq s.client_id c
          then rows_for c snapshots
            ++ (record { adset_name = s.adset_name; roas = s.roas; updated_time = s.updated_time }
                ∷ [])
          else rows_for c snapshots)
  rows_for-append c id s [] = ground arith
  rows_for-append c id s ((i, t) ∷ snapshots) =
      let ih = rows_for-append c id s snapshots in ground (arith, ih)

  pub ids_of-append :
      (id : String) (s : AdsetAlertSnapshot Float)
      (snapshots : List (String × AdsetAlertSnapshot Float))
      → ids_of (snapshots ++ ((id, s) ∷ [])) ≡ ids_of snapshots ++ (id ∷ [])
  ids_of-append id s [] = refl
  ids_of-append id s ((i, t) ∷ snapshots) = ap (λ l. i ∷ l) (ids_of-append id s snapshots)
