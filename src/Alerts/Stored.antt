-- ===== src/Alerts/Stored.antt =====
-- modules/adset-alerts/adset-alerts.service.ts: the ad sets told of are those whose snapshots are
-- stored.
use trafego_flow.Common.{◌≡◌, String, List, [], ◌∷◌, ◌++◌, length}
use trafego_flow.Common.Http.{ok}
use trafego_flow.Common.Action.{Action}
use trafego_flow.Alerts.{Roas}
use trafego_flow.Alerts.Rows.{count_rows, rows_of, rows_for, ids_of}
use trafego_flow.Alerts.Runs.{AdsetAlertSnapshot, AlertServices, Progress}

-- The table of snapshots: a snapshot that is saved goes last, and the other calls of the loops
-- leave the table as it is.
pub record Ledger {W Float : Type 0} (services : AlertServices W Float) : Type 0 where
  pub stored : W → List (String × AdsetAlertSnapshot Float)
  pub save_snapshot_ok :
      (s : AdsetAlertSnapshot Float) (w : W) {v : W} {id : String}
      → services.save_snapshot s w ≡ (ok id, v)
      → stored v ≡ stored w ++ ((id, s) ∷ [])
  pub find_accounts_lem :
      (client_id : String) (w : W) → stored (services.find_accounts client_id w).1 ≡ stored w
  pub list_adsets_lem :
      (ad_account_id : String) (w : W) → stored (services.list_adsets ad_account_id w).1 ≡ stored w
  pub get_adset_insights_lem :
      (adset_id ad_account_id since today : String) (w : W)
      → stored (services.get_adset_insights adset_id ad_account_id since today w).1 ≡ stored w

-- Since the world `w0` the snapshots `new` have been stored, whose ids the loop has, and its rows
-- are those of the snapshots, client by client.
pub record Tells {W Float : Type 0} {services : AlertServices W Float} (ledger : Ledger services)
    (w0 : W) (p : Progress Float) (w : W) : Type 0 where
  pub new : List (String × AdsetAlertSnapshot Float)
  pub stored_new : ledger.stored w ≡ ledger.stored w0 ++ new
  pub snapshot_ids : p.snapshot_ids ≡ ids_of new
  pub rows : (client_id : String) → rows_of client_id p.client_buckets ≡ rows_for client_id new
  pub count : count_rows p.client_buckets ≡ length new

module _ {W : Type 0} (numbers : Roas) (services : AlertServices W numbers.Float)
    (ledger : Ledger services) (w0 : W) where
  -- A pass of a loop keeps the rows and the snapshots together.
  record Keeps (f : Progress numbers.Float → Action W (Progress numbers.Float)) : Type 0 where
    at :
        (p q : Progress numbers.Float) (w w' : W)
        → Tells ledger w0 p w
        → f p w ≡ (ok q, w')
        → Tells ledger w0 q w'
