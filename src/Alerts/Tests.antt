-- ===== src/Alerts/Tests.antt =====
-- A run over one account with two ad sets, in a world that counts the snapshots.

use mathlib.Core.Path.{◌≡◌, refl}
use mathlib.Core.List.{Perm}
use trafego_flow.Common.{◌++◌, ℕ, leb, true, false, none, some, String, List, [], ◌∷◌, arith}
use trafego_flow.Common.Http.{failure, ok, err}
use trafego_flow.Clients.{ClientEntity}
use trafego_flow.Alerts.{AlertJobEntity, active, adset_insights, Roas, AdsetRow, sort_adsets}
use trafego_flow.Alerts.Runs.{MetaAdset, AdsetAlertSnapshot, AlertServices, Progress}
use trafego_flow.Alerts.Stored.{Ledger}
use trafego_flow.Alerts.Order.{InReturnOrder, sort_adsets-InReturnOrder}

abbrev numbers : Roas
numbers = record {
  Float = ℕ;
  parse_float = λ s. 1;
  is_positive = λ x. true;
  to_fixed_2 = λ x. "1.00";
  leb = leb;
}

abbrev adset : (id : String) → MetaAdset
adset id = record {
  id = id;
  name = id;
  updated_time = "2026-08-01T10:00:00+0000";
  effective_status = "ACTIVE";
}

abbrev client : ClientEntity
client = record {
  id = "c1";
  name = "Acme";
  email = "acme@example.com";
  is_active = true;
  phone = none;
  whatsapp_group_code = none;
  google_drive_folder_url = none;
  ai_strategy_context = none;
  profile_type = none;
}

abbrev World : Type 0
World = List (String × AdsetAlertSnapshot ℕ)

abbrev services : AlertServices World ℕ
services = record {
  find_active = λ w. (ok [], w);
  find_clients = λ w. (ok (client ∷ []), w);
  find_accounts = λ id w.
      (ok (record { ad_account_id = "act_1"; account_name = none; is_active = true } ∷ []), w);
  list_adsets = λ id w. (ok (adset "a1" ∷ adset "a2" ∷ []), w);
  get_adset_insights = λ id account since today w. (err (failure "no answer"), w);
  send_message = λ jid text w. (ok tt, w);
  save_snapshot = λ s w. (ok s.adset_id, w ++ ((s.adset_id, s) ∷ []));
  mark_sent = λ ids w. (ok tt, w);
  managers_group_jid = none;
  today = "2026-08-02";
  trim = λ s. s;
  text_of = λ e. "Error";
}

abbrev job : AlertJobEntity
job = record {
  id = "j1";
  job_type = adset_insights;
  status = active;
  client_id = none;
  fields = [];
}

abbrev told : (name : String) → AdsetRow ℕ
told name = record { adset_name = name; roas = none; updated_time = "2026-08-01" }

abbrev gathered : Progress ℕ
gathered = record {
  errors = "Acme / a1: Error" ∷ "Acme / a2: Error" ∷ [];
  client_buckets =
      ("c1", record { client_name = "Acme"; adsets = told "a1" ∷ told "a2" ∷ [] }) ∷ [];
  snapshot_ids = "a1" ∷ "a2" ∷ [];
}

abbrev snapshot : (id : String) → AdsetAlertSnapshot ℕ
snapshot id = record {
  job_id = "j1";
  client_id = "c1";
  ad_account_id = "act_1";
  adset_id = id;
  adset_name = id;
  roas = none;
  updated_time = "2026-08-01";
}

abbrev after : World
after = ("a1", snapshot "a1") ∷ ("a2", snapshot "a2") ∷ []

saves :
    (s : AdsetAlertSnapshot ℕ) (w : World) {v : World} {id : String}
    → services.save_snapshot s w ≡ (ok id, v)
    → v ≡ w ++ ((id, s) ∷ [])
saves s w e = cc e

abbrev ledger : Ledger services
ledger = record {
  stored = λ w. w;
  save_snapshot_ok = saves;
  find_accounts_lem = λ client_id w. refl;
  list_adsets_lem = λ ad_account_id w. refl;
  get_adset_insights_lem = λ adset_id ad_account_id since today w. refl;
}

leb_total : (x y : ℕ) → leb x y ≡ false → leb y x ≡ true
leb_total x y h = ground arith

leb_trans : (x y z : ℕ) → leb x y ≡ true → leb y z ≡ true → leb x z ≡ true
leb_trans x y z h k = ground arith

abbrev rows : List (AdsetRow ℕ)
rows =
    told "a1"
    ∷ record { adset_name = "a2"; roas = some 3; updated_time = "2026-08-01" }
    ∷ record { adset_name = "a3"; roas = some 2; updated_time = "2026-08-01" }
    ∷ []

sort_adsets-InReturnOrder_example :
    InReturnOrder numbers (sort_adsets numbers rows) × Perm (sort_adsets numbers rows) rows
sort_adsets-InReturnOrder_example = sort_adsets-InReturnOrder numbers leb_total leb_trans rows
