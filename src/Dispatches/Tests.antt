-- ===== src/Dispatches/Tests.antt =====
-- Reports of one client over a world that lists the messages and the logs.

use mathlib.Core.Path.{◌≡◌, refl}
use trafego_flow.Common.{
  ℕ, ◌+◌, ◌*◌, ◌%◌, ◌≤◌, ◌<◌, ◌⊎◌, true, Option, none, some, String, List, [], ◌∷◌, length, arith,
}
use trafego_flow.Common.Http.{failure, ok, err}
use trafego_flow.Common.Action.{throw, ◌>>=◌, catch}
use trafego_flow.Groups.{WhatsAppGroupEntity}
use trafego_flow.Ai.{Numbers}
use trafego_flow.Dispatches.{ReportDispatchLogEntity, AdAccount, Services, Settings, sent}
use trafego_flow.Dispatches.Texts.{get_last_monday, day_ms}
use trafego_flow.Dispatches.Week.{utc_day_of, get_last_monday_bounds}
use trafego_flow.Dispatches.Service.{
  Dispatched, otherwise, clock, insights_of, text_of, send_to_group, send_to_groups, build_and_send,
}
use trafego_flow.Dispatches.Triggers.{trigger_for_client, trigger_all}
use trafego_flow.Dispatches.Service.Runs.{trigger_for_client_returns}
use trafego_flow.Dispatches.Service.Counts.{
  LogsFail, Unwritten, build_and_send-LogsFail, build_and_send-length,
}
use trafego_flow.Dispatches.Service.Weekly.{trigger_all-trigger_for_client}

record World : Type 0 where
  messages : List String
  logs : List ReportDispatchLogEntity

abbrev numbers : Numbers
numbers = record {
  Float = ℕ;
  zero = 0;
  add = λ x y. x + y;
  sub = λ x y. x;
  mul = λ x y. x;
  div = λ x y. x;
  is_positive = λ x. true;
  of_count = λ n. n;
  to_fixed_2 = λ x. x;
  parse_float = λ s. 0;
  parse_int = λ s. 0;
}

abbrev settings : Settings ℕ
settings = record {
  managers_group_jid = none;
  parse_date = λ s. none;
  iso_date = λ t. some "2026-01-05";
  utc_day = utc_day_of;
  year_start = λ t. 0;
  trim = λ s. s;
  error_message = λ e. "erro";
  decimals = λ x. "0,00";
  thousands = λ n. "0";
}

abbrev last_of : List ReportDispatchLogEntity → Option ReportDispatchLogEntity
last_of [] = none
last_of (log ∷ logs) = some log

abbrev group : WhatsAppGroupEntity
group = record { id = "g1"; client_id = "c1"; group_jid = "1@g.us"; label = none; is_active = true }

abbrev account : AdAccount
account = record { ad_account_id = "act_1"; account_name = none; is_active = true }

-- Meta does not answer, so that the report says so.
abbrev services : Services World ℕ
services = record {
  now = λ w. 20 * day_ms;
  find_all_active_grouped_by_client_id = λ w. (ok (("c1", group ∷ []) ∷ []), w);
  find_accounts = λ client w. (ok (account ∷ []), w);
  get_insights = λ account since until w. (err (failure "no answer"), w);
  save_snapshot = λ account client week summary w. (ok tt, w);
  find_previous_snapshot = λ account week w. (ok none, w);
  find_client = λ client w. (err (failure "none"), w);
  get_adset_message_rows = λ account since until w. (ok [], w);
  get_live_report_data = λ account w. (ok [], w);
  generate_report = λ payload w. (ok "", w);
  send_message = λ jid text w. (ok tt, record w { messages = jid ∷ w.messages });
  save_log = λ log w. (ok tt, record w { logs = log ∷ w.logs });
  find_last_log = λ client jid week w. (ok (last_of w.logs), w);
}

-- The same, where no log can be stored.
abbrev full : Services World ℕ
full = record services { save_log = λ log w. (err (failure "full"), w) }

abbrev world : World
world = record { messages = []; logs = [] }

abbrev one : Dispatched
one = record { dispatched = 1; failed_ = 0 }

abbrev log : ReportDispatchLogEntity
log = record {
  client_id = "c1";
  group_jid = "1@g.us";
  ad_account_id = "act_1";
  week_start_date = 0;
  status = sent;
  error_message = none;
  sent_at = some (20 * day_ms);
}

abbrev after : World
after = record { messages = "1@g.us" ∷ []; logs = log ∷ [] }

sends :
    build_and_send numbers services settings "c1" account (group ∷ []) (some 0) world
    ≡ (ok one, after)
unfolding build_and_send insights_of text_of send_to_groups send_to_group clock otherwise ◌>>=◌
    catch
sends = refl

gives_up :
    build_and_send numbers full settings "c1" account (group ∷ []) (some 0) world
    ≡ (err (failure "full"), record world { messages = "1@g.us" ∷ [] })
unfolding build_and_send insights_of text_of send_to_groups send_to_group clock otherwise ◌>>=◌
    catch
gives_up = refl

refuses_dates :
    build_and_send numbers services settings "c1" account (group ∷ []) none world
    ≡ (err (failure "Invalid time value"), world)
unfolding build_and_send throw
refuses_dates = refl

build_and_send-length_example : one.dispatched + one.failed_ ≡ length (group ∷ [])
build_and_send-length_example =
    build_and_send-length numbers services settings "c1" account (group ∷ []) (some 0) world after
      one sends

build_and_send-LogsFail_example :
    ((world ≡ record world { messages = "1@g.us" ∷ [] }) × Unwritten numbers full settings (some 0))
    ⊎ LogsFail numbers full settings (failure "full") (record world { messages = "1@g.us" ∷ [] })
build_and_send-LogsFail_example =
    build_and_send-LogsFail numbers full settings "c1" account (group ∷ []) (some 0) world
      (record world { messages = "1@g.us" ∷ [] }) (failure "full") gives_up

trigger_for_client_returns_example :
    (r : Dispatched) × (w' : World) × (trigger_for_client numbers full settings
        (record { client_id = some "c1"; week_start_date = none })
        world
      ≡ (ok r, w'))
trigger_for_client_returns_example =
    trigger_for_client_returns numbers full settings
      (record { client_id = some "c1"; week_start_date = none }) world world
      (("c1", group ∷ []) ∷ []) refl

trigger_all-trigger_for_client_example :
    (w' : World) × (r : Dispatched) × (trigger_all numbers services settings world ≡ (ok tt, w'))
    × (trigger_for_client numbers services settings
          (record { client_id = none; week_start_date = none })
          world
        ≡ (ok r, w'))
trigger_all-trigger_for_client_example =
    trigger_all-trigger_for_client numbers services settings world world (("c1", group ∷ []) ∷ [])
      refl (tt, tt)

abbrev now : ℕ
now = 20 * day_ms + 5

late : 14 * day_ms ≤ now
late = ground arith

get_last_monday_bounds_example :
    (get_last_monday now (utc_day_of now) % day_ms ≡ 0)
    × (utc_day_of (get_last_monday now (utc_day_of now)) ≡ 1)
    × (get_last_monday now (utc_day_of now) + 7 * day_ms ≤ now)
    × (now < get_last_monday now (utc_day_of now) + 14 * day_ms)
get_last_monday_bounds_example = get_last_monday_bounds now late
