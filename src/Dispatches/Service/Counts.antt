-- ===== src/Dispatches/Service/Counts.antt =====
-- modules/report-dispatches/report-dispatches.service.ts: what a report counts, and when it
-- is given up.
use trafego_flow.Common.{
  ℕ, ◌+◌, ◌≡◌, refl, ◌∙◌, ◌⊎◌, inl, inr, Bool, true, false, Option, none, some, String, List, [],
  ◌∷◌, length, arith, if◌then◌else◌,
}
use trafego_flow.Common.Text.{truthy?}
use trafego_flow.Common.Http.{Exception, Result, ok, err}
use trafego_flow.Common.Action.{
  Action, pure, throw, or_throw, catch, ◌>>=◌, handled, bind_ok, bind_err,
}
use trafego_flow.Ai.{Numbers}
use trafego_flow.Groups.{WhatsAppGroupEntity}
use trafego_flow.Dispatches.{
  DispatchStatus, ReportDispatchLogEntity, sent, failed, AdAccount, Services, Settings,
}
use trafego_flow.Dispatches.Texts.{end_of_week}
use trafego_flow.Dispatches.Service.{
  Dispatched, count_of, count_status, otherwise, send_manager_alert, send_to_group, send_to_groups,
  failed_log, build_and_send, insights_of, text_of,
}
use trafego_flow.Dispatches.Service.Runs.{
  Returns, pure-Returns, otherwise-Returns, Returns-throws, insights_of-Returns, text_of-Returns,
}

or_throw_err :
    {W A : Type 0} (o : Option A) (x : Exception) (w : W) {w' : W} {e : Exception}
    → or_throw o x w ≡ (err e, w')
    → (o ≡ none) × (w ≡ w')
unfolding or_throw throw pure
or_throw_err none x w h = (refl, cc h)
or_throw_err (some a) x w h = absurd (cc h)

or_throw_ok :
    {W A : Type 0} (o : Option A) (x : Exception) (w : W) {w' : W} {a : A}
    → or_throw o x w ≡ (ok a, w')
    → w ≡ w'
unfolding or_throw throw pure
or_throw_ok none x w h = absurd (cc h)
or_throw_ok (some a) x w h = cc h

module _ {W : Type 0} (numbers : Numbers) (services : Services W numbers.Float)
    (settings : Settings numbers.Float) where
  -- An exception of the table of logs: a log could not be stored, or the newest not be read.
  abbrev pub LogsFail : Exception → W → Type 0
  LogsFail e w' =
      ((log : ReportDispatchLogEntity) × (v : W) × (services.save_log log v ≡ (err e, w')))
      ⊎ ((client_id : String) × (group_jid : String) × (week : ℕ) × (v : W)
          × (services.find_last_log client_id group_jid week v ≡ (err e, w')))

  send_manager_alert-Returns :
      (client_id ad_account_id since until message : String)
      → Returns
          (send_manager_alert numbers services settings client_id ad_account_id since until message)
  unfolding send_manager_alert
  send_manager_alert-Returns client_id ad_account_id since until message =
      chosen (truthy? settings.managers_group_jid) _
    where
      chosen :
          (b : Bool) (m : Action W (Unit {0})) → Returns (if b then otherwise tt m else pure tt)
      chosen true m = otherwise-Returns tt _
      chosen false m = pure-Returns tt

  send_to_group-LogsFail :
      (client_id ad_account_id group_jid : String) (week_start : ℕ) (text since until : String)
      (w w' : W) (e : Exception)
      → send_to_group numbers services settings client_id ad_account_id group_jid week_start text
          since until w
        ≡ (err e, w')
      → LogsFail e w'
  unfolding send_to_group catch
  send_to_group-LogsFail client_id ad_account_id group_jid week_start text since until w w' e h =
      go _ h
    where
      handler : Exception → Action W (Unit {0})
      handler f =
          services.save_log
            (failed_log numbers services settings client_id ad_account_id group_jid week_start f)
          >>= λ _.
              send_manager_alert numbers services settings client_id ad_account_id since until
                (settings.error_message f)

      go : (x : Result (Unit {0}) × W) → handled handler x ≡ (err e, w') → LogsFail e w'
      go (ok u, v) k = absurd (cc k)
      go (err f, v) k = elim (bind_err _ _ v k) [
        | inl unsaved ↦ inl (
          failed_log numbers services settings client_id ad_account_id group_jid week_start f,
          v,
          unsaved,
        )
        | inr (_, u, saved, alert) ↦
            Returns-throws _ u
              (send_manager_alert-Returns client_id ad_account_id since until
                (settings.error_message f))
              alert
      ]

  send_to_groups-LogsFail :
      (client_id ad_account_id : String) (week_start : ℕ) (text since until : String)
      (groups : List WhatsAppGroupEntity) (w w' : W) (e : Exception)
      → send_to_groups numbers services settings client_id ad_account_id week_start text since until
          groups w
        ≡ (err e, w')
      → LogsFail e w'
  unfolding send_to_groups pure
  send_to_groups-LogsFail client_id ad_account_id week_start text since until [] w w' e h =
      absurd (cc h)
  send_to_groups-LogsFail client_id ad_account_id week_start text since until (group ∷ groups) w w'
        e h =
      elim (bind_err _ _ w h) [
        | inl unsent ↦
            send_to_group-LogsFail client_id ad_account_id group.group_jid week_start text since
              until w w' e unsent
        | inr (_, v, done, h) ↦ elim (bind_err _ _ v h) [
          | inl unread ↦ inr (client_id, group.group_jid, week_start, v, unread)
          | inr (log, u, read, h) ↦ elim (bind_err _ _ u h) [
            | inl later ↦
                send_to_groups-LogsFail client_id ad_account_id week_start text since until groups u
                  w' e later
            | inr (rest, t, ran, h) ↦ absurd (cc h)
          ]
        ]
      ]

  -- The first or the last day of the week cannot be written.
  abbrev pub Unwritten : Option ℕ → Type 0
  Unwritten none = Unit
  Unwritten (some week_start) =
      (settings.iso_date week_start ≡ none)
      ⊎ (settings.iso_date (end_of_week numbers.Float settings week_start) ≡ none)

  -- the rest of a report, from the insights on
  report-LogsFail :
      (client_id : String) (account : AdAccount) (groups : List WhatsAppGroupEntity)
      (week_start : ℕ) (since until : String) (w w' : W) (e : Exception)
      → (do
        split ← insights_of numbers services settings account.ad_account_id since until
        text ← text_of numbers services settings client_id account week_start since until split
        send_to_groups numbers services settings client_id account.ad_account_id week_start text
            since until groups)
          w
        ≡ (err e, w')
      → LogsFail e w'
  report-LogsFail client_id account groups week_start since until w w' e h =
      elim (bind_err _ _ w h) [
        | inl h ↦
            Returns-throws _ w
              (insights_of-Returns numbers services settings account.ad_account_id since until) h
        | inr (split, v, found, h) ↦ elim (bind_err _ _ v h) [
          | inl h ↦
              Returns-throws _ v
                (text_of-Returns numbers services settings client_id account week_start since until
                  split)
                h
          | inr (text, u, written, h) ↦
              send_to_groups-LogsFail client_id account.ad_account_id week_start text since until
                groups u w' e h
        ]
      ]

  -- If the report on an account throws, then either the first or the last day of the week cannot
  -- be written, and nothing has changed, or the table of logs has failed: a log could not be
  -- stored or the newest could not be read; no other failure gives the report up.
  pub build_and_send-LogsFail :
      (client_id : String) (account : AdAccount) (groups : List WhatsAppGroupEntity)
      (week_start : Option ℕ) (w w' : W) (e : Exception)
      → build_and_send numbers services settings client_id account groups week_start w ≡ (err e, w')
      → ((w ≡ w') × Unwritten week_start) ⊎ LogsFail e w'
  unfolding build_and_send throw
  build_and_send-LogsFail client_id account groups none w w' e h = inl (cc h, tt)
  build_and_send-LogsFail client_id account groups (some week_start) w w' e h =
      elim (bind_err _ _ w h) [
        | inl h ↦ let (missing, same) = or_throw_err _ _ w h in inl (same, inl missing)
        | inr (since, v, written, h) ↦
            let start = or_throw_ok _ _ w written in
            elim (bind_err _ _ v h) [
              | inl h ↦
                  let (missing, same) = or_throw_err _ _ v h in inl (start ∙ same, inr missing)
              | inr (until, u, written, h) ↦
                  inr (report-LogsFail client_id account groups week_start since until u w' e h)
            ]
      ]

  counted :
      (log : Option ReportDispatchLogEntity)
      → (count_status log).dispatched + (count_status log).failed_ ≡ 1
  counted none = refl
  counted (some log) = one log.status
    where
      one : (s : DispatchStatus) → (count_of s).dispatched + (count_of s).failed_ ≡ 1
      one sent = refl
      one failed = refl

  send_to_groups-length :
      (client_id ad_account_id : String) (week_start : ℕ) (text since until : String)
      (groups : List WhatsAppGroupEntity) (w w' : W) (r : Dispatched)
      → send_to_groups numbers services settings client_id ad_account_id week_start text since until
          groups w
        ≡ (ok r, w')
      → r.dispatched + r.failed_ ≡ length groups
  unfolding send_to_groups pure
  send_to_groups-length client_id ad_account_id week_start text since until [] w w' r h =
      ground (arith, h)
  send_to_groups-length client_id ad_account_id week_start text since until (group ∷ groups) w w' r
        h =
      let (_, v, done, h) = bind_ok _ _ w h in
      let (log, u, read, h) = bind_ok _ _ v h in
      let (rest, t, ran, h) = bind_ok _ _ u h in
      let ih =
        send_to_groups-length client_id ad_account_id week_start text since until groups u t rest
          ran in
      let one = counted log in ground (arith, h)

  -- A report on an account that returns counts each group of the client once, as dispatched or as
  -- failed.
  pub build_and_send-length :
      (client_id : String) (account : AdAccount) (groups : List WhatsAppGroupEntity)
      (week_start : Option ℕ) (w w' : W) (r : Dispatched)
      → build_and_send numbers services settings client_id account groups week_start w ≡ (ok r, w')
      → r.dispatched + r.failed_ ≡ length groups
  unfolding build_and_send throw
  build_and_send-length client_id account groups none w w' r h = absurd (cc h)
  build_and_send-length client_id account groups (some week_start) w w' r h =
      let (since, x, started, h) = bind_ok _ _ w h in
      let (until, y, ended, h) = bind_ok _ _ x h in
      let (split, v, found, h) = bind_ok _ _ y h in
      let (text, u, written, h) = bind_ok _ _ v h in
      send_to_groups-length client_id account.ad_account_id week_start text since until groups u w'
        r h
