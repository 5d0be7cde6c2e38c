-- ===== src/Alerts.antt =====
-- Alerts: `Alert.evaluate` of redash/models.py and redash/tasks/alerts.py.
pub mod Notifications
pub mod Requests
use redash.Prelude.{
  ℕ, zero, suc, ◌+◌, ◌-◌, ◌*◌, ◌/◌, ◌%◌, ◌^◌, ◌≤◌, ◌<◌, min, max, String, ◌≡◌, refl, sym, ap, ◌∙◌,
  subst, ◌≢◌, ◌↔◌, ◌⊎◌, inl, inr, Bool, true, false, ◌&&◌, ◌||◌, not, Option, none, some, List, [],
  ◌∷◌, ◌++◌, map, arith, ltb, leb, nat_beq, if◌then◌else◌, ltb→lt, lt→ltb, leb→le, nat_beq_iff,
  tests, Eq, ◌==◌, nat_eq, string_eq, list_eq, option_eq, list_beq_iff, option_beq_iff, Bool-cases,
  Option-cases, is_some, length, take, drop, select, find, any, all, length-append,
  length-select-le, any-append, contains, contains-append, reject, update, option_all-find, sort_by,
  any-sort_by, any-select, pair_eq, pair_beq_iff, option_all, any-reject_self, length-update,
  without_first, count, count-without_first, count-without_first_ne, contains-eq-ltb, Assoc, lookup,
  insert, remove, lookup-insert, lookup-remove,
}
use redash.Tables.{AlertState, unknown, ok, triggered, AlertOptions, Alert, AlertSubscription}

-- A value in a row of a query result, or `options['value']`, and Python's comparisons of two.
pub record Values : Type 1 where
  pub Value : Type 0
  pub parse : String → Value
  pub gt : Value → Value → Bool
  pub lt : Value → Value → Bool
  pub eq : Value → Value → Bool

-- The outcome of the task for one alert: what `alert` becomes, and who is notified.
pub record Checked : Type 0 where
  pub alert : Alert
  pub changed : Bool
  pub notified : List AlertSubscription

abbrev pub state_eq : AlertState → AlertState → Bool
state_eq unknown unknown = true
state_eq ok ok = true
state_eq triggered triggered = true
state_eq _ _ = false

module _ (values : Values) where
  open values use {Value, parse, gt, lt, eq}

  -- The test that `options['op']` names, on `value` and `options['value']`.
  unfoldable pub holds : String → Value → Value → Bool
  holds op value threshold =
      if op == "greater than" && gt value threshold
      then true
      else if op == "less than" && lt value threshold
      then true
      else op == "equals" && eq value threshold

  -- Alert.evaluate on the rows of the latest result: `none` is the KeyError of a missing column.
  unfoldable pub evaluate : AlertOptions → List (Assoc String Value) → Option AlertState
  unfolding holds
  evaluate options [] = some unknown
  evaluate options (row ∷ rows) = elim (lookup options.column row) [
    | none ↦ none
    | some value ↦ some (if holds options.op value (parse options.value) then triggered else ok)
  ]

-- `alert.last_triggered_at + timedelta(seconds=alert.rearm) < utcnow()`, where both are set; a `rearm`
-- of 0 counts as not set.
unfoldable pub passed_rearm_threshold : Alert → ℕ → Bool
passed_rearm_threshold alert now = elim alert.rearm [
  | none ↦ false
  | some rearm ↦ elim alert.last_triggered_at [
    | none ↦ false
    | some last ↦ not (rearm == 0) && ltb (last + rearm * 1_000_000) now
  ]
]

unfoldable pub should_notify : Alert → AlertState → ℕ → Bool
unfolding passed_rearm_threshold
should_notify alert new_state now =
    not (state_eq new_state alert.state)
    || (state_eq alert.state triggered && passed_rearm_threshold alert now)

-- The body of the loop of `check_alerts_for_query`, given the new state. `notify_subscriptions` tells every
-- subscription; an exception of one is logged and the loop over them goes on.
unfoldable pub check_alert : List AlertSubscription → ℕ → Alert → AlertState → Checked
check_alert subscriptions now alert new_state =
    if should_notify alert new_state now
    then record {
      alert = record alert { state = new_state; last_triggered_at = some now };
      changed = true;
      notified =
          if state_eq alert.state unknown && state_eq new_state ok
          then []
          else select (λ s. s.alert_id == alert.id) subscriptions;
    }
    else record { alert = alert; changed = false; notified = [] }

module _ (values : Values) (subscriptions : List AlertSubscription) (now : ℕ) where
  open values use {Value}

  -- check_alerts_for_query over the alerts of the query: the alerts as they stand afterwards and the
  -- notifications in order, and whether a KeyError ended the loop. Each changed alert is committed
  -- at once, so the alerts before a KeyError keep their changes.
  unfoldable pub check_alerts_for_query :
      List (Assoc String Value) → List Alert → List Alert × List AlertSubscription × Bool
  check_alerts_for_query rows [] = ([], [], true)
  check_alerts_for_query rows (alert ∷ alerts) =
      let (rest, told, done) = check_alerts_for_query rows alerts in
      elim (evaluate values alert.options rows) [
        | none ↦ (alert ∷ alerts, [], false)
        | some new_state ↦
            let c = check_alert subscriptions now alert new_state in
            (c.alert ∷ rest, c.notified ++ told, done)
      ]
