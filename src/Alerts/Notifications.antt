-- ===== src/Alerts/Notifications.antt =====
-- When an alert's subscribers are told.
use redash.Prelude.{
  ℕ, ◌+◌, ◌*◌, ◌<◌, ◌≡◌, refl, true, ◌&&◌, ◌||◌, not, none, some, List, [], ◌∷◌, map, arith,
  if◌then◌else◌, ◌==◌, nat_eq, string_eq, list_eq, option_eq, length, select, pair_eq,
}
use redash.Tables.{AlertState, unknown, ok, triggered, Alert, AlertSubscription}
use redash.Alerts.{state_eq, passed_rearm_threshold, should_notify, check_alert}

-- The successive runs of the check on one alert: the time and the state found at each.
abbrev pub Run : Type 0
Run = ℕ × AlertState

unfoldable pub runs : List AlertSubscription → Alert → List Run → Alert × ℕ
runs subscriptions alert [] = (alert, 0)
runs subscriptions alert ((now, state) ∷ rest) =
    let c = check_alert subscriptions now alert state in
    let (last, told) = runs subscriptions c.alert rest in (last, length c.notified + told)

-- After a check the alert is in the state that was found.
pub check_alert-state :
    (subscriptions : List AlertSubscription) (now : ℕ) (alert : Alert) (new_state : AlertState)
    → (check_alert subscriptions now alert new_state).alert.state ≡ new_state
unfolding check_alert should_notify
check_alert-state subscriptions now alert new_state = ground arith

module _ (subscriptions : List AlertSubscription) where
  abbrev subscribers : ℕ → List AlertSubscription
  subscribers id = select (λ (s : AlertSubscription). s.alert_id == id) subscriptions

  -- The subscribers are told just where the state changes, other than from 'unknown' to 'ok', or where the
  -- alert stays triggered and its rearm time has passed; then all of them are told, and nobody else.
  pub check_alert-notified :
      (now : ℕ) (alert : Alert) (new_state : AlertState)
      → (check_alert subscriptions now alert new_state).notified ≡ (
          if (not (state_eq new_state alert.state)
              && not (state_eq alert.state unknown && state_eq new_state ok))
            || (state_eq alert.state triggered
                && (state_eq new_state triggered && passed_rearm_threshold alert now))
          then subscribers alert.id
          else [])
  unfolding check_alert should_notify
  check_alert-notified now alert new_state = ground arith

  -- An alert without a rearm time tells its subscribers nothing as long as the same state is found.
  pub runs-same_state :
      (alert : Alert) (times : List ℕ)
      → alert.rearm ≡ none
      → runs subscriptions alert (map (λ t. (t, alert.state)) times) ≡ (alert, 0)
  unfolding runs check_alert should_notify passed_rearm_threshold
  runs-same_state alert [] r = refl
  runs-same_state alert (t ∷ times) r = ground (arith, runs-same_state alert times r)

  -- With a rearm time two checks of a triggered alert that both tell its subscribers lie further apart than the
  -- rearm time.
  pub rearm_apart :
      (alert : Alert) (first second rearm : ℕ)
      → alert.state ≡ triggered
      → alert.rearm ≡ some rearm
      → (check_alert subscriptions first alert triggered).changed ≡ true
      → (check_alert subscriptions second
          (check_alert subscriptions first alert triggered).alert
          triggered).changed
        ≡ true
      → first + rearm * 1_000_000 < second
  unfolding check_alert should_notify passed_rearm_threshold
  rearm_apart alert first second rearm s r p q = ground arith
