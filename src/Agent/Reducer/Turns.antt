-- ===== src/Agent/Reducer/Turns.antt =====
-- internal/agent/reducer.go: what an event does to the turn of its agent, and with it to the alerts.
-- Each step takes the agent that the event found, and gives the root and the agent as it leaves them.
use dev_board.Prelude.{
  ◌+◌, String, str_eq, Bool, true, false, ◌||◌, none, some, List, if◌then◌else◌,
}
use dev_board.Prelude.Time.{Instant}
use dev_board.State.Enums.{Activity, Outcome, Freshness, AlertType}
use dev_board.State.Internal.{CurrentTurn, AgentState}
use dev_board.State.Root.{AlertState, InternalRootState}
use dev_board.Agent.Events.{AgentEvent}
use dev_board.Agent.Alerts.{turn_ptr, upsert_alert, resolve_alert}
use dev_board.Agent.Reducer.{ReducerConfig, put_agent}

abbrev pub is_outcome_none : Outcome → Bool
is_outcome_none Outcome.outcome_none = true
is_outcome_none _ = false

-- The root with the agent written back, and its alerts changed.
abbrev pub settle_turn :
    InternalRootState
    → AgentState
    → CurrentTurn
    → (List AlertState → List AlertState)
    → InternalRootState × AgentState
settle_turn root a turn alerts =
    let a2 : AgentState = record a { current_turn = turn } in
    (record root { agents = put_agent a.id a2 root.agents; alerts = alerts root.alerts }, a2)

abbrev pub resolve_turn : AgentState → AlertType → Instant → List AlertState → List AlertState
resolve_turn a typ at = resolve_alert typ a.id (turn_ptr a.current_turn.turn_id) at

abbrev pub working_turn : CurrentTurn → Instant → CurrentTurn
working_turn turn at = record turn {
  activity = Activity.working;
  freshness = Freshness.fresh;
  updated_at = at;
  outcome = Outcome.outcome_none;
  completed_at = if is_outcome_none turn.outcome then turn.completed_at else none;
}

unfoldable pub apply_working :
    InternalRootState → AgentState → Instant → InternalRootState × AgentState
apply_working root a at = settle_turn root a (working_turn a.current_turn at) λ alerts.
    resolve_turn a AlertType.error at (
      resolve_turn a AlertType.complete at
        (resolve_turn a AlertType.stale at (resolve_turn a AlertType.attention at alerts)))

abbrev pub attention_turn : CurrentTurn → Instant → CurrentTurn
attention_turn turn at = record turn {
  activity = Activity.attention;
  freshness = Freshness.fresh;
  updated_at = at;
}

unfoldable pub refresh_attention_activity :
    InternalRootState → AgentState → Instant → InternalRootState × AgentState
refresh_attention_activity root a at =
    settle_turn root a (attention_turn a.current_turn at) λ alerts. alerts

unfoldable pub reopen_alerts : AgentState → Instant → List AlertState → List AlertState
reopen_alerts a at alerts =
    if is_outcome_none a.current_turn.outcome
    then alerts
    else resolve_turn a AlertType.error at (resolve_turn a AlertType.complete at alerts)

unfoldable pub apply_attention :
    String → InternalRootState → AgentState → Instant → InternalRootState × AgentState
apply_attention alert_id root a at =
    settle_turn root a
      (record (attention_turn a.current_turn at) {
        outcome = Outcome.outcome_none;
        completed_at =
            if is_outcome_none a.current_turn.outcome then a.current_turn.completed_at else none;
      })
      λ alerts.
        upsert_alert alert_id AlertType.attention a.id (turn_ptr a.current_turn.turn_id) at none
          none (resolve_turn a AlertType.stale at (reopen_alerts a at alerts))

unfoldable pub apply_complete :
    ReducerConfig
    → String
    → InternalRootState
    → AgentState
    → Instant
    → InternalRootState × AgentState
apply_complete cfg alert_id root a at =
    settle_turn root a
      (record a.current_turn {
        activity = Activity.idle;
        outcome = Outcome.completed;
        freshness = Freshness.fresh;
        completed_at = some at;
        updated_at = at;
      })
      λ alerts.
        upsert_alert alert_id AlertType.complete a.id (turn_ptr a.current_turn.turn_id) at
          (some (at + cfg.complete_high_visibility)) (some (at + cfg.complete_retention))
          (resolve_turn a AlertType.error at
            (resolve_turn a AlertType.stale at (resolve_turn a AlertType.attention at alerts)))

unfoldable pub apply_error :
    String → InternalRootState → AgentState → Instant → InternalRootState × AgentState
apply_error alert_id root a at =
    settle_turn root a
      (record a.current_turn {
        activity = Activity.error;
        outcome = Outcome.failed;
        freshness = Freshness.fresh;
        completed_at = none;
        updated_at = at;
      })
      λ alerts.
        upsert_alert alert_id AlertType.error a.id (turn_ptr a.current_turn.turn_id) at none none (
          resolve_turn a AlertType.complete at
            (resolve_turn a AlertType.stale at (resolve_turn a AlertType.attention at alerts)))

unfoldable pub apply_notification :
    String → InternalRootState → AgentState → AgentEvent → InternalRootState × AgentState
apply_notification alert_id root a e = elim e.metadata.notification_type [
  | none ↦ (root, a)
  | some s ↦
      if str_eq s "permission_prompt"
        || str_eq s "elicitation_dialog"
        || str_eq s "elicitation_url_dialog"
      then apply_attention alert_id root a e.occurred_at
      else if str_eq s "idle_prompt"
      then settle_turn root a
          (record a.current_turn {
            activity = Activity.idle;
            freshness = Freshness.fresh;
            updated_at = e.occurred_at;
          })
          (λ alerts.
            resolve_turn a AlertType.stale e.occurred_at
              (resolve_turn a AlertType.attention e.occurred_at alerts))
      else (root, a)
]
