-- ===== src/Agent/Reducer/Raised.antt =====
-- internal/agent/reducer.go: the alerts over the events and over maintenance.
use dev_board.Prelude.{
  String, str_eq, Bool, true, false, not, ◌||◌, List, if◌then◌else◌, arith, inl, inr, Bool-cases,
  Option-cases,
}
use dev_board.Prelude.Time.{Instant}
use dev_board.State.Enums.{AlertType}
use dev_board.State.Internal.{AgentState}
use dev_board.State.Root.{AlertState, InternalRootState}
use dev_board.Agent.Events.{EventType, AgentEvent}
use dev_board.Agent.Tasks.{is_some, is_error, task_attention_for_event}
use dev_board.Agent.Creation.{turn_text}
use dev_board.Agent.Alerts.{turn_ptr}
use dev_board.Agent.Alerts.Laws.{
  IsUnique, upsert_alert-IsUnique, resolve_alert-IsUnique, resolve_all_agent_alerts-IsUnique,
  filter-IsUnique,
}
use dev_board.Agent.Reducer.{
  ReducerConfig, SessionMeta, is_claude, find_agent, find_task, key_for_event,
}
use dev_board.Agent.Reducer.Turns.{
  is_outcome_none, resolve_turn, reopen_alerts, apply_working, refresh_attention_activity,
  apply_attention, apply_complete, apply_error, apply_notification,
}
use dev_board.Agent.Reducer.Reduce.{reduce_turn, reduce_attributed}
use dev_board.Agent.Reducer.Steps.{
  change_current_task, complete_plain, reduce_plain_stop, progress, ask, stop_turn, act, wait_turn,
  reduce_agent, waits, is_sticky, is_outdated, seen_by,
}

resolve_turn-IsUnique :
    (a : AgentState) (typ : AlertType) (at : Instant) (alerts : List AlertState)
    → IsUnique alerts
    → IsUnique (resolve_turn a typ at alerts)
resolve_turn-IsUnique a typ at alerts h =
    resolve_alert-IsUnique typ a.id (turn_ptr a.current_turn.turn_id) at alerts h

ruleset unique_rules = (
  upsert_alert-IsUnique, resolve_turn-IsUnique, resolve_alert-IsUnique,
  resolve_all_agent_alerts-IsUnique, filter-IsUnique,
)

abbrev pub UniqueIn : InternalRootState → Type 0
UniqueIn root = IsUnique root.alerts

apply_working-IsUnique :
    (root : InternalRootState) (a : AgentState) (at : Instant)
    → UniqueIn root
    → UniqueIn (apply_working root a at).0
unfolding apply_working
apply_working-IsUnique root a at h = search (unique_rules)

reopen_alerts-IsUnique :
    (a : AgentState) (at : Instant) (alerts : List AlertState)
    → IsUnique alerts
    → IsUnique (reopen_alerts a at alerts)
unfolding reopen_alerts
reopen_alerts-IsUnique a at alerts h = elim (Bool-cases (is_outcome_none a.current_turn.outcome)) [
  | inl q ↦ rw q h
  | inr q ↦ rw q (search (unique_rules))
]

apply_attention-IsUnique :
    (alert_id : String) (root : InternalRootState) (a : AgentState) (at : Instant)
    → UniqueIn root
    → UniqueIn (apply_attention alert_id root a at).0
unfolding apply_attention
apply_attention-IsUnique alert_id root a at h = search (unique_rules, reopen_alerts-IsUnique)

apply_complete-IsUnique :
    (cfg : ReducerConfig) (alert_id : String) (root : InternalRootState) (a : AgentState)
    (at : Instant)
    → UniqueIn root
    → UniqueIn (apply_complete cfg alert_id root a at).0
unfolding apply_complete
apply_complete-IsUnique cfg alert_id root a at h = search (unique_rules)

apply_error-IsUnique :
    (alert_id : String) (root : InternalRootState) (a : AgentState) (at : Instant)
    → UniqueIn root
    → UniqueIn (apply_error alert_id root a at).0
unfolding apply_error
apply_error-IsUnique alert_id root a at h = search (unique_rules)

apply_notification-IsUnique :
    (alert_id : String) (root : InternalRootState) (a : AgentState) (e : AgentEvent)
    → UniqueIn root
    → UniqueIn (apply_notification alert_id root a e).0
unfolding apply_notification
apply_notification-IsUnique alert_id root a e h = elim (Option-cases e.metadata.notification_type) [
  | inl q ↦ rw q h
  | inr (s, q) ↦
      let asked = apply_attention-IsUnique alert_id root a e.occurred_at h in
      let rested : IsUnique (
          resolve_turn a AlertType.stale e.occurred_at
            (resolve_turn a AlertType.attention e.occurred_at root.alerts)) =
        search (unique_rules) in
      rw q (ground (arith, h, asked, rested))
]

progress-IsUnique :
    (sticky : Bool) (root : InternalRootState) (a : AgentState) (at : Instant)
    → UniqueIn root
    → UniqueIn (progress sticky root a at).0
unfolding refresh_attention_activity
progress-IsUnique true root a at h = h
progress-IsUnique false root a at h = apply_working-IsUnique root a at h

ask-IsUnique :
    (alert_id : String) (root : InternalRootState) (a : AgentState) (e : AgentEvent)
    → UniqueIn root
    → UniqueIn (ask alert_id root a e).0
unfolding ask
ask-IsUnique alert_id root a e h =
    elim (Bool-cases (is_some (task_attention_for_event e e.event_type))) [
      | inl q ↦ rw q (apply_attention-IsUnique alert_id root a e.occurred_at h)
      | inr q ↦ rw q (apply_working-IsUnique root a e.occurred_at h)
    ]

stop_failure-IsUnique :
    (b : Bool) (alert_id : String) (root : InternalRootState) (a : AgentState) (e : AgentEvent)
    → UniqueIn root
    → UniqueIn (if b then apply_error alert_id root a e.occurred_at else (root, a)).0
stop_failure-IsUnique true alert_id root a e h =
    apply_error-IsUnique alert_id root a e.occurred_at h
stop_failure-IsUnique false alert_id root a e h = h

act-IsUnique :
    (cfg : ReducerConfig) (alert_id : String) (sticky : Bool) (root : InternalRootState)
    (a : AgentState) (e : AgentEvent) (typ : EventType)
    → UniqueIn root
    → UniqueIn (act cfg alert_id sticky root a e typ).0
unfolding act stop_turn
act-IsUnique cfg alert_id sticky root a e EventType.pre_tool_use h =
    progress-IsUnique sticky root a e.occurred_at h
act-IsUnique cfg alert_id sticky root a e EventType.ask_user_question h =
    ask-IsUnique alert_id root a e h
act-IsUnique cfg alert_id sticky root a e EventType.permission_request h =
    ask-IsUnique alert_id root a e h
act-IsUnique cfg alert_id sticky root a e EventType.elicitation h = ask-IsUnique alert_id root a e h
act-IsUnique cfg alert_id sticky root a e EventType.post_tool_use h =
    progress-IsUnique sticky root a e.occurred_at h
act-IsUnique cfg alert_id sticky root a e EventType.post_tool_use_failure h =
    progress-IsUnique sticky root a e.occurred_at h
act-IsUnique cfg alert_id sticky root a e EventType.permission_denied h =
    progress-IsUnique sticky root a e.occurred_at h
act-IsUnique cfg alert_id sticky root a e EventType.elicitation_result h =
    progress-IsUnique sticky root a e.occurred_at h
act-IsUnique cfg alert_id sticky root a e EventType.subagent_start h =
    progress-IsUnique sticky root a e.occurred_at h
act-IsUnique cfg alert_id sticky root a e EventType.subagent_stop h =
    progress-IsUnique sticky root a e.occurred_at h
act-IsUnique cfg alert_id sticky root a e EventType.task_created h =
    progress-IsUnique sticky root a e.occurred_at h
act-IsUnique cfg alert_id sticky root a e EventType.task_completed h =
    progress-IsUnique sticky root a e.occurred_at h
act-IsUnique cfg alert_id sticky root a e EventType.notification h =
    apply_notification-IsUnique alert_id root a e h
act-IsUnique cfg alert_id sticky root a e EventType.stop h =
    apply_complete-IsUnique cfg alert_id root a e.occurred_at h
act-IsUnique cfg alert_id sticky root a e EventType.stop_failure h =
    stop_failure-IsUnique (is_claude e.provider) alert_id root a e h
act-IsUnique cfg alert_id sticky root a e EventType.user_prompt_submit h = h
act-IsUnique cfg alert_id sticky root a e EventType.session_end h = h
act-IsUnique cfg alert_id sticky root a e (EventType.other s) h = h

reduce_agent-IsUnique :
    (cfg : ReducerConfig) (alert_id : String) (root : InternalRootState) (m : SessionMeta)
    (e : AgentEvent) (a : AgentState)
    → UniqueIn root
    → UniqueIn (reduce_agent cfg alert_id root m e a).0
unfolding reduce_agent wait_turn change_current_task
reduce_agent-IsUnique cfg alert_id root m e a h = elim (Bool-cases (waits e)) [
  | inl q ↦ rw q (apply_working-IsUnique root a e.occurred_at h)
  | inr q ↦ rw q (
      act-IsUnique cfg alert_id
        (is_sticky (find_task e.provider e.session_id (turn_text e.turn_id) root.tasks) e) root a e
        e.event_type h)
]

reduce_turn-IsUnique :
    (cfg : ReducerConfig) (alert_id : String) (root : InternalRootState) (m : SessionMeta)
    (e : AgentEvent)
    → UniqueIn root
    → UniqueIn (reduce_turn cfg alert_id root m e).0
unfolding reduce_turn
reduce_turn-IsUnique cfg alert_id root m e h =
    elim (Bool-cases (str_eq m.current_turn_id "" || is_outdated m e)) [
      | inl q ↦ rw q h
      | inr q ↦ elim (Option-cases (find_agent (key_for_event e) root.agents)) [
        | inl f ↦ rw (q, f) h
        | inr (a, f) ↦
            rw (q, f) (reduce_agent-IsUnique cfg alert_id root (seen_by m e.occurred_at) e a h)
      ]
    ]

complete_plain-IsUnique :
    (cfg : ReducerConfig) (alert_id : String) (root : InternalRootState) (m : SessionMeta)
    (e : AgentEvent) (a : AgentState)
    → UniqueIn root
    → UniqueIn (complete_plain cfg alert_id root m e a).0
unfolding complete_plain change_current_task
complete_plain-IsUnique cfg alert_id root m e a h =
    let done = apply_complete-IsUnique cfg alert_id root a e.occurred_at h in
    elim (Bool-cases (
      not (str_eq a.current_turn.turn_id (turn_text e.turn_id))
      || is_error a.current_turn.activity)) [ inl q ↦ rw q h | inr q ↦ rw q done ]

reduce_plain_stop-IsUnique :
    (cfg : ReducerConfig) (alert_id : String) (root : InternalRootState) (m : SessionMeta)
    (e : AgentEvent)
    → UniqueIn root
    → UniqueIn (reduce_plain_stop cfg alert_id root m e).0
unfolding reduce_plain_stop
reduce_plain_stop-IsUnique cfg alert_id root m e h = elim (Bool-cases (is_outdated m e)) [
  | inl q ↦ rw q h
  | inr q ↦ elim (Option-cases (find_agent (key_for_event e) root.agents)) [
    | inl f ↦ rw (q, f) h
    | inr (a, f) ↦ rw (q, f) (complete_plain-IsUnique cfg alert_id root m e a h)
  ]
]

pub reduce_attributed-IsUnique :
    (cfg : ReducerConfig) (alert_id : String) (root : InternalRootState) (m : SessionMeta)
    (e : AgentEvent)
    → UniqueIn root
    → UniqueIn (reduce_attributed cfg alert_id root m e).0
unfolding reduce_attributed
reduce_attributed-IsUnique cfg alert_id root m e h = ground (
  arith,
  h,
  reduce_plain_stop-IsUnique cfg alert_id root m e h,
  reduce_turn-IsUnique cfg alert_id root m e h,
)
