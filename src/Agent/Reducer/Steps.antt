-- ===== src/Agent/Reducer/Steps.antt =====
-- internal/agent/reducer.go: the parts of `reduce` that act on the agent and on the task of an event.
use dev_board.Prelude.{
  ℕ, String, str_eq, Bool, true, false, not, ◌&&◌, ◌||◌, Option, none, some, List, [], ◌∷◌, ltb,
  if◌then◌else◌,
}
use dev_board.Prelude.Time.{Instant}
use dev_board.State.Enums.{Activity, Freshness, TaskLifecycle, AlertType, background_wait}
use dev_board.State.Internal.{AgentState, TaskCompletion, TaskState}
use dev_board.State.Root.{InternalRootState}
use dev_board.Agent.Events.{EventType, AgentEvent}
use dev_board.Agent.Checkpoints.{set_task_checkpoint, checkpoint_text}
use dev_board.Agent.Tasks.{
  task_attention_for_event, can_clear_task_attention, sync_task_lifecycle, apply_task_event,
  is_error, is_completed, is_some,
}
use dev_board.Agent.Creation.{turn_text}
use dev_board.Agent.Alerts.{turn_ptr, upsert_alert}
use dev_board.Agent.Reducer.{
  ReducerConfig, SessionMeta, is_claude, is_stop, key_for_event, find_agent, find_task, change_task,
}
use dev_board.Agent.Reducer.Turns.{
  settle_turn, apply_working, refresh_attention_activity, apply_attention, apply_complete,
  apply_error, apply_notification,
}
use dev_board.Agent.Reducer.Prompt.{precedes, later, is_task_in}

-- The agent neither rests nor failed.
abbrev pub is_busy : Activity → Bool
is_busy Activity.idle = false
is_busy Activity.error = false
is_busy _ = true

unfoldable pub stale_agent :
    String → InternalRootState → AgentEvent → AgentState → InternalRootState
stale_agent alert_id root e a =
    if is_busy a.current_turn.activity
    then (settle_turn root a (record a.current_turn { freshness = Freshness.stale })
        λ alerts.
          upsert_alert alert_id AlertType.stale a.id (turn_ptr a.current_turn.turn_id) e.occurred_at
            none none alerts).0
    else root

-- An event that names no turn.
unfoldable pub reduce_unattributed : String → InternalRootState → AgentEvent → InternalRootState
reduce_unattributed alert_id root e = elim (find_agent (key_for_event e) root.agents) [
  | none ↦ root
  | some a ↦ stale_agent alert_id root e a
]

unfoldable pub change_current_task :
    AgentEvent → (TaskState → TaskState) → InternalRootState → InternalRootState
change_current_task e f root = record root {
  tasks = change_task e.provider e.session_id (turn_text e.turn_id) f root.tasks;
}

-- The event came before the last one of the turn, or is of another turn.
abbrev pub is_outdated : SessionMeta → AgentEvent → Bool
is_outdated m e =
    not (str_eq m.current_turn_id (turn_text e.turn_id))
    || precedes e.occurred_at m.latest_turn_event_at

abbrev pub finish_plain : AgentState → AgentEvent → TaskState → TaskState
finish_plain a e t = record (apply_task_event t (some a) e) {
  attention = none;
  updated_at = e.occurred_at;
}

unfoldable pub complete_plain :
    ReducerConfig
    → String
    → InternalRootState
    → SessionMeta
    → AgentEvent
    → AgentState
    → InternalRootState × SessionMeta
complete_plain cfg alert_id root m e a =
    if not (str_eq a.current_turn.turn_id (turn_text e.turn_id)) || is_error a.current_turn.activity
    then (root, m)
    else let (next, a2) = apply_complete cfg alert_id root a e.occurred_at in
      (
        change_current_task e (finish_plain a2 e) next,
        record m { latest_turn_event_at = e.occurred_at; terminal_turn_id = turn_text e.turn_id },
      )

-- A Stop of an older Claude, which does not tell of work in the background.
unfoldable pub reduce_plain_stop :
    ReducerConfig
    → String
    → InternalRootState
    → SessionMeta
    → AgentEvent
    → InternalRootState × SessionMeta
reduce_plain_stop cfg alert_id root m e =
    if is_outdated m e then (root, m) else elim (find_agent (key_for_event e) root.agents) [
      | none ↦ (root, m)
      | some a ↦ complete_plain cfg alert_id root m e a
    ]

unfoldable pub is_sticky : Option TaskState → AgentEvent → Bool
is_sticky none e = false
is_sticky (some t) e = is_some t.attention && not (can_clear_task_attention t.attention e)

abbrev pub is_error_lifecycle : TaskLifecycle → Bool
is_error_lifecycle TaskLifecycle.error = true
is_error_lifecycle _ = false

-- The errors of earlier turns of the session are recovered.
unfoldable pub supersede_prior_turn_errors : AgentEvent → Instant → List TaskState → List TaskState
supersede_prior_turn_errors e at [] = []
supersede_prior_turn_errors e at (t ∷ tasks) =
    let rest = supersede_prior_turn_errors e at tasks in
    if is_task_in e.provider e.session_id t
      && not (str_eq t.turn_id (turn_text e.turn_id))
      && is_error_lifecycle t.lifecycle
      && not (is_some t.superseded_at)
    then record t { superseded_at = some at } ∷ rest
    else t ∷ rest

abbrev pub is_positive : Option ℕ → Bool
is_positive none = false
is_positive (some n) = ltb 0 n

-- A Claude Stop while work goes on in the background.
abbrev pub waits : AgentEvent → Bool
waits e =
    is_stop e.event_type
    && is_claude e.provider
    && (is_positive e.metadata.background_task_count || is_positive e.metadata.session_cron_count)

unfoldable pub wait_task : AgentState → Instant → TaskState → TaskState
wait_task a at t =
    sync_task_lifecycle
      (set_task_checkpoint (record t { attention = none; completion = none }) background_wait
        (checkpoint_text background_wait none) at false)
      (some a) at

abbrev pub progress :
    Bool → InternalRootState → AgentState → Instant → InternalRootState × AgentState
progress sticky root a at =
    if sticky then refresh_attention_activity root a at else apply_working root a at

unfoldable pub ask :
    String → InternalRootState → AgentState → AgentEvent → InternalRootState × AgentState
ask alert_id root a e =
    if is_some (task_attention_for_event e e.event_type)
    then apply_attention alert_id root a e.occurred_at
    else apply_working root a e.occurred_at

unfoldable pub stop_turn :
    ReducerConfig
    → String
    → InternalRootState
    → AgentState
    → AgentEvent
    → InternalRootState × AgentState
stop_turn cfg alert_id root a e =
    let (next, a2) = apply_complete cfg alert_id root a e.occurred_at in
    (record next { tasks = supersede_prior_turn_errors e e.occurred_at next.tasks }, a2)

unfoldable pub act :
    ReducerConfig
    → String
    → Bool
    → InternalRootState
    → AgentState
    → AgentEvent
    → EventType
    → InternalRootState × AgentState
act cfg alert_id sticky root a e EventType.pre_tool_use = progress sticky root a e.occurred_at
act cfg alert_id sticky root a e EventType.ask_user_question = ask alert_id root a e
act cfg alert_id sticky root a e EventType.permission_request = ask alert_id root a e
act cfg alert_id sticky root a e EventType.elicitation = ask alert_id root a e
act cfg alert_id sticky root a e EventType.post_tool_use = progress sticky root a e.occurred_at
act cfg alert_id sticky root a e EventType.post_tool_use_failure =
    progress sticky root a e.occurred_at
act cfg alert_id sticky root a e EventType.permission_denied = progress sticky root a e.occurred_at
act cfg alert_id sticky root a e EventType.elicitation_result = progress sticky root a e.occurred_at
act cfg alert_id sticky root a e EventType.subagent_start = progress sticky root a e.occurred_at
act cfg alert_id sticky root a e EventType.subagent_stop = progress sticky root a e.occurred_at
act cfg alert_id sticky root a e EventType.task_created = progress sticky root a e.occurred_at
act cfg alert_id sticky root a e EventType.task_completed = progress sticky root a e.occurred_at
act cfg alert_id sticky root a e EventType.notification = apply_notification alert_id root a e
act cfg alert_id sticky root a e EventType.stop = stop_turn cfg alert_id root a e
act cfg alert_id sticky root a e EventType.stop_failure =
    if is_claude e.provider then apply_error alert_id root a e.occurred_at else (root, a)
act cfg alert_id sticky root a e _ = (root, a)

abbrev pub closes_turn : EventType → Bool
closes_turn EventType.stop = true
closes_turn EventType.stop_failure = true
closes_turn _ = false

unfoldable pub completion_of : AgentEvent → Option TaskCompletion
completion_of e =
    if is_some e.metadata.completion_summary || is_some e.metadata.result_identifier
    then some (record {
      summary = e.metadata.completion_summary;
      result_identifier = e.metadata.result_identifier;
      at = e.occurred_at;
    })
    else none

unfoldable pub finish_task : AgentState → AgentEvent → TaskState → TaskState
finish_task a e t =
    let t2 = apply_task_event t (some a) e in
    if is_stop e.event_type && is_completed a.current_turn.outcome
    then record t2 { attention = none; completion = completion_of e }
    else t2

-- The time of the event, as its session remembers it.
abbrev pub seen_by : SessionMeta → Instant → SessionMeta
seen_by m at = record m {
  latest_turn_event_at = at;
  latest_session_event_at = later at m.latest_session_event_at;
}

unfoldable pub wait_turn : InternalRootState → AgentEvent → AgentState → InternalRootState
wait_turn root e a =
    let (next, a2) = apply_working root a e.occurred_at in
    change_current_task e (wait_task a2 e.occurred_at) next

unfoldable pub reduce_agent :
    ReducerConfig
    → String
    → InternalRootState
    → SessionMeta
    → AgentEvent
    → AgentState
    → InternalRootState × SessionMeta
reduce_agent cfg alert_id root m e a =
    let t = find_task e.provider e.session_id (turn_text e.turn_id) root.tasks in
    if waits e
    then (wait_turn root e a, m)
    else let (next, a2) = act cfg alert_id (is_sticky t e) root a e e.event_type in
      (
        change_current_task e (finish_task a2 e) next,
        if closes_turn e.event_type then record m { terminal_turn_id = turn_text e.turn_id } else m,
      )
