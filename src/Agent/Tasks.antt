-- ===== src/Agent/Tasks.antt =====
-- internal/agent/task_reducer.go: a task as events of its turn arrive.
pub mod Laws
use dev_board.Agent.Checkpoints.{
  any_word, at_least, checkpoint_base, checkpoint_for_event, checkpoint_text, is_background_wait,
  is_separator, is_word, max_attention_text_bytes, max_task_checkpoint_bytes, names_subject,
  or_empty, push_token, replaces, set_task_checkpoint, subject_part, task_checkpoint_priority,
  tokens_of, tool_checkpoint,
}
use dev_board.Prelude.{
  ℕ, ◌-◌, ◌*◌, ◌≡◌, String, str_eq, Bool, true, false, not, ◌&&◌, ◌||◌, Option, none, some, List,
  [], ◌∷◌, ◌++◌, leb, ltb, if◌then◌else◌,
}
use dev_board.Prelude.Text.{codes, codes_eq, trim_space, to_lower}
use dev_board.Prelude.Time.{Instant, second, before}
use dev_board.State.Enums.{
  Activity, Outcome, Freshness, TaskLifecycle, TaskConfidence, TaskCheckpointKind, started,
  inspecting, editing, running, validating, delegated, subtask_completed, background_wait,
  TaskAttentionKind, approval_needed, question_waiting, elicitation_waiting,
  authentication_required, billing_required, rate_limited, provider_action_required,
}
use dev_board.State.Internal.{
  CurrentTurn, AgentState, TaskProjectContext, TaskCheckpoint, TaskAttention, TaskState,
}
use dev_board.Agent.Sanitize.{truncate_utf8, normalize_single_line}
use dev_board.Agent.Events.{Provider, codex, claude, EventType, AgentEvent, is_codex}

abbrev pub is_permission_request : EventType → Bool
is_permission_request EventType.permission_request = true
is_permission_request _ = false

unfoldable pub permission_request_does_not_require_confirmation : AgentEvent → Bool
unfolding is_word trim_space to_lower
permission_request_does_not_require_confirmation e = elim e.metadata.permission_mode [
  | none ↦ false
  | some mode ↦
      is_codex e.provider
      && is_permission_request e.event_type
      && is_word (to_lower (trim_space mode)) ("dontask" ∷ "bypasspermissions" ∷ [])
]

abbrev pub attention_at : AgentEvent → TaskAttentionKind → String → Option TaskAttention
attention_at e kind text = some (record {
  kind = kind;
  text = truncate_utf8 (codes text) max_attention_text_bytes;
  at = e.occurred_at;
  correlation_id = truncate_utf8 (or_empty e.metadata.correlation_id) 96;
})

abbrev pub is_idle_prompt : Option String → Bool
is_idle_prompt none = false
is_idle_prompt (some s) = str_eq s "idle_prompt"

unfoldable pub failure_attention : AgentEvent → Option TaskAttention
failure_attention e = elim e.metadata.error_type [
  | none ↦ none
  | some s ↦
      if str_eq s "authentication_failed" || str_eq s "oauth_org_not_allowed"
      then attention_at e authentication_required "Authentication required"
      else if str_eq s "billing_error"
      then attention_at e billing_required "Billing action required"
      else if str_eq s "rate_limit"
      then attention_at e rate_limited "Rate limited"
      else none
]

unfoldable pub notification_attention : AgentEvent → Option TaskAttention
notification_attention e = elim e.metadata.notification_type [
  | none ↦ none
  | some s ↦
      if str_eq s "idle_prompt"
      then none
      else attention_at e provider_action_required "Provider action required"
]

unfoldable pub task_attention_for_event : AgentEvent → EventType → Option TaskAttention
task_attention_for_event e EventType.permission_request =
    if permission_request_does_not_require_confirmation e
    then none
    else attention_at e approval_needed "Approval needed"
task_attention_for_event e EventType.ask_user_question =
    attention_at e question_waiting "Question waiting"
task_attention_for_event e EventType.elicitation =
    attention_at e elicitation_waiting "Elicitation waiting"
task_attention_for_event e EventType.notification = notification_attention e
task_attention_for_event e EventType.stop_failure = failure_attention e
task_attention_for_event e _ = none

-- The events that prove progress, or end the turn.
unfoldable pub clears : AgentEvent → EventType → Bool
clears e EventType.elicitation_result = true
clears e EventType.stop = true
clears e EventType.session_end = true
clears e EventType.stop_failure = true
clears e EventType.notification = is_idle_prompt e.metadata.notification_type
clears e EventType.pre_tool_use = true
clears e EventType.post_tool_use = true
clears e EventType.post_tool_use_failure = true
clears e EventType.permission_denied = true
clears e EventType.subagent_start = true
clears e EventType.subagent_stop = true
clears e EventType.task_created = true
clears e EventType.task_completed = true
clears e _ = false

unfoldable pub can_clear_task_attention : Option TaskAttention → AgentEvent → Bool
can_clear_task_attention none e = false
can_clear_task_attention (some a) e =
    if before e.occurred_at a.at
    then false
    else permission_request_does_not_require_confirmation e || clears e e.event_type

abbrev pub is_error : Activity → Bool
is_error Activity.error = true
is_error _ = false

abbrev pub needs_attention : Activity → Bool
needs_attention Activity.attention = true
needs_attention _ = false

abbrev pub is_failed : Outcome → Bool
is_failed Outcome.failed = true
is_failed _ = false

abbrev pub is_completed : Outcome → Bool
is_completed Outcome.completed = true
is_completed _ = false

abbrev pub is_some {ℓ} : {A : Type ℓ} → Option A → Bool
is_some none = false
is_some (some x) = true

unfoldable pub lifecycle_of : Option TaskAttention → CurrentTurn → TaskLifecycle
lifecycle_of attention turn =
    if is_error turn.activity || is_failed turn.outcome
    then TaskLifecycle.error
    else if is_completed turn.outcome
    then TaskLifecycle.complete
    else if is_some attention || needs_attention turn.activity
    then TaskLifecycle.attention
    else TaskLifecycle.working

-- The agent is absent where the session has none.
unfoldable pub sync_task_lifecycle : TaskState → Option AgentState → Instant → TaskState
sync_task_lifecycle t none at = t
sync_task_lifecycle t (some a) at = record t {
  freshness = a.current_turn.freshness;
  lifecycle = lifecycle_of t.attention a.current_turn;
  updated_at = at;
}

abbrev pub is_complete : TaskLifecycle → Bool
is_complete TaskLifecycle.complete = true
is_complete _ = false

unfoldable pub next_attention : TaskState → AgentEvent → Option TaskAttention
next_attention t e = elim (task_attention_for_event e e.event_type) [
  | some att ↦ some att
  | none ↦ if can_clear_task_attention t.attention e then none else t.attention
]

unfoldable pub advance_checkpoint : TaskState → AgentEvent → TaskState
advance_checkpoint t e = elim (checkpoint_for_event e e.event_type) [
  | none ↦ t
  | some (k, text) ↦ set_task_checkpoint t k text e.occurred_at true
]

unfoldable pub drop_completion : TaskState → TaskState
drop_completion t = if not (is_complete t.lifecycle) then record t { completion = none } else t

unfoldable pub apply_task_event : TaskState → Option AgentState → AgentEvent → TaskState
apply_task_event t a e =
    let attended : TaskState = record t { attention = next_attention t e } in
    drop_completion (sync_task_lifecycle (advance_checkpoint attended e) a e.occurred_at)
