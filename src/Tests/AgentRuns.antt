-- ===== src/Tests/AgentRuns.antt =====
-- Runs of a task over the events of its turn.
use dev_board.Prelude.{
  ◌+◌, ◌*◌, ◌<◌, ◌≡◌, ◌≢◌, ◌≤◌, ◌⊎◌, ◌↔◌, refl, false, none, some, [], ◌∷◌, ok, arith,
}
use dev_board.Prelude.Text.{codes, trim_space, is_blank}
use dev_board.Prelude.Time.{Instant, second}
use dev_board.State.Enums.{
  Activity, Outcome, Freshness, TaskLifecycle, TaskConfidence, validating, approval_needed,
}
use dev_board.State.Display.{display_complete, completion_high, completion_recent, derive_display}
use dev_board.State.Display.Laws.{IsShown, derive_display-phases}
use dev_board.State.Internal.{AgentState, TaskCheckpoint, TaskAttention, TaskCompletion, TaskState}
use dev_board.Agent.Sanitize.{bytes, truncate_utf8}
use dev_board.Agent.Events.{codex, EventType, Metadata, AgentEvent, validate, not_of_codex}
use dev_board.Agent.Checkpoints.{
  max_task_checkpoint_bytes, max_attention_text_bytes, tool_checkpoint, checkpoint_for_event,
}
use dev_board.Agent.Tasks.{
  lifecycle_of, sync_task_lifecycle, drop_completion, advance_checkpoint,
  permission_request_does_not_require_confirmation, task_attention_for_event, apply_task_event,
}
use dev_board.Agent.Creation.{max_task_title_bytes, new_task_state, new_task_state-fits}
use dev_board.Agent.Tasks.Laws.{
  apply_all, CheckpointFits, AttentionFits, checkpoint_rank, attention_outlives_older,
  apply_task_event-attention, checkpoint_rank-apply_task_event,
}
use dev_board.Tests.Data.{t0}

abbrev plain : Metadata
plain = record {
  tool_name = none;
  correlation_id = none;
  permission_mode = none;
  notification_type = none;
  error_type = none;
  stop_hook_active = none;
  background_task_count = none;
  session_cron_count = none;
  synthetic_turn_identity = false;
  task_title = none;
  child_subject = none;
  completion_summary = none;
  result_identifier = none;
}

abbrev event_of : EventType → Instant → AgentEvent
event_of k at = record {
  schema_version = 1;
  event_id = "evt-1";
  provider = codex;
  session_id = "s1";
  turn_id = some "turn-1";
  event_type = k;
  occurred_at = at;
  cwd = none;
  metadata = plain;
}

abbrev agent_with : Outcome → AgentState
agent_with outcome = record {
  id = "agent-1";
  provider = "codex";
  session_id = "s1";
  current_turn = record {
    turn_id = "turn-1";
    activity = Activity.working;
    outcome = outcome;
    freshness = Freshness.fresh;
    started_at = t0;
    completed_at = none;
    updated_at = t0;
  };
  navigation_target_id = "";
}

abbrev tests_run : TaskCheckpoint
tests_run = record { kind = validating; text = codes "Validating"; at = t0 }

abbrev approval : TaskAttention
approval = record {
  kind = approval_needed;
  text = codes "Approval needed";
  at = t0 + second;
  correlation_id = [];
}

abbrev result : TaskCompletion
result = record { summary = none; result_identifier = none; at = t0 }

abbrev task : TaskState
task = record {
  id = codes "task-1";
  provider = "codex";
  session_id = "s1";
  turn_id = "turn-1";
  project = none;
  title = codes "Codex task";
  lifecycle = TaskLifecycle.attention;
  freshness = Freshness.fresh;
  confidence = TaskConfidence.high;
  started_at = t0;
  updated_at = t0;
  checkpoint = some tests_run;
  attention = some approval;
  completion = some result;
  read_at = none;
  superseded_at = none;
}

named_tool : tool_checkpoint (codes "mcp__go-Test/run") ≡ validating
unfolding tool_checkpoint codes
named_tool = refl

keeps_result :
    (apply_task_event task
      (some (agent_with Outcome.completed))
      (event_of EventType.stop (t0 + 2 * second))).completion
    ≡ some result
unfolding apply_task_event drop_completion sync_task_lifecycle lifecycle_of advance_checkpoint
    checkpoint_for_event
keeps_result = refl

asks_valid : validate (event_of EventType.permission_request t0) ≡ ok tt
unfolding validate not_of_codex codes trim_space is_blank
asks_valid = refl

abbrev asked_attention : TaskAttention
asked_attention = record {
  kind = approval_needed;
  text = truncate_utf8 (codes "Approval needed") max_attention_text_bytes;
  at = t0;
  correlation_id = truncate_utf8 [] 96;
}

asked :
    task_attention_for_event (event_of EventType.permission_request t0) EventType.permission_request
    ≡ some asked_attention
unfolding task_attention_for_event permission_request_does_not_require_confirmation
asked = refl

new_task_state-fits_example :
    (bytes (new_task_state (λ s. s) (event_of EventType.user_prompt_submit t0) none).title
      ≤ max_task_title_bytes)
    × CheckpointFits max_task_checkpoint_bytes
        (apply_all (new_task_state (λ s. s) (event_of EventType.user_prompt_submit t0) none) (
          (
            some (agent_with Outcome.outcome_none),
            event_of EventType.pre_tool_use (t0 + 2 * second),
          )
          ∷ [])).checkpoint
    × AttentionFits max_attention_text_bytes
        (apply_all (new_task_state (λ s. s) (event_of EventType.user_prompt_submit t0) none) (
          (
            some (agent_with Outcome.outcome_none),
            event_of EventType.pre_tool_use (t0 + 2 * second),
          )
          ∷ [])).attention
new_task_state-fits_example =
    new_task_state-fits (λ s. s) (event_of EventType.user_prompt_submit t0) none
      ((some (agent_with Outcome.outcome_none), event_of EventType.pre_tool_use (t0 + 2 * second))
        ∷ [])

attention_outlives_older_example :
    (apply_all task
      ((some (agent_with Outcome.outcome_none), event_of EventType.pre_tool_use t0) ∷ [])).attention
    ≡ some approval
unfolding task_attention_for_event
attention_outlives_older_example =
    attention_outlives_older task
      ((some (agent_with Outcome.outcome_none), event_of EventType.pre_tool_use t0) ∷ []) approval
      refl ((omega arith, refl), tt)

apply_task_event-attention_example :
    ((apply_task_event task
        (some (agent_with Outcome.outcome_none))
        (event_of EventType.user_prompt_submit t0)).lifecycle
      ≡ TaskLifecycle.attention)
    ↔ ((Activity.working ≢ Activity.error)
        × (Outcome.outcome_none ≢ Outcome.failed)
        × (Outcome.outcome_none ≢ Outcome.completed)
        × (((apply_task_event task
                (some (agent_with Outcome.outcome_none))
                (event_of EventType.user_prompt_submit t0)).attention
              ≢ none)
            ⊎ (Activity.working ≡ Activity.attention)))
apply_task_event-attention_example =
    apply_task_event-attention task (agent_with Outcome.outcome_none)
      (event_of EventType.user_prompt_submit t0)

checkpoint_rank-apply_task_event_example :
    checkpoint_rank (some tests_run)
    ≤ checkpoint_rank
        (apply_task_event task none (event_of EventType.pre_tool_use (t0 + 2 * second))).checkpoint
checkpoint_rank-apply_task_event_example =
    checkpoint_rank-apply_task_event task none (event_of EventType.pre_tool_use (t0 + 2 * second))
      tests_run refl refl (omega arith)

abbrev done_agent : AgentState
done_agent = record {
  id = "agent-1";
  provider = "codex";
  session_id = "s1";
  current_turn = record {
    turn_id = "turn-1";
    activity = Activity.idle;
    outcome = Outcome.completed;
    freshness = Freshness.fresh;
    started_at = t0;
    completed_at = some t0;
    updated_at = t0;
  };
  navigation_target_id = "";
}

derive_display-phases_example :
    (((derive_display done_agent.current_turn
          (t0 + 90 * second)
          (60 * second)
          (600 * second)).status
        ≡ display_complete)
      ↔ ((c : Instant) × IsShown done_agent.current_turn (t0 + 90 * second) (600 * second) c))
    × (((derive_display done_agent.current_turn
            (t0 + 90 * second)
            (60 * second)
            (600 * second)).completion_phase
          ≡ completion_high)
        ↔ ((c : Instant) × IsShown done_agent.current_turn (t0 + 90 * second) (600 * second) c
            × (t0 + 90 * second < c + 60 * second)))
    × (((derive_display done_agent.current_turn
            (t0 + 90 * second)
            (60 * second)
            (600 * second)).completion_phase
          ≡ completion_recent)
        ↔ ((c : Instant) × IsShown done_agent.current_turn (t0 + 90 * second) (600 * second) c
            × (c + 60 * second ≤ t0 + 90 * second)))
derive_display-phases_example =
    derive_display-phases done_agent.current_turn (t0 + 90 * second) (60 * second) (600 * second)
