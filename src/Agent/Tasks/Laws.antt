-- ===== src/Agent/Tasks/Laws.antt =====
-- internal/agent/task_reducer.go: what a task keeps and shows over its events.
use dev_board.Prelude.{
  ℕ, suc, ◌+◌, ◌*◌, ◌≤◌, ◌<◌, ◌≡◌, refl, ap, ◌∙◌, ◌≢◌, ◌⊎◌, ◌↔◌, inl, inr, String, Bool, true,
  false, Option, none, some, List, [], ◌∷◌, All, ok, arith, Option-cases, Bool-cases,
}
use dev_board.Prelude.Time.{Instant, second}
use dev_board.State.Enums.{
  Activity, Outcome, TaskLifecycle, TaskCheckpointKind, TaskAttentionKind, approval_needed,
  question_waiting, elicitation_waiting, authentication_required, billing_required, rate_limited,
  provider_action_required,
}
use dev_board.Prelude.Text.{codes}
use dev_board.State.Internal.{
  CurrentTurn, AgentState, TaskCheckpoint, TaskAttention, TaskCompletion, TaskState,
}
use dev_board.Agent.Sanitize.{bytes, normalize_single_line, bytes-truncate_utf8}
use dev_board.Agent.Events.{codex, EventType, AgentEvent, validate, not_of_codex}
use dev_board.Agent.Checkpoints.{
  or_empty, is_background_wait, max_task_checkpoint_bytes, max_attention_text_bytes,
  task_checkpoint_priority, replaces, set_task_checkpoint, checkpoint_for_event,
}
use dev_board.Agent.Tasks.{
  attention_at, task_attention_for_event, failure_attention, notification_attention,
  permission_request_does_not_require_confirmation, can_clear_task_attention, lifecycle_of,
  sync_task_lifecycle, next_attention, advance_checkpoint, drop_completion, apply_task_event,
}

-- A task after the events of its turn, each with the agent as it then is.
unfoldable pub apply_all : TaskState → List (Option AgentState × AgentEvent) → TaskState
apply_all t [] = t
apply_all t ((a, e) ∷ es) = apply_all (apply_task_event t a e) es

-- After every event a task that keeps a completion is complete.
pub apply_task_event-completion :
    (t : TaskState) (a : Option AgentState) (e : AgentEvent) (c : TaskCompletion)
    → (apply_task_event t a e).completion ≡ some c
    → (apply_task_event t a e).lifecycle ≡ TaskLifecycle.complete
unfolding apply_task_event drop_completion
apply_task_event-completion t a e c h = ground arith

lifecycle_of-attention :
    (attention : Option TaskAttention) (turn : CurrentTurn)
    → (lifecycle_of attention turn ≡ TaskLifecycle.attention) ↔ (
        (turn.activity ≢ Activity.error)
        × (turn.outcome ≢ Outcome.failed)
        × (turn.outcome ≢ Outcome.completed)
        × ((attention ≢ none) ⊎ (turn.activity ≡ Activity.attention)))
unfolding lifecycle_of
lifecycle_of-attention attention turn = ((λ h. grind arith), (λ h. grind arith))

attention-set_task_checkpoint :
    (t : TaskState) (k : TaskCheckpointKind) (text : List ℕ) (at : Instant) (resume : Bool)
    → (set_task_checkpoint t k text at resume).attention ≡ t.attention
unfolding set_task_checkpoint
attention-set_task_checkpoint t k text at resume = ground arith

attention-drop_completion : (t : TaskState) → (drop_completion t).attention ≡ t.attention
unfolding drop_completion
attention-drop_completion t = ground arith

attention-sync_task_lifecycle :
    (t : TaskState) (a : Option AgentState) (at : Instant)
    → (sync_task_lifecycle t a at).attention ≡ t.attention
unfolding sync_task_lifecycle
attention-sync_task_lifecycle t a at = ground arith

attention-advance_checkpoint :
    (t : TaskState) (e : AgentEvent) → (advance_checkpoint t e).attention ≡ t.attention
unfolding advance_checkpoint
attention-advance_checkpoint t e = elim (Option-cases (checkpoint_for_event e e.event_type)) [
  | inl h ↦ rw (h, advance_checkpoint) refl
  | inr ((k, text), h) ↦
      rw (h, advance_checkpoint) (attention-set_task_checkpoint t k text e.occurred_at true)
]

attention-apply_task_event :
    (t : TaskState) (a : Option AgentState) (e : AgentEvent)
    → (apply_task_event t a e).attention ≡ next_attention t e
unfolding apply_task_event
attention-apply_task_event t a e =
    let attended : TaskState = record t { attention = next_attention t e } in
    attention-drop_completion _
    ∙ attention-sync_task_lifecycle _ a e.occurred_at
    ∙ attention-advance_checkpoint attended e

checkpoint-apply_task_event :
    (t : TaskState) (a : Option AgentState) (e : AgentEvent)
    → (apply_task_event t a e).checkpoint ≡ (advance_checkpoint t e).checkpoint
unfolding apply_task_event drop_completion sync_task_lifecycle advance_checkpoint
    set_task_checkpoint
checkpoint-apply_task_event t a e = ground arith

raised_by_codex :
    (e : AgentEvent) (k : EventType) (att : TaskAttention)
    → not_of_codex k ≡ false
    → task_attention_for_event e k ≡ some att
    → att.kind ≡ approval_needed
unfolding not_of_codex task_attention_for_event
raised_by_codex e EventType.permission_request att n h =
    elim (Bool-cases (permission_request_does_not_require_confirmation e)) [
      | inl t ↦ ground arith
      | inr f ↦ ground arith
    ]
raised_by_codex e k att n h = ground arith

-- A valid event of Codex raises no attention but the need of an approval.
pub validate-approval :
    (e : AgentEvent) (att : TaskAttention)
    → validate e ≡ ok tt
    → e.provider ≡ codex
    → task_attention_for_event e e.event_type ≡ some att
    → att.kind ≡ approval_needed
unfolding validate
validate-approval e att v p h = raised_by_codex e e.event_type att (ground arith) h

-- The checkpoint of a task, within `max` bytes of text.
abbrev pub CheckpointFits : ℕ → Option TaskCheckpoint → Type 0
CheckpointFits max none = Unit {0}
CheckpointFits max (some c) = bytes c.text ≤ max

abbrev pub AttentionFits : ℕ → Option TaskAttention → Type 0
AttentionFits max none = Unit {0}
AttentionFits max (some a) = (bytes a.text ≤ max) × (bytes a.correlation_id ≤ 96)

set_task_checkpoint-fits :
    (t : TaskState) (k : TaskCheckpointKind) (text : List ℕ) (at : Instant) (resume : Bool)
    → CheckpointFits max_task_checkpoint_bytes t.checkpoint
    → CheckpointFits max_task_checkpoint_bytes (set_task_checkpoint t k text at resume).checkpoint
unfolding set_task_checkpoint
set_task_checkpoint-fits t k text at resume h =
    ground (arith, bytes-truncate_utf8 (normalize_single_line text) max_task_checkpoint_bytes)

attention_at-fits :
    (e : AgentEvent) (kind : TaskAttentionKind) (text : String)
    → AttentionFits max_attention_text_bytes (attention_at e kind text)
attention_at-fits e kind text = (
  bytes-truncate_utf8 (codes text) max_attention_text_bytes,
  bytes-truncate_utf8 (or_empty e.metadata.correlation_id) 96,
)

failure_attention-fits :
    (e : AgentEvent) → AttentionFits max_attention_text_bytes (failure_attention e)
unfolding failure_attention
failure_attention-fits e = ground (
  arith,
  attention_at-fits e authentication_required "Authentication required",
  attention_at-fits e billing_required "Billing action required",
  attention_at-fits e rate_limited "Rate limited",
)

notification_attention-fits :
    (e : AgentEvent) → AttentionFits max_attention_text_bytes (notification_attention e)
unfolding notification_attention
notification_attention-fits e =
    ground (arith, attention_at-fits e provider_action_required "Provider action required")

raised-fits :
    (e : AgentEvent) (k : EventType)
    → AttentionFits max_attention_text_bytes (task_attention_for_event e k)
unfolding task_attention_for_event
raised-fits e EventType.permission_request =
    ground (arith, attention_at-fits e approval_needed "Approval needed")
raised-fits e EventType.ask_user_question = attention_at-fits e question_waiting "Question waiting"
raised-fits e EventType.elicitation = attention_at-fits e elicitation_waiting "Elicitation waiting"
raised-fits e EventType.notification = notification_attention-fits e
raised-fits e EventType.stop_failure = failure_attention-fits e
raised-fits e k = tt

next_attention-fits :
    (t : TaskState) (e : AgentEvent)
    → AttentionFits max_attention_text_bytes t.attention
    → AttentionFits max_attention_text_bytes (next_attention t e)
unfolding next_attention
next_attention-fits t e h = ground (arith, raised-fits e e.event_type)

advance_checkpoint-fits :
    (t : TaskState) (e : AgentEvent)
    → CheckpointFits max_task_checkpoint_bytes t.checkpoint
    → CheckpointFits max_task_checkpoint_bytes (advance_checkpoint t e).checkpoint
unfolding advance_checkpoint
advance_checkpoint-fits t e h = elim (Option-cases (checkpoint_for_event e e.event_type)) [
  | inl n ↦ rw (n, advance_checkpoint) h
  | inr ((k, text), n) ↦
      rw (n, advance_checkpoint) (set_task_checkpoint-fits t k text e.occurred_at true h)
]

-- Over any events, the text of the checkpoint stays within 120 bytes, the text of the attention within
-- 160 and its correlation id within 96, where they were so at the start.
pub apply_all-fits :
    (t : TaskState) (es : List (Option AgentState × AgentEvent))
    → CheckpointFits max_task_checkpoint_bytes t.checkpoint
    → AttentionFits max_attention_text_bytes t.attention
    → CheckpointFits max_task_checkpoint_bytes (apply_all t es).checkpoint
      × AttentionFits max_attention_text_bytes (apply_all t es).attention
unfolding apply_all
apply_all-fits t [] c n = (c, n)
apply_all-fits t ((a, e) ∷ es) c n =
    apply_all-fits (apply_task_event t a e) es
      (rw (checkpoint-apply_task_event t a e) (advance_checkpoint-fits t e c))
      (rw (attention-apply_task_event t a e) (next_attention-fits t e n))

-- An attention survives any events that occurred before it and raise none themselves, in whatever order
-- they arrive.
pub attention_outlives_older :
    (t : TaskState) (es : List (Option AgentState × AgentEvent)) (att : TaskAttention)
    → t.attention ≡ some att
    → All
        (λ x. (x.1.occurred_at < att.at) × (task_attention_for_event x.1 x.1.event_type ≡ none))
        es
    → (apply_all t es).attention ≡ some att
unfolding apply_all next_attention can_clear_task_attention
attention_outlives_older t [] att h o = h
attention_outlives_older t ((a, e) ∷ es) att h ((old, n), o) =
    let kept : next_attention t e ≡ some att = ground arith in
    attention_outlives_older (apply_task_event t a e) es att
      (attention-apply_task_event t a e ∙ kept) o

lifecycle-drop_completion : (t : TaskState) → (drop_completion t).lifecycle ≡ t.lifecycle
unfolding drop_completion
lifecycle-drop_completion t = ground arith

lifecycle-apply_task_event :
    (t : TaskState) (a : AgentState) (e : AgentEvent)
    → (apply_task_event t (some a) e).lifecycle ≡ lifecycle_of (next_attention t e) a.current_turn
unfolding apply_task_event sync_task_lifecycle
lifecycle-apply_task_event t a e =
    let attended : TaskState = record t { attention = next_attention t e } in
    lifecycle-drop_completion _
    ∙ ap (λ o. lifecycle_of o a.current_turn) (attention-advance_checkpoint attended e)

-- Where the agent is known, a task asks for attention after an event exactly when the turn has neither
-- failed nor completed and the task holds an attention or the turn is in attention.
pub apply_task_event-attention :
    (t : TaskState) (a : AgentState) (e : AgentEvent)
    → ((apply_task_event t (some a) e).lifecycle ≡ TaskLifecycle.attention) ↔ (
        (a.current_turn.activity ≢ Activity.error)
        × (a.current_turn.outcome ≢ Outcome.failed)
        × (a.current_turn.outcome ≢ Outcome.completed)
        × (((apply_task_event t (some a) e).attention ≢ none)
            ⊎ (a.current_turn.activity ≡ Activity.attention)))
apply_task_event-attention t a e =
    rw (lifecycle-apply_task_event t a e, attention-apply_task_event t (some a) e)
      (lifecycle_of-attention (next_attention t e) a.current_turn)

-- The rank of a checkpoint: none and unknown kinds are below all others.
abbrev pub checkpoint_rank : Option TaskCheckpoint → ℕ
checkpoint_rank none = 0
checkpoint_rank (some c) = elim (task_checkpoint_priority c.kind) [ none ↦ 0 | some p ↦ suc p ]

rank-set_task_checkpoint :
    (t : TaskState) (k : TaskCheckpointKind) (text : List ℕ) (at : Instant) (resume : Bool)
    (old : TaskCheckpoint)
    → t.checkpoint ≡ some old
    → is_background_wait old.kind ≡ false
    → at < old.at + 30 * second
    → checkpoint_rank t.checkpoint
      ≤ checkpoint_rank (set_task_checkpoint t k text at resume).checkpoint
unfolding set_task_checkpoint replaces
rank-set_task_checkpoint t k text at resume old e n h = ground arith

rank-advance_checkpoint :
    (t : TaskState) (e : AgentEvent) (old : TaskCheckpoint)
    → t.checkpoint ≡ some old
    → is_background_wait old.kind ≡ false
    → e.occurred_at < old.at + 30 * second
    → checkpoint_rank t.checkpoint ≤ checkpoint_rank (advance_checkpoint t e).checkpoint
unfolding advance_checkpoint
rank-advance_checkpoint t e old c n h = elim (Option-cases (checkpoint_for_event e e.event_type)) [
  | inl g ↦ rw (g, advance_checkpoint) (omega arith)
  | inr ((k, text), g) ↦
      rw (g, advance_checkpoint) (rank-set_task_checkpoint t k text e.occurred_at true old c n h)
]

-- Within 30 seconds of its checkpoint, and unless it waits for background work, no event lowers the rank
-- of the checkpoint of a task.
pub checkpoint_rank-apply_task_event :
    (t : TaskState) (a : Option AgentState) (e : AgentEvent) (old : TaskCheckpoint)
    → t.checkpoint ≡ some old
    → is_background_wait old.kind ≡ false
    → e.occurred_at < old.at + 30 * second
    → checkpoint_rank t.checkpoint ≤ checkpoint_rank (apply_task_event t a e).checkpoint
checkpoint_rank-apply_task_event t a e old c n h =
    rw (checkpoint-apply_task_event t a e) (rank-advance_checkpoint t e old c n h)
