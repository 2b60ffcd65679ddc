-- ===== src/State/Display.antt =====
-- internal/state/display_status.go: what a display shows of a turn.
pub mod Laws
use dev_board.Prelude.{
  ℕ, ◌-◌, Bool, true, false, not, ◌&&◌, Option, none, some, leb, ltb, if◌then◌else◌,
}
use dev_board.Prelude.Time.{Instant, Duration}
use dev_board.State.Enums.{Activity, Outcome, Freshness}
use dev_board.State.Internal.{CurrentTurn}

pub data DisplayStatus : Type 0 where
  display_working display_attention display_error display_stale display_complete display_idle :
      DisplayStatus

pub data CompletionPhase : Type 0 where
  completion_none completion_high completion_recent : CompletionPhase

pub record DerivedDisplay : Type 0 where
  pub status : DisplayStatus
  pub completion_phase : CompletionPhase
  pub priority : ℕ

abbrev pub is_working : Activity → Bool
is_working Activity.working = true
is_working _ = false

abbrev pub is_idle : Activity → Bool
is_idle Activity.idle = true
is_idle _ = false

abbrev pub is_stale : Freshness → Bool
is_stale Freshness.stale = true
is_stale _ = false

abbrev pub is_completed : Outcome → Bool
is_completed Outcome.completed = true
is_completed _ = false

abbrev pub shown : DisplayStatus → ℕ → DerivedDisplay
shown status priority = record {
  status = status;
  completion_phase = completion_none;
  priority = priority;
}

-- What is left when the turn is not shown as complete.
unfoldable pub working_or_idle : CurrentTurn → DerivedDisplay
working_or_idle turn =
    if is_working turn.activity then shown display_working 4 else shown display_idle 5

-- A completion in the future has a negative age.
unfoldable pub completion_display :
    CurrentTurn → Instant → Instant → Duration → Duration → DerivedDisplay
completion_display turn completed_at now high_visibility retention =
    if leb completed_at now && ltb (now - completed_at) retention
    then record {
      status = display_complete;
      completion_phase =
          if ltb (now - completed_at) high_visibility then completion_high else completion_recent;
      priority = 3;
    }
    else working_or_idle turn

unfoldable pub settled_display : CurrentTurn → Instant → Duration → Duration → DerivedDisplay
settled_display turn now high_visibility retention = elim turn.completed_at [
  | none ↦ working_or_idle turn
  | some completed_at ↦
      if is_idle turn.activity && is_completed turn.outcome
      then completion_display turn completed_at now high_visibility retention
      else working_or_idle turn
]

unfoldable pub derive_display_of :
    Activity → CurrentTurn → Instant → Duration → Duration → DerivedDisplay
derive_display_of Activity.attention turn now high_visibility retention = shown display_attention 0
derive_display_of Activity.error turn now high_visibility retention = shown display_error 1
derive_display_of activity turn now high_visibility retention =
    if is_stale turn.freshness && not (is_idle activity)
    then shown display_stale 2
    else settled_display turn now high_visibility retention

unfoldable pub derive_display : CurrentTurn → Instant → Duration → Duration → DerivedDisplay
derive_display turn now high_visibility retention =
    derive_display_of turn.activity turn now high_visibility retention
