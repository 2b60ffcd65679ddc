-- ===== src/State/Internal.antt =====
-- internal/state/model.go: the agents and tasks of the internal state. The texts that the program cuts
-- or builds are lists of code points.
use dev_board.Prelude.{ℕ, String, Option, List}
use dev_board.Prelude.Time.{Instant}
use dev_board.State.Enums.{
  Activity, Outcome, Freshness, TaskLifecycle, TaskConfidence, TaskCheckpointKind,
  TaskAttentionKind,
}

pub record CurrentTurn : Type 0 where
  pub turn_id : String
  pub activity : Activity
  pub outcome : Outcome
  pub freshness : Freshness
  pub started_at : Instant
  pub completed_at : Option Instant
  pub updated_at : Instant

pub record AgentState : Type 0 where
  pub id : String
  pub provider : String
  pub session_id : String
  pub current_turn : CurrentTurn
  pub navigation_target_id : String

pub record TaskProjectContext : Type 0 where
  pub project_name : List ℕ
  pub worktree_label : String
  pub branch : String
  pub worktree_identity : String

pub record TaskCheckpoint : Type 0 where
  pub kind : TaskCheckpointKind
  pub text : List ℕ
  pub at : Instant

pub record TaskAttention : Type 0 where
  pub kind : TaskAttentionKind
  pub text : List ℕ
  pub at : Instant
  pub correlation_id : List ℕ

pub record TaskCompletion : Type 0 where
  pub summary : Option (List ℕ)
  pub result_identifier : Option (List ℕ)
  pub at : Instant

pub record TaskState : Type 0 where
  pub id : List ℕ
  pub provider : String
  pub session_id : String
  pub turn_id : String
  pub project : Option TaskProjectContext
  pub title : List ℕ
  pub lifecycle : TaskLifecycle
  pub freshness : Freshness
  pub confidence : TaskConfidence
  pub started_at : Instant
  pub updated_at : Instant
  pub checkpoint : Option TaskCheckpoint
  pub attention : Option TaskAttention
  pub completion : Option TaskCompletion
  pub read_at : Option Instant
  pub superseded_at : Option Instant
