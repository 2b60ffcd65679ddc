-- ===== src/Navigation.antt =====
-- internal/navigation/navigation.go: the queued action and its result.
pub mod Execute
use dev_board.Prelude.{String, Bool}
use dev_board.Prelude.Time.{Instant}
use dev_board.State.Enums.{NavigationAction}

pub record Action : Type 0 where
  pub id : String
  pub target_id : String
  pub task_id : String
  pub action : NavigationAction
  pub issued_at : Instant

pub record ActionResult : Type 0 where
  pub succeeded : Bool
  pub message : String
