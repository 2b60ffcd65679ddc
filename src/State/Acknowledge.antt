-- ===== src/State/Acknowledge.antt =====
-- internal/state/task_ack.go: a display acknowledges one terminal task.
pub mod Laws
use dev_board.Prelude.{
  ℕ, String, str_eq, Bool, true, false, not, ◌&&◌, ◌||◌, Option, none, some, List, [], ◌∷◌,
  if◌then◌else◌,
}
use dev_board.Prelude.Text.{codes_eq}
use dev_board.Prelude.Time.{Instant, is_zero}
use dev_board.State.Enums.{is_terminal}
use dev_board.State.Internal.{TaskState}
use dev_board.State.Root.{NavigationTarget, InternalRootState}
use dev_board.State.Projector.Targets.{find_by_id, focuses_agent, task_target_matches}

unfoldable pub any_task_of : List ℕ → NavigationTarget → List TaskState → Bool
any_task_of task_id target [] = false
any_task_of task_id target (t ∷ tasks) =
    (codes_eq t.id task_id && task_target_matches t target) || any_task_of task_id target tasks

unfoldable pub navigation_target_has_task : InternalRootState → String → List ℕ → Bool
navigation_target_has_task root target_id task_id =
    elim (find_by_id target_id root.navigation_targets) [
      | none ↦ false
      | some target ↦ focuses_agent target && any_task_of task_id target root.tasks
    ]

abbrev pub read_by : Option Instant → Instant → Option Instant
read_by none at = some at
read_by (some t) at = some t

-- The first terminal task of the id, and whether there is one.
unfoldable pub mark_read : List ℕ → Instant → List TaskState → Bool × List TaskState
mark_read task_id at [] = (false, [])
mark_read task_id at (t ∷ tasks) =
    let (found, rest) = mark_read task_id at tasks in
    if codes_eq t.id task_id && is_terminal t.lifecycle
    then (true, record t { read_at = read_by t.read_at at } ∷ tasks)
    else (found, t ∷ rest)

unfoldable pub acknowledge_task :
    List ℕ → String → Instant → InternalRootState → Bool × InternalRootState
acknowledge_task task_id target_id at root =
    if codes_eq task_id [] || str_eq target_id "" || is_zero at
    then (false, root)
    else if not (navigation_target_has_task root target_id task_id)
    then (false, root)
    else let (found, tasks) = mark_read task_id at root.tasks in
      (found, record root { tasks = tasks })
