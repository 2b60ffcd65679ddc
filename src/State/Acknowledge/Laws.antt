-- ===== src/State/Acknowledge/Laws.antt =====
-- internal/state/task_ack.go: a task that is acknowledged twice.
use dev_board.Prelude.{
  ℕ, ◌≡◌, refl, sym, ap, subst, ◌∙◌, String, str_eq, Bool, true, false, ◌&&◌, ◌||◌, Option, none,
  some, List, [], ◌∷◌, arith, inl, inr, Bool-cases, Option-cases,
}
use dev_board.Prelude.Text.{codes_eq}
use dev_board.Prelude.Time.{Instant, is_zero}
use dev_board.State.Enums.{is_terminal}
use dev_board.State.Internal.{TaskState}
use dev_board.State.Root.{NavigationTarget, InternalRootState}
use dev_board.State.Projector.Targets.{find_by_id, focuses_agent, task_target_matches}
use dev_board.State.Acknowledge.{
  any_task_of, navigation_target_has_task, read_by, mark_read, acknowledge_task,
}

read_by_again :
    (o : Option Instant) (at later : Instant) → read_by (read_by o at) later ≡ read_by o at
read_by_again none at later = refl
read_by_again (some t) at later = refl

mark_read_again :
    (task_id : List ℕ) (at later : Instant) (tasks : List TaskState)
    → (mark_read task_id at tasks).0 ≡ true
    → mark_read task_id later (mark_read task_id at tasks).1
      ≡ (true, (mark_read task_id at tasks).1)
unfolding mark_read
mark_read_again task_id at later [] h = ground arith
mark_read_again task_id at later (t ∷ tasks) h =
    elim (Bool-cases (codes_eq t.id task_id && is_terminal t.lifecycle)) [
      | inl q ↦
          rw (q, q)
            (ap (λ r. (true, record t { read_at = r } ∷ tasks)) (read_by_again t.read_at at later))
      | inr q ↦
          let deeper = mark_read_again task_id at later tasks (ground (arith, h, q)) in
          rw (q, q) (ap (λ (r : Bool × List TaskState). (r.0, t ∷ r.1)) deeper)
    ]

any_task_of-mark_read :
    (task_id : List ℕ) (at : Instant) (target : NavigationTarget) (tasks : List TaskState)
    → any_task_of task_id target (mark_read task_id at tasks).1 ≡ any_task_of task_id target tasks
unfolding any_task_of mark_read task_target_matches
any_task_of-mark_read task_id at target [] = refl
any_task_of-mark_read task_id at target (t ∷ tasks) =
    let deeper = any_task_of-mark_read task_id at target tasks in
    elim (Bool-cases (codes_eq t.id task_id && is_terminal t.lifecycle)) [
      | inl q ↦ rw q refl
      | inr q ↦ rw q (ap (λ b. (codes_eq t.id task_id && task_target_matches t target) || b) deeper)
    ]

has_task-mark_read :
    (root : InternalRootState) (target_id : String) (task_id : List ℕ) (at : Instant)
    → navigation_target_has_task
        (record root { tasks = (mark_read task_id at root.tasks).1 })
        target_id
        task_id
      ≡ navigation_target_has_task root target_id task_id
unfolding navigation_target_has_task
has_task-mark_read root target_id task_id at =
    elim (Option-cases (find_by_id target_id root.navigation_targets)) [
      | inl q ↦ rw (q, navigation_target_has_task) refl
      | inr (target, q) ↦
          rw (q, navigation_target_has_task)
            (ap (λ b. focuses_agent target && b)
              (any_task_of-mark_read task_id at target root.tasks))
    ]

-- What an acknowledgement that succeeds has found.
abbrev Accepted : List ℕ → String → Instant → InternalRootState → Type 0
Accepted task_id target_id at root =
    ((codes_eq task_id [] || str_eq target_id "" || is_zero at) ≡ false)
    × (navigation_target_has_task root target_id task_id ≡ true)
    × ((mark_read task_id at root.tasks).0 ≡ true)

acknowledge_task-Accepted :
    (task_id : List ℕ) (target_id : String) (at : Instant) (root : InternalRootState)
    → (acknowledge_task task_id target_id at root).0 ≡ true
    → Accepted task_id target_id at root
unfolding acknowledge_task
acknowledge_task-Accepted task_id target_id at root h =
    (ground (arith, h), ground (arith, h), ground (arith, h))

Accepted-acknowledge_task :
    (task_id : List ℕ) (target_id : String) (at : Instant) (root : InternalRootState)
    → Accepted task_id target_id at root
    → acknowledge_task task_id target_id at root
      ≡ (true, record root { tasks = (mark_read task_id at root.tasks).1 })
unfolding acknowledge_task
Accepted-acknowledge_task task_id target_id at root (args, has, found) = rw (args, has, found) refl

-- A task that a display has acknowledged stays as it was acknowledged first: a second acknowledgement
-- through the same target, at an instant that is not zero, succeeds and changes nothing, the time of
-- reading included.
pub acknowledge_task_again :
    (task_id : List ℕ) (target_id : String) (at later : Instant) (root : InternalRootState)
    → (acknowledge_task task_id target_id at root).0 ≡ true
    → is_zero later ≡ false
    → acknowledge_task task_id target_id later (acknowledge_task task_id target_id at root).1
      ≡ (true, (acknowledge_task task_id target_id at root).1)
acknowledge_task_again task_id target_id at later root h z =
    let (args, has, found) = acknowledge_task-Accepted task_id target_id at root h in
    let done : InternalRootState = record root { tasks = (mark_read task_id at root.tasks).1 } in
    let first = Accepted-acknowledge_task task_id target_id at root (args, has, found) in
    let again = mark_read_again task_id at later root.tasks found in
    let second = Accepted-acknowledge_task task_id target_id later done (
      ground (arith, args, z),
      has_task-mark_read root target_id task_id at ∙ has,
      ap (λ r. r.0) again,
    ) in
    subst (λ r. acknowledge_task task_id target_id later r.1 ≡ (true, r.1)) (sym first)
      (second ∙ ap (λ r. (true, record root { tasks = r.1 })) again)
