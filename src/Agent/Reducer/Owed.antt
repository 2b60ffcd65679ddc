-- ===== src/Agent/Reducer/Owed.antt =====
-- internal/agent/reducer.go, `Maintenance`: the results that it leaves to be read.
use mathlib.Core.List.{Memᴰ}
use dev_board.Prelude.{
  ℕ, suc, ◌<◌, ◌≡◌, ◌&&◌, if◌then◌else◌, ◌⊎◌, inl, inr, refl, ap, subst, String, Bool, true, false,
  not, none, List, [], ◌∷◌, filter, arith, Bool-cases,
}
use dev_board.Prelude.Time.{Instant}
use dev_board.State.Enums.{TaskLifecycle}
use dev_board.State.Internal.{AgentState, TaskState}
use dev_board.State.Root.{AlertState, InternalRootState}
use dev_board.Agent.Reducer.{ReducerConfig}
use dev_board.Agent.Reducer.Maintenance.{
  is_overdue, is_task_of_agent, stale_tasks, mark_alerts, mark_tasks, stale_task, mark_stale,
  is_expired, maintain,
}

-- What `Maintenance` must not take away: a result that nobody has read, or an error that no later
-- result has recovered.
abbrev pub IsOwed : TaskState → Type 0
IsOwed t =
    ((t.lifecycle ≡ TaskLifecycle.complete) × (t.read_at ≡ none))
    ⊎ ((t.lifecycle ≡ TaskLifecycle.error) × (t.superseded_at ≡ none))

-- What the loop over the agents makes of one task: stale, where an agent whose turn is overdue has it as
-- the task of that turn.
abbrev pub aged : ReducerConfig → Instant → List AgentState → TaskState → TaskState
aged cfg now [] t = t
aged cfg now (a ∷ agents) t =
    if is_overdue cfg now a.current_turn && is_task_of_agent a t
    then stale_task now t
    else aged cfg now agents t

IsOwed-kept :
    (cfg : ReducerConfig) (now : Instant) (t : TaskState) → IsOwed t → is_expired cfg now t ≡ false
unfolding is_expired
IsOwed-kept cfg now t h = ground arith

mem-stale_tasks :
    (a : AgentState) (now : Instant) (t : TaskState) (tasks : List TaskState)
    → Memᴰ t tasks
    → Memᴰ (if is_task_of_agent a t then stale_task now t else t) (stale_tasks a now tasks)
unfolding stale_tasks
mem-stale_tasks a now t [] m = elim m [ ]
mem-stale_tasks a now t (u ∷ tasks) (Memᴰ.head e) =
    subst
      (λ v.
        Memᴰ (if is_task_of_agent a t then stale_task now t else t) (stale_tasks a now (v ∷ tasks)))
      e
      (elim (Bool-cases (is_task_of_agent a t)) [
        | inl q ↦ rw q (Memᴰ.head refl)
        | inr q ↦ rw q (Memᴰ.head refl)
      ])
mem-stale_tasks a now t (u ∷ tasks) (Memᴰ.tail m) =
    let deeper = mem-stale_tasks a now t tasks m in
    elim (Bool-cases (is_task_of_agent a u)) [
      | inl q ↦ rw (q, stale_tasks) (Memᴰ.tail deeper)
      | inr q ↦ rw (q, stale_tasks) (Memᴰ.tail deeper)
    ]

mem-mark_tasks :
    (cfg : ReducerConfig) (now : Instant) (a : AgentState) (t : TaskState) (tasks : List TaskState)
    → Memᴰ t tasks
    → Memᴰ
        (if is_overdue cfg now a.current_turn && is_task_of_agent a t then stale_task now t else t)
        (mark_tasks cfg now a tasks)
unfolding mark_tasks
mem-mark_tasks cfg now a t tasks m = elim (Bool-cases (is_overdue cfg now a.current_turn)) [
  | inl q ↦ rw q (mem-stale_tasks a now t tasks m)
  | inr q ↦ rw q m
]

aged-stale_task :
    (cfg : ReducerConfig) (now : Instant) (agents : List AgentState) (t : TaskState)
    → aged cfg now agents (stale_task now t) ≡ stale_task now t
aged-stale_task cfg now [] t = refl
aged-stale_task cfg now (a ∷ agents) t =
    elim (Bool-cases (is_overdue cfg now a.current_turn && is_task_of_agent a (stale_task now t))) [
      | inl q ↦ rw q refl
      | inr q ↦ rw q (aged-stale_task cfg now agents t)
    ]

mem-mark_stale :
    (cfg : ReducerConfig) (now : Instant) (draw : ℕ → String) (agents : List AgentState)
    (alerts : List AlertState) (tasks : List TaskState) (t : TaskState)
    → Memᴰ t tasks
    → Memᴰ (aged cfg now agents t) (mark_stale cfg now draw agents alerts tasks).tasks
unfolding mark_stale
mem-mark_stale cfg now draw [] alerts tasks t m = m
mem-mark_stale cfg now draw (a ∷ agents) alerts tasks t m =
    let rest =
      mark_stale cfg now (λ n. draw (suc n)) agents (mark_alerts cfg now (draw 0) a alerts)
        (mark_tasks cfg now a tasks) in
    let deeper = λ (u : TaskState).
      mem-mark_stale cfg now (λ n. draw (suc n)) agents (mark_alerts cfg now (draw 0) a alerts)
        (mark_tasks cfg now a tasks) u in
    let here = mem-mark_tasks cfg now a t tasks m in
    elim (Bool-cases (is_overdue cfg now a.current_turn && is_task_of_agent a t)) [
      | inl q ↦ rw q (
          subst (λ u. Memᴰ u (rest.tasks)) (aged-stale_task cfg now agents t)
            (deeper (stale_task now t) (rw q at here)))
      | inr q ↦ rw q (deeper t (rw q at here))
    ]

aged-kept :
    (cfg : ReducerConfig) (now : Instant) (agents : List AgentState) (t : TaskState)
    → 0 < cfg.stale_task_retention
    → IsOwed t
    → is_expired cfg now (aged cfg now agents t) ≡ false
unfolding is_expired
aged-kept cfg now [] t r h = IsOwed-kept cfg now t h
aged-kept cfg now (a ∷ agents) t r h =
    elim (Bool-cases (is_overdue cfg now a.current_turn && is_task_of_agent a t)) [
      | inl q ↦ rw q (ground arith)
      | inr q ↦ rw q (aged-kept cfg now agents t r h)
    ]

mem-filter :
    (p : TaskState → Bool) (t : TaskState) (tasks : List TaskState)
    → p t ≡ true
    → Memᴰ t tasks
    → Memᴰ t (filter p tasks)
mem-filter p t [] h m = elim m [ ]
mem-filter p t (u ∷ tasks) h (Memᴰ.head e) =
    subst (λ v. Memᴰ t (filter p (v ∷ tasks))) e (rw h (Memᴰ.head refl))
mem-filter p t (u ∷ tasks) h (Memᴰ.tail m) =
    let deeper = mem-filter p t tasks h m in
    elim (Bool-cases (p u)) [ inl q ↦ rw q (Memᴰ.tail deeper) | inr q ↦ rw q deeper ]

-- Maintenance at any instant, where stale tasks are kept for some time, keeps every complete task that is
-- unread and every error that is not superseded: unchanged, or marked stale, with the lifecycle
-- working, where it is the task of the turn of an agent whose turn is overdue.
pub maintain-IsOwed :
    (cfg : ReducerConfig) (now : Instant) (draw : ℕ → String) (root : InternalRootState)
    (t : TaskState)
    → 0 < cfg.stale_task_retention
    → IsOwed t
    → Memᴰ t root.tasks
    → Memᴰ (aged cfg now root.agents t) (maintain cfg now draw root).tasks
unfolding maintain
maintain-IsOwed cfg now draw root t r owed m =
    mem-filter (λ u. not (is_expired cfg now u)) (aged cfg now root.agents t)
      (mark_stale cfg now draw root.agents root.alerts root.tasks).tasks
      (ap not (aged-kept cfg now root.agents t r owed))
      (mem-mark_stale cfg now draw root.agents root.alerts root.tasks t m)
