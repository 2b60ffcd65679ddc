-- ===== src/Agent/Reducer/Upkeep.antt =====
-- internal/agent/reducer.go, `Maintenance` and `maintenanceNeeded`: when it runs and what it keeps.
use dev_board.Prelude.{
  ℕ, suc, ◌≡◌, inl, inr, refl, sym, ap, subst, ◌∙◌, String, true, false, not, List, [], ◌∷◌, filter,
  if◌then◌else◌, arith, Bool-cases,
}
use dev_board.Prelude.Time.{Instant}
use dev_board.State.Internal.{CurrentTurn, AgentState, TaskState}
use dev_board.State.Root.{AlertState, InternalRootState}
use dev_board.State.Store.{notify_changed, finish_update, update, update_if}
use dev_board.Agent.Reducer.{ReducerConfig}
use dev_board.Agent.Reducer.Submit.{Reducer}
use dev_board.Agent.Reducer.Maintenance.{
  is_overdue, stale_turn, Marks, mark_agent, mark_alerts, mark_tasks, mark_stale, keeps_alert,
  is_expired, maintain, any_agent, alert_is_due, any_alert, any_task, maintenance_needed,
  maintenance,
}

mark_stale-idle :
    (cfg : ReducerConfig) (now : Instant) (draw : ℕ → String) (agents : List AgentState)
    (alerts : List AlertState) (tasks : List TaskState)
    → any_agent cfg now agents ≡ false
    → mark_stale cfg now draw agents alerts tasks
      ≡ record { agents = agents; alerts = alerts; tasks = tasks }
unfolding mark_stale any_agent mark_agent mark_alerts mark_tasks
mark_stale-idle cfg now draw [] alerts tasks h = refl
mark_stale-idle cfg now draw (a ∷ agents) alerts tasks h =
    let idle : is_overdue cfg now a.current_turn ≡ false = ground arith in
    let deeper = mark_stale-idle cfg now (λ n. draw (suc n)) agents alerts tasks (ground arith) in
    rw idle (ap (λ (m : Marks). record m { agents = a ∷ m.agents }) deeper)

keeps_alert-due : (now : Instant) (a : AlertState) → keeps_alert now a ≡ not (alert_is_due now a)
unfolding keeps_alert alert_is_due
keeps_alert-due now a = ground arith

filter-any_alert :
    (now : Instant) (alerts : List AlertState)
    → any_alert now alerts ≡ false
    → filter (keeps_alert now) alerts ≡ alerts
unfolding any_alert
filter-any_alert now [] h = refl
filter-any_alert now (a ∷ alerts) h =
    let deeper = filter-any_alert now alerts (ground arith) in
    let kept : keeps_alert now a ≡ true = ground (arith, keeps_alert-due now a) in
    rw kept (ap (λ xs. a ∷ xs) deeper)

any_alert-filter :
    (now : Instant) (alerts : List AlertState)
    → any_alert now (filter (keeps_alert now) alerts) ≡ false
unfolding any_alert
any_alert-filter now [] = refl
any_alert-filter now (a ∷ alerts) =
    let deeper = any_alert-filter now alerts in
    elim (Bool-cases (keeps_alert now a)) [
      | inl q ↦ rw q (ground (arith, keeps_alert-due now a))
      | inr q ↦ rw q deeper
    ]

filter-any_task :
    (cfg : ReducerConfig) (now : Instant) (tasks : List TaskState)
    → any_task cfg now tasks ≡ false
    → filter (λ t. not (is_expired cfg now t)) tasks ≡ tasks
unfolding any_task
filter-any_task cfg now [] h = refl
filter-any_task cfg now (t ∷ tasks) h =
    let deeper = filter-any_task cfg now tasks (ground arith) in
    let kept : is_expired cfg now t ≡ false = ground arith in rw kept (ap (λ xs. t ∷ xs) deeper)

any_task-filter :
    (cfg : ReducerConfig) (now : Instant) (tasks : List TaskState)
    → any_task cfg now (filter (λ t. not (is_expired cfg now t)) tasks) ≡ false
unfolding any_task
any_task-filter cfg now [] = refl
any_task-filter cfg now (t ∷ tasks) =
    let deeper = any_task-filter cfg now tasks in
    elim (Bool-cases (is_expired cfg now t)) [ inl q ↦ rw q deeper | inr q ↦ rw q (ground arith) ]

stale_turn-settled :
    (cfg : ReducerConfig) (now : Instant) (turn : CurrentTurn)
    → is_overdue cfg now (stale_turn turn) ≡ false
unfolding is_overdue stale_turn
stale_turn-settled cfg now turn = ground arith

mark_agent-settled :
    (cfg : ReducerConfig) (now : Instant) (a : AgentState)
    → is_overdue cfg now (mark_agent cfg now a).current_turn ≡ false
unfolding mark_agent
mark_agent-settled cfg now a = elim (Bool-cases (is_overdue cfg now a.current_turn)) [
  | inl q ↦ rw q (stale_turn-settled cfg now a.current_turn)
  | inr q ↦ rw q q
]

any_agent-mark_stale :
    (cfg : ReducerConfig) (now : Instant) (draw : ℕ → String) (agents : List AgentState)
    (alerts : List AlertState) (tasks : List TaskState)
    → any_agent cfg now (mark_stale cfg now draw agents alerts tasks).agents ≡ false
unfolding mark_stale any_agent
any_agent-mark_stale cfg now draw [] alerts tasks = refl
any_agent-mark_stale cfg now draw (a ∷ agents) alerts tasks =
    let deeper =
      any_agent-mark_stale cfg now (λ n. draw (suc n)) agents
        (mark_alerts cfg now (draw 0) a alerts) (mark_tasks cfg now a tasks) in
    ground (arith, mark_agent-settled cfg now a)

maintain-idle :
    (cfg : ReducerConfig) (now : Instant) (draw : ℕ → String) (root : InternalRootState)
    → maintenance_needed cfg now root ≡ false
    → maintain cfg now draw root ≡ record root { generated_at = now }
unfolding maintain maintenance_needed
maintain-idle cfg now draw root h =
    let (any_a, any_l, any_t) = parts in
    rw
      (
        mark_stale-idle cfg now draw root.agents root.alerts root.tasks any_a,
        filter-any_alert now root.alerts any_l,
        filter-any_task cfg now root.tasks any_t,
      )
      refl
  where
    parts :
        (any_agent cfg now root.agents ≡ false)
        × (any_alert now root.alerts ≡ false)
        × (any_task cfg now root.tasks ≡ false)
    parts = (ground (arith, h), ground (arith, h), ground (arith, h))

maintain-settled :
    (cfg : ReducerConfig) (now : Instant) (draw : ℕ → String) (root : InternalRootState)
    → maintenance_needed cfg now (maintain cfg now draw root) ≡ false
unfolding maintain maintenance_needed
maintain-settled cfg now draw root =
    let marks = mark_stale cfg now draw root.agents root.alerts root.tasks in
    ground (
      arith,
      any_agent-mark_stale cfg now draw root.agents root.alerts root.tasks,
      any_alert-filter now marks.alerts,
      any_task-filter cfg now marks.tasks,
    )

-- What a run of maintenance leaves in the store, and whether it wakes the readers.
state-maintenance :
    (now : Instant) (draw : ℕ → String) (r : Reducer)
    → (maintenance now draw r).store.state ≡ (
        if maintenance_needed r.cfg now r.store.state
        then maintain r.cfg now draw r.store.state
        else r.store.state)
unfolding maintenance update_if update finish_update notify_changed
state-maintenance now draw r = elim (Bool-cases (maintenance_needed r.cfg now r.store.state)) [
  | inl q ↦ rw q refl
  | inr q ↦ rw q refl
]

stamp : Instant → InternalRootState → InternalRootState
stamp now root = record root { generated_at = now }

stamp-maintain :
    (cfg : ReducerConfig) (now : Instant) (draw : ℕ → String) (root : InternalRootState)
    → stamp now (if maintenance_needed cfg now root then maintain cfg now draw root else root)
      ≡ maintain cfg now draw root
unfolding maintain stamp
stamp-maintain cfg now draw root = elim (Bool-cases (maintenance_needed cfg now root)) [
  | inl q ↦ rw q refl
  | inr q ↦ rw q (sym (maintain-idle cfg now draw root q))
]

-- The check that saves a run of maintenance skips nothing: but for the time stamp of the state, a run
-- leaves what the changes that it guards would leave, whether it makes them or not.
pub maintenance-maintain :
    (now : Instant) (draw : ℕ → String) (r : Reducer)
    → record ((maintenance now draw r).store.state) { generated_at = now }
      ≡ maintain r.cfg now draw r.store.state
unfolding stamp
maintenance-maintain now draw r =
    ap (stamp now) (state-maintenance now draw r) ∙ stamp-maintain r.cfg now draw r.store.state

maintenance-idle :
    (now : Instant) (draw : ℕ → String) (r : Reducer)
    → maintenance_needed r.cfg now r.store.state ≡ false
    → maintenance now draw r ≡ r
unfolding maintenance update_if
maintenance-idle now draw r h = rw h refl

maintenance-settled :
    (now : Instant) (draw : ℕ → String) (r : Reducer)
    → maintenance_needed r.cfg now (maintenance now draw r).store.state ≡ false
maintenance-settled now draw r =
    subst (λ root. maintenance_needed r.cfg now root ≡ false) (sym (state-maintenance now draw r))
      (elim (Bool-cases (maintenance_needed r.cfg now r.store.state)) [
        | inl q ↦ rw q (maintain-settled r.cfg now draw r.store.state)
        | inr q ↦ rw q q
      ])

-- A second run of maintenance at the same instant changes nothing at all: neither the state, nor its
-- revision, nor the hint to the readers.
pub maintenance-maintenance :
    (now : Instant) (draw again : ℕ → String) (r : Reducer)
    → maintenance now again (maintenance now draw r) ≡ maintenance now draw r
unfolding maintenance
maintenance-maintenance now draw again r =
    maintenance-idle now again (maintenance now draw r) (maintenance-settled now draw r)
