-- ===== src/Agent/Reducer/Maintenance.antt =====
-- internal/agent/reducer.go, `Maintenance`: turns without a heartbeat become stale, and what has been
-- kept long enough goes. The ids of the alerts are drawn in the order of the agents.
use dev_board.Prelude.{
  ℕ, suc, ◌+◌, String, str_eq, Bool, true, false, not, ◌&&◌, ◌||◌, Option, none, some, List, [],
  ◌∷◌, ltb, filter, if◌then◌else◌, Result, ok,
}
use dev_board.Prelude.Time.{Instant, before, since, is_zero}
use dev_board.State.Enums.{Activity, Freshness, AlertType, TaskLifecycle}
use dev_board.State.Internal.{CurrentTurn, AgentState, TaskState}
use dev_board.State.Root.{AlertState, InternalRootState}
use dev_board.State.Store.{update_if}
use dev_board.Agent.Tasks.{is_some, is_complete, needs_attention}
use dev_board.Agent.Alerts.{turn_ptr, upsert_alert, resolve_alert}
use dev_board.Agent.Reducer.{ReducerConfig}
use dev_board.Agent.Reducer.Prompt.{ReduceError}
use dev_board.Agent.Reducer.Steps.{is_error_lifecycle}
use dev_board.Agent.Reducer.Submit.{Reducer}

abbrev pub is_active_turn : Activity → Bool
is_active_turn Activity.working = true
is_active_turn Activity.attention = true
is_active_turn _ = false

abbrev pub is_fresh : Freshness → Bool
is_fresh Freshness.fresh = true
is_fresh _ = false

abbrev pub is_stale : Freshness → Bool
is_stale Freshness.stale = true
is_stale _ = false

unfoldable pub is_overdue : ReducerConfig → Instant → CurrentTurn → Bool
is_overdue cfg now turn =
    is_active_turn turn.activity
    && is_fresh turn.freshness
    && not (is_zero turn.updated_at)
    && ltb cfg.stale_after (since now turn.updated_at)

unfoldable pub stale_turn : CurrentTurn → CurrentTurn
stale_turn turn = record turn {
  freshness = Freshness.stale;
  activity = if needs_attention turn.activity then Activity.working else turn.activity;
}

unfoldable pub is_task_of_agent : AgentState → TaskState → Bool
is_task_of_agent a t =
    str_eq t.provider a.provider
    && str_eq t.session_id a.session_id
    && str_eq t.turn_id a.current_turn.turn_id

abbrev pub stale_task : Instant → TaskState → TaskState
stale_task now t = record t {
  freshness = Freshness.stale;
  lifecycle = TaskLifecycle.working;
  attention = none;
  updated_at = now;
}

unfoldable pub stale_tasks : AgentState → Instant → List TaskState → List TaskState
stale_tasks a now [] = []
stale_tasks a now (t ∷ tasks) =
    let rest = stale_tasks a now tasks in
    if is_task_of_agent a t then stale_task now t ∷ rest else t ∷ rest

unfoldable pub stale_alerts :
    ReducerConfig → Instant → String → AgentState → List AlertState → List AlertState
stale_alerts cfg now id a alerts =
    let turn = turn_ptr a.current_turn.turn_id in
    upsert_alert id AlertType.stale a.id turn now none (some (now + cfg.stale_task_retention)) (
      if needs_attention a.current_turn.activity
      then resolve_alert AlertType.attention a.id turn now alerts
      else alerts)

-- What the loop over the agents changes.
pub record Marks : Type 0 where
  pub agents : List AgentState
  pub alerts : List AlertState
  pub tasks : List TaskState

unfoldable pub mark_agent : ReducerConfig → Instant → AgentState → AgentState
mark_agent cfg now a =
    if is_overdue cfg now a.current_turn
    then record a { current_turn = stale_turn a.current_turn }
    else a

unfoldable pub mark_alerts :
    ReducerConfig → Instant → String → AgentState → List AlertState → List AlertState
mark_alerts cfg now id a alerts =
    if is_overdue cfg now a.current_turn then stale_alerts cfg now id a alerts else alerts

unfoldable pub mark_tasks : ReducerConfig → Instant → AgentState → List TaskState → List TaskState
mark_tasks cfg now a tasks =
    if is_overdue cfg now a.current_turn then stale_tasks a now tasks else tasks

unfoldable pub mark_stale :
    ReducerConfig
    → Instant
    → (ℕ → String)
    → List AgentState
    → List AlertState
    → List TaskState
    → Marks
mark_stale cfg now draw [] alerts tasks = record { agents = []; alerts = alerts; tasks = tasks }
mark_stale cfg now draw (a ∷ agents) alerts tasks =
    let rest =
      mark_stale cfg now (λ n. draw (suc n)) agents (mark_alerts cfg now (draw 0) a alerts)
        (mark_tasks cfg now a tasks) in
    record rest { agents = mark_agent cfg now a ∷ rest.agents }

-- now is not before a time that is known
abbrev pub reached : Instant → Option Instant → Bool
reached now none = false
reached now (some t) = not (before now t)

abbrev pub after : ℕ → Option Instant → Option Instant
after d none = none
after d (some t) = some (t + d)

abbrev pub is_complete_alert : AlertType → Bool
is_complete_alert AlertType.complete = true
is_complete_alert _ = false

abbrev pub is_stale_alert : AlertType → Bool
is_stale_alert AlertType.stale = true
is_stale_alert _ = false

unfoldable pub keeps_alert : Instant → AlertState → Bool
keeps_alert now a =
    a.active
    && not (is_complete_alert a.type && reached now a.retain_until)
    && not (is_stale_alert a.type && reached now a.retain_until)

abbrev pub is_working_lifecycle : TaskLifecycle → Bool
is_working_lifecycle TaskLifecycle.working = true
is_working_lifecycle _ = false

unfoldable pub is_expired : ReducerConfig → Instant → TaskState → Bool
is_expired cfg now t =
    (is_complete t.lifecycle && reached now (after cfg.complete_retention t.read_at))
    || (is_error_lifecycle t.lifecycle
        && is_some t.superseded_at
        && reached now (after cfg.complete_retention t.read_at))
    || (is_working_lifecycle t.lifecycle
        && is_stale t.freshness
        && not (is_zero t.updated_at)
        && not (before now (t.updated_at + cfg.stale_task_retention)))

unfoldable pub maintain :
    ReducerConfig → Instant → (ℕ → String) → InternalRootState → InternalRootState
maintain cfg now draw root =
    let marks = mark_stale cfg now draw root.agents root.alerts root.tasks in
    record root {
      agents = marks.agents;
      alerts = filter (keeps_alert now) marks.alerts;
      tasks = filter (λ t. not (is_expired cfg now t)) marks.tasks;
      generated_at = now;
    }

unfoldable pub any_agent : ReducerConfig → Instant → List AgentState → Bool
any_agent cfg now [] = false
any_agent cfg now (a ∷ agents) = is_overdue cfg now a.current_turn || any_agent cfg now agents

unfoldable pub alert_is_due : Instant → AlertState → Bool
alert_is_due now a =
    not a.active
    || (reached now a.retain_until && (is_complete_alert a.type || is_stale_alert a.type))

unfoldable pub any_alert : Instant → List AlertState → Bool
any_alert now [] = false
any_alert now (a ∷ alerts) = alert_is_due now a || any_alert now alerts

unfoldable pub any_task : ReducerConfig → Instant → List TaskState → Bool
any_task cfg now [] = false
any_task cfg now (t ∷ tasks) = is_expired cfg now t || any_task cfg now tasks

unfoldable pub maintenance_needed : ReducerConfig → Instant → InternalRootState → Bool
maintenance_needed cfg now root =
    any_agent cfg now root.agents || any_alert now root.alerts || any_task cfg now root.tasks

unfoldable pub maintenance : Instant → (ℕ → String) → Reducer → Reducer
maintenance now draw r =
    let fn : InternalRootState → Result ReduceError InternalRootState =
      λ root. ok (maintain r.cfg now draw root) in
    record r { store = (update_if (some (maintenance_needed r.cfg now)) fn r.store).1 }
