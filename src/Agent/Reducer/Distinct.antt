-- ===== src/Agent/Reducer/Distinct.antt =====
-- internal/agent/reducer.go: the alerts over the parts of `reduce`, of `Submit` and of `Maintenance`.
use dev_board.Prelude.{
  ◌+◌, ◌≡◌, refl, String, Bool, true, false, none, some, List, if◌then◌else◌, Result, ok, err, inl,
  inr, Bool-cases, Option-cases,
}
use dev_board.Prelude.Time.{Instant}
use dev_board.State.Enums.{AlertType}
use dev_board.State.Internal.{AgentState}
use dev_board.State.Root.{AlertState, InternalRootState}
use dev_board.Agent.Events.{AgentEvent}
use dev_board.Agent.Tasks.{needs_attention}
use dev_board.Agent.Alerts.{turn_ptr, resolve_alert}
use dev_board.Agent.Alerts.Laws.{IsUnique, upsert_alert-IsUnique, resolve_alert-IsUnique}
use dev_board.Agent.Reducer.{ReducerConfig, SessionMeta, find_agent, key_for_event}
use dev_board.Agent.Reducer.Prompt.{ReduceError, precedes, end_agent, session_end}
use dev_board.Agent.Reducer.Steps.{is_busy, stale_agent, reduce_unattributed}
use dev_board.Agent.Reducer.Maintenance.{is_overdue, mark_alerts, stale_alerts}
use dev_board.Agent.Reducer.Raised.{UniqueIn}
use dev_board.Agent.Reducer.Submit.{Reducer, remember_if_ok, remember_event_id}
use dev_board.State.Store.{Store, finish_update, update, notify_changed}

stale_agent-IsUnique :
    (alert_id : String) (root : InternalRootState) (e : AgentEvent) (a : AgentState)
    → UniqueIn root
    → UniqueIn (stale_agent alert_id root e a)
unfolding stale_agent
stale_agent-IsUnique alert_id root e a h = elim (Bool-cases (is_busy a.current_turn.activity)) [
  | inl q ↦ rw q (
      upsert_alert-IsUnique alert_id AlertType.stale a.id (turn_ptr a.current_turn.turn_id)
        e.occurred_at none none root.alerts h)
  | inr q ↦ rw q h
]

pub reduce_unattributed-IsUnique :
    (alert_id : String) (root : InternalRootState) (e : AgentEvent)
    → UniqueIn root
    → UniqueIn (reduce_unattributed alert_id root e)
unfolding reduce_unattributed
reduce_unattributed-IsUnique alert_id root e h =
    elim (Option-cases (find_agent (key_for_event e) root.agents)) [
      | inl f ↦ rw (f, reduce_unattributed) h
      | inr (a, f) ↦ rw (f, reduce_unattributed) (stale_agent-IsUnique alert_id root e a h)
    ]

pub session_end-IsUnique :
    (root : InternalRootState) (m : SessionMeta) (e : AgentEvent)
    → UniqueIn root
    → UniqueIn (session_end root m e).0
unfolding session_end end_agent
session_end-IsUnique root m e h =
    elim (Bool-cases (precedes e.occurred_at m.latest_session_event_at)) [
      | inl q ↦ rw q h
      | inr q ↦ elim (Option-cases (find_agent (key_for_event e) root.agents)) [
        | inl f ↦ rw (q, f) h
        | inr (a, f) ↦
            rw (q, f)
              (resolve_alert-IsUnique AlertType.stale a.id none e.occurred_at
                (resolve_alert AlertType.attention a.id none e.occurred_at root.alerts)
                (resolve_alert-IsUnique AlertType.attention a.id none e.occurred_at root.alerts h))
      ]
    ]

-- What a reduction leaves in the root, where it is not refused.
abbrev pub UniqueOut : Result ReduceError InternalRootState → Type 0
UniqueOut (ok next) = UniqueIn next
UniqueOut (err e) = Unit

abbrev pub UniqueStore : Store → Type 0
UniqueStore s = UniqueIn s.state

finish_update-IsUnique :
    (s : Store)
    → UniqueStore s
    → (r : Result ReduceError InternalRootState) → UniqueOut r
    → UniqueStore (finish_update s r).1
unfolding finish_update notify_changed
finish_update-IsUnique s h (ok next) o = o
finish_update-IsUnique s h (err e) o = h

pub update-IsUnique :
    (fn : InternalRootState → Result ReduceError InternalRootState) (s : Store)
    → UniqueStore s
    → UniqueOut (fn s.state)
    → UniqueStore (update fn s).1
unfolding update
update-IsUnique fn s h o = go (fn s.state) o
  where
    go :
        (r : Result ReduceError InternalRootState) → UniqueOut r → UniqueStore (finish_update s r).1
    go r = finish_update-IsUnique s h r

pub store-remember_if_ok :
    (x : Result ReduceError (Unit {0})) (id : String) (r : Reducer)
    → (remember_if_ok x id r).store ≡ r.store
unfolding remember_if_ok remember_event_id
store-remember_if_ok (ok u) id r = refl
store-remember_if_ok (err e) id r = refl

if_holds :
    (b : Bool) (x y : List AlertState) → IsUnique x → IsUnique y → IsUnique (if b then x else y)
if_holds true x y h k = h
if_holds false x y h k = k

pub mark_alerts-IsUnique :
    (cfg : ReducerConfig) (now : Instant) (id : String) (a : AgentState) (alerts : List AlertState)
    → IsUnique alerts
    → IsUnique (mark_alerts cfg now id a alerts)
unfolding mark_alerts stale_alerts
mark_alerts-IsUnique cfg now id a alerts h =
    let turn = turn_ptr a.current_turn.turn_id in
    let before =
      if_holds (needs_attention a.current_turn.activity)
        (resolve_alert AlertType.attention a.id turn now alerts) alerts
        (resolve_alert-IsUnique AlertType.attention a.id turn now alerts h) h in
    elim (Bool-cases (is_overdue cfg now a.current_turn)) [
      | inl q ↦ rw q (
          upsert_alert-IsUnique id AlertType.stale a.id turn now none
            (some (now + cfg.stale_task_retention))
            (if needs_attention a.current_turn.activity
              then resolve_alert AlertType.attention a.id turn now alerts
              else alerts)
            before)
      | inr q ↦ rw q h
    ]
