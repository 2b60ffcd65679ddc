-- ===== src/Agent/Reducer/Finished.antt =====
-- internal/agent/reducer.go: what the Stop of a turn leaves.
use dev_board.Prelude.{◌≡◌, Option, none, some}
use dev_board.Prelude.Time.{Instant}
use dev_board.State.Enums.{Activity, Outcome, Freshness, TaskLifecycle}
use dev_board.State.Internal.{AgentState, TaskState}
use dev_board.State.Root.{InternalRootState}
use dev_board.Agent.Events.{AgentEvent}
use dev_board.Agent.Creation.{turn_text}
use dev_board.Agent.Alerts.{turn_ptr}
use dev_board.Agent.Alerts.Settled.{OnlyComplete}
use dev_board.Agent.Reducer.{SessionMeta, key_for_event, find_agent, find_task}

abbrev SameCard : TaskState → TaskState → Type 0
SameCard t u = (u.provider ≡ t.provider) × (u.session_id ≡ t.session_id) × (u.turn_id ≡ t.turn_id)

abbrev done : AgentState → Instant → AgentState
done a at = record a {
  current_turn = record a.current_turn {
    activity = Activity.idle;
    outcome = Outcome.completed;
    freshness = Freshness.fresh;
    completed_at = some at;
    updated_at = at;
  };
}

-- The task of a turn that completed, where the turn has one.
abbrev pub CardComplete : Option TaskState → Option TaskState → Type 0
CardComplete none after = Unit
CardComplete (some t) after =
    (u : TaskState) × (after ≡ some u)
    × (u.lifecycle ≡ TaskLifecycle.complete)
    × (u.attention ≡ none)

-- What a Stop leaves: the agent rests with its turn completed, its alerts say so, its task is complete,
-- and the session will not open the turn again.
abbrev pub IsStopped :
    InternalRootState → AgentEvent → AgentState → InternalRootState × SessionMeta → Type 0
IsStopped root e a (next, m) =
    ((b : AgentState) × (find_agent (key_for_event e) next.agents ≡ some b)
      × (b.current_turn.activity ≡ Activity.idle)
      × (b.current_turn.outcome ≡ Outcome.completed))
    × OnlyComplete a.id (turn_ptr a.current_turn.turn_id) next.alerts
    × CardComplete (find_task e.provider e.session_id (turn_text e.turn_id) root.tasks)
        (find_task e.provider e.session_id (turn_text e.turn_id) next.tasks)
    × (m.terminal_turn_id ≡ turn_text e.turn_id)
