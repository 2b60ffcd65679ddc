-- ===== src/Agent/Reducer/Reduce.antt =====
-- internal/agent/reducer.go, `reduce`: what one event does to the root, to the memory of its session
-- and to the capabilities of its source.
use dev_board.Prelude.{
  ℕ, String, str_eq, Bool, true, false, not, ◌&&◌, ◌||◌, Option, none, some, List, if◌then◌else◌,
  Result, ok,
}
use dev_board.Prelude.Time.{is_zero}
use dev_board.State.Internal.{TaskProjectContext}
use dev_board.State.Root.{InternalRootState}
use dev_board.Agent.Events.{AgentEvent}
use dev_board.Agent.Creation.{turn_text}
use dev_board.Agent.Reducer.{
  ReducerConfig, SessionMeta, Capabilities, is_claude, is_prompt, is_stop, is_session_end, has_turn,
  lacks_background, observe_capabilities, degrade_attribution, set_source_from_capabilities,
  key_for_event, find_agent,
}
use dev_board.Agent.Reducer.Prompt.{
  ReduceError, precedes, is_historical_prompt_replay, acknowledge_terminal_tasks, begin_turn,
  session_end,
}
use dev_board.Agent.Reducer.Steps.{
  is_outdated, reduce_agent, reduce_plain_stop, reduce_unattributed, seen_by,
}

-- An event of the turn, in its order.
unfoldable pub reduce_turn :
    ReducerConfig
    → String
    → InternalRootState
    → SessionMeta
    → AgentEvent
    → InternalRootState × SessionMeta
reduce_turn cfg alert_id root m e =
    if str_eq m.current_turn_id "" || is_outdated m e
    then (root, m)
    else let m2 = seen_by m e.occurred_at in
      elim (find_agent (key_for_event e) root.agents) [
        | none ↦ (root, m2)
        | some a ↦ reduce_agent cfg alert_id root m2 e a
      ]

unfoldable pub reduce_attributed :
    ReducerConfig
    → String
    → InternalRootState
    → SessionMeta
    → AgentEvent
    → InternalRootState × SessionMeta
reduce_attributed cfg alert_id root m e =
    if not (str_eq m.terminal_turn_id "") && str_eq (turn_text e.turn_id) m.terminal_turn_id
    then (root, m)
    else if is_claude e.provider && is_stop e.event_type && lacks_background e
    then reduce_plain_stop cfg alert_id root m e
    else reduce_turn cfg alert_id root m e

abbrev pub names_turn : Option String → String → Bool
names_turn none turn = false
names_turn (some t) turn = str_eq t turn

-- The event is dropped before anything is recorded of it.
unfoldable pub is_ignored : InternalRootState → SessionMeta → AgentEvent → Bool
is_ignored root m e =
    (is_session_end e.event_type && precedes e.occurred_at m.latest_session_event_at)
    || (is_prompt e.event_type && is_historical_prompt_replay root m e)
    || (not (is_prompt e.event_type)
        && not (is_session_end e.event_type)
        && not (is_zero m.session_ended_at)
        && names_turn e.turn_id m.current_turn_id)

abbrev pub Reduced : Type 0
Reduced = Result ReduceError InternalRootState × SessionMeta × Capabilities

module _ (hex_digest : List ℕ → List ℕ) (target_digest : List ℕ → String)
    (cfg : ReducerConfig) where
  unfoldable pub reduce_prompt :
      InternalRootState
      → SessionMeta
      → Capabilities
      → AgentEvent
      → Option TaskProjectContext
      → Reduced
  reduce_prompt root m caps e project =
      let caps2 = observe_capabilities e caps in
      let sourced = set_source_from_capabilities caps2 e.provider e.occurred_at true root in
      let (r, m2) =
        begin_turn hex_digest target_digest cfg
          (record sourced {
            tasks = acknowledge_terminal_tasks e.provider e.session_id e.occurred_at sourced.tasks;
          })
          m e project in
      (r, m2, caps2)

  unfoldable pub reduce_session_end :
      InternalRootState → SessionMeta → Capabilities → AgentEvent → Reduced
  reduce_session_end root m caps e =
      let (next, m2) =
        session_end (set_source_from_capabilities caps e.provider e.occurred_at true root) m e in
      (ok next, m2, caps)

  unfoldable pub reduce_without_turn :
      String → InternalRootState → SessionMeta → Capabilities → AgentEvent → Reduced
  reduce_without_turn alert_id root m caps e =
      let caps2 = degrade_attribution e caps in
      let sourced = set_source_from_capabilities caps2 e.provider e.occurred_at false root in
      (ok (reduce_unattributed alert_id sourced e), m, caps2)

  unfoldable pub reduce_with_turn :
      String → InternalRootState → SessionMeta → Capabilities → AgentEvent → Reduced
  reduce_with_turn alert_id root m caps e =
      let caps2 = observe_capabilities e caps in
      let sourced = set_source_from_capabilities caps2 e.provider e.occurred_at true root in
      let (next, m2) = reduce_attributed cfg alert_id sourced m e in (ok next, m2, caps2)

  unfoldable pub reduce_other :
      String → InternalRootState → SessionMeta → Capabilities → AgentEvent → Reduced
  reduce_other alert_id root m caps e =
      if has_turn e
      then reduce_with_turn alert_id root m caps e
      else reduce_without_turn alert_id root m caps e

  -- The id is for the alert that the event may raise; no event raises two.
  unfoldable pub reduce :
      InternalRootState
      → SessionMeta
      → Capabilities
      → AgentEvent
      → Option TaskProjectContext
      → String
      → Reduced
  reduce root m caps e project alert_id =
      let stamped : InternalRootState = record root { generated_at = e.occurred_at } in
      if is_ignored root m e
      then (ok root, m, caps)
      else if is_prompt e.event_type
      then reduce_prompt stamped m caps e project
      else if is_session_end e.event_type
      then reduce_session_end stamped m caps e
      else reduce_other alert_id stamped m caps e
