-- ===== src/Agent/Reducer/Prompt.antt =====
-- internal/agent/reducer.go: a prompt, which opens a turn, and the end of a session. The hexadecimal
-- digests are parameters, and so is the project of the working directory.
use Prim.Native.String.{◌++◌ as text_append}
use dev_board.Prelude.{
  ℕ, ◌-◌, String, str_eq, Bool, false, not, ◌&&◌, ◌||◌, Option, none, some, List, [], ◌∷◌, ◌++◌,
  ltb, length, drop, filter, if◌then◌else◌, Result, ok, err,
}
use dev_board.Prelude.Dict.{contains}
use dev_board.Prelude.Text.{codes, is_blank}
use dev_board.Prelude.Time.{Instant, before, is_zero}
use dev_board.State.Enums.{
  Activity, Outcome, Freshness, TaskLifecycle, NavigationAction, NavigationKind, AlertType,
  is_terminal,
}
use dev_board.State.Internal.{CurrentTurn, AgentState, TaskProjectContext, TaskState}
use dev_board.State.Root.{NavigationTarget, InternalRootState}
use dev_board.Agent.Events.{Provider, AgentEvent}
use dev_board.Agent.Tasks.{is_some, sync_task_lifecycle}
use dev_board.Agent.Creation.{provider_text, turn_text, new_task_state}
use dev_board.Agent.Alerts.{resolve_alert, resolve_all_agent_alerts}
use dev_board.Agent.Reducer.{
  ReducerConfig, SessionMeta, is_claude, has_turn, key_for_event, find_agent, put_agent, find_task,
  change_task,
}
use dev_board.Agent.Reducer.Turns.{is_outcome_none}

pub data ReduceError : Type 0 where
  missing_turn_id : ReduceError

-- now is before an instant that is known
abbrev pub precedes : Instant → Instant → Bool
precedes at latest = not (is_zero latest) && before at latest

abbrev pub later : Instant → Instant → Instant
later at latest = if ltb latest at then at else latest

unfoldable pub has_terminal_card : Option TaskState → Bool
has_terminal_card none = false
has_terminal_card (some t) = is_terminal t.lifecycle

unfoldable pub is_historical_prompt_replay : InternalRootState → SessionMeta → AgentEvent → Bool
is_historical_prompt_replay root m e =
    let turn = turn_text e.turn_id in
    not (is_blank turn)
    && (str_eq m.terminal_turn_id turn
        || (str_eq m.current_turn_id turn && not (is_zero m.session_ended_at))
        || has_terminal_card (find_task e.provider e.session_id turn root.tasks))

abbrev pub is_task_in : Provider → String → TaskState → Bool
is_task_in p session_id t = str_eq t.provider (provider_text p) && str_eq t.session_id session_id

unfoldable pub acknowledge_terminal_tasks :
    Provider → String → Instant → List TaskState → List TaskState
acknowledge_terminal_tasks p session_id at [] = []
acknowledge_terminal_tasks p session_id at (t ∷ tasks) =
    let rest = acknowledge_terminal_tasks p session_id at tasks in
    if is_task_in p session_id t && not (is_some t.read_at) && is_terminal t.lifecycle
    then record t { read_at = some at } ∷ rest
    else t ∷ rest

abbrev pub provider_preferred_app : Provider → String
provider_preferred_app p = if is_claude p then "Claude" else "Codex"

abbrev pub worktree_of : Option TaskProjectContext → String
worktree_of none = ""
worktree_of (some project) = project.worktree_identity

-- The target is replaced where one has its id, and added otherwise.
unfoldable pub put_target : NavigationTarget → List NavigationTarget → List NavigationTarget
put_target target [] = target ∷ []
put_target target (t ∷ targets) =
    let rest = put_target target targets in
    if str_eq t.target_id target.target_id then target ∷ targets else t ∷ rest

-- The last n items.
abbrev pub last {ℓ} : {A : Type ℓ} → ℕ → List A → List A
last n xs = drop (length xs - n) xs

unfoldable pub remember_turn : ℕ → String → List String → List String
remember_turn max current old = if str_eq current "" then old else last max (old ++ current ∷ [])

unfoldable pub opened_session : ReducerConfig → SessionMeta → String → Instant → SessionMeta
opened_session cfg m turn at = record m {
  old_turns = remember_turn cfg.max_old_turns_per_session m.current_turn_id m.old_turns;
  current_turn_id = turn;
  terminal_turn_id = "";
  current_turn_started_at = at;
  session_ended_at = 0;
  latest_turn_event_at = at;
  latest_session_event_at = later at m.latest_session_event_at;
}

abbrev pub fresh_agent : AgentEvent → AgentState
fresh_agent e = record {
  id = key_for_event e;
  provider = provider_text e.provider;
  session_id = e.session_id;
  current_turn = record {
    turn_id = "";
    activity = Activity.other "";
    outcome = Outcome.other "";
    freshness = Freshness.other "";
    started_at = 0;
    completed_at = none;
    updated_at = 0;
  };
  navigation_target_id = "";
}

-- The agent of the session, added where there is none.
unfoldable pub ensure_agent : AgentEvent → List AgentState → List AgentState × AgentState
ensure_agent e agents = elim (find_agent (key_for_event e) agents) [
  | some a ↦ (agents, a)
  | none ↦ (agents ++ fresh_agent e ∷ [], fresh_agent e)
]

abbrev pub opened_turn : String → Instant → CurrentTurn
opened_turn turn at = record {
  turn_id = turn;
  activity = Activity.working;
  outcome = Outcome.outcome_none;
  freshness = Freshness.fresh;
  started_at = at;
  completed_at = none;
  updated_at = at;
}

-- An abandoned card of the session: not of this turn, and not terminal.
unfoldable pub is_abandoned : Provider → String → String → TaskState → Bool
is_abandoned p session_id turn t =
    is_task_in p session_id t && not (str_eq t.turn_id turn) && not (is_terminal t.lifecycle)

module _ (hex_digest : List ℕ → List ℕ) (target_digest : List ℕ → String) where
  -- The digest is of the provider and the session, with a zero byte between.
  unfoldable pub agent_target :
      InternalRootState → AgentState → AgentEvent → Option TaskProjectContext → NavigationTarget
  agent_target root a e project = record {
    target_id =
        text_append "target-agent-"
          (target_digest (codes (provider_text e.provider) ++ 0 ∷ codes e.session_id));
    kind = NavigationKind.agent;
    host_id = root.host.id;
    allowed_actions = NavigationAction.focus_agent ∷ [];
    detail = record {
      agent_id = a.id;
      provider = provider_text e.provider;
      session_id = e.session_id;
      turn_id = "";
      project_id = "";
      worktree_id = worktree_of project;
      worktree_root = "";
      preferred_app = provider_preferred_app e.provider;
      focus_locator = e.session_id;
      app_ref = "";
    };
  }

  unfoldable pub ensure_agent_navigation_target :
      InternalRootState → AgentState → AgentEvent → Option TaskProjectContext → InternalRootState
  ensure_agent_navigation_target root a e project =
      if str_eq e.session_id ""
      then root
      else let target = agent_target root a e project in
        record root {
          agents =
              put_agent a.id (record a { navigation_target_id = target.target_id }) root.agents;
          navigation_targets = put_target target root.navigation_targets;
        }

  unfoldable pub open_turn :
      InternalRootState → AgentEvent → Option TaskProjectContext → InternalRootState
  open_turn root e project =
      let turn = turn_text e.turn_id in
      let (agents, found) = ensure_agent e root.agents in
      let a : AgentState = record found { current_turn = opened_turn turn e.occurred_at } in
      let placed =
        ensure_agent_navigation_target (record root { agents = put_agent a.id a agents }) a e
          project in
      record placed {
        alerts = resolve_all_agent_alerts (key_for_event e) e.occurred_at placed.alerts;
        tasks =
            filter (λ t. not (is_abandoned e.provider e.session_id turn t)) placed.tasks
            ++ new_task_state hex_digest e project ∷ [];
      }

  -- The prompt does not open a turn: the turn is over, or it is open, or another one came later.
  unfoldable pub is_old_prompt : SessionMeta → AgentEvent → Bool
  is_old_prompt m e =
      let turn = turn_text e.turn_id in
      contains turn m.old_turns
      || str_eq m.current_turn_id turn
      || (not (str_eq m.current_turn_id "") && precedes e.occurred_at m.latest_session_event_at)

  unfoldable pub begin_turn :
      ReducerConfig
      → InternalRootState
      → SessionMeta
      → AgentEvent
      → Option TaskProjectContext
      → Result ReduceError InternalRootState × SessionMeta
  begin_turn cfg root m e project =
      if not (has_turn e)
      then (err missing_turn_id, m)
      else if is_old_prompt m e
      then (ok root, m)
      else (ok (open_turn root e project), opened_session cfg m (turn_text e.turn_id) e.occurred_at)

-- A task without a result is left stale.
unfoldable pub end_task : AgentState → Instant → TaskState → TaskState
end_task a at t =
    let synced = sync_task_lifecycle (record t { attention = none }) (some a) at in
    if is_outcome_none a.current_turn.outcome
    then record synced { freshness = Freshness.stale; lifecycle = TaskLifecycle.working }
    else synced

unfoldable pub end_agent :
    InternalRootState → SessionMeta → AgentEvent → AgentState → InternalRootState
end_agent root m e a =
    let at = e.occurred_at in
    let a2 : AgentState = record a {
      current_turn = record a.current_turn {
        activity = Activity.idle;
        freshness = Freshness.fresh;
        updated_at = at;
      };
    } in
    record root {
      agents = put_agent a.id a2 root.agents;
      alerts =
          resolve_alert AlertType.stale a.id none at
            (resolve_alert AlertType.attention a.id none at root.alerts);
      tasks =
          if str_eq m.current_turn_id ""
          then root.tasks
          else change_task e.provider e.session_id m.current_turn_id (end_task a2 at) root.tasks;
    }

unfoldable pub session_end :
    InternalRootState → SessionMeta → AgentEvent → InternalRootState × SessionMeta
session_end root m e =
    if precedes e.occurred_at m.latest_session_event_at
    then (root, m)
    else let ended : SessionMeta = record m {
      latest_session_event_at = e.occurred_at;
      session_ended_at = e.occurred_at;
    } in
      elim (find_agent (key_for_event e) root.agents) [
        | none ↦ (root, ended)
        | some a ↦ (end_agent root ended e a, ended)
      ]
