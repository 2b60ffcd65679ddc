-- ===== src/Agent/Reducer.antt =====
-- internal/agent/reducer.go: what the reducer of the agents' events keeps beside the store, the
-- health of its sources, and the agent and the task of an event. A pointer into a list of the root is
-- the first entry with its key, which no operation changes.
pub mod Turns
pub mod Prompt
pub mod Steps
pub mod Reduce
pub mod Submit
pub mod Maintenance
pub mod Upkeep
pub mod Owed
pub mod Closed
pub mod Memory
pub mod Runs
pub mod Submissions
pub mod Remembered
pub mod Raised
pub mod Distinct
pub mod Unique
pub mod Finished
use Prim.Native.String.{◌++◌ as text_append}
use dev_board.Prelude.{
  ℕ, ◌*◌, String, str_eq, Bool, true, false, not, ◌&&◌, ◌||◌, Option, none, some, List, [], ◌∷◌,
  ltb, ◌==◌, if◌then◌else◌,
}
use dev_board.Prelude.Dict.{Dict, lookup, insert}
use dev_board.Prelude.Text.{take_text}
use dev_board.Prelude.Time.{Instant, Duration, minute, hour, before}
use dev_board.State.Enums.{SourceStatus}
use dev_board.State.Internal.{AgentState, TaskState}
use dev_board.State.Root.{SourceHealth, InternalRootState}
use dev_board.Agent.Events.{Provider, codex, claude, EventType, AgentEvent, is_codex}
use dev_board.Agent.Creation.{provider_text, is_none, turn_text}

pub record ReducerConfig : Type 0 where
  pub stale_after : Duration
  pub stale_task_retention : Duration
  pub complete_high_visibility : Duration
  pub complete_retention : Duration
  pub max_seen_event_ids : ℕ
  pub max_old_turns_per_session : ℕ
  pub max_sessions : ℕ

abbrev pub or_default : ℕ → ℕ → ℕ
or_default n default = if n == 0 then default else n

-- A negative setting counts as 0.
unfoldable pub or_defaults : ReducerConfig → ReducerConfig
or_defaults cfg = record {
  stale_after = or_default cfg.stale_after (15 * minute);
  stale_task_retention = or_default cfg.stale_task_retention (24 * hour);
  complete_high_visibility = cfg.complete_high_visibility;
  complete_retention = or_default cfg.complete_retention (30 * minute);
  max_seen_event_ids = or_default cfg.max_seen_event_ids 4096;
  max_old_turns_per_session = or_default cfg.max_old_turns_per_session 16;
  max_sessions = or_default cfg.max_sessions 512;
}

pub record SessionMeta : Type 0 where
  pub current_turn_id : String
  pub terminal_turn_id : String
  pub current_turn_started_at : Instant
  pub latest_turn_event_at : Instant
  pub latest_session_event_at : Instant
  pub session_ended_at : Instant
  pub old_turns : List String

abbrev pub new_session : SessionMeta
new_session = record {
  current_turn_id = "";
  terminal_turn_id = "";
  current_turn_started_at = 0;
  latest_turn_event_at = 0;
  latest_session_event_at = 0;
  session_ended_at = 0;
  old_turns = [];
}

pub record SourceCapabilityState : Type 0 where
  pub turn_attribution_degraded : Bool
  pub claude_stop_degraded : Bool

abbrev pub no_degradation : SourceCapabilityState
no_degradation = record { turn_attribution_degraded = false; claude_stop_degraded = false }

-- map[Provider]*sourceCapabilityState
abbrev pub Capabilities : Type 0
Capabilities = Dict SourceCapabilityState

unfoldable pub or_new : Option SourceCapabilityState → SourceCapabilityState
or_new none = no_degradation
or_new (some caps) = caps

unfoldable pub capabilities_for : Provider → Capabilities → SourceCapabilityState
capabilities_for p caps = or_new (lookup (provider_text p) caps)

abbrev pub is_claude : Provider → Bool
is_claude claude = true
is_claude _ = false

abbrev pub is_prompt : EventType → Bool
is_prompt EventType.user_prompt_submit = true
is_prompt _ = false

abbrev pub is_stop : EventType → Bool
is_stop EventType.stop = true
is_stop _ = false

abbrev pub is_session_end : EventType → Bool
is_session_end EventType.session_end = true
is_session_end _ = false

-- e.TurnID != nil && *e.TurnID != ""
abbrev pub has_turn : AgentEvent → Bool
has_turn e = not (str_eq (turn_text e.turn_id) "")

unfoldable pub reliable_turn_identity : AgentEvent → Bool
unfolding take_text
reliable_turn_identity e =
    has_turn e
    && not e.metadata.synthetic_turn_identity
    && not (str_eq (take_text 10 (turn_text e.turn_id)) "synthetic:")

-- The optional fields of a Claude Stop are missing.
abbrev pub lacks_background : AgentEvent → Bool
lacks_background e =
    is_none e.metadata.background_task_count || is_none e.metadata.session_cron_count

unfoldable pub observed : AgentEvent → SourceCapabilityState → SourceCapabilityState
observed e caps = record {
  turn_attribution_degraded =
      if is_claude e.provider && is_prompt e.event_type && e.metadata.synthetic_turn_identity
      then true
      else if reliable_turn_identity e
      then false
      else caps.turn_attribution_degraded;
  claude_stop_degraded =
      if is_claude e.provider && is_stop e.event_type
      then lacks_background e
      else caps.claude_stop_degraded;
}

unfoldable pub observe_capabilities : AgentEvent → Capabilities → Capabilities
observe_capabilities e caps =
    insert (provider_text e.provider) (observed e (capabilities_for e.provider caps)) caps

-- The attempt to attribute an event without a turn.
unfoldable pub degrade_attribution : AgentEvent → Capabilities → Capabilities
degrade_attribution e caps =
    insert (provider_text e.provider)
      (record (capabilities_for e.provider caps) { turn_attribution_degraded = true }) caps

abbrev pub source_id : Provider → String
source_id codex = "codex-hooks"
source_id _ = "claude-hooks"

abbrev pub empty_source : SourceHealth
empty_source = record {
  status = SourceStatus.other "";
  last_attempt_at = none;
  last_success_at = none;
  message = "";
  reason = "";
}

unfoldable pub source_or_empty : Option SourceHealth → SourceHealth
source_or_empty none = empty_source
source_or_empty (some s) = s

-- A time that does not go back.
abbrev pub advance : Option Instant → Instant → Option Instant
advance none at = some at
advance (some t) at = if before at t then some t else some at

abbrev pub advance_if : Bool → Option Instant → Instant → Option Instant
advance_if true t at = advance t at
advance_if false t at = t

unfoldable pub set_source :
    String → SourceStatus → Instant → String → Bool → InternalRootState → InternalRootState
set_source id status at msg accepted root =
    let prev = source_or_empty (lookup id root.sources) in
    record root {
      sources =
          insert id
            (record prev {
              status = status;
              last_attempt_at = advance prev.last_attempt_at at;
              last_success_at = advance_if accepted prev.last_success_at at;
              message = msg;
            })
            root.sources;
    }

unfoldable pub capability_status : SourceCapabilityState → SourceStatus
capability_status caps =
    if caps.turn_attribution_degraded || caps.claude_stop_degraded
    then SourceStatus.degraded
    else SourceStatus.available

unfoldable pub capability_message : SourceCapabilityState → String
capability_message caps =
    if caps.turn_attribution_degraded && caps.claude_stop_degraded
    then "Lifecycle capability degraded: reliable turn attribution and Claude Stop background-work fields unavailable."
    else if caps.turn_attribution_degraded
    then "Lifecycle capability degraded: reliable turn attribution unavailable."
    else if caps.claude_stop_degraded
    then "Lifecycle capability degraded: Claude Stop background-work fields unavailable."
    else "Lifecycle event observed."

unfoldable pub set_source_from_capabilities :
    Capabilities → Provider → Instant → Bool → InternalRootState → InternalRootState
set_source_from_capabilities caps p at accepted root =
    let c = capabilities_for p caps in
    set_source (source_id p) (capability_status c) at (capability_message c) accepted root

unfoldable pub session_key : Provider → String → String
session_key p session_id = text_append (provider_text p) (text_append ":" session_id)

-- keyForEvent
abbrev pub key_for_event : AgentEvent → String
key_for_event e = session_key e.provider e.session_id

unfoldable pub find_agent : String → List AgentState → Option AgentState
find_agent id [] = none
find_agent id (a ∷ agents) =
    let rest = find_agent id agents in if str_eq a.id id then some a else rest

-- *findAgent(root, id) = a
unfoldable pub put_agent : String → AgentState → List AgentState → List AgentState
put_agent id new [] = []
put_agent id new (a ∷ agents) =
    let rest = put_agent id new agents in if str_eq a.id id then new ∷ agents else a ∷ rest

unfoldable pub is_task_of : Provider → String → String → TaskState → Bool
is_task_of p session_id turn_id t =
    str_eq t.provider (provider_text p)
    && str_eq t.session_id session_id
    && str_eq t.turn_id turn_id

unfoldable pub find_task : Provider → String → String → List TaskState → Option TaskState
find_task p session_id turn_id [] = none
find_task p session_id turn_id (t ∷ tasks) =
    let rest = find_task p session_id turn_id tasks in
    if is_task_of p session_id turn_id t then some t else rest

-- A change through the pointer that findTask gives.
unfoldable pub change_task :
    Provider → String → String → (TaskState → TaskState) → List TaskState → List TaskState
change_task p session_id turn_id f [] = []
change_task p session_id turn_id f (t ∷ tasks) =
    let rest = change_task p session_id turn_id f tasks in
    if is_task_of p session_id turn_id t then f t ∷ tasks else t ∷ rest
