-- ===== src/State/Projector/Targets.antt =====
-- internal/state/projector.go: the navigation targets that may leave the node, and what they belong to.
use dev_board.Prelude.{
  String, str_eq, Bool, true, false, not, ◌&&◌, ◌||◌, Option, none, some, List, [], ◌∷◌, ◌++◌,
  if◌then◌else◌,
}
use Prim.Native.String.{◌++◌ as text_append}
use dev_board.State.Enums.{NavigationAction, NavigationKind, action_eq}
use dev_board.State.Internal.{AgentState, TaskState}
use dev_board.State.Root.{ProjectState, NavigationTarget}
use dev_board.State.Public.{PublicNavigationTarget}

unfoldable pub contains_action : List NavigationAction → NavigationAction → Bool
contains_action [] want = false
contains_action (a ∷ actions) want = action_eq a want || contains_action actions want

-- The actions that a kind of target allows.
abbrev pub action_allowed : NavigationKind → NavigationAction → Bool
action_allowed NavigationKind.agent a = action_eq a NavigationAction.focus_agent
action_allowed NavigationKind.project a =
    action_eq a NavigationAction.focus_project || action_eq a NavigationAction.open_project
action_allowed NavigationKind.app a = action_eq a NavigationAction.focus_app
action_allowed (NavigationKind.other s) a = false

unfoldable pub actions_allowed : NavigationKind → List NavigationAction → Bool
actions_allowed kind [] = true
actions_allowed kind (a ∷ actions) = action_allowed kind a && actions_allowed kind actions

abbrev pub is_empty {ℓ} : {A : Type ℓ} → List A → Bool
is_empty [] = true
is_empty (x ∷ xs) = false

abbrev pub detail_complete : NavigationKind → NavigationTarget → Bool
detail_complete NavigationKind.agent t =
    not (str_eq t.detail.agent_id "")
    && not (str_eq t.detail.provider "")
    && not (str_eq t.detail.session_id "")
    && str_eq t.detail.agent_id
        (text_append t.detail.provider (text_append ":" t.detail.session_id))
detail_complete NavigationKind.project t =
    not (str_eq t.detail.project_id "") && not (str_eq t.detail.worktree_id "")
detail_complete NavigationKind.app t = not (str_eq t.detail.app_ref "")
detail_complete (NavigationKind.other s) t = false

unfoldable pub valid_target : NavigationTarget → Bool
valid_target t =
    not (str_eq t.target_id "" || str_eq t.host_id "" || is_empty t.allowed_actions)
    && actions_allowed t.kind t.allowed_actions
    && detail_complete t.kind t

unfoldable pub find_by_id : String → List NavigationTarget → Option NavigationTarget
find_by_id id [] = none
find_by_id id (t ∷ targets) =
    let rest = find_by_id id targets in if str_eq t.target_id id then some t else rest

abbrev pub is_found : Option NavigationTarget → Bool
is_found none = false
is_found (some t) = true

-- The valid targets of the host, the first of each id, in their order; `chosen` are those so far.
unfoldable pub select_targets :
    String → List NavigationTarget → List NavigationTarget → List NavigationTarget
select_targets host_id [] chosen = chosen
select_targets host_id (t ∷ targets) chosen = select_targets host_id targets (
    if not (valid_target t)
      || not (str_eq t.host_id host_id)
      || is_found (find_by_id t.target_id chosen)
    then chosen
    else chosen ++ t ∷ [])

unfoldable pub public_target : NavigationTarget → PublicNavigationTarget
public_target t = record {
  target_id = t.target_id;
  kind = t.kind;
  allowed_actions = t.allowed_actions;
}

abbrev pub is_agent_kind : NavigationKind → Bool
is_agent_kind NavigationKind.agent = true
is_agent_kind _ = false

abbrev pub is_project_kind : NavigationKind → Bool
is_project_kind NavigationKind.project = true
is_project_kind _ = false

unfoldable pub focuses_agent : NavigationTarget → Bool
focuses_agent t =
    is_agent_kind t.kind && contains_action t.allowed_actions NavigationAction.focus_agent

unfoldable pub agent_target_matches : AgentState → NavigationTarget → Bool
agent_target_matches a t =
    focuses_agent t
    && str_eq t.detail.agent_id a.id
    && str_eq t.detail.provider a.provider
    && str_eq t.detail.session_id a.session_id
    && not (
        not (str_eq a.current_turn.turn_id "")
        && not (str_eq t.detail.turn_id "")
        && not (str_eq a.current_turn.turn_id t.detail.turn_id))

unfoldable pub task_target_matches : TaskState → NavigationTarget → Bool
task_target_matches task t =
    focuses_agent t
    && str_eq t.detail.provider task.provider
    && str_eq t.detail.session_id task.session_id
    && (str_eq t.detail.turn_id "" || str_eq t.detail.turn_id task.turn_id)

unfoldable pub project_target_matches : ProjectState → NavigationTarget → Bool
project_target_matches p t =
    is_project_kind t.kind
    && (contains_action t.allowed_actions NavigationAction.focus_project
        || contains_action t.allowed_actions NavigationAction.open_project)
    && str_eq t.detail.project_id p.project_id
    && str_eq t.detail.worktree_id p.worktree_id
