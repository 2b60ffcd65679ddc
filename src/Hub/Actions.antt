-- ===== src/Hub/Actions.antt =====
-- internal/hub/actions.go: the queue of navigation actions. The random id of an action is an argument.
pub mod Permitted
pub mod Laws
use dev_board.Prelude.{
  ℕ, String, str_eq, Bool, true, false, not, ◌&&◌, ◌||◌, Option, none, some, List, [], ◌∷◌, ◌++◌,
  length, ltb, leb, if◌then◌else◌, Result, ok, err,
}
use dev_board.Prelude.Dict.{Dict, lookup, insert}
use dev_board.Prelude.Time.{Instant}
use dev_board.State.Enums.{NavigationAction, action_eq}
use dev_board.State.Public.{PublicState, PublicTask, PublicNavigationTarget}
use dev_board.Navigation.{Action, ActionResult}
use dev_board.Hub.Registry.{Node, registry_lookup}
use dev_board.Hub.Store.{NodeStateStore, held_state, names_target}

abbrev pub max_queued_actions : ℕ
max_queued_actions = 32

pub data EnqueueError : Type 0 where
  host_unavailable no_current_state navigation_not_enabled target_unavailable task_unavailable
        queue_full :
      EnqueueError

unfoldable pub contains_navigation_action : List NavigationAction → NavigationAction → Bool
contains_navigation_action [] want = false
contains_navigation_action (a ∷ rest) want =
    action_eq a want || contains_navigation_action rest want

-- The first target with the id.
unfoldable pub find_target : String → List PublicNavigationTarget → Option PublicNavigationTarget
find_target target_id [] = none
find_target target_id (t ∷ ts) =
    if str_eq t.target_id target_id then some t else find_target target_id ts

unfoldable pub has_navigable_task : String → String → List PublicTask → Bool
has_navigable_task task_id target_id [] = false
has_navigable_task task_id target_id (t ∷ ts) =
    str_eq t.id task_id && names_target t.navigation target_id
    || has_navigable_task task_id target_id ts

abbrev pub allows : Option PublicNavigationTarget → NavigationAction → Bool
allows none action = false
allows (some t) action = contains_navigation_action t.allowed_actions action

abbrev pub is_enabled : Option Node → Bool
is_enabled none = false
is_enabled (some node) = node.enabled

unfoldable pub queue_of : Dict (List Action) → String → List Action
queue_of by_node id = elim (lookup id by_node) [ none ↦ [] | some queue ↦ queue ]

abbrev pub keep_action : Action → Option (Action × List Action) → Option (Action × List Action)
keep_action a none = none
keep_action a (some (b, others)) = some (b, a ∷ others)

-- The first action with the id, and the queue without it.
unfoldable pub take_action : String → List Action → Option (Action × List Action)
take_action action_id [] = none
take_action action_id (a ∷ rest) =
    let found = take_action action_id rest in
    if str_eq a.id action_id then some (a, rest) else keep_action a found

unfoldable pub pending_navigation : NodeStateStore → String → List Action
pending_navigation s node_id = queue_of s.actions.by_node node_id

unfoldable pub ack_navigation_item :
    NodeStateStore → String → String → ActionResult → NodeStateStore × Option Action
ack_navigation_item s node_id action_id result =
    elim (take_action action_id (queue_of s.actions.by_node node_id)) [
      | none ↦ (s, none)
      | some (item, queue) ↦ (
        record s {
          actions = record {
            by_node = insert node_id queue s.actions.by_node;
            results = insert action_id result s.actions.results;
          };
        },
        some item,
      )
    ]

unfoldable pub ack_navigation :
    NodeStateStore → String → String → ActionResult → NodeStateStore × Bool
unfolding ack_navigation_item
ack_navigation s node_id action_id result =
    elim (ack_navigation_item s node_id action_id result).1 [
      | none ↦ ((ack_navigation_item s node_id action_id result).0, false)
      | some item ↦ ((ack_navigation_item s node_id action_id result).0, true)
    ]

unfoldable pub navigation_result : NodeStateStore → String → Option ActionResult
navigation_result s action_id = lookup action_id s.actions.results

module _ (clone_public_state : PublicState → Option PublicState) where
  -- The tests before the action is queued.
  unfoldable pub may_navigate :
      NodeStateStore → String → String → String → NavigationAction → Result EnqueueError (Unit {0})
  may_navigate s host_id target_id task_id action =
      if not (is_enabled (registry_lookup s.registry host_id))
      then err host_unavailable
      else elim (held_state s host_id) [
        | none ↦ err no_current_state
        | some state ↦ elim (clone_public_state state) [
          | none ↦ err no_current_state
          | some pub' ↦
              if not pub'.meta.safe_navigation_enabled
              then err navigation_not_enabled
              else if not (allows (find_target target_id pub'.navigation_targets) action)
              then err target_unavailable
              else if not (str_eq task_id "")
                  && not (has_navigable_task task_id target_id pub'.tasks)
              then err task_unavailable
              else ok tt
        ]
      ]

  unfoldable pub enqueue_navigation_for_task :
      NodeStateStore
      → String
      → String
      → String
      → NavigationAction
      → String
      → Instant
      → NodeStateStore × Result EnqueueError Action
  enqueue_navigation_for_task s host_id target_id task_id action id now =
      elim (may_navigate s host_id target_id task_id action) [
        | err e ↦ (s, err e)
        | ok _ ↦
            let queue = queue_of s.actions.by_node host_id in
            let item : Action = record {
              id = id;
              target_id = target_id;
              task_id = task_id;
              action = action;
              issued_at = now;
            } in
            if leb max_queued_actions (length queue) then (s, err queue_full) else (
              record s {
                actions = record s.actions {
                  by_node = insert host_id (queue ++ item ∷ []) s.actions.by_node;
                };
              },
              ok item,
            )
      ]

  unfoldable pub enqueue_navigation :
      NodeStateStore
      → String
      → String
      → NavigationAction
      → String
      → Instant
      → NodeStateStore × Result EnqueueError Action
  unfolding enqueue_navigation_for_task
  enqueue_navigation s host_id target_id action id now =
      enqueue_navigation_for_task s host_id target_id "" action id now
