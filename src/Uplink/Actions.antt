-- ===== src/Uplink/Actions.antt =====
-- internal/uplink/scheduler.go: pollActions. The world in which the actions are handled and acknowledged is
-- a state of any type; what is only logged is left out.
pub mod Wire
pub mod Link
pub mod Delivery
use dev_board.Prelude.{
  String, str_eq, Bool, ◌||◌, not, List, [], ◌∷◌, Result, ok, err, if◌then◌else◌,
}
use dev_board.Navigation.{Action, ActionResult}
use dev_board.Uplink.Client.{ErrorKind, SendOutcome}

module _ {World : Type 0} (request : World → World × Result ErrorKind (List Action))
    (handler : Action → World → World × ActionResult)
    (acknowledge : String → ActionResult → World → World × SendOutcome) where
  -- The handler's result is acknowledged under the id of the action, and a failure of that is only logged.
  unfoldable pub handle_action : Action → World → World
  handle_action action w =
      let (handled, result) = handler action w in (acknowledge action.id result handled).0

  unfoldable pub handle_actions : List Action → World → World
  handle_actions [] w = w
  handle_actions (action ∷ actions) w =
      handle_actions actions (if str_eq action.id "" then w else handle_action action w)

  unfoldable pub poll_actions : Bool → Bool → World → World
  poll_actions has_handler is_cancelled w =
      if not has_handler || is_cancelled then w else elim (request w).1 [
        | err e ↦ (request w).0
        | ok actions ↦ handle_actions actions (request w).0
      ]
