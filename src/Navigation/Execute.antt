-- ===== src/Navigation/Execute.antt =====
-- internal/navigation/navigation.go: an action is resolved against the private targets of the host, and
-- executed by at most two commands. The commands are values here; what the operating system makes of
-- them, and whether it is macOS, are parameters.
pub mod Laws
use dev_board.Prelude.{
  ℕ, suc, String, str_eq, Bool, true, false, not, ◌&&◌, ◌||◌, Option, none, some, List, [], ◌∷◌,
  ◌++◌, ◌==◌, if◌then◌else◌, Result, ok, err,
}
use dev_board.Prelude.Text.{codes, codes_eq, text_of, trim_space, to_lower, between}
use dev_board.State.Enums.{NavigationAction, NavigationKind, action_eq}
use dev_board.State.Root.{NavigationTarget, NavigationTargetDetail, InternalRootState}
use dev_board.State.Projector.Targets.{contains_action, is_agent_kind}
use dev_board.Agent.Sanitize.{bytes}
use dev_board.Navigation.{Action, ActionResult}

pub data ResolveError : Type 0 where
  target_missing action_not_allowed app_not_allowed target_unavailable : ResolveError

abbrev pub error_text : ResolveError → List ℕ
error_text target_missing = codes "navigation target is missing"
error_text action_not_allowed = codes "navigation action is not allowed"
error_text app_not_allowed = codes "provider application is not allow-listed"
error_text target_unavailable = codes "navigation target is unavailable"

-- strings.EqualFold(s, word), for the words of this program: no letter of theirs folds outside ASCII
unfoldable pub equal_fold : List ℕ → String → Bool
equal_fold s word = codes_eq (to_lower s) (to_lower (codes word))

abbrev pub trimmed : String → List ℕ
trimmed s = trim_space (codes s)

unfoldable pub known_provider_app : String → String → Bool
known_provider_app provider app =
    let name = to_lower (trimmed provider) in
    if codes_eq name (codes "codex")
    then equal_fold (trimmed app) "Codex"
    else if codes_eq name (codes "claude-code") || codes_eq name (codes "claude")
    then equal_fold (trimmed app) "Claude"
    else false

unfoldable pub check_target :
    NavigationAction → NavigationTarget → Result ResolveError NavigationTarget
check_target action t =
    if not (contains_action t.allowed_actions action)
    then err action_not_allowed
    else if is_agent_kind t.kind
        && not (known_provider_app t.detail.provider t.detail.preferred_app)
    then err app_not_allowed
    else ok t

unfoldable pub resolve_in : Action → List NavigationTarget → Result ResolveError NavigationTarget
resolve_in action [] = err target_unavailable
resolve_in action (t ∷ targets) =
    let rest = resolve_in action targets in
    if str_eq t.target_id action.target_id then check_target action.action t else rest

unfoldable pub resolve : InternalRootState → Action → Result ResolveError NavigationTarget
resolve root action =
    if str_eq action.target_id ""
    then err target_missing
    else resolve_in action root.navigation_targets

abbrev pub is_hex : ℕ → Bool
is_hex c = between b'0' b'9' c || between b'a' b'f' c || between b'A' b'F' c

abbrev pub is_dash_index : ℕ → Bool
is_dash_index i = i == 8 || i == 13 || i == 18 || i == 23

-- The walk over the characters, from an index on; the source's index is that of a byte, which is the same
-- up to the first character outside ASCII, where both refuse.
unfoldable pub is_conversation_id : ℕ → List ℕ → Bool
is_conversation_id i [] = true
is_conversation_id i (c ∷ cs) =
    (if is_dash_index i then c == b'-' else is_hex c) && is_conversation_id (suc i) cs

unfoldable pub codex_conversation_url : String → Option (List ℕ)
codex_conversation_url session_id =
    let id = trimmed session_id in
    if not (bytes id == 36)
    then none
    else if is_conversation_id 0 id
    then some (codes "codex://threads/" ++ id)
    else none

-- The command `open`, with a link, or with `-a` and an application.
pub data Command : Type 0 where
  open_link : List ℕ → Command
  open_app : List ℕ → Command

-- The result, with its text as code points.
pub record Executed : Type 0 where
  pub succeeded : Bool
  pub message : List ℕ

abbrev pub failed_with : List ℕ → Executed
failed_with message = record { succeeded = false; message = message }

abbrev pub done_with : List ℕ → Executed
done_with message = record { succeeded = true; message = message }

unfoldable pub activate : (Command → Bool) → List ℕ → List Command × Executed
activate run app = (
  open_app app ∷ [],
  if run (open_app app)
      then done_with (app ++ codes " activated")
      else failed_with (codes "provider application could not be activated"),
)

abbrev pub after : Command → List Command × Executed → List Command × Executed
after c (commands, outcome) = (c ∷ commands, outcome)

unfoldable pub open_conversation :
    (Command → Bool) → Option (List ℕ) → List ℕ → List Command × Executed
open_conversation run none app = activate run app
open_conversation run (some link) app =
    if run (open_link link)
    then (open_link link ∷ [], done_with (codes "Codex conversation activated"))
    else after (open_link link) (activate run app)

unfoldable pub focus_agent : (Command → Bool) → NavigationTargetDetail → List Command × Executed
focus_agent run detail =
    let app = trimmed detail.preferred_app in
    if codes_eq app []
    then ([], failed_with (codes "provider application is unavailable"))
    else if equal_fold (trimmed detail.provider) "codex"
    then open_conversation run (codex_conversation_url detail.session_id) app
    else activate run app

-- The commands that are run, in their order, and the result.
unfoldable pub execute :
    (Command → Bool) → Bool → InternalRootState → Action → List Command × Executed
execute run darwin root action = elim (resolve root action) [
  | err e ↦ ([], failed_with (error_text e))
  | ok target ↦
      if not (action_eq action.action NavigationAction.focus_agent)
      then ([], failed_with (codes "navigation action is not implemented on this host"))
      else if not darwin
      then ([], failed_with (codes "provider application activation requires macOS"))
      else focus_agent run target.detail
]
