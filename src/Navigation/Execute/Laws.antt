-- ===== src/Navigation/Execute/Laws.antt =====
-- internal/navigation/navigation.go: the commands that an action may run.
use dev_board.Prelude.{
  ℕ, ◌≡◌, ◌⊎◌, inl, inr, refl, subst, String, str_eq, Bool, true, Option, none, some, List, [], ◌∷◌,
  ◌++◌, All, ==_iff, ok, arith, Bool-cases, Result-cases,
}
use dev_board.Prelude.Text.{codes, codes_eq}
use dev_board.State.Enums.{NavigationAction, NavigationKind, action_eq}
use dev_board.State.Root.{NavigationTarget, NavigationTargetDetail, InternalRootState}
use dev_board.State.Projector.Targets.{
  contains_action, is_agent_kind, actions_allowed, action_allowed, valid_target,
}
use dev_board.Agent.Sanitize.{bytes}
use dev_board.Navigation.{Action}
use dev_board.Navigation.Execute.{
  equal_fold, trimmed, known_provider_app, check_target, resolve_in, resolve, is_conversation_id,
  codex_conversation_url, Command, open_link, open_app, activate, open_conversation, focus_agent,
  execute,
}

-- What the host may be asked to open: the conversation of an identifier of 36 bytes, hexadecimal but for
-- its dashes, or one of the two applications.
abbrev pub IsSafe : Command → Type 0
IsSafe (open_link link) =
    (id : List ℕ) × (link ≡ codes "codex://threads/" ++ id)
    × (bytes id ≡ 36)
    × (is_conversation_id 0 id ≡ true)
IsSafe (open_app app) = (equal_fold app "Codex" ≡ true) ⊎ (equal_fold app "Claude" ≡ true)

focuses_agent_only :
    (kind : NavigationKind) (actions : List NavigationAction)
    → actions_allowed kind actions ≡ true
    → contains_action actions NavigationAction.focus_agent ≡ true
    → is_agent_kind kind ≡ true
unfolding actions_allowed contains_action
focuses_agent_only kind [] h c = ground arith
focuses_agent_only kind (a ∷ actions) h c =
    ground (arith, focuses_agent_only kind actions, one kind a)
  where
    one :
        (k : NavigationKind) (b : NavigationAction)
        → action_allowed k b ≡ true
        → action_eq b NavigationAction.focus_agent ≡ true
        → is_agent_kind k ≡ true
    one k b p q = ground (arith, p, q)

known_provider_app-fold :
    (provider app : String)
    → known_provider_app provider app ≡ true
    → (equal_fold (trimmed app) "Codex" ≡ true) ⊎ (equal_fold (trimmed app) "Claude" ≡ true)
unfolding known_provider_app
known_provider_app-fold provider app h = ground (arith, h)

-- The target is allowed the action and, where it is an agent's, opens a known application.
abbrev Allowed : NavigationAction → NavigationTarget → Type 0
Allowed action t =
    (valid_target t ≡ true)
    × (contains_action t.allowed_actions action ≡ true)
    × (is_agent_kind t.kind ≡ true
        → known_provider_app t.detail.provider t.detail.preferred_app ≡ true)

check_target-Allowed :
    (action : NavigationAction) (t u : NavigationTarget)
    → valid_target t ≡ true
    → check_target action t ≡ ok u
    → Allowed action u
unfolding check_target
check_target-Allowed action t u v h =
    subst (Allowed action) (ground (arith, h)) (v, ground (arith, h), (λ k. ground (arith, h, k)))

resolve_in-Allowed :
    (action : Action) (targets : List NavigationTarget) (u : NavigationTarget)
    → All (λ (t : NavigationTarget). valid_target t ≡ true) targets
    → resolve_in action targets ≡ ok u
    → Allowed action.action u
unfolding resolve_in
resolve_in-Allowed action [] u v h = ground arith
resolve_in-Allowed action (t ∷ targets) u v h =
    elim (Bool-cases (str_eq t.target_id action.target_id)) [
      | inl q ↦ check_target-Allowed action.action t u v.0 (ground (arith, h, q))
      | inr q ↦ resolve_in-Allowed action targets u v.1 (ground (arith, h, q))
    ]

codex_conversation_url-IsSafe :
    (session_id : String) (link : List ℕ)
    → codex_conversation_url session_id ≡ some link
    → IsSafe (open_link link)
unfolding codex_conversation_url
codex_conversation_url-IsSafe session_id link h = (
  trimmed session_id,
  ground (arith, h),
  (==_iff (bytes (trimmed session_id)) 36).0 (ground (arith, h)),
  ground (arith, h),
)

resolve-Allowed :
    (root : InternalRootState) (action : Action) (u : NavigationTarget)
    → All (λ (t : NavigationTarget). valid_target t ≡ true) root.navigation_targets
    → resolve root action ≡ ok u
    → Allowed action.action u
unfolding resolve
resolve-Allowed root action u v h =
    resolve_in-Allowed action root.navigation_targets u v (ground (arith, h))

activate-IsSafe :
    (run : Command → Bool) (app : List ℕ) → IsSafe (open_app app) → All IsSafe (activate run app).0
unfolding activate
activate-IsSafe run app h = (h, tt)

open_conversation-IsSafe :
    (run : Command → Bool) (link : Option (List ℕ)) (app : List ℕ)
    → ((l : List ℕ) → link ≡ some l → IsSafe (open_link l))
    → IsSafe (open_app app)
    → All IsSafe (open_conversation run link app).0
unfolding open_conversation
open_conversation-IsSafe run none app l h = activate-IsSafe run app h
open_conversation-IsSafe run (some link) app l h = elim (Bool-cases (run (open_link link))) [
  | inl q ↦ rw q (l link refl, tt)
  | inr q ↦ rw q (l link refl, activate-IsSafe run app h)
]

focus_agent-IsSafe :
    (run : Command → Bool) (detail : NavigationTargetDetail)
    → known_provider_app detail.provider detail.preferred_app ≡ true
    → All IsSafe (focus_agent run detail).0
unfolding focus_agent
focus_agent-IsSafe run detail k =
    let app = trimmed detail.preferred_app in
    let known = known_provider_app-fold detail.provider detail.preferred_app k in
    elim (Bool-cases (codes_eq app [])) [
      | inl q ↦ rw q tt
      | inr q ↦ elim (Bool-cases (equal_fold (trimmed detail.provider) "codex")) [
        | inl c ↦
            rw (q, c)
              (open_conversation-IsSafe run (codex_conversation_url detail.session_id) app
                (codex_conversation_url-IsSafe detail.session_id) known)
        | inr c ↦ rw (q, c) (activate-IsSafe run app known)
      ]
    ]

resolved_app :
    (root : InternalRootState) (action : Action) (t : NavigationTarget)
    → All (λ (u : NavigationTarget). valid_target u ≡ true) root.navigation_targets
    → resolve root action ≡ ok t
    → action_eq action.action NavigationAction.focus_agent ≡ true
    → known_provider_app t.detail.provider t.detail.preferred_app ≡ true
unfolding valid_target
resolved_app root action t v q a =
    let (valid, allowed, known) = resolve-Allowed root action t v q in
    known (
      focuses_agent_only t.kind t.allowed_actions (ground (arith, valid)) (
        subst (λ x. contains_action t.allowed_actions x ≡ true) (is_focus action.action a) allowed))
  where
    is_focus :
        (x : NavigationAction)
        → action_eq x NavigationAction.focus_agent ≡ true
        → x ≡ NavigationAction.focus_agent
    is_focus x h = ground (arith, h)

-- Where every navigation target of the host is valid, an action, whatever it names, runs only commands
-- that open a Codex conversation of an identifier of 36 bytes, hexadecimal but for its dashes, or one
-- of the applications Codex and Claude, whatever the operating system answers.
pub execute-IsSafe :
    (run : Command → Bool) (darwin : Bool) (root : InternalRootState) (action : Action)
    → All (λ (t : NavigationTarget). valid_target t ≡ true) root.navigation_targets
    → All IsSafe (execute run darwin root action).0
unfolding execute
execute-IsSafe run darwin root action v = elim (Result-cases (resolve root action)) [
  | inr (e, q) ↦ rw (q, execute) tt
  | inl (t, q) ↦ elim (Bool-cases (action_eq action.action NavigationAction.focus_agent)) [
    | inr a ↦ rw (q, a, execute) tt
    | inl a ↦ elim (Bool-cases darwin) [
      | inr d ↦ rw (q, a, d, execute) tt
      | inl d ↦
          rw (q, a, d, execute) (focus_agent-IsSafe run t.detail (resolved_app root action t v q a))
    ]
  ]
]
