-- ===== src/Hub/Actions/Permitted.antt =====
-- internal/hub/actions.go, `EnqueueNavigationForTask`: what the tests before the queue establish.
use dev_board.Prelude.{
  ◌≡◌, refl, sym, ◌∙◌, ◌⊎◌, true, ◌&&◌, inl, inr, String, str_eq, eq_iff, Option, none, some, List,
  [], ◌∷◌, ap, ok, arith, Option-cases, Bool-cases,
}
use mathlib.Core.List.{Memᴰ}
use dev_board.State.Enums.{NavigationAction, action_eq}
use dev_board.State.Public.{PublicState, PublicTask, PublicNavigationTarget}
use dev_board.Hub.Registry.{Node, registry_lookup}
use dev_board.Hub.Store.{NodeStateStore, held_state, names_target}
use dev_board.Hub.Actions.{
  find_target, contains_navigation_action, has_navigable_task, allows, is_enabled, may_navigate,
}

-- A state that a node has shown lets the action happen: it enables navigation, lists a target of the id
-- that allows the action, and, where a task is named, has it linked to the target.
abbrev pub Offers : PublicState → String → String → NavigationAction → Type 0
Offers shown target task action =
    (shown.meta.safe_navigation_enabled ≡ true)
    × ((t : PublicNavigationTarget) × Memᴰ t shown.navigation_targets
        × (t.target_id ≡ target)
        × ((a : NavigationAction) × Memᴰ a t.allowed_actions × (action_eq a action ≡ true)))
    × ((task ≡ "")
        ⊎ ((k : PublicTask) × Memᴰ k shown.tasks
            × (k.id ≡ task)
            × (names_target k.navigation target ≡ true)))

find_target-mem :
    (target : String) (ts : List PublicNavigationTarget) (t : PublicNavigationTarget)
    → find_target target ts ≡ some t
    → Memᴰ t ts × (t.target_id ≡ target)
unfolding find_target
find_target-mem target [] t h = ground arith
find_target-mem target (u ∷ ts) t h = elim (Bool-cases (str_eq u.target_id target)) [
  | inl q ↦
      let same : u ≡ t = ground (arith, h, q) in
      (
        Memᴰ.head (sym same),
        ap (λ (x : PublicNavigationTarget). x.target_id) (sym same)
            ∙ (eq_iff u.target_id target).0 q,
      )
  | inr q ↦ let (m, e) = find_target-mem target ts t (ground (arith, h, q)) in (Memᴰ.tail m, e)
]

contains-mem :
    (actions : List NavigationAction) (action : NavigationAction)
    → contains_navigation_action actions action ≡ true
    → (a : NavigationAction) × Memᴰ a actions × (action_eq a action ≡ true)
unfolding contains_navigation_action
contains-mem [] action h = ground arith
contains-mem (a ∷ actions) action h = elim (Bool-cases (action_eq a action)) [
  | inl q ↦ (a, Memᴰ.head refl, q)
  | inr q ↦
      let (b, m, e) = contains-mem actions action (ground (arith, h, q)) in (b, Memᴰ.tail m, e)
]

has_navigable_task-mem :
    (task target : String) (tasks : List PublicTask)
    → has_navigable_task task target tasks ≡ true
    → (k : PublicTask) × Memᴰ k tasks × (k.id ≡ task) × (names_target k.navigation target ≡ true)
unfolding has_navigable_task
has_navigable_task-mem task target [] h = ground arith
has_navigable_task-mem task target (k ∷ tasks) h =
    elim (Bool-cases (str_eq k.id task && names_target k.navigation target)) [
      | inl q ↦ (k, Memᴰ.head refl, ground (arith, q, eq_iff k.id task), ground (arith, q))
      | inr q ↦
          let (j, m, e, n) = has_navigable_task-mem task target tasks (ground (arith, h, q)) in
          (j, Memᴰ.tail m, e, n)
    ]

allowed_target :
    (found : Option PublicNavigationTarget) (action : NavigationAction)
    → allows found action ≡ true
    → (t : PublicNavigationTarget) × (found ≡ some t)
      × (contains_navigation_action t.allowed_actions action ≡ true)
allowed_target none action h = ground arith
allowed_target (some t) action h = (t, refl, h)

enabled_node :
    (found : Option Node)
    → is_enabled found ≡ true
    → (node : Node) × (found ≡ some node) × (node.enabled ≡ true)
enabled_node none h = ground arith
enabled_node (some node) h = (node, refl, h)

module _ (clone : PublicState → Option PublicState) where
  -- The host is an enabled node, and the copy of the state that is held of it offers the action.
  abbrev pub Permitted : NodeStateStore → String → String → String → NavigationAction → Type 0
  Permitted s host target task action =
      ((node : Node) × (registry_lookup s.registry host ≡ some node) × (node.enabled ≡ true))
      × ((held : PublicState) × (held_state s host ≡ some held)
          × ((shown : PublicState) × (clone held ≡ some shown) × Offers shown target task action))

  pub may_navigate-Permitted :
      (s : NodeStateStore) (host target task : String) (action : NavigationAction)
      → may_navigate clone s host target task action ≡ ok tt
      → Permitted s host target task action
  unfolding may_navigate
  may_navigate-Permitted s host target task action h =
      let on : is_enabled (registry_lookup s.registry host) ≡ true = ground (arith, h) in
      elim (Option-cases (held_state s host)) [
        | inl q ↦ ground (arith, h, q)
        | inr (held, q) ↦ elim (Option-cases (clone held)) [
          | inl c ↦ ground (arith, h, q, c)
          | inr (shown, c) ↦
              let (t, f, a) =
                allowed_target (find_target target shown.navigation_targets) action
                  (ground (arith, h, q, c)) in
              let (m, id) = find_target-mem target shown.navigation_targets t f in
              (
                enabled_node (registry_lookup s.registry host) on,
                (
                  held,
                  q,
                  (
                    shown,
                    c,
                    (
                      ground (arith, h, q, c),
                      (t, m, id, contains-mem t.allowed_actions action a),
                      elim (Bool-cases (str_eq task "")) [
                        | inl e ↦ inl ((eq_iff task "").0 e)
                        | inr e ↦ inr (
                            has_navigable_task-mem task target shown.tasks
                              (ground (arith, h, q, c, e)))
                      ],
                    ),
                  ),
                ),
              )
        ]
      ]
