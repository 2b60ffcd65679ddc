-- ===== src/State/Projector/Exposed.antt =====
-- internal/state/projector.go: the targets that a public state shows.
use mathlib.Core.List.{Memᴰ}
use dev_board.Prelude.{
  ◌≡◌, ◌≢◌, refl, ap, String, str_eq, eq_iff, Bool, true, false, not, ◌||◌, Option, none, some,
  List, [], ◌∷◌, ◌++◌, map, All, if◌then◌else◌, arith, inl, inr, Bool-cases,
}
use dev_board.Prelude.Time.{Instant}
use dev_board.State.Root.{NavigationTarget, InternalRootState}
use dev_board.State.Public.{PublicAgent, PublicTask, PublicProject, PublicNavigationTarget}
use dev_board.State.Projector.{
  ProjectionConfig, navigation_if, matches_if, first_match, public_agent, public_task,
  public_project, project_public,
}
use dev_board.State.Projector.Targets.{
  valid_target, find_by_id, is_found, select_targets, public_target, agent_target_matches,
  task_target_matches, project_target_matches,
}

-- The target is one of the list, valid, and of the host.
abbrev pub IsOwnTarget : List NavigationTarget → String → NavigationTarget → Type 0
IsOwnTarget known host_id t = Memᴰ t known × (valid_target t ≡ true) × (t.host_id ≡ host_id)

-- What is shown is the public side of such a target.
abbrev pub IsPublished : List NavigationTarget → String → PublicNavigationTarget → Type 0
IsPublished known host_id n =
    (t : NavigationTarget) × (n ≡ public_target t) × IsOwnTarget known host_id t

All-append :
    (P : NavigationTarget → Type 0) (xs ys : List NavigationTarget)
    → All P xs
    → All P ys
    → All P (xs ++ ys)
All-append P [] ys h k = k
All-append P (x ∷ xs) ys h k = (h.0, All-append P xs ys h.1 k)

select_targets-IsOwnTarget :
    (known : List NavigationTarget) (host_id : String) (targets chosen : List NavigationTarget)
    → ((t : NavigationTarget) → Memᴰ t targets → Memᴰ t known)
    → All (IsOwnTarget known host_id) chosen
    → All (IsOwnTarget known host_id) (select_targets host_id targets chosen)
unfolding select_targets
select_targets-IsOwnTarget known host_id [] chosen k h = h
select_targets-IsOwnTarget known host_id (t ∷ targets) chosen k h =
    select_targets-IsOwnTarget known host_id targets
      (if is_dropped then chosen else chosen ++ t ∷ []) (λ u m. k u (Memᴰ.tail m))
      (elim (Bool-cases is_dropped) [
        | inl q ↦ rw q h
        | inr q ↦ rw q (All-append (IsOwnTarget known host_id) chosen (t ∷ []) h (own q, tt))
      ])
  where
    is_dropped : Bool
    is_dropped =
        not (valid_target t)
        || not (str_eq t.host_id host_id)
        || is_found (find_by_id t.target_id chosen)

    own : is_dropped ≡ false → IsOwnTarget known host_id t
    own q = (k t (Memᴰ.head refl), ground (arith, q), ground (arith, q, eq_iff t.host_id host_id))

All-IsPublished :
    (known : List NavigationTarget) (host_id : String) (ts : List NavigationTarget)
    → All (IsOwnTarget known host_id) ts
    → All (IsPublished known host_id) (map public_target ts)
All-IsPublished known host_id [] h = tt
All-IsPublished known host_id (t ∷ ts) h = ((t, refl, h.0), All-IsPublished known host_id ts h.1)

none≢target : {t : NavigationTarget} → ◌≢◌ {A = Option NavigationTarget} none (some t)
none≢target h = ground arith

mem-find_by_id :
    (id : String) (ts : List NavigationTarget) (t : NavigationTarget)
    → find_by_id id ts ≡ some t
    → Memᴰ t ts
unfolding find_by_id
mem-find_by_id id [] t h = elim (none≢target h) [ ]
mem-find_by_id id (u ∷ ts) t h = elim (Bool-cases (str_eq u.target_id id)) [
  | inl q ↦ Memᴰ.head (ground (arith, h, q))
  | inr q ↦ Memᴰ.tail (mem-find_by_id id ts t (ground (arith, h, q)))
]

mem-first_match :
    (p : NavigationTarget → Bool) (ts : List NavigationTarget) (t : NavigationTarget)
    → first_match p ts ≡ some t
    → Memᴰ t ts
unfolding first_match
mem-first_match p [] t h = elim (none≢target h) [ ]
mem-first_match p (u ∷ ts) t h = elim (Bool-cases (p u)) [
  | inl q ↦ Memᴰ.head (ground (arith, h, q))
  | inr q ↦ Memᴰ.tail (mem-first_match p ts t (ground (arith, h, q)))
]

mem-map :
    (ts : List NavigationTarget) (t : NavigationTarget)
    → Memᴰ t ts
    → Memᴰ (public_target t) (map public_target ts)
mem-map [] t m = elim m [ ]
mem-map (u ∷ ts) t (Memᴰ.head e) = Memᴰ.head (ap public_target e)
mem-map (u ∷ ts) t (Memᴰ.tail m) = Memᴰ.tail (mem-map ts t m)

-- A link, where there is one, is to a target that is listed.
abbrev pub Listed : List PublicNavigationTarget → Option PublicNavigationTarget → Type 0
Listed targets none = Unit
Listed targets (some n) = Memᴰ n targets

navigation_if-Listed :
    (b : Bool) (found : Option NavigationTarget) (ts : List NavigationTarget)
    → ((t : NavigationTarget) → found ≡ some t → Memᴰ t ts)
    → Listed (map public_target ts) (navigation_if b found)
navigation_if-Listed true none ts h = tt
navigation_if-Listed true (some t) ts h = mem-map ts t (h t refl)
navigation_if-Listed false found ts h = tt

All-mapped :
    {A B : Type 0} (P : B → Type 0) (f : A → B) (xs : List A)
    → ((x : A) → P (f x))
    → All P (map f xs)
All-mapped P f [] h = tt
All-mapped P f (x ∷ xs) h = (h x, All-mapped P f xs h)

-- The public state of a node links its agents, tasks and projects only to navigation targets that it
-- lists, and every target that it lists is the public side of one of the internal targets that is
-- valid and of the node's own host, in whatever order the targets are walked for a task.
pub project_public-Listed :
    (safe_navigation : Bool) (cfg : ProjectionConfig) (now : Instant)
    (walk : List NavigationTarget → List NavigationTarget) (root : InternalRootState)
    → ((ts : List NavigationTarget) (t : NavigationTarget) → Memᴰ t (walk ts) → Memᴰ t ts)
    → All
        (λ (a : PublicAgent).
          Listed (project_public safe_navigation cfg now walk root).navigation_targets a.navigation)
        (project_public safe_navigation cfg now walk root).agents
      × All
          (λ (t : PublicTask).
            Listed
              (project_public safe_navigation cfg now walk root).navigation_targets
              t.navigation)
          (project_public safe_navigation cfg now walk root).tasks
      × All
          (λ (p : PublicProject).
            Listed
              (project_public safe_navigation cfg now walk root).navigation_targets
              p.navigation)
          (project_public safe_navigation cfg now walk root).projects
      × All
          (IsPublished root.navigation_targets root.host.id)
          (project_public safe_navigation cfg now walk root).navigation_targets
unfolding project_public public_agent public_task public_project
project_public-Listed safe_navigation cfg now walk root w =
    let ts = select_targets root.host.id root.navigation_targets [] in
    (
      All-mapped (λ (a : PublicAgent). Listed (map public_target ts) a.navigation) (public_agent ts)
          root.agents
          (λ a.
            navigation_if-Listed
              (matches_if (agent_target_matches a) (find_by_id a.navigation_target_id ts))
              (find_by_id a.navigation_target_id ts) ts (mem-find_by_id a.navigation_target_id ts)),
      All-mapped (λ (t : PublicTask). Listed (map public_target ts) t.navigation)
          (public_task safe_navigation (walk ts)) root.tasks
          (λ t.
            navigation_if-Listed safe_navigation (first_match (task_target_matches t) (walk ts)) ts
              (λ u q. w ts u (mem-first_match (task_target_matches t) (walk ts) u q))),
      All-mapped (λ (p : PublicProject). Listed (map public_target ts) p.navigation)
          (public_project ts) root.projects
          (λ p.
            navigation_if-Listed
              (matches_if (project_target_matches p) (find_by_id p.navigation_target_id ts))
              (find_by_id p.navigation_target_id ts) ts (mem-find_by_id p.navigation_target_id ts)),
      All-IsPublished root.navigation_targets root.host.id ts (
          select_targets-IsOwnTarget root.navigation_targets root.host.id root.navigation_targets []
            (λ t m. m) tt),
    )
