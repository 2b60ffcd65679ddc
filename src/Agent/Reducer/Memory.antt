-- ===== src/Agent/Reducer/Memory.antt =====
-- internal/agent/reducer.go: the bounded memory of the reducer.
use dev_board.Prelude.{
  ℕ, suc, ◌≤◌, ◌≡◌, refl, sym, ap, ◌∙◌, String, str_eq, eq_iff, Bool, false, not, ◌&&◌, ◌||◌, none,
  List, [], ◌∷◌, ◌++◌, ltb, length, arith, Bool-cases, inl, inr, Option-cases,
}
use dev_board.Prelude.Dict.{Dict, lookup, insert, delete, contains_key, contains, contains-append}
use dev_board.Agent.Reducer.{SessionMeta, new_session}
use dev_board.Agent.Reducer.Submit.{
  Reducer, forget, evict, remember_event_id, session_for, write_session,
}

-- No text stands twice in the list.
unfoldable pub IsDistinct : List String → Type 0
IsDistinct [] = Unit
IsDistinct (x ∷ xs) = (contains x xs ≡ false) × IsDistinct xs

IsDistinct-append :
    (xs : List String) (x : String)
    → IsDistinct xs
    → contains x xs ≡ false
    → IsDistinct (xs ++ x ∷ [])
unfolding IsDistinct contains
IsDistinct-append [] x d n = (refl, tt)
IsDistinct-append (y ∷ xs) x d n = (
  ground (arith, contains-append y xs (x ∷ []), eq_iff x y, eq_iff y x),
  IsDistinct-append xs x d.1 (ground arith),
)

contains-forget :
    (old id : String) (seen : List String)
    → contains id (forget old seen) ≡ (contains id seen && not (str_eq id old))
unfolding forget contains
contains-forget old id [] = refl
contains-forget old id (s ∷ seen) =
    ground (arith, contains-forget old id seen, eq_iff s old, eq_iff s id, eq_iff id old)

-- The set holds what the list does.
abbrev pub Tracks : List String → (String → Bool) → Type 0
Tracks order holds = (id : String) → holds id ≡ contains id order

-- The list within its limit, and the set of the same texts.
abbrev pub IsMemory : ℕ → List String → (String → Bool) → Type 0
IsMemory max order holds = (length order ≤ max) × IsDistinct order × Tracks order holds

Tracks-drop :
    (old : String) (order : List String) (holds kept : String → Bool)
    → IsDistinct (old ∷ order)
    → Tracks (old ∷ order) holds
    → ((id : String) → kept id ≡ (holds id && not (str_eq id old)))
    → Tracks order kept
unfolding IsDistinct contains
Tracks-drop old order holds kept d t k id = ground (arith, t id, k id, eq_iff old id, eq_iff id old)

-- A set of texts, from which one can be taken.
abbrev pub Removes {ℓ} : {S : Type ℓ} → (String → S → Bool) → (String → S → S) → Type ℓ
Removes holds remove =
    (old id : String) (s : _) → holds id (remove old s) ≡ (holds id s && not (str_eq id old))

module _ {ℓ} {S : Type ℓ} (holds : String → S → Bool) (remove : String → S → S) where
  pub evict-IsMemory :
      (max : ℕ) (order : List String) (s : S)
      → Removes holds remove
      → IsDistinct order
      → Tracks order (λ id. holds id s)
      → IsMemory max (evict remove max order s).0 (λ id. holds id (evict remove max order s).1)
  unfolding evict IsDistinct
  evict-IsMemory max [] s r d t = (omega arith, d, t)
  evict-IsMemory max (old ∷ order) s r d t = elim (Bool-cases (ltb max (length (old ∷ order)))) [
    | inl q ↦ rw q (
        evict-IsMemory max order (remove old s) r d.1 (
          Tracks-drop old order (λ id. holds id s) (λ id. holds id (remove old s)) d t
            (λ id. r old id s)))
    | inr q ↦ rw q (ground arith, d, t)
  ]

  -- The newest texts stay, where the limit leaves room for them.
  pub evict-newest :
      (max : ℕ) (front back : List String) (id : String) (s : S)
      → suc (length back) ≤ max
      → (rest : List String) × ((evict remove max (front ++ id ∷ back) s).0 ≡ rest ++ id ∷ back)
  unfolding evict
  evict-newest max [] back id s h =
      let fits : ltb max (length (id ∷ back)) ≡ false = ground (arith, h) in
      ([], rw (fits, evict) refl)
  evict-newest max (old ∷ front) back id s h =
      elim (Bool-cases (ltb max (length (old ∷ front ++ id ∷ back)))) [
        | inl q ↦
            let (rest, e) = evict-newest max front back id (remove old s) h in
            (rest, rw (q, evict) e)
        | inr q ↦ (old ∷ front, rw (q, evict) refl)
      ]

contains_key-insert :
    (k j : String) (v : SessionMeta) (m : Dict SessionMeta)
    → contains_key j (insert k v m) ≡ (str_eq k j || contains_key j m)
unfolding contains_key insert
contains_key-insert k j v [] = ground arith
contains_key-insert k j v ((i, w) ∷ m) =
    ground (arith, contains_key-insert k j v m, eq_iff i k, eq_iff i j, eq_iff k j)

contains_key-delete :
    (k j : String) (m : Dict SessionMeta)
    → contains_key j (delete k m) ≡ (contains_key j m && not (str_eq j k))
unfolding contains_key delete
contains_key-delete k j [] = refl
contains_key-delete k j ((i, w) ∷ m) =
    ground (arith, contains_key-delete k j m, eq_iff i k, eq_iff i j, eq_iff j k)

contains_key-lookup :
    (k : String) (m : Dict SessionMeta) → lookup k m ≡ none → contains_key k m ≡ false
unfolding contains_key lookup
contains_key-lookup k [] h = refl
contains_key-lookup k ((i, w) ∷ m) h = ground (arith, contains_key-lookup k m)

pub contains_key-write_session :
    (key j : String) (v : SessionMeta) (m : Dict SessionMeta)
    → contains_key j (write_session key v m) ≡ contains_key j m
unfolding write_session
contains_key-write_session key j v m =
    ground (arith, contains_key-insert key j v m, ap (λ k. contains_key k m), eq_iff key j)

-- The memory of the reducer is within the limits of its configuration, and holds what the orders say.
abbrev pub IsBounded : Reducer → Type 0
IsBounded r =
    IsMemory r.cfg.max_seen_event_ids r.seen_order (λ id. contains id r.seen)
    × IsMemory r.cfg.max_sessions r.session_order (λ key. contains_key key r.sessions)

Tracks-append :
    (order : List String) (id : String) (holds more : String → Bool)
    → Tracks order holds
    → ((j : String) → more j ≡ (str_eq id j || holds j))
    → Tracks (order ++ id ∷ []) more
unfolding contains
Tracks-append order id holds more t k j =
    ground (arith, contains-append j order (id ∷ []), t j, k j)

pub remember_event_id-IsBounded :
    (id : String) (r : Reducer)
    → contains id r.seen ≡ false
    → IsBounded r
    → IsBounded (remember_event_id id r)
unfolding remember_event_id contains
remember_event_id-IsBounded id r n ((len, d, t), s) = (
  evict-IsMemory (λ j seen. contains j seen) forget r.cfg.max_seen_event_ids
      (r.seen_order ++ id ∷ []) (id ∷ r.seen) (λ old j seen. contains-forget old j seen)
      (IsDistinct-append r.seen_order id d (sym (t id) ∙ n))
      (Tracks-append r.seen_order id (λ j. contains j r.seen) (λ j. contains j (id ∷ r.seen)) t
        (λ j. refl)),
  s,
)

pub session_for-IsBounded :
    (key : String) (r : Reducer) → IsBounded r → IsBounded (session_for key r).0
unfolding session_for
session_for-IsBounded key r (s, (len, d, t)) = elim (Option-cases (lookup key r.sessions)) [
  | inr (m, q) ↦ rw (q, session_for) (s, (len, d, t))
  | inl q ↦
      rw (q, session_for)
        (
          s,
          evict-IsMemory (λ j sessions. contains_key j sessions) delete r.cfg.max_sessions
              (r.session_order ++ key ∷ []) (insert key new_session r.sessions)
              (λ old j sessions. contains_key-delete old j sessions)
              (IsDistinct-append r.session_order key d
                (sym (t key) ∙ contains_key-lookup key r.sessions q))
              (Tracks-append r.session_order key (λ j. contains_key j r.sessions)
                (λ j. contains_key j (insert key new_session r.sessions)) t
                (λ j. contains_key-insert key j new_session r.sessions)),
        )
]
