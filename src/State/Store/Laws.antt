-- ===== src/State/Store/Laws.antt =====
-- internal/state/store.go: what a run of writers and readers does to the store.
use dev_board.Prelude.{
  ℕ, suc, ◌+◌, ◌%◌, ◌≤◌, ◌<◌, length, arith, ◌≡◌, ◌⊎◌, inl, inr, refl, Bool, true, Option, none,
  some, List, [], ◌∷◌, Result, All, ◌∙◌, Result-cases, Bool-cases,
}
use dev_board.State.Root.{InternalRootState}
use dev_board.State.Store.{
  revision_mod, Store, notify_changed, replace, finish_update, update, update_if, take_wake,
}

-- An operation on the store by one of its users.
pub data StoreOp {ℓ} (E : Type ℓ) : Type ℓ where
  replaced : InternalRootState → StoreOp E
  updated :
      Option (InternalRootState → Bool)
      → (InternalRootState → Result E InternalRootState)
      → StoreOp E
  woken : StoreOp E

-- A reader is up to date, or is told.
abbrev pub UpToDate : InternalRootState → ℕ → Store → Type 0
UpToDate read revision s = (s.wake ≡ true) ⊎ ((s.state ≡ read) × (s.revision ≡ revision))

-- A step that commits counts one, and any other leaves the state.
abbrev Counts : Store → Store → Type 0
Counts s t =
    ((t.state ≡ s.state) × (t.revision ≡ s.revision))
    ⊎ (t.revision ≡ (s.revision + 1) % revision_mod)

-- How often a run has committed.
abbrev Counted : ℕ → Store → Store → Type 0
Counted bound s t =
    (n : ℕ) × (n ≤ bound)
    × (t.revision ≡ (s.revision + n) % revision_mod)
    × (n ≡ 0 → t.state ≡ s.state)

module _ {ℓ} {E : Type ℓ} where
  abbrev pub store_step : StoreOp E → Store → Store
  store_step (replaced next) s = replace next s
  store_step (updated predicate fn) s = (update_if predicate fn s).1
  store_step woken s = (take_wake s).1

  abbrev pub store_run : List (StoreOp E) → Store → Store
  store_run [] s = s
  store_run (op ∷ ops) s = store_run ops (store_step op s)

  abbrev pub IsWriter : StoreOp E → Type 0
  IsWriter woken = ⊥
  IsWriter _ = Unit

  update-UpToDate :
      (fn : InternalRootState → Result E InternalRootState) (read : InternalRootState)
      (revision : ℕ) (s : Store)
      → UpToDate read revision s
      → UpToDate read revision (update fn s).1
  unfolding update finish_update notify_changed
  update-UpToDate fn read revision s h = elim (Result-cases (fn s.state)) [
    | inl (next, q) ↦ rw q (inl refl)
    | inr (e, q) ↦ rw q h
  ]

  step-UpToDate :
      (op : StoreOp E) (read : InternalRootState) (revision : ℕ) (s : Store)
      → IsWriter op
      → UpToDate read revision s
      → UpToDate read revision (store_step op s)
  unfolding replace notify_changed update_if
  step-UpToDate (replaced next) read revision s w h = inl refl
  step-UpToDate (updated none fn) read revision s w h = update-UpToDate fn read revision s h
  step-UpToDate (updated (some predicate) fn) read revision s w h =
      elim (Bool-cases (predicate s.state)) [
        | inl q ↦ rw (q, store_step) (update-UpToDate fn read revision s h)
        | inr q ↦ rw (q, store_step) h
      ]
  step-UpToDate woken read revision s w h = elim w [ ]

  run-UpToDate :
      (ops : List (StoreOp E)) (read : InternalRootState) (revision : ℕ) (s : Store)
      → All IsWriter ops
      → UpToDate read revision s
      → UpToDate read revision (store_run ops s)
  run-UpToDate [] read revision s w h = h
  run-UpToDate (op ∷ ops) read revision s w h =
      run-UpToDate ops read revision (store_step op s) w.1 (step-UpToDate op read revision s w.0 h)

  -- No change is lost on a reader that takes the hint and then reads the state: after any run of
  -- writers a hint waits for it, or the state and the revision are still those that it read.
  pub wake-UpToDate :
      (ops : List (StoreOp E)) (s : Store)
      → All IsWriter ops
      → UpToDate s.state s.revision (store_run ops (take_wake s).1)
  unfolding take_wake
  wake-UpToDate ops s w = run-UpToDate ops s.state s.revision (take_wake s).1 w (inr (refl, refl))

  update-Counts :
      (fn : InternalRootState → Result E InternalRootState) (s : Store) → Counts s (update fn s).1
  unfolding update finish_update notify_changed
  update-Counts fn s = elim (Result-cases (fn s.state)) [
    | inl (next, q) ↦ rw q (inr refl)
    | inr (e, q) ↦ rw q (inl (refl, refl))
  ]

  step-Counts : (op : StoreOp E) (s : Store) → Counts s (store_step op s)
  unfolding replace notify_changed take_wake update_if
  step-Counts (replaced next) s = inr refl
  step-Counts (updated none fn) s = update-Counts fn s
  step-Counts (updated (some predicate) fn) s = elim (Bool-cases (predicate s.state)) [
    | inl q ↦ rw (q, store_step) (update-Counts fn s)
    | inr q ↦ rw (q, store_step) (inl (refl, refl))
  ]
  step-Counts woken s = inl (refl, refl)

  run-Counted :
      (ops : List (StoreOp E)) (s : Store)
      → s.revision < revision_mod
      → Counted (length ops) s (store_run ops s)
  run-Counted [] s b = (0, omega arith, omega (arith, b), λ z. refl)
  run-Counted (op ∷ ops) s b = elim (step-Counts op s) [
    | inl (same, still) ↦
        let (n, le, rev, keeps) = run-Counted ops (store_step op s) (omega (arith, b, still)) in
        (n, omega (arith, le), omega (arith, rev, still), λ z. keeps z ∙ same)
    | inr counts ↦
        let (n, le, rev, keeps) = run-Counted ops (store_step op s) (omega (arith, counts)) in
        (suc n, omega (arith, le), omega (arith, rev, counts), λ z. ground (arith, z))
  ]

  -- A revision tells of a change: where fewer than 2^64 operations of any users have run since a reader
  -- read the store, and it finds the revision that it read, it finds the state that it read.
  pub revision-state :
      (ops : List (StoreOp E)) (s : Store)
      → s.revision < revision_mod
      → length ops < revision_mod
      → (store_run ops s).revision ≡ s.revision
      → (store_run ops s).state ≡ s.state
  revision-state ops s b l h =
      let (n, le, rev, keeps) = run-Counted ops s b in keeps (omega (arith, b, l, le, rev, h))
