-- ===== src/State/Store.antt =====
-- internal/state/store.go: the store of the internal state, its revision and the wake channel of one
-- slot. A clone of the state copies every value that is behind a pointer, a slice or a map, so it is
-- the state itself here. Each operation runs under the store's lock, so a run is a sequence of them.
pub mod Laws
use dev_board.Prelude.{
  ℕ, ◌+◌, ◌%◌, ◌≡◌, Bool, true, false, Option, none, some, if◌then◌else◌, Result, ok, err,
}
use dev_board.State.Root.{InternalRootState}

-- The revision is a uint64.
abbrev pub revision_mod : ℕ
revision_mod = 18446744073709551616

pub record Store : Type 0 where
  pub state : InternalRootState
  pub revision : ℕ
  -- the channel's slot holds a hint
  pub wake : Bool

unfoldable pub new_store : InternalRootState → Store
new_store initial = record { state = initial; revision = 0; wake = false }

-- The send gives up where the slot is taken.
unfoldable pub notify_changed : Store → Store
notify_changed s = record s { revision = (s.revision + 1) % revision_mod; wake = true }

unfoldable pub replace : InternalRootState → Store → Store
replace next s = notify_changed (record s { state = next })

module _ {ℓ} {E : Type ℓ} where
  unfoldable pub finish_update : Store → Result E InternalRootState → Result E (Unit {0}) × Store
  finish_update s (err e) = (err e, s)
  finish_update s (ok next) = (ok tt, notify_changed (record s { state = next }))

  unfoldable pub update :
      (InternalRootState → Result E InternalRootState) → Store → Result E (Unit {0}) × Store
  update fn s = finish_update s (fn s.state)

  unfoldable pub update_if :
      Option (InternalRootState → Bool)
      → (InternalRootState → Result E InternalRootState)
      → Store
      → Result E (Unit {0}) × Store
  update_if none fn s = update fn s
  update_if (some predicate) fn s = if predicate s.state then update fn s else (ok tt, s)

-- A reader takes the hint, when there is one.
unfoldable pub take_wake : Store → Bool × Store
take_wake s = (s.wake, record s { wake = false })
