-- ===== src/Hub/Dashboard/Laws.antt =====
-- internal/hub/store.go, the read side: which hosts the dashboard shows, and for how long.
use dev_board.Prelude.{
  ℕ, ◌-◌, ◌≤◌, ◌≡◌, ◌≢◌, ◌↔◌, inl, inr, String, Option, none, some, arith, Option-cases,
}
use dev_board.Prelude.Time.{Instant}
use dev_board.State.Public.{PublicState}
use dev_board.Hub.Validation.{online_window, retention_window}
use dev_board.Hub.Registry.{Node}
use dev_board.Hub.Store.{NodeRecord, NodeStateStore}
use dev_board.Hub.Dashboard.{
  HostStatus, online, stale, snapshot_fresh, connection_status, retained_state, host_snapshot,
}

abbrev pub age_rank : HostStatus → ℕ
age_rank online = 0
age_rank stale = 1
age_rank _ = 2

-- While nothing is received a node only goes from online to stale to offline, whatever the times at
-- which the dashboard is read.
pub connection_status-ages :
    (received : Option Instant) (now later : Instant)
    → now ≤ later
    → age_rank (connection_status received now) ≤ age_rank (connection_status received later)
unfolding connection_status
connection_status-ages none now later h = omega arith
connection_status-ages (some at) now later h = ground arith

-- A state is held and was received at most `window` ago.
abbrev pub ReceivedWithin : ℕ → NodeRecord → Instant → Type 0
ReceivedWithin window rec now =
    (p : PublicState) × (at : Instant) × (rec.state ≡ some p)
    × (rec.last_received_at ≡ some at)
    × (now - at ≤ window)

module _ (clone : PublicState → Option PublicState) where
  -- The dashboard shows a state of the node exactly while it holds one that was received at most 30
  -- minutes ago, and calls it fresh exactly when it is shown and was received at most 5 seconds ago.
  -- The copy of a held state is assumed to succeed.
  pub shown_iff :
      (s : NodeStateStore) (now : Instant) (id : String) (node : Node) (rec : NodeRecord)
      (copy : PublicState → PublicState)
      → ((p : PublicState) → clone p ≡ some (copy p))
      → let h = host_snapshot clone s now id node rec in
        ((h.state ≢ none) ↔ ReceivedWithin retention_window rec now)
        × ((h.snapshot_freshness ≡ some snapshot_fresh) ↔ ReceivedWithin online_window rec now)
  unfolding host_snapshot retained_state connection_status
  shown_iff s now id node rec copy c = elim (Option-cases rec.last_received_at) [
    | inl e ↦
        (((λ h. ground arith), (λ h. ground arith)), ((λ h. ground arith), (λ h. ground arith)))
    | inr (at, e) ↦ elim (Option-cases rec.state) [
      | inl f ↦
          (((λ h. ground arith), (λ h. ground arith)), ((λ h. ground arith), (λ h. ground arith)))
      | inr (p, f) ↦ (
        ((λ h. ground (arith, c p)), (λ h. ground (arith, c p))),
        ((λ h. ground (arith, c p)), (λ h. ground (arith, c p))),
      )
    ]
  ]
