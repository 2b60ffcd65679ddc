-- ===== src/Multihost/Shown.antt =====
-- internal/multihost/store.go: what is shown of a peer after a poll that failed.
use dev_board.Prelude.{
  ◌≡◌, ◌≢◌, refl, sym, ap, subst, ◌∙◌, String, true, Option, none, some, Result, ok, arith,
}
use dev_board.Prelude.Dict.{lookup, insert, lookup-insert_self}
use dev_board.Prelude.Time.{Instant}
use dev_board.State.Public.{PublicState}
use dev_board.Hub.Dashboard.{HostStatus, SnapshotFreshness, snapshot_fresh, snapshot_stale}
use dev_board.Multihost.Peers.{
  PeerRecord, PeerSnapshotStore, unknown_peer, after_failed, mark_failure, holds_state, retained,
  peer_freshness, record_or_zero, shown, peer_host,
}
use dev_board.Multihost.Poller.{or_same}

abbrev freshness_of :
    Option PublicState → (PublicState → SnapshotFreshness) → Option SnapshotFreshness
freshness_of state f = elim state [ none ↦ none | some copy ↦ some (f copy) ]

never_fresh :
    (state : Option PublicState) (f : PublicState → SnapshotFreshness)
    → ((copy : PublicState) → f copy ≡ snapshot_stale)
    → freshness_of state f ≢ some snapshot_fresh
never_fresh none f h q = ground arith
never_fresh (some copy) f h q = stale_is_not_fresh (ap some (sym (h copy)) ∙ q)
  where
    stale_is_not_fresh : some snapshot_stale ≢ some snapshot_fresh
    stale_is_not_fresh e = ground arith

force_stale-peer_freshness :
    (rec : PeerRecord) (copy : PublicState) (now : Instant)
    → rec.force_stale ≡ true
    → peer_freshness rec copy now ≡ snapshot_stale
unfolding peer_freshness
force_stale-peer_freshness rec copy now h = ground arith

retained-none : (last : Option Instant) (now : Instant) → retained last none now ≡ none
unfolding retained
retained-none none now = refl
retained-none (some at) now = ground arith

failed_is_not_fresh :
    (clone_public_state : PublicState → Option PublicState) (good : Option PublicState)
    (last : Option Instant) (now : Instant) (f : PublicState → SnapshotFreshness)
    → (holds_state good ≡ true → (copy : PublicState) → f copy ≡ snapshot_stale)
    → freshness_of (shown clone_public_state (retained last good now)) f ≢ some snapshot_fresh
unfolding shown
failed_is_not_fresh clone_public_state (some s) last now f h =
    never_fresh (shown clone_public_state (retained last (some s) now)) f (h refl)
failed_is_not_fresh clone_public_state none last now f h =
    subst (λ o. freshness_of (shown clone_public_state o) f ≢ some snapshot_fresh)
      (sym (retained-none last now)) (λ q. ground arith)

-- What is shown of `rec` is still shown, but not as fresh.
abbrev Withheld :
    (PublicState → Option PublicState) → String → PeerRecord → Instant → PeerRecord → Type 0
Withheld clone_public_state id rec now after =
    ((peer_host clone_public_state id after now).state
      ≡ (peer_host clone_public_state id rec now).state)
    × ((peer_host clone_public_state id after now).snapshot_freshness ≢ some snapshot_fresh)

after_failed-Withheld :
    (clone_public_state : PublicState → Option PublicState) (id : String) (rec : PeerRecord)
    (at now : Instant) (status : HostStatus) (message : String)
    → Withheld clone_public_state id rec now (after_failed rec at status message)
unfolding peer_host after_failed
after_failed-Withheld clone_public_state id rec at now status message = (
  refl,
  failed_is_not_fresh clone_public_state rec.last_good rec.last_success_at now
      (λ copy. peer_freshness (after_failed rec at status message) copy now)
      (λ held copy. force_stale-peer_freshness (after_failed rec at status message) copy now held),
)

mark_failure-lookup :
    (id : String) (rec : PeerRecord) (at : Instant) (status : HostStatus) (message : String)
    (s next : PeerSnapshotStore)
    → lookup id s.records ≡ some rec
    → mark_failure id at status message s ≡ ok next
    → lookup id next.records ≡ some (after_failed rec at status message)
unfolding mark_failure
mark_failure-lookup id rec at status message s next l h =
    let new = after_failed rec at status message in
    let same : ok (record s { records = insert id new s.records }) ≡ ok next =
      sym (
        ap
          (λ o. elim o [
            | none ↦ Result.err unknown_peer
            | some r ↦
                ok (record s { records = insert id (after_failed r at status message) s.records })
          ])
          l)
      ∙ h in
    ap (λ r. lookup id (or_same s r).records) (sym same) ∙ lookup-insert_self id new s.records

-- After a failure is recorded of a peer that the store knows, the dashboard shows for the peer, at any
-- later or earlier instant, the same state as before, or none as before, and never as fresh.
pub mark_failure_shown :
    (clone_public_state : PublicState → Option PublicState) (id : String) (rec : PeerRecord)
    (at now : Instant) (status : HostStatus) (message : String) (s next : PeerSnapshotStore)
    → lookup id s.records ≡ some rec
    → mark_failure id at status message s ≡ ok next
    → ((peer_host clone_public_state id (record_or_zero (lookup id next.records)) now).state
        ≡ (peer_host clone_public_state id rec now).state)
      × ((peer_host clone_public_state id
            (record_or_zero (lookup id next.records))
            now).snapshot_freshness
          ≢ some snapshot_fresh)
mark_failure_shown clone_public_state id rec at now status message s next l h =
    subst (λ o. Withheld clone_public_state id rec now (record_or_zero o))
      (sym (mark_failure-lookup id rec at status message s next l h))
      (after_failed-Withheld clone_public_state id rec at now status message)
