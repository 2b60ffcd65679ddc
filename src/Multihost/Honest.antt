-- ===== src/Multihost/Honest.antt =====
-- internal/multihost: what the store holds over any run of polls.
use dev_board.Prelude.{
  ℕ, ◌≡◌, ◌≢◌, inl, inr, refl, sym, subst, ◌∙◌, String, eq_iff, Bool, true, false, Option, none,
  some, List, [], ◌∷◌, arith, Bool-cases, Option-cases, ◌==◌, ltb, length,
}
use dev_board.Prelude.Dict.{lookup, insert, lookup-insert_cases}
use dev_board.Prelude.Time.{Instant}
use dev_board.State.Public.{PublicState}
use dev_board.Hub.Dashboard.{HostStatus, degraded, unavailable}
use dev_board.Multihost.Peers.{
  PeerConfig, PeerRecord, PeerSnapshotStore, new_record, add_peers, new_peer_snapshot_store,
  after_failed, mark_failure, after_succeeded, mark_success,
}
use dev_board.Multihost.Poller.{
  max_poll_body_bytes, exceeds, Verdict, validate_peer_state, PeerReply, stopped, unreachable,
  answered, or_same, judge, read_state, on_reply, poll_peer,
}

-- A state that is held names its peer, and not the host that polls.
abbrev pub NamesPeer : String → String → Option PublicState → Type 0
NamesPeer local id none = Unit
NamesPeer local id (some s) = (s.host.id ≡ id) × (s.host.id ≢ local)

abbrev pub IsHonest : String → PeerSnapshotStore → Type 0
IsHonest local s =
    (id : String) (rec : PeerRecord)
    → lookup id s.records ≡ some rec
    → NamesPeer local id rec.last_good

insert-IsHonest :
    (local id : String) (rec : PeerRecord) (s : PeerSnapshotStore)
    → IsHonest local s
    → NamesPeer local id rec.last_good
    → IsHonest local (record s { records = insert id rec s.records })
insert-IsHonest local id rec s h n j r q = elim (lookup-insert_cases id j rec r s.records q) [
  | inr old ↦ h j r old
  | inl (same, new) ↦
      subst (λ k. NamesPeer local k r.last_good) same
        (subst (λ (x : PeerRecord). NamesPeer local id x.last_good) (sym new) n)
]

mark_failure-IsHonest :
    (local id : String) (at : Instant) (status : HostStatus) (message : String)
    (s : PeerSnapshotStore)
    → IsHonest local s
    → IsHonest local (or_same s (mark_failure id at status message s))
unfolding mark_failure after_failed
mark_failure-IsHonest local id at status message s h = elim (Option-cases (lookup id s.records)) [
  | inl q ↦ rw (q, mark_failure) h
  | inr (rec, q) ↦
      rw (q, mark_failure)
        (insert-IsHonest local id (after_failed rec at status message) s h (h id rec q))
]

accepts_own :
    (pub' : PublicState) (expected local : String) (s : PeerSnapshotStore) (now : Instant)
    → (validate_peer_state pub' expected local s now).2 ≡ true
    → (pub'.host.id ≡ expected) × (pub'.host.id ≢ local)
unfolding validate_peer_state
accepts_own pub' expected local s now h =
    ground (arith, eq_iff pub'.host.id expected, eq_iff pub'.host.id local)

new_peers-IsHonest :
    (local : String) (peers : List PeerConfig) (s : PeerSnapshotStore)
    → IsHonest local s
    → IsHonest local (add_peers peers s)
unfolding add_peers
new_peers-IsHonest local [] s h = h
new_peers-IsHonest local (peer ∷ peers) s h =
    new_peers-IsHonest local peers _
      (λ id rec q. insert-IsHonest local peer.expected_host_id (new_record peer) s h tt id rec q)

none_some : {rec : PeerRecord} → ◌≢◌ {A = Option PeerRecord} none (some rec)
none_some h = ground arith

module _ (clone_public_state : PublicState → Option PublicState)
    (decode : List ℕ → Option PublicState) (parses : String → Bool) (local : String) where
  -- The polls in the order of their ends.
  unfoldable pub poll_all :
      List (PeerConfig × Instant × Instant × PeerReply) → PeerSnapshotStore → PeerSnapshotStore
  poll_all [] s = s
  poll_all ((peer, attempt_at, completed_at, reply) ∷ polls) s =
      poll_all polls
        (poll_peer clone_public_state decode parses local peer attempt_at completed_at reply s)

  module _
      (same_host : (s t : PublicState)
        → clone_public_state s ≡ some t
        → t.host.id ≡ s.host.id) where
    judge-IsHonest :
        (peer : PeerConfig) (at : Instant) (pub' : PublicState) (v : Verdict)
        (s : PeerSnapshotStore)
        → (v.2 ≡ true → (pub'.host.id ≡ peer.expected_host_id) × (pub'.host.id ≢ local))
        → IsHonest local s
        → IsHonest local (judge clone_public_state decode parses local peer at pub' v s)
    unfolding judge mark_success after_succeeded
    judge-IsHonest peer at pub' (status, message, false) s own h =
        mark_failure-IsHonest local peer.expected_host_id at status message s h
    judge-IsHonest peer at pub' (status, message, true) s own h =
        let (names, other) = own refl in
        elim (Option-cases (clone_public_state pub')) [
          | inl q ↦ rw (q, mark_success) h
          | inr (copy, q) ↦ elim (Option-cases (lookup peer.expected_host_id s.records)) [
            | inl l ↦ rw (q, l, mark_success) h
            | inr (rec, l) ↦
                let same = same_host pub' copy q in
                rw (q, l, mark_success)
                  (insert-IsHonest local peer.expected_host_id
                    (after_succeeded rec copy at status message) s h
                    (same ∙ names, λ x. other (sym same ∙ x)))
          ]
        ]

    on_reply-IsHonest :
        (peer : PeerConfig) (at : Instant) (reply : PeerReply) (s : PeerSnapshotStore)
        → IsHonest local s
        → IsHonest local (on_reply clone_public_state decode parses local peer at reply s)
    unfolding on_reply read_state
    on_reply-IsHonest peer at stopped s h = h
    on_reply-IsHonest peer at unreachable s h =
        mark_failure-IsHonest local peer.expected_host_id at unavailable "Peer unavailable." s h
    on_reply-IsHonest peer at (answered status content_length none) s h =
        let quiet =
          mark_failure-IsHonest local peer.expected_host_id at unavailable "Peer unavailable." s
            h in
        let bad =
          mark_failure-IsHonest local peer.expected_host_id at degraded "Peer response invalid." s
            h in
        elim (Bool-cases (status == 200)) [
          | inr q ↦ rw q quiet
          | inl q ↦ elim (Bool-cases (exceeds content_length max_poll_body_bytes)) [
            | inl x ↦ rw (q, x) bad
            | inr x ↦ rw (q, x) quiet
          ]
        ]
    on_reply-IsHonest peer at (answered status content_length (some body)) s h =
        let quiet =
          mark_failure-IsHonest local peer.expected_host_id at unavailable "Peer unavailable." s
            h in
        let bad =
          mark_failure-IsHonest local peer.expected_host_id at degraded "Peer response invalid." s
            h in
        elim (Bool-cases (status == 200)) [
          | inr q ↦ rw q quiet
          | inl q ↦ elim (Bool-cases (exceeds content_length max_poll_body_bytes)) [
            | inl x ↦ rw (q, x) bad
            | inr x ↦ elim (Bool-cases (ltb max_poll_body_bytes (length body))) [
              | inl l ↦ rw (q, x, l) bad
              | inr l ↦ elim (Option-cases (decode body)) [
                | inl d ↦ rw (q, x, l, d, read_state) bad
                | inr (pub', d) ↦
                    rw (q, x, l, d, read_state)
                      (judge-IsHonest peer at pub'
                        (validate_peer_state pub' peer.expected_host_id local s at) s
                        (accepts_own pub' peer.expected_host_id local s at) h)
              ]
            ]
          ]
        ]

    poll_peer-IsHonest :
        (peer : PeerConfig) (attempt_at completed_at : Instant) (reply : PeerReply)
        (s : PeerSnapshotStore)
        → IsHonest local s
        → IsHonest local
            (poll_peer clone_public_state decode parses local peer attempt_at completed_at reply s)
    unfolding poll_peer
    poll_peer-IsHonest peer attempt_at completed_at reply s h =
        elim (Bool-cases (parses peer.endpoint)) [
          | inl q ↦ rw q (on_reply-IsHonest peer completed_at reply s h)
          | inr q ↦ rw q (
              mark_failure-IsHonest local peer.expected_host_id attempt_at degraded
                "Peer response invalid." s h)
        ]

    poll_all-kept :
        (polls : List (PeerConfig × Instant × Instant × PeerReply)) (s : PeerSnapshotStore)
        → IsHonest local s
        → IsHonest local (poll_all polls s)
    unfolding poll_all
    poll_all-kept [] s h = h
    poll_all-kept ((peer, attempt_at, completed_at, reply) ∷ polls) s h =
        poll_all-kept polls
          (poll_peer clone_public_state decode parses local peer attempt_at completed_at reply s)
          (poll_peer-IsHonest peer attempt_at completed_at reply s h)

    -- Whatever the peers of a configuration answer, in any order of polls, the state that the store holds
    -- for a peer names that peer and not the polling host, where a copy of a state names the same
    -- host.
    pub poll_all-IsHonest :
        (peers : List PeerConfig) (polls : List (PeerConfig × Instant × Instant × PeerReply))
        → IsHonest local (poll_all polls (new_peer_snapshot_store peers))
    unfolding new_peer_snapshot_store lookup
    poll_all-IsHonest peers polls = poll_all-kept polls (new_peer_snapshot_store peers) (
        new_peers-IsHonest local peers (record { order = []; records = [] })
          (λ id rec q. elim (none_some q) [ ]))
