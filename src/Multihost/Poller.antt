-- ===== src/Multihost/Poller.antt =====
-- internal/multihost/poller.go: one poll of a peer. The network's answer, the JSON decoder and the
-- parser of an endpoint (internal/config) are parameters.
use dev_board.Prelude.{
  ℕ, ◌+◌, ◌*◌, String, str_eq, Bool, true, false, not, ◌&&◌, ◌||◌, Option, none, some, List, [],
  map, ltb, ◌==◌, length, if◌then◌else◌, Result, ok, err,
}
use Prim.Native.String.{len}
use dev_board.Prelude.Text.{codes, codes_eq, trim_space, all_codes, is_alnum}
use dev_board.Prelude.Time.{Instant, since, is_zero}
use dev_board.State.Public.{PublicState, PublicTask, PublicAgent}
use dev_board.Hub.Validation.{bad_ids}
use dev_board.Hub.Dashboard.{HostStatus, available, degraded, unavailable}
use dev_board.Multihost.Peers.{
  remote_fresh_window, peer_retention_window, peer_future_tolerance, PeerConfig, PeerSnapshotStore,
  PeerError, mark_failure, mark_success, has_accepted_host_id,
}

abbrev pub max_poll_body_bytes : ℕ
max_poll_body_bytes = 256 * 1024

abbrev pub is_observed_char : ℕ → Bool
is_observed_char c = is_alnum c || c == b'.' || c == b'_' || c == b'-'

unfoldable pub valid_observed_host_id : String → Bool
unfolding codes codes_eq trim_space all_codes
valid_observed_host_id id =
    not (ltb (len id) 1)
    && not (ltb 64 (len id))
    && codes_eq (trim_space (codes id)) (codes id)
    && all_codes is_observed_char (codes id)

abbrev pub Verdict : Type 0
Verdict = HostStatus × String × Bool

unfoldable pub age_verdict : ℕ → Verdict
age_verdict age =
    if ltb peer_retention_window age
    then (degraded, "Peer snapshot is stale.", false)
    else if ltb remote_fresh_window age
    then (degraded, "Peer snapshot is stale.", true)
    else (available, "Peer snapshot available.", true)

unfoldable pub validate_peer_state :
    PublicState → String → String → PeerSnapshotStore → Instant → Verdict
validate_peer_state pub' expected local store now =
    let taken = str_eq pub'.host.id local || has_accepted_host_id expected pub'.host.id store in
    if not (str_eq pub'.state_kind "public")
      || not (pub'.schema_version == 1)
      || not (valid_observed_host_id pub'.host.id)
    then (degraded, "Peer response invalid.", false)
    else if not (str_eq pub'.host.id expected)
    then (
      degraded,
      if taken then "Peer host identity conflict." else "Peer host identity mismatch.",
      false,
    )
    else if taken
    then (degraded, "Peer host identity conflict.", false)
    else if bad_ids [] (map (λ (t : PublicTask). t.id) pub'.tasks)
        || bad_ids [] (map (λ (a : PublicAgent). a.id) pub'.agents)
    then (degraded, "Peer response invalid.", false)
    else if is_zero pub'.generated_at || ltb (now + peer_future_tolerance) pub'.generated_at
    then (degraded, "Peer clock is outside tolerance.", false)
    else age_verdict (since now pub'.generated_at)

-- What becomes of a request: the loop was stopped, it failed, or it was answered with a status, a
-- length that may be unknown, and a body, cut after one byte too many, whose reading may fail.
pub data PeerReply : Type 0 where
  stopped unreachable : PeerReply
  answered : ℕ → Option ℕ → Option (List ℕ) → PeerReply

abbrev pub exceeds : Option ℕ → ℕ → Bool
exceeds none max = false
exceeds (some n) max = ltb max n

-- The store, where the operation does not fail.
abbrev pub or_same : PeerSnapshotStore → Result PeerError PeerSnapshotStore → PeerSnapshotStore
or_same s (ok next) = next
or_same s (err e) = s

abbrev pub invalid : PeerConfig → Instant → PeerSnapshotStore → PeerSnapshotStore
invalid peer at s =
    or_same s (mark_failure peer.expected_host_id at degraded "Peer response invalid." s)

abbrev pub silent : PeerConfig → Instant → PeerSnapshotStore → PeerSnapshotStore
silent peer at s =
    or_same s (mark_failure peer.expected_host_id at unavailable "Peer unavailable." s)

module _ (clone_public_state : PublicState → Option PublicState)
    (decode : List ℕ → Option PublicState) (parses : String → Bool) (local : String) where
  unfoldable pub judge :
      PeerConfig → Instant → PublicState → Verdict → PeerSnapshotStore → PeerSnapshotStore
  judge peer at pub' (status, message, true) s =
      or_same s (mark_success clone_public_state peer.expected_host_id pub' at status message s)
  judge peer at pub' (status, message, false) s =
      or_same s (mark_failure peer.expected_host_id at status message s)

  unfoldable pub read_state : PeerConfig → Instant → List ℕ → PeerSnapshotStore → PeerSnapshotStore
  read_state peer at body s =
      if ltb max_poll_body_bytes (length body) then invalid peer at s else elim (decode body) [
        | none ↦ invalid peer at s
        | some pub' ↦
            judge peer at pub' (validate_peer_state pub' peer.expected_host_id local s at) s
      ]

  unfoldable pub on_reply : PeerConfig → Instant → PeerReply → PeerSnapshotStore → PeerSnapshotStore
  on_reply peer at stopped s = s
  on_reply peer at unreachable s = silent peer at s
  on_reply peer at (answered status content_length none) s =
      if status == 200
      then (if exceeds content_length max_poll_body_bytes
          then invalid peer at s
          else silent peer at s)
      else silent peer at s
  on_reply peer at (answered status content_length (some body)) s =
      if status == 200
      then (if exceeds content_length max_poll_body_bytes
          then invalid peer at s
          else read_state peer at body s)
      else silent peer at s

  unfoldable pub poll_peer :
      PeerConfig → Instant → Instant → PeerReply → PeerSnapshotStore → PeerSnapshotStore
  poll_peer peer attempt_at completed_at reply s =
      if parses peer.endpoint then on_reply peer completed_at reply s else invalid peer attempt_at s
