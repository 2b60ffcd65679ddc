-- ===== src/Multihost/Peers.antt =====
-- internal/multihost/store.go: what is known of each peer, and how it is shown. The copy of a state
-- through JSON, which may fail, is a parameter. Every operation runs under the store's lock.
use dev_board.Prelude.{
  ◌*◌, String, str_eq, Bool, true, false, not, ◌&&◌, ◌||◌, Option, none, some, List, [], ◌∷◌, ◌++◌,
  leb, if◌then◌else◌, Result, ok, err,
}
use dev_board.Prelude.Dict.{Dict, lookup, insert}
use dev_board.Prelude.Time.{Instant, Duration, second, minute, since}
use dev_board.State.Public.{PublicState}
use dev_board.Hub.Dashboard.{
  HostStatus, unknown, available, SnapshotFreshness, snapshot_fresh, snapshot_stale, source_peer,
  HostSource, HostSnapshot, DashboardState,
}

abbrev pub fresh_window : Duration
fresh_window = 15 * second

abbrev pub remote_fresh_window : Duration
remote_fresh_window = 30 * second

abbrev pub peer_retention_window : Duration
peer_retention_window = 30 * minute

abbrev pub peer_future_tolerance : Duration
peer_future_tolerance = 2 * minute

-- config.PeerConfig
pub record PeerConfig : Type 0 where
  pub expected_host_id : String
  pub endpoint : String

pub record PeerRecord : Type 0 where
  pub configured_host_id : String
  pub endpoint : String
  pub status : HostStatus
  pub last_attempt_at : Option Instant
  pub last_success_at : Option Instant
  pub message : String
  pub last_good : Option PublicState
  pub force_stale : Bool

pub record PeerSnapshotStore : Type 0 where
  pub order : List String
  pub records : Dict PeerRecord

pub data PeerError : Type 0 where
  unknown_peer copy_failed : PeerError

abbrev pub new_record : PeerConfig → PeerRecord
new_record peer = record {
  configured_host_id = peer.expected_host_id;
  endpoint = peer.endpoint;
  status = unknown;
  last_attempt_at = none;
  last_success_at = none;
  message = "";
  last_good = none;
  force_stale = false;
}

unfoldable pub add_peers : List PeerConfig → PeerSnapshotStore → PeerSnapshotStore
add_peers [] s = s
add_peers (peer ∷ peers) s = add_peers peers (record {
  order = s.order ++ peer.expected_host_id ∷ [];
  records = insert peer.expected_host_id (new_record peer) s.records;
})

unfoldable pub new_peer_snapshot_store : List PeerConfig → PeerSnapshotStore
new_peer_snapshot_store peers = add_peers peers (record { order = []; records = [] })

abbrev pub is_available : HostStatus → Bool
is_available available = true
is_available _ = false

abbrev pub holds_state : Option PublicState → Bool
holds_state none = false
holds_state (some s) = true

unfoldable pub after_failed : PeerRecord → Instant → HostStatus → String → PeerRecord
after_failed rec at status message = record rec {
  status = status;
  last_attempt_at = some at;
  message = message;
  force_stale = holds_state rec.last_good;
}

unfoldable pub mark_failure :
    String → Instant → HostStatus → String → PeerSnapshotStore → Result PeerError PeerSnapshotStore
mark_failure id at status message s = elim (lookup id s.records) [
  | none ↦ err unknown_peer
  | some rec ↦ ok (record s { records = insert id (after_failed rec at status message) s.records })
]

unfoldable pub after_succeeded :
    PeerRecord → PublicState → Instant → HostStatus → String → PeerRecord
after_succeeded rec copy at status message = record rec {
  status = status;
  last_attempt_at = some at;
  last_success_at = some at;
  message = message;
  last_good = some copy;
  force_stale = not (is_available status);
}

-- Some other peer holds a state of the host.
unfoldable pub has_accepted_in : String → String → Dict PeerRecord → Bool
has_accepted_in except host_id [] = false
has_accepted_in except host_id ((id, rec) ∷ records) =
    (not (str_eq id except) && names_host host_id rec.last_good)
    || has_accepted_in except host_id records
  where
    names_host : String → Option PublicState → Bool
    names_host h none = false
    names_host h (some s) = str_eq s.host.id h

unfoldable pub has_accepted_host_id : String → String → PeerSnapshotStore → Bool
has_accepted_host_id except host_id s = has_accepted_in except host_id s.records

unfoldable pub endpoints_of : List String → Dict PeerRecord → List PeerConfig
endpoints_of [] records = []
endpoints_of (id ∷ order) records =
    record { expected_host_id = id; endpoint = endpoint_of (lookup id records) }
    ∷ endpoints_of order records
  where
    endpoint_of : Option PeerRecord → String
    endpoint_of none = ""
    endpoint_of (some rec) = rec.endpoint

unfoldable pub peer_endpoints : PeerSnapshotStore → List PeerConfig
peer_endpoints s = endpoints_of s.order s.records

-- The state that is still retained.
unfoldable pub retained : Option Instant → Option PublicState → Instant → Option PublicState
retained none good now = none
retained (some at) good now = if leb (since now at) peer_retention_window then good else none

abbrev pub within : Duration → Option Instant → Instant → Bool
within window none now = false
within window (some at) now = leb (since now at) window

unfoldable pub peer_freshness : PeerRecord → PublicState → Instant → SnapshotFreshness
peer_freshness rec copy now =
    if not rec.force_stale
      && within fresh_window rec.last_success_at now
      && leb (since now copy.generated_at) remote_fresh_window
    then snapshot_fresh
    else snapshot_stale

unfoldable pub peer_source : PeerRecord → HostSource
peer_source rec = record {
  kind = source_peer;
  status = rec.status;
  last_attempt_at = rec.last_attempt_at;
  last_success_at = rec.last_success_at;
  message = rec.message;
}

-- The zero record of a key that the map does not have.
abbrev pub record_or_zero : Option PeerRecord → PeerRecord
record_or_zero none = new_record (record { expected_host_id = ""; endpoint = "" })
record_or_zero (some rec) = rec

module _ (clone_public_state : PublicState → Option PublicState) where
  unfoldable pub mark_success :
      String
      → PublicState
      → Instant
      → HostStatus
      → String
      → PeerSnapshotStore
      → Result PeerError PeerSnapshotStore
  mark_success id pub' at status message s = elim (clone_public_state pub') [
    | none ↦ err copy_failed
    | some copy ↦ elim (lookup id s.records) [
      | none ↦ err unknown_peer
      | some rec ↦
          ok (record s {
            records = insert id (after_succeeded rec copy at status message) s.records;
          })
    ]
  ]

  -- What is shown of a state, when it is retained and its copy succeeds.
  unfoldable pub shown : Option PublicState → Option PublicState
  shown none = none
  shown (some good) = clone_public_state good

  unfoldable pub peer_host : String → PeerRecord → Instant → HostSnapshot
  peer_host id rec now =
      let state = shown (retained rec.last_success_at rec.last_good now) in
      record {
        configured_host_id = id;
        display_name = "";
        accent = "";
        source = peer_source rec;
        snapshot_freshness = elim state [
          | none ↦ none
          | some copy ↦ some (peer_freshness rec copy now)
        ];
        state = state;
      }

  unfoldable pub peer_hosts : List String → Dict PeerRecord → Instant → List HostSnapshot
  peer_hosts [] records now = []
  peer_hosts (id ∷ order) records now =
      peer_host id (record_or_zero (lookup id records)) now ∷ peer_hosts order records now

  abbrev pub dashboard_of : Instant → List HostSnapshot → DashboardState
  dashboard_of now hosts = record {
    schema_version = 1;
    state_kind = "dashboard";
    generated_at = now;
    hosts = hosts;
    quota = [];
  }

  unfoldable pub dashboard_peers : PeerSnapshotStore → Instant → DashboardState
  dashboard_peers s now = dashboard_of now (peer_hosts s.order s.records now)
