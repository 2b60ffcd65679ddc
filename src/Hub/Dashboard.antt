-- ===== src/Hub/Dashboard.antt =====
-- internal/hub/store.go, the read side, over internal/dashboard/model.go. Texts are compared as the
-- source compares strings: code points in order sort as their UTF-8 bytes do.
pub mod Laws
use dev_board.Prelude.{
  ℕ, zero, suc, ◌+◌, ◌/◌, ◌%◌, String, str_eq, Bool, true, false, ◌&&◌, ◌||◌, Option, none, some,
  List, [], ◌∷◌, ◌++◌, map, ltb, leb, ◌==◌, if◌then◌else◌,
}
use dev_board.Prelude.Text.{codes, codes_eq, text_lt, decimal}
use dev_board.Prelude.Dict.{Dict, lookup, contains_key}
use dev_board.Prelude.Time.{Instant, since, before}
use dev_board.State.Enums.{SourceStatus}
use dev_board.State.Public.{PublicState, PublicTask, PublicQuota}
use dev_board.Hub.Validation.{online_window, stale_window, retention_window}
use dev_board.Hub.Registry.{Registry, Node}
use dev_board.Hub.Store.{NodeRecord, NodeStateStore}

-- The statuses that the hub gives to nodes, and those of the pull model.
pub data HostStatus : Type 0 where
  unknown available degraded unavailable online stale offline : HostStatus

pub data SnapshotFreshness : Type 0 where
  snapshot_fresh snapshot_stale : SnapshotFreshness

pub data HostSourceKind : Type 0 where
  source_local source_peer source_node : HostSourceKind

pub record HostSource : Type 0 where
  pub kind : HostSourceKind
  pub status : HostStatus
  pub last_attempt_at : Option Instant
  pub last_success_at : Option Instant
  pub message : String

pub record HostSnapshot : Type 0 where
  pub configured_host_id : String
  pub display_name : String
  pub accent : String
  pub source : HostSource
  pub snapshot_freshness : Option SnapshotFreshness
  pub state : Option PublicState

pub record DashboardState : Type 0 where
  pub schema_version : ℕ
  pub state_kind : String
  pub generated_at : Instant
  pub hosts : List HostSnapshot
  pub quota : List PublicQuota

unfoldable pub connection_status : Option Instant → Instant → HostStatus
connection_status none now = offline
connection_status (some at) now =
    if leb (since now at) online_window
    then online
    else if leb (since now at) stale_window
    then stale
    else offline

abbrev pub is_online : HostStatus → Bool
is_online online = true
is_online _ = false

unfoldable pub node_message : Node → NodeRecord → HostStatus → Bool → String
node_message node rec status retained =
    if node.enabled
    then elim rec.last_received_at [
      | none ↦ "Registered node awaiting first snapshot."
      | some _ ↦
          if retained
          then (if is_online status
              then "Receiving node snapshots."
              else "Node is not sending snapshots; retained state shown.")
          else "Node offline."
    ]
    else if retained
    then "Node disabled; retained snapshot shown."
    else "Node disabled."

-- rec.state, while its last receipt is inside the retention window
unfoldable pub retained_state : NodeRecord → Instant → Option PublicState
retained_state rec now = elim rec.last_received_at [
  | none ↦ none
  | some at ↦ if leb (since now at) retention_window then rec.state else none
]

abbrev pub is_some {ℓ} : {A : Type ℓ} → Option A → Bool
is_some none = false
is_some (some _) = true

unfoldable pub acknowledge : Dict Instant → PublicTask → PublicTask
acknowledge acks t = if contains_key t.id acks then record t { unread = false } else t

unfoldable pub apply_read_acks : NodeStateStore → String → PublicState → PublicState
apply_read_acks s host_id pub' = elim (lookup host_id s.read_acks) [
  | none ↦ pub'
  | some acks ↦ record pub' { tasks = map (acknowledge acks) pub'.tasks }
]

unfoldable pub host_quota_source_healthy : HostStatus → Bool
host_quota_source_healthy online = true
host_quota_source_healthy available = true
host_quota_source_healthy _ = false

abbrev pub rank : SourceStatus → ℕ
rank SourceStatus.available = 0
rank SourceStatus.degraded = 1
rank _ = 2

sampled_order : Option Instant → Option Instant → Option Bool
sampled_order (some a) (some b) = if a == b then none else some (before b a)
sampled_order _ _ = none

unfoldable pub quota_preferred : PublicQuota → PublicQuota → Bool
unfolding sampled_order codes text_lt
quota_preferred candidate current =
    if rank candidate.source_status == rank current.source_status
    then elim (sampled_order candidate.sampled_at current.sampled_at) [
      | some later ↦ later
      | none ↦ text_lt (codes candidate.observed_by) (codes current.observed_by)
    ]
    else ltb (rank candidate.source_status) (rank current.source_status)

-- The key of a quota: its account, or where it was seen if it has none.
unfoldable pub quota_key : String → ℕ → PublicQuota → List ℕ
unfolding codes decimal
quota_key host_id index q =
    codes q.provider
    ++ 0
      ∷ (codes q.account_key
          ++ (if str_eq q.account_key ""
              then 0 ∷ (codes "legacy-" ++ (codes host_id ++ b'-' ∷ decimal index))
              else []))

-- out, seen: an entry keeps the place at which its key was first met.
unfoldable pub place :
    List ℕ → PublicQuota → List (List ℕ × PublicQuota) → List (List ℕ × PublicQuota)
unfolding quota_preferred codes_eq
place key q [] = (key, q) ∷ []
place key q ((k, c) ∷ out) =
    if codes_eq k key
    then (k, if quota_preferred q c then q else c) ∷ out
    else (k, c) ∷ place key q out

-- The quota as the loop sees it: one of an unhealthy host counts as degraded.
unfoldable pub seen_quota : HostStatus → PublicQuota → PublicQuota
unfolding host_quota_source_healthy
seen_quota status q =
    if host_quota_source_healthy status
    then q
    else record q { source_status = SourceStatus.degraded }

unfoldable pub place_host :
    HostSnapshot → ℕ → List PublicQuota → List (List ℕ × PublicQuota) → List (List ℕ × PublicQuota)
unfolding place seen_quota quota_key
place_host host index [] out = out
place_host host index (q ∷ qs) out =
    let q' = seen_quota host.source.status q in
    place_host host (suc index) qs (place (quota_key host.configured_host_id index q') q' out)

abbrev pub quotas_of : Option PublicState → List PublicQuota
quotas_of none = []
quotas_of (some s) = s.quota

unfoldable pub place_all :
    List HostSnapshot → List (List ℕ × PublicQuota) → List (List ℕ × PublicQuota)
unfolding place_host
place_all [] out = out
place_all (h ∷ hs) out = place_all hs (place_host h 0 (quotas_of h.state) out)

-- The order of `sort.SliceStable`.
unfoldable pub quota_less : PublicQuota → PublicQuota → Bool
unfolding codes text_lt
quota_less a b =
    if str_eq a.provider b.provider
    then (if str_eq a.display_label b.display_label
        then text_lt (codes a.account_key) (codes b.account_key)
        else text_lt (codes a.display_label) (codes b.display_label))
    else text_lt (codes a.provider) (codes b.provider)

-- A stable sort: an item goes behind those that it is not less than.
unfoldable pub sort_insert : PublicQuota → List PublicQuota → List PublicQuota
unfolding quota_less
sort_insert q [] = q ∷ []
sort_insert q (x ∷ xs) = if quota_less x q then x ∷ sort_insert q xs else q ∷ x ∷ xs

unfoldable pub sort_quotas : List PublicQuota → List PublicQuota
unfolding sort_insert
sort_quotas [] = []
sort_quotas (q ∷ qs) = sort_insert q (sort_quotas qs)

unfoldable pub dedupe_quota : List HostSnapshot → List PublicQuota
unfolding place_all sort_quotas
dedupe_quota hosts = sort_quotas (map (λ p. p.1) (place_all hosts []))

module _ (clone_public_state : PublicState → Option PublicState) where
  unfoldable pub host_snapshot :
      NodeStateStore → Instant → String → Node → NodeRecord → HostSnapshot
  host_snapshot s now id node rec =
      let status = connection_status rec.last_received_at now in
      let kept = retained_state rec now in
      let shown : Option PublicState = elim kept [
        | none ↦ none
        | some state ↦ clone_public_state state
      ] in
      record {
        configured_host_id = id;
        display_name = node.display_name;
        accent = node.accent;
        source = record {
          kind = source_node;
          status = status;
          last_attempt_at = none;
          last_success_at = rec.last_received_at;
          message = node_message node rec status (is_some kept);
        };
        snapshot_freshness = elim shown [
          | none ↦ none
          | some _ ↦ some (if is_online status then snapshot_fresh else snapshot_stale)
        ];
        state = elim shown [ none ↦ none | some copy ↦ some (apply_read_acks s id copy) ];
      }

  -- The loop over the registry's order. A store holds a node and a record for each of its ids.
  unfoldable pub host_snapshots : NodeStateStore → Instant → List String → List HostSnapshot
  host_snapshots s now [] = []
  host_snapshots s now (id ∷ ids) =
      let rest = host_snapshots s now ids in
      elim (lookup id s.registry.nodes) [
        | none ↦ rest
        | some node ↦ elim (lookup id s.records) [
          | none ↦ rest
          | some rec ↦ host_snapshot s now id node rec ∷ rest
        ]
      ]

  unfoldable pub dashboard : NodeStateStore → Instant → DashboardState
  dashboard s now =
      let hosts = host_snapshots s now s.registry.order in
      record {
        schema_version = 1;
        state_kind = "dashboard";
        generated_at = now;
        hosts = hosts;
        quota = dedupe_quota hosts;
      }
