-- ===== src/Tests/Data.antt =====
-- Values for the runs: two nodes, their states and snapshots.
use dev_board.Prelude.{ℕ, ◌*◌, String, true, none, [], ◌∷◌}
use dev_board.Prelude.Time.{Instant, second}
use dev_board.State.Enums.{NavigationAction, NavigationKind, NetworkQuality}
use dev_board.State.Public.{PublicState, PublicNavigationTarget, PublicMetricSet}
use dev_board.Hub.Validation.{NodeSnapshot}
use dev_board.Hub.Registry.{NodeConfig, Node, Registry}
use dev_board.Hub.Store.History.{Delivery}

abbrev pub t0 : Instant
t0 = 1000 * second

abbrev pub app_target : PublicNavigationTarget
app_target = record {
  target_id = "app";
  kind = NavigationKind.app;
  allowed_actions = NavigationAction.focus_app ∷ [];
}

abbrev pub metric : PublicMetricSet
metric = record { used_bytes = none; total_bytes = none; percent_used = none }

abbrev pub state_at : String → Instant → PublicState
state_at host at = record {
  schema_version = 1;
  state_kind = "public";
  generated_at = at;
  host = record { id = host; display_name = host };
  agents = [];
  tasks = [];
  alerts = [];
  system = record {
    cpu_percent = none;
    memory = metric;
    swap = metric;
    disk = metric;
    process_groups = [];
  };
  network = record {
    quality = NetworkQuality.good;
    reachable = none;
    connect_latency_ms = none;
    probe_failure_percent = none;
    receive_bytes_per_second = none;
    send_bytes_per_second = none;
  };
  projects = [];
  quota = [];
  sources = [];
  navigation_targets = app_target ∷ [];
  meta = record {
    display_contract_version = 1;
    kindle_refresh_seconds = 60;
    complete_high_visibility_seconds = 60;
    complete_retention_seconds = 60;
    safe_navigation_enabled = true;
    wake_lock_mode = "off";
  };
}

abbrev pub snapshot_of : String → String → ℕ → Instant → NodeSnapshot
snapshot_of host session seq at = record {
  schema_version = 1;
  state_kind = "nodeSnapshot";
  node_id = host;
  session_id = session;
  sequence = seq;
  sent_at = at;
  state = state_at host at;
}

abbrev pub config_a : NodeConfig
config_a = record {
  node_id = "node-a";
  display_name = "Node A";
  accent = "blue";
  enabled = true;
  token = "abcdefghijklmnopqrstuvwxyz0123456789abcdefg";
}

abbrev pub node_a : Node
node_a = record {
  id = "node-a";
  display_name = "Node A";
  accent = "blue";
  enabled = true;
  token_digest = 43;
}

abbrev pub registry_a : Registry
registry_a = record { order = "node-a" ∷ []; nodes = ("node-a", node_a) ∷ [] }

abbrev pub delivery_of : String → ℕ → ℕ → Instant → Delivery
delivery_of session seq digest at = record {
  node = node_a;
  snap = snapshot_of "node-a" session seq at;
  digest = digest;
  received_at = at;
}
