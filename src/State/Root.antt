-- ===== src/State/Root.antt =====
-- internal/state/model.go: the root of the internal state. A float64 is carried as its 64 bits. The
-- counts of a project are never negative.
use dev_board.Prelude.{ℕ, String, Bool, Option, List}
use dev_board.Prelude.Dict.{Dict}
use dev_board.Prelude.Time.{Instant}
use dev_board.State.Enums.{
  AlertType, NetworkQuality, SourceStatus, NavigationAction, NavigationKind,
}
use dev_board.State.Internal.{AgentState, TaskState}
use dev_board.State.Public.{Float64}

pub record HostState : Type 0 where
  pub id : String
  pub display_name : String

pub record AlertState : Type 0 where
  pub alert_id : String
  pub type : AlertType
  pub agent_id : String
  pub turn_id : Option String
  pub active : Bool
  pub created_at : Instant
  pub updated_at : Instant
  pub high_visibility_until : Option Instant
  pub retain_until : Option Instant

pub record MetricSet : Type 0 where
  pub used_bytes : Option ℕ
  pub total_bytes : Option ℕ
  pub percent_used : Option Float64

pub record ProcessGroup : Type 0 where
  pub name : String
  pub matched_pid_count : ℕ
  pub resident_memory_bytes : Option ℕ
  pub cpu_percent : Option Float64

pub record SystemState : Type 0 where
  pub cpu_percent : Option Float64
  pub memory : MetricSet
  pub swap : MetricSet
  pub disk : MetricSet
  pub process_groups : List ProcessGroup

pub record NetworkState : Type 0 where
  pub quality : NetworkQuality
  pub reachable : Option Bool
  pub connect_latency_ms : Option Float64
  pub probe_failure_percent : Option Float64
  pub receive_bytes_per_second : Option Float64
  pub send_bytes_per_second : Option Float64

pub record ProjectState : Type 0 where
  pub project_id : String
  pub display_name : String
  pub worktree_id : String
  pub worktree_root : String
  pub repository_identity : String
  pub branch : String
  pub dirty : Bool
  pub modified_count : ℕ
  pub untracked_count : ℕ
  pub ahead : ℕ
  pub behind : ℕ
  pub navigation_target_id : String

pub record QuotaWindow : Type 0 where
  pub name : String
  pub used_percent : Option Float64
  pub resets_at : Option Instant

pub record QuotaState : Type 0 where
  pub provider : String
  pub account_key : String
  pub display_label : String
  pub windows : Option (List QuotaWindow)
  pub sampled_at : Option Instant
  pub source_id : String
  pub observed_by : String

pub record SourceHealth : Type 0 where
  pub status : SourceStatus
  pub last_attempt_at : Option Instant
  pub last_success_at : Option Instant
  pub message : String
  pub reason : String

pub record NavigationTargetDetail : Type 0 where
  pub agent_id : String
  pub provider : String
  pub session_id : String
  pub turn_id : String
  pub project_id : String
  pub worktree_id : String
  pub worktree_root : String
  pub preferred_app : String
  pub focus_locator : String
  pub app_ref : String

pub record NavigationTarget : Type 0 where
  pub target_id : String
  pub kind : NavigationKind
  pub host_id : String
  pub allowed_actions : List NavigationAction
  pub detail : NavigationTargetDetail

pub record InternalMeta : Type 0 where
  pub snapshot_version : ℕ
  pub restored_from_snapshot : Bool
  pub private_note : String

pub record InternalRootState : Type 0 where
  pub schema_version : ℕ
  pub state_kind : String
  pub generated_at : Instant
  pub host : HostState
  pub agents : List AgentState
  pub tasks : List TaskState
  pub alerts : List AlertState
  pub system : SystemState
  pub network : NetworkState
  pub projects : List ProjectState
  pub quota : List QuotaState
  pub sources : Dict SourceHealth
  pub navigation_targets : List NavigationTarget
  pub internal_meta : InternalMeta
