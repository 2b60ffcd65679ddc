-- ===== src/State/Public.antt =====
-- internal/state/public.go: the sanitized snapshot that a node sends. A float64 is carried as its 64
-- bits; no modelled operation computes with one. A map is an association list.
use dev_board.Prelude.{ℕ, String, Bool, Option, List}
use dev_board.Prelude.Dict.{Dict}
use dev_board.Prelude.Time.{Instant}
use dev_board.State.Enums.{
  Activity, Outcome, Freshness, SourceStatus, NavigationAction, NavigationKind, AlertType,
  NetworkQuality, TaskLifecycle, TaskConfidence, TaskCheckpointKind, TaskAttentionKind,
}

abbrev pub Float64 : Type 0
Float64 = ℕ

pub record PublicHost : Type 0 where
  pub id : String
  pub display_name : String

pub record PublicNavigationTarget : Type 0 where
  pub target_id : String
  pub kind : NavigationKind
  pub allowed_actions : List NavigationAction

pub record PublicCurrentTurn : Type 0 where
  pub turn_id : String
  pub activity : Activity
  pub outcome : Outcome
  pub freshness : Freshness
  pub started_at : Instant
  pub completed_at : Option Instant
  pub updated_at : Instant

pub record PublicAgent : Type 0 where
  pub id : String
  pub provider : String
  pub session_id : String
  pub current_turn : PublicCurrentTurn
  pub navigation : Option PublicNavigationTarget

pub record PublicTaskProject : Type 0 where
  pub project_name : String
  pub worktree_label : String
  pub branch : String

pub record PublicTaskCheckpoint : Type 0 where
  pub kind : TaskCheckpointKind
  pub text : String
  pub at : Instant

pub record PublicTaskAttention : Type 0 where
  pub kind : TaskAttentionKind
  pub text : String
  pub at : Instant

pub record PublicTaskCompletion : Type 0 where
  pub summary : Option String
  pub result_identifier : Option String
  pub at : Instant

pub record PublicTask : Type 0 where
  pub id : String
  pub provider : String
  pub navigation : Option PublicNavigationTarget
  pub project : Option PublicTaskProject
  pub title : String
  pub lifecycle : TaskLifecycle
  pub freshness : Freshness
  pub confidence : TaskConfidence
  pub started_at : Instant
  pub updated_at : Instant
  pub checkpoint : Option PublicTaskCheckpoint
  pub attention : Option PublicTaskAttention
  pub completion : Option PublicTaskCompletion
  pub unread : Bool
  pub superseded_at : Option Instant

pub record PublicAlert : Type 0 where
  pub alert_id : String
  pub type : AlertType
  pub agent_id : String
  pub turn_id : Option String
  pub active : Bool
  pub created_at : Instant
  pub updated_at : Instant
  pub high_visibility_until : Option Instant
  pub retain_until : Option Instant

pub record PublicMetricSet : Type 0 where
  pub used_bytes : Option ℕ
  pub total_bytes : Option ℕ
  pub percent_used : Option Float64

pub record PublicProcessGroup : Type 0 where
  pub name : String
  pub matched_pid_count : ℕ
  pub resident_memory_bytes : Option ℕ
  pub cpu_percent : Option Float64

pub record PublicSystem : Type 0 where
  pub cpu_percent : Option Float64
  pub memory : PublicMetricSet
  pub swap : PublicMetricSet
  pub disk : PublicMetricSet
  pub process_groups : List PublicProcessGroup

pub record PublicNetwork : Type 0 where
  pub quality : NetworkQuality
  pub reachable : Option Bool
  pub connect_latency_ms : Option Float64
  pub probe_failure_percent : Option Float64
  pub receive_bytes_per_second : Option Float64
  pub send_bytes_per_second : Option Float64

pub record PublicProject : Type 0 where
  pub project_id : String
  pub display_name : String
  pub worktree_id : String
  pub repository_identity : String
  pub branch : String
  pub dirty : Bool
  pub modified_count : ℕ
  pub untracked_count : ℕ
  pub ahead : ℕ
  pub behind : ℕ
  pub navigation : Option PublicNavigationTarget

pub record PublicQuotaWindow : Type 0 where
  pub name : String
  pub used_percent : Option Float64
  pub resets_at : Option Instant

pub record PublicQuota : Type 0 where
  pub provider : String
  pub account_key : String
  pub display_label : String
  pub windows : Option (List PublicQuotaWindow)
  pub sampled_at : Option Instant
  pub source_status : SourceStatus
  pub observed_by : String

pub record PublicSourceHealth : Type 0 where
  pub status : SourceStatus
  pub last_attempt_at : Option Instant
  pub last_success_at : Option Instant
  pub message : String
  pub reason : String

pub record DisplayMeta : Type 0 where
  pub display_contract_version : ℕ
  pub kindle_refresh_seconds : ℕ
  pub complete_high_visibility_seconds : ℕ
  pub complete_retention_seconds : ℕ
  pub safe_navigation_enabled : Bool
  pub wake_lock_mode : String

pub record PublicState : Type 0 where
  pub schema_version : ℕ
  pub state_kind : String
  pub generated_at : Instant
  pub host : PublicHost
  pub agents : List PublicAgent
  pub tasks : List PublicTask
  pub alerts : List PublicAlert
  pub system : PublicSystem
  pub network : PublicNetwork
  pub projects : List PublicProject
  pub quota : List PublicQuota
  pub sources : Dict PublicSourceHealth
  pub navigation_targets : List PublicNavigationTarget
  pub meta : DisplayMeta
