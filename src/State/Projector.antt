-- ===== src/State/Projector.antt =====
-- internal/state/task_ack.go and internal/state/projector.go: the acknowledgement of a task by a display,
-- and the sanitized state that leaves the node. The projector walks a map of its valid targets to find one
-- for a task, in an order that Go does not fix: it is the argument `walk` here.
pub mod Targets
pub mod Exposed
use dev_board.Prelude.{
  ℕ, String, str_eq, Bool, true, false, not, ◌&&◌, ◌||◌, Option, none, some, List, [], ◌∷◌, map,
  if◌then◌else◌,
}
use dev_board.Prelude.Text.{text_of}
use dev_board.Prelude.Dict.{Dict, lookup}
use dev_board.Prelude.Time.{Instant}
use dev_board.State.Enums.{SourceStatus, is_terminal}
use dev_board.State.Internal.{
  AgentState, TaskProjectContext, TaskCheckpoint, TaskAttention, TaskCompletion, TaskState,
}
use dev_board.State.Root.{
  AlertState, MetricSet, ProcessGroup, SystemState, NetworkState, ProjectState, QuotaWindow,
  QuotaState, SourceHealth, NavigationTarget, InternalRootState,
}
use dev_board.State.Public.{
  PublicAgent, PublicTask, PublicTaskProject, PublicTaskCheckpoint, PublicTaskAttention,
  PublicTaskCompletion, PublicAlert, PublicMetricSet, PublicProcessGroup, PublicSystem,
  PublicNetwork, PublicProject, PublicQuotaWindow, PublicQuota, PublicSourceHealth,
  PublicNavigationTarget, PublicState,
}
use dev_board.State.Projector.Targets.{
  select_targets, find_by_id, public_target, agent_target_matches, task_target_matches,
  project_target_matches,
}

pub record ProjectionConfig : Type 0 where
  pub kindle_refresh_seconds : ℕ
  pub complete_high_visibility_seconds : ℕ
  pub complete_retention_seconds : ℕ

unfoldable pub public_source_message : SourceStatus → String
public_source_message SourceStatus.available = "Source available."
public_source_message SourceStatus.degraded = "Source degraded."
public_source_message _ = "Source unavailable."

unfoldable pub public_source_reason : String → String
public_source_reason reason =
    if str_eq reason "cli_unavailable"
      || str_eq reason "configuration_required"
      || str_eq reason "command_timeout"
      || str_eq reason "permission_denied"
      || str_eq reason "invalid_response"
      || str_eq reason "command_failed"
    then reason
    else ""

abbrev pub navigation_if : Bool → Option NavigationTarget → Option PublicNavigationTarget
navigation_if true (some t) = some (public_target t)
navigation_if _ _ = none

abbrev pub matches_if : (NavigationTarget → Bool) → Option NavigationTarget → Bool
matches_if p none = false
matches_if p (some t) = p t

unfoldable pub public_agent : List NavigationTarget → AgentState → PublicAgent
public_agent targets a =
    let found = find_by_id a.navigation_target_id targets in
    record {
      id = a.id;
      provider = a.provider;
      session_id = a.session_id;
      current_turn = record {
        turn_id = a.current_turn.turn_id;
        activity = a.current_turn.activity;
        outcome = a.current_turn.outcome;
        freshness = a.current_turn.freshness;
        started_at = a.current_turn.started_at;
        completed_at = a.current_turn.completed_at;
        updated_at = a.current_turn.updated_at;
      };
      navigation = navigation_if (matches_if (agent_target_matches a) found) found;
    }

unfoldable pub first_match :
    (NavigationTarget → Bool) → List NavigationTarget → Option NavigationTarget
first_match p [] = none
first_match p (t ∷ ts) = let rest = first_match p ts in if p t then some t else rest

abbrev pub public_project_context : Option TaskProjectContext → Option PublicTaskProject
public_project_context none = none
public_project_context (some p) = some (record {
  project_name = text_of p.project_name;
  worktree_label = p.worktree_label;
  branch = p.branch;
})

abbrev pub public_checkpoint : Option TaskCheckpoint → Option PublicTaskCheckpoint
public_checkpoint none = none
public_checkpoint (some c) = some (record { kind = c.kind; text = text_of c.text; at = c.at })

abbrev pub public_attention : Option TaskAttention → Option PublicTaskAttention
public_attention none = none
public_attention (some a) = some (record { kind = a.kind; text = text_of a.text; at = a.at })

abbrev pub public_text : Option (List ℕ) → Option String
public_text none = none
public_text (some s) = some (text_of s)

abbrev pub public_completion : Option TaskCompletion → Option PublicTaskCompletion
public_completion none = none
public_completion (some c) = some (record {
  summary = public_text c.summary;
  result_identifier = public_text c.result_identifier;
  at = c.at;
})

abbrev pub is_unset : Option Instant → Bool
is_unset none = true
is_unset (some t) = false

unfoldable pub public_task : Bool → List NavigationTarget → TaskState → PublicTask
public_task safe_navigation walk t = record {
  id = text_of t.id;
  provider = t.provider;
  navigation = navigation_if safe_navigation (first_match (task_target_matches t) walk);
  project = public_project_context t.project;
  title = text_of t.title;
  lifecycle = t.lifecycle;
  freshness = t.freshness;
  confidence = t.confidence;
  started_at = t.started_at;
  updated_at = t.updated_at;
  checkpoint = public_checkpoint t.checkpoint;
  attention = public_attention t.attention;
  completion = public_completion t.completion;
  unread = is_terminal t.lifecycle && is_unset t.read_at;
  superseded_at = t.superseded_at;
}

unfoldable pub public_project : List NavigationTarget → ProjectState → PublicProject
public_project targets p =
    let found = find_by_id p.navigation_target_id targets in
    record {
      project_id = p.project_id;
      display_name = p.display_name;
      worktree_id = p.worktree_id;
      repository_identity = p.repository_identity;
      branch = p.branch;
      dirty = p.dirty;
      modified_count = p.modified_count;
      untracked_count = p.untracked_count;
      ahead = p.ahead;
      behind = p.behind;
      navigation = navigation_if (matches_if (project_target_matches p) found) found;
    }

unfoldable pub public_alert : AlertState → PublicAlert
public_alert a = record {
  alert_id = a.alert_id;
  type = a.type;
  agent_id = a.agent_id;
  turn_id = a.turn_id;
  active = a.active;
  created_at = a.created_at;
  updated_at = a.updated_at;
  high_visibility_until = a.high_visibility_until;
  retain_until = a.retain_until;
}

abbrev pub public_metric : MetricSet → PublicMetricSet
public_metric m = record {
  used_bytes = m.used_bytes;
  total_bytes = m.total_bytes;
  percent_used = m.percent_used;
}

abbrev pub public_group : ProcessGroup → PublicProcessGroup
public_group g = record {
  name = g.name;
  matched_pid_count = g.matched_pid_count;
  resident_memory_bytes = g.resident_memory_bytes;
  cpu_percent = g.cpu_percent;
}

unfoldable pub public_system : SystemState → PublicSystem
public_system s = record {
  cpu_percent = s.cpu_percent;
  memory = public_metric s.memory;
  swap = public_metric s.swap;
  disk = public_metric s.disk;
  process_groups = map public_group s.process_groups;
}

unfoldable pub public_network : NetworkState → PublicNetwork
public_network n = record {
  quality = n.quality;
  reachable = n.reachable;
  connect_latency_ms = n.connect_latency_ms;
  probe_failure_percent = n.probe_failure_percent;
  receive_bytes_per_second = n.receive_bytes_per_second;
  send_bytes_per_second = n.send_bytes_per_second;
}

abbrev pub public_window : QuotaWindow → PublicQuotaWindow
public_window w = record { name = w.name; used_percent = w.used_percent; resets_at = w.resets_at }

unfoldable pub project_quota_windows : Option (List QuotaWindow) → Option (List PublicQuotaWindow)
project_quota_windows none = none
project_quota_windows (some ws) = some (map public_window ws)

abbrev pub status_of : Option SourceHealth → SourceStatus
status_of none = SourceStatus.unavailable
status_of (some s) = s.status

unfoldable pub public_quota : Dict SourceHealth → QuotaState → PublicQuota
public_quota sources q = record {
  provider = q.provider;
  account_key = q.account_key;
  display_label = q.display_label;
  windows = project_quota_windows q.windows;
  sampled_at = q.sampled_at;
  source_status = status_of (lookup q.source_id sources);
  observed_by = q.observed_by;
}

unfoldable pub public_source : SourceHealth → PublicSourceHealth
public_source s = record {
  status = s.status;
  last_attempt_at = s.last_attempt_at;
  last_success_at = s.last_success_at;
  message = public_source_message s.status;
  reason = public_source_reason s.reason;
}

unfoldable pub project_public :
    Bool
    → ProjectionConfig
    → Instant
    → (List NavigationTarget → List NavigationTarget)
    → InternalRootState
    → PublicState
project_public safe_navigation cfg now walk root =
    let targets = select_targets root.host.id root.navigation_targets [] in
    record {
      schema_version = root.schema_version;
      state_kind = "public";
      generated_at = now;
      host = record { id = root.host.id; display_name = root.host.display_name };
      agents = map (public_agent targets) root.agents;
      tasks = map (public_task safe_navigation (walk targets)) root.tasks;
      alerts = map public_alert root.alerts;
      system = public_system root.system;
      network = public_network root.network;
      projects = map (public_project targets) root.projects;
      quota = map (public_quota root.sources) root.quota;
      sources = map (λ (id, s). (id, public_source s)) root.sources;
      navigation_targets = map public_target targets;
      meta = record {
        display_contract_version = 1;
        kindle_refresh_seconds = cfg.kindle_refresh_seconds;
        complete_high_visibility_seconds = cfg.complete_high_visibility_seconds;
        complete_retention_seconds = cfg.complete_retention_seconds;
        safe_navigation_enabled = safe_navigation;
        wake_lock_mode = "best-effort";
      };
    }
