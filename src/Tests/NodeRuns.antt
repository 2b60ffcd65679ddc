-- ===== src/Tests/NodeRuns.antt =====
-- Runs of what a node shows, and of the pull of peers.
use dev_board.Prelude.{
  ℕ, ◌+◌, ◌*◌, ◌≡◌, ◌≢◌, refl, String, Bool, true, false, Option, none, some, List, [], ◌∷◌, All,
  ok, arith,
}
use dev_board.Prelude.Time.{Instant, second}
use dev_board.Prelude.Dict.{lookup, insert}
use dev_board.Prelude.Text.{codes_eq}
use dev_board.State.Enums.{TaskLifecycle, NavigationAction, NavigationKind}
use dev_board.State.Internal.{TaskState}
use dev_board.State.Root.{NavigationTarget, InternalRootState}
use dev_board.State.Public.{PublicAgent, PublicTask, PublicProject, PublicState}
use dev_board.State.Projector.{ProjectionConfig, project_public}
use dev_board.State.Projector.Targets.{
  valid_target, actions_allowed, find_by_id, focuses_agent, contains_action, task_target_matches,
}
use dev_board.State.Projector.Exposed.{IsPublished, Listed, project_public-Listed}
use dev_board.State.Acknowledge.{
  any_task_of, mark_read, acknowledge_task, navigation_target_has_task,
}
use dev_board.State.Acknowledge.Laws.{acknowledge_task_again}
use dev_board.Hub.Dashboard.{unavailable, snapshot_fresh}
use dev_board.Navigation.{Action}
use dev_board.Navigation.Execute.{Command, open_link, open_app, execute}
use dev_board.Navigation.Execute.Laws.{IsSafe, execute-IsSafe}
use dev_board.Multihost.Peers.{
  PeerConfig, PeerRecord, PeerSnapshotStore, new_record, new_peer_snapshot_store, record_or_zero,
  after_failed, mark_failure, peer_host,
}
use dev_board.Multihost.Poller.{PeerReply, unreachable, answered}
use dev_board.Multihost.Honest.{IsHonest, poll_all, poll_all-IsHonest}
use dev_board.Multihost.Shown.{mark_failure_shown}
use dev_board.Tests.Data.{t0, state_at}
use dev_board.Tests.ReducerRuns.{root_with, working_agent, task_with}

abbrev codex_target : NavigationTarget
codex_target = record {
  target_id = "target-1";
  kind = NavigationKind.agent;
  host_id = "mac-a";
  allowed_actions = NavigationAction.focus_agent ∷ [];
  detail = record {
    agent_id = "codex:s1";
    provider = "codex";
    session_id = "s1";
    turn_id = "";
    project_id = "";
    worktree_id = "";
    worktree_root = "";
    preferred_app = "Codex";
    focus_locator = "s1";
    app_ref = "";
  };
}

abbrev task_id : List ℕ
task_id = 116 ∷ []

abbrev finished : TaskState
finished = record (task_with TaskLifecycle.complete none) { id = task_id }

abbrev node_root : InternalRootState
node_root = record (root_with (working_agent ∷ []) (finished ∷ []) []) {
  navigation_targets = codex_target ∷ [];
}

marked : (acknowledge_task task_id "target-1" t0 node_root).0 ≡ true
unfolding acknowledge_task navigation_target_has_task codes_eq find_by_id focuses_agent
    contains_action any_task_of task_target_matches mark_read
marked = refl

acknowledge_task_again_example :
    acknowledge_task task_id "target-1"
      (t0 + second)
      (acknowledge_task task_id "target-1" t0 node_root).1
    ≡ (true, (acknowledge_task task_id "target-1" t0 node_root).1)
acknowledge_task_again_example =
    acknowledge_task_again task_id "target-1" t0 (t0 + second) node_root marked refl

abbrev shown_as : ProjectionConfig
shown_as = record {
  kindle_refresh_seconds = 60;
  complete_high_visibility_seconds = 30;
  complete_retention_seconds = 1800;
}

abbrev in_order : List NavigationTarget → List NavigationTarget
in_order ts = ts

project_public-Listed_example :
    All
      (λ (a : PublicAgent).
        Listed (project_public true shown_as t0 in_order node_root).navigation_targets a.navigation)
      (project_public true shown_as t0 in_order node_root).agents
    × All
        (λ (t : PublicTask).
          Listed
            (project_public true shown_as t0 in_order node_root).navigation_targets
            t.navigation)
        (project_public true shown_as t0 in_order node_root).tasks
    × All
        (λ (p : PublicProject).
          Listed
            (project_public true shown_as t0 in_order node_root).navigation_targets
            p.navigation)
        (project_public true shown_as t0 in_order node_root).projects
    × All
        (IsPublished node_root.navigation_targets node_root.host.id)
        (project_public true shown_as t0 in_order node_root).navigation_targets
project_public-Listed_example =
    project_public-Listed true shown_as t0 in_order node_root (λ ts t m. m)

-- A copy that succeeds, and a decoder that knows one body.
abbrev copy : PublicState → Option PublicState
copy s = some s

abbrev decoder : List ℕ → Option PublicState
decoder [] = none
decoder (b ∷ body) = some (state_at "mac-b" t0)

abbrev any_endpoint : String → Bool
any_endpoint s = true

abbrev peer_b : PeerConfig
peer_b = record { expected_host_id = "mac-b"; endpoint = "10.0.0.2:8080" }

copies : (s t : PublicState) → copy s ≡ some t → t.host.id ≡ s.host.id
copies s t h = ground (arith, h)

abbrev polls : List (PeerConfig × Instant × Instant × PeerReply)
polls =
    (peer_b, t0, t0 + second, answered 200 none (some (1 ∷ [])))
    ∷ (peer_b, t0 + second, t0 + 2 * second, unreachable)
    ∷ []

poll_all-IsHonest_example :
    IsHonest "mac-a"
      (poll_all copy decoder any_endpoint "mac-a" polls (new_peer_snapshot_store (peer_b ∷ [])))
poll_all-IsHonest_example =
    poll_all-IsHonest copy decoder any_endpoint "mac-a" copies (peer_b ∷ []) polls

abbrev held : PeerRecord
held = record (new_record peer_b) {
  last_success_at = some t0;
  last_good = some (state_at "mac-b" t0);
}

abbrev peer_store : PeerRecord → PeerSnapshotStore
peer_store rec = record { order = "mac-b" ∷ []; records = ("mac-b", rec) ∷ [] }

abbrev after_failure : PeerSnapshotStore
unfolding after_failed
after_failure = peer_store (after_failed held (t0 + second) unavailable "Peer unavailable.")

known : lookup "mac-b" (peer_store held).records ≡ some held
unfolding lookup
known = refl

failure :
    mark_failure "mac-b" (t0 + second) unavailable "Peer unavailable." (peer_store held)
    ≡ ok after_failure
unfolding mark_failure lookup insert after_failure
failure = refl

mark_failure_shown_example :
    ((peer_host copy "mac-b" (record_or_zero (lookup "mac-b" after_failure.records)) t0).state
      ≡ (peer_host copy "mac-b" held t0).state)
    × ((peer_host copy "mac-b"
          (record_or_zero (lookup "mac-b" after_failure.records))
          t0).snapshot_freshness
        ≢ some snapshot_fresh)
mark_failure_shown_example =
    mark_failure_shown copy "mac-b" held (t0 + second) t0 unavailable "Peer unavailable."
      (peer_store held) after_failure known failure

abbrev focus_it : Action
focus_it = record {
  id = "action-1";
  target_id = "target-1";
  task_id = "";
  action = NavigationAction.focus_agent;
  issued_at = t0;
}

-- Links fail, applications open.
abbrev opens_apps : Command → Bool
opens_apps (open_link link) = false
opens_apps (open_app app) = true

codex_target-valid : valid_target codex_target ≡ true
unfolding valid_target actions_allowed
codex_target-valid = refl

execute-IsSafe_example : All IsSafe (execute opens_apps true node_root focus_it).0
execute-IsSafe_example = execute-IsSafe opens_apps true node_root focus_it (codex_target-valid, tt)
