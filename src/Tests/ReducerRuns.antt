-- ===== src/Tests/ReducerRuns.antt =====
-- Runs of the reducer of the agents' events and of the local store.
use mathlib.Core.Bool.{true≢false}
use mathlib.Core.List.{Memᴰ}
use dev_board.Prelude.{
  ℕ, ◌+◌, ◌*◌, ◌≡◌, refl, ap, inl, String, str_eq, false, Option, none, some, List, [], ◌∷◌, ok,
  err, arith,
}
use dev_board.Prelude.Time.{Instant, second, hour}
use dev_board.State.Enums.{
  Activity, Outcome, Freshness, TaskLifecycle, TaskConfidence, AlertType, NetworkQuality,
}
use dev_board.State.Internal.{AgentState, TaskProjectContext, TaskState}
use dev_board.State.Root.{AlertState, MetricSet, InternalRootState}
use dev_board.State.Store.{Store, update_if, new_store, take_wake, update, finish_update}
use dev_board.State.Store.Laws.{
  StoreOp, updated, woken, store_run, UpToDate, revision-state, wake-UpToDate,
}
use dev_board.Agent.Events.{codex, EventType, Metadata, AgentEvent, validate, not_of_codex}
use dev_board.Agent.Alerts.Replay.{
  AlertCall, upsert, resolve, call_all, replay_set, is_active-call_all,
}
use dev_board.Agent.Alerts.Laws.{IsUnique, is_active}
use dev_board.Agent.Reducer.{ReducerConfig, SessionMeta, find_task}
use dev_board.Agent.Reducer.Prompt.{
  missing_turn_id, is_historical_prompt_replay, begin_turn, has_terminal_card, is_old_prompt,
}
use dev_board.Agent.Reducer.Reduce.{reduce, is_ignored, reduce_prompt}
use dev_board.Agent.Reducer.Closed.{Unchanged, reduce_all, reduce_all-closed}
use dev_board.Agent.Reducer.Owed.{aged, maintain-IsOwed}
use dev_board.Agent.Reducer.Memory.{IsDistinct, IsBounded}
use dev_board.Agent.Reducer.Submissions.{
  started, submitted, maintained, Reachable-IsBounded, submit-err,
}
use dev_board.Agent.Reducer.Remembered.{Call, submission, upkeep, run_calls, submit-run_calls}
use dev_board.Agent.Reducer.Unique.{Reachable-IsUnique}
use dev_board.Prelude.Text.{codes, codes_eq, trim_space, is_blank}
use dev_board.Prelude.Dict.{contains, contains_key, lookup}
use dev_board.Agent.Reducer.Submit.{
  Reducer, new_reducer, refused, submit, submit_unseen, run_event, outcome, session_for,
}
use dev_board.Agent.Reducer.Maintenance.{maintain, maintenance}
use dev_board.Agent.Reducer.Upkeep.{maintenance-maintain}
use dev_board.Tests.Data.{t0}

abbrev no_metric : MetricSet
no_metric = record { used_bytes = none; total_bytes = none; percent_used = none }

abbrev pub working_agent : AgentState
working_agent = record {
  id = "codex:s1";
  provider = "codex";
  session_id = "s1";
  current_turn = record {
    turn_id = "turn-1";
    activity = Activity.working;
    outcome = Outcome.outcome_none;
    freshness = Freshness.fresh;
    started_at = t0;
    completed_at = none;
    updated_at = t0;
  };
  navigation_target_id = "";
}

abbrev pub task_with : TaskLifecycle → Option Instant → TaskState
task_with lifecycle read_at = record {
  id = [];
  provider = "codex";
  session_id = "s1";
  turn_id = "turn-1";
  project = none;
  title = [];
  lifecycle = lifecycle;
  freshness = Freshness.fresh;
  confidence = TaskConfidence.high;
  started_at = t0;
  updated_at = t0;
  checkpoint = none;
  attention = none;
  completion = none;
  read_at = read_at;
  superseded_at = none;
}

abbrev pub root_with : List AgentState → List TaskState → List AlertState → InternalRootState
root_with agents tasks alerts = record {
  schema_version = 1;
  state_kind = "internal";
  generated_at = t0;
  host = record { id = "mac-a"; display_name = "A" };
  agents = agents;
  tasks = tasks;
  alerts = alerts;
  system = record {
    cpu_percent = none;
    memory = no_metric;
    swap = no_metric;
    disk = no_metric;
    process_groups = [];
  };
  network = record {
    quality = NetworkQuality.unknown;
    reachable = none;
    connect_latency_ms = none;
    probe_failure_percent = none;
    receive_bytes_per_second = none;
    send_bytes_per_second = none;
  };
  projects = [];
  quota = [];
  sources = [];
  navigation_targets = [];
  internal_meta = record {
    snapshot_version = 1;
    restored_from_snapshot = false;
    private_note = "";
  };
}

abbrev one_agent : InternalRootState
one_agent = root_with (working_agent ∷ []) (task_with TaskLifecycle.working none ∷ []) []

abbrev nobody : InternalRootState
nobody = root_with [] [] []

abbrev settings : ReducerConfig
settings = record {
  stale_after = 0;
  stale_task_retention = 0;
  complete_high_visibility = 0;
  complete_retention = 0;
  max_seen_event_ids = 0;
  max_old_turns_per_session = 0;
  max_sessions = 0;
}

abbrev clear : StoreOp (Unit {0})
clear =
    updated (some (λ root. str_eq root.host.id "mac-a")) (λ root. ok (record root { tasks = [] }))

abbrev fail : StoreOp (Unit {0})
fail = updated none (λ root. err tt)

abbrev held_store : Store
held_store = record { state = one_agent; revision = 18446744073709551615; wake = false }

-- Nothing commits, so the revision is the one that was read.
unmoved : (store_run (fail ∷ woken ∷ fail ∷ []) held_store).revision ≡ held_store.revision
unfolding update_if update finish_update take_wake
unmoved = refl

revision-state_example : (store_run (fail ∷ woken ∷ fail ∷ []) held_store).state ≡ one_agent
revision-state_example =
    revision-state (fail ∷ woken ∷ fail ∷ []) held_store (omega arith) (omega arith) unmoved

wake-UpToDate_example :
    UpToDate
      (new_store one_agent).state
      (new_store one_agent).revision
      (store_run (fail ∷ clear ∷ []) (take_wake (new_store one_agent)).1)
wake-UpToDate_example = wake-UpToDate (fail ∷ clear ∷ []) (new_store one_agent) (tt, (tt, tt))

abbrev alert_calls : List AlertCall
alert_calls =
    upsert "alert-1" AlertType.complete "codex:s1" (some "turn-1") t0 none none
    ∷ upsert "alert-2" AlertType.stale "codex:s1" (some "turn-1") t0 none none
    ∷ resolve AlertType.complete "codex:s1" none (t0 + second)
    ∷ []

is_active-call_all_example :
    is_active (AlertType.stale, "codex:s1", some "turn-1") (call_all alert_calls [])
    ≡ replay_set alert_calls (λ j. is_active j []) (AlertType.stale, "codex:s1", some "turn-1")
is_active-call_all_example =
    is_active-call_all alert_calls [] (AlertType.stale, "codex:s1", some "turn-1")

abbrev names : ℕ → String
names n = "alert-9"

abbrev reducer : Reducer
unfolding new_reducer
reducer = new_reducer (new_store one_agent) settings

maintenance-maintain_example :
    record ((maintenance (t0 + hour) names reducer).store.state) { generated_at = t0 + hour }
    ≡ maintain reducer.cfg (t0 + hour) names reducer.store.state
maintenance-maintain_example = maintenance-maintain (t0 + hour) names reducer

-- Its session ended, so the turn has no heartbeat to lose.
abbrev resting_agent : AgentState
resting_agent = record working_agent {
  current_turn = record working_agent.current_turn { activity = Activity.idle };
}

abbrev unread : TaskState
unread = task_with TaskLifecycle.complete none

abbrev old_root : InternalRootState
old_root =
    root_with (resting_agent ∷ []) (unread ∷ task_with TaskLifecycle.complete (some t0) ∷ []) []

abbrev limits : ReducerConfig
limits = record {
  stale_after = 10 * second;
  stale_task_retention = 20 * second;
  complete_high_visibility = 0;
  complete_retention = 30 * second;
  max_seen_event_ids = 2;
  max_old_turns_per_session = 2;
  max_sessions = 2;
}

-- The agent at work is overdue after an hour, and the unread result is of its turn.
abbrev overdue_root : InternalRootState
overdue_root = root_with (resting_agent ∷ working_agent ∷ []) (unread ∷ []) []

maintain-IsOwed_example :
    Memᴰ
      (aged limits (t0 + hour) (resting_agent ∷ working_agent ∷ []) unread)
      (maintain limits (t0 + hour) names overdue_root).tasks
maintain-IsOwed_example =
    maintain-IsOwed limits (t0 + hour) names overdue_root unread (omega arith) (inl (refl, refl))
      (Memᴰ.head refl)

abbrev plain : Metadata
plain = record {
  tool_name = none;
  correlation_id = none;
  permission_mode = none;
  notification_type = none;
  error_type = none;
  stop_hook_active = none;
  background_task_count = none;
  session_cron_count = none;
  synthetic_turn_identity = false;
  task_title = none;
  child_subject = none;
  completion_summary = none;
  result_identifier = none;
}

abbrev event_of : EventType → Option String → Instant → AgentEvent
event_of k turn at = record {
  schema_version = 1;
  event_id = "evt-1";
  provider = codex;
  session_id = "s1";
  turn_id = turn;
  event_type = k;
  occurred_at = at;
  cwd = none;
  metadata = plain;
}

abbrev session : String → SessionMeta
session terminal = record {
  current_turn_id = "turn-1";
  terminal_turn_id = terminal;
  current_turn_started_at = t0;
  latest_turn_event_at = t0;
  latest_session_event_at = t0;
  session_ended_at = 0;
  old_turns = [];
}

abbrev digest : List ℕ → List ℕ
digest bytes = bytes

abbrev target : List ℕ → String
target bytes = "0011223344556677"

abbrev no_project : String → Option TaskProjectContext
no_project cwd = none

abbrev late : List (AgentEvent × Option TaskProjectContext × String)
late =
    (event_of EventType.post_tool_use (some "turn-1") (t0 + second), none, "alert-1")
    ∷ (event_of EventType.user_prompt_submit (some "turn-1") (t0 + 2 * second), none, "alert-2")
    ∷ []

not_blank : is_blank "turn-1" ≡ false
unfolding is_blank trim_space codes codes_eq
not_blank = refl

reduce_all-closed_example :
    Unchanged one_agent
      (session "turn-1")
      (reduce_all digest target limits late (one_agent, session "turn-1", []))
reduce_all-closed_example =
    reduce_all-closed digest target limits late (one_agent, session "turn-1", []) "turn-1" refl
      not_blank (λ h. true≢false (ap (λ k. str_eq k "turn-1") h)) ((refl, refl), ((refl, refl), tt))

abbrev fresh_reducer : Reducer
fresh_reducer = record {
  store = record { state = nobody; revision = 0; wake = false };
  cfg = limits;
  seen = [];
  seen_order = [];
  sessions = [];
  session_order = [];
  capabilities = [];
}

abbrev prompt : AgentEvent
prompt = event_of EventType.user_prompt_submit (some "turn-1") t0

abbrev turnless : AgentEvent
turnless = event_of EventType.user_prompt_submit none t0

bounded : IsBounded fresh_reducer
unfolding IsDistinct contains contains_key
bounded = ((omega arith, tt, λ id. refl), (omega arith, tt, λ key. refl))

Reachable-IsBounded_example : IsBounded (
    maintenance
      (t0 + hour)
      names
      (submit digest target no_project prompt "alert-1" fresh_reducer).1)
Reachable-IsBounded_example =
    Reachable-IsBounded digest target no_project fresh_reducer
      (maintenance (t0 + hour) names
        (submit digest target no_project prompt "alert-1" fresh_reducer).1)
      bounded (maintained (submitted started prompt "alert-1") (t0 + hour) names)

alone : IsUnique fresh_reducer.store.state.alerts
unfolding IsUnique
alone = tt

Reachable-IsUnique_example :
    IsUnique (submit digest target no_project prompt "alert-1" fresh_reducer).1.store.state.alerts
Reachable-IsUnique_example =
    Reachable-IsUnique digest target no_project fresh_reducer
      (submit digest target no_project prompt "alert-1" fresh_reducer).1 alone
      (submitted started prompt "alert-1")

accepted : (submit digest target no_project prompt "alert-1" fresh_reducer).0 ≡ ok tt
unfolding submit validate is_blank not_of_codex contains submit_unseen run_event outcome update
    finish_update reduce is_ignored is_historical_prompt_replay reduce_prompt begin_turn session_for
    lookup has_terminal_card find_task is_old_prompt
accepted = refl

valid : validate prompt ≡ ok tt
unfolding validate is_blank trim_space codes codes_eq not_of_codex
valid = refl

abbrev later_prompt : AgentEvent
later_prompt = record prompt { event_id = "event-2"; occurred_at = t0 + second }

-- One more event, with maintenance around it: two ids are remembered.
abbrev more_calls : List Call
more_calls =
    upkeep (t0 + second) names ∷ submission later_prompt "alert-2" ∷ upkeep (t0 + hour) names ∷ []

unseen : contains prompt.event_id fresh_reducer.seen ≡ false
unfolding contains
unseen = refl

submit-run_calls_example :
    submit digest target no_project prompt "alert-3" (
      run_calls digest target no_project more_calls
        (submit digest target no_project prompt "alert-1" fresh_reducer).1)
    ≡ (
      ok tt,
      run_calls digest target no_project more_calls
          (submit digest target no_project prompt "alert-1" fresh_reducer).1,
    )
submit-run_calls_example =
    submit-run_calls digest target no_project prompt prompt "alert-1" "alert-3" more_calls
      fresh_reducer bounded unseen (omega arith) accepted refl valid

refused_prompt :
    (submit digest target no_project turnless "alert-1" fresh_reducer).0
    ≡ err (refused missing_turn_id)
unfolding submit validate is_blank not_of_codex contains submit_unseen run_event outcome update
    finish_update reduce is_ignored is_historical_prompt_replay reduce_prompt begin_turn
refused_prompt = refl

submit-err_example :
    ((submit digest target no_project turnless "alert-1" fresh_reducer).1.store
      ≡ fresh_reducer.store)
    × ((submit digest target no_project turnless "alert-1" fresh_reducer).1.seen
        ≡ fresh_reducer.seen)
    × ((submit digest target no_project turnless "alert-1" fresh_reducer).1.seen_order
        ≡ fresh_reducer.seen_order)
submit-err_example =
    submit-err digest target no_project turnless "alert-1" fresh_reducer (refused missing_turn_id)
      refused_prompt
