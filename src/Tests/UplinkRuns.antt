-- ===== src/Tests/UplinkRuns.antt =====
-- Runs of the uplink's loop.
use mathlib.Core.List.{Memᴰ}
use dev_board.Prelude.{
  ℕ, ◌+◌, ◌*◌, ◌≡◌, refl, String, true, false, Option, none, some, List, [], ◌∷◌, arith,
}
use dev_board.Prelude.Dict.{contains}
use dev_board.Prelude.Time.{Instant, second}
use dev_board.State.Public.{PublicState}
use dev_board.Hub.Validation.{NodeSnapshot}
use dev_board.Uplink.Client.{SendOutcome, delivered, rejected, transient, conflict, build}
use dev_board.Uplink.SchedulerState.{
  default_scheduler_config, PendingEnvelope, Uplink, Moment, Wake, changed, ticked, Round,
  new_session_state, new_health,
}
use dev_board.Uplink.Scheduler.{
  pending_fresh, reusable, prepare, on_delivered, on_rejected, finish, settle, attempt, resync,
  pay_resync, on_ticked, on_wake, round, rounds, start,
}
use dev_board.Uplink.Scheduler.Uniqueness.{sequence_unique}
use dev_board.Uplink.Scheduler.Holds.{retry_exact, backoff_respected}
use dev_board.Uplink.Scheduler.Conflicts.{SendsAs, ticked_in_conflict, changed_in_conflict}
use dev_board.Tests.Data.{t0, state_at, snapshot_of}

abbrev hash : PublicState → ℕ
hash p = p.generated_at

abbrev moment_at : Instant → SendOutcome → Moment
moment_at at outcome = record {
  fresh_at = at;
  built_at = at;
  public = state_at "node-a" at;
  attempt_at = at;
  outcome = outcome;
  done_at = at;
}

abbrev round_at : Wake → Option String → SendOutcome → Instant → Round
round_at wake session outcome at = record {
  ended = false;
  stopped = false;
  owed_at = at;
  catch_at = at;
  wake = wake;
  wake_at = at;
  public = state_at "node-a" at;
  session = session;
  session_at = at;
  moment = moment_at at outcome;
}

-- The state after a failure that waits until one second after `t0`.
abbrev envelope : PendingEnvelope
envelope = record { env = snapshot_of "node-a" "s1" 1 t0; digest = 0 }

abbrev waiting : Uplink
waiting = record {
  st = record (new_session_state "s1") {
    seq = 1;
    pending = some envelope;
    transients = 1;
    retry_at = t0 + second;
  };
  health = new_health;
  sent = envelope.env ∷ [];
}

abbrev in_conflict : Uplink
in_conflict = record {
  st = record (new_session_state "s1") { seq = 2; conflict_mode = true };
  health = new_health;
  sent = [];
}

-- A delivery, then a tick that is refused with 409, then the resynchronization under a new session.
abbrev conflict_run : List Round
conflict_run =
    round_at ticked none (rejected conflict) (t0 + second)
    ∷ round_at ticked (some "s2") delivered (t0 + 2 * second)
    ∷ []

conflict_run_lem :
    (rounds default_scheduler_config "node-a" hash
      (start default_scheduler_config "node-a" hash (some "s1") (moment_at t0 delivered))
      conflict_run).sent
    ≡ snapshot_of "node-a" "s2" 1 (t0 + 2 * second)
      ∷ snapshot_of "node-a" "s1" 2 (t0 + second)
      ∷ snapshot_of "node-a" "s1" 1 t0
      ∷ []
unfolding rounds round start attempt settle prepare reusable build finish on_delivered on_rejected
    on_wake on_ticked resync pay_resync new_session_state
conflict_run_lem = refl

second_sent :
    Memᴰ
      (snapshot_of "node-a" "s1" 2 (t0 + second))
      (rounds default_scheduler_config "node-a" hash
        (start default_scheduler_config "node-a" hash (some "s1") (moment_at t0 delivered))
        conflict_run).sent
second_sent = rw conflict_run_lem (Memᴰ.tail (Memᴰ.head refl))

sequence_unique_example :
    snapshot_of "node-a" "s1" 2 (t0 + second) ≡ snapshot_of "node-a" "s1" 2 (t0 + second)
unfolding contains
sequence_unique_example =
    sequence_unique default_scheduler_config "node-a" hash "s1" (moment_at t0 delivered)
      conflict_run (snapshot_of "node-a" "s1" 2 (t0 + second))
      (snapshot_of "node-a" "s1" 2 (t0 + second)) (omega arith) (tt, (refl, tt)) second_sent
      second_sent refl refl

prepared :
    prepare default_scheduler_config "node-a" hash waiting.st
      (moment_at (t0 + second) (rejected transient))
    ≡ some (waiting.st, envelope)
unfolding prepare reusable pending_fresh new_session_state
prepared = refl

still_fresh : pending_fresh default_scheduler_config "node-a" hash envelope (t0 + 3 * second) ≡ true
unfolding pending_fresh
still_fresh = refl

retry_exact_example :
    (attempt default_scheduler_config "node-a" hash
      (attempt default_scheduler_config "node-a" hash waiting
        (moment_at (t0 + second) (rejected transient)))
      (moment_at (t0 + 3 * second) delivered)).sent
    ≡ envelope.env ∷ envelope.env ∷ waiting.sent
retry_exact_example =
    retry_exact default_scheduler_config "node-a" hash waiting
      (moment_at (t0 + second) (rejected transient)) (moment_at (t0 + 3 * second) delivered)
      waiting.st envelope prepared refl still_fresh

backoff_respected_example :
    ((rounds default_scheduler_config "node-a" hash waiting
        (round_at ticked none delivered t0 ∷ round_at changed none delivered (t0 + 5) ∷ [])).sent
      ≡ waiting.sent)
    × ((rounds default_scheduler_config "node-a" hash waiting (
          round_at ticked none delivered t0
          ∷ round_at changed none delivered (t0 + 5)
          ∷ [])).st.pending
        ≡ some envelope)
unfolding new_session_state
backoff_respected_example =
    backoff_respected default_scheduler_config "node-a" hash envelope waiting
      (round_at ticked none delivered t0 ∷ round_at changed none delivered (t0 + 5) ∷ []) refl refl
      (refl, (refl, tt))

ticked_in_conflict_example :
    SendsAs
      (some "s2")
      []
      (on_wake default_scheduler_config "node-a" hash in_conflict
        (round_at ticked (some "s2") delivered t0)
        ticked).sent
unfolding new_session_state
ticked_in_conflict_example =
    ticked_in_conflict default_scheduler_config "node-a" hash in_conflict
      (round_at ticked (some "s2") delivered t0) refl refl

changed_in_conflict_example :
    (e : NodeSnapshot) × ((on_wake default_scheduler_config "node-a" hash in_conflict
        (round_at changed (some "s2") delivered t0)
        changed).sent
      ≡ e ∷ [])
    × (e.session_id ≡ "s1")
unfolding new_session_state
changed_in_conflict_example =
    changed_in_conflict default_scheduler_config "node-a" hash in_conflict
      (round_at changed (some "s2") delivered t0) refl refl refl (omega arith) refl refl
