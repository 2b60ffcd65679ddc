-- ===== src/Uplink/SchedulerState.antt =====
-- internal/uplink/scheduler.go: the configuration, the state of the loop and its health, and what a
-- round reads from outside.
use dev_board.Prelude.{
  ℕ, zero, suc, ◌-◌, ◌*◌, String, Bool, true, false, Option, none, some, List, [], ◌∷◌, length, ltb,
  ◌==◌, if◌then◌else◌,
}
use dev_board.Prelude.Time.{Instant, Duration, second}
use dev_board.State.Public.{PublicState}
use dev_board.Hub.Validation.{NodeSnapshot}
use dev_board.Uplink.Client.{
  ErrorKind, transient, auth, payload, conflict, SendOutcome, default_request_timeout,
}

pub record SchedulerConfig : Type 0 where
  pub heartbeat_interval : Duration
  pub retry_backoff : List Duration
  pub slow_retry_interval : Duration
  pub admission_window : Duration
  pub request_timeout : Duration

abbrev pub default_ladder : List Duration
default_ladder = (1 * second) ∷ (2 * second) ∷ (4 * second) ∷ (8 * second) ∷ (15 * second) ∷ []

abbrev pub default_scheduler_config : SchedulerConfig
default_scheduler_config = record {
  heartbeat_interval = second;
  retry_backoff = default_ladder;
  slow_retry_interval = 30 * second;
  admission_window = 30 * second;
  request_timeout = default_request_timeout;
}

abbrev pub or_default : Duration → Duration → Duration
or_default d fallback = if d == 0 then fallback else d

abbrev pub ladder_or_default : List Duration → List Duration
ladder_or_default [] = default_ladder
ladder_or_default (d ∷ ds) = d ∷ ds

-- The defaults of `NewScheduler`; a duration that is not positive is read as 0.
unfoldable pub with_defaults : SchedulerConfig → SchedulerConfig
with_defaults c = record {
  heartbeat_interval = or_default c.heartbeat_interval second;
  retry_backoff = ladder_or_default c.retry_backoff;
  slow_retry_interval = or_default c.slow_retry_interval (30 * second);
  admission_window = or_default c.admission_window (30 * second);
  request_timeout = or_default c.request_timeout default_request_timeout;
}

pub record Health : Type 0 where
  pub connected : Bool
  pub last_attempt_at : Option Instant
  pub last_success_at : Option Instant
  pub last_error_class : String

pub record PendingEnvelope : Type 0 where
  pub env : NodeSnapshot
  pub digest : ℕ

pub record SchedState : Type 0 where
  pub session : String
  pub seq : ℕ  -- uint64
  pub last_digest : Option ℕ  -- haveDigest and lastDigest
  pub pending : Option PendingEnvelope
  pub transients : ℕ
  pub retry_at : Instant
  pub eligible_at : Instant
  pub conflict_mode : Bool
  pub resync_owed : Bool
  pub newer_state_owed : Bool

-- The loop's state, the health, and the requests sent so far, the newest first.
pub record Uplink : Type 0 where
  pub st : SchedState
  pub health : Health
  pub sent : List NodeSnapshot

abbrev pub u64_mod : ℕ
u64_mod = 18446744073709551616

-- What one call of `attempt` reads: the clock at each of its reads, the projected state, the result.
pub record Moment : Type 0 where
  pub fresh_at : Instant
  pub built_at : Instant
  pub public : PublicState
  pub attempt_at : Instant
  pub outcome : SendOutcome
  pub done_at : Instant

pub data Wake : Type 0 where
  cancelled changed ticked : Wake

-- What one round of the loop reads.
pub record Round : Type 0 where
  pub ended : Bool  -- ctx.Err() at the top
  pub stopped : Bool  -- ctx.Err() after a wake
  pub owed_at : Instant
  pub catch_at : Instant
  pub wake : Wake
  pub wake_at : Instant
  pub public : PublicState  -- what Public() returns
  pub session : Option String
  pub session_at : Instant
  pub moment : Moment

unfoldable pub new_session_state : String → SchedState
new_session_state session = record {
  session = session;
  seq = 0;
  last_digest = none;
  pending = none;
  transients = 0;
  retry_at = 0;
  eligible_at = 0;
  conflict_mode = false;
  resync_owed = false;
  newer_state_owed = false;
}

abbrev pub new_health : Health
new_health = record {
  connected = false;
  last_attempt_at = none;
  last_success_at = none;
  last_error_class = "";
}

unfoldable pub record_attempt : Instant → Health → Health
record_attempt now h = record h { last_attempt_at = some now }

unfoldable pub record_success : Instant → Health → Health
record_success now h = record h {
  connected = true;
  last_success_at = some now;
  last_error_class = "";
}

unfoldable pub record_failure : String → Health → Health
record_failure class h = record h { connected = false; last_error_class = class }

abbrev pub kind_class : ErrorKind → String
kind_class transient = "transient"
kind_class auth = "auth"
kind_class payload = "payload"
kind_class conflict = "conflict"

-- ladder[i], for an index in range
unfoldable pub nth_delay : ℕ → List Duration → Duration
nth_delay i [] = 0
nth_delay zero (d ∷ ds) = d
nth_delay (suc i) (d ∷ ds) = nth_delay i ds

unfoldable pub backoff_delay : List Duration → ℕ → Duration
backoff_delay ladder n =
    let at_least = if ltb n 1 then 1 else n in
    let at_most = if ltb (length ladder) at_least then length ladder else at_least in
    nth_delay (at_most - 1) ladder
