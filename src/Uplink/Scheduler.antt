-- ===== src/Uplink/Scheduler.antt =====
-- internal/uplink/scheduler.go. A round of the loop of `Run` is a step on the state of the scheduler;
-- what it samples from outside (the clock, the local state, the entropy source, the network, which
-- channel wakes it) is its input. The clock is read anew at each place where the source reads it.
-- The polling of navigation actions and the logging are left out: they do not touch this state.
pub mod Sessions
pub mod Holds
pub mod Uniqueness
pub mod Conflicts
use dev_board.Uplink.SchedulerState.{
  Health, Moment, PendingEnvelope, Round, SchedState, SchedulerConfig, Uplink, Wake, backoff_delay,
  cancelled, changed, default_ladder, default_scheduler_config, kind_class, ladder_or_default,
  new_health, new_session_state, nth_delay, or_default, record_attempt, record_failure,
  record_success, ticked, u64_mod, with_defaults,
}
use dev_board.Prelude.{
  ℕ, zero, suc, ◌+◌, ◌-◌, ◌*◌, ◌%◌, String, str_eq, Bool, true, false, not, ◌&&◌, ◌||◌, Option,
  none, some, List, [], ◌∷◌, length, ltb, leb, ◌==◌, if◌then◌else◌,
}
use dev_board.Prelude.Time.{Instant, Duration, second, before}
use dev_board.State.Public.{PublicState}
use dev_board.Hub.Validation.{NodeSnapshot}
use dev_board.Uplink.Client.{
  ErrorKind, transient, auth, payload, conflict, SendOutcome, delivered, rejected, build, digest,
  default_request_timeout,
}

module _ (cfg : SchedulerConfig) (node_id : String) (hash_public_state : PublicState → ℕ) where
  -- p.env.SentAt.Add(AdmissionWindow).After(now)
  unfoldable pub pending_fresh : PendingEnvelope → Instant → Bool
  pending_fresh p now = before now (p.env.sent_at + cfg.admission_window)

  -- The envelope of an exact retry, if there is one that has not expired.
  unfoldable pub reusable : SchedState → Instant → Option PendingEnvelope
  reusable st now = elim st.pending [
    | none ↦ none
    | some p ↦ if pending_fresh p now then some p else none
  ]

  -- The pending envelope of this attempt and the sequence number issued last; `none` is a build that was refused.
  unfoldable pub prepare : SchedState → Moment → Option (SchedState × PendingEnvelope)
  prepare st m = elim (reusable st m.fresh_at) [
    | some p ↦ some (st, p)
    | none ↦ elim (build node_id st.session ((st.seq + 1) % u64_mod) m.built_at m.public) [
      | none ↦ none
      | some snap ↦
          let p : PendingEnvelope = record {
            env = snap;
            digest = digest hash_public_state snap.state;
          } in
          some (record st { seq = snap.sequence; pending = some p }, p)
    ]
  ]

  unfoldable pub on_delivered : SchedState → PendingEnvelope → SchedState
  on_delivered st p = record st {
    last_digest = some p.digest;
    pending = none;
    transients = 0;
    conflict_mode = false;
    resync_owed = false;
    eligible_at = 0;
  }

  unfoldable pub on_rejected : ErrorKind → SchedState → Instant → SchedState
  on_rejected transient st now = record st {
    transients = st.transients + 1;
    retry_at = now + backoff_delay cfg.retry_backoff (st.transients + 1);
  }
  on_rejected auth st now = record st {
    pending = none;
    transients = 0;
    eligible_at = now + cfg.slow_retry_interval;
  }
  on_rejected payload st now = record st { pending = none; transients = 0 }
  on_rejected conflict st now =
      if not st.conflict_mode
      then record st { pending = none; transients = 0; conflict_mode = true; resync_owed = true }
      else record st { pending = none; transients = 0; eligible_at = now + cfg.slow_retry_interval }

  unfoldable pub finish : Uplink → SchedState → PendingEnvelope → Moment → SendOutcome → Uplink
  finish u st p m delivered = record {
    st = on_delivered st p;
    health = record_success m.done_at (record_attempt m.attempt_at u.health);
    sent = p.env ∷ u.sent;
  }
  finish u st p m (rejected kind) = record {
    st = on_rejected kind st m.done_at;
    health = record_failure (kind_class kind) (record_attempt m.attempt_at u.health);
    sent = p.env ∷ u.sent;
  }

  -- What follows on `prepare`; after a refused build the expired envelope is gone.
  unfoldable pub settle : Uplink → Moment → Option (SchedState × PendingEnvelope) → Uplink
  settle u m none = record u {
    st = record u.st { pending = none };
    health = record_failure "local_build" u.health;
  }
  settle u m (some (st, p)) = finish u st p m m.outcome

  unfoldable pub attempt : Uplink → Moment → Uplink
  attempt u m = settle u m (prepare u.st m)

  -- `resync`, with what the entropy source gave; and whether there is a new identity.
  unfoldable pub resync : Uplink → Option String → Instant → Uplink × Bool
  resync u none now = (
    record u {
      st = record u.st { eligible_at = now + cfg.slow_retry_interval };
      health = record_failure "session_entropy" u.health;
    },
    false,
  )
  resync u (some session) now = (record u { st = record u.st { session = session; seq = 0 } }, true)

  abbrev pub unchanged : SchedState → PublicState → Bool
  unchanged st pub' = elim st.last_digest [
    | none ↦ false
    | some d ↦ digest hash_public_state pub' == d
  ]

  abbrev pub has_pending : SchedState → Bool
  has_pending st = elim st.pending [ none ↦ false | some _ ↦ true ]

  -- A new identity, and an attempt if there is one.
  unfoldable pub resync_then_attempt : Uplink → Round → Uplink
  resync_then_attempt u r = elim r.session [
    | none ↦ (resync u none r.session_at).0
    | some session ↦ attempt (resync u (some session) r.session_at).0 r.moment
  ]

  -- The same at the top of the loop, where a new identity settles the debt before the attempt.
  unfoldable pub pay_resync : Uplink → Round → Uplink
  pay_resync u r = elim r.session [
    | none ↦ (resync u none r.session_at).0
    | some session ↦
        let v = (resync u (some session) r.session_at).0 in
        attempt (record v { st = record v.st { resync_owed = false } }) r.moment
  ]

  -- case <-Changes()
  unfoldable pub on_changed : Uplink → Round → Uplink
  on_changed u r =
      if has_pending u.st
      then (let v : Uplink = record u { st = record u.st { newer_state_owed = true } } in
          if not (before r.wake_at u.st.retry_at) then attempt v r.moment else v)
      else if before r.wake_at u.st.eligible_at
      then u
      else if unchanged u.st r.public
      then u
      else attempt u r.moment

  -- case <-ticker.C
  unfoldable pub on_ticked : Uplink → Round → Uplink
  on_ticked u r =
      if has_pending u.st
      then (if not (before r.wake_at u.st.retry_at) then attempt u r.moment else u)
      else if before r.wake_at u.st.eligible_at
      then u
      else if u.st.conflict_mode
      then resync_then_attempt u r
      else attempt u r.moment

  unfoldable pub on_wake : Uplink → Round → Wake → Uplink
  on_wake u r cancelled = u
  on_wake u r changed = if r.stopped then u else on_changed u r
  on_wake u r ticked = if r.stopped then u else on_ticked u r

  -- One round of the loop of `Run`. The flag of newer state is cleared before its digest is compared.
  unfoldable pub round : Uplink → Round → Uplink
  round u r =
      if u.st.resync_owed && not (before r.owed_at u.st.eligible_at)
      then pay_resync u r
      else if not (has_pending u.st)
          && u.st.newer_state_owed
          && not (before r.catch_at u.st.eligible_at)
      then (let v : Uplink = record u { st = record u.st { newer_state_owed = false } } in
          if unchanged u.st r.public then on_wake v r r.wake else attempt v r.moment)
      else on_wake u r r.wake

  unfoldable pub rounds : Uplink → List Round → Uplink
  rounds u [] = u
  rounds u (r ∷ rs) = let rest = rounds (round u r) rs in if r.ended then u else rest

  -- `Run` up to its loop: the session and the first attempt; `none` where there is no entropy.
  unfoldable pub start : Option String → Moment → Uplink
  start none m = record {
    st = new_session_state "";
    health = record_failure "session_entropy" new_health;
    sent = [];
  }
  start (some session) m =
      attempt (record { st = new_session_state session; health = new_health; sent = [] }) m
