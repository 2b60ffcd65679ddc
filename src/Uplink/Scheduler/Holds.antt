-- ===== src/Uplink/Scheduler/Holds.antt =====
-- internal/uplink/scheduler.go: how long the loop waits before it sends again, and under which session.
use dev_board.Prelude.{
  ℕ, ◌≡◌, refl, ap, ◌∙◌, String, true, false, Option, some, List, [], ◌∷◌, All, arith,
}
use dev_board.Prelude.Time.{Instant, before}
use dev_board.State.Public.{PublicState}
use dev_board.Hub.Validation.{NodeSnapshot}
use dev_board.Uplink.Client.{transient, SendOutcome, delivered, rejected}
use dev_board.Uplink.Scheduler.Sessions.{Prepared, refused, again, next, prepare-Prepared}
use dev_board.Uplink.SchedulerState.{
  SchedulerConfig, PendingEnvelope, SchedState, Uplink, Moment, Wake, cancelled, changed, ticked,
  Round,
}
use dev_board.Uplink.Scheduler.{
  pending_fresh, reusable, prepare, on_rejected, finish, settle, attempt, on_changed, on_ticked,
  on_wake, round, rounds,
}

module _ (cfg : SchedulerConfig) (node_id : String) (hash : PublicState → ℕ) where
  prepare-pending :
      (st st' : SchedState) (m : Moment) (p : PendingEnvelope)
      → prepare cfg node_id hash st m ≡ some (st', p)
      → st'.pending ≡ some p
  prepare-pending st st' m p e = go (prepare-Prepared cfg node_id hash st m) e
    where
      go :
          {x : Option (SchedState × PendingEnvelope)}
          → Prepared cfg node_id hash st x
          → x ≡ some (st', p)
          → st'.pending ≡ some p
      go refused e = cc
      go (again q h) e = cc
      go (next q _ _) e = cc

  prepare-again :
      (st : SchedState) (m : Moment) (p : PendingEnvelope)
      → st.pending ≡ some p
      → pending_fresh cfg node_id hash p m.fresh_at ≡ true
      → prepare cfg node_id hash st m ≡ some (st, p)
  unfolding prepare reusable
  prepare-again st m p e f = ground arith

  pub finish-sent :
      (u : Uplink) (st : SchedState) (p : PendingEnvelope) (m : Moment) (o : SendOutcome)
      → (finish cfg node_id hash u st p m o).sent ≡ p.env ∷ u.sent
  unfolding finish
  finish-sent u st p m delivered = refl
  finish-sent u st p m (rejected k) = refl

  pub attempt-sent :
      (u : Uplink) (m : Moment) (st : SchedState) (p : PendingEnvelope)
      → prepare cfg node_id hash u.st m ≡ some (st, p)
      → (attempt cfg node_id hash u m).sent ≡ p.env ∷ u.sent
  unfolding attempt settle
  attempt-sent u m st p e =
      ap (λ x. (settle cfg node_id hash u m x).sent) e ∙ finish-sent u st p m m.outcome

  transient-pending :
      (u : Uplink) (m : Moment) (st : SchedState) (p : PendingEnvelope)
      → prepare cfg node_id hash u.st m ≡ some (st, p)
      → m.outcome ≡ rejected transient
      → (attempt cfg node_id hash u m).st.pending ≡ some p
  unfolding attempt settle finish on_rejected
  transient-pending u m st p e o =
      ap (λ x. (settle cfg node_id hash u m x).st.pending) e
      ∙ ap (λ x. (finish cfg node_id hash u st p m x).st.pending) o
      ∙ prepare-pending u.st st m p e

  -- A transient failure is retried with the same snapshot, session, sequence number and content, while
  -- the snapshot is within the admission window, whatever the local state is by then.
  pub retry_exact :
      (u : Uplink) (m m' : Moment) (st : SchedState) (p : PendingEnvelope)
      → prepare cfg node_id hash u.st m ≡ some (st, p)
      → m.outcome ≡ rejected transient
      → pending_fresh cfg node_id hash p m'.fresh_at ≡ true
      → (attempt cfg node_id hash (attempt cfg node_id hash u m) m').sent ≡ p.env ∷ p.env ∷ u.sent
  retry_exact u m m' st p e o f =
      attempt-sent (attempt cfg node_id hash u m) m' _ p
        (prepare-again _ m' p (transient-pending u m st p e o) f)
      ∙ ap (λ xs. p.env ∷ xs) (attempt-sent u m st p e)

  -- A state whose envelope waits out a delay.
  record Waiting (p : PendingEnvelope) (until : Instant) (sent : List NodeSnapshot) (u : Uplink)
      : Type 0 where
    pub waits_for : u.st.pending ≡ some p
    pub waits_until : u.st.retry_at ≡ until
    pub owes_none : u.st.resync_owed ≡ false
    pub sends_none : u.sent ≡ sent

  on_wake-Waiting :
      (p : PendingEnvelope) (until : Instant) (sent : List NodeSnapshot) (u : Uplink) (r : Round)
      (w : Wake)
      → before r.wake_at until ≡ true
      → Waiting p until sent u
      → Waiting p until sent (on_wake cfg node_id hash u r w)
  unfolding on_wake on_changed on_ticked
  on_wake-Waiting p until sent u r cancelled b w = w
  on_wake-Waiting p until sent u r changed b w =
      let same : u.st.retry_at ≡ until = w.waits_until in
      let v : Uplink = record u { st = record u.st { newer_state_owed = true } } in
      let k : Waiting p until sent v = record {
        waits_for = w.waits_for;
        waits_until = w.waits_until;
        owes_none = w.owes_none;
        sends_none = w.sends_none;
      } in
      let e : u.st.pending ≡ some p = w.waits_for in ground (arith, k)
  on_wake-Waiting p until sent u r ticked b w =
      let same : u.st.retry_at ≡ until = w.waits_until in
      let e : u.st.pending ≡ some p = w.waits_for in ground arith

  round-Waiting :
      (p : PendingEnvelope) (until : Instant) (sent : List NodeSnapshot) (u : Uplink) (r : Round)
      → before r.wake_at until ≡ true
      → Waiting p until sent u
      → Waiting p until sent (round cfg node_id hash u r)
  unfolding round
  round-Waiting p until sent u r b w =
      let e : u.st.pending ≡ some p = w.waits_for in
      let o : u.st.resync_owed ≡ false = w.owes_none in
      ground (arith, on_wake-Waiting p until sent u r r.wake b w)

  rounds-Waiting :
      (p : PendingEnvelope) (until : Instant) (sent : List NodeSnapshot) (u : Uplink)
      (rs : List Round)
      → All (λ r. before r.wake_at until ≡ true) rs
      → Waiting p until sent u
      → Waiting p until sent (rounds cfg node_id hash u rs)
  unfolding rounds
  rounds-Waiting p until sent u [] a w = w
  rounds-Waiting p until sent u (r ∷ rs) (b, a) w =
      let rest =
        rounds-Waiting p until sent (round cfg node_id hash u r) rs a
          (round-Waiting p until sent u r b w) in
      ground (arith, w, rest)

  -- While an envelope waits for its retry and no resynchronization is owed, no run of rounds whose wakes
  -- all come before the retry instant sends anything or gives the envelope up, whatever the local state
  -- and the wakes are.
  pub backoff_respected :
      (p : PendingEnvelope) (u : Uplink) (rs : List Round)
      → u.st.pending ≡ some p
      → u.st.resync_owed ≡ false
      → All (λ r. before r.wake_at u.st.retry_at ≡ true) rs
      → ((rounds cfg node_id hash u rs).sent ≡ u.sent)
        × ((rounds cfg node_id hash u rs).st.pending ≡ some p)
  backoff_respected p u rs e o a =
      let w =
        rounds-Waiting p u.st.retry_at u.sent u rs a
          (record { waits_for = e; waits_until = refl; owes_none = o; sends_none = refl }) in
      (w.sends_none, w.waits_for)
