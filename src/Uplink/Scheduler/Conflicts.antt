-- ===== src/Uplink/Scheduler/Conflicts.antt =====
-- internal/uplink/scheduler.go: what the loop sends after the hub has refused its session.
use dev_board.Prelude.{
  ℕ, ◌≤◌, ◌≡◌, refl, ◌≢◌, ◌⊎◌, inl, inr, String, eq_iff, true, false, Option, none, some, List, ◌∷◌,
  arith,
}
use dev_board.State.Public.{PublicState}
use dev_board.Hub.Validation.{NodeSnapshot}
use dev_board.Uplink.Client.{build}
use dev_board.Uplink.SchedulerState.{
  SchedulerConfig, PendingEnvelope, SchedState, Uplink, Moment, changed, ticked, Round,
}
use dev_board.Uplink.Scheduler.{
  prepare, settle, attempt, resync, unchanged, resync_then_attempt, on_changed, on_ticked, on_wake,
}
use dev_board.Uplink.Scheduler.Sessions.{Prepared, refused, again, next, prepare-Prepared}
use dev_board.Uplink.Scheduler.Holds.{attempt-sent, finish-sent}

-- The requests grew by nothing, or by one request of the session.
abbrev pub SendsAs : Option String → List NodeSnapshot → List NodeSnapshot → Type 0
SendsAs none old new = new ≡ old
SendsAs (some session) old new =
    (new ≡ old) ⊎ ((e : NodeSnapshot) × (new ≡ e ∷ old) × (e.session_id ≡ session))

module _ (cfg : SchedulerConfig) (node_id : String) (hash : PublicState → ℕ) where
  -- An attempt with nothing pending sends at most one request, under the active session.
  attempt-SendsAs :
      (u : Uplink) (m : Moment)
      → u.st.pending ≡ none
      → SendsAs (some u.st.session) u.sent (attempt cfg node_id hash u m).sent
  unfolding attempt settle
  attempt-SendsAs u m e = go (prepare-Prepared cfg node_id hash u.st m)
    where
      go :
          {x : Option (SchedState × PendingEnvelope)}
          → Prepared cfg node_id hash u.st x
          → SendsAs (some u.st.session) u.sent (settle cfg node_id hash u m x).sent
      go refused = inl refl
      go (again p h) = absurd (cc (e, h))
      go (next p i _) = inr (p.env, finish-sent cfg node_id hash u _ p m m.outcome, i)

  resync_then_attempt-SendsAs :
      (u : Uplink) (r : Round)
      → u.st.pending ≡ none
      → SendsAs r.session u.sent (resync_then_attempt cfg node_id hash u r).sent
  unfolding resync_then_attempt resync
  resync_then_attempt-SendsAs u r e = go r.session
    where
      go :
          (o : Option String)
          → let v : Uplink = elim o [
            | none ↦ (resync cfg node_id hash u none r.session_at).0
            | some x ↦
                attempt cfg node_id hash
                  (resync cfg node_id hash u (some x) r.session_at).0
                  r.moment
          ] in
            SendsAs o u.sent v.sent
      go none = refl
      go (some x) = attempt-SendsAs _ r.moment e

  quiet : (o : Option String) (sent : List NodeSnapshot) → SendsAs o sent sent
  quiet none sent = refl
  quiet (some x) sent = inl refl

  -- In conflict mode with nothing pending, a tick sends nothing unless the entropy source gives a session
  -- identity, and then at most one request, under that identity.
  pub ticked_in_conflict :
      (u : Uplink) (r : Round)
      → u.st.conflict_mode ≡ true
      → u.st.pending ≡ none
      → SendsAs r.session u.sent (on_wake cfg node_id hash u r ticked).sent
  unfolding on_wake on_ticked
  ticked_in_conflict u r c e =
      ground (arith, quiet r.session u.sent, resync_then_attempt-SendsAs u r e)

  prepare-built :
      (st : SchedState) (m : Moment)
      → m.public.host.id ≡ node_id
      → prepare cfg node_id hash st m ≢ none
  unfolding prepare build
  prepare-built st m h e = grind (arith, eq_iff)

  build-next :
      (st : SchedState) (m : Moment)
      → st.pending ≡ none
      → m.public.host.id ≡ node_id
      → (q : SchedState) × (p : PendingEnvelope) × (prepare cfg node_id hash st m ≡ some (q, p))
        × (p.env.session_id ≡ st.session)
  build-next st m e h = go (prepare-Prepared cfg node_id hash st m) (prepare-built st m h)
    where
      go :
          {x : Option (SchedState × PendingEnvelope)}
          → Prepared cfg node_id hash st x
          → x ≢ none
          → (q : SchedState) × (p : PendingEnvelope) × (x ≡ some (q, p))
            × (p.env.session_id ≡ st.session)
      go refused n = absurd (n refl)
      go (again p h) n = absurd (cc (e, h))
      go (next p i _) n = (_, p, refl, i)

  -- In conflict mode with nothing pending and past the slow-retry instant, a visible change of the local
  -- state sends a request under the session that is still the active one: no new identity is drawn.
  -- The loop is not stopped, and the state names the host of the node.
  pub changed_in_conflict :
      (u : Uplink) (r : Round)
      → u.st.conflict_mode ≡ true
      → u.st.pending ≡ none
      → r.stopped ≡ false
      → u.st.eligible_at ≤ r.wake_at
      → unchanged cfg node_id hash u.st r.public ≡ false
      → r.moment.public.host.id ≡ node_id
      → (e : NodeSnapshot) × ((on_wake cfg node_id hash u r changed).sent ≡ e ∷ u.sent)
        × (e.session_id ≡ u.st.session)
  unfolding on_wake on_changed
  changed_in_conflict u r c e s w d h =
      let (q, p, f, i) = build-next u.st r.moment e h in
      (p.env, ground (arith, attempt-sent cfg node_id hash u r.moment q p f), i)
