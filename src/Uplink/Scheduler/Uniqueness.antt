-- ===== src/Uplink/Scheduler/Uniqueness.antt =====
-- internal/uplink/scheduler.go: the identity of a request over a run of the loop.
use dev_board.Prelude.{
  ℕ, suc, ◌+◌, ◌≤◌, ◌<◌, ◌%◌, ◌≡◌, refl, sym, ap, subst, ◌∙◌, inl, inr, String, eq_iff, true, false,
  Option, none, some, List, [], ◌∷◌, All, length, arith, Bool-cases,
}
use mathlib.Core.List.{Memᴰ}
use native.Mathlib.Nat.{mod-eq_of_lt}
use dev_board.Prelude.Dict.{contains}
use dev_board.State.Public.{PublicState}
use dev_board.Hub.Validation.{NodeSnapshot}
use dev_board.Uplink.Client.{transient, auth, payload, conflict, SendOutcome, delivered, rejected}
use dev_board.Uplink.SchedulerState.{
  SchedulerConfig, PendingEnvelope, SchedState, Uplink, Moment, u64_mod, new_session_state, Wake,
  cancelled, changed, ticked, Round,
}
use dev_board.Uplink.Scheduler.{
  on_delivered, on_rejected, finish, settle, attempt, resync, resync_then_attempt, pay_resync,
  on_changed, on_ticked, on_wake, round, rounds, start,
}
use dev_board.Uplink.Scheduler.Sessions.{
  Agrees, Consistent, IsSound, Sound, IsSound-issue, IsSound-send, IsSound-drop, IsSound-renew,
  IsSound-more, Prepared, refused, again, next, prepare-Prepared,
}

-- The identities drawn so far, after the one a round may draw.
abbrev pub drawn : Option String → List String → List String
drawn none used = used
drawn (some s) used = s ∷ used

abbrev pub IsNew : Option String → List String → Type 0
IsNew none used = Unit {0}
IsNew (some s) used = contains s used ≡ false

-- The identities drawn are pairwise different and different from those used before.
abbrev pub AreNew : List String → List Round → Type 0
AreNew used [] = Unit {0}
AreNew used (r ∷ rs) = IsNew r.session used × AreNew (drawn r.session used) rs

module _ (cfg : SchedulerConfig) (node_id : String) (hash : PublicState → ℕ) where
  finish-Sound :
      (used : List String) (n : ℕ) (u : Uplink) (st : SchedState) (p : PendingEnvelope) (m : Moment)
      (o : SendOutcome)
      → IsSound used st.session st.seq (some p) u.sent
      → st.pending ≡ some p
      → st.seq ≤ n
      → Sound used n (finish cfg node_id hash u st p m o)
  unfolding finish on_delivered on_rejected
  finish-Sound used n u st p m delivered i e h = record {
    sound = (IsSound-send used st.session st.seq p u.sent i).0;
    few = h;
  }
  finish-Sound used n u st p m (rejected transient) i e h = record {
    sound = rw e (IsSound-send used st.session st.seq p u.sent i).1;
    few = h;
  }
  finish-Sound used n u st p m (rejected auth) i e h = record {
    sound = (IsSound-send used st.session st.seq p u.sent i).0;
    few = h;
  }
  finish-Sound used n u st p m (rejected payload) i e h = record {
    sound = (IsSound-send used st.session st.seq p u.sent i).0;
    few = h;
  }
  finish-Sound used n u st p m (rejected conflict) i e h = elim (Bool-cases st.conflict_mode) [
    | inl t ↦
        rw (t, finish, on_rejected)
          (record { sound = (IsSound-send used st.session st.seq p u.sent i).0; few = h })
    | inr f ↦
        rw (f, finish, on_rejected)
          (record { sound = (IsSound-send used st.session st.seq p u.sent i).0; few = h })
  ]

  settle-Sound :
      (used : List String) (n : ℕ) (u : Uplink) (m : Moment)
      {x : Option (SchedState × PendingEnvelope)}
      → suc n < u64_mod
      → Sound used n u
      → Prepared cfg node_id hash u.st x
      → Sound used (suc n) (settle cfg node_id hash u m x)
  unfolding settle
  settle-Sound used n u m b s refused = record {
    sound = IsSound-drop used u.st.session u.st.seq u.st.pending u.sent s.sound;
    few = grind (arith, s.few);
  }
  settle-Sound used n u m b s (again p e) =
      finish-Sound used (suc n) u u.st p m m.outcome
        (subst (λ o. IsSound used u.st.session u.st.seq o u.sent) e s.sound) e
        (grind (arith, s.few))
  settle-Sound used n u m b s (next p sid q) =
      let few : u.st.seq ≤ n = s.few in
      let same : (u.st.seq + 1) % u64_mod ≡ u.st.seq + 1 = mod-eq_of_lt (omega arith) in
      finish-Sound used (suc n) u _ p m m.outcome
        (subst (λ k. IsSound used u.st.session k (some p) u.sent) (sym same)
          (IsSound-issue used u.st.session u.st.seq u.st.pending p u.sent sid (q ∙ same) s.sound))
        refl (omega arith)

  attempt-Sound :
      (used : List String) (n : ℕ) (u : Uplink) (m : Moment)
      → suc n < u64_mod
      → Sound used n u
      → Sound used (suc n) (attempt cfg node_id hash u m)
  unfolding attempt
  attempt-Sound used n u m b s =
      settle-Sound used n u m b s (prepare-Prepared cfg node_id hash u.st m)

  Sound-step : (used : List String) (n : ℕ) (u : Uplink) → Sound used n u → Sound used (suc n) u
  Sound-step used n u s = record { sound = s.sound; few = grind (arith, s.few) }

  Sound-drawn :
      (o : Option String) (used : List String) (n : ℕ) (u : Uplink)
      → Sound used n u
      → Sound (drawn o used) n u
  Sound-drawn none used n u s = s
  Sound-drawn (some x) used n u s = record {
    sound = IsSound-more used x u.st.session u.st.seq u.st.pending u.sent s.sound;
    few = s.few;
  }

  -- The identity of `resync` is the active one from then on.
  renewed-Sound :
      (used : List String) (n : ℕ) (u v : Uplink) (x : String)
      → contains x used ≡ false
      → Sound used n u
      → v.st.session ≡ x
      → v.st.seq ≡ 0
      → v.st.pending ≡ u.st.pending
      → v.sent ≡ u.sent
      → Sound (x ∷ used) n v
  renewed-Sound used n u v x f s a b c d = record {
    sound =
        rw (a, b, c, d) (IsSound-renew used u.st.session x u.st.seq u.st.pending u.sent f s.sound);
    few = omega arith;
  }

  resync_then_attempt-Sound :
      (used : List String) (n : ℕ) (u : Uplink) (r : Round)
      → suc n < u64_mod
      → IsNew r.session used
      → Sound used n u
      → Sound (drawn r.session used) (suc n) (resync_then_attempt cfg node_id hash u r)
  unfolding resync_then_attempt resync
  resync_then_attempt-Sound used n u r b f s = go r.session f
    where
      go :
          (o : Option String)
          → IsNew o used
          → Sound (drawn o used) (suc n) (elim o [
            | none ↦ (resync cfg node_id hash u none r.session_at).0
            | some x ↦
                attempt cfg node_id hash
                  (resync cfg node_id hash u (some x) r.session_at).0
                  r.moment
          ])
      go none f = record { sound = s.sound; few = grind (arith, s.few) }
      go (some x) f =
          attempt-Sound (x ∷ used) n _ r.moment b
            (renewed-Sound used n u _ x f s refl refl refl refl)

  pay_resync-Sound :
      (used : List String) (n : ℕ) (u : Uplink) (r : Round)
      → suc n < u64_mod
      → IsNew r.session used
      → Sound used n u
      → Sound (drawn r.session used) (suc n) (pay_resync cfg node_id hash u r)
  unfolding pay_resync resync
  pay_resync-Sound used n u r b f s = go r.session f
    where
      go :
          (o : Option String)
          → IsNew o used
          → Sound (drawn o used) (suc n) (elim o [
            | none ↦ (resync cfg node_id hash u none r.session_at).0
            | some x ↦
                let v = (resync cfg node_id hash u (some x) r.session_at).0 in
                attempt cfg node_id hash
                  (record v { st = record v.st { resync_owed = false } })
                  r.moment
          ])
      go none f = record { sound = s.sound; few = grind (arith, s.few) }
      go (some x) f =
          attempt-Sound (x ∷ used) n _ r.moment b
            (renewed-Sound used n u _ x f s refl refl refl refl)

  module _ (used : List String) (n : ℕ) (u : Uplink) (r : Round) (b : suc n < u64_mod)
      (f : IsNew r.session used) (s : Sound used n u) where
    tried : Sound (drawn r.session used) (suc n) (attempt cfg node_id hash u r.moment)
    tried = Sound-drawn r.session used (suc n) _ (attempt-Sound used n u r.moment b s)

    kept : Sound (drawn r.session used) (suc n) u
    kept = Sound-drawn r.session used (suc n) u (Sound-step used n u s)

    on_ticked-Sound : Sound (drawn r.session used) (suc n) (on_ticked cfg node_id hash u r)
    unfolding on_ticked
    on_ticked-Sound = ground (arith, tried, kept, resync_then_attempt-Sound used n u r b f s)

  on_changed-Sound :
      (used : List String) (n : ℕ) (u : Uplink) (r : Round)
      → suc n < u64_mod
      → IsNew r.session used
      → Sound used n u
      → Sound (drawn r.session used) (suc n) (on_changed cfg node_id hash u r)
  unfolding on_changed
  on_changed-Sound used n u r b f s =
      let v : Uplink = record u { st = record u.st { newer_state_owed = true } } in
      let w : Sound used n v = record { sound = s.sound; few = s.few } in
      ground (
        arith,
        tried used n u r b f s,
        kept used n u r b f s,
        tried used n v r b f w,
        kept used n v r b f w,
      )

  on_wake-Sound :
      (used : List String) (n : ℕ) (u : Uplink) (r : Round) (w : Wake)
      → suc n < u64_mod
      → IsNew r.session used
      → Sound used n u
      → Sound (drawn r.session used) (suc n) (on_wake cfg node_id hash u r w)
  unfolding on_wake
  on_wake-Sound used n u r cancelled b f s = kept used n u r b f s
  on_wake-Sound used n u r changed b f s =
      ground (arith, kept used n u r b f s, on_changed-Sound used n u r b f s)
  on_wake-Sound used n u r ticked b f s =
      ground (arith, kept used n u r b f s, on_ticked-Sound used n u r b f s)

  round-Sound :
      (used : List String) (n : ℕ) (u : Uplink) (r : Round)
      → suc n < u64_mod
      → IsNew r.session used
      → Sound used n u
      → Sound (drawn r.session used) (suc n) (round cfg node_id hash u r)
  unfolding round
  round-Sound used n u r b f s =
      let v : Uplink = record u { st = record u.st { newer_state_owed = false } } in
      let w : Sound used n v = record { sound = s.sound; few = s.few } in
      ground (
        arith,
        pay_resync-Sound used n u r b f s,
        tried used n v r b f w,
        on_wake-Sound used n v r r.wake b f w,
        on_wake-Sound used n u r r.wake b f s,
      )

  rounds-Consistent :
      (used : List String) (n : ℕ) (u : Uplink) (rs : List Round)
      → n + length rs < u64_mod
      → AreNew used rs
      → Sound used n u
      → Consistent (rounds cfg node_id hash u rs).sent
  unfolding rounds
  rounds-Consistent used n u [] b f s = s.sound.consistent
  rounds-Consistent used n u (r ∷ rs) b (f, fs) s =
      let rest =
        rounds-Consistent (drawn r.session used) (suc n) (round cfg node_id hash u r) rs
          (omega arith) fs (round-Sound used n u r (omega arith) f s) in
      ground (arith, s.sound.consistent, rest)

  start-Sound :
      (session : String) (m : Moment)
      → Sound (session ∷ []) 1 (start cfg node_id hash (some session) m)
  unfolding start contains new_session_state
  start-Sound session m = attempt-Sound (session ∷ []) 0 _ m (omega arith) (record {
    sound = record {
      active = ground (arith, eq_iff session session);
      issued = tt;
      waits = tt;
      consistent = tt;
    };
    few = omega arith;
  })

Agrees-mem :
    (zs : List NodeSnapshot) (z y : NodeSnapshot) → All (Agrees z) zs → Memᴰ y zs → Agrees z y
Agrees-mem [] z y _ h = elim h [ ]
Agrees-mem (x ∷ xs) z y (a, _) (Memᴰ.head e) = subst (λ k. Agrees z k) (sym e) a
Agrees-mem (x ∷ xs) z y (_, a) (Memᴰ.tail m) = Agrees-mem xs z y a m

Consistent-members :
    (sent : List NodeSnapshot) (x y : NodeSnapshot)
    → Consistent sent
    → Memᴰ x sent
    → Memᴰ y sent
    → x.session_id ≡ y.session_id
    → x.sequence ≡ y.sequence
    → x ≡ y
Consistent-members [] x y _ h _ i q = elim h [ ]
Consistent-members (z ∷ zs) x y (a, c) (Memᴰ.head e) (Memᴰ.head f) i q = e ∙ sym f
Consistent-members (z ∷ zs) x y (a, c) (Memᴰ.head e) (Memᴰ.tail m) i q =
    e ∙ sym (Agrees-mem zs z y a m (cc (ap (λ t. t.session_id) e)) (cc (ap (λ t. t.sequence) e)))
Consistent-members (z ∷ zs) x y (a, c) (Memᴰ.tail m) (Memᴰ.head f) i q =
    Agrees-mem zs z x a m (cc (ap (λ t. t.session_id) f)) (cc (ap (λ t. t.sequence) f)) ∙ sym f
Consistent-members (z ∷ zs) x y (a, c) (Memᴰ.tail m) (Memᴰ.tail k) i q =
    Consistent-members zs x y c m k i q

-- Any two requests that the loop sends under one session and sequence number are the same snapshot,
-- over any run of fewer than 2^64 - 1 rounds, whatever the clock, the local state, the wakes and the
-- network do, where the session identities the entropy source gives are pairwise different.
pub sequence_unique :
    (cfg : SchedulerConfig) (node_id : String) (hash : PublicState → ℕ) (session : String)
    (m : Moment) (rs : List Round) (x y : NodeSnapshot)
    → 1 + length rs < u64_mod
    → AreNew (session ∷ []) rs
    → Memᴰ x (rounds cfg node_id hash (start cfg node_id hash (some session) m) rs).sent
    → Memᴰ y (rounds cfg node_id hash (start cfg node_id hash (some session) m) rs).sent
    → x.session_id ≡ y.session_id
    → x.sequence ≡ y.sequence
    → x ≡ y
sequence_unique cfg node_id hash session m rs x y b f i j =
    Consistent-members _ x y
      (rounds-Consistent cfg node_id hash (session ∷ []) 1 _ rs b f
        (start-Sound cfg node_id hash session m))
      i j
