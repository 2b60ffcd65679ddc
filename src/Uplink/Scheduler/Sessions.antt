-- ===== src/Uplink/Scheduler/Sessions.antt =====
-- internal/uplink/scheduler.go: the sessions drawn so far and the sequence numbers issued in them.
use dev_board.Prelude.{
  ℕ, ◌+◌, ◌≤◌, ◌%◌, ◌≡◌, refl, ap, ◌∙◌, inl, inr, String, str_eq, eq_iff, true, false, Option, none,
  some, List, [], ◌∷◌, All, All-map, arith, Option-cases, Bool-cases,
}
use dev_board.Prelude.Dict.{contains}
use dev_board.Prelude.Time.{Instant}
use dev_board.State.Public.{PublicState}
use dev_board.Hub.Validation.{NodeSnapshot}
use dev_board.Uplink.Client.{build}
use dev_board.Uplink.SchedulerState.{
  SchedulerConfig, PendingEnvelope, SchedState, Uplink, Moment, u64_mod,
}
use dev_board.Uplink.Scheduler.{reusable, prepare}

-- Two requests under one session and sequence number are one request.
abbrev pub Agrees : NodeSnapshot → NodeSnapshot → Type 0
Agrees x e = e.session_id ≡ x.session_id → e.sequence ≡ x.sequence → e ≡ x

abbrev pub Consistent : List NodeSnapshot → Type 0
Consistent [] = Unit {0}
Consistent (x ∷ xs) = All (Agrees x) xs × Consistent xs

-- What is known of a request while its session may still be the active one.
abbrev pub Issued : List String → String → ℕ → NodeSnapshot → Type 0
Issued used session seq e =
    (contains e.session_id used ≡ true) × (e.session_id ≡ session → e.sequence ≤ seq)

abbrev pub Waits : List String → String → ℕ → List NodeSnapshot → Option PendingEnvelope → Type 0
Waits used session seq sent none = Unit {0}
Waits used session seq sent (some p) = Issued used session seq p.env × All (Agrees p.env) sent

pub record IsSound (used : List String) (session : String) (seq : ℕ)
    (pending : Option PendingEnvelope) (sent : List NodeSnapshot) : Type 0 where
  pub active : contains session used ≡ true
  pub issued : All (Issued used session seq) sent
  pub waits : Waits used session seq sent pending
  pub consistent : Consistent sent

-- The state is sound for the identities used so far, and has issued at most `n` in the active session.
pub record Sound (used : List String) (n : ℕ) (u : Uplink) : Type 0 where
  pub sound : IsSound used u.st.session u.st.seq u.st.pending u.sent
  pub few : u.st.seq ≤ n

Issued-mono :
    (used : List String) (session : String) (a b : ℕ)
    → a ≤ b
    → (e : NodeSnapshot) → Issued used session a e
    → Issued used session b e
Issued-mono used session a b h e (c, i) = (c, λ s. omega (arith, i s))

-- A new number in the active session agrees with all that was sent.
next-Agrees :
    (used : List String) (session : String) (seq : ℕ) (x : NodeSnapshot)
    → x.session_id ≡ session
    → x.sequence ≡ seq + 1
    → (e : NodeSnapshot) → Issued used session seq e
    → Agrees x e
next-Agrees used session seq x s q e (c, i) f g = absurd (omega (arith, i (f ∙ s), g, q))

pub IsSound-issue :
    (used : List String) (session : String) (seq : ℕ) (old : Option PendingEnvelope)
    (p : PendingEnvelope) (sent : List NodeSnapshot)
    → p.env.session_id ≡ session
    → p.env.sequence ≡ seq + 1
    → IsSound used session seq old sent
    → IsSound used session (seq + 1) (some p) sent
IsSound-issue used session seq old p sent s q i = record {
  active = i.active;
  issued = All-map (Issued-mono used session seq (seq + 1) (omega arith)) sent i.issued;
  waits = (
    (cc (i.active, ap (λ k. contains k used) s), λ _. omega arith),
    All-map (next-Agrees used session seq p.env s q) sent i.issued,
  );
  consistent = i.consistent;
}

-- Sending the pending envelope, kept or not.
pub IsSound-send :
    (used : List String) (session : String) (seq : ℕ) (p : PendingEnvelope)
    (sent : List NodeSnapshot)
    → IsSound used session seq (some p) sent
    → IsSound used session seq none (p.env ∷ sent)
      × IsSound used session seq (some p) (p.env ∷ sent)
IsSound-send used session seq p sent i = (
  record {
    active = i.active;
    issued = (i.waits.0, i.issued);
    waits = tt;
    consistent = (i.waits.1, i.consistent);
  },
  record {
    active = i.active;
    issued = (i.waits.0, i.issued);
    waits = (i.waits.0, ((λ _ _. refl), i.waits.1));
    consistent = (i.waits.1, i.consistent);
  },
)

pub IsSound-drop :
    (used : List String) (session : String) (seq : ℕ) (old : Option PendingEnvelope)
    (sent : List NodeSnapshot)
    → IsSound used session seq old sent
    → IsSound used session seq none sent
IsSound-drop used session seq old sent i = record {
  active = i.active;
  issued = i.issued;
  waits = tt;
  consistent = i.consistent;
}

Issued-renew :
    (used : List String) (session fresh : String) (seq : ℕ) (e : NodeSnapshot)
    → contains fresh used ≡ false
    → Issued used session seq e
    → Issued (fresh ∷ used) fresh 0 e
unfolding contains
Issued-renew used session fresh seq e n (c, i) =
    (ground arith, λ s. absurd (cc (ap (λ k. contains k used) s)))

pub IsSound-renew :
    (used : List String) (session fresh : String) (seq : ℕ) (pending : Option PendingEnvelope)
    (sent : List NodeSnapshot)
    → contains fresh used ≡ false
    → IsSound used session seq pending sent
    → IsSound (fresh ∷ used) fresh 0 pending sent
unfolding contains
IsSound-renew used session fresh seq pending sent n i = record {
  active = ground (arith, eq_iff fresh fresh);
  issued = All-map (λ e. Issued-renew used session fresh seq e n) sent i.issued;
  waits = waiting pending i.waits;
  consistent = i.consistent;
}
  where
    waiting :
        (o : Option PendingEnvelope)
        → Waits used session seq sent o
        → Waits (fresh ∷ used) fresh 0 sent o
    waiting none w = tt
    waiting (some p) (w, a) = (Issued-renew used session fresh seq p.env n w, a)

-- An unused identity that was drawn does no harm.
pub IsSound-more :
    (used : List String) (fresh session : String) (seq : ℕ) (pending : Option PendingEnvelope)
    (sent : List NodeSnapshot)
    → IsSound used session seq pending sent
    → IsSound (fresh ∷ used) session seq pending sent
unfolding contains
IsSound-more used fresh session seq pending sent i = record {
  active = grow session i.active;
  issued = All-map (λ e (c, h). (grow e.session_id c, h)) sent i.issued;
  waits = waiting pending i.waits;
  consistent = i.consistent;
}
  where
    grow : (s : String) → contains s used ≡ true → contains s (fresh ∷ used) ≡ true
    grow s h = ground arith

    waiting :
        (o : Option PendingEnvelope)
        → Waits used session seq sent o
        → Waits (fresh ∷ used) session seq sent o
    waiting none w = tt
    waiting (some p) ((c, h), a) = ((grow p.env.session_id c, h), a)

module _ (cfg : SchedulerConfig) (node_id : String) (hash : PublicState → ℕ) where
  -- What `prepare` gives: an old envelope in an unchanged state, or the next number.
  pub data Prepared (st : SchedState) : Option (SchedState × PendingEnvelope) → Type 0 where
    refused : Prepared st none
    again : (p : PendingEnvelope) → st.pending ≡ some p → Prepared st (some (st, p))
    next :
        (p : PendingEnvelope)
        → p.env.session_id ≡ st.session
        → p.env.sequence ≡ (st.seq + 1) % u64_mod
        → Prepared st (some (record st { seq = (st.seq + 1) % u64_mod; pending = some p }, p))

  reusable-pending :
      (st : SchedState) (now : Instant) (p : PendingEnvelope)
      → reusable cfg node_id hash st now ≡ some p
      → st.pending ≡ some p
  unfolding reusable
  reusable-pending st now p e = ground arith

  pub prepare-Prepared :
      (st : SchedState) (m : Moment) → Prepared st (prepare cfg node_id hash st m)
  unfolding prepare build
  prepare-Prepared st m = elim (Option-cases (reusable cfg node_id hash st m.fresh_at)) [
    | inr (p, e) ↦ rw (e, prepare) (again p (reusable-pending st m.fresh_at p e))
    | inl e ↦ elim (Bool-cases (str_eq m.public.host.id node_id)) [
      | inl t ↦ rw (e, prepare, t, build) (next _ refl refl)
      | inr f ↦ rw (e, prepare, f, build) refused
    ]
  ]
