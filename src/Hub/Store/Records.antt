-- ===== src/Hub/Store/Records.antt =====
-- internal/hub/store.go, `Apply`: what one admission does to the record of a node.
use dev_board.Prelude.{
  ℕ, ◌≤◌, ◌≡◌, refl, ◌≢◌, ◌⊎◌, inl, inr, String, eq_iff, true, false, Option, none, some, List, [],
  leb, ok, arith, Option-cases,
}
use dev_board.Prelude.Dict.{contains}
use dev_board.Prelude.Time.{Instant, since}
use dev_board.State.Public.{PublicState}
use dev_board.Hub.Validation.{NodeSnapshot, admission_window}
use dev_board.Hub.Store.{
  NodeIngest, NodeRecord, proceed, exact_retry, order_against, order_check, in_window, retire,
  commit, retry, apply_record,
}

-- The active session is not retired, and a record without one has retired none.
abbrev pub ActiveOpen : Option NodeIngest → List String → Type 0
ActiveOpen none retired = retired ≡ []
ActiveOpen (some ing) retired = contains ing.session_id retired ≡ false

abbrev pub IsOpen : NodeRecord → Type 0
IsOpen rec = ActiveOpen rec.ingest rec.retired

-- A state is held exactly with its ordering data, and was last received inside the admission window
-- of the instant that its digest stands for.
abbrev pub Held : (ℕ → Instant) → Option NodeIngest → Option PublicState → Option Instant → Type 0
Held origin none state received = (state ≡ none) × (received ≡ none)
Held origin (some ing) state received =
    (s : PublicState) × (t : Instant) × (state ≡ some s)
    × (received ≡ some t)
    × (ing.generated_at ≡ origin ing.digest)
    × (leb (since t ing.generated_at) admission_window ≡ true)

abbrev pub IsHeld : (ℕ → Instant) → NodeRecord → Type 0
IsHeld origin rec = Held origin rec.ingest rec.state rec.last_received_at

-- The pair of a session and a sequence number can no longer be accepted: the session is retired, or
-- it is active and has come at least as far.
abbrev pub Reached : Option NodeIngest → String → ℕ → Type 0
Reached none session seq = ⊥
Reached (some ing) session seq = (ing.session_id ≡ session) × (seq ≤ ing.sequence)

abbrev pub Settled : String → ℕ → NodeRecord → Type 0
Settled session seq rec = (contains session rec.retired ≡ true) ⊎ Reached rec.ingest session seq

retire-ActiveOpen :
    (i : NodeIngest) (retired : List String) (snap : NodeSnapshot) (digest : ℕ)
    → contains i.session_id retired ≡ false
    → order_against i retired snap digest ≡ proceed
    → contains snap.session_id (retire (some i) retired snap.session_id) ≡ false
unfolding order_against retire contains
retire-ActiveOpen i retired snap digest h p =
    ground (arith, eq_iff snap.session_id i.session_id, eq_iff i.session_id snap.session_id)

module _ (clone_public_state : PublicState → Option PublicState) where
  -- How an admission comes about: as an exact retry, or as a commit.
  abbrev pub Admitted :
      NodeRecord → NodeSnapshot → ℕ → Instant → NodeRecord × Option PublicState → Type 0
  Admitted rec snap digest at r =
      ((order_check rec snap digest ≡ exact_retry) × (r ≡ (retry rec snap at, none)))
      ⊎ ((copy : PublicState) × (order_check rec snap digest ≡ proceed)
          × (in_window snap at ≡ true)
          × (clone_public_state snap.state ≡ some copy)
          × (r ≡ (commit rec snap digest copy at, some copy)))

  pub apply_record-Admitted :
      (rec : NodeRecord) (snap : NodeSnapshot) (digest : ℕ) (at : Instant)
      (r : NodeRecord × Option PublicState)
      → apply_record clone_public_state rec snap digest at ≡ ok r
      → Admitted rec snap digest at r
  unfolding apply_record
  apply_record-Admitted rec snap digest at r e = ground arith

order_check-retry_lem :
    (rec : NodeRecord) (snap : NodeSnapshot) (digest : ℕ)
    → order_check rec snap digest ≡ exact_retry
    → (i : NodeIngest) × (rec.ingest ≡ some i)
      × (i.session_id ≡ snap.session_id)
      × (i.sequence ≡ snap.sequence)
      × (i.digest ≡ digest)
unfolding order_check order_against contains
order_check-retry_lem rec snap digest e = grind (arith, eq_iff)

commit-ActiveOpen :
    (rec : NodeRecord) (snap : NodeSnapshot) (digest : ℕ)
    → ActiveOpen rec.ingest rec.retired
    → order_check rec snap digest ≡ proceed
    → contains snap.session_id (retire rec.ingest rec.retired snap.session_id) ≡ false
unfolding order_check
commit-ActiveOpen rec snap digest v p = elim (Option-cases rec.ingest) [
  | inl e ↦ unfold retire contains in ground arith
  | inr (i, e) ↦ ground (arith, retire-ActiveOpen i rec.retired snap digest)
]

pub Admitted-IsOpen :
    (clone : PublicState → Option PublicState) (rec : NodeRecord) (snap : NodeSnapshot) (digest : ℕ)
    (at : Instant) (r : NodeRecord × Option PublicState)
    → Admitted clone rec snap digest at r
    → IsOpen rec
    → IsOpen r.0
unfolding commit retry
Admitted-IsOpen clone rec snap digest at r (inl (_, e)) v = ground arith
Admitted-IsOpen clone rec snap digest at r (inr (copy, p, _, _, e)) v =
    ground (arith, commit-ActiveOpen rec snap digest v p)

pub Admitted-IsHeld :
    (origin : ℕ → Instant) (clone : PublicState → Option PublicState) (rec : NodeRecord)
    (snap : NodeSnapshot) (digest : ℕ) (at : Instant) (r : NodeRecord × Option PublicState)
    → Admitted clone rec snap digest at r
    → snap.state.generated_at ≡ origin digest
    → IsHeld origin rec
    → IsHeld origin r.0
unfolding retry commit
Admitted-IsHeld origin clone rec snap digest at r (inl (p, e)) g v =
    let (i, ei, _, _, d) = order_check-retry_lem rec snap digest p in ground arith
Admitted-IsHeld origin clone rec snap digest at r (inr (copy, p, w, _, e)) g v =
    rw e (copy, at, refl, refl, g, w)

pub Admitted-Settled :
    (clone : PublicState → Option PublicState) (rec : NodeRecord) (snap : NodeSnapshot) (digest : ℕ)
    (at : Instant) (r : NodeRecord × Option PublicState) (session : String) (seq : ℕ)
    → Admitted clone rec snap digest at r
    → Settled session seq rec
    → Settled session seq r.0
unfolding commit retry order_check order_against retire contains
Admitted-Settled clone rec snap digest at r session seq (inl (p, e)) v = ground arith
Admitted-Settled clone rec snap digest at r session seq (inr (copy, p, w, _, e)) v =
    grind (arith, eq_iff)

-- A committed tuple is settled.
pub commit-Settled :
    (rec : NodeRecord) (snap : NodeSnapshot) (digest : ℕ) (copy : PublicState) (at : Instant)
    → Settled snap.session_id snap.sequence (commit rec snap digest copy at)
unfolding commit
commit-Settled rec snap digest copy at = inr (refl, omega arith)

pub Settled-not_proceed :
    (rec : NodeRecord) (snap : NodeSnapshot) (digest : ℕ)
    → IsOpen rec
    → Settled snap.session_id snap.sequence rec
    → order_check rec snap digest ≢ proceed
unfolding order_check order_against contains
Settled-not_proceed rec snap digest o v e = grind (arith, eq_iff)

-- A retired session stays retired.
pub Admitted-retired :
    (clone : PublicState → Option PublicState) (rec : NodeRecord) (snap : NodeSnapshot) (digest : ℕ)
    (at : Instant) (r : NodeRecord × Option PublicState) (session : String)
    → Admitted clone rec snap digest at r
    → contains session rec.retired ≡ true
    → contains session r.0.retired ≡ true
unfolding commit retry retire contains
Admitted-retired clone rec snap digest at r session (inl (p, e)) v = ground arith
Admitted-retired clone rec snap digest at r session (inr (copy, p, w, _, e)) v = ground arith

-- A commit of another session retires every session that has come as far as `seq`.
pub commit-retired :
    (rec : NodeRecord) (snap : NodeSnapshot) (digest : ℕ) (copy : PublicState) (at : Instant)
    (session : String) (seq : ℕ)
    → session ≢ snap.session_id
    → Settled session seq rec
    → contains session (commit rec snap digest copy at).retired ≡ true
unfolding commit retire contains
commit-retired rec snap digest copy at session seq h v = grind (arith, eq_iff)

-- A retired session is neither accepted nor taken for a retry.
pub retired-refused :
    (clone : PublicState → Option PublicState) (rec : NodeRecord) (snap : NodeSnapshot) (digest : ℕ)
    (at : Instant) (r : NodeRecord × Option PublicState)
    → IsOpen rec
    → contains snap.session_id rec.retired ≡ true
    → Admitted clone rec snap digest at r
    → ⊥
unfolding order_check order_against contains
retired-refused clone rec snap digest at r o v (inl (p, _)) = grind (arith, eq_iff)
retired-refused clone rec snap digest at r o v (inr (_, p, _, _, _)) = grind (arith, eq_iff)
