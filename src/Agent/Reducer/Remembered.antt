-- ===== src/Agent/Reducer/Remembered.antt =====
-- internal/agent/reducer.go, `Submit`: how long an id is remembered.
use mathlib.Core.List.{append_assoc}
use mathlib.Core.Bool.{true≢false}
use dev_board.Prelude.{
  ℕ, suc, ◌+◌, ◌≤◌, ◌<◌, ◌≡◌, refl, sym, ap, subst, ◌∙◌, String, true, false, Option, List, [], ◌∷◌,
  ◌++◌, length, length-append, Result, ok, err, inl, inr, arith, eq_iff,
}
use dev_board.Prelude.Dict.{contains, contains-append}
use dev_board.Prelude.Time.{Instant}
use dev_board.State.Internal.{TaskProjectContext}
use dev_board.State.Root.{InternalRootState}
use dev_board.State.Store.{update}
use dev_board.Agent.Events.{AgentEvent, validate}
use dev_board.Agent.Reducer.{key_for_event}
use dev_board.Agent.Reducer.Prompt.{ReduceError}
use dev_board.Agent.Reducer.Submit.{
  Reducer, invalid, forget, remember_event_id, session_for, outcome, remember_if_ok, reduce_in,
  run_event, submit_unseen, submit,
}
use dev_board.Agent.Reducer.Maintenance.{maintenance}
use dev_board.Agent.Reducer.Memory.{IsBounded, evict-newest}
use dev_board.Agent.Reducer.Runs.{err≢ok, ran, session_for-keeps}
use dev_board.Agent.Reducer.Submissions.{submit-cases, submit-IsBounded}

-- The id stands in the order, with at most `n` ids after it.
abbrev Kept : ℕ → String → ℕ → Reducer → Type 0
Kept max id n r =
    (r.cfg.max_seen_event_ids ≡ max)
    × ((front : List String) × (back : List String) × (r.seen_order ≡ front ++ id ∷ back)
        × (length back ≤ n))

remember_event_id-Kept :
    (max : ℕ) (id : String) (n : ℕ) (other : String) (r : Reducer)
    → Kept max id n r
    → suc (suc n) ≤ max
    → Kept max id (suc n) (remember_event_id other r)
unfolding remember_event_id
remember_event_id-Kept max id n other r (c, (front, back, q, l)) h =
    let more = back ++ other ∷ [] in
    let len = length-append back (other ∷ []) in
    let (rest, e) =
      evict-newest (λ j seen. contains j seen) forget r.cfg.max_seen_event_ids front more id
        (other ∷ r.seen) (omega (arith, len, l, h, c)) in
    let order : r.seen_order ++ other ∷ [] ≡ front ++ id ∷ more =
      ap (λ o. o ++ other ∷ []) q ∙ append_assoc front (id ∷ back) (other ∷ []) in
    (c, (rest, more, rw order e, omega (arith, len, l)))

remember_if_ok-Kept :
    (max : ℕ) (id : String) (n : ℕ) (x : Result ReduceError (Unit {0})) (other : String)
    (r : Reducer)
    → Kept max id n r
    → suc (suc n) ≤ max
    → Kept max id (suc n) (remember_if_ok x other r)
unfolding remember_if_ok
remember_if_ok-Kept max id n (ok u) other r k h = remember_event_id-Kept max id n other r k h
remember_if_ok-Kept max id n (err e) other r (c, (front, back, q, l)) h =
    (c, (front, back, q, omega (arith, l)))

remember_if_ok-new :
    (x : Result ReduceError (Unit {0})) (id : String) (r : Reducer)
    → 0 < r.cfg.max_seen_event_ids
    → outcome x ≡ ok tt
    → Kept r.cfg.max_seen_event_ids id 0 (remember_if_ok x id r)
unfolding remember_if_ok remember_event_id outcome
remember_if_ok-new (ok u) id r p h =
    let (rest, e) =
      evict-newest (λ j seen. contains j seen) forget r.cfg.max_seen_event_ids r.seen_order [] id
        (id ∷ r.seen) (omega (arith, p)) in
    (refl, (rest, [], e, omega arith))
remember_if_ok-new (err e) id r p h = ground arith

session_for-Kept :
    (max : ℕ) (id : String) (n : ℕ) (key : String) (r : Reducer)
    → Kept max id n r
    → Kept max id n (session_for key r).0
session_for-Kept max id n key r (c, (front, back, q, l)) =
    let (_, _, order, cfg) = session_for-keeps key r in
    (ap (λ k. k.max_seen_event_ids) cfg ∙ c, (front, back, order ∙ q, l))

Kept-contains :
    (max : ℕ) (id : String) (n : ℕ) (r : Reducer)
    → IsBounded r
    → Kept max id n r
    → contains id r.seen ≡ true
unfolding contains
Kept-contains max id n r b (c, (front, back, q, l)) =
    b.0.2 id
    ∙ ap (contains id) q
    ∙ ground (arith, contains-append id front (id ∷ back), eq_iff id id)

-- A call on the reducer.
pub data Call : Type 0 where
  submission : AgentEvent → String → Call
  upkeep : Instant → (ℕ → String) → Call

abbrev pub submissions : List Call → ℕ
submissions [] = 0
submissions (submission e alert_id ∷ calls) = suc (submissions calls)
submissions (upkeep now draw ∷ calls) = submissions calls

module _ (hex_digest : List ℕ → List ℕ) (target_digest : List ℕ → String)
    (resolve_project_context : String → Option TaskProjectContext) where
  abbrev pub run_calls : List Call → Reducer → Reducer
  run_calls [] r = r
  run_calls (submission e alert_id ∷ calls) r =
      run_calls calls (submit hex_digest target_digest resolve_project_context e alert_id r).1
  run_calls (upkeep now draw ∷ calls) r = run_calls calls (maintenance now draw r)

  submit_unseen-Kept :
      (max : ℕ) (id : String) (n : ℕ) (e : AgentEvent) (alert_id : String) (r : Reducer)
      → Kept max id n r
      → suc (suc n) ≤ max
      → Kept max id
          (suc n)
          (submit_unseen hex_digest target_digest resolve_project_context e alert_id r).1
  unfolding submit_unseen run_event
  submit_unseen-Kept max id n e alert_id r k h =
      let (r2, m) = session_for (key_for_event e) r in
      let fn = λ (root : InternalRootState).
        (reduce_in hex_digest target_digest resolve_project_context r2 m e alert_id root).0 in
      let (_, m2, caps2) =
        reduce_in hex_digest target_digest resolve_project_context r2 m e alert_id r2.store.state in
      remember_if_ok-Kept max id n (update fn r2.store).0 e.event_id
        (ran r2 (update fn r2.store).1 (key_for_event e) m2 caps2)
        (session_for-Kept max id n (key_for_event e) r k) h

  submit_unseen-new :
      (e : AgentEvent) (alert_id : String) (r : Reducer)
      → 0 < r.cfg.max_seen_event_ids
      → (submit_unseen hex_digest target_digest resolve_project_context e alert_id r).0 ≡ ok tt
      → Kept r.cfg.max_seen_event_ids e.event_id 0
          (submit_unseen hex_digest target_digest resolve_project_context e alert_id r).1
  unfolding submit_unseen run_event
  submit_unseen-new e alert_id r p h =
      let (r2, m) = session_for (key_for_event e) r in
      let fn = λ (root : InternalRootState).
        (reduce_in hex_digest target_digest resolve_project_context r2 m e alert_id root).0 in
      let (_, m2, caps2) =
        reduce_in hex_digest target_digest resolve_project_context r2 m e alert_id r2.store.state in
      let same : r2.cfg.max_seen_event_ids ≡ r.cfg.max_seen_event_ids =
        ap (λ k. k.max_seen_event_ids) (session_for-keeps (key_for_event e) r).3 in
      let (c, kept) =
        remember_if_ok-new (update fn r2.store).0 e.event_id
          (ran r2 (update fn r2.store).1 (key_for_event e) m2 caps2)
          (subst (λ max. 0 < max) (sym same) p) h in
      (c ∙ same, kept)

  submit-Kept :
      (max : ℕ) (id : String) (n : ℕ) (e : AgentEvent) (alert_id : String) (r : Reducer)
      → Kept max id n r
      → suc (suc n) ≤ max
      → Kept max id (suc n) (submit hex_digest target_digest resolve_project_context e alert_id r).1
  submit-Kept max id n e alert_id r (c, (front, back, q, l)) h =
      elim (submit-cases hex_digest target_digest resolve_project_context e alert_id r) [
        | inl (x, s) ↦ stays (ap (λ y. y.1) s)
        | inr (inl (t, s)) ↦ stays (ap (λ y. y.1) s)
        | inr (inr (t, s)) ↦
            subst (λ y. Kept max id (suc n) y.1) (sym s)
              (submit_unseen-Kept max id n e alert_id r (c, (front, back, q, l)) h)
      ]
    where
      stays : {next : Reducer} → next ≡ r → Kept max id (suc n) next
      stays e = subst (Kept max id (suc n)) (sym e) (c, (front, back, q, omega (arith, l)))

  run_calls-Kept :
      (max : ℕ) (id : String) (n : ℕ) (calls : List Call) (r : Reducer)
      → Kept max id n r
      → IsBounded r
      → suc n + submissions calls ≤ max
      → ((m : ℕ) × Kept max id m (run_calls calls r)) × IsBounded (run_calls calls r)
  unfolding maintenance
  run_calls-Kept max id n [] r k b h = ((n, k), b)
  run_calls-Kept max id n (submission e alert_id ∷ calls) r k b h =
      run_calls-Kept max id (suc n) calls
        (submit hex_digest target_digest resolve_project_context e alert_id r).1
        (submit-Kept max id n e alert_id r k (omega (arith, h)))
        (submit-IsBounded hex_digest target_digest resolve_project_context e alert_id r b)
        (omega (arith, h))
  run_calls-Kept max id n (upkeep now draw ∷ calls) r k b h =
      run_calls-Kept max id n calls (maintenance now draw r) k b h

  -- An event that was accepted for the first time is not taken up again while fewer events than the limit
  -- of remembered ids have been submitted after it, with any runs of maintenance between: a valid event
  -- with the same id, whatever else it says, is then accepted at once and changes nothing.
  pub submit-run_calls :
      (e again : AgentEvent) (alert_id other_id : String) (calls : List Call) (r : Reducer)
      → IsBounded r
      → contains e.event_id r.seen ≡ false
      → submissions calls < r.cfg.max_seen_event_ids
      → (submit hex_digest target_digest resolve_project_context e alert_id r).0 ≡ ok tt
      → again.event_id ≡ e.event_id
      → validate again ≡ ok tt
      → submit hex_digest target_digest resolve_project_context again other_id
          (run_calls calls (submit hex_digest target_digest resolve_project_context e alert_id r).1)
        ≡ (
          ok tt,
          run_calls calls (submit hex_digest target_digest resolve_project_context e alert_id r).1,
        )
  unfolding submit
  submit-run_calls e again alert_id other_id calls r b n l h same v =
      let next = (submit hex_digest target_digest resolve_project_context e alert_id r).1 in
      let ((m, kept), bounded) =
        run_calls-Kept r.cfg.max_seen_event_ids e.event_id 0 calls next first
          (submit-IsBounded hex_digest target_digest resolve_project_context e alert_id r b)
          (omega (arith, l)) in
      rw
        (
          submit,
          v,
          same,
          Kept-contains r.cfg.max_seen_event_ids e.event_id m (run_calls calls next) bounded kept,
        )
        refl
    where
      first :
          Kept r.cfg.max_seen_event_ids e.event_id 0
            (submit hex_digest target_digest resolve_project_context e alert_id r).1
      first = elim (submit-cases hex_digest target_digest resolve_project_context e alert_id r) [
        | inl (x, s) ↦ elim (err≢ok (invalid x) (ap (λ y. y.0) (sym s) ∙ h)) [ ]
        | inr (inl (t, s)) ↦ elim (true≢false (sym t ∙ n)) [ ]
        | inr (inr (t, s)) ↦
            subst (λ y. Kept r.cfg.max_seen_event_ids e.event_id 0 y.1) (sym s)
              (submit_unseen-new e alert_id r (omega (arith, l)) (ap (λ y. y.0) (sym s) ∙ h))
      ]
