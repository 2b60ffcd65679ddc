-- ===== src/Agent/Reducer/Submissions.antt =====
-- internal/agent/reducer.go, `Submit`: events that come again, events that are refused, and what holds
-- of a reducer over any run.
use dev_board.Prelude.{
  ℕ, ◌≡◌, ◌⊎◌, refl, sym, ap, ◌∙◌, String, true, false, Option, List, Result, ok, err, inl, inr,
  Bool-cases, Result-cases,
}
use dev_board.Prelude.Dict.{contains}
use dev_board.Prelude.Time.{Instant}
use dev_board.State.Internal.{TaskProjectContext}
use dev_board.State.Root.{InternalRootState}
use dev_board.State.Store.{update}
use dev_board.Agent.Events.{EventError, AgentEvent, validate}
use dev_board.Agent.Reducer.{key_for_event}
use dev_board.Agent.Reducer.Submit.{
  Reducer, SubmitError, invalid, session_for, reduce_in, run_event, submit_unseen, submit,
}
use dev_board.Agent.Reducer.Maintenance.{maintenance}
use dev_board.Agent.Reducer.Memory.{IsBounded, session_for-IsBounded}
use dev_board.Agent.Reducer.Runs.{
  outcome-err, ran, ran-IsBounded, remember_if_ok-IsBounded, remember_if_ok-err, session_for-keeps,
  update-err,
}

module _ (hex_digest : List ℕ → List ℕ) (target_digest : List ℕ → String)
    (resolve_project_context : String → Option TaskProjectContext) where
  submit_unseen-IsBounded :
      (e : AgentEvent) (alert_id : String) (r : Reducer)
      → contains e.event_id r.seen ≡ false
      → IsBounded r
      → IsBounded (submit_unseen hex_digest target_digest resolve_project_context e alert_id r).1
  unfolding submit_unseen run_event
  submit_unseen-IsBounded e alert_id r n b =
      let (r2, m) = session_for (key_for_event e) r in
      let fn = λ (root : InternalRootState).
        (reduce_in hex_digest target_digest resolve_project_context r2 m e alert_id root).0 in
      let (_, m2, caps2) =
        reduce_in hex_digest target_digest resolve_project_context r2 m e alert_id r2.store.state in
      remember_if_ok-IsBounded (update fn r2.store).0 e.event_id
        (ran r2 (update fn r2.store).1 (key_for_event e) m2 caps2)
        (ap (contains e.event_id) (session_for-keeps (key_for_event e) r).1 ∙ n)
        (ran-IsBounded r2 (update fn r2.store).1 (key_for_event e) m2 caps2
          (session_for-IsBounded (key_for_event e) r b))

  submit_unseen-err :
      (e : AgentEvent) (alert_id : String) (r : Reducer) (x : SubmitError)
      → (submit_unseen hex_digest target_digest resolve_project_context e alert_id r).0 ≡ err x
      → ((submit_unseen hex_digest target_digest resolve_project_context e alert_id r).1.store
          ≡ r.store)
        × ((submit_unseen hex_digest target_digest resolve_project_context e alert_id r).1.seen
            ≡ r.seen)
        × ((submit_unseen hex_digest target_digest resolve_project_context e alert_id
              r).1.seen_order
            ≡ r.seen_order)
  unfolding submit_unseen run_event
  submit_unseen-err e alert_id r x h =
      let (r2, m) = session_for (key_for_event e) r in
      let fn = λ (root : InternalRootState).
        (reduce_in hex_digest target_digest resolve_project_context r2 m e alert_id root).0 in
      let (_, m2, caps2) =
        reduce_in hex_digest target_digest resolve_project_context r2 m e alert_id r2.store.state in
      let same =
        remember_if_ok-err (update fn r2.store).0 x e.event_id
          (ran r2 (update fn r2.store).1 (key_for_event e) m2 caps2) h in
      let (z, failed) = outcome-err (update fn r2.store).0 x h in
      let (store, seen, order, _) = session_for-keeps (key_for_event e) r in
      (
        ap (λ (y : Reducer). y.store) same ∙ update-err fn r2.store z failed ∙ store,
        ap (λ (y : Reducer). y.seen) same ∙ seen,
        ap (λ (y : Reducer). y.seen_order) same ∙ order,
      )

  pub submit-cases :
      (e : AgentEvent) (alert_id : String) (r : Reducer)
      → ((x : EventError) × (submit hex_digest target_digest resolve_project_context e alert_id r
            ≡ (err (invalid x), r)))
        ⊎ ((contains e.event_id r.seen ≡ true)
            × (submit hex_digest target_digest resolve_project_context e alert_id r ≡ (ok tt, r)))
        ⊎ ((contains e.event_id r.seen ≡ false)
            × (submit hex_digest target_digest resolve_project_context e alert_id r
                ≡ submit_unseen hex_digest target_digest resolve_project_context e alert_id r))
  unfolding submit
  submit-cases e alert_id r = elim (Result-cases (validate e)) [
    | inr (x, q) ↦ inl (x, rw (q, submit) refl)
    | inl (u, q) ↦ elim (Bool-cases (contains e.event_id r.seen)) [
      | inl t ↦ inr (inl (t, rw (q, t, submit) refl))
      | inr n ↦ inr (inr (n, rw (q, n, submit) refl))
    ]
  ]

  pub submit-IsBounded :
      (e : AgentEvent) (alert_id : String) (r : Reducer)
      → IsBounded r
      → IsBounded (submit hex_digest target_digest resolve_project_context e alert_id r).1
  unfolding submit
  submit-IsBounded e alert_id r b = elim (Result-cases (validate e)) [
    | inr (x, q) ↦ rw (q, submit) b
    | inl (u, q) ↦ elim (Bool-cases (contains e.event_id r.seen)) [
      | inl t ↦ rw (q, t, submit) b
      | inr n ↦ rw (q, n, submit) (submit_unseen-IsBounded e alert_id r n b)
    ]
  ]

  -- The reducers that a run of submissions and of maintenance makes of one.
  pub data Reachable (start : Reducer) : Reducer → Type 0 where
    started : Reachable start start
    submitted :
        {r : Reducer}
        → Reachable start r
        → (e : AgentEvent) (alert_id : String)
        → Reachable start (submit hex_digest target_digest resolve_project_context e alert_id r).1
    maintained :
        {r : Reducer}
        → Reachable start r
        → (now : Instant) (draw : ℕ → String) → Reachable start (maintenance now draw r)

  -- In every run of submissions and of maintenance from a reducer whose memory is within its limits, the
  -- ids that are remembered and the sessions stay within the limits of the configuration, and the two
  -- maps hold exactly the keys that stand, once each, in the order of their arrival.
  pub Reachable-IsBounded : (start r : Reducer) → IsBounded start → Reachable start r → IsBounded r
  unfolding maintenance
  Reachable-IsBounded start r b started = b
  Reachable-IsBounded start r b (submitted {r = old} before e alert_id) =
      submit-IsBounded e alert_id old (Reachable-IsBounded start old b before)
  Reachable-IsBounded start r b (maintained {r = old} before now draw) =
      Reachable-IsBounded start old b before

  -- A submission that fails leaves the store as it was, revision and hint included, and does not
  -- remember the id of the event, so that the event may come again.
  pub submit-err :
      (e : AgentEvent) (alert_id : String) (r : Reducer) (x : SubmitError)
      → (submit hex_digest target_digest resolve_project_context e alert_id r).0 ≡ err x
      → ((submit hex_digest target_digest resolve_project_context e alert_id r).1.store ≡ r.store)
        × ((submit hex_digest target_digest resolve_project_context e alert_id r).1.seen ≡ r.seen)
        × ((submit hex_digest target_digest resolve_project_context e alert_id r).1.seen_order
            ≡ r.seen_order)
  submit-err e alert_id r x h = elim (submit-cases e alert_id r) [
    | inl (y, q) ↦ unchanged q
    | inr (inl (t, q)) ↦ unchanged q
    | inr (inr (n, q)) ↦
        let (store, seen, order) = submit_unseen-err e alert_id r x (ap (λ y. y.0) (sym q) ∙ h) in
        (
          ap (λ y. y.1.store) q ∙ store,
          ap (λ y. y.1.seen) q ∙ seen,
          ap (λ y. y.1.seen_order) q ∙ order,
        )
  ]
    where
      unchanged :
          {o : Result SubmitError (Unit {0})}
          → submit hex_digest target_digest resolve_project_context e alert_id r ≡ (o, r)
          → ((submit hex_digest target_digest resolve_project_context e alert_id r).1.store
              ≡ r.store)
            × ((submit hex_digest target_digest resolve_project_context e alert_id r).1.seen
                ≡ r.seen)
            × ((submit hex_digest target_digest resolve_project_context e alert_id r).1.seen_order
                ≡ r.seen_order)
      unchanged q = (ap (λ y. y.1.store) q, ap (λ y. y.1.seen) q, ap (λ y. y.1.seen_order) q)
