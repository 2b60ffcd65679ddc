-- ===== src/Agent/Reducer/Closed.antt =====
-- internal/agent/reducer.go: late events of a turn that is over.
use dev_board.Prelude.{
  ℕ, ◌≡◌, ◌≢◌, refl, ap, ◌∙◌, String, eq_iff, true, false, Option, some, List, [], ◌∷◌, All, ok,
  err, arith, Bool-cases, inl, inr,
}
use dev_board.Prelude.Text.{is_blank}
use dev_board.Prelude.Time.{Instant}
use dev_board.State.Internal.{TaskProjectContext}
use dev_board.State.Root.{InternalRootState}
use dev_board.Agent.Events.{AgentEvent}
use dev_board.Agent.Reducer.{
  ReducerConfig, SessionMeta, Capabilities, is_prompt, is_session_end, has_turn,
  observe_capabilities, set_source, set_source_from_capabilities,
}
use dev_board.Agent.Reducer.Prompt.{is_historical_prompt_replay}
use dev_board.Agent.Reducer.Reduce.{
  Reduced, is_ignored, reduce_attributed, reduce_with_turn, reduce_other, reduce,
}

-- Nothing that a display shows of the turns has changed, nor what the session remembers.
abbrev pub Keeps : InternalRootState → SessionMeta → Reduced → Type 0
Keeps root m (err e, m2, caps) = ⊥
Keeps root m (ok next, m2, caps) =
    (next.agents ≡ root.agents)
    × (next.tasks ≡ root.tasks)
    × (next.alerts ≡ root.alerts)
    × (next.navigation_targets ≡ root.navigation_targets)
    × (m2 ≡ m)

-- The event is of the turn, and does not end the session.
abbrev pub IsOfTurn : String → AgentEvent → Type 0
IsOfTurn turn e = (e.turn_id ≡ some turn) × (is_session_end e.event_type ≡ false)

Keeps-set_source :
    (caps : Capabilities) (e : AgentEvent) (at : Instant) (root : InternalRootState)
    (m : SessionMeta) (caps2 : Capabilities)
    → Keeps root m (
      ok (
          set_source_from_capabilities caps e.provider at true
            (record root { generated_at = e.occurred_at })),
      m,
      caps2,
    )
unfolding set_source_from_capabilities set_source
Keeps-set_source caps e at root m caps2 = (refl, refl, refl, refl, refl)

abbrev pub Scene : Type 0
Scene = InternalRootState × SessionMeta × Capabilities

-- What a reduction leaves: one that is refused leaves the root as it was.
unfoldable pub after_reduce : InternalRootState → Reduced → Scene
after_reduce root (ok next, m, caps) = (next, m, caps)
after_reduce root (err e, m, caps) = (root, m, caps)

abbrev pub Unchanged : InternalRootState → SessionMeta → Scene → Type 0
Unchanged root m (next, m2, caps) =
    (next.agents ≡ root.agents)
    × (next.tasks ≡ root.tasks)
    × (next.alerts ≡ root.alerts)
    × (next.navigation_targets ≡ root.navigation_targets)
    × (m2 ≡ m)

Unchanged-trans :
    (root : InternalRootState) (m : SessionMeta) (s t : Scene)
    → Unchanged root m s
    → Unchanged s.0 s.1 t
    → Unchanged root m t
Unchanged-trans root m (next, m2, caps) (last, m3, caps2) (a, t, l, g, s) (a2, t2, l2, g2, s2) =
    (a2 ∙ a, t2 ∙ t, l2 ∙ l, g2 ∙ g, s2 ∙ s)

Keeps-after_reduce :
    (root : InternalRootState) (m : SessionMeta) (r : Reduced)
    → Keeps root m r
    → Unchanged root m (after_reduce root r)
unfolding after_reduce
Keeps-after_reduce root m (ok next, m2, caps) k = k
Keeps-after_reduce root m (err e, m2, caps) k = elim k [ ]

prompt-closed :
    (root : InternalRootState) (m : SessionMeta) (e : AgentEvent) (turn : String)
    → m.terminal_turn_id ≡ turn
    → is_blank turn ≡ false
    → e.turn_id ≡ some turn
    → is_historical_prompt_replay root m e ≡ true
unfolding is_historical_prompt_replay
prompt-closed root m e turn h b q = rw (q, b) (ground (arith, eq_iff m.terminal_turn_id turn))

attributed-closed :
    (cfg : ReducerConfig) (alert_id : String) (root : InternalRootState) (m : SessionMeta)
    (e : AgentEvent) (turn : String)
    → m.terminal_turn_id ≡ turn
    → turn ≢ ""
    → e.turn_id ≡ some turn
    → reduce_attributed cfg alert_id root m e ≡ (root, m)
unfolding reduce_attributed
attributed-closed cfg alert_id root m e turn h b q =
    rw q (ground (arith, eq_iff m.terminal_turn_id "", eq_iff turn m.terminal_turn_id))

open_prompt :
    (root : InternalRootState) (m : SessionMeta) (e : AgentEvent)
    → is_historical_prompt_replay root m e ≡ true
    → is_ignored root m e ≡ false
    → is_prompt e.event_type ≡ false
unfolding is_ignored
open_prompt root m e h i = ground arith

module _ (hex_digest : List ℕ → List ℕ) (target_digest : List ℕ → String)
    (cfg : ReducerConfig) where
  other-closed :
      (alert_id : String) (root : InternalRootState) (m : SessionMeta) (caps : Capabilities)
      (e : AgentEvent) (turn : String)
      → m.terminal_turn_id ≡ turn
      → turn ≢ ""
      → e.turn_id ≡ some turn
      → Keeps root m (
          reduce_other hex_digest target_digest cfg alert_id
            (record root { generated_at = e.occurred_at })
            m
            caps
            e)
  unfolding reduce_other reduce_with_turn
  other-closed alert_id root m caps e turn h b q =
      let has : has_turn e ≡ true = rw q (ground (arith, eq_iff turn "")) in
      rw
        (
          has,
          attributed-closed cfg alert_id
              (set_source_from_capabilities (observe_capabilities e caps) e.provider e.occurred_at
                true (record root { generated_at = e.occurred_at }))
              m e turn h b q,
        )
        (Keeps-set_source (observe_capabilities e caps) e e.occurred_at root m
          (observe_capabilities e caps))

  -- One late event of a turn that is over.
  reduce-closed :
      (root : InternalRootState) (m : SessionMeta) (caps : Capabilities) (e : AgentEvent)
      (project : Option TaskProjectContext) (alert_id turn : String)
      → m.terminal_turn_id ≡ turn
      → is_blank turn ≡ false
      → turn ≢ ""
      → IsOfTurn turn e
      → Keeps root m (reduce hex_digest target_digest cfg root m caps e project alert_id)
  unfolding reduce
  reduce-closed root m caps e project alert_id turn h b n q =
      elim (Bool-cases (is_ignored root m e)) [
        | inl i ↦ rw i (refl, refl, refl, refl, refl)
        | inr i ↦ rw (i, not_prompt i, q.1) (other-closed alert_id root m caps e turn h n q.0)
      ]
    where
      not_prompt : is_ignored root m e ≡ false → is_prompt e.event_type ≡ false
      not_prompt i = open_prompt root m e (prompt-closed root m e turn h b q.0) i

  -- Events in the order of their arrival, each with what the program looks up for it.
  unfoldable pub reduce_all : List (AgentEvent × Option TaskProjectContext × String) → Scene → Scene
  reduce_all [] s = s
  reduce_all ((e, project, alert_id) ∷ es) s =
      reduce_all es
        (after_reduce s.0 (reduce hex_digest target_digest cfg s.0 s.1 s.2 e project alert_id))

  -- Once a turn is over, no sequence of its late events, prompts that are replayed included, changes an
  -- agent, a task, an alert or a navigation target, nor what the session remembers, as long as none of
  -- them ends the session.
  pub reduce_all-closed :
      (es : List (AgentEvent × Option TaskProjectContext × String)) (s : Scene) (turn : String)
      → s.1.terminal_turn_id ≡ turn
      → is_blank turn ≡ false
      → turn ≢ ""
      → All (λ (e, _, _). IsOfTurn turn e) es
      → Unchanged s.0 s.1 (reduce_all es s)
  unfolding reduce_all
  reduce_all-closed [] s turn h b n q = (refl, refl, refl, refl, refl)
  reduce_all-closed ((e, project, alert_id) ∷ es) s turn h b n q =
      let r = reduce hex_digest target_digest cfg s.0 s.1 s.2 e project alert_id in
      let first =
        Keeps-after_reduce s.0 s.1 r
          (reduce-closed s.0 s.1 s.2 e project alert_id turn h b n q.0) in
      let same : (after_reduce s.0 r).1.terminal_turn_id ≡ turn =
        ap (λ (x : SessionMeta). x.terminal_turn_id) first.4 ∙ h in
      Unchanged-trans s.0 s.1 (after_reduce s.0 r) (reduce_all es (after_reduce s.0 r)) first
        (reduce_all-closed es (after_reduce s.0 r) turn same b n q.1)
