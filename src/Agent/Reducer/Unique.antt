-- ===== src/Agent/Reducer/Unique.antt =====
-- internal/agent/reducer.go: no two alerts of a store are about the same type, agent and turn.
use dev_board.Prelude.{
  ℕ, suc, ◌≡◌, refl, sym, subst, String, str_eq, true, false, not, Option, List, [], ◌∷◌, ok, inl,
  inr, Bool-cases,
}
use dev_board.Prelude.Time.{Instant}
use dev_board.State.Internal.{AgentState, TaskProjectContext, TaskState}
use dev_board.State.Root.{AlertState, InternalRootState}
use dev_board.Agent.Events.{AgentEvent}
use dev_board.Agent.Creation.{turn_text}
use dev_board.Agent.Alerts.Laws.{IsUnique, resolve_all_agent_alerts-IsUnique, filter-IsUnique}
use dev_board.Agent.Reducer.{
  ReducerConfig, SessionMeta, Capabilities, is_prompt, is_session_end, has_turn, put_agent,
  observe_capabilities, degrade_attribution, set_source, set_source_from_capabilities,
  key_for_event,
}
use dev_board.Agent.Reducer.Prompt.{
  acknowledge_terminal_tasks, is_old_prompt, ensure_agent, ensure_agent_navigation_target,
  open_turn, begin_turn, opened_turn,
}
use dev_board.Agent.Reducer.Reduce.{
  is_ignored, reduce_prompt, reduce_session_end, reduce_without_turn, reduce_with_turn,
  reduce_other, reduce,
}
use dev_board.Agent.Reducer.Maintenance.{
  maintenance_needed, mark_alerts, mark_tasks, mark_stale, maintain, keeps_alert,
}
use dev_board.Agent.Reducer.Raised.{UniqueIn, reduce_attributed-IsUnique}
use dev_board.Agent.Reducer.Submit.{
  Reducer, session_for, enrichment, reduce_in, run_event, submit_unseen, submit,
}
use dev_board.Agent.Reducer.Maintenance.{maintenance}
use dev_board.Agent.Reducer.Submissions.{submit-cases, Reachable, started, submitted, maintained}
use dev_board.Agent.Reducer.Runs.{session_for-keeps}
use dev_board.State.Store.{update, update_if}
use dev_board.Agent.Reducer.Distinct.{
  UniqueOut, UniqueStore, mark_alerts-IsUnique, reduce_unattributed-IsUnique, session_end-IsUnique,
  store-remember_if_ok, update-IsUnique,
}

module _ (hex_digest : List ℕ → List ℕ) (target_digest : List ℕ → String) where
  alerts-ensure_agent_navigation_target :
      (root : InternalRootState) (a : AgentState) (e : AgentEvent)
      (project : Option TaskProjectContext)
      → (ensure_agent_navigation_target hex_digest target_digest root a e project).alerts
        ≡ root.alerts
  unfolding ensure_agent_navigation_target
  alerts-ensure_agent_navigation_target root a e project =
      elim (Bool-cases (str_eq e.session_id "")) [ inl q ↦ rw q refl | inr q ↦ rw q refl ]

  open_turn-IsUnique :
      (root : InternalRootState) (e : AgentEvent) (project : Option TaskProjectContext)
      → UniqueIn root
      → UniqueIn (open_turn hex_digest target_digest root e project)
  unfolding open_turn
  open_turn-IsUnique root e project h =
      let (agents, found) = ensure_agent e root.agents in
      let a : AgentState = record found {
        current_turn = opened_turn (turn_text e.turn_id) e.occurred_at;
      } in
      let placed : InternalRootState = record root { agents = put_agent a.id a agents } in
      resolve_all_agent_alerts-IsUnique (key_for_event e) e.occurred_at
        (ensure_agent_navigation_target hex_digest target_digest placed a e project).alerts
        (subst IsUnique (sym (alerts-ensure_agent_navigation_target placed a e project)) h)

  begin_turn-IsUnique :
      (cfg : ReducerConfig) (root : InternalRootState) (m : SessionMeta) (e : AgentEvent)
      (project : Option TaskProjectContext)
      → UniqueIn root
      → UniqueOut (begin_turn hex_digest target_digest cfg root m e project).0
  unfolding begin_turn
  begin_turn-IsUnique cfg root m e project h = elim (Bool-cases (not (has_turn e))) [
    | inl q ↦ rw q tt
    | inr q ↦ elim (Bool-cases (is_old_prompt hex_digest target_digest m e)) [
      | inl o ↦ rw (q, o) h
      | inr o ↦ rw (q, o) (open_turn-IsUnique root e project h)
    ]
  ]

  module _ (cfg : ReducerConfig) where
    reduce_other-IsUnique :
        (alert_id : String) (root : InternalRootState) (m : SessionMeta) (caps : Capabilities)
        (e : AgentEvent)
        → UniqueIn root
        → UniqueOut (reduce_other hex_digest target_digest cfg alert_id root m caps e).0
    unfolding reduce_other reduce_with_turn reduce_without_turn set_source_from_capabilities
        set_source
    reduce_other-IsUnique alert_id root m caps e h = elim (Bool-cases (has_turn e)) [
      | inl q ↦ rw q (
          reduce_attributed-IsUnique cfg alert_id
            (set_source_from_capabilities (observe_capabilities e caps) e.provider e.occurred_at
              true root)
            m e h)
      | inr q ↦ rw q (
          reduce_unattributed-IsUnique alert_id
            (set_source_from_capabilities (degrade_attribution e caps) e.provider e.occurred_at
              false root)
            e h)
    ]

    reduce-IsUnique :
        (root : InternalRootState) (m : SessionMeta) (caps : Capabilities) (e : AgentEvent)
        (project : Option TaskProjectContext) (alert_id : String)
        → UniqueIn root
        → UniqueOut (reduce hex_digest target_digest cfg root m caps e project alert_id).0
    unfolding reduce reduce_prompt reduce_session_end set_source_from_capabilities set_source
    reduce-IsUnique root m caps e project alert_id h =
        let stamped : InternalRootState = record root { generated_at = e.occurred_at } in
        elim (Bool-cases (is_ignored root m e)) [
          | inl i ↦ rw i h
          | inr i ↦ elim (Bool-cases (is_prompt e.event_type)) [
            | inl p ↦ rw (i, p) (begin_turn-IsUnique cfg (prompted stamped) m e project h)
            | inr p ↦ elim (Bool-cases (is_session_end e.event_type)) [
              | inl x ↦
                  rw (i, p, x)
                    (session_end-IsUnique
                      (set_source_from_capabilities caps e.provider e.occurred_at true stamped) m e
                      h)
              | inr x ↦ rw (i, p, x) (reduce_other-IsUnique alert_id stamped m caps e h)
            ]
          ]
        ]
      where
        prompted : InternalRootState → InternalRootState
        prompted stamped =
            let sourced =
              set_source_from_capabilities (observe_capabilities e caps) e.provider e.occurred_at
                true stamped in
            record sourced {
              tasks =
                  acknowledge_terminal_tasks e.provider e.session_id e.occurred_at sourced.tasks;
            }

  mark_stale-IsUnique :
      (cfg : ReducerConfig) (now : Instant) (draw : ℕ → String) (agents : List AgentState)
      (alerts : List AlertState) (tasks : List TaskState)
      → IsUnique alerts
      → IsUnique (mark_stale cfg now draw agents alerts tasks).alerts
  unfolding mark_stale
  mark_stale-IsUnique cfg now draw [] alerts tasks h = h
  mark_stale-IsUnique cfg now draw (a ∷ agents) alerts tasks h =
      mark_stale-IsUnique cfg now (λ n. draw (suc n)) agents (mark_alerts cfg now (draw 0) a alerts)
        (mark_tasks cfg now a tasks) (mark_alerts-IsUnique cfg now (draw 0) a alerts h)

  maintenance-IsUnique :
      (now : Instant) (draw : ℕ → String) (r : Reducer)
      → UniqueStore r.store
      → UniqueStore (maintenance now draw r).store
  unfolding maintenance update_if maintain
  maintenance-IsUnique now draw r h =
      elim (Bool-cases (maintenance_needed r.cfg now r.store.state)) [
        | inr q ↦ rw q h
        | inl q ↦ rw q (
            update-IsUnique (λ root. ok (maintain r.cfg now draw root)) r.store h
              (filter-IsUnique (keeps_alert now)
                (mark_stale r.cfg now draw r.store.state.agents r.store.state.alerts
                  r.store.state.tasks).alerts
                (mark_stale-IsUnique r.cfg now draw r.store.state.agents r.store.state.alerts
                  r.store.state.tasks h)))
      ]

  module _ (resolve_project_context : String → Option TaskProjectContext) where
    submit_unseen-IsUnique :
        (e : AgentEvent) (alert_id : String) (r : Reducer)
        → UniqueStore r.store
        → UniqueStore
            (submit_unseen hex_digest target_digest resolve_project_context e alert_id r).1.store
    unfolding submit_unseen run_event
    submit_unseen-IsUnique e alert_id r h =
        let (r2, m) = session_for (key_for_event e) r in
        let fn = λ (root : InternalRootState).
          (reduce_in hex_digest target_digest resolve_project_context r2 m e alert_id root).0 in
        let before : UniqueStore r2.store =
          subst UniqueStore (sym (session_for-keeps (key_for_event e) r).0) h in
        subst UniqueStore (sym (store-remember_if_ok (update fn r2.store).0 e.event_id _)) (
          update-IsUnique fn r2.store before (
            reduce-IsUnique r2.cfg r2.store.state m r2.capabilities e
              (enrichment hex_digest target_digest resolve_project_context e) alert_id before))

    submit-IsUnique :
        (e : AgentEvent) (alert_id : String) (r : Reducer)
        → UniqueStore r.store
        → UniqueStore (submit hex_digest target_digest resolve_project_context e alert_id r).1.store
    submit-IsUnique e alert_id r h =
        elim (submit-cases hex_digest target_digest resolve_project_context e alert_id r) [
          | inl (x, q) ↦ subst (λ y. UniqueStore y.1.store) (sym q) h
          | inr (inl (t, q)) ↦ subst (λ y. UniqueStore y.1.store) (sym q) h
          | inr (inr (n, q)) ↦
              subst (λ y. UniqueStore y.1.store) (sym q) (submit_unseen-IsUnique e alert_id r h)
        ]

    -- In every run of submissions and of maintenance, whatever ids the alerts draw, no two alerts of the
    -- store have the same type, agent and turn, where none had at the start.
    pub Reachable-IsUnique :
        (start r : Reducer)
        → IsUnique start.store.state.alerts
        → Reachable hex_digest target_digest resolve_project_context start r
        → IsUnique r.store.state.alerts
    Reachable-IsUnique start r h started = h
    Reachable-IsUnique start r h (submitted {r = old} before e alert_id) =
        submit-IsUnique e alert_id old (Reachable-IsUnique start old h before)
    Reachable-IsUnique start r h (maintained {r = old} before now draw) =
        maintenance-IsUnique now draw old (Reachable-IsUnique start old h before)
