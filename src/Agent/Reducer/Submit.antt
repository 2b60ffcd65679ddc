-- ===== src/Agent/Reducer/Submit.antt =====
-- internal/agent/reducer.go, `Submit`: the reducer with its store, the ids that it has seen and the
-- sessions that it remembers. A pointer to the memory of a session is the entry under its key.
use dev_board.Prelude.{
  ℕ, String, str_eq, not, Option, none, some, List, [], ◌∷◌, ◌++◌, ltb, length, filter,
  if◌then◌else◌, Result, ok, err,
}
use dev_board.Prelude.Dict.{Dict, lookup, insert, delete, contains_key, contains}
use dev_board.State.Internal.{TaskProjectContext}
use dev_board.State.Root.{InternalRootState}
use dev_board.State.Store.{Store, update}
use dev_board.Agent.Events.{EventError, AgentEvent, validate}
use dev_board.Agent.Reducer.{
  ReducerConfig, or_defaults, SessionMeta, new_session, Capabilities, is_prompt, key_for_event,
}
use dev_board.Agent.Reducer.Prompt.{ReduceError}
use dev_board.Agent.Reducer.Reduce.{Reduced, reduce}

pub record Reducer : Type 0 where
  pub store : Store
  pub cfg : ReducerConfig
  pub seen : List String
  pub seen_order : List String
  pub sessions : Dict SessionMeta
  pub session_order : List String
  pub capabilities : Capabilities

-- NewReducerWithLogger
unfoldable pub new_reducer : Store → ReducerConfig → Reducer
new_reducer store cfg = record {
  store = store;
  cfg = or_defaults cfg;
  seen = [];
  seen_order = [];
  sessions = [];
  session_order = [];
  capabilities = [];
}

pub data SubmitError : Type 0 where
  invalid : EventError → SubmitError
  refused : ReduceError → SubmitError

unfoldable pub forget : String → List String → List String
forget id seen = filter (λ s. not (str_eq s id)) seen

-- for len(order) > max: the oldest key goes, from the order and from the map.
unfoldable pub evict {ℓ} : {S : Type ℓ} → (String → S → S) → ℕ → List String → S → List String × S
evict remove max [] held = ([], held)
evict remove max (old ∷ order) held =
    let rest = evict remove max order (remove old held) in
    if ltb max (length (old ∷ order)) then rest else (old ∷ order, held)

unfoldable pub remember_event_id : String → Reducer → Reducer
remember_event_id id r =
    let (order, seen) =
      evict forget r.cfg.max_seen_event_ids (r.seen_order ++ id ∷ []) (id ∷ r.seen) in
    record r { seen_order = order; seen = seen }

-- The memory of a session, made where there is none.
unfoldable pub session_for : String → Reducer → Reducer × SessionMeta
session_for key r = elim (lookup key r.sessions) [
  | some m ↦ (r, m)
  | none ↦
      let (order, sessions) =
        evict delete r.cfg.max_sessions (r.session_order ++ key ∷ [])
          (insert key new_session r.sessions) in
      (record r { session_order = order; sessions = sessions }, new_session)
]

-- A write through the pointer, which the map may no longer hold.
unfoldable pub write_session : String → SessionMeta → Dict SessionMeta → Dict SessionMeta
write_session key m sessions = if contains_key key sessions then insert key m sessions else sessions

unfoldable pub outcome : Result ReduceError (Unit {0}) → Result SubmitError (Unit {0})
outcome (ok u) = ok tt
outcome (err e) = err (refused e)

unfoldable pub remember_if_ok : Result ReduceError (Unit {0}) → String → Reducer → Reducer
remember_if_ok (ok u) id r = remember_event_id id r
remember_if_ok (err e) id r = r

module _ (hex_digest : List ℕ → List ℕ) (target_digest : List ℕ → String)
    (resolve_project_context : String → Option TaskProjectContext) where
  unfoldable pub enrichment : AgentEvent → Option TaskProjectContext
  enrichment e = elim e.cwd [
    | none ↦ none
    | some cwd ↦ if is_prompt e.event_type then resolve_project_context cwd else none
  ]

  abbrev pub reduce_in : Reducer → SessionMeta → AgentEvent → String → InternalRootState → Reduced
  reduce_in r m e alert_id root =
      reduce hex_digest target_digest r.cfg root m r.capabilities e (enrichment e) alert_id

  -- The update of the store, and what it leaves in the memory of the session and of the sources.
  unfoldable pub run_event :
      AgentEvent → String → Reducer → SessionMeta → Result SubmitError (Unit {0}) × Reducer
  run_event e alert_id r m =
      let (result, store) = update (λ root. (reduce_in r m e alert_id root).0) r.store in
      let (_, m2, caps2) = reduce_in r m e alert_id r.store.state in
      (
        outcome result,
        remember_if_ok result e.event_id (record r {
          store = store;
          sessions = write_session (key_for_event e) m2 r.sessions;
          capabilities = caps2;
        }),
      )

  unfoldable pub submit_unseen :
      AgentEvent → String → Reducer → Result SubmitError (Unit {0}) × Reducer
  submit_unseen e alert_id r =
      let (r2, m) = session_for (key_for_event e) r in run_event e alert_id r2 m

  unfoldable pub submit : AgentEvent → String → Reducer → Result SubmitError (Unit {0}) × Reducer
  submit e alert_id r = elim (validate e) [
    | err x ↦ (err (invalid x), r)
    | ok u ↦ if contains e.event_id r.seen then (ok tt, r) else submit_unseen e alert_id r
  ]
