-- ===== src/Agent/Reducer/Runs.antt =====
-- internal/agent/reducer.go: the parts of `Submit`, and what each leaves alone.
use dev_board.Prelude.{
  ◌≡◌, ◌≢◌, refl, ◌∙◌, String, false, Result, ok, err, arith, inl, inr, Option-cases,
}
use dev_board.Prelude.Dict.{lookup, contains}
use dev_board.State.Root.{InternalRootState}
use dev_board.State.Store.{Store, finish_update, update}
use dev_board.Agent.Reducer.{SessionMeta, Capabilities}
use dev_board.Agent.Reducer.Prompt.{ReduceError}
use dev_board.Agent.Reducer.Submit.{
  Reducer, SubmitError, session_for, write_session, outcome, remember_if_ok,
}
use dev_board.Agent.Reducer.Memory.{
  IsBounded, contains_key-write_session, remember_event_id-IsBounded,
}

pub update-err :
    {E : Type 0} (fn : InternalRootState → Result E InternalRootState) (s : Store) (e : E)
    → (update fn s).0 ≡ err e
    → (update fn s).1 ≡ s
unfolding update finish_update
update-err {E} fn s e h = go (fn s.state) h
  where
    go :
        (r : Result E InternalRootState) → (finish_update s r).0 ≡ err e → (finish_update s r).1 ≡ s
    go (ok next) q = ground arith
    go (err x) q = refl

-- What looking a session up leaves alone.
pub session_for-keeps :
    (key : String) (r : Reducer)
    → ((session_for key r).0.store ≡ r.store)
      × ((session_for key r).0.seen ≡ r.seen)
      × ((session_for key r).0.seen_order ≡ r.seen_order)
      × ((session_for key r).0.cfg ≡ r.cfg)
unfolding session_for
session_for-keeps key r = elim (Option-cases (lookup key r.sessions)) [
  | inr (m, q) ↦ rw (q, session_for) (refl, refl, refl, refl)
  | inl q ↦ rw (q, session_for) (refl, refl, refl, refl)
]

pub outcome-err :
    (x : Result ReduceError (Unit {0})) (e : SubmitError)
    → outcome x ≡ err e
    → (z : ReduceError) × (x ≡ err z)
unfolding outcome
outcome-err (ok u) e h = ground arith
outcome-err (err z) e h = (z, refl)

pub remember_if_ok-err :
    (x : Result ReduceError (Unit {0})) (e : SubmitError) (id : String) (r : Reducer)
    → outcome x ≡ err e
    → remember_if_ok x id r ≡ r
unfolding outcome remember_if_ok
remember_if_ok-err (ok u) e id r h = ground arith
remember_if_ok-err (err z) e id r h = refl

-- The rest of the reducer, as an event leaves it.
abbrev pub ran : Reducer → Store → String → SessionMeta → Capabilities → Reducer
ran r store key m caps = record r {
  store = store;
  sessions = write_session key m r.sessions;
  capabilities = caps;
}

pub ran-IsBounded :
    (r : Reducer) (store : Store) (key : String) (m : SessionMeta) (caps : Capabilities)
    → IsBounded r
    → IsBounded (ran r store key m caps)
ran-IsBounded r store key m caps (s, (len, d, t)) =
    (s, (len, d, λ k. contains_key-write_session key k m r.sessions ∙ t k))

pub remember_if_ok-IsBounded :
    (x : Result ReduceError (Unit {0})) (id : String) (r : Reducer)
    → contains id r.seen ≡ false
    → IsBounded r
    → IsBounded (remember_if_ok x id r)
unfolding remember_if_ok
remember_if_ok-IsBounded (ok u) id r n b = remember_event_id-IsBounded id r n b
remember_if_ok-IsBounded (err e) id r n b = b

pub err≢ok : (e : SubmitError) → ◌≢◌ {A = Result SubmitError (Unit {0})} (err e) (ok tt)
err≢ok e h = ground arith
