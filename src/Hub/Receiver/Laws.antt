-- ===== src/Hub/Receiver/Laws.antt =====
-- internal/hub/receiver.go: what a request can change.
use dev_board.Prelude.{
  ℕ, ◌+◌, ◌≤◌, ◌≡◌, refl, ◌∙◌, ◌≢◌, inl, inr, String, str_eq, eq_iff, true, ◌||◌, Option, some,
  List, [], ◌∷◌, Result, ok, err, Result-cases, arith, Bool-cases,
}
use dev_board.Prelude.Dict.{lookup}
use dev_board.Prelude.Time.{Instant}
use dev_board.State.Public.{PublicState}
use dev_board.Hub.Validation.{NodeSnapshot, Rejection, future_tolerance, validate_nested_state}
use dev_board.Hub.Registry.{Node, Registry}
use dev_board.Hub.Store.{
  NodeRecord, NodeStateStore, new_node_state_store, ApplyOutcome, commit, retry, mark_task_read,
}
use dev_board.Hub.Store.Rules.{apply_isolated, deliver-unchanged}
use dev_board.Navigation.{ActionResult}
use dev_board.Hub.Actions.{ack_navigation_item}
use dev_board.Hub.Store.Records.{Admitted}
use dev_board.Hub.Store.Finality.{lookup-new_node_state_store}
use dev_board.Hub.Store.History.{Delivery, At, deliver, deliver-At}
use dev_board.Hub.Receiver.{
  Libraries, Request, check_request, credentials, decoded, authenticate_request, ingest, answer,
  serve_snapshot, serve_actions, handle_ack, serve, serve_all, actions_route, actions_ack_route,
}

-- What the nested state of an admissible snapshot satisfies.
record IsNested (snap : NodeSnapshot) (now : Instant) : Type 0 where
  bound : snap.state.host.id ≡ snap.node_id
  dated : snap.sent_at ≡ snap.state.generated_at
  not_future : snap.state.generated_at ≤ now + future_tolerance

validate_nested_state-IsNested :
    (snap : NodeSnapshot) (now : Instant)
    → validate_nested_state snap now ≡ ok tt
    → IsNested snap now
unfolding validate_nested_state
validate_nested_state-IsNested snap now h = ground (arith, eq_iff snap.state.host.id snap.node_id)

records-mark_task_read :
    (s : NodeStateStore) (host target task : String) (at : Instant)
    → (mark_task_read s host target task at).0.records ≡ s.records
unfolding mark_task_read
records-mark_task_read s host target task at = ground arith

records-ack_navigation_item :
    (s : NodeStateStore) (node action : String) (result : ActionResult)
    → (ack_navigation_item s node action result).0.records ≡ s.records
unfolding ack_navigation_item
records-ack_navigation_item s node action result = ground arith

module _ (lib : Libraries) where
  -- What a request that passes every check before the store is.
  pub record IsAdmissible (registry : Registry) (r : Request) (now : Instant) (node : Node)
      (snap : NodeSnapshot) : Type 0 where
    pub shown : authenticate_request lib registry r ≡ some node
    pub enabled : node.enabled ≡ true
    pub own : snap.node_id ≡ node.id
    pub bound : snap.state.host.id ≡ snap.node_id
    pub not_future : snap.state.generated_at ≤ now + future_tolerance

  check_request-IsAdmissible :
      (registry : Registry) (r : Request) (now : Instant) (node : Node) (snap : NodeSnapshot)
      (digest : ℕ)
      → check_request lib registry r now ≡ ok (node, snap, digest)
      → IsAdmissible registry r now node snap
  unfolding check_request credentials decoded
  check_request-IsAdmissible registry r now node snap digest e =
      ground (arith, validate_nested_state-IsNested snap now, eq_iff snap.node_id node.id)

  -- An answered snapshot: refused, with the store as it was; or handed to the store.
  data Ingested (s : NodeStateStore) (r : Request) (now : Instant)
      : NodeStateStore × Result Rejection ApplyOutcome → Type 0 where
    turned_away : (e : Rejection) → Ingested s r now (s, err e)
    handed_on :
        (d : Delivery)
        → IsAdmissible s.registry r now d.node d.snap
        → Ingested s r now (deliver lib.clone_public_state s d)

  ingest-Ingested :
      (s : NodeStateStore) (r : Request) (now : Instant) → Ingested s r now (ingest lib s r now)
  unfolding ingest deliver
  ingest-Ingested s r now = elim (Result-cases (check_request lib s.registry r now)) [
    | inr (e, h) ↦ rw (h, ingest) (turned_away e)
    | inl ((node, snap, digest), h) ↦
        rw (h, ingest)
          (handed_on (record { node = node; snap = snap; digest = digest; received_at = now })
            (check_request-IsAdmissible s.registry r now node snap digest h))
  ]

  -- A snapshot request that changes the record of a host carried the bearer token of the enabled node
  -- of that name, whatever the request claims elsewhere.
  pub snapshot_authority :
      (s : NodeStateStore) (r : Request) (now : Instant) (host : String)
      → lookup host (serve_snapshot lib s r now).0.records ≢ lookup host s.records
      → (node : Node) × (authenticate_request lib s.registry r ≡ some node)
        × (node.enabled ≡ true)
        × (node.id ≡ host)
  unfolding serve_snapshot
  snapshot_authority s r now host changed = go (ingest-Ingested s r now) changed
    where
      go :
          {x : NodeStateStore × Result Rejection ApplyOutcome}
          → Ingested s r now x
          → lookup host x.0.records ≢ lookup host s.records
          → (node : Node) × (authenticate_request lib s.registry r ≡ some node)
            × (node.enabled ≡ true)
            × (node.id ≡ host)
      go (turned_away e) c = absurd (c refl)
      go (handed_on d a) c = elim (Bool-cases (str_eq d.node.id host)) [
        | inl same ↦ (d.node, a.shown, a.enabled, (eq_iff d.node.id host).0 same)
        | inr differs ↦ absurd (
            c
              (apply_isolated lib.clone_public_state s d host
                (λ e. cc ((eq_iff d.node.id host).1 e))).0)
      ]

  -- A snapshot that is not answered with 200 leaves the store as it was.
  pub refused_unchanged :
      (s : NodeStateStore) (r : Request) (now : Instant)
      → (serve_snapshot lib s r now).1.status ≢ 200
      → (serve_snapshot lib s r now).0 ≡ s
  unfolding serve_snapshot answer
  refused_unchanged s r now h = go (ingest-Ingested s r now) h
    where
      go :
          {x : NodeStateStore × Result Rejection ApplyOutcome}
          → Ingested s r now x
          → (answer x.1).status ≢ 200
          → x.0 ≡ s
      go (turned_away e) h = refl
      go (handed_on d a) h = elim (Result-cases (deliver lib.clone_public_state s d).1) [
        | inl (o, e) ↦ absurd (h (rw (e, answer)))
        | inr (e, f) ↦ deliver-unchanged lib.clone_public_state s d e f
      ]

  records-handle_ack :
      (s : NodeStateStore) (node : Node) (r : Request) (now : Instant)
      → (handle_ack lib s node r now).0.records ≡ s.records
  unfolding handle_ack
  records-handle_ack s node r now =
      grind (arith, records-mark_task_read, records-ack_navigation_item)

  records-serve_actions :
      (s : NodeStateStore) (r : Request) (now : Instant)
      → (serve_actions lib s r now).0.records ≡ s.records
  unfolding serve_actions
  records-serve_actions s r now = grind (arith, records-handle_ack)

  -- The state that the record holds is of the host itself.
  abbrev pub IsOwn : String → NodeRecord → Type 0
  IsOwn host rec = (p : PublicState) → rec.state ≡ some p → p.host.id ≡ host

  Admitted-IsOwn :
      ((p q : PublicState) → lib.clone_public_state p ≡ some q → q.host.id ≡ p.host.id)
      → (host : String) (rec : NodeRecord) (snap : NodeSnapshot) (digest : ℕ) (at : Instant)
        (r : NodeRecord × Option PublicState)
      → snap.state.host.id ≡ host
      → Admitted lib.clone_public_state rec snap digest at r
      → IsOwn host rec
      → IsOwn host r.0
  unfolding retry commit
  Admitted-IsOwn c host rec snap digest at r own (inl (_, e)) o p f = ground (arith, o p)
  Admitted-IsOwn c host rec snap digest at r own (inr (copy, _, _, k, e)) o p f =
      ground (arith, c snap.state p)

  At-records :
      {P : NodeRecord → Type 0} (host : String) (s t : NodeStateStore)
      → t.records ≡ s.records
      → At P host s
      → At P host t
  At-records host s t e a = record { at_record = λ rec h. a.at_record rec (rw e at h) }

  ingest-IsOwn :
      ((p q : PublicState) → lib.clone_public_state p ≡ some q → q.host.id ≡ p.host.id)
      → (s : NodeStateStore) (r : Request) (now : Instant) (host : String) → At (IsOwn host) host s
      → At (IsOwn host) host (ingest lib s r now).0
  ingest-IsOwn c s r now host a = go (ingest-Ingested s r now)
    where
      go :
          {x : NodeStateStore × Result Rejection ApplyOutcome}
          → Ingested s r now x
          → At (IsOwn host) host x.0
      go (turned_away e) = a
      go (handed_on d g) =
          deliver-At lib.clone_public_state host s d
            (λ n rec x m.
              Admitted-IsOwn c host rec d.snap d.digest d.received_at x (g.bound ∙ g.own ∙ n) m)
            a

  serve-IsOwn :
      ((p q : PublicState) → lib.clone_public_state p ≡ some q → q.host.id ≡ p.host.id)
      → (s : NodeStateStore) (r : Request) (now : Instant) (host : String) → At (IsOwn host) host s
      → At (IsOwn host) host (serve lib s r now).0
  unfolding serve serve_snapshot
  serve-IsOwn c s r now host a =
      elim (Bool-cases (str_eq r.path actions_route || str_eq r.path actions_ack_route)) [
        | inl t ↦ rw (t, serve) (At-records host s _ (records-serve_actions s r now) a)
        | inr f ↦ rw (f, serve) (ingest-IsOwn c s r now host a)
      ]

  serve_all-At :
      ((p q : PublicState) → lib.clone_public_state p ≡ some q → q.host.id ≡ p.host.id)
      → (s : NodeStateStore) (rs : List (Request × Instant)) (host : String)
      → At (IsOwn host) host s
      → At (IsOwn host) host (serve_all lib s rs)
  unfolding serve_all
  serve_all-At c s [] host a = a
  serve_all-At c s ((r, now) ∷ rs) host a =
      serve_all-At c (serve lib s r now).0 rs host (serve-IsOwn c s r now host a)

  -- Whatever requests the hub serves from its start, the state that it holds under the id of a host is
  -- one in which that host reports itself, provided that a copy of a state names the same host.
  pub serve_all-IsOwn :
      ((p q : PublicState) → lib.clone_public_state p ≡ some q → q.host.id ≡ p.host.id)
      → (registry : Registry) (rs : List (Request × Instant)) (host : String) (rec : NodeRecord)
        (p : PublicState)
      → lookup host (serve_all lib (new_node_state_store registry) rs).records ≡ some rec
      → rec.state ≡ some p
      → p.host.id ≡ host
  serve_all-IsOwn c registry rs host rec p l e =
      (serve_all-At c (new_node_state_store registry) rs host start).at_record rec l p e
    where
      start : At (IsOwn host) host (new_node_state_store registry)
      start = record {
        at_record = λ q h. rw (lookup-new_node_state_store registry host q h) (λ p e. cc);
      }
