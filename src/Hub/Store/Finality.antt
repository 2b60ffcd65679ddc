-- ===== src/Hub/Store/Finality.antt =====
-- internal/hub/store.go, `Apply`: sessions and sequence numbers over the life of the hub.
use dev_board.Prelude.{
  ℕ, ◌≡◌, refl, ap, ◌≢◌, inl, inr, String, true, Option, some, List, [], ◌∷◌, All-every, Result, ok,
  err,
}
use dev_board.Prelude.Dict.{lookup, insert, lookup-insert_self, lookup-insert_cases, contains}
use dev_board.State.Public.{PublicState}
use dev_board.Hub.Validation.{Rejection}
use dev_board.Hub.Registry.{Registry}
use dev_board.Hub.Store.{
  NodeRecord, NodeStateStore, ApplyOutcome, accepted_outcome, empty_record, empty_records,
  new_node_state_store, commit,
}
use dev_board.Hub.Store.Records.{
  IsOpen, Settled, Admitted, Admitted-IsOpen, Admitted-Settled, Admitted-retired, commit-retired,
  retired-refused, commit-Settled, Settled-not_proceed,
}
use dev_board.Hub.Store.History.{
  Delivery, At, deliver, deliver_all, Delivered, deliver-Delivered, refused, repeated, admitted,
  deliver-At, deliver_all-At,
}

pub lookup-empty_records :
    (ids : List String) (host : String) (rec : NodeRecord)
    → lookup host (empty_records ids) ≡ some rec
    → rec ≡ empty_record
unfolding empty_records lookup
lookup-empty_records [] host rec e = cc
lookup-empty_records (id ∷ ids) host rec e =
    elim (lookup-insert_cases id host empty_record rec (empty_records ids) e) [
      | inl (_, new) ↦ new
      | inr old ↦ lookup-empty_records ids host rec old
    ]

-- At the start each record is empty.
pub lookup-new_node_state_store :
    (registry : Registry) (host : String) (rec : NodeRecord)
    → lookup host (new_node_state_store registry).records ≡ some rec
    → rec ≡ empty_record
unfolding new_node_state_store
lookup-new_node_state_store registry host rec e = lookup-empty_records registry.order host rec e

module _ (clone : PublicState → Option PublicState) where
  -- The store after the deliveries `ds`, from the start of the hub.
  abbrev pub history : Registry → List Delivery → NodeStateStore
  history registry ds = deliver_all clone (new_node_state_store registry) ds

  pub history-IsOpen :
      (registry : Registry) (ds : List Delivery) (host : String)
      → At IsOpen host (history registry ds)
  unfolding new_node_state_store
  history-IsOpen registry ds host =
      deliver_all-At clone host _ ds
        (All-every (λ d _ rec r m. Admitted-IsOpen clone rec d.snap d.digest d.received_at r m) ds)
        (record { at_record = λ rec e. rw (lookup-empty_records registry.order host rec e) refl })

  -- After an accepted delivery its tuple is settled.
  accepted-Settled :
      (s : NodeStateStore) (d : Delivery)
      → (deliver clone s d).1 ≡ ok accepted_outcome
      → At (Settled d.snap.session_id d.snap.sequence) d.node.id (deliver clone s d).0
  accepted-Settled s d e = go (deliver-Delivered clone s d) e
    where
      go :
          {r : NodeStateStore × Result Rejection ApplyOutcome}
          → Delivered clone s d r
          → r.1 ≡ ok accepted_outcome
          → At (Settled d.snap.session_id d.snap.sequence) d.node.id r.0
      go (refused r) e = cc
      go (repeated rec rec' s' l m f) e = cc
      go (admitted rec rec' copy s' l (inl (_, f)) g) e = cc
      go (admitted rec rec' copy s' l (inr (copy', _, _, _, f)) g) e = record {
        at_record = λ q h.
            let new : q ≡ commit rec d.snap d.digest copy' d.received_at =
              cc (ap (lookup d.node.id) g, lookup-insert_self d.node.id rec' s.records) in
            rw new (commit-Settled rec d.snap d.digest copy' d.received_at);
      }

  Settled-refuses :
      (s : NodeStateStore) (d : Delivery)
      → At IsOpen d.node.id s
      → At (Settled d.snap.session_id d.snap.sequence) d.node.id s
      → (deliver clone s d).1 ≢ ok accepted_outcome
  Settled-refuses s d o a e = go (deliver-Delivered clone s d) e
    where
      go :
          {r : NodeStateStore × Result Rejection ApplyOutcome}
          → Delivered clone s d r
          → r.1 ≢ ok accepted_outcome
      go (refused r) e = cc
      go (repeated rec rec' s' l m f) e = cc
      go (admitted rec rec' copy s' l (inl (_, f)) g) e = cc
      go (admitted rec rec' copy s' l (inr (copy', p, _, _, f)) g) e =
          Settled-not_proceed rec d.snap d.digest (o.at_record rec l) (a.at_record rec l) p

  -- What the next call and all later ones keep of the record of a host.
  module _ {P : NodeRecord → Type 0} (host : String)
      (keep : (rec : NodeRecord) (d : Delivery) (r : NodeRecord × Option PublicState)
        → Admitted clone rec d.snap d.digest d.received_at r
        → P rec
        → P r.0) where
    then_all :
        (s : NodeStateStore) (ds : List Delivery) → At P host s → At P host (deliver_all clone s ds)
    then_all s ds a =
        deliver_all-At clone host s ds (All-every (λ d _ rec r m. keep rec d r m) ds) a

    then_one : (s : NodeStateStore) (d : Delivery) → At P host s → At P host (deliver clone s d).0
    then_one s d a = deliver-At clone host s d (λ _ rec r m. keep rec d r m) a

  keep-IsOpen :
      (rec : NodeRecord) (d : Delivery) (r : NodeRecord × Option PublicState)
      → Admitted clone rec d.snap d.digest d.received_at r
      → IsOpen rec
      → IsOpen r.0
  keep-IsOpen rec d r m = Admitted-IsOpen clone rec d.snap d.digest d.received_at r m

  keep-Settled :
      (session : String) (seq : ℕ) (rec : NodeRecord) (d : Delivery)
      (r : NodeRecord × Option PublicState)
      → Admitted clone rec d.snap d.digest d.received_at r
      → Settled session seq rec
      → Settled session seq r.0
  keep-Settled session seq rec d r m =
      Admitted-Settled clone rec d.snap d.digest d.received_at r session seq m

  keep-retired :
      (session : String) (rec : NodeRecord) (d : Delivery) (r : NodeRecord × Option PublicState)
      → Admitted clone rec d.snap d.digest d.received_at r
      → contains session rec.retired ≡ true
      → contains session r.0.retired ≡ true
  keep-retired session rec d r m =
      Admitted-retired clone rec d.snap d.digest d.received_at r session m

  -- A snapshot that is accepted is accepted once: whatever is delivered after it, no delivery for the
  -- same node with the same session and sequence number, whatever its content, is accepted again.
  pub accepted_once :
      (registry : Registry) (earlier later : List Delivery) (d d' : Delivery)
      → (deliver clone (history registry earlier) d).1 ≡ ok accepted_outcome
      → d'.node.id ≡ d.node.id
      → d'.snap.session_id ≡ d.snap.session_id
      → d'.snap.sequence ≡ d.snap.sequence
      → (deliver clone
          (deliver_all clone (deliver clone (history registry earlier) d).0 later)
          d').1
        ≢ ok accepted_outcome
  accepted_once registry earlier later d d' e n i q =
      Settled-refuses _ d'
        (rw n (
          then_all d.node.id keep-IsOpen _ later
            (then_one d.node.id keep-IsOpen _ d (history-IsOpen registry earlier d.node.id))))
        (rw (n, i, q)
          (then_all d.node.id (keep-Settled d.snap.session_id d.snap.sequence) _ later
            (accepted-Settled _ d e)))

  retired-refuses :
      (s : NodeStateStore) (d : Delivery)
      → At IsOpen d.node.id s
      → At (λ rec. contains d.snap.session_id rec.retired ≡ true) d.node.id s
      → (r : Rejection) × (deliver clone s d ≡ (s, err r))
  retired-refuses s d o a = go (deliver-Delivered clone s d)
    where
      go :
          {r : NodeStateStore × Result Rejection ApplyOutcome}
          → Delivered clone s d r
          → (x : Rejection) × (r ≡ (s, err x))
      go (refused r) = (r, refl)
      go (repeated rec rec' s' l m f) = absurd (
          retired-refused clone rec d.snap d.digest d.received_at _ (o.at_record rec l)
            (a.at_record rec l) m)
      go (admitted rec rec' copy s' l m g) = absurd (
          retired-refused clone rec d.snap d.digest d.received_at _ (o.at_record rec l)
            (a.at_record rec l) m)

  accepted-retired :
      (s : NodeStateStore) (d : Delivery) (host session : String) (seq : ℕ)
      → d.node.id ≡ host
      → session ≢ d.snap.session_id
      → At (Settled session seq) host s
      → (deliver clone s d).1 ≡ ok accepted_outcome
      → At (λ rec. contains session rec.retired ≡ true) host (deliver clone s d).0
  accepted-retired s d host session seq n h a e = go (deliver-Delivered clone s d) e
    where
      go :
          {r : NodeStateStore × Result Rejection ApplyOutcome}
          → Delivered clone s d r
          → r.1 ≡ ok accepted_outcome
          → At (λ rec. contains session rec.retired ≡ true) host r.0
      go (refused r) e = cc
      go (repeated rec rec' s' l m f) e = cc
      go (admitted rec rec' copy s' l (inl (_, f)) g) e = cc
      go (admitted rec rec' copy s' l (inr (copy', _, _, _, f)) g) e = record {
        at_record = λ q h'.
            let new : q ≡ commit rec d.snap d.digest copy' d.received_at = cc (
              ap (lookup host) g,
              ap (λ k. lookup host (insert k rec' s.records)) n,
              lookup-insert_self host rec' s.records,
            ) in
            rw new (
              commit-retired rec d.snap d.digest copy' d.received_at session seq h
                (a.at_record rec (rw (← n) l)));
      }

  -- The store when the deliveries `between` have followed on `d`.
  abbrev pub followed : Registry → List Delivery → Delivery → List Delivery → NodeStateStore
  followed registry earlier d between =
      deliver_all clone (deliver clone (history registry earlier) d).0 between

  -- The store when `e` and `later` have followed on that.
  abbrev pub taken_over :
      Registry
      → List Delivery
      → Delivery
      → List Delivery
      → Delivery
      → List Delivery
      → NodeStateStore
  taken_over registry earlier d between e later =
      deliver_all clone (deliver clone (followed registry earlier d between) e).0 later

  -- A session that was accepted for a node and then replaced by another accepted session is over: after
  -- any further deliveries, each delivery of the old session for that node is refused, whatever its
  -- sequence number, age and content, and leaves the store as it was.
  pub takeover_final :
      (registry : Registry) (earlier between later : List Delivery) (d e f : Delivery)
      → (deliver clone (history registry earlier) d).1 ≡ ok accepted_outcome
      → e.node.id ≡ d.node.id
      → d.snap.session_id ≢ e.snap.session_id
      → (deliver clone (followed registry earlier d between) e).1 ≡ ok accepted_outcome
      → f.node.id ≡ d.node.id
      → f.snap.session_id ≡ d.snap.session_id
      → (r : Rejection) × (deliver clone (taken_over registry earlier d between e later) f
          ≡ (taken_over registry earlier d between e later, err r))
  takeover_final registry earlier between later d e f pd ne de pe nf sf =
      retired-refuses _ f (rw nf opened) (
        rw (nf, sf)
          (then_all d.node.id (keep-retired d.snap.session_id) _ later
            (accepted-retired _ e host d.snap.session_id d.snap.sequence ne de settled pe)))
    where
      host : String
      host = d.node.id

      opened : At IsOpen host (
          deliver_all clone
            (deliver clone
              (deliver_all clone (deliver clone (history registry earlier) d).0 between)
              e).0
            later)
      opened = then_all host keep-IsOpen _ later (
          then_one host keep-IsOpen _ e (
            then_all host keep-IsOpen _ between
              (then_one host keep-IsOpen _ d (history-IsOpen registry earlier host))))

      settled :
          At
            (Settled d.snap.session_id d.snap.sequence)
            host
            (deliver_all clone (deliver clone (history registry earlier) d).0 between)
      settled =
          then_all host (keep-Settled d.snap.session_id d.snap.sequence) _ between
            (accepted-Settled _ d pd)
