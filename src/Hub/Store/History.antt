-- ===== src/Hub/Store/History.antt =====
-- internal/hub/store.go, `Apply`: what holds of the store over any sequence of deliveries.
use dev_board.Prelude.{
  ℕ, ◌≡◌, refl, ap, inl, inr, String, Option, none, some, List, [], ◌∷◌, All, Result, ok, err,
}
use dev_board.Prelude.Dict.{Dict, lookup, insert, lookup-insert_cases}
use dev_board.Prelude.Time.{Instant}
use dev_board.State.Public.{PublicState}
use dev_board.Hub.Validation.{NodeSnapshot, Rejection, rejection}
use dev_board.Hub.Registry.{Node}
use dev_board.Hub.Store.{
  NodeRecord, NodeStateStore, ApplyOutcome, accepted_outcome, duplicate_outcome, apply_record,
  apply,
}
use dev_board.Hub.Store.Records.{Admitted, apply_record-Admitted}

-- One call of `Apply`.
pub record Delivery : Type 0 where
  pub node : Node
  pub snap : NodeSnapshot
  pub digest : ℕ
  pub received_at : Instant

-- The record of the host, where there is one, has the property.
pub record At {ℓ} (P : NodeRecord → Type ℓ) (host : String) (s : NodeStateStore) : Type ℓ where
  pub at_record : (rec : NodeRecord) → lookup host s.records ≡ some rec → P rec

module _ (clone : PublicState → Option PublicState) where
  unfoldable pub deliver :
      NodeStateStore → Delivery → NodeStateStore × Result Rejection ApplyOutcome
  deliver s d = apply clone s d.node d.snap d.digest d.received_at

  unfoldable pub deliver_all : NodeStateStore → List Delivery → NodeStateStore
  deliver_all s [] = s
  deliver_all s (d ∷ ds) = deliver_all (deliver s d).0 ds

  -- What a call does, on every branch.
  pub data Delivered (s : NodeStateStore) (d : Delivery)
      : NodeStateStore × Result Rejection ApplyOutcome → Type 0 where
    refused : (r : Rejection) → Delivered s d (s, err r)
    repeated :
        (rec rec' : NodeRecord) (s' : NodeStateStore)
        → lookup d.node.id s.records ≡ some rec
        → Admitted clone rec d.snap d.digest d.received_at (rec', none)
        → s' ≡ record s { records = insert d.node.id rec' s.records }
        → Delivered s d (s', ok duplicate_outcome)
    admitted :
        (rec rec' : NodeRecord) (copy : PublicState) (s' : NodeStateStore)
        → lookup d.node.id s.records ≡ some rec
        → Admitted clone rec d.snap d.digest d.received_at (rec', some copy)
        → s'.records ≡ insert d.node.id rec' s.records
        → Delivered s d (s', ok accepted_outcome)

  pub deliver-Delivered : (s : NodeStateStore) (d : Delivery) → Delivered s d (deliver s d)
  unfolding deliver apply
  deliver-Delivered s d = go (lookup d.node.id s.records) refl
    where
      on_record :
          (rec : NodeRecord)
          → lookup d.node.id s.records ≡ some rec
          → (r : Result Rejection (NodeRecord × Option PublicState))
          → apply_record clone rec d.snap d.digest d.received_at ≡ r
          → Delivered s d (deliver s d)
      on_record rec l (err r) e = rw (l, apply, e) (refused r)
      on_record rec l (ok (rec', none)) e =
          rw (l, apply, e) (repeated rec rec' _ l (apply_record-Admitted clone rec _ _ _ _ e) refl)
      on_record rec l (ok (rec', some copy)) e =
          rw (l, apply, e)
            (admitted rec rec' copy _ l (apply_record-Admitted clone rec _ _ _ _ e) refl)

      go : (o : Option NodeRecord) → lookup d.node.id s.records ≡ o → Delivered s d (deliver s d)
      go none l = rw (l, apply) (refused (rejection 500 "store_node_missing"))
      go (some rec) l = on_record rec l _ refl

  -- A property that every admission keeps is kept by every call, for every host.
  module _ {P : NodeRecord → Type 0} (host : String) where
    pub deliver-At :
        (s : NodeStateStore) (d : Delivery)
        → (d.node.id ≡ host
            → (rec : NodeRecord) (r : NodeRecord × Option PublicState)
            → Admitted clone rec d.snap d.digest d.received_at r
            → P rec
            → P r.0)
        → At P host s
        → At P host (deliver s d).0
    deliver-At s d keep a = go (deliver-Delivered s d)
      where
        inserted :
            (rec rec' : NodeRecord) (records : Dict NodeRecord) (o : Option PublicState)
            → lookup d.node.id s.records ≡ some rec
            → Admitted clone rec d.snap d.digest d.received_at (rec', o)
            → records ≡ insert d.node.id rec' s.records
            → (q : NodeRecord) → lookup host records ≡ some q
            → P q
        inserted rec rec' records o l m e q f =
            elim (lookup-insert_cases d.node.id host rec' q s.records (rw e at f)) [
              | inl (same, new) ↦ rw new (keep same rec (rec', o) m (a.at_record rec (cc)))
              | inr old ↦ a.at_record q old
            ]

        go : {r : NodeStateStore × Result Rejection ApplyOutcome} → Delivered s d r → At P host r.0
        go (refused r) = a
        go (repeated rec rec' s' l m e) = record {
          at_record =
              inserted rec rec' s'.records none l m (ap (λ (t : NodeStateStore). t.records) e);
        }
        go (admitted rec rec' copy s' l m e) = record {
          at_record = inserted rec rec' s'.records (some copy) l m e;
        }

    pub deliver_all-At :
        (s : NodeStateStore) (ds : List Delivery)
        → All
            (λ d.
              d.node.id ≡ host
              → (rec : NodeRecord) (r : NodeRecord × Option PublicState)
              → Admitted clone rec d.snap d.digest d.received_at r
              → P rec
              → P r.0)
            ds
        → At P host s
        → At P host (deliver_all s ds)
    unfolding deliver_all
    deliver_all-At s [] keep a = a
    deliver_all-At s (d ∷ ds) keep a =
        deliver_all-At (deliver s d).0 ds keep.1 (deliver-At s d keep.0 a)
