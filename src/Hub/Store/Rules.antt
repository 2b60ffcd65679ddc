-- ===== src/Hub/Store/Rules.antt =====
-- internal/hub/store.go, `Apply`: one call against the ordering rules stated on their own, and what
-- it leaves alone.
use dev_board.Prelude.{
  ℕ, ◌≤◌, ◌<◌, ◌-◌, ◌≡◌, refl, subst, ◌≢◌, ◌⊎◌, ◌↔◌, inl, inr, String, eq_iff, false, Option, none,
  some, List, All, All-map, Result, ok, err, arith, Option-cases,
}
use dev_board.Prelude.Dict.{Dict, lookup, lookup-insert_ne, contains}
use dev_board.Prelude.Time.{Instant}
use dev_board.State.Public.{PublicState}
use dev_board.Hub.Validation.{NodeSnapshot, Rejection, admission_window}
use dev_board.Hub.Registry.{Registry}
use dev_board.Hub.Store.{
  NodeIngest, NodeRecord, NodeStateStore, ApplyOutcome, accepted_outcome, apply_record, apply,
  order_check, order_against, commit, proceed, prune_read_acks, new_node_state_store,
}
use dev_board.Hub.Store.Records.{IsHeld, Admitted-IsHeld}
use dev_board.Hub.Store.Finality.{lookup-empty_records}
use dev_board.Hub.Store.History.{
  Delivery, At, deliver, deliver_all, deliver_all-At, Delivered, deliver-Delivered, refused,
  repeated, admitted,
}

-- The snapshot may follow what the node has sent before: it goes on in the active session, or it
-- opens a session that was never replaced and does not go back before the accepted instant.
abbrev pub Follows : Option NodeIngest → List String → NodeSnapshot → Type 0
Follows none retired snap = Unit {0}
Follows (some ing) retired snap =
    ((snap.session_id ≡ ing.session_id) × (ing.sequence < snap.sequence))
    ⊎ ((snap.session_id ≢ ing.session_id)
        × (contains snap.session_id retired ≡ false)
        × (ing.generated_at ≤ snap.state.generated_at))

-- The snapshot was generated at most 30 seconds before it was received.
abbrev pub IsRecent : NodeSnapshot → Instant → Type 0
IsRecent snap received_at = received_at - snap.state.generated_at ≤ admission_window

order_against-Follows :
    (ing : NodeIngest) (retired : List String) (snap : NodeSnapshot) (digest : ℕ)
    → (order_against ing retired snap digest ≡ proceed) ↔ Follows (some ing) retired snap
unfolding order_against
order_against-Follows ing retired snap digest =
    ((λ h. grind (arith, eq_iff)), (λ h. grind (arith, eq_iff)))

order_check-Follows :
    (rec : NodeRecord) (snap : NodeSnapshot) (digest : ℕ)
    → (order_check rec snap digest ≡ proceed) ↔ Follows rec.ingest rec.retired snap
unfolding order_check
order_check-Follows rec snap digest = elim (Option-cases rec.ingest) [
  | inl e ↦ rw e ((λ _. tt), (λ _. refl))
  | inr (i, e) ↦ rw e (order_against-Follows i rec.retired snap digest)
]

lookup-prune_read_acks_ne :
    (id host : String) (copy : PublicState) (acks : Dict (Dict Instant))
    → id ≢ host
    → lookup host (prune_read_acks id copy acks) ≡ lookup host acks
unfolding prune_read_acks
lookup-prune_read_acks_ne id host copy acks n = elim (Option-cases (lookup id acks)) [
  | inl e ↦ rw (e, prune_read_acks)
  | inr (m, e) ↦ rw (e, prune_read_acks) (lookup-insert_ne id host _ acks n)
]

module _ (clone : PublicState → Option PublicState) where
  record_accepts :
      (rec : NodeRecord) (snap : NodeSnapshot) (digest : ℕ) (at : Instant) (copy : PublicState)
      → clone snap.state ≡ some copy
      → Follows rec.ingest rec.retired snap
      → IsRecent snap at
      → apply_record clone rec snap digest at ≡ ok (commit rec snap digest copy at, some copy)
  unfolding apply_record
  record_accepts rec snap digest at copy c f w =
      ground (arith, (order_check-Follows rec snap digest).1 f)

  accepted_proceeds :
      (s : NodeStateStore) (d : Delivery) (rec : NodeRecord)
      → lookup d.node.id s.records ≡ some rec
      → (deliver clone s d).1 ≡ ok accepted_outcome
      → (order_check rec d.snap d.digest ≡ proceed) × IsRecent d.snap d.received_at
  accepted_proceeds s d rec l e = go (deliver-Delivered clone s d) e
    where
      go :
          {r : NodeStateStore × Result Rejection ApplyOutcome}
          → Delivered clone s d r
          → r.1 ≡ ok accepted_outcome
          → (order_check rec d.snap d.digest ≡ proceed) × IsRecent d.snap d.received_at
      go (refused r) e = cc
      go (repeated q q' s' k m f) e = cc
      go (admitted q q' copy s' k (inl (_, f)) g) e = cc
      go (admitted q q' copy s' k (inr (copy', p, w, _, f)) g) e =
          let same : q ≡ rec = cc in
          (subst (λ t. order_check t d.snap d.digest ≡ proceed) same p, ground arith)

  -- Where the node is registered and the copy of its state succeeds, a call of `Apply` accepts a
  -- snapshot exactly when it follows what the node has sent before and is at most 30 seconds old.
  pub accepted_iff :
      (s : NodeStateStore) (d : Delivery) (rec : NodeRecord) (copy : PublicState)
      → lookup d.node.id s.records ≡ some rec
      → clone d.snap.state ≡ some copy
      → ((deliver clone s d).1 ≡ ok accepted_outcome)
        ↔ (Follows rec.ingest rec.retired d.snap × IsRecent d.snap d.received_at)
  unfolding deliver apply
  accepted_iff s d rec copy l c = (
    (λ h.
        let (p, w) = accepted_proceeds s d rec l h in
        ((order_check-Follows rec d.snap d.digest).0 p, w)),
    (λ (f, w). rw (l, apply, record_accepts rec d.snap d.digest d.received_at copy c f w)),
  )

  -- A refused call changes nothing.
  pub deliver-unchanged :
      (s : NodeStateStore) (d : Delivery) (r : Rejection)
      → (deliver clone s d).1 ≡ err r
      → (deliver clone s d).0 ≡ s
  unfolding deliver apply
  deliver-unchanged s d r h = ground arith

  -- No call of `Apply` changes the record or the acknowledgements of another node.
  pub apply_isolated :
      (s : NodeStateStore) (d : Delivery) (host : String)
      → d.node.id ≢ host
      → (lookup host (deliver clone s d).0.records ≡ lookup host s.records)
        × (lookup host (deliver clone s d).0.read_acks ≡ lookup host s.read_acks)
  unfolding deliver apply
  apply_isolated s d host n = grind (arith, lookup-insert_ne, lookup-prune_read_acks_ne)

  -- The instant of a digest: equal digests come from equal bodies.
  module _ (origin : ℕ → Instant) where
    abbrev pub IsGenuine : Delivery → Type 0
    IsGenuine d = d.snap.state.generated_at ≡ origin d.digest

    history-IsHeld :
        (registry : Registry) (ds : List Delivery) (host : String)
        → All IsGenuine ds
        → At (IsHeld origin) host (deliver_all clone (new_node_state_store registry) ds)
    unfolding new_node_state_store
    history-IsHeld registry ds host g =
        deliver_all-At clone host _ ds
          (All-map
            (λ d e _ rec r m. Admitted-IsHeld origin clone rec d.snap d.digest d.received_at r m e)
            ds g)
          (record {
            at_record = λ rec e. rw (lookup-empty_records registry.order host rec e) (refl, refl);
          })
