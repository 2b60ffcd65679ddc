-- ===== src/Uplink/Actions/Delivery.antt =====
-- internal/uplink/scheduler.go, internal/uplink/client.go and internal/hub/actions.go together: what a poll
-- of the actions does to the queue of the hub, whose two routes serve it.
use mathlib.Core.List.{append-nil, append_assoc}
use dev_board.Prelude.{
  ◌≡◌, ◌≢◌, inl, inr, refl, sym, ap, subst, ◌∙◌, String, str_eq, eq_iff, true, false, List, [], ◌∷◌,
  ◌++◌, All, ok, err, arith, if◌then◌else◌, Bool-cases,
}
use mathlib.Core.Bool.{true≢false}
use dev_board.Prelude.Text.{codes, is_blank}
use dev_board.Navigation.{Action}
use dev_board.Hub.Registry.{Node}
use dev_board.Hub.Store.{NodeStateStore}
use dev_board.Hub.Actions.{pending_navigation}
use dev_board.Hub.Receiver.{authenticate_request, serve_actions}
use dev_board.Uplink.Client.{payload}
use dev_board.Uplink.Actions.{handle_action, handle_actions}
use dev_board.Uplink.Actions.Wire.{
  list_request, ack_request, serve_actions-list, serve_actions-ack, serve_actions-blank,
}
use dev_board.Uplink.Actions.Link.{
  AllReadable, IsKnown, IsListed, Link, World, fits, handled, handler, is_settled, listed-fits,
  poll, poll-listed, poll-refused, request, send_ack, unsettled,
}

module _ (k : Link) (node : Node) where
  abbrev AllUnsettled : List Action → Type 0
  AllUnsettled = All (λ (b : Action). is_settled k b.id ≡ false)

  abbrev Polled : List Action → List Action → List Action → World → Type 0
  Polled kept actions log w =
      (pending_navigation w.0 node.id ≡ kept ++ unsettled k actions)
      × (w.1 ≡ log ++ handled actions)

  other_ids :
      (a : Action) (kept : List Action)
      → is_settled k a.id ≡ true
      → AllUnsettled kept
      → All (λ (b : Action). b.id ≢ a.id) kept
  other_ids a [] t h = tt
  other_ids a (b ∷ kept) t (f, h) =
      (λ e. true≢false (sym t ∙ sym (ap (is_settled k) e) ∙ f), other_ids a kept t h)

  AllUnsettled-snoc :
      (a : Action) (kept : List Action)
      → is_settled k a.id ≡ false
      → AllUnsettled kept
      → AllUnsettled (kept ++ a ∷ [])
  AllUnsettled-snoc a [] f h = (f, tt)
  AllUnsettled-snoc a (b ∷ kept) f (g, h) = (g, AllUnsettled-snoc a kept f h)

  blank_id : (id : String) → str_eq id "" ≡ true → is_settled k id ≡ false
  unfolding is_blank codes
  blank_id id e = subst (λ i. is_settled k i ≡ false) (sym ((eq_iff id "").0 e)) refl

  handle_actions-Polled :
      (actions kept log : List Action) (s : NodeStateStore)
      → IsKnown k s node
      → AllReadable k actions
      → AllUnsettled kept
      → pending_navigation s node.id ≡ kept ++ actions
      → Polled kept actions log
          (handle_actions (request k) (handler k) (send_ack k) actions (s, log))
  unfolding handle_actions handle_action
  handle_actions-Polled [] kept log s known r h q = (q, sym (append-nil log))
  handle_actions-Polled (a ∷ actions) kept log s known r h q =
      let stay = q ∙ sym (append_assoc kept (a ∷ []) actions) in
      let left = append_assoc kept (a ∷ []) (unsettled k actions) in
      let given = append_assoc log (a ∷ []) (handled actions) in
      elim (Bool-cases (str_eq a.id "")) [
        | inl e ↦
            let f = blank_id a.id e in
            let (p, l) =
              handle_actions-Polled actions (kept ++ a ∷ []) log s known r.1
                (AllUnsettled-snoc a kept f h) stay in
            rw (e, f, handle_actions) (p ∙ left, l)
        | inr e ↦ elim (Bool-cases (k.reaches a.id)) [
          | inr lost ↦
              let f : is_settled k a.id ≡ false = ground (arith, lost) in
              let (p, l) =
                handle_actions-Polled actions (kept ++ a ∷ []) (log ++ a ∷ []) s known r.1
                  (AllUnsettled-snoc a kept f h) stay in
              rw (e, f, lost, handle_actions, handle_action) (p ∙ left, l ∙ given)
          | inl arrives ↦ elim (Bool-cases (is_blank a.id)) [
            | inl b ↦
                let f : is_settled k a.id ≡ false = ground (arith, b) in
                let same =
                  serve_actions-blank k.lib k.token s node k.now k.run k.encode_ack a known.0
                    known.1 r.0 b in
                let (p, l) =
                  handle_actions-Polled actions (kept ++ a ∷ []) (log ++ a ∷ []) s known r.1
                    (AllUnsettled-snoc a kept f h) stay in
                rw (e, f, arrives, same, handle_actions, handle_action) (p ∙ left, l ∙ given)
            | inr b ↦
                let t : is_settled k a.id ≡ true = ground (arith, b, arrives) in
                let (still, taken) =
                  serve_actions-ack k.lib k.token s node k.now k.run k.encode_ack a kept actions
                    known.0 known.1 r.0 b (other_ids a kept t h) q in
                let (p, l) =
                  handle_actions-Polled actions kept (log ++ a ∷ [])
                    (serve_actions k.lib s (ack_request k.token (k.encode_ack a.id (k.run a)))
                      k.now).0
                    (
                      ap (λ g. authenticate_request k.lib g (list_request k.token)) still ∙ known.0,
                      known.1,
                    )
                    r.1 h taken in
                rw (e, t, arrives, handle_actions, handle_action) (p, l ∙ given)
          ]
        ]
      ]

  -- A poll of the actions by an enabled node, with nothing else served meanwhile, where the JSON text of
  -- its queue is read back, and no text that is cut, and every acknowledgement is readable at the hub:
  -- where the text of the queue is at most 4 KiB, it gives the
  -- handler every queued action with an id, each once and in order, and then exactly the actions of a
  -- blank id and those whose acknowledgement did not arrive stay queued, in their order. Where the text
  -- is longer, the poll gives the handler nothing and the queue stays as it was.
  pub poll_actions-queue :
      (s : NodeStateStore) (log : List Action)
      → IsKnown k s node
      → IsListed k (pending_navigation s node.id)
      → AllReadable k (pending_navigation s node.id)
      → (pending_navigation (poll k (s, log)).0 node.id ≡ (
          if fits k (pending_navigation s node.id)
          then unsettled k (pending_navigation s node.id)
          else pending_navigation s node.id))
        × ((poll k (s, log)).1
            ≡ log
              ++ (if fits k (pending_navigation s node.id)
                  then handled (pending_navigation s node.id)
                  else []))
  poll_actions-queue s log known listed r =
      let queue = pending_navigation s node.id in
      elim (Bool-cases (fits k queue)) [
        | inl q ↦
            let polled =
              poll-listed (request k) (handler k) (send_ack k) (s, log) queue (asked ∙ rw q refl) in
            let (p, l) = handle_actions-Polled queue [] log s known r tt refl in
            rw q (
              ap (λ (w : World). pending_navigation w.0 node.id) polled ∙ p,
              ap (λ (w : World). w.1) polled ∙ l,
            )
        | inr q ↦
            let polled =
              poll-refused (request k) (handler k) (send_ack k) (s, log) payload
                (asked ∙ rw q refl) in
            rw q (
              ap (λ (w : World). pending_navigation w.0 node.id) polled,
              ap (λ (w : World). w.1) polled ∙ sym (append-nil log),
            )
      ]
    where
      asked : request k (s, log) ≡ (
        (s, log),
        if fits k (pending_navigation s node.id)
            then ok (pending_navigation s node.id)
            else err payload,
      )
      asked =
          rw
            (
              serve_actions-list k.lib k.token s node k.now known.0 known.1,
              listed-fits k (pending_navigation s node.id) listed,
            )
            refl
