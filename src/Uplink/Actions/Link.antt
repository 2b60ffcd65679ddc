-- ===== src/Uplink/Actions/Link.antt =====
-- internal/uplink/client.go over internal/hub/actions.go: a node that asks the hub for its queue and
-- acknowledges to it. The JSON texts are parameters; that of a listing ends with a newline.
use dev_board.Prelude.{
  ℕ, ◌<◌, ◌≡◌, inl, inr, refl, String, str_eq, Bool, true, false, not, ◌&&◌, Option, none, some,
  List, [], ◌∷◌, ◌++◌, All, Result, ok, err, arith, if◌then◌else◌, Bool-cases, leb, ltb, length,
  length-append, take, take-length, take-append,
}
use dev_board.Prelude.Text.{is_blank}
use dev_board.Prelude.Time.{Instant}
use dev_board.Navigation.{Action, ActionResult}
use dev_board.Hub.Registry.{Node}
use dev_board.Hub.Store.{NodeStateStore}
use dev_board.Hub.Receiver.{
  ActionReply, listing, acknowledged, failed, Libraries, authenticate_request, serve_actions,
}
use dev_board.Uplink.Client.{
  ErrorKind, payload, SendOutcome, no_response, response, ActionsExchange, answered, ack_action,
  request_actions, max_response_body,
}
use dev_board.Uplink.Actions.{handle_actions, poll_actions}
use dev_board.Uplink.Actions.Wire.{list_request, ack_request, status_of, IsReadable}

-- The actions that the handler is given: those with an id.
abbrev pub handled : List Action → List Action
handled [] = []
handled (a ∷ actions) = if str_eq a.id "" then handled actions else a ∷ handled actions

-- The world of a node: the store of the hub, and the actions that its handler was given.
abbrev pub World : Type 0
World = NodeStateStore × List Action

-- The functions outside: those of the hub, the token of the node, the two JSON texts that are written and
-- the one that is read, the handler, which acknowledgements arrive, and the instant at the hub.
pub record Link : Type 0 where
  pub lib : Libraries
  pub token : String
  pub encode_actions : List Action → List ℕ
  pub decode_actions : List ℕ → Option (List Action)
  pub encode_ack : String → ActionResult → String
  pub run : Action → ActionResult
  pub reaches : String → Bool
  pub now : Instant

abbrev pub exchange_of : Link → ActionReply → ActionsExchange
exchange_of k (listing actions) = answered 200 (k.encode_actions actions ++ 10 ∷ [])
exchange_of k acknowledged = answered 200 []
exchange_of k (failed status) = answered status []

abbrev pub request : Link → World → World × Result ErrorKind (List Action)
request k w =
    let (s, reply) = serve_actions k.lib w.0 (list_request k.token) k.now in
    ((s, w.1), request_actions k.decode_actions (exchange_of k reply))

abbrev pub handler : Link → Action → World → World × ActionResult
handler k action w = ((w.0, w.1 ++ action ∷ []), k.run action)

abbrev pub send_ack : Link → String → ActionResult → World → World × SendOutcome
send_ack k id result w =
    if k.reaches id
    then (let (s, reply) =
          serve_actions k.lib w.0 (ack_request k.token (k.encode_ack id result)) k.now in
        ((s, w.1), ack_action (response (status_of reply))))
    else (w, ack_action no_response)

-- The poll of a node with a handler, over the hub.
abbrev pub poll : Link → World → World
poll k w = poll_actions (request k) (handler k) (send_ack k) true false w

-- The queue as the decoder must find it: the whole text, with or without its newline, and nothing in a
-- text that was cut.
abbrev pub IsListed : Link → List Action → Type 0
IsListed k queue =
    (k.decode_actions (k.encode_actions queue) ≡ some queue)
    × (k.decode_actions (k.encode_actions queue ++ 10 ∷ []) ≡ some queue)
    × ((n : ℕ)
        → n < length (k.encode_actions queue)
        → k.decode_actions (take n (k.encode_actions queue)) ≡ none)

abbrev pub fits : Link → List Action → Bool
fits k queue = leb (length (k.encode_actions queue)) max_response_body

abbrev pub is_settled : Link → String → Bool
is_settled k id = not (is_blank id) && k.reaches id

-- The actions that stay queued: those of a blank id, which the hub does not take, and those whose
-- acknowledgement is lost.
abbrev pub unsettled : Link → List Action → List Action
unsettled k [] = []
unsettled k (a ∷ actions) =
    if is_settled k a.id then unsettled k actions else a ∷ unsettled k actions

-- A node that the hub knows, with the acknowledgements of a queue.
abbrev pub IsKnown : Link → NodeStateStore → Node → Type 0
IsKnown k s node =
    (authenticate_request k.lib s.registry (list_request k.token) ≡ some node)
    × (node.enabled ≡ true)

abbrev pub AllReadable : Link → List Action → Type 0
AllReadable k = All (IsReadable k.lib k.token k.run k.encode_ack)

pub poll-listed :
    (q : World → World × Result ErrorKind (List Action)) (h : Action → World → World × ActionResult)
    (a : String → ActionResult → World → World × SendOutcome) (w : World) (actions : List Action)
    → q w ≡ (w, ok actions)
    → poll_actions q h a true false w ≡ handle_actions q h a actions w
unfolding poll_actions
poll-listed q h a w actions e = rw (e, e) refl

pub poll-refused :
    (q : World → World × Result ErrorKind (List Action)) (h : Action → World → World × ActionResult)
    (a : String → ActionResult → World → World × SendOutcome) (w : World) (kind : ErrorKind)
    → q w ≡ (w, err kind)
    → poll_actions q h a true false w ≡ w
unfolding poll_actions
poll-refused q h a w kind e = rw (e, e) refl

pub listed-fits :
    (k : Link) (queue : List Action)
    → IsListed k queue
    → request_actions k.decode_actions (answered 200 (k.encode_actions queue ++ 10 ∷ []))
      ≡ (if fits k queue then ok queue else err payload)
unfolding request_actions
listed-fits k queue (whole, line, cut) =
    let text = k.encode_actions queue in
    let long = length-append text (10 ∷ []) in
    elim (Bool-cases (ltb max_response_body (length text))) [
      | inl q ↦
          let no : fits k queue ≡ false = ground (arith, q) in
          rw
            (
              no,
              take-append max_response_body text (10 ∷ []) (ground (arith, q)),
              cut max_response_body (ground (arith, q)),
            )
            refl
      | inr q ↦
          let yes : fits k queue ≡ true = ground (arith, q) in
          elim (Bool-cases (ltb (length text) max_response_body)) [
            | inl less ↦
                rw
                  (
                    yes,
                    take-length max_response_body (text ++ 10 ∷ []) (ground (arith, less, long)),
                    line,
                  )
                  refl
            | inr full ↦
                rw
                  (
                    yes,
                    take-append max_response_body text (10 ∷ []) (ground (arith, full)),
                    take-length max_response_body text (ground (arith, q)),
                    whole,
                  )
                  refl
          ]
    ]
