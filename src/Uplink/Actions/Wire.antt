-- ===== src/Uplink/Actions/Wire.antt =====
-- internal/uplink/client.go and internal/hub/actions.go: the two requests of a node, as the hub serves them.
use dev_board.Prelude.{
  ℕ, ◌≤◌, ◌≡◌, ◌≢◌, inl, inr, refl, ap, ◌∙◌, String, len, str_eq, eq_iff, true, false, not, ◌&&◌,
  none, some, List, [], ◌∷◌, ◌++◌, All, arith, ltb, if◌then◌else◌, Bool-cases,
}
use Prim.Native.String.{◌++◌ as text_append}
use dev_board.Prelude.Text.{codes, codes_eq, is_blank}
use dev_board.Prelude.Time.{Instant}
use dev_board.Navigation.{Action, ActionResult}
use dev_board.Hub.Registry.{Node}
use dev_board.Hub.Store.{NodeStateStore, mark_task_read}
use dev_board.Hub.Actions.{take_action, pending_navigation, ack_navigation_item}
use dev_board.Hub.Actions.Laws.{queue_of-insert_self}
use dev_board.Hub.Receiver.{
  Request, ActionReply, listing, acknowledged, failed, ack, actions_route, actions_ack_route,
  max_action_body, before_semicolon, Libraries, authenticate_request, read_ack, handle_ack,
  serve_actions,
}

-- `PollActions`: the request for the queue.
abbrev pub list_request : String → Request
list_request token = record {
  method = "GET";
  path = actions_route;
  raw_query = "";
  content_type = "";
  media_type = none;
  content_length = 0;
  authorization = text_append "Bearer " token;
  body = some "";
}

-- `AckAction`: the request with an encoded acknowledgement.
abbrev pub ack_request : String → String → Request
ack_request token body = record {
  method = "POST";
  path = actions_ack_route;
  raw_query = "";
  content_type = "application/json";
  media_type = some "application/json";
  content_length = len body;
  authorization = text_append "Bearer " token;
  body = some body;
}

abbrev pub status_of : ActionReply → ℕ
status_of (listing actions) = 200
status_of acknowledged = 200
status_of (failed status) = status

take_action-past :
    (a : Action) (kept rest : List Action)
    → All (λ (b : Action). b.id ≢ a.id) kept
    → take_action a.id (kept ++ a ∷ rest) ≡ some (a, kept ++ rest)
unfolding take_action
take_action-past a [] rest n = ground (arith, eq_iff a.id a.id)
take_action-past a (b ∷ kept) rest (n, ns) =
    rw (take_action-past a kept rest ns) (ground (arith, eq_iff b.id a.id, n))

-- What an acknowledgement of the first action after `kept` leaves.
abbrev pub Taken : NodeStateStore → String → List Action → NodeStateStore → Type 0
Taken s node queue t = (t.registry ≡ s.registry) × (pending_navigation t node ≡ queue)

ack_navigation_item-Taken :
    (s : NodeStateStore) (node : String) (result : ActionResult) (a : Action)
    (kept rest : List Action)
    → All (λ (b : Action). b.id ≢ a.id) kept
    → pending_navigation s node ≡ kept ++ a ∷ rest
    → Taken s node (kept ++ rest) (ack_navigation_item s node a.id result).0
      × ((ack_navigation_item s node a.id result).1 ≡ some a)
unfolding pending_navigation ack_navigation_item
ack_navigation_item-Taken s node result a kept rest n q =
    rw (ap (take_action a.id) q ∙ take_action-past a kept rest n, ack_navigation_item)
      ((refl, queue_of-insert_self node (kept ++ rest) s.actions.by_node), refl)

-- The read acknowledgements are apart from the queues.
mark_task_read-Taken :
    (s t : NodeStateStore) (node host target task : String) (queue : List Action) (at : Instant)
    → Taken s node queue t
    → Taken s node queue (mark_task_read t host target task at).0
unfolding mark_task_read pending_navigation
mark_task_read-Taken s t node host target task queue at h = ground (arith, h)

module _ (lib : Libraries) (token : String) where
  pub serve_actions-list :
      (s : NodeStateStore) (node : Node) (now : Instant)
      → authenticate_request lib s.registry (list_request token) ≡ some node
      → node.enabled ≡ true
      → serve_actions lib s (list_request token) now ≡ (s, listing (pending_navigation s node.id))
  unfolding serve_actions
  serve_actions-list s node now a e = rw (a, e, serve_actions) refl

  -- The acknowledgement is read as it was written, and is within the limit.
  abbrev pub IsReadable :
      (Action → ActionResult) → (String → ActionResult → String) → Action → Type 0
  IsReadable run encode_ack a =
      let body = encode_ack a.id (run a) in
      (len body ≤ max_action_body)
      × (lib.decode_ack (ack_request token body)
          ≡ some (ack a.id (run a).succeeded (run a).message))

  read_ack-readable :
      (run : Action → ActionResult) (encode_ack : String → ActionResult → String) (a : Action)
      → IsReadable run encode_ack a
      → read_ack lib (ack_request token (encode_ack a.id (run a)))
        ≡ (if is_blank a.id then none else some (ack a.id (run a).succeeded (run a).message))
  unfolding read_ack before_semicolon codes_eq codes
  read_ack-readable run encode_ack a (l, d) =
      let fits : ltb max_action_body (len (encode_ack a.id (run a))) ≡ false = ground (arith, l) in
      rw (fits, d, read_ack) refl

  -- Both requests carry the same token.
  same_node :
      (s : NodeStateStore) (body : String)
      → authenticate_request lib s.registry (ack_request token body)
        ≡ authenticate_request lib s.registry (list_request token)
  unfolding authenticate_request
  same_node s body = refl

  serve_actions-handle_ack :
      (s : NodeStateStore) (node : Node) (now : Instant) (body : String)
      → authenticate_request lib s.registry (list_request token) ≡ some node
      → node.enabled ≡ true
      → serve_actions lib s (ack_request token body) now
        ≡ handle_ack lib s node (ack_request token body) now
  unfolding serve_actions
  serve_actions-handle_ack s node now body au en =
      rw (same_node s body ∙ au, en, serve_actions) refl

  pub serve_actions-ack :
      (s : NodeStateStore) (node : Node) (now : Instant) (run : Action → ActionResult)
      (encode_ack : String → ActionResult → String) (a : Action) (kept rest : List Action)
      → authenticate_request lib s.registry (list_request token) ≡ some node
      → node.enabled ≡ true
      → IsReadable run encode_ack a
      → is_blank a.id ≡ false
      → All (λ (b : Action). b.id ≢ a.id) kept
      → pending_navigation s node.id ≡ kept ++ a ∷ rest
      → Taken s node.id
          (kept ++ rest)
          (serve_actions lib s (ack_request token (encode_ack a.id (run a))) now).0
  unfolding handle_ack
  serve_actions-ack s node now run encode_ack a kept rest au en r b n q =
      let body = encode_ack a.id (run a) in
      let read = read_ack-readable run encode_ack a r in
      let result = run a in
      let (taken, item) = ack_navigation_item-Taken s node.id result a kept rest n q in
      let left = (ack_navigation_item s node.id a.id result).0 in
      rw (serve_actions-handle_ack s node now body au en, handle_ack, read, b, item)
        (elim (Bool-cases ((run a).succeeded && not (str_eq a.task_id ""))) [
          | inl t ↦ rw t (
              mark_task_read-Taken s left node.id node.id a.target_id a.task_id (kept ++ rest) now
                taken)
          | inr f ↦ rw f taken
        ])

  pub serve_actions-blank :
      (s : NodeStateStore) (node : Node) (now : Instant) (run : Action → ActionResult)
      (encode_ack : String → ActionResult → String) (a : Action)
      → authenticate_request lib s.registry (list_request token) ≡ some node
      → node.enabled ≡ true
      → IsReadable run encode_ack a
      → is_blank a.id ≡ true
      → (serve_actions lib s (ack_request token (encode_ack a.id (run a))) now).0 ≡ s
  unfolding handle_ack
  serve_actions-blank s node now run encode_ack a au en r b =
      rw
        (
          serve_actions-handle_ack s node now (encode_ack a.id (run a)) au en,
          handle_ack,
          read_ack-readable run encode_ack a r,
          b,
        )
        refl
