-- ===== src/Hub/Receiver.antt =====
-- internal/hub/receiver.go, with the decoding of internal/hub/snapshot.go and the action routes of
-- internal/hub/actions.go. What net/http, mime, encoding/json and SHA-256 make of a request are
-- parameters: the parsed media type and the body are fields of the request, and a decoder that
-- returns `none` has refused the text. Logging is left out.
pub mod Laws
use dev_board.Prelude.{
  ℕ, zero, suc, ◌*◌, String, len, str_eq, Bool, true, false, not, ◌&&◌, ◌||◌, Option, none, some,
  List, [], ◌∷◌, ltb, leb, ◌==◌, if◌then◌else◌, Result, ok, err, ◌>>=◌, ◌>>◌, refuse_if,
}
use dev_board.Prelude.Text.{codes, codes_eq, to_lower, take_text, drop_text, is_blank}
use dev_board.Prelude.Time.{Instant}
use dev_board.State.Public.{PublicState}
use dev_board.Navigation.{Action, ActionResult}
use dev_board.Hub.Validation.{
  NodeSnapshot, Rejection, rejection, max_body_bytes, validate_envelope, validate_nested_state,
}
use dev_board.Hub.Registry.{Node, Registry, authenticate}
use dev_board.Hub.Store.{NodeStateStore, ApplyOutcome, apply, mark_task_read}
use dev_board.Hub.Actions.{pending_navigation, ack_navigation_item}

pub record Request : Type 0 where
  pub method : String
  pub path : String
  pub raw_query : String
  pub content_type : String
  pub media_type : Option String
  pub content_length : ℕ
  pub authorization : String
  pub body : Option String

-- What the receiver tells its diagnostics observer.
pub data Event : Type 0 where
  snapshot_rejected snapshot_accepted : Event

unfoldable pub rejection_text : ℕ → String
rejection_text status =
    if status == 400
    then "invalid snapshot request"
    else if status == 401
    then "unauthorized"
    else if status == 403
    then "forbidden"
    else if status == 405
    then "method not allowed"
    else if status == 409
    then "snapshot conflict"
    else if status == 413
    then "request body too large"
    else if status == 415
    then "unsupported content type"
    else "internal server error"

abbrev pub is_json : Option String → Bool
is_json none = false
is_json (some t) = str_eq t "application/json"

-- `io.ReadAll` over the limited reader: a longer body is cut one byte above the limit, and is then too long.
unfoldable pub read_body : Request → Result Rejection String
read_body r = elim r.body [
  | none ↦ err (rejection 400 "body_read")
  | some body ↦ if ltb max_body_bytes (len body) then err (rejection 413 "body_size") else ok body
]

pub data AckBody : Type 0 where
  ack : String → Bool → String → AckBody

abbrev pub actions_route : String
actions_route = "/api/node/v1/actions"

abbrev pub actions_ack_route : String
actions_ack_route = "/api/node/v1/actions/ack"

abbrev pub max_action_body : ℕ
max_action_body = 8 * 1024

-- A reply of the action routes: the status, and the actions of a listing.
pub data ActionReply : Type 0 where
  listing : List Action → ActionReply
  acknowledged : ActionReply
  failed : ℕ → ActionReply

-- strings.Split(s, ";")[0]
unfoldable pub before_semicolon : List ℕ → List ℕ
before_semicolon [] = []
before_semicolon (c ∷ cs) = let rest = before_semicolon cs in if c == b';' then [] else c ∷ rest

-- The status of the answer to a snapshot, and what is recorded.
pub record Answer : Type 0 where
  pub status : ℕ
  pub events : List Event

unfoldable pub answer : Result Rejection ApplyOutcome → Answer
answer (err e) = record { status = e.status; events = snapshot_rejected ∷ [] }
answer (ok o) = record { status = 200; events = if o.accepted then snapshot_accepted ∷ [] else [] }

pub data Reply : Type 0 where
  snapshot_reply : Answer → Reply
  action_reply : ActionReply → Reply

-- What the receiver calls outside the repository.
pub record Libraries : Type 0 where
  pub sha256 : String → ℕ
  pub decode_node_snapshot : String → Option NodeSnapshot
  pub decode_ack : Request → Option AckBody
  pub clone_public_state : PublicState → Option PublicState

module _ (lib : Libraries) where
  -- `header[:7]` equals "bearer " up to case, and something follows.
  unfoldable pub authenticate_request : Registry → Request → Option Node
  authenticate_request registry r =
      if leb (len r.authorization) 7
        || not (codes_eq (to_lower (codes (take_text 7 r.authorization))) (codes "bearer "))
      then none
      else authenticate lib.sha256 registry (drop_text 7 r.authorization)

  unfoldable pub credentials : Registry → Request → Result Rejection Node
  credentials registry r = elim (authenticate_request registry r) [
    | none ↦ err (rejection 401 "credentials")
    | some node ↦ ok node
  ]

  unfoldable pub decoded : String → Result Rejection NodeSnapshot
  decoded body = elim (lib.decode_node_snapshot body) [
    | none ↦ err (rejection 400 "envelope_json")
    | some snap ↦ ok snap
  ]

  -- The checks of `ingest` before the store, in their order.
  unfoldable pub check_request :
      Registry → Request → Instant → Result Rejection (Node × NodeSnapshot × ℕ)
  check_request registry r now = do
    refuse_if (not (str_eq r.method "POST")) (rejection 405 "method")
    refuse_if (not (str_eq r.raw_query "")) (rejection 400 "query_string")
    refuse_if (not (is_json r.media_type)) (rejection 415 "content_type")
    refuse_if (ltb max_body_bytes r.content_length) (rejection 413 "body_size")
    body ← read_body r
    node ← credentials registry r
    snap ← decoded body
    validate_envelope snap
    refuse_if (not node.enabled) (rejection 403 "node_disabled")
    refuse_if (not (str_eq snap.node_id node.id)) (rejection 403 "identity_binding")
    validate_nested_state snap now
    ok (node, snap, lib.sha256 body)

  unfoldable pub ingest :
      NodeStateStore → Request → Instant → NodeStateStore × Result Rejection ApplyOutcome
  ingest s r now = elim (check_request s.registry r now) [
    | err e ↦ (s, err e)
    | ok (node, snap, digest) ↦ apply lib.clone_public_state s node snap digest now
  ]

  unfoldable pub serve_snapshot : NodeStateStore → Request → Instant → NodeStateStore × Answer
  serve_snapshot s r now = let (s', outcome) = ingest s r now in (s', answer outcome)

  -- `decodeActionJSON` and the test of the id.
  unfoldable pub read_ack : Request → Option AckBody
  read_ack r =
      if ltb max_action_body r.content_length
        || not (codes_eq (before_semicolon (codes r.content_type)) (codes "application/json"))
      then none
      else elim (lib.decode_ack r) [
        | none ↦ none
        | some (ack id succeeded message) ↦
            if is_blank id then none else some (ack id succeeded message)
      ]

  unfoldable pub handle_ack :
      NodeStateStore → Node → Request → Instant → NodeStateStore × ActionReply
  handle_ack s node r now = elim (read_ack r) [
    | none ↦ (s, failed 400)
    | some (ack id succeeded message) ↦
        let (s', taken) =
          ack_navigation_item s node.id id (record { succeeded = succeeded; message = message }) in
        elim taken [
          | none ↦ (s', failed 404)
          | some item ↦ (
            if succeeded && not (str_eq item.task_id "")
                then (mark_task_read s' node.id item.target_id item.task_id now).0
                else s',
            acknowledged,
          )
        ]
  ]

  unfoldable pub serve_actions : NodeStateStore → Request → Instant → NodeStateStore × ActionReply
  serve_actions s r now = elim (authenticate_request s.registry r) [
    | none ↦ (s, failed 401)
    | some node ↦
        if not node.enabled
        then (s, failed 403)
        else if str_eq r.path actions_route && str_eq r.method "GET"
        then (if str_eq r.raw_query ""
            then (s, listing (pending_navigation s node.id))
            else (s, failed 400))
        else if str_eq r.path actions_ack_route && str_eq r.method "POST"
        then handle_ack s node r now
        else (s, failed 404)
  ]

  -- `ServeHTTP` of the runtime, and the requests that it serves one after the other.
  unfoldable pub serve : NodeStateStore → Request → Instant → NodeStateStore × Reply
  serve s r now =
      if str_eq r.path actions_route || str_eq r.path actions_ack_route
      then (let (s', reply) = serve_actions s r now in (s', action_reply reply))
      else (let (s', reply) = serve_snapshot s r now in (s', snapshot_reply reply))

  unfoldable pub serve_all : NodeStateStore → List (Request × Instant) → NodeStateStore
  serve_all s [] = s
  serve_all s ((r, now) ∷ rs) = serve_all (serve s r now).0 rs
