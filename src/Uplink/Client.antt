-- ===== src/Uplink/Client.antt =====
-- internal/uplink/client.go and the envelope of internal/uplink/snapshot.go. What the network makes
-- of a request is an `Exchange`; the projection of the local state is an argument of `build`.
use dev_board.Prelude.{
  ℕ, ◌*◌, String, str_eq, not, ◌&&◌, ◌||◌, Option, none, some, ltb, leb, ◌==◌, if◌then◌else◌, List,
  [], Result, ok, err, take,
}
use dev_board.Prelude.Time.{Instant, Duration, second}
use dev_board.State.Public.{PublicState}
use dev_board.Navigation.{Action}
use dev_board.Hub.Validation.{NodeSnapshot}

abbrev pub max_snapshot_body_bytes : ℕ
max_snapshot_body_bytes = 256 * 1024

abbrev pub default_request_timeout : Duration
default_request_timeout = 5 * second

pub data ErrorKind : Type 0 where
  transient auth payload conflict : ErrorKind

pub data SendOutcome : Type 0 where
  delivered : SendOutcome
  rejected : ErrorKind → SendOutcome

unfoldable pub classify_status : ℕ → SendOutcome
classify_status status =
    if status == 200
    then delivered
    else if status == 400 || status == 413 || status == 415
    then rejected payload
    else if status == 401 || status == 403
    then rejected auth
    else if status == 409
    then rejected conflict
    else if leb 300 status && ltb status 500
    then rejected payload
    else rejected transient

-- A body that cannot be encoded or is of some size, a request that cannot be made, no response, or
-- a response with its status.
pub data Exchange : Type 0 where
  unencodable : Exchange
  encoded : ℕ → Exchange → Exchange
  unsendable no_response : Exchange
  response : ℕ → Exchange

unfoldable pub send : Exchange → SendOutcome
unfolding classify_status
send unencodable = rejected payload
send (encoded size rest) =
    let sent = send rest in if ltb max_snapshot_body_bytes size then rejected payload else sent
send unsendable = rejected payload
send no_response = rejected transient
send (response status) = classify_status status

-- `AckAction`: no bound on the body, else like `Send`.
unfoldable pub ack_action : Exchange → SendOutcome
ack_action unencodable = rejected payload
ack_action (encoded size rest) = ack_action rest
ack_action unsendable = rejected payload
ack_action no_response = rejected transient
ack_action (response status) = classify_status status

-- A request for the queued actions that cannot be made, no response, or a response with its status and
-- its body.
pub data ActionsExchange : Type 0 where
  unrequested unanswered : ActionsExchange
  answered : ℕ → List ℕ → ActionsExchange

-- No more of a response than this is read.
abbrev pub max_response_body : ℕ
max_response_body = 4 * 1024

abbrev pub refused_as : SendOutcome → Result ErrorKind (List Action)
refused_as delivered = ok []
refused_as (rejected kind) = err kind

abbrev pub decoded_as : Option (List Action) → Result ErrorKind (List Action)
decoded_as none = err payload
decoded_as (some actions) = ok actions

-- `PollActions`, where the decoder is handed the body up to the limit.
unfoldable pub request_actions :
    (List ℕ → Option (List Action)) → ActionsExchange → Result ErrorKind (List Action)
request_actions decode unrequested = err payload
request_actions decode unanswered = err transient
request_actions decode (answered status body) =
    if not (status == 200)
    then refused_as (classify_status status)
    else decoded_as (decode (take max_response_body body))

-- The timeout of `NewClient`.
unfoldable pub clamp_timeout : Duration → Duration
clamp_timeout timeout =
    if timeout == 0 || ltb default_request_timeout timeout then default_request_timeout else timeout

-- `Build`, on the projection of the local state at `now`.
unfoldable pub build : String → String → ℕ → Instant → PublicState → Option NodeSnapshot
build node_id session_id sequence now pub' =
    if not (str_eq pub'.host.id node_id)
    then none
    else some (record {
      schema_version = 1;
      state_kind = "nodeSnapshot";
      node_id = node_id;
      session_id = session_id;
      sequence = sequence;
      sent_at = now;
      state = pub';
    })

module _ (hash_public_state : PublicState → ℕ) where
  -- `Digest`: the hash of the state with its generation instant set to zero.
  unfoldable pub digest : PublicState → ℕ
  digest pub' = hash_public_state (record pub' { generated_at = 0 })
