-- ===== src/Hub/Validation.antt =====
-- internal/hub/validation.go and the envelope of internal/hub/snapshot.go. A sequence number is a
-- uint64 that a decoded body supplies; the schema versions are decoded ints.
use dev_board.Prelude.{
  ℕ, ◌+◌, ◌*◌, String, len, str_eq, Bool, true, false, not, ◌&&◌, ◌||◌, List, [], ◌∷◌, ltb, ◌==◌,
  if◌then◌else◌, Result, ◌>>◌, refuse_if,
}
use dev_board.Prelude.Text.{codes, all_codes, is_alnum}
use dev_board.Prelude.Dict.{contains}
use dev_board.Prelude.Time.{Instant, Duration, second, minute, before, is_zero}
use dev_board.State.Public.{PublicState, PublicTask, PublicAgent}

pub record NodeSnapshot : Type 0 where
  pub schema_version : ℕ
  pub state_kind : String
  pub node_id : String
  pub session_id : String
  pub sequence : ℕ
  pub sent_at : Instant
  pub state : PublicState

abbrev pub max_body_bytes : ℕ
max_body_bytes = 256 * 1024

abbrev pub future_tolerance : Duration
future_tolerance = 2 * minute

abbrev pub admission_window : Duration
admission_window = 30 * second

abbrev pub online_window : Duration
online_window = 5 * second

abbrev pub stale_window : Duration
stale_window = 30 * second

abbrev pub retention_window : Duration
retention_window = 30 * minute

abbrev pub envelope_schema_version : ℕ
envelope_schema_version = 1

abbrev pub envelope_state_kind : String
envelope_state_kind = "nodeSnapshot"

abbrev pub public_state_kind : String
public_state_kind = "public"

-- The status code and the log class of a refusal.
pub record Rejection : Type 0 where
  pub status : ℕ
  pub class : String

abbrev pub rejection : ℕ → String → Rejection
rejection s c = record { status = s; class = c }

-- Letters, digits, '.', '_' and '-'.
abbrev pub node_id_code : ℕ → Bool
node_id_code c = is_alnum c || c == b'.' || c == b'_' || c == b'-'

unfoldable pub valid_node_id : String → Bool
unfolding codes all_codes
valid_node_id id =
    if ltb (len id) 1 || ltb 64 (len id) then false else all_codes node_id_code (codes id)

unfoldable pub valid_session_id : String → Bool
unfolding codes all_codes
valid_session_id s =
    if not (len s == 32)
    then false
    else all_codes (λ c. not ((ltb c b'0' || ltb b'9' c) && (ltb c b'a' || ltb b'f' c))) (codes s)

unfoldable pub validate_envelope : NodeSnapshot → Result Rejection (Unit {0})
unfolding valid_node_id valid_session_id
validate_envelope snap = do
  refuse_if (not (snap.schema_version == envelope_schema_version))
      (rejection 400 "envelope_schema_version")
  refuse_if (not (str_eq snap.state_kind envelope_state_kind)) (rejection 400 "envelope_state_kind")
  refuse_if (not (valid_node_id snap.node_id)) (rejection 400 "envelope_node_id")
  refuse_if (not (valid_session_id snap.session_id)) (rejection 400 "envelope_session_id")
  refuse_if (ltb snap.sequence 1) (rejection 400 "envelope_sequence")
  refuse_if (is_zero snap.sent_at) (rejection 400 "envelope_sent_at")

-- The loop that both tests on ids share: an empty id, or one that was seen before.
unfoldable pub bad_ids : List String → List String → Bool
unfolding contains
bad_ids seen [] = false
bad_ids seen (id ∷ ids) =
    if str_eq id "" then true else if contains id seen then true else bad_ids (id ∷ seen) ids

abbrev pub task_ids : List PublicTask → List String
task_ids [] = []
task_ids (t ∷ ts) = t.id ∷ task_ids ts

abbrev pub agent_ids : List PublicAgent → List String
agent_ids [] = []
agent_ids (a ∷ as') = a.id ∷ agent_ids as'

unfoldable pub duplicate_or_empty_task_ids : List PublicTask → Bool
unfolding bad_ids
duplicate_or_empty_task_ids tasks = bad_ids [] (task_ids tasks)

unfoldable pub duplicate_or_empty_agent_ids : List PublicAgent → Bool
unfolding bad_ids
duplicate_or_empty_agent_ids agents = bad_ids [] (agent_ids agents)

unfoldable pub validate_nested_state : NodeSnapshot → Instant → Result Rejection (Unit {0})
unfolding valid_node_id duplicate_or_empty_task_ids duplicate_or_empty_agent_ids
validate_nested_state snap now = do
  refuse_if (not (snap.state.schema_version == 1)) (rejection 400 "state_schema_version")
  refuse_if (not (str_eq snap.state.state_kind public_state_kind))
      (rejection 400 "state_state_kind")
  refuse_if (not (valid_node_id snap.state.host.id)) (rejection 400 "state_host_id")
  refuse_if (is_zero snap.state.generated_at) (rejection 400 "state_generated_at")
  refuse_if (duplicate_or_empty_task_ids snap.state.tasks) (rejection 400 "state_task_ids")
  refuse_if (duplicate_or_empty_agent_ids snap.state.agents) (rejection 400 "state_agent_ids")
  refuse_if (not (str_eq snap.state.host.id snap.node_id)) (rejection 403 "identity_binding")
  refuse_if (not (snap.sent_at == snap.state.generated_at)) (rejection 400 "sent_at_mismatch")
  refuse_if (before (now + future_tolerance) snap.state.generated_at)
      (rejection 400 "state_future_timestamp")
