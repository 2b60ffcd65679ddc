-- ===== src/Agent/Alerts.antt =====
-- internal/agent/reducer.go: the alerts of the agents. The id of a new alert is random, or a hash
-- where the system has no randomness: it is an argument here, and each call draws its own.
pub mod Laws
pub mod Replay
pub mod Settled
use dev_board.Prelude.{
  String, str_eq, Bool, true, false, not, ◌&&◌, ◌||◌, Option, none, some, List, [], ◌∷◌,
  if◌then◌else◌,
}
use dev_board.Prelude.Time.{Instant}
use dev_board.State.Enums.{AlertType}
use dev_board.State.Root.{AlertState}

abbrev pub type_eq : AlertType → AlertType → Bool
type_eq AlertType.attention AlertType.attention = true
type_eq AlertType.error AlertType.error = true
type_eq AlertType.complete AlertType.complete = true
type_eq AlertType.stale AlertType.stale = true
type_eq (AlertType.other s) (AlertType.other t) = str_eq s t
type_eq _ _ = false

abbrev pub turn_ptr : String → Option String
turn_ptr s = if str_eq s "" then none else some s

unfoldable pub same_turn : Option String → Option String → Bool
same_turn none none = true
same_turn none (some b) = false
same_turn (some a) none = false
same_turn (some a) (some b) = str_eq a b

abbrev pub or_else {ℓ} : {A : Type ℓ} → Option A → Option A → Option A
or_else none old = old
or_else (some x) old = some x

-- What an alert is about: its type, its agent and its turn.
abbrev pub AlertKey : Type 0
AlertKey = AlertType × String × Option String

abbrev pub key_of : AlertState → AlertKey
key_of a = (a.type, a.agent_id, a.turn_id)

unfoldable pub same_key : AlertKey → AlertKey → Bool
same_key (typ, agent_id, turn_id) (t, g, u) =
    type_eq typ t && str_eq agent_id g && same_turn turn_id u

-- The alerts that a type, an agent and perhaps a turn select.
unfoldable pub selects : AlertType → String → Option String → AlertKey → Bool
selects typ agent_id none (t, g, u) = type_eq t typ && str_eq g agent_id
selects typ agent_id (some turn) (t, g, u) =
    type_eq t typ && str_eq g agent_id && same_turn u (some turn)

unfoldable pub upsert_alert :
    String
    → AlertType
    → String
    → Option String
    → Instant
    → Option Instant
    → Option Instant
    → List AlertState
    → List AlertState
upsert_alert id typ agent_id turn_id at hi ret [] =
    record {
      alert_id = id;
      type = typ;
      agent_id = agent_id;
      turn_id = turn_id;
      active = true;
      created_at = at;
      updated_at = at;
      high_visibility_until = hi;
      retain_until = ret;
    }
    ∷ []
upsert_alert id typ agent_id turn_id at hi ret (a ∷ alerts) =
    let rest = upsert_alert id typ agent_id turn_id at hi ret alerts in
    if same_key (key_of a) (typ, agent_id, turn_id)
    then record a {
      active = true;
      updated_at = at;
      high_visibility_until = or_else hi a.high_visibility_until;
      retain_until = or_else ret a.retain_until;
    }
      ∷ alerts
    else a ∷ rest

abbrev pub retire_alert : Instant → AlertState → AlertState
retire_alert at a = record a { active = false; updated_at = at }

unfoldable pub resolve_alert :
    AlertType → String → Option String → Instant → List AlertState → List AlertState
resolve_alert typ agent_id turn_id at [] = []
resolve_alert typ agent_id turn_id at (a ∷ alerts) =
    let rest = resolve_alert typ agent_id turn_id at alerts in
    if a.active && selects typ agent_id turn_id (key_of a)
    then retire_alert at a ∷ rest
    else a ∷ rest

unfoldable pub is_of : String → AlertKey → Bool
is_of agent_id (t, g, u) = str_eq g agent_id

unfoldable pub resolve_all_agent_alerts : String → Instant → List AlertState → List AlertState
resolve_all_agent_alerts agent_id at [] = []
resolve_all_agent_alerts agent_id at (a ∷ alerts) =
    let rest = resolve_all_agent_alerts agent_id at alerts in
    if is_of agent_id (key_of a) && a.active then retire_alert at a ∷ rest else a ∷ rest
