-- ===== src/Agent/Alerts/Replay.antt =====
-- internal/agent/reducer.go: runs of the operations on alerts, seen as a set of active keys.
use dev_board.Prelude.{◌≡◌, ◌∙◌, refl, ap, String, Bool, not, ◌&&◌, ◌||◌, Option, List, [], ◌∷◌}
use dev_board.Prelude.Time.{Instant}
use dev_board.State.Enums.{AlertType}
use dev_board.State.Root.{AlertState}
use dev_board.Agent.Alerts.{
  AlertKey, same_key, selects, is_of, upsert_alert, resolve_alert, resolve_all_agent_alerts,
}
use dev_board.Agent.Alerts.Laws.{
  is_active, is_active-upsert_alert, is_active-resolve_alert, is_active-resolve_all_agent_alerts,
}

-- One call of the reducer on its alerts.
pub data AlertCall : Type 0 where
  upsert :
      String
      → AlertType
      → String
      → Option String
      → Instant
      → Option Instant
      → Option Instant
      → AlertCall
  resolve : AlertType → String → Option String → Instant → AlertCall
  resolve_all : String → Instant → AlertCall

abbrev pub call : AlertCall → List AlertState → List AlertState
call (upsert id typ agent_id turn_id at hi ret) alerts =
    upsert_alert id typ agent_id turn_id at hi ret alerts
call (resolve typ agent_id turn_id at) alerts = resolve_alert typ agent_id turn_id at alerts
call (resolve_all agent_id at) alerts = resolve_all_agent_alerts agent_id at alerts

abbrev pub call_all : List AlertCall → List AlertState → List AlertState
call_all [] alerts = alerts
call_all (c ∷ cs) alerts = call_all cs (call c alerts)

-- The same on the set of the keys that are active.
abbrev pub KeySet : Type 0
KeySet = AlertKey → Bool

abbrev pub call_set : AlertCall → KeySet → KeySet
call_set (upsert id typ agent_id turn_id at hi ret) set k =
    same_key (typ, agent_id, turn_id) k || set k
call_set (resolve typ agent_id turn_id at) set k = not (selects typ agent_id turn_id k) && set k
call_set (resolve_all agent_id at) set k = not (is_of agent_id k) && set k

abbrev pub replay_set : List AlertCall → KeySet → KeySet
replay_set [] set = set
replay_set (c ∷ cs) set = replay_set cs (call_set c set)

is_active-call :
    (c : AlertCall) (k : AlertKey) (alerts : List AlertState)
    → is_active k (call c alerts) ≡ call_set c (λ j. is_active j alerts) k
is_active-call (upsert id typ agent_id turn_id at hi ret) k alerts =
    is_active-upsert_alert id typ agent_id turn_id at hi ret k alerts
is_active-call (resolve typ agent_id turn_id at) k alerts =
    is_active-resolve_alert typ agent_id turn_id at k alerts
is_active-call (resolve_all agent_id at) k alerts =
    is_active-resolve_all_agent_alerts agent_id at k alerts

-- Any sequence of the calls on a list of alerts, whatever ids and times they have, leaves active
-- exactly what replaying it on the set of active keys leaves: an upsert adds its type, agent and turn,
-- a resolve takes away those it selects, and each leaves every other key as it was.
pub is_active-call_all :
    (cs : List AlertCall) (alerts : List AlertState) (k : AlertKey)
    → is_active k (call_all cs alerts) ≡ replay_set cs (λ j. is_active j alerts) k
is_active-call_all [] alerts k = refl
is_active-call_all (c ∷ cs) alerts k =
    is_active-call_all cs (call c alerts) k
    ∙ ap (λ (set : KeySet). replay_set cs set k) (λ i j. is_active-call c j alerts i)
