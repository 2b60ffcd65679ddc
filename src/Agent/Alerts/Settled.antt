-- ===== src/Agent/Alerts/Settled.antt =====
-- internal/agent/reducer.go: the alerts of a turn that completed.
use dev_board.Prelude.{◌≡◌, refl, String, eq_iff, true, false, Option, none, some, List, arith}
use dev_board.Prelude.Time.{Instant}
use dev_board.State.Enums.{AlertType}
use dev_board.State.Root.{AlertState}
use dev_board.Agent.Alerts.{type_eq, same_key, selects, upsert_alert, resolve_alert}
use dev_board.Agent.Alerts.Laws.{
  same_turn_iff, same_key_refl, is_active, is_active-upsert_alert, is_active-resolve_alert,
}

-- The alert of an agent and a turn, of one type, is selected; one of another type is not.
selects_self :
    (typ : AlertType) (id : String) (turn : Option String)
    → type_eq typ typ ≡ true
    → selects typ id turn (typ, id, turn) ≡ true
unfolding selects
selects_self typ id none h = ground (arith, eq_iff id id)
selects_self typ id (some turn) h =
    ground (arith, eq_iff id id, same_turn_iff (some turn) (some turn))

selects_other :
    (typ t : AlertType) (id : String) (turn : Option String)
    → type_eq t typ ≡ false
    → selects typ id turn (t, id, turn) ≡ false
unfolding selects
selects_other typ t id none h = ground arith
selects_other typ t id (some turn) h = ground arith

same_key_other :
    (typ t : AlertType) (id : String) (turn : Option String)
    → type_eq typ t ≡ false
    → same_key (typ, id, turn) (t, id, turn) ≡ false
unfolding same_key
same_key_other typ t id turn h = ground arith

-- The alerts of a turn that completed: Complete, and none of the three that ask for the user.
abbrev pub OnlyComplete : String → Option String → List AlertState → Type 0
OnlyComplete id turn alerts =
    (is_active (AlertType.complete, id, turn) alerts ≡ true)
    × (is_active (AlertType.attention, id, turn) alerts ≡ false)
    × (is_active (AlertType.stale, id, turn) alerts ≡ false)
    × (is_active (AlertType.error, id, turn) alerts ≡ false)

pub only_complete :
    (alert_id id : String) (turn : Option String) (at : Instant) (hi ret : Option Instant)
    (alerts : List AlertState)
    → OnlyComplete id turn (
        upsert_alert alert_id AlertType.complete id turn at hi ret (
          resolve_alert AlertType.error id turn at (
            resolve_alert AlertType.stale id turn at
              (resolve_alert AlertType.attention id turn at alerts))))
only_complete alert_id id turn at hi ret alerts = (
  simp (is_active-upsert_alert, same_key_refl),
  simp (
    is_active-upsert_alert,
    is_active-resolve_alert,
    same_key_other AlertType.complete AlertType.attention id turn refl,
    selects_other AlertType.error AlertType.attention id turn refl,
    selects_other AlertType.stale AlertType.attention id turn refl,
    selects_self AlertType.attention id turn refl,
  ),
  simp (
    is_active-upsert_alert,
    is_active-resolve_alert,
    same_key_other AlertType.complete AlertType.stale id turn refl,
    selects_other AlertType.error AlertType.stale id turn refl,
    selects_self AlertType.stale id turn refl,
  ),
  simp (
    is_active-upsert_alert,
    is_active-resolve_alert,
    same_key_other AlertType.complete AlertType.error id turn refl,
    selects_self AlertType.error id turn refl,
  ),
)
