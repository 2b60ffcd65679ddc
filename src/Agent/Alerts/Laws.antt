-- ===== src/Agent/Alerts/Laws.antt =====
-- internal/agent/reducer.go: the alerts as a set of what is active, and their keys.
use dev_board.Prelude.{
  ◌≡◌, ◌↔◌, inl, inr, refl, String, eq_iff, Bool, true, false, not, ◌&&◌, ◌||◌, Option, List, [],
  ◌∷◌, All, ap, subst, Bool-cases, filter, arith,
}
use dev_board.Prelude.Time.{Instant}
use dev_board.State.Enums.{AlertType}
use dev_board.State.Root.{AlertState}
use dev_board.Agent.Alerts.{
  type_eq, same_turn, AlertKey, key_of, same_key, selects, is_of, upsert_alert, resolve_alert,
  resolve_all_agent_alerts,
}

pub type_eq_iff : (s t : AlertType) → (type_eq s t ≡ true) ↔ (s ≡ t)
type_eq_iff s t = grind (arith, eq_iff)

pub same_turn_iff : (s t : Option String) → (same_turn s t ≡ true) ↔ (s ≡ t)
unfolding same_turn
same_turn_iff s t = grind (arith, eq_iff)

pub same_key_iff : (k j : AlertKey) → (same_key k j ≡ true) ↔ (k ≡ j)
unfolding same_key
same_key_iff (s, g, u) (t, h, v) = grind (arith, type_eq_iff s t, eq_iff g h, same_turn_iff u v)

-- A test on the keys does not tell two equal keys apart.
pub same_key-respects : (p : AlertKey → Bool) (k j : AlertKey) → same_key k j ≡ true → p k ≡ p j
same_key-respects p k j h = ap p ((same_key_iff k j).0 h)

pub same_key_refl : (k : AlertKey) → same_key k k ≡ true
same_key_refl k = (same_key_iff k k).1 refl

pub same_key_sym : (k j : AlertKey) → same_key k j ≡ false → same_key j k ≡ false
same_key_sym k j h =
    ground (arith, same_key-respects (same_key j) j k, same_key_iff k j, same_key_iff j k)

-- Some alert of the key is active.
unfoldable pub is_active : AlertKey → List AlertState → Bool
is_active k [] = false
is_active k (a ∷ alerts) = (a.active && same_key (key_of a) k) || is_active k alerts

pub is_active-upsert_alert :
    (id : String) (typ : AlertType) (agent_id : String) (turn_id : Option String) (at : Instant)
    (hi ret : Option Instant) (k : AlertKey) (alerts : List AlertState)
    → is_active k (upsert_alert id typ agent_id turn_id at hi ret alerts)
      ≡ (same_key (typ, agent_id, turn_id) k || is_active k alerts)
unfolding is_active upsert_alert
is_active-upsert_alert id typ agent_id turn_id at hi ret k [] = ground arith
is_active-upsert_alert id typ agent_id turn_id at hi ret k (a ∷ alerts) = ground (
  arith,
  is_active-upsert_alert id typ agent_id turn_id at hi ret k alerts,
  same_key-respects (λ j. same_key j k) (key_of a) (typ, agent_id, turn_id),
)

pub is_active-resolve_alert :
    (typ : AlertType) (agent_id : String) (turn_id : Option String) (at : Instant) (k : AlertKey)
    (alerts : List AlertState)
    → is_active k (resolve_alert typ agent_id turn_id at alerts)
      ≡ (not (selects typ agent_id turn_id k) && is_active k alerts)
unfolding is_active resolve_alert
is_active-resolve_alert typ agent_id turn_id at k [] = ground arith
is_active-resolve_alert typ agent_id turn_id at k (a ∷ alerts) = ground (
  arith,
  is_active-resolve_alert typ agent_id turn_id at k alerts,
  same_key-respects (selects typ agent_id turn_id) (key_of a) k,
)

pub is_active-resolve_all_agent_alerts :
    (agent_id : String) (at : Instant) (k : AlertKey) (alerts : List AlertState)
    → is_active k (resolve_all_agent_alerts agent_id at alerts)
      ≡ (not (is_of agent_id k) && is_active k alerts)
unfolding is_active resolve_all_agent_alerts
is_active-resolve_all_agent_alerts agent_id at k [] = ground arith
is_active-resolve_all_agent_alerts agent_id at k (a ∷ alerts) = ground (
  arith,
  is_active-resolve_all_agent_alerts agent_id at k alerts,
  same_key-respects (is_of agent_id) (key_of a) k,
)

-- No two alerts have the same key.
abbrev pub Apart : AlertKey → AlertState → Type 0
Apart k a = same_key (key_of a) k ≡ false

unfoldable pub IsUnique : List AlertState → Type 0
IsUnique [] = Unit
IsUnique (a ∷ alerts) = All (Apart (key_of a)) alerts × IsUnique alerts

upsert_alert-Apart :
    (id : String) (typ : AlertType) (agent_id : String) (turn_id : Option String) (at : Instant)
    (hi ret : Option Instant) (k : AlertKey) (alerts : List AlertState)
    → same_key (typ, agent_id, turn_id) k ≡ false
    → All (Apart k) alerts
    → All (Apart k) (upsert_alert id typ agent_id turn_id at hi ret alerts)
unfolding upsert_alert
upsert_alert-Apart id typ agent_id turn_id at hi ret k [] n h = (n, tt)
upsert_alert-Apart id typ agent_id turn_id at hi ret k (a ∷ alerts) n h =
    let deeper = upsert_alert-Apart id typ agent_id turn_id at hi ret k alerts n h.1 in ground arith

pub upsert_alert-IsUnique :
    (id : String) (typ : AlertType) (agent_id : String) (turn_id : Option String) (at : Instant)
    (hi ret : Option Instant) (alerts : List AlertState)
    → IsUnique alerts
    → IsUnique (upsert_alert id typ agent_id turn_id at hi ret alerts)
unfolding upsert_alert IsUnique
upsert_alert-IsUnique id typ agent_id turn_id at hi ret [] h = (tt, tt)
upsert_alert-IsUnique id typ agent_id turn_id at hi ret (a ∷ alerts) h =
    elim (Bool-cases (same_key (key_of a) (typ, agent_id, turn_id))) [
      | inl q ↦ rw q h
      | inr q ↦ rw q (
        upsert_alert-Apart id typ agent_id turn_id at hi ret (key_of a) alerts
            (same_key_sym (key_of a) (typ, agent_id, turn_id) q) h.0,
        upsert_alert-IsUnique id typ agent_id turn_id at hi ret alerts h.1,
      )
    ]

-- A change that leaves the key of every alert as it is.
pub data SameKeys : List AlertState → List AlertState → Type 0 where
  nil : SameKeys [] []
  cons :
      {a b : AlertState} {xs ys : List AlertState}
      → key_of a ≡ key_of b
      → SameKeys xs ys
      → SameKeys (a ∷ xs) (b ∷ ys)

SameKeys-Apart :
    {xs ys : List AlertState} (k : AlertKey) → SameKeys xs ys → All (Apart k) xs → All (Apart k) ys
SameKeys-Apart k SameKeys.nil h = h
SameKeys-Apart k (SameKeys.cons e s) h =
    (subst (λ j. same_key j k ≡ false) e h.0, SameKeys-Apart k s h.1)

pub SameKeys-IsUnique : {xs ys : List AlertState} → SameKeys xs ys → IsUnique xs → IsUnique ys
unfolding IsUnique
SameKeys-IsUnique SameKeys.nil h = h
SameKeys-IsUnique (SameKeys.cons {b = b} {ys = ys} e s) h =
    (subst (λ k. All (Apart k) ys) e (SameKeys-Apart _ s h.0), SameKeys-IsUnique s h.1)

resolve_alert-SameKeys :
    (typ : AlertType) (agent_id : String) (turn_id : Option String) (at : Instant)
    (alerts : List AlertState)
    → SameKeys alerts (resolve_alert typ agent_id turn_id at alerts)
unfolding resolve_alert
resolve_alert-SameKeys typ agent_id turn_id at [] = SameKeys.nil
resolve_alert-SameKeys typ agent_id turn_id at (a ∷ alerts) =
    elim (Bool-cases (a.active && selects typ agent_id turn_id (key_of a))) [
      | inl q ↦ rw q (SameKeys.cons refl (resolve_alert-SameKeys typ agent_id turn_id at alerts))
      | inr q ↦ rw q (SameKeys.cons refl (resolve_alert-SameKeys typ agent_id turn_id at alerts))
    ]

pub resolve_alert-IsUnique :
    (typ : AlertType) (agent_id : String) (turn_id : Option String) (at : Instant)
    (alerts : List AlertState)
    → IsUnique alerts
    → IsUnique (resolve_alert typ agent_id turn_id at alerts)
resolve_alert-IsUnique typ agent_id turn_id at alerts h =
    SameKeys-IsUnique (resolve_alert-SameKeys typ agent_id turn_id at alerts) h

resolve_all-SameKeys :
    (agent_id : String) (at : Instant) (alerts : List AlertState)
    → SameKeys alerts (resolve_all_agent_alerts agent_id at alerts)
unfolding resolve_all_agent_alerts
resolve_all-SameKeys agent_id at [] = SameKeys.nil
resolve_all-SameKeys agent_id at (a ∷ alerts) =
    elim (Bool-cases (is_of agent_id (key_of a) && a.active)) [
      | inl q ↦ rw q (SameKeys.cons refl (resolve_all-SameKeys agent_id at alerts))
      | inr q ↦ rw q (SameKeys.cons refl (resolve_all-SameKeys agent_id at alerts))
    ]

pub resolve_all_agent_alerts-IsUnique :
    (agent_id : String) (at : Instant) (alerts : List AlertState)
    → IsUnique alerts
    → IsUnique (resolve_all_agent_alerts agent_id at alerts)
resolve_all_agent_alerts-IsUnique agent_id at alerts h =
    SameKeys-IsUnique (resolve_all-SameKeys agent_id at alerts) h

-- The alerts that a test keeps.
filter-Apart :
    (p : AlertState → Bool) (k : AlertKey) (alerts : List AlertState)
    → All (Apart k) alerts
    → All (Apart k) (filter p alerts)
filter-Apart p k [] h = tt
filter-Apart p k (a ∷ alerts) h = let deeper = filter-Apart p k alerts h.1 in ground arith

pub filter-IsUnique :
    (p : AlertState → Bool) (alerts : List AlertState)
    → IsUnique alerts
    → IsUnique (filter p alerts)
unfolding IsUnique
filter-IsUnique p [] h = tt
filter-IsUnique p (a ∷ alerts) h =
    let apart = filter-Apart p (key_of a) alerts h.0 in
    let deeper = filter-IsUnique p alerts h.1 in
    elim (Bool-cases (p a)) [ inl q ↦ rw q (apart, deeper) | inr q ↦ rw q deeper ]
