-- ===== src/Hub/Store.antt =====
-- internal/hub/store.go: the node state store and the admission of a validated snapshot. The copy
-- of a public state goes through the JSON library and is the parameter `clone_public_state`, whose
-- `none` is the library's error. What a record points to is updated in place in the source, and by
-- `insert` here. The locks are left out: each operation runs under one lock from start to end.
pub mod Records
pub mod History
pub mod Finality
pub mod Rules
use dev_board.Prelude.{
  ℕ, String, str_eq, Bool, true, false, not, ◌&&◌, ◌||◌, Option, none, some, List, [], ◌∷◌, ltb,
  leb, ◌==◌, if◌then◌else◌, Result, ok, err,
}
use dev_board.Prelude.Dict.{Dict, lookup, insert, contains}
use dev_board.Prelude.Time.{Instant, since, before, is_zero}
use dev_board.State.Enums.{is_terminal}
use dev_board.State.Public.{PublicState, PublicTask, PublicNavigationTarget}
use dev_board.Navigation.{Action, ActionResult}
use dev_board.Hub.Validation.{NodeSnapshot, Rejection, rejection, admission_window, task_ids}
use dev_board.Hub.Registry.{Registry, Node}

pub record NodeIngest : Type 0 where
  pub session_id : String
  pub sequence : ℕ
  pub digest : ℕ
  pub generated_at : Instant

pub record NodeRecord : Type 0 where
  pub state : Option PublicState
  pub last_received_at : Option Instant
  pub ingest : Option NodeIngest
  pub retired : List String

pub record NavigationActionQueue : Type 0 where
  pub by_node : Dict (List Action)
  pub results : Dict ActionResult

pub record NodeStateStore : Type 0 where
  pub registry : Registry
  pub records : Dict NodeRecord
  pub actions : NavigationActionQueue
  pub read_acks : Dict (Dict Instant)

pub record ApplyOutcome : Type 0 where
  pub accepted : Bool
  pub duplicate : Bool

abbrev pub empty_record : NodeRecord
empty_record = record { state = none; last_received_at = none; ingest = none; retired = [] }

unfoldable pub empty_records : List String → Dict NodeRecord
empty_records [] = []
empty_records (id ∷ ids) = insert id empty_record (empty_records ids)

unfoldable pub new_node_state_store : Registry → NodeStateStore
unfolding empty_records
new_node_state_store registry = record {
  registry = registry;
  records = empty_records registry.order;
  actions = record { by_node = []; results = [] };
  read_acks = [];
}

-- The task of the loop of `MarkTaskRead`.
unfoldable pub names_target : Option PublicNavigationTarget → String → Bool
names_target none target_id = false
names_target (some n) target_id = str_eq n.target_id target_id

unfoldable pub has_read_target : String → String → List PublicTask → Bool
has_read_target target_id task_id [] = false
has_read_target target_id task_id (t ∷ ts) =
    str_eq t.id task_id && is_terminal t.lifecycle && names_target t.navigation target_id
    || has_read_target target_id task_id ts

abbrev pub acks_of : Option (Dict Instant) → Dict Instant
acks_of none = []
acks_of (some acks) = acks

-- rec.state of a host that has a record
unfoldable pub held_state : NodeStateStore → String → Option PublicState
held_state s host_id = elim (lookup host_id s.records) [ none ↦ none | some rec ↦ rec.state ]

unfoldable pub mark_task_read :
    NodeStateStore → String → String → String → Instant → NodeStateStore × Bool
mark_task_read s host_id target_id task_id at =
    if str_eq host_id "" || str_eq target_id "" || str_eq task_id "" || is_zero at
    then (s, false)
    else elim (held_state s host_id) [
      | none ↦ (s, false)
      | some pub' ↦
          if has_read_target target_id task_id pub'.tasks
          then (
            record s {
              read_acks =
                  insert host_id (insert task_id at (acks_of (lookup host_id s.read_acks)))
                    s.read_acks;
            },
            true,
          )
          else (s, false)
    ]

-- What the ordering rules say of a snapshot before its age is looked at.
pub data Admission : Type 0 where
  proceed exact_retry : Admission
  refuse : Rejection → Admission

unfoldable pub order_against : NodeIngest → List String → NodeSnapshot → ℕ → Admission
order_against ing retired snap digest =
    if str_eq snap.session_id ing.session_id && snap.sequence == ing.sequence
    then (if digest == ing.digest then exact_retry else refuse (rejection 409 "tuple_mismatch"))
    else if str_eq snap.session_id ing.session_id
    then (if ltb snap.sequence ing.sequence
        then refuse (rejection 409 "lower_sequence")
        else proceed)
    else if contains snap.session_id retired
    then refuse (rejection 409 "retired_session")
    else if before snap.state.generated_at ing.generated_at
    then refuse (rejection 409 "session_regression")
    else proceed

unfoldable pub order_check : NodeRecord → NodeSnapshot → ℕ → Admission
unfolding order_against
order_check rec snap digest = elim rec.ingest [
  | none ↦ proceed
  | some ing ↦ order_against ing rec.retired snap digest
]

abbrev pub in_window : NodeSnapshot → Instant → Bool
in_window snap received_at = leb (since received_at snap.state.generated_at) admission_window

-- The retired sessions after `snap` has taken over.
unfoldable pub retire : Option NodeIngest → List String → String → List String
retire none retired session_id = retired
retire (some ing) retired session_id =
    if str_eq session_id ing.session_id then retired else ing.session_id ∷ retired

unfoldable pub commit : NodeRecord → NodeSnapshot → ℕ → PublicState → Instant → NodeRecord
commit rec snap digest copy received_at = record {
  state = some copy;
  last_received_at = some received_at;
  ingest = some (record {
    session_id = snap.session_id;
    sequence = snap.sequence;
    digest = digest;
    generated_at = snap.state.generated_at;
  });
  retired = retire rec.ingest rec.retired snap.session_id;
}

-- An exact retry refreshes liveness only while its snapshot is inside the admission window.
unfoldable pub retry : NodeRecord → NodeSnapshot → Instant → NodeRecord
retry rec snap received_at =
    if in_window snap received_at then record rec { last_received_at = some received_at } else rec

abbrev pub accepted_outcome : ApplyOutcome
accepted_outcome = record { accepted = true; duplicate = false }

abbrev pub duplicate_outcome : ApplyOutcome
duplicate_outcome = record { accepted = false; duplicate = true }

-- The acknowledgements of tasks that the new state still has.
unfoldable pub keep_present : List String → Dict Instant → Dict Instant
keep_present present [] = []
keep_present present ((id, at) ∷ acks) =
    let rest = keep_present present acks in if contains id present then (id, at) ∷ rest else rest

unfoldable pub prune_read_acks : String → PublicState → Dict (Dict Instant) → Dict (Dict Instant)
unfolding keep_present
prune_read_acks host_id pub' read_acks = elim (lookup host_id read_acks) [
  | none ↦ read_acks
  | some acks ↦ insert host_id (keep_present (task_ids pub'.tasks) acks) read_acks
]

module _ (clone_public_state : PublicState → Option PublicState) where
  -- `Apply` on the record of the node; the state that it stores comes back beside the outcome.
  unfoldable pub apply_record :
      NodeRecord → NodeSnapshot → ℕ → Instant → Result Rejection (NodeRecord × Option PublicState)
  apply_record rec snap digest received_at = elim (order_check rec snap digest) [
    | exact_retry ↦ ok (retry rec snap received_at, none)
    | refuse r ↦ err r
    | proceed ↦
        if not (in_window snap received_at)
        then err (rejection 409 "stale_admission")
        else elim (clone_public_state snap.state) [
          | none ↦ err (rejection 500 "state_copy")
          | some copy ↦ ok (commit rec snap digest copy received_at, some copy)
        ]
  ]

  unfoldable pub apply :
      NodeStateStore
      → Node
      → NodeSnapshot
      → ℕ
      → Instant
      → NodeStateStore × Result Rejection ApplyOutcome
  apply s node snap digest received_at = elim (lookup node.id s.records) [
    | none ↦ (s, err (rejection 500 "store_node_missing"))
    | some rec ↦ elim (apply_record rec snap digest received_at) [
      | err r ↦ (s, err r)
      | ok (rec', none) ↦
          (record s { records = insert node.id rec' s.records }, ok duplicate_outcome)
      | ok (rec', some copy) ↦ (
        record s {
          records = insert node.id rec' s.records;
          read_acks = prune_read_acks node.id copy s.read_acks;
        },
        ok accepted_outcome,
      )
    ]
  ]
