-- ===== src/Tests/HubRuns.antt =====
-- Runs of the hub.
use dev_board.Prelude.{
  ℕ, zero, suc, ◌<◌, Option, List, take, if◌then◌else◌, String, Bool, not, ◌++◌, ◌+◌, ◌*◌, ◌≡◌, ◌≢◌,
  ◌↔◌, refl, ap, str_eq, len, true, none, some, [], ◌∷◌, map, All, ok, err, arith,
}
use mathlib.Core.List.{Memᴰ}
use dev_board.Prelude.Text.{codes, codes_eq, take_text, drop_text, all_codes, trim_space, to_lower}
use dev_board.Hub.Validation.{valid_node_id}
use dev_board.Prelude.Dict.{lookup, insert, contains}
use dev_board.Prelude.Time.{second}
use dev_board.State.Enums.{NavigationAction}
use dev_board.Hub.Validation.{Rejection, retention_window, online_window}
use dev_board.Hub.Registry.{
  Registry, NodeConfig, new_registry, register, register_all, validate_registry_entry,
  validate_display_name, validate_accent, has_digest, scan, authenticate, registry_lookup, node_of,
}
use dev_board.Hub.Registry.Laws.{new_registry-entries, authenticate_sound}
use dev_board.Hub.Store.{
  NodeRecord, NodeStateStore, accepted_outcome, new_node_state_store, empty_records, order_against,
  order_check, retire, commit, apply_record, apply, prune_read_acks,
}
use dev_board.Hub.Store.History.{Delivery, deliver, deliver_all}
use dev_board.Hub.Store.Finality.{history, followed, taken_over, accepted_once, takeover_final}
use dev_board.Hub.Store.Rules.{Follows, IsRecent, accepted_iff, apply_isolated}
use dev_board.Hub.Dashboard.{snapshot_fresh, host_snapshot}
use dev_board.Hub.Dashboard.Laws.{ReceivedWithin, shown_iff}
use dev_board.Navigation.{Action, ActionResult}
use dev_board.Hub.Actions.{
  queue_of, pending_navigation, ack_navigation_item, enqueue_navigation_for_task,
}
use dev_board.Hub.Actions.Laws.{
  Acked, ack_navigation_item-Acked, Enqueued, enqueue_navigation_for_task-queue,
}
use dev_board.Uplink.Actions.Link.{
  Link, IsKnown, IsListed, AllReadable, fits, unsettled, handled, poll,
}
use dev_board.Uplink.Actions.Delivery.{poll_actions-queue}
use dev_board.Hub.Receiver.{Request, AckBody, ack, authenticate_request}
use dev_board.Tests.Data.{t0, state_at, config_a, node_a, registry_a, delivery_of}

abbrev start_store : NodeStateStore
start_store = new_node_state_store registry_a

abbrev first : Delivery
first = delivery_of "s1" 1 7 t0

abbrev second_session : Delivery
second_session = delivery_of "s2" 1 8 (t0 + second)

abbrev third : Delivery
third = delivery_of "s1" 1 9 (t0 + 2 * second)

abbrev late : Delivery
late = delivery_of "s1" 99 10 (t0 + 3 * second)

abbrev filled : NodeRecord
filled = record {
  state = some (state_at "node-a" t0);
  last_received_at = some t0;
  ingest = some (record { session_id = "s1"; sequence = 1; digest = 7; generated_at = t0 });
  retired = [];
}

abbrev filled_store : NodeStateStore
filled_store = record {
  registry = registry_a;
  records = ("node-a", filled) ∷ [];
  actions = record { by_node = []; results = [] };
  read_acks = [];
}

first_accepted : (deliver some (history some registry_a []) first).1 ≡ ok accepted_outcome
unfolding deliver deliver_all new_node_state_store empty_records lookup insert apply apply_record
    order_check commit prune_read_acks
first_accepted = refl

second_accepted :
    (deliver some (followed some registry_a [] first []) second_session).1 ≡ ok accepted_outcome
unfolding deliver deliver_all new_node_state_store empty_records lookup insert apply apply_record
    order_check order_against contains commit prune_read_acks retire
second_accepted = refl

accepted_once_example :
    (deliver some
      (deliver_all some (deliver some (history some registry_a []) first).0 (second_session ∷ []))
      third).1
    ≢ ok accepted_outcome
accepted_once_example =
    accepted_once some registry_a [] (second_session ∷ []) first third first_accepted refl refl refl

takeover_final_example :
    (r : Rejection) × (deliver some
        (taken_over some registry_a [] first [] second_session (third ∷ []))
        late
      ≡ (taken_over some registry_a [] first [] second_session (third ∷ []), err r))
takeover_final_example =
    takeover_final some registry_a [] [] (third ∷ []) first second_session late first_accepted refl
      (λ e. ground (arith, ap (λ k. str_eq k "s1") e)) second_accepted refl refl

accepted_iff_example :
    ((deliver some filled_store second_session).1 ≡ ok accepted_outcome)
    ↔ (Follows filled.ingest [] second_session.snap × IsRecent second_session.snap (t0 + second))
unfolding lookup
accepted_iff_example =
    accepted_iff some filled_store second_session filled second_session.snap.state refl refl

apply_isolated_example :
    (lookup "node-b" (deliver some filled_store second_session).0.records
      ≡ lookup "node-b" filled_store.records)
    × (lookup "node-b" (deliver some filled_store second_session).0.read_acks
        ≡ lookup "node-b" filled_store.read_acks)
apply_isolated_example =
    apply_isolated some filled_store second_session "node-b"
      (λ e. cc (ap (λ k. str_eq k "node-a") e))

abbrev one_node : Registry
one_node = record { order = "node-a" ∷ []; nodes = ("node-a", node_of len config_a) ∷ [] }

abbrev no_registry : Registry
no_registry = record { order = []; nodes = [] }

one_registered : new_registry len (config_a ∷ []) ≡ ok one_node
unfolding new_registry register_all register validate_registry_entry valid_node_id
    validate_display_name validate_accent codes all_codes trim_space to_lower has_digest lookup
    insert
one_registered = refl

shown_token : authenticate len one_node config_a.token ≡ some (node_of len config_a)
unfolding authenticate scan
shown_token = refl

new_registry-entries_example :
    (one_node.order ≡ map (λ entry. entry.node_id) (config_a ∷ []))
    × All
        (λ entry.
          (authenticate len one_node entry.token ≡ some (node_of len entry))
          × (registry_lookup one_node entry.node_id ≡ some (node_of len entry)))
        (config_a ∷ [])
new_registry-entries_example = new_registry-entries len (config_a ∷ []) one_node one_registered

authenticate_sound_example :
    (entry : NodeConfig) × Memᴰ entry (config_a ∷ [])
    × (node_of len config_a ≡ node_of len entry)
    × (len entry.token ≡ len config_a.token)
authenticate_sound_example =
    authenticate_sound len (config_a ∷ []) one_node config_a.token (node_of len config_a)
      one_registered shown_token

enqueue_navigation_for_task-queue_example :
    Enqueued some filled_store "node-a" "app" "" NavigationAction.focus_app "a1" t0 (
      enqueue_navigation_for_task some filled_store "node-a" "app" "" NavigationAction.focus_app
        "a1" t0)
    × (pending_navigation
          (enqueue_navigation_for_task some filled_store "node-a" "app" ""
            NavigationAction.focus_app "a1" t0).0
          "node-b"
        ≡ pending_navigation filled_store "node-b")
enqueue_navigation_for_task-queue_example =
    enqueue_navigation_for_task-queue some filled_store "node-a" "app" "" NavigationAction.focus_app
      "a1" t0 "node-b" (λ e. cc (ap (λ k. str_eq k "node-a") e))

abbrev done_result : ActionResult
done_result = record { succeeded = true; message = "" }

abbrev queued : String → Action
queued id = record {
  id = id;
  target_id = "app";
  task_id = "";
  action = NavigationAction.focus_app;
  issued_at = t0;
}

abbrev queued_store : NodeStateStore
queued_store = record {
  registry = registry_a;
  records = ("node-a", filled) ∷ [];
  actions = record { by_node = ("node-a", queued "a1" ∷ queued "a2" ∷ []) ∷ []; results = [] };
  read_acks = [];
}

ack_navigation_item-Acked_example :
    Acked queued_store "node-a" "a1" done_result
      (ack_navigation_item queued_store "node-a" "a1" done_result)
ack_navigation_item-Acked_example = ack_navigation_item-Acked queued_store "node-a" "a1" done_result

shown_iff_example :
    (((host_snapshot some filled_store (t0 + second) "node-a" node_a filled).state ≢ none)
      ↔ ReceivedWithin retention_window filled (t0 + second))
    × (((host_snapshot some filled_store (t0 + second) "node-a" node_a filled).snapshot_freshness
          ≡ some snapshot_fresh)
        ↔ ReceivedWithin online_window filled (t0 + second))
shown_iff_example =
    shown_iff some filled_store (t0 + second) "node-a" node_a filled (λ p. p) (λ p. refl)

-- Only the acknowledgement of the second action is lost.
abbrev loses_a2 : String → Bool
loses_a2 id = not (str_eq id "a2")

abbrev succeeds : Action → ActionResult
succeeds a = done_result

abbrev both : List Action
both = queued "a1" ∷ queued "a2" ∷ []

abbrev any_text : List Action → List ℕ
any_text actions = 123 ∷ []

abbrev reads : List ℕ → Option (List Action)
reads [] = none
reads (c ∷ cs) = some both

abbrev read_back : Request → Option AckBody
read_back r = elim r.body [ none ↦ none | some id ↦ some (ack id true "") ]

abbrev link : Link
link = record {
  lib = record {
    sha256 = len;
    decode_node_snapshot = λ body. none;
    decode_ack = read_back;
    clone_public_state = some;
  };
  token = "abcdefghijklmnopqrstuvwxyz0123456789abcdefg";
  encode_actions = any_text;
  decode_actions = reads;
  encode_ack = λ id result. id;
  run = succeeds;
  reaches = loses_a2;
  now = t0;
}

link-IsKnown : IsKnown link queued_store node_a
unfolding authenticate_request authenticate scan codes codes_eq to_lower take_text drop_text lookup
link-IsKnown = (refl, refl)

cut_text : (n : ℕ) → n < 1 → reads (take n (123 ∷ [])) ≡ none
cut_text zero h = refl
cut_text (suc n) h = ground (arith, h)

link-IsListed : IsListed link (pending_navigation queued_store "node-a")
unfolding pending_navigation queue_of lookup
link-IsListed = (refl, refl, λ n h. cut_text n h)

link-AllReadable : AllReadable link (pending_navigation queued_store "node-a")
unfolding pending_navigation queue_of lookup
link-AllReadable = ((omega arith, refl), ((omega arith, refl), tt))

poll_actions-queue_example :
    (pending_navigation (poll link (queued_store, [])).0 node_a.id ≡ (
      if fits link (pending_navigation queued_store node_a.id)
      then unsettled link (pending_navigation queued_store node_a.id)
      else pending_navigation queued_store node_a.id))
    × ((poll link (queued_store, [])).1
        ≡ []
          ++ (if fits link (pending_navigation queued_store node_a.id)
              then handled (pending_navigation queued_store node_a.id)
              else []))
poll_actions-queue_example =
    poll_actions-queue link node_a queued_store [] link-IsKnown link-IsListed link-AllReadable
