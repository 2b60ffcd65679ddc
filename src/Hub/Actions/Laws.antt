-- ===== src/Hub/Actions/Laws.antt =====
-- internal/hub/actions.go: what enqueueing and acknowledging do to the queues.
use dev_board.Prelude.{
  ◌≤◌, ◌≡◌, refl, ◌≢◌, inl, inr, String, str_eq, eq_iff, Option, none, some, List, [], ◌∷◌, ◌++◌,
  All, ap, length, length-append, leb, Result, ok, err, Result-cases, arith, Option-cases,
  Bool-cases,
}
use dev_board.Prelude.Dict.{Dict, insert, lookup-insert_self, lookup-insert_ne}
use dev_board.Prelude.Time.{Instant}
use dev_board.State.Enums.{NavigationAction}
use dev_board.State.Public.{PublicState}
use dev_board.Navigation.{Action, ActionResult}
use dev_board.Hub.Store.{NodeStateStore}
use dev_board.Hub.Actions.{
  max_queued_actions, EnqueueError, queue_of, take_action, keep_action, pending_navigation,
  ack_navigation_item, may_navigate, enqueue_navigation_for_task, navigation_result,
}
use dev_board.Hub.Actions.Permitted.{Permitted, may_navigate-Permitted}

-- How a queue is split at its first action of an id, or that it has none.
abbrev pub SplitAt : String → List Action → Option (Action × List Action) → Type 0
SplitAt id queue none = All (λ (a : Action). a.id ≢ id) queue
SplitAt id queue (some (a, rest)) =
    (front : List Action) × (back : List Action) × (queue ≡ front ++ a ∷ back)
    × (rest ≡ front ++ back)
    × (a.id ≡ id)
    × All (λ (b : Action). b.id ≢ id) front

keep_action-SplitAt :
    (id : String) (x : Action) (queue : List Action) (found : Option (Action × List Action))
    → x.id ≢ id
    → SplitAt id queue found
    → SplitAt id (x ∷ queue) (keep_action x found)
keep_action-SplitAt id x queue none n h = (n, h)
keep_action-SplitAt id x queue (some (a, rest)) n (front, back, q, r, e, h) =
    (x ∷ front, back, ap (◌∷◌ x) q, ap (◌∷◌ x) r, e, (n, h))

take_action-SplitAt : (id : String) (queue : List Action) → SplitAt id queue (take_action id queue)
unfolding take_action
take_action-SplitAt id [] = tt
take_action-SplitAt id (x ∷ queue) = elim (Bool-cases (str_eq x.id id)) [
  | inl t ↦ rw (t, take_action) ([], queue, refl, refl, (eq_iff x.id id).0 t, tt)
  | inr f ↦
      rw (f, take_action)
        (keep_action-SplitAt id x queue (take_action id queue) (λ e. cc ((eq_iff x.id id).1 e))
          (take_action-SplitAt id queue))
]

pub queue_of-insert_self :
    (k : String) (queue : List Action) (m : Dict (List Action))
    → queue_of (insert k queue m) k ≡ queue
unfolding queue_of
queue_of-insert_self k queue m = rw (lookup-insert_self k queue m, queue_of)

queue_of-insert_ne :
    (k host : String) (queue : List Action) (m : Dict (List Action))
    → k ≢ host
    → queue_of (insert k queue m) host ≡ queue_of m host
unfolding queue_of
queue_of-insert_ne k host queue m n = rw (lookup-insert_ne k host queue m n, queue_of)

abbrev pub Acked :
    NodeStateStore → String → String → ActionResult → NodeStateStore × Option Action → Type 0
Acked s node id result (t, none) = (t ≡ s) × SplitAt id (pending_navigation s node) none
Acked s node id result (t, some item) =
    SplitAt id (pending_navigation s node) (some (item, pending_navigation t node))
    × (navigation_result t id ≡ some result)

-- An acknowledgement of a queued action takes exactly the first action of its id out of the queue of
-- the node, keeps the order of the others, and stores the result; of an action that is not
-- queued for the node it changes nothing.
pub ack_navigation_item-Acked :
    (s : NodeStateStore) (node id : String) (result : ActionResult)
    → Acked s node id result (ack_navigation_item s node id result)
unfolding ack_navigation_item pending_navigation navigation_result
ack_navigation_item-Acked s node id result =
    elim (Option-cases (take_action id (queue_of s.actions.by_node node))) [
      | inl e ↦
          rw (e, ack_navigation_item)
            (refl, rw e at (take_action-SplitAt id (queue_of s.actions.by_node node)))
      | inr ((item, rest), e) ↦
          rw (e, ack_navigation_item, queue_of-insert_self node rest s.actions.by_node)
            (
              rw e at (take_action-SplitAt id (queue_of s.actions.by_node node)),
              lookup-insert_self id result s.actions.results,
            )
    ]

module _ (clone : PublicState → Option PublicState) where
  -- A refusal leaves the store as it was; otherwise the queue of the host grew by the item at its end, to
  -- at most 32 actions, the item is the action that was asked for, and it was permitted.
  abbrev pub Enqueued :
      NodeStateStore
      → String
      → String
      → String
      → NavigationAction
      → String
      → Instant
      → NodeStateStore × Result EnqueueError Action
      → Type 0
  Enqueued s host target task action id now (t, err e) = t ≡ s
  Enqueued s host target task action id now (t, ok item) =
      (pending_navigation t host ≡ pending_navigation s host ++ item ∷ [])
      × (length (pending_navigation t host) ≤ max_queued_actions)
      × ((item.id ≡ id)
          × (item.target_id ≡ target)
          × (item.task_id ≡ task)
          × (item.action ≡ action)
          × (item.issued_at ≡ now))
      × Permitted clone s host target task action

  enqueue-Enqueued :
      (s : NodeStateStore) (host target task : String) (action : NavigationAction) (id : String)
      (now : Instant)
      → Enqueued s host target task action id now
          (enqueue_navigation_for_task clone s host target task action id now)
  unfolding enqueue_navigation_for_task pending_navigation
  enqueue-Enqueued s host target task action id now =
      elim (Result-cases (may_navigate clone s host target task action)) [
        | inr (e, h) ↦ rw (h, enqueue_navigation_for_task) refl
        | inl (x, h) ↦
            let queue = queue_of s.actions.by_node host in
            elim (Bool-cases (leb max_queued_actions (length queue))) [
              | inl t ↦ rw (h, enqueue_navigation_for_task, t) refl
              | inr f ↦
                  rw (h, enqueue_navigation_for_task, f)
                    (
                      queue_of-insert_self host _ s.actions.by_node,
                      rw (queue_of-insert_self host) (grind (arith, length-append queue)),
                      (refl, refl, refl, refl, refl),
                      may_navigate-Permitted clone s host target task action h,
                    )
            ]
      ]

  -- An enqueued action is the one that was asked for, with its target, task, id and instant, and stands
  -- behind all others of its host, which are never more than 32 with it; its host is an enabled node whose
  -- held state enables navigation, lists the target with the action, and links the task, where one is
  -- named, to the target; a refusal changes nothing; and in either case the queue of another host stays
  -- as it was.
  pub enqueue_navigation_for_task-queue :
      (s : NodeStateStore) (host target task : String) (action : NavigationAction) (id : String)
      (now : Instant) (other : String)
      → host ≢ other
      → Enqueued s host target task action id now
          (enqueue_navigation_for_task clone s host target task action id now)
        × (pending_navigation
              (enqueue_navigation_for_task clone s host target task action id now).0
              other
            ≡ pending_navigation s other)
  unfolding enqueue_navigation_for_task pending_navigation
  enqueue_navigation_for_task-queue s host target task action id now other n =
      (enqueue-Enqueued s host target task action id now, grind (arith, queue_of-insert_ne))
