-- ===== src/TransmitQueue/Lists.antt =====
-- What the queue's laws give for the calls that a session makes.
use kiss_smpp.Common.{◌≡◌, sym, ◌∙◌, true, false, some, [], is_nil, is_nil-snoc, arith}
use kiss_smpp.Smpp.{Pdu}
use kiss_smpp.TransmitQueue.{
  Priority, session, response, message, Items, no_items, push_items, pop_items, Queue,
  clear_session_queues,
}

push_items-pop :
    (i : Items) (x : Pdu) (p : Priority)
    → no_items i ≡ true
    → ((pop_items (push_items i x p)).0 ≡ some x)
      × (no_items (pop_items (push_items i x p)).1 ≡ true)
unfolding pop_items
push_items-pop i x session h = ground arith
push_items-pop i x response h = ground arith
push_items-pop i x message h = ground arith

push_items-messages :
    (i : Items) (x : Pdu) (p : Priority)
    → is_nil i.messages ≡ false
    → is_nil (push_items i x p).messages ≡ false
push_items-messages i x session h = h
push_items-messages i x response h = h
push_items-messages i x message h = is_nil-snoc i.messages (some x)

module _ {Q : Type 0} (queue : Queue Q) where
  open queue use {items, is_empty, push, pop, clear}

  -- An object that is pushed onto an empty queue is the next one out, and leaves it empty.
  pub pop-push :
      (q : Q) (x : Pdu) (p : Priority)
      → is_empty q ≡ true
      → ((pop (push q x p)).0 ≡ some x) × (is_empty (pop (push q x p)).1 ≡ true)
  pop-push q x p h =
      rw (queue.pop_object, queue.is_empty_items, queue.items_pop, queue.items_push)
        (push_items-pop (items q) x p (sym (queue.is_empty_items q) ∙ h))

  -- The queue has messages waiting.
  abbrev pub HasMessages : Q → Type 0
  HasMessages q = is_nil (items q).messages ≡ false

  pub HasMessages-is_empty : (q : Q) → HasMessages q → is_empty q ≡ false
  HasMessages-is_empty q h = ground (arith, queue.is_empty_items q)

  pub push-HasMessages : (q : Q) (x : Pdu) (p : Priority) → HasMessages q → HasMessages (push q x p)
  push-HasMessages q x p h = rw (queue.items_push q x p) (push_items-messages (items q) x p h)

  -- clearSessionQueues empties the first two levels and leaves the messages.
  pub items-clear_session_queues :
      (q : Q)
      → items (clear_session_queues queue q)
        ≡ record { sessions = []; responses = []; messages = (items q).messages }
  unfolding clear_session_queues
  items-clear_session_queues q = rw (queue.items_clear, queue.items_clear)

  pub clear-HasMessages : (q : Q) → HasMessages q → HasMessages (clear_session_queues queue q)
  clear-HasMessages q h = rw (items-clear_session_queues q) h
