-- ===== src/TransmitQueue.antt =====
-- ksmppc/src/transmit_queue.hpp: the priorities, and clearSessionQueues. The queue that TransmitQ
-- inherits from belongs to the kisscpp library: it is an interface here, whose operations are
-- described by what they do to three lists.
pub mod Lists
use kiss_smpp.Common.{◌≡◌, Bool, true, false, ◌&&◌, Option, none, some, List, [], ◌∷◌, ◌++◌, is_nil}
use kiss_smpp.Smpp.{Pdu, SharedSmppPdu}
use Prim.Native.String.{String}

pub data Priority : Type 0 where
  session response message : Priority

-- What a queue holds, level by level, the oldest first; what was persisted may hold null pointers.
pub record Items : Type 0 where
  pub sessions : List SharedSmppPdu
  pub responses : List SharedSmppPdu
  pub messages : List SharedSmppPdu

abbrev pub no_items : Items → Bool
no_items i = is_nil i.sessions && is_nil i.responses && is_nil i.messages

abbrev pub push_items : Items → Pdu → Priority → Items
push_items i pdu session = record i { sessions = i.sessions ++ some pdu ∷ [] }
push_items i pdu response = record i { responses = i.responses ++ some pdu ∷ [] }
push_items i pdu message = record i { messages = i.messages ++ some pdu ∷ [] }

pub pop_messages : Items → List SharedSmppPdu → SharedSmppPdu × Items
pop_messages i [] = (none, i)
pop_messages i (x ∷ xs) = (x, record i { messages = xs })

pub pop_responses : Items → List SharedSmppPdu → SharedSmppPdu × Items
unfolding pop_messages
pop_responses i [] = pop_messages i i.messages
pop_responses i (x ∷ xs) = (x, record i { responses = xs })

pub pop_sessions : Items → List SharedSmppPdu → SharedSmppPdu × Items
unfolding pop_responses
pop_sessions i [] = pop_responses i i.responses
pop_sessions i (x ∷ xs) = (x, record i { sessions = xs })

-- The oldest entry of the first level that has one.
unfoldable pub pop_items : Items → SharedSmppPdu × Items
unfolding pop_sessions
pop_items i = pop_sessions i i.sessions

abbrev pub clear_items : Items → Priority → Items
clear_items i session = record i { sessions = [] }
clear_items i response = record i { responses = [] }
clear_items i message = record i { messages = [] }

-- kisscpp::ThreadsafePersistedPriorityQueue over PDUs. `push_back_last_pop` also takes and returns
-- the object that the queue remembers as its last pop.
pub record Queue (Q : Type 0) : Type 0 where
  pub items : Q → Items
  pub is_empty : Q → Bool
  pub push : Q → Pdu → Priority → Q
  pub pop : Q → SharedSmppPdu × Q
  pub clear : Q → Priority → Q
  pub push_back_last_pop : Q → SharedSmppPdu → Q × SharedSmppPdu
  pub is_empty_items : (q : Q) → is_empty q ≡ no_items (items q)
  pub items_push : (q : Q) (x : Pdu) (p : Priority) → items (push q x p) ≡ push_items (items q) x p
  pub pop_object : (q : Q) → (pop q).0 ≡ (pop_items (items q)).0
  pub items_pop : (q : Q) → items (pop q).1 ≡ (pop_items (items q)).1
  pub items_clear : (q : Q) (p : Priority) → items (clear q p) ≡ clear_items (items q) p
  pub is_empty_push_back : (q : Q) (x : Pdu) → is_empty (push_back_last_pop q (some x)).0 ≡ false

-- TransmitQ::clearSessionQueues
unfoldable pub clear_session_queues : {Q : Type 0} → Queue Q → Q → Q
clear_session_queues queue q = queue.clear (queue.clear q session) response

-- The constructor of TransmitQ, with the queue as the persisted one was opened.
abbrev pub transmit_q : {Q : Type 0} → Queue Q → (String → Q) → String → Q
transmit_q queue open_queue queue_name = clear_session_queues queue (open_queue queue_name)
