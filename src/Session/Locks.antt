-- ===== src/Session/Locks.antt =====
-- The mutexes of ksmppc/src/session_manager.cpp and .hpp: which of them each function locks and
-- unlocks, and the threads that take turns. One thread runs the io_service; any number of others,
-- such as that of sendingProcessor, call send_pdu or stop. A std::lock_guard unlocks at the end of
-- its block. What a function does after its own part is its last argument, `rest`.
pub mod Order
pub mod Acts
pub mod Progress
use kiss_smpp.Common.{
  ◌≡◌, Bool, true, false, not, ◌&&◌, Option, none, some, List, [], ◌∷◌, if◌then◌else◌,
}

-- writeMutex, w4rQMutex, and mMtx of the number generator
pub data Mutex : Type 0 where
  write_mutex w4r_q_mutex number_mutex : Mutex

pub data Act : Type 0 where
  locks unlocks : Mutex → Act

-- SequinceNumberGenerator::next
abbrev pub next_acts : List Act → List Act
next_acts rest = locks number_mutex ∷ unlocks number_mutex ∷ rest

-- write_pdu, for a PDU that is numbered or not
abbrev pub write_pdu_acts : Bool → List Act → List Act
write_pdu_acts true rest = next_acts rest
write_pdu_acts false rest = rest

-- do_write, which calls write_pdu if nothing is being written.
abbrev pub do_write_acts : Bool → Bool → List Act → List Act
do_write_acts true numbers rest = locks write_mutex ∷ unlocks write_mutex ∷ rest
do_write_acts false numbers rest =
    locks write_mutex ∷ write_pdu_acts numbers (unlocks write_mutex ∷ rest)

-- w4rQ_put of a request or a response, and w4rQ_pop of a response or another PDU
abbrev pub w4r_q_acts : Bool → List Act → List Act
w4r_q_acts true rest = locks w4r_q_mutex ∷ unlocks w4r_q_mutex ∷ rest
w4r_q_acts false rest = rest

-- handle_write after a success: of a request or not; whether it writes the next PDU, and numbers it
abbrev pub handle_write_acts : Bool → Bool → Bool → List Act → List Act
handle_write_acts request true numbers rest =
    locks write_mutex ∷ w4r_q_acts request (write_pdu_acts numbers (unlocks write_mutex ∷ rest))
handle_write_acts request false numbers rest =
    locks write_mutex ∷ w4r_q_acts request (unlocks write_mutex ∷ rest)

-- What the rounds of w4rQ_age_cleanup find: a PDU that has not expired, or one that is resent.
pub data Round : Type 0 where
  still_waits : Round
  resends : (busy numbers : Bool) → Round

abbrev pub rounds_acts : List Round → List Act → List Act
rounds_acts [] rest = rest
rounds_acts (still_waits ∷ rounds) rest = rounds_acts rounds rest
rounds_acts (resends busy numbers ∷ rounds) rest =
    do_write_acts busy numbers (rounds_acts rounds rest)

abbrev pub age_cleanup_acts : List Round → List Act → List Act
age_cleanup_acts rounds rest = locks w4r_q_mutex ∷ rounds_acts rounds (unlocks w4r_q_mutex ∷ rest)

-- The handlers of the io_service, by what they lock. Those with a number of their own are
-- do_bind_request, of handle_connect, and do_enquire_link.
pub data Handler : Type 0 where
  no_lock : Handler
  asks : (busy numbers : Bool) → Handler
  closes : (busy numbers : Bool) → Handler
  writes : (request goes_on numbers : Bool) → Handler
  reads : (is_response : Bool) → Handler
  reads_and_answers : (is_response busy numbers : Bool) → Handler
  ages : List Round → Handler

abbrev pub handler_acts : Handler → List Act → List Act
handler_acts no_lock rest = rest
handler_acts (asks busy numbers) rest = next_acts (do_write_acts busy numbers rest)
handler_acts (closes busy numbers) rest = do_write_acts busy numbers rest
handler_acts (writes request goes_on numbers) rest = handle_write_acts request goes_on numbers rest
handler_acts (reads is_response) rest = w4r_q_acts is_response rest
handler_acts (reads_and_answers is_response busy numbers) rest =
    w4r_q_acts is_response (do_write_acts busy numbers rest)
handler_acts (ages rounds) rest = age_cleanup_acts rounds rest

-- The thread of the io_service: one handler after another.
abbrev pub io_acts : List Handler → List Act
io_acts [] = []
io_acts (h ∷ handlers) = handler_acts h (io_acts handlers)

-- A call of send_pdu or of stop from another thread, which leads to do_write or to nothing.
pub data Call : Type 0 where
  dropped : Call
  passed : (busy numbers : Bool) → Call

abbrev pub caller_acts : List Call → List Act
caller_acts [] = []
caller_acts (dropped ∷ calls) = caller_acts calls
caller_acts (passed busy numbers ∷ calls) = do_write_acts busy numbers (caller_acts calls)

pub record Held : Type 0 where
  pub write : Bool
  pub w4r_q : Bool
  pub number : Bool

abbrev pub has : Mutex → Held → Bool
has write_mutex h = h.write
has w4r_q_mutex h = h.w4r_q
has number_mutex h = h.number

abbrev pub put : Mutex → Bool → Held → Held
put write_mutex b h = record h { write = b }
put w4r_q_mutex b h = record h { w4r_q = b }
put number_mutex b h = record h { number = b }

abbrev pub nothing : Held
nothing = record { write = false; w4r_q = false; number = false }

-- What a thread holds, and what it has left to do.
pub record Thread : Type 0 where
  pub held : Held
  pub rest : List Act

pub record Threads : Type 0 where
  pub io : Thread
  pub callers : List Thread

abbrev pub nobody_has : Mutex → List Thread → Bool
nobody_has m [] = true
nobody_has m (t ∷ ts) = not (has m t.held) && nobody_has m ts

abbrev pub is_free : Threads → Mutex → Bool
is_free s m = not (has m s.io.held) && nobody_has m s.callers

-- The next act of a thread, where `free` are the mutexes that nobody holds; one that would wait
-- does not act.
abbrev pub act : (Mutex → Bool) → Thread → Option Thread
act free t = elim t.rest [
  | [] ↦ none
  | locks m ∷ rest ↦
      if free m then some (record { held = put m true t.held; rest = rest }) else none
  | unlocks m ∷ rest ↦ some (record { held = put m false t.held; rest = rest })
]

-- One of the threads acts.
pub data OneActs (free : Mutex → Bool) : List Thread → List Thread → Type 0 where
  this : {t t' : Thread} {ts : List Thread} → act free t ≡ some t' → OneActs free (t ∷ ts) (t' ∷ ts)
  another : {t : Thread} {ts us : List Thread} → OneActs free ts us → OneActs free (t ∷ ts) (t ∷ us)

pub data Turn (s : Threads) : Threads → Type 0 where
  io_turn : {t : Thread} → act (is_free s) s.io ≡ some t → Turn s (record s { io = t })
  caller_turn :
      {ts : List Thread} → OneActs (is_free s) s.callers ts → Turn s (record s { callers = ts })

pub data Turns (s : Threads) : Threads → Type 0 where
  no_turn : Turns s s
  turn : {t u : Threads} → Turns s t → Turn t u → Turns s u

abbrev pub callers_of : List (List Call) → List Thread
callers_of [] = []
callers_of (calls ∷ more) = record { held = nothing; rest = caller_acts calls } ∷ callers_of more

-- Nobody holds a mutex, and the threads have their handlers and calls before them.
abbrev pub at_start : List Handler → List (List Call) → Threads
at_start handlers calls = record {
  io = record { held = nothing; rest = io_acts handlers };
  callers = callers_of calls;
}
