-- ===== src/Session/Locks/Order.antt =====
-- The order in which the threads lock their mutexes.
use kiss_smpp.Common.{◌≡◌, refl, Bool, true, false, List, [], ◌∷◌}
use kiss_smpp.Session.Locks.{
  write_mutex, w4r_q_mutex, number_mutex, Act, locks, unlocks, next_acts, write_pdu_acts,
  do_write_acts, w4r_q_acts, handle_write_acts, Round, still_waits, resends, rounds_acts, Handler,
  no_lock, asks, closes, writes, reads, reads_and_answers, ages, handler_acts, io_acts, Call,
  dropped, passed, caller_acts, Held, has, put, nothing, Thread, callers_of,
}

-- What the thread of the io_service keeps to: it locks what it does not hold and unlocks what it
-- holds, the number generator's mutex at once, and in the end it holds nothing.
abbrev pub IoKeepsTo : Held → List Act → Type 0
IoKeepsTo h [] = h ≡ nothing
IoKeepsTo h (locks m ∷ rest) =
    (has m h ≡ false) × (h.number ≡ false) × IoKeepsTo (put m true h) rest
IoKeepsTo h (unlocks m ∷ rest) =
    (h.number ≡ true → m ≡ number_mutex) × IoKeepsTo (put m false h) rest

-- What the other threads keep to: they never lock w4rQMutex, and writeMutex with nothing held.
abbrev pub CallerKeepsTo : Held → List Act → Type 0
CallerKeepsTo h [] = h ≡ nothing
CallerKeepsTo h (locks write_mutex ∷ rest) =
    (h ≡ nothing) × CallerKeepsTo (put write_mutex true h) rest
CallerKeepsTo h (locks w4r_q_mutex ∷ rest) = ⊥
CallerKeepsTo h (locks number_mutex ∷ rest) =
    (h.number ≡ false) × CallerKeepsTo (put number_mutex true h) rest
CallerKeepsTo h (unlocks m ∷ rest) =
    (h.number ≡ true → m ≡ number_mutex) × CallerKeepsTo (put m false h) rest

abbrev pub AllKeepTo : List Thread → Type 0
AllKeepTo [] = Unit
AllKeepTo (t ∷ ts) = (CallerKeepsTo t.held t.rest × (t.held.w4r_q ≡ false)) × AllKeepTo ts

abbrev holding : Bool → Bool → Held
holding a b = record { write = a; w4r_q = b; number = false }

next-Io :
    (a b : Bool) (r : List Act) → IoKeepsTo (holding a b) r → IoKeepsTo (holding a b) (next_acts r)
next-Io a b r h = (refl, refl, ((λ e. refl), h))

write_pdu-Io :
    (n a b : Bool) (r : List Act)
    → IoKeepsTo (holding a b) r
    → IoKeepsTo (holding a b) (write_pdu_acts n r)
write_pdu-Io true a b r h = next-Io a b r h
write_pdu-Io false a b r h = h

do_write-Io :
    (y n b : Bool) (r : List Act)
    → IoKeepsTo (holding false b) r
    → IoKeepsTo (holding false b) (do_write_acts y n r)
do_write-Io true n b r h = (refl, refl, ((λ e. cc), h))
do_write-Io false n b r h =
    (refl, refl, write_pdu-Io n true b (unlocks write_mutex ∷ r) ((λ e. cc), h))

w4r_q-Io :
    (q a : Bool) (r : List Act)
    → IoKeepsTo (holding a false) r
    → IoKeepsTo (holding a false) (w4r_q_acts q r)
w4r_q-Io true a r h = (refl, refl, ((λ e. cc), h))
w4r_q-Io false a r h = h

handle_write-Io :
    (q g n : Bool) (r : List Act)
    → IoKeepsTo nothing r
    → IoKeepsTo nothing (handle_write_acts q g n r)
handle_write-Io q true n r h = (
  refl,
  refl,
  w4r_q-Io q true (write_pdu_acts n (unlocks write_mutex ∷ r))
      (write_pdu-Io n true false (unlocks write_mutex ∷ r) ((λ e. cc), h)),
)
handle_write-Io q false n r h =
    (refl, refl, w4r_q-Io q true (unlocks write_mutex ∷ r) ((λ e. cc), h))

rounds-Io :
    (rounds : List Round) (r : List Act)
    → IoKeepsTo (holding false true) r
    → IoKeepsTo (holding false true) (rounds_acts rounds r)
rounds-Io [] r h = h
rounds-Io (still_waits ∷ rounds) r h = rounds-Io rounds r h
rounds-Io (resends y n ∷ rounds) r h =
    do_write-Io y n true (rounds_acts rounds r) (rounds-Io rounds r h)

handler-Io :
    (x : Handler) (r : List Act) → IoKeepsTo nothing r → IoKeepsTo nothing (handler_acts x r)
handler-Io no_lock r h = h
handler-Io (asks y n) r h = next-Io false false (do_write_acts y n r) (do_write-Io y n false r h)
handler-Io (closes y n) r h = do_write-Io y n false r h
handler-Io (writes q g n) r h = handle_write-Io q g n r h
handler-Io (reads q) r h = w4r_q-Io q false r h
handler-Io (reads_and_answers q y n) r h =
    w4r_q-Io q false (do_write_acts y n r) (do_write-Io y n false r h)
handler-Io (ages rounds) r h =
    (refl, refl, rounds-Io rounds (unlocks w4r_q_mutex ∷ r) ((λ e. cc), h))

pub io-Io : (xs : List Handler) → IoKeepsTo nothing (io_acts xs)
io-Io [] = refl
io-Io (x ∷ xs) = handler-Io x (io_acts xs) (io-Io xs)

caller-Caller : (calls : List Call) → CallerKeepsTo nothing (caller_acts calls)
caller-Caller [] = refl
caller-Caller (dropped ∷ calls) = caller-Caller calls
caller-Caller (passed true n ∷ calls) = (refl, ((λ e. cc), caller-Caller calls))
caller-Caller (passed false true ∷ calls) =
    (refl, (refl, ((λ e. refl), ((λ e. cc), caller-Caller calls))))
caller-Caller (passed false false ∷ calls) = (refl, ((λ e. cc), caller-Caller calls))

pub callers_of-AllKeepTo : (more : List (List Call)) → AllKeepTo (callers_of more)
callers_of-AllKeepTo [] = tt
callers_of-AllKeepTo (calls ∷ more) = ((caller-Caller calls, refl), callers_of-AllKeepTo more)
