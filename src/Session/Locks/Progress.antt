-- ===== src/Session/Locks/Progress.antt =====
-- No deadlock: one thread takes writeMutex and w4rQMutex in either order, but only one does.
use kiss_smpp.Common.{
  ◌≡◌, refl, ap, ◌∙◌, Bool, true, false, some, List, [], ◌∷◌, ◌⊎◌, inl, inr, Bool-cases, ℕ, suc,
  ◌+◌, length, total, arith,
}
use kiss_smpp.Session.Locks.{
  Mutex, write_mutex, w4r_q_mutex, number_mutex, Act, locks, unlocks, Handler, Call, Held, has,
  Thread, Threads, nobody_has, is_free, act, OneActs, this, another, Turn, io_turn, caller_turn,
  Turns, no_turn, turn, at_start,
}
use mathlib.Core.Option.{some-injective}
use kiss_smpp.Session.Locks.Order.{IoKeepsTo, AllKeepTo, io-Io, callers_of-AllKeepTo}
use kiss_smpp.Session.Locks.Acts.{
  AllDone, Acts, act-Io, number-Acts-io, lock-Acts, OneActs-AllKeepTo, number-Acts-caller,
  write-Acts-caller, holder-OneActs, idle-OneActs, none_has_w4r_q,
}

abbrev Keeps : Threads → Type 0
Keeps s = IoKeepsTo s.io.held s.io.rest × AllKeepTo s.callers

Turns-Keeps : {s t : Threads} → Turns s t → Keeps s → Keeps t
Turns-Keeps no_turn k = k
Turns-Keeps (turn {t} ts (io_turn {t = i} e)) k =
    let (io, callers) = Turns-Keeps ts k in (act-Io (is_free t) t.io.held t.io.rest i io e, callers)
Turns-Keeps (turn ts (caller_turn o)) k =
    let (io, callers) = Turns-Keeps ts k in (io, OneActs-AllKeepTo o callers)

free_of :
    (s : Threads) (m : Mutex)
    → has m s.io.held ≡ false
    → nobody_has m s.callers ≡ true
    → is_free s m ≡ true
free_of s m mine others = rw (mine, others) refl

-- The thread of the io_service can go on if no other thread holds writeMutex and nobody the number
-- generator's.
idle-Acts-io :
    (s : Threads) (h : Held) (r : List Act)
    → s.io ≡ record { held = h; rest = r }
    → IoKeepsTo h r
    → AllKeepTo s.callers
    → nobody_has write_mutex s.callers ≡ true
    → is_free s number_mutex ≡ true
    → ((r ≡ []) × (is_free s write_mutex ≡ true)) ⊎ Acts (is_free s) (record { held = h; rest = r })
idle-Acts-io s h [] e k c w n =
    inl (refl, free_of s write_mutex (ap (λ t. t.held.write) e ∙ ap (λ u. u.write) k) w)
idle-Acts-io s h (locks write_mutex ∷ r) e k c w n = inr (
    lock-Acts (is_free s) write_mutex h r
      (free_of s write_mutex (ap (λ t. t.held.write) e ∙ k.0) w))
idle-Acts-io s h (locks w4r_q_mutex ∷ r) e k c w n = inr (
    lock-Acts (is_free s) w4r_q_mutex h r
      (free_of s w4r_q_mutex (ap (λ t. t.held.w4r_q) e ∙ k.0) (none_has_w4r_q s.callers c)))
idle-Acts-io s h (locks number_mutex ∷ r) e k c w n = inr (lock-Acts (is_free s) number_mutex h r n)
idle-Acts-io s h (unlocks m ∷ r) e k c w n = inr (_, refl)

progress :
    (s : Threads) → Keeps s → ((s.io.rest ≡ []) × AllDone s.callers) ⊎ ((t : Threads) × Turn s t)
progress s (io, callers) = elim (Bool-cases s.io.held.number) [
  | inl numbering ↦
      let (i, a) = number-Acts-io (is_free s) s.io.held s.io.rest io numbering in
      inr (record s { io = i }, io_turn a)
  | inr not_io ↦ elim (Bool-cases (nobody_has number_mutex s.callers)) [
    | inr somebody ↦
        let (us, o) =
          holder-OneActs (is_free s) number_mutex s.callers
            (λ t k e. number-Acts-caller (is_free s) t.held t.rest k e) callers somebody in
        inr (record s { callers = us }, caller_turn o)
    | inl nobody ↦
        let n : is_free s number_mutex ≡ true = rw (not_io, nobody) refl in
        elim (Bool-cases (nobody_has write_mutex s.callers)) [
          | inr somebody ↦
              let (us, o) =
                holder-OneActs (is_free s) write_mutex s.callers
                  (λ t k e. write-Acts-caller (is_free s) t.held t.rest n k e) callers somebody in
              inr (record s { callers = us }, caller_turn o)
          | inl none_writes ↦
              elim (idle-Acts-io s s.io.held s.io.rest refl io callers none_writes n) [
                | inr (i, a) ↦ inr (record s { io = i }, io_turn a)
                | inl (done, w) ↦ elim (idle-OneActs (is_free s) s.callers w n callers) [
                  | inl all ↦ inl (done, all)
                  | inr (us, o) ↦ inr (record s { callers = us }, caller_turn o)
                ]
              ]
        ]
  ]
]

-- How many acts are left.
abbrev pub acts_left : Threads → ℕ
acts_left s = length s.io.rest + total (λ t. length t.rest) s.callers

act-length :
    (free : Mutex → Bool) (h : Held) (r : List Act) (t : Thread)
    → act free (record { held = h; rest = r }) ≡ some t
    → length r ≡ suc (length t.rest)
act-length free h [] t e = absurd (cc)
act-length free h (locks m ∷ r) t e = elim (Bool-cases (free m)) [
  | inl here ↦ ap (λ u. suc (length u.rest)) (some-injective _ t (rw here at e))
  | inr not_here ↦ let f = rw not_here at e in absurd (cc)
]
act-length free h (unlocks m ∷ r) t e = ap (λ u. suc (length u.rest)) (some-injective _ t e)

OneActs-length :
    {free : Mutex → Bool} {ts us : List Thread}
    → OneActs free ts us
    → total (λ t. length t.rest) ts ≡ suc (total (λ t. length t.rest) us)
OneActs-length {free} (this {t} {t'} e) = let h = act-length free t.held t.rest t' e in omega arith
OneActs-length (another o) = let h = OneActs-length o in omega arith

Turn-acts_left : {s t : Threads} → Turn s t → acts_left s ≡ suc (acts_left t)
Turn-acts_left {s} (io_turn {t} e) =
    let h = act-length (is_free s) s.io.held s.io.rest t e in omega arith
Turn-acts_left {s} (caller_turn o) = let h = OneActs-length o in omega arith

-- The mutexes of a session never make its threads wait for each other for good. Let one thread run
-- any handlers of the io_service, and any number of other threads any calls of send_pdu and stop.
-- In whatever order they have taken turns, either all have finished or one of them can go on, and
-- each turn takes one from the number of acts that are left, so that they finish in every order.
pub never_stuck :
    (handlers : List Handler) (calls : List (List Call)) (s : Threads)
    → Turns (at_start handlers calls) s
    → (((s.io.rest ≡ []) × AllDone s.callers) ⊎ ((t : Threads) × Turn s t))
      × ((t : Threads) → Turn s t → acts_left s ≡ suc (acts_left t))
never_stuck handlers calls s ts = (
  progress s (Turns-Keeps ts (io-Io handlers, callers_of-AllKeepTo calls)),
  λ t step. Turn-acts_left step,
)
