-- ===== src/Session/Locks/Acts.antt =====
-- The next act of a thread: what it leaves, and when it does not have to wait.
use kiss_smpp.Common.{
  ◌≡◌, refl, ap, Bool, true, false, some, List, [], ◌∷◌, ◌⊎◌, inl, inr, Bool-cases, subst,
}
use kiss_smpp.Session.Locks.{
  Mutex, write_mutex, w4r_q_mutex, number_mutex, Act, locks, unlocks, Held, has, put, Thread,
  nobody_has, act, OneActs, this, another,
}
use mathlib.Core.Option.{some-injective}
use kiss_smpp.Session.Locks.Order.{IoKeepsTo, CallerKeepsTo, AllKeepTo}

abbrev pub AllDone : List Thread → Type 0
AllDone [] = Unit
AllDone (t ∷ ts) = (t.rest ≡ []) × AllDone ts

-- The thread acts.
abbrev pub Acts : (Mutex → Bool) → Thread → Type 0
Acts free t = (t' : Thread) × (act free t ≡ some t')

-- What a thread keeps to, after one act.
pub act-Io :
    (free : Mutex → Bool) (h : Held) (r : List Act) (t : Thread)
    → IoKeepsTo h r
    → act free (record { held = h; rest = r }) ≡ some t
    → IoKeepsTo t.held t.rest
act-Io free h [] t k e = absurd (cc)
act-Io free h (locks m ∷ r) t k e = elim (Bool-cases (free m)) [
  | inl here ↦ subst (λ u. IoKeepsTo u.held u.rest) (some-injective _ t (rw here at e)) k.2
  | inr not_here ↦ let f = rw not_here at e in absurd (cc)
]
act-Io free h (unlocks m ∷ r) t k e =
    subst (λ u. IoKeepsTo u.held u.rest) (some-injective _ t e) k.1

pub lock-Acts :
    (free : Mutex → Bool) (m : Mutex) (h : Held) (r : List Act)
    → free m ≡ true
    → Acts free (record { held = h; rest = locks m ∷ r })
lock-Acts free m h r e = (record { held = put m true h; rest = r }, rw e refl)

-- A thread that holds the number generator's mutex unlocks it next.
pub number-Acts-io :
    (free : Mutex → Bool) (h : Held) (r : List Act)
    → IoKeepsTo h r
    → h.number ≡ true
    → Acts free (record { held = h; rest = r })
number-Acts-io free h [] k e = absurd (let f = ap (λ u. u.number) k in cc)
number-Acts-io free h (locks m ∷ r) k e = absurd (let f = k.1 in cc)
number-Acts-io free h (unlocks m ∷ r) k e = (_, refl)

abbrev pub Caller : Thread → Type 0
Caller t = CallerKeepsTo t.held t.rest × (t.held.w4r_q ≡ false)

pub act-Caller :
    (free : Mutex → Bool) (h : Held) (r : List Act) (t : Thread)
    → Caller (record { held = h; rest = r })
    → act free (record { held = h; rest = r }) ≡ some t
    → Caller t
act-Caller free h [] t k e = absurd (cc)
act-Caller free h (locks write_mutex ∷ r) t k e = elim (Bool-cases (free write_mutex)) [
  | inl here ↦ subst Caller (some-injective _ t (rw here at e)) (k.0.1, k.1)
  | inr not_here ↦ let f = rw not_here at e in absurd (cc)
]
act-Caller free h (locks w4r_q_mutex ∷ r) t k e = absurd k.0
act-Caller free h (locks number_mutex ∷ r) t k e = elim (Bool-cases (free number_mutex)) [
  | inl here ↦ subst Caller (some-injective _ t (rw here at e)) (k.0.1, k.1)
  | inr not_here ↦ let f = rw not_here at e in absurd (cc)
]
act-Caller free h (unlocks write_mutex ∷ r) t k e = subst Caller (some-injective _ t e) (k.0.1, k.1)
act-Caller free h (unlocks w4r_q_mutex ∷ r) t k e =
    subst Caller (some-injective _ t e) (k.0.1, refl)
act-Caller free h (unlocks number_mutex ∷ r) t k e =
    subst Caller (some-injective _ t e) (k.0.1, k.1)

pub OneActs-AllKeepTo :
    {free : Mutex → Bool} {ts us : List Thread} → OneActs free ts us → AllKeepTo ts → AllKeepTo us
OneActs-AllKeepTo {free} (this {t} {t'} e) k = (act-Caller free t.held t.rest t' k.0 e, k.1)
OneActs-AllKeepTo (another o) k = (k.0, OneActs-AllKeepTo o k.1)

-- Lock by lock, who can go on.
pub number-Acts-caller :
    (free : Mutex → Bool) (h : Held) (r : List Act)
    → CallerKeepsTo h r
    → h.number ≡ true
    → Acts free (record { held = h; rest = r })
number-Acts-caller free h [] k e = absurd (let f = ap (λ u. u.number) k in cc)
number-Acts-caller free h (locks write_mutex ∷ r) k e =
    absurd (let f = ap (λ u. u.number) k.0 in cc)
number-Acts-caller free h (locks w4r_q_mutex ∷ r) k e = absurd k
number-Acts-caller free h (locks number_mutex ∷ r) k e = absurd (let f = k.0 in cc)
number-Acts-caller free h (unlocks m ∷ r) k e = (_, refl)

pub write-Acts-caller :
    (free : Mutex → Bool) (h : Held) (r : List Act)
    → free number_mutex ≡ true
    → CallerKeepsTo h r
    → h.write ≡ true
    → Acts free (record { held = h; rest = r })
write-Acts-caller free h [] f k e = absurd (let f = ap (λ u. u.write) k in cc)
write-Acts-caller free h (locks write_mutex ∷ r) f k e =
    absurd (let f = ap (λ u. u.write) k.0 in cc)
write-Acts-caller free h (locks w4r_q_mutex ∷ r) f k e = absurd k
write-Acts-caller free h (locks number_mutex ∷ r) f k e = lock-Acts free number_mutex h r f
write-Acts-caller free h (unlocks m ∷ r) f k e = (_, refl)

pub idle-Acts-caller :
    (free : Mutex → Bool) (h : Held) (r : List Act)
    → free write_mutex ≡ true
    → free number_mutex ≡ true
    → CallerKeepsTo h r
    → (r ≡ []) ⊎ Acts free (record { held = h; rest = r })
idle-Acts-caller free h [] w n k = inl refl
idle-Acts-caller free h (locks write_mutex ∷ r) w n k = inr (lock-Acts free write_mutex h r w)
idle-Acts-caller free h (locks w4r_q_mutex ∷ r) w n k = absurd k
idle-Acts-caller free h (locks number_mutex ∷ r) w n k = inr (lock-Acts free number_mutex h r n)
idle-Acts-caller free h (unlocks m ∷ r) w n k = inr (_, refl)

-- If somebody holds the mutex, and who holds it can go on, then somebody can.
pub holder-OneActs :
    (free : Mutex → Bool) (m : Mutex) (ts : List Thread)
    → ((t : Thread) → CallerKeepsTo t.held t.rest → has m t.held ≡ true → Acts free t)
    → AllKeepTo ts
    → nobody_has m ts ≡ false
    → (us : List Thread) × OneActs free ts us
holder-OneActs free m [] go k e = absurd (cc)
holder-OneActs free m (t ∷ ts) go k e = elim (Bool-cases (has m t.held)) [
  | inl here ↦ let (t', a) = go t k.0.0 here in (t' ∷ ts, this a)
  | inr not_here ↦
      let (us, o) = holder-OneActs free m ts go k.1 (rw not_here at e) in (t ∷ us, another o)
]

pub idle-OneActs :
    (free : Mutex → Bool) (ts : List Thread)
    → free write_mutex ≡ true
    → free number_mutex ≡ true
    → AllKeepTo ts
    → AllDone ts ⊎ ((us : List Thread) × OneActs free ts us)
idle-OneActs free [] w n k = inl tt
idle-OneActs free (t ∷ ts) w n k = elim (idle-Acts-caller free t.held t.rest w n k.0.0) [
  | inr (t', a) ↦ inr (t' ∷ ts, this a)
  | inl done ↦ elim (idle-OneActs free ts w n k.1) [
    | inl all ↦ inl (done, all)
    | inr (us, o) ↦ inr (t ∷ us, another o)
  ]
]

pub none_has_w4r_q : (ts : List Thread) → AllKeepTo ts → nobody_has w4r_q_mutex ts ≡ true
none_has_w4r_q [] k = refl
none_has_w4r_q (t ∷ ts) k = rw (k.0.1) (none_has_w4r_q ts k.1)
