-- ===== src/Sequence/Bounds.antt =====
-- The numbers that a SequinceNumberGenerator gives out.
use kiss_smpp.Common.{
  ℕ, zero, suc, ◌+◌, ◌-◌, ◌%◌, ◌≤◌, ◌<◌, ◌≡◌, ◌≢◌, ap, ◌∙◌, ltb, if◌then◌else◌, arith, Bool-cases,
  inl, ltb→lt, inr,
}
use native.Mathlib.Nat.{mod-lt, mod-eq_of_lt, mod-add-mod, mod_self, mod-eq-sub-mod}
use native.Mathlib.Numerals.{add-one}
use kiss_smpp.Smpp.{Smpp}
use kiss_smpp.Sequence.{next, after}

abbrev pub InRange : Smpp → ℕ → Type 0
InRange lib v = (lib.seq_min ≤ v) × (v ≤ lib.seq_max)

-- From a number in range, the number given out and the next one to give out are in range.
pub next-InRange :
    (lib : Smpp) (v : ℕ) → InRange lib v → InRange lib (next lib v).0 × InRange lib (next lib v).1
unfolding next
next-InRange lib v h = ground (arith, lib.seq_min_lt_max, lib.seq_max_lt)

-- How many numbers there are.
abbrev pub period : Smpp → ℕ
period lib = lib.seq_max - lib.seq_min + 1

suc_mod : (k p : ℕ) → k < p → (k + 1) % p ≡ (if ltb (k + 1) p then k + 1 else 0)
suc_mod k p h = elim (Bool-cases (ltb (k + 1) p)) [
  | inl below ↦ rw below (mod-eq_of_lt (ltb→lt (k + 1) p below))
  | inr last ↦ rw last (let e : k + 1 ≡ p = ground arith in rw e (mod_self p))
]

-- One call at the `k`th number of the cycle.
next_cycle :
    (lib : Smpp) (k : ℕ)
    → k < period lib
    → ((next lib (lib.seq_min + k)).0 ≡ lib.seq_min + k)
      × ((next lib (lib.seq_min + k)).1 ≡ lib.seq_min + (k + 1) % period lib)
unfolding next
next_cycle lib k h = ground (arith, lib.seq_min_lt_max, lib.seq_max_lt, suc_mod k (period lib))

period_pos : (lib : Smpp) → 0 < period lib
period_pos lib = omega arith

-- After `n` calls on a new generator, its number is the `n`th of the cycle.
pub after-eq : (lib : Smpp) (n : ℕ) → after lib n ≡ lib.seq_min + n % period lib
unfolding after
after-eq lib zero = ground arith
after-eq lib (suc n) =
    ap (λ v. (next lib v).1) (after-eq lib n)
    ∙ (next_cycle lib (n % period lib) (mod-lt n (period_pos lib))).1
    ∙ ap (λ t. lib.seq_min + t)
        (mod-add-mod n (period lib) 1 ∙ ap (λ t. t % period lib) (add-one n))

-- Call number `n` (from 0) on a new generator returns the number at place `n` of the cycle from
-- seq_min to seq_max.
pub next-after : (lib : Smpp) (n : ℕ) → (next lib (after lib n)).0 ≡ lib.seq_min + n % period lib
next-after lib n =
    ap (λ v. (next lib v).0) (after-eq lib n)
    ∙ (next_cycle lib (n % period lib) (mod-lt n (period_pos lib))).0

mod_shift : (r d p : ℕ) → r < p → 0 < d → d < p → (r + d) % p ≢ r
mod_shift r d p h k l e = elim (Bool-cases (ltb (r + d) p)) [
  | inl below ↦ absurd (omega (arith, mod-eq_of_lt (ltb→lt (r + d) p below)))
  | inr over ↦
      let ge : p ≤ r + d = ground arith in
      absurd (omega (arith, mod-eq-sub-mod ge, mod-eq_of_lt {n = r + d - p} {m = p} (omega arith)))
]

-- Calls less than a whole cycle apart return different numbers.
pub next-after_ne :
    (lib : Smpp) (m d : ℕ)
    → 0 < d
    → d < period lib
    → (next lib (after lib m)).0 ≢ (next lib (after lib (m + d))).0
next-after_ne lib m d h k e =
    mod_shift (m % period lib) d (period lib) (mod-lt m (period_pos lib)) h k
      (omega (arith, mod-add-mod m (period lib) d, next-after lib m, next-after lib (m + d)))
