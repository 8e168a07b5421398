-- ===== src/Throttle/Rate.antt =====
-- The rate that throttle_check allows.
use kiss_smpp.Common.{ℕ, zero, suc, ◌+◌, ◌-◌, ◌*◌, ◌≤◌, ◌≡◌, refl, ap, ◌∙◌, arith}
use kiss_smpp.Throttle.{Throttle, throttle_check, sends}

-- A send never goes out before the time that the send before it set, whatever the clock shows, as
-- long as a sleep is not cut short; and it sets a time no earlier than the one it waited for, if
-- the clock has not fallen behind the last send by more than the gap.
pub throttle_check_waits :
    (elapsed : ℕ → ℕ) (gap : ℕ) (t : Throttle)
    → ((d : ℕ) → d ≤ elapsed d)
    → t.next_send_time ≤ t.clock + gap
    → let u = throttle_check elapsed gap t in
      (t.next_send_time ≤ u.clock)
      × (t.clock ≤ u.clock)
      × (t.next_send_time ≤ u.next_send_time)
      × (u.next_send_time ≤ u.clock + gap)
unfolding throttle_check
throttle_check_waits elapsed gap t h k = ground (arith, h (t.next_send_time - t.clock))

-- The next send time is reckoned from the time before the sleep.
two_sends :
    (elapsed : ℕ → ℕ) (gap : ℕ) (t : Throttle)
    → ((d : ℕ) → elapsed d ≡ d)
    → t.next_send_time ≡ t.clock
    → throttle_check elapsed gap (throttle_check elapsed gap t)
      ≡ record { clock = t.clock + gap; next_send_time = t.clock + gap }
unfolding throttle_check
two_sends elapsed gap t h e = ground (arith, h gap, h (t.clock + gap - t.clock))

abbrev double : ℕ → ℕ
double zero = 0
double (suc n) = suc (suc (double n))

double-eq : (n : ℕ) → double n ≡ n + n
double-eq zero = refl
double-eq (suc n) = omega (arith, double-eq n)

sends_pairs :
    (elapsed : ℕ → ℕ) (gap n : ℕ) (t : Throttle)
    → ((d : ℕ) → elapsed d ≡ d)
    → t.next_send_time ≡ t.clock
    → (sends elapsed gap (double n) t).clock ≡ t.clock + n * gap
unfolding sends
sends_pairs elapsed gap zero t h e = omega arith
sends_pairs elapsed gap (suc n) t h e =
    ap (λ u. (sends elapsed gap (double n) u).clock) (two_sends elapsed gap t h e)
    ∙ sends_pairs elapsed gap n (record { clock = t.clock + gap; next_send_time = t.clock + gap }) h
        refl
    ∙ omega arith

-- Where nothing but the throttle holds the sends up, and sleeps are exact, `2 * n` sends take the
-- time of `n` gaps.
pub sends_double_rate :
    (elapsed : ℕ → ℕ) (gap n : ℕ) (t : Throttle)
    → ((d : ℕ) → elapsed d ≡ d)
    → t.next_send_time ≡ t.clock
    → (sends elapsed gap (2 * n) t).clock ≡ t.clock + n * gap
sends_double_rate elapsed gap n t h e =
    let twice : 2 * n ≡ double n = omega (arith, double-eq n) in
    rw twice (sends_pairs elapsed gap n t h e)
