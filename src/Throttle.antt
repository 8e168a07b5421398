-- ===== src/Throttle.antt =====
-- throttle_check of ksmppc/src/session_manager.cpp, over the clock in microseconds.
use kiss_smpp.Common.{ℕ, zero, suc, ◌+◌, ◌-◌, ltb, if◌then◌else◌}
pub mod Rate

pub record Throttle : Type 0 where
  pub clock : ℕ
  pub next_send_time : ℕ

-- `elapsed d` is what the clock advances by in `usleep(d)`, `gap` is timeBetweenSends.
unfoldable pub throttle_check : (ℕ → ℕ) → ℕ → Throttle → Throttle
throttle_check elapsed gap t = record {
  clock =
      if ltb t.clock t.next_send_time
      then t.clock + elapsed (t.next_send_time - t.clock)
      else t.clock;
  next_send_time = t.clock + gap;
}

-- `n` sends with nothing but the throttle to hold them up.
pub sends : (ℕ → ℕ) → ℕ → ℕ → Throttle → Throttle
sends elapsed gap zero t = t
sends elapsed gap (suc n) t = sends elapsed gap n (throttle_check elapsed gap t)
