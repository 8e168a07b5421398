-- ===== src/Tests/Parts.antt =====
-- The sequence numbers and the throttle at concrete inputs.
use kiss_smpp.Common.{◌+◌, ◌*◌, ◌≡◌, ◌≢◌, refl, arith}
use kiss_smpp.Smpp.Standard.{standard}
use kiss_smpp.Sequence.{next, after}
use kiss_smpp.Sequence.Bounds.{next-after_ne}
use kiss_smpp.Throttle.{Throttle, sends}
use kiss_smpp.Throttle.Rate.{sends_double_rate}

next-after_ne_example : (next standard (after standard 2)).0 ≢ (next standard (after standard 5)).0
next-after_ne_example = next-after_ne standard 2 3 (omega arith) (omega arith)

-- 20 messages a second: a gap of 50 milliseconds.
abbrev start : Throttle
start = record { clock = 7000; next_send_time = 7000 }

sends_double_rate_example : (sends (λ d. d) 50000 40 start).clock ≡ 7000 + 20 * 50000
sends_double_rate_example = sends_double_rate (λ d. d) 50000 20 start (λ d. refl) refl
