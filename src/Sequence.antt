-- ===== src/Sequence.antt =====
-- SequinceNumberGenerator of ksmppc/src/session_manager.hpp; its state is the number `mVal`.
use kiss_smpp.Common.{ℕ, zero, suc, ◌+◌, ltb, if◌then◌else◌, u32}
use kiss_smpp.Smpp.{Smpp}
pub mod Bounds

-- `next`: the number returned, and the new `mVal`.
unfoldable pub next : Smpp → ℕ → ℕ × ℕ
next lib v = if ltb v lib.seq_max then (v, u32 (v + 1)) else (lib.seq_max, lib.seq_min)

-- `mVal` after `n` calls on a new generator.
pub after : Smpp → ℕ → ℕ
after lib zero = lib.seq_min
after lib (suc n) = (next lib (after lib n)).1
