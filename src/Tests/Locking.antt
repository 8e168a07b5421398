-- ===== src/Tests/Locking.antt =====
-- Two threads that want the same mutex.
use kiss_smpp.Common.{◌≡◌, refl, true, false, suc, [], ◌∷◌, ◌⊎◌}
use kiss_smpp.Session.Locks.{
  write_mutex, w4r_q_mutex, unlocks, resends, rounds_acts, ages, passed, put, nothing, Threads,
  this, Turn, io_turn, caller_turn, no_turn, turn,
}
use kiss_smpp.Session.Locks.Acts.{AllDone}
use kiss_smpp.Session.Locks.Progress.{acts_left, never_stuck}

-- The clean-up has w4rQMutex and wants writeMutex, which a call of send_pdu has.
abbrev contended : Threads
contended = record {
  io = record {
    held = put w4r_q_mutex true nothing;
    rest = rounds_acts (resends false true ∷ []) (unlocks w4r_q_mutex ∷ []);
  };
  callers = record { held = put write_mutex true nothing; rest = unlocks write_mutex ∷ [] } ∷ [];
}

never_stuck_example :
    (((contended.io.rest ≡ []) × AllDone contended.callers) ⊎ ((t : Threads) × Turn contended t))
    × ((t : Threads) → Turn contended t → acts_left contended ≡ suc (acts_left t))
never_stuck_example =
    never_stuck (ages (resends false true ∷ []) ∷ []) ((passed false false ∷ []) ∷ []) contended
      (turn (turn no_turn (io_turn refl)) (caller_turn (this refl)))
