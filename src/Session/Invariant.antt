-- ===== src/Session/Invariant.antt =====
-- What holds of a session between two steps: its numbers are in range, the count of its writes is
-- right, and w4rQ is a map of requests under their own numbers.
use kiss_smpp.Common.{
  ℕ, ◌≤◌, ◌<◌, ◌≡◌, refl, List, [], ◌∷◌, length, arith, u32, ltb, Bool-cases, inl, ltb→lt, inr,
}
use kiss_smpp.Smpp.{Smpp, Pdu, bind_receiver_resp, SharedSmppPdu}
use kiss_smpp.Config.{Config, Settings}
use kiss_smpp.Sequence.{next}
use kiss_smpp.Sequence.Bounds.{InRange, next-InRange}
use kiss_smpp.Waiting.{TimeStampedPdu, pdu_seq_num, AwaitingResponseMap, assign, erase}
use kiss_smpp.Waiting.Map.{
  IsSorted, IsKeyed, erase-IsSorted, assign-IsSorted, erase-IsKeyed, assign-IsKeyed,
}
use kiss_smpp.Session.{Platform, Session, ok}
use kiss_smpp.Session.Write.{transmit, w4r_q_put, seconds}
use kiss_smpp.Session.Close.{construct, initial, set_txq, connect, set_w4r_q_ageing_timer}
use kiss_smpp.Session.Loop.{Reach}
use kiss_smpp.Session.Stable.{After, After-ok, After-and_then, Stable}
use kiss_smpp.Session.Stable.Closing.{start_session-After}
use kiss_smpp.Session.Stable.Steps.{Reach-keeps}
use kiss_smpp.Session.Stable.Resend.{w4r_q_age_cleanup-After}
use kiss_smpp.Session.Stable.Transmit.{do_write-After, handle_write-After}

-- Every PDU of the list has a number, `seq_min` or above.
abbrev pub AllNumbered : Smpp → List Pdu → Type 0
AllNumbered lib [] = Unit {0}
AllNumbered lib (x ∷ xs) = (lib.seq_min ≤ x.sequence_number) × AllNumbered lib xs

-- Every entry of the map is a PDU whose command is below those of the responses.
abbrev pub AllRequests : Smpp → AwaitingResponseMap → Type 0
AllRequests lib [] = Unit {0}
AllRequests lib ((k, t) ∷ m) = (t.obj.command_id < lib.code bind_receiver_resp) × AllRequests lib m

pub record Valid (lib : Smpp) (gen count : ℕ) (out : List Pdu) (m : AwaitingResponseMap)
    : Type 0 where
  pub generator : InRange lib gen
  pub counted : count ≡ u32 (length out)
  pub numbered : AllNumbered lib out
  pub sorted : IsSorted m
  pub keyed : IsKeyed m
  pub requests : AllRequests lib m

abbrev pub IsValid : {Q : Type 0} → Platform Q → Session Q → Type 0
IsValid platform s = Valid platform.smpp s.seq_num_gen s.write_count s.sent s.w4r_q

erase-AllRequests :
    (lib : Smpp) (k : ℕ) (m : AwaitingResponseMap) → AllRequests lib m → AllRequests lib (erase k m)
unfolding erase
erase-AllRequests lib k [] h = tt
erase-AllRequests lib k ((j, t) ∷ m) h = ground (arith, erase-AllRequests lib k m h.1)

assign-AllRequests :
    (lib : Smpp) (k : ℕ) (t : TimeStampedPdu) (m : AwaitingResponseMap)
    → t.obj.command_id < lib.code bind_receiver_resp
    → AllRequests lib m
    → AllRequests lib (assign k t m)
unfolding assign
assign-AllRequests lib k t [] r h = (r, tt)
assign-AllRequests lib k t ((j, u) ∷ m) r h = ground (arith, assign-AllRequests lib k t m r h.1)

module _ {Q : Type 0} (platform : Platform Q) where
  open platform use {smpp}

  transmit-IsValid :
      (pdu : Pdu) (s : Session Q) → IsValid platform s → IsValid platform (transmit platform pdu s)
  unfolding transmit
  transmit-IsValid pdu s v = record {
    generator = ground (arith, next-InRange smpp s.seq_num_gen v.generator);
    counted = ground arith;
    numbered = ground (arith, next-InRange smpp s.seq_num_gen v.generator);
    sorted = ground arith;
    keyed = ground arith;
    requests = ground arith;
  }

  put_entry-IsValid :
      (pdu : Pdu) (s : Session Q)
      → pdu.command_id < smpp.code bind_receiver_resp
      → IsValid platform s
      → IsValid platform (record s {
        w4r_q = assign pdu.sequence_number (record { obj = pdu; timestamp = seconds s }) s.w4r_q;
      })
  unfolding pdu_seq_num
  put_entry-IsValid pdu s r v = record {
    generator = v.generator;
    counted = v.counted;
    numbered = v.numbered;
    sorted = assign-IsSorted pdu.sequence_number entry s.w4r_q v.sorted;
    keyed = assign-IsKeyed entry s.w4r_q v.keyed;
    requests = assign-AllRequests smpp pdu.sequence_number entry s.w4r_q r v.requests;
  }
    where
      entry : TimeStampedPdu
      entry = record { obj = pdu; timestamp = seconds s }

  put-IsValid :
      (pdu : Pdu) (s : Session Q) → IsValid platform s → IsValid platform (w4r_q_put platform pdu s)
  unfolding w4r_q_put
  put-IsValid pdu s v = elim (Bool-cases (ltb pdu.command_id (smpp.code bind_receiver_resp))) [
    | inl request ↦ rw (request, w4r_q_put) (put_entry-IsValid pdu s (ltb→lt _ _ request) v)
    | inr other ↦ rw (other, w4r_q_put) v
  ]

  erase-IsValid :
      (s : Session Q) (k : ℕ)
      → IsValid platform s
      → IsValid platform (record s { w4r_q = erase k s.w4r_q })
  erase-IsValid s k v = record {
    generator = v.generator;
    counted = v.counted;
    numbered = v.numbered;
    sorted = erase-IsSorted k s.w4r_q v.sorted;
    keyed = erase-IsKeyed k s.w4r_q v.keyed;
    requests = erase-AllRequests smpp k s.w4r_q v.requests;
  }

  next-IsValid :
      (s : Session Q)
      → IsValid platform s
      → IsValid platform (record s { seq_num_gen = (next smpp s.seq_num_gen).1 })
  next-IsValid s v = record {
    generator = (next-InRange smpp s.seq_num_gen v.generator).1;
    counted = v.counted;
    numbered = v.numbered;
    sorted = v.sorted;
    keyed = v.keyed;
    requests = v.requests;
  }

  pub Stable-IsValid : Stable platform (IsValid platform)
  Stable-IsValid = record {
    flags = λ s p a b h. h;
    receives = λ s pdu h. h;
    counts = λ s n h. h;
    timers = λ s a b h. h;
    passes = λ s d h. h;
    starts = λ s t ne h. h;
    ends = λ s t rest ne taken h. h;
    numbers = next-IsValid;
    erases = erase-IsValid;
    shuts = λ s h. h;
    writes = do_write-After platform (λ s q h. h) transmit-IsValid;
    written = λ s e rest taken h.
        handle_write-After platform (λ s q h. h) transmit-IsValid (λ x s e h. put-IsValid x s h)
          (λ s h. h) (λ s p a h. h) e _ h;
    ages = λ s n due h.
        w4r_q_age_cleanup-After platform (do_write-After platform (λ s q h. h) transmit-IsValid)
          erase-IsValid (λ s o h. h) _ h;
  }

  initial-IsValid :
      (c : Config) (q : Q) (rx : List SharedSmppPdu) (now : ℕ)
      → IsValid platform (initial platform c q rx now)
  unfolding initial
  initial-IsValid c q rx now = record {
    generator = omega (arith, smpp.seq_min_lt_max);
    counted = refl;
    numbered = tt;
    sorted = tt;
    keyed = tt;
    requests = tt;
  }

  pub construct-After :
      (cfg : Settings) (c : Config) (q : Q) (rx : List SharedSmppPdu) (now : ℕ)
      → After (IsValid platform) (construct platform cfg c q rx now)
  unfolding construct set_txq connect set_w4r_q_ageing_timer
  construct-After cfg c q rx now =
      After-and_then (IsValid platform) _ _
        (start_session-After platform (IsValid platform) cfg (initial platform c q rx now)
          (initial-IsValid c q rx now) (λ s v. v))
        (λ s v. v)

  -- Every session that is reached from a new one is valid.
  pub Reach-IsValid :
      (cfg : Settings) (c : Config) (q : Q) (rx : List SharedSmppPdu) (now : ℕ) (s t : Session Q)
      → construct platform cfg c q rx now ≡ ok s
      → Reach platform s t
      → IsValid platform t
  Reach-IsValid cfg c q rx now s t e r =
      Reach-keeps platform Stable-IsValid r
        (After-ok (IsValid platform) _ s e (construct-After cfg c q rx now))
