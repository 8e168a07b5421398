-- ===== src/Session/Expiry.antt =====
-- The loop of w4rQ_age_cleanup erases the entry that its iterator stands at.
use kiss_smpp.Common.{
  ℕ, ◌<◌, ◌≡◌, refl, sym, ap, ◌∙◌, Bool, true, false, some, [], ◌∷◌, inl, inr, ◌||◌, arith,
  Bool-cases, if◌then◌else◌, if_of_true, if_of_false, ltb, ◌==◌, length, ==_iff,
}
use kiss_smpp.Smpp.{Smpp}
use kiss_smpp.TransmitQueue.{message}
use kiss_smpp.Waiting.{TimeStampedPdu, AwaitingResponseMap, pdu_seq_num, expired, find}
use kiss_smpp.Waiting.Map.{IsKeyed}
use kiss_smpp.Session.{success, Platform, Session, ok, fault, and_then}
use kiss_smpp.Session.Write.{seconds, number_pdu}
use kiss_smpp.Session.Close.{set_w4r_q_ageing_timer}
use kiss_smpp.Session.Timers.{
  w4r_q_age_cleanup, age_waiting, resend_expired, resend_present, resend_entry, erase_resent,
  resent_number,
}
use kiss_smpp.Session.Overlap.{do_write_lem}

-- Some entry has waited for 30 seconds or more.
abbrev pub any_expired : ℕ → AwaitingResponseMap → Bool
any_expired now [] = false
any_expired now ((k, t) ∷ m) = expired now t 30 || any_expired now m

-- Every key is above seq_min, as the numbers are that write_pdu leaves as they are.
abbrev pub AllAbove : Smpp → AwaitingResponseMap → Type 0
AllAbove lib [] = Unit {0}
AllAbove lib ((k, t) ∷ m) = (lib.seq_min < k) × AllAbove lib m

-- Every entry of the first map is found in the second.
abbrev AllFound : AwaitingResponseMap → AwaitingResponseMap → Type 0
AllFound [] m = Unit {0}
AllFound ((k, t) ∷ r) m = ((u : TimeStampedPdu) × (find k m ≡ some u)) × AllFound r m

find-cons :
    (j k : ℕ) (t u : TimeStampedPdu) (m : AwaitingResponseMap)
    → find k m ≡ some u
    → (v : TimeStampedPdu) × (find k ((j, t) ∷ m) ≡ some v)
unfolding find
find-cons j k t u m h = elim (Bool-cases (j == k)) [
  | inl same ↦ (t, if_of_true _ _ same)
  | inr other ↦ (u, if_of_false _ _ other ∙ h)
]

AllFound-cons :
    (j : ℕ) (t : TimeStampedPdu) (r m : AwaitingResponseMap)
    → AllFound r m
    → AllFound r ((j, t) ∷ m)
AllFound-cons j t [] m h = tt
AllFound-cons j t ((k, u) ∷ r) m h = (find-cons j k t h.0.0 m h.0.1, AllFound-cons j t r m h.1)

AllFound-self : (m : AwaitingResponseMap) → AllFound m m
unfolding find
AllFound-self [] = tt
AllFound-self ((k, t) ∷ m) =
    ((t, if_of_true _ _ ((==_iff k k).1 refl)), AllFound-cons k t m m (AllFound-self m))

module _ {Q : Type 0} (platform : Platform Q) where
  open platform use {smpp}

  resent_number-key :
      (k : ℕ) (t : TimeStampedPdu) (s : Session Q)
      → pdu_seq_num t ≡ k
      → smpp.seq_min < k
      → resent_number platform t s ≡ k
  unfolding resent_number number_pdu pdu_seq_num
  resent_number-key k t s e h = ground arith

  -- An expired entry: its round ends in undefined behaviour.
  resend_entry-fault :
      (k : ℕ) (t : TimeStampedPdu) (s : Session Q)
      → pdu_seq_num t ≡ k
      → smpp.seq_min < k
      → expired (seconds s) t 30 ≡ true
      → resend_entry platform k t s ≡ fault
  unfolding resend_entry erase_resent
  resend_entry-fault k t s e h old =
      let (u, w, _) = do_write_lem platform t.obj message s in
      if_of_true _ _ old
      ∙ ap (λ o. and_then o (erase_resent platform k (resent_number platform t s))) w
      ∙ if_of_true _ _ ((==_iff _ k).1 (resent_number-key k t s e h))

  resend_entry-young :
      (k : ℕ) (t : TimeStampedPdu) (s : Session Q)
      → expired (seconds s) t 30 ≡ false
      → resend_entry platform k t s ≡ ok s
  unfolding resend_entry
  resend_entry-young k t s young = if_of_false _ _ young

  resend_expired_lem :
      (m : AwaitingResponseMap) (s : Session Q)
      → AllFound m s.w4r_q
      → IsKeyed m
      → AllAbove smpp m
      → resend_expired platform m s ≡ (if any_expired (seconds s) m then fault else ok s)
  unfolding resend_expired
  resend_expired_lem [] s f k a = refl
  resend_expired_lem ((j, t) ∷ m) s f k a =
      ap (λ o. and_then (resend_present platform o j t s) (resend_expired platform m)) f.0.1
      ∙ elim (Bool-cases (expired (seconds s) t 30)) [
        | inl old ↦
            ap (λ o. and_then o (resend_expired platform m)) (resend_entry-fault j t s k.0 a.0 old)
            ∙ sym (if_of_true fault (ok s) (ap (λ b. b || any_expired (seconds s) m) old))
        | inr young ↦
            ap (λ o. and_then o (resend_expired platform m)) (resend_entry-young j t s young)
            ∙ resend_expired_lem m s f.1 k.1 a.1
            ∙ ap (λ b. if b then fault else ok s)
                (sym (ap (λ b. b || any_expired (seconds s) m) young))
      ]

  -- The ageing of a map whose entries stand under their own numbers, all above seq_min: if an entry
  -- has expired, the handler runs into undefined behaviour, for it erases the entry that its
  -- iterator stands at and then steps the iterator. If none has, it changes nothing but its timer,
  -- which it sets again exactly if the map is not empty.
  pub w4r_q_age_cleanup_lem :
      (s : Session Q)
      → IsKeyed s.w4r_q
      → AllAbove smpp s.w4r_q
      → w4r_q_age_cleanup platform success s ≡ (
          if any_expired (seconds s) s.w4r_q
          then fault
          else ok (if ltb 0 (length s.w4r_q) then set_w4r_q_ageing_timer s else s))
  unfolding w4r_q_age_cleanup age_waiting
  w4r_q_age_cleanup_lem s k a =
      ap
        (λ o.
          if ltb 0 (length s.w4r_q) then and_then o (λ t. ok (set_w4r_q_ageing_timer t)) else ok s)
        (resend_expired_lem s.w4r_q s (AllFound-self s.w4r_q) k a)
      ∙ by_size s.w4r_q
    where
      by_size :
          (m : AwaitingResponseMap)
          → (if ltb 0 (length m)
              then and_then
                  (if any_expired (seconds s) m then fault else ok s)
                  (λ t. ok (set_w4r_q_ageing_timer t))
              else ok s)
            ≡ (if any_expired (seconds s) m
                then fault
                else ok (if ltb 0 (length m) then set_w4r_q_ageing_timer s else s))
      by_size [] = refl
      by_size ((k, t) ∷ m) = ground arith
