-- ===== src/Session/Stable/Resend.antt =====
-- The loop of w4rQ_age_cleanup keeps what do_write, an erasure and the ageing timer keep.
use kiss_smpp.Common.{
  ℕ, ltb, ◌==◌, Bool, true, false, Option, none, some, [], ◌∷◌, length, if◌then◌else◌,
}
use kiss_smpp.Smpp.{Pdu}
use kiss_smpp.TransmitQueue.{Priority, message}
use kiss_smpp.Waiting.{AwaitingResponseMap, TimeStampedPdu, expired, find, erase}
use kiss_smpp.Session.{success, Platform, Session, Outcome, ok, fault}
use kiss_smpp.Session.Write.{do_write, seconds}
use kiss_smpp.Session.Close.{set_w4r_q_ageing_timer}
use kiss_smpp.Session.Timers.{
  w4r_q_age_cleanup, age_waiting, resend_expired, erase_resent, erase_found, resend_entry,
  resend_present,
}
use kiss_smpp.Session.Stable.{After, After-and_then}

module _ {Q : Type 0} (platform : Platform Q) {P : Session Q → Type 0}
    (writes : (s : Session Q) (pdu : Pdu) (p : Priority)
      → P s
      → After P (do_write platform pdu p s))
    (erases : (s : Session Q) (k : ℕ) → P s → P (record s { w4r_q = erase k s.w4r_q })) where
  erase_found-After :
      (o : Option TimeStampedPdu) (n : ℕ) (s : Session Q)
      → P s
      → After P (erase_found platform o n s)
  unfolding erase_found
  erase_found-After none n s h = tt
  erase_found-After (some t) n s h = erases s n h

  if_fault : (b : Bool) (o : Outcome Q) → After P o → After P (if b then fault else o)
  if_fault true o h = tt
  if_fault false o h = h

  if_ok :
      (b : Bool) (o : Outcome Q) (s : Session Q) → After P o → P s → After P (if b then o else ok s)
  if_ok true o s h k = h
  if_ok false o s h k = k

  erase_resent-After : (k n : ℕ) (s : Session Q) → P s → After P (erase_resent platform k n s)
  unfolding erase_resent
  erase_resent-After k n s h = if_fault (n == k) _ (erase_found-After (find n s.w4r_q) n s h)

  resend_entry-After :
      (k : ℕ) (t : TimeStampedPdu) (s : Session Q) → P s → After P (resend_entry platform k t s)
  unfolding resend_entry
  resend_entry-After k t s h =
      if_ok (expired (seconds s) t 30) _ s
        (After-and_then P _ _ (writes s t.obj message h) (erase_resent-After k _)) h

  resend_present-After :
      (o : Option TimeStampedPdu) (k : ℕ) (t : TimeStampedPdu) (s : Session Q)
      → P s
      → After P (resend_present platform o k t s)
  unfolding resend_present
  resend_present-After none k t s h = h
  resend_present-After (some _) k t s h = resend_entry-After k t s h

  pub resend_expired-After :
      (m : AwaitingResponseMap) (s : Session Q) → P s → After P (resend_expired platform m s)
  unfolding resend_expired
  resend_expired-After [] s h = h
  resend_expired-After ((k, t) ∷ rest) s h =
      After-and_then P _ _ (resend_present-After (find k s.w4r_q) k t s h)
        (resend_expired-After rest)

  -- The handler, for a predicate that does not look at the ageing timer.
  pub w4r_q_age_cleanup-After :
      ((s : Session Q) (o : Option ℕ) → P s → P (record s { ageing_timer = o }))
      → (s : Session Q) → P s
      → After P (w4r_q_age_cleanup platform success s)
  unfolding w4r_q_age_cleanup age_waiting set_w4r_q_ageing_timer
  w4r_q_age_cleanup-After sets s h =
      if_ok (ltb 0 (length s.w4r_q)) _ s
        (After-and_then P _ _ (resend_expired-After s.w4r_q s h) (λ t k. sets t _ k)) h
