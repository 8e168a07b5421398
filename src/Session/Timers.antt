-- ===== src/Session/Timers.antt =====
-- The three timers of ksmppc/src/session_manager.cpp: reschedule_enquire_link, do_enquire_link,
-- do_enquire_link_failure and w4rQ_age_cleanup. A handler takes the state in which its timer has
-- expired; one that is cancelled runs with `operation_aborted`.
use kiss_smpp.Common.{ℕ, ltb, ◌==◌, true, false, none, some, [], ◌∷◌, if◌then◌else◌, length, Option}
use kiss_smpp.Smpp.{enquire_link}
use kiss_smpp.Sequence.{next}
use kiss_smpp.TransmitQueue.{session, message}
use kiss_smpp.Waiting.{TimeStampedPdu, AwaitingResponseMap, pdu_seq_num, expired, find, erase}
use kiss_smpp.Session.{ErrorCode, operation_aborted, Platform, Session, ok, fault, Action, and_then}
use kiss_smpp.Session.Write.{seconds, is_writing, number_pdu, do_write}
use kiss_smpp.Session.Close.{set_w4r_q_ageing_timer, close_session}

unfoldable pub reschedule_enquire_link : {Q : Type 0} → Session Q → Session Q
reschedule_enquire_link s = record s {
  enquire_link_timer = some s.config.enquire_link_timeout;
  enquire_link_response_timer = none;
}

module _ {Q : Type 0} (platform : Platform Q) where
  open platform use {smpp}

  unfoldable pub send_enquire_link : Action Q
  send_enquire_link s =
      and_then
        (do_write platform
          (record (smpp.create enquire_link) { sequence_number = (next smpp s.seq_num_gen).0 })
          session (record s { seq_num_gen = (next smpp s.seq_num_gen).1 }))
        (λ t.
          ok (record t { enquire_link_response_timer = some t.config.enquire_link_resp_timeout }))

  unfoldable pub do_enquire_link : ErrorCode → Action Q
  do_enquire_link operation_aborted s = ok s
  do_enquire_link error s = send_enquire_link s

  unfoldable pub do_enquire_link_failure : ErrorCode → Action Q
  do_enquire_link_failure operation_aborted s = ok s
  do_enquire_link_failure error s =
      if s.stop_flag
      then ok s
      else close_session platform false (record s { reconnect_flag = true })

  -- The number of an entry's object after `do_write`, which numbers it if it goes out at once.
  unfoldable pub resent_number : TimeStampedPdu → Session Q → ℕ
  resent_number t s =
      if is_writing platform s
      then pdu_seq_num t
      else (number_pdu platform t.obj s).0.sequence_number

  -- `w4rQ.erase(w4rQ.find(n))` inside the loop that stands at the key `k`: erasing the end of the
  -- map is undefined, and so is the loop's next step after it erases its own entry.
  unfoldable pub erase_found : Option TimeStampedPdu → ℕ → Action Q
  erase_found none n s = fault
  erase_found (some t) n s = ok (record s { w4r_q = erase n s.w4r_q })

  unfoldable pub erase_resent : ℕ → ℕ → Action Q
  unfolding erase_found
  erase_resent k n s = if n == k then fault else erase_found (find n s.w4r_q) n s

  -- One round, for the entry `t` at the key `k`.
  unfoldable pub resend_entry : ℕ → TimeStampedPdu → Action Q
  resend_entry k t s =
      if expired (seconds s) t 30
      then and_then (do_write platform t.obj message s) (erase_resent k (resent_number t s))
      else ok s

  -- An entry that an earlier round has erased is passed over.
  unfoldable pub resend_present : Option TimeStampedPdu → ℕ → TimeStampedPdu → Action Q
  resend_present none k t s = ok s
  resend_present (some _) k t s = resend_entry k t s

  -- The loop, over the entries that were in the map when it began.
  unfoldable pub resend_expired : AwaitingResponseMap → Action Q
  unfolding resend_present
  resend_expired [] s = ok s
  resend_expired ((k, t) ∷ rest) s =
      and_then (resend_present (find k s.w4r_q) k t s) (resend_expired rest)

  unfoldable pub age_waiting : Action Q
  age_waiting s =
      if ltb 0 (length s.w4r_q)
      then and_then (resend_expired s.w4r_q s) (λ t. ok (set_w4r_q_ageing_timer t))
      else ok s

  unfoldable pub w4r_q_age_cleanup : ErrorCode → Action Q
  w4r_q_age_cleanup operation_aborted s = ok s
  w4r_q_age_cleanup error s = age_waiting s
