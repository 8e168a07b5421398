-- ===== src/Session/Receiving.antt =====
-- How a session answers what it reads.
pub mod Answer
use kiss_smpp.Common.{
  ◌+◌, ◌≤◌, ◌≡◌, ◌≢◌, refl, ap, ◌∙◌, Bool, true, false, Option, none, some, List, [], ◌∷◌, ◌++◌,
  ◌⊎◌, inl, inr, arith, if◌then◌else◌, u32,
}
use kiss_smpp.Smpp.{
  CommandId, Pdu, RawPdu, decoded, is_response, command, enquire_link, enquire_link_resp,
  deliver_sm, deliver_sm_resp, alert_notification, data_sm,
}
use kiss_smpp.Smpp.Commands.{command_of_eq}
use kiss_smpp.Sequence.{next}
use kiss_smpp.TransmitQueue.{response, push_items}
use kiss_smpp.Session.{
  State, bound_rx, bound_trx, closed, success, reading_header, Platform, Session, ok,
}
use kiss_smpp.Session.Write.{start, is_writing, number_pdu, do_write}
use kiss_smpp.Session.Timers.{reschedule_enquire_link}
use kiss_smpp.Session.Receive.{response_pdu, procpdu_enquire_link, procpdu_deliver_sm}
use kiss_smpp.Session.Process.{
  process4state, process_in, process4state_open, process4state_bound_tx, process4state_bound_rx,
  process4state_bound_trx, process4state_unbound, process4state_outbound,
}
use kiss_smpp.Session.Handlers.{handle_read_body, w4r_q_pop}
use kiss_smpp.Session.Overlap.{Goes, Waits, do_write_lem}
use kiss_smpp.Session.Receiving.Answer.{
  process_enquire_link, process_deliver_sm, Answers, pop_of_request, read_body_of_write, answer,
}

-- The commands of the message centre that only a receiver takes.
abbrev pub is_receivers : Option CommandId → Bool
is_receivers (some alert_notification) = true
is_receivers (some data_sm) = true
is_receivers (some deliver_sm) = true
is_receivers _ = false

module _ {Q : Type 0} (platform : Platform Q) where
  open platform use {smpp, queue}

  -- A transceiver takes the commands of a receiver as a receiver does, and all others as a
  -- transmitter does.
  pub transceiver_lem :
      (c : Option CommandId) (raw : RawPdu) (s : Session Q)
      → process4state_bound_trx platform c raw s ≡ (
          if is_receivers c
          then process4state_bound_rx platform c raw s
          else process4state_bound_tx platform c raw s)
  unfolding process4state_bound_trx process4state_bound_rx process4state_bound_tx
  transceiver_lem none raw s = refl
  transceiver_lem (some deliver_sm) raw s = refl
  transceiver_lem (some c) raw s = refl

  enquire_link_decoded :
      (raw : RawPdu) (pdu : Pdu) (s : Session Q)
      → smpp.decode enquire_link raw ≡ decoded pdu
      → procpdu_enquire_link platform raw s
        ≡ do_write platform (response_pdu platform enquire_link_resp pdu.sequence_number) response s
  unfolding procpdu_enquire_link
  enquire_link_decoded raw pdu s d = rw d

  deliver_sm_decoded :
      (raw : RawPdu) (pdu : Pdu) (s : Session Q)
      → smpp.decode deliver_sm raw ≡ decoded pdu
      → procpdu_deliver_sm platform raw s
        ≡ do_write platform
            (response_pdu platform deliver_sm_resp pdu.sequence_number)
            response
            (record s { rx_q = s.rx_q ++ some pdu ∷ [] })
  unfolding procpdu_deliver_sm
  deliver_sm_decoded raw pdu s d = rw d

  -- An enquire_link that is read in any state but CLOSED is answered by an enquire_link_resp with
  -- its sequence number and the status ESME_ROK; the state and the map stay as they are.
  pub enquire_link-Answers :
      (raw : RawPdu) (pdu : Pdu) (s : Session Q)
      → s.current_state ≢ closed
      → raw.cmd_id ≡ smpp.code enquire_link
      → smpp.decode enquire_link raw ≡ decoded pdu
      → (t : Session Q) × (handle_read_body platform raw success s ≡ ok t)
        × Answers platform (response_pdu platform enquire_link_resp pdu.sequence_number) s t
  unfolding is_response reschedule_enquire_link
  enquire_link-Answers raw pdu s ne e d =
      let (t, w, a, _) =
        answer platform (response_pdu platform enquire_link_resp pdu.sequence_number) s.rx_q s in
      (
        start reading_header (record t { read_count = u32 (t.read_count + 1) }),
        read_body_of_write platform raw s t (pop_of_request platform enquire_link raw s e refl) (
            ap (λ c. process_in platform s.current_state c raw (reschedule_enquire_link s))
              (command_of_eq smpp enquire_link raw.cmd_id e)
            ∙ process_enquire_link platform s.current_state raw (reschedule_enquire_link s) ne
            ∙ enquire_link_decoded raw pdu (reschedule_enquire_link s) d
            ∙ w),
        a,
      )

  -- A deliver_sm that a receiver or a transceiver reads is put at the end of the receive queue and
  -- answered by a deliver_sm_resp with its sequence number and the status ESME_ROK.
  pub deliver_sm-Answers :
      (raw : RawPdu) (pdu : Pdu) (s : Session Q)
      → (s.current_state ≡ bound_rx) ⊎ (s.current_state ≡ bound_trx)
      → raw.cmd_id ≡ smpp.code deliver_sm
      → smpp.decode deliver_sm raw ≡ decoded pdu
      → (t : Session Q) × (handle_read_body platform raw success s ≡ ok t)
        × Answers platform (response_pdu platform deliver_sm_resp pdu.sequence_number) s t
        × (t.rx_q ≡ s.rx_q ++ some pdu ∷ [])
  unfolding is_response reschedule_enquire_link
  deliver_sm-Answers raw pdu s bound e d =
      let (t, w, a, rx) =
        answer platform (response_pdu platform deliver_sm_resp pdu.sequence_number)
          (s.rx_q ++ some pdu ∷ []) s in
      (
        start reading_header (record t { read_count = u32 (t.read_count + 1) }),
        read_body_of_write platform raw s t (pop_of_request platform deliver_sm raw s e refl) (
            ap (λ c. process_in platform s.current_state c raw (reschedule_enquire_link s))
              (command_of_eq smpp deliver_sm raw.cmd_id e)
            ∙ process_deliver_sm platform s.current_state raw (reschedule_enquire_link s) bound
            ∙ deliver_sm_decoded raw pdu (reschedule_enquire_link s) d
            ∙ w),
        a,
        rx,
      )

  -- A response goes out under another number than its request, if nothing waits to be written, the
  -- number of the request is no more than seq_min, and it is not the session's next number.
  pub enquire_link_misnumbered :
      (raw : RawPdu) (pdu : Pdu) (s : Session Q)
      → s.current_state ≢ closed
      → raw.cmd_id ≡ smpp.code enquire_link
      → smpp.decode enquire_link raw ≡ decoded pdu
      → is_writing platform s ≡ false
      → pdu.sequence_number ≤ smpp.seq_min
      → (next smpp s.seq_num_gen).0 ≢ pdu.sequence_number
      → (t : Session Q) × (handle_read_body platform raw success s ≡ ok t)
        × ((r : Pdu) × (t.sent ≡ r ∷ s.sent) × (r.sequence_number ≢ pdu.sequence_number))
  unfolding number_pdu response_pdu
  enquire_link_misnumbered raw pdu s ne e d idle low other =
      let (t, h, a) = enquire_link-Answers raw pdu s ne e d in
      (
        t,
        h,
        (
          (number_pdu platform (response_pdu platform enquire_link_resp pdu.sequence_number) s).0,
          ground (arith, a.how),
          ground arith,
        ),
      )
