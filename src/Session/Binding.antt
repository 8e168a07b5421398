-- ===== src/Session/Binding.antt =====
-- Binding, unbinding, and the exceptions of the processing of a PDU.
pub mod Unbind
use kiss_smpp.Common.{
  ◌+◌, ◌≡◌, refl, ap, ◌∙◌, true, Option, none, some, ◌⊎◌, inl, inr, arith, if◌then◌else◌, ◌==◌, u32,
}
use kiss_smpp.Smpp.{
  CommandId, RawPdu, runtime_error, command, bind_receiver_resp, bind_transceiver_resp,
  bind_transmitter_resp,
}
use kiss_smpp.Smpp.Commands.{command_of_eq}
use kiss_smpp.Session.{
  State, opened, bound_tx, bound_rx, bound_trx, outbound, success, reading_header, Platform,
  Session, Outcome, ok, thrown, and_then, catch_runtime,
}
use kiss_smpp.Session.Write.{start, set_current_state}
use kiss_smpp.Session.Timers.{reschedule_enquire_link}
use kiss_smpp.Session.Close.{close_session}
use kiss_smpp.Session.Receive.{procpdu_bind_resp}
use kiss_smpp.Session.Process.{
  process4state, process_in, process4state_open, process4state_outbound,
}
use kiss_smpp.Session.Handlers.{handle_read_body, w4r_q_pop}
use kiss_smpp.Session.Reconnect.{Closing, close_session-Closing}

-- The state that a bind response leads to.
abbrev pub bound_by : CommandId → Option State
bound_by bind_receiver_resp = some bound_rx
bound_by bind_transmitter_resp = some bound_tx
bound_by bind_transceiver_resp = some bound_trx
bound_by _ = none

module _ {Q : Type 0} (platform : Platform Q) where
  open platform use {smpp}

  process_bind_resp :
      (c : CommandId) (p q : State) (raw : RawPdu) (s : Session Q)
      → bound_by c ≡ some p
      → (q ≡ opened) ⊎ (q ≡ outbound)
      → process_in platform q (some c) raw s ≡ procpdu_bind_resp platform raw p s
  unfolding process_in process4state_open process4state_outbound
  process_bind_resp bind_receiver_resp p q raw s e (inl f) = rw f (ground arith)
  process_bind_resp bind_receiver_resp p q raw s e (inr f) = rw f (ground arith)
  process_bind_resp bind_transmitter_resp p q raw s e (inl f) = rw f (ground arith)
  process_bind_resp bind_transmitter_resp p q raw s e (inr f) = rw f (ground arith)
  process_bind_resp bind_transceiver_resp p q raw s e (inl f) = rw f (ground arith)
  process_bind_resp bind_transceiver_resp p q raw s e (inr f) = rw f (ground arith)
  process_bind_resp c p q raw s e f = cc

  bind_resp_result :
      (raw : RawPdu) (p : State) (s : Session Q)
      → procpdu_bind_resp platform raw p s
        ≡ ok (record s {
          current_state = if raw.cmd_status == smpp.esme_rok then p else s.current_state;
        })
  unfolding procpdu_bind_resp set_current_state
  bind_resp_result raw p s = ground arith

  w4r_q_pop-map :
      (raw : RawPdu) (s : Session Q)
      → w4r_q_pop platform raw s ≡ record s { w4r_q = (w4r_q_pop platform raw s).w4r_q }
  unfolding w4r_q_pop
  w4r_q_pop-map raw s = ground arith

  abbrev counted : Session Q → Outcome Q
  counted t = ok (start reading_header (record t { read_count = u32 (t.read_count + 1) }))

  -- A bind response that is read in the state OPEN or OUTBOUND leads to the bound state of its kind
  -- if its status is ESME_ROK, and otherwise leaves the state; nothing is sent either way.
  pub bind_resp_lem :
      (c : CommandId) (p : State) (raw : RawPdu) (s : Session Q)
      → bound_by c ≡ some p
      → raw.cmd_id ≡ smpp.code c
      → (s.current_state ≡ opened) ⊎ (s.current_state ≡ outbound)
      → (t : Session Q) × (handle_read_body platform raw success s ≡ ok t)
        × (t.current_state ≡ (if raw.cmd_status == smpp.esme_rok then p else s.current_state))
        × (t.sent ≡ s.sent)
        × (t.tx_q ≡ s.tx_q)
  unfolding handle_read_body process4state reschedule_enquire_link
  bind_resp_lem c p raw s b e q = (
    start reading_header (record t { read_count = u32 (t.read_count + 1) }),
    read,
    refl,
    refl,
    refl,
  )
    where
      popped : Session Q
      popped = record s { w4r_q = (w4r_q_pop platform raw s).w4r_q }

      t : Session Q
      t = record (reschedule_enquire_link popped) {
        current_state = if raw.cmd_status == smpp.esme_rok then p else s.current_state;
      }

      processed :
          process_in platform s.current_state
            (command smpp raw.cmd_id)
            raw
            (reschedule_enquire_link popped)
          ≡ ok t
      processed =
          ap (λ x. process_in platform s.current_state x raw (reschedule_enquire_link popped))
            (command_of_eq smpp c raw.cmd_id e)
          ∙ process_bind_resp c p s.current_state raw (reschedule_enquire_link popped) b q
          ∙ bind_resp_result raw p (reschedule_enquire_link popped)

      read :
          handle_read_body platform raw success s
          ≡ ok (start reading_header (record t { read_count = u32 (t.read_count + 1) }))
      read =
          ap (λ x. and_then (process4state platform raw x) counted) (w4r_q_pop-map raw s)
          ∙ ap (λ o. and_then (catch_runtime o (close_session platform true)) counted) processed

  -- Whatever std::runtime_error the processing of a PDU ends in, the session goes on: it closes the
  -- connection and opens it again, unless it is being stopped.
  pub process_error-Closing :
      (raw : RawPdu) (s u : Session Q)
      → process_in platform s.current_state
          (command smpp raw.cmd_id)
          raw
          (reschedule_enquire_link s)
        ≡ thrown runtime_error u
      → (t : Session Q) × (process4state platform raw s ≡ ok t)
        × Closing platform u.stop_flag true t
  unfolding process4state reschedule_enquire_link
  process_error-Closing raw s u e =
      let (t, f, c) = close_session-Closing platform true u in
      (t, ap (λ o. catch_runtime o (close_session platform true)) e ∙ f, c)
