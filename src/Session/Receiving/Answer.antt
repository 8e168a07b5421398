-- ===== src/Session/Receiving/Answer.antt =====
-- A PDU that is read and answered by one write: the dispatch to its handler, and the answer.
use kiss_smpp.Sequence.{next}
use kiss_smpp.Common.{
  ℕ, leb, if◌then◌else◌, ◌+◌, ◌≡◌, ◌≢◌, refl, ap, ◌∙◌, true, false, some, List, ◌∷◌, ◌⊎◌, inl, inr,
  arith, u32,
}
use kiss_smpp.Smpp.{CommandId, Pdu, RawPdu, is_response, command, enquire_link, deliver_sm}
use kiss_smpp.TransmitQueue.{response, push_items}
use kiss_smpp.Session.{
  State, bound_rx, bound_trx, closed, success, reading_header, Platform, Session, ok, SharedSmppPdu,
}
use kiss_smpp.Session.Write.{start, is_writing, number_pdu, do_write}
use kiss_smpp.Session.Timers.{reschedule_enquire_link}
use kiss_smpp.Session.Receive.{response_pdu, procpdu_enquire_link, procpdu_deliver_sm}
use kiss_smpp.Session.Process.{
  process4state, process_in, process4state_open, process4state_bound_tx, process4state_bound_rx,
  process4state_bound_trx, process4state_unbound, process4state_outbound,
}
use kiss_smpp.Session.Handlers.{handle_read_body, w4r_q_pop}
use kiss_smpp.Session.Overlap.{Goes, Waits, do_write_lem}

module _ {Q : Type 0} (platform : Platform Q) where
  open platform use {smpp, queue}

  pub process_enquire_link :
      (p : State) (raw : RawPdu) (s : Session Q)
      → p ≢ closed
      → process_in platform p (some enquire_link) raw s ≡ procpdu_enquire_link platform raw s
  unfolding process_in process4state_open process4state_bound_tx process4state_bound_rx
      process4state_bound_trx process4state_unbound process4state_outbound
  process_enquire_link closed raw s ne = absurd (ne refl)
  process_enquire_link _ raw s ne = refl

  pub process_deliver_sm :
      (p : State) (raw : RawPdu) (s : Session Q)
      → (p ≡ bound_rx) ⊎ (p ≡ bound_trx)
      → process_in platform p (some deliver_sm) raw s ≡ procpdu_deliver_sm platform raw s
  unfolding process_in process4state_bound_rx process4state_bound_trx
  process_deliver_sm p raw s (inl e) = rw e
  process_deliver_sm p raw s (inr e) = rw e

  -- The response `r` to what was read goes out at once, or waits among the responses.
  pub record Answers (r : Pdu) (s t : Session Q) : Type 0 where
    pub how :
        (is_writing platform s ≡ false) × (t.sent ≡ (number_pdu platform r s).0 ∷ s.sent)
        ⊎ (is_writing platform s ≡ true)
          × (t.sent ≡ s.sent)
          × (queue.items t.tx_q ≡ push_items (queue.items s.tx_q) r response)
    pub state : t.current_state ≡ s.current_state
    pub waiting : t.w4r_q ≡ s.w4r_q

  -- The number of a response that goes out at once.
  pub response-number :
      (c : CommandId) (n : ℕ) (s : Session Q)
      → (number_pdu platform (response_pdu platform c n) s).0.sequence_number
        ≡ (if leb n smpp.seq_min then (next smpp s.seq_num_gen).0 else n)
  unfolding number_pdu response_pdu
  response-number c n s = ground arith

  pub pop_of_request :
      (c : CommandId) (raw : RawPdu) (s : Session Q)
      → raw.cmd_id ≡ smpp.code c
      → is_response c ≡ false
      → w4r_q_pop platform raw s ≡ s
  unfolding w4r_q_pop
  pop_of_request c raw s e f = ground (arith, smpp.code_le_nack c f)

  -- One PDU read from the socket whose processing is a do_write.
  pub read_body_of_write :
      (raw : RawPdu) (s t : Session Q)
      → w4r_q_pop platform raw s ≡ s
      → process_in platform s.current_state
          (command smpp raw.cmd_id)
          raw
          (reschedule_enquire_link s)
        ≡ ok t
      → handle_read_body platform raw success s
        ≡ ok (start reading_header (record t { read_count = u32 (t.read_count + 1) }))
  unfolding handle_read_body process4state reschedule_enquire_link
  read_body_of_write raw s t e f = rw e (rw f)

  number_pdu-gen :
      (r : Pdu) (s s' : Session Q)
      → s'.seq_num_gen ≡ s.seq_num_gen
      → (number_pdu platform r s').0 ≡ (number_pdu platform r s).0
  unfolding number_pdu
  number_pdu-gen r s s' e = ground arith

  -- A response written to the session `s'`, which is `s` with its timers set and `rx` received.
  pub answer :
      (r : Pdu) (rx : List SharedSmppPdu) (s : Session Q)
      → (t : Session Q) × (do_write platform r response
            (record (reschedule_enquire_link s) { rx_q = rx })
          ≡ ok t)
        × Answers r s (start reading_header (record t { read_count = u32 (t.read_count + 1) }))
        × (t.rx_q ≡ rx)
  unfolding reschedule_enquire_link is_writing
  answer r rx s = (t, e, answers how, rx_of how)
    where
      s' : Session Q
      s' = record (reschedule_enquire_link s) { rx_q = rx }

      result :
          (t : Session Q) × (do_write platform r response s' ≡ ok t)
          × (Goes platform r s' t ⊎ Waits platform r response s' t)
      result = do_write_lem platform r response s'

      t : Session Q
      t = result.0

      e : do_write platform r response s' ≡ ok t
      e = result.1

      how : Goes platform r s' t ⊎ Waits platform r response s' t
      how = result.2

      rx_of : Goes platform r s' t ⊎ Waits platform r response s' t → t.rx_q ≡ rx
      rx_of (inl goes) = goes.received
      rx_of (inr waits) = ap (λ u. u.rx_q) waits.rest

      answers :
          Goes platform r s' t ⊎ Waits platform r response s' t
          → Answers r s (start reading_header (record t { read_count = u32 (t.read_count + 1) }))
      answers (inl goes) = record {
        how = inl (goes.was_idle, goes.out ∙ ap (λ x. x ∷ s.sent) (number_pdu-gen r s s' refl));
        state = goes.state;
        waiting = goes.map;
      }
      answers (inr waits) = record {
        how = inr (waits.was_busy, ap (λ u. u.sent) waits.rest, waits.queued);
        state = ap (λ u. u.current_state) waits.rest;
        waiting = ap (λ u. u.w4r_q) waits.rest;
      }
