-- ===== src/Session/Binding/Unbind.antt =====
-- How a session answers the request of the message centre to unbind.
use kiss_smpp.Common.{◌≡◌, refl, ap, ◌∙◌, true, false, some, leb, if◌then◌else◌, [], inl, inr, ◌⊎◌}
use kiss_smpp.Smpp.{Pdu, RawPdu, decoded, unbind, unbind_resp}
use kiss_smpp.TransmitQueue.{response}
use kiss_smpp.Session.{
  State, bound_tx, bound_rx, bound_trx, unbound, closing, Platform, Session, ok, and_then,
}
use kiss_smpp.Session.Write.{start, number_pdu, is_bound, do_write, set_current_state}
use kiss_smpp.Session.Receive.{response_pdu, procpdu_unbind}
use kiss_smpp.Session.Process.{
  process_in, process4state_bound_tx, process4state_bound_rx, process4state_bound_trx,
}
use kiss_smpp.Session.Overlap.{Goes, Waits, do_write_lem}
use kiss_smpp.Session.Reconnect.{Closing, close_connection-Closes}
use kiss_smpp.Sequence.{next}
use kiss_smpp.Session.Close.{close_connection}
use kiss_smpp.Session.Receiving.Answer.{Answers, response-number}

module _ {Q : Type 0} (platform : Platform Q) where
  open platform use {smpp, queue}

  process_unbind :
      (p : State) (raw : RawPdu) (s : Session Q)
      → is_bound p ≡ true
      → process_in platform p (some unbind) raw s ≡ procpdu_unbind platform raw s
  unfolding process_in process4state_bound_tx process4state_bound_rx process4state_bound_trx
  process_unbind bound_tx raw s h = refl
  process_unbind bound_rx raw s h = refl
  process_unbind bound_trx raw s h = refl
  process_unbind p raw s h = cc

  -- What do_write did with the response, once the closing is started and the flags are set.
  closing-Answers :
      (r : Pdu) (s u : Session Q)
      → Goes platform r s u ⊎ Waits platform r response s u
      → Answers platform r s (start closing (record u { stop_flag = false; reconnect_flag = true }))
  closing-Answers r s u (inl goes) = record {
    how = inl (goes.was_idle, goes.out);
    state = goes.state;
    waiting = goes.map;
  }
  closing-Answers r s u (inr waits) = record {
    how = inr (waits.was_busy, ap (λ v. v.sent) waits.rest, waits.queued);
    state = ap (λ v. v.current_state) waits.rest;
    waiting = ap (λ v. v.w4r_q) waits.rest;
  }

  unbind_decoded :
      (raw : RawPdu) (pdu : Pdu) (s : Session Q)
      → smpp.decode unbind raw ≡ decoded pdu
      → procpdu_unbind platform raw s
        ≡ and_then
            (do_write platform
              (response_pdu platform unbind_resp pdu.sequence_number)
              response
              (set_current_state unbound s))
            (λ t. ok (start closing (record t { stop_flag = false; reconnect_flag = true })))
  unfolding procpdu_unbind
  unbind_decoded raw pdu s d = rw d refl

  -- A session in one of the bound states that is asked to unbind makes an unbind_resp with the
  -- number of the request, is unbound, and starts the closing of the connection, to open it again,
  -- even if it was being stopped. If nothing else waits to be written, the response goes out at
  -- once: under the number of the request if that is above seq_min, and otherwise under the
  -- session's next number. If something does, the response waits among the responses, and the
  -- closing drops it.
  pub unbind-Answers :
      (raw : RawPdu) (pdu : Pdu) (s : Session Q)
      → is_bound s.current_state ≡ true
      → smpp.decode unbind raw ≡ decoded pdu
      → (t : Session Q) × (process_in platform s.current_state (some unbind) raw s ≡ ok t)
        × Answers platform
            (response_pdu platform unbind_resp pdu.sequence_number)
            (set_current_state unbound s)
            t
        × (t.current_state ≡ unbound)
        × Closing platform false true t
        × ((number_pdu platform
              (response_pdu platform unbind_resp pdu.sequence_number)
              (set_current_state unbound s)).0.sequence_number
            ≡ (if leb pdu.sequence_number smpp.seq_min
                then (next smpp s.seq_num_gen).0
                else pdu.sequence_number))
        × ((queue.items (close_connection platform t).tx_q).responses ≡ [])
  unfolding set_current_state
  unbind-Answers raw pdu s h d =
      let (u, e, how) =
        do_write_lem platform (response_pdu platform unbind_resp pdu.sequence_number) response
          (set_current_state unbound s) in
      let a =
        closing-Answers (response_pdu platform unbind_resp pdu.sequence_number)
          (set_current_state unbound s) u how in
      (
        start closing (record u { stop_flag = false; reconnect_flag = true }),
        process_unbind s.current_state raw s h
            ∙ unbind_decoded raw pdu s d
            ∙ ap
                (λ o.
                  and_then o (λ t.
                    ok (start closing (record t { stop_flag = false; reconnect_flag = true }))))
                e,
        a,
        a.state,
        (refl, refl, (u.tasks, refl)),
        response-number platform unbind_resp pdu.sequence_number (set_current_state unbound s),
        ap (λ i. i.responses)
            (close_connection-Closes platform
              (start closing (record u { stop_flag = false; reconnect_flag = true }))).items,
      )
