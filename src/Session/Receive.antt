-- ===== src/Session/Receive.antt =====
-- What a PDU that was read does to the session: the procpdu_ functions of
-- ksmppc/src/session_manager.cpp. The ones whose bodies say "not supported yet" do nothing.
use kiss_smpp.Common.{ℕ, ◌==◌, true, false, none, [], ◌∷◌, ◌++◌, if◌then◌else◌, some}
use kiss_smpp.Smpp.{
  CommandId, Pdu, RawPdu, Decoded, decoded, throws, enquire_link, enquire_link_resp, deliver_sm,
  deliver_sm_resp, submit_sm_resp, unbind, unbind_resp,
}
use kiss_smpp.TransmitQueue.{response}
use kiss_smpp.Session.{State, opened, unbound, closing, Platform, ok, thrown, Action, and_then}
use kiss_smpp.Session.Write.{start, set_current_state, do_write}
use kiss_smpp.Session.Close.{close_session}

-- Construction from bytes gives a PDU, or throws before anything else happens.
abbrev pub with_decoded : {Q : Type 0} → Decoded → (Pdu → Action Q) → Action Q
with_decoded (decoded pdu) f s = f pdu s
with_decoded (throws e) f s = thrown e s

module _ {Q : Type 0} where
  unfoldable pub procpdu_alert_notification : RawPdu → Action Q
  procpdu_alert_notification raw s = ok s

  unfoldable pub procpdu_broadcast_sm_resp : RawPdu → Action Q
  procpdu_broadcast_sm_resp raw s = ok s

  unfoldable pub procpdu_cancel_broadcast_sm_resp : RawPdu → Action Q
  procpdu_cancel_broadcast_sm_resp raw s = ok s

  unfoldable pub procpdu_cancel_sm_resp : RawPdu → Action Q
  procpdu_cancel_sm_resp raw s = ok s

  unfoldable pub procpdu_data_sm : RawPdu → Action Q
  procpdu_data_sm raw s = ok s

  unfoldable pub procpdu_data_sm_resp : RawPdu → Action Q
  procpdu_data_sm_resp raw s = ok s

  unfoldable pub procpdu_generic_nack : RawPdu → Action Q
  procpdu_generic_nack raw s = ok s

  unfoldable pub procpdu_query_broadcast_sm_resp : RawPdu → Action Q
  procpdu_query_broadcast_sm_resp raw s = ok s

  unfoldable pub procpdu_query_sm_resp : RawPdu → Action Q
  procpdu_query_sm_resp raw s = ok s

  unfoldable pub procpdu_replace_sm_resp : RawPdu → Action Q
  procpdu_replace_sm_resp raw s = ok s

  unfoldable pub procpdu_submit_multi_resp : RawPdu → Action Q
  procpdu_submit_multi_resp raw s = ok s

module _ {Q : Type 0} (platform : Platform Q) where
  open platform use {smpp}

  unfoldable pub procpdu_bind_resp : RawPdu → State → Action Q
  procpdu_bind_resp raw state_after_success s =
      if raw.cmd_status == smpp.esme_rok then ok (set_current_state state_after_success s) else ok s

  -- A response of the class of `c` with a given number, and the status ESME_ROK.
  unfoldable pub response_pdu : CommandId → ℕ → Pdu
  response_pdu c n = record (smpp.create c) { command_status = smpp.esme_rok; sequence_number = n }

  unfoldable pub procpdu_deliver_sm : RawPdu → Action Q
  procpdu_deliver_sm raw = with_decoded (smpp.decode deliver_sm raw) λ pdu s.
      do_write platform (response_pdu deliver_sm_resp pdu.sequence_number) response
        (record s { rx_q = s.rx_q ++ some pdu ∷ [] })

  unfoldable pub procpdu_enquire_link : RawPdu → Action Q
  procpdu_enquire_link raw =
      with_decoded (smpp.decode enquire_link raw)
        λ pdu s. do_write platform (response_pdu enquire_link_resp pdu.sequence_number) response s

  unfoldable pub procpdu_enquire_link_resp : RawPdu → Action Q
  procpdu_enquire_link_resp raw s = ok (record s { enquire_link_response_timer = none })

  unfoldable pub procpdu_submit_sm_resp : RawPdu → Action Q
  procpdu_submit_sm_resp raw s =
      if raw.cmd_status == smpp.esme_rok
      then with_decoded (smpp.decode submit_sm_resp raw) (λ pdu t. ok t) s
      else ok s

  unfoldable pub procpdu_unbind : RawPdu → Action Q
  procpdu_unbind raw = with_decoded (smpp.decode unbind raw) λ pdu s.
      and_then
        (do_write platform (response_pdu unbind_resp pdu.sequence_number) response
          (set_current_state unbound s))
        (λ t. ok (start closing (record t { stop_flag = false; reconnect_flag = true })))

  unfoldable pub procpdu_unbind_resp : RawPdu → Action Q
  procpdu_unbind_resp raw s = close_session platform false (set_current_state opened s)
