-- ===== src/Session/Diagram/Handled.antt =====
-- What the handler of each PDU does to the state.
use kiss_smpp.Common.{◌≡◌, refl, Bool, true, false, ◌==◌, if◌then◌else◌}
use kiss_smpp.Smpp.{
  Pdu, RawPdu, Decoded, decoded, throws, unbind, enquire_link, deliver_sm, submit_sm_resp,
  enquire_link, deliver_sm, submit_sm_resp,
}
use kiss_smpp.Session.{
  State, opened, unbound, Platform, Session, Outcome, Action, and_then, ok, closing,
}
use kiss_smpp.Session.Write.{start, set_current_state, do_write}
use kiss_smpp.Session.Receive.{
  with_decoded, procpdu_bind_resp, procpdu_deliver_sm, procpdu_enquire_link,
  procpdu_enquire_link_resp, procpdu_submit_sm_resp, procpdu_unbind, procpdu_unbind_resp,
}
use kiss_smpp.TransmitQueue.{Priority}
use kiss_smpp.Session.Overlap.{do_write_lem}
use kiss_smpp.Session.Stable.{After, if_keeps, After-ok}
use kiss_smpp.Session.Diagram.{View, is_decoded}
use kiss_smpp.Session.Diagram.Writes.{Shows, do_write-Shows, close_session-Shows}

module _ {Q : Type 0} (platform : Platform Q) where
  open platform use {smpp}

  pub decoded-Shows :
      (d : Decoded) (f : Pdu → Action Q) (v w : View) (s : Session Q)
      → Shows v s
      → ((pdu : Pdu) (u : Session Q) → Shows v u → After (Shows w) (f pdu u))
      → After (Shows (if is_decoded d then w else v)) (with_decoded d f s)
  decoded-Shows (decoded pdu) f v w s h k = k pdu s h
  decoded-Shows (throws e) f v w s h k = h

  pub same_decoded-Shows :
      (d : Decoded) (f : Pdu → Action Q) (v : View) (s : Session Q)
      → Shows v s
      → ((pdu : Pdu) (u : Session Q) → Shows v u → After (Shows v) (f pdu u))
      → After (Shows v) (with_decoded d f s)
  same_decoded-Shows (decoded pdu) f v s h k = k pdu s h
  same_decoded-Shows (throws e) f v s h k = h

  pub deliver_sm-Shows :
      (raw : RawPdu) (v : View) (s : Session Q)
      → Shows v s
      → After (Shows v) (procpdu_deliver_sm platform raw s)
  unfolding procpdu_deliver_sm
  deliver_sm-Shows raw v s h =
      same_decoded-Shows (smpp.decode deliver_sm raw) _ v s h
        (λ pdu u k. do_write-Shows platform v _ _ _ k)

  pub enquire_link-Shows :
      (raw : RawPdu) (v : View) (s : Session Q)
      → Shows v s
      → After (Shows v) (procpdu_enquire_link platform raw s)
  unfolding procpdu_enquire_link
  enquire_link-Shows raw v s h =
      same_decoded-Shows (smpp.decode enquire_link raw) _ v s h
        (λ pdu u k. do_write-Shows platform v _ _ _ k)

  pub enquire_link_resp-Shows :
      (raw : RawPdu) (v : View) (s : Session Q)
      → Shows v s
      → After (Shows v) (procpdu_enquire_link_resp platform raw s)
  unfolding procpdu_enquire_link_resp
  enquire_link_resp-Shows raw v s h = h

  pub submit_sm_resp-Shows :
      (raw : RawPdu) (v : View) (s : Session Q)
      → Shows v s
      → After (Shows v) (procpdu_submit_sm_resp platform raw s)
  unfolding procpdu_submit_sm_resp
  submit_sm_resp-Shows raw v s h =
      if_keeps (Shows v) (raw.cmd_status == smpp.esme_rok) _ _
        (same_decoded-Shows (smpp.decode submit_sm_resp raw) _ v s h (λ pdu u k. k)) h

  pub bind_resp-Shows :
      (p : State) (raw : RawPdu) (v : View) (s : Session Q)
      → Shows v s
      → After
          (Shows (if raw.cmd_status == smpp.esme_rok then record v { state = p } else v))
          (procpdu_bind_resp platform raw p s)
  unfolding procpdu_bind_resp set_current_state
  bind_resp-Shows p raw v s h = split (raw.cmd_status == smpp.esme_rok)
    where
      split :
          (b : Bool)
          → After
              (Shows (if b then record v { state = p } else v))
              (if b then Outcome.ok (record s { current_state = p }) else Outcome.ok s)
      split true = (refl, h.1)
      split false = h

  pub unbound_write-Shows :
      (r : Pdu) (p : Priority) (s : Session Q)
      → s.current_state ≡ unbound
      → After (Shows (record { state = unbound; stopping = false })) (
          and_then
            (do_write platform r p s)
            (λ t. ok (start closing (record t { stop_flag = false; reconnect_flag = true }))))
  unbound_write-Shows r p s h =
      let v : View = record { state = unbound; stopping = s.stop_flag } in
      let (t, e, _) = do_write_lem platform r p s in
      rw e ((After-ok (Shows v) _ t e (do_write-Shows platform v r p s (h, refl))).0, refl)

  pub unbind-Shows :
      (raw : RawPdu) (v : View) (s : Session Q)
      → Shows v s
      → After
          (Shows (
            if is_decoded (smpp.decode unbind raw)
            then record { state = unbound; stopping = false }
            else v))
          (procpdu_unbind platform raw s)
  unfolding procpdu_unbind set_current_state
  unbind-Shows raw v s h =
      decoded-Shows (smpp.decode unbind raw) _ v (record { state = unbound; stopping = false }) s h
        (λ pdu u k. unbound_write-Shows _ _ _ refl)

  pub unbind_resp-Shows :
      (raw : RawPdu) (v : View) (s : Session Q)
      → Shows v s
      → After (Shows (record v { state = opened })) (procpdu_unbind_resp platform raw s)
  unfolding procpdu_unbind_resp set_current_state
  unbind_resp-Shows raw v s h = close_session-Shows platform _ false _ (refl, h.1)
