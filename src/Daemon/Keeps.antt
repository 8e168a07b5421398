-- ===== src/Daemon/Keeps.antt =====
-- What every step of a session keeps is kept by the whole daemon.
use kiss_smpp.Common.{
  ◌≡◌, subst, Bool, true, false, Option, none, some, List, [], ◌∷◌, if◌then◌else◌,
}
use kiss_smpp.Config.{Settings}
use kiss_smpp.Session.{Platform, Session, Outcome, ok, thrown, fault}
use kiss_smpp.Session.Stable.{After, Stable}
use kiss_smpp.Session.Stable.Steps.{Step-keeps}
use kiss_smpp.Session.Stable.Closing.{stop-After}
use kiss_smpp.Session.Stable.Sending.{send_pdu_keeps}
use kiss_smpp.Daemon.{
  Daemon, Pass, did, ended, Value, Comms, answered, retryable_failure, perminant_failure,
  other_failure, hand_over, send_request, receive_from, recieve_processor, sent_to, send_from,
  sending_processor, request_of, SharedSmppPdu,
}
use kiss_smpp.Daemon.Start.{stop_daemon, stopped}
use kiss_smpp.Daemon.System.{
  Happens, in_session, receives, sends, requested, destroyed, Lives, at_first, later,
}
use Prim.Native.String.{String}

module _ {Q : Type 0} (platform : Platform Q) (P : Session Q → Type 0) where
  open platform use {smpp}

  -- The predicate holds of the session wherever the pass leaves a daemon.
  abbrev pub AfterPass : Pass Q → Type 0
  AfterPass (did d) = P d.session
  AfterPass _ = Unit

  pub AfterPass-did : (p : Pass Q) (d : Daemon Q) → p ≡ did d → AfterPass p → P d.session
  AfterPass-did p d e h = subst AfterPass e h

  if_pass : (b : Bool) (p : Pass Q) → AfterPass p → AfterPass (if b then p else ended)
  if_pass true p h = h
  if_pass false p h = tt

  sent_to-AfterPass : (d : Daemon Q) (o : Outcome Q) → After P o → AfterPass (sent_to platform d o)
  unfolding sent_to
  sent_to-AfterPass d (ok s) h = h
  sent_to-AfterPass d (thrown e s) h = tt
  sent_to-AfterPass d fault h = tt

  stopped-AfterPass : (d : Daemon Q) (o : Outcome Q) → After P o → AfterPass (stopped platform d o)
  unfolding stopped
  stopped-AfterPass d (ok s) h = h
  stopped-AfterPass d (thrown e s) h = tt
  stopped-AfterPass d fault h = tt

  -- A pass of recieveProcessor changes the session's receive queue only.
  module _
      (takes : (s : Session Q) (q : List SharedSmppPdu) → P s → P (record s { rx_q = q })) where
    hand_over-AfterPass :
        (c : Comms) (pdu : SharedSmppPdu) (d : Daemon Q)
        → P d.session
        → AfterPass (hand_over platform c pdu d)
    unfolding hand_over
    hand_over-AfterPass answered pdu d h = h
    hand_over-AfterPass retryable_failure pdu d h = takes d.session _ h
    hand_over-AfterPass perminant_failure pdu d h = h
    hand_over-AfterPass other_failure pdu d h = tt

    send_request-AfterPass :
        (client : List (String × Value) → Comms) (r : Option (List (String × Value)))
        (pdu : SharedSmppPdu) (d : Daemon Q)
        → P d.session
        → AfterPass (send_request platform client r pdu d)
    unfolding send_request
    send_request-AfterPass client none pdu d h = tt
    send_request-AfterPass client (some r) pdu d h = hand_over-AfterPass (client r) pdu d h

    receive_from-AfterPass :
        (client : List (String × Value) → Comms) (q : List SharedSmppPdu) (d : Daemon Q)
        → P d.session
        → AfterPass (receive_from platform client q d)
    unfolding receive_from
    receive_from-AfterPass client [] d h = tt
    receive_from-AfterPass client (pdu ∷ rest) d h =
        send_request-AfterPass client (request_of smpp pdu) pdu _ (takes d.session rest h)

    receiving-AfterPass :
        (client : List (String × Value) → Comms) (d : Daemon Q)
        → P d.session
        → AfterPass (recieve_processor platform client d)
    unfolding recieve_processor
    receiving-AfterPass client d h =
        if_pass d.running _ (receive_from-AfterPass client d.session.rx_q d h)

  module _ (st : Stable platform P) where
    send_from-AfterPass :
        (q : List SharedSmppPdu) (d : Daemon Q) → P d.session → AfterPass (send_from platform q d)
    unfolding send_from
    send_from-AfterPass [] d h = tt
    send_from-AfterPass (none ∷ rest) d h = h
    send_from-AfterPass (some pdu ∷ rest) d h =
        sent_to-AfterPass (record d { sending_buffer = rest }) _
          (send_pdu_keeps platform st.writes pdu d.session h)

    pub sending-AfterPass : (d : Daemon Q) → P d.session → AfterPass (sending_processor platform d)
    unfolding sending_processor
    sending-AfterPass d h = if_pass d.running _ (send_from-AfterPass d.sending_buffer d h)

    pub stop_daemon-AfterPass : (d : Daemon Q) → P d.session → AfterPass (stop_daemon platform d)
    unfolding stop_daemon
    stop_daemon-AfterPass d h =
        stopped-AfterPass (record d { running = false }) _ (stop-After platform st d.session h)

    module _ (takes : (s : Session Q) (q : List SharedSmppPdu) → P s → P (record s { rx_q = q }))
        (what : String → String) (cfg : Settings) where
      pub Happens-keeps :
          {d d' : Daemon Q} → Happens platform what cfg d d' → P d.session → P d'.session
      Happens-keeps (in_session moves) h = Step-keeps platform st moves h
      Happens-keeps (receives client e) h =
          AfterPass-did _ _ e (receiving-AfterPass takes client _ h)
      Happens-keeps (sends e) h = AfterPass-did _ _ e (sending-AfterPass _ h)
      Happens-keeps (requested request response on) h = h
      Happens-keeps (destroyed e) h = AfterPass-did _ _ e (stop_daemon-AfterPass _ h)

      pub Lives-keeps :
          {d d' : Daemon Q} → Lives platform what cfg d d' → P d.session → P d'.session
      Lives-keeps at_first h = h
      Lives-keeps (later l happens) h = Happens-keeps happens (Lives-keeps l h)
