-- ===== src/Daemon/Forwards.antt =====
-- From the socket to the other server: the read of a deliver_sm and recieveProcessor together.
use kiss_smpp.Common.{
  leb, if◌then◌else◌, suc, ◌≡◌, refl, sym, ap, ◌∙◌, true, some, List, [], ◌∷◌, ◌++◌, length, ◌⊎◌,
}
use kiss_smpp.Smpp.{Pdu, RawPdu, deliver_sm, deliver_sm_resp, decoded}
use kiss_smpp.Session.{success, bound_rx, bound_trx, Platform, Session, ok}
use kiss_smpp.Session.Receive.{response_pdu}
use kiss_smpp.Session.Handlers.{handle_read_body}
use kiss_smpp.Session.Receiving.{deliver_sm-Answers}
use kiss_smpp.Session.Receiving.Answer.{Answers, response-number}
use kiss_smpp.Sequence.{next}
use kiss_smpp.Session.Write.{number_pdu}
use kiss_smpp.Daemon.{
  Daemon, did, Value, Comms, answered, request_of, recieve_processor, passes, SharedSmppPdu,
}
use kiss_smpp.Daemon.Receives.{AllRequests, with_received, receive_all}
use Prim.Native.String.{String}

length-snoc :
    (q : List SharedSmppPdu) (pdu : SharedSmppPdu) → length (q ++ pdu ∷ []) ≡ suc (length q)
length-snoc [] pdu = refl
length-snoc (x ∷ q) pdu = ap suc (length-snoc q pdu)

module _ {Q : Type 0} (platform : Platform Q) where
  open platform use {smpp}

  AllRequests-snoc :
      (q : List SharedSmppPdu) (pdu : SharedSmppPdu)
      → AllRequests platform q
      → (r : List (String × Value)) × (request_of smpp pdu ≡ some r)
      → AllRequests platform (q ++ pdu ∷ [])
  AllRequests-snoc [] pdu h r = (r, tt)
  AllRequests-snoc (x ∷ q) pdu (k, h) r = (k, AllRequests-snoc q pdu h r)

  -- A deliver_sm that a receiver or a transceiver reads is answered and forwarded. A
  -- deliver_sm_resp with its number and the status ESME_ROK waits among the responses if something
  -- else waits to be written; otherwise it goes out at once, under the number of the deliver_sm if
  -- that is above seq_min, and under the session's next number if it is not. The message is
  -- forwarded: if the daemon runs, the PDU and those that were received before it make requests and
  -- the other server answers, then as many passes of recieveProcessor as there are PDUs empty the
  -- receive buffer and hand over all of them in their order, the new one last.
  pub deliver_sm_forwarded :
      (client : List (String × Value) → Comms) (raw : RawPdu) (pdu : Pdu) (d : Daemon Q)
      → d.running ≡ true
      → (d.session.current_state ≡ bound_rx) ⊎ (d.session.current_state ≡ bound_trx)
      → raw.cmd_id ≡ smpp.code deliver_sm
      → smpp.decode deliver_sm raw ≡ decoded pdu
      → ((r : List (String × Value)) → client r ≡ answered)
      → AllRequests platform d.session.rx_q
      → (r : List (String × Value)) × (request_of smpp (some pdu) ≡ some r)
      → (t : Session Q) × (handle_read_body platform raw success d.session ≡ ok t)
        × Answers platform (response_pdu platform deliver_sm_resp pdu.sequence_number) d.session t
        × ((number_pdu platform
              (response_pdu platform deliver_sm_resp pdu.sequence_number)
              d.session).0.sequence_number
            ≡ (if leb pdu.sequence_number smpp.seq_min
                then (next smpp d.session.seq_num_gen).0
                else pdu.sequence_number))
        × (passes
              (recieve_processor platform client)
              (suc (length d.session.rx_q))
              (record d { session = t })
            ≡ did (record d {
              session = record t { rx_q = [] };
              handed = d.handed ++ (d.session.rx_q ++ some pdu ∷ []);
            }))
  deliver_sm_forwarded client raw pdu d on bound e decodes all h r =
      let (t, read, answers, rx) = deliver_sm-Answers platform raw pdu d.session bound e decodes in
      let q = d.session.rx_q ++ some pdu ∷ [] in
      (
        t,
        read,
        answers,
        response-number platform deliver_sm_resp pdu.sequence_number d.session,
        ap (λ n. passes (recieve_processor platform client) n (record d { session = t }))
              (sym (length-snoc d.session.rx_q (some pdu)))
            ∙ ap
                (λ x.
                  passes (recieve_processor platform client) (length q)
                    (with_received platform x (record d { session = t })))
                rx
            ∙ receive_all platform client q (record d { session = t }) on all
                (AllRequests-snoc d.session.rx_q (some pdu) h r),
      )
