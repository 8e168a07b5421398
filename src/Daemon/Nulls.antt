-- ===== src/Daemon/Nulls.antt =====
-- Null pointers in the buffers of the daemon: recieveProcessor uses them, sendingProcessor tests
-- for them.
use mathlib.Core.List.{append_assoc}
use kiss_smpp.Common.{
  suc, ◌≡◌, refl, ap, ◌∙◌, true, Option, none, some, List, [], ◌∷◌, ◌++◌, length, ℕ,
}
use kiss_smpp.Smpp.{SharedSmppPdu}
use kiss_smpp.Session.{Platform, Outcome, ok, thrown, fault}
use kiss_smpp.Session.Send.{send_pdu}
use kiss_smpp.Daemon.{
  Daemon, crash, Value, Comms, answered, retryable_failure, perminant_failure, other_failure,
  request_of, recieve_processor, receive_from, send_request, hand_over, sending_processor,
  send_from, sent_to, passes, next_pass, smpp2ptree, Session,
}
use kiss_smpp.Daemon.Receives.{with_received, recieve_processor_on}
use kiss_smpp.Daemon.Sends.{sending_processor_on}
use Prim.Native.String.{String}

-- The PDUs of a buffer, less its null pointers.
abbrev pub non_null : List SharedSmppPdu → List SharedSmppPdu
non_null [] = []
non_null (none ∷ q) = non_null q
non_null (some pdu ∷ q) = some pdu ∷ non_null q

module _ {Q : Type 0} (platform : Platform Q) where
  open platform use {smpp}

  -- A pass over a PDU before a null pointer: wherever the PDU goes, the null pointer is one nearer.
  request_before :
      (client : List (String × Value) → Comms) (n : ℕ) (x : SharedSmppPdu)
      (q rest : List SharedSmppPdu) (d d' : Daemon Q) (r : Option (List (String × Value)))
      → ((e : Daemon Q) (more : List SharedSmppPdu)
          → e.running ≡ d.running
          → passes
              (recieve_processor platform client)
              n
              (with_received platform (q ++ none ∷ more) e)
            ≡ crash)
      → next_pass
          (send_request platform client r x (with_received platform (q ++ none ∷ rest) d))
          d'
          (λ e. passes (recieve_processor platform client) n e)
        ≡ crash
  unfolding next_pass send_request hand_over
  request_before client n x q rest d d' none h = refl
  request_before client n x q rest d d' (some r) h = answer (client r)
    where
      answer :
          (c : Comms)
          → next_pass
              (hand_over platform c x (with_received platform (q ++ none ∷ rest) d))
              d'
              (λ e. passes (recieve_processor platform client) n e)
            ≡ crash
      answer answered = h (record d { handed = d.handed ++ x ∷ [] }) rest refl
      answer retryable_failure =
          ap (λ y. passes (recieve_processor platform client) n (with_received platform y d))
            (append_assoc q (none ∷ rest) (x ∷ []))
          ∙ h d (rest ++ x ∷ []) refl
      answer perminant_failure =
          h (record d { rcv_err_buffer = d.rcv_err_buffer ++ x ∷ [] }) rest refl
      answer other_failure = refl

  crashes_behind :
      (client : List (String × Value) → Comms) (q rest : List SharedSmppPdu) (d : Daemon Q)
      → d.running ≡ true
      → passes
          (recieve_processor platform client)
          (suc (length q))
          (with_received platform (q ++ none ∷ rest) d)
        ≡ crash
  unfolding passes receive_from next_pass send_request request_of smpp2ptree
  crashes_behind client [] rest d on =
      rw (recieve_processor_on platform client (with_received platform (none ∷ rest) d) on) refl
  crashes_behind client (x ∷ xs) rest d on =
      rw
        (recieve_processor_on platform client (with_received platform (x ∷ xs ++ none ∷ rest) d) on)
        (request_before client (suc (length xs)) x xs rest d _ (request_of smpp x)
          (λ e more same. crashes_behind client xs more e (same ∙ on)))

  -- A null pointer in the receive buffer crashes the daemon. Whatever the other server answers, if
  -- the daemon runs, recieveProcessor crashes at the latest when it has tried the PDUs before the
  -- null pointer.
  pub null_crashes :
      (client : List (String × Value) → Comms) (q rest : List SharedSmppPdu) (d : Daemon Q)
      → d.running ≡ true
      → d.session.rx_q ≡ q ++ none ∷ rest
      → passes (recieve_processor platform client) (suc (length q)) d ≡ crash
  null_crashes client q rest d on e =
      ap
        (λ x.
          passes (recieve_processor platform client) (suc (length q)) (with_received platform x d))
        e
      ∙ crashes_behind client q rest d on

  -- Two buffers behind a PDU that is sent.
  sent_alike :
      (q q' : List SharedSmppPdu) (d e e' : Daemon Q) (m n : ℕ) (o : Outcome Q)
      → ((s : Session Q)
          → passes (sending_processor platform) m (record d { sending_buffer = q; session = s })
            ≡ passes (sending_processor platform) n (record d { sending_buffer = q'; session = s }))
      → next_pass
          (sent_to platform (record d { sending_buffer = q }) o)
          e
          (λ x. passes (sending_processor platform) m x)
        ≡ next_pass
            (sent_to platform (record d { sending_buffer = q' }) o)
            e'
            (λ x. passes (sending_processor platform) n x)
  unfolding next_pass sent_to
  sent_alike q q' d e e' m n (ok s) h = h s
  sent_alike q q' d e e' m n (thrown x s) h = refl
  sent_alike q q' d e e' m n fault h = refl

  -- Null pointers in the sending buffer have no effect. In a daemon that runs, as many passes of
  -- sendingProcessor as the buffer is long end like those that its PDUs take when there are no null
  -- pointers among them.
  pub sending-non_null :
      (q : List SharedSmppPdu) (d : Daemon Q)
      → d.running ≡ true
      → passes (sending_processor platform) (length q) (record d { sending_buffer = q })
        ≡ passes
            (sending_processor platform)
            (length (non_null q))
            (record d { sending_buffer = non_null q })
  unfolding passes send_from next_pass sent_to
  sending-non_null [] d on = refl
  sending-non_null (none ∷ q) d on =
      rw (sending_processor_on platform (record d { sending_buffer = none ∷ q }) on)
        (sending-non_null q d on)
  sending-non_null (some pdu ∷ q) d on =
      rw (sending_processor_on platform (record d { sending_buffer = some pdu ∷ q }) on) (
        rw (sending_processor_on platform (record d { sending_buffer = some pdu ∷ non_null q }) on)
          (sent_alike q (non_null q) d _ _ (length q) (length (non_null q))
            (send_pdu platform pdu d.session)
            (λ s. sending-non_null q (record d { session = s }) on)))
