-- ===== src/Daemon/Receives.antt =====
-- What becomes of a message that was received.
use mathlib.Core.List.{append-nil, append_assoc}
use kiss_smpp.Common.{
  total, total-append, ℕ, zero, suc, ◌+◌, ◌≡◌, refl, ap, subst, ◌∙◌, Option, none, some, List, [],
  ◌∷◌, ◌++◌, length, arith, Bool, true, if_of_true, if◌then◌else◌, false,
}
use kiss_smpp.Session.{Platform}
use kiss_smpp.Daemon.{
  ended, Daemon, Pass, did, slept, crash, Value, Comms, answered, retryable_failure,
  perminant_failure, other_failure, request_of, recieve_processor, send_request, hand_over,
  receive_from, passes, next_pass, SharedSmppPdu,
}
use Prim.Native.String.{String}

module _ {Q : Type 0} (platform : Platform Q) where
  open platform use {smpp}

  -- What was received and is not lost: it waits, is among the errors, or was handed over.
  abbrev pub received : (SharedSmppPdu → ℕ) → Daemon Q → ℕ
  received f d = total f d.session.rx_q + total f d.rcv_err_buffer + total f d.handed

  -- After a pass that does not crash the measure of what was received is `n`.
  abbrev pub Measures : (SharedSmppPdu → ℕ) → ℕ → Pass Q → Type 0
  Measures f n (did d) = received f d ≡ n
  Measures f n _ = Unit

  hand_over-Measures :
      (f : SharedSmppPdu → ℕ) (c : Comms) (pdu : SharedSmppPdu) (d : Daemon Q)
      → Measures f (f pdu + received f d) (hand_over platform c pdu d)
  unfolding hand_over
  hand_over-Measures f answered pdu d = let h = total-append f d.handed (pdu ∷ []) in omega arith
  hand_over-Measures f retryable_failure pdu d =
      let h = total-append f d.session.rx_q (pdu ∷ []) in omega arith
  hand_over-Measures f perminant_failure pdu d =
      let h = total-append f d.rcv_err_buffer (pdu ∷ []) in omega arith
  hand_over-Measures f other_failure pdu d = tt

  send_request-Measures :
      (f : SharedSmppPdu → ℕ) (client : List (String × Value) → Comms)
      (r : Option (List (String × Value))) (pdu : SharedSmppPdu) (d : Daemon Q)
      → Measures f (f pdu + received f d) (send_request platform client r pdu d)
  unfolding send_request
  send_request-Measures f client none pdu d = tt
  send_request-Measures f client (some r) pdu d = hand_over-Measures f (client r) pdu d

  Measures-eq :
      (f : SharedSmppPdu → ℕ) (m n : ℕ) (p : Pass Q) → m ≡ n → Measures f m p → Measures f n p
  Measures-eq f m n p e h = subst (λ k. Measures f k p) e h

  receive_from-Measures :
      (f : SharedSmppPdu → ℕ) (client : List (String × Value) → Comms) (q : List SharedSmppPdu)
      (d : Daemon Q)
      → d.session.rx_q ≡ q
      → Measures f (received f d) (receive_from platform client q d)
  unfolding receive_from
  receive_from-Measures f client [] d e = tt
  receive_from-Measures f client (pdu ∷ rest) d e =
      let h = ap (total f) e in
      Measures-eq f _ _ _ (omega arith) (
        send_request-Measures f client (request_of smpp pdu) pdu
          (record d { session = record d.session { rx_q = rest } }))

  pub receive_processor-Measures :
      (f : SharedSmppPdu → ℕ) (client : List (String × Value) → Comms) (d : Daemon Q)
      → Measures f (received f d) (recieve_processor platform client d)
  unfolding recieve_processor
  receive_processor-Measures f client d =
      if_running d.running _ (receive_from-Measures f client d.session.rx_q d refl)
    where
      if_running :
          (b : Bool) (p : Pass Q)
          → Measures f (received f d) p
          → Measures f (received f d) (if b then p else ended)
      if_running true p h = h
      if_running false p h = tt

  next_pass-Measures :
      (f : SharedSmppPdu → ℕ) (n : ℕ) (p : Pass Q) (d : Daemon Q) (k : Daemon Q → Pass Q)
      → received f d ≡ n
      → Measures f n p
      → ((d' : Daemon Q) → received f d' ≡ n → Measures f n (k d'))
      → Measures f n (next_pass p d k)
  unfolding next_pass
  next_pass-Measures f n slept d k e h go = e
  next_pass-Measures f n (did d') d k e h go = go d' h
  next_pass-Measures f n ended d k e h go = e
  next_pass-Measures f n crash d k e h go = tt

  -- However the comms client answers, every pass of recieveProcessor that does not crash keeps each
  -- received PDU, as often as it was there: in the receive buffer, in the error buffer, or handed
  -- over. For every measure of PDUs, the sum over the three is the same after any number of passes.
  pub passes-Measures :
      (f : SharedSmppPdu → ℕ) (client : List (String × Value) → Comms) (n : ℕ) (d : Daemon Q)
      → Measures f (received f d) (passes (recieve_processor platform client) n d)
  unfolding passes
  passes-Measures f client zero d = refl
  passes-Measures f client (suc n) d =
      next_pass-Measures f (received f d) (recieve_processor platform client d) d
        (λ d'. passes (recieve_processor platform client) n d') refl
        (receive_processor-Measures f client d)
        (λ d' h. Measures-eq f _ _ _ h (passes-Measures f client n d'))

  -- Every PDU of the list makes a request.
  abbrev pub AllRequests : List SharedSmppPdu → Type 0
  AllRequests [] = Unit
  AllRequests (x ∷ xs) =
      ((r : List (String × Value)) × (request_of smpp x ≡ some r)) × AllRequests xs

  abbrev pub with_received : List SharedSmppPdu → Daemon Q → Daemon Q
  with_received q d = record d { session = record d.session { rx_q = q } }

  pub recieve_processor_on :
      (client : List (String × Value) → Comms) (d : Daemon Q)
      → d.running ≡ true
      → recieve_processor platform client d ≡ receive_from platform client d.session.rx_q d
  unfolding recieve_processor
  recieve_processor_on client d on = if_of_true _ _ on

  -- If every request is answered and every PDU of the receive buffer makes a request, then in a
  -- daemon that runs as many passes as there are PDUs empty the buffer and hand them over in their
  -- order; the error buffer and the buffer of the messages to send stay as they are.
  pub receive_all :
      (client : List (String × Value) → Comms) (q : List SharedSmppPdu) (d : Daemon Q)
      → d.running ≡ true
      → ((r : List (String × Value)) → client r ≡ answered)
      → AllRequests q
      → passes (recieve_processor platform client) (length q) (with_received q d)
        ≡ did (record (with_received [] d) { handed = d.handed ++ q })
  unfolding passes next_pass receive_from send_request hand_over
  receive_all client [] d on all h = rw (append-nil d.handed) refl
  receive_all client (x ∷ xs) d on all ((r, e), h) =
      rw (recieve_processor_on client (with_received (x ∷ xs) d) on) (
        rw e (
          rw (all r) (
            receive_all client xs (record d { handed = d.handed ++ x ∷ [] }) on all h
            ∙ ap (λ y. did (record (with_received [] d) { handed = y }))
                (append_assoc d.handed (x ∷ []) xs))))
