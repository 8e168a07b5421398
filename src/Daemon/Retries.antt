-- ===== src/Daemon/Retries.antt =====
-- What retryable failures do to the order of what was received.
use mathlib.Core.List.{append-nil, append_assoc}
use kiss_smpp.Common.{◌≡◌, refl, sym, ap, ◌∙◌, true, List, [], ◌∷◌, ◌++◌, length}
use kiss_smpp.Session.{Platform}
use kiss_smpp.Daemon.{
  Daemon, did, Value, Comms, retryable_failure, recieve_processor, send_request, hand_over,
  receive_from, passes, next_pass, SharedSmppPdu,
}
use kiss_smpp.Daemon.Receives.{AllRequests, with_received, recieve_processor_on}
use Prim.Native.String.{String}

module _ {Q : Type 0} (platform : Platform Q) where
  open platform use {smpp}

  -- The PDUs at the front of the receive buffer go to its end.
  rotates :
      (client : List (String × Value) → Comms) (q rest : List SharedSmppPdu) (d : Daemon Q)
      → d.running ≡ true
      → ((r : List (String × Value)) → client r ≡ retryable_failure)
      → AllRequests platform q
      → passes (recieve_processor platform client) (length q) (with_received platform (q ++ rest) d)
        ≡ did (with_received platform (rest ++ q) d)
  unfolding passes next_pass receive_from send_request hand_over
  rotates client [] rest d on fail h = rw (append-nil rest) refl
  rotates client (x ∷ xs) rest d on fail ((r, e), h) =
      rw (recieve_processor_on platform client (with_received platform (x ∷ xs ++ rest) d) on) (
        rw e (
          rw (fail r) (
            ap
              (λ q.
                passes (recieve_processor platform client) (length xs) (with_received platform q d))
              (append_assoc xs rest (x ∷ []))
            ∙ rotates client xs (rest ++ x ∷ []) d on fail h
            ∙ ap (λ q. did (with_received platform q d)) (append_assoc rest (x ∷ []) xs))))

  -- If every request fails in a way that may be retried and every PDU of the receive buffer makes a
  -- request, then in a daemon that runs as many passes as there are PDUs leave it as it was: each
  -- PDU was tried once, and they wait in their old order.
  pub retries_cycle :
      (client : List (String × Value) → Comms) (d : Daemon Q)
      → d.running ≡ true
      → ((r : List (String × Value)) → client r ≡ retryable_failure)
      → AllRequests platform d.session.rx_q
      → passes (recieve_processor platform client) (length d.session.rx_q) d ≡ did d
  retries_cycle client d on fail h =
      ap
        (λ q.
          passes (recieve_processor platform client) (length d.session.rx_q)
            (with_received platform q d))
        (sym (append-nil d.session.rx_q))
      ∙ rotates client d.session.rx_q [] d on fail h
