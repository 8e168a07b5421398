-- ===== src/Daemon/Restart.antt =====
-- The daemon stopped and started again: what its persisted queues wrote is read back. That a
-- queue writes what `encode` gives of each object and reads what `decode` gives of each string, in
-- their order, is what kisscpp's persisted queues do.
use kiss_smpp.Common.{ℕ, ◌≡◌, ◌≢◌, refl, sym, ap, subst, ◌∙◌, none, some, List, [], ◌∷◌, inl, inr}
use kiss_smpp.Smpp.{Pdu, CommandId, SharedSmppPdu, decoded}
use kiss_smpp.Config.{Config, Settings}
use kiss_smpp.Config.Loads.{Reads}
use kiss_smpp.TransmitQueue.Lists.{items-clear_session_queues}
use kiss_smpp.Coder.{Coder, Restored, returned, passes_on, encode, decode}
use kiss_smpp.Coder.Stored.{decode-encode}
use kiss_smpp.Session.{Platform}
use kiss_smpp.Session.Close.{queue_name}
use kiss_smpp.Daemon.{Daemon}
use kiss_smpp.Daemon.Start.{started, start_daemon}
use kiss_smpp.Daemon.Starts.{start_daemon_lem, FindsCentre}
use Prim.Native.String.{String}

module _ {Q : Type 0} (platform : Platform Q) (coder : Coder) where
  open platform use {smpp, queue, open_queue}

  -- The PDU is of a command of the protocol, whose class reads what the PDU encodes to.
  abbrev pub Storable : Pdu → Type 0
  Storable pdu =
      (c : CommandId) × (pdu.command_id ≡ smpp.code c)
      × (coder.pdu_of c (coder.encode_pdu pdu) ≡ decoded pdu)

  -- The strings are what `encode` gives of the objects, of which none is a null pointer.
  abbrev pub Written : List SharedSmppPdu → List (List ℕ) → Type 0
  Written [] [] = Unit
  Written (some pdu ∷ q) (str ∷ strs) =
      Storable pdu × (str ≡ encode smpp coder pdu) × Written q strs
  Written _ _ = ⊥

  -- The objects are what `decode` returns of the strings.
  abbrev pub ReadBack : List SharedSmppPdu → List (List ℕ) → Type 0
  ReadBack [] [] = Unit
  ReadBack (o ∷ q) (str ∷ strs) = (decode smpp coder str ≡ returned o) × ReadBack q strs
  ReadBack _ _ = ⊥

  -- A queue before and after the restart, and the file in between.
  pub record Persisted (before after : List SharedSmppPdu) (strs : List (List ℕ)) : Type 0 where
    pub written : Written before strs
    pub read : ReadBack after strs

  abbrev object_of : SharedSmppPdu → Restored → SharedSmppPdu
  object_of other (returned o) = o
  object_of other (passes_on e) = other

  decode-Storable :
      (pdu : Pdu) → Storable pdu → decode smpp coder (encode smpp coder pdu) ≡ returned (some pdu)
  decode-Storable pdu (c, e, reads) =
      elim (decode-encode smpp coder pdu (λ d f.
        subst (λ k. coder.pdu_of k (coder.encode_pdu pdu) ≡ decoded pdu)
          (smpp.code_injective c d (sym e ∙ f)) reads)) [
            | inl (_, _, back) ↦ back
            | inr (unknown, _) ↦ absurd (unknown c e)
          ]

  read_written :
      (before after : List SharedSmppPdu) (strs : List (List ℕ))
      → Written before strs
      → ReadBack after strs
      → after ≡ before
  read_written [] [] [] w r = refl
  read_written [] (o ∷ after) [] w r = absurd r
  read_written (none ∷ before) after [] w r = absurd w
  read_written (some pdu ∷ before) after [] w r = absurd w
  read_written [] after (str ∷ strs) w r = absurd w
  read_written (none ∷ before) after (str ∷ strs) w r = absurd w
  read_written (some pdu ∷ before) [] (str ∷ strs) w r = absurd r
  read_written (some pdu ∷ before) (o ∷ after) (str ∷ strs) (storable, wrote, w) (back, r) =
      let same : o ≡ some pdu =
        ap (object_of none)
          (sym back ∙ ap (decode smpp coder) wrote ∙ decode-Storable pdu storable) in
      ap (λ x. x ∷ after) same ∙ ap (λ q. some pdu ∷ q) (read_written before after strs w r)

  -- The daemon starts again with what it had. Let four queues be persisted, each as the strings
  -- that `encode` gives, and read back by `decode`: the receive buffer, the sending buffer, the
  -- error buffer and the messages of the session's transmit queue. If they hold no null pointer and
  -- only PDUs of the protocol's commands whose classes read what they encode to, and if the
  -- configuration can be read, its throttle limit is not 0 and the resolver finds the message
  -- centre that is set, then the constructor gives a daemon with the same four queues, PDU by PDU
  -- in the old order, and with no session management PDU and no response in its transmit queue.
  pub restart_keeps :
      (cfg : Settings) (c : Config) (open_buffer : String → List SharedSmppPdu) (q : Q) (now : ℕ)
      (d : Daemon Q) (disk : String → List (List ℕ))
      → Reads cfg c
      → FindsCentre platform cfg
      → c.tx_throttle_limit ≢ 0
      → Persisted d.session.rx_q (open_buffer "recieveBuffer") (disk "recieveBuffer")
      → Persisted d.sending_buffer (open_buffer "sendingBuffer") (disk "sendingBuffer")
      → Persisted d.rcv_err_buffer (open_buffer "rcv_errBuffer") (disk "rcv_errBuffer")
      → Persisted
          (queue.items d.session.tx_q).messages
          (queue.items (open_queue (queue_name c.type_of_bind))).messages
          (disk (queue_name c.type_of_bind))
      → (d' : Daemon Q) × (start_daemon platform cfg open_buffer q now ≡ started d')
        × (d'.session.rx_q ≡ d.session.rx_q)
        × (d'.sending_buffer ≡ d.sending_buffer)
        × (d'.rcv_err_buffer ≡ d.rcv_err_buffer)
        × (queue.items d'.session.tx_q ≡ record {
          sessions = [];
          responses = [];
          messages = (queue.items d.session.tx_q).messages;
        })
  restart_keeps cfg c open_buffer q now d disk reads centre limit received sending errors messages =
      let (d', starts, _, new, sends, errs, _) =
        start_daemon_lem platform cfg c open_buffer q now reads centre limit in
      (
        d',
        starts,
        new.rx_q ∙ read_written _ _ _ received.written received.read,
        sends ∙ read_written _ _ _ sending.written sending.read,
        errs ∙ read_written _ _ _ errors.written errors.read,
        ap queue.items new.tx_q
            ∙ items-clear_session_queues queue (open_queue (queue_name c.type_of_bind))
            ∙ ap (λ m. record { sessions = []; responses = []; messages = m })
                (read_written _ _ _ messages.written messages.read),
      )
