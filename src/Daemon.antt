-- ===== src/Daemon.antt =====
-- ksmppc/src/ksmppc.cpp: the two processors of the daemon, one pass of each loop as a step, and the
-- request that a received message becomes. The receive buffer is the queue that the session fills;
-- a buffer may hold null pointers, as SmppPduBase64Bicoder::decode leaves them. The comms client of
-- kisscpp is a parameter: what becomes of a request that is sent.
pub mod Start
pub mod Starts
pub mod Works
pub mod Restart
pub mod Stuck
pub mod Ends
pub mod System
pub mod Keeps
pub mod Lasts
pub mod Preserves
pub mod Receives
pub mod Forwards
pub mod Retries
pub mod Sends
pub mod Nulls
pub mod Delivers
pub mod Outgoing
use kiss_smpp.Common.{
  ℕ, zero, suc, Bool, true, false, Option, none, some, List, [], ◌∷◌, ◌++◌, if◌then◌else◌,
}
use kiss_smpp.Smpp.{
  Smpp, Pdu, CommandId, Body, opaque, bind_body, message_body, MessageFields, deliver_sm, data_sm,
  command, SharedSmppPdu,
}
use kiss_smpp.Config.{BindType, rx, tx, trx}
use kiss_smpp.Session.{Platform, Session, Outcome, ok, thrown, fault}
use kiss_smpp.Session.Send.{send_pdu}
use Prim.Native.String.{String}

-- What `put` puts at a key of a property tree
pub data Value : Type 0 where
  text : String → Value
  number : ℕ → Value

pub data Comms : Type 0 where
  answered retryable_failure perminant_failure other_failure : Comms

-- The members of ksmppc: `send_handler` tells whether sendHandler is set. `handed` are the PDUs
-- whose request was answered, the latest last.
pub record Daemon (Q : Type 0) : Type 0 where
  pub running : Bool
  pub send_handler : Bool
  pub sending_buffer : List SharedSmppPdu
  pub rcv_err_buffer : List SharedSmppPdu
  pub session : Session Q
  pub handed : List SharedSmppPdu

-- How a pass of a processor ends: it found nothing and slept, did its work, or found that the
-- daemon no longer runs and ended its loop; `crash` is the use of a null pointer or an exception
-- that no handler takes.
pub data Pass (Q : Type 0) : Type 0 where
  slept ended : Pass Q
  did : Daemon Q → Pass Q
  crash : Pass Q

-- deliverSm2Ptree; `none` where the PDU is of another class, so that the cast gives a null pointer.
unfoldable pub deliver_sm2ptree : Pdu → Option (List (String × Value))
deliver_sm2ptree pdu = fields_of pdu.body
  where
    fields_of : Body → Option (List (String × Value))
    fields_of (message_body f) = some (
        ("service-type", text f.service_type)
        ∷ ("source-addr", text f.source_address)
        ∷ ("destination-addr", text f.destination_address)
        ∷ ("esm-class", number f.esm_class)
        ∷ ("protocol-id", number f.protocol_id)
        ∷ ("priority-flag", number f.priority_flag)
        ∷ ("schedule-delivery-time", text f.schedule_delivery_time)
        ∷ ("validity-period", text f.validity_period)
        ∷ ("registered-delivery", number f.registered_delivery)
        ∷ ("replace-if-present-flag", number f.replace_if_present_flag)
        ∷ ("data-coding", number f.data_coding)
        ∷ ("sm-default-msg-id", number f.sm_default_msg_id)
        ∷ ("short-message", text f.short_message)
        ∷ [])
    fields_of _ = none

-- smpp2ptree; dataSm2Ptree puts nothing, and a null pointer is dereferenced.
unfoldable pub smpp2ptree : Smpp → SharedSmppPdu → Option (List (String × Value))
smpp2ptree smpp none = none
smpp2ptree smpp (some pdu) = by_command (command smpp pdu.command_id)
  where
    by_command : Option CommandId → Option (List (String × Value))
    by_command (some deliver_sm) = deliver_sm2ptree pdu
    by_command _ = some []

-- The request of recieveProcessor
unfoldable pub request_of : Smpp → SharedSmppPdu → Option (List (String × Value))
request_of smpp pdu = addressed (smpp2ptree smpp pdu)
  where
    addressed : Option (List (String × Value)) → Option (List (String × Value))
    addressed none = none
    addressed (some pt) = some (
        pt
        ++ ("kcm-cmd", text "smppin")
          ∷ ("kcm-hst", text "localhost")
          ∷ ("kcm-prt", text "9100")
          ∷ [])

module _ {Q : Type 0} (platform : Platform Q) where
  open platform use {smpp}

  -- The `try` block of recieveProcessor and its two handlers, for a PDU that was taken from the
  -- receive buffer.
  unfoldable pub hand_over : Comms → SharedSmppPdu → Daemon Q → Pass Q
  hand_over answered pdu d = did (record d { handed = d.handed ++ pdu ∷ [] })
  hand_over retryable_failure pdu d =
      did (record d { session = record d.session { rx_q = d.session.rx_q ++ pdu ∷ [] } })
  hand_over perminant_failure pdu d =
      did (record d { rcv_err_buffer = d.rcv_err_buffer ++ pdu ∷ [] })
  hand_over other_failure pdu d = crash

  unfoldable pub send_request :
      (List (String × Value) → Comms)
      → Option (List (String × Value))
      → SharedSmppPdu
      → Daemon Q
      → Pass Q
  send_request client none pdu d = crash
  send_request client (some request) pdu d = hand_over (client request) pdu d

  unfoldable pub receive_from :
      (List (String × Value) → Comms) → List SharedSmppPdu → Daemon Q → Pass Q
  receive_from client [] d = slept
  receive_from client (pdu ∷ rest) d =
      send_request client (request_of smpp pdu) pdu
        (record d { session = record d.session { rx_q = rest } })

  -- One pass of recieveProcessor
  unfoldable pub recieve_processor : (List (String × Value) → Comms) → Daemon Q → Pass Q
  unfolding receive_from
  recieve_processor client d = if d.running then receive_from client d.session.rx_q d else ended

  unfoldable pub sent_to : Daemon Q → Outcome Q → Pass Q
  sent_to d (ok s) = did (record d { session = s })
  sent_to d (thrown e s) = crash
  sent_to d fault = crash

  unfoldable pub send_from : List SharedSmppPdu → Daemon Q → Pass Q
  unfolding sent_to
  send_from [] d = slept
  send_from (none ∷ rest) d = did (record d { sending_buffer = rest })
  send_from (some pdu ∷ rest) d =
      sent_to (record d { sending_buffer = rest }) (send_pdu platform pdu d.session)

  -- One pass of sendingProcessor
  unfoldable pub sending_processor : Daemon Q → Pass Q
  unfolding send_from
  sending_processor d = if d.running then send_from d.sending_buffer d else ended

module _ {Q : Type 0} where
  unfoldable pub next_pass : Pass Q → Daemon Q → (Daemon Q → Pass Q) → Pass Q
  next_pass (did d') d k = k d'
  next_pass slept d k = did d
  next_pass ended d k = did d
  next_pass crash d k = crash

  -- A number of passes, each from where the one before it ended, up to one that finds nothing to
  -- do.
  unfoldable pub passes : (Daemon Q → Pass Q) → ℕ → Daemon Q → Pass Q
  passes f zero d = did d
  passes f (suc n) d = next_pass (f d) d (λ d'. passes f n d')

-- registerHandlers: whether a send handler is made.
unfoldable pub has_send_handler : BindType → Bool
has_send_handler rx = false
has_send_handler _ = true
