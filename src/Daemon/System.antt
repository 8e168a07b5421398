-- ===== src/Daemon/System.antt =====
-- The daemon at work: the io_service of the session, the two processors, the requests of the send
-- handler and the destructor, in any order. A session handler, a pass of a processor and a request
-- are one step each; what ends in a crash or an exception is no step. The peer that takes the
-- requests of recieveProcessor may answer differently each time.
use kiss_smpp.Common.{◌≡◌, true, List}
use kiss_smpp.Config.{Settings}
use kiss_smpp.Session.{Platform, Session}
use kiss_smpp.Session.Loop.{Step}
use kiss_smpp.SendHandler.{Request, Response, run}
use kiss_smpp.Daemon.{Daemon, did, Value, Comms, recieve_processor, sending_processor}
use kiss_smpp.Daemon.Start.{stop_daemon}
use Prim.Native.String.{String}

module _ {Q : Type 0} (platform : Platform Q) (what : String → String) (cfg : Settings) where
  open platform use {smpp}

  pub data Happens (d : Daemon Q) : Daemon Q → Type 0 where
    in_session : {s : Session Q} → Step platform d.session s → Happens d (record d { session = s })
    receives :
        {d' : Daemon Q} (client : List (String × Value) → Comms)
        → recieve_processor platform client d ≡ did d'
        → Happens d d'
    sends : {d' : Daemon Q} → sending_processor platform d ≡ did d' → Happens d d'
    requested :
        (request : Request) (response : Response)
        → d.send_handler ≡ true
        → Happens d
            (record d { sending_buffer = (run smpp what cfg request d.sending_buffer response).0 })
    destroyed : {d' : Daemon Q} → stop_daemon platform d ≡ did d' → Happens d d'

  pub data Lives (d : Daemon Q) : Daemon Q → Type 0 where
    at_first : Lives d d
    later : {d' d'' : Daemon Q} → Lives d d' → Happens d' d'' → Lives d d''
