-- ===== src/Daemon/Preserves.antt =====
-- No received message is lost as long as the daemon lives.
use kiss_smpp.Common.{
  total, total-append, Bool, true, false, if◌then◌else◌, ℕ, ◌≤◌, List, [], ◌∷◌, arith, subst, some,
  none,
}
use kiss_smpp.Smpp.{Pdu}
use kiss_smpp.Config.{Settings}
use kiss_smpp.Session.{Platform, Session, Outcome, ok, thrown, fault}
use kiss_smpp.Session.Write.{transmit, w4r_q_put}
use kiss_smpp.Session.Stable.{After, Stable}
use kiss_smpp.Session.Stable.Steps.{Step-keeps}
use kiss_smpp.Session.Stable.Closing.{stop-After}
use kiss_smpp.Session.Stable.Resend.{w4r_q_age_cleanup-After}
use kiss_smpp.Session.Stable.Sending.{send_pdu_keeps}
use kiss_smpp.Session.Stable.Transmit.{do_write-After, handle_write-After}
use kiss_smpp.Daemon.{
  Daemon, Pass, did, slept, ended, crash, sending_processor, sent_to, send_from, SharedSmppPdu,
}
use kiss_smpp.Daemon.Start.{stop_daemon, stopped}
use kiss_smpp.Daemon.System.{
  Happens, in_session, receives, sends, requested, destroyed, Lives, at_first, later,
}
use kiss_smpp.Daemon.Receives.{received, Measures, receive_processor-Measures}
use Prim.Native.String.{String}

module _ {Q : Type 0} (platform : Platform Q) where
  -- The receive queue holds as much as is said, and perhaps more.
  module _ (f : SharedSmppPdu → ℕ) (n : ℕ) where
    abbrev Holds : Session Q → Type 0
    Holds s = n ≤ total f s.rx_q

    transmit-Holds : (pdu : Pdu) (s : Session Q) → Holds s → Holds (transmit platform pdu s)
    unfolding transmit
    transmit-Holds pdu s h = ground arith

    put-Holds : (pdu : Pdu) (s : Session Q) → Holds s → Holds (w4r_q_put platform pdu s)
    unfolding w4r_q_put
    put-Holds pdu s h = ground arith

    Stable-Holds : Stable platform Holds
    Stable-Holds = record {
      flags = λ s p a b h. h;
      receives = λ s pdu h. let e = total-append f s.rx_q (some pdu ∷ []) in omega arith;
      counts = λ s n h. h;
      timers = λ s a b h. h;
      passes = λ s d h. h;
      starts = λ s t ne h. h;
      ends = λ s t rest ne taken h. h;
      numbers = λ s h. h;
      erases = λ s k h. h;
      shuts = λ s h. h;
      writes = do_write-After platform (λ s q h. h) transmit-Holds;
      written = λ s e rest taken h.
          handle_write-After platform (λ s q h. h) transmit-Holds (λ x s e h. put-Holds x s h)
            (λ s h. h) (λ s p a h. h) e _ h;
      ages = λ s n due h.
          w4r_q_age_cleanup-After platform (do_write-After platform (λ s q h. h) transmit-Holds)
            (λ s k h. h) (λ s o h. h) _ h;
    }

  module _ (f : SharedSmppPdu → ℕ) where
    -- After the pass as much is received and not lost as is said.
    abbrev LosesNone : ℕ → Pass Q → Type 0
    LosesNone n (did d) = n ≤ received platform f d
    LosesNone n _ = Unit

    if-LosesNone :
        (n : ℕ) (b : Bool) (p : Pass Q) → LosesNone n p → LosesNone n (if b then p else ended)
    if-LosesNone n true p h = h
    if-LosesNone n false p h = tt

    sent_to-LosesNone :
        (d : Daemon Q) (o : Outcome Q)
        → After (Holds f (total f d.session.rx_q)) o
        → LosesNone (received platform f d) (sent_to platform d o)
    unfolding sent_to
    sent_to-LosesNone d (ok s) h = omega arith
    sent_to-LosesNone d (thrown e s) h = tt
    sent_to-LosesNone d fault h = tt

    stopped-LosesNone :
        (d : Daemon Q) (o : Outcome Q)
        → After (Holds f (total f d.session.rx_q)) o
        → LosesNone (received platform f d) (stopped platform d o)
    unfolding stopped
    stopped-LosesNone d (ok s) h = omega arith
    stopped-LosesNone d (thrown e s) h = tt
    stopped-LosesNone d fault h = tt

    send_from-LosesNone :
        (q : List SharedSmppPdu) (d : Daemon Q)
        → LosesNone (received platform f d) (send_from platform q d)
    unfolding send_from
    send_from-LosesNone [] d = tt
    send_from-LosesNone (none ∷ rest) d = omega arith
    send_from-LosesNone (some pdu ∷ rest) d =
        sent_to-LosesNone (record d { sending_buffer = rest }) _
          (send_pdu_keeps platform (Stable-Holds f (total f d.session.rx_q)).writes pdu d.session
            (omega arith))

    sending-LosesNone :
        (d : Daemon Q) → LosesNone (received platform f d) (sending_processor platform d)
    unfolding sending_processor
    sending-LosesNone d = if-LosesNone _ d.running _ (send_from-LosesNone d.sending_buffer d)

    stop_daemon-LosesNone :
        (d : Daemon Q) → LosesNone (received platform f d) (stop_daemon platform d)
    unfolding stop_daemon
    stop_daemon-LosesNone d =
        stopped-LosesNone (record d { running = false }) _
          (stop-After platform (Stable-Holds f (total f d.session.rx_q)) d.session (omega arith))

    Measures-LosesNone : (n : ℕ) (p : Pass Q) → Measures platform f n p → LosesNone n p
    Measures-LosesNone n slept h = tt
    Measures-LosesNone n ended h = tt
    Measures-LosesNone n crash h = tt
    Measures-LosesNone n (did d) h = omega arith

    Happens-received :
        {what : String → String} {cfg : Settings} {d d' : Daemon Q}
        → Happens platform what cfg d d'
        → received platform f d ≤ received platform f d'
    Happens-received {d = d} (in_session moves) =
        let h = Step-keeps platform (Stable-Holds f (total f d.session.rx_q)) moves (omega arith) in
        omega arith
    Happens-received {d = d} (receives client e) =
        subst (LosesNone (received platform f d)) e
          (Measures-LosesNone _ _ (receive_processor-Measures platform f client d))
    Happens-received {d = d} (sends e) =
        subst (LosesNone (received platform f d)) e (sending-LosesNone d)
    Happens-received (requested request response on) = omega arith
    Happens-received {d = d} (destroyed e) =
        subst (LosesNone (received platform f d)) e (stop_daemon-LosesNone d)

    -- No received message is lost while the daemon lives: whatever the io_service, the two
    -- processors, the send handler and the destructor do, in any order, every measure of what waits
    -- in the receive buffer, lies in the error buffer or was handed over never decreases.
    pub Lives-received :
        {what : String → String} {cfg : Settings} {d d' : Daemon Q}
        → Lives platform what cfg d d'
        → received platform f d ≤ received platform f d'
    Lives-received at_first = omega arith
    Lives-received (later l happens) =
        let h = Lives-received l in let k = Happens-received happens in omega arith
