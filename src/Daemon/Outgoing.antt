-- ===== src/Daemon/Outgoing.antt =====
-- A message that the session accepted lasts, whatever the daemon does.
use kiss_smpp.Common.{
  ℕ, ◌+◌, ◌≡◌, ◌≤◌, sym, ap, subst, true, false, Option, [], ◌∷◌, inl, inr, arith, total,
  total-append, some,
}
use kiss_smpp.Smpp.{Pdu, CommandId}
use kiss_smpp.Config.{Settings}
use kiss_smpp.TransmitQueue.{message, Items, no_items}
use kiss_smpp.Session.{Platform, Session, ok}
use kiss_smpp.Session.Send.{send_pdu}
use kiss_smpp.Session.Write.{is_writing}
use kiss_smpp.Session.Overlap.{Goes, Waits}
use kiss_smpp.Session.Sending.{send_pdu_lem, permitted}
use kiss_smpp.Session.Stable.{After, After-ok}
use kiss_smpp.Session.Lossless.{outgoing, Outgoing, Stable-Outgoing, number_pdu-total, counted}
use kiss_smpp.Daemon.{Daemon}
use kiss_smpp.Daemon.System.{Lives}
use kiss_smpp.Daemon.Keeps.{Lives-keeps}
use Prim.Native.String.{String}

no_items-total : (f : Pdu → ℕ) (i : Items) → no_items i ≡ true → total (counted f) i.messages ≡ 0
no_items-total f i h = ground arith

module _ {Q : Type 0} (platform : Platform Q) (f : Pdu → ℕ) where
  open platform use {smpp, queue}

  -- push_back_last_pop loses no message.
  abbrev pub PutsBack : Type 0
  PutsBack =
      (q : Q) (o : Option Pdu)
      → total (counted f) (queue.items q).messages
        ≤ total (counted f) (queue.items (queue.push_back_last_pop q o).0).messages

  module _ (unnumbered : (pdu : Pdu) (n : ℕ) → f (record pdu { sequence_number = n }) ≡ f pdu)
      (kept : PutsBack) where
    idle-total :
        (s : Session Q)
        → is_writing platform s ≡ false
        → total (counted f) (queue.items s.tx_q).messages ≡ 0
    unfolding is_writing
    idle-total s h =
        let e : no_items (queue.items s.tx_q) ≡ true =
          ground (arith, queue.is_empty_items s.tx_q) in
        no_items-total f (queue.items s.tx_q) e

    Goes-outgoing :
        (pdu : Pdu) (s t : Session Q)
        → Goes platform pdu s t
        → f pdu + outgoing platform f s ≤ outgoing platform f t
    Goes-outgoing pdu s t g =
        let z = idle-total s g.was_idle in
        let e = number_pdu-total platform f unnumbered kept 0 pdu s in
        let h = ap (total f) g.out in omega arith

    Waits-outgoing :
        (pdu : Pdu) (s t : Session Q)
        → Waits platform pdu message s t
        → f pdu + outgoing platform f s ≤ outgoing platform f t
    Waits-outgoing pdu s t w =
        let e = ap (λ i. total (counted f) i.messages) w.queued in
        let k = total-append (counted f) (queue.items s.tx_q).messages (some pdu ∷ []) in
        let h = ap (λ u. total f u.sent) w.rest in omega arith

    -- Whatever the io_service, the processors, the send handler and the destructor do, in any
    -- order, what waits or was written does not decrease.
    Lives-outgoing :
        {what : String → String} {cfg : Settings} {d d' : Daemon Q}
        → Lives platform what cfg d d'
        → outgoing platform f d.session ≤ outgoing platform f d'.session
    Lives-outgoing {what} {cfg} {d} l =
        Lives-keeps platform (Outgoing platform f unnumbered kept (outgoing platform f d.session))
          (Stable-Outgoing platform f unnumbered kept (outgoing platform f d.session)) (λ s q h. h)
          what cfg l (omega arith)

    -- A message that the state of the session permits is not lost before it is written. If send_pdu
    -- is called with it, then whatever the io_service, the processors, the send handler and the
    -- destructor do afterwards, in any order, it waits among the messages or was written: every
    -- measure that does not look at sequence numbers is, over both together, larger by the
    -- message's than before the call, or larger still. Of the queue it is assumed that
    -- push_back_last_pop takes no message away.
    pub accepted_lasts :
        {what : String → String} {cfg : Settings} (c : CommandId) (pdu : Pdu) (d d' : Daemon Q)
        (t : Session Q)
        → pdu.command_id ≡ smpp.code c
        → permitted d.session.current_state c ≡ true
        → send_pdu platform pdu d.session ≡ ok t
        → Lives platform what cfg (record d { session = t }) d'
        → f pdu + outgoing platform f d.session ≤ outgoing platform f d'.session
    accepted_lasts c pdu d d' t g may sent l =
        let (u, e, how) = send_pdu_lem platform c pdu d.session g in
        let later = Lives-outgoing l in
        let now =
          After-ok (λ v. f pdu + outgoing platform f d.session ≤ outgoing platform f v) _ t sent
            (subst (After (λ v. f pdu + outgoing platform f d.session ≤ outgoing platform f v))
              (sym e)
              (elim how [
                | inl (_, inl goes) ↦ Goes-outgoing pdu d.session u goes
                | inl (_, inr waits) ↦ Waits-outgoing pdu d.session u waits
                | inr (denied, _) ↦ absurd (cc)
              ])) in
        omega arith
