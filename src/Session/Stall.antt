-- ===== src/Session/Stall.antt =====
-- A session that has messages waiting and no write under way never writes again: do_write takes a
-- queue that is not empty for a write in progress, only handle_write goes on with the queue, and
-- closing the connection leaves the messages in it.
use kiss_smpp.Common.{◌≡◌, refl, sym, subst, List, arith}
use kiss_smpp.Smpp.{Pdu}
use kiss_smpp.TransmitQueue.{Priority}
use kiss_smpp.TransmitQueue.Lists.{
  HasMessages, HasMessages-is_empty, push-HasMessages, clear-HasMessages,
}
use kiss_smpp.Session.{writing, Platform, Session, ok}
use kiss_smpp.Session.Write.{do_write}
use kiss_smpp.Session.Loop.{Reach}
use kiss_smpp.Session.Tasks.{in_flight, Takes-in_flight, weight_of_ne}
use kiss_smpp.Session.Stable.{After, Stable}
use kiss_smpp.Session.Stable.Resend.{w4r_q_age_cleanup-After}
use kiss_smpp.Session.Stable.Steps.{Reach-keeps}

module _ {Q : Type 0} (platform : Platform Q) where
  open platform use {queue}

  pub record IsStalled (s : Session Q) : Type 0 where
    pub backlog : HasMessages queue s.tx_q
    pub idle : in_flight s.tasks ≡ 0

  -- Stalled, with a given record of what was written.
  abbrev pub StalledAt : List Pdu → Session Q → Type 0
  StalledAt out s = (HasMessages queue s.tx_q) × (in_flight s.tasks ≡ 0) × (s.sent ≡ out)

  do_write_stalled :
      (pdu : Pdu) (p : Priority) (s : Session Q)
      → HasMessages queue s.tx_q
      → do_write platform pdu p s ≡ ok (record s { tx_q = queue.push s.tx_q pdu p })
  unfolding do_write
  do_write_stalled pdu p s h = rw (HasMessages-is_empty queue s.tx_q h)

  do_write-StalledAt :
      (out : List Pdu) (s : Session Q) (pdu : Pdu) (p : Priority)
      → StalledAt out s
      → After (StalledAt out) (do_write platform pdu p s)
  do_write-StalledAt out s pdu p h =
      subst (After (StalledAt out)) (sym (do_write_stalled pdu p s h.0))
        (push-HasMessages queue s.tx_q pdu p h.0, h.1, h.2)

  pub Stable-StalledAt : (out : List Pdu) → Stable platform (StalledAt out)
  Stable-StalledAt out = record {
    flags = λ s p a b h. h;
    receives = λ s pdu h. h;
    counts = λ s n h. h;
    timers = λ s a b h. h;
    passes = λ s d h. h;
    starts = λ s t ne h. (h.0, omega (arith, weight_of_ne t ne, h.1), h.2);
    ends = λ s t rest ne taken h. (h.0, omega (arith, Takes-in_flight t taken, h.1), h.2);
    numbers = λ s h. h;
    erases = λ s k h. h;
    shuts = λ s h. (clear-HasMessages queue s.tx_q h.0, h.1, h.2);
    writes = do_write-StalledAt out;
    written = λ s e rest taken h. absurd (omega (arith, Takes-in_flight writing taken, h.1));
    ages = λ s n due h.
        w4r_q_age_cleanup-After platform (do_write-StalledAt out) (λ s k h. h) (λ s o h. h) _ h;
  }

  -- From a stalled session, whatever happens on the io_service and whoever calls send_pdu, every
  -- session that is reached is stalled and has written nothing more.
  pub Reach-IsStalled :
      (s t : Session Q) → IsStalled s → Reach platform s t → IsStalled t × (t.sent ≡ s.sent)
  Reach-IsStalled s t h r = (record { backlog = all.0; idle = all.1 }, all.2)
    where
      all : StalledAt s.sent t
      all = Reach-keeps platform (Stable-StalledAt s.sent) r (h.backlog, h.idle, refl)
