-- ===== src/Session/Ageing.antt =====
-- The ageing of the map w4rQ ends for good: nothing sets its timer once it waits for nothing.
use kiss_smpp.Common.{◌≡◌, refl, none, arith}
use kiss_smpp.Smpp.{Pdu}
use kiss_smpp.Session.{Platform, Session}
use kiss_smpp.Session.Write.{transmit, w4r_q_put}
use kiss_smpp.Session.Loop.{Reach}
use kiss_smpp.Session.Stable.{Stable}
use kiss_smpp.Session.Stable.Steps.{Reach-keeps}
use kiss_smpp.Session.Stable.Transmit.{do_write-After, handle_write-After}

module _ {Q : Type 0} (platform : Platform Q) where
  abbrev NotAgeing : Session Q → Type 0
  NotAgeing s = s.ageing_timer ≡ none

  transmit-NotAgeing :
      (pdu : Pdu) (s : Session Q) → NotAgeing s → NotAgeing (transmit platform pdu s)
  unfolding transmit
  transmit-NotAgeing pdu s h = ground arith

  put-NotAgeing : (pdu : Pdu) (s : Session Q) → NotAgeing s → NotAgeing (w4r_q_put platform pdu s)
  unfolding w4r_q_put
  put-NotAgeing pdu s h = ground arith

  Stable-NotAgeing : Stable platform NotAgeing
  Stable-NotAgeing = record {
    flags = λ s p a b h. h;
    receives = λ s pdu h. h;
    counts = λ s n h. h;
    timers = λ s a b h. h;
    passes = λ s d h. h;
    starts = λ s t ne h. h;
    ends = λ s t rest ne taken h. h;
    numbers = λ s h. h;
    erases = λ s k h. h;
    shuts = λ s h. refl;
    writes = do_write-After platform (λ s q h. h) transmit-NotAgeing;
    written = λ s e rest taken h.
        handle_write-After platform (λ s q h. h) transmit-NotAgeing (λ x s e h. put-NotAgeing x s h)
          (λ s h. h) (λ s p a h. h) e _ h;
    ages = λ s n due h. cc;
  }

  -- Once the ageing timer waits for nothing, it does so in every session that is reached.
  pub Reach-NotAgeing :
      (s t : Session Q) → s.ageing_timer ≡ none → Reach platform s t → t.ageing_timer ≡ none
  Reach-NotAgeing s t h r = Reach-keeps platform Stable-NotAgeing r h
