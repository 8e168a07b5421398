-- ===== src/Tests/Connection.antt =====
-- Connecting, closing, timers and the invariant at concrete inputs.
use kiss_smpp.Session.Write.{start}
use kiss_smpp.Common.{◌≡◌, refl, none, [], ◌∷◌, arith, some, List}
use kiss_smpp.Smpp.{enquire_link}
use kiss_smpp.TransmitQueue.{Items}
use kiss_smpp.Session.{
  success, Session, Outcome, ok, fault, reading_header, closing, closed, operation_aborted, Task,
  connecting,
}
use kiss_smpp.Session.Close.{construct}
use kiss_smpp.Waiting.{expired, pdu_seq_num}
use kiss_smpp.Session.Timers.{w4r_q_age_cleanup}
use kiss_smpp.Session.Loop.{connected, react, Runs, link_resp_due, closes, header_read, Takes, here}
use kiss_smpp.Session.Expiry.{w4r_q_age_cleanup_lem}
use kiss_smpp.Session.LinkFailure.{link_failure_reopens}
use kiss_smpp.Tests.Lives.{full_settings}
use kiss_smpp.Tests.Fixture.{lists, config, bound, submit, raw_pdu, no_pdus}

abbrev outcome_session : Outcome Items → Session Items
outcome_session (ok s) = s
outcome_session _ = bound

abbrev fresh : Session Items
fresh = outcome_session (construct lists full_settings config no_pdus [] 1000)

abbrev unconnected : Session Items
unconnected = record fresh { tasks = [] }

-- A new session whose first connection attempt succeeds.
abbrev fresh_connected : Session Items
fresh_connected = outcome_session (react lists (connected success) unconnected)

-- A session that reads the next header while the response to its enquire_link is late.
abbrev unanswered : Session Items
unanswered = record bound { enquire_link_response_timer = some 30; tasks = reading_header ∷ [] }

link_failure_reopens_example :
    (u v t : Session Items) × Runs lists unanswered (link_resp_due ∷ []) (start closing u)
    × Runs lists (start closing u) (closes ∷ []) v
    × (v.current_state ≡ closed)
    × (v.tasks ≡ u.tasks)
    × Runs lists v (closes ∷ header_read (raw_pdu enquire_link 9) operation_aborted ∷ []) t
    × (t.current_state ≡ closed)
    × ((ts : List Task) × Takes reading_header u.tasks ts × (t.tasks ≡ connecting ∷ ts))
link_failure_reopens_example =
    link_failure_reopens lists unanswered (raw_pdu enquire_link 9) 30 [] refl refl here

-- PDU 3 was sent at second 60, and it is second 100.
abbrev overdue : Session Items
overdue = record bound { w4r_q = (3, record { obj = submit 3; timestamp = 60 }) ∷ [] }

w4r_q_age_cleanup_lem_example : w4r_q_age_cleanup lists success overdue ≡ fault
unfolding expired pdu_seq_num
w4r_q_age_cleanup_lem_example = w4r_q_age_cleanup_lem lists overdue (refl, tt) (omega arith, tt)

-- The timer of the session `bound` runs out, and no PDU waits.
abbrev not_ageing : Session Items
not_ageing = record bound { ageing_timer = none }
