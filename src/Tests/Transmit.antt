-- ===== src/Tests/Transmit.antt =====
-- The transmit path at concrete inputs.
use kiss_smpp.Sequence.{next}
use kiss_smpp.Common.{ℕ, ◌≡◌, refl, true, false, none, some, List, [], ◌∷◌, arith, ◌⊎◌}
use kiss_smpp.Smpp.{Pdu, submit_sm, submit_sm_resp, is_response, command, generic_nack}
use kiss_smpp.TransmitQueue.{message, Items, pop_items}
use kiss_smpp.Waiting.{find, assign}
use kiss_smpp.Session.{success, other_error, writing, Session, Outcome, ok, thrown, fault}
use kiss_smpp.Session.Write.{
  do_write, handle_write, is_writing, number_pdu, w4r_q_put, can_send, write_pdu, write_next,
  transmit,
}
use kiss_smpp.Session.Send.{send_pdu, sends_bound_trx, send4state_bound_trx}
use kiss_smpp.Session.Handlers.{w4r_q_pop}
use kiss_smpp.Session.Loop.{step, start_here, then, sends, react, Runs}
use kiss_smpp.Session.Stall.{IsStalled, Reach-IsStalled}
use kiss_smpp.Session.Drains.{in_order, wrote_times, unnumbered, drains_in_order}
use mathlib.Core.List.{map}
use kiss_smpp.Session.Overlap.{Goes, Waits, overlapped_unrecorded}
use kiss_smpp.Session.Sending.{permitted, send_pdu_lem}
use kiss_smpp.Session.Awaiting.{pop-put, w4r_q_pop_lem}
use kiss_smpp.Tests.Fixture.{lists, bound, submit, raw_pdu, no_pdus}

-- The session that an outcome leaves.
abbrev left : Outcome Items → Session Items
left (ok s) = s
left (thrown e s) = s
left fault = bound

abbrev map_numbers : List Pdu → List ℕ
map_numbers [] = []
map_numbers (x ∷ xs) = x.sequence_number ∷ map_numbers xs

-- A session that waits for the response to PDU 3.
abbrev waiting_three : Session Items
waiting_three = record bound { w4r_q = (3, record { obj = submit 3; timestamp = 100 }) ∷ [] }

-- A message was loaded from the disk, and no write is under way.
abbrev stalled : Session Items
stalled = record bound { tx_q = record no_pdus { messages = some (submit 3) ∷ [] } }

abbrev stalled_later : Session Items
stalled_later = record stalled {
  tx_q = record no_pdus { messages = some (submit 3) ∷ some (submit 0) ∷ [] };
}

Reach-IsStalled_example : IsStalled lists stalled_later × (stalled_later.sent ≡ [])
unfolding react send_pdu do_write is_writing send4state_bound_trx sends_bound_trx command
Reach-IsStalled_example =
    Reach-IsStalled lists stalled stalled_later (record { backlog = refl; idle = refl })
      (then start_here (step (sends (submit 0)) stalled refl refl))

-- An error of one write is enough for it.
abbrev failing : Session Items
failing = record bound { last_pop = some (submit 3); tasks = [] }

write_failure_stalls : IsStalled lists (left (handle_write lists other_error failing))
unfolding handle_write
write_failure_stalls = record { backlog = refl; idle = refl }

abbrev one : Session Items
one = left (do_write lists (submit 0) message bound)

abbrev two : Session Items
two = left (do_write lists (submit 0) message one)

one_result : do_write lists (submit 0) message bound ≡ ok one
unfolding do_write is_writing write_pdu pop_items
one_result = refl

two_result : do_write lists (submit 0) message one ≡ ok two
unfolding do_write write_pdu pop_items transmit
two_result = refl

-- The two PDUs are numbered 6 and 7.
overlap_numbers : map_numbers two.sent ≡ 7 ∷ 6 ∷ []
unfolding do_write write_pdu pop_items transmit next
overlap_numbers = refl

abbrev handled_once : Session Items
handled_once = left (handle_write lists success (record two { tasks = writing ∷ [] }))

abbrev handled_twice : Session Items
handled_twice = left (handle_write lists success (record handled_once { tasks = [] }))

overlapped_unrecorded_example :
    find (number_pdu lists (submit 0) bound).0.sequence_number handled_twice.w4r_q
    ≡ find (number_pdu lists (submit 0) bound).0.sequence_number bound.w4r_q
unfolding do_write handle_write write_pdu pop_items transmit write_next can_send w4r_q_put assign
    next
overlapped_unrecorded_example =
    overlapped_unrecorded lists (submit 0) (submit 0) message message bound one two handled_once
      handled_twice (writing ∷ []) [] refl one_result two_result refl refl (omega arith)

send_pdu_lem_example :
    (t : Session Items) × (send_pdu lists (submit 0) bound ≡ ok t)
    × ((permitted bound.current_state submit_sm ≡ true)
          × (Goes lists (submit 0) bound t ⊎ Waits lists (submit 0) message bound t)
        ⊎ (permitted bound.current_state submit_sm ≡ false) × (t ≡ bound))
send_pdu_lem_example = send_pdu_lem lists submit_sm (submit 0) bound refl

pop-put_example :
    find 3 (w4r_q_pop lists (raw_pdu submit_sm_resp 3) (w4r_q_put lists (submit 3) bound)).w4r_q
    ≡ none
unfolding is_response find
pop-put_example =
    pop-put lists submit_sm submit_sm_resp (submit 3) (raw_pdu submit_sm_resp 3) bound 3 refl refl
      refl refl refl tt

w4r_q_pop_lem_example :
    find 3 (w4r_q_pop lists (raw_pdu generic_nack 3) waiting_three).w4r_q
    ≡ some (record { obj = submit 3; timestamp = 100 })
unfolding is_response find
w4r_q_pop_lem_example =
    w4r_q_pop_lem lists generic_nack (raw_pdu generic_nack 3) waiting_three 3 refl tt

-- A response and two messages wait while a PDU is written.
abbrev backlogged : Session Items
backlogged = record bound {
  tx_q = record no_pdus {
    responses = some (submit 7) ∷ [];
    messages = some (submit 0) ∷ some (submit 8) ∷ [];
  };
  last_pop = some (submit 5);
  tasks = writing ∷ [];
}

drains_in_order_example :
    (t : Session Items) × Runs lists backlogged (wrote_times 3) t
    × (in_order t.tx_q ≡ [])
    × (map unnumbered t.sent ≡ submit 0 ∷ submit 0 ∷ submit 0 ∷ [])
drains_in_order_example =
    drains_in_order lists (submit 7 ∷ submit 0 ∷ submit 8 ∷ []) (submit 5) backlogged [] refl refl
      refl refl (omega arith)
