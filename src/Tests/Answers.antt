-- ===== src/Tests/Answers.antt =====
-- What a session answers, at concrete inputs.
use kiss_smpp.Session.Close.{close_connection}
use kiss_smpp.Session.Write.{set_current_state, number_pdu}
use kiss_smpp.Common.{◌≡◌, refl, true, false, some, []}
use kiss_smpp.Smpp.{unbind, unbind_resp}
use kiss_smpp.TransmitQueue.{Items}
use kiss_smpp.Session.{bound_trx, Session, ok, unbound}
use kiss_smpp.Session.Receive.{response_pdu}
use kiss_smpp.Session.Process.{process_in}
use kiss_smpp.Session.Reconnect.{Closing}
use kiss_smpp.Session.Receiving.Answer.{Answers}
use kiss_smpp.Session.Binding.Unbind.{unbind-Answers}
use kiss_smpp.Tests.Fixture.{lists, bound, raw_pdu, parsed}

unbind-Answers_example :
    (t : Session Items) × (process_in lists bound_trx (some unbind) (raw_pdu unbind 9) bound ≡ ok t)
    × Answers lists (response_pdu lists unbind_resp 9) (set_current_state unbound bound) t
    × (t.current_state ≡ unbound)
    × Closing lists false true t
    × ((number_pdu lists
          (response_pdu lists unbind_resp 9)
          (set_current_state unbound bound)).0.sequence_number
        ≡ 9)
    × ((close_connection lists t).tx_q.responses ≡ [])
unbind-Answers_example = unbind-Answers lists (raw_pdu unbind 9) (parsed unbind 9) bound refl refl
