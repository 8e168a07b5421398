-- ===== src/Tests/Racing.antt =====
-- A do_write while the connection is closed.
use kiss_smpp.Common.{◌≡◌, refl, true, false, [], ◌∷◌, ◌⊎◌}
use kiss_smpp.TransmitQueue.{Items, session, response, message}
use kiss_smpp.Session.{Session, ok, fault}
use kiss_smpp.Session.Write.{is_writing, do_write, number_pdu}
use kiss_smpp.Session.Races.{is_cleared, with_cleared, do_write_cleared}
use kiss_smpp.Session.Races.Linear.{SameSession, cleared_faults, message-do_write}
use kiss_smpp.Tests.Fixture.{lists, bound, submit}

cleared_faults_example :
    ((is_cleared session (session ∷ response ∷ []) ≡ true)
      × (do_write_cleared lists [] (session ∷ response ∷ []) (submit 0) session bound ≡ fault))
    ⊎ ((is_cleared session (session ∷ response ∷ []) ≡ false)
        × ((t : Session Items) × (do_write_cleared lists []
                (session ∷ response ∷ [])
                (submit 0)
                session
                bound
              ≡ ok t)
            × (t.sent ≡ (number_pdu lists (submit 0) bound).0 ∷ [])))
unfolding is_writing
cleared_faults_example =
    cleared_faults lists [] (session ∷ response ∷ []) (submit 0) session bound refl

message-do_write_example :
    (t u : Session Items) × (do_write_cleared lists
        (session ∷ [])
        (response ∷ [])
        (submit 0)
        message
        bound
      ≡ ok t)
    × (do_write lists (submit 0) message bound ≡ ok u)
    × SameSession lists t (with_cleared lists (session ∷ response ∷ []) u)
message-do_write_example =
    message-do_write lists (session ∷ []) (response ∷ []) (submit 0) bound refl refl
