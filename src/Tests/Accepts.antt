-- ===== src/Tests/Accepts.antt =====
-- The exit status, and a message that a session accepted, at concrete inputs.
use kiss_smpp.Common.{
  ℕ, Bool, true, false, if◌then◌else◌, ◌≡◌, ◌≤◌, refl, none, some, List, [], ◌⊎◌, ◌↔◌, arith, ◌+◌,
}
use kiss_smpp.Smpp.{Pdu, submit_sm, command}
use kiss_smpp.Smpp.Standard.{standard}
use kiss_smpp.TransmitQueue.{Items, pop_items}
use kiss_smpp.Session.{Session, Outcome, ok, other_error}
use kiss_smpp.Session.Write.{do_write, is_writing, write_pdu, transmit, handle_write}
use kiss_smpp.Sequence.{next}
use kiss_smpp.Session.Send.{
  sends_bound_tx, send_pdu, send_in, sends_bound_trx, send4state_bound_trx,
}
use kiss_smpp.Daemon.System.{Happens, in_session, at_first, later}
use kiss_smpp.Session.Loop.{react, wrote, step, here}
use kiss_smpp.Session.Lossless.{outgoing}
use kiss_smpp.Daemon.Outgoing.{PutsBack, accepted_lasts}
use kiss_smpp.Main.{ProgramOptions, stored, returned, main}
use kiss_smpp.Main.Exits.{IsRefused, exit_code, main_lem}
use kiss_smpp.Tests.Fixture.{lists, submit, bound}
use Prim.Native.String.{String}
use kiss_smpp.Tests.Passes.{daemon}
use kiss_smpp.Tests.Lives.{full_settings}

abbrev has_arguments : List String → Bool
has_arguments [] = false
has_arguments _ = true

abbrev options : ProgramOptions
options = record {
  parse = λ argv. stored false true (if has_arguments argv then some "1" else none);
  required = "the option '--instance' is required but missing";
}

main_lem_example :
    ((exit_code (main options (λ i as_daemon. returned) []) ≡ some 1)
      ↔ IsRefused (options.parse []))
    × ((n : ℕ) → exit_code (main options (λ i as_daemon. returned) []) ≡ some n → (n ≡ 1) ⊎ (n ≡ 0))
main_lem_example = main_lem options (λ i as_daemon. returned) []

abbrev command_of : Pdu → ℕ
command_of pdu = pdu.command_id

-- No message is counted twice or lost when it goes back to the front of the messages.
put_back_keeps : PutsBack lists command_of
put_back_keeps i none = omega arith
put_back_keeps i (some x) = omega arith

abbrev session_of : Outcome Items → Session Items
session_of (ok s) = s
session_of _ = bound

-- The message is written, and the write fails.
abbrev submitted : Session Items
submitted = session_of (send_pdu lists (submit 7) daemon.session)

abbrev failed_again : Session Items
failed_again = session_of (react lists (wrote other_error) (record submitted { tasks = [] }))

write_fails :
    Happens lists
      (λ key. key)
      full_settings
      (record daemon { session = submitted })
      (record daemon { session = failed_again })
unfolding react send_pdu send_in do_write is_writing write_pdu pop_items transmit next
    send4state_bound_trx sends_bound_trx command handle_write
write_fails =
    in_session (step (wrote other_error) (record submitted { tasks = [] }) ([], here, refl) refl)

accepted_lasts_example : standard.code submit_sm + 0 ≤ outgoing lists command_of failed_again
unfolding sends_bound_tx send_pdu send_in do_write is_writing write_pdu pop_items transmit next
    send4state_bound_trx sends_bound_trx command
accepted_lasts_example =
    accepted_lasts lists command_of (λ pdu n. refl) put_back_keeps submit_sm (submit 7) daemon
      (record daemon { session = failed_again }) submitted refl refl refl
      (later at_first write_fails)
