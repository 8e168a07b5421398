-- ===== src/Main.antt =====
-- ksmppc/src/main.cpp: the command line, and how the process exits. boost::program_options is a
-- parameter: what it makes of the arguments. A stream is the list of what was written to it.
pub mod Exits
use kiss_smpp.Common.{ℕ, Bool, true, false, not, Option, none, some, List, [], ◌∷◌}
use kiss_smpp.Daemon.{Daemon}
use kiss_smpp.Daemon.Start.{Started, started, bad_lookup, undefined}
use Prim.Native.String.{String}

-- What `store` leaves in the map of variables: whether `help` and `console-mode` are there, and the
-- instance. `required` is the text of the exception that `notify` throws where it is missing.
pub data Options : Type 0 where
  stored : Bool → Bool → Option String → Options
  bad_options other_exception : String → Options

pub record ProgramOptions : Type 0 where
  pub parse : List String → Options
  pub required : String

-- How the constructor of ksmppc and `run` end: `threw` is a std::exception, `escaped` anything that
-- no handler of `main` takes.
pub data Ended : Type 0 where
  returned escaped : Ended
  threw : String → Ended

pub record Exit : Type 0 where
  pub code : ℕ
  pub out : List String
  pub err : List String

pub data Process : Type 0 where
  exits : Exit → Process
  terminated : Process

-- What follows the `try` block.
unfoldable pub after_run : Ended → Process
after_run returned = exits (record { code = 0; out = []; err = [] })
after_run (threw what) =
    exits (record { code = 0; out = []; err = "Exception: " ∷ what ∷ "\n" ∷ [] })
after_run escaped = terminated

abbrev pub option_failure : String → Process
option_failure what = exits (record { code = 1; out = []; err = "ERROR: " ∷ what ∷ "\n" ∷ [] })

-- The inner `try` block from the call of `store` on, and the start of the daemon.
unfoldable pub with_options : ProgramOptions → (String → Bool → Ended) → Options → Process
unfolding after_run
with_options lib app (stored true console i) =
    exits (record { code = 0; out = "Add some usage detail here." ∷ "\n" ∷ []; err = [] })
with_options lib app (stored false console none) = option_failure lib.required
with_options lib app (stored false console (some i)) = after_run (app i (not console))
with_options lib app (bad_options what) = option_failure what
with_options lib app (other_exception what) = after_run (threw what)

unfoldable pub main : ProgramOptions → (String → Bool → Ended) → List String → Process
main lib app argv = with_options lib app (lib.parse argv)

-- The constructor of the daemon and its `run`, as `main` sees them.
unfoldable pub launch : {Q : Type 0} → String → (Daemon Q → Ended) → Started Q → Ended
launch what serve (started d) = serve d
launch what serve bad_lookup = threw what
launch what serve undefined = escaped
