-- ===== src/Main/Exits.antt =====
-- The exit status of the process.
use kiss_smpp.Common.{
  ℕ, ◌≡◌, refl, Bool, true, false, Option, none, some, List, ◌⊎◌, inl, inr, ◌↔◌, arith,
}
use kiss_smpp.Smpp.{SharedSmppPdu}
use kiss_smpp.Config.{Settings, bad_setting, session_config}
use kiss_smpp.Session.{Platform}
use kiss_smpp.Daemon.{Daemon}
use kiss_smpp.Daemon.Start.{start_daemon, start_sessions}
use kiss_smpp.Main.{
  Options, stored, bad_options, other_exception, ProgramOptions, Ended, returned, escaped, threw,
  Process, exits, terminated, after_run, with_options, main, launch,
}
use Prim.Native.String.{String}

-- The options are wrong, or have no instance and do not ask for help.
abbrev pub IsRefused : Options → Type 0
IsRefused o =
    ((what : String) × (o ≡ bad_options what))
    ⊎ ((console : Bool) × (o ≡ stored false console none))

abbrev pub exit_code : Process → Option ℕ
exit_code (exits e) = some e.code
exit_code terminated = none

after_run-zero : (e : Ended) (n : ℕ) → exit_code (after_run e) ≡ some n → n ≡ 0
unfolding after_run
after_run-zero returned n h = cc
after_run-zero (threw what) n h = cc
after_run-zero escaped n h = cc

with_options-IsRefused :
    (lib : ProgramOptions) (app : String → Bool → Ended) (o : Options) (n : ℕ)
    → exit_code (with_options lib app o) ≡ some n
    → (n ≡ 1) × IsRefused o ⊎ (n ≡ 0)
unfolding with_options
with_options-IsRefused lib app (stored true console i) n h = inr (cc)
with_options-IsRefused lib app (stored false console none) n h = inl (cc, inr (console, refl))
with_options-IsRefused lib app (stored false console (some i)) n h = inr (after_run-zero _ n h)
with_options-IsRefused lib app (bad_options what) n h = inl (cc, inl (what, refl))
with_options-IsRefused lib app (other_exception what) n h = inr (after_run-zero (threw what) n h)

with_refused :
    (lib : ProgramOptions) (app : String → Bool → Ended) (o : Options)
    → IsRefused o
    → exit_code (with_options lib app o) ≡ some 1
unfolding with_options
with_refused lib app o (inl (what, e)) = rw e refl
with_refused lib app o (inr (console, e)) = rw e refl

-- Whatever the daemon does, the process exits with 1 exactly if its options are wrong or miss the
-- instance without asking for help, and with no other status than 1 or 0.
pub main_lem :
    (lib : ProgramOptions) (app : String → Bool → Ended) (argv : List String)
    → ((exit_code (main lib app argv) ≡ some 1) ↔ IsRefused (lib.parse argv))
      × ((n : ℕ) → exit_code (main lib app argv) ≡ some n → (n ≡ 1) ⊎ (n ≡ 0))
unfolding main
main_lem lib app argv = (
  (
    λ h. elim (with_options-IsRefused lib app (lib.parse argv) 1 h) [
      | inl (_, refused) ↦ refused
      | inr one ↦ absurd (omega arith)
    ],
    with_refused lib app (lib.parse argv),
  ),
  λ n h. elim (with_options-IsRefused lib app (lib.parse argv) n h) [
    | inl (one, _) ↦ inl one
    | inr none_failed ↦ inr none_failed
  ],
)

module _ {Q : Type 0} (platform : Platform Q) where
  -- A daemon that cannot read its configuration does not run, and the process reports the exception
  -- and exits with 0, the status of success: whatever else the daemon would do.
  pub bad_setting_exits :
      (lib : ProgramOptions) (argv : List String) (i : String) (console : Bool) (what : String)
      (serve : Daemon Q → Ended) (cfg : Settings) (open_buffer : String → List SharedSmppPdu)
      (q : Q) (now : ℕ)
      → lib.parse argv ≡ stored false console (some i)
      → session_config cfg ≡ bad_setting
      → main lib
          (λ instance_id as_daemon. launch what serve (start_daemon platform cfg open_buffer q now))
          argv
        ≡ after_run (threw what)
  unfolding main with_options launch start_daemon start_sessions
  bad_setting_exits lib argv i console what serve cfg open_buffer q now e h = rw e (rw h refl)
