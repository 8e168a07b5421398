-- ===== src/Smpp/Commands.antt =====
-- The `switch` over command identifiers: each identifier takes its own label, and no other does.
use kiss_smpp.Common.{
  ℕ, ◌≡◌, ◌∙◌, ap, some, List, [], ◌∷◌, ◌==◌, arith, Bool-cases, ◌≢◌, ==_iff, inl, inr, false,
}
use kiss_smpp.Smpp.{CommandId, Smpp, all_commands, find_command, command}
use kiss_smpp.Smpp.Standard.{standard_code, find_command-standard_code}

find_command-skip :
    (f g : CommandId → ℕ) (c x : CommandId) (xs : List CommandId)
    → (g x == g c) ≡ false
    → find_command f (f c) (x ∷ xs) ≡ some c
    → find_command f (f c) xs ≡ some c
unfolding find_command
find_command-skip f g c x xs other h = elim (Bool-cases (f x == f c)) [
  | inl same ↦ absurd (ne (ap g (some_eq x c (rw same at h))))
  | inr different ↦ rw different at h
]
  where
    some_eq : (a b : CommandId) → some a ≡ some b → a ≡ b
    some_eq a b e = cc

    ne : g x ≢ g c
    ne e = ground arith

find_command-other :
    (f g : CommandId → ℕ) (c : CommandId) (xs : List CommandId)
    → ((x : CommandId) → g x ≡ g c → x ≡ c)
    → find_command f (f c) xs ≡ some c
    → find_command g (g c) xs ≡ some c
unfolding find_command
find_command-other f g c [] inj h = h
find_command-other f g c (x ∷ xs) inj h = elim (Bool-cases (g x == g c)) [
  | inl same ↦ rw same (ap some (inj x ((==_iff (g x) (g c)).0 same)))
  | inr other ↦ rw other (find_command-other f g c xs inj (find_command-skip f g c x xs other h))
]

-- A number that is the code of `c` takes the label `c`.
pub command-code : (lib : Smpp) (c : CommandId) → command lib (lib.code c) ≡ some c
unfolding command
command-code lib c =
    find_command-other standard_code lib.code c all_commands (λ x. lib.code_injective x c)
      (find_command-standard_code c)

pub command_of_eq : (lib : Smpp) (c : CommandId) (n : ℕ) → n ≡ lib.code c → command lib n ≡ some c
command_of_eq lib c n h = ap (command lib) h ∙ command-code lib c

find_command-some :
    (f : CommandId → ℕ) (n : ℕ) (c : CommandId) (xs : List CommandId)
    → find_command f n xs ≡ some c
    → f c ≡ n
unfolding find_command
find_command-some f n c [] h = cc
find_command-some f n c (x ∷ xs) h = ground (arith, find_command-some f n c xs)

-- The label that a number takes has that number for its code.
pub command-some : (lib : Smpp) (n : ℕ) (c : CommandId) → command lib n ≡ some c → lib.code c ≡ n
unfolding command
command-some lib n c h = find_command-some lib.code n c all_commands h
