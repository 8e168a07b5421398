-- ===== src/Coder/Dump.antt =====
-- ppdustr of SmppPduBase64Bicoder (ksmppc/src/smpppdu_queue.hpp): how octets are printed. The log
-- is a list of what is written to it; how it prints a char is kisscpp's.
pub mod Layout
use kiss_smpp.Common.{
  ℕ, zero, suc, ◌+◌, ltb, if◌then◌else◌, Option, none, some, List, [], ◌∷◌, ◌++◌, ◌>>=◌,
}

-- What ppdustr writes to the log: the manipulators, the three texts, and a char.
pub data Output : Type 0 where
  hex endl digit_zero colon new_line : Output
  char : ℕ → Output

-- `(unsigned)c` of a signed char, by its octet
abbrev pub to_unsigned : ℕ → ℕ
to_unsigned b = if ltb b 128 then b else b + 4294967040

-- `c1` and `c2`, and what the first test of the loop writes
pub record Counters : Type 0 where
  pub c1 : ℕ
  pub c2 : ℕ

abbrev pub separate : Counters → List Output × Counters
separate c =
    if ltb 3 c.c1
    then (if ltb 2 c.c2
        then (new_line ∷ [], record { c1 = 0; c2 = 0 })
        else (colon ∷ [], record { c1 = 0; c2 = c.c2 + 1 }))
    else ([], c)

-- What the second test and the last statement of the body write.
abbrev pub put_char : ℕ → List Output
put_char b = if ltb (to_unsigned b) 16 then digit_zero ∷ char b ∷ [] else char b ∷ []

-- The loop, with the number of rounds that are left; `none` is a read past the buffer's end.
unfoldable pub dump : ℕ → List ℕ → Counters → Option (List Output)
dump zero bs c = some (endl ∷ [])
dump (suc n) [] c = none
dump (suc n) (b ∷ bs) c = do
  let (written, d) = separate c
  rest ← dump n bs (record d { c1 = d.c1 + 1 })
  some (written ++ put_char b ++ rest)

unfoldable pub ppdustr : List ℕ → ℕ → Option (List Output)
ppdustr tmp_buff tmp_len = do
  written ← dump tmp_len tmp_buff (record { c1 = 0; c2 = 0 })
  some (hex ∷ written)
