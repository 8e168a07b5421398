-- ===== src/Coder/Dump/Layout.antt =====
-- The layout of the dump: four octets to a group, four groups to a line.
use kiss_smpp.Common.{
  ℕ, zero, suc, ◌+◌, ◌*◌, ◌%◌, ◌-◌, ◌/◌, Bool-cases, ltb→lt, ◌≤◌, ◌<◌, ◌≡◌, refl, ap, ◌∙◌, ltb,
  ◌==◌, if◌then◌else◌, none, some, List, [], ◌∷◌, ◌++◌, ◌>>=◌, ◌⊎◌, inl, inr, arith, length,
}
use kiss_smpp.Coder.Dump.{
  Output, hex, endl, digit_zero, colon, new_line, char, Counters, separate, put_char, dump, ppdustr,
}

-- What stands before the octet at the position `i`.
abbrev pub mark : ℕ → List Output
mark i =
    if i == 0
    then []
    else if i % 16 == 0
    then new_line ∷ []
    else if i % 4 == 0
    then colon ∷ []
    else []

-- The octets from the position `i` on: a leading zero where a hexadecimal number has one digit.
abbrev pub layout : ℕ → List ℕ → List Output
layout i [] = endl ∷ []
layout i (b ∷ bs) =
    mark i ++ ((if ltb b 16 then digit_zero ∷ [] else []) ++ char b ∷ []) ++ layout (i + 1) bs

abbrev pub take : ℕ → List ℕ → List ℕ
take zero bs = []
take (suc n) [] = []
take (suc n) (b ∷ bs) = b ∷ take n bs

-- The counters at the position `i`.
abbrev At : ℕ → Counters → Type 0
At i c =
    (i ≡ 0) × (c.c1 ≡ 0) × (c.c2 ≡ 0)
    ⊎ (i ≡ 16 * ((i - 1) / 16) + 4 * c.c2 + c.c1) × (1 ≤ c.c1) × (c.c1 ≤ 4) × (c.c2 ≤ 3)

separate-mark : (i : ℕ) (c : Counters) → At i c → (separate c).0 ≡ mark i
separate-mark i c (inl h) = ground arith
separate-mark i c (inr h) = ground arith

separate-At :
    (i : ℕ) (c : Counters)
    → At i c
    → At (i + 1) (record (separate c).1 { c1 = (separate c).1.c1 + 1 })
separate-At i c (inl h) = inr (ground arith)
separate-At i c (inr h) = inr (ground arith)

put_char-layout : (b : ℕ) → put_char b ≡ (if ltb b 16 then digit_zero ∷ [] else []) ++ char b ∷ []
put_char-layout b = ground arith

dump-layout :
    (n i : ℕ) (bs : List ℕ) (c : Counters)
    → At i c
    → n ≤ length bs
    → dump n bs c ≡ some (layout i (take n bs))
unfolding dump
dump-layout zero i bs c at enough = refl
dump-layout (suc n) i [] c at enough = absurd (omega arith)
dump-layout (suc n) i (b ∷ bs) c at enough =
    ap (λ o. o >>= λ rest. some ((separate c).0 ++ put_char b ++ rest))
      (dump-layout n (i + 1) bs _ (separate-At i c at) (omega arith))
    ∙ ap (λ xs. some (xs ++ put_char b ++ layout (i + 1) (take n bs))) (separate-mark i c at)
    ∙ ap (λ xs. some (mark i ++ xs ++ layout (i + 1) (take n bs))) (put_char-layout b)

dump-short : (n : ℕ) (bs : List ℕ) (c : Counters) → length bs < n → dump n bs c ≡ none
unfolding dump
dump-short zero bs c short = absurd (omega arith)
dump-short (suc n) [] c short = refl
dump-short (suc n) (b ∷ bs) c short =
    ap (λ o. o >>= λ rest. some ((separate c).0 ++ put_char b ++ rest))
      (dump-short n bs _ (omega arith))

-- ppdustr prints the octets of the buffer up to the length that it is given, in their order, four
-- to a group and four groups to a line: a new line stands before every sixteenth octet and a colon
-- before every other fourth one, except at the start, and a zero before each octet below 16. It
-- reads past the end exactly if the length is greater than the buffer's.
pub ppdustr-layout :
    (bs : List ℕ) (n : ℕ)
    → ((n ≤ length bs) × (ppdustr bs n ≡ some (hex ∷ layout 0 (take n bs))))
      ⊎ ((length bs < n) × (ppdustr bs n ≡ none))
unfolding ppdustr
ppdustr-layout bs n = elim (Bool-cases (ltb (length bs) n)) [
  | inl short ↦
      let less = ltb→lt _ _ short in
      inr (less, ap (λ o. o >>= λ xs. some (hex ∷ xs)) (dump-short n bs _ less))
  | inr enough ↦
      let le : n ≤ length bs = ground arith in
      inl (
        le,
        ap (λ o. o >>= λ xs. some (hex ∷ xs)) (dump-layout n 0 bs _ (inl (refl, refl, refl)) le),
      )
]
