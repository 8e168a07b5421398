-- ===== src/Waiting/Map.antt =====
-- The map w4rQ: look-ups after an assignment and an erasure, the order of its keys, and that each
-- entry stands under the number of its PDU.
use kiss_smpp.Common.{ℕ, ◌≤◌, ◌<◌, ◌≡◌, refl, ◌==◌, if◌then◌else◌, none, some, [], ◌∷◌, arith}
use kiss_smpp.Waiting.{TimeStampedPdu, AwaitingResponseMap, pdu_seq_num, find, assign, erase}

-- Every key is above `k`, and the keys rise.
abbrev pub Above : ℕ → AwaitingResponseMap → Type 0
Above k [] = Unit {0}
Above k ((j, t) ∷ m) = (k < j) × Above j m

abbrev pub IsSorted : AwaitingResponseMap → Type 0
IsSorted [] = Unit {0}
IsSorted ((j, t) ∷ m) = Above j m

-- Every entry stands under the number of its PDU.
abbrev pub IsKeyed : AwaitingResponseMap → Type 0
IsKeyed [] = Unit {0}
IsKeyed ((j, t) ∷ m) = (pdu_seq_num t ≡ j) × IsKeyed m

pub find-assign :
    (k j : ℕ) (t : TimeStampedPdu) (m : AwaitingResponseMap)
    → find j (assign k t m) ≡ (if k == j then some t else find j m)
unfolding find assign
find-assign k j t [] = ground arith
find-assign k j t ((i, u) ∷ m) = ground (arith, find-assign k j t m)

Above-mono : (k j : ℕ) (m : AwaitingResponseMap) → k ≤ j → Above j m → Above k m
Above-mono k j [] h a = tt
Above-mono k j ((i, t) ∷ m) h a = (omega arith, a.1)

find-Above : (k j : ℕ) (m : AwaitingResponseMap) → j ≤ k → Above k m → find j m ≡ none
unfolding find
find-Above k j [] h a = refl
find-Above k j ((i, t) ∷ m) h a = ground (arith, find-Above i j m)

erase-Above : (k j : ℕ) (m : AwaitingResponseMap) → Above j m → Above j (erase k m)
unfolding erase
erase-Above k j [] a = tt
erase-Above k j ((i, t) ∷ m) a = ground (arith, erase-Above k i m a.1, Above-mono j i m)

pub erase-IsSorted : (k : ℕ) (m : AwaitingResponseMap) → IsSorted m → IsSorted (erase k m)
unfolding erase
erase-IsSorted k [] a = tt
erase-IsSorted k ((i, t) ∷ []) a = ground arith
erase-IsSorted k ((i, t) ∷ (j, u) ∷ m) a = ground (arith, erase-Above k i ((j, u) ∷ m) a)

pub find-erase :
    (k j : ℕ) (m : AwaitingResponseMap)
    → IsSorted m
    → find j (erase k m) ≡ (if k == j then none else find j m)
unfolding find erase
find-erase k j [] a = ground arith
find-erase k j ((i, t) ∷ []) a = ground arith
find-erase k j ((i, t) ∷ (l, u) ∷ m) a =
    ground (arith, find-erase k j ((l, u) ∷ m) a.1, find-Above i j ((l, u) ∷ m))

assign-Above :
    (k j : ℕ) (t : TimeStampedPdu) (m : AwaitingResponseMap)
    → j < k
    → Above j m
    → Above j (assign k t m)
unfolding assign
assign-Above k j t [] h a = (h, tt)
assign-Above k j t ((i, u) ∷ m) h a = ground (arith, assign-Above k i t m, Above-mono i k m)

pub assign-IsSorted :
    (k : ℕ) (t : TimeStampedPdu) (m : AwaitingResponseMap) → IsSorted m → IsSorted (assign k t m)
unfolding assign
assign-IsSorted k t [] a = tt
assign-IsSorted k t ((i, u) ∷ m) a = ground (arith, assign-Above k i t m)

pub erase-IsKeyed : (k : ℕ) (m : AwaitingResponseMap) → IsKeyed m → IsKeyed (erase k m)
unfolding erase
erase-IsKeyed k [] a = tt
erase-IsKeyed k ((i, t) ∷ m) a = ground (arith, erase-IsKeyed k m a.1)

pub assign-IsKeyed :
    (t : TimeStampedPdu) (m : AwaitingResponseMap)
    → IsKeyed m
    → IsKeyed (assign (pdu_seq_num t) t m)
unfolding assign
assign-IsKeyed t [] a = (refl, tt)
assign-IsKeyed t ((i, u) ∷ m) a = ground (arith, assign-IsKeyed t m a.1)
