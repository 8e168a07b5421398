-- ===== src/Buffers/Bytes.antt =====
-- Reading and writing the bytes of a block.
use kiss_smpp.Common.{
  ℕ, zero, suc, ◌+◌, ◌≤◌, ◌<◌, ◌≡◌, refl, ap, arith, none, some, List, [], ◌∷◌, ◌++◌, length,
}
use kiss_smpp.Buffers.{prepend, put_bytes, put_bytes_at, get_bytes}

-- A list of at least `n` elements is one of `n` and a rest.
pub split_list :
    (n : ℕ) (m : List ℕ)
    → n ≤ length m
    → (a : List ℕ) × (b : List ℕ) × (m ≡ a ++ b) × (length a ≡ n) × (n + length b ≡ length m)
split_list zero m h = ([], m, refl, refl, omega arith)
split_list (suc n) [] h = absurd (omega arith)
split_list (suc n) (x ∷ m) h =
    let (a, b, e, l, k) = split_list n m (omega arith) in
    (x ∷ a, b, ap (λ r. x ∷ r) e, omega arith, omega arith)

pub put_bytes-append :
    (bs old rest : List ℕ) → length old ≡ length bs → put_bytes bs (old ++ rest) ≡ some (bs ++ rest)
unfolding put_bytes prepend
put_bytes-append [] [] rest h = refl
put_bytes-append [] (x ∷ old) rest h = absurd (omega arith)
put_bytes-append (b ∷ bs) [] rest h = absurd (omega arith)
put_bytes-append (b ∷ bs) (x ∷ old) rest h =
    ap (prepend (b ∷ [])) (put_bytes-append bs old rest (omega arith))

pub put_bytes_short : (bs m : List ℕ) → length m < length bs → put_bytes bs m ≡ none
unfolding put_bytes prepend
put_bytes_short [] m h = absurd (omega arith)
put_bytes_short (b ∷ bs) [] h = refl
put_bytes_short (b ∷ bs) (x ∷ m) h = ap (prepend (b ∷ [])) (put_bytes_short bs m (omega arith))

put_all : (bs old : List ℕ) → length old ≡ length bs → put_bytes bs old ≡ some bs
unfolding put_bytes prepend
put_all [] [] l = refl
put_all [] (x ∷ old) l = absurd (omega arith)
put_all (b ∷ bs) [] l = absurd (omega arith)
put_all (b ∷ bs) (x ∷ old) l = ap (prepend (b ∷ [])) (put_all bs old (omega arith))

pub put_bytes_at-append :
    (n : ℕ) (h bs old : List ℕ)
    → length h ≡ n
    → length old ≡ length bs
    → put_bytes_at n bs (h ++ old) ≡ some (h ++ bs)
unfolding put_bytes_at prepend
put_bytes_at-append zero [] bs old e l = put_all bs old l
put_bytes_at-append zero (x ∷ h) bs old e l = absurd (omega arith)
put_bytes_at-append (suc n) [] bs old e l = absurd (omega arith)
put_bytes_at-append (suc n) (x ∷ h) bs old e l =
    ap (prepend (x ∷ [])) (put_bytes_at-append n h bs old (omega arith) l)

pub get_bytes_all : (n : ℕ) (h : List ℕ) → length h ≡ n → get_bytes n h ≡ some h
unfolding get_bytes prepend
get_bytes_all zero [] e = refl
get_bytes_all zero (x ∷ h) e = absurd (omega arith)
get_bytes_all (suc n) [] e = absurd (omega arith)
get_bytes_all (suc n) (x ∷ h) e = ap (prepend (x ∷ [])) (get_bytes_all n h (omega arith))
