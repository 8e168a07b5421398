-- ===== src/Buffers.antt =====
-- The buffers of a RawPdu, of ksmppc/src/rawpdu.hpp, on a heap of the blocks that `new[]` gave out,
-- and the way ksmppc/src/session_manager.cpp fills them. A read, write or release that is undefined
-- in C++ is `none`.
pub mod Bytes
pub mod Life
use kiss_smpp.Common.{
  ℕ, zero, suc, ◌+◌, ◌-◌, ◌==◌, ◌≡◌, ◌>>=◌, Option, none, some, List, [], ◌∷◌, ◌++◌, length, ltb,
  if◌then◌else◌,
}

-- The blocks that are allocated, by their addresses, and the next address.
pub record Heap : Type 0 where
  pub blocks : List (ℕ × List ℕ)
  pub next : ℕ

unfoldable pub block_at : ℕ → List (ℕ × List ℕ) → Option (List ℕ)
block_at a [] = none
block_at a ((b, m) ∷ r) = let rest = block_at a r in if a == b then some m else rest

unfoldable pub set_block : ℕ → List ℕ → List (ℕ × List ℕ) → List (ℕ × List ℕ)
set_block a v [] = []
set_block a v ((b, m) ∷ r) =
    let rest = set_block a v r in if a == b then (b, v) ∷ r else (b, m) ∷ rest

-- Bytes in front of a list of others.
unfoldable pub prepend : List ℕ → Option (List ℕ) → Option (List ℕ)
prepend bs none = none
prepend bs (some m) = some (bs ++ m)

-- Bytes written over the first ones of a block, then from an offset on.
unfoldable pub put_bytes : List ℕ → List ℕ → Option (List ℕ)
put_bytes [] m = some m
put_bytes (b ∷ bs) [] = none
put_bytes (b ∷ bs) (x ∷ m) = prepend (b ∷ []) (put_bytes bs m)

unfoldable pub put_bytes_at : ℕ → List ℕ → List ℕ → Option (List ℕ)
put_bytes_at zero bs m = put_bytes bs m
put_bytes_at (suc n) bs [] = none
put_bytes_at (suc n) bs (x ∷ m) = prepend (x ∷ []) (put_bytes_at n bs m)

-- The first bytes of a block, if it has as many.
unfoldable pub get_bytes : ℕ → List ℕ → Option (List ℕ)
get_bytes zero m = some []
get_bytes (suc n) [] = none
get_bytes (suc n) (x ∷ m) = prepend (x ∷ []) (get_bytes n m)

unfoldable keep_block : ℕ × List ℕ → Option (List (ℕ × List ℕ)) → Option (List (ℕ × List ℕ))
keep_block b none = none
keep_block b (some r) = some (b ∷ r)

unfoldable pub without : ℕ → List (ℕ × List ℕ) → Option (List (ℕ × List ℕ))
unfolding keep_block
without a [] = none
without a ((b, m) ∷ r) = let rest = without a r in if a == b then some r else keep_block (b, m) rest

-- `delete [] a`
unfoldable pub delete_array : ℕ → Heap → Option Heap
delete_array a h = without a h.blocks >>= (λ b. some (record h { blocks = b }))

-- `delete a`: all memory here is from `new[]`, for which that is undefined.
unfoldable pub delete_single : ℕ → Heap → Option Heap
delete_single a h = none

unfoldable pub store : ℕ → ℕ → List ℕ → Heap → Option Heap
store a offset bs h =
    block_at a h.blocks
    >>= put_bytes_at offset bs
    >>= (λ m. some (record h { blocks = set_block a m h.blocks }))

-- The pointers of a RawPdu; `body` points into the block of its address, from an offset on.
pub record RawBuffer : Type 0 where
  pub header : Option ℕ
  pub full_buffer : Option ℕ
  pub body : Option (ℕ × ℕ)

-- `if(fullBuffer) delete fullBuffer;`
unfoldable pub drop_full : RawBuffer → Heap → Option Heap
drop_full p h = elim p.full_buffer [ none ↦ some h | some f ↦ delete_single f h ]

-- `memcpy(to, from, 16)`
unfoldable pub copy_header : ℕ → ℕ → Heap → Option Heap
copy_header to from h = block_at from h.blocks >>= get_bytes 16 >>= (λ bs. store to 0 bs h)

-- RawPdu::~RawPdu
unfoldable pub destroy : RawBuffer → Heap → Option Heap
destroy p h = elim p.header [
  | none ↦ some h
  | some a ↦ elim p.full_buffer [ none ↦ delete_array a h | some f ↦ delete_array f h ]
]

-- `fresh n` are the bytes that new memory of `n` bytes happens to hold, `get_command_length` is
-- smpp_pdu's, which reads the first octets of a header.
pub record Memory : Type 0 where
  pub fresh : ℕ → List ℕ
  pub get_command_length : List ℕ → ℕ
  pub length_fresh : (n : ℕ) → length (fresh n) ≡ n
  pub command_length_header :
      (h m : List ℕ) → length h ≡ 16 → get_command_length (h ++ m) ≡ get_command_length h

module _ (memory : Memory) where
  open memory use {fresh, get_command_length}

  -- `new uint8_t[n]`
  unfoldable pub new_array : ℕ → Heap → ℕ × Heap
  new_array n h = (h.next, record { blocks = (h.next, fresh n) ∷ h.blocks; next = suc h.next })

  -- RawPdu::RawPdu
  unfoldable pub raw_pdu : Heap → RawBuffer × Heap
  unfolding new_array
  raw_pdu h =
      let (a, h') = new_array 16 h in
      (record { header = some a; full_buffer = none; body = none }, h')

  -- RawPdu::cmd_length
  unfoldable pub cmd_length : RawBuffer → Heap → Option ℕ
  cmd_length p h = elim p.header [
    | none ↦ some 0
    | some a ↦ block_at a h.blocks >>= (λ m. some (get_command_length m))
  ]

  unfoldable body_of_header : RawBuffer → ℕ → Heap → Option (RawBuffer × Heap)
  unfolding new_array
  body_of_header p a h = do
    h' ← drop_full p h
    n ← cmd_length p h'
    let (f, h'') = new_array n h'
    h3 ← copy_header f a h''
    h4 ← delete_array a h3
    some (record { header = some f; full_buffer = some f; body = some (f, 16) }, h4)

  -- RawPdu::bodyBuf
  unfoldable pub body_buf : RawBuffer → Heap → Option (RawBuffer × Heap)
  unfolding body_of_header
  body_buf p h = elim p.header [ none ↦ some (p, h) | some a ↦ body_of_header p a h ]

  -- The RawPdu that do_read_header makes, once 16 bytes are read into its headerBuf.
  unfoldable pub read_header : List ℕ → Heap → Option (RawBuffer × Heap)
  read_header bs h =
      let (p, h') = raw_pdu h in
      elim p.header [ none ↦ none | some a ↦ store a 0 bs h' >>= (λ h''. some (p, h'')) ]

  -- What handle_read_header then does with it, once the rest is read into its bodyBuf.
  unfoldable pub read_body : List ℕ → RawBuffer → Heap → Option (RawBuffer × Heap)
  read_body bs p h = do
    (q, h') ← body_buf p h
    at ← q.body
    h'' ← store at.0 at.1 bs h'
    some (q, h'')
