-- ===== src/Buffers/Life.antt =====
-- The life of a RawPdu: what its two buffers hold, and when they are released.
use kiss_smpp.Common.{
  ℕ, suc, ◌+◌, ◌<◌, ◌≤◌, ◌≡◌, refl, sym, ap, ◌∙◌, subst, arith, none, some, List, [], ◌∷◌, ◌++◌,
  length, ==_refl, ◌==◌, false, ◌↔◌, ◌⊎◌, inl, inr,
}
use kiss_smpp.Buffers.{
  Heap, RawBuffer, Memory, block_at, set_block, without, delete_array, store, raw_pdu, new_array,
  cmd_length, drop_full, copy_header, body_buf, body_of_header, destroy, read_header, read_body,
  put_bytes_at, put_bytes, keep_block,
}
use kiss_smpp.Buffers.Bytes.{
  split_list, put_bytes-append, put_bytes_short, put_bytes_at-append, get_bytes_all,
}

suc_other : (n : ℕ) → (n == suc n) ≡ false
suc_other n = ground arith

lt_or_le : (m n : ℕ) → (m < n) ⊎ (n ≤ m)
lt_or_le m n = ground arith

module _ (memory : Memory) where
  open memory use {fresh, get_command_length}

  -- A heap with one block in front of others.
  abbrev with_block : ℕ → List ℕ → List (ℕ × List ℕ) → Heap
  with_block a m r = record { blocks = (a, m) ∷ r; next = suc a }

  abbrev header_at : ℕ → RawBuffer
  header_at a = record { header = some a; full_buffer = none; body = none }

  abbrev body_at : ℕ → RawBuffer
  body_at f = record { header = some f; full_buffer = some f; body = some (f, 16) }

  store_front :
      (a offset : ℕ) (bs m m' : List ℕ) (r : List (ℕ × List ℕ))
      → put_bytes_at offset bs m ≡ some m'
      → store a offset bs (with_block a m r) ≡ some (with_block a m' r)
  unfolding store block_at set_block
  store_front a offset bs m m' r h = rw (==_refl a) (rw h refl)

  header_stored :
      (a : ℕ) (h m : List ℕ) (r : List (ℕ × List ℕ))
      → length h ≡ 16
      → length m ≡ 16
      → store a 0 h (with_block a m r) ≡ some (with_block a h r)
  header_stored a h m r l k =
      store_front a 0 h m h r (put_bytes_at-append 0 [] h m refl (omega arith))

  header_read :
      (h : List ℕ) (heap : Heap)
      → length h ≡ 16
      → read_header memory h heap ≡ some (header_at heap.next, with_block heap.next h heap.blocks)
  unfolding read_header raw_pdu new_array
  header_read h heap l =
      rw (header_stored heap.next h (fresh 16) heap.blocks l (memory.length_fresh 16)) refl

  header_copied :
      (a : ℕ) (h old rest : List ℕ) (r : List (ℕ × List ℕ))
      → length h ≡ 16
      → length old ≡ 16
      → copy_header (suc a) a (with_block (suc a) (old ++ rest) ((a, h) ∷ r))
        ≡ some (with_block (suc a) (h ++ rest) ((a, h) ∷ r))
  unfolding copy_header block_at put_bytes_at put_bytes
  header_copied a h old rest r l k = rw (suc_other a) (
      rw (==_refl a) (
        rw (get_bytes_all 16 h l) (
          store_front (suc a) 0 h (old ++ rest) (h ++ rest) ((a, h) ∷ r)
            (put_bytes-append h old rest (k ∙ sym l)))))

  header_deleted :
      (a : ℕ) (h m : List ℕ) (r : List (ℕ × List ℕ))
      → delete_array a (with_block (suc a) m ((a, h) ∷ r))
        ≡ some (record { blocks = (suc a, m) ∷ r; next = suc (suc a) })
  unfolding delete_array without keep_block
  header_deleted a h m r = rw (suc_other a) (rw (==_refl a) refl)

  cmd_length_of :
      (a : ℕ) (h : List ℕ) (r : List (ℕ × List ℕ))
      → cmd_length memory (header_at a) (with_block a h r) ≡ some (get_command_length h)
  unfolding cmd_length block_at
  cmd_length_of a h r = rw (==_refl a) refl

  body_from :
      (a : ℕ) (h old rest : List ℕ) (r : List (ℕ × List ℕ))
      → length h ≡ 16
      → length old ≡ 16
      → fresh (get_command_length h) ≡ old ++ rest
      → body_buf memory (header_at a) (with_block a h r)
        ≡ some (body_at (suc a), with_block (suc a) (h ++ rest) r)
  unfolding body_buf body_of_header new_array drop_full
  body_from a h old rest r l lo e =
      rw (cmd_length_of a h r)
        (rw e (rw (header_copied a h old rest r l lo) (rw (header_deleted a h (h ++ rest) r) refl)))

  body_made :
      (a : ℕ) (h : List ℕ) (r : List (ℕ × List ℕ))
      → length h ≡ 16
      → 16 ≤ get_command_length h
      → (rest : List ℕ) × (16 + length rest ≡ get_command_length h)
        × (body_buf memory (header_at a) (with_block a h r)
            ≡ some (body_at (suc a), with_block (suc a) (h ++ rest) r))
  body_made a h r l k =
      let n = memory.length_fresh (get_command_length h) in
      let (old, rest, e, lo, sum) =
        split_list 16 (fresh (get_command_length h)) (subst (λ n. 16 ≤ n) (sym n) k) in
      (rest, sum ∙ n, body_from a h old rest r l lo e)

  body_read :
      (a : ℕ) (h body rest : List ℕ) (r : List (ℕ × List ℕ))
      → length h ≡ 16
      → length rest ≡ length body
      → body_buf memory (header_at a) (with_block a h r)
        ≡ some (body_at (suc a), with_block (suc a) (h ++ rest) r)
      → read_body memory body (header_at a) (with_block a h r)
        ≡ some (body_at (suc a), with_block (suc a) (h ++ body) r)
  unfolding read_body
  body_read a h body rest r l k e = rw e (
      rw
        (store_front (suc a) 16 body (h ++ rest) (h ++ body) r
          (put_bytes_at-append 16 h body rest l k))
        refl)

  destroyed :
      (a : ℕ) (m : List ℕ) (r : List (ℕ × List ℕ))
      → delete_array a (with_block a m r) ≡ some (record { blocks = r; next = suc a })
  unfolding delete_array without
  destroyed a m r = rw (==_refl a) refl

  -- The whole of a PDU, in the one block that the RawPdu holds.
  abbrev pub Holds : RawBuffer → List ℕ → Heap → Heap → Type 0
  Holds p bs before h =
      (a : ℕ) × (p.header ≡ some a)
      × (p.full_buffer ≡ some a)
      × (p.body ≡ some (a, 16))
      × (h.blocks ≡ (a, bs) ∷ before.blocks)

  -- The blocks that are left when the RawPdu is destroyed.
  abbrev pub Releases : RawBuffer → Heap → Heap → Type 0
  Releases p h before = (h' : Heap) × (destroy p h ≡ some h') × (h'.blocks ≡ before.blocks)

  -- Reading a header of 16 bytes and then the bytes that its command length announces, 16 at least
  -- in all, is defined. The RawPdu then holds the two, one after the other, in one block, and its
  -- destructor gives back just that block; its command length is still the header's. Destroyed
  -- after the header alone, it gives back the header's.
  pub read-Holds :
      (h body : List ℕ) (heap : Heap)
      → length h ≡ 16
      → get_command_length h ≡ 16 + length body
      → (p : RawBuffer) × (heap1 : Heap) × (read_header memory h heap ≡ some (p, heap1))
        × Releases p heap1 heap
        × ((q : RawBuffer) × (heap2 : Heap) × (read_body memory body p heap1 ≡ some (q, heap2))
            × Holds q (h ++ body) heap heap2
            × (cmd_length memory q heap2 ≡ some (get_command_length h))
            × Releases q heap2 heap)
  unfolding destroy cmd_length
  read-Holds h body heap l k =
      let a = heap.next in
      let (rest, sum, made) = body_made a h heap.blocks l (omega arith) in
      (
        header_at a,
        with_block a h heap.blocks,
        header_read h heap l,
        (record { blocks = heap.blocks; next = suc a }, destroyed a h heap.blocks, refl),
        (
          body_at (suc a),
          with_block (suc a) (h ++ body) heap.blocks,
          body_read a h body rest heap.blocks l (omega arith) made,
          (suc a, refl, refl, refl, refl),
          cmd_length_of (suc a) (h ++ body) heap.blocks
              ∙ ap some (memory.command_length_header h body l),
          (
            record { blocks = heap.blocks; next = suc (suc a) },
            destroyed (suc a) (h ++ body) heap.blocks,
            refl,
          ),
        ),
      )

  header_overflows :
      (a : ℕ) (h m : List ℕ) (r : List (ℕ × List ℕ))
      → length h ≡ 16
      → length m < 16
      → copy_header (suc a) a (with_block (suc a) m ((a, h) ∷ r)) ≡ none
  unfolding copy_header block_at store put_bytes_at
  header_overflows a h m r l k = rw (suc_other a) (
      rw (==_refl a) (
        rw (get_bytes_all 16 h l)
          (rw (==_refl (suc a)) (rw (put_bytes_short h m (omega arith)) refl))))

  body_overflows :
      (a : ℕ) (h : List ℕ) (r : List (ℕ × List ℕ))
      → length h ≡ 16
      → get_command_length h < 16
      → body_buf memory (header_at a) (with_block a h r) ≡ none
  unfolding body_buf body_of_header new_array drop_full
  body_overflows a h r l k = rw (cmd_length_of a h r) (
      rw
        (header_overflows a h (fresh (get_command_length h)) r l
          (subst (λ n. n < 16) (sym (memory.length_fresh (get_command_length h))) k))
        refl)

  -- Once a header of 16 bytes is read, making room for the body is undefined behaviour exactly if
  -- the command length of the header is below 16.
  pub body_buf-none :
      (h : List ℕ) (heap : Heap)
      → length h ≡ 16
      → (p : RawBuffer) × (heap1 : Heap) × (read_header memory h heap ≡ some (p, heap1))
        × ((body_buf memory p heap1 ≡ none) ↔ (get_command_length h < 16))
  body_buf-none h heap l = (
    header_at heap.next,
    with_block heap.next h heap.blocks,
    header_read h heap l,
    (
      λ e. elim (lt_or_le (get_command_length h) 16) [
        | inl short ↦ short
        | inr long ↦ let (rest, sum, made) = body_made heap.next h heap.blocks l long in absurd (cc)
      ],
      body_overflows heap.next h heap.blocks l,
    ),
  )
