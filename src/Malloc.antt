-- ===== src/Malloc.antt =====
-- The heap of the C library: libc/malloc.c, libc/sbrk.c and libc/brk.c. A heap is memory of 32-bit words by
-- address: every address that the code uses is a multiple of 4, so no two words overlap. NULL is 0, and
-- pointers do not go below it. The messages that the code prints on an error are left out.
pub mod Blocks
pub mod Coalesce
pub mod Join
pub mod Fit
pub mod Place
pub mod Grow
pub mod Held
pub mod Serve
pub mod Taken
pub mod Answer
pub mod Release
pub mod Start
use plum_os.Prelude.{
  ℕ, zero, suc, ◌+◌, ◌-◌, ◌*◌, ◌%◌, ◌^◌, Bool, true, false, ◌&&◌, ◌||◌, not, Option, none, some,
  bit_and, bit_or, ◌==◌, ltb, leb, if◌then◌else◌,
}
use plum_os.Prelude.Int.{ℤ, pos, negsuc, minus_one}
use plum_os.Prelude.Partial.{◌>>=◌}
use plum_os.Kernel.{Ptr, null, put}

abbrev pub Words : Type 0
Words = Ptr → ℕ

unfoldable pub pack : ℕ → ℕ → ℕ
pack size alloc = bit_or size alloc

-- PUT, of an `unsigned int`
unfoldable pub put_word : Words → Ptr → ℕ → Words
put_word w p val = put w p (val % 2 ^ 32)

-- `& ~0x7` on 32 bits
unfoldable pub get_size : Words → Ptr → ℕ
get_size w p = bit_and (w p) (2 ^ 32 - 8)

unfoldable pub get_alloc : Words → Ptr → ℕ
get_alloc w p = bit_and (w p) 7

abbrev pub hdrp : Ptr → Ptr
hdrp bp = bp - 4

abbrev pub ftrp : Words → Ptr → Ptr
ftrp w bp = bp + get_size w (hdrp bp) - 8

abbrev pub next_blkp : Words → Ptr → Ptr
next_blkp w bp = ftrp w bp + 8

abbrev pub prev_blkp : Words → Ptr → Ptr
prev_blkp w bp = bp - get_size w (bp - 8)

-- Joins the free block bp with the free ones beside it, and gives the block's address.
unfoldable pub coalesce : Ptr → Words → Ptr × Words
coalesce bp w =
    let prev_alloc = get_alloc w (ftrp w (prev_blkp w bp)) in
    let next_alloc = get_alloc w (hdrp (next_blkp w bp)) in
    let size = get_size w (hdrp bp) in
    let with_next = size + get_size w (hdrp (next_blkp w bp)) in
    let with_prev = size + get_size w (hdrp (prev_blkp w bp)) in
    let with_both =
      size + (get_size w (hdrp (prev_blkp w bp)) + get_size w (hdrp (next_blkp w bp))) in
    let w2 = put_word w (hdrp bp) (pack with_next 0) in
    let w3 = put_word w (ftrp w bp) (pack with_prev 0) in
    let w33 = put_word w3 (hdrp (prev_blkp w3 bp)) (pack with_prev 0) in
    let w4 = put_word w (hdrp (prev_blkp w bp)) (pack with_both 0) in
    let w44 = put_word w4 (ftrp w4 (next_blkp w4 bp)) (pack with_both 0) in
    if not (prev_alloc == 0) && not (next_alloc == 0)
    then (bp, w)
    else if not (prev_alloc == 0) && (next_alloc == 0)
    then (bp, put_word w2 (ftrp w2 bp) (pack with_next 0))
    else if (prev_alloc == 0) && not (next_alloc == 0)
    then (prev_blkp w33 bp, w33)
    else (prev_blkp w44 bp, w44)

-- The loop of find_fit from p, on fuel; `none` when the fuel runs out.
unfoldable pub find_loop : ℕ → Words → ℕ → Ptr → Option Ptr
find_loop zero w size p = none
find_loop (suc fuel) w size p =
    let rest = find_loop fuel w size (next_blkp w p) in
    if get_size w (hdrp p) == 0
    then some null
    else if (get_alloc w (hdrp p) == 0) && leb size (get_size w (hdrp p))
    then some p
    else rest

unfoldable pub find_fit : ℕ → Words → Ptr → ℕ → Option Ptr
find_fit fuel w heap_listp size = find_loop fuel w size (next_blkp w heap_listp)

unfoldable pub place : Ptr → ℕ → Words → Words
place bp rsize w =
    let bsize = get_size w (hdrp bp) in
    let nsize = bsize - rsize in
    let w1 = put_word w (hdrp (bp + rsize)) (pack nsize 0) in
    let w2 = put_word w1 (ftrp w1 (bp + rsize)) (pack nsize 0) in
    let split = if ltb rsize bsize then w2 else w in
    let w3 = put_word split (hdrp bp) (pack bsize 1) in put_word w3 (ftrp w3 bp) (pack bsize 1)

-- Frees the block of address ptr.
unfoldable pub free : Ptr → Words → Words
free ptr w =
    let size = get_size w (hdrp ptr) in
    let w1 = put_word w (hdrp ptr) (pack size 0) in
    let w2 = put_word w1 (ftrp w1 ptr) (pack size 0) in (coalesce ptr w2).1

-- The asize of malloc; `size + DSIZE + 8 - 1` is computed on 64 bits.
unfoldable pub adjusted : ℕ → ℕ
adjusted size = if leb size 8 then 16 else bit_and ((size + 8 + 8 - 1) % 2 ^ 64) (2 ^ 64 - 8)

-- The globals of malloc.c and brk.c, the memory, and the number of SYS_brk calls made so far.
pub record Heap : Type 0 where
  pub word : Words
  pub heap_listp : Ptr
  pub is_uninitialized : Bool
  pub curbrk : ℕ
  pub calls : ℕ

abbrev pub max_addr : ℕ
max_addr = 2 ^ 30

abbrev pub chunk_size : ℕ
chunk_size = 2 ^ 12

-- extend_heap from the answer bp of sbrk
unfoldable pub new_block : ℕ → Ptr → Heap → Ptr × Heap
new_block size bp h =
    let w1 = put_word h.word (hdrp bp) (pack size 0) in
    let w2 = put_word w1 (ftrp w1 bp) (pack size 0) in
    let w3 = put_word w2 (hdrp (next_blkp w2 bp)) (pack 0 1) in
    let joined = coalesce bp w3 in
    if bp == null then (null, h) else (joined.0, record h { word = joined.1 })

-- `sys_brk n addr` is what the kernel answers to call number n of SYS_brk, on addr.
module _ (sys_brk : ℕ → ℕ → ℕ) where
  unfoldable pub brk : ℕ → Heap → ℤ × Heap
  brk addr h =
      let ret = sys_brk h.calls addr in
      (if ret == addr then pos 0 else minus_one, record h { curbrk = ret; calls = suc h.calls })

  unfoldable pub sbrk : ℕ → Heap → Ptr × Heap
  sbrk incr h =
      let done = brk ((h.curbrk + incr) % 2 ^ 64) h in
      if ltb max_addr ((h.curbrk + incr) % 2 ^ 64)
      then (null, h)
      else if incr == 0
      then (h.curbrk, h)
      else (elim done.0 [ pos n ↦ h.curbrk | negsuc n ↦ null ], done.1)

  unfoldable pub extend_heap : ℕ → Heap → Ptr × Heap
  extend_heap words h =
      let size = if words % 2 == 0 then words * 4 % 2 ^ 64 else (words + 1) * 4 % 2 ^ 64 in
      let got = sbrk size h in new_block size got.0 got.1

  -- minit from the answer p of its own sbrk; true is its result 0.
  unfoldable pub first_words : Ptr → Heap → Bool × Heap
  first_words p h =
      let w1 = put_word h.word p 0 in
      let w2 = put_word w1 (p + 4) (pack 8 1) in
      let w3 = put_word w2 (p + 8) (pack 8 1) in
      let w4 = put_word w3 (p + 12) (pack 0 1) in
      let got = extend_heap 1024 (record h { word = w4; heap_listp = p + 8 }) in
      if p == 2 ^ 64 - 1
      then (false, record h { heap_listp = p })
      else if got.0 == null
      then (false, got.1)
      else (true, record got.1 { is_uninitialized = false })

  unfoldable pub minit : Heap → Bool × Heap
  minit h = let got = sbrk 16 h in first_words got.0 got.1

  -- malloc after its initialisation
  unfoldable pub allocate : ℕ → ℕ → Heap → Option (Ptr × Heap)
  allocate fuel size h =
      let asize = adjusted size in
      let grown = extend_heap (if ltb chunk_size asize then asize else chunk_size) h in
      let extended =
        if grown.0 == null
        then (null, grown.1)
        else (grown.0, record grown.1 { word = place grown.0 asize grown.1.word }) in
      let found = do
        bp ← find_fit fuel h.word h.heap_listp asize
        some (if bp == null then extended else (bp, record h { word = place bp asize h.word }))
      in if size == 0 then some (null, h) else found

  unfoldable pub malloc : ℕ → ℕ → Heap → Option (Ptr × Heap)
  malloc fuel size h =
      let started = minit h in
      if h.is_uninitialized
      then if started.0 then allocate fuel size started.1 else some (null, started.1)
      else allocate fuel size h
