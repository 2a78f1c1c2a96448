-- ===== src/Frames.antt =====
-- The physical page allocator of sys/mm.c (get_free_page, free_page, the reference counts of
-- page_array). An `int` is its 32-bit pattern.
pub mod Alloc
pub mod Count
use plum_os.Prelude.{
  ℕ, zero, suc, ◌+◌, ◌-◌, ◌*◌, ◌/◌, ◌%◌, ◌^◌, bit_and, bit_or, Bool, Option, none, some, ◌==◌,
  if◌then◌else◌,
}

-- `page_array[pfn].ref` and `bitmap[i]`. `shl_int k` is what the compiler makes of the `int`
-- expression `1 << k`, widened to 64 bits: C gives it no value for 31 <= k, and 2 ^ k below.
pub record Frames : Type 0 where
  pub ref : ℕ → ℕ
  pub bitmap : ℕ → ℕ
  pub shl_int : ℕ → ℕ

abbrev pub update : (ℕ → ℕ) → ℕ → ℕ → ℕ → ℕ
update f p v q = if p == q then v else f q

-- PG_BITS, PG_SIZE and the bounds of the search in get_free_page
abbrev pub pg_size : ℕ
pg_size = 4096

abbrev pub normal_pfn_start : ℕ
normal_pfn_start = 671

abbrev pub normal_pfn_end : ℕ
normal_pfn_end = 32766

abbrev pub all_ones : ℕ
all_ones = 2 ^ 64 - 1

-- `bitmap[pfn/64] |= 1 << (pfn%64)`
unfoldable pub mark_busy : ℕ → Frames → Frames
mark_busy pfn s = record s {
  bitmap = update s.bitmap (pfn / 64) (bit_or (s.bitmap (pfn / 64)) (s.shl_int (pfn % 64)));
}

-- `bitmap[pfn/64] &= ~(1 << (pfn%64))`
unfoldable pub mark_free : ℕ → Frames → Frames
mark_free pfn s = record s {
  bitmap =
      update s.bitmap (pfn / 64) (bit_and (s.bitmap (pfn / 64)) (all_ones - s.shl_int (pfn % 64)));
}

abbrev pub set_ref : ℕ → ℕ → Frames → Frames
set_ref pfn v s = record s { ref = update s.ref pfn v }

-- What add_page_ref, get_page_ref and deduct_page_ref do behind their assert, which holds for a page of page_array.
unfoldable pub add_page_ref : ℕ → Frames → Frames
add_page_ref pfn s = set_ref pfn ((s.ref pfn + 1) % 2 ^ 32) s

unfoldable pub get_page_ref : ℕ → Frames → ℕ
get_page_ref pfn s = s.ref pfn

unfoldable pub deduct_page_ref : ℕ → Frames → Frames
deduct_page_ref pfn s = set_ref pfn ((s.ref pfn + (2 ^ 32 - 1)) % 2 ^ 32) s

-- The `for` loop from `pfn` on, with the rounds that are left. `none` is the panic behind it, an
-- endless loop, so that the `return -1` below it is never reached.
unfoldable pub get_free_page_loop : ℕ → ℕ → Frames → Option (ℕ × Frames)
unfolding mark_busy
get_free_page_loop zero pfn s = none
get_free_page_loop (suc n) pfn s =
    let rest = get_free_page_loop n (pfn + 1) s in
    if s.ref pfn == 0 then some (pfn, mark_busy pfn (set_ref pfn 1 s)) else rest

unfoldable pub get_free_page : Frames → Option (ℕ × Frames)
get_free_page s = get_free_page_loop (normal_pfn_end - normal_pfn_start) normal_pfn_start s

unfoldable pub free_page : ℕ → Frames → Frames
unfolding mark_free deduct_page_ref
free_page pfn s = let t = deduct_page_ref pfn s in if t.ref pfn == 0 then mark_free pfn t else t
