-- ===== src/Vma.antt =====
-- The memory areas of a process: search_vma and insert_vma of sys/mm.c, and brk of sys/syscall.c. The
-- areas are linked through `next`, from mm->mmap to NULL; `n` is the fuel of a walk.
pub mod Search
pub mod Insert
pub mod Break
use plum_os.Prelude.{
  ℕ, zero, suc, ◌+◌, ◌-◌, ◌*◌, ◌%◌, ◌^◌, bit_and, Bool, ◌&&◌, not, Option, none, some, ◌==◌, ltb,
  leb, if◌then◌else◌,
}
use plum_os.Frames.{Frames, get_free_page}
use plum_os.Kernel.{Ptr, null, put}

-- `struct vm_area_struct` without its link, as far as these functions read or write it.
pub record Vma : Type 0 where
  pub vm_start : ℕ
  pub vm_end : ℕ
  pub prot : ℕ
  pub vm_align : ℕ
  pub vm_file : Ptr

-- One mm_struct, the areas at their addresses, and the page counts.
pub record Mm : Type 0 where
  pub mmap : Ptr
  pub user_heap : ℕ
  pub brk : ℕ
  pub next : Ptr → Ptr
  pub vma : Ptr → Vma
  pub frames : Frames

pub data Call (A : Type 0) : Type 0 where
  done : A → Mm → Call A
  hang : Call A
  out_of_fuel : Call A

module _ {A B : Type 0} where
  abbrev pub and_then : Call A → (A → Mm → Call B) → Call B
  and_then (done a s) f = f a s
  and_then hang f = hang
  and_then out_of_fuel f = out_of_fuel

  infixl 5 ◌>>=◌
  abbrev pub ◌>>=◌ : (Mm → Call A) → (A → Mm → Call B) → Mm → Call B
  m >>= f = λ s. and_then (m s) f

abbrev pub covers : Vma → ℕ → Bool
covers v addr = leb v.vm_start addr && ltb addr v.vm_end

unfoldable pub search_loop : ℕ → ℕ → Ptr → Mm → Call Ptr
search_loop zero addr p s = out_of_fuel
search_loop (suc n) addr p s =
    let rest = search_loop n addr (s.next p) s in
    if p == null then done null s else if covers (s.vma p) addr then done p s else rest

unfoldable pub search_vma : ℕ → ℕ → Mm → Call Ptr
search_vma n addr s = search_loop n addr s.mmap s

abbrev pub set_next : Ptr → Ptr → Mm → Mm
set_next p q s = record s { next = put s.next p q }

-- `while (vmap->next != NULL) vmap = vmap->next;`
unfoldable pub last_loop : ℕ → Ptr → Mm → Call Ptr
last_loop zero p s = out_of_fuel
last_loop (suc n) p s =
    let rest = last_loop n (s.next p) s in if s.next p == null then done p s else rest

-- On an empty list the link of the new area stays what it is.
unfoldable pub insert_vma : ℕ → Ptr → Mm → Call (Unit {0})
insert_vma n p s =
    if s.mmap == null
    then done tt (record s { mmap = p })
    else (do last ← last_loop n s.mmap; λ t. done tt (set_next p null (set_next last p t))) s

-- `PA2VA(pfn << PG_BITS)`
unfoldable pub page_at : ℕ → Ptr
page_at pfn = (pfn * 4096 + 0xffffffff80000000) % 2 ^ 64

abbrev pub blank_vma : Vma
blank_vma = record { vm_start = 0; vm_end = 0; prot = 0; vm_align = 0; vm_file = null }

-- `memset(page, 0, PG_SIZE)` on the page that was found, as an area; a full memory panics.
unfoldable pub cleared : Option (ℕ × Frames) → Mm → Call Ptr
cleared none s = hang
cleared (some r) s = done (page_at r.0) (record s {
  frames = r.1;
  next = put s.next (page_at r.0) null;
  vma = put s.vma (page_at r.0) blank_vma;
})

unfoldable pub get_zero_page : Mm → Call Ptr
unfolding cleared
get_zero_page s = cleared (get_free_page s.frames) s

abbrev pub pte_rw : ℕ
pte_rw = 2

abbrev pub heap_limit : ℕ
heap_limit = 0x7ffffff00000

abbrev pub set_vma : Ptr → Vma → Mm → Mm
set_vma p v s = record s { vma = put s.vma p v }

-- A break sets up an area for the heap, from its start.
abbrev pub heap_area : ℕ → ℕ → Vma
heap_area start end = record {
  vm_start = start;
  vm_end = end;
  prot = pte_rw;
  vm_align = 4096;
  vm_file = null;
}

unfoldable pub new_heap : ℕ → ℕ → Mm → Call ℕ
new_heap n new_break = do
  p ← get_zero_page
  u ← (λ s. insert_vma n p (set_vma p (heap_area s.brk new_break) s))
  done new_break

-- For a break that is not the start of the heap, which no code brings about, as brk never writes it: the area
-- is extended. The assert reads `(prot & PTE_RW) == 1`.
unfoldable pub extend_heap : ℕ → ℕ → Mm → Call ℕ
extend_heap n new_break s =
    (do
      p ← search_vma n ((s.brk + (2 ^ 64 - 1)) % 2 ^ 64)
      λ t.
          if not (p == null) && (bit_and (t.vma p).prot pte_rw == 1) && ((t.vma p).vm_file == null)
          then done new_break (
              if ltb (t.vma p).vm_end new_break
              then set_vma p (record (t.vma p) { vm_end = new_break }) t
              else t)
          else hang)
      s

unfoldable pub brk : ℕ → ℕ → Mm → Call ℕ
brk n new_break s =
    if new_break == 0
    then done s.brk s
    else if ltb s.brk new_break && ltb new_break heap_limit
    then if s.brk == s.user_heap then new_heap n new_break s else extend_heap n new_break s
    else hang
