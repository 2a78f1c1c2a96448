-- ===== src/Paging.antt =====
-- Page tables: sys/mm.c (get_zero_page, copy_page, alloc_pgd, map_a_page), the page fault handler of
-- sys/mmap.c, copy_vma_deep of sys/syscall.c, and the macros of include/sys/pgtable.h. Memory is a map from kernel addresses to bytes; the words
-- of page tables are read and written in it, eight bytes each.
pub mod Faults
pub mod Words
pub mod Tree
pub mod Grow
pub mod Fresh
pub mod Steps
pub mod Map
pub mod Leaf
pub mod Trick
pub mod Copy
pub mod Cow
pub mod Write
pub mod Fork
pub mod Entered
pub mod Share
pub mod Child
pub mod Rounds
pub mod Deep
pub mod Blank
pub mod Place
use plum_os.Prelude.{
  ℕ, zero, suc, ◌+◌, ◌-◌, ◌*◌, ◌/◌, ◌%◌, ◌^◌, bit_and, bit_or, Bool, true, false, ◌&&◌, Option,
  none, some, ◌==◌, ltb, leb, if◌then◌else◌,
}
use plum_os.Frames.{Frames, get_free_page, get_page_ref, deduct_page_ref, add_page_ref}
use plum_os.Kernel.{Ptr, null, put}
use plum_os.Vma.{page_at}

abbrev pub Bytes : Type 0
Bytes = Ptr → ℕ

-- The memory behind the kernel's own addresses, and the page counts.
pub record Memory : Type 0 where
  pub byte : Bytes
  pub frames : Frames

-- Kernel code that may panic, which is an endless loop.
abbrev pub Act : Type 0 → Type 0
Act A = Memory → Option (A × Memory)

module _ {A B : Type 0} where
  abbrev pub and_then : Option (A × Memory) → (A → Act B) → Option (B × Memory)
  and_then none f = none
  and_then (some r) f = f r.0 r.1

  infixl 5 ◌>>=◌
  abbrev pub ◌>>=◌ : Act A → (A → Act B) → Act B
  m >>= f = λ s. and_then (m s) f

abbrev pub done : {A : Type 0} → A → Act A
done a s = some (a, s)

-- Reads and writes of 8 bytes, the lowest first.
unfoldable pub load : Bytes → Ptr → ℕ
load m a =
    m (a + 0)
    + 0x100 * m (a + 1)
    + 0x10000 * m (a + 2)
    + 0x1000000 * m (a + 3)
    + 0x100000000 * m (a + 4)
    + 0x10000000000 * m (a + 5)
    + 0x1000000000000 * m (a + 6)
    + 0x100000000000000 * m (a + 7)

unfoldable pub store : Bytes → Ptr → ℕ → Bytes
store m a v q = if leb a q && ltb q (a + 8) then v / 256 ^ (q - a) % 256 else m q

abbrev pub kernel_start : ℕ
kernel_start = 0xffffffff80000000

-- VA2PA and PA2VA
abbrev pub va2pa : Ptr → ℕ
va2pa va = (va + (2 ^ 64 - kernel_start)) % 2 ^ 64

abbrev pub pa2va : ℕ → Ptr
pa2va pa = (pa + kernel_start) % 2 ^ 64

-- `& ~(PG_SIZE - 1)`: the `int` is widened with its sign.
abbrev pub page_mask : ℕ
page_mask = 2 ^ 64 - 4096

unfoldable pub table_of : ℕ → Ptr
table_of entry = bit_and (pa2va entry) page_mask

-- get_pgd_entry and the three others read the word at an index of a table.
abbrev pub entry_at : Ptr → ℕ → Ptr
entry_at table off = (table + 8 * off) % 2 ^ 64

unfoldable pub get_entry : Ptr → ℕ → Memory → ℕ
get_entry table off s = load s.byte (entry_at table off)

-- put_pgd_entry and the three others: `*((pgd_t *)pgd + pgd_off) = VA2PA(pud) | prot`.
unfoldable pub entry_of : Ptr → ℕ → ℕ
entry_of va prot = bit_or (va2pa va) prot

unfoldable pub put_entry : Ptr → ℕ → Ptr → ℕ → Memory → Memory
unfolding entry_of
put_entry table off va prot s = record s {
  byte = store s.byte (entry_at table off) (entry_of va prot);
}

unfoldable pub get_pgd_off : ℕ → ℕ
get_pgd_off pfn = pfn * 2 ^ 28 % 2 ^ 64 / 2 ^ 55

unfoldable pub get_pud_off : ℕ → ℕ
get_pud_off pfn = pfn * 2 ^ 37 % 2 ^ 64 / 2 ^ 55

unfoldable pub get_pmd_off : ℕ → ℕ
get_pmd_off pfn = pfn * 2 ^ 46 % 2 ^ 64 / 2 ^ 55

unfoldable pub get_pte_off : ℕ → ℕ
get_pte_off pfn = pfn * 2 ^ 55 % 2 ^ 64 / 2 ^ 55

abbrev pub entry_p : ℕ
entry_p = 1

abbrev pub entry_rw : ℕ
entry_rw = 2

abbrev pub entry_us : ℕ
entry_us = 4

abbrev pub pte_cow : ℕ
pte_cow = 0x200

-- Present, writable and for the user: `PGD_P | PGD_RW | PGD_US`
abbrev pub open_entry : ℕ
open_entry = 7

-- memset(page, 0, PG_SIZE)
unfoldable pub clear_bytes : Bytes → Ptr → Bytes
clear_bytes m p q = if leb p q && ltb q (p + 4096) then 0 else m q

unfoldable pub zeroed : Option (ℕ × Frames) → Act Ptr
unfolding clear_bytes
zeroed none s = none
zeroed (some r) s =
    some (page_at r.0, record s { frames = r.1; byte = clear_bytes s.byte (page_at r.0) })

unfoldable pub get_zero_page : Act Ptr
unfolding zeroed
get_zero_page s = zeroed (get_free_page s.frames) s

-- A fresh page, put in a table.
unfoldable pub new_page : Ptr → ℕ → ℕ → Act Ptr
new_page table off prot = do p ← get_zero_page; λ s. some (p, put_entry table off p prot s)

-- `if (get_pgd_entry(pgd, pgd_off) == 0) { ... } else pud = ...;`, of each of the three upper levels.
unfoldable pub lower_table : Ptr → ℕ → Act Ptr
lower_table table off s =
    if get_entry table off s == 0
    then new_page table off open_entry s
    else some (table_of (get_entry table off s), s)

-- The three tables above the page's entry.
unfoldable pub pte_table : Ptr → ℕ → Act Ptr
pte_table pgd pfn = do
  pud ← lower_table pgd (get_pgd_off pfn)
  pmd ← lower_table pud (get_pud_off pfn)
  lower_table pmd (get_pmd_off pfn)

-- copy_page
unfoldable pub copy_loop : ℕ → ℕ → Ptr → Ptr → Bytes → Bytes
copy_loop zero i dest src m = m
copy_loop (suc n) i dest src m = copy_loop n (i + 1) dest src (put m (dest + i) (m (src + i)))

unfoldable pub copy_page : Ptr → Ptr → Memory → Memory
copy_page dest src s = record s { byte = copy_loop 4096 0 dest src s.byte }

abbrev pub self_ref_index : ℕ
self_ref_index = 0x1fe

unfoldable pub alloc_pgd : Ptr → Act Ptr
alloc_pgd pgd_start = do
  p ← get_zero_page
  λ s. some (p, put_entry p self_ref_index p 3 (copy_page p pgd_start s))
