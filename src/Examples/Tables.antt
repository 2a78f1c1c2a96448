-- ===== src/Examples/Tables.antt =====
-- Page tables at concrete states: two processes, of which one maps a page, is copied, and writes.
use plum_os.Prelude.{
  ℕ, ◌+◌, ◌-◌, ◌*◌, ◌/◌, ◌%◌, ◌^◌, ◌≤◌, ◌<◌, ◌≡◌, refl, sym, ap, ◌∙◌, ◌≢◌, ◌⊎◌, inl, inr, some,
  arith, if◌then◌else◌, subst, leb, ltb, ◌&&◌,
}
use plum_os.Frames.Count.{free_pages, free_pages_all}
use plum_os.Kernel.{Ptr}
use plum_os.Vma.{page_at}
use plum_os.Paging.{
  Bytes, Memory, load, store, entry_at, entry_of, table_of, get_entry, get_pte_off, self_ref_index,
}
use plum_os.Paging.Faults.{Area, map_a_page, pte_trick, write_fault, resolved}
use plum_os.Paging.Fork.{copy_pfn, copy_vma_deep, pfn_start, pfn_end}
use plum_os.Paging.Words.{
  page_at_eq, entry_at_eq, entry_of_eq, table_of_eq, load-store, load-store_apart, load_zero,
}
use plum_os.Paging.Tree.{node, page_entry, IsForest, page_at_inj}
use plum_os.Paging.Blank.{IsBlank, IsForest-blank, blank_page}
use plum_os.Paging.Place.{Placed, map_a_page-Placed}
use plum_os.Paging.Trick.{IsMmu, pte_trick-node}
use plum_os.Paging.Cow.{Copied}
use plum_os.Paging.Write.{write_fault-Copied}
use plum_os.Paging.Share.{Shared}
use plum_os.Paging.Child.{Forked, absent, present, copy_pfn-Result}
use plum_os.Paging.Rounds.{DeepCopied}
use plum_os.Paging.Deep.{copy_vma_deep-DeepCopied}

-- The look-up of four tables, whatever the entries are.
abbrev down : Bytes → Ptr → ℕ → Ptr
down m t i = table_of (load m (entry_at t i))

abbrev hardware : Bytes → Ptr → ℕ → Ptr
hardware m pgd va =
    down m
      (down m (down m (down m pgd (va / 2 ^ 39 % 512)) (va / 2 ^ 30 % 512)) (va / 2 ^ 21 % 512))
      (va / 2 ^ 12 % 512)
    + va % 4096

hardware-IsMmu : IsMmu hardware
unfolding get_entry
hardware-IsMmu = record {
  walks = λ s pgd va e1 e2 e3 e4 a pa b pb c pc d pd.
      ap
        (λ (t : Ptr).
          down s.byte (down s.byte (down s.byte t (va / 2 ^ 30 % 512)) (va / 2 ^ 21 % 512))
            (va / 2 ^ 12 % 512)
          + va % 4096)
        (ap table_of a)
      ∙ ap
          (λ (t : Ptr).
            down s.byte (down s.byte t (va / 2 ^ 21 % 512)) (va / 2 ^ 12 % 512) + va % 4096)
          (ap table_of b)
      ∙ ap (λ (t : Ptr). down s.byte t (va / 2 ^ 12 % 512) + va % 4096) (ap table_of c)
      ∙ ap (λ (t : Ptr). t + va % 4096) (ap table_of d);
}

-- Two top tables, in pages 100 and 101, that map themselves and nothing else.
abbrev parent : Ptr
parent = page_at 100

abbrev child : Ptr
child = page_at 101

abbrev Roots : Ptr → Type 0
Roots g = (g ≡ parent) ⊎ (g ≡ child)

abbrev first_bytes : Bytes
first_bytes = store (λ a. 0) (entry_at parent self_ref_index) (100 * 4096 + 3)

abbrev two_tables : Memory
two_tables = record {
  byte = store first_bytes (entry_at child self_ref_index) (101 * 4096 + 3);
  frames = record {
    ref = λ p. if leb 100 p && ltb p 102 then 1 else 0;
    bitmap = λ i. 0;
    shl_int = λ k. 2 ^ k;
  };
}

child_word :
    (a : Ptr)
    → (entry_at child self_ref_index + 8 ≤ a) ⊎ (a + 8 ≤ entry_at child self_ref_index)
    → load two_tables.byte a ≡ load first_bytes a
child_word a h = load-store_apart first_bytes (entry_at child self_ref_index) a (101 * 4096 + 3) h

parent_word :
    (a : Ptr)
    → (entry_at parent self_ref_index + 8 ≤ a) ⊎ (a + 8 ≤ entry_at parent self_ref_index)
    → load first_bytes a ≡ 0
parent_word a h =
    load-store_apart (λ b. 0) (entry_at parent self_ref_index) a (100 * 4096 + 3) h ∙ load_zero a

empty_entry : (p o : ℕ) → 100 ≤ p → p < 102 → o < 256 → get_entry (page_at p) o two_tables ≡ 0
unfolding get_entry
empty_entry p o a b h =
    child_word (entry_at (page_at p) o) (ground (arith, at, there, here))
    ∙ parent_word (entry_at (page_at p) o) (ground (arith, at, there, here))
  where
    at : entry_at (page_at p) o ≡ p * 4096 + 0xffffffff80000000 + 8 * o
    at = entry_at_eq p o (omega arith) (omega arith)

    there : entry_at child self_ref_index ≡ 101 * 4096 + 0xffffffff80000000 + 8 * 510
    there = entry_at_eq 101 510 (omega arith) (omega arith)

    here : entry_at parent self_ref_index ≡ 100 * 4096 + 0xffffffff80000000 + 8 * 510
    here = entry_at_eq 100 510 (omega arith) (omega arith)

parent_self : get_entry parent self_ref_index two_tables ≡ entry_of parent 3
unfolding get_entry
parent_self =
    child_word (entry_at parent self_ref_index) (
      inr (
        omega (
          arith,
          entry_at_eq 101 510 (omega arith) (omega arith),
          entry_at_eq 100 510 (omega arith) (omega arith),
        )))
    ∙ load-store (λ b. 0) (entry_at parent self_ref_index) (100 * 4096 + 3) (omega arith)
    ∙ sym (entry_of_eq 100 3 (omega arith) (omega arith))

child_self : get_entry child self_ref_index two_tables ≡ entry_of child 3
unfolding get_entry
child_self =
    load-store first_bytes (entry_at child self_ref_index) (101 * 4096 + 3) (omega arith)
    ∙ sym (entry_of_eq 101 3 (omega arith) (omega arith))

two_tables-IsBlank : (g : Ptr) → Roots g → IsBlank two_tables g
two_tables-IsBlank g (inl e) = record {
  pfn = 100;
  at = e;
  small = omega arith;
  counted = λ w. omega (arith, w);
  empty = λ o h. empty_entry 100 o (omega arith) (omega arith) h;
  self =
      subst (λ (v : Ptr). get_entry v self_ref_index two_tables ≡ entry_of v 3) (sym e) parent_self;
}
two_tables-IsBlank g (inr e) = record {
  pfn = 101;
  at = e;
  small = omega arith;
  counted = λ w. omega (arith, w);
  empty = λ o h. empty_entry 101 o (omega arith) (omega arith) h;
  self =
      subst (λ (v : Ptr). get_entry v self_ref_index two_tables ≡ entry_of v 3) (sym e) child_self;
}

forest : IsForest Roots two_tables
forest = IsForest-blank Roots two_tables two_tables-IsBlank

plenty : free_pages two_tables.frames ≡ 32095
plenty = free_pages_all two_tables.frames (λ q a b. ground arith)

-- A writable area of two pages without a file.
abbrev heap : Area
heap = record {
  vm_start = 0x400000;
  vm_end = 0x402000;
  prot = 2;
  vm_pgoff = 0;
  vm_filesz = 0;
  vm_align = 4096;
  vm_file = 0;
}

map_a_page-Placed_example :
    (q : ℕ) × (u : Memory) × (map_a_page hardware (λ f. 0) parent heap 0x400123 two_tables
      ≡ some (tt, u))
    × Placed Roots two_tables parent 0x400 q u
    × (30 ≤ free_pages u.frames)
map_a_page-Placed_example =
    map_a_page-Placed Roots hardware (λ f. 0) parent heap 0x400123 30 two_tables forest (inl refl)
      (omega arith) (omega (arith, plenty)) refl
      (blank_page two_tables parent 0x400 (two_tables-IsBlank parent (inl refl)) (omega arith))

mapped :
    (q : ℕ) × (u : Memory) × (map_a_page hardware (λ f. 0) parent heap 0x400123 two_tables
      ≡ some (tt, u))
    × Placed Roots two_tables parent 0x400 q u
    × (30 ≤ free_pages u.frames)
mapped =
    map_a_page-Placed Roots hardware (λ f. 0) parent heap 0x400123 30 two_tables forest (inl refl)
      (omega arith) (omega (arith, plenty)) refl
      (blank_page two_tables parent 0x400 (two_tables-IsBlank parent (inl refl)) (omega arith))

-- The parent with one page of its heap.
abbrev one_page : Memory
one_page = mapped.1

one_page_there : page_entry one_page parent 0x400 ≢ 0
one_page_there w = omega (arith, mapped.3.entry, w)

pte_trick-node_example :
    hardware one_page.byte parent (pte_trick 0x400123)
    ≡ node one_page parent 3 2 + 8 * get_pte_off 0x400
pte_trick-node_example =
    pte_trick-node Roots hardware one_page 100 0x400123 hardware-IsMmu mapped.3.forest (inl refl)
      (omega arith) (omega arith) one_page_there

two_processes : parent ≢ child
two_processes e = omega (arith, page_at_eq 100 (omega arith), page_at_eq 101 (omega arith), e)

child_empty : (k : ℕ) → k < 2 ^ 35 → page_entry one_page child k ≡ 0
child_empty k h =
    mapped.3.entries child k (inr refl) h (inl two_processes)
    ∙ blank_page two_tables child k (two_tables-IsBlank child (inr refl)) h

single : (k : ℕ) → one_page.frames.ref k ≤ 1
single k = mapped.3.bound k 1 (omega arith) (ground arith)

in_heap : (k : ℕ) → k ≤ pfn_end heap → k < 2 ^ 35
unfolding pfn_end
in_heap k b = omega arith

heap_pages : pfn_end heap + 1 - pfn_start heap ≡ 2
unfolding pfn_start pfn_end
heap_pages = refl

copy_vma_deep-DeepCopied_example :
    (t : Memory) × (copy_vma_deep heap child parent one_page ≡ some (tt, t))
    × DeepCopied Roots 2 one_page parent child (pfn_start heap) (pfn_end heap + 1) t
copy_vma_deep-DeepCopied_example =
    copy_vma_deep-DeepCopied Roots heap parent child one_page mapped.3.forest (inl refl) (inr refl)
      two_processes (omega arith) (omega arith) (λ k a b. child_empty k (in_heap k b))
      (λ k. omega (arith, single k)) (omega (arith, mapped.4, heap_pages))

copied :
    (t : Memory) × (copy_pfn 2 child parent 0x400 one_page ≡ some (tt, t))
    × Forked Roots 2 one_page parent child 0x400 t
    × (20 ≤ free_pages t.frames)
copied =
    copy_pfn-Result Roots 2 one_page parent child 0x400 20 (inl refl) (inr refl) mapped.3.forest
      two_processes (omega arith) (λ k. omega (arith, single k)) (omega (arith, mapped.4))

-- The parent after a child was made of it.
abbrev shared_page : Memory
shared_page = copied.0

shared_of :
    (t : Memory)
    → Forked Roots 2 one_page parent child 0x400 t
    → (fp : ℕ) × Shared Roots 2 one_page parent child 0x400 fp t
shared_of t (absent e f x) = absurd (one_page_there e)
shared_of t (present fp ne m) = (fp, m)

both : (fp : ℕ) × Shared Roots 2 one_page parent child 0x400 fp shared_page
both = shared_of shared_page copied.2

cow_entry : page_entry shared_page parent 0x400 ≡ both.0 * 4096 + 0x205
cow_entry = both.1.parent

same_frame : mapped.0 ≡ both.0
same_frame =
    page_at_inj mapped.0 both.0 (omega (arith, mapped.3.small)) (omega (arith, both.1.small)) (
      sym (table_of_eq mapped.0 7 (omega (arith, mapped.3.small)) (omega arith))
      ∙ ap table_of (sym mapped.3.entry)
      ∙ both.1.frame)

two_references : shared_page.frames.ref (page_entry shared_page parent 0x400 / 4096) ≡ 2
two_references =
    ap (λ (p : ℕ). shared_page.frames.ref p) (omega (arith, cow_entry))
    ∙ both.1.counted
    ∙ ap (λ (p : ℕ). one_page.frames.ref p + 1) (sym same_frame)
    ∙ omega (arith, mapped.3.taken)

write_fault-Copied_example :
    (q : ℕ) × (t : Memory) × (write_fault hardware parent 0x400123 shared_page ≡ some (resolved, t))
    × Copied Roots shared_page parent 0x400 (page_entry shared_page parent 0x400 / 4096) q t
write_fault-Copied_example =
    write_fault-Copied Roots hardware shared_page 100 0x400123 hardware-IsMmu both.1.forest
      (inl refl) (omega arith) (omega arith)
      (record {
        present = omega (arith, cow_entry);
        small_page = omega (arith, cow_entry);
        address = omega (arith, cow_entry, both.1.small);
      })
      (omega (arith, cow_entry)) (omega (arith, two_references)) (omega (arith, two_references))
      (omega (arith, copied.3))
