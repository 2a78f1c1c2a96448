-- ===== src/Paging/Trick.antt =====
-- The entry that maps the top table into itself (`self referencing trick` of include/sys/pgtable.h): the
-- address at which the processor finds the entry of a page.
use plum_os.Prelude.{
  ℕ, ◌+◌, ◌-◌, ◌*◌, ◌/◌, ◌%◌, ◌^◌, ◌<◌, ◌≡◌, sym, ap, ◌∙◌, ◌≢◌, bit_and, bit_or, arith,
}
use plum_os.Prelude.Bits.{or_flags, and_low, and_high, bit_or_comm}
use plum_os.Kernel.{Ptr}
use plum_os.Vma.{page_at}
use plum_os.Paging.{Bytes, Memory, table_of, get_entry, get_pte_off, self_ref_index}
use plum_os.Paging.Faults.{pte_trick}
use plum_os.Paging.Words.{table_of_eq, entry_of_eq, get_pte_off_eq}
use plum_os.Paging.Tree.{
  IsPresent, IsUsed, IsForest, root_used, node, slot, page_entry, slot_entry, slot_none, node_none,
  node_of_slot, node-zero, page_entry_def, page_at_inj, user_size_def,
}

-- The processor's look-up of a page through four tables.
pub record IsMmu (mmu : Bytes → Ptr → ℕ → Ptr) : Type 0 where
  pub walks :
      (s : Memory) (pgd va e1 e2 e3 e4 : ℕ)
      → get_entry pgd (va / 2 ^ 39 % 512) s ≡ e1
      → IsPresent e1
      → get_entry (table_of e1) (va / 2 ^ 30 % 512) s ≡ e2
      → IsPresent e2
      → get_entry (table_of e2) (va / 2 ^ 21 % 512) s ≡ e3
      → IsPresent e3
      → get_entry (table_of e3) (va / 2 ^ 12 % 512) s ≡ e4
      → IsPresent e4
      → mmu s.byte pgd va ≡ table_of e4 + va % 4096

-- The top table p maps itself, and the three entries on the way to the page are present.
pub record IsOpen (s : Memory) (p pfn : ℕ) : Type 0 where
  pub table : p < 2 ^ 15
  pub self : get_entry (page_at p) self_ref_index s ≡ p * 4096 + 3
  pub top : IsPresent (slot s (page_at p) 0 (pfn / 2 ^ 27))
  pub middle : IsPresent (slot s (page_at p) 1 (pfn / 2 ^ 18))
  pub low : IsPresent (slot s (page_at p) 2 (pfn / 512))

pte_trick_eq : (addr : ℕ) → addr < 2 ^ 47 → pte_trick addr ≡ 0xffffff0000000000 + addr / 4096 * 8
unfolding pte_trick
pte_trick_eq addr h =
    ap (λ (v : ℕ). bit_and v (2 ^ 64 - 8)) joined
    ∙ and_high 3 (0xffffff0000000000 + addr / 512) (2 ^ 61 - 1)
    ∙ ap (λ (v : ℕ). v * 8) (and_low 61 ((0xffffff0000000000 + addr / 512) / 8))
    ∙ omega arith
  where
    joined :
        bit_or (bit_and (addr / 2 ^ 9) (2 ^ 39 - 1)) 0xffffff0000000000
        ≡ 0xffffff0000000000 + addr / 512
    joined =
        ap (λ (v : ℕ). bit_or v 0xffffff0000000000) (and_low 39 (addr / 2 ^ 9) ∙ omega arith)
        ∙ bit_or_comm (addr / 512) 0xffffff0000000000
        ∙ or_flags 40 0xffffff (addr / 512) (omega arith)

present_nonzero : (e : ℕ) → IsPresent e → e ≢ 0
present_nonzero e h w = omega (arith, h.present)

-- In a forest the way to a mapped page is open.
pub IsForest-IsOpen :
    (R : Ptr → Type 0) (s : Memory) (p pfn : ℕ)
    → IsForest R s
    → R (page_at p)
    → p < 2 ^ 18
    → pfn < 2 ^ 35
    → page_entry s (page_at p) pfn ≢ 0
    → IsOpen s p pfn
IsForest-IsOpen R s p pfn forest root small user mapped = record {
  table = omega (arith, same_pfn, top_table.small);
  self = forest.self g root ∙ entry_of_eq p 3 small (omega arith);
  top =
      forest.opened g 0 (pfn / 2 ^ 27) root (omega arith) (omega (arith, user_size_def 0))
        top_there;
  middle =
      forest.opened g 1 (pfn / 2 ^ 18) root (omega arith) (omega (arith, user_size_def 1))
        middle_there;
  low = forest.opened g 2 (pfn / 512) root (omega arith) (omega (arith, user_size_def 2)) low_there;
}
  where
    g : Ptr
    g = page_at p

    top_table : IsUsed s (node s g 0 0)
    top_table = root_used R s g forest root

    same_pfn : top_table.pfn ≡ p
    same_pfn =
        page_at_inj top_table.pfn p (omega (arith, top_table.small)) small
          (sym top_table.at ∙ node-zero s g 0)

    low_there : slot s g 2 (pfn / 512) ≢ 0
    low_there w =
        mapped (page_entry_def s g pfn ∙ slot_none s g 3 pfn (node_none s g 2 (pfn / 512) w))

    middle_there : slot s g 1 (pfn / 2 ^ 18) ≢ 0
    middle_there w =
        low_there
          (slot_none s g 2 (pfn / 512) (ap (node s g 2) split ∙ node_none s g 1 (pfn / 2 ^ 18) w))
      where
        split : pfn / 512 / 512 ≡ pfn / 2 ^ 18
        split = omega arith

    top_there : slot s g 0 (pfn / 2 ^ 27) ≢ 0
    top_there w =
        middle_there (
          slot_none s g 1 (pfn / 2 ^ 18) (ap (node s g 1) split ∙ node_none s g 0 (pfn / 2 ^ 27) w))
      where
        split : pfn / 2 ^ 18 / 512 ≡ pfn / 2 ^ 27
        split = omega arith

-- The address of the entry, where the way is open.
pub pte_trick-entry_at :
    (mmu : Bytes → Ptr → ℕ → Ptr) (s : Memory) (p addr : ℕ)
    → IsMmu mmu
    → addr < 2 ^ 47
    → IsOpen s p (addr / 4096)
    → mmu s.byte (page_at p) (pte_trick addr)
      ≡ node s (page_at p) 3 (addr / 4096 / 512) + 8 * (addr / 4096 % 512)
pte_trick-entry_at mmu s p addr m small o =
    ap (mmu s.byte (page_at p)) (pte_trick_eq addr small)
    ∙ m.walks s (page_at p) va (p * 4096 + 3) (slot s g 0 (pfn / 2 ^ 27))
        (slot s g 1 (pfn / 2 ^ 18)) (slot s g 2 (pfn / 512)) (first ∙ o.self)
        (record {
          present = omega arith;
          small_page = omega arith;
          address = omega (arith, o.table);
        })
        second o.top third o.middle fourth o.low
    ∙ ap (λ (v : ℕ). v + va % 4096)
        (sym (node_of_slot s g 2 (pfn / 512) (present_nonzero (slot s g 2 (pfn / 512)) o.low)))
    ∙ ap (λ (v : ℕ). node s g 3 (pfn / 512) + v) offset
  where
    g : Ptr
    g = page_at p

    pfn : ℕ
    pfn = addr / 4096

    va : ℕ
    va = 0xffffff0000000000 + addr / 4096 * 8

    at : (t : Ptr) (i j : ℕ) → i ≡ j → get_entry t i s ≡ get_entry t j s
    at t i j e = ap (λ (k : ℕ). get_entry t k s) e

    first : get_entry g (va / 2 ^ 39 % 512) s ≡ get_entry g self_ref_index s
    first = at g (va / 2 ^ 39 % 512) self_ref_index (omega arith)

    self_table : table_of (p * 4096 + 3) ≡ g
    self_table = table_of_eq p 3 (omega (arith, o.table)) (omega arith)

    second : get_entry (table_of (p * 4096 + 3)) (va / 2 ^ 30 % 512) s ≡ slot s g 0 (pfn / 2 ^ 27)
    second =
        ap (λ (t : Ptr). get_entry t (va / 2 ^ 30 % 512) s)
          (self_table ∙ sym (node-zero s g (pfn / 2 ^ 27 / 512)))
        ∙ at (node s g 0 (pfn / 2 ^ 27 / 512)) (va / 2 ^ 30 % 512) (pfn / 2 ^ 27 % 512)
            (omega arith)
        ∙ slot_entry s g 0 (pfn / 2 ^ 27) (present_nonzero (slot s g 0 (pfn / 2 ^ 27)) o.top)

    third :
        get_entry (table_of (slot s g 0 (pfn / 2 ^ 27))) (va / 2 ^ 21 % 512) s
        ≡ slot s g 1 (pfn / 2 ^ 18)
    third =
        ap (λ (t : Ptr). get_entry t (va / 2 ^ 21 % 512) s)
          (sym (
              node_of_slot s g 0 (pfn / 2 ^ 27) (present_nonzero (slot s g 0 (pfn / 2 ^ 27)) o.top))
            ∙ ap (node s g 1) split)
        ∙ at (node s g 1 (pfn / 2 ^ 18 / 512)) (va / 2 ^ 21 % 512) (pfn / 2 ^ 18 % 512)
            (omega arith)
        ∙ slot_entry s g 1 (pfn / 2 ^ 18) (present_nonzero (slot s g 1 (pfn / 2 ^ 18)) o.middle)
      where
        split : pfn / 2 ^ 27 ≡ pfn / 2 ^ 18 / 512
        split = omega arith

    fourth :
        get_entry (table_of (slot s g 1 (pfn / 2 ^ 18))) (va / 2 ^ 12 % 512) s
        ≡ slot s g 2 (pfn / 512)
    fourth =
        ap (λ (t : Ptr). get_entry t (va / 2 ^ 12 % 512) s)
          (sym (
              node_of_slot s g 1 (pfn / 2 ^ 18)
                (present_nonzero (slot s g 1 (pfn / 2 ^ 18)) o.middle))
            ∙ ap (node s g 2) split)
        ∙ at (node s g 2 (pfn / 512 / 512)) (va / 2 ^ 12 % 512) (pfn / 512 % 512) (omega arith)
        ∙ slot_entry s g 2 (pfn / 512) (present_nonzero (slot s g 2 (pfn / 512)) o.low)
      where
        split : pfn / 2 ^ 18 ≡ pfn / 512 / 512
        split = omega arith

    offset : va % 4096 ≡ 8 * (pfn % 512)
    offset = omega arith

-- Where a page is mapped at an address below 2 ^ 47, on an address space of a forest whose top table is a page
-- below 2 ^ 18, a processor that looks pages up in four tables finds the page's entry at the trick's
-- address: it is the entry with the page's index in the last of the three tables below the top table.
pub pte_trick-node :
    (R : Ptr → Type 0) (mmu : Bytes → Ptr → ℕ → Ptr) (s : Memory) (p addr : ℕ)
    → IsMmu mmu
    → IsForest R s
    → R (page_at p)
    → p < 2 ^ 18
    → addr < 2 ^ 47
    → page_entry s (page_at p) (addr / 4096) ≢ 0
    → mmu s.byte (page_at p) (pte_trick addr)
      ≡ node s (page_at p) 3 (addr / 4096 / 512) + 8 * get_pte_off (addr / 4096)
pte_trick-node R mmu s p addr m forest root p_small small mapped =
    pte_trick-entry_at mmu s p addr m small
      (IsForest-IsOpen R s p (addr / 4096) forest root p_small (omega arith) mapped)
    ∙ ap (λ (o : ℕ). node s (page_at p) 3 (addr / 4096 / 512) + 8 * o)
        (sym (get_pte_off_eq (addr / 4096)))
