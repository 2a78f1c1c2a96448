-- ===== src/Paging/Write.antt =====
-- The branch of page_fault_handler for a write to a page that is present.
use plum_os.Prelude.{
  ℕ, ◌+◌, ◌*◌, ◌/◌, ◌%◌, ◌^◌, ◌≤◌, ◌<◌, ◌≡◌, refl, sym, ap, ◌∙◌, ◌≢◌, ◌==◌, false, bit_and, arith,
  some,
}
use plum_os.Prelude.Bits.{and_bit, and_page}
use plum_os.Frames.{get_page_ref}
use plum_os.Frames.Count.{free_pages}
use plum_os.Kernel.{Ptr}
use plum_os.Vma.{page_at}
use plum_os.Paging.{
  Bytes, Memory, pa2va, page_mask, load, entry_at, table_of, get_entry, open_entry, copy_page,
  pte_cow, get_zero_page,
}
use plum_os.Paging.Faults.{
  resolved, deduct, get_pte_entry_trick, put_pte_entry_trick, pte_trick, copy_on_write, write_fault,
}
use plum_os.Paging.Words.{entry_at_eq, page_at_eq}
use plum_os.Paging.Tree.{
  IsPresent, node, page_entry, IsUsed, IsForest, slot_at, page_entry_def, user_size_half,
  user_pages, slot_none,
}
use plum_os.Paging.Fresh.{Fresh, get_zero_page-some}
use plum_os.Paging.Map.{and_then-some}
use plum_os.Paging.Trick.{IsMmu, IsOpen, IsForest-IsOpen, pte_trick-entry_at}
use plum_os.Paging.Cow.{
  Copied, copied_state, copied_state-Copied, copy-IsOpen, copy-node, put_pte_entry_trick-put_entry,
}

-- The page number in an entry is that of its page.
table_of-pfn : (e p : ℕ) → e < 2 ^ 52 → p < 2 ^ 15 → table_of e ≡ page_at p → e / 4096 ≡ p
unfolding table_of
table_of-pfn e p h k w =
    omega (arith, and_page (pa2va e) (omega arith), w, page_at_eq p (omega arith))

frame_of :
    (e : ℕ) → e < 2 ^ 52 → e / 4096 < 2 ^ 15 → pa2va (bit_and e page_mask) ≡ page_at (e / 4096)
frame_of e h k =
    ap pa2va (and_page e (omega arith)) ∙ omega (arith, page_at_eq (e / 4096) (omega arith))

write_fault_def :
    (mmu : Bytes → Ptr → ℕ → Ptr) (pgd addr : ℕ) (s : Memory)
    → get_pte_entry_trick mmu pgd addr s ≢ 0
    → (bit_and (get_pte_entry_trick mmu pgd addr s) pte_cow == 0) ≡ false
    → write_fault mmu pgd addr s ≡ copy_on_write mmu pgd addr (get_pte_entry_trick mmu pgd addr s) s
unfolding write_fault
write_fault_def mmu pgd addr s ne cow = ground (arith, ne, cow)

-- The copying branch.
copying : (Bytes → Ptr → ℕ → Ptr) → ℕ → ℕ → ℕ → Ptr → Memory → Memory
copying mmu pgd addr pte pg_frame t = deduct (pte / 4096) (
    put_pte_entry_trick mmu pgd addr pg_frame open_entry
      (copy_page pg_frame (pa2va (bit_and pte page_mask)) t))

copy_on_write_shared :
    (mmu : Bytes → Ptr → ℕ → Ptr) (pgd addr pte q : ℕ) (s v : Memory)
    → 2 ≤ s.frames.ref (pte / 4096)
    → s.frames.ref (pte / 4096) < 2 ^ 31
    → get_zero_page s ≡ some (q, v)
    → copy_on_write mmu pgd addr pte s ≡ some (resolved, copying mmu pgd addr pte q v)
unfolding copy_on_write get_page_ref copying
copy_on_write_shared mmu pgd addr pte q s v a b e =
    ground (arith, and_then-some (λ p t. some (resolved, copying mmu pgd addr pte p t)) e)

entry_at_sum :
    (tp off : ℕ) → tp < 2 ^ 15 → off < 512 → page_at tp + 8 * off ≡ entry_at (page_at tp) off
entry_at_sum tp off h k =
    omega (arith, page_at_eq tp (omega arith), entry_at_eq tp off (omega arith) k)

-- Where the processor finds the entry that maps the page.
entry_address :
    (mmu : Bytes → Ptr → ℕ → Ptr) (t : Memory) (p addr tp : ℕ)
    → IsMmu mmu
    → addr < 2 ^ 47
    → IsOpen t p (addr / 4096)
    → node t (page_at p) 3 (addr / 4096 / 512) ≡ page_at tp
    → tp < 2 ^ 15
    → mmu t.byte (page_at p) (pte_trick addr) ≡ entry_at (page_at tp) (addr / 4096 % 512)
entry_address mmu t p addr tp m small o here tp_small =
    pte_trick-entry_at mmu t p addr m small o
    ∙ ap (λ (v : ℕ). v + 8 * (addr / 4096 % 512)) here
    ∙ entry_at_sum tp (addr / 4096 % 512) tp_small (omega arith)

get_trick_def :
    (mmu : Bytes → Ptr → ℕ → Ptr) (pgd addr table o : ℕ) (s : Memory)
    → mmu s.byte pgd (pte_trick addr) ≡ entry_at table o
    → get_pte_entry_trick mmu pgd addr s ≡ get_entry table o s
unfolding get_pte_entry_trick get_entry
get_trick_def mmu pgd addr table o s e = ap (load s.byte) e

-- The entry that the handler reads through the trick is the one that maps the page.
pub get_pte_entry_trick-page_entry :
    (mmu : Bytes → Ptr → ℕ → Ptr) (s : Memory) (p addr tp : ℕ)
    → IsMmu mmu
    → addr < 2 ^ 47
    → IsOpen s p (addr / 4096)
    → node s (page_at p) 3 (addr / 4096 / 512) ≡ page_at tp
    → tp < 2 ^ 15
    → get_pte_entry_trick mmu (page_at p) addr s ≡ page_entry s (page_at p) (addr / 4096)
get_pte_entry_trick-page_entry mmu s p addr tp m small o here tp_small =
    get_trick_def mmu (page_at p) addr (page_at tp) (addr / 4096 % 512) s
      (entry_address mmu s p addr tp m small o here tp_small)
    ∙ sym (slot_at s (page_at p) 3 (addr / 4096) tp here (omega arith))
    ∙ sym (page_entry_def s (page_at p) (addr / 4096))

cow_bit : (e : ℕ) → e / 512 % 2 ≡ 1 → (bit_and e pte_cow == 0) ≡ false
cow_bit e h = ground (arith, and_bit 9 e, h)

copying_def :
    (mmu : Bytes → Ptr → ℕ → Ptr) (p addr tp off pte q : ℕ) (v : Memory)
    → pte < 2 ^ 52
    → pte / 4096 < 2 ^ 15
    → mmu (copy_page (page_at q) (page_at (pte / 4096)) v).byte (page_at p) (pte_trick addr)
      ≡ entry_at (page_at tp) off
    → copying mmu (page_at p) addr pte (page_at q) v ≡ copied_state tp off q (pte / 4096) v
unfolding copying
copying_def mmu p addr tp off pte q v a b e =
    ap
      (λ (src : Ptr). deduct (pte / 4096) (
        put_pte_entry_trick mmu (page_at p) addr (page_at q) open_entry
          (copy_page (page_at q) src v)))
      (frame_of pte a b)
    ∙ ap (deduct (pte / 4096)) (
        put_pte_entry_trick-put_entry mmu (page_at p) addr (page_at tp) off (page_at q) open_entry
          (copy_page (page_at q) (page_at (pte / 4096)) v) e)

write_fault-copied_state :
    (mmu : Bytes → Ptr → ℕ → Ptr) (s v : Memory) (p addr tp q : ℕ)
    → IsMmu mmu
    → addr < 2 ^ 47
    → IsOpen s p (addr / 4096)
    → (let pte = page_entry s (page_at p) (addr / 4096) in
        IsPresent pte
        → pte / 512 % 2 ≡ 1
        → 2 ≤ s.frames.ref (pte / 4096)
        → s.frames.ref (pte / 4096) < 2 ^ 31
        → node s (page_at p) 3 (addr / 4096 / 512) ≡ page_at tp
        → tp < 2 ^ 15
        → pte / 4096 < 2 ^ 15
        → get_zero_page s ≡ some (page_at q, v)
        → IsOpen (copy_page (page_at q) (page_at (pte / 4096)) v) p (addr / 4096)
        → node (copy_page (page_at q) (page_at (pte / 4096)) v) (page_at p) 3 (addr / 4096 / 512)
          ≡ node s (page_at p) 3 (addr / 4096 / 512)
        → write_fault mmu (page_at p) addr s
          ≡ some (resolved, copied_state tp (addr / 4096 % 512) q (pte / 4096) v))
write_fault-copied_state mmu s v p addr tp q m small o present cow shared int here tp_small fp_small
      e o2 same =
    write_fault_def mmu (page_at p) addr s (λ w. omega (arith, present.present, sym read ∙ w))
      (ap (λ (x : ℕ). bit_and x pte_cow == 0) read ∙ cow_bit pte cow)
    ∙ ap (λ (x : ℕ). copy_on_write mmu (page_at p) addr x s) read
    ∙ copy_on_write_shared mmu (page_at p) addr pte (page_at q) s v shared int e
    ∙ ap (λ (t : Memory). some (resolved, t))
        (copying_def mmu p addr tp (addr / 4096 % 512) pte q v present.address fp_small (
          entry_address mmu (copy_page (page_at q) (page_at (pte / 4096)) v) p addr tp m small o2
            (same ∙ here) tp_small))
  where
    pte : ℕ
    pte = page_entry s (page_at p) (addr / 4096)

    read : get_pte_entry_trick mmu (page_at p) addr s ≡ pte
    read = get_pte_entry_trick-page_entry mmu s p addr tp m small o here tp_small

-- A write below 2 ^ 47 to a page whose entry is present (and no large page, with an address of 52
-- bits), is marked copy-on-write and leads to a page with two or more references, below 2 ^ 31, on an address
-- space of a forest whose top table is a page below 2 ^ 18, with a page free and a processor that looks pages
-- up in four tables: the fault is resolved, the page is mapped to a private, writable copy of its
-- bytes, the page that was shared has one reference less, no other mapping, byte of a mapped page
-- or count changes, and the tables are a forest.
pub write_fault-Copied :
    (R : Ptr → Type 0) (mmu : Bytes → Ptr → ℕ → Ptr) (s : Memory) (p addr : ℕ)
    → IsMmu mmu
    → IsForest R s
    → R (page_at p)
    → addr < 2 ^ 47
    → p < 2 ^ 18
    → IsPresent (page_entry s (page_at p) (addr / 4096))
    → page_entry s (page_at p) (addr / 4096) / 512 % 2 ≡ 1
    → 2 ≤ s.frames.ref (page_entry s (page_at p) (addr / 4096) / 4096)
    → s.frames.ref (page_entry s (page_at p) (addr / 4096) / 4096) < 2 ^ 31
    → 1 ≤ free_pages s.frames
    → (q : ℕ) × (t : Memory) × (write_fault mmu (page_at p) addr s ≡ some (resolved, t))
      × Copied R s (page_at p) (addr / 4096) (page_entry s (page_at p) (addr / 4096) / 4096) q t
write_fault-Copied R mmu s p addr m forest root small p_small present cow shared int free =
    go (get_zero_page-some 0 s free)
  where
    g : Ptr
    g = page_at p

    pfn : ℕ
    pfn = addr / 4096

    pte : ℕ
    pte = page_entry s g pfn

    fp : ℕ
    fp = pte / 4096

    pte_nonzero : pte ≢ 0
    pte_nonzero w = omega (arith, present.present, w)

    open_way : IsOpen s p pfn
    open_way = IsForest-IsOpen R s p pfn forest root p_small (omega arith) pte_nonzero

    frame : IsUsed s (table_of pte)
    frame = forest.mapped g pfn root (omega arith) pte_nonzero

    fp_small : fp < 2 ^ 15
    fp_small =
        omega (arith, table_of-pfn pte frame.pfn present.address frame.small frame.at, frame.small)

    table : IsUsed s (node s g 3 (pfn / 512))
    table =
        forest.used g 3 (pfn / 512) root (omega arith)
          (user_size_half 3 pfn (omega (arith, user_pages)))
          (λ w. pte_nonzero (page_entry_def s g pfn ∙ slot_none s g 3 pfn w))

    go :
        ((q : ℕ) × (v : Memory) × (get_zero_page s ≡ some (page_at q, v))
          × Fresh s v q
          × (0 ≤ free_pages v.frames))
        → (q : ℕ) × (t : Memory) × (write_fault mmu g addr s ≡ some (resolved, t))
          × Copied R s g pfn fp q t
    go (q, v, e, k, left) = (
      q,
      copied_state table.pfn (pfn % 512) q fp v,
      write_fault-copied_state mmu s v p addr table.pfn q m small open_way present cow shared int
          table.at table.small fp_small e
          (copy-IsOpen R s v g pfn table.pfn fp q forest root (omega arith) table.at table.small
            table.counted fp_small shared int k p refl open_way)
          (copy-node R s v g pfn table.pfn fp q forest root (omega arith) table.at table.small
            table.counted fp_small shared int k),
      copied_state-Copied R s v g pfn table.pfn fp q forest root (omega arith) table.at table.small
          table.counted fp_small shared int k,
    )
