-- ===== src/Paging/Faults.antt =====
-- map_a_page of sys/mm.c and page_fault_handler of sys/mmap.c. What the processor makes of a user address is
-- a parameter, as is the field start_addr of a file.
use plum_os.Prelude.{
  ℕ, zero, suc, ◌+◌, ◌-◌, ◌*◌, ◌/◌, ◌%◌, ◌^◌, bit_and, bit_or, ◌&&◌, Option, none, some, List, [],
  ◌∷◌, ◌==◌, ltb, leb, if◌then◌else◌,
}
use plum_os.Frames.{get_page_ref, deduct_page_ref}
use plum_os.Kernel.{Ptr, null, put}
use plum_os.Paging.{
  Bytes, Memory, Act, done, ◌>>=◌, load, store, pa2va, page_mask, table_of, get_entry, entry_of,
  put_entry, get_pgd_off, get_pud_off, get_pmd_off, get_pte_off, open_entry, pte_cow, get_zero_page,
  new_page, pte_table, copy_page,
}

-- `struct vm_area_struct` without its link.
pub record Area : Type 0 where
  pub vm_start : ℕ
  pub vm_end : ℕ
  pub prot : ℕ
  pub vm_pgoff : ℕ
  pub vm_filesz : ℕ
  pub vm_align : ℕ
  pub vm_file : Ptr

-- The areas of a process, in the order of their links.
unfoldable pub search_vma : ℕ → List Area → Option Area
search_vma addr [] = none
search_vma addr (v ∷ vs) =
    let rest = search_vma addr vs in
    if leb v.vm_start addr && ltb addr v.vm_end then some v else rest

-- The address of a page table entry under the entry that maps the top table into itself.
unfoldable pub pte_trick : ℕ → ℕ
pte_trick addr =
    bit_and (bit_or (bit_and (addr / 2 ^ 9) (2 ^ 39 - 1)) 0xffffff0000000000) (2 ^ 64 - 8)

unfoldable pub prot_entry : ℕ → ℕ
prot_entry prot = bit_or (bit_or 1 prot) 4

pub data Fault : Type 0 where
  resolved : Fault
  -- exit_st(current, -1)
  segmentation_fault : Fault

-- The tables are walked again and the entry gets the area's protection.
unfoldable pub set_prot : Ptr → ℕ → ℕ → Memory → Memory
unfolding prot_entry
set_prot pgd pfn prot s =
    let pud = table_of (get_entry pgd (get_pgd_off pfn) s) in
    let pmd = table_of (get_entry pud (get_pud_off pfn) s) in
    let pte = table_of (get_entry pmd (get_pmd_off pfn) s) in
    let pg_frame = table_of (get_entry pte (get_pte_off pfn) s) in
    put_entry pte (get_pte_off pfn) pg_frame (prot_entry prot) s

unfoldable pub deduct : ℕ → Memory → Memory
deduct pfn s = record s { frames = deduct_page_ref pfn s.frames }

-- `mmu m pgd a` is the kernel's own address of the byte that `a` stands for under the tables at `pgd`.
module _ (mmu : Bytes → Ptr → ℕ → Ptr) where
  -- `for (i = 0; i < PG_SIZE; i++) *(usrp + i) = *(fp + i);`
  unfoldable pub fill_loop : ℕ → ℕ → Ptr → ℕ → Ptr → Bytes → Bytes
  fill_loop zero i pgd usrp fp m = m
  fill_loop (suc n) i pgd usrp fp m =
      fill_loop n (i + 1) pgd usrp fp
        (put m (mmu m pgd ((usrp + i) % 2 ^ 64)) (m ((fp + i) % 2 ^ 64)))

  unfoldable pub fill_page : Ptr → ℕ → Ptr → Memory → Memory
  fill_page pgd usrp fp s = record s { byte = fill_loop 4096 0 pgd usrp fp s.byte }

  -- A read and a write of the entry through the trick's address.
  unfoldable pub get_pte_entry_trick : Ptr → ℕ → Memory → ℕ
  get_pte_entry_trick pgd addr s = load s.byte (mmu s.byte pgd (pte_trick addr))

  unfoldable pub put_pte_entry_trick : Ptr → ℕ → Ptr → ℕ → Memory → Memory
  put_pte_entry_trick pgd addr va prot s = record s {
    byte = store s.byte (mmu s.byte pgd (pte_trick addr)) (entry_of va prot);
  }

  -- A page that others share is copied, one that nobody shares any more is made writable. The count is an
  -- `int`, negative from 2 ^ 31 on.
  unfoldable pub copy_on_write : Ptr → ℕ → ℕ → Act Fault
  unfolding deduct put_pte_entry_trick
  copy_on_write pgd addr pte s =
      let ref = get_page_ref (pte / 4096) s.frames in
      if ltb 1 ref && ltb ref (2 ^ 31)
      then (do
        pg_frame ← get_zero_page
        λ t. some (
          resolved,
          deduct (pte / 4096) (
              put_pte_entry_trick pgd addr pg_frame open_entry
                (copy_page pg_frame (pa2va (bit_and pte page_mask)) t)),
        ))
          s
      else some
          (resolved, put_pte_entry_trick pgd addr (pa2va (bit_and pte page_mask)) open_entry s)

  -- Present, for a write.
  unfoldable pub write_fault : Ptr → ℕ → Act Fault
  unfolding copy_on_write get_pte_entry_trick
  write_fault pgd addr s =
      let pte = get_pte_entry_trick pgd addr s in
      if pte == 0
      then none
      else if bit_and pte pte_cow == 0
      then some (segmentation_fault, s)
      else copy_on_write pgd addr pte s

  module _ (start_addr : Ptr → Ptr) where
    unfoldable pub load_file : Ptr → Area → ℕ → Memory → Memory
    load_file pgd v pfn s =
        let vm_inner_off = pfn * 4096 % 2 ^ 64 + (2 ^ 64 - v.vm_start) in
        let fp = (start_addr v.vm_file + v.vm_pgoff + vm_inner_off) % 2 ^ 64 in
        set_prot pgd pfn v.prot (fill_page pgd (pfn * 4096 % 2 ^ 64) fp s)

    -- The page itself: one that is mapped stays.
    unfoldable pub map_frame : Ptr → Area → ℕ → Ptr → Act (Unit {0})
    unfolding new_page
    map_frame pgd v pfn pte s =
        if get_entry pte (get_pte_off pfn) s == 0
        then (do
          p ← new_page pte (get_pte_off pfn) open_entry
          λ t. some (tt, if v.vm_file == null then t else load_file pgd v pfn t))
            s
        else some (tt, s)

    unfoldable pub map_a_page : Ptr → Area → ℕ → Act (Unit {0})
    unfolding pte_table map_frame
    map_a_page pgd v addr = do pte ← pte_table pgd (addr / 4096); map_frame pgd v (addr / 4096) pte

    unfoldable pub absent_fault : Ptr → Option Area → ℕ → Act Fault
    unfolding map_a_page
    absent_fault pgd none addr = done segmentation_fault
    absent_fault pgd (some v) addr = do u ← map_a_page pgd v addr; done resolved

    unfoldable pub page_fault_handler : Ptr → List Area → ℕ → ℕ → Act Fault
    unfolding absent_fault write_fault search_vma
    page_fault_handler pgd areas addr ecode s =
        if bit_and ecode 4 == 0
        then none
        else if bit_and ecode 1 == 0
        then absent_fault pgd (search_vma addr areas) addr s
        else if bit_and ecode 2 == 0
        then some (segmentation_fault, s)
        else write_fault pgd addr s
