-- ===== src/Paging/Fork.antt =====
-- copy_vma_deep, copy_vma and copy_mm of sys/syscall.c: the areas and the mapped pages of a new process.
use plum_os.Prelude.{
  ℕ, zero, suc, ◌+◌, ◌-◌, ◌/◌, ◌%◌, ◌^◌, bit_and, List, [], ◌∷◌, ◌++◌, ◌==◌, if◌then◌else◌, some,
}
use plum_os.Frames.{add_page_ref}
use plum_os.Kernel.{Ptr, null}
use plum_os.Paging.{
  Memory, Act, done, ◌>>=◌, va2pa, table_of, get_entry, put_entry, lower_table, get_pgd_off,
  get_pud_off, get_pmd_off, get_pte_off, get_zero_page,
}
use plum_os.Paging.Faults.{Area}

-- One level of both processes' tables: `continue` where the old one has no entry.
unfoldable pub copy_level : Ptr → Ptr → ℕ → (Ptr → Ptr → Act (Unit {0})) → Act (Unit {0})
copy_level old new off next s =
    if get_entry old off s == 0
    then some (tt, s)
    else (do n ← lower_table new off; next (table_of (get_entry old off s)) n) s

unfoldable pub add_ref : ℕ → Memory → Memory
add_ref pfn s = record s { frames = add_page_ref pfn s.frames }

-- The entries of both processes: a writable page is marked copy-on-write and read-only in both.
unfoldable pub mark_shared : ℕ → Ptr → Ptr → ℕ → Ptr → Memory → Memory
mark_shared prot pte npte off pg_frame s =
    if bit_and prot 2 == 0
    then put_entry npte off pg_frame 5 s
    else put_entry npte off pg_frame 0x205 (put_entry pte off pg_frame 0x205 s)

unfoldable pub share_page : ℕ → ℕ → Ptr → Ptr → Act (Unit {0})
unfolding mark_shared add_ref
share_page prot off pte npte s =
    if get_entry pte off s == 0
    then some (tt, s)
    else (let pg_frame = table_of (get_entry pte off s) in
        some (tt, add_ref (va2pa pg_frame / 4096) (mark_shared prot pte npte off pg_frame s)))

-- The body of the `for` loop.
unfoldable pub copy_pfn : ℕ → Ptr → Ptr → ℕ → Act (Unit {0})
unfolding copy_level share_page
copy_pfn prot new_pgd old_pgd i = copy_level old_pgd new_pgd (get_pgd_off i) λ pud npud.
    copy_level pud npud (get_pud_off i) λ pmd npmd.
      copy_level pmd npmd (get_pmd_off i) λ pte npte. share_page prot (get_pte_off i) pte npte

-- `for (i = pfn_start; i <= pfn_end; i++)`, with the rounds that are left.
unfoldable pub copy_pages : ℕ → ℕ → Ptr → Ptr → ℕ → Act (Unit {0})
unfolding copy_pfn
copy_pages zero prot new_pgd old_pgd i = done tt
copy_pages (suc n) prot new_pgd old_pgd i = do
  u ← copy_pfn prot new_pgd old_pgd i
  copy_pages n prot new_pgd old_pgd (i + 1)

-- `vm_end - 1` is taken of 64 bits; both bounds are page numbers.
unfoldable pub pfn_start : Area → ℕ
pfn_start v = v.vm_start / 4096

unfoldable pub pfn_end : Area → ℕ
pfn_end v = (v.vm_end + (2 ^ 64 - 1)) % 2 ^ 64 / 4096

unfoldable pub copy_vma_deep : Area → Ptr → Ptr → Act (Unit {0})
unfolding copy_pages pfn_start pfn_end
copy_vma_deep old_vmap new_pgd old_pgd =
    copy_pages (pfn_end old_vmap + 1 - pfn_start old_vmap) old_vmap.prot new_pgd old_pgd
      (pfn_start old_vmap)

-- All fields but vm_align.
unfoldable pub copy_vma : Area → Area → Area
copy_vma new old = record old { vm_align = new.vm_align }

abbrev pub blank_area : Area
blank_area = record {
  vm_start = 0;
  vm_end = 0;
  prot = 0;
  vm_pgoff = 0;
  vm_filesz = 0;
  vm_align = 0;
  vm_file = null;
}

-- The areas in the order of their links, each with the page that holds it; insert_vma puts a new one at
-- the end.
unfoldable pub copy_mm : List (Ptr × Area) → Ptr → Ptr → List (Ptr × Area) → Act (List (Ptr × Area))
unfolding copy_vma copy_vma_deep
copy_mm [] new_pgd old_pgd new = done new
copy_mm (old_vmap ∷ rest) new_pgd old_pgd new = do
  p ← get_zero_page
  u ← copy_vma_deep old_vmap.1 new_pgd old_pgd
  copy_mm rest new_pgd old_pgd (new ++ ((p, copy_vma blank_area old_vmap.1) ∷ []))
