-- ===== src/Examples/Areas.antt =====
-- Memory areas at concrete states.
use plum_os.Prelude.{
  ℕ, ◌<◌, ◌≤◌, ◌≡◌, refl, ◌≢◌, subst, false, [], ◌∷◌, arith, ◌==◌, if◌then◌else◌, has,
}
use plum_os.Kernel.{Ptr, null}
use plum_os.TaskList.Chain.{Chain}
use plum_os.Vma.{Mm, done, search_vma, page_at, brk}
use plum_os.Vma.Break.{IsMapped, brk-search_vma}

-- The code at 0x1000 to 0x3000 and the data at 0x3000 to 0x5000; the heap starts behind them.
abbrev loaded : Mm
loaded = record {
  mmap = 100;
  user_heap = 0x5000;
  brk = 0x5000;
  next = λ p. if p == 100 then 200 else null;
  vma = λ p. record {
    vm_start = if p == 100 then 0x1000 else 0x3000;
    vm_end = if p == 100 then 0x3000 else 0x5000;
    prot = 2;
    vm_align = 4096;
    vm_file = null;
  };
  frames = record { ref = λ p. if p == 700 then 0 else 1; bitmap = λ i. 0; shl_int = λ k. 0 };
}

loaded-Chain : Chain loaded.next loaded.mmap (100 ∷ 200 ∷ [])
loaded-Chain = ground arith

loaded_free : (q : ℕ) → loaded.frames.ref q ≡ 0 → has (page_at q) (100 ∷ 200 ∷ []) ≡ false
unfolding page_at
loaded_free q h = subst (λ (p : ℕ). has (page_at p) (100 ∷ 200 ∷ []) ≡ false) at refl
  where
    at : 700 ≡ q
    at = ground arith

loaded-IsMapped : IsMapped loaded (100 ∷ 200 ∷ [])
loaded-IsMapped = record { chain = loaded-Chain; in_use = loaded_free }

brk-search_vma_example :
    (t : Mm) × (brk 3 0x7000 loaded ≡ done 0x7000 t)
    × ((addr : ℕ)
        → 0x5000 ≤ addr
        → addr < 0x7000
        → (p : Ptr) × (search_vma 4 addr t ≡ done p t) × (p ≢ null))
brk-search_vma_example =
    brk-search_vma 3 0x7000 700 loaded (100 ∷ 200 ∷ []) loaded-IsMapped (omega arith) refl
      (omega arith) (omega arith) (omega arith) (omega arith) refl
