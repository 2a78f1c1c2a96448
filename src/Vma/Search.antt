-- ===== src/Vma/Search.antt =====
-- search_vma of sys/mm.c on a list of areas.
use plum_os.Prelude.{
  ℕ, zero, suc, ◌<◌, ◌≡◌, refl, Bool, true, false, List, [], ◌∷◌, if◌then◌else◌, length, arith,
  ==_ne,
}
use plum_os.Kernel.{Ptr, null}
use plum_os.TaskList.Chain.{Chain}
use plum_os.Vma.{Vma, Mm, done, covers, search_loop, search_vma}

abbrev pub first_covering : ℕ → (Ptr → Vma) → List Ptr → Ptr
first_covering addr v [] = null
first_covering addr v (x ∷ xs) = if covers (v x) addr then x else first_covering addr v xs

search_loop-first_covering :
    (n addr p : ℕ) (s : Mm) (xs : List Ptr)
    → Chain s.next p xs
    → length xs < n
    → search_loop n addr p s ≡ done (first_covering addr s.vma xs) s
unfolding search_loop
search_loop-first_covering zero addr p s xs c h = absurd (omega arith)
search_loop-first_covering (suc n) addr p s [] c h = rw c refl
search_loop-first_covering (suc n) addr p s (x ∷ xs) c h =
    rw (c.0, ==_ne x null c.1)
      (rw (search_loop-first_covering n addr (s.next x) s xs c.3 (omega arith))
        (cover_or (covers (s.vma x) addr)))
  where
    cover_or :
        (b : Bool)
        → (if b then done x s else done (first_covering addr s.vma xs) s)
          ≡ done (if b then x else first_covering addr s.vma xs) s
    cover_or true = refl
    cover_or false = refl

-- On a well-formed list of fewer than n areas, search_vma gives the first area with start <= addr <
-- end, or NULL where there is none, and changes nothing.
pub search_vma-first_covering :
    (n addr : ℕ) (s : Mm) (xs : List Ptr)
    → Chain s.next s.mmap xs
    → length xs < n
    → search_vma n addr s ≡ done (first_covering addr s.vma xs) s
unfolding search_vma
search_vma-first_covering n addr s xs c h = search_loop-first_covering n addr s.mmap s xs c h
