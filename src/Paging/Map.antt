-- ===== src/Paging/Map.antt =====
-- pte_table and map_a_page of sys/mm.c on areas that no file backs.
use plum_os.Prelude.{ℕ, suc, ◌/◌, ◌%◌, ◌^◌, ◌≤◌, ◌<◌, ◌≡◌, ap, ◌∙◌, arith, some, Option}
use plum_os.Frames.Count.{free_pages}
use plum_os.Kernel.{Ptr}
use plum_os.Paging.{
  Act, Memory, lower_table, pte_table, get_pgd_off, get_pud_off, get_pmd_off, and_then,
}
use plum_os.Paging.Words.{get_pgd_off_eq, get_pud_off_eq, get_pmd_off_eq}
use plum_os.Paging.Tree.{node, user_size, user_size_def, IsForest, node-zero}
use plum_os.Paging.Steps.{Extends-trans, Stepped, lower_table-Stepped}

pub and_then-some :
    {A B : Type 0} {o : Option (A × Memory)} {a : A} {t : Memory} (f : A → Act B)
    → o ≡ some (a, t)
    → and_then o f ≡ f a t
and_then-some f e = ap (λ r. and_then r f) e

module _ (R : Ptr → Type 0) where
  -- A step down from the table that the step before has returned.
  Stepped-next :
      (n : ℕ) (s t : Memory) (g : Ptr) (l x y off : ℕ) (r : Ptr)
      → R g
      → Stepped R s g l x (suc n) r t
      → l ≤ 1
      → y < user_size (suc (suc l))
      → y / 512 ≡ x
      → off ≡ y % 512
      → (r2 : Ptr) × (u : Memory) × (lower_table r off t ≡ some (r2, u))
        × Stepped R s g (suc l) y n r2 u
  Stepped-next n s t g l x y off r rg k d yu e o = go (
      lower_table-Stepped R n t g (suc l) y r k.forest rg (omega arith) yu
        (ap (λ (v : ℕ). node t g (suc l) v) e ∙ k.returned) k.nonzero k.left)
    where
      go :
          ((r2 : Ptr) × (u : Memory) × (lower_table r (y % 512) t ≡ some (r2, u))
            × Stepped R t g (suc l) y n r2 u)
          → (r2 : Ptr) × (u : Memory) × (lower_table r off t ≡ some (r2, u))
            × Stepped R s g (suc l) y n r2 u
      go (r2, u, eq, m) = (
        r2,
        u,
        ap (λ (v : ℕ). lower_table r v t) o ∙ eq,
        record {
          forest = m.forest;
          extends = Extends-trans R s t u k.extends m.extends;
          returned = m.returned;
          nonzero = m.nonzero;
          left = m.left;
        },
      )

  pub pte_table-Stepped :
      (n : ℕ) (s : Memory) (g : Ptr) (pfn : ℕ)
      → IsForest R s
      → R g
      → pfn < 2 ^ 35
      → suc (suc (suc n)) ≤ free_pages s.frames
      → (r : Ptr) × (t : Memory) × (pte_table g pfn s ≡ some (r, t))
        × Stepped R s g 2 (pfn / 512) n r t
  unfolding pte_table
  pte_table-Stepped n s g pfn forest rg small free = first (
      lower_table-Stepped R (suc (suc n)) s g 0 (pfn / 2 ^ 27) g forest rg (omega arith)
        (omega (arith, user_size_def 0)) (node-zero s g (pfn / 2 ^ 27 / 512)) (forest.rooted g rg)
        free)
    where
      second :
          (r1 : Ptr) (t1 : Memory)
          → ((r2 : Ptr) × (t2 : Memory) × (lower_table r1 (get_pud_off pfn) t1 ≡ some (r2, t2))
              × Stepped R s g 1 (pfn / 2 ^ 18) (suc n) r2 t2)
          → (r : Ptr) × (t : Memory) × (and_then
                (lower_table r1 (get_pud_off pfn) t1)
                (λ pmd. lower_table pmd (get_pmd_off pfn))
              ≡ some (r, t))
            × Stepped R s g 2 (pfn / 512) n r t
      second r1 t1 (r2, t2, e, k) = third (
          Stepped-next n s t2 g 1 (pfn / 2 ^ 18) (pfn / 512) (get_pmd_off pfn) r2 rg k (omega arith)
            (omega (arith, user_size_def 2)) (omega arith) (get_pmd_off_eq pfn))
        where
          third :
              ((r : Ptr) × (t : Memory) × (lower_table r2 (get_pmd_off pfn) t2 ≡ some (r, t))
                × Stepped R s g 2 (pfn / 512) n r t)
              → (r : Ptr) × (t : Memory) × (and_then
                    (lower_table r1 (get_pud_off pfn) t1)
                    (λ pmd. lower_table pmd (get_pmd_off pfn))
                  ≡ some (r, t))
                × Stepped R s g 2 (pfn / 512) n r t
          third (r, t, eq, m) =
              (r, t, and_then-some (λ pmd. lower_table pmd (get_pmd_off pfn)) e ∙ eq, m)

      finish :
          (r1 : Ptr) (t1 : Memory)
          → lower_table g (get_pgd_off pfn) s ≡ some (r1, t1)
          → ((r : Ptr) × (t : Memory) × (and_then
                  (lower_table r1 (get_pud_off pfn) t1)
                  (λ pmd. lower_table pmd (get_pmd_off pfn))
                ≡ some (r, t))
              × Stepped R s g 2 (pfn / 512) n r t)
          → (r : Ptr) × (t : Memory) × (pte_table g pfn s ≡ some (r, t))
            × Stepped R s g 2 (pfn / 512) n r t
      finish r1 t1 e (r, t, eq, m) = (r, t, and_then-some _ e ∙ eq, m)

      first :
          ((r : Ptr) × (t : Memory) × (lower_table g (pfn / 2 ^ 27 % 512) s ≡ some (r, t))
            × Stepped R s g 0 (pfn / 2 ^ 27) (suc (suc n)) r t)
          → (r : Ptr) × (t : Memory) × (pte_table g pfn s ≡ some (r, t))
            × Stepped R s g 2 (pfn / 512) n r t
      first (r1, t1, e, k) =
          finish r1 t1 (ap (λ (v : ℕ). lower_table g v s) (get_pgd_off_eq pfn) ∙ e) (
            second r1 t1 (
              Stepped-next (suc n) s t1 g 0 (pfn / 2 ^ 27) (pfn / 2 ^ 18) (get_pud_off pfn) r1 rg k
                (omega arith) (omega (arith, user_size_def 1)) (omega arith) (get_pud_off_eq pfn)))
