-- ===== src/Paging/Deep.antt =====
-- copy_vma_deep: the pages of an area, in the parent and in the child.
use plum_os.Prelude.{
  ℕ, zero, suc, ◌+◌, ◌-◌, ◌*◌, ◌/◌, ◌%◌, ◌^◌, ◌≤◌, ◌<◌, ◌≡◌, refl, ◌∙◌, ◌≢◌, inr, arith, subst,
  some,
}
use plum_os.Frames.Count.{free_pages, free_pages_most}
use plum_os.Kernel.{Ptr}
use plum_os.Paging.{Memory}
use plum_os.Paging.Faults.{Area}
use plum_os.Paging.Fork.{copy_pfn, copy_pages, copy_vma_deep, pfn_start, pfn_end}
use plum_os.Paging.Tree.{page_entry, IsForest}
use plum_os.Paging.Map.{and_then-some}
use plum_os.Paging.Child.{Forked, copy_pfn-Result}
use plum_os.Paging.Rounds.{DeepCopied, Round, Forked-Round, Round-DeepCopied}

module _ (R : Ptr → Type 0) (prot : ℕ) (g h : Ptr) (rg : R g) (rh : R h) (apart : g ≢ h) where
  pub copy_pages-DeepCopied :
      (n m i : ℕ) (s : Memory)
      → IsForest R s
      → i + n ≤ 2 ^ 35
      → ((k : ℕ) → i ≤ k → k < i + n → page_entry s h k ≡ 0)
      → ((k : ℕ) → s.frames.ref k + n < 2 ^ 31)
      → 3 * n + m ≤ free_pages s.frames
      → (t : Memory) × (copy_pages n prot h g i s ≡ some (tt, t))
        × DeepCopied R prot s g h i (i + n) t
        × (m ≤ free_pages t.frames)
  unfolding copy_pages
  copy_pages-DeepCopied zero m i s forest small none_there few free = (
    s,
    refl,
    record {
      forest = forest;
      pages = λ k a b. absurd (omega arith);
      entries = λ j k rj ku o. refl;
      contents = λ j k o rj ku ne b. refl;
    },
    omega arith,
  )
  copy_pages-DeepCopied (suc n) m i s forest small none_there few free =
      first
        (λ t forest_t none_t few_t free_t.
          copy_pages-DeepCopied n m (i + 1) t forest_t (omega arith) none_t few_t free_t)
        (copy_pfn-Result R prot s g h i (3 * n + m) rg rh forest apart (omega arith)
          (λ k. omega (arith, few k)) (omega arith))
    where
      Rest : Memory → Type 0
      Rest t =
          (u : Memory) × (copy_pages n prot h g (i + 1) t ≡ some (tt, u))
          × DeepCopied R prot t g h (i + 1) (i + 1 + n) u
          × (m ≤ free_pages u.frames)

      Done : Type 0
      Done =
          (u : Memory) × (copy_pages (suc n) prot h g i s ≡ some (tt, u))
          × DeepCopied R prot s g h i (i + suc n) u
          × (m ≤ free_pages u.frames)

      same_end : i + 1 + n ≡ i + suc n
      same_end = omega arith

      join :
          (t : Memory)
          → copy_pfn prot h g i s ≡ some (tt, t)
          → Round R prot g h rg rh apart s i t
          → Rest t
          → Done
      join t e r (u, f, d, left) = (
        u,
        and_then-some (λ v. copy_pages n prot h g (i + 1)) e ∙ f,
        Round-DeepCopied R prot g h rg rh apart s t u i (i + suc n) (omega arith) small
            (none_there i (omega arith) (omega arith)) r
            (subst (λ (l : ℕ). DeepCopied R prot t g h (i + 1) l u) same_end d),
        left,
      )

      first :
          ((t : Memory)
            → IsForest R t
            → ((k : ℕ) → i + 1 ≤ k → k < i + 1 + n → page_entry t h k ≡ 0)
            → ((k : ℕ) → t.frames.ref k + n < 2 ^ 31)
            → 3 * n + m ≤ free_pages t.frames
            → Rest t)
          → ((t : Memory) × (copy_pfn prot h g i s ≡ some (tt, t))
              × Forked R prot s g h i t
              × (3 * n + m ≤ free_pages t.frames))
          → Done
      first rest (t, e, f, left) = join t e r (
          rest t r.forest
            (λ k a b.
              r.entries h k rh (omega arith) (inr (λ w. omega arith))
              ∙ none_there k (omega arith) (omega arith))
            (λ k. omega (
              arith,
              few k,
              free_pages_most s.frames,
              r.grown k (2 ^ 31 - 2 - n) (omega (arith, free_pages_most s.frames))
                  (omega (arith, few k)),
            ))
            left)
        where
          r : Round R prot g h rg rh apart s i t
          r =
              Forked-Round R prot g h rg rh apart s t i (omega arith)
                (none_there i (omega arith) (omega arith)) f

-- copy_vma_deep on an area that is not empty and ends at or below 2 ^ 47, with the tables of both processes,
-- two different ones, in a forest, where the child has no page of the area mapped, every page's count is
-- below 2 ^ 31 - 2 ^ 20 and there are three free pages for each page of the area: it returns. Then each page of the
-- area that the parent had mapped is mapped to the same frame in both: copy-on-write and not writable
-- in both where the area is writable, and as it was in the parent and not writable in the child where
-- it is not. Pages of the area that the parent had not mapped are mapped in neither. All other
-- mappings and the bytes of all mapped pages are as before, and the tables are a forest.
pub copy_vma_deep-DeepCopied :
    (R : Ptr → Type 0) (v : Area) (g h : Ptr) (s : Memory)
    → IsForest R s
    → R g
    → R h
    → g ≢ h
    → v.vm_start < v.vm_end
    → v.vm_end ≤ 2 ^ 47
    → ((k : ℕ) → pfn_start v ≤ k → k ≤ pfn_end v → page_entry s h k ≡ 0)
    → ((k : ℕ) → s.frames.ref k + 2 ^ 20 < 2 ^ 31)
    → 3 * (pfn_end v + 1 - pfn_start v) ≤ free_pages s.frames
    → (t : Memory) × (copy_vma_deep v h g s ≡ some (tt, t))
      × DeepCopied R v.prot s g h (pfn_start v) (pfn_end v + 1) t
unfolding copy_vma_deep pfn_start pfn_end
copy_vma_deep-DeepCopied R v g h s forest rg rh apart some_bytes low none_there few free =
    let r =
      copy_pages-DeepCopied R v.prot g h rg rh apart rounds 0 first s forest (omega arith)
        (λ k a b. none_there k a (omega arith))
        (λ k. omega (arith, few k, free_pages_most s.frames)) (omega (arith, free)) in
    (r.0, r.1, subst (λ (l : ℕ). DeepCopied R v.prot s g h first l r.0) (omega arith) r.2)
  where
    first : ℕ
    first = v.vm_start / 4096

    rounds : ℕ
    rounds = (v.vm_end + (2 ^ 64 - 1)) % 2 ^ 64 / 4096 + 1 - first
