-- ===== src/Frames/Count.antt =====
-- How many pages are free, and what get_free_page makes of the number.
use plum_os.Prelude.{
  true, ℕ, zero, suc, ◌+◌, ◌-◌, ◌≤◌, ◌<◌, ◌≡◌, refl, ◌≢◌, inl, inr, Option, some, arith, ◌==◌,
  Bool-cases, if◌then◌else◌, ap, ◌∙◌,
}
use plum_os.Frames.{Frames, normal_pfn_start, normal_pfn_end, get_free_page}
use plum_os.Frames.Alloc.{Took, Allocates, took, full, get_free_page-Allocates}

-- The free pages among `n` from `lo` on.
unfoldable pub count_free : ℕ → ℕ → (ℕ → ℕ) → ℕ
count_free zero lo ref = 0
count_free (suc n) lo ref =
    let rest = count_free n (lo + 1) ref in if ref lo == 0 then suc rest else rest

unfoldable pub free_pages : Frames → ℕ
free_pages s = count_free (normal_pfn_end - normal_pfn_start) normal_pfn_start s.ref

count_none :
    (n lo : ℕ) (ref : ℕ → ℕ) → ((q : ℕ) → lo ≤ q → q < lo + n → ref q ≢ 0) → count_free n lo ref ≡ 0
unfolding count_free
count_none zero lo ref h = refl
count_none (suc n) lo ref h = ground (
  arith,
  h lo (omega arith) (omega arith),
  count_none n (lo + 1) ref (λ q a b. h q (omega arith) (omega arith)),
)

count_same :
    (n lo : ℕ) (ref new : ℕ → ℕ)
    → ((q : ℕ) → lo ≤ q → q < lo + n → new q ≡ ref q)
    → count_free n lo new ≡ count_free n lo ref
unfolding count_free
count_same zero lo ref new h = refl
count_same (suc n) lo ref new h = ground (
  arith,
  h lo (omega arith) (omega arith),
  count_same n (lo + 1) ref new (λ q a b. h q (omega arith) (omega arith)),
)

count_taken :
    (n lo p : ℕ) (ref new : ℕ → ℕ)
    → lo ≤ p
    → p < lo + n
    → ref p ≡ 0
    → new p ≡ 1
    → ((q : ℕ) → q ≢ p → new q ≡ ref q)
    → count_free n lo ref ≡ suc (count_free n lo new)
unfolding count_free
count_taken zero lo p ref new a b c d h = absurd (omega arith)
count_taken (suc n) lo p ref new a b c d h = elim (Bool-cases (lo == p)) [
  | inl e ↦ ground (
    arith,
    c,
    d,
    at_p ref e c,
    at_p new e d,
    count_same n (lo + 1) ref new (λ q x y. h q (ground arith)),
  )
  | inr o ↦ ground (
    arith,
    h lo (ground arith),
    count_taken n (lo + 1) p ref new (ground arith) (omega arith) c d h,
  )
]
  where
    at_p : (f : ℕ → ℕ) {v : ℕ} → (lo == p) ≡ true → f p ≡ v → f lo ≡ v
    at_p f e i = ap f (ground arith) ∙ i

-- While a page is free the search finds one, and one page fewer is free afterwards.
pub get_free_page-some :
    (n : ℕ) (s : Frames)
    → suc n ≤ free_pages s
    → (q : ℕ) × (t : Frames) × (get_free_page s ≡ some (q, t))
      × Took normal_pfn_start normal_pfn_end s q t
      × (n ≤ free_pages t)
unfolding free_pages
get_free_page-some n s h = go (get_free_page s) (get_free_page-Allocates s) refl
  where
    go :
        (r : Option (ℕ × Frames))
        → Allocates normal_pfn_start normal_pfn_end s r
        → get_free_page s ≡ r
        → (q : ℕ) × (t : Frames) × (get_free_page s ≡ some (q, t))
          × Took normal_pfn_start normal_pfn_end s q t
          × (n ≤ free_pages t)
    go _ (took {p = q} {t} k) e = (
      q,
      t,
      e,
      k,
      omega (
        arith,
        h,
        count_taken (normal_pfn_end - normal_pfn_start) normal_pfn_start q s.ref t.ref k.above
            (omega (arith, k.below)) k.was_free k.taken k.others,
      ),
    )
    go _ (full all) e = absurd (
        omega (
          arith,
          h,
          count_none (normal_pfn_end - normal_pfn_start) normal_pfn_start s.ref
              (λ q a b. all q a (omega arith)),
        ))

count_least :
    (n lo : ℕ) (ref new : ℕ → ℕ)
    → ((q : ℕ) → ref q ≡ 0 → new q ≡ 0)
    → count_free n lo ref ≤ count_free n lo new
unfolding count_free
count_least zero lo ref new h = omega arith
count_least (suc n) lo ref new h = ground (arith, h lo, count_least n (lo + 1) ref new h)

-- As many pages are free where every page that was free still is.
pub free_pages_least :
    (s t : Frames) → ((q : ℕ) → s.ref q ≡ 0 → t.ref q ≡ 0) → free_pages s ≤ free_pages t
unfolding free_pages
free_pages_least s t h =
    count_least (normal_pfn_end - normal_pfn_start) normal_pfn_start s.ref t.ref h

count_most : (n lo : ℕ) (ref : ℕ → ℕ) → count_free n lo ref ≤ n
unfolding count_free
count_most zero lo ref = omega arith
count_most (suc n) lo ref = ground (arith, count_most n (lo + 1) ref)

pub free_pages_most : (s : Frames) → free_pages s ≤ 32095
unfolding free_pages
free_pages_most s = count_most (normal_pfn_end - normal_pfn_start) normal_pfn_start s.ref

count_all :
    (n lo : ℕ) (ref : ℕ → ℕ) → ((q : ℕ) → lo ≤ q → q < lo + n → ref q ≡ 0) → count_free n lo ref ≡ n
unfolding count_free
count_all zero lo ref h = refl
count_all (suc n) lo ref h = ground (
  arith,
  h lo (omega arith) (omega arith),
  count_all n (lo + 1) ref (λ q a b. h q (omega arith) (omega arith)),
)

-- Where no page of the search's range is in use, all are free.
pub free_pages_all :
    (s : Frames) → ((q : ℕ) → 671 ≤ q → q < 32766 → s.ref q ≡ 0) → free_pages s ≡ 32095
unfolding free_pages
free_pages_all s h =
    count_all (normal_pfn_end - normal_pfn_start) normal_pfn_start s.ref
      (λ q a b. h q a (omega arith))
