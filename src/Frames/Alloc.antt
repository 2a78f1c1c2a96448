-- ===== src/Frames/Alloc.antt =====
-- What get_free_page and free_page of sys/mm.c do to the reference counts.
use plum_os.Prelude.{
  ℕ, zero, suc, ◌+◌, ◌-◌, ◌%◌, ◌^◌, ◌≤◌, ◌<◌, ◌≡◌, refl, ◌≢◌, inl, inr, Option, none, some, arith,
  subst, some_inj, ◌==◌, Bool-cases, leb, leb→le, if◌then◌else◌, ==_refl,
}
use plum_os.Frames.{
  Frames, normal_pfn_start, normal_pfn_end, get_free_page_loop, get_free_page, free_page,
  add_page_ref,
}

-- The lowest free page of [lo, hi) was taken: its count went from 0 to 1, and no other changed.
pub record Took (lo hi : ℕ) (s : Frames) (p : ℕ) (t : Frames) : Type 0 where
  pub above : lo ≤ p
  pub below : p < hi
  pub was_free : s.ref p ≡ 0
  pub lowest : (q : ℕ) → lo ≤ q → q < p → s.ref q ≢ 0
  pub taken : t.ref p ≡ 1
  pub others : (q : ℕ) → q ≢ p → t.ref q ≡ s.ref q

pub data Allocates (lo hi : ℕ) (s : Frames) : Option (ℕ × Frames) → Type 0 where
  took : {p : ℕ} {t : Frames} → Took lo hi s p t → Allocates lo hi s (some (p, t))
  full : ((q : ℕ) → lo ≤ q → q < hi → s.ref q ≢ 0) → Allocates lo hi s none

take_now :
    (lo hi : ℕ) (s : Frames)
    → lo < hi
    → s.ref lo ≡ 0
    → (n : ℕ) → Allocates lo hi s (get_free_page_loop (suc n) lo s)
unfolding get_free_page_loop
take_now lo hi s h e n = rw e (
    took (record {
      above = omega arith;
      below = h;
      was_free = e;
      lowest = λ q a b. absurd (omega arith);
      taken = ground arith;
      others = λ q ne. ground arith;
    }))

take_later :
    (lo hi : ℕ) (s : Frames) (r : Option (ℕ × Frames))
    → s.ref lo ≢ 0
    → Allocates (lo + 1) hi s r
    → Allocates lo hi s r
take_later lo hi s r used (took {p} t) = took (record {
  above = omega (arith, t.above);
  below = t.below;
  was_free = t.was_free;
  lowest = λ q a b. elim (Bool-cases (lo == q)) [
    | inl e ↦ ground (arith, used)
    | inr e ↦ t.lowest q (ground arith) b
  ];
  taken = t.taken;
  others = t.others;
})
take_later lo hi s r used (full all) = full λ q a b. elim (Bool-cases (lo == q)) [
  | inl e ↦ ground (arith, used)
  | inr e ↦ all q (ground arith) b
]

get_free_page_loop-Allocates :
    (n lo hi : ℕ) (s : Frames) → lo + n ≡ hi → Allocates lo hi s (get_free_page_loop n lo s)
unfolding get_free_page_loop
get_free_page_loop-Allocates zero lo hi s e = full λ q a b. absurd (omega arith)
get_free_page_loop-Allocates (suc n) lo hi s e = elim (Bool-cases (s.ref lo == 0)) [
  | inl free ↦ take_now lo hi s (omega arith) (ground arith) n
  | inr used ↦ rw used (
      take_later lo hi s (get_free_page_loop n (lo + 1) s) (ground arith)
        (get_free_page_loop-Allocates n (lo + 1) hi s (omega arith)))
]

-- get_free_page takes the lowest page from 671 up to 32765 whose count is 0, sets its count to 1
-- and changes no other count; it panics exactly where all these pages are in use.
pub get_free_page-Allocates :
    (s : Frames) → Allocates normal_pfn_start normal_pfn_end s (get_free_page s)
unfolding get_free_page
get_free_page-Allocates s =
    get_free_page_loop-Allocates (normal_pfn_end - normal_pfn_start) normal_pfn_start normal_pfn_end
      s (omega arith)

full-ne :
    (lo hi p : ℕ) (s : Frames) (r : Option (ℕ × Frames))
    → Allocates lo hi s r
    → lo ≤ p
    → p < hi
    → s.ref p ≡ 0
    → (t : ℕ × Frames) × (r ≡ some t) × (t.0 ≤ p)
full-ne lo hi p s r (took {p = q} {t} k) a b e = (
  (q, t),
  refl,
  elim (Bool-cases (leb q p)) [
    | inl h ↦ leb→le q p h
    | inr h ↦ absurd (k.lowest p a (ground arith) e)
  ],
)
full-ne lo hi p s r (full all) a b e = absurd (all p a b e)

free_page-ref :
    (p q : ℕ) (s : Frames)
    → (free_page p s).ref q ≡ (if p == q then (s.ref p + (2 ^ 32 - 1)) % 2 ^ 32 else s.ref q)
unfolding free_page
free_page-ref p q s = ground arith

-- A page that has one reference and lies in the range of the search is handed out again after
-- free_page: an allocation succeeds, with that page or a lower one.
pub get_free_page-free_page :
    (p : ℕ) (s : Frames)
    → normal_pfn_start ≤ p
    → p < normal_pfn_end
    → s.ref p ≡ 1
    → (r : ℕ × Frames) × (get_free_page (free_page p s) ≡ some r) × (r.0 ≤ p)
get_free_page-free_page p s a b e =
    full-ne normal_pfn_start normal_pfn_end p (free_page p s) (get_free_page (free_page p s))
      (get_free_page-Allocates (free_page p s)) a b (rw (free_page-ref, ==_refl, e))

-- A page with fewer than 2 ^ 31 references that gets one more survives one free_page: its count is
-- what it was before add_page_ref, and no other page's count has moved.
pub free_page-add_page_ref :
    (p q : ℕ) (s : Frames) → s.ref p < 2 ^ 31 → (free_page p (add_page_ref p s)).ref q ≡ s.ref q
unfolding add_page_ref
free_page-add_page_ref p q s h = rw free_page-ref (ground arith)

Took-of :
    (lo hi : ℕ) (s : Frames) (r : Option (ℕ × Frames)) (x : ℕ × Frames)
    → Allocates lo hi s r
    → r ≡ some x
    → Took lo hi s x.0 x.1
Took-of lo hi s r x (took k) e = subst (λ (y : ℕ × Frames). Took lo hi s y.0 y.1) (some_inj e) k
Took-of lo hi s r x (full all) e = cc

pub get_free_page-Took :
    (s t : Frames) (p : ℕ)
    → get_free_page s ≡ some (p, t)
    → Took normal_pfn_start normal_pfn_end s p t
get_free_page-Took s t p e =
    Took-of normal_pfn_start normal_pfn_end s (get_free_page s) (p, t) (get_free_page-Allocates s) e

-- Two allocations in a row that succeed never give the same page; both pages have count 1, and the
-- count of every page that was in use is what it was.
pub get_free_page_twice :
    (s t u : Frames) (p q : ℕ)
    → get_free_page s ≡ some (p, t)
    → get_free_page t ≡ some (q, u)
    → (p ≢ q) × (u.ref p ≡ 1) × (u.ref q ≡ 1) × ((k : ℕ) → s.ref k ≢ 0 → u.ref k ≡ s.ref k)
get_free_page_twice s t u p q e f = go (get_free_page-Took s t p e) (get_free_page-Took t u q f)
  where
    go :
        Took normal_pfn_start normal_pfn_end s p t
        → Took normal_pfn_start normal_pfn_end t q u
        → (p ≢ q) × (u.ref p ≡ 1) × (u.ref q ≡ 1) × ((k : ℕ) → s.ref k ≢ 0 → u.ref k ≡ s.ref k)
    go a b = (
      λ h. ground (arith, a.taken, b.was_free),
      ground (arith, b.others p, a.taken, b.was_free),
      b.taken,
      λ k used. ground (arith, a.others k, b.others k, a.was_free, b.was_free, a.taken),
    )
