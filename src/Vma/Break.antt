-- ===== src/Vma/Break.antt =====
-- brk of sys/syscall.c where the break is the start of the heap, as it always is.
use plum_os.Prelude.{
  ℕ, suc, ◌<◌, ◌≤◌, ◌≡◌, refl, ◌≢◌, Bool, true, false, ◌&&◌, Option, none, some, List, [], ◌∷◌,
  ◌++◌, length, has, arith, ==_ne, ==_iff, sym, ap, ◌∙◌, leb, ltb, if_both, lt→ltb, length-append,
}
use plum_os.Kernel.{Ptr, null, put}
use plum_os.Kernel.Ends.{put_self}
use plum_os.TaskList.Chain.{Chain, Chain-out, Chain-ne-null}
use plum_os.Frames.{Frames, get_free_page, normal_pfn_start, normal_pfn_end}
use plum_os.Frames.Alloc.{Allocates, full, get_free_page-Allocates, get_free_page-Took}
use plum_os.Vma.{
  Vma, Mm, done, covers, search_vma, insert_vma, get_zero_page, page_at, blank_vma, heap_area,
  new_heap, brk, set_vma, heap_limit,
}
use plum_os.Vma.Search.{first_covering, search_vma-first_covering}
use plum_os.Vma.Insert.{insert_vma-append}

-- The areas are linked, each on a page that is in use.
pub record IsMapped (s : Mm) (xs : List Ptr) : Type 0 where
  pub chain : Chain s.next s.mmap xs
  pub in_use : (q : ℕ) → s.frames.ref q ≡ 0 → has (page_at q) xs ≡ false

page_at-ne-null : (p : ℕ) → p < 32766 → page_at p ≢ null
unfolding page_at
page_at-ne-null p h = omega arith

-- s with a zeroed area on page p
abbrev zeroed : ℕ → Frames → Mm → Mm
zeroed p fr s = record s {
  frames = fr;
  next = put s.next (page_at p) null;
  vma = put s.vma (page_at p) blank_vma;
}

get_zero_page_of :
    (p : ℕ) (fr : Frames) (s : Mm)
    → get_free_page s.frames ≡ some (p, fr)
    → get_zero_page s ≡ done (page_at p) (zeroed p fr s)
unfolding get_zero_page
get_zero_page_of p fr s e = rw e refl

new_heap_of :
    (n new_break p : ℕ) (fr : Frames) (s t : Mm)
    → get_free_page s.frames ≡ some (p, fr)
    → insert_vma n (page_at p) (set_vma (page_at p) (heap_area s.brk new_break) (zeroed p fr s))
      ≡ done tt t
    → new_heap n new_break s ≡ done new_break t
unfolding new_heap
new_heap_of n new_break p fr s t e i = rw (get_zero_page_of p fr s e) (rw i refl)

-- The heap's area p stands behind the others, which are what they were.
abbrev pub HeapAdded : ℕ → Mm → List Ptr → Ptr → Mm → Type 0
HeapAdded new_break s xs p t =
    Chain t.next t.mmap (xs ++ p ∷ [])
    × (t.vma p ≡ heap_area s.brk new_break)
    × ((q : Ptr) → has q xs ≡ true → t.vma q ≡ s.vma q)

put_apart : (a q : Ptr) (xs : List Ptr) → has a xs ≡ false → has q xs ≡ true → a ≢ q
put_apart a q xs o m e = true_ne_false (sym m ∙ ap (λ (z : ℕ). has z xs) (sym e) ∙ o)
  where
    true_ne_false : Path Bool true false → ⊥
    true_ne_false f = cc

put_other : (f : Ptr → Vma) (p q : Ptr) (a b : Vma) → p ≢ q → put (put f p a) p b q ≡ f q
put_other f p q a b ne = rw (==_ne p q ne) refl

new_heap-HeapAdded :
    (n new_break p : ℕ) (fr : Frames) (s : Mm) (xs : List Ptr)
    → IsMapped s xs
    → length xs < n
    → get_free_page s.frames ≡ some (p, fr)
    → (t : Mm) × (new_heap n new_break s ≡ done new_break t)
      × HeapAdded new_break s xs (page_at p) t
new_heap-HeapAdded n new_break p fr s xs i h e =
    let k = get_free_page-Took s.frames fr p e in
    let out = i.in_use p k.was_free in
    let g =
      insert_vma-append n (page_at p)
        (set_vma (page_at p) (heap_area s.brk new_break) (zeroed p fr s)) xs
        (Chain-out s.next (page_at p) null s.mmap xs out i.chain) h (page_at-ne-null p k.below) out
        (put_self s.next (page_at p) null) in
    let same = ap (λ (m : Mm). m.vma) g.3 in
    (
      g.0,
      new_heap_of n new_break p fr s g.0 e g.1,
      (
        g.2,
        ap (λ (f : Ptr → Vma). f (page_at p)) same
            ∙ put_self (put s.vma (page_at p) blank_vma) (page_at p) (heap_area s.brk new_break),
        λ q m.
            ap (λ (f : Ptr → Vma). f q) same
            ∙ put_other s.vma (page_at p) q blank_vma (heap_area s.brk new_break)
                (put_apart (page_at p) q xs out m),
      ),
    )

some_page :
    (s : Mm) (q : ℕ)
    → normal_pfn_start ≤ q
    → q < normal_pfn_end
    → s.frames.ref q ≡ 0
    → (r : ℕ × Frames) × (get_free_page s.frames ≡ some r)
some_page s q a b e = found (get_free_page s.frames) (get_free_page-Allocates s.frames)
  where
    found :
        (o : Option (ℕ × Frames))
        → Allocates normal_pfn_start normal_pfn_end s.frames o
        → (r : ℕ × Frames) × (o ≡ some r)
    found none (full all) = absurd (all q a b e)
    found (some r) k = (r, refl)

brk_of :
    (n new_break : ℕ) (s : Mm)
    → s.brk ≡ s.user_heap
    → s.brk < new_break
    → new_break < heap_limit
    → brk n new_break s ≡ new_heap n new_break s
unfolding brk
brk_of n new_break s e a b =
    rw
      (
        ==_ne new_break 0 (omega arith),
        lt→ltb s.brk new_break a,
        lt→ltb new_break heap_limit b,
        (==_iff s.brk s.user_heap).1 e,
      )
      refl

inside : (lo hi addr : ℕ) → lo ≤ addr → addr < hi → (leb lo addr && ltb addr hi) ≡ true
inside lo hi addr a b = ground arith

covered :
    (addr : ℕ) (v : Ptr → Vma) (p : Ptr) (xs : List Ptr)
    → covers (v p) addr ≡ true
    → p ≢ null
    → ((q : Ptr) → has q xs ≡ true → q ≢ null)
    → first_covering addr v (xs ++ p ∷ []) ≢ null
covered addr v p [] c ne all = rw c ne
covered addr v p (x ∷ xs) c ne all =
    if_both (λ q. q ≢ null) (covers (v x) addr) (λ _. all x (ground arith))
      λ _. covered addr v p xs c ne (λ q m. all q (ground arith))

-- A process whose break is still the start of its heap, with fewer than n areas, all on pages in
-- use, and a free page left: brk, for a break above that start and below the limit, returns the new
-- break, and in the state that it leaves search_vma finds an area for every address of the heap.
pub brk-search_vma :
    (n new_break page : ℕ) (s : Mm) (xs : List Ptr)
    → IsMapped s xs
    → length xs < n
    → s.brk ≡ s.user_heap
    → s.brk < new_break
    → new_break < heap_limit
    → normal_pfn_start ≤ page
    → page < normal_pfn_end
    → s.frames.ref page ≡ 0
    → (t : Mm) × (brk n new_break s ≡ done new_break t)
      × ((addr : ℕ)
          → s.brk ≤ addr
          → addr < new_break
          → (p : Ptr) × (search_vma (suc n) addr t ≡ done p t) × (p ≢ null))
brk-search_vma n new_break page s xs i h e a b l u z =
    let (r, found) = some_page s page l u z in
    let below = (get_free_page-Took s.frames r.1 r.0 found).below in
    let (t, ran, (c, v, same)) = new_heap-HeapAdded n new_break r.0 r.1 s xs i h found in
    (
      t,
      brk_of n new_break s e a b ∙ ran,
      λ addr lo hi. (
        first_covering addr t.vma (xs ++ page_at r.0 ∷ []),
        search_vma-first_covering (suc n) addr t (xs ++ page_at r.0 ∷ []) c
            (omega (arith, length-append xs (page_at r.0 ∷ []))),
        covered addr t.vma (page_at r.0) xs (rw v (inside s.brk new_break addr lo hi))
            (page_at-ne-null r.0 below) (λ q m. Chain-ne-null s.next s.mmap q xs i.chain m),
      ),
    )
