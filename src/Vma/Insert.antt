-- ===== src/Vma/Insert.antt =====
-- insert_vma of sys/mm.c on a list of areas.
use plum_os.Prelude.{
  ℕ, zero, suc, ◌<◌, ◌≡◌, refl, ◌≢◌, Bool, true, false, List, [], ◌∷◌, ◌++◌, length, has, arith,
  ==_ne, subst, sym, ap, ◌∙◌,
}
use plum_os.Kernel.{Ptr, null, put}
use plum_os.Kernel.Ends.{put_self}
use plum_os.TaskList.Chain.{Chain}
use plum_os.Vma.{Mm, done, last_loop, insert_vma, set_next}

-- The last task of a list that is not empty.
abbrev pub last_of : Ptr → List Ptr → Ptr
last_of x [] = x
last_of x (y ∷ ys) = last_of y ys

last_loop-last_of :
    (n x : ℕ) (s : Mm) (xs : List Ptr)
    → Chain s.next (s.next x) xs
    → length xs < n
    → last_loop n x s ≡ done (last_of x xs) s
unfolding last_loop
last_loop-last_of zero x s xs c h = absurd (omega arith)
last_loop-last_of (suc n) x s [] c h = rw c refl
last_loop-last_of (suc n) x s (y ∷ ys) c h =
    rw (c.0, ==_ne y null c.1) (last_loop-last_of n y s ys c.3 (omega arith))

has-last_of : (x : ℕ) (xs : List Ptr) → has (last_of x xs) (x ∷ xs) ≡ true
has-last_of x [] = ground arith
has-last_of x (y ∷ ys) = ground (arith, has-last_of y ys)

has-append : (a p : ℕ) (xs : List Ptr) → has a xs ≡ false → a ≢ p → has a (xs ++ p ∷ []) ≡ false
has-append a p [] h ne = ground arith
has-append a p (x ∷ xs) h ne = ground (arith, has-append a p xs)

not_last : (x y : ℕ) (ys : List Ptr) → has x (y ∷ ys) ≡ false → last_of y ys ≢ x
not_last x y ys o e = true_ne_false (sym (has-last_of y ys) ∙ ap (λ (z : ℕ). has z (y ∷ ys)) e ∙ o)
  where
    true_ne_false : Path Bool true false → ⊥
    true_ne_false q = cc

other_link : (h : Ptr → Ptr) (l p x : Ptr) → l ≢ x → p ≢ x → put (put h l p) p null x ≡ h x
other_link h l p x a b = ground arith

new_link : (h : Ptr → Ptr) (x p : Ptr) → p ≢ x → put (put h x p) p null x ≡ p
new_link h x p b = ground arith

-- Linking p behind the last element.
linked_last :
    (h : Ptr → Ptr) (x p : Ptr) (xs : List Ptr)
    → Chain h x (x ∷ xs)
    → p ≢ null
    → has p (x ∷ xs) ≡ false
    → Chain (put (put h (last_of x xs) p) p null) x (x ∷ xs ++ p ∷ [])
linked_last h x p [] c ne o = (
  refl,
  c.1,
  ground arith,
  (new_link h x p (ground arith), ne, refl, put_self (put h x p) p null),
)
linked_last h x p (y ∷ ys) c ne o =
    let i = linked_last h y p ys (refl, c.3.1, c.3.2, c.3.3) ne (ground arith) in
    (
      refl,
      c.1,
      has-append x p (y ∷ ys) c.2 (ground arith),
      (other_link h (last_of y ys) p x (not_last x y ys c.2) (ground arith) ∙ c.3.0, i.1, i.2, i.3),
    )

insert_vma_of :
    (n p l : ℕ) (s : Mm)
    → s.mmap ≢ null
    → last_loop n s.mmap s ≡ done l s
    → insert_vma n p s ≡ done tt (set_next p null (set_next l p s))
unfolding insert_vma
insert_vma_of n p l s h e = rw (==_ne s.mmap null h) (rw e refl)

-- insert_vma on fewer than n areas, where the new area p stands on no list and its link is NULL: it
-- returns, and the list has p behind its other areas. Only links and mm->mmap have changed.
pub insert_vma-append :
    (n p : ℕ) (s : Mm) (xs : List Ptr)
    → Chain s.next s.mmap xs
    → length xs < n
    → p ≢ null
    → has p xs ≡ false
    → s.next p ≡ null
    → (t : Mm) × (insert_vma n p s ≡ done tt t)
      × Chain t.next t.mmap (xs ++ p ∷ [])
      × (record t { next = s.next; mmap = s.mmap } ≡ s)
unfolding insert_vma
insert_vma-append n p s [] c h ne o z =
    (record s { mmap = p }, rw c refl, (refl, ne, refl, z), refl)
insert_vma-append n p s (x ∷ xs) c h ne o z = (
  set_next p null (set_next (last_of x xs) p s),
  insert_vma_of n p (last_of x xs) s (subst (λ m. m ≢ null) (sym c.0) c.1) (
      subst (λ m. last_loop n m s ≡ done (last_of x xs) s) (sym c.0)
        (last_loop-last_of n x s xs c.3 (omega arith))),
  subst (λ m. Chain (put (put s.next (last_of x xs) p) p null) m (x ∷ xs ++ p ∷ [])) (sym c.0)
      (linked_last s.next x p xs (refl, c.1, c.2, c.3) ne o),
  refl,
)
