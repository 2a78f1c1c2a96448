-- ===== src/TaskList/Chain.antt =====
-- When a head variable leads through the tasks of a list to NULL, and what leaves such a list alone.
use plum_os.Prelude.{◌≡◌, refl, ◌≢◌, true, false, List, [], ◌∷◌, arith, has, subst, sym, ==_refl}
use plum_os.Kernel.{Ptr, null, put}

-- From `p` the `next` pointers lead through the distinct tasks `xs` to NULL.
abbrev pub Chain : (Ptr → Ptr) → Ptr → List Ptr → Type 0
Chain h p [] = p ≡ null
Chain h p (x ∷ xs) = (p ≡ x) × (x ≢ null) × (has x xs ≡ false) × Chain h (h x) xs

-- Links that agree on the tasks of a list keep it.
pub Chain-frame :
    (h g : Ptr → Ptr) (p : Ptr) (xs : List Ptr)
    → ((q : Ptr) → has q xs ≡ true → g q ≡ h q)
    → Chain h p xs
    → Chain g p xs
Chain-frame h g p [] s c = c
Chain-frame h g p (x ∷ xs) s c = (
  c.0,
  c.1,
  c.2,
  subst (λ q. Chain g q xs) (sym (s x (ground arith)))
      (Chain-frame h g (h x) xs (λ q m. s q (ground arith)) c.3),
)

-- A new link of a task outside the list leaves it.
pub Chain-out :
    (h : Ptr → Ptr) (q r p : Ptr) (xs : List Ptr)
    → has q xs ≡ false
    → Chain h p xs
    → Chain (put h q r) p xs
Chain-out h q r p xs o c = Chain-frame h (put h q r) p xs (λ a m. ground arith) c

pub Chain-cons :
    (h : Ptr → Ptr) (p q : Ptr) (xs : List Ptr)
    → p ≢ null
    → has p xs ≡ false
    → Chain h q xs
    → Chain (put h p q) p (p ∷ xs)
Chain-cons h p q xs ne out c = (
  refl,
  ne,
  out,
  subst (λ r. Chain (put h p q) r xs) (sym (put_self h p q)) (Chain-out h p q q xs out c),
)
  where
    put_self : (h : Ptr → Ptr) (p q : Ptr) → put h p q p ≡ q
    put_self h p q = rw ==_refl

pub Chain-ne-null :
    (h : Ptr → Ptr) (p q : Ptr) (xs : List Ptr) → Chain h p xs → has q xs ≡ true → q ≢ null
Chain-ne-null h p q [] c m = cc
Chain-ne-null h p q (x ∷ xs) c m = ground (arith, Chain-ne-null h (h x) q xs c.3)

-- The head of a list without ts is not ts.
pub ne_of_not-has :
    (h : Ptr → Ptr) (p ts : Ptr) (xs : List Ptr)
    → Chain h p xs
    → ts ≢ null
    → has ts xs ≡ false
    → p ≢ ts
ne_of_not-has h p ts [] c ne o = ground arith
ne_of_not-has h p ts (x ∷ xs) c ne o = ground arith
