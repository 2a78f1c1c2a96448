-- ===== src/Malloc/Join.antt =====
-- What coalesce of libc/malloc.c does to the list of blocks.
use mathlib.Core.List.{append_assoc}
use plum_os.Prelude.{
  ℕ, ◌+◌, ◌-◌, ◌^◌, ◌≤◌, ◌<◌, ◌≡◌, refl, sym, ap, ◌∙◌, subst, Bool, true, false, List, [], ◌∷◌,
  ◌++◌, if◌then◌else◌, arith, if_both,
}
use plum_os.Kernel.{Ptr}
use plum_os.Malloc.{Words, coalesce}
use plum_os.Malloc.Blocks.{
  Block, size_of, tag, total, Blocks, Blocks-split, IsWritten, Blocks-IsWritten, total-append,
}
use plum_os.Malloc.Coalesce.{
  IsAround, merge, coalesce-apart, coalesce-next, coalesce-prev, coalesce-both,
}

-- The free block b, joined with the block behind it if that is free.
abbrev pub absorb : Block → List Block → List Block
absorb b [] = b ∷ []
absorb b (n ∷ rest) = if n.used then b ∷ (n ∷ rest) else merge b n ∷ rest

-- The free block b between p and rest, joined with its free neighbours.
abbrev pub join : Block → Block → List Block → List Block
join p b rest = if p.used then p ∷ absorb b rest else absorb (merge p b) rest

-- The last word of a heap is the header of a block without a size, in use.
abbrev pub epilogue : Block
epilogue = record { units = 0; used = true }

abbrev pub first_of : List Block → Block
first_of [] = epilogue
first_of (b ∷ bs) = b

-- The blocks bs from s on, and the epilogue behind them.
pub record Tiled (w : Words) (s : Ptr) (bs : List Block) : Type 0 where
  pub low : 8 ≤ s
  pub high : s + total bs < 2 ^ 31
  pub blocks : Blocks w s bs
  pub ending : w (s + total bs - 4) ≡ 1

Blocks-header :
    (w : Words) (q : Ptr) (ys : List Block)
    → Blocks w q ys
    → w (q + total ys - 4) ≡ 1
    → w (q - 4) ≡ tag (first_of ys)
Blocks-header w q [] h e = ap w (omega arith) ∙ e
Blocks-header w q (y ∷ ys) h e = h.0

first_size : (ys : List Block) → size_of (first_of ys) ≤ total ys
first_size [] = omega arith
first_size (y ∷ ys) = omega arith

pub Tiled_end : (s a b c : ℕ) → s + (a + (b + c)) ≡ s + a + b + c
Tiled_end s a b c = omega arith

-- What stands around the block b.
pub Tiled-IsAround :
    (w : Words) (s : Ptr) (xs ys : List Block) (p b : Block)
    → Tiled w s (xs ++ (p ∷ (b ∷ ys)))
    → IsAround w (s + total xs) p b (first_of ys)
Tiled-IsAround w s xs ys p b t =
    let h = (Blocks-split w s xs (p ∷ (b ∷ ys)) t.blocks).1 in
    let len = total-append xs (p ∷ (b ∷ ys)) in
    record {
      low = omega (arith, t.low);
      p_units = h.2;
      b_units = h.3.2;
      high = omega (arith, t.high, len, first_size ys);
      p_head = h.0;
      p_foot = h.1;
      b_head = h.3.0;
      n_head =
          Blocks-header w (s + total xs + size_of p + size_of b) ys h.3.3
            (ap w (omega (arith, len)) ∙ t.ending);
    }

-- A heap in which the blocks ms have become b.
pub Tiled-IsWritten :
    (w v : Words) (s : Ptr) (xs ms ys : List Block) (b : Block)
    → 1 ≤ b.units
    → total ms ≡ size_of b
    → Tiled w s (xs ++ (ms ++ ys))
    → IsWritten w v (s + total xs) b
    → Tiled v s (xs ++ (b ∷ ys))
Tiled-IsWritten w v s xs ms ys b units same t new = record {
  low = t.low;
  high = omega (arith, t.high, len, len2);
  blocks = Blocks-IsWritten w v s xs ms ys b (omega (arith, t.low)) units same new t.blocks;
  ending =
      new.behind _ (omega (arith, len, len2, units)) ∙ ap w (omega (arith, len, len2)) ∙ t.ending;
}
  where
    len : total (xs ++ (ms ++ ys)) ≡ total xs + (size_of b + total ys)
    len = omega (arith, total-append xs (ms ++ ys), total-append ms ys, same)

    len2 : total (xs ++ (b ∷ ys)) ≡ total xs + (size_of b + total ys)
    len2 = total-append xs (b ∷ ys)

pub behind_p :
    (w v : Words) (s : Ptr) (xs ms ys : List Block) (p b : Block)
    → 1 ≤ b.units
    → total ms ≡ size_of b
    → Tiled w s (xs ++ (p ∷ (ms ++ ys)))
    → IsWritten w v (s + total xs + size_of p) b
    → Tiled v s (xs ++ (p ∷ (b ∷ ys)))
behind_p w v s xs ms ys p b units same t new =
    subst (Tiled v s) (append_assoc xs (p ∷ []) (b ∷ ys)) (
      Tiled-IsWritten w v s (xs ++ (p ∷ [])) ms ys b units same
        (subst (Tiled w s) (sym (append_assoc xs (p ∷ []) (ms ++ ys))) t)
        (subst (λ z. IsWritten w v z b) (omega (arith, total-append xs (p ∷ []))) new))

after_used :
    (w : Words) (s : Ptr) (xs ys : List Block) (p b : Block)
    → Tiled w s (xs ++ (p ∷ (b ∷ ys)))
    → p.used ≡ true
    → ((coalesce (s + total xs + size_of p) w).0 ≡ s + total xs + size_of p)
      × Tiled (coalesce (s + total xs + size_of p) w).1 s (xs ++ (p ∷ absorb b ys))
after_used w s xs [] p b t pu =
    rw (coalesce-apart w (s + total xs) p b epilogue (Tiled-IsAround w s xs [] p b t) pu refl)
      (refl, t)
after_used w s xs (n ∷ ys) p b t pu =
    let g = Tiled-IsAround w s xs (n ∷ ys) p b t in
    if_both
      (λ z.
        ((coalesce (s + total xs + size_of p) w).0 ≡ s + total xs + size_of p)
        × Tiled (coalesce (s + total xs + size_of p) w).1 s (xs ++ (p ∷ z)))
      n.used (λ nu. rw (coalesce-apart w (s + total xs) p b n g pu nu) (refl, t))
      (λ nu.
        let done = coalesce-next w (s + total xs) p b n g pu nu in
        (
          done.0,
          behind_p w _ s xs (b ∷ (n ∷ [])) ys p (merge b n) (omega (arith, g.b_units)) (omega arith)
              t done.1,
        ))

after_free :
    (w : Words) (s : Ptr) (xs ys : List Block) (p b : Block)
    → Tiled w s (xs ++ (p ∷ (b ∷ ys)))
    → p.used ≡ false
    → ((coalesce (s + total xs + size_of p) w).0 ≡ s + total xs)
      × Tiled (coalesce (s + total xs + size_of p) w).1 s (xs ++ absorb (merge p b) ys)
after_free w s xs [] p b t pu =
    let g = Tiled-IsAround w s xs [] p b t in
    let done = coalesce-prev w (s + total xs) p b epilogue g pu refl in
    (
      done.0,
      Tiled-IsWritten w _ s xs (p ∷ (b ∷ [])) [] (merge p b) (omega (arith, g.b_units))
          (omega arith) t done.1,
    )
after_free w s xs (n ∷ ys) p b t pu =
    let g = Tiled-IsAround w s xs (n ∷ ys) p b t in
    if_both
      (λ z.
        ((coalesce (s + total xs + size_of p) w).0 ≡ s + total xs)
        × Tiled (coalesce (s + total xs + size_of p) w).1 s (xs ++ z))
      n.used
      (λ nu.
        let done = coalesce-prev w (s + total xs) p b n g pu nu in
        (
          done.0,
          Tiled-IsWritten w _ s xs (p ∷ (b ∷ [])) (n ∷ ys) (merge p b) (omega (arith, g.b_units))
              (omega arith) t done.1,
        ))
      (λ nu.
        let done = coalesce-both w (s + total xs) p b n g pu nu in
        (
          done.0,
          Tiled-IsWritten w _ s xs (p ∷ (b ∷ (n ∷ []))) ys (merge (merge p b) n)
              (omega (arith, g.b_units)) (omega arith) t done.1,
        ))

if_both2 :
    {A : Type 0} (P : A → Type 0) (c : Bool) {q r : Ptr} {a b : A} {l : Ptr}
    → (c ≡ true → (l ≡ q) × P a)
    → (c ≡ false → (l ≡ r) × P b)
    → (l ≡ (if c then q else r)) × P (if c then a else b)
if_both2 P true h k = h refl
if_both2 P false h k = k refl

-- On a well-formed heap with a free block behind another block, coalesce joins the free block with those of
-- its neighbours that are free, gives the address of the joined block, and leaves a well-formed heap in
-- which the other blocks are what they were.
pub coalesce-join :
    (w : Words) (s : Ptr) (xs ys : List Block) (p b : Block)
    → Tiled w s (xs ++ (p ∷ (b ∷ ys)))
    → b.used ≡ false
    → ((coalesce (s + total xs + size_of p) w).0
        ≡ (if p.used then s + total xs + size_of p else s + total xs))
      × Tiled (coalesce (s + total xs + size_of p) w).1 s (xs ++ join p b ys)
coalesce-join w s xs ys p b t free =
    if_both2 (λ z. Tiled (coalesce (s + total xs + size_of p) w).1 s (xs ++ z)) p.used
      (after_used w s xs ys p b t) (after_free w s xs ys p b t)
