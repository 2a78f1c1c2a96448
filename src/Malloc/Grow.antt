-- ===== src/Malloc/Grow.antt =====
-- sbrk and extend_heap of the C library.
use mathlib.Core.List.{append_assoc}
use plum_os.Prelude.{
  ℕ, ◌+◌, ◌-◌, ◌*◌, ◌^◌, ◌≤◌, ◌<◌, ◌≡◌, refl, sym, ap, ◌∙◌, subst, Bool, true, false, List, [], ◌∷◌,
  ◌++◌, ◌==◌, ==_ne, if◌then◌else◌, arith, if_both,
}
use plum_os.Kernel.{Ptr, null}
use plum_os.Malloc.{Words, Heap, get_size, pack, put_word, hdrp, next_blkp, coalesce, new_block}
use plum_os.Malloc.Blocks.{
  Block, size_of, tag, total, Blocks-agree, Blocks-joined, IsWritten, get_size-tag, pack_flag,
  put_word_here, put_word_apart, total-append,
}
use plum_os.Malloc.Coalesce.{written_down, merge}
use plum_os.Malloc.Join.{Tiled, join, coalesce-join}
use plum_os.Malloc.Fit.{prologue}

abbrev pub behind : Bool → Block → Block → List Block × Block
behind true x b = (x ∷ [], b)
behind false x b = ([], merge x b)

-- The last blocks of a heap behind which the free block b is put: joined with the last one if that is
-- free. The second part is the free block at the end.
abbrev pub grown : List Block → Block → List Block × Block
grown [] b = ([], b)
grown (x ∷ []) b = behind x.used x b
grown (x ∷ (y ∷ r)) b = (x ∷ (grown (y ∷ r) b).0, (grown (y ∷ r) b).1)

-- The last block l of a list, and what growth makes of the list.
record EndsIn (bs : List Block) (b : Block) (g : List Block × Block) : Type 0 where
  xs : List Block
  l : Block
  parts : bs ≡ xs ++ (l ∷ [])
  result : g.0 ++ (g.1 ∷ []) ≡ xs ++ join l b []
  address : total g.0 ≡ (if l.used then total xs + size_of l else total xs)

one_result :
    (c : Bool) (x b : Block)
    → (behind c x b).0 ++ ((behind c x b).1 ∷ []) ≡ (if c then x ∷ (b ∷ []) else merge x b ∷ [])
one_result true x b = refl
one_result false x b = refl

one_address : (c : Bool) (x b : Block) → total (behind c x b).0 ≡ (if c then 0 + size_of x else 0)
one_address true x b = omega arith
one_address false x b = refl

grown-EndsIn : (x : Block) (r : List Block) (b : Block) → EndsIn (x ∷ r) b (grown (x ∷ r) b)
grown-EndsIn x [] b = record {
  xs = [];
  l = x;
  parts = refl;
  result = one_result x.used x b;
  address = one_address x.used x b;
}
grown-EndsIn x (y ∷ r) b =
    let e = grown-EndsIn y r b in
    record {
      xs = x ∷ e.xs;
      l = e.l;
      parts = ap (λ (z : List Block). x ∷ z) e.parts;
      result = ap (λ (z : List Block). x ∷ z) e.result;
      address = grind (arith, e.address);
    }

behind_prologue :
    (bs : List Block) (b : Block)
    → EndsIn (prologue ∷ bs) b (prologue ∷ (grown bs b).0, (grown bs b).1)
behind_prologue [] b = record {
  xs = [];
  l = prologue;
  parts = refl;
  result = refl;
  address = omega arith;
}
behind_prologue (x ∷ r) b =
    let e = grown-EndsIn x r b in
    record {
      xs = prologue ∷ e.xs;
      l = e.l;
      parts = ap (λ (z : List Block). prologue ∷ z) e.parts;
      result = ap (λ (z : List Block). prologue ∷ z) e.result;
      address = grind (arith, e.address);
    }

behind_total :
    (f : Bool) (x b : Block)
    → total ((behind f x b).0 ++ ((behind f x b).1 ∷ [])) ≡ size_of x + size_of b
behind_total true x b = omega arith
behind_total false x b = omega arith

pub grown_total :
    (bs : List Block) (b : Block)
    → total ((grown bs b).0 ++ ((grown bs b).1 ∷ [])) ≡ total bs + size_of b
grown_total [] b = omega arith
grown_total (x ∷ []) b = omega (arith, behind_total x.used x b)
grown_total (x ∷ (y ∷ r)) b = omega (arith, grown_total (y ∷ r) b)

behind_last :
    (f : Bool) (x b : Block)
    → b.used ≡ false
    → ((behind f x b).1.used ≡ false) × (b.units ≤ (behind f x b).1.units)
behind_last true x b e = (e, omega arith)
behind_last false x b e = (refl, omega arith)

pub grown_last :
    (bs : List Block) (b : Block)
    → b.used ≡ false
    → ((grown bs b).1.used ≡ false) × (b.units ≤ (grown bs b).1.units)
grown_last [] b e = (e, omega arith)
grown_last (x ∷ []) b e = behind_last x.used x b e
grown_last (x ∷ (y ∷ r)) b e = grown_last (y ∷ r) b e

-- What the lines of extend_heap behind sbrk leave as it is
pub new_block_keeps :
    (size : ℕ) (bp : Ptr) (h : Heap)
    → ((new_block size bp h).1.heap_listp ≡ h.heap_listp)
      × ((new_block size bp h).1.curbrk ≡ h.curbrk)
      × ((new_block size bp h).1.is_uninitialized ≡ h.is_uninitialized)
unfolding new_block
new_block_keeps size bp h =
    if_both
      (λ (z : Ptr × Heap).
        (z.1.heap_listp ≡ h.heap_listp)
        × (z.1.curbrk ≡ h.curbrk)
        × (z.1.is_uninitialized ≡ h.is_uninitialized))
      (bp == null) (λ e. (refl, refl, refl)) (λ e. (refl, refl, refl))

-- A free block and a new epilogue behind a heap
appended :
    (w : Words) (s : Ptr) (bs : List Block) (b : Block) (v : Words)
    → 1 ≤ b.units
    → s + total bs + size_of b < 2 ^ 31
    → Tiled w s bs
    → IsWritten w v (s + total bs) b
    → Tiled (put_word v (s + total bs + size_of b - 4) 1) s (bs ++ (b ∷ []))
appended w s bs b v units bound t new = record {
  low = t.low;
  high = omega (arith, len, bound);
  blocks =
      Blocks-joined (put_word v (s + total bs + size_of b - 4) 1) s bs (b ∷ [])
        (Blocks-agree w (put_word v (s + total bs + size_of b - 4) 1) s bs (omega (arith, t.low))
          (λ a lo hi.
            put_word_apart v (s + total bs + size_of b - 4) 1 a (λ e. absurd (omega arith))
            ∙ new.before a (omega arith))
          t.blocks)
        (
          put_word_apart v (s + total bs + size_of b - 4) 1 (s + total bs - 4)
                (λ e. absurd (omega (arith, t.low)))
              ∙ new.head,
          put_word_apart v (s + total bs + size_of b - 4) 1 (s + total bs + size_of b - 8)
                (λ e. absurd (omega (arith, t.low)))
              ∙ new.foot,
          units,
          tt,
        );
  ending =
      ap (put_word v (s + total bs + size_of b - 4) 1) (omega (arith, len))
      ∙ put_word_here v (s + total bs + size_of b - 4) 1 (omega arith);
}
  where
    len : total (bs ++ (b ∷ [])) ≡ total bs + size_of b
    len = omega (arith, total-append bs (b ∷ []))

address_from :
    (c : Bool) (s x l g : ℕ)
    → g ≡ (if c then x + l else x)
    → (if c then s + x + l else s + x) ≡ s + g
address_from true s x l g e = omega arith
address_from false s x l g e = omega arith

-- The lines of extend_heap behind sbrk, on a block of u times 8 bytes
abbrev pub free_block : ℕ → Block
free_block u = record { units = u; used = false }

module _ (u : ℕ) (h : Heap) (bs : List Block) (t : Tiled h.word h.heap_listp (prologue ∷ bs))
    (some_units : 1 ≤ u) (bound : h.heap_listp + (8 + total bs) + u * 8 < 2 ^ 31) where
  abbrev pub q : Ptr
  q = h.heap_listp + (8 + total bs)

  new_tag : pack (u * 8) 0 ≡ tag (free_block u)
  new_tag = pack_flag u 0 (omega arith)

  abbrev pub w1 : Words
  w1 = put_word h.word (hdrp q) (tag (free_block u))

  abbrev pub w2 : Words
  w2 = put_word w1 (q + u * 8 - 8) (tag (free_block u))

  new : IsWritten h.word w2 q (free_block u)
  new =
      written_down h.word q (free_block u) (omega (arith, t.low)) some_units (omega (arith, bound))

  size1 : get_size w1 (hdrp q) ≡ u * 8
  size1 =
      get_size-tag w1 (hdrp q) (free_block u)
        (put_word_here h.word (hdrp q) (tag (free_block u)) (omega (arith, bound)))
        (omega (arith, bound))

  size2 : get_size w2 (hdrp q) ≡ u * 8
  size2 = get_size-tag w2 (hdrp q) (free_block u) new.head (omega (arith, bound))

  next2 : next_blkp w2 q ≡ q + u * 8
  next2 = omega (arith, size2, some_units)

  ending_tag : pack 0 1 ≡ 1
  ending_tag = pack_flag 0 1 (omega arith)

  abbrev pub w3 : Words
  w3 = put_word w2 (q + u * 8 - 4) 1

  joined :
      ((coalesce q w3).0 ≡ h.heap_listp + (8 + total (grown bs (free_block u)).0))
      × Tiled
          (coalesce q w3).1
          h.heap_listp
          (prologue ∷ ((grown bs (free_block u)).0 ++ ((grown bs (free_block u)).1 ∷ [])))
  joined =
      let e = behind_prologue bs (free_block u) in
      let t3 =
        appended h.word h.heap_listp (prologue ∷ bs) (free_block u) w2 some_units bound t new in
      let len = ap total e.parts in
      let c =
        coalesce-join w3 h.heap_listp e.xs [] e.l (free_block u)
          (subst (Tiled w3 h.heap_listp)
            (ap (λ z. z ++ (free_block u ∷ [])) e.parts
              ∙ append_assoc e.xs (e.l ∷ []) (free_block u ∷ []))
            t3)
          refl in
      subst
        (λ z.
          ((coalesce z w3).0 ≡ h.heap_listp + (8 + total (grown bs (free_block u)).0))
          × Tiled (coalesce z w3).1 h.heap_listp
              (prologue ∷ ((grown bs (free_block u)).0 ++ ((grown bs (free_block u)).1 ∷ []))))
        (omega (arith, len, total-append e.xs (e.l ∷ [])))
        (
          c.0 ∙ address_from e.l.used h.heap_listp (total e.xs) (size_of e.l) _ e.address,
          subst (Tiled _ h.heap_listp) (sym e.result) c.1,
        )

  -- The blocks after extend_heap, and the address that it gives
  pub new_block-grown :
      ((new_block (u * 8) q h).0 ≡ h.heap_listp + (8 + total (grown bs (free_block u)).0))
      × Tiled
          (new_block (u * 8) q h).1.word
          h.heap_listp
          (prologue ∷ ((grown bs (free_block u)).0 ++ ((grown bs (free_block u)).1 ∷ [])))
  unfolding new_block
  new_block-grown =
      rw (new_tag, size1, next2, ending_tag, ==_ne q 0 (λ e. absurd (omega (arith, t.low)))) joined
