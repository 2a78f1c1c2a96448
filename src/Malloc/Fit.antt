-- ===== src/Malloc/Fit.antt =====
-- find_fit of libc/malloc.c against the list of blocks.
use plum_os.Prelude.{
  ℕ, zero, suc, ◌+◌, ◌-◌, ◌^◌, ◌≤◌, ◌<◌, ◌≡◌, refl, ap, ◌∙◌, subst, Bool, ◌&&◌, not, true, false,
  List, [], ◌∷◌, ◌++◌, ◌==◌, ==_ne, leb, leb→le, if◌then◌else◌, arith, if_both, Option, none, some,
  length,
}
use plum_os.Kernel.{Ptr, null}
use plum_os.Malloc.{Words, get_size, get_alloc, hdrp, next_blkp, find_loop, find_fit}
use plum_os.Malloc.Blocks.{Block, size_of, flag_of, total, get_size-tag, get_alloc-tag}
use plum_os.Malloc.Join.{Tiled, epilogue}

abbrev pub fits : ℕ → Block → Bool
fits n b = not b.used && leb n (size_of b)

-- The blocks before the first one that fits, that block, and those behind it.
abbrev pub Found : Type 0
Found = List Block × Block × List Block

abbrev pub further : Block → Option Found → Option Found
further b none = none
further b (some (xs, c, ys)) = some (b ∷ xs, c, ys)

abbrev pub first_fit : ℕ → List Block → Option Found
first_fit n [] = none
first_fit n (b ∷ bs) = if fits n b then some ([], b, bs) else further b (first_fit n bs)

-- The address of the block found among those from q on, or NULL
abbrev pub found_at : Ptr → Option Found → Ptr
found_at q none = null
found_at q (some (xs, c, ys)) = q + total xs

found_at-further :
    (q : Ptr) (b : Block) (o : Option Found) → found_at (q + size_of b) o ≡ found_at q (further b o)
found_at-further q b none = refl
found_at-further q b (some (xs, c, ys)) = omega arith

Tiled_tail :
    (w : Words) (q : Ptr) (b : Block) (bs : List Block)
    → Tiled w q (b ∷ bs)
    → Tiled w (q + size_of b) bs
Tiled_tail w q b bs t = record {
  low = omega (arith, t.low);
  high = omega (arith, t.high);
  blocks = t.blocks.3;
  ending = ap w (omega arith) ∙ t.ending;
}

found_step :
    (c : Bool) (q : Ptr) (b : Block) (bs : List Block) (o : Option Found)
    → (if c then some q else some (found_at (q + size_of b) o))
      ≡ some (found_at q (if c then some ([], b, bs) else further b o))
found_step true q b bs o = ap some (omega arith)
found_step false q b bs o = ap some (found_at-further q b o)

flag_zero : (b : Block) → (flag_of b == 0) ≡ not b.used
flag_zero b = grind arith

pub find_loop-first_fit :
    (fuel n : ℕ) (w : Words) (q : Ptr) (bs : List Block)
    → Tiled w q bs
    → length bs < fuel
    → find_loop fuel w n q ≡ some (found_at q (first_fit n bs))
unfolding find_loop
find_loop-first_fit zero n w q bs t lt = absurd (omega arith)
find_loop-first_fit (suc fuel) n w q [] t lt = rw size refl
  where
    size : get_size w (hdrp q) ≡ 0
    size = get_size-tag w (q - 4) epilogue (ap w (omega arith) ∙ t.ending) (omega arith)
find_loop-first_fit (suc fuel) n w q (b ∷ bs) t lt =
    rw
      (
        next,
        size,
        alloc,
        ==_ne (size_of b) 0 (λ e. absurd (omega (arith, t.blocks.2))),
        flag_zero b,
        find_loop-first_fit fuel n w (q + size_of b) bs (Tiled_tail w q b bs t) (omega arith),
      )
      (found_step (fits n b) q b bs (first_fit n bs))
  where
    bound : size_of b < 2 ^ 32
    bound = omega (arith, t.high)

    size : get_size w (hdrp q) ≡ size_of b
    size = get_size-tag w (q - 4) b t.blocks.0 bound

    alloc : get_alloc w (hdrp q) ≡ flag_of b
    alloc = get_alloc-tag w (q - 4) b t.blocks.0

    next : next_blkp w q ≡ q + size_of b
    next = omega (arith, size, t.blocks.2)

abbrev pub prologue : Block
prologue = record { units = 1; used = true }

-- On a well-formed heap, with fuel above the number of blocks behind the prologue, find_fit returns: with the address of the first
-- free block of at least n bytes, or with NULL when there is none.
pub find_fit-first_fit :
    (fuel n : ℕ) (w : Words) (s : Ptr) (bs : List Block)
    → Tiled w s (prologue ∷ bs)
    → length bs < fuel
    → find_fit fuel w s n ≡ some (found_at (s + 8) (first_fit n bs))
unfolding find_fit
find_fit-first_fit fuel n w s bs t lt =
    rw (next) (find_loop-first_fit fuel n w (s + 8) bs (Tiled_tail w s prologue bs t) lt)
  where
    next : next_blkp w s ≡ s + 8
    next = omega (arith, get_size-tag w (s - 4) prologue t.blocks.0 (omega arith))

-- What first_fit finds: the list in three parts, of which the middle one fits and none before it does.
pub record IsFirst (n : ℕ) (bs xs : List Block) (c : Block) (ys : List Block) : Type 0 where
  pub parts : bs ≡ xs ++ (c ∷ ys)
  pub is_free : c.used ≡ false
  pub enough : n ≤ size_of c
  pub none_before : first_fit n xs ≡ none

fits_free : (n : ℕ) (b : Block) → fits n b ≡ true → (b.used ≡ false) × (n ≤ size_of b)
fits_free n b h = grind (arith, leb→le n (size_of b))

abbrev Firsts : ℕ → List Block → Option Found → Type 0
Firsts n bs none = Unit {0}
Firsts n bs (some (xs, c, ys)) = IsFirst n bs xs c ys

Firsts-further :
    (n : ℕ) (b : Block) (bs : List Block) (o : Option Found)
    → fits n b ≡ false
    → Firsts n bs o
    → Firsts n (b ∷ bs) (further b o)
Firsts-further n b bs none unfit h = tt
Firsts-further n b bs (some (xs, c, ys)) unfit h = record {
  parts = ap (λ (l : List Block). b ∷ l) h.parts;
  is_free = h.is_free;
  enough = h.enough;
  none_before = rw (unfit, h.none_before) refl;
}

firsts : (n : ℕ) (bs : List Block) → Firsts n bs (first_fit n bs)
firsts n [] = tt
firsts n (b ∷ bs) =
    if_both (Firsts n (b ∷ bs)) (fits n b)
      (λ fit. record {
        parts = refl;
        is_free = (fits_free n b fit).0;
        enough = (fits_free n b fit).1;
        none_before = refl;
      })
      (λ unfit. Firsts-further n b bs (first_fit n bs) unfit (firsts n bs))

pub first_fit-IsFirst :
    (n : ℕ) (bs xs : List Block) (c : Block) (ys : List Block)
    → first_fit n bs ≡ some (xs, c, ys)
    → IsFirst n bs xs c ys
first_fit-IsFirst n bs xs c ys e = subst (Firsts n bs) e (firsts n bs)
