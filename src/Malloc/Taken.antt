-- ===== src/Malloc/Taken.antt =====
-- What malloc of libc/malloc.c means for the program: one more block held, the others as they were.
use plum_os.Prelude.{
  ℕ, ◌+◌, ◌*◌, ◌%◌, ◌≤◌, ◌≡◌, ◌≢◌, refl, sym, ap, ◌∙◌, Bool, true, false, List, [], ◌∷◌, ◌++◌, ◌==◌,
  ==_ne, ==_refl, if◌then◌else◌, arith,
}
use plum_os.Malloc.{Heap, place}
use plum_os.Malloc.Blocks.{Block, size_of, total, total-append}
use plum_os.Malloc.Place.{taken, place-Tiled}
use plum_os.Malloc.Fit.{prologue}
use plum_os.Malloc.Held.{held, marked, held-marked, Blocks-AllSized}
use plum_os.Malloc.Serve.{IsHeap}

-- From h, which held the blocks bs, to t: the program holds a block for `size` bytes and its two tags at
-- the offset a behind the first block's address, where it held none, and what it held before.
pub record Serves (size a : ℕ) (h : Heap) (bs : List Block) (t : Heap) (cs : List Block)
    : Type 0 where
  pub heap : IsHeap t cs
  pub same_start : t.heap_listp ≡ h.heap_listp
  pub enough : size + 8 ≤ held cs a
  pub fresh : held bs a ≡ 0
  pub others : (o : ℕ) → o ≢ a → held cs o ≡ held bs o
  pub aligned : a % 8 ≡ 0

total_aligned : (xs : List Block) → total xs % 8 ≡ 0
total_aligned [] = refl
total_aligned (x ∷ xs) = omega (arith, total_aligned xs)

abbrev pub placed : ℕ → Heap → List Block → Heap
placed r t xs = record t { word = place (t.heap_listp + (8 + total xs)) (r * 8) t.word }

module _ (size r : ℕ) (h t : Heap) (bs xs ys : List Block) (c : Block)
    (i : IsHeap t (xs ++ (c ∷ ys))) (same : t.heap_listp ≡ h.heap_listp) (free : c.used ≡ false)
    (alike : (o : ℕ) → held (xs ++ (c ∷ ys)) o ≡ held bs o) (enough : size + 8 ≤ size_of c)
    (some_units : 1 ≤ r) where
  at :
      (f : Bool) (o : ℕ)
      → held (xs ++ (marked f c ∷ ys)) o
        ≡ (if o == total xs then (if f then size_of c else 0) else held (xs ++ (c ∷ ys)) o)
  at f o =
      held-marked f xs ys c o
        (Blocks-AllSized t.word (t.heap_listp + 8) (xs ++ (c ∷ ys)) i.tiled.blocks.3)

  here : (f : Bool) → held (xs ++ (marked f c ∷ ys)) (total xs) ≡ (if f then size_of c else 0)
  here f = at f (total xs) ∙ rw (==_refl (total xs)) refl

  was_free : marked false c ≡ c
  was_free = rw free refl

  pub place-Serves : Serves size (total xs) h bs (placed r t xs) (xs ++ (taken c ∷ ys))
  place-Serves = record {
    heap = record {
      tiled = place-Tiled t.word t.heap_listp (prologue ∷ xs) ys c r some_units i.tiled;
      aligned = i.aligned;
      at_break =
          omega (arith, i.at_break, total-append xs (c ∷ ys), total-append xs (taken c ∷ ys));
      ready = i.ready;
    };
    same_start = same;
    enough = omega (arith, here true, enough);
    fresh =
        sym (alike (total xs))
        ∙ ap (λ z. held (xs ++ (z ∷ ys)) (total xs)) (sym was_free)
        ∙ here false;
    others = λ o ne. at true o ∙ rw (==_ne o (total xs) ne) (alike o);
    aligned = total_aligned xs;
  }
