-- ===== src/Examples/Heaps.antt =====
-- Runs of libc/malloc.c at concrete heaps.
use plum_os.Prelude.{ℕ, ◌+◌, ◌*◌, ◌≡◌, refl, true, false, none, some, List, [], ◌∷◌, arith, inr}
use plum_os.Kernel.{null, put}
use plum_os.Malloc.{Words, Heap, adjusted, coalesce, place, find_fit, malloc, minit}
use plum_os.Malloc.Blocks.{Block}
use plum_os.Malloc.Join.{Tiled, join, coalesce-join}
use plum_os.Malloc.Fit.{prologue, first_fit, found_at, find_fit-first_fit}
use plum_os.Malloc.Place.{taken, place-Tiled}
use plum_os.Malloc.Grow.{free_block}
use plum_os.Malloc.Serve.{IsHeap}
use plum_os.Malloc.Taken.{Serves}
use plum_os.Malloc.Answer.{malloc-Serves}
use plum_os.Malloc.Release.{Releases, after_free, free-Releases}
use plum_os.Malloc.Start.{minit-IsHeap, malloc-refused}

-- A heap at 16 with one block of 16 bytes of the given tag
abbrev words_with : ℕ → Words
words_with t = put (put (put (put (put (λ _. 0) 12 9) 16 9) 20 t) 32 t) 36 1

abbrev used_block : Block
used_block = record { units = 2; used = true }

abbrev full_heap : Heap
full_heap = record {
  word = words_with 17;
  heap_listp = 16;
  is_uninitialized = false;
  curbrk = 40;
  calls = 2;
}

full_heap-IsHeap : IsHeap full_heap (used_block ∷ [])
full_heap-IsHeap = record {
  tiled = record {
    low = omega arith;
    high = omega arith;
    blocks = (refl, refl, omega arith, (refl, refl, omega arith, tt));
    ending = refl;
  };
  aligned = refl;
  at_break = refl;
  ready = refl;
}

free_words-Tiled : Tiled (words_with 16) 16 (prologue ∷ (free_block 2 ∷ []))
free_words-Tiled = record {
  low = omega arith;
  high = omega arith;
  blocks = (refl, refl, omega arith, (refl, refl, omega arith, tt));
  ending = refl;
}

-- A kernel that moves the break, and one that refuses
abbrev moves : ℕ → ℕ → ℕ
moves n addr = addr

abbrev refuses : ℕ → ℕ → ℕ
refuses n addr = 40

nothing_fits : first_fit (adjusted 100) (used_block ∷ []) ≡ none
nothing_fits = refl

malloc-Serves_example :
    (a : ℕ) × (t : Heap) × (cs : List Block) × (malloc moves 2 100 full_heap
      ≡ some (16 + (8 + a), t))
    × Serves 100 a full_heap (used_block ∷ []) t cs
malloc-Serves_example =
    malloc-Serves moves 2 100 full_heap (used_block ∷ []) full_heap-IsHeap (omega arith)
      (omega arith) (omega arith) (λ e. ((λ n addr lo hi. refl), omega arith))

free-Releases_example :
    (cs : List Block) × Releases 0 full_heap
      (used_block ∷ [])
      (after_free (16 + (8 + 0)) full_heap)
      cs
free-Releases_example =
    free-Releases full_heap (used_block ∷ []) 0 full_heap-IsHeap (λ e. absurd (omega (arith, e)))

find_fit-first_fit_example :
    find_fit 2 (words_with 16) 16 16 ≡ some (found_at (16 + 8) (first_fit 16 (free_block 2 ∷ [])))
find_fit-first_fit_example =
    find_fit-first_fit 2 16 (words_with 16) 16 (free_block 2 ∷ []) free_words-Tiled (omega arith)

coalesce-join_example :
    ((coalesce (16 + 0 + 8) (words_with 16)).0 ≡ 16 + 0 + 8)
    × Tiled (coalesce (16 + 0 + 8) (words_with 16)).1 16 (join prologue (free_block 2) [])
coalesce-join_example =
    coalesce-join (words_with 16) 16 [] [] prologue (free_block 2) free_words-Tiled refl

place-Tiled_example :
    Tiled (place (16 + 8) (2 * 8) (words_with 16)) 16 (prologue ∷ (taken (free_block 2) ∷ []))
place-Tiled_example =
    place-Tiled (words_with 16) 16 (prologue ∷ []) [] (free_block 2) 2 (omega arith)
      free_words-Tiled

abbrev first_heap : Heap
first_heap = record {
  word = λ _. 0;
  heap_listp = 0;
  is_uninitialized = true;
  curbrk = 4096;
  calls = 0;
}

minit-IsHeap_example :
    ((minit moves first_heap).0 ≡ true)
    × IsHeap (minit moves first_heap).1 (free_block 512 ∷ [])
    × ((minit moves first_heap).1.heap_listp ≡ 4096 + 8)
    × ((fuel size : ℕ)
        → first_heap.is_uninitialized ≡ true
        → malloc moves fuel size first_heap ≡ malloc moves fuel size (minit moves first_heap).1)
minit-IsHeap_example = minit-IsHeap moves first_heap (λ n addr lo hi. refl) refl (omega arith)

malloc-refused_example :
    (t : Heap) × (malloc refuses 2 100 full_heap ≡ some (null, t))
    × (t.word ≡ words_with 17)
    × (t.heap_listp ≡ 16)
malloc-refused_example =
    malloc-refused refuses 2 100 full_heap (used_block ∷ []) full_heap-IsHeap (omega arith)
      (omega arith) (omega arith) nothing_fits (omega arith) (inr (λ e. absurd (omega (arith, e))))
