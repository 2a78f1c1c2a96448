-- ===== src/Malloc/Answer.antt =====
-- The answers of malloc of libc/malloc.c on a heap that is set up.
use plum_os.Prelude.{
  ℕ, ◌+◌, ◌*◌, ◌^◌, ◌≤◌, ◌<◌, ◌≡◌, refl, sym, ap, ◌∙◌, subst, true, false, List, [], ◌∷◌, ◌++◌,
  ◌==◌, ==_ne, ltb, if◌then◌else◌, arith, Option, none, some, Option-cases, length, inl, inr,
}
use plum_os.Prelude.Partial.{◌>>=◌}
use plum_os.Kernel.{Ptr, null}
use plum_os.Malloc.{Heap, extend_heap, adjusted, allocate, malloc, minit, place, chunk_size}
use plum_os.Malloc.Blocks.{Block, total}
use plum_os.Malloc.Fit.{first_fit, find_fit-first_fit, first_fit-IsFirst}
use plum_os.Malloc.Grow.{grown, grown_last, free_block}
use plum_os.Malloc.Place.{taken}
use plum_os.Malloc.Held.{held, held-grown}
use plum_os.Malloc.Serve.{
  IsHeap, units_for, adjusted_units, units_enough, Grants, extend_heap-grown,
}
use plum_os.Malloc.Taken.{Serves, placed, place-Serves}

-- The units of the block that malloc adds when none fits
abbrev pub units_added : ℕ → ℕ
units_added size = if ltb 4096 (units_for size * 8) then units_for size * 4 else 2048

chunk_units :
    (size : ℕ)
    → size + 15 < 2 ^ 64
    → (if ltb chunk_size (adjusted size) then adjusted size else chunk_size) ≡ units_added size * 2
chunk_units size lt = rw (adjusted_units size lt) (ground arith)

abbrev placed_at : ℕ → Ptr → Heap → Option (Ptr × Heap)
placed_at r p t = some (p, record t { word = place p (r * 8) t.word })

same_place :
    (s p : Ptr) (r : ℕ) (t : Heap) (xs : List Block) {o : Option (Ptr × Heap)}
    → o ≡ placed_at r p t
    → p ≡ s + (8 + total xs)
    → t.heap_listp ≡ s
    → o ≡ some (s + (8 + total xs), placed r t xs)
same_place s p r t xs got e k =
    got
    ∙ ap (λ z. placed_at r z t) (e ∙ ap (λ z. z + (8 + total xs)) (sym k))
    ∙ ap (λ z. some (z + (8 + total xs), placed r t xs)) k

pub added_enough : (size : ℕ) → size + 8 ≤ units_added size * 8
added_enough size = ground (arith, units_enough size)

module _ (sys_brk : ℕ → ℕ → ℕ) (fuel size : ℕ) (h : Heap) (bs : List Block) (i : IsHeap h bs)
    (asks : 1 ≤ size) (small : size + 15 < 2 ^ 64) (fueled : length bs < fuel) where
  malloc_ready : malloc sys_brk fuel size h ≡ allocate sys_brk fuel size h
  unfolding malloc
  malloc_ready =
      ap
        (λ z.
          if z
          then (if (minit sys_brk h).0
              then allocate sys_brk fuel size (minit sys_brk h).1
              else some (null, (minit sys_brk h).1))
          else allocate sys_brk fuel size h)
        i.ready

  behind_start : (n : ℕ) → h.heap_listp + 8 + n ≡ h.heap_listp + (8 + n)
  behind_start n = omega arith

  malloc_found :
      (xs : List Block) (c : Block) (ys : List Block)
      → first_fit (adjusted size) bs ≡ some (xs, c, ys)
      → malloc sys_brk fuel size h
        ≡ some (
          h.heap_listp + (8 + total xs),
          record h { word = place (h.heap_listp + (8 + total xs)) (units_for size * 8) h.word },
        )
  unfolding allocate
  malloc_found xs c ys e =
      malloc_ready
      ∙ rw
          (
            ==_ne size 0 (λ z. absurd (omega arith)),
            find_fit-first_fit fuel (adjusted size) h.word h.heap_listp bs i.tiled fueled,
            e,
            ◌>>=◌,
            adjusted_units size small,
            behind_start (total xs),
            ==_ne (h.heap_listp + (8 + total xs)) 0 (λ z. absurd (omega arith)),
          )
          refl

  malloc_grown :
      first_fit (adjusted size) bs ≡ none
      → ((extend_heap sys_brk (units_added size * 2) h).0 == null) ≡ false
      → malloc sys_brk fuel size h
        ≡ some (
          (extend_heap sys_brk (units_added size * 2) h).0,
          record (extend_heap sys_brk (units_added size * 2) h).1 {
            word =
                place
                  (extend_heap sys_brk (units_added size * 2) h).0
                  (units_for size * 8)
                  (extend_heap sys_brk (units_added size * 2) h).1.word;
          },
        )
  unfolding allocate
  malloc_grown e ne =
      malloc_ready
      ∙ rw
          (
            ==_ne size 0 (λ z. absurd (omega arith)),
            find_fit-first_fit fuel (adjusted size) h.word h.heap_listp bs i.tiled fueled,
            e,
            ◌>>=◌,
            chunk_units size small,
            adjusted_units size small,
            ne,
          )
          refl

  pub malloc_failed :
      first_fit (adjusted size) bs ≡ none
      → ((extend_heap sys_brk (units_added size * 2) h).0 == null) ≡ true
      → malloc sys_brk fuel size h ≡ some (null, (extend_heap sys_brk (units_added size * 2) h).1)
  unfolding allocate
  malloc_failed e ne =
      malloc_ready
      ∙ rw
          (
            ==_ne size 0 (λ z. absurd (omega arith)),
            find_fit-first_fit fuel (adjusted size) h.word h.heap_listp bs i.tiled fueled,
            e,
            ◌>>=◌,
            chunk_units size small,
            ne,
          )
          refl

  abbrev Answered : Type 0
  Answered =
      (a : ℕ) × (t : Heap) × (cs : List Block) × (malloc sys_brk fuel size h
        ≡ some (h.heap_listp + (8 + a), t))
      × Serves size a h bs t cs

  served_found :
      (xs : List Block) (c : Block) (ys : List Block)
      → first_fit (adjusted size) bs ≡ some (xs, c, ys)
      → Answered
  served_found xs c ys e =
      let f = first_fit-IsFirst (adjusted size) bs xs c ys e in
      (
        total xs,
        placed (units_for size) h xs,
        xs ++ (taken c ∷ ys),
        malloc_found xs c ys e,
        place-Serves size (units_for size) h h bs xs ys c (subst (IsHeap h) f.parts i) refl
            f.is_free (λ o. ap (λ z. held z o) (sym f.parts))
            (omega (arith, f.enough, units_enough size, adjusted_units size small))
            (omega (arith, units_enough size)),
      )

  served_grown :
      Grants sys_brk h.curbrk
      → h.curbrk + units_added size * 8 ≤ 2 ^ 30
      → first_fit (adjusted size) bs ≡ none
      → Answered
  served_grown grants room e =
      let b = free_block (units_added size) in
      let g =
        extend_heap-grown sys_brk (units_added size) h bs grants (omega (arith, added_enough size))
          i room in
      let last = grown_last bs b refl in
      (
        total (grown bs b).0,
        placed (units_for size) (extend_heap sys_brk (units_added size * 2) h).1 (grown bs b).0,
        (grown bs b).0 ++ (taken (grown bs b).1 ∷ []),
        same_place h.heap_listp (extend_heap sys_brk (units_added size * 2) h).0 (units_for size)
            (extend_heap sys_brk (units_added size * 2) h).1 (grown bs b).0
            (malloc_grown e (
              ==_ne (extend_heap sys_brk (units_added size * 2) h).0 0
                λ z. absurd (omega (arith, g.0))))
            g.0 g.2,
        place-Serves size (units_for size) h (extend_heap sys_brk (units_added size * 2) h).1 bs
            (grown bs b).0 [] (grown bs b).1 g.1 g.2 last.0
            (held-grown bs b refl (omega (arith, added_enough size)))
            (omega (arith, added_enough size, last.1)) (omega (arith, units_enough size)),
      )

-- With fuel above the number of blocks, a request of 1 to 2 ^ 64 - 16 bytes on a heap that is set up returns,
-- provided that, when no free block fits, the kernel moves the break and the heap stays below its limit. The
-- result is an aligned block of at least the bytes asked for and the two tags, where nothing was held; the
-- heap stays well-formed, and all other blocks that the program holds are what they were.
pub malloc-Serves :
    (sys_brk : ℕ → ℕ → ℕ) (fuel size : ℕ) (h : Heap) (bs : List Block)
    → IsHeap h bs
    → 1 ≤ size
    → size + 15 < 2 ^ 64
    → length bs < fuel
    → (first_fit (adjusted size) bs ≡ none
        → Grants sys_brk h.curbrk × (h.curbrk + units_added size * 8 ≤ 2 ^ 30))
    → (a : ℕ) × (t : Heap) × (cs : List Block) × (malloc sys_brk fuel size h
        ≡ some (h.heap_listp + (8 + a), t))
      × Serves size a h bs t cs
malloc-Serves sys_brk fuel size h bs i asks small fueled room =
    elim (Option-cases (first_fit (adjusted size) bs)) [
      | inl e ↦ served_grown sys_brk fuel size h bs i asks small fueled (room e).0 (room e).1 e
      | inr (f, e) ↦ served_found sys_brk fuel size h bs i asks small fueled f.0 f.1 f.2 e
    ]
