-- ===== src/Malloc/Start.antt =====
-- minit of libc/malloc.c, and extend_heap when the kernel refuses.
use plum_os.Prelude.{
  ℕ, suc, ◌+◌, ◌-◌, ◌*◌, ◌%◌, ◌^◌, ◌≤◌, ◌<◌, ◌≡◌, ◌≢◌, refl, Bool, true, false, List, [], ◌∷◌,
  ==_ne, ltb, if◌then◌else◌, arith, if_both, none, some, length, lt→ltb, ◌⊎◌, inl, inr,
}
use plum_os.Kernel.{Ptr, null}
use plum_os.Malloc.{
  Words, Heap, put_word, brk, sbrk, new_block, extend_heap, first_words, minit, malloc, adjusted,
}
use plum_os.Malloc.Blocks.{Block, pack_flag}
use plum_os.Malloc.Join.{Tiled}
use plum_os.Malloc.Fit.{prologue, first_fit}
use plum_os.Malloc.Grow.{free_block}
use plum_os.Malloc.Serve.{IsLaid, IsHeap, Grants, sbrk-Grants, extend_heap-grown}
use plum_os.Malloc.Answer.{units_added, malloc_failed, added_enough}

-- The words that minit writes at the break p
module _ (w : Words) (p : Ptr) where
  abbrev start_words : Words
  start_words = put_word (put_word (put_word (put_word w p 0) (p + 4) 9) (p + 8) 9) (p + 12) 1

  start_Tiled : p + 16 < 2 ^ 31 → Tiled start_words (p + 8) (prologue ∷ [])
  unfolding put_word
  start_Tiled lt = record {
    low = omega arith;
    high = omega arith;
    blocks = (ground arith, ground arith, omega arith, tt);
    ending = ground arith;
  }

first_words-IsHeap :
    (sys_brk : ℕ → ℕ → ℕ) (h : Heap) (p : Ptr)
    → Grants sys_brk h.curbrk
    → p % 8 ≡ 0
    → h.curbrk ≡ p + 16
    → p + 4112 ≤ 2 ^ 30
    → ((first_words sys_brk p h).0 ≡ true)
      × IsHeap (first_words sys_brk p h).1 (free_block 512 ∷ [])
      × ((first_words sys_brk p h).1.heap_listp ≡ p + 8)
unfolding first_words
first_words-IsHeap sys_brk h p grants aligned at_break room =
    let i : IsLaid h.is_uninitialized (record h { word = start_words h.word p; heap_listp = p + 8 })
        [] =
      record {
        tiled = start_Tiled h.word p (omega arith);
        aligned = omega arith;
        at_break = omega arith;
        ready = refl;
      } in
    let g =
      extend_heap-grown sys_brk 512 (record h { word = start_words h.word p; heap_listp = p + 8 })
        [] grants (omega arith) i (omega arith) in
    rw
      (
        pack_flag 1 1 (omega arith),
        pack_flag 0 1 (omega arith),
        ==_ne p (2 ^ 64 - 1) (λ e. absurd (omega arith)),
        ==_ne
            (extend_heap sys_brk 1024
              (record h { word = start_words h.word p; heap_listp = p + 8 })).0
            0 (λ e. absurd (omega (arith, g.0))),
      )
      (
        refl,
        record { tiled = g.1.tiled; aligned = g.1.aligned; at_break = g.1.at_break; ready = refl },
        g.2,
      )

started :
    (sys_brk : ℕ → ℕ → ℕ) (h : Heap)
    → Grants sys_brk h.curbrk
    → h.curbrk % 8 ≡ 0
    → h.curbrk + 4112 ≤ 2 ^ 30
    → ((minit sys_brk h).0 ≡ true)
      × IsHeap (minit sys_brk h).1 (free_block 512 ∷ [])
      × ((minit sys_brk h).1.heap_listp ≡ h.curbrk + 8)
unfolding minit
started sys_brk h grants aligned room =
    rw (sbrk-Grants sys_brk 16 h grants (λ e. absurd (omega arith)) (omega arith)) (
      first_words-IsHeap sys_brk (record h { curbrk = h.curbrk + 16; calls = suc h.calls }) h.curbrk
        (λ n addr lo hi. grants n addr (omega arith) hi) aligned refl room)

chosen :
    {A : Type 0} (c d e : Bool) (x y z w : A)
    → c ≡ true
    → d ≡ true
    → e ≡ false
    → (if c then (if d then x else y) else z) ≡ (if e then w else x)
chosen c d e x y z w p q r = rw (p, q, r) refl

first_malloc :
    (sys_brk : ℕ → ℕ → ℕ) (fuel size : ℕ) (h : Heap)
    → h.is_uninitialized ≡ true
    → (minit sys_brk h).0 ≡ true
    → (minit sys_brk h).1.is_uninitialized ≡ false
    → malloc sys_brk fuel size h ≡ malloc sys_brk fuel size (minit sys_brk h).1
unfolding malloc
first_malloc sys_brk fuel size h fresh fine ready =
    chosen h.is_uninitialized (minit sys_brk h).0 (minit sys_brk h).1.is_uninitialized _ _ _ _ fresh
      fine ready

abbrev Untouched : Heap → Ptr × Heap → Type 0
Untouched h r = (r.0 ≡ null) × (r.1.word ≡ h.word) × (r.1.heap_listp ≡ h.heap_listp)

sbrk_refused :
    (sys_brk : ℕ → ℕ → ℕ) (n : ℕ) (h : Heap)
    → 1 ≤ n
    → h.curbrk + n < 2 ^ 64
    → (2 ^ 30 < h.curbrk + n) ⊎ (sys_brk h.calls (h.curbrk + n) ≢ h.curbrk + n)
    → Untouched h (sbrk sys_brk n h)
unfolding sbrk brk
sbrk_refused sys_brk n h some_bytes fit (inl over) =
    rw (whole, lt→ltb (2 ^ 30) (h.curbrk + n) over) (refl, refl, refl)
  where
    whole : (h.curbrk + n) % 2 ^ 64 ≡ h.curbrk + n
    whole = omega arith
sbrk_refused sys_brk n h some_bytes fit (inr no_move) =
    rw (whole, ==_ne n 0 (λ e. absurd (omega arith)), ==_ne _ _ no_move)
      (if_both (Untouched h) (ltb (2 ^ 30) (h.curbrk + n)) (λ e. (refl, refl, refl))
        (λ e. (refl, refl, refl)))
  where
    whole : (h.curbrk + n) % 2 ^ 64 ≡ h.curbrk + n
    whole = omega arith

new_block_null :
    (size : ℕ) (h : Heap) (r : Ptr × Heap) → Untouched h r → Untouched h (new_block size r.0 r.1)
unfolding new_block
new_block_null size h r (e, k, l) = rw e (refl, k, l)

extend_heap_refused :
    (sys_brk : ℕ → ℕ → ℕ) (u : ℕ) (h : Heap)
    → 1 ≤ u
    → h.curbrk + u * 8 < 2 ^ 64
    → (2 ^ 30 < h.curbrk + u * 8) ⊎ (sys_brk h.calls (h.curbrk + u * 8) ≢ h.curbrk + u * 8)
    → Untouched h (extend_heap sys_brk (u * 2) h)
unfolding extend_heap
extend_heap_refused sys_brk u h units fit refuses =
    rw (even, size)
      (new_block_null (u * 8) h (sbrk sys_brk (u * 8) h)
        (sbrk_refused sys_brk (u * 8) h (omega arith) fit refuses))
  where
    even : u * 2 % 2 ≡ 0
    even = omega arith

    size : u * 2 * 4 % 2 ^ 64 ≡ u * 8
    size = omega (arith, fit)

-- Where the kernel moves the break to any address above the present one and up to the limit, the break is a
-- multiple of 8 and 4112 bytes are left, minit succeeds: the heap is well-formed, with one free block of
-- 4096 bytes, and the first malloc answers as malloc does on that heap.
pub minit-IsHeap :
    (sys_brk : ℕ → ℕ → ℕ) (h : Heap)
    → Grants sys_brk h.curbrk
    → h.curbrk % 8 ≡ 0
    → h.curbrk + 4112 ≤ 2 ^ 30
    → ((minit sys_brk h).0 ≡ true)
      × IsHeap (minit sys_brk h).1 (free_block 512 ∷ [])
      × ((minit sys_brk h).1.heap_listp ≡ h.curbrk + 8)
      × ((fuel size : ℕ)
          → h.is_uninitialized ≡ true
          → malloc sys_brk fuel size h ≡ malloc sys_brk fuel size (minit sys_brk h).1)
minit-IsHeap sys_brk h grants aligned room =
    let s = started sys_brk h grants aligned room in
    (s.0, s.1, s.2, λ fuel size fresh. first_malloc sys_brk fuel size h fresh s.0 s.1.ready)

-- When no free block fits and sbrk fails, since the heap would pass its limit or since the kernel refuses,
-- malloc gives NULL and leaves the memory as it was.
pub malloc-refused :
    (sys_brk : ℕ → ℕ → ℕ) (fuel size : ℕ) (h : Heap) (bs : List Block)
    → IsHeap h bs
    → 1 ≤ size
    → size + 15 < 2 ^ 64
    → length bs < fuel
    → first_fit (adjusted size) bs ≡ none
    → h.curbrk + units_added size * 8 < 2 ^ 64
    → (2 ^ 30 < h.curbrk + units_added size * 8)
      ⊎ (sys_brk h.calls (h.curbrk + units_added size * 8) ≢ h.curbrk + units_added size * 8)
    → (t : Heap) × (malloc sys_brk fuel size h ≡ some (null, t))
      × (t.word ≡ h.word)
      × (t.heap_listp ≡ h.heap_listp)
malloc-refused sys_brk fuel size h bs i asks small fueled e fit refuses =
    let r =
      extend_heap_refused sys_brk (units_added size) h (omega (arith, added_enough size)) fit
        refuses in
    (
      (extend_heap sys_brk (units_added size * 2) h).1,
      malloc_failed sys_brk fuel size h bs i asks small fueled e (rw (r.0) refl),
      r.1,
      r.2,
    )
