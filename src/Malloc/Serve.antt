-- ===== src/Malloc/Serve.antt =====
-- malloc of libc/malloc.c.
use plum_os.Prelude.{
  ℕ, suc, ◌+◌, ◌-◌, ◌*◌, ◌/◌, ◌%◌, ◌^◌, ◌≤◌, ◌<◌, ◌≡◌, ◌≢◌, refl, sym, ap, ◌∙◌, subst, Bool, false,
  List, [], ◌∷◌, ◌++◌, ==_ne, ==_refl, leb, ltb, if◌then◌else◌, arith, if_both,
}
use plum_os.Prelude.Bits.{and_high, and_low}
use plum_os.Malloc.{Heap, brk, sbrk, new_block, extend_heap, adjusted, max_addr}
use plum_os.Malloc.Blocks.{Block, total}
use plum_os.Malloc.Join.{Tiled}
use plum_os.Malloc.Fit.{prologue}
use plum_os.Malloc.Grow.{grown, grown_total, new_block_keeps, free_block, new_block-grown}

-- The heap h holds the blocks bs between its prologue and its epilogue, which ends at the break.
pub record IsLaid (flag : Bool) (h : Heap) (bs : List Block) : Type 0 where
  pub tiled : Tiled h.word h.heap_listp (prologue ∷ bs)
  pub aligned : h.heap_listp % 8 ≡ 0
  pub at_break : h.curbrk ≡ h.heap_listp + (8 + total bs)
  pub ready : h.is_uninitialized ≡ flag

-- Such a heap once minit is through
abbrev pub IsHeap : Heap → List Block → Type 0
IsHeap = IsLaid false

-- adjusted, in units of 8 bytes
abbrev pub units_for : ℕ → ℕ
units_for size = if leb size 8 then 2 else (size + 15) / 8

pub adjusted_units : (size : ℕ) → size + 15 < 2 ^ 64 → adjusted size ≡ units_for size * 8
unfolding adjusted
adjusted_units size lt =
    if_both (λ z. z ≡ units_for size * 8) (leb size 8) (λ small. rw small refl)
      (λ large. rw large (
        and_high 3 ((size + 8 + 8 - 1) % 2 ^ 64) (2 ^ 61 - 1)
        ∙ ap (λ (z : ℕ). z * 8) (and_low 61 ((size + 8 + 8 - 1) % 2 ^ 64 / 8) ∙ omega arith)))

pub units_enough : (size : ℕ) → (size + 8 ≤ units_for size * 8) × (2 ≤ units_for size)
units_enough size = ground arith

grown_heap :
    (flag : Bool) (u : ℕ) (h : Heap) (bs : List Block)
    → 1 ≤ u
    → h.heap_listp + (8 + total bs) + u * 8 < 2 ^ 31
    → Tiled h.word h.heap_listp (prologue ∷ bs)
    → h.heap_listp % 8 ≡ 0
    → h.curbrk ≡ h.heap_listp + (8 + total bs) + u * 8
    → h.is_uninitialized ≡ flag
    → ((new_block (u * 8) (h.heap_listp + (8 + total bs)) h).0
        ≡ h.heap_listp + (8 + total (grown bs (free_block u)).0))
      × IsLaid flag
          (new_block (u * 8) (h.heap_listp + (8 + total bs)) h).1
          ((grown bs (free_block u)).0 ++ ((grown bs (free_block u)).1 ∷ []))
      × ((new_block (u * 8) (h.heap_listp + (8 + total bs)) h).1.heap_listp ≡ h.heap_listp)
grown_heap flag u h bs units bound t aligned at_break ready =
    let n = new_block-grown u h bs t units bound in
    let k = new_block_keeps (u * 8) (h.heap_listp + (8 + total bs)) h in
    (
      n.0,
      record {
        tiled =
            subst
              (λ z.
                Tiled (new_block (u * 8) (h.heap_listp + (8 + total bs)) h).1.word z
                  (prologue ∷ ((grown bs (free_block u)).0 ++ ((grown bs (free_block u)).1 ∷ []))))
              (sym k.0) n.1;
        aligned = ap (λ z. z % 8) k.0 ∙ aligned;
        at_break = omega (arith, k.0, k.1, at_break, grown_total bs (free_block u));
        ready = k.2 ∙ ready;
      },
      k.0,
    )

module _ (sys_brk : ℕ → ℕ → ℕ) where
  -- The kernel moves the break to any address above `low` and up to the limit of sbrk.
  abbrev pub Grants : ℕ → Type 0
  Grants low = (n addr : ℕ) → low < addr → addr ≤ 2 ^ 30 → sys_brk n addr ≡ addr

  pub sbrk-Grants :
      (incr : ℕ) (h : Heap)
      → Grants h.curbrk
      → incr ≢ 0
      → h.curbrk + incr ≤ 2 ^ 30
      → sbrk sys_brk incr h ≡ (h.curbrk, record h { curbrk = h.curbrk + incr; calls = suc h.calls })
  unfolding sbrk brk
  sbrk-Grants incr h grants ne room =
      rw
        (
          whole,
          grants h.calls (h.curbrk + incr) (above incr ne) room,
          ==_ne incr 0 ne,
          ==_refl (h.curbrk + incr),
          within,
        )
        refl
    where
      above : (n : ℕ) → n ≢ 0 → h.curbrk < h.curbrk + n
      above n ne = ground arith

      whole : (h.curbrk + incr) % 2 ^ 64 ≡ h.curbrk + incr
      whole = omega arith

      within : ltb max_addr (h.curbrk + incr) ≡ false
      within = ground arith

  -- The blocks after extend_heap of 2 * u words
  pub extend_heap-grown :
      {flag : Bool} (u : ℕ) (h : Heap) (bs : List Block)
      → Grants h.curbrk
      → 1 ≤ u
      → IsLaid flag h bs
      → h.curbrk + u * 8 ≤ 2 ^ 30
      → ((extend_heap sys_brk (u * 2) h).0 ≡ h.heap_listp + (8 + total (grown bs (free_block u)).0))
        × IsLaid flag
            (extend_heap sys_brk (u * 2) h).1
            ((grown bs (free_block u)).0 ++ ((grown bs (free_block u)).1 ∷ []))
        × ((extend_heap sys_brk (u * 2) h).1.heap_listp ≡ h.heap_listp)
  unfolding extend_heap
  extend_heap-grown {flag} u h bs grants units i room =
      rw (even, size, sbrk-Grants (u * 8) h grants (λ e. absurd (omega arith)) room, i.at_break)
        (grown_heap flag u
          (record h { curbrk = h.heap_listp + (8 + total bs) + u * 8; calls = suc h.calls }) bs
          units (omega (arith, room, i.at_break)) i.tiled i.aligned refl i.ready)
    where
      even : u * 2 % 2 ≡ 0
      even = omega arith

      size : u * 2 * 4 % 2 ^ 64 ≡ u * 8
      size = omega (arith, room)
