-- ===== src/Malloc/Coalesce.antt =====
-- coalesce of libc/malloc.c, in each of its four cases.
use plum_os.Prelude.{◌+◌, ◌-◌, ◌^◌, ◌≤◌, ◌<◌, ◌≡◌, refl, ap, ◌∙◌, true, false, arith}
use plum_os.Kernel.{Ptr}
use plum_os.Malloc.{
  Words, pack, put_word, get_size, get_alloc, coalesce, hdrp, ftrp, next_blkp, prev_blkp,
}
use plum_os.Malloc.Blocks.{
  Block, size_of, flag_of, tag, IsWritten, get_size-tag, get_alloc-tag, pack_flag, put_word_here,
  put_word_apart,
}

abbrev pub merge : Block → Block → Block
merge a b = record { units = a.units + b.units; used = false }

-- Header, then footer.
pub written_down :
    (w : Words) (q : Ptr) (b : Block)
    → 4 ≤ q
    → 1 ≤ b.units
    → tag b < 2 ^ 32
    → IsWritten w (put_word (put_word w (q - 4) (tag b)) (q + size_of b - 8) (tag b)) q b
written_down w q b low units lt = record {
  head =
      put_word_apart (put_word w (q - 4) (tag b)) (q + size_of b - 8) (tag b) (q - 4)
        (λ e. absurd (omega arith))
      ∙ put_word_here w (q - 4) (tag b) lt;
  foot = put_word_here (put_word w (q - 4) (tag b)) (q + size_of b - 8) (tag b) lt;
  before = λ a h.
      put_word_apart (put_word w (q - 4) (tag b)) (q + size_of b - 8) (tag b) a
        (λ e. absurd (omega arith))
      ∙ put_word_apart w (q - 4) (tag b) a (λ e. absurd (omega arith));
  behind = λ a h.
      put_word_apart (put_word w (q - 4) (tag b)) (q + size_of b - 8) (tag b) a
        (λ e. absurd (omega arith))
      ∙ put_word_apart w (q - 4) (tag b) a (λ e. absurd (omega arith));
}

-- Footer, then header.
pub written_up :
    (w : Words) (q : Ptr) (b : Block)
    → 4 ≤ q
    → 1 ≤ b.units
    → tag b < 2 ^ 32
    → IsWritten w (put_word (put_word w (q + size_of b - 8) (tag b)) (q - 4) (tag b)) q b
written_up w q b low units lt = record {
  head = put_word_here (put_word w (q + size_of b - 8) (tag b)) (q - 4) (tag b) lt;
  foot =
      put_word_apart (put_word w (q + size_of b - 8) (tag b)) (q - 4) (tag b) (q + size_of b - 8)
        (λ e. absurd (omega arith))
      ∙ put_word_here w (q + size_of b - 8) (tag b) lt;
  before = λ a h.
      put_word_apart (put_word w (q + size_of b - 8) (tag b)) (q - 4) (tag b) a
        (λ e. absurd (omega arith))
      ∙ put_word_apart w (q + size_of b - 8) (tag b) a (λ e. absurd (omega arith));
  behind = λ a h.
      put_word_apart (put_word w (q + size_of b - 8) (tag b)) (q - 4) (tag b) a
        (λ e. absurd (omega arith))
      ∙ put_word_apart w (q + size_of b - 8) (tag b) a (λ e. absurd (omega arith));
}

-- Three blocks beside each other: p at pr, the free b behind it, and n, which may be the epilogue.
pub record IsAround (w : Words) (pr : Ptr) (p b n : Block) : Type 0 where
  pub low : 8 ≤ pr
  pub p_units : 1 ≤ p.units
  pub b_units : 1 ≤ b.units
  pub high : size_of p + size_of b + size_of n < 2 ^ 31
  pub p_head : w (pr - 4) ≡ tag p
  pub p_foot : w (pr + size_of p - 8) ≡ tag p
  pub b_head : w (pr + size_of p - 4) ≡ tag b
  pub n_head : w (pr + size_of p + size_of b - 4) ≡ tag n

module _ (w : Words) (pr : Ptr) (p b n : Block) (g : IsAround w pr p b n) where
  pub b_size : get_size w (hdrp (pr + size_of p)) ≡ size_of b
  b_size = get_size-tag w (pr + size_of p - 4) b g.b_head (omega (arith, g.high))

  pub to_prev : (v : Words) → v (pr + size_of p - 8) ≡ tag p → prev_blkp v (pr + size_of p) ≡ pr
  to_prev v e =
      ap (λ z. pr + size_of p - z) (get_size-tag v (pr + size_of p - 8) p e (omega (arith, g.high)))
      ∙ omega arith

  pub to_next : next_blkp w (pr + size_of p) ≡ pr + size_of p + size_of b
  to_next = omega (arith, b_size, g.b_units)

  pub p_size : get_size w (hdrp pr) ≡ size_of p
  p_size = get_size-tag w (pr - 4) p g.p_head (omega (arith, g.high))

  pub p_alloc : get_alloc w (ftrp w pr) ≡ flag_of p
  p_alloc =
      ap (λ z. get_alloc w (pr + z - 8)) p_size ∙ get_alloc-tag w (pr + size_of p - 8) p g.p_foot

  pub n_size : get_size w (hdrp (pr + size_of p + size_of b)) ≡ size_of n
  n_size = get_size-tag w (pr + size_of p + size_of b - 4) n g.n_head (omega (arith, g.high))

  pub n_alloc : get_alloc w (hdrp (pr + size_of p + size_of b)) ≡ flag_of n
  n_alloc = get_alloc-tag w (pr + size_of p + size_of b - 4) n g.n_head

  pub coalesce-apart :
      p.used ≡ true → n.used ≡ true → coalesce (pr + size_of p) w ≡ (pr + size_of p, w)
  unfolding coalesce
  coalesce-apart pu nu = rw (to_prev w g.p_foot, to_next, p_alloc, n_alloc, pu, nu) refl

  next_tag : pack (size_of b + size_of n) 0 ≡ tag (merge b n)
  next_tag = ap (λ z. pack z 0) (omega arith) ∙ pack_flag (b.units + n.units) 0 (omega arith)

  pub coalesce-next :
      p.used ≡ true
      → n.used ≡ false
      → ((coalesce (pr + size_of p) w).0 ≡ pr + size_of p)
        × IsWritten w (coalesce (pr + size_of p) w).1 (pr + size_of p) (merge b n)
  unfolding coalesce
  coalesce-next pu nu =
      rw (to_prev w g.p_foot, to_next, p_alloc, n_alloc, pu, nu, b_size, n_size, next_tag, again)
        (
          refl,
          written_down w (pr + size_of p) (merge b n) (omega (arith, g.low))
              (omega (arith, g.b_units)) (omega (arith, g.high)),
        )
    where
      again :
          get_size (put_word w (hdrp (pr + size_of p)) (tag (merge b n))) (hdrp (pr + size_of p))
          ≡ size_of (merge b n)
      again =
          get_size-tag _ (hdrp (pr + size_of p)) (merge b n)
            (put_word_here w (hdrp (pr + size_of p)) (tag (merge b n)) (omega (arith, g.high)))
            (omega (arith, g.high))

  prev_tag : pack (size_of b + size_of p) 0 ≡ tag (merge p b)
  prev_tag = ap (λ z. pack z 0) (omega arith) ∙ pack_flag (p.units + b.units) 0 (omega arith)

  pub coalesce-prev :
      p.used ≡ false
      → n.used ≡ true
      → ((coalesce (pr + size_of p) w).0 ≡ pr)
        × IsWritten w (coalesce (pr + size_of p) w).1 pr (merge p b)
  unfolding coalesce
  coalesce-prev pu nu =
      rw
        (
          to_prev w g.p_foot,
          to_next,
          p_alloc,
          n_alloc,
          pu,
          nu,
          b_size,
          p_size,
          prev_tag,
          footer,
          to_prev w3 kept3,
          to_prev w33 kept33,
        )
        (
          refl,
          written_up w pr (merge p b) (omega (arith, g.low)) (omega (arith, g.b_units))
              (omega (arith, g.high)),
        )
    where
      footer : pr + size_of p + size_of b - 8 ≡ pr + size_of (merge p b) - 8
      footer = omega arith

      w3 : Words
      w3 = put_word w (pr + size_of (merge p b) - 8) (tag (merge p b))

      w33 : Words
      w33 = put_word w3 (hdrp pr) (tag (merge p b))

      kept3 : w3 (pr + size_of p - 8) ≡ tag p
      kept3 =
          put_word_apart w (pr + size_of (merge p b) - 8) (tag (merge p b)) _
            (λ e. absurd (omega (arith, g.b_units, g.p_units)))
          ∙ g.p_foot

      kept33 : w33 (pr + size_of p - 8) ≡ tag p
      kept33 =
          put_word_apart w3 (hdrp pr) (tag (merge p b)) _
            (λ e. absurd (omega (arith, g.p_units, g.low)))
          ∙ kept3

  both_tag : pack (size_of b + (size_of p + size_of n)) 0 ≡ tag (merge (merge p b) n)
  both_tag =
      ap (λ z. pack z 0) (omega arith) ∙ pack_flag (p.units + b.units + n.units) 0 (omega arith)

  pub coalesce-both :
      p.used ≡ false
      → n.used ≡ false
      → ((coalesce (pr + size_of p) w).0 ≡ pr)
        × IsWritten w (coalesce (pr + size_of p) w).1 pr (merge (merge p b) n)
  unfolding coalesce
  coalesce-both pu nu =
      rw
        (
          to_prev w g.p_foot,
          to_next,
          p_alloc,
          n_alloc,
          pu,
          nu,
          b_size,
          p_size,
          n_size,
          both_tag,
          next4,
          n_size4,
          footer,
          to_prev w44 kept44,
        )
        (
          refl,
          written_down w pr (merge (merge p b) n) (omega (arith, g.low)) (omega (arith, g.b_units))
              (omega (arith, g.high)),
        )
    where
      m : Block
      m = merge (merge p b) n

      w4 : Words
      w4 = put_word w (hdrp pr) (tag m)

      kept4 : (a : Ptr) → pr ≤ a → w4 a ≡ w a
      kept4 a lt = put_word_apart w (hdrp pr) (tag m) a (λ e. absurd (omega (arith, g.low)))

      next4 : next_blkp w4 (pr + size_of p) ≡ pr + size_of p + size_of b
      next4 = omega (
        arith,
        g.b_units,
        get_size-tag w4 (pr + size_of p - 4) b
            (kept4 (pr + size_of p - 4) (omega (arith, g.p_units)) ∙ g.b_head)
            (omega (arith, g.high)),
      )

      n_size4 : get_size w4 (hdrp (pr + size_of p + size_of b)) ≡ size_of n
      n_size4 =
          get_size-tag w4 (pr + size_of p + size_of b - 4) n
            (kept4 (pr + size_of p + size_of b - 4) (omega (arith, g.p_units)) ∙ g.n_head)
            (omega (arith, g.high))

      footer : pr + size_of p + size_of b + size_of n - 8 ≡ pr + size_of m - 8
      footer = omega arith

      w44 : Words
      w44 = put_word w4 (pr + size_of m - 8) (tag m)

      kept44 : w44 (pr + size_of p - 8) ≡ tag p
      kept44 =
          put_word_apart w4 (pr + size_of m - 8) (tag m) _
            (λ e. absurd (omega (arith, g.b_units, g.p_units)))
          ∙ kept4 (pr + size_of p - 8) (omega (arith, g.p_units))
          ∙ g.p_foot
