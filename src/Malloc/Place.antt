-- ===== src/Malloc/Place.antt =====
-- place and free of libc/malloc.c.
use plum_os.Prelude.{
  ℕ, ◌+◌, ◌-◌, ◌*◌, ◌^◌, ◌≤◌, ◌<◌, ◌≡◌, refl, ap, ◌∙◌, true, false, List, [], ◌∷◌, ◌++◌, ltb,
  ltb→lt, arith, if_both,
}
use plum_os.Kernel.{Ptr}
use plum_os.Malloc.{Words, get_size, pack, put_word, hdrp, ftrp, place, free}
use plum_os.Malloc.Blocks.{
  Block, size_of, tag, total, Blocks, Blocks-split, IsWritten, get_size-tag, pack_flag,
  put_word_here, total-append,
}
use plum_os.Malloc.Coalesce.{written_down}
use plum_os.Malloc.Join.{Tiled, Tiled-IsWritten, join, coalesce-join, behind_p}

abbrev pub taken : Block → Block
taken b = record b { used = true }

abbrev pub freed : Block → Block
freed b = record b { used = false }

-- Words that are those of w but inside of the block b at q
record IsSplit (w v : Words) (q : Ptr) (b : Block) : Type 0 where
  before : (a : Ptr) → a + 4 < q → v a ≡ w a
  behind : (a : Ptr) → q + size_of b < a + 8 → v a ≡ w a

IsWritten_after :
    (w v u : Words) (q : Ptr) (b c : Block)
    → size_of b ≡ size_of c
    → IsSplit w v q b
    → IsWritten v u q c
    → IsWritten w u q c
IsWritten_after w v u q b c e h k = record {
  head = k.head;
  foot = k.foot;
  before = λ a lt. k.before a lt ∙ h.before a lt;
  behind = λ a lt. k.behind a lt ∙ h.behind a (omega arith);
}

-- place, once the sizes that it reads are known
place_of :
    (w : Words) (q : Ptr) (b : Block) (r : ℕ)
    → 4 ≤ q
    → 1 ≤ r
    → 1 ≤ b.units
    → size_of b < 2 ^ 31
    → w (q - 4) ≡ tag b
    → IsWritten w (place q (r * 8) w) q (taken b)
unfolding place
place_of w q b r low some_units units bound head = rw (size) (
    if_both
      (λ split.
        IsWritten w
          (put_word (put_word split (q - 4) (pack (size_of b) 1))
            (ftrp (put_word split (q - 4) (pack (size_of b) 1)) q) (pack (size_of b) 1))
          q (taken b))
      (ltb (r * 8) (size_of b))
      (λ less.
        rw (rest_tag (ltb→lt _ _ less), rest_size (ltb→lt _ _ less))
          (over _ (inside (ltb→lt _ _ less))))
      (λ less. over w (record { before = λ a lt. refl; behind = λ a lt. refl })))
  where
    size : get_size w (hdrp q) ≡ size_of b
    size = get_size-tag w (q - 4) b head (omega arith)

    rest : Block
    rest = record { units = b.units - r; used = false }

    rest_tag : r * 8 < size_of b → pack (size_of b - r * 8) 0 ≡ tag rest
    rest_tag less = ap (λ z. pack z 0) (omega arith) ∙ pack_flag (b.units - r) 0 (omega arith)

    rest_size :
        r * 8 < size_of b
        → get_size (put_word w (hdrp (q + r * 8)) (tag rest)) (hdrp (q + r * 8)) ≡ size_of rest
    rest_size less =
        get_size-tag _ (hdrp (q + r * 8)) rest
          (put_word_here w (hdrp (q + r * 8)) (tag rest) (omega arith)) (omega arith)

    inside :
        r * 8 < size_of b
        → IsSplit w
            (put_word
              (put_word w (q + r * 8 - 4) (tag rest))
              (q + r * 8 + size_of rest - 8)
              (tag rest))
            q
            b
    inside less =
        let d = written_down w (q + r * 8) rest (omega arith) (omega arith) (omega arith) in
        record {
          before = λ a lt. d.before a (omega arith);
          behind = λ a lt. d.behind a (omega arith);
        }

    used_tag : pack (size_of b) 1 ≡ tag (taken b)
    used_tag = pack_flag b.units 1 (omega arith)

    used_size : (v : Words) → get_size (put_word v (hdrp q) (tag (taken b))) (hdrp q) ≡ size_of b
    used_size v =
        get_size-tag _ (hdrp q) (taken b) (put_word_here v (hdrp q) (tag (taken b)) (omega arith))
          (omega arith)

    over :
        (v : Words)
        → IsSplit w v q b
        → IsWritten w
            (put_word
              (put_word v (q - 4) (pack (size_of b) 1))
              (ftrp (put_word v (q - 4) (pack (size_of b) 1)) q)
              (pack (size_of b) 1))
            q
            (taken b)
    over v h =
        rw (used_tag, used_size v)
          (IsWritten_after w v _ q b (taken b) refl h
            (written_down v q (taken b) low units (omega arith)))

-- On a well-formed heap, place of a multiple of 8 bytes other than 0 in a block takes the whole block,
-- whatever the size it is asked for; the heap stays well-formed, and the other blocks are what they were.
pub place-Tiled :
    (w : Words) (s : Ptr) (xs ys : List Block) (b : Block) (r : ℕ)
    → 1 ≤ r
    → Tiled w s (xs ++ (b ∷ ys))
    → Tiled (place (s + total xs) (r * 8) w) s (xs ++ (taken b ∷ ys))
place-Tiled w s xs ys b r some_units t =
    let h = (Blocks-split w s xs (b ∷ ys) t.blocks).1 in
    Tiled-IsWritten w _ s xs (b ∷ []) ys (taken b) h.2 (omega arith) t (
      place_of w (s + total xs) b r (omega (arith, t.low)) some_units h.2
        (omega (arith, t.high, total-append xs (b ∷ ys))) h.0)

-- free joins the block with its free neighbours.
pub free-join :
    (w : Words) (s : Ptr) (xs ys : List Block) (p b : Block)
    → Tiled w s (xs ++ (p ∷ (b ∷ ys)))
    → Tiled (free (s + total xs + size_of p) w) s (xs ++ join p (freed b) ys)
unfolding free
free-join w s xs ys p b t =
    rw (free, size, free_tag, again) (coalesce-join _ s xs ys p (freed b) written refl).1
  where
    h : Blocks w (s + total xs) (p ∷ (b ∷ ys))
    h = (Blocks-split w s xs (p ∷ (b ∷ ys)) t.blocks).1

    q : Ptr
    q = s + total xs + size_of p

    bound : size_of b < 2 ^ 31
    bound = omega (arith, t.high, total-append xs (p ∷ (b ∷ ys)))

    size : get_size w (hdrp q) ≡ size_of b
    size = get_size-tag w (q - 4) b h.3.0 (omega (arith, bound))

    free_tag : pack (size_of b) 0 ≡ tag (freed b)
    free_tag = pack_flag b.units 0 (omega arith)

    again : get_size (put_word w (hdrp q) (tag (freed b))) (hdrp q) ≡ size_of b
    again =
        get_size-tag _ (hdrp q) (freed b)
          (put_word_here w (hdrp q) (tag (freed b)) (omega (arith, bound))) (omega (arith, bound))

    written :
        Tiled
          (put_word (put_word w (hdrp q) (tag (freed b))) (q + size_of b - 8) (tag (freed b)))
          s
          (xs ++ (p ∷ (freed b ∷ ys)))
    written =
        behind_p w _ s xs (b ∷ []) ys p (freed b) h.3.2 (omega arith) t
          (written_down w q (freed b) (omega (arith, t.low)) h.3.2 (omega (arith, bound)))
