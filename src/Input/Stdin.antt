-- ===== src/Input/Stdin.antt =====
-- read_stdin of sys/syscall.c on every length.
use plum_os.Prelude.{
  ℕ, ◌+◌, ◌-◌, ◌/◌, ◌%◌, ◌^◌, ◌≤◌, Bool, some, ap, ◌<◌, ◌≡◌, refl, ◌≢◌, true, false, if◌then◌else◌,
  if_both, leb, leb→le, min, arith, ◌∙◌, sym,
}
use plum_os.Prelude.Ints.{widened_int, int_at_least}
use plum_os.Prelude.Partial.{◌>>=◌}
use plum_os.Input.{
  int_minus, Io, copy_bytes, copy_from_kernel, hand_over_all, hand_over_some, read_stdin,
  uint64_minus_one,
}
use plum_os.Input.Arrived.{BroughtIn, Reaches, copy_from_kernel-BroughtIn}
use plum_os.Input.Copied.{copy_bytes-outside, copy_bytes-copied}

-- The process has the first min size n of the n typed bytes at buf, and the others stand at the front of
-- the buffer, in order.
pub record HandedOver (buf size : ℕ) (s : Io) (r : ℕ × Io) : Type 0 where
  pub bytes : (j : ℕ) → j < min size s.stdin_buf_size → r.1.mem (buf + j) ≡ s.mem (s.stdin_buf + j)
  pub rest :
      (j : ℕ)
      → j < s.stdin_buf_size - size
      → r.1.mem (s.stdin_buf + j) ≡ s.mem (s.stdin_buf + size + j)
  pub left : r.1.stdin_buf_size ≡ s.stdin_buf_size - size
  pub result : r.0 ≡ (if leb s.stdin_buf_size size then 0 else size)

module _ (buf size : ℕ) (s : Io) (allowed : s.has_vma buf ≡ true) (room : s.memory_full ≡ false)
    (small : size < 2 ^ 31) (within : s.stdin_buf_size ≤ 4096) (some_bytes : 0 < size)
    (low : s.stdin_buf + 4096 < 2 ^ 64) (reach : Reaches buf size s)
    (apart : (i j : ℕ)
      → i < size
      → j < s.stdin_buf_size
      → (buf + i) / 4096 ≢ (s.stdin_buf + j) / 4096) where
  -- The page of buf is another one than the buffer's.
  source :
      (mem : ℕ → ℕ) (present : ℕ → Bool)
      → BroughtIn buf s mem present
      → (j : ℕ) → j < s.stdin_buf_size
      → mem (s.stdin_buf + j) ≡ s.mem (s.stdin_buf + j)
  source mem present b j l =
      b.others (s.stdin_buf + j) λ e. apart 0 j some_bytes l (omega (arith, e))

  never_same : (i j : ℕ) → i < size → j < s.stdin_buf_size → buf + i ≢ s.stdin_buf + j
  never_same i j l u e = apart i j l u (ap (λ (a : ℕ). a / 4096) e)

  all_handed :
      leb s.stdin_buf_size size ≡ true
      → (r : ℕ × Io) × ((do
        o ← copy_from_kernel buf s.stdin_buf s.stdin_buf_size s
        some (hand_over_all o (uint64_minus_one, s)))
          ≡ some r)
        × HandedOver buf size s r
  unfolding hand_over_all
  all_handed e =
      let fits = leb→le s.stdin_buf_size size e in
      let c =
        copy_from_kernel-BroughtIn buf s.stdin_buf s.stdin_buf_size s allowed room
          (omega (arith, within)) (λ j l ne. reach j (omega (arith, fits)) ne) in
      let t : Io = record s {
        mem = copy_bytes s.stdin_buf_size 0 buf s.stdin_buf c.0;
        present = c.1.0;
      } in
      (
        hand_over_all (some t) (uint64_minus_one, s),
        rw c.1.1 refl,
        record {
          bytes = λ j l.
              copy_bytes-copied s.stdin_buf_size 0 buf s.stdin_buf j c.0
                (λ a b l' u. never_same a b (omega (arith, fits)) (omega arith)) (omega arith)
                (omega arith)
              ∙ source c.0 c.1.0 c.1.2 j (omega arith);
          rest = λ j l. absurd (omega (arith, fits));
          left = omega (arith, fits);
          result = rw e refl;
        },
      )

  some_handed :
      leb s.stdin_buf_size size ≡ false
      → (r : ℕ × Io) × ((do
        o ← copy_from_kernel buf s.stdin_buf size s
        some (hand_over_some size o (uint64_minus_one, s)))
          ≡ some r)
        × HandedOver buf size s r
  unfolding hand_over_some
  some_handed e =
      let less : size < s.stdin_buf_size = ground (arith, e) in
      let c = copy_from_kernel-BroughtIn buf s.stdin_buf size s allowed room small reach in
      let wide : widened_int size ≡ size = ground arith in
      let minus : int_minus s.stdin_buf_size size ≡ s.stdin_buf_size - size =
        omega (arith, less, within) in
      let start : (s.stdin_buf + size) % 2 ^ 64 ≡ s.stdin_buf + size =
        omega (arith, low, less, within) in
      let t : Io = record s { mem = copy_bytes size 0 buf s.stdin_buf c.0; present = c.1.0 } in
      (
        hand_over_some size (some t) (uint64_minus_one, s),
        rw c.1.1 refl,
        rw (wide, minus, start)
            (record {
              bytes = λ j l.
                  copy_bytes-outside (s.stdin_buf_size - size) 0 s.stdin_buf (s.stdin_buf + size)
                    (buf + j) (copy_bytes size 0 buf s.stdin_buf c.0)
                    (λ k l' u h. never_same j k (omega arith) (omega arith) (sym h))
                  ∙ copy_bytes-copied size 0 buf s.stdin_buf j c.0
                      (λ a b l' u. never_same a b (omega arith) (omega (arith, less))) (omega arith)
                      (omega arith)
                  ∙ source c.0 c.1.0 c.1.2 j (omega (arith, less));
              rest = λ j l.
                  copy_bytes-copied (s.stdin_buf_size - size) 0 s.stdin_buf (s.stdin_buf + size) j
                    (copy_bytes size 0 buf s.stdin_buf c.0) (λ a b l' u. omega arith) (omega arith)
                    (omega arith)
                  ∙ copy_bytes-outside size 0 buf s.stdin_buf (s.stdin_buf + size + j) c.0
                      (λ k l' u h.
                        never_same k (size + j) (omega arith) (omega arith) (h ∙ omega arith))
                  ∙ ap c.0 (omega arith)
                  ∙ source c.0 c.1.0 c.1.2 (size + j) (omega arith)
                  ∙ ap s.mem (omega arith);
              left = refl;
              result = rw e refl;
            }),
      )

  int_order : int_at_least size s.stdin_buf_size ≡ leb s.stdin_buf_size size
  int_order = ground (arith, small, within)

  -- For a size above 0 and below 2 ^ 31 and at most 4096 typed bytes, in a buffer whose page does not end the address
  -- space: where an area of the process holds the address
  -- buf, the pages of the room there behind the first one are mapped, a page is left for the first one,
  -- and no page holds bytes of the room and typed bytes: read_stdin returns. It moves the first `size` typed bytes
  -- to buf, or all of them, and keeps the others in order. Its result is the size if more was typed, but 0 if
  -- all typed bytes are handed over.
  pub read_stdin-HandedOver :
      (r : ℕ × Io) × (read_stdin buf size s ≡ some r) × HandedOver buf size s r
  unfolding read_stdin
  read_stdin-HandedOver = rw int_order (
      if_both (λ o. (r : ℕ × Io) × (o ≡ some r) × HandedOver buf size s r)
        (leb s.stdin_buf_size size) all_handed some_handed)
