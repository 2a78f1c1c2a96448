-- ===== src/Strings/Copy.antt =====
-- strncpy of sys/string.c and strcpy of libc/string.c on terminated strings.
use plum_os.Prelude.{
  ℕ, zero, suc, ◌+◌, ◌<◌, ◌≤◌, ◌≡◌, refl, Bool, true, false, ◌&&◌, Option, some, List, [], ◌∷◌,
  ◌++◌, ltb, length, take, drop, arith, ap, ==_ne, lt→ltb, length-append, min, subst,
}
use plum_os.Strings.{copy_loop, set_at, strncpy, strcpy}
use plum_os.Strings.Compare.{IsText, strlen-length}

module _ (more : ℕ → Bool) (m : ℕ) (goes : (j : ℕ) → j < m → more j ≡ true)
    (ends : more m ≡ false) where
  stops : (i : ℕ) → i + 0 ≡ m → more i ≡ false
  stops i e = subst (λ j. more j ≡ false) at ends
    where
      at : m ≡ i
      at = omega arith

  ended : (i : ℕ) (d : List ℕ) → i + 0 ≡ m → Path (Option (ℕ × List ℕ)) (some (i, d)) (some (m, d))
  ended i d e = ap (λ (j : ℕ). some (j, d)) at
    where
      at : i ≡ m
      at = omega arith

  -- The loop copies the k bytes that its condition lets pass.
  copy_loop-take :
      (k i : ℕ) (t x dest : List ℕ)
      → IsText t
      → k ≤ length t
      → k < length dest
      → i + k ≡ m
      → copy_loop more i dest (t ++ 0 ∷ x) ≡ some (m, take k t ++ drop k dest)
  unfolding copy_loop
  copy_loop-take zero i t x [] h a b e = absurd (omega arith)
  copy_loop-take zero i [] x (y ∷ dest) h a b e = rw (stops i e) (ended i (y ∷ dest) e)
  copy_loop-take zero i (c ∷ t) x (y ∷ dest) h a b e = rw (stops i e) (ended i (y ∷ dest) e)
  copy_loop-take (suc k) i [] x dest h a b e = absurd (omega arith)
  copy_loop-take (suc k) i (c ∷ t) x [] h a b e = absurd (omega arith)
  copy_loop-take (suc k) i (c ∷ t) x (y ∷ dest) h a b e = rw (goes i (omega arith)) (
      rw (==_ne c 0 h.0)
        (rw (copy_loop-take k (i + 1) t x dest h.2 (omega arith) (omega arith) (omega arith)) refl))

set_at-take :
    (n c : ℕ) (s : List ℕ) → n < length s → set_at s n c ≡ some (take n s ++ c ∷ drop (suc n) s)
unfolding set_at
set_at-take n c [] h = absurd (omega arith)
set_at-take zero c (x ∷ s) h = refl
set_at-take (suc n) c (x ∷ s) h = rw (set_at-take n c s (omega arith)) refl

-- Behind the first k bytes of t, the rest of dest is what it was.
pub overlay :
    (k : ℕ) (t dest : List ℕ)
    → k ≤ length t
    → k < length dest
    → set_at (take k t ++ drop k dest) k 0 ≡ some (take k t ++ 0 ∷ drop (suc k) dest)
unfolding set_at
overlay zero t [] a b = absurd (omega arith)
overlay zero t (y ∷ dest) a b = refl
overlay (suc k) [] dest a b = absurd (omega arith)
overlay (suc k) (c ∷ t) [] a b = absurd (omega arith)
overlay (suc k) (c ∷ t) (y ∷ dest) a b = rw (overlay k t dest (omega arith) (omega arith)) refl

-- strncpy writes the first `size` bytes of a NUL-terminated text, or all of a shorter one, and a NUL
-- behind them, if dest has room for that; the other bytes of dest stay.
pub strncpy-take :
    (size : ℕ) (t x dest : List ℕ)
    → IsText t
    → min size (length t) < length dest
    → strncpy dest (t ++ 0 ∷ x) size
      ≡ some (take (min size (length t)) t ++ 0 ∷ drop (suc (min size (length t))) dest)
unfolding strncpy
strncpy-take size t x dest h b = rw (strlen-length t x h) (
    rw
      (copy_loop-take (λ i. ltb i size && ltb i (length t)) (min size (length t))
        (λ j l. ground arith) (ground arith) (min size (length t)) 0 t x dest h (omega arith) b
        (omega arith))
      (overlay (min size (length t)) t dest (omega arith) b))

last_lost :
    (t : List ℕ) (c : ℕ) (dest : List ℕ)
    → suc (length t) < length dest
    → set_at (take (suc (length t)) (t ++ c ∷ []) ++ drop (suc (length t)) dest) (length t) 0
      ≡ some (t ++ 0 ∷ drop (suc (length t)) dest)
unfolding set_at
last_lost t c [] b = absurd (omega arith)
last_lost [] c (y ∷ dest) b = refl
last_lost (e ∷ t) c (y ∷ dest) b = rw (last_lost t c dest (omega arith)) refl

-- strcpy loses the last byte of a NUL-terminated text that is not empty: with room in dest, its NUL
-- goes over that byte.
pub strcpy_loses_last :
    (t x dest : List ℕ) (c : ℕ)
    → IsText (t ++ c ∷ [])
    → suc (length t) < length dest
    → strcpy dest ((t ++ c ∷ []) ++ 0 ∷ x) ≡ some (t ++ 0 ∷ drop (suc (length t)) dest)
unfolding strcpy
strcpy_loses_last t x dest c h b = rw (strlen-length (t ++ c ∷ []) x h) (
    rw
      (copy_loop-take (λ i. ltb i (length (t ++ c ∷ []))) (suc (length t))
        (λ j l. lt→ltb j (length (t ++ c ∷ [])) (omega (arith, length-append t (c ∷ []))))
        (ground (arith, length-append t (c ∷ []))) (suc (length t)) 0 (t ++ c ∷ []) x dest h
        (omega (arith, length-append t (c ∷ []))) b (omega arith))
      (last_lost t c dest b))
