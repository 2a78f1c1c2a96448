-- ===== src/Shell/Prefix.antt =====
-- strncmp of libc/string.c as a test for a prefix, which is how the shell looks for a variable.
use plum_os.Prelude.{
  ℕ, ◌+◌, ◌<◌, ◌≡◌, refl, ◌≢◌, ◌⊎◌, inl, inr, Bool, true, false, ◌&&◌, Option, none, some, List, [],
  ◌∷◌, ◌++◌, ◌==◌, ltb, if◌then◌else◌, length, arith, ap, ==_refl, ==_ne, ==_iff, Bool-cases,
}
use plum_os.Prelude.Int.{ℤ, pos, negsuc, ◌-ℤ◌}
use plum_os.Prelude.Partial.{◌>>=◌}
use plum_os.Strings.{char_value, compare_loop, strncmp}
use plum_os.Strings.Compare.{IsText, strlen-length, difference_zero}
use plum_os.Shell.{is_zero}

abbrev pub has_prefix : List ℕ → List ℕ → Bool
has_prefix [] u = true
has_prefix (c ∷ t) [] = false
has_prefix (c ∷ t) (d ∷ u) = (c == d) && has_prefix t u

-- Where the loop stops, from counter i on: behind the prefix, or in front of it at two different bytes
abbrev Stop : Bool → ℕ → Option (ℕ × ℕ × ℕ) → Type 0
Stop p size none = ⊥
Stop p size (some (j, c, e)) =
    ((p ≡ true) × (j ≡ size)) ⊎ ((p ≡ false) × (j < size) × (c ≢ e) × (c < 256) × (e < 256))

abbrev bound : ℕ → ℕ → ℕ → ℕ → Bool
bound n m size i = ltb i n && ltb i m && ltb i size

compare_loop-Stop :
    (m size i : ℕ) (t u x y : List ℕ)
    → IsText t
    → IsText u
    → i + length t ≡ size
    → i + length u ≡ m
    → Stop (has_prefix t u) size (compare_loop (bound size m size) i (t ++ 0 ∷ x) (u ++ 0 ∷ y))
unfolding compare_loop
compare_loop-Stop m size i [] [] x y h l e f = ground arith
compare_loop-Stop m size i [] (d ∷ u) x y h l e f = ground arith
compare_loop-Stop m size i (c ∷ t) [] x y h l e f = ground arith
compare_loop-Stop m size i (c ∷ t) (d ∷ u) x y h l e f = elim (Bool-cases (c == d)) [
  | inr ne ↦ rw ne (inr (refl, omega arith, (λ q. ground arith), h.1, l.1))
  | inl same ↦
      rw (same, more) (compare_loop-Stop m size (i + 1) t u x y h.2 l.2 (omega arith) (omega arith))
]
  where
    more : bound size m size i ≡ true
    more = ground arith

-- A result that is 0 exactly when p holds
abbrev pub Tells : Bool → Option ℤ → Type 0
Tells p none = ⊥
Tells p (some z) = is_zero z ≡ p

pub zero_only : (z : ℤ) → is_zero z ≡ true → z ≡ pos 0
zero_only (pos n) e = ap pos ((==_iff n 0).0 e)
zero_only (negsuc n) e = cc

finish :
    (p : Bool) (size : ℕ) (o : Option (ℕ × ℕ × ℕ))
    → Stop p size o
    → Tells p (o >>= λ r. some (if r.0 == size then pos 0 else char_value r.1 -ℤ char_value r.2))
finish p size none h = absurd h
finish p size (some (j, c, e)) (inl (q, same)) = rw (same, ==_refl size, q) refl
finish p size (some (j, c, e)) (inr (q, lt, ne, a, b)) =
    rw (==_ne j size (omega arith), q)
      (elim (Bool-cases (is_zero (char_value c -ℤ char_value e))) [
        | inl k ↦ absurd (ne (difference_zero c e a b (zero_only _ k)))
        | inr k ↦ k
      ])

-- With the length of the first text as its bound, strncmp on two terminated texts is 0 exactly when the
-- first is a prefix of the second.
pub strncmp-has_prefix :
    (t u x y : List ℕ)
    → IsText t
    → IsText u
    → Tells (has_prefix t u) (strncmp (some (t ++ 0 ∷ x)) (some (u ++ 0 ∷ y)) (length t))
unfolding strncmp
strncmp-has_prefix t u x y h l =
    rw (strlen-length t x h, strlen-length u y l)
      (finish (has_prefix t u) (length t)
        (compare_loop (bound (length t) (length u) (length t)) 0 (t ++ 0 ∷ x) (u ++ 0 ∷ y))
        (compare_loop-Stop (length u) (length t) 0 t u x y h l (omega arith) (omega arith)))
