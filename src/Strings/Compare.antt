-- ===== src/Strings/Compare.antt =====
-- strlen and strcmp of sys/string.c on terminated strings.
use plum_os.Prelude.{
  ℕ, ◌+◌, ◌-◌, ◌<◌, ◌≡◌, refl, ◌≢◌, ◌⊎◌, inl, inr, true, false, Option, none, some, List, [], ◌∷◌,
  ◌++◌, ◌==◌, ltb, if◌then◌else◌, length, arith, Bool-cases, ap, ◌∙◌, ==_refl, ==_ne, ==_iff, ◌↔◌,
  subst, lt→ltb, leb, leb→le, if_both,
}
use plum_os.Prelude.Int.{ℤ, pos, negsuc, sub_ℕ, pos_part, neg_part, ◌-ℤ◌, minus_one}
use plum_os.Prelude.Partial.{◌>>=◌}
use plum_os.Strings.{char_value, strlen, compare_loop, strcmp}

-- Bytes, and none of them NUL.
abbrev pub IsText : List ℕ → Type 0
IsText [] = Unit {0}
IsText (c ∷ t) = (c ≢ 0) × (c < 256) × IsText t

-- strlen gives the number of bytes before the first NUL, whatever stands behind it.
pub strlen-length : (t x : List ℕ) → IsText t → strlen (t ++ 0 ∷ x) ≡ some (length t)
unfolding strlen
strlen-length [] x h = refl
strlen-length (c ∷ t) x h = rw (==_ne c 0 h.0) (rw (strlen-length t x h.2) refl)

-- What the loop of strcmp gives on two texts of one length, from counter i on: equal texts run to the
-- end, others stop before it, at two different bytes.
abbrev Stops : ℕ → List ℕ → List ℕ → Option (ℕ × ℕ × ℕ) → Type 0
Stops n t u none = ⊥
Stops n t u (some (j, c, e)) =
    ((j ≡ n) × (t ≡ u)) ⊎ ((j < n) × (c ≢ e) × (c < 256) × (e < 256) × (t ≢ u))

abbrev tail_of : List ℕ → List ℕ
tail_of [] = []
tail_of (c ∷ t) = t

abbrev head_of : List ℕ → ℕ
head_of [] = 0
head_of (c ∷ t) = c

one_more :
    (n c : ℕ) (t u : List ℕ) (o : Option (ℕ × ℕ × ℕ)) → Stops n t u o → Stops n (c ∷ t) (c ∷ u) o
one_more n c t u none h = h
one_more n c t u (some r) (inl h) = inl (h.0, ap (λ (v : List ℕ). c ∷ v) h.1)
one_more n c t u (some r) (inr (l, d, a, b, ne)) = inr (l, d, a, b, λ e. ne (ap tail_of e))

compare_loop-Stops :
    (n i : ℕ) (t u x y : List ℕ)
    → IsText t
    → IsText u
    → i + length t ≡ n
    → i + length u ≡ n
    → Stops n t u (compare_loop (λ j. ltb j n) i (t ++ 0 ∷ x) (u ++ 0 ∷ y))
unfolding compare_loop
compare_loop-Stops n i [] [] x y h l e f = rw at_end (inl (omega arith, refl))
  where
    at_end : ltb i n ≡ false
    at_end = ground arith
compare_loop-Stops n i [] (d ∷ u) x y h l e f = absurd (omega arith)
compare_loop-Stops n i (c ∷ t) [] x y h l e f = absurd (omega arith)
compare_loop-Stops n i (c ∷ t) (d ∷ u) x y h l e f = elim (Bool-cases (c == d)) [
  | inr ne ↦ rw ne (
      inr (
        omega arith,
        (λ q. ground arith),
        h.1,
        l.1,
        λ q. (λ (k : c ≢ d). k (ap head_of q)) (λ q'. ground arith),
      ))
  | inl same ↦
      rw (same, lt→ltb i n (omega arith))
        (subst
          (λ (b : ℕ).
            Stops n (c ∷ t) (b ∷ u) (compare_loop (λ j. ltb j n) (i + 1) (t ++ 0 ∷ x) (u ++ 0 ∷ y)))
          ((==_iff c d).0 same)
          (one_more n c t u (compare_loop (λ j. ltb j n) (i + 1) (t ++ 0 ∷ x) (u ++ 0 ∷ y))
            (compare_loop-Stops n (i + 1) t u x y h.2 l.2 (omega arith) (omega arith))))
]

sub_zero : (a b : ℕ) → sub_ℕ a b ≡ pos 0 → a ≡ b
sub_zero a b q = elim (Bool-cases (leb b a)) [
  | inl e ↦ omega (arith, leb→le b a e, ap pos_part (sub_ℕ_le e ∙ q))
  | inr e ↦ absurd (omega (arith, ap neg_part (sub_ℕ_lt e ∙ q)))
]
  where
    sub_ℕ_le : leb b a ≡ true → pos (a - b) ≡ sub_ℕ a b
    sub_ℕ_le e = rw e refl

    sub_ℕ_lt : leb b a ≡ false → negsuc (b - a - 1) ≡ sub_ℕ a b
    sub_ℕ_lt e = rw e refl

pub difference_zero : (c e : ℕ) → c < 256 → e < 256 → char_value c -ℤ char_value e ≡ pos 0 → c ≡ e
difference_zero c e h l q = parts (
    sub_zero (pos_part (char_value c) + neg_part (char_value e))
      (neg_part (char_value c) + pos_part (char_value e)) q)
  where
    parts :
        pos_part (char_value c) + neg_part (char_value e)
          ≡ neg_part (char_value c) + pos_part (char_value e)
        → c ≡ e
    parts k = ground arith

-- The result is there, and it is 0 exactly where t and u are equal.
abbrev pub Decides : List ℕ → List ℕ → Option ℤ → Type 0
Decides t u none = ⊥
Decides t u (some z) = (z ≡ pos 0) ↔ (t ≡ u)

finish :
    (n : ℕ) (t u : List ℕ) (o : Option (ℕ × ℕ × ℕ))
    → Stops n t u o
    → Decides t u (o >>= λ r. some (if r.0 == n then pos 0 else char_value r.1 -ℤ char_value r.2))
finish n t u none h = absurd h
finish n t u (some r) (inl (e, q)) = rw (e, ==_refl n) (λ _. q, λ _. refl)
finish n t u (some r) (inr (l, d, a, b, ne)) =
    rw (==_ne r.0 n (omega arith))
      (λ q. absurd (d (difference_zero r.1 r.2 a b q)), λ q. absurd (ne q))

-- On two NUL-terminated texts strcmp returns, and its result is 0 exactly where they are equal.
pub strcmp-Decides :
    (t u x y : List ℕ)
    → IsText t
    → IsText u
    → Decides t u (strcmp (some (t ++ 0 ∷ x)) (some (u ++ 0 ∷ y)))
unfolding strcmp
strcmp-Decides t u x y h l = rw (strlen-length t x h) (
    rw (strlen-length u y l) (
      if_both (Decides t u) (length t == length u)
        (λ e.
          finish (length t) t u (compare_loop (λ i. ltb i (length t)) 0 (t ++ 0 ∷ x) (u ++ 0 ∷ y))
            (compare_loop-Stops (length t) 0 t u x y h l (omega arith) (ground arith)))
        λ e. (λ q. absurd (minus_one_ne_zero q), λ q. absurd (differ e (ap length q)))))
  where
    minus_one_ne_zero : minus_one ≢ pos 0
    minus_one_ne_zero q = omega (arith, ap neg_part q)

    differ : (length t == length u) ≡ false → length t ≢ length u
    differ e q = ground arith
