-- ===== src/Archive/Directory.antt =====
-- belongs_to_dir of sys/syscall.c, and it and strcmp as checkers of traverse_tarfs.
use plum_os.Prelude.{
  ℕ, zero, suc, ◌+◌, ◌-◌, ◌≤◌, ◌≡◌, refl, Bool, true, false, ◌&&◌, ◌||◌, Option, none, some, List,
  [], ◌∷◌, ◌++◌, ◌==◌, ==_ne, ==_iff, if◌then◌else◌, length, drop, arith, ap, ◌∙◌, sym, subst,
  Bool-cases, inl, inr, ◌↔◌, length-append,
}
use plum_os.Prelude.Int.{ℤ, pos}
use plum_os.Prelude.Partial.{◌>>=◌}
use plum_os.Strings.{strlen, strcmp, strncmp}
use plum_os.Strings.Compare.{IsText, strlen-length, Decides, strcmp-Decides}
use plum_os.Shell.{is_zero}
use plum_os.Shell.Prefix.{zero_only, has_prefix, Tells, strncmp-has_prefix}
use plum_os.Shell.Answers.{has_prefix-append, IsText-behind}
use plum_os.Archive.Traverse.{slash, byte_at}
use plum_os.Archive.Match.{Judges}

-- Both loops over the name, with the rounds that are left: the first '/' decides.
unfoldable pub slash_loop : ℕ → List ℕ → Option ℤ
slash_loop zero name = some (pos 0)
slash_loop (suc n) [] = none
slash_loop (suc n) (c ∷ name) =
    let rest = slash_loop n name in
    if c == slash then (do d ← byte_at name 0; some (if d == 0 then pos 0 else pos 1)) else rest

-- 0 means that name passes, 1 that it does not; strlen of a NULL pointer is 0.
unfoldable pub belongs_to_dir : Option (List ℕ) → Option (List ℕ) → Option ℤ
belongs_to_dir none none = some (pos 1)
belongs_to_dir none (some name) = do len1 ← strlen name; some (pos 1)
belongs_to_dir (some dirname) none = do len ← strlen dirname; some (pos 1)
belongs_to_dir (some dirname) (some name) = do
  len ← strlen dirname
  len1 ← strlen name
  if (len == 0) || (len1 == 0) then some (pos 1) else (do
    r ← strcmp (some dirname) (some (slash ∷ 0 ∷ []))
    if is_zero r then slash_loop len1 name else (do
      z ← strncmp (some dirname) (some name) len
      if is_zero z then slash_loop (len1 - len) (drop len name) else some (pos 1)))

abbrev pub same_text : List ℕ → List ℕ → Bool
same_text [] [] = true
same_text [] (d ∷ u) = false
same_text (c ∷ t) [] = false
same_text (c ∷ t) (d ∷ u) = (c == d) && same_text t u

-- A name without '/', but perhaps at its end
abbrev pub one_level : List ℕ → Bool
one_level [] = true
one_level (c ∷ t) = if c == slash then same_text t [] else one_level t

-- The text u begins with t, which is not empty, and what follows, which may be nothing, has no '/' but perhaps at
-- its end. With t a single '/', it is u, not empty, that has none but perhaps at its end.
abbrev pub passes_dir : List ℕ → List ℕ → Bool
passes_dir [] u = false
passes_dir (c ∷ t) [] = false
passes_dir (c ∷ t) (d ∷ u) =
    if same_text (c ∷ t) (slash ∷ [])
    then one_level (d ∷ u)
    else has_prefix (c ∷ t) (d ∷ u) && one_level (drop (length (c ∷ t)) (d ∷ u))

both_true : (p q : Bool) → (p && q) ≡ true → (p ≡ true) × (q ≡ true)
both_true true q e = (refl, e)
both_true false q e = cc

abbrev head_or : ℕ → List ℕ → ℕ
head_or c [] = c
head_or c (d ∷ t) = d

abbrev tail_of : List ℕ → List ℕ
tail_of [] = []
tail_of (c ∷ t) = t

same_text_iff : (t u : List ℕ) → (same_text t u ≡ true) ↔ (t ≡ u)
same_text_iff [] [] = (λ e. refl, λ e. refl)
same_text_iff [] (d ∷ u) = (λ e. cc, λ e. cc)
same_text_iff (c ∷ t) [] = (λ e. cc, λ e. cc)
same_text_iff (c ∷ t) (d ∷ u) =
    let i = same_text_iff t u in
    (
      (λ e.
          let b = both_true (c == d) (same_text t u) e in
          ap (λ z. z ∷ t) ((==_iff c d).0 b.0) ∙ ap (λ (z : List ℕ). d ∷ z) (i.0 b.1)),
      λ e. rw ((==_iff c d).1 (ap (head_or c) e), i.1 (ap tail_of e)) refl,
    )

zero_exactly : (z : ℤ) (b : Bool) → (z ≡ pos 0) ↔ (b ≡ true) → is_zero z ≡ b
zero_exactly z true h = rw (h.1 refl) refl
zero_exactly z false h = elim (Bool-cases (is_zero z)) [
  | inl e ↦ e ∙ sym (h.0 (zero_only z e))
  | inr e ↦ e
]

decided :
    (t u : List ℕ) (o : Option ℤ)
    → Decides t u o
    → (z : ℤ) × (o ≡ some z) × (is_zero z ≡ same_text t u)
decided t u none d = absurd d
decided t u (some z) d =
    let i = same_text_iff t u in
    (z, refl, zero_exactly z (same_text t u) ((λ e. i.1 (d.0 e)), λ e. d.1 (i.0 e)))

pub strcmp-Judges : Judges strcmp same_text
strcmp-Judges t u x y h k =
    decided t u (strcmp (some (t ++ 0 ∷ x)) (some (u ++ 0 ∷ y))) (strcmp-Decides t u x y h k)

-- A result 0 for true and 1 for false
abbrev answer : Bool → ℤ
answer b = if b then pos 0 else pos 1

after_slash :
    (u x : List ℕ)
    → IsText u
    → (do d ← byte_at (u ++ 0 ∷ x) 0; some (if d == 0 then pos 0 else pos 1))
      ≡ some (answer (same_text u []))
unfolding byte_at
after_slash [] x k = refl
after_slash (d ∷ u) x k = rw (==_ne d 0 k.0) refl

slash_loop-one_level :
    (t x : List ℕ) → IsText t → slash_loop (length t) (t ++ 0 ∷ x) ≡ some (answer (one_level t))
unfolding slash_loop
slash_loop-one_level [] x h = refl
slash_loop-one_level (c ∷ t) x h = elim (Bool-cases (c == slash)) [
  | inl e ↦ rw e (after_slash t x h.2)
  | inr e ↦ rw e (slash_loop-one_level t x h.2)
]

slash-IsText : IsText (slash ∷ [])
slash-IsText = ((λ e. absurd (omega (arith, e))), omega arith, tt)

told : (p : Bool) (o : Option ℤ) → Tells p o → (z : ℤ) × (o ≡ some z) × (is_zero z ≡ p)
told p none h = absurd h
told p (some z) h = (z, refl, h)

is_zero-answer : (b : Bool) → is_zero (answer b) ≡ b
is_zero-answer true = refl
is_zero-answer false = refl

drop_front : (n : ℕ) (u w : List ℕ) → n ≤ length u → drop n (u ++ w) ≡ drop n u ++ w
drop_front zero u w h = refl
drop_front (suc n) [] w h = absurd (omega arith)
drop_front (suc n) (c ∷ u) w h = drop_front n u w (omega arith)

below :
    (t u y : List ℕ)
    → IsText u
    → has_prefix t u ≡ true
    → slash_loop (length u - length t) (drop (length t) (u ++ 0 ∷ y))
      ≡ some (answer (one_level (drop (length t) u)))
below t u y k e =
    let parts = has_prefix-append t u e in
    let len : length u ≡ length t + length (drop (length t) u) =
      ap length parts ∙ length-append t (drop (length t) u) in
    ap (λ n. slash_loop n (drop (length t) (u ++ 0 ∷ y))) (omega (arith, len))
    ∙ ap (slash_loop (length (drop (length t) u)))
        (drop_front (length t) u (0 ∷ y) (omega (arith, len)))
    ∙ slash_loop-one_level (drop (length t) u) y
        (IsText-behind t (drop (length t) u) (subst IsText parts k))

picked :
    (p q m n : Bool) (a b : Option ℤ)
    → a ≡ some (answer m)
    → (q ≡ true → b ≡ some (answer n))
    → (if p then a else if q then b else some (pos 1)) ≡ some (answer (if p then m else q && n))
picked true q m n a b h k = h
picked false true m n a b h k = k refl
picked false false m n a b h k = refl

-- On two terminated texts belongs_to_dir returns, and its result is 0 exactly when neither is empty and the second
-- begins with the first and has no '/' in what follows, but perhaps at its end; where the first is
-- a single '/', exactly when the second has none, but perhaps at its end. So what follows may be
-- nothing, and no '/' need stand in front of it: bin/ passes for bin/, and binary for bin.
pub belongs_to_dir-Judges : Judges belongs_to_dir passes_dir
unfolding belongs_to_dir
belongs_to_dir-Judges [] u x y h k =
    (pos 1, rw (strlen-length [] x tt, strlen-length u y k) refl, refl)
belongs_to_dir-Judges (c ∷ t) [] x y h k = (
  pos 1,
  rw
      (
        strlen-length (c ∷ t) x h,
        strlen-length [] y tt,
        ==_ne (suc (length t)) 0 (λ e. absurd (omega (arith, e))),
      )
      refl,
  refl,
)
belongs_to_dir-Judges (c ∷ t) (d ∷ u) x y h k =
    let r = strcmp-Judges (c ∷ t) (slash ∷ []) x [] h slash-IsText in
    let z = told (has_prefix (c ∷ t) (d ∷ u)) _ (strncmp-has_prefix (c ∷ t) (d ∷ u) x y h k) in
    (
      answer (passes_dir (c ∷ t) (d ∷ u)),
      rw
          (
            strlen-length (c ∷ t) x h,
            strlen-length (d ∷ u) y k,
            ==_ne (suc (length t)) 0 (λ e. absurd (omega (arith, e))),
            ==_ne (suc (length u)) 0 (λ e. absurd (omega (arith, e))),
            r.1,
            r.2,
            z.1,
          )
          (rw z.2 (
            picked (same_text (c ∷ t) (slash ∷ [])) (has_prefix (c ∷ t) (d ∷ u)) (one_level (d ∷ u))
              (one_level (drop (length (c ∷ t)) (d ∷ u))) _ _ (slash_loop-one_level (d ∷ u) y k)
              (below (c ∷ t) (d ∷ u) y k))),
      is_zero-answer (passes_dir (c ∷ t) (d ∷ u)),
    )
