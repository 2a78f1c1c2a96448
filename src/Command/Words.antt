-- ===== src/Command/Words.antt =====
-- The words of a command line, for parse_cmds of libc/shlib.c.
use mathlib.Core.List.{append_assoc}
use plum_os.Prelude.{
  ℕ, zero, suc, ◌+◌, ◌<◌, ◌≤◌, ◌≡◌, refl, Bool, true, false, ◌&&◌, not, Option, none, some, List,
  [], ◌∷◌, ◌++◌, ◌==◌, ltb, leb, if◌then◌else◌, length, arith, ap, ◌∙◌, sym, subst, Bool-cases, inl,
  inr, ltb→lt, if_both, length-append,
}
use plum_os.Command.{
  is_end, quote, space, NextArg, arg, take_arg, skip_spaces, first_byte, finished, parse_loop,
  parse_cmds,
}

-- The word that a text begins with, and the words behind it
abbrev pub pushed : List ℕ × List (List ℕ) → List (List ℕ)
pushed ([], ws) = ws
pushed (c ∷ w, ws) = (c ∷ w) ∷ ws

abbrev pub first_word : List ℕ → List ℕ × List (List ℕ)
first_word [] = ([], [])
first_word (c ∷ t) = let r = first_word t in if c == space then ([], pushed r) else (c ∷ r.0, r.1)

-- The longest pieces of a text without a space
abbrev pub words : List ℕ → List (List ℕ)
words t = pushed (first_word t)

-- Neither the end of a command nor a quote
abbrev pub IsPlain : List ℕ → Type 0
IsPlain [] = Unit {0}
IsPlain (c ∷ t) = (is_end c ≡ false) × ((c == quote) ≡ false) × IsPlain t

abbrev pub AllShort : List (List ℕ) → Type 0
AllShort [] = Unit {0}
AllShort (w ∷ ws) = (length w < 256) × AllShort ws

-- The text behind its first word, and behind the spaces that it begins with
abbrev behind : List ℕ → List ℕ
behind [] = []
behind (c ∷ t) = if c == space then c ∷ t else behind t

abbrev skipped : List ℕ → List ℕ
skipped [] = []
skipped (c ∷ t) = if c == space then skipped t else c ∷ t

behind-IsPlain : (t : List ℕ) → IsPlain t → IsPlain (behind t)
behind-IsPlain [] h = tt
behind-IsPlain (c ∷ t) h = if_both IsPlain (c == space) (λ e. h) (λ e. behind-IsPlain t h.2)

skipped-IsPlain : (t : List ℕ) → IsPlain t → IsPlain (skipped t)
skipped-IsPlain [] h = tt
skipped-IsPlain (c ∷ t) h = if_both IsPlain (c == space) (λ e. skipped-IsPlain t h.2) (λ e. h)

words-skipped : (t : List ℕ) → words (skipped t) ≡ words t
words-skipped [] = refl
words-skipped (c ∷ t) = elim (Bool-cases (c == space)) [
  | inl e ↦ rw e (words-skipped t)
  | inr e ↦ rw e (rw e refl)
]

words-behind : (t : List ℕ) → words (behind t) ≡ (first_word t).1
words-behind [] = refl
words-behind (c ∷ t) = elim (Bool-cases (c == space)) [
  | inl e ↦ rw e (rw e refl)
  | inr e ↦ rw e (words-behind t)
]

skip_spaces-skipped : (t x : List ℕ) → skip_spaces (t ++ 0 ∷ x) ≡ some (skipped t ++ 0 ∷ x)
unfolding skip_spaces
skip_spaces-skipped [] x = refl
skip_spaces-skipped (c ∷ t) x = elim (Bool-cases (c == space)) [
  | inl e ↦ rw e (skip_spaces-skipped t x)
  | inr e ↦ rw e refl
]

if_same : (b : Bool) (a : Option NextArg) → (if b then a else a) ≡ a
if_same true a = refl
if_same false a = refl

first_letter :
    (c : ℕ) (t : List ℕ) → (c == space) ≡ false → (first_word (c ∷ t)).0 ≡ c ∷ (first_word t).0
first_letter c t e = rw e refl

take_arg-first_word :
    (i : ℕ) (t x : List ℕ)
    → IsPlain t
    → i + length (first_word t).0 < 256
    → take_arg i false (t ++ 0 ∷ x) ≡ some (arg (first_word t).0 (behind t ++ 0 ∷ x))
unfolding take_arg
take_arg-first_word i [] x h lt = refl
take_arg-first_word i (c ∷ t) x h lt = elim (Bool-cases (c == space)) [
  | inl e ↦ rw (h.0, h.1, e) (if_same (not (ltb i 255)) (some (arg [] (c ∷ (t ++ 0 ∷ x)))))
  | inr e ↦ rw (h.0, h.1, e, (fits e).0) (rw (take_arg-first_word (i + 1) t x h.2 (fits e).1) refl)
]
  where
    fits : (c == space) ≡ false → (ltb i 255 ≡ true) × (i + 1 + length (first_word t).0 < 256)
    fits e = fits_with (length (first_word (c ∷ t)).0) lt (ap length (first_letter c t e))
      where
        fits_with :
            (n : ℕ)
            → i + n < 256
            → n ≡ suc (length (first_word t).0)
            → (ltb i 255 ≡ true) × (i + 1 + length (first_word t).0 < 256)
        fits_with n h k = (ground arith, omega arith)

append_nil : (ws : List (List ℕ)) → ws ++ [] ≡ ws
append_nil [] = refl
append_nil (w ∷ ws) = ap (λ (z : List (List ℕ)). w ∷ z) (append_nil ws)

-- The result for the arguments found and the words still to come
abbrev pub answer : List (List ℕ) → Option (List (List ℕ))
answer ws = if leb 8 (length ws) then none else some ws

-- What the loop does on plain texts, for one amount of fuel
abbrev Rounds : ℕ → Type 0
Rounds fuel =
    (args : List (List ℕ)) (t x : List ℕ)
    → IsPlain t
    → AllShort (words t)
    → 9 ≤ fuel + length args
    → length args ≤ 8
    → parse_loop fuel args (t ++ 0 ∷ x) ≡ some (answer (args ++ words t))

-- The text is empty or begins a word.
abbrev Starts : List ℕ → Type 0
Starts [] = Unit {0}
Starts (c ∷ t) = (c == space) ≡ false

skipped-Starts : (t : List ℕ) → Starts (skipped t)
skipped-Starts [] = tt
skipped-Starts (c ∷ t) = if_both Starts (c == space) (λ e. skipped-Starts t) (λ e. e)

abbrev head_of : List ℕ → ℕ
head_of [] = 0
head_of (c ∷ t) = c

first_byte-head_of : (t x : List ℕ) → first_byte (t ++ 0 ∷ x) ≡ some (head_of t)
first_byte-head_of [] x = refl
first_byte-head_of (c ∷ t) x = refl

words_from :
    (b : ℕ) (s : List ℕ)
    → (b == space) ≡ false
    → (words (b ∷ s) ≡ (b ∷ (first_word s).0) ∷ (first_word s).1) × (behind (b ∷ s) ≡ behind s)
words_from b s e = rw e (refl, refl)

few_args : (args : List (List ℕ)) → length args < 8 → ltb (length args) 8 ≡ true
few_args args lt = ground arith

stored_some : (n : ℕ) → suc n < 256 → (ltb 0 (suc n) && ltb (suc n) 256) ≡ true
stored_some n lt = ground arith

round :
    (fuel : ℕ) (args : List (List ℕ)) (p s x : List ℕ)
    → Rounds fuel
    → (c : ℕ) → first_byte p ≡ some c
    → is_end c ≡ false
    → length args < 8
    → skip_spaces p ≡ some (s ++ 0 ∷ x)
    → IsPlain s
    → AllShort (words s)
    → Starts s
    → 9 ≤ suc fuel + length args
    → parse_loop (suc fuel) args p ≡ some (answer (args ++ words s))
unfolding parse_loop take_arg
round fuel args p [] x next c first no_end few skip plain short start enough =
    rw (first, no_end, skip, few_args args few) (ap (λ z. some (answer z)) (sym (append_nil args)))
round fuel args p (b ∷ s) x next c first no_end few skip plain short start enough =
    let shape = words_from b s start in
    let sh : (suc (length (first_word s).0) < 256) × AllShort (first_word s).1 =
      subst AllShort shape.0 short in
    rw
      (
        first,
        no_end,
        skip,
        few_args args few,
        take_arg-first_word 0 (b ∷ s) x plain
            (omega (arith, ap length (first_letter b s start), sh.0)),
        first_letter b s start,
        shape.1,
        first_byte-head_of (behind s) x,
      )
      (rw (stored_some (length (first_word s).0) sh.0) (
        next (args ++ (b ∷ (first_word s).0) ∷ []) (behind s) x (behind-IsPlain s plain.2)
          (subst AllShort (sym (words-behind s)) sh.1)
          (omega (arith, enough, length-append args ((b ∷ (first_word s).0) ∷ [])))
          (omega (arith, few, length-append args ((b ∷ (first_word s).0) ∷ [])))
        ∙ ap (λ z. some (answer z))
            (append_assoc args ((b ∷ (first_word s).0) ∷ []) (words (behind s))
              ∙ ap (λ z. args ++ ((b ∷ (first_word s).0) ∷ z)) (words-behind s)
              ∙ ap (λ z. args ++ z) (sym shape.0))))

full : (args ws : List (List ℕ)) → ltb (length args) 8 ≡ false → finished args ≡ answer (args ++ ws)
full args ws e = rw (many args e, many (args ++ ws) more) refl
  where
    many : (zs : List (List ℕ)) → ltb (length zs) 8 ≡ false → leb 8 (length zs) ≡ true
    many zs h = ground arith

    more : ltb (length (args ++ ws)) 8 ≡ false
    more = ground (arith, length-append args ws)

rounds : (fuel : ℕ) → Rounds fuel
unfolding parse_loop
rounds zero args t x plain short enough few = absurd (omega arith)
rounds (suc fuel) args [] x plain short enough few =
    ap (λ z. some (answer z)) (sym (append_nil args))
rounds (suc fuel) args (c ∷ t) x plain short enough few = elim (Bool-cases (ltb (length args) 8)) [
  | inl e ↦
      round fuel args (c ∷ (t ++ 0 ∷ x)) (skipped (c ∷ t)) x (rounds fuel) c refl plain.0
        (ltb→lt (length args) 8 e) (skip_spaces-skipped (c ∷ t) x) (skipped-IsPlain (c ∷ t) plain)
        (subst AllShort (sym (words-skipped (c ∷ t))) short) (skipped-Starts (c ∷ t)) enough
      ∙ ap (λ z. some (answer (args ++ z))) (words-skipped (c ∷ t))
  | inr e ↦ rw (plain.0, e) (ap some (full args (words (c ∷ t)) e))
]

-- On a terminated line without quotes, newlines and '#', whose words have at most 255 bytes, parse_cmds
-- returns within 9 rounds of its loop: with the words of the line, or with NULL if there are 8 or more.
pub parse_cmds-words :
    (fuel : ℕ) (t x : List ℕ)
    → IsPlain t
    → AllShort (words t)
    → 9 ≤ fuel
    → parse_cmds fuel (t ++ 0 ∷ x)
      ≡ some (if leb 8 (length (words t)) then none else some (words t))
unfolding parse_cmds
parse_cmds-words fuel t x plain short enough =
    rounds fuel [] t x plain short (omega arith) (omega arith)
