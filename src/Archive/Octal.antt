-- ===== src/Archive/Octal.antt =====
-- octstr_to_int of sys/tarfs.c against the digits that an archiver writes.
use plum_os.Prelude.{
  ℕ, zero, suc, ◌+◌, ◌/◌, ◌%◌, ◌^◌, ◌<◌, ◌≡◌, refl, ◌≢◌, some, List, [], ◌∷◌, ◌++◌, length, arith,
  ap, ◌∙◌,
}
use plum_os.Strings.Compare.{IsText, strlen-length}
use plum_os.Archive.{octal_step, octal_loop, octstr_to_int, get_filesz}

-- n in k octal digits, as the ustar format stores it.
abbrev pub octal_digits : ℕ → ℕ → List ℕ
octal_digits zero n = []
octal_digits (suc k) n = octal_digits k (n / 8) ++ (48 + n % 8) ∷ []

abbrev octal_value : ℕ → List ℕ → ℕ
octal_value a [] = a
octal_value a (c ∷ t) = octal_value (octal_step a c) t

octal_loop-octal_value :
    (t r : List ℕ) (a : ℕ) → octal_loop (length t) (t ++ r) a ≡ some (octal_value a t)
unfolding octal_loop
octal_loop-octal_value [] r a = refl
octal_loop-octal_value (c ∷ t) r a = octal_loop-octal_value t r (octal_step a c)

octal_value-append :
    (a c : ℕ) (t : List ℕ) → octal_value a (t ++ c ∷ []) ≡ octal_step (octal_value a t) c
octal_value-append a c [] = refl
octal_value-append a c (e ∷ t) = octal_value-append (octal_step a e) c t

step_digit : (n : ℕ) → n < 2 ^ 64 → octal_step (n / 8) (48 + n % 8) ≡ n
unfolding octal_step
step_digit n h = ground arith

octal_value-octal_digits : (k n : ℕ) → n < 8 ^ k → n < 2 ^ 64 → octal_value 0 (octal_digits k n) ≡ n
octal_value-octal_digits zero n h b = omega arith
octal_value-octal_digits (suc k) n h b =
    octal_value-append 0 (48 + n % 8) (octal_digits k (n / 8))
    ∙ ap (λ (m : ℕ). octal_step m (48 + n % 8))
        (octal_value-octal_digits k (n / 8) (omega arith) (omega arith))
    ∙ step_digit n b

IsText-append : (t : List ℕ) (c : ℕ) → IsText t → c ≢ 0 → c < 256 → IsText (t ++ c ∷ [])
IsText-append [] c h ne l = (ne, l, tt)
IsText-append (e ∷ t) c h ne l = (h.0, h.1, IsText-append t c h.2 ne l)

octal_digits-IsText : (k n : ℕ) → IsText (octal_digits k n)
octal_digits-IsText zero n = tt
octal_digits-IsText (suc k) n =
    IsText-append (octal_digits k (n / 8)) (48 + n % 8) (octal_digits-IsText k (n / 8))
      (omega arith) (omega arith)

-- A size below 8 ^ k and 2 ^ 64 that stands in k octal digits in the header, with a NUL behind it, is
-- what get_filesz gives, whatever follows the NUL.
pub get_filesz-octal_digits :
    (k n flag : ℕ) (x name : List ℕ)
    → n < 8 ^ k
    → n < 2 ^ 64
    → get_filesz (record { name = name; size = octal_digits k n ++ 0 ∷ x; typeflag = flag })
      ≡ some n
unfolding get_filesz octstr_to_int
get_filesz-octal_digits k n flag x name h b =
    rw (strlen-length (octal_digits k n) x (octal_digits-IsText k n)) (
      octal_loop-octal_value (octal_digits k n) (0 ∷ x) 0
      ∙ ap (λ (m : ℕ). some m) (octal_value-octal_digits k n h b))
