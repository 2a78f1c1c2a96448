-- ===== src/Archive/Name.antt =====
-- The name of a directory that traverse_tarfs of sys/tarfs.c writes for its checker, and ROUND_TO_512.
use mathlib.Core.List.{append_assoc}
use plum_os.Prelude.{
  ℕ, suc, ◌+◌, ◌-◌, ◌*◌, ◌/◌, ◌%◌, ◌^◌, ◌<◌, ◌≤◌, ◌≡◌, refl, Bool, true, false, Option, some, List,
  [], ◌∷◌, ◌++◌, ◌==◌, if◌then◌else◌, length, drop, arith, ap, ◌∙◌, sym, if_both, length-append,
}
use plum_os.Prelude.Bits.{and_high, and_low}
use plum_os.Prelude.Partial.{◌>>=◌}
use plum_os.Strings.{strncpy, set_at}
use plum_os.Strings.Compare.{IsText, strlen-length}
use plum_os.Shell.Variables.{set_at-append, strncpy_whole, length-drop, IsText-append}
use plum_os.Archive.Traverse.{byte_at, dir_name, slash, round_to_512}

abbrev pub last_byte : ℕ → List ℕ → ℕ
last_byte c [] = c
last_byte c (d ∷ t) = last_byte d t

-- The text with a slash at its end
abbrev pub with_slash : List ℕ → List ℕ
with_slash [] = []
with_slash (c ∷ t) = if last_byte c t == slash then c ∷ t else (c ∷ t) ++ slash ∷ []

pub byte_at-last_byte :
    (c : ℕ) (t x : List ℕ) → byte_at (c ∷ (t ++ x)) (length t) ≡ some (last_byte c t)
unfolding byte_at
byte_at-last_byte c [] x = refl
byte_at-last_byte c (d ∷ t) x = byte_at-last_byte d t x

-- The array with the text u in front, of the same length as before
abbrev pub Written : List ℕ → List ℕ → Option (List ℕ) → Type 0
Written buf u o = (y : List ℕ) × (o ≡ some (u ++ 0 ∷ y)) × (length (u ++ 0 ∷ y) ≡ length buf)

plain_name :
    (t x buf : List ℕ)
    → IsText t
    → length t + 1 < length buf
    → Written buf t (strncpy buf (t ++ 0 ∷ x) (length t))
plain_name t x buf h room = (
  drop (suc (length t)) buf,
  strncpy_whole t x buf h (omega arith),
  omega (
    arith,
    room,
    length-append t (0 ∷ drop (suc (length t)) buf),
    length-drop (suc (length t)) buf,
  ),
)

pub first_and_rest : (s : List ℕ) → 1 ≤ length s → (c : ℕ) × (r : List ℕ) × (s ≡ c ∷ r)
first_and_rest [] h = absurd (omega arith)
first_and_rest (c ∷ r) h = (c, r, refl)

slashed_from :
    (t x buf : List ℕ) (c : ℕ) (r : List ℕ)
    → IsText t
    → length t + 1 < length buf
    → drop (suc (length t)) buf ≡ c ∷ r
    → Written buf (t ++ slash ∷ []) (do
      a ← strncpy buf (t ++ 0 ∷ x) (length t)
      b ← set_at a (length t) slash
      set_at b (length t + 1) 0)
slashed_from t x buf c r h room e = (
  r,
  rw (strncpy_whole t x buf h (omega arith), e)
      (rw (set_at-append t (c ∷ r) 0 slash) (
        ap (λ z. set_at z (length t + 1) 0) (sym (append_assoc t (slash ∷ []) (c ∷ r)))
        ∙ ap (λ z. set_at ((t ++ slash ∷ []) ++ (c ∷ r)) z 0) (sym (length-append t (slash ∷ [])))
        ∙ set_at-append (t ++ slash ∷ []) r c 0)),
  omega (
    arith,
    room,
    length-append (t ++ slash ∷ []) (0 ∷ r),
    length-append t (slash ∷ []),
    length-drop (suc (length t)) buf,
    ap length e,
  ),
)

slashed_name :
    (t x buf : List ℕ)
    → IsText t
    → length t + 1 < length buf
    → Written buf (t ++ slash ∷ []) (do
      a ← strncpy buf (t ++ 0 ∷ x) (length t)
      b ← set_at a (length t) slash
      set_at b (length t + 1) 0)
slashed_name t x buf h room =
    let r =
      first_and_rest (drop (suc (length t)) buf)
        (omega (arith, length-drop (suc (length t)) buf)) in
    slashed_from t x buf r.0 r.1 h room r.2

either_name :
    (b : Bool) (buf u v : List ℕ) (o p : Option (List ℕ))
    → Written buf u o
    → Written buf v p
    → Written buf (if b then u else v) (if b then o else p)
either_name true buf u v o p h k = h
either_name false buf u v o p h k = k

pub dir_name-with_slash :
    (t x buf : List ℕ)
    → IsText t
    → 1 ≤ length t
    → length t + 1 < length buf
    → Written buf (with_slash t) (dir_name buf (t ++ 0 ∷ x))
unfolding dir_name
dir_name-with_slash [] x buf h some_text room = absurd (omega arith)
dir_name-with_slash (c ∷ t) x buf h some_text room =
    rw (strlen-length (c ∷ t) x h, byte_at-last_byte c t (0 ∷ x))
      (either_name (last_byte c t == slash) buf _ _ _ _ (plain_name (c ∷ t) x buf h room)
        (slashed_name (c ∷ t) x buf h room))

pub round_up : (m : ℕ) → m + 511 < 2 ^ 31 → round_to_512 m ≡ (m + 511) / 512 * 512
unfolding round_to_512
round_up m lt =
    and_high 9 ((m + 512 - 1) % 2 ^ 32) (2 ^ 23 - 1)
    ∙ ap (λ (z : ℕ). z * 512) (and_low 23 ((m + 512 - 1) % 2 ^ 32 / 512) ∙ omega arith)

pub with_slash-IsText : (t : List ℕ) → IsText t → IsText (with_slash t)
with_slash-IsText [] h = h
with_slash-IsText (c ∷ t) h =
    if_both IsText (last_byte c t == slash) (λ e. h)
      (λ e.
        IsText-append (c ∷ t) (slash ∷ []) h ((λ k. absurd (omega (arith, k))), omega arith, tt))
