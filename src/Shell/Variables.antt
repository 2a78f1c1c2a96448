-- ===== src/Shell/Variables.antt =====
-- get_var and set_var of libc/shlib.c on the list of variables.
use mathlib.Core.List.{append_assoc}
use plum_os.Prelude.{
  ℕ, zero, suc, ◌+◌, ◌-◌, ◌<◌, ◌≤◌, ◌≡◌, refl, Option, some, List, [], ◌∷◌, ◌++◌, length, drop,
  take, arith, ap, ◌∙◌, sym, min, length-append,
}
use plum_os.Strings.{strncpy, set_at}
use plum_os.Strings.Compare.{IsText, strlen-length}
use plum_os.Strings.Copy.{strncpy-take, overlay}
use plum_os.Shell.{copy_n, from_offset, copy_value, make_entry}
use plum_os.Shell.Lookup.{IsString}

pub IsText-append : (t u : List ℕ) → IsText t → IsText u → IsText (t ++ u)
IsText-append [] u h k = k
IsText-append (c ∷ t) u h k = (h.0, h.1, IsText-append t u h.2 k)

take_all : (t u : List ℕ) → take (length t) (t ++ u) ≡ t
take_all [] u = refl
take_all (c ∷ t) u = ap (λ (z : List ℕ). c ∷ z) (take_all t u)

pub take_whole : (t : List ℕ) → take (length t) t ≡ t
take_whole [] = refl
take_whole (c ∷ t) = ap (λ (z : List ℕ). c ∷ z) (take_whole t)

drop_all : (t u : List ℕ) → drop (length t) (t ++ u) ≡ u
drop_all [] u = refl
drop_all (c ∷ t) u = drop_all t u

from_offset-append :
    (f : List ℕ → Option (List ℕ)) (t s r : List ℕ)
    → f s ≡ some r
    → from_offset (length t) f (t ++ s) ≡ some (t ++ r)
unfolding from_offset
from_offset-append f [] s r e = e
from_offset-append f (c ∷ t) s r e = rw (from_offset-append f t s r e) refl

pub set_at-append : (t s : List ℕ) (c d : ℕ) → set_at (t ++ c ∷ s) (length t) d ≡ some (t ++ d ∷ s)
unfolding set_at
set_at-append [] s c d = refl
set_at-append (e ∷ t) s c d = rw (set_at-append t s c d) refl

pub strncpy_whole :
    (t x dest : List ℕ)
    → IsText t
    → length t < length dest
    → strncpy dest (t ++ 0 ∷ x) (length t) ≡ some (t ++ 0 ∷ drop (suc (length t)) dest)
strncpy_whole t x dest h room =
    strncpy-take (length t) t x dest h (omega arith) ∙ rw (same, take_whole t) refl
  where
    same : min (length t) (length t) ≡ length t
    same = omega arith

pub length-drop : (n : ℕ) (s : List ℕ) → length (drop n s) ≡ length s - n
length-drop zero s = omega arith
length-drop (suc n) [] = omega arith
length-drop (suc n) (c ∷ s) = omega (arith, length-drop n s)

set_nul :
    (t u s : List ℕ) → set_at (t ++ (u ++ 0 ∷ s)) (length t + length u) 0 ≡ some ((t ++ u) ++ 0 ∷ s)
set_nul t u s =
    ap (λ z. set_at z (length t + length u) 0) (sym (append_assoc t u (0 ∷ s)))
    ∙ ap (λ z. set_at ((t ++ u) ++ 0 ∷ s) z 0) (sym (length-append t u))
    ∙ set_at-append (t ++ u) s 0 0

-- The new entry is the name and the value, if they have room.
pub make_entry-IsString :
    (name value x y buf : List ℕ)
    → IsText name
    → IsText value
    → length name + length value < 2048
    → length buf ≡ 2048
    → (b : List ℕ) × (make_entry buf (name ++ 0 ∷ x) (value ++ 0 ∷ y) ≡ some b)
      × IsString b (name ++ value)
unfolding make_entry
make_entry-IsString name value x y buf h k fit room = (
  (name ++ value) ++ 0 ∷ drop (suc (length value)) (0 ∷ drop (suc (length name)) buf),
  rw
      (
        strlen-length name x h,
        strlen-length value y k,
        whole,
        fits,
        strncpy_whole name x buf h (omega (arith, fit, room)),
        from_offset-append (λ dest. strncpy dest (value ++ 0 ∷ y) (length value)) name
            (0 ∷ drop (suc (length name)) buf) _
            (strncpy_whole value y (0 ∷ drop (suc (length name)) buf) k
              (omega (arith, length-drop (suc (length name)) buf))),
      )
      (set_nul name value (drop (length value) (drop (suc (length name)) buf))),
  (
    IsText-append name value h k,
    (drop (suc (length value)) (0 ∷ drop (suc (length name)) buf), refl),
  ),
)
  where
    whole : min (length name) (2048 - 1) ≡ length name
    whole = omega arith

    fits : min (length value) (2048 - length name - 1) ≡ length value
    fits = omega arith

copy_n-take :
    (n : ℕ) (src dest : List ℕ)
    → n ≤ length src
    → n ≤ length dest
    → copy_n n src dest ≡ some (take n src ++ drop n dest)
unfolding copy_n
copy_n-take zero src dest a b = refl
copy_n-take (suc n) [] dest a b = absurd (omega arith)
copy_n-take (suc n) (c ∷ src) [] a b = absurd (omega arith)
copy_n-take (suc n) (c ∷ src) (d ∷ dest) a b =
    rw (copy_n-take n src dest (omega arith) (omega arith)) refl

-- The value is what stands behind the name, if it has room.
pub copy_value-IsString :
    (name value b buf : List ℕ)
    → IsString b (name ++ value)
    → IsText value
    → length value < 2048
    → length buf ≡ 2048
    → (r : List ℕ) × (copy_value b (length name) buf ≡ some r) × IsString r value
unfolding copy_value
copy_value-IsString name value b buf (h, (x, e)) k fit room = (
  value ++ 0 ∷ drop (suc (length value)) buf,
  rw
      (
        e,
        strlen-length (name ++ value) x h,
        rest,
        behind,
        copy_n-take (length value) (value ++ 0 ∷ x) buf (omega (arith, length-append value (0 ∷ x)))
            (omega (arith, room, fit)),
      )
      (overlay (length value) (value ++ 0 ∷ x) buf (omega (arith, length-append value (0 ∷ x)))
          (omega (arith, room, fit))
        ∙ rw (take_all value (0 ∷ x)) refl),
  (k, (drop (suc (length value)) buf, refl)),
)
  where
    rest : min (length (name ++ value) - length name) (2048 - 1) ≡ length value
    rest = omega (arith, length-append name value)

    behind : drop (length name) ((name ++ value) ++ 0 ∷ x) ≡ value ++ 0 ∷ x
    behind =
        ap (drop (length name)) (append_assoc name value (0 ∷ x)) ∙ drop_all name (value ++ 0 ∷ x)
