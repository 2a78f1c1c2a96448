-- ===== src/Archive/Match.antt =====
-- traverse_tarfs of sys/tarfs.c on an archive given as a list of files.
use plum_os.Prelude.{
  ℕ, zero, suc, ◌+◌, ◌*◌, ◌/◌, ◌%◌, ◌^◌, ◌<◌, ◌≤◌, ◌≡◌, refl, Bool, true, false, Option, none, some,
  List, [], ◌∷◌, ◌++◌, ◌==◌, if◌then◌else◌, length, arith, ap, ◌∙◌, subst, if_both, Bool-cases, inl,
  inr, ltb, lt→ltb,
}
use plum_os.Prelude.Int.{ℤ}
use plum_os.Prelude.Ints.{widened_int}
use plum_os.Strings.Compare.{IsText, strlen-length}
use plum_os.Shell.{is_zero}
use plum_os.Archive.{PosixHeaderUstar, get_filesz}
use plum_os.Archive.Traverse.{Checker, ft_dir, ft_file, next_header, traverse_loop, traverse_tarfs}
use plum_os.Archive.Name.{with_slash, with_slash-IsText, dir_name-with_slash, round_up}

-- The checker decides `fits` on terminated texts.
abbrev pub Judges : Checker → (List ℕ → List ℕ → Bool) → Type 0
Judges checker fits =
    (t u x y : List ℕ)
    → IsText t
    → IsText u
    → (z : ℤ) × (checker (some (t ++ 0 ∷ x)) (some (u ++ 0 ∷ y)) ≡ some z) × (is_zero z ≡ fits t u)

-- A file of the archive: its header, the text of its name, and its size
pub record File : Type 0 where
  pub header : PosixHeaderUstar
  pub title : List ℕ
  pub bytes : ℕ

pub record IsFile (f : File) : Type 0 where
  pub is_text : IsText f.title
  pub behind : List ℕ
  pub named : f.header.name ≡ f.title ++ 0 ∷ behind
  pub sized : get_filesz f.header ≡ some f.bytes
  pub small : f.bytes + 1024 < 2 ^ 31

abbrev pub is_dir : File → Bool
is_dir f = f.header.typeflag == 53

-- The bytes from a header to the next: a directory is a header alone.
abbrev pub length_of : File → ℕ
length_of f = if is_dir f then 512 else (f.bytes + 512 + 511) / 512 * 512

-- The files stand one behind the other from p to the end of the archive.
abbrev pub Laid : (ℕ → PosixHeaderUstar) → ℕ → ℕ → List File → Type 0
Laid header ends p [] = p ≡ ends
Laid header ends p (f ∷ fs) =
    (header p ≡ f.header) × IsFile f × Laid header ends (p + length_of f) fs

-- Whether a file is the one looked for: the name of a directory is compared with a slash at its end.
abbrev pub hit : (List ℕ → List ℕ → Bool) → List ℕ → File → Bool
hit fits t f = if is_dir f then fits (with_slash t) f.title else fits t f.title

-- The address and the type of the first such file
abbrev pub first_hit : (List ℕ → List ℕ → Bool) → List ℕ → ℕ → List File → Option (ℕ × ℕ)
first_hit fits t p [] = none
first_hit fits t p (f ∷ fs) =
    if hit fits t f
    then some (p, if is_dir f then ft_dir else ft_file)
    else first_hit fits t (p + length_of f) fs

one_block : (f : File) → 512 ≤ length_of f
one_block f = if_both (λ z. 512 ≤ z) (is_dir f) (λ e. omega arith) (λ e. omega arith)

Laid-inside :
    (header : ℕ → PosixHeaderUstar) (ends p : ℕ) (fs : List File) → Laid header ends p fs → p ≤ ends
Laid-inside header ends p [] h = omega (arith, h)
Laid-inside header ends p (f ∷ fs) h =
    omega (arith, Laid-inside header ends (p + length_of f) fs h.2)

next_header_of :
    (f : File) (p ends : ℕ)
    → IsFile f
    → is_dir f ≡ false
    → p + length_of f ≤ ends
    → ends < 2 ^ 63
    → next_header f.header p ≡ some (p + length_of f)
unfolding next_header
next_header_of f p ends i plain inside fit =
    rw (i.sized, whole, round_up (f.bytes + 512) (omega (arith, i.small)), small_int, plain)
      (ap some (omega (arith, len)))
  where
    whole : (f.bytes + 512) % 2 ^ 32 ≡ f.bytes + 512
    whole = omega (arith, i.small)

    small_int : widened_int ((f.bytes + 512 + 511) / 512 * 512) ≡ (f.bytes + 512 + 511) / 512 * 512
    small_int = ground (arith, i.small)

    len : p + (f.bytes + 512 + 511) / 512 * 512 ≤ ends
    len = subst (λ z. p + z ≤ ends) (len_of plain) inside
      where
        len_of : is_dir f ≡ false → length_of f ≡ (f.bytes + 512 + 511) / 512 * 512
        len_of e = rw e refl

chosen :
    (c : Bool) (r v : Option (ℕ × ℕ)) (o : Option (Option (ℕ × ℕ)))
    → o ≡ some v
    → (if c then some r else o) ≡ some (if c then r else v)
chosen true r v o e = refl
chosen false r v o e = e

abbrev rounded : File → ℕ
rounded f = (f.bytes + 512 + 511) / 512 * 512

length_of_file : (f : File) → is_dir f ≡ false → length_of f ≡ rounded f
length_of_file f e = rw e refl

length_of_dir : (f : File) → is_dir f ≡ true → length_of f ≡ 512
length_of_dir f e = rw e refl

module _ (header : ℕ → PosixHeaderUstar) (ends : ℕ) (checker : Checker)
    (fits : List ℕ → List ℕ → Bool) (judges : Judges checker fits) (t x : List ℕ) (h : IsText t)
    (some_text : 1 ≤ length t) (fit : ends < 2 ^ 63) where
  -- What the loop does with an amount of fuel
  abbrev Walks : ℕ → Type 0
  Walks fuel =
      (name : List ℕ) (p : ℕ) (fs : List File)
      → length t + 1 < length name
      → length fs < fuel
      → Laid header ends p fs
      → traverse_loop header ends fuel name (t ++ 0 ∷ x) p checker ≡ some (first_hit fits t p fs)

  inside : (p : ℕ) (f : File) (fs : List File) → Laid header ends p (f ∷ fs) → ltb p ends ≡ true
  inside p f fs l =
      lt→ltb p ends (omega (arith, one_block f, Laid-inside header ends (p + length_of f) fs l.2))

  walk_dir :
      (fuel : ℕ) (name : List ℕ) (p : ℕ) (f : File) (fs : List File)
      → Walks fuel
      → length t + 1 < length name
      → length fs < fuel
      → Laid header ends p (f ∷ fs)
      → is_dir f ≡ true
      → traverse_loop header ends (suc fuel) name (t ++ 0 ∷ x) p checker
        ≡ some (first_hit fits t p (f ∷ fs))
  unfolding traverse_loop
  walk_dir fuel name p f fs next room lt l dir =
      let d = dir_name-with_slash t x name h some_text room in
      let z = judges (with_slash t) f.title d.0 l.1.behind (with_slash-IsText t h) l.1.is_text in
      rw (inside p f fs l, l.0, dir, d.1, l.1.named, z.1, z.2)
        (chosen (fits (with_slash t) f.title) (some (p, ft_dir)) (first_hit fits t (p + 512) fs) _ (
          next (with_slash t ++ 0 ∷ d.0) (p + 512) fs (omega (arith, room, d.2)) lt
            (subst (λ z. Laid header ends (p + z) fs) (length_of_dir f dir) l.2)))

  walk_file :
      (fuel : ℕ) (name : List ℕ) (p : ℕ) (f : File) (fs : List File)
      → Walks fuel
      → length t + 1 < length name
      → length fs < fuel
      → Laid header ends p (f ∷ fs)
      → is_dir f ≡ false
      → traverse_loop header ends (suc fuel) name (t ++ 0 ∷ x) p checker
        ≡ some (first_hit fits t p (f ∷ fs))
  unfolding traverse_loop
  walk_file fuel name p f fs next room lt l plain =
      let z = judges t f.title x l.1.behind h l.1.is_text in
      let n : next_header f.header p ≡ some (p + rounded f) =
        next_header_of f p ends l.1 plain (Laid-inside header ends (p + length_of f) fs l.2) fit
        ∙ ap (λ k. some (p + k)) (length_of_file f plain) in
      rw (inside p f fs l, l.0, plain, n, l.1.named, z.1, z.2)
        (chosen (fits t f.title) (some (p, ft_file)) (first_hit fits t (p + rounded f) fs) _ (
          next name (p + rounded f) fs room lt
            (subst (λ k. Laid header ends (p + k) fs) (length_of_file f plain) l.2)))

  walks : (fuel : ℕ) → Walks fuel
  unfolding traverse_loop
  walks zero name p fs room lt l = absurd (omega arith)
  walks (suc fuel) name p [] room lt l = rw (outside p l) refl
    where
      outside : (q : ℕ) → q ≡ ends → ltb q ends ≡ false
      outside q e = ground arith
  walks (suc fuel) name p (f ∷ fs) room lt l = elim (Bool-cases (is_dir f)) [
    | inl dir ↦ walk_dir fuel name p f fs (walks fuel) room (omega arith) l dir
    | inr plain ↦ walk_file fuel name p f fs (walks fuel) room (omega arith) l plain
  ]

-- On an archive of fewer than 2 ^ 63 bytes whose files have terminated names and sizes that fit an int, with a
-- checker that decides `fits` on terminated texts, a name that is not empty and has room in the local array,
-- and fuel above the number of files, traverse_tarfs returns: with the address and the type of the first file
-- that fits the name, which for a directory is the name with a slash at its end, or with NULL.
pub traverse_tarfs-first_hit :
    (header : ℕ → PosixHeaderUstar) (ends : ℕ) (checker : Checker) (fits : List ℕ → List ℕ → Bool)
    (t x name : List ℕ) (fuel p : ℕ) (fs : List File)
    → Judges checker fits
    → IsText t
    → 1 ≤ length t
    → ends < 2 ^ 63
    → length t + 1 < length name
    → length fs < fuel
    → Laid header ends p fs
    → traverse_tarfs header ends fuel name (t ++ 0 ∷ x) p checker ≡ some (first_hit fits t p fs)
unfolding traverse_tarfs
traverse_tarfs-first_hit header ends checker fits t x name fuel p fs judges h some_text fit room lt
      l =
    rw (strlen-length t x h)
      (walks header ends checker fits judges t x h some_text fit fuel name p fs room lt l)
