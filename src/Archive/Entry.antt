-- ===== src/Archive/Entry.antt =====
-- The entry that tarfs_open of sys/tarfs.c writes for a file of the archive.
use mathlib.Core.List.{append_assoc}
use plum_os.Prelude.{
  length-append, ℕ, suc, ◌+◌, ◌<◌, ◌≤◌, ◌≡◌, refl, Bool, true, false, Option, some, List, [], ◌∷◌,
  ◌++◌, ◌==◌, if◌then◌else◌, length, drop, arith, ap, ◌∙◌, sym, if_both, Bool-cases, inl, inr,
}
use plum_os.Prelude.Partial.{◌>>=◌}
use plum_os.Strings.{set_at}
use plum_os.Strings.Compare.{IsText, strlen-length}
use plum_os.Shell.Variables.{strncpy_whole, set_at-append}
use plum_os.Shell.Lookup.{IsString}
use plum_os.Archive.{PosixHeaderUstar, get_filesz}
use plum_os.Archive.Traverse.{ft_dir, ft_file, slash}
use plum_os.Archive.Name.{with_slash, with_slash-IsText, byte_at-last_byte, last_byte}
use plum_os.Archive.Open.{TarfsFile, slash_ended, found_entry, round_size}

put_slash :
    (t r : List ℕ) (c d : ℕ)
    → (do a ← set_at (t ++ c ∷ d ∷ r) (length t) slash; set_at a (length t + 1) 0)
      ≡ some ((t ++ slash ∷ []) ++ 0 ∷ r)
put_slash t r c d = rw (set_at-append t (d ∷ r) c slash) (
    ap (λ z. set_at z (length t + 1) 0) (sym (append_assoc t (slash ∷ []) (d ∷ r)))
    ∙ ap (λ z. set_at ((t ++ slash ∷ []) ++ (d ∷ r)) z 0) (sym (length-append t (slash ∷ [])))
    ∙ set_at-append (t ++ slash ∷ []) r d 0)

abbrev Terminated : List ℕ → Option (List ℕ) → Type 0
Terminated t o = (y : List ℕ) × (o ≡ some (t ++ 0 ∷ y))

either_end :
    (b : Bool) (u v : List ℕ) (o p : Option (List ℕ))
    → Terminated u o
    → Terminated v p
    → Terminated (if b then u else v) (if b then o else p)
either_end true u v o p h k = h
either_end false u v o p h k = k

slash_put :
    (t y : List ℕ)
    → 1 ≤ length y
    → Terminated
        (t ++ slash ∷ [])
        (do a ← set_at (t ++ 0 ∷ y) (length t) slash; set_at a (length t + 1) 0)
slash_put t [] h = absurd (omega arith)
slash_put t (d ∷ r) h = (r, put_slash t r 0 d)

slash_ended-with_slash :
    (c : ℕ) (t y : List ℕ)
    → IsText (c ∷ t)
    → 1 ≤ length y
    → Terminated (with_slash (c ∷ t)) (slash_ended ((c ∷ t) ++ 0 ∷ y))
unfolding slash_ended
slash_ended-with_slash c t y h room =
    rw (strlen-length (c ∷ t) y h, byte_at-last_byte c t (0 ∷ y))
      (either_end (last_byte c t == slash) (c ∷ t) ((c ∷ t) ++ slash ∷ []) _ _ (y, refl)
        (slash_put (c ∷ t) y room))

-- What the entry says of a file of type ty at p
pub record IsEntry (p ty : ℕ) (t : List ℕ) (n : ℕ) (old e : TarfsFile) : Type 0 where
  pub in_use : e.free_flag ≡ 1
  pub typed : e.type ≡ (if ty == ft_dir then ft_dir else ft_file)
  pub starts_at : e.start_addr ≡ p + 512
  pub named : IsString e.name (if ty == ft_dir then with_slash t else t)
  pub sized : e.size ≡ (if ty == ft_dir then old.size else round_size n)
  pub position : e.pos ≡ old.pos

length-with_slash : (t : List ℕ) → length (with_slash t) ≤ length t + 1
length-with_slash [] = omega arith
length-with_slash (c ∷ t) =
    if_both (λ z. length z ≤ length (c ∷ t) + 1) (last_byte c t == slash) (λ e. omega arith)
      (λ e. omega (arith, length-append (c ∷ t) (slash ∷ [])))

pub found_entry-IsEntry :
    (h : PosixHeaderUstar) (p ty n c : ℕ) (t y : List ℕ) (f : TarfsFile)
    → IsText (c ∷ t)
    → 1 ≤ length y
    → length (c ∷ t) + 1 < length f.name
    → get_filesz h ≡ some n
    → (e : TarfsFile) × (found_entry h p ty ((c ∷ t) ++ 0 ∷ y) f ≡ some e)
      × IsEntry p ty (c ∷ t) n f e
      × (e.mode ≡ f.mode)
unfolding found_entry
found_entry-IsEntry h p ty n c t y f text room fit sized = elim (Bool-cases (ty == ft_dir)) [
  | inl dir ↦
      let d = slash_ended-with_slash c t y text room in
      let w = with_slash-IsText (c ∷ t) text in
      (
        record f {
          free_flag = 1;
          start_addr = p + 512;
          name = with_slash (c ∷ t) ++ 0 ∷ drop (suc (length (with_slash (c ∷ t)))) f.name;
          type = ft_dir;
        },
        rw
            (
              dir,
              d.1,
              strlen-length (with_slash (c ∷ t)) d.0 w,
              strncpy_whole (with_slash (c ∷ t)) d.0 f.name w
                  (omega (arith, fit, length-with_slash (c ∷ t))),
            )
            refl,
        record {
          in_use = refl;
          typed = rw dir refl;
          starts_at = refl;
          named = rw dir (w, (drop (suc (length (with_slash (c ∷ t)))) f.name, refl));
          sized = rw dir refl;
          position = refl;
        },
        refl,
      )
  | inr plain ↦ (
    record f {
      free_flag = 1;
      start_addr = p + 512;
      name = (c ∷ t) ++ 0 ∷ drop (suc (length (c ∷ t))) f.name;
      type = ft_file;
      size = round_size n;
    },
    rw
        (
          plain,
          strlen-length (c ∷ t) y text,
          strncpy_whole (c ∷ t) y f.name text (omega (arith, fit)),
          sized,
        )
        refl,
    record {
      in_use = refl;
      typed = rw plain refl;
      starts_at = refl;
      named = rw plain (text, (drop (suc (length (c ∷ t))) f.name, refl));
      sized = rw plain refl;
      position = refl;
    },
    refl,
  )
]
