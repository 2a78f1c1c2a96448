-- ===== src/Archive/Up.antt =====
-- How chdir of sys/syscall.c goes up from a directory: go_up on a name that ends with "/..".
use mathlib.Core.List.{append_assoc}
use plum_os.Prelude.{
  ℕ, zero, suc, ◌+◌, ◌-◌, ◌≡◌, refl, true, false, Option, none, some, List, [], ◌∷◌, ◌++◌, ◌==◌,
  length, drop, arith, ap, ◌∙◌, sym, subst, length-append, leb,
}
use plum_os.Prelude.Partial.{◌>>=◌}
use plum_os.Strings.{strlen, set_at}
use plum_os.Strings.Compare.{IsText, strlen-length}
use plum_os.Shell.Variables.{set_at-append, IsText-append}
use plum_os.Archive.Traverse.{slash, byte_at}
use plum_os.Archive.Calls.{dot, skip_back, last_slash, ends_with_up, cut_behind, go_up}

abbrev pub NoSlash : List ℕ → Type 0
NoSlash [] = Unit
NoSlash (c ∷ t) = ((c == slash) ≡ false) × NoSlash t

-- What stands from n on
byte_at-drop :
    (s : List ℕ) (n d : ℕ) (r : List ℕ)
    → drop n s ≡ d ∷ r
    → (byte_at s n ≡ some d) × (drop (suc n) s ≡ r)
unfolding byte_at
byte_at-drop [] zero d r e = cc
byte_at-drop [] (suc n) d r e = cc
byte_at-drop (c ∷ s) zero d r e = (ap first e, ap rest e)
  where
    first : List ℕ → Option ℕ
    first [] = none
    first (x ∷ t) = some x

    rest : List ℕ → List ℕ
    rest [] = []
    rest (x ∷ t) = t
byte_at-drop (c ∷ s) (suc n) d r e = byte_at-drop s n d r e

drop_past : (s : List ℕ) (n : ℕ) (b w : List ℕ) → drop n s ≡ b ++ w → drop (n + length b) s ≡ w
drop_past s n [] w e = subst (λ k. drop k s ≡ w) (omega arith) e
drop_past s n (d ∷ b) w e =
    subst (λ k. drop k s ≡ w) (omega arith)
      (drop_past s (suc n) b w (byte_at-drop s n d (b ++ w) e).1)

drop_front : (a w : List ℕ) → drop (length a) (a ++ w) ≡ w
drop_front [] w = refl
drop_front (c ∷ a) w = drop_front a w

skip_back_here :
    (s : List ℕ) (n c : ℕ) → byte_at s n ≡ some c → (c == slash) ≡ false → skip_back s n ≡ some n
unfolding skip_back
skip_back_here s zero c e h = rw (e, h) refl
skip_back_here s (suc n) c e h = rw (e, h) refl

skip_back_from :
    (s : List ℕ) (n c : ℕ) (b w : List ℕ)
    → drop n s ≡ c ∷ (b ++ w)
    → NoSlash (c ∷ b)
    → skip_back s (n + length b) ≡ some (n + length b)
skip_back_from s n c [] w e h =
    subst (λ k. skip_back s k ≡ some k) (omega arith)
      (skip_back_here s n c (byte_at-drop s n c w e).0 h.0)
skip_back_from s n c (d ∷ b) w e h =
    subst (λ k. skip_back s k ≡ some k) (omega arith)
      (skip_back_from s (suc n) d b w (byte_at-drop s n c (d ∷ (b ++ w)) e).1 h.1)

last_slash_here : (s : List ℕ) (n : ℕ) → byte_at s n ≡ some slash → last_slash s n ≡ some (some n)
unfolding last_slash
last_slash_here s zero e = rw e refl
last_slash_here s (suc n) e = rw e refl

last_slash_from :
    (s : List ℕ) (n m : ℕ) (b w : List ℕ)
    → drop (suc n) s ≡ b ++ w
    → NoSlash b
    → last_slash s n ≡ some (some m)
    → last_slash s (n + length b) ≡ some (some m)
unfolding last_slash
last_slash_from s n m [] w e h l = subst (λ k. last_slash s k ≡ some (some m)) (omega arith) l
last_slash_from s n m (d ∷ b) w e h l =
    let next = byte_at-drop s (suc n) d (b ++ w) e in
    subst (λ k. last_slash s k ≡ some (some m)) (omega arith)
      (last_slash_from s (suc n) m b w next.1 h.1 (rw (next.0, h.0) l))

abbrev up : List ℕ
up = slash ∷ dot ∷ dot ∷ []

-- The array with the name: a, a slash, b, and "/.."
abbrev pub below_it : List ℕ → List ℕ → List ℕ → List ℕ
below_it a b x = a ++ slash ∷ (b ++ slash ∷ dot ∷ dot ∷ 0 ∷ x)

up-IsText : IsText up
up-IsText = ((λ e. absurd (omega (arith, e))), omega arith, dots)
  where
    dots : IsText (dot ∷ dot ∷ [])
    dots = (
      (λ e. absurd (omega (arith, e))),
      omega arith,
      ((λ e. absurd (omega (arith, e))), omega arith, tt),
    )

name-IsText : (a b : List ℕ) → IsText a → IsText b → IsText (a ++ slash ∷ (b ++ up))
name-IsText a b h k =
    IsText-append a (slash ∷ (b ++ up)) h
      ((λ e. absurd (omega (arith, e))), omega arith, IsText-append b up k up-IsText)

strlen-below_it :
    (a b x : List ℕ)
    → IsText a
    → IsText b
    → strlen (below_it a b x) ≡ some (length a + length b + 4)
strlen-below_it a b x h k =
    ap strlen (sym whole)
    ∙ strlen-length (a ++ slash ∷ (b ++ up)) x (name-IsText a b h k)
    ∙ ap some (omega (arith, length-append a (slash ∷ (b ++ up)), length-append b up))
  where
    whole : (a ++ slash ∷ (b ++ up)) ++ 0 ∷ x ≡ below_it a b x
    whole =
        append_assoc a (slash ∷ (b ++ up)) (0 ∷ x)
        ∙ ap (λ z. a ++ slash ∷ z) (append_assoc b up (0 ∷ x))

ends_with_up-below_it :
    (s : List ℕ) (n : ℕ) (x : List ℕ)
    → drop n s ≡ slash ∷ dot ∷ dot ∷ 0 ∷ x
    → ends_with_up s (n + 3) ≡ some true
unfolding ends_with_up
ends_with_up-below_it s n x e =
    let p = byte_at-drop s n slash (dot ∷ dot ∷ 0 ∷ x) e in
    let q = byte_at-drop s (suc n) dot (dot ∷ 0 ∷ x) p.1 in
    let r = byte_at-drop s (suc (suc n)) dot (0 ∷ x) q.1 in
    let i1 : n + 3 - 1 ≡ suc (suc n) = omega arith in
    let i2 : n + 3 - 2 ≡ suc n = omega arith in
    let i3 : n + 3 - 3 ≡ n = omega arith in
    let big : leb 3 (n + 3) ≡ true = ground arith in rw (big, i1, i2, i3, p.0, q.0, r.0) refl

-- Where n is the slash in front of b: the two loops stop at it.
found_slash :
    (s : List ℕ) (n c : ℕ) (b x : List ℕ)
    → drop n s ≡ slash ∷ c ∷ (b ++ slash ∷ dot ∷ dot ∷ 0 ∷ x)
    → NoSlash (c ∷ b)
    → (do i ← skip_back s (n + length (c ∷ b) + 1); j ← last_slash s i; cut_behind s j)
      ≡ cut_behind s (some n)
unfolding skip_back
found_slash s n c b x e h =
    let p = byte_at-drop s n slash (c ∷ (b ++ slash ∷ dot ∷ dot ∷ 0 ∷ x)) e in
    let end = drop_past s (suc n) (c ∷ b) (slash ∷ dot ∷ dot ∷ 0 ∷ x) p.1 in
    let here = byte_at-drop s (suc n + length (c ∷ b)) slash (dot ∷ dot ∷ 0 ∷ x) end in
    let back = skip_back_from s (suc n) c b (slash ∷ dot ∷ dot ∷ 0 ∷ x) p.1 h in
    let at : n + length (c ∷ b) + 1 ≡ suc (suc n + length b) = omega arith in
    let same : suc n + length (c ∷ b) ≡ suc (suc n + length b) = omega arith in
    let byte : byte_at s (suc (suc n + length b)) ≡ some slash =
      subst (λ k. byte_at s k ≡ some slash) same here.0 in
    let last : last_slash s (suc n + length b) ≡ some (some n) =
      subst (λ k. last_slash s k ≡ some (some n)) (omega arith)
        (last_slash_from s n n (c ∷ b) (slash ∷ dot ∷ dot ∷ 0 ∷ x) p.1 h
          (last_slash_here s n p.0)) in
    rw at (rw (byte, back) (rw last refl))

-- When the name that chdir gets ends with a slash, a part without slashes that is not empty, and "/..", it is
-- cut behind that slash: what is in front of the part stays, with its slash, and nothing else.
pub go_up-parent :
    (a b x : List ℕ) (c : ℕ)
    → IsText a
    → IsText (c ∷ b)
    → NoSlash (c ∷ b)
    → go_up (below_it a (c ∷ b) x) ≡ some (a ++ slash ∷ 0 ∷ (b ++ slash ∷ dot ∷ dot ∷ 0 ∷ x))
unfolding go_up cut_behind
go_up-parent a b x c h k plain =
    let s = below_it a (c ∷ b) x in
    let w = b ++ slash ∷ dot ∷ dot ∷ 0 ∷ x in
    let front = drop_front a (slash ∷ c ∷ w) in
    let end =
      drop_past s (suc (length a)) (c ∷ b) (slash ∷ dot ∷ dot ∷ 0 ∷ x)
        (byte_at-drop s (length a) slash (c ∷ w) front).1 in
    let len : length a + length (c ∷ b) + 4 ≡ suc (length a) + length (c ∷ b) + 3 = omega arith in
    let less : suc (length a) + length (c ∷ b) + 3 - 3 ≡ length a + length (c ∷ b) + 1 =
      omega arith in
    rw
      (
        strlen-below_it a (c ∷ b) x h k,
        len,
        ends_with_up-below_it s (suc (length a) + length (c ∷ b)) x end,
        less,
        found_slash s (length a) c b x front plain,
      )
      (set_behind a c w)
  where
    set_behind :
        (a : List ℕ) (c : ℕ) (w : List ℕ)
        → set_at (a ++ slash ∷ c ∷ w) (length a + 1) 0 ≡ some (a ++ slash ∷ 0 ∷ w)
    set_behind a c w =
        ap (λ z. set_at z (length a + 1) 0) (sym (append_assoc a (slash ∷ []) (c ∷ w)))
        ∙ ap (λ z. set_at ((a ++ slash ∷ []) ++ c ∷ w) z 0) (sym (length-append a (slash ∷ [])))
        ∙ set_at-append (a ++ slash ∷ []) w c 0
        ∙ ap some (append_assoc a (slash ∷ []) (0 ∷ w))
