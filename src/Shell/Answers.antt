-- ===== src/Shell/Answers.antt =====
-- What get_var and set_var of libc/shlib.c mean for the shell.
use plum_os.Prelude.{
  ℕ, ◌+◌, ◌<◌, ◌≤◌, ◌≡◌, refl, inl, inr, Bool, true, false, ◌&&◌, Option, none, some, List, [], ◌∷◌,
  ◌++◌, ◌==◌, ==_ne, ==_iff, if◌then◌else◌, length, drop, arith, ap, ◌∙◌, sym, subst, Bool-cases,
  if_both, min, some_inj,
}
use plum_os.Strings.Compare.{IsText, strlen-length}
use plum_os.Shell.{VarList, find_var, slot, get_var, set_var}
use plum_os.Shell.Prefix.{has_prefix}
use plum_os.Shell.Lookup.{
  IsString, Vars, find_index, strncmp_found, find_var-find_index, found_text, IsSlot,
  slot-found_text, assigned, set_slot-assigned,
}
use plum_os.Shell.Variables.{make_entry-IsString, copy_value-IsString}

pub has_prefix-append : (t u : List ℕ) → has_prefix t u ≡ true → u ≡ t ++ drop (length t) u
has_prefix-append [] u e = refl
has_prefix-append (c ∷ t) [] e = cc
has_prefix-append (c ∷ t) (d ∷ u) e =
    let h : ((c == d) ≡ true) × (has_prefix t u ≡ true) = ground arith in
    ap (λ z. z ∷ u) (sym ((==_iff c d).0 h.0))
    ∙ ap (λ (z : List ℕ). c ∷ z) (has_prefix-append t u h.1)

pub IsText-behind : (t u : List ℕ) → IsText (t ++ u) → IsText u
IsText-behind [] u h = h
IsText-behind (c ∷ t) u h = IsText-behind t u h.2

found_text-has_prefix :
    (name : List ℕ) (ts : List (List ℕ)) (t : List ℕ)
    → found_text name ts ≡ some t
    → has_prefix name t ≡ true
found_text-has_prefix name [] t e = cc
found_text-has_prefix name (u ∷ ts) t e = elim (Bool-cases (has_prefix name u)) [
  | inl fit ↦ subst (λ z. has_prefix name z ≡ true) (some_inj (first fit)) fit
  | inr unfit ↦ found_text-has_prefix name ts t (later unfit)
]
  where
    first : has_prefix name u ≡ true → some u ≡ some t
    first fit = grind arith

    later : has_prefix name u ≡ false → found_text name ts ≡ some t
    later unfit = grind arith

-- The value of a variable: what stands behind its name in the first text that begins with it
abbrev pub value_of : List ℕ → Option (List ℕ) → Option (List ℕ)
value_of name none = none
value_of name (some t) = some (drop (length name) t)

abbrev pub looked_up : List ℕ → List (List ℕ) → Option (List ℕ)
looked_up name ts = value_of name (found_text name ts)

get_var-slot :
    (buf name x : List ℕ) (vars : VarList) (i : ℕ) (v o : Option (List ℕ))
    → IsText name
    → length name ≤ 2048
    → length buf ≡ 2048
    → find_var 256 vars (name ++ 0 ∷ x) (length name) ≡ some i
    → slot vars i ≡ some v
    → IsSlot v o
    → ((t : List ℕ)
        → o ≡ some t
        → (has_prefix name t ≡ true) × (length (drop (length name) t) < 2048))
    → (r : Option (List ℕ)) × (get_var buf (some vars) (name ++ 0 ∷ x) ≡ some r)
      × IsSlot r (value_of name o)
unfolding get_var
get_var-slot buf name x vars i none none h short room e s k fits =
    (none, rw (strlen-length name x h, whole, e, s) refl, tt)
  where
    whole : min (length name) 2048 ≡ length name
    whole = omega arith
get_var-slot buf name x vars i none (some t) h short room e s k fits = absurd k
get_var-slot buf name x vars i (some b) none h short room e s k fits = absurd k
get_var-slot buf name x vars i (some b) (some t) h short room e s k fits =
    let f = fits t refl in
    let parts = has_prefix-append name t f.0 in
    let z = strncmp_found name x b t h k in
    let c =
      copy_value-IsString name (drop (length name) t) b buf (subst (IsString b) parts k)
        (IsText-behind name (drop (length name) t) (subst IsText parts k.0)) f.1 room in
    (
      some c.0,
      rw (strlen-length name x h, whole, e, s) (rw (whole, z.1) (rw (z.2, f.0) (rw c.1 refl))),
      c.2,
    )
  where
    whole : min (length name) 2048 ≡ length name
    whole = omega arith

-- On a list of terminated texts with NULL behind them, get_var gives NULL when no text begins with the
-- name, and otherwise, terminated, what stands behind the name in the first one that does; provided that
-- the name has at most 2048 bytes, that value fewer, that the block for it has 2048, and that such a text or
-- a NULL stands within the list and within its first 256 slots.
pub get_var-looked_up :
    (buf name x : List ℕ) (vars : VarList) (ts : List (List ℕ))
    → IsText name
    → length name ≤ 2048
    → length buf ≡ 2048
    → Vars vars ts
    → find_index name ts < length vars
    → find_index name ts < 256
    → ((t : List ℕ) → found_text name ts ≡ some t → length (drop (length name) t) < 2048)
    → (r : Option (List ℕ)) × (get_var buf (some vars) (name ++ 0 ∷ x) ≡ some r)
      × IsSlot r (looked_up name ts)
get_var-looked_up buf name x vars ts h short room v inside bounded fits =
    let s = slot-found_text vars ts name v inside in
    get_var-slot buf name x vars (find_index name ts) s.0 (found_text name ts) h short room
      (find_var-find_index 256 vars ts name x h v (inl inside) ∙ ap some (omega arith)) s.1 s.2
      (λ t e. (found_text-has_prefix name ts t e, fits t e))

-- With room for the name and the value in the block of 2048 bytes, and with a slot for them among the
-- first 8, set_var puts them in place of the first text that begins with the name, or behind the texts.
pub set_var-assigned :
    (buf name x value y : List ℕ) (vars : VarList) (ts : List (List ℕ))
    → IsText name
    → IsText value
    → length name + length value < 2048
    → length buf ≡ 2048
    → Vars vars ts
    → find_index name ts < length vars
    → find_index name ts < 8
    → (after : VarList) × (set_var buf vars (name ++ 0 ∷ x) (value ++ 0 ∷ y) ≡ some after)
      × Vars after (assigned name (name ++ value) ts)
      × (length after ≡ length vars)
unfolding set_var
set_var-assigned buf name x value y vars ts h k fit room v inside bounded =
    let m = make_entry-IsString name value x y buf h k fit room in
    let s = set_slot-assigned vars ts name m.0 (name ++ value) v inside m.2 in
    (
      s.0,
      rw
          (
            m.1,
            strlen-length name x h,
            whole,
            find_var-find_index 8 vars ts name x h v (inl inside),
            at,
            ==_ne (find_index name ts) 8 (λ e. absurd (omega arith)),
          )
          s.1,
      s.2,
      s.3,
    )
  where
    whole : min (length name) 2047 ≡ length name
    whole = omega arith

    at : min 8 (find_index name ts) ≡ find_index name ts
    at = omega arith

-- When the first 8 slots hold other variables, set_var changes nothing.
pub set_var-full :
    (buf name x value y : List ℕ) (vars : VarList) (ts : List (List ℕ))
    → IsText name
    → IsText value
    → length name + length value < 2048
    → length buf ≡ 2048
    → Vars vars ts
    → 8 ≤ find_index name ts
    → set_var buf vars (name ++ 0 ∷ x) (value ++ 0 ∷ y) ≡ some vars
unfolding set_var
set_var-full buf name x value y vars ts h k fit room v full =
    rw
      (
        (make_entry-IsString name value x y buf h k fit room).1,
        strlen-length name x h,
        whole,
        find_var-find_index 8 vars ts name x h v (inr full),
        at,
      )
      refl
  where
    whole : min (length name) 2047 ≡ length name
    whole = omega arith

    at : min 8 (find_index name ts) ≡ 8
    at = omega arith

-- Neither name is a prefix of the other.
abbrev pub Apart : List ℕ → List ℕ → Type 0
Apart name other = (has_prefix name other ≡ false) × (has_prefix other name ≡ false)

apart_behind :
    (c d k : ℕ) (p q r : Bool)
    → (((c == d) && p) ≡ false) × (((d == c) && q) ≡ false)
    → ((c == k) && r) ≡ true
    → (d == k) ≡ true
    → (p ≡ false) × (q ≡ false)
apart_behind c d k p q r a e same = ground arith

-- What begins with two names makes one a prefix of the other.
Apart-has_prefix :
    (name other t : List ℕ)
    → Apart name other
    → has_prefix name t ≡ true
    → has_prefix other t ≡ false
Apart-has_prefix [] other t a e = cc
Apart-has_prefix (c ∷ name) [] t a e = cc
Apart-has_prefix (c ∷ name) (d ∷ other) [] a e = cc
Apart-has_prefix (c ∷ name) (d ∷ other) (k ∷ t) a e = elim (Bool-cases (d == k)) [
  | inl same ↦ rw same (
      Apart-has_prefix name other t
        (apart_behind c d k (has_prefix name other) (has_prefix other name) (has_prefix name t) a e
          same)
        (kept (c == k) (has_prefix name t) e))
  | inr ne ↦ rw ne refl
]
  where
    kept : (p q : Bool) → (p && q) ≡ true → q ≡ true
    kept p q h = ground arith

pub prefix_itself : (t u : List ℕ) → has_prefix t (t ++ u) ≡ true
prefix_itself [] u = refl
prefix_itself (c ∷ t) u = ground (arith, prefix_itself t u)

drop_itself : (t u : List ℕ) → drop (length t) (t ++ u) ≡ u
drop_itself [] u = refl
drop_itself (c ∷ t) u = drop_itself t u

-- After an assignment, a look-up of the name gives the value.
pub looked_up-assigned :
    (name value : List ℕ) (ts : List (List ℕ))
    → looked_up name (assigned name (name ++ value) ts) ≡ some value
looked_up-assigned name value [] = rw (prefix_itself name value) (ap some (drop_itself name value))
looked_up-assigned name value (t ∷ ts) =
    if_both (λ z. looked_up name z ≡ some value) (has_prefix name t)
      (λ fit. rw (prefix_itself name value) (ap some (drop_itself name value)))
      (λ unfit. rw unfit (looked_up-assigned name value ts))

-- A look-up of another name gives what it gave.
pub looked_up-assigned_other :
    (name other value : List ℕ) (ts : List (List ℕ))
    → Apart name other
    → looked_up other (assigned name (name ++ value) ts) ≡ looked_up other ts
looked_up-assigned_other name other value [] a =
    rw (Apart-has_prefix name other (name ++ value) a (prefix_itself name value)) refl
looked_up-assigned_other name other value (t ∷ ts) a =
    if_both (λ z. looked_up other z ≡ looked_up other (t ∷ ts)) (has_prefix name t)
      (λ fit.
        rw
          (
            Apart-has_prefix name other (name ++ value) a (prefix_itself name value),
            Apart-has_prefix name other t a fit,
          )
          refl)
      (λ unfit.
        if_both
          (λ z.
            value_of other z
            ≡ value_of other (if has_prefix other t then some t else found_text other ts))
          (has_prefix other t) (λ f. rw f refl)
          (λ f. rw f (looked_up-assigned_other name other value ts a)))
