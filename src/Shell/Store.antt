-- ===== src/Shell/Store.antt =====
-- set_var of libc/shlib.c, followed by get_var.
use plum_os.Prelude.{
  ℕ, suc, ◌+◌, ◌<◌, ◌≡◌, refl, Option, some, List, [], ◌∷◌, ◌++◌, if◌then◌else◌, length, drop,
  arith, ap, ◌∙◌, sym, subst, if_both, some_inj,
}
use plum_os.Strings.Compare.{IsText}
use plum_os.Shell.{VarList, get_var, set_var}
use plum_os.Shell.Prefix.{has_prefix}
use plum_os.Shell.Lookup.{Vars, find_index, IsSlot, assigned}
use plum_os.Shell.Answers.{
  value_of, get_var-looked_up, set_var-assigned, looked_up-assigned, prefix_itself,
}

find_index-assigned :
    (name value : List ℕ) (ts : List (List ℕ))
    → find_index name (assigned name (name ++ value) ts) ≡ find_index name ts
find_index-assigned name value [] = rw (prefix_itself name value) refl
find_index-assigned name value (t ∷ ts) =
    if_both (λ z. find_index name z ≡ (if has_prefix name t then 0 else suc (find_index name ts)))
      (has_prefix name t) (λ fit. rw (prefix_itself name value, fit) refl)
      (λ unfit. rw (unfit, find_index-assigned name value ts) refl)

-- After set_var of a name and a value that have room, in the block and among the first 8 slots of the list,
-- get_var of the name gives the value, terminated.
pub get_var-set_var :
    (entry buf name x value y : List ℕ) (vars : VarList) (ts : List (List ℕ))
    → IsText name
    → IsText value
    → length name + length value < 2048
    → length entry ≡ 2048
    → length buf ≡ 2048
    → Vars vars ts
    → find_index name ts < length vars
    → find_index name ts < 8
    → (after : VarList) × (set_var entry vars (name ++ 0 ∷ x) (value ++ 0 ∷ y) ≡ some after)
      × ((r : Option (List ℕ)) × (get_var buf (some after) (name ++ 0 ∷ x) ≡ some r)
          × IsSlot r (some value))
get_var-set_var entry buf name x value y vars ts h k fit room room2 v inside bounded =
    let s = set_var-assigned entry name x value y vars ts h k fit room v inside bounded in
    let same = find_index-assigned name value ts in
    let g =
      get_var-looked_up buf name x s.0 (assigned name (name ++ value) ts) h (omega arith) room2 s.2
        (omega (arith, same, s.3)) (omega (arith, same))
        (λ t e. short t (ap (value_of name) (sym e) ∙ looked_up-assigned name value ts)) in
    (s.0, s.1, (g.0, g.1, subst (IsSlot g.0) (looked_up-assigned name value ts) g.2))
  where
    short :
        (t : List ℕ)
        → some (drop (length name) t) ≡ some value
        → length (drop (length name) t) < 2048
    short t e = omega (arith, ap length (some_inj e))
