-- ===== src/Shell/Lookup.antt =====
-- The list of variables as texts, and how libc/shlib.c searches it.
use plum_os.Prelude.{
  ℕ, zero, suc, ◌<◌, ◌≤◌, ◌≡◌, refl, ◌⊎◌, inl, inr, Bool, true, false, Option, none, some, List, [],
  ◌∷◌, ◌++◌, if◌then◌else◌, length, arith, ap, sym, subst, Bool-cases, min,
}
use plum_os.Prelude.Int.{ℤ}
use plum_os.Prelude.Partial.{◌>>=◌}
use plum_os.Strings.{strncmp}
use plum_os.Strings.Compare.{IsText}
use plum_os.Shell.{VarList, is_zero, find_var, slot, set_slot}
use plum_os.Shell.Prefix.{has_prefix, Tells, strncmp-has_prefix}

-- b is the text t with a NUL behind it.
abbrev pub IsString : List ℕ → List ℕ → Type 0
IsString b t = IsText t × ((x : List ℕ) × (b ≡ t ++ 0 ∷ x))

-- The slots hold the texts ts, and NULL behind them.
abbrev pub Vars : VarList → List (List ℕ) → Type 0
Vars [] ts = ts ≡ []
Vars (none ∷ vars) ts = (ts ≡ []) × Vars vars []
Vars (some b ∷ vars) [] = ⊥
Vars (some b ∷ vars) (t ∷ ts) = IsString b t × Vars vars ts

-- The first text that begins with the name; the number of texts, if none does
abbrev pub find_index : List ℕ → List (List ℕ) → ℕ
find_index name [] = 0
find_index name (t ∷ ts) = if has_prefix name t then 0 else suc (find_index name ts)

pub strncmp_found :
    (name x b t : List ℕ)
    → IsText name
    → IsString b t
    → (z : ℤ) × (strncmp (some (name ++ 0 ∷ x)) (some b) (length name) ≡ some z)
      × (is_zero z ≡ has_prefix name t)
strncmp_found name x b t h (l, (y, e)) =
    subst
      (λ w.
        (z : ℤ) × (strncmp (some (name ++ 0 ∷ x)) (some w) (length name) ≡ some z)
        × (is_zero z ≡ has_prefix name t))
      (sym e)
      (given (strncmp (some (name ++ 0 ∷ x)) (some (t ++ 0 ∷ y)) (length name))
        (strncmp-has_prefix name t x y h l))
  where
    given :
        (o : Option ℤ)
        → Tells (has_prefix name t) o
        → (z : ℤ) × (o ≡ some z) × (is_zero z ≡ has_prefix name t)
    given none k = absurd k
    given (some z) k = (z, refl, k)

room_behind :
    (p : Bool) {left i n : ℕ}
    → p ≡ false
    → ((if p then 0 else suc i) < suc n) ⊎ (suc left ≤ (if p then 0 else suc i))
    → (i < n) ⊎ (left ≤ i)
room_behind p unfit h = ground arith

index_behind : (p : Bool) {i n : ℕ} → p ≡ false → (if p then 0 else suc i) < suc n → i < n
index_behind p unfit h = ground arith

picked :
    (p : Bool) (left i : ℕ) (o : Option ℕ)
    → (p ≡ false → o ≡ some (min left i))
    → (if p then some 0 else o >>= λ j. some (suc j))
      ≡ some (min (suc left) (if p then 0 else suc i))
picked true left i o h = ap some (omega arith)
picked false left i o h = rw (h refl) (ap some (omega arith))

pub find_var-find_index :
    (left : ℕ) (vars : VarList) (ts : List (List ℕ)) (name x : List ℕ)
    → IsText name
    → Vars vars ts
    → (find_index name ts < length vars) ⊎ (left ≤ find_index name ts)
    → find_var left vars (name ++ 0 ∷ x) (length name) ≡ some (min left (find_index name ts))
unfolding find_var
find_var-find_index zero vars ts name x h v room = ap some (omega arith)
find_var-find_index (suc left) [] ts name x h v room =
    absurd (grind (arith, ap (find_index name) v))
find_var-find_index (suc left) (none ∷ vars) ts name x h v room = rw v.0 (ap some (omega arith))
find_var-find_index (suc left) (some b ∷ vars) [] name x h v room = absurd v
find_var-find_index (suc left) (some b ∷ vars) (t ∷ ts) name x h v room =
    let s = strncmp_found name x b t h v.0 in
    rw (s.1, s.2)
      (picked (has_prefix name t) left (find_index name ts)
        (find_var left vars (name ++ 0 ∷ x) (length name))
        λ unfit.
          find_var-find_index left vars ts name x h v.1
            (room_behind (has_prefix name t) unfit room))

-- The text that find_index points at
abbrev pub found_text : List ℕ → List (List ℕ) → Option (List ℕ)
found_text name [] = none
found_text name (t ∷ ts) = if has_prefix name t then some t else found_text name ts

abbrev pub IsSlot : Option (List ℕ) → Option (List ℕ) → Type 0
IsSlot none none = Unit {0}
IsSlot none (some t) = ⊥
IsSlot (some b) none = ⊥
IsSlot (some b) (some t) = IsString b t

abbrev pub SlotIs : VarList → ℕ → Option (List ℕ) → Type 0
SlotIs vars i o = (v : Option (List ℕ)) × (slot vars i ≡ some v) × IsSlot v o

slot_behind :
    (b : Option (List ℕ)) (vars : VarList) (i : ℕ) (o : Option (List ℕ))
    → SlotIs vars i o
    → SlotIs (b ∷ vars) (suc i) o
unfolding slot
slot_behind b vars i o h = h

pub slot-found_text :
    (vars : VarList) (ts : List (List ℕ)) (name : List ℕ)
    → Vars vars ts
    → find_index name ts < length vars
    → SlotIs vars (find_index name ts) (found_text name ts)
unfolding slot
slot-found_text [] ts name v room = absurd (omega arith)
slot-found_text (none ∷ vars) ts name v room = rw v.0 (none, refl, tt)
slot-found_text (some b ∷ vars) [] name v room = absurd v
slot-found_text (some b ∷ vars) (t ∷ ts) name v room = elim (Bool-cases (has_prefix name t)) [
  | inl fit ↦ rw fit (some b, refl, v.0)
  | inr unfit ↦ rw unfit (
      slot_behind (some b) vars (find_index name ts) (found_text name ts)
        (slot-found_text vars ts name v.1 (index_behind (has_prefix name t) unfit room)))
]

-- The texts after the first one that begins with the name became e, or e came behind them
abbrev pub assigned : List ℕ → List ℕ → List (List ℕ) → List (List ℕ)
assigned name e [] = e ∷ []
assigned name e (t ∷ ts) = if has_prefix name t then e ∷ ts else t ∷ assigned name e ts

abbrev pub SetTo : VarList → ℕ → List ℕ → List (List ℕ) → Type 0
SetTo vars i b ts =
    (after : VarList) × (set_slot vars i b ≡ some after)
    × Vars after ts
    × (length after ≡ length vars)

set_behind :
    (d b t : List ℕ) (vars : VarList) (i : ℕ) (ts : List (List ℕ))
    → IsString d t
    → SetTo vars i b ts
    → SetTo (some d ∷ vars) (suc i) b (t ∷ ts)
unfolding set_slot
set_behind d b t vars i ts h (after, e, v, n) =
    (some d ∷ after, rw e refl, (h, v), omega (arith, n))

pub set_slot-assigned :
    (vars : VarList) (ts : List (List ℕ)) (name b e : List ℕ)
    → Vars vars ts
    → find_index name ts < length vars
    → IsString b e
    → SetTo vars (find_index name ts) b (assigned name e ts)
unfolding set_slot
set_slot-assigned [] ts name b e v room h = absurd (omega arith)
set_slot-assigned (none ∷ vars) ts name b e v room h = rw v.0 (some b ∷ vars, refl, (h, v.1), refl)
set_slot-assigned (some d ∷ vars) [] name b e v room h = absurd v
set_slot-assigned (some d ∷ vars) (t ∷ ts) name b e v room h =
    elim (Bool-cases (has_prefix name t)) [
      | inl fit ↦ rw fit (some b ∷ vars, refl, (h, v.1), refl)
      | inr unfit ↦ rw unfit (
          set_behind d b t vars (find_index name ts) (assigned name e ts) v.0 (
            set_slot-assigned vars ts name b e v.1 (index_behind (has_prefix name t) unfit room) h))
    ]
