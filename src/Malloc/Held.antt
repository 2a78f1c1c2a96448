-- ===== src/Malloc/Held.antt =====
-- The abstract view of the heap of libc/malloc.c: how many bytes the program holds at each offset.
use plum_os.Prelude.{
  ℕ, ◌+◌, ◌-◌, ◌≤◌, ◌≡◌, ◌≢◌, refl, sym, ap, ◌∙◌, Bool, true, false, List, [], ◌∷◌, ◌++◌, ◌==◌, ltb,
  if◌then◌else◌, arith, if_both, inl, inr, ◌⊎◌,
}
use plum_os.Kernel.{Ptr}
use plum_os.Malloc.{Words}
use plum_os.Malloc.Blocks.{Block, size_of, total, Blocks}
use plum_os.Malloc.Coalesce.{merge}
use plum_os.Malloc.Join.{absorb, join}
use plum_os.Malloc.Grow.{grown, behind}

-- The size of the block that starts o bytes behind the first one, if it is in use; else 0.
abbrev pub held : List Block → ℕ → ℕ
held [] o = 0
held (b ∷ bs) o =
    let rest = held bs (o - size_of b) in
    if o == 0 then (if b.used then size_of b else 0) else if ltb o (size_of b) then 0 else rest

pub held_alike :
    (xs ys zs : List Block)
    → ((o : ℕ) → held ys o ≡ held zs o)
    → (o : ℕ) → held (xs ++ ys) o ≡ held (xs ++ zs) o
held_alike [] ys zs h o = h o
held_alike (x ∷ xs) ys zs h o = rw (held_alike xs ys zs h (o - size_of x)) refl

held-merge :
    (a b : Block) (rest : List Block) (o : ℕ)
    → a.used ≡ false
    → b.used ≡ false
    → 1 ≤ b.units
    → held (merge a b ∷ rest) o ≡ held (a ∷ (b ∷ rest)) o
held-merge a b rest o af bf units = rw (af, bf, minus) (ground arith)
  where
    minus : o - size_of (merge a b) ≡ o - size_of a - size_of b
    minus = omega arith

-- Every block has a size.
abbrev pub AllSized : List Block → Type 0
AllSized [] = Unit {0}
AllSized (b ∷ bs) = (1 ≤ b.units) × AllSized bs

pub Blocks-AllSized : (w : Words) (p : Ptr) (bs : List Block) → Blocks w p bs → AllSized bs
Blocks-AllSized w p [] h = tt
Blocks-AllSized w p (b ∷ bs) h = (h.2, Blocks-AllSized w (p + size_of b) bs h.3)

-- b with another status
abbrev pub marked : Bool → Block → Block
marked f b = record b { used = f }

pub held-marked :
    (f : Bool) (xs ys : List Block) (b : Block) (o : ℕ)
    → AllSized (xs ++ (b ∷ ys))
    → held (xs ++ (marked f b ∷ ys)) o
      ≡ (if o == total xs then (if f then size_of b else 0) else held (xs ++ (b ∷ ys)) o)
held-marked f [] ys b o h = ground arith
held-marked f (x ∷ xs) ys b o (units, h) = ground (arith, held-marked f xs ys b (o - size_of x) h)

pub held-absorb :
    (b : Block) (rest : List Block)
    → b.used ≡ false
    → AllSized rest
    → (o : ℕ) → held (absorb b rest) o ≡ held (b ∷ rest) o
held-absorb b [] bf h o = refl
held-absorb b (n ∷ r) bf h o =
    if_both (λ z. held z o ≡ held (b ∷ (n ∷ r)) o) n.used (λ nu. refl)
      (λ nf. held-merge b n r o bf nf h.0)

-- Joining free blocks changes nothing for the program.
pub held-join :
    (xs ys : List Block) (p b : Block)
    → b.used ≡ false
    → AllSized (b ∷ ys)
    → (o : ℕ) → held (xs ++ join p b ys) o ≡ held (xs ++ (p ∷ (b ∷ ys))) o
held-join xs ys p b bf (units, h) = held_alike xs (join p b ys) (p ∷ (b ∷ ys)) λ o.
    if_both (λ z. held z o ≡ held (p ∷ (b ∷ ys)) o) p.used
      (λ pu. held_alike (p ∷ []) (absorb b ys) (b ∷ ys) (held-absorb b ys bf h) o)
      (λ pf. held-absorb (merge p b) ys refl h o ∙ held-merge p b ys o pf bf units)

held_free : (b : Block) (o : ℕ) → b.used ≡ false → held (b ∷ []) o ≡ 0
held_free b o bf = rw bf (ground arith)

held_behind :
    (f : Bool) (x b : Block) (o : ℕ)
    → x.used ≡ f
    → b.used ≡ false
    → 1 ≤ b.units
    → held ((behind f x b).0 ++ ((behind f x b).1 ∷ [])) o ≡ held (x ∷ []) o
held_behind true x b o e bf units = held_alike (x ∷ []) (b ∷ []) [] (λ i. held_free b i bf) o
held_behind false x b o e bf units =
    held-merge x b [] o e bf units ∙ held_alike (x ∷ []) (b ∷ []) [] (λ i. held_free b i bf) o

pub held-grown :
    (bs : List Block) (b : Block)
    → b.used ≡ false
    → 1 ≤ b.units
    → (o : ℕ) → held ((grown bs b).0 ++ ((grown bs b).1 ∷ [])) o ≡ held bs o
held-grown [] b bf units o = held_free b o bf
held-grown (x ∷ []) b bf units o = held_behind x.used x b o refl bf units
held-grown (x ∷ (y ∷ r)) b bf units o =
    held_alike (x ∷ []) ((grown (y ∷ r) b).0 ++ ((grown (y ∷ r) b).1 ∷ [])) (y ∷ r)
      (held-grown (y ∷ r) b bf units) o

-- The block in use at an offset
pub record Holds (bs : List Block) (o : ℕ) : Type 0 where
  pub xs : List Block
  pub b : Block
  pub ys : List Block
  pub parts : bs ≡ xs ++ (b ∷ ys)
  pub at_offset : total xs ≡ o
  pub is_used : b.used ≡ true

first_or_not :
    (u : Bool) (o n rest : ℕ)
    → (if o == 0 then (if u then n else 0) else if ltb o n then 0 else rest) ≢ 0
    → ((o ≡ 0) × (u ≡ true)) ⊎ ((n ≤ o) × (rest ≢ 0))
first_or_not u o n rest ne = grind arith

pub held-Holds : (bs : List Block) (o : ℕ) → held bs o ≢ 0 → Holds bs o
held-Holds [] o ne = absurd (ne refl)
held-Holds (b ∷ bs) o ne = elim (first_or_not b.used o (size_of b) (held bs (o - size_of b)) ne) [
  | inl h ↦ record { xs = []; b = b; ys = bs; parts = refl; at_offset = sym h.0; is_used = h.1 }
  | inr h ↦
      let r = held-Holds bs (o - size_of b) h.1 in
      record {
        xs = b ∷ r.xs;
        b = r.b;
        ys = r.ys;
        parts = ap (λ (z : List Block). b ∷ z) r.parts;
        at_offset = omega (arith, r.at_offset, h.0);
        is_used = r.is_used;
      }
]
