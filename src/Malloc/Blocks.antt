-- ===== src/Malloc/Blocks.antt =====
-- The blocks of a heap as a list, and the words of libc/malloc.c that hold it.
use plum_os.Prelude.{
  ℕ, ◌+◌, ◌-◌, ◌*◌, ◌/◌, ◌^◌, ◌≤◌, ◌<◌, ◌≡◌, ◌≢◌, refl, ap, ◌∙◌, subst, Bool, List, [], ◌∷◌, ◌++◌,
  ==_ne, if◌then◌else◌, bit_and, arith,
}
use plum_os.Prelude.Bits.{and_high, and_low, or_flags}
use plum_os.Kernel.{Ptr}
use plum_os.Malloc.{Words, pack, put_word, get_size, get_alloc}

-- A block of `units` times 8 bytes, its header and footer among them.
pub record Block : Type 0 where
  pub units : ℕ
  pub used : Bool

abbrev pub size_of : Block → ℕ
size_of b = b.units * 8

abbrev pub flag_of : Block → ℕ
flag_of b = if b.used then 1 else 0

abbrev pub tag : Block → ℕ
tag b = size_of b + flag_of b

abbrev pub total : List Block → ℕ
total [] = 0
total (b ∷ bs) = size_of b + total bs

-- The blocks follow each other from p on, each with its tag in its header and in its footer.
abbrev pub Blocks : Words → Ptr → List Block → Type 0
Blocks w p [] = Unit {0}
Blocks w p (b ∷ bs) =
    (w (p - 4) ≡ tag b)
    × (w (p + size_of b - 8) ≡ tag b)
    × (1 ≤ b.units)
    × Blocks w (p + size_of b) bs

pub Blocks-agree :
    (w v : Words) (p : Ptr) (bs : List Block)
    → 4 ≤ p
    → ((a : Ptr) → p ≤ a + 4 → a + 8 ≤ p + total bs → v a ≡ w a)
    → Blocks w p bs
    → Blocks v p bs
Blocks-agree w v p [] low same h = tt
Blocks-agree w v p (b ∷ bs) low same (head, foot, some_units, rest) = (
  same (p - 4) (omega arith) (omega arith) ∙ head,
  same (p + size_of b - 8) (omega arith) (omega arith) ∙ foot,
  some_units,
  Blocks-agree w v (p + size_of b) bs (omega arith) (λ a lo hi. same a (omega arith) (omega arith))
      rest,
)

pub total-append : (xs ys : List Block) → total (xs ++ ys) ≡ total xs + total ys
total-append [] ys = omega arith
total-append (x ∷ xs) ys = omega (arith, total-append xs ys)

pub Blocks-split :
    (w : Words) (p : Ptr) (xs ys : List Block)
    → Blocks w p (xs ++ ys)
    → Blocks w p xs × Blocks w (p + total xs) ys
Blocks-split w p [] ys h = (tt, subst (λ z. Blocks w z ys) (omega arith) h)
Blocks-split w p (x ∷ xs) ys (head, foot, some_units, rest) =
    let both = Blocks-split w (p + size_of x) xs ys rest in
    ((head, foot, some_units, both.0), subst (λ z. Blocks w z ys) (omega arith) both.1)

pub Blocks-joined :
    (w : Words) (p : Ptr) (xs ys : List Block)
    → Blocks w p xs
    → Blocks w (p + total xs) ys
    → Blocks w p (xs ++ ys)
Blocks-joined w p [] ys h k = subst (λ z. Blocks w z ys) (omega arith) k
Blocks-joined w p (x ∷ xs) ys (head, foot, some_units, rest) k = (
  head,
  foot,
  some_units,
  Blocks-joined w (p + size_of x) xs ys rest (subst (λ z. Blocks w z ys) (omega arith) k),
)

-- v is w with the block b written at q; what is inside of b does not matter.
pub record IsWritten (w v : Words) (q : Ptr) (b : Block) : Type 0 where
  pub head : v (q - 4) ≡ tag b
  pub foot : v (q + size_of b - 8) ≡ tag b
  pub before : (a : Ptr) → a + 4 < q → v a ≡ w a
  pub behind : (a : Ptr) → q + size_of b < a + 8 → v a ≡ w a

-- The blocks ms, between xs and ys, become one.
pub Blocks-IsWritten :
    (w v : Words) (p : Ptr) (xs ms ys : List Block) (b : Block)
    → 4 ≤ p
    → 1 ≤ b.units
    → total ms ≡ size_of b
    → IsWritten w v (p + total xs) b
    → Blocks w p (xs ++ (ms ++ ys))
    → Blocks v p (xs ++ (b ∷ ys))
Blocks-IsWritten w v p xs ms ys b low units same new h =
    let outer = Blocks-split w p xs (ms ++ ys) h in
    let inner = Blocks-split w (p + total xs) ms ys outer.1 in
    Blocks-joined v p xs (b ∷ ys)
      (Blocks-agree w v p xs low (λ a lo hi. new.before a (omega arith)) outer.0)
      (
        new.head,
        new.foot,
        units,
        Blocks-agree w v (p + total xs + size_of b) ys (omega arith)
            (λ a lo hi. new.behind a (omega arith))
            (subst (λ z. Blocks w (p + total xs + z) ys) same inner.1),
      )

-- What the macros read in a tag, and what they write.
get_size_tag :
    (w : Words) (p u f : ℕ) → w p ≡ u * 8 + f → f < 8 → u * 8 < 2 ^ 32 → get_size w p ≡ u * 8
unfolding get_size
get_size_tag w p u f e lt bound =
    ap (λ (z : ℕ). bit_and z (2 ^ 32 - 8)) e
    ∙ and_high 3 (u * 8 + f) (2 ^ 29 - 1)
    ∙ ap (λ (z : ℕ). z * 8) (and_low 29 ((u * 8 + f) / 8) ∙ omega arith)

get_alloc_tag : (w : Words) (p u f : ℕ) → w p ≡ u * 8 + f → f < 8 → get_alloc w p ≡ f
unfolding get_alloc
get_alloc_tag w p u f e lt = ap (λ (z : ℕ). bit_and z 7) e ∙ and_low 3 (u * 8 + f) ∙ omega arith

flag_small : (b : Block) → flag_of b < 8
flag_small b = grind arith

module _ (w : Words) (p : Ptr) (b : Block) (e : w p ≡ tag b) where
  pub get_size-tag : size_of b < 2 ^ 32 → get_size w p ≡ size_of b
  get_size-tag lt = get_size_tag w p b.units (flag_of b) e (flag_small b) lt

  pub get_alloc-tag : get_alloc w p ≡ flag_of b
  get_alloc-tag = get_alloc_tag w p b.units (flag_of b) e (flag_small b)

pub pack_flag : (u f : ℕ) → f < 8 → pack (u * 8) f ≡ u * 8 + f
unfolding pack
pack_flag u f lt = or_flags 3 u f lt

pub put_word_here : (w : Words) (p v : ℕ) → v < 2 ^ 32 → put_word w p v p ≡ v
unfolding put_word
put_word_here w p v lt = ground arith

pub put_word_apart : (w : Words) (p v a : ℕ) → p ≢ a → put_word w p v a ≡ w a
unfolding put_word
put_word_apart w p v a ne = rw (==_ne p a ne) refl
