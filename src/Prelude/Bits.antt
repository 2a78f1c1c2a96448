-- ===== src/Prelude/Bits.antt =====
-- Flags below an aligned number, and masks, for the words of page tables.
use Prim.Native.Nat.{
  ℕ, zero, suc, ◌+◌, ◌-◌, ◌*◌, ◌/◌, ◌%◌, ◌^◌, ◌≤◌, ◌<◌, min, max, digits, bit_and, bit_or,
  bit_and-bitwise, bit_or-bitwise,
}
use mathlib.Core.Path.{◌≡◌, refl, ap, ◌∙◌, sym}
use native.Mathlib.Nat.{
  div-div-eq-div-mul, one-le-pow, mul_assoc, pow-succ', pow-suc, mul-add-mod_self_right,
  mod-eq_of_lt, mod-lt, div-add-mod',
}
use native.Mathlib.Omega.{arith}

-- Fuel beyond the first number changes nothing.
digits-more :
    (rest : ℕ → ℕ) (op : ℕ → ℕ → ℕ) (less more x y : ℕ)
    → x ≤ less
    → less ≤ more
    → digits rest op more x y ≡ digits rest op less x y
digits-more rest op zero zero zero y _ _ = refl
digits-more rest op zero zero (suc x) y h _ = absurd (omega arith)
digits-more rest op zero (suc more) zero y _ _ = refl
digits-more rest op zero (suc more) (suc x) y h _ = absurd (omega arith)
digits-more rest op (suc less) zero x y _ h = absurd (omega arith)
digits-more rest op (suc less) (suc more) zero y _ _ = refl
digits-more rest op (suc less) (suc more) (suc x) y h k =
    ap (λ (d : ℕ). d * 2 + op (suc x % 2) (y % 2))
      (digits-more rest op less more (suc x / 2) (y / 2) (omega arith) (omega arith))

or_digit : (x y : ℕ) → bit_or x y ≡ bit_or (x / 2) (y / 2) * 2 + max (x % 2) (y % 2)
or_digit zero y = omega (arith, bit_or-bitwise 0 y, bit_or-bitwise 0 (y / 2))
or_digit (suc x) y =
    bit_or-bitwise (suc x) y
    ∙ ap (λ (d : ℕ). d * 2 + max (suc x % 2) (y % 2))
        (digits-more _ max (suc x / 2) x (suc x / 2) (y / 2) (omega arith) (omega arith)
          ∙ sym (bit_or-bitwise (suc x / 2) (y / 2)))

and_digit : (x y : ℕ) → bit_and x y ≡ bit_and (x / 2) (y / 2) * 2 + min (x % 2) (y % 2)
and_digit zero y = omega (arith, bit_and-bitwise 0 y, bit_and-bitwise 0 (y / 2))
and_digit (suc x) y =
    bit_and-bitwise (suc x) y
    ∙ ap (λ (d : ℕ). d * 2 + min (suc x % 2) (y % 2))
        (digits-more _ min (suc x / 2) x (suc x / 2) (y / 2) (omega arith) (omega arith)
          ∙ sym (bit_and-bitwise (suc x / 2) (y / 2)))

zero_upto : (n x : ℕ) → x ≤ n → (bit_or x 0 ≡ x) × (bit_and x 0 ≡ 0)
zero_upto zero zero h = (bit_or-bitwise 0 0, bit_and-bitwise 0 0)
zero_upto zero (suc x) h = absurd (omega arith)
zero_upto (suc n) x h =
    let i = zero_upto n (x / 2) (omega arith) in
    (omega (arith, or_digit x 0, i.0), omega (arith, and_digit x 0, i.1))

and_one : (y : ℕ) → bit_and y 1 ≡ y % 2
and_one y = omega (arith, and_digit y 1, (zero_upto y (y / 2) (omega arith)).1)

doubled : (a k : ℕ) → a * 2 ^ suc k ≡ a * 2 ^ k * 2
doubled a k = ap (λ (v : ℕ). a * v) (pow-suc 2 k) ∙ sym (mul_assoc a (2 ^ k) 2)

half : (x y : ℕ) → x ≡ y * 2 → x / 2 ≡ y
half x y h = omega arith

-- Flags below an aligned number are added to it.
pub or_flags : (k a f : ℕ) → f < 2 ^ k → bit_or (a * 2 ^ k) f ≡ a * 2 ^ k + f
or_flags zero a f h =
    ap (bit_or (a * 1)) none_left ∙ (zero_upto (a * 1) (a * 1) (omega arith)).0 ∙ omega arith
  where
    none_left : f ≡ 0
    none_left = omega arith
or_flags (suc k) a f h =
    or_digit (a * 2 ^ suc k) f
    ∙ ap (λ (v : ℕ). bit_or v (f / 2) * 2 + max (a * 2 ^ suc k % 2) (f % 2))
        (half (a * 2 ^ suc k) (a * 2 ^ k) (doubled a k))
    ∙ omega (arith, or_flags k a (f / 2) (omega arith), doubled a k)

half_mod : (k x : ℕ) → x % 2 ^ suc k ≡ x / 2 % 2 ^ k * 2 + x % 2
half_mod k x =
    ap (λ (v : ℕ). v % 2 ^ suc k) split
    ∙ mul-add-mod_self_right (x / 2 / 2 ^ k) (2 ^ suc k) (x / 2 % 2 ^ k * 2 + x % 2)
    ∙ mod-eq_of_lt
        (omega (arith, pow-suc 2 k, mod-lt (x / 2) {m = 2 ^ k} (one-le-pow k 2 (omega arith))))
  where
    split : x ≡ x / 2 / 2 ^ k * 2 ^ suc k + (x / 2 % 2 ^ k * 2 + x % 2)
    split = omega (arith, doubled (x / 2 / 2 ^ k) k, div-add-mod' (x / 2) (2 ^ k))

-- A mask of the k lowest digits keeps the remainder.
pub and_low : (k x : ℕ) → bit_and x (2 ^ k - 1) ≡ x % 2 ^ k
and_low zero x = (zero_upto x x (omega arith)).1 ∙ omega arith
and_low (suc k) x =
    and_digit x (2 ^ suc k - 1)
    ∙ ap (λ (v : ℕ). bit_and (x / 2) v * 2 + min (x % 2) ((2 ^ suc k - 1) % 2)) rest
    ∙ omega (arith, and_low k (x / 2), half_mod k x, one-le-pow k 2 (omega arith))
  where
    rest : (2 ^ suc k - 1) / 2 ≡ 2 ^ k - 1
    rest = omega (arith, one-le-pow k 2 (omega arith))

-- A mask that spares the k lowest digits drops them.
pub and_high : (k x m : ℕ) → bit_and x (m * 2 ^ k) ≡ bit_and (x / 2 ^ k) m * 2 ^ k
and_high zero x m =
    ap (λ (v : ℕ). bit_and x v) once ∙ ap (λ (v : ℕ). bit_and v m) (sym whole) ∙ sym same
  where
    once : m * 1 ≡ m
    once = omega arith

    whole : x / 1 ≡ x
    whole = omega arith

    same : bit_and (x / 1) m * 1 ≡ bit_and (x / 1) m
    same = omega arith
and_high (suc k) x m =
    and_digit x (m * 2 ^ suc k)
    ∙ ap (λ (v : ℕ). bit_and (x / 2) v * 2 + min (x % 2) (m * 2 ^ suc k % 2))
        (half (m * 2 ^ suc k) (m * 2 ^ k) (doubled m k))
    ∙ omega (arith, doubled m k, and_high k (x / 2) m, doubled (bit_and (x / 2 / 2 ^ k) m) k)
    ∙ ap (λ (v : ℕ). bit_and v m * 2 ^ suc k) quotient
  where
    quotient : x / 2 / 2 ^ k ≡ x / 2 ^ suc k
    quotient = div-div-eq-div-mul x 2 (2 ^ k) ∙ ap (λ (v : ℕ). x / v) (sym (pow-succ' 2 k))

-- `addr & ~(4096 - 1)` on 64 bits
pub and_page : (x : ℕ) → x < 2 ^ 64 → bit_and x (2 ^ 64 - 4096) ≡ x / 4096 * 4096
and_page x h =
    and_high 12 x (2 ^ 52 - 1) ∙ ap (λ (v : ℕ). v * 4096) (and_low 52 (x / 4096) ∙ omega arith)

-- The test of bit k
pub and_bit : (k x : ℕ) → bit_and x (1 * 2 ^ k) ≡ x / 2 ^ k % 2 * 2 ^ k
and_bit k x = and_high k x 1 ∙ ap (λ (v : ℕ). v * 2 ^ k) (and_one (x / 2 ^ k))

or_comm_upto : (n x y : ℕ) → x ≤ n → y ≤ n → bit_or x y ≡ bit_or y x
or_comm_upto zero zero zero h k = refl
or_comm_upto zero zero (suc y) h k = absurd (omega arith)
or_comm_upto zero (suc x) y h k = absurd (omega arith)
or_comm_upto (suc n) x y h k =
    omega (
      arith,
      or_digit x y,
      or_digit y x,
      or_comm_upto n (x / 2) (y / 2) (omega arith) (omega arith),
    )

pub bit_or_comm : (x y : ℕ) → bit_or x y ≡ bit_or y x
bit_or_comm x y = or_comm_upto (x + y) x y (omega arith) (omega arith)
