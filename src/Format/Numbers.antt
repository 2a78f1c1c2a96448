-- ===== src/Format/Numbers.antt =====
-- What the number printing of sys/printf.c writes, read back by an independent reader of digits.
use plum_os.Prelude.{
  ℕ, zero, suc, ◌+◌, ◌-◌, ◌*◌, ◌/◌, ◌%◌, ◌^◌, ◌<◌, ◌≤◌, ◌≡◌, refl, ◌≢◌, inl, inr, Bool, true, false,
  ◌&&◌, Option, none, some, List, [], ◌∷◌, ◌==◌, leb, if◌then◌else◌, get_or, length, arith,
  Bool-cases, not, ap, ◌∙◌,
}
use plum_os.Prelude.Int.{ℤ, pos, negsuc}
use plum_os.Format.{
  digits_loop, decimal_digit, hex_table, longlong_to_string, longlong_to_hexstring, int_to_string,
  push,
}

-- The value of a digit character, in upper-case hexadecimal.
abbrev pub digit_value : ℕ → ℕ
digit_value c = if leb 65 c then c - 55 else c - 48

-- Reads the digits from the left, up to the NUL.
abbrev pub read_digits : ℕ → ℕ → List ℕ → ℕ
read_digits radix acc [] = acc
read_digits radix acc (c ∷ s) =
    let rest = read_digits radix (acc * radix + digit_value c) s in if c == 0 then acc else rest

-- A buffer position with the bytes from there on: it reads as n, and position and bytes fill the buffer.
abbrev pub Reads : ℕ → ℕ → Option (ℕ × List ℕ) → Type 0
Reads radix n none = ⊥
Reads radix n (some r) = (read_digits radix 0 r.1 ≡ n) × (r.0 + length r.1 ≡ 80)

decimal_value :
    (d : ℕ)
    → d < 10
    → (digit_value (decimal_digit d) ≡ d) × (decimal_digit d ≢ 0) × (decimal_digit d ≢ 45)
decimal_value d h = ground arith

abbrev all_below : ℕ → (ℕ → Bool) → Bool
all_below zero f = true
all_below (suc n) f = f n && all_below n f

of_all_below : (n d : ℕ) (f : ℕ → Bool) → all_below n f ≡ true → d < n → f d ≡ true
of_all_below zero d f a h = absurd (omega arith)
of_all_below (suc n) d f a h = elim (Bool-cases (d == n)) [
  | inl e ↦ ground arith
  | inr e ↦ of_all_below n d f (ground arith) (ground arith)
]

abbrev good_hex : ℕ → Bool
good_hex d =
    (digit_value (get_or hex_table d 0) == d)
    && not (get_or hex_table d 0 == 0)
    && not (get_or hex_table d 0 == 45)

hex_value :
    (d : ℕ)
    → d < 16
    → (digit_value (get_or hex_table d 0) ≡ d)
      × (get_or hex_table d 0 ≢ 0)
      × (get_or hex_table d 0 ≢ 45)
hex_value d h =
    split (digit_value (get_or hex_table d 0)) (get_or hex_table d 0)
      (of_all_below 16 d good_hex refl h)
  where
    split :
        (v c : ℕ)
        → ((v == d) && not (c == 0) && not (c == 45)) ≡ true
        → (v ≡ d) × (c ≢ 0) × (c ≢ 45)
    split v c e = ground arith

-- The first character, if any, is no minus sign.
abbrev Unsigned : List ℕ → Type 0
Unsigned [] = Unit {0}
Unsigned (c ∷ s) = c ≢ 45

module _ (radix : ℕ) (char : ℕ → ℕ)
    (value : (d : ℕ) → d < radix → (digit_value (char d) ≡ d) × (char d ≢ 0) × (char d ≢ 45))
    (halves : (n : ℕ) → n / radix ≤ n / 2) (whole : (n : ℕ) → n / radix * radix + n % radix ≡ n)
    (under : (n : ℕ) → n % radix < radix) (two : 2 ≤ radix) where
  read_push :
      (acc d : ℕ) (s : List ℕ)
      → d < radix
      → read_digits radix acc (char d ∷ s) ≡ read_digits radix (acc * radix + d) s
  read_push acc d s h = rw (value d h).0 (ground (arith, (value d h).1))

  read_first :
      (d : ℕ) (s : List ℕ) → d < radix → read_digits radix 0 (char d ∷ s) ≡ read_digits radix d s
  read_first d s h = read_push 0 d s h ∙ ap (λ (m : ℕ). read_digits radix m s) (omega arith)

  -- Enough room: n < 2 ^ room, and one byte and `spare` more.
  digits_loop-read :
      (room p spare n total : ℕ) (out : List ℕ)
      → n < 2 ^ room
      → p ≡ room + spare
      → suc p + length out ≡ total
      → (r : ℕ × List ℕ) × (digits_loop radix char (suc p) n out ≡ some r)
        × (read_digits radix 0 r.1 ≡ read_digits radix n out)
        × (r.0 + length r.1 ≡ total)
        × (spare ≤ r.0)
        × Unsigned r.1
  unfolding digits_loop
  digits_loop-read zero p spare n total out h q e =
      rw (digits_loop, small)
        (
          (p, char n ∷ out),
          refl,
          read_first n out (omega arith),
          omega arith,
          omega arith,
          (value n (omega arith)).2,
        )
    where
      small : leb radix n ≡ false
      small = ground arith
  digits_loop-read (suc room) zero spare n total out h q e = absurd (omega arith)
  digits_loop-read (suc room) (suc p) spare n total out h q e = elim (Bool-cases (leb radix n)) [
    | inr small ↦
        rw (digits_loop, small)
          (
            (suc p, char n ∷ out),
            refl,
            read_first n out (ground arith),
            omega arith,
            omega arith,
            (value n (ground arith)).2,
          )
    | inl big ↦
        let i =
          digits_loop-read room p spare (n / radix) total (char (n % radix) ∷ out)
            (omega (arith, halves n)) (omega arith) (omega arith) in
        rw (digits_loop, big)
          (
            i.0,
            i.1,
            i.2
                ∙ read_push (n / radix) (n % radix) out (under n)
                ∙ ap (λ (m : ℕ). read_digits radix m out) (whole n),
            i.3,
            i.4,
            i.5,
          )
  ]

decimal_read :
    (n : ℕ)
    → n < 2 ^ 64
    → (r : ℕ × List ℕ) × (digits_loop 10 decimal_digit 79 n (0 ∷ []) ≡ some r)
      × (read_digits 10 0 r.1 ≡ n)
      × (r.0 + length r.1 ≡ 80)
      × (14 ≤ r.0)
      × Unsigned r.1
decimal_read n h =
    digits_loop-read 10 decimal_digit decimal_value (λ m. omega arith) (λ m. omega arith)
      (λ m. omega arith) (omega arith) 64 78 14 n 80 (0 ∷ []) (omega arith) refl refl

-- Every 64-bit number is written within the buffer, and its decimal digits read back as the number.
pub longlong_to_string-Reads : (n : ℕ) → n < 2 ^ 64 → Reads 10 n (longlong_to_string n)
unfolding longlong_to_string
longlong_to_string-Reads n h = let i = decimal_read n h in rw i.1 (i.2, i.3)

-- Every 64-bit number is written within the buffer in upper-case hexadecimal digits, which read back
-- as the number.
pub longlong_to_hexstring-Reads : (n : ℕ) → n < 2 ^ 64 → Reads 16 n (longlong_to_hexstring n)
unfolding longlong_to_hexstring
longlong_to_hexstring-Reads n h =
    let i =
      digits_loop-read 16 (λ d. get_or hex_table d 0) hex_value (λ m. omega arith)
        (λ m. omega arith) (λ m. omega arith) (omega arith) 64 78 14 n 80 (0 ∷ []) (omega arith)
        refl refl in
    rw i.1 (i.2, i.3)

-- The value of the 32-bit pattern of an int.
abbrev pub int_value : ℕ → ℤ
int_value n = if leb (2 ^ 31) n then negsuc (2 ^ 32 - n - 1) else pos n

abbrev pub negated : ℕ → ℤ
negated zero = pos 0
negated (suc n) = negsuc n

-- Reads an optional minus sign and digits.
abbrev pub read_int : List ℕ → ℤ
read_int [] = pos 0
read_int (c ∷ s) = if c == 45 then negated (read_digits 10 0 s) else pos (read_digits 10 0 (c ∷ s))

abbrev pub ReadsInt : ℤ → Option (ℕ × List ℕ) → Type 0
ReadsInt z none = ⊥
ReadsInt z (some r) = (read_int r.1 ≡ z) × (r.0 + length r.1 ≡ 80)

read-Unsigned : (s : List ℕ) → Unsigned s → read_int s ≡ pos (read_digits 10 0 s)
read-Unsigned [] h = refl
read-Unsigned (c ∷ s) h = ground arith

lt_leb : (a b : ℕ) → b < a → leb a b ≡ false
lt_leb a b h = ground arith

le_leb : (a b : ℕ) → a ≤ b → leb a b ≡ true
le_leb a b h = ground arith

nonnegative_of :
    (n : ℕ) (r : ℕ × List ℕ)
    → n < 2 ^ 31
    → digits_loop 10 decimal_digit 79 n (0 ∷ []) ≡ some r
    → int_to_string n ≡ some r
unfolding int_to_string
nonnegative_of n r h e = rw (lt_leb (2 ^ 31) n h) (rw (lt_leb (2 ^ 31) n h) (rw e refl))

negative_of :
    (n : ℕ) (r : ℕ × List ℕ)
    → 2 ^ 31 < n
    → n < 2 ^ 32
    → digits_loop 10 decimal_digit 79 ((2 ^ 32 - n) % 2 ^ 32) (0 ∷ []) ≡ some r
    → int_to_string n ≡ push r.0 45 r.1
unfolding int_to_string
negative_of n r l h e =
    rw (le_leb (2 ^ 31) n (omega arith))
      (rw (lt_leb (2 ^ 31) ((2 ^ 32 - n) % 2 ^ 32) (omega arith)) (rw e refl))

with_sign :
    (r : ℕ × List ℕ) (m : ℕ)
    → 14 ≤ r.0
    → r.0 + length r.1 ≡ 80
    → read_digits 10 0 r.1 ≡ suc m
    → ReadsInt (negsuc m) (push r.0 45 r.1)
with_sign (zero, s) m h e q = absurd (omega arith)
with_sign (suc p, s) m h e q = (ap negated q, omega arith)

-- Every int but the least one is written within the buffer, with a minus sign where it is negative,
-- and reads back as itself.
pub int_to_string-ReadsInt :
    (n : ℕ) → n < 2 ^ 32 → n ≢ 2 ^ 31 → ReadsInt (int_value n) (int_to_string n)
int_to_string-ReadsInt n h ne = elim (Bool-cases (leb (2 ^ 31) n)) [
  | inr low ↦
      let i = decimal_read n (ground arith) in
      rw (nonnegative_of n i.0 (ground arith) i.1)
        (rw low (read-Unsigned i.0.1 i.5 ∙ ap pos i.2, i.3))
  | inl high ↦
      let i = decimal_read ((2 ^ 32 - n) % 2 ^ 32) (omega arith) in
      rw (negative_of n i.0 (ground arith) h i.1)
        (rw high (with_sign i.0 (2 ^ 32 - n - 1) i.4 i.3 (i.2 ∙ ground arith)))
]
