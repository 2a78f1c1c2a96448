-- ===== src/Strings.antt =====
-- The strings of sys/string.c, which libc/string.c repeats, and strcpy and strchr of libc/string.c.
-- A pointer is the list of the bytes from it to the end of its array; outside of the array a read or a
-- write gives `none`. `Option` around an argument holds NULL; an `int` counter is a ℕ.
pub mod Compare
pub mod Copy
use plum_os.Prelude.{
  ℕ, zero, suc, ◌+◌, ◌-◌, Bool, true, false, ◌&&◌, Option, none, some, List, [], ◌∷◌, ◌==◌, ltb,
  if◌then◌else◌,
}
use plum_os.Prelude.Int.{ℤ, pos, negsuc, ◌-ℤ◌, minus_one}
use plum_os.Prelude.Partial.{◌>>=◌}

-- a char, which is signed, as an int
abbrev pub char_value : ℕ → ℤ
char_value c = if ltb c 128 then pos c else negsuc (255 - c)

unfoldable pub strlen : List ℕ → Option ℕ
strlen [] = none
strlen (c ∷ s) = if c == 0 then some 0 else (do n ← strlen s; some (suc n))

-- `while ((dest[i] - src[i]) == 0 && more(i)) i++;` gives i and the two bytes at which it stops.
unfoldable pub compare_loop : (ℕ → Bool) → ℕ → List ℕ → List ℕ → Option (ℕ × ℕ × ℕ)
compare_loop more i [] src = none
compare_loop more i (c ∷ dest) [] = none
compare_loop more i (c ∷ dest) (e ∷ src) =
    let rest = compare_loop more (i + 1) dest src in
    if (c == e) && more i then rest else some (i, c, e)

unfoldable pub strcmp : Option (List ℕ) → Option (List ℕ) → Option ℤ
unfolding strlen compare_loop
strcmp none src = some minus_one
strcmp (some dest) none = some minus_one
strcmp (some dest) (some src) = do
  n ← strlen dest
  m ← strlen src
  if n == m
      then (do
        r ← compare_loop (λ i. ltb i n) 0 dest src
        some (if r.0 == n then pos 0 else char_value r.1 -ℤ char_value r.2))
      else some minus_one

unfoldable pub strncmp : Option (List ℕ) → Option (List ℕ) → ℕ → Option ℤ
unfolding strlen compare_loop
strncmp none src size = some minus_one
strncmp (some dest) none size = some minus_one
strncmp (some dest) (some src) size = do
  n ← strlen dest
  m ← strlen src
  r ← compare_loop (λ i. ltb i n && ltb i m && ltb i size) 0 dest src
  some (if r.0 == size then pos 0 else char_value r.1 -ℤ char_value r.2)

-- `while (more(i) && (dest[i] = src[i]) != 0) i++;` gives i and the bytes of dest after it.
unfoldable pub copy_loop : (ℕ → Bool) → ℕ → List ℕ → List ℕ → Option (ℕ × List ℕ)
copy_loop more i [] src = if more i then none else some (i, [])
copy_loop more i (x ∷ dest) [] = if more i then none else some (i, x ∷ dest)
copy_loop more i (x ∷ dest) (c ∷ src) =
    let rest = copy_loop more (i + 1) dest src in
    if more i
    then if c == 0 then some (i, 0 ∷ dest) else (do r ← rest; some (r.0, c ∷ r.1))
    else some (i, x ∷ dest)

-- `s[i] = c`
unfoldable pub set_at : List ℕ → ℕ → ℕ → Option (List ℕ)
set_at [] i c = none
set_at (x ∷ s) zero c = some (c ∷ s)
set_at (x ∷ s) (suc i) c = do r ← set_at s i c; some (x ∷ r)

-- the bytes of dest afterwards
unfoldable pub strncpy : List ℕ → List ℕ → ℕ → Option (List ℕ)
strncpy dest src size = do
  n ← strlen src
  r ← copy_loop (λ i. ltb i size && ltb i n) 0 dest src
  set_at r.1 r.0 0

-- `dest[i - 1] = 0` at the end: a write in front of the array if src is empty
unfoldable pub strcpy : List ℕ → List ℕ → Option (List ℕ)
strcpy dest src = do
  n ← strlen src
  r ← copy_loop (λ i. ltb i n) 0 dest src
  elim r.0 [ zero ↦ none | suc i ↦ set_at r.1 i 0 ]

-- The offset at which c stands, or NULL; the NUL byte counts.
unfoldable pub strchr : List ℕ → ℕ → Option (Option ℕ)
strchr [] c = none
strchr (x ∷ s) c =
    let rest = strchr s c in
    if x == c
    then some (some 0)
    else if x == 0
    then some none
    else (do r ← rest; some (elim r [ none ↦ none | some i ↦ some (suc i) ]))
