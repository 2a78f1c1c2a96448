-- ===== src/Shell.antt =====
-- The shell's library, libc/shlib.c: variables and the splitting of a command. A pointer to characters is the
-- list of the bytes from it to the end of its array, as in Strings; a list of variables is the list of its
-- slots, `none` for NULL. `none` as a result is a read or a write outside of an array. What malloc gives is an
-- argument, the bytes of the block; the code takes for granted that there is one.
pub mod Prefix
pub mod Lookup
pub mod Variables
pub mod Answers
pub mod Store
use plum_os.Prelude.{
  ℕ, zero, suc, ◌+◌, ◌-◌, min, Bool, true, false, ◌&&◌, ◌||◌, not, Option, none, some, List, [],
  ◌∷◌, ◌++◌, ◌==◌, ltb, leb, if◌then◌else◌, drop,
}
use plum_os.Prelude.Int.{ℤ, pos, negsuc}
use plum_os.Prelude.Partial.{◌>>=◌}
use plum_os.Strings.{strlen, strncmp, strncpy, set_at}

abbrev pub VarList : Type 0
VarList = List (Option (List ℕ))

abbrev pub max_sh_var_num : ℕ
max_sh_var_num = 8

abbrev pub max_env_var_num : ℕ
max_env_var_num = 256

abbrev pub max_var_size : ℕ
max_var_size = 2048

abbrev pub is_zero : ℤ → Bool
is_zero (pos n) = n == 0
is_zero (negsuc n) = false

-- `while (i < left && list[i] != NULL && strncmp(name, list[i], len) != 0) i++;` from the first slot on
unfoldable pub find_var : ℕ → VarList → List ℕ → ℕ → Option ℕ
find_var zero vars name len = some 0
find_var (suc left) [] name len = none
find_var (suc left) (none ∷ vars) name len = some 0
find_var (suc left) (some entry ∷ vars) name len =
    let rest = find_var left vars name len in
    do
      z ← strncmp (some name) (some entry) len
      if is_zero z then some 0 else (do i ← rest; some (suc i))

-- `list[i]`
unfoldable pub slot : VarList → ℕ → Option (Option (List ℕ))
slot [] i = none
slot (v ∷ vars) zero = some v
slot (v ∷ vars) (suc i) = slot vars i

-- `list[i] = entry`
unfoldable pub set_slot : VarList → ℕ → List ℕ → Option VarList
set_slot [] i entry = none
set_slot (v ∷ vars) zero entry = some (some entry ∷ vars)
set_slot (v ∷ vars) (suc i) entry = do r ← set_slot vars i entry; some (v ∷ r)

-- `for (j = 0; j < n; j++) dest[j] = src[j];` gives the bytes of dest.
unfoldable pub copy_n : ℕ → List ℕ → List ℕ → Option (List ℕ)
copy_n zero src dest = some dest
copy_n (suc n) [] dest = none
copy_n (suc n) (c ∷ src) [] = none
copy_n (suc n) (c ∷ src) (d ∷ dest) = do r ← copy_n n src dest; some (c ∷ r)

-- The array s with the pointer s + n handed to f
unfoldable pub from_offset : ℕ → (List ℕ → Option (List ℕ)) → List ℕ → Option (List ℕ)
from_offset zero f s = f s
from_offset (suc n) f [] = none
from_offset (suc n) f (x ∷ s) = do r ← from_offset n f s; some (x ∷ r)

-- The lines of get_var on the entry that it found
unfoldable pub copy_value : List ℕ → ℕ → List ℕ → Option (List ℕ)
copy_value entry nlen var_value = do
  n ← strlen entry
  r ← copy_n (min (n - nlen) (max_var_size - 1)) (drop nlen entry) var_value
  set_at r (min (n - nlen) (max_var_size - 1)) 0

-- var_value is the block that malloc gives; the result `some none` is NULL.
unfoldable pub get_var : List ℕ → Option VarList → List ℕ → Option (Option (List ℕ))
get_var var_value none var_name = some none
get_var var_value (some vars) var_name = do
  n ← strlen var_name
  i ← find_var max_env_var_num vars var_name (min n max_var_size)
  v ← slot vars i
  elim v [
    | none ↦ some none
    | some entry ↦ do
      z ← strncmp (some var_name) (some entry) (min n max_var_size)
      if is_zero z
          then (do r ← copy_value entry (min n max_var_size) var_value; some (some r))
          else some none
  ]

-- The entry that set_var writes into the block var_entry
unfoldable pub make_entry : List ℕ → List ℕ → List ℕ → Option (List ℕ)
make_entry var_entry var_name var_value = do
  n ← strlen var_name
  a ← strncpy var_entry var_name (min n (max_var_size - 1))
  m ← strlen var_value
  let vlen = min m (max_var_size - min n (max_var_size - 1) - 1)
  b ← from_offset (min n (max_var_size - 1)) (λ dest. strncpy dest var_value vlen) a
  set_at b (min n (max_var_size - 1) + vlen) 0

-- The list of variables afterwards
unfoldable pub set_var : List ℕ → VarList → List ℕ → List ℕ → Option VarList
set_var var_entry vars var_name var_value = do
  entry ← make_entry var_entry var_name var_value
  n ← strlen var_name
  i ← find_var max_sh_var_num vars var_name (min n (max_var_size - 1))
  if i == max_sh_var_num then some vars else set_slot vars i entry
