-- ===== src/Archive.antt =====
-- The archive of sys/tarfs.c: here the size field of a ustar header, in octal digits.
pub mod Octal
pub mod Traverse
pub mod Name
pub mod Match
pub mod Directory
pub mod Open
pub mod Entry
pub mod Opened
pub mod Calls
pub mod Up
use plum_os.Prelude.{
  ℕ, zero, suc, ◌+◌, ◌-◌, ◌*◌, ◌%◌, ◌^◌, Option, none, some, List, [], ◌∷◌, ltb, if◌then◌else◌,
}
use plum_os.Prelude.Partial.{◌>>=◌}
use plum_os.Strings.{strlen}

-- a char, which is signed, widened to 64 bits
abbrev pub widened : ℕ → ℕ
widened c = if ltb c 128 then c else c + (2 ^ 64 - 256)

-- `size * 8 + (c - '0')`
unfoldable pub octal_step : ℕ → ℕ → ℕ
octal_step size c = (size * 8 + widened c + (2 ^ 64 - 48)) % 2 ^ 64

-- the loop, with the rounds that are left; the string does not change, so that strlen is taken once
unfoldable pub octal_loop : ℕ → List ℕ → ℕ → Option ℕ
unfolding octal_step
octal_loop zero s size = some size
octal_loop (suc n) [] size = none
octal_loop (suc n) (c ∷ s) size = octal_loop n s (octal_step size c)

unfoldable pub octstr_to_int : List ℕ → Option ℕ
unfolding octal_loop
octstr_to_int size_str = do n ← strlen size_str; octal_loop n size_str 0

-- The fields of `posix_header_ustar` that the kernel reads.
pub record PosixHeaderUstar : Type 0 where
  pub name : List ℕ
  pub size : List ℕ
  pub typeflag : ℕ

unfoldable pub get_filesz : PosixHeaderUstar → Option ℕ
get_filesz p = octstr_to_int p.size
