-- ===== src/Archive/Open.antt =====
-- tarfs_open, tarfs_read and tarfs_close of sys/tarfs.c on the file array of the current process. The
-- archive stands from `starts` to `ends`. `none` is a read or a write outside of an array, or the end of the
-- fuel of traverse_tarfs; newfname holds what the local array of tarfs_open holds at first.
use plum_os.Prelude.{
  ℕ, zero, suc, ◌+◌, ◌-◌, ◌%◌, ◌^◌, Bool, ◌&&◌, ◌||◌, not, Option, none, some, List, [], ◌∷◌, ◌==◌,
  ltb, leb, if◌then◌else◌, bit_and,
}
use plum_os.Prelude.Int.{ℤ, pos, minus_one}
use plum_os.Prelude.Partial.{◌>>=◌}
use plum_os.Kernel.{put}
use plum_os.Strings.{strlen, strcmp, strncpy, set_at}
use plum_os.Shell.{is_zero}
use plum_os.Archive.{PosixHeaderUstar, get_filesz}
use plum_os.Archive.Traverse.{ft_dir, ft_file, tarfs_header, slash, byte_at, traverse_tarfs}

pub record TarfsFile : Type 0 where
  pub mode : List ℕ
  pub name : List ℕ
  pub free_flag : ℕ
  pub type : ℕ
  pub start_addr : ℕ
  pub size : ℕ
  pub pos : ℕ

abbrev pub FileArray : Type 0
FileArray = ℕ → TarfsFile

abbrev pub start_fd : ℕ
start_fd = 3

abbrev pub max_file_num : ℕ
max_file_num = 20

-- A failed assert, which does not return; the end of the process by exit_st; or a result
pub data Outcome (A : Type 0) : Type 0 where
  hangs : Outcome A
  exits : Outcome A
  gives : A → FileArray → Outcome A

-- `while (filename[skip] == '/') skip++;`
unfoldable pub skip_slashes : List ℕ → Option (List ℕ)
skip_slashes [] = none
skip_slashes (c ∷ s) = let rest = skip_slashes s in if c == slash then rest else some (c ∷ s)

unfoldable pub is_root : List ℕ → Option Bool
is_root filename = do
  a ← strcmp (some filename) (some (slash ∷ 0 ∷ []))
  b ← strcmp (some filename) (some (slash ∷ slash ∷ 0 ∷ []))
  c ← strcmp (some filename) (some (slash ∷ slash ∷ slash ∷ 0 ∷ []))
  some (is_zero a || is_zero b || is_zero c)

-- The first free entry from i on, with the entries that are left
unfoldable pub free_fd : ℕ → ℕ → FileArray → Option ℕ
free_fd zero i files = none
free_fd (suc left) i files =
    let rest = free_fd left (i + 1) files in if (files i).free_flag == 0 then some i else rest

-- ROUND_TO_512 of 64 bits
unfoldable pub round_size : ℕ → ℕ
round_size n = bit_and ((n + 512 - 1) % 2 ^ 64) (2 ^ 64 - 512)

-- The entry for the root, and that for what traverse_tarfs found
unfoldable pub root_entry : ℕ → TarfsFile → Option TarfsFile
root_entry starts f = do
  name ← strncpy f.name (slash ∷ 0 ∷ []) 1
  some (record f { free_flag = 1; start_addr = starts; name = name; type = ft_dir })

unfoldable pub slash_ended : List ℕ → Option (List ℕ)
slash_ended newfname = do
  len ← strlen newfname
  c ← elim len [ zero ↦ none | suc i ↦ byte_at newfname i ]
  if c == slash then some newfname else (do a ← set_at newfname len slash; set_at a (len + 1) 0)

unfoldable pub found_entry : PosixHeaderUstar → ℕ → ℕ → List ℕ → TarfsFile → Option TarfsFile
found_entry h res type newfname f =
    if type == ft_dir
    then (do
      full ← slash_ended newfname
      len ← strlen full
      name ← strncpy f.name full len
      some
          (record f { free_flag = 1; start_addr = res + tarfs_header; name = name; type = ft_dir }))
    else (do
      len ← strlen newfname
      name ← strncpy f.name newfname len
      n ← get_filesz h
      some (record f {
        free_flag = 1;
        start_addr = res + tarfs_header;
        name = name;
        size = round_size n;
        type = ft_file;
      }))

-- The lines of tarfs_open on the entry of the first free fd; `entry` writes all but the mode.
unfoldable pub fill_entry :
    (TarfsFile → Option TarfsFile) → List ℕ → List ℕ → ℕ → FileArray → Option (Outcome ℤ)
fill_entry entry filename mode i files = do
  m ← strlen mode
  k ← strlen filename
  if not (ltb m 16) || not (ltb k 128) then some hangs else (do
    e ← entry (files i)
    md ← strncpy e.mode mode m
    some (gives (pos i) (put files i (record e { mode = md }))))

module _ (header : ℕ → PosixHeaderUstar) (starts ends : ℕ) where
  unfoldable pub entry_for : Bool → ℕ × ℕ → List ℕ → TarfsFile → Option TarfsFile
  entry_for root res newfname f =
      if root then root_entry starts f else found_entry (header res.0) res.0 res.1 newfname f

  -- tarfs_open from what traverse_tarfs gives and from the first free fd
  unfoldable pub open_found :
      Bool → List ℕ → List ℕ → List ℕ → FileArray → Option (ℕ × ℕ) → Option ℕ → Option (Outcome ℤ)
  open_found root new filename mode files none fd = some (gives minus_one files)
  open_found root new filename mode files (some r) none = some exits
  open_found root new filename mode files (some r) (some i) =
      fill_entry (entry_for root r new) filename mode i files

  -- `local` holds what the local array of traverse_tarfs holds at first.
  unfoldable pub tarfs_open : ℕ → List ℕ → List ℕ → List ℕ → List ℕ → FileArray → Option (Outcome ℤ)
  tarfs_open fuel local newfname filename mode files = do
    rest ← skip_slashes filename
    n ← strlen rest
    new ← strncpy newfname rest n
    root ← is_root filename
    res ←
        (if root
          then some (some (1, ft_dir))
          else traverse_tarfs header ends fuel local new starts strcmp)
    open_found root new filename mode files res (free_fd (max_file_num - start_fd) start_fd files)

-- The address of the next bytes of the file
unfoldable pub tarfs_read : ℕ → ℕ → FileArray → Outcome ℕ
tarfs_read fd size files =
    let f = files fd in
    if leb start_fd fd
      && ltb fd max_file_num
      && ltb 0 f.free_flag
      && leb ((f.pos + size) % 2 ^ 64) f.size
    then gives ((f.start_addr + f.pos) % 2 ^ 64)
        (put files fd (record f { pos = (f.pos + size) % 2 ^ 64 }))
    else hangs

-- What becomes of the copy of an entry that this function gets
unfoldable pub zero_tarfs_file_entry : TarfsFile → Option TarfsFile
zero_tarfs_file_entry entry = do
  mode ← set_at entry.mode 0 0
  name ← set_at entry.name 0 0
  some (record entry { mode = mode; name = name; free_flag = 0; start_addr = 0; size = 0; pos = 0 })

-- The entry is handed over by value, and the copy is lost.
unfoldable pub tarfs_close : ℕ → FileArray → Option (Outcome (Unit {0}))
tarfs_close fd files =
    if leb start_fd fd && ltb fd max_file_num
    then (do copy ← zero_tarfs_file_entry (files fd); some (gives tt files))
    else some hangs
