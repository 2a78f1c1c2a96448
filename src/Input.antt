-- ===== src/Input.antt =====
-- Reading in sys/syscall.c: copy_from_kernel, read_stdin, and read on an open file of sys/tarfs.c. Memory
-- is the bytes that the process and the kernel see at their addresses.
pub mod Copied
pub mod Arrived
pub mod Stdin
pub mod File
use plum_os.Prelude.{
  ℕ, zero, suc, ◌+◌, ◌-◌, ◌/◌, ◌%◌, ◌^◌, Bool, true, Option, none, some, ◌==◌, leb, if◌then◌else◌,
}
use plum_os.Prelude.Ints.{widened_int, int_at_least, int_rounds}
use plum_os.Prelude.Partial.{◌>>=◌}
use plum_os.Kernel.{put}

-- The fields of `tarfs_file` that reading needs.
pub record FileEntry : Type 0 where
  pub type : ℕ
  pub start_addr : ℕ
  pub size : ℕ
  pub pos : ℕ

-- `has_vma a`: search_vma finds an area of the process for a. `present p`: page p of its address space is
-- mapped; `backing b` is what a page of an area that is not yet mapped holds at b once map_a_page has made
-- it, a 0 or a byte of its file; `memory_full`: there is no page left for that. `stdin_buf` is the buffer's
-- address.
pub record Io : Type 0 where
  pub mem : ℕ → ℕ
  pub has_vma : ℕ → Bool
  pub present : ℕ → Bool
  pub backing : ℕ → ℕ
  pub memory_full : Bool
  pub stdin_buf : ℕ
  pub stdin_buf_size : ℕ
  pub stdin_buf_state : ℕ
  pub file_array : ℕ → FileEntry

-- map_a_page, as reading sees it: a page that is mapped stays, and `none` is the panic of a full memory.
unfoldable pub map_page : ℕ → Io → Option Io
map_page a s =
    if s.present (a / 4096)
    then some s
    else if s.memory_full
    then none
    else some (record s {
      mem = λ b. if b / 4096 == a / 4096 then s.backing b else s.mem b;
      present = put s.present (a / 4096) true;
    })

-- `for (i = 0; i < size; i++) *(to + i) = *(from + i);` with n rounds left, in memory that is mapped
unfoldable pub copy_bytes : ℕ → ℕ → ℕ → ℕ → (ℕ → ℕ) → ℕ → ℕ
copy_bytes zero i to from mem = mem
copy_bytes (suc n) i to from mem = copy_bytes n (i + 1) to from (put mem (to + i) (mem (from + i)))

-- The same loop into memory of the process: `none` is the page fault in kernel mode, a panic, at a byte whose
-- page is not mapped. The kernel may write to every mapped page, as no code of the kernel sets the bit WP of CR0.
unfoldable pub copy_out : (ℕ → Bool) → ℕ → ℕ → ℕ → ℕ → (ℕ → ℕ) → Option (ℕ → ℕ)
copy_out present zero i to from mem = some mem
copy_out present (suc n) i to from mem =
    let rest = copy_out present n (i + 1) to from (put mem (to + i) (mem (from + i))) in
    if present ((to + i) / 4096) then rest else none

-- `size` becomes an int. The outer `none` is a panic, the inner one its -1.
unfoldable pub copy_from_kernel : ℕ → ℕ → ℕ → Io → Option (Option Io)
unfolding map_page copy_out
copy_from_kernel ubuf kbuf size s =
    if s.has_vma ubuf
    then (do
      t ← map_page ubuf s
      m ← copy_out t.present (int_rounds (size % 2 ^ 32)) 0 ubuf kbuf t.mem
      some (some (record t { mem = m })))
    else some none

abbrev pub uint64_minus_one : ℕ
uint64_minus_one = 2 ^ 64 - 1

-- With room for all that was typed: `stdin_buf_size = 0; readsz = stdin_buf_size;`
unfoldable pub hand_over_all : Option Io → ℕ × Io → ℕ × Io
hand_over_all none failed = failed
hand_over_all (some t) failed = (0, record t { stdin_buf_size = 0; stdin_buf_state = 0 })

-- `a - b` on ints
abbrev pub int_minus : ℕ → ℕ → ℕ
int_minus a b = (a + 2 ^ 32 - b) % 2 ^ 32

-- Else the rest moves to the front of the buffer.
unfoldable pub hand_over_some : ℕ → Option Io → ℕ × Io → ℕ × Io
unfolding copy_bytes
hand_over_some size none failed = failed
hand_over_some size (some t) failed = (
  widened_int size,
  record t {
    mem =
        copy_bytes (int_minus t.stdin_buf_size size) 0 t.stdin_buf
          ((t.stdin_buf + widened_int size) % 2 ^ 64) t.mem;
    stdin_buf_size = int_minus t.stdin_buf_size size;
  },
)

-- `size` is an int, as its 32-bit pattern; `none` is a panic.
unfoldable pub read_stdin : ℕ → ℕ → Io → Option (ℕ × Io)
unfolding copy_from_kernel hand_over_all hand_over_some
read_stdin buf size s =
    if int_at_least size s.stdin_buf_size
    then (do
      o ← copy_from_kernel buf s.stdin_buf s.stdin_buf_size s
      some (hand_over_all o (uint64_minus_one, s)))
    else (do
      o ← copy_from_kernel buf s.stdin_buf size s
      some (hand_over_some size o (uint64_minus_one, s)))

abbrev pub set_pos : ℕ → ℕ → Io → Io
set_pos fd p s = record s {
  file_array = put s.file_array fd (record (s.file_array fd) { pos = p });
}

-- The bytes left for one read; pos + size wraps.
unfoldable pub read_size : FileEntry → ℕ → ℕ
read_size f size =
    if leb ((f.pos + size) % 2 ^ 64) f.size then size else (f.size + 2 ^ 64 - f.pos) % 2 ^ 64

unfoldable pub advance_pos : ℕ → ℕ → Option Io → ℕ × Io → ℕ × Io
advance_pos fd readsz none failed = failed
advance_pos fd readsz (some t) failed =
    (readsz, set_pos fd (((t.file_array fd).pos + readsz) % 2 ^ 64) t)

-- read on a file descriptor from 3 on: `none` is a failed assert or a panic, 1 is FT_FILE.
unfoldable pub read_file : ℕ → ℕ → ℕ → Io → Option (ℕ × Io)
unfolding copy_from_kernel read_size advance_pos
read_file fd buf size s =
    let f = s.file_array fd in
    if size == 0
    then some (uint64_minus_one, s)
    else if f.type == 1
    then if f.pos == f.size then some (0, s) else (do
      o ← copy_from_kernel buf ((f.start_addr + f.pos) % 2 ^ 64) (read_size f size) s
      some (advance_pos fd (read_size f size) o (uint64_minus_one, s)))
    else none
