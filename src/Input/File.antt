-- ===== src/Input/File.antt =====
-- read of sys/syscall.c on an open file.
use plum_os.Prelude.{
  ℕ, ◌+◌, ◌-◌, ◌/◌, Bool, ◌%◌, ◌^◌, ◌<◌, ◌≤◌, ◌≡◌, refl, ◌≢◌, true, false, some, ◌==◌, if_both, min,
  arith, ap, ◌∙◌, sym, ==_ne, ==_iff,
}
use plum_os.Prelude.Partial.{◌>>=◌}
use plum_os.Input.{
  Io, FileEntry, copy_bytes, copy_from_kernel, read_size, advance_pos, read_file, uint64_minus_one,
}
use plum_os.Kernel.Ends.{put_self}
use plum_os.Input.Arrived.{BroughtIn, Reaches, copy_from_kernel-BroughtIn}
use plum_os.Input.Copied.{copy_bytes-copied}

-- An open file whose bytes lie in memory, its position within it.
pub record IsOpen (f : FileEntry) : Type 0 where
  pub file : f.type ≡ 1
  pub pos_in : f.pos ≤ f.size
  pub in_memory : f.start_addr + f.size < 2 ^ 64

-- The next bytes of the file, at most `size`, stand at buf, their number is returned, and the position
-- is behind them; the other files are what they were.
pub record NextBytes (fd buf size : ℕ) (s : Io) (r : ℕ × Io) : Type 0 where
  pub count : r.0 ≡ min size ((s.file_array fd).size - (s.file_array fd).pos)
  pub bytes :
      (j : ℕ)
      → j < r.0
      → r.1.mem (buf + j) ≡ s.mem ((s.file_array fd).start_addr + (s.file_array fd).pos + j)
  pub position : (r.1.file_array fd).pos ≡ (s.file_array fd).pos + r.0
  pub others : (g : ℕ) → g ≢ fd → r.1.file_array g ≡ s.file_array g

read_size-min :
    (f : FileEntry) (size : ℕ)
    → IsOpen f
    → f.size + size < 2 ^ 64
    → read_size f size ≡ min size (f.size - f.pos)
unfolding read_size
read_size-min f size i h = ground (arith, i.pos_in, i.in_memory)

module _ (fd buf size : ℕ) (s : Io) (i : IsOpen (s.file_array fd)) (allowed : s.has_vma buf ≡ true)
    (room : s.memory_full ≡ false) (some_bytes : 0 < size) (small : size < 2 ^ 31)
    (reach : Reaches buf size s) (fits : (s.file_array fd).size + size < 2 ^ 64)
    (apart : (a b : ℕ)
      → a < size
      → b < (s.file_array fd).size
      → (buf + a) / 4096 ≢ ((s.file_array fd).start_addr + b) / 4096) where
  abbrev from : ℕ
  from = (s.file_array fd).start_addr + (s.file_array fd).pos

  from_whole : from % 2 ^ 64 ≡ from
  from_whole = omega (arith, i.pos_in, i.in_memory)

  -- The page of buf is another one than those of the file.
  source :
      (mem : ℕ → ℕ) (present : ℕ → Bool)
      → BroughtIn buf s mem present
      → (j : ℕ) → (s.file_array fd).pos + j < (s.file_array fd).size
      → mem (from + j) ≡ s.mem (from + j)
  source mem present b j l = b.others (from + j) λ e.
      apart 0 ((s.file_array fd).pos + j) some_bytes l
        (omega arith ∙ sym e ∙ ap (λ (a : ℕ). a / 4096) (omega arith))

  advanced :
      (n : ℕ)
      → n ≡ min size ((s.file_array fd).size - (s.file_array fd).pos)
      → (r : ℕ × Io) × ((do
        o ← copy_from_kernel buf (from % 2 ^ 64) n s
        some (advance_pos fd n o (uint64_minus_one, s)))
          ≡ some r)
        × NextBytes fd buf size s r
  unfolding advance_pos
  advanced n e =
      let c =
        copy_from_kernel-BroughtIn buf from n s allowed room (omega arith)
          (λ j l ne. reach j (omega arith) ne) in
      let t : Io = record s { mem = copy_bytes n 0 buf from c.0; present = c.1.0 } in
      (
        advance_pos fd n (some t) (uint64_minus_one, s),
        rw (from_whole, c.1.1) refl,
        record {
          count = e;
          bytes = λ j l.
              copy_bytes-copied n 0 buf from j c.0
                (λ a b l' u h.
                  apart a ((s.file_array fd).pos + b) (omega arith) (omega arith)
                    (ap (λ (a : ℕ). a / 4096) (h ∙ omega arith)))
                (omega arith) (omega arith)
              ∙ source c.0 c.1.0 c.1.2 j (omega arith);
          position =
              ap (λ (f : FileEntry). f.pos)
                (put_self s.file_array fd
                  (record (s.file_array fd) { pos = ((s.file_array fd).pos + n) % 2 ^ 64 }))
              ∙ omega (arith, i.pos_in, i.in_memory);
          others = λ g ne. rw (==_ne fd g (λ h. ne (sym h))) refl;
        },
      )

  at_end : (s.file_array fd).pos ≡ (s.file_array fd).size → NextBytes fd buf size s (0, s)
  at_end e = record {
    count = omega arith;
    bytes = λ j l. absurd (omega arith);
    position = omega arith;
    others = λ g ne. refl;
  }

  -- On an open file, for a size above 0 and below 2 ^ 31, where an area of the process holds the address buf, the
  -- pages of the room there behind the first one are mapped, a page is left for the first one, no page
  -- holds bytes of the room and of the file, and no sum wraps: read gives the next bytes of the file,
  -- at most `size`, and moves the position behind them; at the end of the file that is 0 and nothing.
  pub read_file-NextBytes :
      (r : ℕ × Io) × (read_file fd buf size s ≡ some r) × NextBytes fd buf size s r
  unfolding read_file
  read_file-NextBytes =
      rw (==_ne size 0 (λ e. omega (arith, some_bytes, e)), is_file)
        (if_both (λ o. (r : ℕ × Io) × (o ≡ some r) × NextBytes fd buf size s r)
          ((s.file_array fd).pos == (s.file_array fd).size)
          (λ e. ((0, s), refl, at_end ((==_iff (s.file_array fd).pos (s.file_array fd).size).0 e)))
          λ _.
            advanced (read_size (s.file_array fd) size)
              (read_size-min (s.file_array fd) size i fits))
    where
      is_file : ((s.file_array fd).type == 1) ≡ true
      is_file = (==_iff (s.file_array fd).type 1).1 i.file
