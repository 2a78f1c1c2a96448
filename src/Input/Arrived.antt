-- ===== src/Input/Arrived.antt =====
-- copy_from_kernel of sys/syscall.c where it does not panic: it brings in the first page, and the bytes arrive.
use plum_os.Prelude.{
  ℕ, zero, suc, ◌+◌, ◌/◌, ◌%◌, ◌^◌, ◌<◌, ◌≤◌, ◌≡◌, refl, ◌≢◌, Bool, true, false, some, inl, inr,
  ◌==◌, arith, Bool-cases, ==_ne, ==_iff, if◌then◌else◌, sym, subst,
}
use plum_os.Prelude.Ints.{int_rounds}
use plum_os.Kernel.{put}
use plum_os.Kernel.Ends.{put_self}
use plum_os.Input.{Io, map_page, copy_bytes, copy_out, copy_from_kernel}

copy_out-copy_bytes :
    (present : ℕ → Bool) (n i to from : ℕ) (mem : ℕ → ℕ)
    → ((j : ℕ) → i ≤ j → j < i + n → present ((to + j) / 4096) ≡ true)
    → copy_out present n i to from mem ≡ some (copy_bytes n i to from mem)
unfolding copy_out copy_bytes
copy_out-copy_bytes present zero i to from mem h = refl
copy_out-copy_bytes present (suc n) i to from mem h = rw (h i (omega arith) (omega arith)) (
    copy_out-copy_bytes present n (i + 1) to from (put mem (to + i) (mem (from + i)))
      λ j l u. h j (omega arith) (omega arith))

-- Memory and pages once the page of a is mapped
pub record BroughtIn (a : ℕ) (s : Io) (mem : ℕ → ℕ) (present : ℕ → Bool) : Type 0 where
  pub others : (b : ℕ) → b / 4096 ≢ a / 4096 → mem b ≡ s.mem b
  pub mapped : present (a / 4096) ≡ true
  pub still : (p : ℕ) → s.present p ≡ true → present p ≡ true

still_there : (f : ℕ → Bool) (p q : ℕ) → f q ≡ true → put f p true q ≡ true
still_there f p q h = elim (Bool-cases (p == q)) [ inl e ↦ rw e refl | inr e ↦ rw e h ]

map_page-BroughtIn :
    (a : ℕ) (s : Io)
    → s.memory_full ≡ false
    → (mem : ℕ → ℕ) × ((present : ℕ → Bool) × (map_page a s
          ≡ some (record s { mem = mem; present = present }))
        × BroughtIn a s mem present)
unfolding map_page
map_page-BroughtIn a s room = elim (Bool-cases (s.present (a / 4096))) [
  | inl e ↦ (
    s.mem,
    (s.present, rw e refl, record { others = λ b ne. refl; mapped = e; still = λ p h. h }),
  )
  | inr e ↦ (
    (λ b. if b / 4096 == a / 4096 then s.backing b else s.mem b),
    (
      put s.present (a / 4096) true,
      rw (e, room) refl,
      record {
        others = λ b ne. rw (==_ne (b / 4096) (a / 4096) ne) refl;
        mapped = put_self s.present (a / 4096) true;
        still = λ p h. still_there s.present (a / 4096) p h;
      },
    ),
  )
]

-- The pages of the n bytes at a are mapped, but perhaps for the first one.
abbrev pub Reaches : ℕ → ℕ → Io → Type 0
Reaches a n s = (j : ℕ) → j < n → (a + j) / 4096 ≢ a / 4096 → s.present ((a + j) / 4096) ≡ true

all_mapped :
    (a n : ℕ) (s : Io) (mem : ℕ → ℕ) (present : ℕ → Bool)
    → BroughtIn a s mem present
    → Reaches a n s
    → (j : ℕ) → j < n
    → present ((a + j) / 4096) ≡ true
all_mapped a n s mem present b r j l = elim (Bool-cases ((a + j) / 4096 == a / 4096)) [
  | inl e ↦ subst (λ p. present p ≡ true) (sym ((==_iff ((a + j) / 4096) (a / 4096)).0 e)) b.mapped
  | inr e ↦ b.still ((a + j) / 4096) (r j l (ground arith))
]

pub copy_from_kernel-BroughtIn :
    (ubuf kbuf n : ℕ) (s : Io)
    → s.has_vma ubuf ≡ true
    → s.memory_full ≡ false
    → n < 2 ^ 31
    → Reaches ubuf n s
    → (mem : ℕ → ℕ) × ((present : ℕ → Bool) × (copy_from_kernel ubuf kbuf n s
          ≡ some (some (record s { mem = copy_bytes n 0 ubuf kbuf mem; present = present })))
        × BroughtIn ubuf s mem present)
unfolding copy_from_kernel
copy_from_kernel-BroughtIn ubuf kbuf n s allowed room small r =
    let m = map_page-BroughtIn ubuf s room in
    let rounds : int_rounds (n % 2 ^ 32) ≡ n = ground arith in
    (
      m.0,
      (
        m.1.0,
        rw (allowed, m.1.1, rounds)
            (rw
              (copy_out-copy_bytes m.1.0 n 0 ubuf kbuf m.0
                (λ j l u. all_mapped ubuf n s m.0 m.1.0 m.1.2 r j (omega arith)))
              refl),
        m.1.2,
      ),
    )
