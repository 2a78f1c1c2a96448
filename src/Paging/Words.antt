-- ===== src/Paging/Words.antt =====
-- Words, entries and indices of page tables.
use plum_os.Prelude.{
  ℕ, ◌+◌, ◌-◌, ◌*◌, ◌/◌, ◌%◌, ◌^◌, ◌≤◌, ◌<◌, ◌≡◌, refl, ap, ◌∙◌, ◌≢◌, ◌⊎◌, inl, inr, bit_or, arith,
  some,
}
use plum_os.Prelude.Bits.{or_flags, and_page}
use plum_os.Frames.{Frames}
use plum_os.Kernel.{Ptr}
use plum_os.Vma.{page_at}
use plum_os.Paging.{
  Bytes, Memory, load, store, pa2va, kernel_start, table_of, entry_at, get_entry, entry_of,
  put_entry, clear_bytes, zeroed, get_pgd_off, get_pud_off, get_pmd_off, get_pte_off,
}

store-inside : (m : Bytes) (a v k : ℕ) → k < 8 → store m a v (a + k) ≡ v / 256 ^ k % 256
unfolding store
store-inside m a v k h = ground (arith, inside)
  where
    inside : a + k - a ≡ k
    inside = omega arith

eight_bytes :
    (v : ℕ)
    → v < 2 ^ 64
    → v / 1 % 256
        + 0x100 * (v / 256 % 256)
        + 0x10000 * (v / 0x10000 % 256)
        + 0x1000000 * (v / 0x1000000 % 256)
        + 0x100000000 * (v / 0x100000000 % 256)
        + 0x10000000000 * (v / 0x10000000000 % 256)
        + 0x1000000000000 * (v / 0x1000000000000 % 256)
        + 0x100000000000000 * (v / 0x100000000000000 % 256)
      ≡ v
eight_bytes v h = omega arith

pub load-store : (m : Bytes) (a v : ℕ) → v < 2 ^ 64 → load (store m a v) a ≡ v
unfolding load
load-store m a v h = omega (
  arith,
  eight_bytes v h,
  store-inside m a v 0 (omega arith),
  store-inside m a v 1 (omega arith),
  store-inside m a v 2 (omega arith),
  store-inside m a v 3 (omega arith),
  store-inside m a v 4 (omega arith),
  store-inside m a v 5 (omega arith),
  store-inside m a v 6 (omega arith),
  store-inside m a v 7 (omega arith),
)

-- Memories that agree on 8 bytes have the same word there.
pub load_agree :
    (m n : Bytes) (a b : Ptr) → ((k : ℕ) → k < 8 → m (a + k) ≡ n (b + k)) → load m a ≡ load n b
unfolding load
load_agree m n a b h = omega (
  arith,
  h 0 (omega arith),
  h 1 (omega arith),
  h 2 (omega arith),
  h 3 (omega arith),
  h 4 (omega arith),
  h 5 (omega arith),
  h 6 (omega arith),
  h 7 (omega arith),
)

pub store-outside : (m : Bytes) (a v q : ℕ) → (q < a) ⊎ (a + 8 ≤ q) → store m a v q ≡ m q
unfolding store
store-outside m a v q h = ground (arith, h)

pub load-store_apart :
    (m : Bytes) (a b v : ℕ) → (a + 8 ≤ b) ⊎ (b + 8 ≤ a) → load (store m a v) b ≡ load m b
load-store_apart m a b v (inl h) =
    load_agree (store m a v) m b b λ k lt. store-outside m a v (b + k) (inr (omega arith))
load-store_apart m a b v (inr h) =
    load_agree (store m a v) m b b λ k lt. store-outside m a v (b + k) (inl (omega arith))

pub load_zero : (a : Ptr) → load (λ _. 0) a ≡ 0
unfolding load
load_zero a = refl

-- A cleared page holds zero words.
pub load-clear_bytes :
    (m : Bytes) (p a : Ptr) → p ≤ a → a + 8 ≤ p + 4096 → load (clear_bytes m p) a ≡ 0
unfolding clear_bytes
load-clear_bytes m p a h k =
    load_agree (clear_bytes m p) (λ _. 0) a a (λ i lt. ground arith) ∙ load_zero a

pub load-clear_bytes_apart :
    (m : Bytes) (p a : Ptr) → (p + 4096 ≤ a) ⊎ (a + 8 ≤ p) → load (clear_bytes m p) a ≡ load m a
unfolding clear_bytes
load-clear_bytes_apart m p a (inl h) = load_agree (clear_bytes m p) m a a λ i lt. ground arith
load-clear_bytes_apart m p a (inr h) = load_agree (clear_bytes m p) m a a λ i lt. ground arith

pub page_at_eq : (p : ℕ) → p < 2 ^ 18 → page_at p ≡ p * 4096 + kernel_start
unfolding page_at
page_at_eq p h = omega arith

pub entry_of_eq : (p f : ℕ) → p < 2 ^ 18 → f < 4096 → entry_of (page_at p) f ≡ p * 4096 + f
unfolding entry_of
entry_of_eq p f h k = ap (λ (v : ℕ). bit_or v f) (omega (arith, page_at_eq p h)) ∙ or_flags 12 p f k

pub table_of_eq : (p f : ℕ) → p < 2 ^ 18 → f < 4096 → table_of (p * 4096 + f) ≡ page_at p
unfolding table_of
table_of_eq p f h k = and_page (pa2va (p * 4096 + f)) (omega arith) ∙ omega (arith, page_at_eq p h)

pub get_pgd_off_eq : (pfn : ℕ) → get_pgd_off pfn ≡ pfn / 2 ^ 27 % 512
unfolding get_pgd_off
get_pgd_off_eq pfn = omega arith

pub get_pud_off_eq : (pfn : ℕ) → get_pud_off pfn ≡ pfn / 2 ^ 18 % 512
unfolding get_pud_off
get_pud_off_eq pfn = omega arith

pub get_pmd_off_eq : (pfn : ℕ) → get_pmd_off pfn ≡ pfn / 512 % 512
unfolding get_pmd_off
get_pmd_off_eq pfn = omega arith

pub get_pte_off_eq : (pfn : ℕ) → get_pte_off pfn ≡ pfn % 512
unfolding get_pte_off
get_pte_off_eq pfn = omega arith

pub entry_at_eq :
    (p o : ℕ) → p < 2 ^ 18 → o < 512 → entry_at (page_at p) o ≡ p * 4096 + kernel_start + 8 * o
entry_at_eq p o h k = omega (arith, page_at_eq p h)

pub get_entry-put_entry :
    (p o va f : ℕ) (s : Memory)
    → entry_of va f < 2 ^ 64
    → get_entry (page_at p) o (put_entry (page_at p) o va f s) ≡ entry_of va f
unfolding get_entry put_entry
get_entry-put_entry p o va f s h = load-store s.byte (entry_at (page_at p) o) (entry_of va f) h

apart_entries :
    (p o q u : ℕ)
    → p < 2 ^ 18
    → q < 2 ^ 18
    → o < 512
    → u < 512
    → (p ≢ q) ⊎ (o ≢ u)
    → (entry_at (page_at p) o + 8 ≤ entry_at (page_at q) u)
      ⊎ (entry_at (page_at q) u + 8 ≤ entry_at (page_at p) o)
apart_entries p o q u a b c d e = ground (arith, entry_at_eq p o a c, entry_at_eq q u b d, e)

pub get_entry-put_entry_apart :
    (p o q u va f : ℕ) (s : Memory)
    → p < 2 ^ 18
    → q < 2 ^ 18
    → o < 512
    → u < 512
    → (p ≢ q) ⊎ (o ≢ u)
    → get_entry (page_at q) u (put_entry (page_at p) o va f s) ≡ get_entry (page_at q) u s
unfolding get_entry put_entry
get_entry-put_entry_apart p o q u va f s a b c d e =
    load-store_apart s.byte (entry_at (page_at p) o) (entry_at (page_at q) u) (entry_of va f)
      (apart_entries p o q u a b c d e)

pub zeroed-some :
    (q : ℕ) (f : Frames) (s : Memory)
    → zeroed (some (q, f)) s
      ≡ some (page_at q, record { frames = f; byte = clear_bytes s.byte (page_at q) })
unfolding zeroed
zeroed-some q f s = refl
