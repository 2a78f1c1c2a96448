-- ===== src/Paging/Tree.antt =====
-- The tables below a top table as a tree: the table at a depth and a prefix of the page number.
use plum_os.Prelude.{
  ℕ, zero, suc, ◌*◌, ◌/◌, ◌%◌, ◌^◌, ◌≤◌, ◌<◌, ◌≡◌, refl, sym, ap, ◌∙◌, ◌≢◌, inl, inr, false, ◌==◌,
  if◌then◌else◌, Bool-cases, arith,
}
use native.Mathlib.Nat.{pow-suc}
use plum_os.Kernel.{Ptr}
use plum_os.Vma.{page_at}
use plum_os.Paging.{Memory, table_of, get_entry, entry_of, self_ref_index}
use plum_os.Paging.Words.{page_at_eq}

-- No table has no entries.
unfoldable pub below : Memory → Ptr → ℕ → ℕ
below s t off = if t == 0 then 0 else get_entry t off s

unfoldable pub to_table : ℕ → Ptr
to_table e = if e == 0 then 0 else table_of e

-- The table at depth l for the prefix x of l indices, 0 where there is none.
unfoldable pub node : Memory → Ptr → ℕ → ℕ → Ptr
unfolding below to_table
node s g zero x = g
node s g (suc l) x = to_table (below s (node s g l (x / 512)) (x % 512))

-- The entry that leads to the table, or to the page at depth 4, for the prefix x.
unfoldable pub slot : Memory → Ptr → ℕ → ℕ → ℕ
unfolding below node
slot s g l x = below s (node s g l (x / 512)) (x % 512)

-- The entry that maps a page of the user, 0 where none does.
unfoldable pub page_entry : Memory → Ptr → ℕ → ℕ
unfolding slot
page_entry s g pfn = slot s g 3 pfn

-- The prefixes of the user's half of the address space: the kernel's entries are above.
unfoldable pub user_size : ℕ → ℕ
user_size zero = 1
user_size (suc l) = 256 * 512 ^ l

-- An entry that the processor follows: present, no large page, and an address of 52 bits.
pub record IsPresent (e : ℕ) : Type 0 where
  pub present : e % 2 ≡ 1
  pub small_page : e / 128 % 2 ≡ 0
  pub address : e < 2 ^ 52

pub record IsUsed (s : Memory) (t : Ptr) : Type 0 where
  pub pfn : ℕ
  pub at : t ≡ page_at pfn
  pub small : pfn < 2 ^ 15
  pub counted : s.frames.ref pfn ≢ 0

-- The tables of the address spaces in R: each in use, none in two places, and none of them a page
-- that an entry maps. The processor follows the entries between tables, and each top table maps itself.
pub record IsForest (R : Ptr → Type 0) (s : Memory) : Type 0 where
  pub used :
      (g : Ptr) (l x : ℕ)
      → R g
      → l ≤ 3
      → x < user_size l
      → node s g l x ≢ 0
      → IsUsed s (node s g l x)
  pub apart :
      (g h : Ptr) (l k x y : ℕ)
      → R g
      → R h
      → l ≤ 3
      → k ≤ 3
      → x < user_size l
      → y < user_size k
      → node s g l x ≢ 0
      → node s g l x ≡ node s h k y
      → (g ≡ h) × (l ≡ k) × (x ≡ y)
  pub mapped :
      (g : Ptr) (pfn : ℕ)
      → R g
      → pfn < 2 ^ 35
      → page_entry s g pfn ≢ 0
      → IsUsed s (table_of (page_entry s g pfn))
  pub mapped_apart :
      (g h : Ptr) (pfn k y : ℕ)
      → R g
      → R h
      → pfn < 2 ^ 35
      → k ≤ 3
      → y < user_size k
      → page_entry s g pfn ≢ 0
      → node s h k y ≢ table_of (page_entry s g pfn)
  pub present :
      (g : Ptr) (l x : ℕ)
      → R g
      → l ≤ 2
      → x < user_size (suc l)
      → slot s g l x ≢ 0
      → node s g (suc l) x ≢ 0
  pub opened :
      (g : Ptr) (l x : ℕ)
      → R g
      → l ≤ 2
      → x < user_size (suc l)
      → slot s g l x ≢ 0
      → IsPresent (slot s g l x)
  pub self : (g : Ptr) → R g → get_entry g self_ref_index s ≡ entry_of g 3
  pub rooted : (g : Ptr) → R g → g ≢ 0

pub node-zero : (s : Memory) (g : Ptr) (x : ℕ) → node s g 0 x ≡ g
unfolding node
node-zero s g x = refl

pub node-suc : (s : Memory) (g : Ptr) (l x : ℕ) → node s g (suc l) x ≡ to_table (slot s g l x)
unfolding node slot
node-suc s g l x = refl

pub user_size_half : (l x : ℕ) → x < user_size (suc l) → x / 512 < user_size l
unfolding user_size
user_size_half zero x h = omega arith
user_size_half (suc l) x h = omega (arith, pow-suc 512 l)

pub page_at_nonzero : (p : ℕ) → p < 2 ^ 18 → page_at p ≢ 0
page_at_nonzero p h = λ e. omega (arith, page_at_eq p h)

pub page_at_inj : (p q : ℕ) → p < 2 ^ 18 → q < 2 ^ 18 → page_at p ≡ page_at q → p ≡ q
page_at_inj p q h k e = omega (arith, page_at_eq p h, page_at_eq q k)

pub below_zero : (s : Memory) (o : ℕ) → below s 0 o ≡ 0
unfolding below
below_zero s o = refl

pub below_page :
    (s : Memory) (p o : ℕ) → p < 2 ^ 18 → below s (page_at p) o ≡ get_entry (page_at p) o s
unfolding below
below_page s p o h = ground (arith, page_at_eq p h)

pub slot_at :
    (s : Memory) (h : Ptr) (k y p : ℕ)
    → node s h k (y / 512) ≡ page_at p
    → p < 2 ^ 18
    → slot s h k y ≡ get_entry (page_at p) (y % 512) s
unfolding slot
slot_at s h k y p e a = ap (λ (v : ℕ). below s v (y % 512)) e ∙ below_page s p (y % 512) a

slot_def :
    (s : Memory) (h : Ptr) (k y : ℕ)
    → (node s h k (y / 512) == 0) ≡ false
    → slot s h k y ≡ get_entry (node s h k (y / 512)) (y % 512) s
unfolding slot below
slot_def s h k y o = rw o refl

pub slot_none : (s : Memory) (h : Ptr) (k y : ℕ) → node s h k (y / 512) ≡ 0 → slot s h k y ≡ 0
unfolding slot
slot_none s h k y e = ap (λ (v : ℕ). below s v (y % 512)) e ∙ below_zero s (y % 512)

to_table_zero : to_table 0 ≡ 0
unfolding to_table
to_table_zero = refl

pub node_none : (s : Memory) (h : Ptr) (k y : ℕ) → slot s h k y ≡ 0 → node s h (suc k) y ≡ 0
node_none s h k y e = node-suc s h k y ∙ ap to_table e ∙ to_table_zero

pub to_table_eq : (e : ℕ) → e ≢ 0 → to_table e ≡ table_of e
unfolding to_table
to_table_eq e h = ground arith

pub IsUsed-page : (s : Memory) (p : ℕ) → p < 2 ^ 15 → s.frames.ref p ≢ 0 → IsUsed s (page_at p)
IsUsed-page s p h k = record { pfn = p; at = refl; small = h; counted = k }

pub page_entry_def : (s : Memory) (g : Ptr) (pfn : ℕ) → page_entry s g pfn ≡ slot s g 3 pfn
unfolding page_entry
page_entry_def s g pfn = refl

pub user_pages : user_size 4 ≡ 2 ^ 35
unfolding user_size
user_pages = refl

pub user_size_def : (l : ℕ) → user_size (suc l) ≡ 256 * 512 ^ l
unfolding user_size
user_size_def l = refl

pub slot_entry :
    (s : Memory) (h : Ptr) (k y : ℕ)
    → slot s h k y ≢ 0
    → get_entry (node s h k (y / 512)) (y % 512) s ≡ slot s h k y
slot_entry s h k y ne = elim (Bool-cases (node s h k (y / 512) == 0)) [
  | inl e ↦ absurd (ne (slot_none s h k y (ground arith)))
  | inr o ↦ sym (slot_def s h k y o)
]

pub node_of_slot :
    (s : Memory) (h : Ptr) (k y : ℕ)
    → slot s h k y ≢ 0
    → node s h (suc k) y ≡ table_of (slot s h k y)
node_of_slot s h k y ne = node-suc s h k y ∙ to_table_eq (slot s h k y) ne

pub user_size_zero : user_size 0 ≡ 1
unfolding user_size
user_size_zero = refl

-- The page of a top table.
pub root_used :
    (R : Ptr → Type 0) (s : Memory) (h : Ptr) → IsForest R s → R h → IsUsed s (node s h 0 0)
root_used R s h forest rh =
    forest.used h 0 0 rh (omega arith) (omega (arith, user_size_zero))
      (λ w. forest.rooted h rh (sym (node-zero s h 0) ∙ w))
