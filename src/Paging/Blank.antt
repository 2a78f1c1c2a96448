-- ===== src/Paging/Blank.antt =====
-- Top tables with no entry for the user.
use plum_os.Prelude.{ℕ, zero, suc, ◌/◌, ◌%◌, ◌^◌, ◌≤◌, ◌<◌, ◌≡◌, refl, sym, ◌∙◌, ◌≢◌, arith, subst}
use plum_os.Kernel.{Ptr}
use plum_os.Vma.{page_at}
use plum_os.Paging.{Memory, get_entry, entry_of, self_ref_index}
use plum_os.Paging.Tree.{
  node, slot, page_entry, page_entry_def, IsUsed, IsForest, node-zero, node_none, slot_none,
  slot_at, user_size, user_size_half, user_size_zero, user_size_def, user_pages, page_at_nonzero,
}

-- The top table of an address space without a page of the user.
pub record IsBlank (s : Memory) (g : Ptr) : Type 0 where
  pub pfn : ℕ
  pub at : g ≡ page_at pfn
  pub small : pfn < 2 ^ 15
  pub counted : s.frames.ref pfn ≢ 0
  pub empty : (o : ℕ) → o < 256 → get_entry (page_at pfn) o s ≡ 0
  pub self : get_entry g self_ref_index s ≡ entry_of g 3

pub blank_slot :
    (s : Memory) (g : Ptr) (l x : ℕ) → IsBlank s g → x < user_size (suc l) → slot s g l x ≡ 0
blank_slot s g zero x b h =
    slot_at s g 0 x b.pfn (node-zero s g (x / 512) ∙ b.at) (omega (arith, b.small))
    ∙ b.empty (x % 512) (omega (arith, user_size_def 0))
blank_slot s g (suc l) x b h =
    slot_none s g (suc l) x
      (node_none s g l (x / 512) (blank_slot s g l (x / 512) b (user_size_half (suc l) x h)))

blank_node :
    (s : Memory) (g : Ptr) (l x : ℕ) → IsBlank s g → x < user_size (suc l) → node s g (suc l) x ≡ 0
blank_node s g l x b h = node_none s g l x (blank_slot s g l x b h)

pub blank_page :
    (s : Memory) (g : Ptr) (pfn : ℕ) → IsBlank s g → pfn < 2 ^ 35 → page_entry s g pfn ≡ 0
blank_page s g pfn b h = page_entry_def s g pfn ∙ blank_slot s g 3 pfn b (omega (arith, user_pages))

blank_nonzero : (s : Memory) (g : Ptr) → IsBlank s g → g ≢ 0
blank_nonzero s g b w = page_at_nonzero b.pfn (omega (arith, b.small)) (sym b.at ∙ w)

module _ (R : Ptr → Type 0) (s : Memory) (blank : (g : Ptr) → R g → IsBlank s g) where
  used_blank :
      (g : Ptr) (l x : ℕ)
      → R g
      → l ≤ 3
      → x < user_size l
      → node s g l x ≢ 0
      → IsUsed s (node s g l x)
  used_blank g zero x rg ld xu ne = subst (IsUsed s) (sym (node-zero s g x)) (record {
    pfn = (blank g rg).pfn;
    at = (blank g rg).at;
    small = (blank g rg).small;
    counted = (blank g rg).counted;
  })
  used_blank g (suc l) x rg ld xu ne = absurd (ne (blank_node s g l x (blank g rg) xu))

  apart_blank :
      (g h : Ptr) (l k x y : ℕ)
      → R g
      → R h
      → l ≤ 3
      → k ≤ 3
      → x < user_size l
      → y < user_size k
      → node s g l x ≢ 0
      → node s g l x ≡ node s h k y
      → (g ≡ h) × (l ≡ k) × (x ≡ y)
  apart_blank g h zero zero x y rg rh ld kd xu yu ne eq =
      (sym (node-zero s g x) ∙ eq ∙ node-zero s h y, refl, omega (arith, user_size_zero))
  apart_blank g h zero (suc k) x y rg rh ld kd xu yu ne eq =
      absurd (ne (eq ∙ blank_node s h k y (blank h rh) yu))
  apart_blank g h (suc l) k x y rg rh ld kd xu yu ne eq =
      absurd (ne (blank_node s g l x (blank g rg) xu))

  pub IsForest-blank : IsForest R s
  IsForest-blank = record {
    used = used_blank;
    apart = apart_blank;
    mapped = λ g pfn rg small ne. absurd (ne (blank_page s g pfn (blank g rg) small));
    mapped_apart =
        λ g h pfn k y rg rh small kd yu ne. absurd (ne (blank_page s g pfn (blank g rg) small));
    present = λ g l x rg ld xu ne. absurd (ne (blank_slot s g l x (blank g rg) xu));
    opened = λ g l x rg ld xu ne. absurd (ne (blank_slot s g l x (blank g rg) xu));
    self = λ g rg. (blank g rg).self;
    rooted = λ g rg. blank_nonzero s g (blank g rg);
  }
