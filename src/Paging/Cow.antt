-- ===== src/Paging/Cow.antt =====
-- The write fault on a page that is shared: copy_on_write of sys/mmap.c's page_fault_handler.
use plum_os.Prelude.{
  ℕ, suc, ◌+◌, ◌*◌, ◌/◌, ◌%◌, ◌^◌, ◌≤◌, ◌<◌, ◌≡◌, refl, sym, ap, ◌∙◌, ◌≢◌, ◌⊎◌, inl, inr, ◌==◌,
  Bool-cases, arith, subst,
}
use plum_os.Frames.{Frames, deduct_page_ref}
use plum_os.Kernel.{Ptr}
use plum_os.Vma.{page_at}
use plum_os.Paging.{
  Bytes, Memory, store, entry_of, entry_at, table_of, get_entry, put_entry, open_entry, copy_page,
  self_ref_index,
}
use plum_os.Paging.Faults.{deduct, put_pte_entry_trick, pte_trick}
use plum_os.Paging.Words.{entry_of_eq, table_of_eq, get_entry-put_entry, get_entry-put_entry_apart}
use plum_os.Paging.Tree.{
  IsPresent, node, slot, page_entry, IsUsed, IsForest, IsUsed-page, slot_at, page_entry_def,
  page_at_inj, page_at_nonzero, user_size, user_size_half, user_pages, user_size_def,
  user_size_zero, node-zero,
}
use plum_os.Paging.Fresh.{Fresh, clear-outside, put_entry-data, put_entry-frames}
use plum_os.Paging.Copy.{copy_page-inside, copy_page-outside, copy_page-frames, get_entry_bytes}
use plum_os.Paging.Trick.{IsOpen}
use plum_os.Paging.Leaf.{node_same, slots_same, Rewritten, entry_rewritten, IsForest-rewritten}

deduct-ref :
    (p : ℕ) (s : Memory)
    → 1 ≤ s.frames.ref p
    → s.frames.ref p < 2 ^ 31
    → ((deduct p s).frames.ref p + 1 ≡ s.frames.ref p)
      × ((k : ℕ) → k ≢ p → (deduct p s).frames.ref k ≡ s.frames.ref k)
unfolding deduct deduct_page_ref
deduct-ref p s h l = (ground arith, λ k ne. ground arith)

deduct-byte : (p : ℕ) (s : Memory) → (deduct p s).byte ≡ s.byte
unfolding deduct
deduct-byte p s = refl

get_entry-deduct : (t o p : ℕ) (s : Memory) → get_entry t o (deduct p s) ≡ get_entry t o s
unfolding get_entry deduct
get_entry-deduct t o p s = refl

-- t maps a copy of page fp at pfn below g: the page q, which was free. One reference to fp is gone.
pub record Copied (R : Ptr → Type 0) (s : Memory) (g : Ptr) (pfn fp q : ℕ) (t : Memory)
    : Type 0 where
  pub forest : IsForest R t
  pub entry : page_entry t g pfn ≡ q * 4096 + open_entry
  pub copied : (i : ℕ) → i < 4096 → t.byte (page_at q + i) ≡ s.byte (page_at fp + i)
  pub was_free : s.frames.ref q ≡ 0
  pub taken : t.frames.ref q ≡ 1
  pub deducted : t.frames.ref fp + 1 ≡ s.frames.ref fp
  pub entries :
      (h : Ptr) (k : ℕ)
      → R h
      → k < 2 ^ 35
      → (g ≢ h) ⊎ (pfn ≢ k)
      → page_entry t h k ≡ page_entry s h k
  pub contents :
      (h : Ptr) (k i : ℕ)
      → R h
      → k < 2 ^ 35
      → page_entry s h k ≢ 0
      → i < 4096
      → t.byte (table_of (page_entry s h k) + i) ≡ s.byte (table_of (page_entry s h k) + i)
  pub counts : (k : ℕ) → k ≢ q → k ≢ fp → t.frames.ref k ≡ s.frames.ref k

-- The copy is made in page q, then entered in page tp, and page fp loses a reference.
abbrev pub copied_state : ℕ → ℕ → ℕ → ℕ → Memory → Memory
copied_state tp off q fp v =
    deduct fp
      (put_entry (page_at tp) off (page_at q) open_entry (copy_page (page_at q) (page_at fp) v))

module _ (R : Ptr → Type 0) (s v : Memory) (g : Ptr) (pfn tp fp q : ℕ) (forest : IsForest R s)
    (root : R g) (user : pfn < 2 ^ 35) (here : node s g 3 (pfn / 512) ≡ page_at tp)
    (tp_small : tp < 2 ^ 15) (tp_used : s.frames.ref tp ≢ 0) (fp_small : fp < 2 ^ 15)
    (shared : 2 ≤ s.frames.ref fp) (int : s.frames.ref fp < 2 ^ 31) (k : Fresh s v q) where
  abbrev off : ℕ
  off = pfn % 512

  abbrev copy : Memory
  copy = copy_page (page_at q) (page_at fp) v

  abbrev entered : Memory
  entered = put_entry (page_at tp) off (page_at q) open_entry copy

  -- What the page counts are after the copy.
  used-ne : (p : ℕ) → s.frames.ref p ≢ 0 → p ≢ q
  used-ne p u e = u (ap (λ (i : ℕ). s.frames.ref i) e ∙ k.was_free)

  fp-ne : fp ≢ q
  fp-ne = used-ne fp (λ e. omega arith)

  entered-ref : (p : ℕ) → entered.frames.ref p ≡ v.frames.ref p
  entered-ref p =
      ap (λ (c : Frames). c.ref p)
        (put_entry-frames (page_at tp) off (page_at q) open_entry copy
          ∙ copy_page-frames (page_at q) (page_at fp) v)

  fp-ref : entered.frames.ref fp ≡ s.frames.ref fp
  fp-ref = entered-ref fp ∙ k.others fp fp-ne

  deducted-ref :
      ((copied_state tp off q fp v).frames.ref fp + 1 ≡ entered.frames.ref fp)
      × ((p : ℕ) → p ≢ fp → (copied_state tp off q fp v).frames.ref p ≡ entered.frames.ref p)
  deducted-ref = deduct-ref fp entered (omega (arith, fp-ref)) (omega (arith, fp-ref))

  untouched :
      (p i : ℕ)
      → p < 2 ^ 15
      → s.frames.ref p ≢ 0
      → i < 4096
      → copy.byte (page_at p + i) ≡ s.byte (page_at p + i)
  untouched p i a u h =
      copy_page-outside p q (page_at fp) i v a (omega (arith, k.below)) (used-ne p u) h
      ∙ ap (λ (m : Bytes). m (page_at p + i)) k.cleared
      ∙ clear-outside s.byte q p i (omega (arith, k.below)) a (used-ne p u) h

  old_ref : (p : ℕ) → p ≢ fp → p ≢ q → (copied_state tp off q fp v).frames.ref p ≡ s.frames.ref p
  old_ref p ne nq = deducted-ref.1 p ne ∙ entered-ref p ∙ k.others p nq

  -- The bytes of a page in use outside the table.
  copied_bytes :
      (p i : ℕ)
      → p < 2 ^ 15
      → s.frames.ref p ≢ 0
      → p ≢ tp
      → i < 4096
      → (copied_state tp off q fp v).byte (page_at p + i) ≡ s.byte (page_at p + i)
  copied_bytes p i a u ne h =
      ap (λ (m : Bytes). m (page_at p + i)) (deduct-byte fp entered)
      ∙ put_entry-data p i tp off (page_at q) open_entry copy a tp_small ne h (omega arith)
      ∙ untouched p i a u h

  entered-Rewritten : Rewritten s (copied_state tp off q fp v) tp off (q * 4096 + open_entry)
  entered-Rewritten = record {
    got =
        get_entry-deduct (page_at tp) off fp entered
        ∙ get_entry-put_entry tp off (page_at q) open_entry copy (omega (arith, is_entry, k.below))
        ∙ is_entry;
    same = λ p o a u h away.
        get_entry-deduct (page_at p) o fp entered
        ∙ get_entry-put_entry_apart tp off p o (page_at q) open_entry copy (omega arith)
            (omega arith) (omega arith) h away
        ∙ get_entry_bytes p o s copy a h (λ i lt. untouched p i a u lt);
    kept = λ p a u. elim (Bool-cases (p == fp)) [
      | inl e ↦ ground (arith, deducted-ref.0, fp-ref, e)
      | inr o ↦ λ w. u (sym (old_ref p (ground arith) (used-ne p u)) ∙ w)
    ];
  }
    where
      is_entry : entry_of (page_at q) open_entry ≡ q * 4096 + open_entry
      is_entry = entry_of_eq q open_entry (omega (arith, k.below)) (omega arith)

  -- The copy alone changes no table.
  copy-Rewritten : Rewritten s copy tp off (page_entry s g pfn)
  copy-Rewritten = record {
    got =
        get_entry_bytes tp off s copy tp_small (omega arith)
          (λ i lt. untouched tp i tp_small tp_used lt)
        ∙ sym (slot_at s g 3 pfn tp here (omega arith))
        ∙ sym (page_entry_def s g pfn);
    same = λ p o a u h away. get_entry_bytes p o s copy a h (λ i lt. untouched p i a u lt);
    kept = λ p a u w. u (sym (copy_ref p u) ∙ w);
  }
    where
      copy_ref : (p : ℕ) → s.frames.ref p ≢ 0 → copy.frames.ref p ≡ s.frames.ref p
      copy_ref p u =
          ap (λ (c : Frames). c.ref p) (copy_page-frames (page_at q) (page_at fp) v)
          ∙ k.others p (used-ne p u)

  pub copy-node : node copy g 3 (pfn / 512) ≡ node s g 3 (pfn / 512)
  copy-node =
      node_same R s copy g pfn tp (page_entry s g pfn) forest root user here tp_small copy-Rewritten
        g 3 (pfn / 512) root (omega arith) (user_size_half 3 pfn (omega (arith, user_pages)))

  copy-slot : (l y : ℕ) → l ≤ 2 → y < user_size (suc l) → slot copy g l y ≡ slot s g l y
  copy-slot l y ld yu =
      slots_same R s copy g pfn tp (page_entry s g pfn) forest root user here tp_small
        copy-Rewritten g l y root ld yu

  pub copy-IsOpen : (p : ℕ) → g ≡ page_at p → IsOpen s p pfn → IsOpen copy p pfn
  copy-IsOpen p gp o = record {
    table = o.table;
    self =
        get_entry_bytes p self_ref_index s copy o.table (omega arith)
          (λ i lt. untouched p i o.table top_used lt)
        ∙ o.self;
    top =
        subst IsPresent (sym (at 0 (pfn / 2 ^ 27) (omega arith) (omega (arith, user_size_def 0))))
          o.top;
    middle =
        subst IsPresent (sym (at 1 (pfn / 2 ^ 18) (omega arith) (omega (arith, user_size_def 1))))
          o.middle;
    low =
        subst IsPresent (sym (at 2 (pfn / 512) (omega arith) (omega (arith, user_size_def 2))))
          o.low;
  }
    where
      at :
          (l y : ℕ)
          → l ≤ 2
          → y < user_size (suc l)
          → slot copy (page_at p) l y ≡ slot s (page_at p) l y
      at l y ld yu = subst (λ (h : Ptr). slot copy h l y ≡ slot s h l y) gp (copy-slot l y ld yu)

      top_table : IsUsed s (node s g 0 0)
      top_table =
          forest.used g 0 0 root (omega arith) (omega (arith, user_size_zero))
            (λ w. forest.rooted g root (sym (node-zero s g 0) ∙ w))

      same_pfn : top_table.pfn ≡ p
      same_pfn =
          page_at_inj top_table.pfn p (omega (arith, top_table.small)) (omega (arith, o.table))
            (sym top_table.at ∙ node-zero s g 0 ∙ gp)

      top_used : s.frames.ref p ≢ 0
      top_used = λ w. top_table.counted (ap (λ (i : ℕ). s.frames.ref i) same_pfn ∙ w)

  copied_page :
      (i : ℕ)
      → i < 4096
      → (copied_state tp off q fp v).byte (page_at q + i) ≡ s.byte (page_at fp + i)
  copied_page i h =
      ap (λ (m : Bytes). m (page_at q + i)) (deduct-byte fp entered)
      ∙ put_entry-data q i tp off (page_at q) open_entry copy (omega (arith, k.below)) tp_small
          (λ w. used-ne tp tp_used (sym w)) h (omega arith)
      ∙ copy_page-inside fp q i v fp_small (omega (arith, k.below)) fp-ne h
      ∙ ap (λ (m : Bytes). m (page_at fp + i)) k.cleared
      ∙ clear-outside s.byte q fp i (omega (arith, k.below)) fp_small fp-ne h

  -- The fresh page is no table.
  no_table : (h : Ptr) (l y : ℕ) → R h → l ≤ 3 → y < user_size l → node s h l y ≡ page_at q → ⊥
  no_table h l y rh ld yu w =
      used-ne u.pfn u.counted
        (page_at_inj u.pfn q (omega (arith, u.small)) (omega (arith, k.below)) (sym u.at ∙ w))
    where
      u : IsUsed s (node s h l y)
      u = forest.used h l y rh ld yu (λ z. page_at_nonzero q (omega (arith, k.below)) (sym w ∙ z))

  frame_used :
      (h : Ptr) (l : ℕ)
      → R h
      → l < 2 ^ 35
      → page_entry s h l ≢ 0
      → IsUsed s (table_of (page_entry s h l))
  frame_used h l rh lu ne = forest.mapped h l rh lu ne

  pub copied_state-Copied : Copied R s g pfn fp q (copied_state tp off q fp v)
  copied_state-Copied = record {
    forest =
        IsForest-rewritten R s t g pfn tp e forest root user here tp_small entered-Rewritten
          (subst (IsUsed t) (sym leads)
            (IsUsed-page t q (omega (arith, k.below)) (ground (arith, new_ref))))
          (λ h l y rh ld yu w. no_table h l y rh ld yu (w ∙ leads));
    entry =
        entry_rewritten R s t g pfn tp e forest root user here tp_small entered-Rewritten g pfn root
          user
        ∙ ground arith;
    copied = λ i h. copied_page i h;
    was_free = k.was_free;
    taken = new_ref;
    deducted = deducted-ref.0 ∙ fp-ref;
    entries = λ h l rh lu o.
        entry_rewritten R s t g pfn tp e forest root user here tp_small entered-Rewritten h l rh lu
        ∙ ground (arith, o);
    contents = λ h l i rh lu ne lt.
        ap (λ (a : ℕ). t.byte (a + i)) (frame_used h l rh lu ne).at
        ∙ copied_bytes (frame_used h l rh lu ne).pfn i (frame_used h l rh lu ne).small
            (frame_used h l rh lu ne).counted
            (λ w.
              forest.mapped_apart h g l 3 (pfn / 512) rh root lu (omega arith)
                (user_size_half 3 pfn (omega (arith, user_pages))) ne
                (here ∙ sym ((frame_used h l rh lu ne).at ∙ ap page_at w)))
            lt
        ∙ ap (λ (a : ℕ). s.byte (a + i)) (sym (frame_used h l rh lu ne).at);
    counts = λ p nq ne. old_ref p ne nq;
  }
    where
      t : Memory
      t = copied_state tp off q fp v

      e : ℕ
      e = q * 4096 + open_entry

      leads : table_of e ≡ page_at q
      leads = table_of_eq q open_entry (omega (arith, k.below)) (omega arith)

      new_ref : t.frames.ref q ≡ 1
      new_ref = deducted-ref.1 q (λ w. fp-ne (sym w)) ∙ entered-ref q ∙ k.taken

pub put_pte_entry_trick-put_entry :
    (mmu : Bytes → Ptr → ℕ → Ptr) (pgd addr table o va f : ℕ) (s : Memory)
    → mmu s.byte pgd (pte_trick addr) ≡ entry_at table o
    → put_pte_entry_trick mmu pgd addr va f s ≡ put_entry table o va f s
unfolding put_pte_entry_trick put_entry
put_pte_entry_trick-put_entry mmu pgd addr table o va f s e =
    ap (λ (a : Ptr). record s { byte = store s.byte a (entry_of va f) }) e
