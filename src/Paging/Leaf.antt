-- ===== src/Paging/Leaf.antt =====
-- What a new entry of a page does to the tree of tables, where the page is in use already.
use plum_os.Prelude.{
  ℕ, zero, suc, ◌/◌, ◌%◌, ◌^◌, ◌≤◌, ◌<◌, ◌≡◌, refl, sym, ap, ◌∙◌, ◌≢◌, ◌⊎◌, inl, inr, Bool, true,
  false, ◌&&◌, ◌==◌, if◌then◌else◌, Bool-cases, arith, subst,
}
use plum_os.Kernel.{Ptr}
use plum_os.Vma.{page_at}
use plum_os.Paging.{Memory, table_of, get_entry, entry_of, self_ref_index}
use plum_os.Paging.Tree.{
  IsPresent, root_used, user_size_zero, to_table, node, slot, page_entry, user_size, user_pages,
  page_entry_def, IsUsed, IsForest, node-suc, node-zero, user_size_half, page_at_nonzero, slot_at,
  slot_none,
}

-- Entry `off` of page tp is e now; the other entries of pages in use are as before, and pages in use
-- still are.
pub record Rewritten (s t : Memory) (tp off e : ℕ) : Type 0 where
  pub got : get_entry (page_at tp) off t ≡ e
  pub same :
      (p o : ℕ)
      → p < 2 ^ 15
      → s.frames.ref p ≢ 0
      → o < 512
      → (tp ≢ p) ⊎ (off ≢ o)
      → get_entry (page_at p) o t ≡ get_entry (page_at p) o s
  pub kept : (p : ℕ) → p < 2 ^ 15 → s.frames.ref p ≢ 0 → t.frames.ref p ≢ 0

module _ (R : Ptr → Type 0) (s t : Memory) (g : Ptr) (pfn tp e : ℕ) (forest : IsForest R s)
    (root : R g) (user : pfn < 2 ^ 35) (here : node s g 3 (pfn / 512) ≡ page_at tp)
    (tp_small : tp < 2 ^ 15) (f : Rewritten s t tp (pfn % 512) e) where
  abbrev is_here : Ptr → ℕ → Bool
  is_here h k = (g == h) && (pfn == k)

  user_here : pfn < user_size 4
  user_here = omega (arith, user_pages)

  -- An entry of a table in use that is not the one rewritten.
  slot_same :
      (h : Ptr) (k y : ℕ)
      → node t h k (y / 512) ≡ node s h k (y / 512)
      → ((u : IsUsed s (node s h k (y / 512))) → (tp ≢ u.pfn) ⊎ (pfn % 512 ≢ y % 512))
      → (node s h k (y / 512) ≢ 0 → IsUsed s (node s h k (y / 512)))
      → slot t h k y ≡ slot s h k y
  slot_same h k y i away used = elim (Bool-cases (node s h k (y / 512) == 0)) [
    | inl e ↦ slot_none t h k y (i ∙ ground arith) ∙ sym (slot_none s h k y (ground arith))
    | inr ne ↦ at_page (used (ground arith))
  ]
    where
      at_page : IsUsed s (node s h k (y / 512)) → slot t h k y ≡ slot s h k y
      at_page u =
          slot_at t h k y u.pfn (i ∙ u.at) (omega (arith, u.small))
          ∙ f.same u.pfn (y % 512) u.small u.counted (omega arith) (away u)
          ∙ sym (slot_at s h k y u.pfn u.at (omega (arith, u.small)))

  -- Entries above the last level.
  slot_low :
      (h : Ptr) (k y : ℕ)
      → R h
      → k ≤ 2
      → y < user_size (suc k)
      → node t h k (y / 512) ≡ node s h k (y / 512)
      → slot t h k y ≡ slot s h k y
  slot_low h k y rh kd yu i =
      slot_same h k y i
        (λ u. inl (λ w. level (
          forest.apart g h 3 k (pfn / 512) (y / 512) root rh (omega arith) (omega arith)
            (user_size_half 3 pfn user_here) (user_size_half k y yu)
            (λ v. page_at_nonzero tp (omega arith) (sym here ∙ v))
            (here ∙ ap page_at w ∙ sym u.at))))
        (λ ne. forest.used h k (y / 512) rh (omega arith) (user_size_half k y yu) ne)
    where
      level : (g ≡ h) × (3 ≡ k) × (pfn / 512 ≡ y / 512) → ⊥
      level (a, b, c) = omega arith

  pub node_same : (h : Ptr) (k y : ℕ) → R h → k ≤ 3 → y < user_size k → node t h k y ≡ node s h k y
  node_same h zero y rh kd yu = node-zero t h y ∙ sym (node-zero s h y)
  node_same h (suc k) y rh kd yu =
      node-suc t h k y
      ∙ ap to_table (
          slot_low h k y rh (omega arith) yu
            (node_same h k (y / 512) rh (omega arith) (user_size_half k y yu)))
      ∙ sym (node-suc s h k y)

  pub entry_rewritten :
      (h : Ptr) (k : ℕ)
      → R h
      → k < 2 ^ 35
      → page_entry t h k ≡ (if is_here h k then e else page_entry s h k)
  entry_rewritten h k rh ku = elim (Bool-cases (is_here h k)) [
    | inl n ↦ rw n (page_entry_def t h k ∙ hit n)
    | inr o ↦ rw o (
        page_entry_def t h k
        ∙ slot_same h 3 k same_node (elsewhere o)
            (λ ne. forest.used h 3 (k / 512) rh (omega arith) half ne)
        ∙ sym (page_entry_def s h k))
  ]
    where
      half : k / 512 < user_size 3
      half = user_size_half 3 k (omega (arith, user_pages))

      same_node : node t h 3 (k / 512) ≡ node s h 3 (k / 512)
      same_node = node_same h 3 (k / 512) rh (omega arith) half

      hit : is_here h k ≡ true → slot t h 3 k ≡ e
      hit n =
          slot_at t h 3 k tp (same_node ∙ there ∙ here) (omega arith)
          ∙ ap (λ (o : ℕ). get_entry (page_at tp) o t) same_off
          ∙ f.got
        where
          there : node s h 3 (k / 512) ≡ node s g 3 (pfn / 512)
          there = ground (arith, n)

          same_off : k % 512 ≡ pfn % 512
          same_off = ground (arith, n)

      elsewhere :
          is_here h k ≡ false
          → (u : IsUsed s (node s h 3 (k / 512))) → (tp ≢ u.pfn) ⊎ (pfn % 512 ≢ k % 512)
      elsewhere o u = elim (Bool-cases (tp == u.pfn)) [
        | inr ne ↦ inl (ground arith)
        | inl eq ↦ inr λ off. both_same (ground arith) off
      ]
        where
          both_same : tp ≡ u.pfn → pfn % 512 ≡ k % 512 → ⊥
          both_same a b = ground (
            arith,
            o,
            forest.apart g h 3 3 (pfn / 512) (k / 512) root rh (omega arith) (omega arith)
                (user_size_half 3 pfn user_here) half
                (λ v. page_at_nonzero tp (omega arith) (sym here ∙ v))
                (here ∙ ap page_at a ∙ sym u.at),
          )

  IsUsed-still : (v : Ptr) → IsUsed s v → IsUsed t v
  IsUsed-still v u = record {
    pfn = u.pfn;
    at = u.at;
    small = u.small;
    counted = f.kept u.pfn u.small u.counted;
  }

  rewritten-cases :
      (h : Ptr) (k : ℕ)
      → R h
      → k < 2 ^ 35
      → (page_entry t h k ≡ e) ⊎ (page_entry t h k ≡ page_entry s h k)
  rewritten-cases h k rh ku = elim (Bool-cases (is_here h k)) [
    | inl n ↦ inl (entry_rewritten h k rh ku ∙ rw n refl)
    | inr o ↦ inr (entry_rewritten h k rh ku ∙ rw o refl)
  ]

  pub slots_same :
      (h : Ptr) (k y : ℕ) → R h → k ≤ 2 → y < user_size (suc k) → slot t h k y ≡ slot s h k y
  slots_same h k y rh kd yu =
      slot_low h k y rh kd yu (node_same h k (y / 512) rh (omega arith) (user_size_half k y yu))

  self_same : (h : Ptr) → R h → get_entry h self_ref_index t ≡ entry_of h 3
  self_same h rh =
      ap (λ (a : Ptr). get_entry a self_ref_index t) at_page
      ∙ f.same u.pfn self_ref_index u.small u.counted (omega arith) (
          inl λ w. level (
            forest.apart g h 3 0 (pfn / 512) 0 root rh (omega arith) (omega arith)
              (user_size_half 3 pfn user_here) (omega (arith, user_size_zero))
              (λ v. page_at_nonzero tp (omega arith) (sym here ∙ v))
              (here ∙ ap page_at w ∙ sym u.at)))
      ∙ ap (λ (a : Ptr). get_entry a self_ref_index s) (sym at_page)
      ∙ forest.self h rh
    where
      u : IsUsed s (node s h 0 0)
      u = root_used R s h forest rh

      at_page : h ≡ page_at u.pfn
      at_page = sym (node-zero s h 0) ∙ u.at

      level : (g ≡ h) × (◌≡◌ {A = ℕ} 3 0) × (pfn / 512 ≡ 0) → ⊥
      level (a, b, c) = omega arith

  pub IsForest-rewritten :
      IsUsed t (table_of e)
      → ((h : Ptr) (k y : ℕ) → R h → k ≤ 3 → y < user_size k → node s h k y ≢ table_of e)
      → IsForest R t
  IsForest-rewritten frame away = record {
    used = λ h l x rh ld xu ne. subst (IsUsed t) (sym (node_same h l x rh ld xu)) (
        IsUsed-still (node s h l x)
          (forest.used h l x rh ld xu (λ w. ne (node_same h l x rh ld xu ∙ w))));
    apart = λ h i l k x y rh ri ld kd xu yu ne eq.
        forest.apart h i l k x y rh ri ld kd xu yu (λ w. ne (node_same h l x rh ld xu ∙ w))
          (sym (node_same h l x rh ld xu) ∙ eq ∙ node_same i k y ri kd yu);
    mapped = λ h k rh ku ne. elim (rewritten-cases h k rh ku) [
      | inl n ↦ subst (λ (v : ℕ). IsUsed t (table_of v)) (sym n) frame
      | inr o ↦
          subst (λ (v : ℕ). IsUsed t (table_of v)) (sym o)
            (IsUsed-still (table_of (page_entry s h k)) (forest.mapped h k rh ku (λ w. ne (o ∙ w))))
    ];
    mapped_apart = λ h i k l y rh ri ku ld yu ne eq. elim (rewritten-cases h k rh ku) [
      | inl n ↦ away i l y ri ld yu (sym (node_same i l y ri ld yu) ∙ eq ∙ ap table_of n)
      | inr o ↦
          forest.mapped_apart h i k l y rh ri ku ld yu (λ w. ne (o ∙ w))
            (sym (node_same i l y ri ld yu) ∙ eq ∙ ap table_of o)
    ];
    present = λ h l x rh ld xu ne eq.
        forest.present h l x rh ld xu (λ w. ne (slots_same h l x rh ld xu ∙ w))
          (sym (node_same h (suc l) x rh (omega arith) xu) ∙ eq);
    opened = λ h l x rh ld xu ne.
        subst IsPresent (sym (slots_same h l x rh ld xu))
          (forest.opened h l x rh ld xu (λ w. ne (slots_same h l x rh ld xu ∙ w)));
    self = self_same;
    rooted = forest.rooted;
  }
