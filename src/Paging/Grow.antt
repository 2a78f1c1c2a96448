-- ===== src/Paging/Grow.antt =====
-- What a new page in an empty entry does to the tree of tables.
use plum_os.Prelude.{
  ℕ, zero, suc, ◌+◌, ◌/◌, ◌%◌, ◌^◌, ◌≤◌, ◌<◌, ◌≡◌, refl, sym, ap, ◌∙◌, ◌≢◌, ◌⊎◌, inl, inr, Bool,
  true, false, ◌&&◌, ◌==◌, if◌then◌else◌, Bool-cases, arith, subst,
}
use plum_os.Kernel.{Ptr}
use plum_os.Vma.{page_at}
use plum_os.Paging.{Memory, table_of, get_entry, entry_of, self_ref_index}
use plum_os.Paging.Tree.{
  IsPresent, root_used, user_size_zero, user_size_def, to_table, node, slot, page_entry, user_size,
  IsUsed, IsForest, node-suc, user_size_half, node-zero, IsUsed-page, page_entry_def, user_pages,
  page_at_nonzero, page_at_inj, slot_at, slot_none, node_none, to_table_eq,
}

-- Entry `off` of page tp, empty before, is e now; page q was free and is a page of empty entries.
pub record Filled (s t : Memory) (tp off q e : ℕ) : Type 0 where
  pub got : get_entry (page_at tp) off t ≡ e
  pub clear : (o : ℕ) → o < 512 → get_entry (page_at q) o t ≡ 0
  pub same :
      (p o : ℕ)
      → p < 2 ^ 15
      → o < 512
      → p ≢ q
      → (tp ≢ p) ⊎ (off ≢ o)
      → get_entry (page_at p) o t ≡ get_entry (page_at p) o s
  -- The bytes of the new page, and of the pages but these two.
  pub zero_page : (i : ℕ) → i < 4096 → t.byte (page_at q + i) ≡ 0
  pub contents :
      (p i : ℕ)
      → p < 2 ^ 15
      → i < 4096
      → p ≢ q
      → p ≢ tp
      → t.byte (page_at p + i) ≡ s.byte (page_at p + i)
  pub was_free : s.frames.ref q ≡ 0
  pub taken : t.frames.ref q ≡ 1
  pub others : (p : ℕ) → p ≢ q → t.frames.ref p ≡ s.frames.ref p
  pub small : q < 2 ^ 15
  pub leads : table_of e ≡ page_at q
  pub nonzero : e ≢ 0
  pub follows : IsPresent e

module _ (R : Ptr → Type 0) (s t : Memory) (g : Ptr) (l z tp q e : ℕ) (forest : IsForest R s)
    (root : R g) (depth : l ≤ 3) (user : z < user_size (suc l))
    (here : node s g l (z / 512) ≡ page_at tp) (tp_small : tp < 2 ^ 15)
    (empty : get_entry (page_at tp) (z % 512) s ≡ 0) (f : Filled s t tp (z % 512) q e) where
  abbrev is_new : Ptr → ℕ → ℕ → Bool
  is_new h k y = (g == h) && (suc l == k) && (z == y)

  slot_empty : slot s g l z ≡ 0
  slot_empty = slot_at s g l z tp here (omega arith) ∙ empty

  -- A page in use is not the new one.
  used-ne : (v : Ptr) (u : IsUsed s v) → u.pfn ≢ q
  used-ne v u h = u.counted (ap (λ (p : ℕ). s.frames.ref p) h ∙ f.was_free)

  -- Below the new page there is nothing, now and before.
  slot-new :
      (h : Ptr) (k y : ℕ)
      → is_new h k (y / 512) ≡ true
      → node t h k (y / 512) ≡ page_at q
      → slot t h k y ≡ slot s h k y
  slot-new h k y n i =
      slot_at t h k y q i (omega (arith, f.small))
      ∙ f.clear (y % 512) (omega arith)
      ∙ sym (slot_none s h k y (same_node ∙ node_none s g l z slot_empty))
    where
      same_node : node s h k (y / 512) ≡ node s g (suc l) z
      same_node = ground (arith, n)

  -- The entry that was filled.
  slot-filled :
      (h : Ptr) (k y : ℕ)
      → is_new h (suc k) y ≡ true
      → node t h k (y / 512) ≡ node s h k (y / 512)
      → slot t h k y ≡ e
  slot-filled h k y n i =
      slot_at t h k y tp (i ∙ same_node ∙ here) (omega arith)
      ∙ ap (λ (o : ℕ). get_entry (page_at tp) o t) same_off
      ∙ f.got
    where
      same_node : node s h k (y / 512) ≡ node s g l (z / 512)
      same_node = ground (arith, n)

      same_off : y % 512 ≡ z % 512
      same_off = ground (arith, n)

  -- Any other entry of a table is elsewhere.
  elsewhere :
      (h : Ptr) (k y : ℕ)
      → R h
      → k ≤ 3
      → y < user_size (suc k)
      → (u : IsUsed s (node s h k (y / 512))) → is_new h (suc k) y ≡ false
      → (tp ≢ u.pfn) ⊎ (z % 512 ≢ y % 512)
  elsewhere h k y rh kd yu u o = elim (Bool-cases (tp == u.pfn)) [
    | inr ne ↦ inl (ground arith)
    | inl eq ↦ elim (Bool-cases (z % 512 == y % 512)) [
      | inr ne ↦ inr (ground arith)
      | inl both ↦ absurd (clash (ground arith) (ground arith))
    ]
  ]
    where
      clash : tp ≡ u.pfn → z % 512 ≡ y % 512 → ⊥
      clash a b = ground (
        arith,
        o,
        forest.apart g h l k (z / 512) (y / 512) root rh depth kd (user_size_half l z user)
            (user_size_half k y yu) (λ w. page_at_nonzero tp (omega arith) (sym here ∙ w))
            (here ∙ ap page_at a ∙ sym u.at),
      )

  -- A table that was there has a changed entry only in the place that was filled.
  slot-old :
      (h : Ptr) (k y : ℕ)
      → R h
      → k ≤ 3
      → y < user_size (suc k)
      → (u : IsUsed s (node s h k (y / 512))) → node t h k (y / 512) ≡ node s h k (y / 512)
      → slot t h k y ≡ (if is_new h (suc k) y then e else slot s h k y)
  slot-old h k y rh kd yu u i = elim (Bool-cases (is_new h (suc k) y)) [
    | inl n ↦ ground (arith, n, slot-filled h k y n i)
    | inr o ↦ rw o (
        slot_at t h k y u.pfn (i ∙ u.at) (omega (arith, u.small))
        ∙ f.same u.pfn (y % 512) u.small (omega arith) (used-ne (node s h k (y / 512)) u)
            (elsewhere h k y rh kd yu u o)
        ∙ sym (slot_at s h k y u.pfn u.at (omega (arith, u.small))))
  ]

  no_table :
      (h : Ptr) (k y : ℕ)
      → node s h k (y / 512) ≡ 0
      → node t h k (y / 512) ≡ node s h k (y / 512)
      → slot t h k y ≡ (if is_new h (suc k) y then e else slot s h k y)
  no_table h k y zero_there i = elim (Bool-cases (is_new h (suc k) y)) [
    | inl n ↦ absurd (page_at_nonzero tp (omega arith) (sym here ∙ same_node n ∙ zero_there))
    | inr o ↦ rw o (slot_none t h k y (i ∙ zero_there) ∙ sym (slot_none s h k y zero_there))
  ]
    where
      same_node : is_new h (suc k) y ≡ true → node s g l (z / 512) ≡ node s h k (y / 512)
      same_node n = ground (arith, n)

  slot-step :
      (h : Ptr) (k y : ℕ)
      → R h
      → k ≤ 3
      → y < user_size (suc k)
      → node t h k (y / 512) ≡ (if is_new h k (y / 512) then page_at q else node s h k (y / 512))
      → slot t h k y ≡ (if is_new h (suc k) y then e else slot s h k y)
  slot-step h k y rh kd yu i = elim (Bool-cases (is_new h k (y / 512))) [
    | inl n ↦ ground (arith, n, slot-new h k y n (i ∙ rw n refl))
    | inr o ↦ elim (Bool-cases (node s h k (y / 512) == 0)) [
      | inl none_there ↦ no_table h k y (ground arith) (i ∙ rw o refl)
      | inr there ↦
          slot-old h k y rh kd yu
            (forest.used h k (y / 512) rh kd (user_size_half k y yu) (ground arith)) (i ∙ rw o refl)
    ]
  ]

  node_new : (h : Ptr) (k y : ℕ) → slot t h k y ≡ e → node t h (suc k) y ≡ page_at q
  node_new h k y i = node-suc t h k y ∙ ap to_table i ∙ to_table_eq e f.nonzero ∙ f.leads

  node-step :
      (h : Ptr) (k y : ℕ)
      → slot t h k y ≡ (if is_new h (suc k) y then e else slot s h k y)
      → node t h (suc k) y ≡ (if is_new h (suc k) y then page_at q else node s h (suc k) y)
  node-step h k y i = elim (Bool-cases (is_new h (suc k) y)) [
    | inl n ↦ rw n (node_new h k y (i ∙ rw n refl))
    | inr o ↦ rw o (node-suc t h k y ∙ ap to_table (i ∙ rw o refl) ∙ sym (node-suc s h k y))
  ]

  pub node_grown :
      (h : Ptr) (k y : ℕ)
      → R h
      → k ≤ 3
      → y < user_size k
      → node t h k y ≡ (if is_new h k y then page_at q else node s h k y)
  node_grown h zero y rh kd yu = ground (arith, node-zero t h y, node-zero s h y)
  node_grown h (suc k) y rh kd yu = node-step h k y (
      slot-step h k y rh (omega arith) yu
        (node_grown h k (y / 512) rh (omega arith) (user_size_half k y yu)))

  pub slot_grown :
      (h : Ptr) (k y : ℕ)
      → R h
      → k ≤ 3
      → y < user_size (suc k)
      → slot t h k y ≡ (if is_new h (suc k) y then e else slot s h k y)
  slot_grown h k y rh kd yu =
      slot-step h k y rh kd yu (node_grown h k (y / 512) rh kd (user_size_half k y yu))

  IsUsed-kept : (v : Ptr) → IsUsed s v → IsUsed t v
  IsUsed-kept v u = record {
    pfn = u.pfn;
    at = u.at;
    small = u.small;
    counted = λ h. u.counted (sym (f.others u.pfn (used-ne v u)) ∙ h);
  }

  IsUsed-new : IsUsed t (page_at q)
  IsUsed-new = IsUsed-page t q f.small (ground (arith, f.taken))

  new-ne : (v : Ptr) → IsUsed s v → v ≢ page_at q
  new-ne v u h =
      used-ne v u
        (page_at_inj u.pfn q (omega (arith, u.small)) (omega (arith, f.small)) (sym u.at ∙ h))

  node-cases :
      (h : Ptr) (k y : ℕ)
      → R h
      → k ≤ 3
      → y < user_size k
      → ((is_new h k y ≡ true) × (node t h k y ≡ page_at q)) ⊎ (node t h k y ≡ node s h k y)
  node-cases h k y rh kd yu = elim (Bool-cases (is_new h k y)) [
    | inl n ↦ inl (n, node_grown h k y rh kd yu ∙ rw n refl)
    | inr o ↦ inr (node_grown h k y rh kd yu ∙ rw o refl)
  ]

  entry-cases :
      (h : Ptr) (pfn : ℕ)
      → R h
      → pfn < 2 ^ 35
      → ((is_new h 4 pfn ≡ true) × (table_of (page_entry t h pfn) ≡ page_at q))
        ⊎ (page_entry t h pfn ≡ page_entry s h pfn)
  entry-cases h pfn rh small = elim (Bool-cases (is_new h 4 pfn)) [
    | inl n ↦ inl (n, ap table_of (entry_grown ∙ rw n refl) ∙ f.leads)
    | inr o ↦ inr (entry_grown ∙ rw o (sym (page_entry_def s h pfn)))
  ]
    where
      entry_grown : page_entry t h pfn ≡ (if is_new h 4 pfn then e else slot s h 3 pfn)
      entry_grown =
          page_entry_def t h pfn ∙ slot_grown h 3 pfn rh (omega arith) (omega (arith, user_pages))

  grown_used :
      (h : Ptr) (k y : ℕ)
      → R h
      → k ≤ 3
      → y < user_size k
      → node t h k y ≢ 0
      → IsUsed t (node t h k y)
  grown_used h k y rh kd yu ne = elim (node-cases h k y rh kd yu) [
    | inl n ↦ subst (IsUsed t) (sym n.1) IsUsed-new
    | inr o ↦
        subst (IsUsed t) (sym o)
          (IsUsed-kept (node s h k y) (forest.used h k y rh kd yu (λ w. ne (o ∙ w))))
  ]

  grown_apart :
      (h i : Ptr) (k m x y : ℕ)
      → R h
      → R i
      → k ≤ 3
      → m ≤ 3
      → x < user_size k
      → y < user_size m
      → node t h k x ≢ 0
      → node t h k x ≡ node t i m y
      → (h ≡ i) × (k ≡ m) × (x ≡ y)
  grown_apart h i k m x y rh ri kd md xu yu ne eq = elim (node-cases h k x rh kd xu) [
    | inl n ↦ elim (node-cases i m y ri md yu) [
      | inl n2 ↦ ground (arith, n.0, n2.0)
      | inr o2 ↦ absurd (
          new-ne (node s i m y) (forest.used i m y ri md yu (λ w. ne (eq ∙ o2 ∙ w)))
            (sym o2 ∙ sym eq ∙ n.1))
    ]
    | inr o ↦ elim (node-cases i m y ri md yu) [
      | inl n2 ↦
          absurd (
            new-ne (node s h k x) (forest.used h k x rh kd xu (λ w. ne (o ∙ w)))
              (sym o ∙ eq ∙ n2.1))
      | inr o2 ↦ forest.apart h i k m x y rh ri kd md xu yu (λ w. ne (o ∙ w)) (sym o ∙ eq ∙ o2)
    ]
  ]

  grown_mapped :
      (h : Ptr) (pfn : ℕ)
      → R h
      → pfn < 2 ^ 35
      → page_entry t h pfn ≢ 0
      → IsUsed t (table_of (page_entry t h pfn))
  grown_mapped h pfn rh small ne = elim (entry-cases h pfn rh small) [
    | inl n ↦ subst (IsUsed t) (sym n.1) IsUsed-new
    | inr o ↦
        subst (λ (v : ℕ). IsUsed t (table_of v)) (sym o)
          (IsUsed-kept (table_of (page_entry s h pfn))
            (forest.mapped h pfn rh small (λ w. ne (o ∙ w))))
  ]

  grown_mapped_apart :
      (h i : Ptr) (pfn k y : ℕ)
      → R h
      → R i
      → pfn < 2 ^ 35
      → k ≤ 3
      → y < user_size k
      → page_entry t h pfn ≢ 0
      → node t i k y ≢ table_of (page_entry t h pfn)
  grown_mapped_apart h i pfn k y rh ri small kd yu ne = λ eq. elim (entry-cases h pfn rh small) [
    | inl n ↦ elim (node-cases i k y ri kd yu) [
      | inl n2 ↦ ground (arith, n.0, n2.0)
      | inr o2 ↦ new-ne (node s i k y) (old_used (sym n.1 ∙ sym eq ∙ o2)) (sym o2 ∙ eq ∙ n.1)
    ]
    | inr o ↦ elim (node-cases i k y ri kd yu) [
      | inl n2 ↦
          new-ne (table_of (page_entry s h pfn)) (forest.mapped h pfn rh small (λ w. ne (o ∙ w)))
            (ap table_of (sym o) ∙ sym eq ∙ n2.1)
      | inr o2 ↦
          forest.mapped_apart h i pfn k y rh ri small kd yu (λ w. ne (o ∙ w))
            (sym o2 ∙ eq ∙ ap table_of o)
    ]
  ]
    where
      old_used : page_at q ≡ node s i k y → IsUsed s (node s i k y)
      old_used w =
          forest.used i k y ri kd yu (λ n. page_at_nonzero q (omega (arith, f.small)) (w ∙ n))

  grown_present :
      (h : Ptr) (k y : ℕ)
      → R h
      → k ≤ 2
      → y < user_size (suc k)
      → slot t h k y ≢ 0
      → node t h (suc k) y ≢ 0
  grown_present h k y rh kd yu ne eq = elim (Bool-cases (is_new h (suc k) y)) [
    | inl n ↦
        page_at_nonzero q (omega (arith, f.small))
          (sym (node_grown h (suc k) y rh (omega arith) yu ∙ rw n refl) ∙ eq)
    | inr o ↦
        forest.present h k y rh kd yu (λ w. ne (slot_grown h k y rh (omega arith) yu ∙ rw o w))
          (sym (node_grown h (suc k) y rh (omega arith) yu ∙ rw o refl) ∙ eq)
  ]

  grown_opened :
      (h : Ptr) (k y : ℕ)
      → R h
      → k ≤ 2
      → y < user_size (suc k)
      → slot t h k y ≢ 0
      → IsPresent (slot t h k y)
  grown_opened h k y rh kd yu ne = elim (Bool-cases (is_new h (suc k) y)) [
    | inl n ↦ subst IsPresent (sym (slot_grown h k y rh (omega arith) yu ∙ rw n refl)) f.follows
    | inr o ↦
        subst IsPresent (sym (slot_grown h k y rh (omega arith) yu ∙ rw o refl))
          (forest.opened h k y rh kd yu (λ w. ne (slot_grown h k y rh (omega arith) yu ∙ rw o w)))
  ]

  grown_self : (h : Ptr) → R h → get_entry h self_ref_index t ≡ entry_of h 3
  grown_self h rh =
      ap (λ (a : Ptr). get_entry a self_ref_index t) at_page
      ∙ f.same u.pfn self_ref_index u.small (omega arith) (used-ne (node s h 0 0) u) place
      ∙ ap (λ (a : Ptr). get_entry a self_ref_index s) (sym at_page)
      ∙ forest.self h rh
    where
      u : IsUsed s (node s h 0 0)
      u = root_used R s h forest rh

      at_page : h ≡ page_at u.pfn
      at_page = sym (node-zero s h 0) ∙ u.at

      place : (tp ≢ u.pfn) ⊎ (z % 512 ≢ self_ref_index)
      place = elim (Bool-cases (l == 0)) [
        | inl top ↦ inr λ w. low_entry (ground arith) w
        | inr deep ↦ inl λ w. ground (
          arith,
          deep,
          forest.apart g h l 0 (z / 512) 0 root rh depth (omega arith) (user_size_half l z user)
              (omega (arith, user_size_zero)) (λ v. page_at_nonzero tp (omega arith) (sym here ∙ v))
              (here ∙ ap page_at w ∙ sym u.at),
        )
      ]
        where
          low_entry : l ≡ 0 → z % 512 ≡ self_ref_index → ⊥
          low_entry e w = omega (arith, w, user, ap user_size (ap suc e), user_size_def 0)

  pub IsForest-grown : IsForest R t
  IsForest-grown = record {
    used = grown_used;
    apart = grown_apart;
    mapped = grown_mapped;
    mapped_apart = grown_mapped_apart;
    present = grown_present;
    opened = grown_opened;
    self = grown_self;
    rooted = forest.rooted;
  }
