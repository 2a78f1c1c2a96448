-- ===== src/Paging/Steps.antt =====
-- lower_table and pte_table: the tables on the way to a page's entry, made where they are missing.
use plum_os.Prelude.{
  ℕ, suc, ◌+◌, ◌*◌, ◌/◌, ◌%◌, ◌^◌, ◌≤◌, ◌<◌, ◌≡◌, refl, sym, ap, ◌∙◌, ◌≢◌, inl, inr, true, false,
  ◌==◌, Bool-cases, arith, subst, some,
}
use plum_os.Frames.Count.{free_pages}
use plum_os.Kernel.{Ptr}
use plum_os.Vma.{page_at}
use plum_os.Paging.{Memory, table_of, get_entry, lower_table, new_page, open_entry}
use plum_os.Paging.Tree.{
  node, slot, page_entry, user_size, IsUsed, IsForest, node-suc, user_size_half, node_none,
  page_at_nonzero, slot_at, to_table_eq, page_entry_def, user_pages,
}
use plum_os.Paging.Grow.{Filled, IsForest-grown, node_grown, slot_grown}
use plum_os.Paging.Fresh.{new_page-some}

-- t maps what s maps, to pages with the bytes they had in s, and no page in use has lost or gained a
-- reference.
pub record Extends (R : Ptr → Type 0) (s t : Memory) : Type 0 where
  pub entries : (h : Ptr) (pfn : ℕ) → R h → pfn < 2 ^ 35 → page_entry t h pfn ≡ page_entry s h pfn
  pub contents :
      (h : Ptr) (pfn i : ℕ)
      → R h
      → pfn < 2 ^ 35
      → page_entry s h pfn ≢ 0
      → i < 4096
      → t.byte (table_of (page_entry s h pfn) + i) ≡ s.byte (table_of (page_entry s h pfn) + i)
  pub counts : (p : ℕ) → s.frames.ref p ≢ 0 → t.frames.ref p ≡ s.frames.ref p
  pub bound : (p b : ℕ) → 1 ≤ b → s.frames.ref p ≤ b → t.frames.ref p ≤ b
  pub nodes :
      (h : Ptr) (l x : ℕ)
      → R h
      → l ≤ 3
      → x < user_size l
      → node s h l x ≢ 0
      → node t h l x ≡ node s h l x

lower_table_new :
    (table off : ℕ) (s : Memory)
    → get_entry table off s ≡ 0
    → lower_table table off s ≡ new_page table off open_entry s
unfolding lower_table
lower_table_new table off s e = rw e refl

lower_table_old :
    (table off : ℕ) (s : Memory)
    → (get_entry table off s == 0) ≡ false
    → lower_table table off s ≡ some (table_of (get_entry table off s), s)
unfolding lower_table
lower_table_old table off s e = rw e refl

pub Filled-bound :
    (s t : Memory) (tp off q e : ℕ)
    → Filled s t tp off q e
    → (p b : ℕ) → 1 ≤ b
    → s.frames.ref p ≤ b
    → t.frames.ref p ≤ b
Filled-bound s t tp off q e f p b x y = elim (Bool-cases (p == q)) [
  | inl i ↦ omega (arith, x, ap (λ (v : ℕ). t.frames.ref v) (same_page i), f.taken)
  | inr o ↦ omega (arith, y, f.others p (ground arith))
]
  where
    same_page : (p == q) ≡ true → p ≡ q
    same_page i = ground arith

module _ (R : Ptr → Type 0) where
  pub Extends-refl : (s : Memory) → Extends R s s
  Extends-refl s = record {
    entries = λ h pfn r a. refl;
    contents = λ h pfn i r a ne b. refl;
    counts = λ p ne. refl;
    bound = λ p b x y. y;
    nodes = λ h l x r a b ne. refl;
  }

  pub Extends-trans : (s t u : Memory) → Extends R s t → Extends R t u → Extends R s u
  Extends-trans s t u a b = record {
    entries = λ h pfn r k. b.entries h pfn r k ∙ a.entries h pfn r k;
    contents = λ h pfn i r k ne lt.
        subst (λ (e : ℕ). u.byte (table_of e + i) ≡ t.byte (table_of e + i)) (a.entries h pfn r k)
          (b.contents h pfn i r k (λ w. ne (sym (a.entries h pfn r k) ∙ w)) lt)
        ∙ a.contents h pfn i r k ne lt;
    counts = λ p ne. b.counts p (λ w. ne (sym (a.counts p ne) ∙ w)) ∙ a.counts p ne;
    bound = λ p m x y. b.bound p m x (a.bound p m x y);
    nodes = λ h l x r c d ne.
        b.nodes h l x r c d (λ w. ne (sym (a.nodes h l x r c d ne) ∙ w)) ∙ a.nodes h l x r c d ne;
  }

  -- The bytes of mapped pages outlive a new page in a table.
  pub Filled-contents :
      (s t : Memory) (g : Ptr) (l x tp off q e : ℕ)
      → IsForest R s
      → R g
      → l ≤ 3
      → x < user_size l
      → node s g l x ≡ page_at tp
      → tp < 2 ^ 15
      → Filled s t tp off q e
      → (h : Ptr) (pfn i : ℕ) → R h
      → pfn < 2 ^ 35
      → page_entry s h pfn ≢ 0
      → i < 4096
      → t.byte (table_of (page_entry s h pfn) + i) ≡ s.byte (table_of (page_entry s h pfn) + i)
  Filled-contents s t g l x tp off q e forest rg d xu here small f h pfn i rh a ne lt =
      ap (λ (v : ℕ). t.byte (v + i)) u.at
      ∙ f.contents u.pfn i u.small lt
          (λ w. u.counted (ap (λ (p : ℕ). s.frames.ref p) w ∙ f.was_free))
          (λ w. forest.mapped_apart h g pfn l x rh rg a d xu ne (here ∙ sym (u.at ∙ ap page_at w)))
      ∙ ap (λ (v : ℕ). s.byte (v + i)) (sym u.at)
    where
      u : IsUsed s (table_of (page_entry s h pfn))
      u = forest.mapped h pfn rh a ne

  -- What a step down to the table for the prefix z returns.
  pub record Stepped (s : Memory) (g : Ptr) (l z n : ℕ) (r : Ptr) (t : Memory) : Type 0 where
    pub forest : IsForest R t
    pub extends : Extends R s t
    pub returned : node t g (suc l) z ≡ r
    pub nonzero : r ≢ 0
    pub left : n ≤ free_pages t.frames

  module _ (n : ℕ) (s : Memory) (g : Ptr) (l z tp : ℕ) (forest : IsForest R s) (rg : R g)
      (d : l ≤ 2) (zu : z < user_size (suc l)) (here : node s g l (z / 512) ≡ page_at tp)
      (small : tp < 2 ^ 15) (counted : s.frames.ref tp ≢ 0) where
    -- The table is there already.
    step_old :
        (get_entry (page_at tp) (z % 512) s == 0) ≡ false
        → n ≤ free_pages s.frames
        → Stepped s g l z n (table_of (get_entry (page_at tp) (z % 512) s)) s
    step_old e free = record {
      forest = forest;
      extends = Extends-refl s;
      returned = there;
      nonzero =
          λ w. forest.present g l z rg d zu (λ v. ground (arith, e, sym slot_here ∙ v)) (there ∙ w);
      left = free;
    }
      where
        slot_here : slot s g l z ≡ get_entry (page_at tp) (z % 512) s
        slot_here = slot_at s g l z tp here (omega arith)

        there : node s g (suc l) z ≡ table_of (get_entry (page_at tp) (z % 512) s)
        there =
            node-suc s g l z
            ∙ to_table_eq (slot s g l z) (λ v. ground (arith, e, sym slot_here ∙ v))
            ∙ ap table_of slot_here

    -- The table is the fresh page.
    step_new :
        (q : ℕ) (t : Memory)
        → get_entry (page_at tp) (z % 512) s ≡ 0
        → Filled s t tp (z % 512) q (q * 4096 + open_entry)
        → n ≤ free_pages t.frames
        → Stepped s g l z n (page_at q) t
    step_new q t empty f free = record {
      forest = IsForest-grown R s t g l z tp q e forest rg (omega arith) zu here small empty f;
      extends = record {
        entries = λ h pfn r a.
            page_entry_def t h pfn
            ∙ slot_grown R s t g l z tp q e forest rg (omega arith) zu here small empty f h 3 pfn r
                (omega arith) (omega (arith, user_pages))
            ∙ ground arith
            ∙ sym (page_entry_def s h pfn);
        contents =
            Filled-contents s t g l (z / 512) tp (z % 512) q e forest rg (omega arith)
              (user_size_half l z zu) here small f;
        counts = λ p ne. f.others p (λ w. ne (ap (λ (v : ℕ). s.frames.ref v) w ∙ f.was_free));
        bound = Filled-bound s t tp (z % 512) q e f;
        nodes = λ h k x r kd xu ne. kept h k x r kd xu ne;
      };
      returned =
          node_grown R s t g l z tp q e forest rg (omega arith) zu here small empty f g (suc l) z rg
            (omega arith) zu
          ∙ ground arith;
      nonzero = page_at_nonzero q (omega (arith, f.small));
      left = free;
    }
      where
        e : ℕ
        e = q * 4096 + open_entry

        was_empty : node s g (suc l) z ≡ 0
        was_empty = node_none s g l z (slot_at s g l z tp here (omega arith) ∙ empty)

        kept :
            (h : Ptr) (k x : ℕ)
            → R h
            → k ≤ 3
            → x < user_size k
            → node s h k x ≢ 0
            → node t h k x ≡ node s h k x
        kept h k x r kd xu ne =
            node_grown R s t g l z tp q e forest rg (omega arith) zu here small empty f h k x r kd
              xu
            ∙ ground (arith, was_empty, ne)

    step_at :
        suc n ≤ free_pages s.frames
        → (r : Ptr) × (t : Memory) × (lower_table (page_at tp) (z % 512) s ≡ some (r, t))
          × Stepped s g l z n r t
    step_at free = elim (Bool-cases (get_entry (page_at tp) (z % 512) s == 0)) [
      | inr there ↦ (
        table_of (get_entry (page_at tp) (z % 512) s),
        s,
        lower_table_old (page_at tp) (z % 512) s there,
        step_old there (omega arith),
      )
      | inl none_there ↦ fresh (ground arith) (
          new_page-some n tp (z % 512) open_entry s free small counted (omega arith) (omega arith)
            refl refl)
    ]
      where
        fresh :
            get_entry (page_at tp) (z % 512) s ≡ 0
            → ((q : ℕ) × (t : Memory) × (new_page (page_at tp) (z % 512) open_entry s
                  ≡ some (page_at q, t))
                × Filled s t tp (z % 512) q (q * 4096 + open_entry)
                × (n ≤ free_pages t.frames)
                × (671 ≤ q))
            → (r : Ptr) × (t : Memory) × (lower_table (page_at tp) (z % 512) s ≡ some (r, t))
              × Stepped s g l z n r t
        fresh empty (q, t, e, f, m, a) = (
          page_at q,
          t,
          lower_table_new (page_at tp) (z % 512) s empty ∙ e,
          step_new q t empty f m,
        )

  pub lower_table-Stepped :
      (n : ℕ) (s : Memory) (g : Ptr) (l z : ℕ) (table : Ptr)
      → IsForest R s
      → R g
      → l ≤ 2
      → z < user_size (suc l)
      → node s g l (z / 512) ≡ table
      → table ≢ 0
      → suc n ≤ free_pages s.frames
      → (r : Ptr) × (t : Memory) × (lower_table table (z % 512) s ≡ some (r, t))
        × Stepped s g l z n r t
  lower_table-Stepped n s g l z table forest rg d zu here ne free =
      subst
        (λ (v : Ptr).
          (r : Ptr) × (t : Memory) × (lower_table v (z % 512) s ≡ some (r, t))
          × Stepped s g l z n r t)
        (sym u.at ∙ here) (step_at n s g l z u.pfn forest rg d zu u.at u.small u.counted free)
    where
      u : IsUsed s (node s g l (z / 512))
      u =
          forest.used g l (z / 512) rg (omega arith) (user_size_half l z zu)
            (λ w. ne (sym here ∙ w))
