-- ===== src/Paging/Place.antt =====
-- The page itself: map_a_page of sys/mm.c, up to the contents of a file.
use plum_os.Prelude.{
  ℕ, suc, ◌+◌, ◌*◌, ◌/◌, ◌%◌, ◌^◌, ◌≤◌, ◌<◌, ◌≡◌, refl, sym, ap, ◌∙◌, ◌≢◌, ◌⊎◌, inl, inr, ◌&&◌,
  ◌==◌, if◌then◌else◌, Bool-cases, arith, subst, some,
}
use plum_os.Frames.Count.{free_pages}
use plum_os.Kernel.{Ptr, null}
use plum_os.Vma.{page_at}
use plum_os.Paging.{
  Bytes, Memory, table_of, get_entry, new_page, pte_table, open_entry, get_pte_off,
}
use plum_os.Paging.Faults.{Area, map_frame, map_a_page, load_file}
use plum_os.Paging.Words.{get_pte_off_eq}
use plum_os.Paging.Tree.{
  node, slot, page_entry, user_size, IsUsed, IsForest, user_size_half, slot_at, page_entry_def,
  user_pages,
}
use plum_os.Paging.Grow.{Filled, IsForest-grown, slot_grown}
use plum_os.Paging.Fresh.{new_page-some}
use plum_os.Paging.Steps.{Extends, Stepped, Filled-contents, Filled-bound}
use plum_os.Paging.Map.{and_then-some, pte_table-Stepped}

-- t maps page q, which was free and is clear now, at pfn below g, and is else as s.
pub record Placed (R : Ptr → Type 0) (s : Memory) (g : Ptr) (pfn q : ℕ) (t : Memory) : Type 0 where
  pub forest : IsForest R t
  pub entry : page_entry t g pfn ≡ q * 4096 + open_entry
  pub clear : (i : ℕ) → i < 4096 → t.byte (page_at q + i) ≡ 0
  pub was_free : s.frames.ref q ≡ 0
  pub taken : t.frames.ref q ≡ 1
  pub low : 671 ≤ q
  pub small : q < 2 ^ 15
  pub entries :
      (h : Ptr) (k : ℕ)
      → R h
      → k < 2 ^ 35
      → (g ≢ h) ⊎ (pfn ≢ k)
      → page_entry t h k ≡ page_entry s h k
  pub contents :
      (h : Ptr) (k i : ℕ)
      → R h
      → k < 2 ^ 35
      → page_entry s h k ≢ 0
      → i < 4096
      → t.byte (table_of (page_entry s h k) + i) ≡ s.byte (table_of (page_entry s h k) + i)
  pub counts : (p : ℕ) → s.frames.ref p ≢ 0 → t.frames.ref p ≡ s.frames.ref p
  pub bound : (p b : ℕ) → 1 ≤ b → s.frames.ref p ≤ b → t.frames.ref p ≤ b

map_frame_old :
    (mmu : Bytes → Ptr → ℕ → Ptr) (start_addr : Ptr → Ptr) (g : Ptr) (v : Area) (pfn pte : ℕ)
    (s : Memory)
    → get_entry pte (get_pte_off pfn) s ≢ 0
    → map_frame mmu start_addr g v pfn pte s ≡ some (tt, s)
unfolding map_frame
map_frame_old mmu start_addr g v pfn pte s ne = ground arith

-- What new_page is followed by.
unfoldable pub loaded : (Bytes → Ptr → ℕ → Ptr) → (Ptr → Ptr) → Ptr → Area → ℕ → Memory → Memory
loaded mmu start_addr g v pfn t =
    if v.vm_file == null then t else load_file mmu start_addr g v pfn t

loaded_none :
    (mmu : Bytes → Ptr → ℕ → Ptr) (start_addr : Ptr → Ptr) (g : Ptr) (v : Area) (pfn : ℕ)
    (t : Memory)
    → v.vm_file ≡ null
    → loaded mmu start_addr g v pfn t ≡ t
unfolding loaded
loaded_none mmu start_addr g v pfn t e = rw e refl

map_frame_new :
    (mmu : Bytes → Ptr → ℕ → Ptr) (start_addr : Ptr → Ptr) (g : Ptr) (v : Area) (pfn pte q : ℕ)
    (s t : Memory)
    → get_entry pte (get_pte_off pfn) s ≡ 0
    → new_page pte (get_pte_off pfn) open_entry s ≡ some (q, t)
    → map_frame mmu start_addr g v pfn pte s ≡ some (tt, loaded mmu start_addr g v pfn t)
unfolding map_frame loaded
map_frame_new mmu start_addr g v pfn pte q s t e f = rw e (
    and_then-some
      (λ p u. some (tt, if v.vm_file == null then u else load_file mmu start_addr g v pfn u)) f)

module _ (R : Ptr → Type 0) where
  -- A step that only extends, and then one that places.
  Placed-after :
      (s t u : Memory) (g : Ptr) (pfn q : ℕ)
      → Extends R s t
      → Placed R t g pfn q u
      → Placed R s g pfn q u
  Placed-after s t u g pfn q x m = record {
    forest = m.forest;
    entry = m.entry;
    clear = m.clear;
    was_free = elim (Bool-cases (s.frames.ref q == 0)) [
      | inl e ↦ ground arith
      | inr e ↦ ground (arith, e, x.counts q, m.was_free)
    ];
    taken = m.taken;
    low = m.low;
    small = m.small;
    entries = λ h k r a o. m.entries h k r a o ∙ x.entries h k r a;
    contents = λ h k i r a ne lt.
        subst (λ (e : ℕ). u.byte (table_of e + i) ≡ t.byte (table_of e + i)) (x.entries h k r a)
          (m.contents h k i r a (λ w. ne (sym (x.entries h k r a) ∙ w)) lt)
        ∙ x.contents h k i r a ne lt;
    counts = λ p ne. m.counts p (λ w. ne (sym (x.counts p ne) ∙ w)) ∙ x.counts p ne;
    bound = λ p b y z. m.bound p b y (x.bound p b y z);
  }

  Filled-Placed :
      (s t : Memory) (g : Ptr) (pfn tp q : ℕ)
      → IsForest R s
      → R g
      → pfn < 2 ^ 35
      → node s g 3 (pfn / 512) ≡ page_at tp
      → tp < 2 ^ 15
      → get_entry (page_at tp) (pfn % 512) s ≡ 0
      → 671 ≤ q
      → Filled s t tp (pfn % 512) q (q * 4096 + open_entry)
      → Placed R s g pfn q t
  Filled-Placed s t g pfn tp q forest rg small here tp_small empty low f = record {
    forest = IsForest-grown R s t g 3 pfn tp q e forest rg (omega arith) user here tp_small empty f;
    entry = page_entry_def t g pfn ∙ grown g pfn rg small ∙ ground arith;
    clear = f.zero_page;
    was_free = f.was_free;
    taken = f.taken;
    low = low;
    small = f.small;
    entries = λ h k r a o.
        page_entry_def t h k ∙ grown h k r a ∙ ground (arith, o) ∙ sym (page_entry_def s h k);
    contents =
        Filled-contents R s t g 3 (pfn / 512) tp (pfn % 512) q e forest rg (omega arith)
          (user_size_half 3 pfn user) here tp_small f;
    counts = λ p ne. f.others p (λ w. ne (ap (λ (v : ℕ). s.frames.ref v) w ∙ f.was_free));
    bound = Filled-bound s t tp (pfn % 512) q e f;
  }
    where
      e : ℕ
      e = q * 4096 + open_entry

      user : pfn < user_size 4
      user = omega (arith, user_pages)

      grown :
          (h : Ptr) (k : ℕ)
          → R h
          → k < 2 ^ 35
          → slot t h 3 k ≡ (if (g == h) && (4 == 4) && (pfn == k) then e else slot s h 3 k)
      grown h k r a =
          slot_grown R s t g 3 pfn tp q e forest rg (omega arith) user here tp_small empty f h 3 k r
            (omega arith) (omega (arith, user_pages))

  module _ (mmu : Bytes → Ptr → ℕ → Ptr) (start_addr : Ptr → Ptr) (g : Ptr) (v : Area) (addr n : ℕ)
      (s : Memory) (forest : IsForest R s) (rg : R g) (small : addr < 2 ^ 47)
      (free : suc (suc (suc (suc n))) ≤ free_pages s.frames) where
    abbrev pfn : ℕ
    pfn = addr / 4096

    small_pfn : pfn < 2 ^ 35
    small_pfn = omega arith

    table_used :
        (t : Memory) (r : Ptr)
        → Stepped R s g 2 (pfn / 512) (suc n) r t
        → IsUsed t (node t g 3 (pfn / 512))
    table_used t r k =
        k.forest.used g 3 (pfn / 512) rg (omega arith)
          (user_size_half 3 pfn (omega (arith, user_pages))) (λ w. k.nonzero (sym k.returned ∙ w))

    -- The entry that map_frame looks at is the one that maps the page.
    entry_here :
        (t : Memory) (r : Ptr) (k : Stepped R s g 2 (pfn / 512) (suc n) r t)
        → get_entry (page_at (table_used t r k).pfn) (pfn % 512) t ≡ page_entry s g pfn
    entry_here t r k =
        sym (slot_at t g 3 pfn u.pfn u.at (omega (arith, u.small)))
        ∙ sym (page_entry_def t g pfn)
        ∙ k.extends.entries g pfn rg small_pfn
      where
        u : IsUsed t (node t g 3 (pfn / 512))
        u = table_used t r k

    place_step :
        (r : Ptr) (t : Memory)
        → Stepped R s g 2 (pfn / 512) (suc n) r t
        → page_entry s g pfn ≡ 0
        → (q : ℕ) × (u : Memory) × (map_frame mmu start_addr g v pfn r t
            ≡ some (tt, loaded mmu start_addr g v pfn u))
          × Placed R s g pfn q u
          × (n ≤ free_pages u.frames)
    place_step r t k empty = go (
        new_page-some n table.pfn (pfn % 512) open_entry t k.left table.small table.counted
          (omega arith) (omega arith) refl refl)
      where
        table : IsUsed t (node t g 3 (pfn / 512))
        table = table_used t r k

        same_table : page_at table.pfn ≡ r
        same_table = sym table.at ∙ k.returned

        go :
            ((q : ℕ) × (u : Memory) × (new_page (page_at table.pfn) (pfn % 512) open_entry t
                ≡ some (page_at q, u))
              × Filled t u table.pfn (pfn % 512) q (q * 4096 + open_entry)
              × (n ≤ free_pages u.frames)
              × (671 ≤ q))
            → (q : ℕ) × (u : Memory) × (map_frame mmu start_addr g v pfn r t
                ≡ some (tt, loaded mmu start_addr g v pfn u))
              × Placed R s g pfn q u
              × (n ≤ free_pages u.frames)
        go (q, u, e, f, m, low) = (
          q,
          u,
          map_frame_new mmu start_addr g v pfn r (page_at q) t u
              (ap (λ (w : Ptr). get_entry w (get_pte_off pfn) t) (sym same_table)
                ∙ ap (λ (o : ℕ). get_entry (page_at table.pfn) o t) (get_pte_off_eq pfn)
                ∙ entry_here t r k
                ∙ empty)
              (ap (λ (w : Ptr). new_page w (get_pte_off pfn) open_entry t) (sym same_table)
                ∙ ap (λ (o : ℕ). new_page (page_at table.pfn) o open_entry t) (get_pte_off_eq pfn)
                ∙ e),
          Placed-after s t u g pfn q k.extends (
              Filled-Placed t u g pfn table.pfn q k.forest rg small_pfn table.at table.small
                (entry_here t r k ∙ empty) low f),
          m,
        )

    pub map_a_page-loaded :
        page_entry s g pfn ≡ 0
        → (q : ℕ) × (u : Memory) × (map_a_page mmu start_addr g v addr s
            ≡ some (tt, loaded mmu start_addr g v pfn u))
          × Placed R s g pfn q u
          × (n ≤ free_pages u.frames)
    unfolding map_a_page
    map_a_page-loaded empty = go (pte_table-Stepped R (suc n) s g pfn forest rg small_pfn free)
      where
        go :
            ((r : Ptr) × (t : Memory) × (pte_table g pfn s ≡ some (r, t))
              × Stepped R s g 2 (pfn / 512) (suc n) r t)
            → (q : ℕ) × (u : Memory) × (map_a_page mmu start_addr g v addr s
                ≡ some (tt, loaded mmu start_addr g v pfn u))
              × Placed R s g pfn q u
              × (n ≤ free_pages u.frames)
        go (r, t, e, k) = finish (place_step r t k empty)
          where
            finish :
                ((q : ℕ) × (u : Memory) × (map_frame mmu start_addr g v pfn r t
                    ≡ some (tt, loaded mmu start_addr g v pfn u))
                  × Placed R s g pfn q u
                  × (n ≤ free_pages u.frames))
                → (q : ℕ) × (u : Memory) × (map_a_page mmu start_addr g v addr s
                    ≡ some (tt, loaded mmu start_addr g v pfn u))
                  × Placed R s g pfn q u
                  × (n ≤ free_pages u.frames)
            finish (q, u, f, m, left) =
                (q, u, and_then-some (λ pte. map_frame mmu start_addr g v pfn pte) e ∙ f, m, left)

    -- A page that is mapped stays as it is.
    pub map_a_page-Extends :
        page_entry s g pfn ≢ 0
        → (u : Memory) × (map_a_page mmu start_addr g v addr s ≡ some (tt, u))
          × IsForest R u
          × Extends R s u
    unfolding map_a_page
    map_a_page-Extends ne = go (pte_table-Stepped R (suc n) s g pfn forest rg small_pfn free)
      where
        go :
            ((r : Ptr) × (t : Memory) × (pte_table g pfn s ≡ some (r, t))
              × Stepped R s g 2 (pfn / 512) (suc n) r t)
            → (u : Memory) × (map_a_page mmu start_addr g v addr s ≡ some (tt, u))
              × IsForest R u
              × Extends R s u
        go (r, t, e, k) = (
          t,
          and_then-some (λ pte. map_frame mmu start_addr g v pfn pte) e
              ∙ map_frame_old mmu start_addr g v pfn r t (λ w. ne (
                  sym (entry_here t r k)
                  ∙ ap (λ (o : ℕ). get_entry (page_at (table_used t r k).pfn) o t)
                      (sym (get_pte_off_eq pfn))
                  ∙ ap (λ (w : Ptr). get_entry w (get_pte_off pfn) t)
                      (sym (table_used t r k).at ∙ k.returned)
                  ∙ w)),
          k.forest,
          k.extends,
        )

-- map_a_page on an address below 2 ^ 47 that no page is mapped at, for an area without a file, in an
-- address space of a forest and with four or more pages free: it returns, and the page of the address is mapped,
-- for the user to write, to a page that was free and is cleared. No other page of any address space of
-- the forest is mapped differently, no mapped page's bytes change, no page in use changes its
-- count, the tables are a forest again, and at most four of the free pages are gone.
pub map_a_page-Placed :
    (R : Ptr → Type 0) (mmu : Bytes → Ptr → ℕ → Ptr) (start_addr : Ptr → Ptr) (g : Ptr) (v : Area)
    (addr n : ℕ) (s : Memory)
    → IsForest R s
    → R g
    → addr < 2 ^ 47
    → suc (suc (suc (suc n))) ≤ free_pages s.frames
    → v.vm_file ≡ null
    → page_entry s g (addr / 4096) ≡ 0
    → (q : ℕ) × (u : Memory) × (map_a_page mmu start_addr g v addr s ≡ some (tt, u))
      × Placed R s g (addr / 4096) q u
      × (n ≤ free_pages u.frames)
map_a_page-Placed R mmu start_addr g v addr n s forest rg small free none_behind empty =
    let r = map_a_page-loaded R mmu start_addr g v addr n s forest rg small free empty in
    (
      r.0,
      r.1,
      r.2 ∙ ap (λ u. some (tt, u)) (loaded_none mmu start_addr g v (addr / 4096) r.1 none_behind),
      r.3,
      r.4,
    )
