-- ===== src/Paging/Share.antt =====
-- share_page: a mapped page of a process is mapped by its child too.
use plum_os.Prelude.{
  ℕ, ◌+◌, ◌*◌, ◌/◌, ◌%◌, ◌^◌, ◌≤◌, ◌<◌, ◌≡◌, refl, sym, ap, ◌∙◌, ◌≢◌, ◌⊎◌, inl, inr, true, false,
  ◌==◌, if◌then◌else◌, bit_and, Bool-cases, arith, subst, some,
}
use plum_os.Frames.Count.{free_pages, free_pages_least}
use plum_os.Kernel.{Ptr}
use plum_os.Vma.{page_at}
use plum_os.Paging.{Memory, va2pa, table_of, get_entry, put_entry}
use plum_os.Paging.Fork.{add_ref, mark_shared, share_page}
use plum_os.Paging.Words.{page_at_eq}
use plum_os.Paging.Tree.{
  node, page_entry, page_at_inj, IsUsed, IsForest, user_size, user_size_half, user_pages,
}
use plum_os.Paging.Fresh.{put_entry-frames}
use plum_os.Paging.Steps.{Extends}
use plum_os.Paging.Entered.{
  add_ref-ref, Entered, IsFrame, put_entry-Entered, Entered-contents, Entered-IsFrame,
}

-- Page fp is mapped by g and by h at pfn now, and has one reference more.
pub record Shared (R : Ptr → Type 0) (prot : ℕ) (s : Memory) (g h : Ptr) (pfn fp : ℕ) (t : Memory)
    : Type 0 where
  pub forest : IsForest R t
  pub small : fp < 2 ^ 15
  pub frame : table_of (page_entry s g pfn) ≡ page_at fp
  pub parent :
      page_entry t g pfn ≡ (if bit_and prot 2 == 0 then page_entry s g pfn else fp * 4096 + 0x205)
  pub child : page_entry t h pfn ≡ fp * 4096 + (if bit_and prot 2 == 0 then 5 else 0x205)
  pub entries :
      (i : Ptr) (k : ℕ)
      → R i
      → k < 2 ^ 35
      → ((g ≢ i) × (h ≢ i)) ⊎ (pfn ≢ k)
      → page_entry t i k ≡ page_entry s i k
  pub contents :
      (i : Ptr) (k o : ℕ)
      → R i
      → k < 2 ^ 35
      → page_entry s i k ≢ 0
      → o < 4096
      → t.byte (table_of (page_entry s i k) + o) ≡ s.byte (table_of (page_entry s i k) + o)
  pub counted : t.frames.ref fp ≡ s.frames.ref fp + 1
  pub counts : (k : ℕ) → k ≢ fp → s.frames.ref k ≢ 0 → t.frames.ref k ≡ s.frames.ref k
  pub grown : (k b : ℕ) → 1 ≤ b → s.frames.ref k ≤ b → t.frames.ref k ≤ b + 1

module _ (R : Ptr → Type 0) (s : Memory) (g h : Ptr) (pfn ga ha fp : ℕ) (forest : IsForest R s)
    (rg : R g) (rh : R h) (apart : g ≢ h) (user : pfn < 2 ^ 35)
    (g_table : node s g 3 (pfn / 512) ≡ page_at ga) (h_table : node s h 3 (pfn / 512) ≡ page_at ha)
    (ga_small : ga < 2 ^ 15) (ha_small : ha < 2 ^ 15) (frame : IsFrame R s fp)
    (leads : table_of (page_entry s g pfn) ≡ page_at fp) (few : s.frames.ref fp < 2 ^ 31) where
  counts_after :
      (t : Memory)
      → t.frames ≡ (add_ref fp s).frames
      → (t.frames.ref fp ≡ s.frames.ref fp + 1)
        × ((k : ℕ) → k ≢ fp → t.frames.ref k ≡ s.frames.ref k)
  counts_after t e = (
    ap (λ c. c.ref fp) e ∙ (add_ref-ref fp s few).0,
    λ k ne. ap (λ c. c.ref k) e ∙ (add_ref-ref fp s few).1 k ne,
  )

  live_after :
      (t : Memory)
      → t.frames ≡ (add_ref fp s).frames
      → (p : ℕ) → s.frames.ref p ≢ 0
      → t.frames.ref p ≢ 0
  live_after t e p used = elim (Bool-cases (p == fp)) [
    | inl i ↦ ground (arith, i, (counts_after t e).0)
    | inr o ↦ λ w. used (sym ((counts_after t e).1 p (ground arith)) ∙ w)
  ]

  grown_after :
      (t : Memory)
      → t.frames ≡ (add_ref fp s).frames
      → (k b : ℕ) → 1 ≤ b
      → s.frames.ref k ≤ b
      → t.frames.ref k ≤ b + 1
  grown_after t e k b x y = elim (Bool-cases (k == fp)) [
    | inl i ↦ omega (
      arith,
      (counts_after t e).0,
      ap (λ (v : ℕ). t.frames.ref v) (same i),
      ap (λ (v : ℕ). s.frames.ref v) (same i),
    )
    | inr o ↦ omega (arith, (counts_after t e).1 k (ground arith))
  ]
    where
      same : (k == fp) ≡ true → k ≡ fp
      same i = ground arith

  -- A read-only page: the child's entry alone is written.
  pub shared_readonly :
      (prot : ℕ) (t : Memory)
      → (bit_and prot 2 == 0) ≡ true
      → t.byte ≡ (put_entry (page_at ha) (pfn % 512) (page_at fp) 5 s).byte
      → t.frames ≡ (add_ref fp s).frames
      → Shared R prot s g h pfn fp t
  shared_readonly prot t ro b c = record {
    forest = m.forest;
    small = frame.small;
    frame = leads;
    parent = m.entries g pfn rg user (inl (λ w. apart (sym w))) ∙ rw ro refl;
    child = m.entry ∙ rw ro refl;
    entries = λ i k ri ku o. m.entries i k ri ku (ground (arith, o));
    contents = λ i k o ri ku ne lt. Entered-contents R s t h pfn fp 5 forest m i k o ri ku ne lt;
    counted = (counts_after t c).0;
    counts = λ k ne used. (counts_after t c).1 k ne;
    grown = grown_after t c;
  }
    where
      m : Entered R s h pfn fp 5 t
      m =
          put_entry-Entered R s t h pfn ha fp 5 forest rh user h_table ha_small frame (omega arith)
            b (live_after t c)

  -- A writable page: both entries are written.
  pub shared_writable :
      (prot : ℕ) (mid t : Memory)
      → (bit_and prot 2 == 0) ≡ false
      → mid ≡ put_entry (page_at ga) (pfn % 512) (page_at fp) 0x205 s
      → t.byte ≡ (put_entry (page_at ha) (pfn % 512) (page_at fp) 0x205 mid).byte
      → t.frames ≡ (add_ref fp s).frames
      → Shared R prot s g h pfn fp t
  shared_writable prot mid t rw_area d b c = record {
    forest = m2.forest;
    small = frame.small;
    frame = leads;
    parent = m2.entries g pfn rg user (inl (λ w. apart (sym w))) ∙ m1.entry ∙ rw rw_area refl;
    child = m2.entry ∙ rw rw_area refl;
    entries = λ i k ri ku o.
        m2.entries i k ri ku (ground (arith, o)) ∙ m1.entries i k ri ku (ground (arith, o));
    contents = λ i k o ri ku ne lt. frame_contents i k o ri ku ne lt;
    counted = (counts_after t c).0;
    counts = λ k ne used. (counts_after t c).1 k ne;
    grown = grown_after t c;
  }
    where
      same_counts : (k : ℕ) → mid.frames.ref k ≡ s.frames.ref k
      same_counts k =
          ap (λ (v : Memory). v.frames.ref k) d
          ∙ ap (λ v. v.ref k) (put_entry-frames (page_at ga) (pfn % 512) (page_at fp) 0x205 s)

      m1 : Entered R s g pfn fp 0x205 mid
      m1 =
          put_entry-Entered R s mid g pfn ga fp 0x205 forest rg user g_table ga_small frame
            (omega arith) (ap (λ (v : Memory). v.byte) d)
            (λ p used w. used (sym (same_counts p) ∙ w))

      m2 : Entered R mid h pfn fp 0x205 t
      m2 =
          put_entry-Entered R mid t h pfn ha fp 0x205 m1.forest rh user
            (m1.tables h 3 (pfn / 512) rh (omega arith)
                (user_size_half 3 pfn (omega (arith, user_pages)))
              ∙ h_table)
            ha_small
            (Entered-IsFrame R s mid g pfn fp 0x205 m1 frame
              (λ w. frame.counted (sym (same_counts fp) ∙ w)))
            (omega arith) b (λ p used. live_after t c p (λ w. used (same_counts p ∙ w)))

      -- The bytes go through both writes: the page is no table.
      frame_contents :
          (i : Ptr) (k o : ℕ)
          → R i
          → k < 2 ^ 35
          → page_entry s i k ≢ 0
          → o < 4096
          → t.byte (table_of (page_entry s i k) + o) ≡ s.byte (table_of (page_entry s i k) + o)
      frame_contents i k o ri ku ne lt =
          ap (λ (a : ℕ). t.byte (a + o)) u.at
          ∙ m2.contents u.pfn o u.small lt
              (λ j x rj xu w. away j x rj xu (sym (m1.tables j 3 x rj (omega arith) xu) ∙ w))
          ∙ m1.contents u.pfn o u.small lt away
          ∙ ap (λ (a : ℕ). s.byte (a + o)) (sym u.at)
        where
          u : IsUsed s (table_of (page_entry s i k))
          u = forest.mapped i k ri ku ne

          away : (j : Ptr) (x : ℕ) → R j → x < user_size 3 → node s j 3 x ≢ page_at u.pfn
          away j x rj xu w =
              forest.mapped_apart i j k 3 x ri rj ku (omega arith) xu ne (w ∙ sym u.at)

pub share_page-none :
    (prot o pte npte : ℕ) (s : Memory)
    → get_entry pte o s ≡ 0
    → share_page prot o pte npte s ≡ some (tt, s)
unfolding share_page
share_page-none prot o pte npte s e = rw e refl

-- What share_page leaves.
unfoldable pub shared_state : ℕ → ℕ → ℕ → ℕ → ℕ → Memory → Memory
shared_state prot o pte npte fp s = add_ref fp (mark_shared prot pte npte o (page_at fp) s)

pub share_page-some :
    (prot o pte npte fp : ℕ) (s : Memory)
    → (get_entry pte o s == 0) ≡ false
    → table_of (get_entry pte o s) ≡ page_at fp
    → fp < 2 ^ 15
    → share_page prot o pte npte s ≡ some (tt, shared_state prot o pte npte fp s)
unfolding share_page shared_state
share_page-some prot o pte npte fp s ne e h = rw ne (
    ap (λ (a : Ptr). some (tt, add_ref (va2pa a / 4096) (mark_shared prot pte npte o a s))) e
    ∙ ap (λ (p : ℕ). some (tt, add_ref p (mark_shared prot pte npte o (page_at fp) s)))
        (omega (arith, page_at_eq fp (omega arith))))

shared_frames :
    (prot o pte npte fp : ℕ) (s : Memory)
    → (shared_state prot o pte npte fp s).frames ≡ (add_ref fp s).frames
unfolding shared_state mark_shared put_entry add_ref
shared_frames prot o pte npte fp s = ground arith

shared_bytes_readonly :
    (prot o pte npte fp : ℕ) (s : Memory)
    → (bit_and prot 2 == 0) ≡ true
    → (shared_state prot o pte npte fp s).byte ≡ (put_entry npte o (page_at fp) 5 s).byte
unfolding shared_state mark_shared add_ref
shared_bytes_readonly prot o pte npte fp s e = rw e refl

shared_bytes_writable :
    (prot o pte npte fp : ℕ) (s : Memory)
    → (bit_and prot 2 == 0) ≡ false
    → (shared_state prot o pte npte fp s).byte
      ≡ (put_entry npte o (page_at fp) 0x205 (put_entry pte o (page_at fp) 0x205 s)).byte
unfolding shared_state mark_shared add_ref
shared_bytes_writable prot o pte npte fp s e = rw e refl

-- share_page on a mapped page.
pub shared_state-Shared :
    (R : Ptr → Type 0) (s : Memory) (g h : Ptr) (pfn ga ha fp prot : ℕ)
    → IsForest R s
    → R g
    → R h
    → g ≢ h
    → pfn < 2 ^ 35
    → node s g 3 (pfn / 512) ≡ page_at ga
    → node s h 3 (pfn / 512) ≡ page_at ha
    → ga < 2 ^ 15
    → ha < 2 ^ 15
    → IsFrame R s fp
    → table_of (page_entry s g pfn) ≡ page_at fp
    → s.frames.ref fp < 2 ^ 31
    → Shared R prot s g h pfn fp (shared_state prot (pfn % 512) (page_at ga) (page_at ha) fp s)
shared_state-Shared R s g h pfn ga ha fp prot forest rg rh apart user gt ht gs hs frame leads few =
    elim (Bool-cases (bit_and prot 2 == 0)) [
      | inl ro ↦
          shared_readonly R s g h pfn ga ha fp forest rg rh apart user gt ht gs hs frame leads few
            prot (shared_state prot (pfn % 512) (page_at ga) (page_at ha) fp s) ro
            (shared_bytes_readonly prot (pfn % 512) (page_at ga) (page_at ha) fp s ro)
            (shared_frames prot (pfn % 512) (page_at ga) (page_at ha) fp s)
      | inr w ↦
          shared_writable R s g h pfn ga ha fp forest rg rh apart user gt ht gs hs frame leads few
            prot (put_entry (page_at ga) (pfn % 512) (page_at fp) 0x205 s)
            (shared_state prot (pfn % 512) (page_at ga) (page_at ha) fp s) w refl
            (shared_bytes_writable prot (pfn % 512) (page_at ga) (page_at ha) fp s w)
            (shared_frames prot (pfn % 512) (page_at ga) (page_at ha) fp s)
    ]

-- No page is taken.
pub shared_left :
    (prot o pte npte fp : ℕ) (s : Memory)
    → s.frames.ref fp ≢ 0
    → s.frames.ref fp < 2 ^ 31
    → free_pages s.frames ≤ free_pages (shared_state prot o pte npte fp s).frames
shared_left prot o pte npte fp s used few =
    free_pages_least s.frames (shared_state prot o pte npte fp s).frames λ q free.
      ap (λ c. c.ref q) (shared_frames prot o pte npte fp s)
      ∙ (add_ref-ref fp s few).1 q (λ e. used (ap (λ (i : ℕ). s.frames.ref i) (sym e) ∙ free))
      ∙ free

-- Steps that extend, and then one that shares.
pub Shared-after :
    (R : Ptr → Type 0) (prot : ℕ) (s u t : Memory) (g h : Ptr) (pfn fp : ℕ)
    → IsForest R s
    → R g
    → pfn < 2 ^ 35
    → page_entry s g pfn ≢ 0
    → fp < 2 ^ 15
    → Extends R s u
    → Shared R prot u g h pfn fp t
    → Shared R prot s g h pfn fp t
Shared-after R prot s u t g h pfn fp forest rg user ne small x m = record {
  forest = m.forest;
  small = m.small;
  frame = ap table_of (sym (x.entries g pfn rg user)) ∙ m.frame;
  parent =
      m.parent
      ∙ ap (λ (e : ℕ). if bit_and prot 2 == 0 then e else fp * 4096 + 0x205)
          (x.entries g pfn rg user);
  child = m.child;
  entries = λ i k ri ku o. m.entries i k ri ku o ∙ x.entries i k ri ku;
  contents = λ i k o ri ku there lt.
      subst (λ (e : ℕ). t.byte (table_of e + o) ≡ u.byte (table_of e + o)) (x.entries i k ri ku)
        (m.contents i k o ri ku (λ w. there (sym (x.entries i k ri ku) ∙ w)) lt)
      ∙ x.contents i k o ri ku there lt;
  counted = m.counted ∙ ap (λ (c : ℕ). c + 1) (x.counts fp used);
  grown = λ k b x1 y. m.grown k b x1 (x.bound k b x1 y);
  counts = λ k nf there. m.counts k nf (λ w. there (sym (x.counts k there) ∙ w)) ∙ x.counts k there;
}
  where
    before : IsUsed s (table_of (page_entry s g pfn))
    before = forest.mapped g pfn rg user ne

    same_page : before.pfn ≡ fp
    same_page =
        page_at_inj before.pfn fp (omega (arith, before.small)) (omega arith)
          (sym before.at ∙ ap table_of (sym (x.entries g pfn rg user)) ∙ m.frame)

    used : s.frames.ref fp ≢ 0
    used w = before.counted (ap (λ (i : ℕ). s.frames.ref i) same_page ∙ w)
