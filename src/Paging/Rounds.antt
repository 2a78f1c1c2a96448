-- ===== src/Paging/Rounds.antt =====
-- Pages that a parent and its child share, round by round of copy_vma_deep's loop.
use plum_os.Prelude.{
  ℕ, ◌+◌, ◌*◌, ◌^◌, ◌≤◌, ◌<◌, ◌≡◌, sym, ap, ◌∙◌, ◌≢◌, ◌⊎◌, inl, inr, Bool, true, false, ◌&&◌, ◌==◌,
  if◌then◌else◌, bit_and, Bool-cases, arith, subst,
}
use plum_os.Kernel.{Ptr}
use plum_os.Vma.{page_at}
use plum_os.Paging.{Memory, table_of}
use plum_os.Paging.Words.{table_of_eq}
use plum_os.Paging.Tree.{page_entry, IsForest}
use plum_os.Paging.Child.{Forked, absent, present}

-- What became of page k: shared, with the marks of a writable or of a read-only area, if the parent
-- had it mapped, and absent in the child otherwise.
pub record PageCopied (prot : ℕ) (s : Memory) (g h : Ptr) (k : ℕ) (t : Memory) : Type 0 where
  pub unmapped : page_entry s g k ≡ 0 → (page_entry t g k ≡ 0) × (page_entry t h k ≡ 0)
  pub shared :
      page_entry s g k ≢ 0
      → (fp : ℕ) × (fp < 2 ^ 15)
        × (table_of (page_entry s g k) ≡ page_at fp)
        × (page_entry t g k ≡ (if bit_and prot 2 == 0 then page_entry s g k else fp * 4096 + 0x205))
        × (page_entry t h k ≡ fp * 4096 + (if bit_and prot 2 == 0 then 5 else 0x205))

-- Later rounds leave the page alone.
PageCopied-later :
    (prot : ℕ) (s : Memory) (g h : Ptr) (k : ℕ) (t u : Memory)
    → page_entry u g k ≡ page_entry t g k
    → page_entry u h k ≡ page_entry t h k
    → PageCopied prot s g h k t
    → PageCopied prot s g h k u
PageCopied-later prot s g h k t u a b p = record {
  unmapped = λ w. (a ∙ (p.unmapped w).0, b ∙ (p.unmapped w).1);
  shared = λ ne. let (fp, small, f, c, d) = p.shared ne in (fp, small, f, a ∙ c, b ∙ d);
}

-- Earlier rounds have left it alone.
PageCopied-earlier :
    (prot : ℕ) (s t : Memory) (g h : Ptr) (k : ℕ) (u : Memory)
    → page_entry t g k ≡ page_entry s g k
    → PageCopied prot t g h k u
    → PageCopied prot s g h k u
PageCopied-earlier prot s t g h k u e p = record {
  unmapped = λ w. p.unmapped (e ∙ w);
  shared = λ ne.
      subst
        (λ (v : ℕ).
          (fp : ℕ) × (fp < 2 ^ 15)
          × (table_of v ≡ page_at fp)
          × (page_entry u g k ≡ (if bit_and prot 2 == 0 then v else fp * 4096 + 0x205))
          × (page_entry u h k ≡ fp * 4096 + (if bit_and prot 2 == 0 then 5 else 0x205)))
        e (p.shared (λ w. ne (sym e ∙ w)));
}

-- The parent's own entry still leads to the page.
marked_frame :
    (b : Bool) (e v fp : ℕ)
    → e ≢ 0
    → fp < 2 ^ 15
    → table_of e ≡ page_at fp
    → v ≡ (if b then e else fp * 4096 + 0x205)
    → (v ≢ 0) × (table_of v ≡ table_of e)
marked_frame true e v fp ne small f w = (λ z. ne (sym w ∙ z), ap table_of w)
marked_frame false e v fp ne small f w =
    (λ z. ground arith, ap table_of w ∙ table_of_eq fp 0x205 (omega arith) (omega arith) ∙ sym f)

-- The pages from i up to and not including `last`.
pub record DeepCopied (R : Ptr → Type 0) (prot : ℕ) (s : Memory) (g h : Ptr) (i last : ℕ)
    (t : Memory) : Type 0 where
  pub forest : IsForest R t
  pub pages : (k : ℕ) → i ≤ k → k < last → PageCopied prot s g h k t
  pub entries :
      (j : Ptr) (k : ℕ)
      → R j
      → k < 2 ^ 35
      → ((g ≢ j) × (h ≢ j)) ⊎ ((k < i) ⊎ (last ≤ k))
      → page_entry t j k ≡ page_entry s j k
  pub contents :
      (j : Ptr) (k o : ℕ)
      → R j
      → k < 2 ^ 35
      → page_entry s j k ≢ 0
      → o < 4096
      → t.byte (table_of (page_entry s j k) + o) ≡ s.byte (table_of (page_entry s j k) + o)

module _ (R : Ptr → Type 0) (prot : ℕ) (g h : Ptr) (rg : R g) (rh : R h) (apart : g ≢ h) where
  -- What one round leaves alone, in either case.
  pub record Round (s : Memory) (i : ℕ) (t : Memory) : Type 0 where
    pub forest : IsForest R t
    pub page : PageCopied prot s g h i t
    pub entries :
        (j : Ptr) (k : ℕ)
        → R j
        → k < 2 ^ 35
        → ((g ≢ j) × (h ≢ j)) ⊎ (i ≢ k)
        → page_entry t j k ≡ page_entry s j k
    pub contents :
        (j : Ptr) (k o : ℕ)
        → R j
        → k < 2 ^ 35
        → page_entry s j k ≢ 0
        → o < 4096
        → t.byte (table_of (page_entry s j k) + o) ≡ s.byte (table_of (page_entry s j k) + o)
    pub grown : (k b : ℕ) → 1 ≤ b → s.frames.ref k ≤ b → t.frames.ref k ≤ b + 1

  pub Forked-Round :
      (s t : Memory) (i : ℕ)
      → i < 2 ^ 35
      → page_entry s h i ≡ 0
      → Forked R prot s g h i t
      → Round s i t
  Forked-Round s t i user none_there (absent e forest x) = record {
    forest = forest;
    page = record {
      unmapped = λ w. (x.entries g i rg user ∙ w, x.entries h i rh user ∙ none_there);
      shared = λ ne. absurd (ne e);
    };
    entries = λ j k rj ku o. x.entries j k rj ku;
    contents = x.contents;
    grown = λ k b p q. omega (arith, x.bound k b p q);
  }
  Forked-Round s t i user none_there (present fp ne m) = record {
    forest = m.forest;
    page = record {
      unmapped = λ w. absurd (ne w);
      shared = λ w. (fp, m.small, m.frame, m.parent, m.child);
    };
    entries = m.entries;
    contents = m.contents;
    grown = m.grown;
  }

  -- One round, and then the rest.
  pub Round-DeepCopied :
      (s t u : Memory) (i last : ℕ)
      → i < last
      → last ≤ 2 ^ 35
      → page_entry s h i ≡ 0
      → Round s i t
      → DeepCopied R prot t g h (i + 1) last u
      → DeepCopied R prot s g h i last u
  Round-DeepCopied s t u i last lt small none_there r d = record {
    forest = d.forest;
    pages = λ k a b. elim (Bool-cases (i == k)) [
      | inl same ↦
          subst (λ (v : ℕ). PageCopied prot s g h v u) (ground arith)
            (PageCopied-later prot s g h i t u
              (d.entries g i rg (omega arith) (inr (inl (omega arith))))
              (d.entries h i rh (omega arith) (inr (inl (omega arith)))) r.page)
      | inr other ↦
          PageCopied-earlier prot s t g h k u (r.entries g k rg (omega arith) (inr (ground arith)))
            (d.pages k (ground arith) b)
    ];
    entries = λ j k rj ku o.
        d.entries j k rj ku (ground (arith, o)) ∙ r.entries j k rj ku (ground (arith, o));
    contents = λ j k o rj ku ne b.
        let f = frame_kept j k rj ku ne in
        subst (λ (v : Ptr). u.byte (v + o) ≡ t.byte (v + o)) f.1 (d.contents j k o rj ku f.0 b)
        ∙ r.contents j k o rj ku ne b;
  }
    where
      frame_kept :
          (j : Ptr) (k : ℕ)
          → R j
          → k < 2 ^ 35
          → page_entry s j k ≢ 0
          → (page_entry t j k ≢ 0) × (table_of (page_entry t j k) ≡ table_of (page_entry s j k))
      frame_kept j k rj ku ne = elim (Bool-cases ((g == j) && (i == k))) [
        | inl hit ↦ at_parent (ground (arith, hit)) (ground (arith, hit))
        | inr miss ↦ elim (Bool-cases ((h == j) && (i == k))) [
          | inl child ↦ absurd (ne (at_child (ground (arith, child)) (ground (arith, child))))
          | inr away ↦ (
            λ w. ne (sym (r.entries j k rj ku (ground (arith, miss, away))) ∙ w),
            ap table_of (r.entries j k rj ku (ground (arith, miss, away))),
          )
        ]
      ]
        where
          at_child : h ≡ j → i ≡ k → page_entry s j k ≡ 0
          at_child a b =
              subst (λ (v : ℕ). page_entry s j v ≡ 0) b
                (subst (λ (v : Ptr). page_entry s v i ≡ 0) a none_there)

          at_parent :
              g ≡ j
              → i ≡ k
              → (page_entry t j k ≢ 0) × (table_of (page_entry t j k) ≡ table_of (page_entry s j k))
          at_parent a b =
              subst
                (λ (v : ℕ).
                  (page_entry t j v ≢ 0)
                  × (table_of (page_entry t j v) ≡ table_of (page_entry s j v)))
                b
                (subst
                  (λ (v : Ptr).
                    (page_entry t v i ≢ 0)
                    × (table_of (page_entry t v i) ≡ table_of (page_entry s v i)))
                  a parent)
            where
              mapped : page_entry s g i ≢ 0
              mapped w = ne (
                  subst (λ (v : ℕ). page_entry s j v ≡ 0) b
                    (subst (λ (v : Ptr). page_entry s v i ≡ 0) a w))

              parent :
                  (page_entry t g i ≢ 0)
                  × (table_of (page_entry t g i) ≡ table_of (page_entry s g i))
              parent =
                  let (fp, fs, f, c, e) = r.page.shared mapped in
                  marked_frame (bit_and prot 2 == 0) (page_entry s g i) (page_entry t g i) fp mapped
                    fs f c
