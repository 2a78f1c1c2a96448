-- ===== src/Paging/Child.antt =====
-- copy_pfn: one page of a parent, down both processes' tables.
use plum_os.Prelude.{
  ℕ, suc, ◌-◌, ◌/◌, ◌%◌, ◌^◌, ◌≤◌, ◌<◌, ◌≡◌, refl, sym, ap, ◌∙◌, ◌≢◌, inl, inr, false, ◌==◌,
  Bool-cases, arith, subst, some, Option,
}
use plum_os.Frames.Count.{free_pages}
use plum_os.Kernel.{Ptr}
use plum_os.Vma.{page_at}
use plum_os.Paging.{
  Memory, Act, table_of, get_entry, lower_table, get_pgd_off, get_pud_off, get_pmd_off, get_pte_off,
}
use plum_os.Paging.Fork.{copy_level, copy_pfn, share_page}
use plum_os.Paging.Words.{get_pgd_off_eq, get_pud_off_eq, get_pmd_off_eq, get_pte_off_eq}
use plum_os.Paging.Tree.{
  node, slot, page_entry, IsUsed, IsForest, user_size, user_size_half, user_size_def, user_pages,
  slot_at, slot_none, node_none, node_of_slot, node-zero, page_entry_def,
}
use plum_os.Paging.Steps.{Extends, Extends-refl, Extends-trans, Stepped, lower_table-Stepped}
use plum_os.Paging.Map.{and_then-some}
use plum_os.Paging.Entered.{IsFrame}
use plum_os.Paging.Share.{
  Shared, shared_state, shared_state-Shared, Shared-after, shared_left, share_page-none,
  share_page-some,
}

-- A page that the parent has not mapped leaves both as they are; one that it has is shared.
pub data Forked (R : Ptr → Type 0) (prot : ℕ) (s : Memory) (g h : Ptr) (pfn : ℕ) (t : Memory)
    : Type 0 where
  absent : page_entry s g pfn ≡ 0 → IsForest R t → Extends R s t → Forked R prot s g h pfn t
  present :
      (fp : ℕ) → page_entry s g pfn ≢ 0 → Shared R prot s g h pfn fp t → Forked R prot s g h pfn t

-- Both processes' tables at one depth, in the state that the steps so far have left.
record IsAt (R : Ptr → Type 0) (s : Memory) (g h : Ptr) (l x n : ℕ) (u : Memory) (a b : Ptr)
    : Type 0 where
  pub extends : Extends R s u
  pub forest : IsForest R u
  pub old : node u g l x ≡ a
  pub old_there : a ≢ 0
  pub new : node u h l x ≡ b
  pub new_there : b ≢ 0
  pub left : n ≤ free_pages u.frames

copy_level-none :
    (a b o : ℕ) (next : Ptr → Ptr → Act (Unit {0})) (u : Memory)
    → get_entry a o u ≡ 0
    → copy_level a b o next u ≡ some (tt, u)
unfolding copy_level
copy_level-none a b o next u e = rw e refl

copy_level-some :
    (a b o r : ℕ) (next : Ptr → Ptr → Act (Unit {0})) (u v : Memory)
    → (get_entry a o u == 0) ≡ false
    → lower_table b o u ≡ some (r, v)
    → copy_level a b o next u ≡ next (table_of (get_entry a o u)) r v
unfolding copy_level
copy_level-some a b o r next u v ne e = rw ne (and_then-some (next (table_of (get_entry a o u))) e)

module _ (R : Ptr → Type 0) (prot : ℕ) (s : Memory) (g h : Ptr) (pfn m : ℕ) (rg : R g)
    (rh : R h) where
  abbrev Result : Option (Unit {0} × Memory) → Type 0
  Result r =
      (t : Memory) × (r ≡ some (tt, t)) × Forked R prot s g h pfn t × (m ≤ free_pages t.frames)

  copy_level-Result :
      (l x z n o : ℕ) (u : Memory) (a b : Ptr) (next : Ptr → Ptr → Act (Unit {0}))
      → IsAt R s g h l x (suc n) u a b
      → l ≤ 2
      → z < user_size (suc l)
      → z / 512 ≡ x
      → o ≡ z % 512
      → pfn < 2 ^ 35
      → m ≤ suc n
      → (slot u g l z ≡ 0 → page_entry u g pfn ≡ 0)
      → ((v : Memory) (c d : Ptr) → IsAt R s g h (suc l) z n v c d → Result (next c d v))
      → Result (copy_level a b o next u)
  copy_level-Result l x z n o u a b next k ld zu e oe user enough dead go_on =
      elim (Bool-cases (get_entry a o u == 0)) [
        | inl none_there ↦ (
          u,
          copy_level-none a b o next u (ground arith),
          absent (sym (k.extends.entries g pfn rg user) ∙ dead (slot_zero (ground arith))) k.forest
              k.extends,
          omega (arith, k.left),
        )
        | inr there ↦ down there (
            lower_table-Stepped R n u h l z b k.forest rh ld zu (ap (node u h l) e ∙ k.new)
              k.new_there k.left)
      ]
    where
      here : node u g l (z / 512) ≡ a
      here = ap (node u g l) e ∙ k.old

      used : IsUsed u (node u g l (z / 512))
      used =
          k.forest.used g l (z / 512) rg (omega arith) (user_size_half l z zu)
            (λ w. k.old_there (sym here ∙ w))

      -- The entry that was read.
      slot_read : slot u g l z ≡ get_entry a o u
      slot_read =
          slot_at u g l z used.pfn used.at (omega (arith, used.small))
          ∙ ap (λ (t : Ptr). get_entry t (z % 512) u) (sym used.at ∙ here)
          ∙ ap (λ (i : ℕ). get_entry a i u) (sym oe)

      slot_zero : get_entry a o u ≡ 0 → slot u g l z ≡ 0
      slot_zero w = slot_read ∙ w

      down :
          (get_entry a o u == 0) ≡ false
          → ((r : Ptr) × (v : Memory) × (lower_table b (z % 512) u ≡ some (r, v))
              × Stepped R u h l z n r v)
          → Result (copy_level a b o next u)
      down there (r, v, eq, p) = finish (
          go_on v (table_of (get_entry a o u)) r (record {
            extends = Extends-trans R s u v k.extends p.extends;
            forest = p.forest;
            old = p.extends.nodes g (suc l) z rg (omega arith) zu lower_there ∙ lower_old;
            old_there = λ w. lower_there (lower_old ∙ w);
            new = p.returned;
            new_there = p.nonzero;
            left = p.left;
          }))
        where
          slot_there : slot u g l z ≢ 0
          slot_there w = ground (arith, there, sym slot_read ∙ w)

          lower_old : node u g (suc l) z ≡ table_of (get_entry a o u)
          lower_old = node_of_slot u g l z slot_there ∙ ap table_of slot_read

          lower_there : node u g (suc l) z ≢ 0
          lower_there = k.forest.present g l z rg ld zu slot_there

          finish : Result (next (table_of (get_entry a o u)) r v) → Result (copy_level a b o next u)
          finish (t, te, f, left) = (
            t,
            copy_level-some a b o r next u v there (ap (λ (i : ℕ). lower_table b i u) oe ∙ eq) ∙ te,
            f,
            left,
          )

  share_page-Result :
      (u : Memory) (a b : Ptr)
      → IsAt R s g h 3 (pfn / 512) m u a b
      → IsForest R s
      → g ≢ h
      → pfn < 2 ^ 35
      → ((k : ℕ) → s.frames.ref k < 2 ^ 31)
      → Result (share_page prot (get_pte_off pfn) a b u)
  share_page-Result u a b k forest apart user few =
      subst (λ (r : Option (Unit {0} × Memory)). Result r) same_call
        (elim (Bool-cases (get_entry (page_at ga.pfn) (pfn % 512) u == 0)) [
          | inl none_there ↦ (
            u,
            share_page-none prot (pfn % 512) (page_at ga.pfn) (page_at ha.pfn) u (ground arith),
            absent (sym same_entry ∙ entry_read ∙ ground arith) k.forest k.extends,
            k.left,
          )
          | inr there ↦ (
            shared_state prot (pfn % 512) (page_at ga.pfn) (page_at ha.pfn) (frame there).pfn u,
            share_page-some prot (pfn % 512) (page_at ga.pfn) (page_at ha.pfn) (frame there).pfn u
                there (ap table_of (sym entry_read) ∙ (frame there).at) (frame there).small,
            present (frame there).pfn (λ w. nonzero there (same_entry ∙ w)) (after there),
            omega (
              arith,
              k.left,
              shared_left prot (pfn % 512) (page_at ga.pfn) (page_at ha.pfn) (frame there).pfn u
                  (frame there).counted (few_now (frame there).pfn),
            ),
          )
        ])
    where
      half : pfn / 512 < user_size 3
      half = user_size_half 3 pfn (omega (arith, user_pages))

      ga : IsUsed u (node u g 3 (pfn / 512))
      ga = k.forest.used g 3 (pfn / 512) rg (omega arith) half (λ w. k.old_there (sym k.old ∙ w))

      ha : IsUsed u (node u h 3 (pfn / 512))
      ha = k.forest.used h 3 (pfn / 512) rh (omega arith) half (λ w. k.new_there (sym k.new ∙ w))

      same_call :
          share_page prot (pfn % 512) (page_at ga.pfn) (page_at ha.pfn) u
          ≡ share_page prot (get_pte_off pfn) a b u
      same_call =
          ap (λ (o : ℕ). share_page prot o (page_at ga.pfn) (page_at ha.pfn) u)
            (sym (get_pte_off_eq pfn))
          ∙ ap (λ (t : Ptr). share_page prot (get_pte_off pfn) t (page_at ha.pfn) u)
              (sym ga.at ∙ k.old)
          ∙ ap (λ (t : Ptr). share_page prot (get_pte_off pfn) a t u) (sym ha.at ∙ k.new)

      entry_read : page_entry u g pfn ≡ get_entry (page_at ga.pfn) (pfn % 512) u
      entry_read = page_entry_def u g pfn ∙ slot_at u g 3 pfn ga.pfn ga.at (omega (arith, ga.small))

      same_entry : page_entry u g pfn ≡ page_entry s g pfn
      same_entry = k.extends.entries g pfn rg user

      nonzero : (get_entry (page_at ga.pfn) (pfn % 512) u == 0) ≡ false → page_entry u g pfn ≢ 0
      nonzero there w = ground (arith, there, sym entry_read ∙ w)

      frame :
          (get_entry (page_at ga.pfn) (pfn % 512) u == 0) ≡ false
          → IsUsed u (table_of (page_entry u g pfn))
      frame there = k.forest.mapped g pfn rg user (nonzero there)

      few_now : (p : ℕ) → u.frames.ref p < 2 ^ 31
      few_now p = omega (arith, k.extends.bound p (2 ^ 31 - 1) (omega arith) (omega (arith, few p)))

      is_frame :
          (there : (get_entry (page_at ga.pfn) (pfn % 512) u == 0) ≡ false)
          → IsFrame R u (frame there).pfn
      is_frame there = record {
        small = (frame there).small;
        counted = (frame there).counted;
        away = λ i l x ri ld xu w.
            k.forest.mapped_apart g i pfn l x rg ri user ld xu (nonzero there)
              (w ∙ sym (frame there).at);
      }

      after :
          (there : (get_entry (page_at ga.pfn) (pfn % 512) u == 0) ≡ false)
          → Shared R prot s g h pfn
              (frame there).pfn
              (shared_state prot (pfn % 512) (page_at ga.pfn) (page_at ha.pfn) (frame there).pfn u)
      after there =
          Shared-after R prot s u
            (shared_state prot (pfn % 512) (page_at ga.pfn) (page_at ha.pfn) (frame there).pfn u) g
            h pfn (frame there).pfn forest rg user (λ w. nonzero there (same_entry ∙ w))
            (frame there).small k.extends
            (shared_state-Shared R u g h pfn ga.pfn ha.pfn (frame there).pfn prot k.forest rg rh
              apart user ga.at ha.at ga.small ha.small (is_frame there) (frame there).at
              (few_now (frame there).pfn))

  dead_low : (u : Memory) → slot u g 2 (pfn / 512) ≡ 0 → page_entry u g pfn ≡ 0
  dead_low u e = page_entry_def u g pfn ∙ slot_none u g 3 pfn (node_none u g 2 (pfn / 512) e)

  dead_middle : (u : Memory) → slot u g 1 (pfn / 2 ^ 18) ≡ 0 → page_entry u g pfn ≡ 0
  dead_middle u e =
      dead_low u
        (slot_none u g 2 (pfn / 512) (ap (node u g 2) split ∙ node_none u g 1 (pfn / 2 ^ 18) e))
    where
      split : pfn / 512 / 512 ≡ pfn / 2 ^ 18
      split = omega arith

  dead_top : (u : Memory) → slot u g 0 (pfn / 2 ^ 27) ≡ 0 → page_entry u g pfn ≡ 0
  dead_top u e =
      dead_middle u
        (slot_none u g 1 (pfn / 2 ^ 18) (ap (node u g 1) split ∙ node_none u g 0 (pfn / 2 ^ 27) e))
    where
      split : pfn / 2 ^ 18 / 512 ≡ pfn / 2 ^ 27
      split = omega arith

  -- The whole body of the loop.
  pub copy_pfn-Result :
      IsForest R s
      → g ≢ h
      → pfn < 2 ^ 35
      → ((k : ℕ) → s.frames.ref k < 2 ^ 31)
      → suc (suc (suc m)) ≤ free_pages s.frames
      → Result (copy_pfn prot h g pfn s)
  unfolding copy_pfn
  copy_pfn-Result forest apart user few free =
      copy_level-Result 0 (pfn / 2 ^ 27 / 512) (pfn / 2 ^ 27) (suc (suc m)) (get_pgd_off pfn) s g h
        _
        (record {
          extends = Extends-refl R s;
          forest = forest;
          old = node-zero s g (pfn / 2 ^ 27 / 512);
          old_there = forest.rooted g rg;
          new = node-zero s h (pfn / 2 ^ 27 / 512);
          new_there = forest.rooted h rh;
          left = free;
        })
        (omega arith) (omega (arith, user_size_def 0)) refl (get_pgd_off_eq pfn) user (omega arith)
        (dead_top s)
        λ u1 a1 b1 k1.
          copy_level-Result 1 (pfn / 2 ^ 27) (pfn / 2 ^ 18) (suc m) (get_pud_off pfn) u1 a1 b1 _ k1
            (omega arith) (omega (arith, user_size_def 1)) (omega arith) (get_pud_off_eq pfn) user
            (omega arith) (dead_middle u1)
            λ u2 a2 b2 k2.
              copy_level-Result 2 (pfn / 2 ^ 18) (pfn / 512) m (get_pmd_off pfn) u2 a2 b2 _ k2
                (omega arith) (omega (arith, user_size_def 2)) (omega arith) (get_pmd_off_eq pfn)
                user (omega arith) (dead_low u2)
                λ u3 a3 b3 k3. share_page-Result u3 a3 b3 k3 forest apart user few
