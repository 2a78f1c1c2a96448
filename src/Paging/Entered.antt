-- ===== src/Paging/Entered.antt =====
-- An entry that is written in one address space, for a page that is in use.
use plum_os.Prelude.{
  ℕ, ◌+◌, ◌*◌, ◌/◌, ◌%◌, ◌^◌, ◌≤◌, ◌<◌, ◌≡◌, sym, ap, ◌∙◌, ◌≢◌, ◌⊎◌, arith, subst,
}
use plum_os.Frames.{add_page_ref}
use plum_os.Kernel.{Ptr}
use plum_os.Vma.{page_at}
use plum_os.Paging.{Bytes, Memory, load, entry_at, entry_of, table_of, get_entry, put_entry}
use plum_os.Paging.Fork.{add_ref}
use plum_os.Paging.Words.{entry_of_eq, table_of_eq, get_entry-put_entry, get_entry-put_entry_apart}
use plum_os.Paging.Tree.{
  node, page_entry, IsUsed, IsForest, IsUsed-page, user_size, user_size_half, user_pages,
}
use plum_os.Paging.Fresh.{put_entry-data}
use plum_os.Paging.Leaf.{Rewritten, node_same, entry_rewritten, IsForest-rewritten}

pub add_ref-ref :
    (p : ℕ) (s : Memory)
    → s.frames.ref p < 2 ^ 31
    → ((add_ref p s).frames.ref p ≡ s.frames.ref p + 1)
      × ((k : ℕ) → k ≢ p → (add_ref p s).frames.ref k ≡ s.frames.ref k)
unfolding add_ref add_page_ref
add_ref-ref p s l = (ground arith, λ k ne. ground arith)

get_entry_byte :
    (table o : ℕ) (s t : Memory) → t.byte ≡ s.byte → get_entry table o t ≡ get_entry table o s
unfolding get_entry
get_entry_byte table o s t e = ap (λ (m : Bytes). load m (entry_at table o)) e

-- A word written in a table of an address space, as a change of an entry.
put_entry-Rewritten :
    (s t : Memory) (tp off fp f : ℕ)
    → tp < 2 ^ 15
    → off < 512
    → fp < 2 ^ 15
    → f < 4096
    → t.byte ≡ (put_entry (page_at tp) off (page_at fp) f s).byte
    → ((p : ℕ) → s.frames.ref p ≢ 0 → t.frames.ref p ≢ 0)
    → Rewritten s t tp off (fp * 4096 + f)
put_entry-Rewritten s t tp off fp f a b c d w live = record {
  got =
      get_entry_byte (page_at tp) off u t w
      ∙ get_entry-put_entry tp off (page_at fp) f s (omega (arith, is_entry))
      ∙ is_entry;
  same = λ p o small used h away.
      get_entry_byte (page_at p) o u t w
      ∙ get_entry-put_entry_apart tp off p o (page_at fp) f s (omega arith) (omega arith) b h away;
  kept = λ p small used. live p used;
}
  where
    u : Memory
    u = put_entry (page_at tp) off (page_at fp) f s

    is_entry : entry_of (page_at fp) f ≡ fp * 4096 + f
    is_entry = entry_of_eq fp f (omega arith) d

-- One entry of h, for page pfn, is a mapping of page fp now.
pub record Entered (R : Ptr → Type 0) (s : Memory) (h : Ptr) (pfn fp f : ℕ) (t : Memory)
    : Type 0 where
  pub forest : IsForest R t
  pub entry : page_entry t h pfn ≡ fp * 4096 + f
  pub entries :
      (i : Ptr) (k : ℕ)
      → R i
      → k < 2 ^ 35
      → (h ≢ i) ⊎ (pfn ≢ k)
      → page_entry t i k ≡ page_entry s i k
  pub contents :
      (p i : ℕ)
      → p < 2 ^ 15
      → i < 4096
      → ((j : Ptr) (x : ℕ) → R j → x < user_size 3 → node s j 3 x ≢ page_at p)
      → t.byte (page_at p + i) ≡ s.byte (page_at p + i)
  pub tables : (i : Ptr) (l x : ℕ) → R i → l ≤ 3 → x < user_size l → node t i l x ≡ node s i l x

-- fp is in use, and no table.
pub record IsFrame (R : Ptr → Type 0) (s : Memory) (fp : ℕ) : Type 0 where
  pub small : fp < 2 ^ 15
  pub counted : s.frames.ref fp ≢ 0
  pub away : (h : Ptr) (l x : ℕ) → R h → l ≤ 3 → x < user_size l → node s h l x ≢ page_at fp

module _ (R : Ptr → Type 0) where
  pub put_entry-Entered :
      (s t : Memory) (h : Ptr) (pfn tp fp f : ℕ)
      → IsForest R s
      → R h
      → pfn < 2 ^ 35
      → node s h 3 (pfn / 512) ≡ page_at tp
      → tp < 2 ^ 15
      → IsFrame R s fp
      → f < 4096
      → t.byte ≡ (put_entry (page_at tp) (pfn % 512) (page_at fp) f s).byte
      → ((p : ℕ) → s.frames.ref p ≢ 0 → t.frames.ref p ≢ 0)
      → Entered R s h pfn fp f t
  put_entry-Entered s t h pfn tp fp f forest rh user here small k d w live = record {
    forest =
        IsForest-rewritten R s t h pfn tp e forest rh user here small change
          (subst (IsUsed t) (sym leads) (IsUsed-page t fp k.small (live fp k.counted)))
          (λ i l y ri ld yu eq. k.away i l y ri ld yu (eq ∙ leads));
    entry =
        entry_rewritten R s t h pfn tp e forest rh user here small change h pfn rh user
        ∙ ground arith;
    entries = λ i l ri lu o.
        entry_rewritten R s t h pfn tp e forest rh user here small change i l ri lu
        ∙ ground (arith, o);
    contents = λ p i a b no_table.
        ap (λ (m : Bytes). m (page_at p + i)) w
        ∙ put_entry-data p i tp (pfn % 512) (page_at fp) f s a small
            (λ eq.
              no_table h (pfn / 512) rh (user_size_half 3 pfn (omega (arith, user_pages)))
                (here ∙ sym (ap page_at eq)))
            b (omega arith);
    tables = λ i l x ri ld xu.
        node_same R s t h pfn tp e forest rh user here small change i l x ri ld xu;
  }
    where
      e : ℕ
      e = fp * 4096 + f

      leads : table_of e ≡ page_at fp
      leads = table_of_eq fp f (omega (arith, k.small)) d

      change : Rewritten s t tp (pfn % 512) e
      change = put_entry-Rewritten s t tp (pfn % 512) fp f small (omega arith) k.small d w live

  -- The bytes of a mapped page.
  pub Entered-contents :
      (s t : Memory) (h : Ptr) (pfn fp f : ℕ)
      → IsForest R s
      → Entered R s h pfn fp f t
      → (i : Ptr) (k o : ℕ) → R i
      → k < 2 ^ 35
      → page_entry s i k ≢ 0
      → o < 4096
      → t.byte (table_of (page_entry s i k) + o) ≡ s.byte (table_of (page_entry s i k) + o)
  Entered-contents s t h pfn fp f forest m i k o ri ku ne lt =
      ap (λ (a : ℕ). t.byte (a + o)) u.at
      ∙ m.contents u.pfn o u.small lt
          (λ j x rj xu w. forest.mapped_apart i j k 3 x ri rj ku (omega arith) xu ne (w ∙ sym u.at))
      ∙ ap (λ (a : ℕ). s.byte (a + o)) (sym u.at)
    where
      u : IsUsed s (table_of (page_entry s i k))
      u = forest.mapped i k ri ku ne

  -- A frame stays one.
  pub Entered-IsFrame :
      (s t : Memory) (h : Ptr) (pfn fp f : ℕ)
      → Entered R s h pfn fp f t
      → IsFrame R s fp
      → t.frames.ref fp ≢ 0
      → IsFrame R t fp
  Entered-IsFrame s t h pfn fp f m k live = record {
    small = k.small;
    counted = live;
    away = λ i l x ri ld xu w. k.away i l x ri ld xu (sym (m.tables i l x ri ld xu) ∙ w);
  }
