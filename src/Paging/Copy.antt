-- ===== src/Paging/Copy.antt =====
-- copy_page of sys/mm.c.
use plum_os.Prelude.{
  ℕ, zero, suc, ◌+◌, ◌*◌, ◌^◌, ◌≤◌, ◌<◌, ◌≡◌, refl, sym, ap, ◌∙◌, ◌≢◌, ◌⊎◌, inl, inr, ◌==◌,
  Bool-cases, true, arith,
}
use plum_os.Kernel.{put}
use plum_os.Vma.{page_at}
use plum_os.Paging.{Bytes, Memory, copy_loop, copy_page, get_entry, entry_at}
use plum_os.Paging.Words.{page_at_eq, entry_at_eq, load_agree}

put_same : (m : Bytes) (a v : ℕ) → put m a v a ≡ v
put_same m a v = ground arith

put_other : (m : Bytes) (a b v : ℕ) → a ≢ b → put m a v b ≡ m b
put_other m a b v h = ground arith

copy_loop-outside :
    (n i dest src a : ℕ) (m : Bytes)
    → (a < dest + i) ⊎ (dest + i + n ≤ a)
    → copy_loop n i dest src m a ≡ m a
unfolding copy_loop
copy_loop-outside zero i dest src a m h = refl
copy_loop-outside (suc n) i dest src a m h =
    copy_loop-outside n (i + 1) dest src a (put m (dest + i) (m (src + i))) (ground (arith, h))
    ∙ put_other m (dest + i) a (m (src + i)) (ground (arith, h))

copy_loop-inside :
    (n i dest src k : ℕ) (m : Bytes)
    → i + n ≤ 4096
    → (dest + 4096 ≤ src) ⊎ (src + 4096 ≤ dest)
    → i ≤ k
    → k < i + n
    → copy_loop n i dest src m (dest + k) ≡ m (src + k)
unfolding copy_loop
copy_loop-inside zero i dest src k m b d h l = absurd (omega arith)
copy_loop-inside (suc n) i dest src k m b d h l = elim (Bool-cases (i == k)) [
  | inl e ↦
      copy_loop-outside n (i + 1) dest src (dest + k) (put m (dest + i) (m (src + i)))
        (inl (ground arith))
      ∙ ap (λ (j : ℕ). put m (dest + i) (m (src + i)) (dest + j)) (sym (same e))
      ∙ put_same m (dest + i) (m (src + i))
      ∙ ap (λ (j : ℕ). m (src + j)) (same e)
  | inr o ↦
      copy_loop-inside n (i + 1) dest src k (put m (dest + i) (m (src + i))) (omega arith) d
        (ground arith) (omega arith)
      ∙ put_other m (dest + i) (src + k) (m (src + i)) (ground (arith, d))
]
  where
    same : (i == k) ≡ true → i ≡ k
    same e = ground arith

-- The copy holds the bytes of the page copied.
pub copy_page-inside :
    (p q i : ℕ) (s : Memory)
    → p < 2 ^ 15
    → q < 2 ^ 15
    → p ≢ q
    → i < 4096
    → (copy_page (page_at q) (page_at p) s).byte (page_at q + i) ≡ s.byte (page_at p + i)
unfolding copy_page
copy_page-inside p q i s a b ne h =
    copy_loop-inside 4096 0 (page_at q) (page_at p) i s.byte (omega arith)
      (ground (arith, page_at_eq p (omega arith), page_at_eq q (omega arith))) (omega arith)
      (omega arith)

pub copy_page-outside :
    (p q src i : ℕ) (s : Memory)
    → p < 2 ^ 15
    → q < 2 ^ 15
    → p ≢ q
    → i < 4096
    → (copy_page (page_at q) src s).byte (page_at p + i) ≡ s.byte (page_at p + i)
unfolding copy_page
copy_page-outside p q src i s a b ne h =
    copy_loop-outside 4096 0 (page_at q) src (page_at p + i) s.byte
      (ground (arith, page_at_eq p (omega arith), page_at_eq q (omega arith)))

pub copy_page-frames : (dest src : ℕ) (s : Memory) → (copy_page dest src s).frames ≡ s.frames
unfolding copy_page
copy_page-frames dest src s = refl

-- A page with the same bytes has the same entries.
pub get_entry_bytes :
    (p o : ℕ) (s t : Memory)
    → p < 2 ^ 15
    → o < 512
    → ((i : ℕ) → i < 4096 → t.byte (page_at p + i) ≡ s.byte (page_at p + i))
    → get_entry (page_at p) o t ≡ get_entry (page_at p) o s
unfolding get_entry
get_entry_bytes p o s t a b h =
    load_agree t.byte s.byte (entry_at (page_at p) o) (entry_at (page_at p) o)
      λ k lt. ap t.byte (place k) ∙ h (8 * o + k) (omega arith) ∙ ap s.byte (sym (place k))
  where
    place : (k : ℕ) → entry_at (page_at p) o + k ≡ page_at p + (8 * o + k)
    place k = omega (arith, entry_at_eq p o (omega arith) b, page_at_eq p (omega arith))
