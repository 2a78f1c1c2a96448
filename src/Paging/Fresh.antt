-- ===== src/Paging/Fresh.antt =====
-- get_zero_page, and a fresh page put in a table.
use plum_os.Prelude.{
  ℕ, suc, ◌+◌, ◌*◌, ◌/◌, ◌%◌, ◌^◌, ◌≤◌, ◌<◌, ◌≡◌, refl, sym, ap, ◌∙◌, ◌≢◌, inl, arith, subst, some,
}
use plum_os.Frames.{Frames, get_free_page}
use plum_os.Frames.Count.{free_pages, get_free_page-some}
use plum_os.Frames.Alloc.{Took}
use plum_os.Vma.{page_at}
use plum_os.Paging.{
  Bytes, Memory, load, entry_at, get_entry, entry_of, put_entry, clear_bytes, zeroed, get_zero_page,
  new_page, and_then,
}
use plum_os.Paging.Words.{
  zeroed-some, load-clear_bytes, load-clear_bytes_apart, page_at_eq, entry_of_eq, table_of_eq,
  entry_at_eq, get_entry-put_entry, get_entry-put_entry_apart, store-outside,
}
use plum_os.Paging.Grow.{Filled}

-- Page q was free and is in use and clear now; nothing else has changed.
pub record Fresh (s t : Memory) (q : ℕ) : Type 0 where
  pub above : 671 ≤ q
  pub below : q < 32766
  pub was_free : s.frames.ref q ≡ 0
  pub taken : t.frames.ref q ≡ 1
  pub others : (p : ℕ) → p ≢ q → t.frames.ref p ≡ s.frames.ref p
  pub cleared : t.byte ≡ clear_bytes s.byte (page_at q)

pub get_zero_page-some :
    (n : ℕ) (s : Memory)
    → suc n ≤ free_pages s.frames
    → (q : ℕ) × (t : Memory) × (get_zero_page s ≡ some (page_at q, t))
      × Fresh s t q
      × (n ≤ free_pages t.frames)
unfolding get_zero_page
get_zero_page-some n s h = go (get_free_page-some n s.frames h)
  where
    go :
        ((q : ℕ) × (f : Frames) × (get_free_page s.frames ≡ some (q, f))
          × Took 671 32766 s.frames q f
          × (n ≤ free_pages f))
        → (q : ℕ) × (t : Memory) × (get_zero_page s ≡ some (page_at q, t))
          × Fresh s t q
          × (n ≤ free_pages t.frames)
    go (q, f, e, k, m) = (
      q,
      record { frames = f; byte = clear_bytes s.byte (page_at q) },
      ap (λ o. zeroed o s) e ∙ zeroed-some q f s,
      record {
        above = k.above;
        below = k.below;
        was_free = k.was_free;
        taken = k.taken;
        others = k.others;
        cleared = refl;
      },
      m,
    )

clear-inside : (m : Bytes) (q i : ℕ) → i < 4096 → clear_bytes m (page_at q) (page_at q + i) ≡ 0
unfolding clear_bytes
clear-inside m q i h = ground arith

pub clear-outside :
    (m : Bytes) (q p i : ℕ)
    → q < 2 ^ 15
    → p < 2 ^ 15
    → p ≢ q
    → i < 4096
    → clear_bytes m (page_at q) (page_at p + i) ≡ m (page_at p + i)
unfolding clear_bytes
clear-outside m q p i a b c h =
    ground (arith, page_at_eq q (omega arith), page_at_eq p (omega arith))

pub put_entry-data :
    (p i tp off va f : ℕ) (s : Memory)
    → p < 2 ^ 15
    → tp < 2 ^ 15
    → p ≢ tp
    → i < 4096
    → off < 512
    → (put_entry (page_at tp) off va f s).byte (page_at p + i) ≡ s.byte (page_at p + i)
unfolding put_entry
put_entry-data p i tp off va f s a b c h o =
    store-outside s.byte (entry_at (page_at tp) off) (entry_of va f) (page_at p + i)
      (ground (arith, page_at_eq p (omega arith), entry_at_eq tp off (omega arith) o))

pub put_entry-frames :
    (table off va f : ℕ) (s : Memory) → (put_entry table off va f s).frames ≡ s.frames
unfolding put_entry
put_entry-frames table off va f s = refl

get_entry-Fresh : (s t : Memory) (q o : ℕ) → Fresh s t q → o < 512 → get_entry (page_at q) o t ≡ 0
unfolding get_entry
get_entry-Fresh s t q o k h =
    ap (λ (m : Bytes). load m (entry_at (page_at q) o)) k.cleared
    ∙ load-clear_bytes s.byte (page_at q) (entry_at (page_at q) o)
        (omega (
          arith,
          page_at_eq q (omega (arith, k.below)),
          entry_at_eq q o (omega (arith, k.below)) h,
        ))
        (omega (
          arith,
          page_at_eq q (omega (arith, k.below)),
          entry_at_eq q o (omega (arith, k.below)) h,
        ))

pub get_entry-Fresh_apart :
    (s t : Memory) (q p o : ℕ)
    → Fresh s t q
    → p < 2 ^ 15
    → p ≢ q
    → o < 512
    → get_entry (page_at p) o t ≡ get_entry (page_at p) o s
unfolding get_entry
get_entry-Fresh_apart s t q p o k a b h =
    ap (λ (m : Bytes). load m (entry_at (page_at p) o)) k.cleared
    ∙ load-clear_bytes_apart s.byte (page_at q) (entry_at (page_at p) o)
        (ground (arith, page_at_eq q (omega (arith, k.below)), entry_at_eq p o (omega arith) h, b))

-- A fresh page that is put in page tp's entry `off`.
Fresh-Filled :
    (s u : Memory) (q tp off f : ℕ)
    → Fresh s u q
    → tp < 2 ^ 15
    → s.frames.ref tp ≢ 0
    → off < 512
    → f < 4096
    → f % 2 ≡ 1
    → f / 128 % 2 ≡ 0
    → Filled s (put_entry (page_at tp) off (page_at q) f u) tp off q (q * 4096 + f)
unfolding put_entry
Fresh-Filled s u q tp off f k small used o b odd page = record {
  got = get_entry-put_entry tp off (page_at q) f u (omega (arith, entry, k.below)) ∙ entry;
  clear = λ i h.
      get_entry-put_entry_apart tp off q i (page_at q) f u (omega arith) (omega (arith, k.below)) o
        h (inl ne)
      ∙ get_entry-Fresh s u q i k h;
  same = λ p i a h other place.
      get_entry-put_entry_apart tp off p i (page_at q) f u (omega arith) (omega arith) o h place
      ∙ get_entry-Fresh_apart s u q p i k a other h;
  zero_page = λ i h.
      put_entry-data q i tp off (page_at q) f u (omega (arith, k.below)) small (λ e. ne (sym e)) h o
      ∙ ap (λ (m : Bytes). m (page_at q + i)) k.cleared
      ∙ clear-inside s.byte q i h;
  contents = λ p i a h other away.
      put_entry-data p i tp off (page_at q) f u a small away h o
      ∙ ap (λ (m : Bytes). m (page_at p + i)) k.cleared
      ∙ clear-outside s.byte q p i (omega (arith, k.below)) a other h;
  was_free = k.was_free;
  taken = k.taken;
  others = k.others;
  small = omega (arith, k.below);
  leads = table_of_eq q f (omega (arith, k.below)) b;
  nonzero = omega (arith, k.above);
  follows = record {
    present = omega arith;
    small_page = omega arith;
    address = omega (arith, k.below);
  };
}
  where
    entry : entry_of (page_at q) f ≡ q * 4096 + f
    entry = entry_of_eq q f (omega (arith, k.below)) b

    ne : tp ≢ q
    ne e = used (ap (λ (p : ℕ). s.frames.ref p) e ∙ k.was_free)

-- Page tp's entry `off` gets the fresh page.
pub new_page-some :
    (n tp off f : ℕ) (s : Memory)
    → suc n ≤ free_pages s.frames
    → tp < 2 ^ 15
    → s.frames.ref tp ≢ 0
    → off < 512
    → f < 4096
    → f % 2 ≡ 1
    → f / 128 % 2 ≡ 0
    → (q : ℕ) × (t : Memory) × (new_page (page_at tp) off f s ≡ some (page_at q, t))
      × Filled s t tp off q (q * 4096 + f)
      × (n ≤ free_pages t.frames)
      × (671 ≤ q)
unfolding new_page
new_page-some n tp off f s h small used o b odd page = go (get_zero_page-some n s h)
  where
    go :
        ((q : ℕ) × (u : Memory) × (get_zero_page s ≡ some (page_at q, u))
          × Fresh s u q
          × (n ≤ free_pages u.frames))
        → (q : ℕ) × (t : Memory) × (new_page (page_at tp) off f s ≡ some (page_at q, t))
          × Filled s t tp off q (q * 4096 + f)
          × (n ≤ free_pages t.frames)
          × (671 ≤ q)
    go (q, u, e, k, m) = (
      q,
      put_entry (page_at tp) off (page_at q) f u,
      ap (λ r. and_then r (λ p v. some (p, put_entry (page_at tp) off p f v))) e,
      Fresh-Filled s u q tp off f k small used o b odd page,
      subst (λ (c : Frames). n ≤ free_pages c)
          (sym (put_entry-frames (page_at tp) off (page_at q) f u)) m,
      k.above,
    )
