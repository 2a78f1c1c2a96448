-- ===== src/Console/Scroll.antt =====
-- What scoll_screen_up of sys/printf.c does to the characters on the screen.
use plum_os.Prelude.{
  ℕ, zero, suc, ◌+◌, ◌*◌, ◌%◌, ◌^◌, ◌≤◌, ◌<◌, ◌≡◌, refl, ◌≢◌, arith, ◌==◌, ltb, if◌then◌else◌, ◌∙◌,
  Bool-cases, inl, inr, ◌⊎◌, false, ==_ne, ==_refl, subst, ==_iff,
}
use plum_os.Console.{Screen, offset, put_cell, copy_row, blank_row, copy_rows, scoll_screen_up}

-- The character in row i and column j.
abbrev pub glyph : Screen → ℕ → ℕ → ℕ
glyph s i j = s.cells (offset i j)

offset_on : (i j : ℕ) → i < 24 → j < 80 → offset i j ≡ i * 160 + j * 2
unfolding offset
offset_on i j h l = omega arith

put_cell-same : (i j c : ℕ) (s : Screen) → i < 24 → j < 80 → glyph (put_cell i j c s) i j ≡ c
unfolding put_cell
put_cell-same i j c s h l =
    rw (==_ne ((offset i j + 1) % 2 ^ 32) (offset i j) (omega (arith, offset_on i j h l)))
      (rw ==_refl refl)

put_cell-other :
    (i j c a b : ℕ) (s : Screen)
    → i < 24
    → j < 80
    → a < 24
    → b < 80
    → (i ≢ a) ⊎ (j ≢ b)
    → glyph (put_cell i j c s) a b ≡ glyph s a b
unfolding put_cell
put_cell-other i j c a b s h l h' l' d =
    rw
      (==_ne ((offset i j + 1) % 2 ^ 32) (offset a b)
        (omega (arith, offset_on i j h l, offset_on a b h' l')))
      (rw (==_ne (offset i j) (offset a b) (apart d)) refl)
  where
    apart : (i ≢ a) ⊎ (j ≢ b) → offset i j ≢ offset a b
    apart (inl ne) = omega (arith, offset_on i j h l, offset_on a b h' l')
    apart (inr ne) = omega (arith, offset_on i j h l, offset_on a b h' l')

copy_row-other :
    (n i j a b : ℕ) (s : Screen)
    → i < 24
    → j + n ≤ 80
    → a < 24
    → b < 80
    → (i ≢ a) ⊎ (b < j)
    → glyph (copy_row n i j s) a b ≡ glyph s a b
unfolding copy_row
copy_row-other zero i j a b s h l h' l' d = refl
copy_row-other (suc n) i j a b s h l h' l' d =
    copy_row-other n i (j + 1) a b (put_cell i j (glyph s (i + 1) j) s) h (omega arith) h' l'
      (further d)
    ∙ put_cell-other i j (glyph s (i + 1) j) a b s h (omega arith) h' l' (here d)
  where
    further : (i ≢ a) ⊎ (b < j) → (i ≢ a) ⊎ (b < j + 1)
    further (inl e) = inl e
    further (inr e) = inr (omega arith)

    here : (i ≢ a) ⊎ (b < j) → (i ≢ a) ⊎ (j ≢ b)
    here (inl e) = inl e
    here (inr e) = inr (omega arith)

copy_row-copied :
    (n i j b : ℕ) (s : Screen)
    → i < 23
    → j + n ≤ 80
    → j ≤ b
    → b < j + n
    → glyph (copy_row n i j s) i b ≡ glyph s (i + 1) b
unfolding copy_row
copy_row-copied zero i j b s h l u v = absurd (omega arith)
copy_row-copied (suc n) i j b s h l u v = elim (Bool-cases (j == b)) [
  | inl e ↦
      copy_row-other n i (j + 1) i b (put_cell i j (glyph s (i + 1) j) s) (omega arith)
        (omega arith) (omega arith) (omega arith) (inr (ground arith))
      ∙ subst (λ (m : ℕ). glyph (put_cell i j (glyph s (i + 1) j) s) i m ≡ glyph s (i + 1) m)
          ((==_iff j b).0 e) (put_cell-same i j (glyph s (i + 1) j) s (omega arith) (omega arith))
  | inr e ↦
      copy_row-copied n i (j + 1) b (put_cell i j (glyph s (i + 1) j) s) h (omega arith)
        (ground arith) (omega arith)
      ∙ put_cell-other i j (glyph s (i + 1) j) (i + 1) b s (omega arith) (omega arith) (omega arith)
          (omega arith) (inl (omega arith))
]

copy_rows-other :
    (n i a b : ℕ) (s : Screen)
    → i + n ≤ 23
    → a < 24
    → b < 80
    → (a < i) ⊎ (i + n ≤ a)
    → glyph (copy_rows n i s) a b ≡ glyph s a b
unfolding copy_rows
copy_rows-other zero i a b s h l v d = refl
copy_rows-other (suc n) i a b s h l v d =
    copy_rows-other n (i + 1) a b (copy_row 80 i 0 s) (omega arith) l v (further d)
    ∙ copy_row-other 80 i 0 a b s (omega arith) (omega arith) l v (inl (elsewhere d))
  where
    further : (a < i) ⊎ (i + suc n ≤ a) → (a < i + 1) ⊎ (i + 1 + n ≤ a)
    further (inl e) = inl (omega arith)
    further (inr e) = inr (omega arith)

    elsewhere : (a < i) ⊎ (i + suc n ≤ a) → i ≢ a
    elsewhere (inl e) = omega arith
    elsewhere (inr e) = omega arith

copy_rows-copied :
    (n i a b : ℕ) (s : Screen)
    → i + n ≤ 23
    → i ≤ a
    → a < i + n
    → b < 80
    → glyph (copy_rows n i s) a b ≡ glyph s (a + 1) b
unfolding copy_rows
copy_rows-copied zero i a b s h u v l = absurd (omega arith)
copy_rows-copied (suc n) i a b s h u v l = elim (Bool-cases (i == a)) [
  | inl e ↦
      copy_rows-other n (i + 1) a b (copy_row 80 i 0 s) (omega arith) (omega arith) l
        (inl (ground arith))
      ∙ subst (λ (m : ℕ). glyph (copy_row 80 i 0 s) m b ≡ glyph s (m + 1) b) ((==_iff i a).0 e)
          (copy_row-copied 80 i 0 b s (omega arith) (omega arith) (omega arith) (omega arith))
  | inr e ↦
      copy_rows-copied n (i + 1) a b (copy_row 80 i 0 s) (omega arith) (ground arith) (omega arith)
        l
      ∙ copy_row-other 80 i 0 (a + 1) b s (omega arith) (omega arith) (omega arith) l
          (inl (omega arith))
]

blank_row-other :
    (n i j a b : ℕ) (s : Screen)
    → i < 24
    → j + n ≤ 80
    → a < 24
    → b < 80
    → (i ≢ a) ⊎ (b < j)
    → glyph (blank_row n i j s) a b ≡ glyph s a b
unfolding blank_row
blank_row-other zero i j a b s h l h' l' d = refl
blank_row-other (suc n) i j a b s h l h' l' d =
    blank_row-other n i (j + 1) a b (put_cell i j 32 s) h (omega arith) h' l' (further d)
    ∙ put_cell-other i j 32 a b s h (omega arith) h' l' (here d)
  where
    further : (i ≢ a) ⊎ (b < j) → (i ≢ a) ⊎ (b < j + 1)
    further (inl e) = inl e
    further (inr e) = inr (omega arith)

    here : (i ≢ a) ⊎ (b < j) → (i ≢ a) ⊎ (j ≢ b)
    here (inl e) = inl e
    here (inr e) = inr (omega arith)

blank_row-blank :
    (n i j b : ℕ) (s : Screen)
    → i < 24
    → j + n ≤ 80
    → j ≤ b
    → b < j + n
    → glyph (blank_row n i j s) i b ≡ 32
unfolding blank_row
blank_row-blank zero i j b s h l u v = absurd (omega arith)
blank_row-blank (suc n) i j b s h l u v = elim (Bool-cases (j == b)) [
  | inl e ↦
      blank_row-other n i (j + 1) i b (put_cell i j 32 s) h (omega arith) h (omega arith)
        (inr (ground arith))
      ∙ subst (λ (m : ℕ). glyph (put_cell i j 32 s) i m ≡ 32) ((==_iff j b).0 e)
          (put_cell-same i j 32 s h (omega arith))
  | inr e ↦
      blank_row-blank n i (j + 1) b (put_cell i j 32 s) h (omega arith) (ground arith) (omega arith)
]

-- On the 24 rows and 80 columns, every row takes the characters of the row below it, and the last one
-- is blank.
pub scoll_screen_up-glyph :
    (s : Screen) (i j : ℕ)
    → i < 24
    → j < 80
    → glyph (scoll_screen_up s) i j ≡ (if ltb i 23 then glyph s (i + 1) j else 32)
unfolding scoll_screen_up
scoll_screen_up-glyph s i j h l = elim (Bool-cases (ltb i 23)) [
  | inl e ↦ rw e (
      blank_row-other 80 23 0 i j (copy_rows 23 0 s) (omega arith) (omega arith) h l
        (inl (ground arith))
      ∙ copy_rows-copied 23 0 i j s (omega arith) (omega arith) (ground arith) l)
  | inr e ↦ rw e (
      subst (λ (m : ℕ). glyph (blank_row 80 23 0 (copy_rows 23 0 s)) m j ≡ 32) (last e)
        (blank_row-blank 80 23 0 j (copy_rows 23 0 s) (omega arith) (omega arith) (omega arith)
          (omega arith)))
]
  where
    last : ltb i 23 ≡ false → 23 ≡ i
    last e = ground arith
