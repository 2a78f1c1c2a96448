-- ===== src/Input/Copied.antt =====
-- What a byte loop of sys/syscall.c leaves in memory.
use plum_os.Prelude.{
  ℕ, zero, suc, ◌+◌, ◌<◌, ◌≤◌, ◌≡◌, refl, ◌≢◌, inl, inr, ◌==◌, arith, Bool-cases, ==_ne, ==_iff,
  ◌∙◌, subst,
}
use plum_os.Kernel.{put}
use plum_os.Kernel.Ends.{put_self}
use plum_os.Input.{copy_bytes}

put_ne : (f : ℕ → ℕ) (p q v : ℕ) → p ≢ q → put f p v q ≡ f q
put_ne f p q v h = rw (==_ne p q h) refl

pub copy_bytes-outside :
    (n i to from a : ℕ) (mem : ℕ → ℕ)
    → ((j : ℕ) → i ≤ j → j < i + n → to + j ≢ a)
    → copy_bytes n i to from mem a ≡ mem a
unfolding copy_bytes
copy_bytes-outside zero i to from a mem h = refl
copy_bytes-outside (suc n) i to from a mem h =
    copy_bytes-outside n (i + 1) to from a (put mem (to + i) (mem (from + i)))
      (λ j l u. h j (omega arith) (omega arith))
    ∙ put_ne mem (to + i) a (mem (from + i)) (h i (omega arith) (omega arith))

-- Where no byte is written before it is read, the bytes arrive.
pub copy_bytes-copied :
    (n i to from j : ℕ) (mem : ℕ → ℕ)
    → ((a b : ℕ) → a < b → b < i + n → to + a ≢ from + b)
    → i ≤ j
    → j < i + n
    → copy_bytes n i to from mem (to + j) ≡ mem (from + j)
unfolding copy_bytes
copy_bytes-copied zero i to from j mem h l u = absurd (omega arith)
copy_bytes-copied (suc n) i to from j mem h l u = elim (Bool-cases (i == j)) [
  | inl e ↦
      copy_bytes-outside n (i + 1) to from (to + j) (put mem (to + i) (mem (from + i)))
        (λ k l' u'. ground arith)
      ∙ subst (λ (m : ℕ). put mem (to + i) (mem (from + i)) (to + m) ≡ mem (from + m))
          ((==_iff i j).0 e) (put_self mem (to + i) (mem (from + i)))
  | inr e ↦
      copy_bytes-copied n (i + 1) to from j (put mem (to + i) (mem (from + i)))
        (λ a b l' u'. h a b l' (omega arith)) (ground arith) (omega arith)
      ∙ put_ne mem (to + i) (from + j) (mem (from + i)) (h i j (ground arith) (omega arith))
]
