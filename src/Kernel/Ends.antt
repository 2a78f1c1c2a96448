-- ===== src/Kernel/Ends.antt =====
-- A run of kernel code that returns: no crash, no endless loop, enough fuel, and a postcondition.
use mathlib.Core.Path.{fun_ext}
use plum_os.Prelude.{
  ℕ, ◌≡◌, ◌≢◌, ◌⊎◌, inl, inr, true, false, arith, refl, sym, ◌==◌, ==_refl, Bool-cases,
}
use plum_os.Kernel.{
  Ptr, null, Task, Kernel, Run, ok, fault, hang, out_of_fuel, M, ◌>>◌, and_then, put, modify,
}

pub data Ends {A : Type 0} (P : A → Kernel → Type 0) : Run A → Type 0 where
  ends : {a : A} {k : Kernel} → P a k → Ends P (ok a k)

module _ {A : Type 0} {P : A → Kernel → Type 0} where
  -- of two runs in a row
  pub chain :
      {B : Type 0} {Q : B → Kernel → Type 0} {r : Run A} {f : A → M B}
      → Ends P r
      → ((a : A) (k : Kernel) → P a k → Ends Q (f a k))
      → Ends Q (and_then r f)
  chain (ends {a} {k} p) next = next a k p

  pub weaken :
      {Q : A → Kernel → Type 0} {r : Run A}
      → Ends P r
      → ((a : A) (k : Kernel) → P a k → Q a k)
      → Ends Q r
  weaken (ends {a} {k} p) imp = ends (imp a k p)

  pub Ends-of_eq : {r s : Run A} → s ≡ r → Ends P r → Ends P s
  Ends-of_eq e p = rw e p

pub modify-eq :
    (p : Ptr) (f : Task → Task) (k : Kernel)
    → p ≢ null
    → modify p f k ≡ ok tt (record k { task = put k.task p (f (k.task p)) })
unfolding modify
modify-eq p f k h = ground arith

pub after_modify :
    {B : Type 0} {Q : B → Kernel → Type 0} (p : Ptr) (f : Task → Task) (k : Kernel) (m : M B)
    → p ≢ null
    → Ends Q (m (record k { task = put k.task p (f (k.task p)) }))
    → Ends Q (and_then (modify p f k) (λ _. m))
after_modify p f k m h e = rw (modify-eq p f k h) e

then_assoc :
    {A B C : Type 0} (r : Run A) (m : M B) (rest : M C)
    → and_then (and_then r (λ _. m)) (λ _. rest) ≡ and_then r (λ _. m >> rest)
then_assoc (ok a k) m rest = refl
then_assoc fault m rest = refl
then_assoc hang m rest = refl
then_assoc out_of_fuel m rest = refl

pub chain_pair :
    {A B C : Type 0} {P : B → Kernel → Type 0} {Q : C → Kernel → Type 0} (m : M A) (n : M B)
    (rest : M C) (k : Kernel)
    → Ends P ((m >> n) k)
    → ((b : B) (g : Kernel) → P b g → Ends Q (rest g))
    → Ends Q ((m >> (n >> rest)) k)
chain_pair m n rest k e next = Ends-of_eq (sym (then_assoc (m k) n rest)) (chain e next)

pub put_self {ℓ} : {A : Type ℓ} (f : ℕ → A) (p : ℕ) (a : A) → put f p a p ≡ a
put_self f p a = rw ==_refl

pub put-put {ℓ} : {A : Type ℓ} (f : ℕ → A) (p : ℕ) (a b : A) → put (put f p a) p b ≡ put f p b
put-put f p a b = fun_ext λ q. split q (Bool-cases (p == q))
  where
    split : (q : ℕ) → ((p == q) ≡ true) ⊎ ((p == q) ≡ false) → put (put f p a) p b q ≡ put f p b q
    split q (inl e) = rw e
    split q (inr e) = rw e
