-- ===== src/TaskList/Cut.antt =====
-- The links after one task has been taken out, and the loop of remove_from_tasklist that finds the
-- task before it (sys/process.c).
use plum_os.Prelude.{
  ℕ, zero, suc, ◌<◌, ◌≡◌, ◌≢◌, inl, inr, true, false, List, [], ◌∷◌, arith, ◌==◌, has, erase,
  has-erase, ◌∙◌, length, Bool-cases, sym, subst,
}
use plum_os.Kernel.{Ptr, null, Kernel, ok, put, put, load_next}
use plum_os.TaskList.{find_before}
use plum_os.TaskList.Chain.{Chain, Chain-out}

-- The links after `q->next = ts->next; ts->next = NULL;`.
abbrev pub cut : (Ptr → Ptr) → Ptr → Ptr → Ptr → Ptr
cut h q ts = put (put h q (h ts)) ts null

-- q is the task before ts, and unlinking there leaves the list without ts.
pub record Cut (h : Ptr → Ptr) (ts p : Ptr) (xs : List Ptr) (q : Ptr) : Type 0 where
  pub linked : (h q) ≡ ts
  pub member : has q xs ≡ true
  pub apart : q ≢ ts
  pub chain : Chain (cut h q ts) p (erase ts xs)

pub cut-out :
    (h : Ptr → Ptr) (q ts p : Ptr) (xs : List Ptr)
    → has q xs ≡ false
    → has ts xs ≡ false
    → Chain h p xs
    → Chain (cut h q ts) p xs
cut-out h q ts p xs o o' c =
    Chain-out (put h q (h ts)) ts null p xs o' (Chain-out h q (h ts) p xs o c)

pub cut_next : (h : Ptr → Ptr) (q ts : Ptr) → q ≢ ts → (cut h q ts q) ≡ (h ts)
cut_next h q ts ne = ground arith

pub cut_other : (h : Ptr → Ptr) (q ts x : Ptr) → q ≢ x → ts ≢ x → (cut h q ts x) ≡ (h x)
cut_other h q ts x ne ne' = ground arith

Cut-here :
    (h : Ptr → Ptr) (ts p x : Ptr) (xs : List Ptr)
    → Chain h p (x ∷ xs)
    → x ≢ ts
    → has ts xs ≡ true
    → (h x) ≡ ts
    → Cut h ts p (x ∷ xs) x
Cut-here h ts p x [] c ne m e = cc
Cut-here h ts p x (y ∷ ys) c ne m e = record {
  linked = e;
  member = ground arith;
  apart = ne;
  chain = subst (Chain (cut h x ts) p) erased (
    c.0,
    c.1,
    ground arith,
    subst (λ r. Chain (cut h x ts) r ys) (sym (cut_next h x ts ne)) rest,
  );
}
  where
    is_ts : y ≡ ts
    is_ts = sym c.3.0 ∙ e

    erased : x ∷ ys ≡ erase ts (x ∷ y ∷ ys)
    erased = ground arith

    out : has ts ys ≡ false
    out = subst (λ r. has r ys ≡ false) is_ts c.3.2

    rest : Chain (cut h x ts) (h ts) ys
    rest = cut-out h x ts (h ts) ys (ground arith) out (subst (λ r. Chain h (h r) ys) is_ts c.3.3)

Cut-there :
    (h : Ptr → Ptr) (ts p x q : Ptr) (xs : List Ptr)
    → Chain h p (x ∷ xs)
    → x ≢ ts
    → Cut h ts (h x) xs q
    → Cut h ts p (x ∷ xs) q
Cut-there h ts p x q xs c ne k = record {
  linked = k.linked;
  member = ground (arith, k.member);
  apart = k.apart;
  chain = subst (Chain (cut h q ts) p) erased (
    c.0,
    c.1,
    has-erase x ts xs c.2,
    subst (λ r. Chain (cut h q ts) r (erase ts xs))
        (sym (cut_other h q ts x (ground (arith, k.member)) (λ e. ne (sym e)))) k.chain,
  );
}
  where
    erased : x ∷ erase ts xs ≡ erase ts (x ∷ xs)
    erased = ground arith

pub find_before_step :
    (n : ℕ) (p ts : Ptr) (k : Kernel)
    → p ≢ null
    → (k.next p) ≢ ts
    → find_before (suc n) p ts k ≡ find_before n (k.next p) ts k
unfolding find_before load_next
find_before_step n p ts k h ne = ground arith

-- `while (p->next != ts)` stops at the task before ts, with a round for each task of the list.
pub find_before-Cut :
    (n : ℕ) (p ts : Ptr) (k : Kernel) (xs : List Ptr)
    → Chain k.next p xs
    → p ≢ ts
    → has ts xs ≡ true
    → length xs < n
    → (q : Ptr) × (find_before n p ts k ≡ ok q k) × Cut k.next ts p xs q
unfolding find_before load_next
find_before-Cut zero p ts k xs c ne m f = absurd (omega arith)
find_before-Cut (suc n) p ts k [] c ne m f = cc
find_before-Cut (suc n) p ts k (x ∷ xs) c ne m f = elim (Bool-cases ((k.next x) == ts)) [
  | inl e ↦
      (x, rw c.0 (ground arith), Cut-here k.next ts p x xs c ne' (ground arith) (ground arith))
  | inr e ↦
      later (find_before-Cut n (k.next x) ts k xs c.3 (ground arith) (ground arith) (omega arith)) e
]
  where
    ne' : x ≢ ts
    ne' = ground arith

    later :
        (q : Ptr) × (find_before n (k.next x) ts k ≡ ok q k) × Cut k.next ts (k.next x) xs q
        → ((k.next x) == ts) ≡ false
        → (q : Ptr) × (find_before (suc n) p ts k ≡ ok q k) × Cut k.next ts p (x ∷ xs) q
    later (q, run, cuts) e = (
      q,
      rw c.0 (find_before_step n x ts k c.1 (ground arith) ∙ run),
      Cut-there k.next ts p x q xs c ne' cuts,
    )
