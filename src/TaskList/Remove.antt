-- ===== src/TaskList/Remove.antt =====
-- remove_from_tasklist of sys/process.c takes a task off a list that holds it, and crashes otherwise.
use plum_os.Prelude.{
  ℕ, zero, suc, ◌<◌, ◌≡◌, refl, ◌≢◌, inl, inr, true, false, List, [], ◌∷◌, arith, ◌==◌, has, erase,
  ◌∙◌, length, Bool-cases, ==_iff, ==_refl, sym, subst,
}
use plum_os.Prelude.Int.{ℤ, pos}
use plum_os.Kernel.{Ptr, null, Head, Kernel, Run, ok, fault, hang, out_of_fuel, put, put, load_next}
use plum_os.TaskList.{find_before, unlink_after, remove_from_tasklist}
use plum_os.TaskList.Chain.{Chain, Chain-out, Chain-ne-null, ne_of_not-has}
use plum_os.TaskList.Cut.{cut, Cut, find_before_step, find_before-Cut}

-- ts is off the list and its own link is NULL; the others keep their order. Nothing has changed but
-- the links of the list's tasks and the head variable.
abbrev pub Removed : Head → Ptr → List Ptr → Kernel → Run ℤ → Type 0
Removed l ts xs k (ok r g) =
    (r ≡ pos 0)
    × Chain g.next (g.head l) (erase ts xs)
    × (g.next ts ≡ null)
    × ((q : Ptr) → has q xs ≡ false → g.next q ≡ k.next q)
    × ((m : Head) → l ≢ m → g.head m ≡ k.head m)
    × (record g { next = k.next; head = k.head } ≡ k)
Removed l ts xs k fault = ⊥
Removed l ts xs k hang = ⊥
Removed l ts xs k out_of_fuel = ⊥

remove-first :
    (n : ℕ) (l : Head) (ts : Ptr) (k : Kernel)
    → ts ≢ null
    → k.head l ≡ ts
    → remove_from_tasklist n l ts k
      ≡ ok (pos 0) (record k { next = put k.next ts null; head = put k.head l (k.next ts) })
unfolding remove_from_tasklist
remove-first n l ts k h e = ground arith

unlink_after-ok :
    (q ts : Ptr) (k : Kernel)
    → q ≢ null
    → ts ≢ null
    → k.next q ≡ ts
    → unlink_after q ts k ≡ ok (pos 0) (record k { next = cut k.next q ts })
unfolding unlink_after
unlink_after-ok q ts k h h' e = ground arith

remove-later :
    (n : ℕ) (l : Head) (ts q : Ptr) (k : Kernel)
    → k.head l ≢ ts
    → find_before n (k.head l) ts k ≡ ok q k
    → remove_from_tasklist n l ts k ≡ unlink_after q ts k
unfolding remove_from_tasklist
remove-later n l ts q k ne e = ground arith

first-Chain :
    (h heads : ℕ → Ptr) (l : Head) (ts : Ptr) (xs : List Ptr)
    → has ts xs ≡ false
    → Chain h (h ts) xs
    → Chain (put h ts null) (put heads l (h ts) l) (erase ts (ts ∷ xs))
first-Chain h heads l ts xs o c = rw (==_refl l, ==_refl ts) (Chain-out h ts null (h ts) xs o c)

Removed-of_first :
    (n : ℕ) (l : Head) (ts : Ptr) (k : Kernel) (xs : List Ptr)
    → Chain k.next (k.head l) (ts ∷ xs)
    → Removed l ts (ts ∷ xs) k (remove_from_tasklist n l ts k)
Removed-of_first n l ts k xs c =
    subst (Removed l ts (ts ∷ xs) k) (sym (remove-first n l ts k c.1 c.0)) (
      refl,
      first-Chain k.next k.head l ts xs c.2 c.3,
      ground arith,
      λ q o. ground arith,
      λ m ne. ground arith,
      refl,
    )

Removed-of_cut :
    (l : Head) (ts q : Ptr) (k : Kernel) (xs : List Ptr)
    → Cut k.next ts (k.head l) xs q
    → has ts xs ≡ true
    → Removed l ts xs k (ok (pos 0) (record k { next = cut k.next q ts }))
Removed-of_cut l ts q k xs c m =
    (refl, c.chain, ground arith, λ a o. ground (arith, c.member), λ a ne. refl, refl)

-- A task that stands on a well-formed list of fewer tasks than the fuel is taken off:
-- remove_from_tasklist returns 0, the list goes on without the task, the task's link is NULL, and no
-- link of a task outside the list, no other list head and no other field has changed.
pub remove_from_tasklist-Removed :
    (n : ℕ) (l : Head) (ts : Ptr) (k : Kernel) (xs : List Ptr)
    → Chain k.next (k.head l) xs
    → has ts xs ≡ true
    → length xs < n
    → Removed l ts xs k (remove_from_tasklist n l ts k)
remove_from_tasklist-Removed n l ts k [] c m f = cc
remove_from_tasklist-Removed n l ts k (x ∷ xs) c m f = elim (Bool-cases (x == ts)) [
  | inl e ↦ first ((==_iff x ts).0 e)
  | inr e ↦ later (ground arith) (find_before-Cut n (k.head l) ts k (x ∷ xs) c (ground arith) m f)
]
  where
    first : x ≡ ts → Removed l ts (x ∷ xs) k (remove_from_tasklist n l ts k)
    first e =
        subst (λ y. Removed l ts (y ∷ xs) k (remove_from_tasklist n l ts k)) (sym e)
          (Removed-of_first n l ts k xs (subst (λ y. Chain k.next (k.head l) (y ∷ xs)) e c))

    later :
        k.head l ≢ ts
        → (q : Ptr) × (find_before n (k.head l) ts k ≡ ok q k) × Cut k.next ts (k.head l) (x ∷ xs) q
        → Removed l ts (x ∷ xs) k (remove_from_tasklist n l ts k)
    later ne (q, run, cuts) =
        subst (Removed l ts (x ∷ xs) k)
          (sym (
            remove-later n l ts q k ne run
            ∙ unlink_after-ok q ts k (Chain-ne-null k.next (k.head l) q (x ∷ xs) c cuts.member)
                (Chain-ne-null k.next (k.head l) ts (x ∷ xs) c m) cuts.linked))
          (Removed-of_cut l ts q k (x ∷ xs) cuts m)

find_before-fault :
    (n : ℕ) (p ts : Ptr) (k : Kernel) (xs : List Ptr)
    → Chain k.next p xs
    → ts ≢ null
    → has ts xs ≡ false
    → length xs < n
    → find_before n p ts k ≡ fault
unfolding find_before load_next
find_before-fault zero p ts k xs c h o f = absurd (omega arith)
find_before-fault (suc n) p ts k [] c h o f = ground arith
find_before-fault (suc n) p ts k (x ∷ xs) c h o f = rw c.0 (
    find_before_step n x ts k c.1 (ne_of_not-has k.next (k.next x) ts xs c.3 h (ground arith))
    ∙ find_before-fault n (k.next x) ts k xs c.3 h (ground arith) (omega arith))

remove-lost :
    (n : ℕ) (l : Head) (ts : Ptr) (k : Kernel)
    → k.head l ≢ ts
    → find_before n (k.head l) ts k ≡ fault
    → remove_from_tasklist n l ts k ≡ fault
unfolding remove_from_tasklist
remove-lost n l ts k ne e = ground arith

-- A task that does not stand on a well-formed list of fewer tasks than the fuel crashes the kernel:
-- the loop runs past the end of the list and reads through NULL, so that remove_from_tasklist never
-- comes to its `return -1`.
remove_from_tasklist-fault :
    (n : ℕ) (l : Head) (ts : Ptr) (k : Kernel) (xs : List Ptr)
    → Chain k.next (k.head l) xs
    → ts ≢ null
    → has ts xs ≡ false
    → length xs < n
    → remove_from_tasklist n l ts k ≡ fault
remove_from_tasklist-fault n l ts k xs c h o f =
    remove-lost n l ts k (ne_of_not-has k.next (k.head l) ts xs c h o)
      (find_before-fault n (k.head l) ts k xs c h o f)
