-- ===== src/Sched/Queues.antt =====
-- The four task lists as one abstract value: which tasks stand on which list, in order. Taking a
-- task off a list and putting it on one refine the plain list operations.
use plum_os.Prelude.{
  ℕ, ◌<◌, ◌≡◌, refl, sym, ◌≢◌, inl, inr, true, false, List, [], ◌∷◌, arith, ◌==◌, has, erase,
  has-erase, length, subst, Bool-cases, ==_iff, ==_refl, ap, ◌∙◌,
}
use plum_os.Prelude.Int.{ℤ, pos}
use plum_os.Kernel.{Ptr, null, Task, Head, Kernel, Run, ok, fault, hang, out_of_fuel, put, ◌>>◌}
use plum_os.Kernel.Ends.{Ends, ends, chain, weaken}
use plum_os.TaskList.{add_to_tasklist, remove_from_tasklist}
use plum_os.TaskList.Chain.{Chain, Chain-frame, Chain-ne-null}
use plum_os.TaskList.Add.{Added, add_to_tasklist-Added}
use plum_os.TaskList.Remove.{Removed, remove_from_tasklist-Removed}

abbrev pub Queues : Type 0
Queues = Head → List Ptr

-- Each head variable leads through the tasks of its list, and no task stands on two lists.
pub record IsQueued (k : Kernel) (qs : Queues) : Type 0 where
  pub chains : (l : Head) → Chain k.next (k.head l) (qs l)
  pub apart : (l m : Head) (q : Ptr) → l ≢ m → has q (qs l) ≡ true → has q (qs m) ≡ false

-- `g` differs from `k` in links and head variables only.
abbrev pub Relinks : Kernel → Kernel → Type 0
Relinks k g = record g { next = k.next; head = k.head } ≡ k

abbrev pub set_task : Ptr → Task → Kernel → Kernel
set_task p t k = record k { task = put k.task p t }

-- All that g keeps of k, with g's own links.
pub Relinks-eq : (k g : Kernel) → Relinks k g → g ≡ record k { next = g.next; head = g.head }
Relinks-eq k g r = ap (λ (x : Kernel). record x { next = g.next; head = g.head }) r

pub Relinks-set_task :
    (p : Ptr) (f : Task → Task) (k g : Kernel)
    → Relinks k g
    → Relinks (set_task p (f (k.task p)) k) (set_task p (f (g.task p)) g)
Relinks-set_task p f k g r = ap (λ (x : Kernel). set_task p (f (x.task p)) x) r

abbrev pub taken_off : Head → Ptr → Queues → Queues
taken_off l ts qs = put qs l (erase ts (qs l))

abbrev pub put_first : Head → Ptr → Queues → Queues
put_first l ts qs = put qs l (ts ∷ qs l)

not-has-erase_self :
    (h : Ptr → Ptr) (p ts : Ptr) (xs : List Ptr) → Chain h p xs → has ts (erase ts xs) ≡ false
not-has-erase_self h p ts [] c = refl
not-has-erase_self h p ts (x ∷ xs) c = ground (arith, not-has-erase_self h (h x) ts xs c.3)

-- A task that was taken off stands on no list.
pub taken_off_nowhere :
    (k : Kernel) (qs : Queues) (l : Head) (ts : Ptr)
    → IsQueued k qs
    → has ts (qs l) ≡ true
    → (m : Head) → has ts (taken_off l ts qs m) ≡ false
taken_off_nowhere k qs l ts i h m = elim (Bool-cases (l == m)) [
  | inl e ↦ rw e (not-has-erase_self k.next (k.head l) ts (qs l) (i.chains l))
  | inr e ↦ rw e (i.apart l m ts (ground arith) h)
]

has_of_has-erase : (q ts : Ptr) (xs : List Ptr) → has q (erase ts xs) ≡ true → has q xs ≡ true
has_of_has-erase q ts [] h = h
has_of_has-erase q ts (x ∷ xs) h = ground (arith, has_of_has-erase q ts xs)

has_of_taken_off :
    (qs : Queues) (l m : Head) (ts q : Ptr)
    → has q (taken_off l ts qs m) ≡ true
    → has q (qs m) ≡ true
has_of_taken_off qs l m ts q h = elim (Bool-cases (l == m)) [
  | inl e ↦
      subst (λ x. has q (qs x) ≡ true) ((==_iff l m).0 e) (has_of_has-erase q ts (qs l) (rw e at h))
  | inr e ↦ rw e at h
]

not-has-taken_off :
    (qs : Queues) (l m : Head) (ts q : Ptr)
    → has q (qs m) ≡ false
    → has q (taken_off l ts qs m) ≡ false
not-has-taken_off qs l m ts q h = elim (Bool-cases (l == m)) [
  | inl e ↦
      rw e (has-erase q ts (qs l) (subst (λ x. has q (qs x) ≡ false) (sym ((==_iff l m).0 e)) h))
  | inr e ↦ rw e h
]

taken_off-IsQueued :
    (k g : Kernel) (qs : Queues) (l : Head) (ts : Ptr) (r : ℤ)
    → IsQueued k qs
    → Removed l ts (qs l) k (ok r g)
    → IsQueued g (taken_off l ts qs)
taken_off-IsQueued k g qs l ts r i (e, c, z, links, heads, rest) = record {
  chains = λ m. elim (Bool-cases (l == m)) [
    | inl e ↦
        subst (λ x. Chain g.next (g.head x) (taken_off l ts qs x)) ((==_iff l m).0 e) (rw ==_refl c)
    | inr e ↦ rw e (
        rw (heads m (ground arith)) (
          Chain-frame k.next g.next (k.head m) (qs m)
            (λ q h. links q (i.apart m l q (ground arith) h)) (i.chains m)))
  ];
  apart = λ a b q ne h.
      not-has-taken_off qs l b ts q (i.apart a b q ne (has_of_taken_off qs l a ts q h));
}

put_first-IsQueued :
    (k g : Kernel) (qs : Queues) (l : Head) (ts : Ptr)
    → IsQueued k qs
    → ((m : Head) → has ts (qs m) ≡ false)
    → Added l ts (qs l) k (ok tt g)
    → IsQueued g (put_first l ts qs)
put_first-IsQueued k g qs l ts i out (c, links, heads, rest) = record {
  chains = λ m. elim (Bool-cases (l == m)) [
    | inl e ↦
        subst (λ x. Chain g.next (g.head x) (put_first l ts qs x)) ((==_iff l m).0 e) (rw ==_refl c)
    | inr e ↦ rw e (
        rw (heads m (ground arith)) (
          Chain-frame k.next g.next (k.head m) (qs m) (λ q h. links q (ground (arith, out m)))
            (i.chains m)))
  ];
  apart = λ a b q ne h. ground (arith, out a, out b, i.apart a b q ne);
}

-- remove_from_tasklist, on the abstract lists: it returns 0 and takes ts off list l.
pub remove_from_tasklist-taken_off :
    (n : ℕ) (l : Head) (ts : Ptr) (k : Kernel) (qs : Queues)
    → IsQueued k qs
    → has ts (qs l) ≡ true
    → length (qs l) < n
    → Ends
        (λ r g. (r ≡ pos 0) × IsQueued g (taken_off l ts qs) × Relinks k g)
        (remove_from_tasklist n l ts k)
remove_from_tasklist-taken_off n l ts k qs i h f =
    go (remove_from_tasklist n l ts k)
      (remove_from_tasklist-Removed n l ts k (qs l) (i.chains l) h f)
  where
    go :
        (s : Run ℤ)
        → Removed l ts (qs l) k s
        → Ends (λ r g. (r ≡ pos 0) × IsQueued g (taken_off l ts qs) × Relinks k g) s
    go (ok r g) m = ends (m.0, taken_off-IsQueued k g qs l ts r i m, m.5)
    go fault m = absurd m
    go hang m = absurd m
    go out_of_fuel m = absurd m

-- add_to_tasklist, on the abstract lists: ts becomes the first of list l.
pub add_to_tasklist-put_first :
    (l : Head) (ts : Ptr) (k : Kernel) (qs : Queues)
    → IsQueued k qs
    → ts ≢ null
    → ((m : Head) → has ts (qs m) ≡ false)
    → Ends (λ r g. IsQueued g (put_first l ts qs) × Relinks k g) (add_to_tasklist l ts k)
add_to_tasklist-put_first l ts k qs i ne out =
    go (add_to_tasklist l ts k) (add_to_tasklist-Added l ts k (qs l) ne (out l) (i.chains l))
  where
    go :
        (s : Run (Unit {0}))
        → Added l ts (qs l) k s
        → Ends (λ r g. IsQueued g (put_first l ts qs) × Relinks k g) s
    go (ok tt g) m = ends (put_first-IsQueued k g qs l ts i out m, m.3)
    go fault m = absurd m
    go hang m = absurd m
    go out_of_fuel m = absurd m

abbrev pub moved : Head → Head → Ptr → Queues → Queues
moved l m ts qs = put_first m ts (taken_off l ts qs)

pub Relinks-trans : (k g u : Kernel) → Relinks k g → Relinks g u → Relinks k u
Relinks-trans k g u a b = ap (λ (x : Kernel). record x { next = k.next; head = k.head }) b ∙ a

-- A task is taken off list l and put in front of list m.
pub remove_add-moved :
    (n : ℕ) (l m : Head) (ts : Ptr) (k : Kernel) (qs : Queues)
    → IsQueued k qs
    → has ts (qs l) ≡ true
    → length (qs l) < n
    → Ends
        (λ _ g. IsQueued g (moved l m ts qs) × Relinks k g)
        ((remove_from_tasklist n l ts >> add_to_tasklist m ts) k)
remove_add-moved n l m ts k qs i h f =
    chain (remove_from_tasklist-taken_off n l ts k qs i h f) λ r g (_, i', rest).
      weaken
        (add_to_tasklist-put_first m ts g (taken_off l ts qs) i'
          (Chain-ne-null k.next (k.head l) ts (qs l) (i.chains l) h)
          (taken_off_nowhere k qs l ts i h))
        λ _ g' (i'', rest'). (i'', Relinks-trans k g g' rest rest')
