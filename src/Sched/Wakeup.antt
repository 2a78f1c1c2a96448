-- ===== src/Sched/Wakeup.antt =====
-- wakeup of sys/process.c on the abstract lists.
use plum_os.Prelude.{
  ℕ, zero, suc, ◌<◌, ◌≡◌, refl, sym, ◌≢◌, inl, inr, true, false, List, [], ◌∷◌, arith, ◌==◌,
  if◌then◌else◌, has, length, subst, Bool-cases, ==_iff, ==_refl, ap, ◌∙◌,
}
use mathlib.Core.List.{reverse_aux}
use plum_os.Kernel.{Ptr, null, Task, active, Head, task_headp, Kernel, put, load_next, ◌>>◌}
use plum_os.Kernel.Ends.{Ends, ends, chain, weaken, Ends-of_eq, after_modify}
use plum_os.TaskList.{add_to_tasklist, remove_from_tasklist}
use plum_os.TaskList.Chain.{Chain, Chain-ne-null}
use plum_os.Sched.{wakeup_one, wakeup_loop, wakeup}
use plum_os.Sched.Queues.{Queues, IsQueued, Relinks, set_task, moved, remove_add-moved}

abbrev pub awake : Task → Task
awake t = record t { state = active; sleep_time = 0 }

-- One task of a list becomes the first of the active list, ready to run.
pub wakeup_one-moved :
    (n : ℕ) (l : Head) (p : Ptr) (k : Kernel) (qs : Queues)
    → IsQueued k qs
    → has p (qs l) ≡ true
    → length (qs l) < n
    → Ends
        (λ _ g. IsQueued g (moved l task_headp p qs) × Relinks (set_task p (awake (k.task p)) k) g)
        (wakeup_one n l p k)
unfolding wakeup_one
wakeup_one-moved n l p k qs i h f =
    after_modify p awake k (remove_from_tasklist n l p >> add_to_tasklist task_headp p)
      (Chain-ne-null k.next (k.head l) p (qs l) (i.chains l) h)
      (remove_add-moved n l task_headp p (set_task p (awake (k.task p)) k) qs
        (record { chains = i.chains; apart = i.apart }) h f)

-- The tasks of `xs` leave list l, one by one, each to the front of the active list.
abbrev pub all_moved : Head → List Ptr → Queues → Queues
all_moved l [] qs = qs
all_moved l (x ∷ xs) qs = all_moved l xs (moved l task_headp x qs)

abbrev pub AllAwake : List Ptr → Kernel → Kernel → Type 0
AllAwake xs k g = (q : Ptr) → g.task q ≡ (if has q xs then awake (k.task q) else k.task q)

heads-eq : (h g : Ptr → Ptr) (p q : Ptr) (xs : List Ptr) → Chain h p xs → Chain g q xs → p ≡ q
heads-eq h g p q [] c d = c ∙ sym d
heads-eq h g p q (x ∷ xs) c d = c.0 ∙ sym d.0

awake_step :
    (t : Ptr → Task) (x q : Ptr) (xs : List Ptr)
    → has x xs ≡ false
    → (if has q xs then awake (put t x (awake (t x)) q) else put t x (awake (t x)) q)
      ≡ (if has q (x ∷ xs) then awake (t q) else t q)
awake_step t x q xs o = elim (Bool-cases (x == q)) [
  | inl h ↦
      subst
        (λ y.
          (if has y xs then awake (put t x (awake (t x)) y) else put t x (awake (t x)) y)
          ≡ (if has y (x ∷ xs) then awake (t y) else t y))
        ((==_iff x q).0 h) (rw (o, ==_refl x))
  | inr h ↦ rw h
]

AllAwake-cons :
    (x : Ptr) (xs : List Ptr) (k g u : Kernel)
    → Relinks (set_task x (awake (k.task x)) k) g
    → AllAwake xs g u
    → has x xs ≡ false
    → AllAwake (x ∷ xs) k u
AllAwake-cons x xs k g u r a o q =
    a q
    ∙ ap (λ (y : Kernel). if has q xs then awake (y.task q) else y.task q) r
    ∙ awake_step k.task x q xs o

wakeup_loop_step :
    (n f : ℕ) (l : Head) (p : Ptr) (k : Kernel)
    → p ≢ null
    → wakeup_loop n (suc f) l p k ≡ (wakeup_one n l p >> wakeup_loop n f l (k.next p)) k
unfolding wakeup_loop load_next
wakeup_loop_step n f l p k h = ground arith

wakeup_loop-all_moved :
    (n f : ℕ) (l : Head) (p : Ptr) (k : Kernel) (qs : Queues) (xs : List Ptr)
    → l ≢ task_headp
    → IsQueued k qs
    → qs l ≡ xs
    → Chain k.next p xs
    → length xs < n
    → length xs < f
    → Ends (λ _ g. IsQueued g (all_moved l xs qs) × AllAwake xs k g) (wakeup_loop n f l p k)
unfolding wakeup_loop
wakeup_loop-all_moved n zero l p k qs xs ne i e c a b = absurd (omega arith)
wakeup_loop-all_moved n (suc f) l p k qs [] ne i e c a b = rw c (ends (i, λ q. refl))
wakeup_loop-all_moved n (suc f) l p k qs (x ∷ xs) ne i e c a b =
    Ends-of_eq (rw c.0 (wakeup_loop_step n f l x k c.1)) (
      chain (wakeup_one-moved n l x k qs i (rw e (ground arith)) (rw e a)) λ _ g (i', r).
        weaken
          (wakeup_loop-all_moved n f l (k.next x) g (moved l task_headp x qs) xs ne i' left
            (subst (λ y. Chain g.next y xs)
              (heads-eq g.next k.next (g.head l) (k.next x) xs
                (subst (Chain g.next (g.head l)) left (i'.chains l)) c.3)
              (subst (Chain g.next (g.head l)) left (i'.chains l)))
            (omega arith) (omega arith))
          λ _ u (i'', all). (i'', AllAwake-cons x xs k g u r all c.2))
  where
    left : moved l task_headp x qs l ≡ xs
    left = ground arith

all_moved_here :
    (l : Head) (xs : List Ptr) (qs : Queues) → l ≢ task_headp → qs l ≡ xs → all_moved l xs qs l ≡ []
all_moved_here l [] qs ne e = e
all_moved_here l (x ∷ xs) qs ne e = all_moved_here l xs (moved l task_headp x qs) ne (ground arith)

all_moved_active :
    (l : Head) (xs : List Ptr) (qs : Queues)
    → l ≢ task_headp
    → all_moved l xs qs task_headp ≡ reverse_aux xs (qs task_headp)
all_moved_active l [] qs ne = refl
all_moved_active l (x ∷ xs) qs ne =
    all_moved_active l xs (moved l task_headp x qs) ne ∙ ap (reverse_aux xs) (ground arith)

all_moved_else :
    (l m : Head) (xs : List Ptr) (qs : Queues) → m ≢ task_headp → m ≢ l → all_moved l xs qs m ≡ qs m
all_moved_else l m [] qs ne ne' = refl
all_moved_else l m (x ∷ xs) qs ne ne' =
    all_moved_else l m xs (moved l task_headp x qs) ne ne' ∙ ground arith

-- The lists after wakeup with flag 0 on list l.
pub record Woken (l : Head) (k : Kernel) (qs : Queues) (g : Kernel) (qs' : Queues) : Type 0 where
  pub queued : IsQueued g qs'
  pub emptied : qs' l ≡ []
  pub ready : qs' task_headp ≡ reverse_aux (qs l) (qs task_headp)
  pub untouched : (m : Head) → m ≢ task_headp → m ≢ l → qs' m ≡ qs m
  pub all_awake : AllAwake (qs l) k g

-- wakeup with flag 0 empties a well-formed list of fewer than n tasks other than the active one: its
-- tasks stand in front of the active list, last one first, all of them active with no sleep time
-- left; no other list and no other task has changed.
pub wakeup-Woken :
    (n : ℕ) (l : Head) (k : Kernel) (qs : Queues)
    → l ≢ task_headp
    → IsQueued k qs
    → length (qs l) < n
    → Ends (λ _ g. (qs' : Queues) × Woken l k qs g qs') (wakeup n l null 0 k)
unfolding wakeup
wakeup-Woken n l k qs ne i f =
    weaken (wakeup_loop-all_moved n n l (k.head l) k qs (qs l) ne i refl (i.chains l) f f)
      λ _ g (q, a). (
        all_moved l (qs l) qs,
        record {
          queued = q;
          emptied = all_moved_here l (qs l) qs ne refl;
          ready = all_moved_active l (qs l) qs ne;
          untouched = λ m ne' ne''. all_moved_else l m (qs l) qs ne' ne'';
          all_awake = a;
        },
      )
