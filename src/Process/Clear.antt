-- ===== src/Process/Clear.antt =====
-- One walk of thread_clear of sys/process.c over the zombies.
use mathlib.Core.Path.{fun_ext}
use plum_os.Prelude.{
  ℕ, zero, suc, ◌<◌, ◌≡◌, refl, sym, ◌≢◌, true, false, List, [], ◌∷◌, ◌++◌, arith, has, erase,
  length, subst, ◌==◌, if◌then◌else◌, ap, ◌∙◌, Bool-cases, ==_iff, inl, inr, length-append, ==_ne,
  ==_refl,
}
use plum_os.Frames.{Frames}
use plum_os.Kernel.{Ptr, null, Task, zombie, Head, zombie_list, Kernel, put, ◌>>◌}
use plum_os.Kernel.Ends.{Ends, ends, chain, weaken, Ends-of_eq, put-put}
use plum_os.TaskList.Chain.{Chain}
use plum_os.Sched.Queues.{Queues, IsQueued, Relinks, Relinks-eq, taken_off}
use plum_os.Process.{free_process, clear_zombies}
use plum_os.Process.Reap.{released, free_process-taken_off}

-- What is left of the zombies once the orphans are gone, and of the page counts.
abbrev pub survivors : (Ptr → Task) → List Ptr → List Ptr
survivors t [] = []
survivors t (x ∷ xs) = if (t x).orphan == 1 then survivors t xs else x ∷ survivors t xs

abbrev pub reaped : (Ptr → Task) → List Ptr → Frames → Frames
reaped t [] s = s
reaped t (x ∷ xs) s = reaped t xs (if (t x).orphan == 1 then released x t s else s)

-- Every orphan among the zombies can be freed.
abbrev pub Reapable : (Ptr → Task) → List Ptr → Type 0
Reapable t [] = Unit {0}
Reapable t (x ∷ xs) =
    ((t x).orphan ≡ 1 → ((t x).state ≡ zombie) × ((t x).mm ≢ null)) × Reapable t xs

Chain-suffix :
    (h : Ptr → Ptr) (p : Ptr) (xs ys : List Ptr) → Chain h p (xs ++ ys) → (q : Ptr) × Chain h q ys
Chain-suffix h p [] ys c = (p, c)
Chain-suffix h p (x ∷ xs) ys c = Chain-suffix h (h x) xs ys c.3

has_middle : (x : Ptr) (xs ys : List Ptr) → has x (xs ++ x ∷ ys) ≡ true
has_middle x [] ys = ground arith
has_middle x (y ∷ xs) ys = ground (arith, has_middle x xs ys)

erase-append :
    (h : Ptr → Ptr) (p x : Ptr) (xs ys : List Ptr)
    → Chain h p (xs ++ x ∷ ys)
    → erase x (xs ++ x ∷ ys) ≡ xs ++ ys
erase-append h p x [] ys c = rw ==_refl
erase-append h p x (y ∷ xs) ys c =
    ground (arith, erase-append h (h y) x xs ys c.3, has_middle x xs ys)

append_assoc : (xs ys zs : List Ptr) → (xs ++ ys) ++ zs ≡ xs ++ (ys ++ zs)
append_assoc [] ys zs = refl
append_assoc (x ∷ xs) ys zs = ap (λ (l : List Ptr). x ∷ l) (append_assoc xs ys zs)

-- Two pointers to one list are equal.
same_start : (h g : Ptr → Ptr) (p q : Ptr) (xs : List Ptr) → Chain h p xs → Chain g q xs → p ≡ q
same_start h g p q [] c d = c ∙ sym d
same_start h g p q (x ∷ xs) c d = c.0 ∙ sym d.0

step_orphan :
    (n f p : ℕ) (k : Kernel)
    → p ≢ null
    → ((k.task p).orphan == 1) ≡ true
    → clear_zombies n (suc f) p k ≡ (free_process n p >> clear_zombies n f (k.next p)) k
unfolding clear_zombies
step_orphan n f p k h o =
    rw (==_ne p null h) (rw (==_ne p null h) (rw (==_ne p null h) (rw o refl)))

step_other :
    (n f p : ℕ) (k : Kernel)
    → p ≢ null
    → ((k.task p).orphan == 1) ≡ false
    → clear_zombies n (suc f) p k ≡ clear_zombies n f (k.next p) k
unfolding clear_zombies
step_other n f p k h o = rw (==_ne p null h) (rw (==_ne p null h) (rw (==_ne p null h) (rw o refl)))

abbrev pub Cleared : List Ptr → Queues → Kernel → List Ptr → Unit {0} → Kernel → Type 0
Cleared pre qs k ys _ g =
    IsQueued g (put qs zombie_list (pre ++ survivors k.task ys))
    × Relinks (record k { frames = reaped k.task ys k.frames }) g

put_same : (qs : Queues) (l : Head) (xs : List Ptr) → qs l ≡ xs → put qs l xs ≡ qs
put_same qs l xs e = fun_ext λ m. elim (Bool-cases (l == m)) [
  | inl h ↦ rw h (sym e ∙ ap qs ((==_iff l m).0 h))
  | inr h ↦ rw h refl
]

-- The orphan x is gone, and so are those of ys: the state before, put together.
clear_orphan :
    (x : Ptr) (k g u : Kernel) (qs : Queues) (pre ys : List Ptr)
    → ((k.task x).orphan == 1) ≡ true
    → Cleared pre
        (taken_off zombie_list x qs)
        (record k { frames = released x k.task k.frames; next = g.next; head = g.head })
        ys
        tt
        u
    → Cleared pre qs k (x ∷ ys) tt u
clear_orphan x k g u qs pre ys o (i, r) = rw o (
  subst (IsQueued u)
      (put-put qs zombie_list (erase x (qs zombie_list)) (pre ++ survivors k.task ys)) i,
  ap (λ (z : Kernel). record z { next = k.next; head = k.head }) r,
)

clear_other :
    (x : Ptr) (k u : Kernel) (qs : Queues) (pre ys : List Ptr)
    → ((k.task x).orphan == 1) ≡ false
    → Cleared (pre ++ x ∷ []) qs k ys tt u
    → Cleared pre qs k (x ∷ ys) tt u
clear_other x k u qs pre ys o (i, r) = rw o (
  subst (λ (l : List Ptr). IsQueued u (put qs zombie_list l))
      (append_assoc pre (x ∷ []) (survivors k.task ys)) i,
  r,
)

clear_from :
    (n f p : ℕ) (k : Kernel) (qs : Queues) (pre ys : List Ptr)
    → IsQueued k qs
    → qs zombie_list ≡ pre ++ ys
    → length (pre ++ ys) < n
    → length ys < f
    → Reapable k.task ys
    → Chain k.next p ys
    → Ends (Cleared pre qs k ys) (clear_zombies n f p k)
unfolding clear_zombies
clear_from n zero p k qs pre ys i e b b' r c = absurd (omega arith)
clear_from n (suc f) p k qs pre [] i e b b' r c =
    rw c (ends (subst (IsQueued k) (sym (put_same qs zombie_list (pre ++ []) e)) i, refl))
clear_from n (suc f) p k qs pre (x ∷ ys) i e b b' r c =
    subst (λ m. Ends (Cleared pre qs k (x ∷ ys)) (clear_zombies n (suc f) m k)) (sym c.0)
      (elim (Bool-cases ((k.task x).orphan == 1)) [
        | inl o ↦ Ends-of_eq (step_orphan n f x k c.1 o) (
            chain
              (free_process-taken_off n x k qs i (rw e (has_middle x pre ys)) (rw e b)
                (r.0 ((==_iff (k.task x).orphan 1).0 o)).0
                (r.0 ((==_iff (k.task x).orphan 1).0 o)).1)
              λ _ g (i', rel).
                subst (λ y. Ends (Cleared pre qs k (x ∷ ys)) (clear_zombies n f (k.next x) y))
                  (sym (Relinks-eq (record k { frames = released x k.task k.frames }) g rel))
                  (weaken
                    (clear_from n f (k.next x) (left g) (taken_off zombie_list x qs) pre ys
                      (record { chains = i'.chains; apart = i'.apart }) without (shorter)
                      (omega arith) r.1 (still g i'))
                    λ _ u. clear_orphan x k g u qs pre ys o))
        | inr o ↦ Ends-of_eq (step_other n f x k c.1 o) (
            weaken
              (clear_from n f (k.next x) k qs (pre ++ x ∷ []) ys i
                (e ∙ sym (append_assoc pre (x ∷ []) ys)) (rw (append_assoc pre (x ∷ []) ys) b)
                (omega arith) r.1 c.3)
              λ _ u. clear_other x k u qs pre ys o)
      ])
  where
    left : Kernel → Kernel
    left g = record k { frames = released x k.task k.frames; next = g.next; head = g.head }

    without : taken_off zombie_list x qs zombie_list ≡ pre ++ ys
    without =
        ap (erase x) e
        ∙ erase-append k.next (k.head zombie_list) x pre ys
            (subst (Chain k.next (k.head zombie_list)) e (i.chains zombie_list))

    shorter : length (pre ++ ys) < n
    shorter = omega (arith, length-append pre (x ∷ ys), length-append pre ys)

    still : (g : Kernel) → IsQueued g (taken_off zombie_list x qs) → Chain g.next (k.next x) ys
    still g i' =
        let s =
          Chain-suffix g.next (g.head zombie_list) pre ys
            (subst (Chain g.next (g.head zombie_list)) without (i'.chains zombie_list)) in
        subst (λ m. Chain g.next m ys) (same_start g.next k.next s.0 (k.next x) ys s.1 c.3) s.1

-- One walk of thread_clear over fewer than n zombies, where every orphan among them has a memory map:
-- it returns, each orphan is off the zombie list and its two pages are released, the other zombies
-- stay in their order, and nothing else has changed.
pub clear_zombies-survivors :
    (n : ℕ) (k : Kernel) (qs : Queues)
    → IsQueued k qs
    → length (qs zombie_list) < n
    → Reapable k.task (qs zombie_list)
    → Ends
        (λ _ g.
          IsQueued g (put qs zombie_list (survivors k.task (qs zombie_list)))
          × Relinks (record k { frames = reaped k.task (qs zombie_list) k.frames }) g)
        (clear_zombies n n (k.head zombie_list) k)
clear_zombies-survivors n k qs i b r =
    clear_from n n (k.head zombie_list) k qs [] (qs zombie_list) i refl b b r (i.chains zombie_list)
