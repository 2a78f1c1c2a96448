-- ===== src/Process/Wait.antt =====
-- The exit of a process and the waitpid of its father (sys/syscall.c), one after the other.
use plum_os.Prelude.{
  ℕ, ◌+◌, ◌<◌, ◌≡◌, refl, sym, ◌≢◌, inl, inr, Bool, true, false, arith, has, length, subst, ap, ◌∙◌,
  ==_ne,
}
use plum_os.Prelude.Ints.{widened_int}
use plum_os.Kernel.{
  Ptr, null, Task, zombie, task_headp, sleep_task_list, zombie_list, Kernel, put, ◌>>◌, pure,
}
use plum_os.Kernel.Ends.{Ends, ends, chain, weaken, Ends-of_eq, put_self}
use plum_os.TaskList.Chain.{Chain-ne-null}
use plum_os.TaskList.Find.{first_with_pid_cases}
use plum_os.Sched.{exit_mark}
use plum_os.Sched.Queues.{Queues, IsQueued, Relinks, moved, taken_off}
use plum_os.Process.{free_process, waitpid_finish}
use plum_os.Process.Exit.{dead}
use plum_os.Process.Father.{father_of, father_woken, exit_mark-father_woken}
use plum_os.Process.Reap.{released, free_process-taken_off}

waitpid_finish_of :
    (n p : ℕ) (k : Kernel)
    → p ≢ null
    → waitpid_finish n p k ≡ (free_process n p >> pure (widened_int (k.task p).exit_status)) k
unfolding waitpid_finish
waitpid_finish_of n p k h = rw (==_ne p null h) refl

-- What waitpid does once a child is a zombie.
pub waitpid_finish-taken_off :
    (n p : ℕ) (k : Kernel) (qs : Queues)
    → IsQueued k qs
    → has p (qs zombie_list) ≡ true
    → length (qs zombie_list) < n
    → (k.task p).state ≡ zombie
    → (k.task p).mm ≢ null
    → Ends
        (λ r g.
          (r ≡ widened_int (k.task p).exit_status)
          × IsQueued g (taken_off zombie_list p qs)
          × Relinks (record k { frames = released p k.task k.frames }) g)
        (waitpid_finish n p k)
waitpid_finish-taken_off n p k qs i h b z m =
    Ends-of_eq
      (waitpid_finish_of n p k
        (Chain-ne-null k.next (k.head zombie_list) p (qs zombie_list) (i.chains zombie_list) h))
      (chain (free_process-taken_off n p k qs i h b z m) λ _ g (a, c). ends (refl, a, c))

other_task : (p q : Ptr) (f : Ptr → Task) (t : Task) → p ≢ q → put f p t q ≡ f q
other_task p q f t ne = rw (==_ne p q ne) refl

module _ (n ts status : ℕ) (k : Kernel) (qs : Queues) (i : IsQueued k qs)
    (h : has ts (qs task_headp) ≡ true) (f : length (qs task_headp) < n)
    (f' : length (qs sleep_task_list) < n) (f'' : length (qs zombie_list) + 1 < n)
    (w : (k.task ts).waited ≡ 1) (o : (k.task ts).orphan ≢ 1) (found : father_of ts k qs ≢ null)
    (m : (k.task ts).mm ≢ null) where
  apart_from : father_of ts k qs ≢ ts
  apart_from e = elim (first_with_pid_cases (k.task ts).ppid k.task (qs sleep_task_list)) [
    | inl z ↦ found z
    | inr (c, _) ↦ true_ne_false (
        sym c
        ∙ ap (λ (p : Ptr). has p (qs sleep_task_list)) e
        ∙ i.apart task_headp sleep_task_list ts (omega arith) h)
  ]
    where
      true_ne_false : Path Bool true false → ⊥
      true_ne_false q = cc

  abbrev queues_after : Queues
  queues_after =
      moved sleep_task_list task_headp (father_of ts k qs) (moved task_headp zombie_list ts qs)

  still_dead :
      (g : Kernel)
      → Relinks (father_woken ts status (father_of ts k qs) k) g
      → g.task ts ≡ dead status (k.task ts)
  still_dead g r =
      ap (λ (x : Kernel). x.task ts) r
      ∙ other_task (father_of ts k qs) ts (put k.task ts (dead status (k.task ts))) _ apart_from
      ∙ put_self k.task ts (dead status (k.task ts))

  -- A task with a memory map that is no orphan exits, it stands on a well-formed active list, its
  -- father waits for it on the sleep list, and all three lists fit the fuel: the rest of the
  -- father's waitpid, run right after that, returns exactly the status of the exit, widened to 64 bits with its sign, the task has
  -- left the zombie list, and the father stands in front of the active list.
  pub exit_mark-waitpid_finish :
      Ends
        (λ r g. (r ≡ widened_int status) × IsQueued g (taken_off zombie_list ts queues_after))
        ((exit_mark n ts status >> waitpid_finish n ts) k)
  exit_mark-waitpid_finish =
      chain (exit_mark-father_woken n ts status k qs i h f f' w o found) λ _ g (i', r).
        weaken
          (waitpid_finish-taken_off n ts g queues_after i' (ground arith) (omega arith)
            (ap (λ (t : Task). t.state) (still_dead g r))
            (subst (λ x. x ≢ null) (sym (ap (λ (t : Task). t.mm) (still_dead g r))) m))
          λ v u (e, c, _). (e ∙ ap (λ (t : Task). widened_int t.exit_status) (still_dead g r), c)
