-- ===== src/Process/Exit.antt =====
-- What exit_st of sys/syscall.c does before it calls schedule.
use plum_os.Prelude.{
  ℕ, ◌+◌, ◌%◌, ◌^◌, ◌<◌, ◌≡◌, refl, sym, ◌≢◌, true, arith, has, length, subst, ap, ◌∙◌,
}
use plum_os.Kernel.{
  Ptr, null, Task, zombie, Head, task_headp, sleep_task_list, zombie_list, Kernel, ok, put, ◌>>◌, M,
  modify,
}
use plum_os.Kernel.Ends.{Ends, ends, Ends-of_eq, after_modify, chain_pair, put_self, put-put}
use plum_os.TaskList.{add_to_tasklist, remove_from_tasklist, find_process_by_pid}
use plum_os.TaskList.Chain.{Chain-ne-null}
use plum_os.Sched.{wakeup, wakeup_one, notify_father, count_zombie, exit_mark}
use plum_os.Sched.Queues.{Queues, IsQueued, Relinks, Relinks-eq, set_task, moved, remove_add-moved}

abbrev pub dead : ℕ → Task → Task
dead status t = record t { exit_status = status; state = zombie }

abbrev pub orphaned : Task → Task
orphaned t = record t { orphan = 1 }

-- The first part: the task is marked and goes to the zombies.
pub exit_lists-moved :
    (n : ℕ) (ts status : ℕ) (k : Kernel) (qs : Queues) (rest : M (Unit {0}))
    → {Q : Unit {0} → Kernel → Type 0} → IsQueued k qs
    → has ts (qs task_headp) ≡ true
    → length (qs task_headp) < n
    → ((g : Kernel)
        → IsQueued g (moved task_headp zombie_list ts qs)
        → Relinks (set_task ts (dead status (k.task ts)) k) g
        → Ends Q (rest g))
    → Ends Q (
        (modify ts (dead status)
            >> (remove_from_tasklist n task_headp ts >> (add_to_tasklist zombie_list ts >> rest)))
          k)
exit_lists-moved n ts status k qs rest i h f next =
    after_modify ts (dead status) k
      (remove_from_tasklist n task_headp ts >> (add_to_tasklist zombie_list ts >> rest))
      (Chain-ne-null k.next (k.head task_headp) ts (qs task_headp) (i.chains task_headp) h)
      (chain_pair (remove_from_tasklist n task_headp ts) (add_to_tasklist zombie_list ts) rest
        (set_task ts (dead status (k.task ts)) k)
        (remove_add-moved n task_headp zombie_list ts (set_task ts (dead status (k.task ts)) k) qs
          (record { chains = i.chains; apart = i.apart }) h f)
        λ _ g (i', r). next g i' r)

notify_father_orphan :
    (n ts : ℕ) (k : Kernel)
    → ts ≢ null
    → (k.task ts).waited ≢ 1
    → notify_father n ts k ≡ ok tt (set_task ts (orphaned (k.task ts)) k)
unfolding notify_father
notify_father_orphan n ts k h w = ground arith

pub notify_father_found :
    (n ts p : ℕ) (k : Kernel)
    → ts ≢ null
    → p ≢ null
    → (k.task ts).waited ≡ 1
    → find_process_by_pid n (k.task ts).ppid (k.head sleep_task_list) k ≡ ok p k
    → notify_father n ts k ≡ wakeup_one n sleep_task_list p k
unfolding notify_father wakeup
notify_father_found n ts p k h h' w e = ground arith

count_zombie_one :
    (n ts : ℕ) (k : Kernel)
    → ts ≢ null
    → (k.task ts).orphan ≡ 1
    → (k.zombie_count + 1) % 2 ^ 32 ≢ 50
    → count_zombie n ts k ≡ ok tt (record k { zombie_count = (k.zombie_count + 1) % 2 ^ 32 })
unfolding count_zombie
count_zombie_one n ts k h o z = ground arith

-- `k` when ts has died as an orphan, but for the links.
abbrev pub orphan_left : ℕ → ℕ → Kernel → Kernel
orphan_left ts status k = record k {
  task = put k.task ts (orphaned (dead status (k.task ts)));
  zombie_count = (k.zombie_count + 1) % 2 ^ 32;
}

orphan_tail :
    (n ts status : ℕ) (k : Kernel) (nx : Ptr → Ptr) (hd : Head → Ptr)
    → ts ≢ null
    → (k.task ts).waited ≢ 1
    → (k.zombie_count + 1) % 2 ^ 32 ≢ 50
    → (notify_father n ts >> count_zombie n ts)
        (record (set_task ts (dead status (k.task ts)) k) { next = nx; head = hd })
      ≡ ok tt (record (orphan_left ts status k) { next = nx; head = hd })
orphan_tail n ts status k nx hd h w z =
    rw
      (notify_father_orphan n ts
        (record (set_task ts (dead status (k.task ts)) k) { next = nx; head = hd }) h
        (rw (put_self k.task ts (dead status (k.task ts))) w))
      (count_zombie_one n ts
          (set_task ts (orphaned (put k.task ts (dead status (k.task ts)) ts))
            (record (set_task ts (dead status (k.task ts)) k) { next = nx; head = hd }))
          h
          (ap (λ (u : Task). u.orphan)
            (put_self (put k.task ts (dead status (k.task ts))) ts
              (orphaned (put k.task ts (dead status (k.task ts)) ts))))
          z
        ∙ ap
            (λ (t : Ptr → Task).
              ok tt (record (orphan_left ts status k) { next = nx; head = hd; task = t }))
            (put-put k.task ts (dead status (k.task ts))
                (orphaned (put k.task ts (dead status (k.task ts)) ts))
              ∙ ap (λ (u : Task). put k.task ts (orphaned u))
                  (put_self k.task ts (dead status (k.task ts)))))

-- A task on the active list, of fewer than n tasks, that nobody waits for: it becomes a zombie and
-- an orphan with its exit status, first on the zombie list; the count of zombies is one higher, and
-- no other task or list has changed. The count does not reach 50 here.
exit_mark-orphan :
    (n ts status : ℕ) (k : Kernel) (qs : Queues)
    → IsQueued k qs
    → has ts (qs task_headp) ≡ true
    → length (qs task_headp) < n
    → (k.task ts).waited ≢ 1
    → (k.zombie_count + 1) % 2 ^ 32 ≢ 50
    → Ends
        (λ _ g.
          IsQueued g (moved task_headp zombie_list ts qs) × Relinks (orphan_left ts status k) g)
        (exit_mark n ts status k)
unfolding exit_mark
exit_mark-orphan n ts status k qs i h f w z =
    exit_lists-moved n ts status k qs (notify_father n ts >> count_zombie n ts) i h f λ g i' r.
      subst
        (λ y.
          Ends
            (λ _ u.
              IsQueued u (moved task_headp zombie_list ts qs) × Relinks (orphan_left ts status k) u)
            ((notify_father n ts >> count_zombie n ts) y))
        (sym (Relinks-eq (set_task ts (dead status (k.task ts)) k) g r))
        (Ends-of_eq
          (orphan_tail n ts status k g.next g.head
            (Chain-ne-null k.next (k.head task_headp) ts (qs task_headp) (i.chains task_headp) h) w
            z)
          (ends (record { chains = i'.chains; apart = i'.apart }, refl)))
