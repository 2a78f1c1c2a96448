-- ===== src/Process/Father.antt =====
-- exit_st of sys/syscall.c, up to its call of schedule, where a father waits.
use plum_os.Prelude.{ℕ, ◌<◌, ◌≡◌, sym, ◌≢◌, inl, inr, true, arith, has, length, subst, ap, ◌∙◌}
use plum_os.Kernel.{
  Ptr, null, Task, Head, task_headp, sleep_task_list, zombie_list, Kernel, ok, put, ◌>>◌,
}
use plum_os.Kernel.Ends.{Ends, ends, chain, Ends-of_eq, put_self}
use plum_os.TaskList.Chain.{Chain-ne-null}
use plum_os.TaskList.Find.{
  first_with_pid, first_with_pid_cases, first_with_pid-congr, find_process_by_pid-first,
}
use plum_os.Sched.{wakeup_one, notify_father, count_zombie, exit_mark}
use plum_os.Sched.Queues.{Queues, IsQueued, Relinks, Relinks-eq, set_task, moved}
use plum_os.Sched.Wakeup.{awake, wakeup_one-moved}
use plum_os.Process.Exit.{dead, exit_lists-moved, notify_father_found}

-- The father of ts, if it waits on the sleep list, else NULL.
abbrev pub father_of : Ptr → Kernel → Queues → Ptr
father_of ts k qs = first_with_pid (k.task ts).ppid k.task (qs sleep_task_list)

-- `k` when ts has died and its father p was woken, but for the links.
abbrev pub father_woken : Ptr → ℕ → Ptr → Kernel → Kernel
father_woken ts status p k =
    let g = set_task ts (dead status (k.task ts)) k in set_task p (awake (g.task p)) g

count_zombie_none :
    (n ts : ℕ) (k : Kernel) → ts ≢ null → (k.task ts).orphan ≢ 1 → count_zombie n ts k ≡ ok tt k
unfolding count_zombie
count_zombie_none n ts k h o = ground arith

module _ (n ts status : ℕ) (k : Kernel) (qs : Queues) (i : IsQueued k qs)
    (h : has ts (qs task_headp) ≡ true) (f : length (qs task_headp) < n)
    (f' : length (qs sleep_task_list) < n) (w : (k.task ts).waited ≡ 1) (o : (k.task ts).orphan ≢ 1)
    (found : father_of ts k qs ≢ null) where
  ts_ne_null : ts ≢ null
  ts_ne_null = Chain-ne-null k.next (k.head task_headp) ts (qs task_headp) (i.chains task_headp) h

  -- `k` when ts stands on the zombie list, with the links nx and the heads hd
  left : (Ptr → Ptr) → (Head → Ptr) → Kernel
  left nx hd = record (set_task ts (dead status (k.task ts)) k) { next = nx; head = hd }

  father_asleep : has (father_of ts k qs) (qs sleep_task_list) ≡ true
  father_asleep = elim (first_with_pid_cases (k.task ts).ppid k.task (qs sleep_task_list)) [
    | inl e ↦ absurd (found e)
    | inr (m, e) ↦ m
  ]

  same_pids : (q : Ptr) → (put k.task ts (dead status (k.task ts)) q).pid ≡ (k.task q).pid
  same_pids q = ground arith

  notify :
      (nx : Ptr → Ptr) (hd : Head → Ptr)
      → IsQueued (left nx hd) (moved task_headp zombie_list ts qs)
      → notify_father n ts (left nx hd)
        ≡ wakeup_one n sleep_task_list (father_of ts k qs) (left nx hd)
  unfolding left
  notify nx hd i' =
      notify_father_found n ts (father_of ts k qs) (left nx hd) ts_ne_null found
        (ap (λ (u : Task). u.waited) (put_self k.task ts (dead status (k.task ts))) ∙ w)
        (rw (put_self k.task ts (dead status (k.task ts))) (
          find_process_by_pid-first n (k.task ts).ppid (hd sleep_task_list) (left nx hd)
            (qs sleep_task_list) (i'.chains sleep_task_list) f'
          ∙ ap (λ (p : Ptr). ok p (left nx hd))
              (first_with_pid-congr (k.task ts).ppid (put k.task ts (dead status (k.task ts)))
                k.task (qs sleep_task_list) same_pids)))

  same_orphans :
      (q : Ptr) → ((father_woken ts status (father_of ts k qs) k).task q).orphan ≡ (k.task q).orphan
  same_orphans q = ground arith

  abbrev After : Unit {0} → Kernel → Type 0
  After _ g =
      IsQueued g
        (moved sleep_task_list task_headp (father_of ts k qs) (moved task_headp zombie_list ts qs))
      × Relinks (father_woken ts status (father_of ts k qs) k) g

  tail :
      (nx : Ptr → Ptr) (hd : Head → Ptr)
      → IsQueued (left nx hd) (moved task_headp zombie_list ts qs)
      → Ends After ((notify_father n ts >> count_zombie n ts) (left nx hd))
  unfolding left
  tail nx hd i' =
      chain
        (Ends-of_eq (notify nx hd i') (
          wakeup_one-moved n sleep_task_list (father_of ts k qs) (left nx hd)
            (moved task_headp zombie_list ts qs) i' father_asleep f'))
        λ _ u (i'', r).
          let r' : Relinks (father_woken ts status (father_of ts k qs) k) u =
            ap (λ (x : Kernel). record x { next = k.next; head = k.head }) r in
          Ends-of_eq
            (count_zombie_none n ts u ts_ne_null (
              subst (λ m. m ≢ 1)
                (sym (ap (λ (x : Kernel). (x.task ts).orphan) r' ∙ same_orphans ts)) o))
            (ends (i'', r'))

  -- A task on the active list that is no orphan and that its father waits for on the sleep list,
  -- where both lists are shorter than n: it goes to the zombies with its exit status, and the father
  -- goes from the sleep list to the front of the active one, ready to run. No orphan is counted, and
  -- no other task or list has changed.
  pub exit_mark-father_woken : Ends After (exit_mark n ts status k)
  unfolding exit_mark left
  exit_mark-father_woken =
      exit_lists-moved n ts status k qs (notify_father n ts >> count_zombie n ts) i h f λ g i' r.
        subst (λ y. Ends After ((notify_father n ts >> count_zombie n ts) y))
          (sym (Relinks-eq (set_task ts (dead status (k.task ts)) k) g r))
          (tail g.next g.head (record { chains = i'.chains; apart = i'.apart }))
