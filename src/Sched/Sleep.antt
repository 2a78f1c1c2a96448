-- ===== src/Sched/Sleep.antt =====
-- sleep of sys/process.c, up to its call of schedule.
use plum_os.Prelude.{ℕ, ◌<◌, ◌≡◌, ◌≢◌, true, has, length}
use plum_os.Kernel.{null, Task, sleeping, Head, task_headp, Kernel}
use plum_os.Kernel.Ends.{Ends, ends, chain, Ends-of_eq, modify-eq}
use plum_os.TaskList.Chain.{Chain-ne-null}
use plum_os.Sched.{sleep_enqueue}
use plum_os.Sched.Queues.{
  Queues, IsQueued, Relinks, Relinks-trans, Relinks-set_task, set_task, moved, taken_off,
  taken_off_nowhere, remove_from_tasklist-taken_off, add_to_tasklist-put_first,
}

abbrev pub asleep : ℕ → Task → Task
asleep time t = record t { sleep_time = time; state = sleeping }

-- The current task, on a well-formed active list of fewer than n tasks, leaves it for list l, asleep
-- for the given time; no other task or list changes.
pub sleep_enqueue-moved :
    (n : ℕ) (l : Head) (time : ℕ) (k : Kernel) (qs : Queues)
    → IsQueued k qs
    → has k.current (qs task_headp) ≡ true
    → length (qs task_headp) < n
    → Ends
        (λ _ g.
          IsQueued g (moved task_headp l k.current qs)
          × Relinks (set_task k.current (asleep time (k.task k.current)) k) g)
        (sleep_enqueue n l time k)
unfolding sleep_enqueue
sleep_enqueue-moved n l time k qs i h f =
    chain (remove_from_tasklist-taken_off n task_headp k.current k qs i h f) λ r g (e, i', rest).
      rw e (
        chain
          (add_to_tasklist-put_first l k.current g (taken_off task_headp k.current qs) i' ne
            (taken_off_nowhere k qs task_headp k.current i h))
          λ _ u (i'', rest'). Ends-of_eq (modify-eq k.current (asleep time) u ne) (
            ends (
              record { chains = i''.chains; apart = i''.apart },
              Relinks-set_task k.current (asleep time) k u (Relinks-trans k g u rest rest'),
            )))
  where
    ne : k.current ≢ null
    ne = Chain-ne-null k.next (k.head task_headp) k.current (qs task_headp) (i.chains task_headp) h
