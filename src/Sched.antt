-- ===== src/Sched.antt =====
-- Scheduling: select_task_struct, schedule, sleep and wakeup of sys/process.c, and exit_st of
-- sys/syscall.c, which calls schedule and is called by it. `n` is the fuel of one walk along a list.
-- A context switch ends a run: `away p` says that switch_to gave the processor to p. What the old
-- task does when it is switched back to is not part of the run.
pub mod Queues
pub mod Rounds
pub mod Select
pub mod Wakeup
pub mod Sleep
use plum_os.Prelude.{ℕ, zero, suc, ◌+◌, ◌%◌, ◌^◌, ◌==◌, if◌then◌else◌}
use plum_os.Prelude.Int.{ℤ, pos, negsuc}
use plum_os.Kernel.{
  Ptr, null, sleeping, active, zombie, Head, task_headp, sleep_task_list, zombie_list, ok, hang,
  out_of_fuel, M, pure, ◌>>=◌, ◌>>◌, load, modify, load_next, get_head, get_current,
}
use plum_os.TaskList.{add_to_tasklist, remove_from_tasklist, find_process_by_pid}

pub data Switch : Type 0 where
  stays : Switch
  away : Ptr → Switch

-- `return p->next` unless it is NULL; then the head of the list
unfoldable pub successor : Ptr → Ptr → M Ptr
successor p first = do q ← load_next p; pure (if q == null then first else q)

unfoldable pub select_task_struct : ℕ → M Ptr
unfolding successor
select_task_struct n = do
  me ← get_current
  t ← load me
  first ← get_head task_headp
  found ← find_process_by_pid n t.pid first
  successor (if found == null then first else me) first

-- The body of the loop and of the `flag == 1` branch.
unfoldable pub wakeup_one : ℕ → Head → Ptr → M (Unit {0})
unfolding modify
wakeup_one n list p = do
  modify p (λ t. record t { state = active; sleep_time = 0 })
  remove_from_tasklist n list p
  add_to_tasklist task_headp p

unfoldable pub wakeup_loop : ℕ → ℕ → Head → Ptr → M (Unit {0})
wakeup_loop n zero list p = λ _. out_of_fuel
wakeup_loop n (suc f) list p =
    if p == null then pure tt else (do q ← load_next p; wakeup_one n list p; wakeup_loop n f list q)

-- flag 0: the whole list; flag 1: ts alone; any other flag panics.
unfoldable pub wakeup : ℕ → Head → Ptr → ℕ → M (Unit {0})
wakeup n list ts flag =
    if flag == 0
    then (do p ← get_head list; wakeup_loop n n list p)
    else if flag == 1
    then (if ts == null then (λ _. hang) else wakeup_one n list ts)
    else (λ _. hang)

-- `father` waits on the sleep list, or the task is an orphan.
unfoldable pub notify_father : ℕ → Ptr → M (Unit {0})
unfolding modify load
notify_father n ts = do
  t ← load ts
  if t.waited == 1
      then (do
        first ← get_head sleep_task_list
        father ← find_process_by_pid n t.ppid first
        if father == null
            then modify ts (λ u. record u { orphan = 1 })
            else wakeup n sleep_task_list father 1)
      else modify ts (λ u. record u { orphan = 1 })

-- the 50th orphan wakes the thread that frees them
unfoldable pub count_zombie : ℕ → Ptr → M (Unit {0})
unfolding load
count_zombie n ts = do
  t ← load ts
  if t.orphan == 1
      then (λ k.
          let g = record k { zombie_count = (k.zombie_count + 1) % 2 ^ 32 } in
          if g.zombie_count == 50 then wakeup n sleep_task_list g.clear_zombie 1 g else ok tt g)
      else pure tt

-- exit_st up to its call of schedule
unfoldable pub exit_mark : ℕ → Ptr → ℕ → M (Unit {0})
unfolding modify
exit_mark n ts status = do
  modify ts (λ t. record t { exit_status = status; state = zombie })
  remove_from_tasklist n task_headp ts
  add_to_tasklist zombie_list ts
  notify_father n ts
  count_zombie n ts

-- `current = next; tss.rsp0 = next->kernel_stack;` and the switch
unfoldable pub switch_to : Ptr → M Switch
unfolding load
switch_to next = do
  t ← load next
  λ k. ok (away next) (record k { current = next; rsp0 = t.kernel_stack })

-- The loop of schedule over a task that was selected. A task with a pending signal exits, and
-- exit_st calls schedule in turn; if that one stays, the loop goes on with a new selection.
unfoldable pub schedule_from : ℕ → ℕ → Ptr → M Switch
unfolding load
schedule_from n zero next = λ _. out_of_fuel
schedule_from n (suc f) next = do
  me ← get_current
  t ← load next
  if t.sigterm == 1
      then (do
        exit_mark n next 1
        inner ← select_task_struct n
        w ← schedule_from n f inner
        elim w [
          | stays ↦ (select_task_struct n >>= λ again. schedule_from n f again)
          | away p ↦ pure (away p)
        ])
      else (if next == me then pure stays else switch_to next)

unfoldable pub schedule : ℕ → ℕ → M Switch
schedule n f = do next ← select_task_struct n; schedule_from n f next

unfoldable pub exit_st : ℕ → ℕ → Ptr → ℕ → M Switch
exit_st n f ts status = do exit_mark n ts status; schedule n f

-- sleep up to its call of schedule; `panic` if the removal did not return 0
unfoldable pub sleep_enqueue : ℕ → Head → ℕ → M (Unit {0})
unfolding modify
sleep_enqueue n list time = do
  me ← get_current
  removed ← remove_from_tasklist n task_headp me
  elim removed [ pos zero ↦ add_to_tasklist list me | _ ↦ λ _. hang ]
  modify me (λ t. record t { sleep_time = time; state = sleeping })

unfoldable pub sleep : ℕ → ℕ → Head → ℕ → M Switch
sleep n f list time = do sleep_enqueue n list time; schedule n f
