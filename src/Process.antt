-- ===== src/Process.antt =====
-- The end of processes: free_process and thread_clear of sys/process.c,
-- waitpid and kill_by_pid of sys/syscall.c, and the time slice of sys/timer.c. Printing is left out.
pub mod Clear
pub mod Exit
pub mod Father
pub mod Kill
pub mod Reap
pub mod Wait
use plum_os.Prelude.{
  ℕ, zero, suc, ◌+◌, ◌-◌, ◌*◌, ◌/◌, ◌%◌, ◌^◌, Option, none, some, ◌==◌, if◌then◌else◌,
}
use plum_os.Prelude.Ints.{widened_int}
use plum_os.Frames.{get_free_page, free_page}
use plum_os.Kernel.{
  Ptr, null, Task, TaskState, unset, running, active, sleeping, zombie, task_headp, sleep_task_list,
  wait_stdin_list, zombie_list, Run, ok, hang, out_of_fuel, M, pure, ◌>>=◌, ◌>>◌, load, modify,
  load_next, get_head,
}
use plum_os.TaskList.{remove_from_tasklist, find_process_by_pid}
use plum_os.Sched.{Switch, sleep, schedule}

-- `(uint64_t)VA2PA(addr) >> PG_BITS`
unfoldable pub pfn_of : ℕ → ℕ
pfn_of addr = (addr + 2 ^ 64 - 0xffffffff80000000) % 2 ^ 64 / 4096

abbrev pub uint64_minus_one : ℕ
uint64_minus_one = 2 ^ 64 - 1

abbrev pub sigkill : ℕ
sigkill = 9

-- free_page, on the kernel's page counts
abbrev pub free_frame : ℕ → M (Unit {0})
free_frame pfn k = ok tt (record k { frames = free_page pfn k.frames })

abbrev pub is_zombie : TaskState → M (Unit {0})
is_zombie zombie = pure tt
is_zombie _ = λ k. hang

-- The two asserts hang; a NULL argument hangs in the first. unmap_mm is commented out there.
unfoldable pub free_process : ℕ → Ptr → M (Unit {0})
unfolding load
free_process n p = if p == null then (λ _. hang) else (do
  t ← load p
  is_zombie t.state
  free_frame (pfn_of t.kernel_stack)
  if t.mm == null then (λ _. hang) else pure tt
  remove_from_tasklist n zombie_list p
  free_frame (pfn_of p))

-- The lists in the order in which kill_by_pid and waitpid search them.
unfoldable pub find_on_lists : ℕ → ℕ → M Ptr
find_on_lists n pid = do
  first ← get_head task_headp
  p ← find_process_by_pid n pid first
  if p == null
      then (do
        second ← get_head sleep_task_list
        q ← find_process_by_pid n pid second
        if q == null
            then (do third ← get_head wait_stdin_list; find_process_by_pid n pid third)
            else pure q)
      else pure p

unfoldable pub kill_by_pid : ℕ → ℕ → ℕ → M ℕ
unfolding find_on_lists load modify
kill_by_pid n pid sig = do
  tsp ← find_on_lists n pid
  if tsp == null then pure uint64_minus_one else (do
    t ← load tsp
    if t.mm == null then pure uint64_minus_one else (do
      if sig == sigkill then modify tsp (λ u. record u { sigterm = 1 }) else pure tt
      pure 0))

-- waitpid until it sleeps: `none` is its `return -1`, else the child and the switch of its sleep.
unfoldable pub waitpid_start : ℕ → ℕ → ℕ → M (Option (Ptr × Switch))
unfolding find_on_lists modify
waitpid_start n f pid = do
  child ← find_on_lists n pid
  if child == null then pure none else (do
    modify child (λ t. record t { waited = 1 })
    w ← sleep n f sleep_task_list (2 ^ 32 - 1)
    pure (some (child, w)))

-- The rest of waitpid, once the child's exit has woken it; the int status is returned as 64 bits.
unfoldable pub waitpid_finish : ℕ → Ptr → M ℕ
unfolding load
waitpid_finish n child = do t ← load child; free_process n child; pure (widened_int t.exit_status)

-- One walk of thread_clear over the zombies.
unfoldable pub clear_zombies : ℕ → ℕ → Ptr → M (Unit {0})
unfolding load load_next
clear_zombies n zero p = λ _. out_of_fuel
clear_zombies n (suc f) p = if p == null then pure tt else (do
  q ← load_next p
  t ← load p
  if t.orphan == 1 then free_process n p else pure tt
  clear_zombies n f q)

-- One round of thread_clear's endless loop, until it sleeps.
unfoldable pub thread_clear : ℕ → ℕ → M Switch
thread_clear n f = do
  p ← get_head zombie_list
  clear_zombies n n p
  λ k. sleep n f sleep_task_list (2 ^ 32 - 1) (record k { zombie_count = 0 })

-- interrupt_handler_timer behind its clock: ten ticks are one slice.
unfoldable pub timer_slice : ℕ → ℕ → M Switch
unfolding load modify
timer_slice n f k =
    (do
      t ← load k.current
      if t.timeslice == 10
          then (do modify k.current (λ u. record u { timeslice = 0 }); schedule n f)
          else (do
            modify k.current (λ u. record u { timeslice = u.timeslice + 1 })
            pure Switch.stays))
      k
