-- ===== src/Examples/Deaths.antt =====
-- The end of a process at concrete states: its exit, a kill, and the release of its pages.
use plum_os.Prelude.{ℕ, ◌+◌, ◌≡◌, refl, ◌≢◌, [], ◌∷◌, arith, ◌==◌, if◌then◌else◌}
use plum_os.Kernel.{
  Ptr, null, Task, zombie, active, Head, task_headp, sleep_task_list, zombie_list, Kernel, ok, ◌>>◌,
}
use plum_os.Kernel.Ends.{Ends}
use plum_os.Sched.{exit_mark}
use plum_os.Sched.Queues.{Queues, IsQueued, Relinks, moved, set_task, taken_off}
use plum_os.Process.{kill_by_pid, waitpid_finish}
use plum_os.Process.Father.{father_woken, exit_mark-father_woken}
use plum_os.Process.Wait.{exit_mark-waitpid_finish}
use plum_os.Process.Kill.{kill_by_pid-killed}

-- Task 30 is waited for by its father 40; 60 is a zombie. The pid of a task is its address.
abbrev mourner : ℕ → Task
mourner p = record {
  kernel_stack = p + 4000;
  mm = 7;
  pid = p;
  ppid = 40;
  waited = if p == 30 then 1 else 0;
  orphan = 0;
  exit_status = 0;
  sigterm = 0;
  timeslice = 0;
  state = if p == 60 then zombie else active;
  sleep_time = 0;
}

abbrev mourner_links : Ptr → Ptr
mourner_links p = if p == 10 then 20 else if p == 20 then 30 else if p == 40 then 50 else null

abbrev mourner_heads : Head → Ptr
mourner_heads l = if l == 0 then 10 else if l == 1 then 40 else if l == 3 then 60 else null

-- 10, 20 and 30 are active, 40 and 50 sleep.
abbrev six : Kernel
six = record {
  next = mourner_links;
  task = mourner;
  head = mourner_heads;
  current = 30;
  clear_zombie = null;
  zombie_count = 0;
  rsp0 = 0;
  frames = record { ref = λ p. 1; bitmap = λ i. 0; shl_int = λ k. 0 };
}

abbrev six_lists : Queues
six_lists l =
    if l == 0
    then 10 ∷ 20 ∷ 30 ∷ []
    else if l == 1
    then 40 ∷ 50 ∷ []
    else if l == 3
    then 60 ∷ []
    else []

six-IsQueued : IsQueued six six_lists
six-IsQueued = record { chains = λ l. ground arith; apart = λ l m q ne h. ground arith }

exit_mark-father_woken_example :
    Ends
      (λ _ g.
        IsQueued g (moved sleep_task_list task_headp 40 (moved task_headp zombie_list 30 six_lists))
        × Relinks (father_woken 30 5 40 six) g)
      (exit_mark 4 30 5 six)
exit_mark-father_woken_example =
    exit_mark-father_woken 4 30 5 six six_lists six-IsQueued refl (omega arith) (omega arith) refl
      (omega arith) (omega arith)

kill_by_pid-killed_example :
    kill_by_pid 4 50 9 six ≡ ok 0 (set_task 50 (record (mourner 50) { sigterm = 1 }) six)
kill_by_pid-killed_example =
    kill_by_pid-killed 4 50 9 six six_lists six-IsQueued (omega arith, omega arith, omega arith)

active_no_zombie : active ≢ zombie
active_no_zombie e = cc

exit_mark-waitpid_finish_example :
    Ends
      (λ r g.
        (r ≡ 5)
        × IsQueued g (
            taken_off zombie_list 30
              (moved sleep_task_list task_headp 40 (moved task_headp zombie_list 30 six_lists))))
      ((exit_mark 4 30 5 >> waitpid_finish 4 30) six)
exit_mark-waitpid_finish_example =
    exit_mark-waitpid_finish 4 30 5 six six_lists six-IsQueued refl (omega arith) (omega arith)
      (omega arith) refl (omega arith) (omega arith) (omega arith)
