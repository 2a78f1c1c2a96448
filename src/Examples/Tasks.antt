-- ===== src/Examples/Tasks.antt =====
-- Task lists at concrete states: three tasks ready to run, two asleep.
use plum_os.Prelude.{ℕ, ◌+◌, ◌<◌, refl, [], ◌∷◌, arith, ◌==◌, if◌then◌else◌}
use plum_os.Kernel.{Ptr, null, Task, active, Head, task_headp, Kernel}
use plum_os.Kernel.Ends.{Ends}
use plum_os.TaskList.{remove_from_tasklist}
use plum_os.TaskList.Chain.{Chain}
use plum_os.TaskList.Remove.{Removed, remove_from_tasklist-Removed}
use plum_os.Sched.{wakeup}
use plum_os.Sched.Queues.{Queues, IsQueued}
use plum_os.Sched.Wakeup.{Woken, wakeup-Woken}
use plum_os.Sched.Rounds.{IsQuiet, AtTurn, turn, schedules, schedules-AtTurn_any}

abbrev task_of : ℕ → Task
task_of p = record {
  kernel_stack = p + 4000;
  mm = 7;
  pid = p;
  ppid = 1;
  waited = 0;
  orphan = 0;
  exit_status = 0;
  sigterm = 0;
  timeslice = 0;
  state = active;
  sleep_time = 0;
}

abbrev links : Ptr → Ptr
links p = if p == 10 then 20 else if p == 20 then 30 else if p == 40 then 50 else null

abbrev heads : Head → Ptr
heads l = if l == 0 then 10 else if l == 1 then 40 else null

-- 10, 20 and 30 are active, 40 and 50 sleep; the pid of a task is its address.
abbrev five : Kernel
five = record {
  next = links;
  task = task_of;
  head = heads;
  current = 20;
  clear_zombie = null;
  zombie_count = 0;
  rsp0 = 0;
  frames = record { ref = λ p. 1; bitmap = λ i. 0; shl_int = λ k. 0 };
}

abbrev lists : Queues
lists l = if l == 0 then 10 ∷ 20 ∷ 30 ∷ [] else if l == 1 then 40 ∷ 50 ∷ [] else []

active-Chain : Chain links 10 (10 ∷ 20 ∷ 30 ∷ [])
active-Chain = ground arith

five-IsQueued : IsQueued five lists
five-IsQueued = record { chains = λ l. ground arith; apart = λ l m q ne h. ground arith }

remove_from_tasklist-Removed_example :
    Removed task_headp 20 (10 ∷ 20 ∷ 30 ∷ []) five (remove_from_tasklist 4 task_headp 20 five)
remove_from_tasklist-Removed_example =
    remove_from_tasklist-Removed 4 task_headp 20 five (10 ∷ 20 ∷ 30 ∷ []) active-Chain refl
      (omega arith)

wakeup-Woken_example :
    Ends (λ _ g. (qs : Queues) × Woken 1 five lists g qs) (wakeup 3 1 null 0 five)
wakeup-Woken_example = wakeup-Woken 3 1 five lists (omega arith) five-IsQueued (omega arith)

five-IsQuiet : IsQuiet five (10 ∷ 20 ∷ 30 ∷ [])
five-IsQuiet = record {
  list = active-Chain;
  pids = (λ q h. ground arith, (λ q h. ground arith, (λ q h. ground arith, tt)));
  unsignalled = λ q h. omega arith;
}

schedules-AtTurn_any_example :
    (d : ℕ) × (d < 3)
    × Ends
        (λ _ g. AtTurn five (10 ∷ 20 ∷ 30 ∷ []) 0 g)
        (schedules 4 1 d (turn five (10 ∷ 20 ∷ 30 ∷ []) 1 0))
schedules-AtTurn_any_example =
    schedules-AtTurn_any 4 0 five (10 ∷ 20 ∷ 30 ∷ []) 1 0 0 five-IsQuiet (omega arith) (omega arith)
      (omega arith)
