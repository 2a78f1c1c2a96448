-- ===== src/Process/Kill.antt =====
-- kill_by_pid of sys/syscall.c on every branch.
use plum_os.Prelude.{ℕ, ◌<◌, ◌≡◌, arith, length, ◌==◌, if◌then◌else◌}
use plum_os.Kernel.{Ptr, null, Task, task_headp, sleep_task_list, wait_stdin_list, Kernel, Run, ok}
use plum_os.TaskList.{find_process_by_pid}
use plum_os.TaskList.Find.{first_with_pid, find_process_by_pid-first}
use plum_os.Sched.Queues.{Queues, IsQueued, set_task}
use plum_os.Process.{find_on_lists, kill_by_pid, uint64_minus_one, sigkill}

-- The first process with the pid on the active list, then the sleep list, then the one that waits for
-- input; zombies are not looked at.
abbrev pub process_with_pid : ℕ → (Ptr → Task) → Queues → Ptr
process_with_pid pid t qs =
    let p = first_with_pid pid t (qs task_headp) in
    let q = first_with_pid pid t (qs sleep_task_list) in
    if p == null then if q == null then first_with_pid pid t (qs wait_stdin_list) else q else p

abbrev pub Short : ℕ → Queues → Type 0
Short n qs =
    (length (qs task_headp) < n)
    × (length (qs sleep_task_list) < n)
    × (length (qs wait_stdin_list) < n)

find_on_lists_of :
    (n pid p q r : ℕ) (k : Kernel)
    → find_process_by_pid n pid (k.head task_headp) k ≡ ok p k
    → find_process_by_pid n pid (k.head sleep_task_list) k ≡ ok q k
    → find_process_by_pid n pid (k.head wait_stdin_list) k ≡ ok r k
    → find_on_lists n pid k ≡ ok (if p == null then if q == null then r else q else p) k
unfolding find_on_lists
find_on_lists_of n pid p q r k a b c = ground arith

pub find_on_lists-process_with_pid :
    (n pid : ℕ) (k : Kernel) (qs : Queues)
    → IsQueued k qs
    → Short n qs
    → find_on_lists n pid k ≡ ok (process_with_pid pid k.task qs) k
find_on_lists-process_with_pid n pid k qs i s =
    find_on_lists_of n pid (first_with_pid pid k.task (qs task_headp))
      (first_with_pid pid k.task (qs sleep_task_list))
      (first_with_pid pid k.task (qs wait_stdin_list)) k
      (find_process_by_pid-first n pid (k.head task_headp) k (qs task_headp) (i.chains task_headp)
        s.0)
      (find_process_by_pid-first n pid (k.head sleep_task_list) k (qs sleep_task_list)
        (i.chains sleep_task_list) s.1)
      (find_process_by_pid-first n pid (k.head wait_stdin_list) k (qs wait_stdin_list)
        (i.chains wait_stdin_list) s.2)

-- What a kill at process p leaves behind.
abbrev pub killed : Ptr → ℕ → Kernel → Run ℕ
killed p sig k =
    if p == null
    then ok uint64_minus_one k
    else if (k.task p).mm == null
    then ok uint64_minus_one k
    else if sig == sigkill
    then ok 0 (set_task p (record (k.task p) { sigterm = 1 }) k)
    else ok 0 k

kill_by_pid_of :
    (n pid sig p : ℕ) (k : Kernel)
    → find_on_lists n pid k ≡ ok p k
    → kill_by_pid n pid sig k ≡ killed p sig k
unfolding kill_by_pid
kill_by_pid_of n pid sig p k e = ground arith

-- kill_by_pid searches the three lists of living tasks, each shorter than n. Without such a process,
-- and for a kernel thread, it returns -1 and changes nothing; else it returns 0, and SIGKILL marks
-- the process, while any other signal is ignored.
pub kill_by_pid-killed :
    (n pid sig : ℕ) (k : Kernel) (qs : Queues)
    → IsQueued k qs
    → Short n qs
    → kill_by_pid n pid sig k ≡ killed (process_with_pid pid k.task qs) sig k
kill_by_pid-killed n pid sig k qs i s =
    kill_by_pid_of n pid sig (process_with_pid pid k.task qs) k
      (find_on_lists-process_with_pid n pid k qs i s)
