-- ===== src/TaskList/Find.antt =====
-- find_process_by_pid of sys/process.c is a search for the first task with the pid.
use plum_os.Prelude.{
  ℕ, zero, suc, ◌<◌, ◌≡◌, List, [], ◌∷◌, arith, ◌==◌, if◌then◌else◌, length, ◌∙◌, has, true, ◌⊎◌,
  inl, refl,
}
use plum_os.Kernel.{Ptr, null, Task, Kernel, ok}
use plum_os.TaskList.{find_process_by_pid}
use plum_os.TaskList.Chain.{Chain}

-- The first task of `xs` with the pid, or NULL.
abbrev pub first_with_pid : ℕ → (Ptr → Task) → List Ptr → Ptr
first_with_pid pid task [] = null
first_with_pid pid task (x ∷ xs) = if (task x).pid == pid then x else first_with_pid pid task xs

find_step :
    (n pid p : ℕ) (k : Kernel)
    → ¬ (p ≡ null)
    → find_process_by_pid (suc n) pid p k
      ≡ (if (k.task p).pid == pid then ok p k else find_process_by_pid n pid (k.next p) k)
unfolding find_process_by_pid
find_step n pid p k h = ground arith

-- On a well-formed list of fewer than n tasks, find_process_by_pid returns the first task with the
-- pid, or NULL where there is none, and changes nothing.
pub find_process_by_pid-first :
    (n pid p : ℕ) (k : Kernel) (xs : List Ptr)
    → Chain k.next p xs
    → length xs < n
    → find_process_by_pid n pid p k ≡ ok (first_with_pid pid k.task xs) k
unfolding find_process_by_pid
find_process_by_pid-first zero pid p k xs c f = absurd (omega arith)
find_process_by_pid-first (suc n) pid p k [] c f = ground arith
find_process_by_pid-first (suc n) pid p k (x ∷ xs) c f = rw c.0 (
    find_step n pid x k c.1
    ∙ ground (arith, find_process_by_pid-first n pid (k.next x) k xs c.3 (omega arith)))

-- What it returns is NULL or a task of the list that has the pid.
pub first_with_pid_cases :
    (pid : ℕ) (task : Ptr → Task) (xs : List Ptr)
    → (first_with_pid pid task xs ≡ null)
      ⊎ ((has (first_with_pid pid task xs) xs ≡ true)
          × ((task (first_with_pid pid task xs)).pid ≡ pid))
first_with_pid_cases pid task [] = inl refl
first_with_pid_cases pid task (x ∷ xs) = ground (arith, first_with_pid_cases pid task xs)

-- Only the pids count.
pub first_with_pid-congr :
    (pid : ℕ) (t u : Ptr → Task) (xs : List Ptr)
    → ((q : Ptr) → (t q).pid ≡ (u q).pid)
    → first_with_pid pid t xs ≡ first_with_pid pid u xs
first_with_pid-congr pid t u [] h = refl
first_with_pid-congr pid t u (x ∷ xs) h = rw (h x, first_with_pid-congr pid t u xs h)
