-- ===== src/TaskList.antt =====
-- The task lists of sys/process.c: singly linked through `next`, from a head variable to NULL. The
-- loops take fuel, one unit for each node that they may visit.
pub mod Chain
pub mod Add
pub mod Cut
pub mod Find
pub mod Remove
use plum_os.Prelude.{ℕ, zero, suc, ◌+◌, ◌≡◌, Bool, true, false, ◌==◌, if◌then◌else◌}
use plum_os.Prelude.Int.{ℤ, pos, minus_one}
use plum_os.Kernel.{
  Ptr, null, Task, Head, Kernel, Run, out_of_fuel, M, pure, ◌>>=◌, ◌>>◌, load, load_next, set_next,
  get_head, set_head,
}

-- always adds to the head
unfoldable pub add_to_tasklist : Head → Ptr → M (Unit {0})
unfolding set_next
add_to_tasklist head ts = do first ← get_head head; set_next ts first; set_head head ts

-- `while (p->next != ts) p = p->next;` gives the p at which it stops.
unfoldable pub find_before : ℕ → Ptr → Ptr → M Ptr
unfolding load_next
find_before zero p ts = λ _. out_of_fuel
find_before (suc n) p ts = do q ← load_next p; if q == ts then pure p else find_before n q ts

-- `if (p->next == ts) { p->next = ts->next; ts->next = NULL; return 0; } else return -1;`
unfoldable pub unlink_after : Ptr → Ptr → M ℤ
unfolding load_next set_next
unlink_after p ts = do
  q ← load_next p
  if q == ts
      then (do r ← load_next ts; set_next p r; set_next ts null; pure (pos 0))
      else pure minus_one

unfoldable pub remove_from_tasklist : ℕ → Head → Ptr → M ℤ
unfolding find_before unlink_after load_next set_next
remove_from_tasklist fuel head ts = do
  p ← get_head head
  if p == ts
      then (do q ← load_next ts; set_head head q; set_next ts null; pure (pos 0))
      else (do q ← find_before fuel p ts; unlink_after q ts)

-- `while (p != NULL && p->pid != pid) p = p->next;`, whose p is the result on both paths
unfoldable pub find_process_by_pid : ℕ → ℕ → Ptr → M Ptr
unfolding load load_next
find_process_by_pid zero pid p = λ _. out_of_fuel
find_process_by_pid (suc n) pid p = if p == null then pure null else (do
  t ← load p
  q ← load_next p
  if t.pid == pid then pure p else find_process_by_pid n pid q)
