-- ===== src/Examples/Zombies.antt =====
-- A walk of thread_clear over two zombies.
use plum_os.Prelude.{refl, [], ◌∷◌, arith, ◌==◌, if◌then◌else◌}
use plum_os.Kernel.{Ptr, null, Task, zombie, zombie_list, Kernel, put}
use plum_os.Kernel.Ends.{Ends}
use plum_os.Sched.Queues.{Queues, IsQueued, Relinks}
use plum_os.Process.{clear_zombies}
use plum_os.Process.Clear.{survivors, reaped, clear_zombies-survivors}

-- 60 is an orphan, 70 is not.
abbrev gone : Ptr → Task
gone p = record {
  kernel_stack = p;
  mm = 7;
  pid = p;
  ppid = 1;
  waited = 0;
  orphan = if p == 60 then 1 else 0;
  exit_status = 0;
  sigterm = 0;
  timeslice = 0;
  state = zombie;
  sleep_time = 0;
}

abbrev tombs : Kernel
tombs = record {
  next = λ p. if p == 60 then 70 else null;
  task = gone;
  head = λ l. if l == 3 then 60 else null;
  current = null;
  clear_zombie = null;
  zombie_count = 0;
  rsp0 = 0;
  frames = record { ref = λ p. 1; bitmap = λ i. 0; shl_int = λ k. 0 };
}

abbrev tomb_lists : Queues
tomb_lists l = if l == 3 then 60 ∷ 70 ∷ [] else []

tombs-IsQueued : IsQueued tombs tomb_lists
tombs-IsQueued = record { chains = λ l. ground arith; apart = λ l m q ne h. ground arith }

clear_zombies-survivors_example :
    Ends
      (λ _ g.
        IsQueued g (put tomb_lists zombie_list (survivors gone (60 ∷ 70 ∷ [])))
        × Relinks (record tombs { frames = reaped gone (60 ∷ 70 ∷ []) tombs.frames }) g)
      (clear_zombies 3 3 60 tombs)
clear_zombies-survivors_example =
    clear_zombies-survivors 3 tombs tomb_lists tombs-IsQueued (omega arith)
      ((λ e. (refl, omega arith)), ((λ e. (refl, omega arith)), tt))
