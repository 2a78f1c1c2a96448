-- ===== src/Examples/Keys.antt =====
-- Keys typed at a fresh keyboard.
use plum_os.Prelude.{◌==◌, if◌then◌else◌, ◌≡◌, refl, [], ◌∷◌, arith}
use plum_os.Kernel.Ends.{Ends}
use plum_os.Sched.Queues.{Queues, IsQueued}
use plum_os.Keyboard.Enter.{LineReady, kbdintr-LineReady}
use plum_os.Kernel.{Ptr, Head, null, Kernel, Task, unset, ok}
use plum_os.Keyboard.{Keyboard, normalmap, kbdintr}
use plum_os.Keyboard.Typing.{IsPlain, no_keys, plain, type_keys, Extended, type_keys-Extended}

abbrev no_task : Task
no_task = record {
  kernel_stack = 0;
  mm = 0;
  pid = 0;
  ppid = 0;
  waited = 0;
  orphan = 0;
  exit_status = 0;
  sigterm = 0;
  timeslice = 0;
  state = unset;
  sleep_time = 0;
}

abbrev no_tasks : Kernel
no_tasks = record {
  next = λ p. 0;
  task = λ p. no_task;
  head = λ l. 0;
  current = 0;
  clear_zombie = 0;
  zombie_count = 0;
  rsp0 = 0;
  frames = record { ref = λ p. 0; bitmap = λ i. 0; shl_int = λ k. 0 };
}

abbrev fresh_keyboard : Keyboard
fresh_keyboard = record {
  normal_key_pressed = 0;
  special_key_pressed = 0;
  stdin_buf = λ i. 0;
  stdin_buf_state = 0;
  screen = record { cells = λ i. 0; row = 0; col = 0; stdin_buf_size = 0 };
}

l_key : IsPlain 0x26
unfolding normalmap
l_key = record {
  written = λ e. omega (arith, e);
  no_backspace = omega arith;
  no_enter = omega arith;
}

s_key : IsPlain 0x1f
unfolding normalmap
s_key = record {
  written = λ e. omega (arith, e);
  no_backspace = omega arith;
  no_enter = omega arith;
}

type_keys-Extended_example :
    (t : Keyboard) × (type_keys 4 (λ k. 0) (0x26 ∷ 0x1f ∷ []) fresh_keyboard no_tasks
      ≡ ok t no_tasks)
    × Extended (0x26 ∷ 0x1f ∷ []) fresh_keyboard t
type_keys-Extended_example =
    type_keys-Extended 4 (λ k. 0) (0x26 ∷ 0x1f ∷ []) fresh_keyboard no_tasks
      (plain l_key (plain s_key no_keys)) refl refl (omega arith)

-- 10 is active, 40 and 50 wait for input.
abbrev links : Ptr → Ptr
links p = if p == 40 then 50 else null

abbrev heads : Head → Ptr
heads l = if l == 0 then 10 else if l == 2 then 40 else null

abbrev two_readers : Kernel
two_readers = record no_tasks { next = links; head = heads }

abbrev lists : Queues
lists l = if l == 0 then 10 ∷ [] else if l == 2 then 40 ∷ 50 ∷ [] else []

two_readers-IsQueued : IsQueued two_readers lists
two_readers-IsQueued = record { chains = λ l. ground arith; apart = λ l m q ne h. ground arith }

abbrev enter_held : Keyboard
enter_held = record fresh_keyboard { normal_key_pressed = 0x1c }

kbdintr-LineReady_example :
    Ends (LineReady enter_held two_readers lists) (kbdintr 4 (λ k. 0) 1 0x9c enter_held two_readers)
kbdintr-LineReady_example =
    kbdintr-LineReady 3 (λ k. 0) enter_held two_readers lists refl refl (omega arith)
      two_readers-IsQueued (omega arith)
