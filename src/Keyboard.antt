-- ===== src/Keyboard.antt =====
-- The keyboard interrupt of sys/kbd.c with the key tables of include/sys/kbd.h: typed characters go to
-- the screen and into stdin_buf, the page that kbdinit gets for it. `screen.stdin_buf_size` is the variable
-- that the console reads too. A write outside of the page, to memory that is not the buffer's, is a fault here.
pub mod Typing
pub mod Enter
use plum_os.Prelude.{
  ℕ, zero, suc, ◌+◌, ◌-◌, ◌%◌, ◌^◌, bit_and, Bool, not, ◌&&◌, ◌||◌, List, [], ◌∷◌, get_or, ◌==◌,
  ltb, if◌then◌else◌,
}
use plum_os.Kernel.{
  Ptr, null, M, pure, ◌>>=◌, ◌>>◌, put, load, load_next, get_head, get_current, wait_stdin_list,
  out_of_fuel, fault,
}
use plum_os.Sched.{wakeup}
use plum_os.Process.{kill_by_pid, sigkill}
use plum_os.Console.{Screen, print_to_screen, clear_screen}
use plum_os.Clock.{put_to_screen}

-- The entries that are not listed are 0.
abbrev pub normal_keys : List ℕ
normal_keys =
    0 ∷ 27 ∷ 49 ∷ 50 ∷ 51 ∷ 52 ∷ 53 ∷ 54 ∷ 55 ∷ 56 ∷ 57 ∷ 48 ∷ 45 ∷ 61 ∷ 8 ∷ 9 ∷ 113 ∷ 119 ∷ 101
    ∷ 114 ∷ 116 ∷ 121 ∷ 117 ∷ 105 ∷ 111 ∷ 112 ∷ 91 ∷ 93 ∷ 10 ∷ 0 ∷ 97 ∷ 115 ∷ 100 ∷ 102 ∷ 103 ∷ 104
    ∷ 106 ∷ 107 ∷ 108 ∷ 59 ∷ 39 ∷ 96 ∷ 0 ∷ 92 ∷ 122 ∷ 120 ∷ 99 ∷ 118 ∷ 98 ∷ 110 ∷ 109 ∷ 44 ∷ 46 ∷ 47
    ∷ 0 ∷ 42 ∷ 0 ∷ 32 ∷ 0 ∷ 0 ∷ 0 ∷ 0 ∷ 0 ∷ 0 ∷ 0 ∷ 0 ∷ 0 ∷ 0 ∷ 0 ∷ 0 ∷ 0 ∷ 55 ∷ 56 ∷ 57 ∷ 45 ∷ 52
    ∷ 53 ∷ 54 ∷ 43 ∷ 49 ∷ 50 ∷ 51 ∷ 48 ∷ 46 ∷ []

abbrev pub shift_keys : List ℕ
shift_keys =
    0 ∷ 27 ∷ 33 ∷ 64 ∷ 35 ∷ 36 ∷ 37 ∷ 94 ∷ 38 ∷ 42 ∷ 40 ∷ 41 ∷ 95 ∷ 43 ∷ 8 ∷ 9 ∷ 81 ∷ 87 ∷ 69 ∷ 82
    ∷ 84 ∷ 89 ∷ 85 ∷ 73 ∷ 79 ∷ 80 ∷ 123 ∷ 125 ∷ 10 ∷ 0 ∷ 65 ∷ 83 ∷ 68 ∷ 70 ∷ 71 ∷ 72 ∷ 74 ∷ 75 ∷ 76
    ∷ 58 ∷ 34 ∷ 126 ∷ 0 ∷ 124 ∷ 90 ∷ 88 ∷ 67 ∷ 86 ∷ 66 ∷ 78 ∷ 77 ∷ 60 ∷ 62 ∷ 63 ∷ 0 ∷ 42 ∷ 0 ∷ 32
    ∷ 0 ∷ 0 ∷ 0 ∷ 0 ∷ 0 ∷ 0 ∷ 0 ∷ 0 ∷ 0 ∷ 0 ∷ 0 ∷ 0 ∷ 0 ∷ 55 ∷ 56 ∷ 57 ∷ 45 ∷ 52 ∷ 53 ∷ 54 ∷ 43 ∷ 49
    ∷ 50 ∷ 51 ∷ 48 ∷ 46 ∷ []

unfoldable pub normalmap : ℕ → ℕ
normalmap k = get_or normal_keys k 0

unfoldable pub shiftmap : ℕ → ℕ
shiftmap k = if k == 0x9c then 10 else if k == 0xb5 then 47 else get_or shift_keys k 0

-- `stdin_buf` is by its index, below STDIN_BUF_SIZE; stdin_buf_size is a 32-bit pattern, which nothing bounds.
pub record Keyboard : Type 0 where
  pub normal_key_pressed : ℕ
  pub special_key_pressed : ℕ
  pub stdin_buf : ℕ → ℕ
  pub stdin_buf_state : ℕ
  pub screen : Screen

unfoldable pub is_normal_key_pressed : ℕ → Bool
is_normal_key_pressed data_ = not (normalmap data_ == 0)

-- `normalmap[data - 0x80]`: below 0x80 it reads in front of the table, byte `before k` at distance k.
unfoldable pub is_normal_key_released : (ℕ → ℕ) → ℕ → Bool
is_normal_key_released before data_ =
    not ((if ltb data_ 0x80 then before (0x80 - data_) else normalmap (data_ - 0x80)) == 0)

unfoldable pub is_special_key_released : ℕ → Bool
is_special_key_released data_ = data_ == 0x9d || data_ == 0xaa || data_ == 0xb8

unfoldable pub is_special_key_pressed : ℕ → Bool
is_special_key_pressed data_ = data_ == 0x1d || data_ == 0x2a || data_ == 0x38

unfoldable pub echo : ℕ → Keyboard → Keyboard
echo c kb = record kb { screen = print_to_screen c kb.screen }

abbrev pub buffer_bytes : ℕ
buffer_bytes = 4096

-- `stdin_buf[stdin_buf_size++] = c` within the page
unfoldable pub appended : ℕ → Keyboard → Keyboard
appended c kb = record kb {
  stdin_buf = put kb.stdin_buf kb.screen.stdin_buf_size c;
  screen = record (kb.screen) { stdin_buf_size = (kb.screen.stdin_buf_size + 1) % 2 ^ 32 };
}

-- The same for every size: 4096 and more, and the patterns of negative ints, are outside of the page.
unfoldable pub append : ℕ → Keyboard → M Keyboard
append c kb =
    if ltb kb.screen.stdin_buf_size buffer_bytes then pure (appended c kb) else (λ _. fault)

unfoldable pub erase : Keyboard → Keyboard
erase kb = record kb {
  screen = record (kb.screen) {
    stdin_buf_size = (kb.screen.stdin_buf_size + (2 ^ 32 - 1)) % 2 ^ 32;
  };
}

abbrev pub clear_normal : Keyboard → Keyboard
clear_normal kb = record kb { normal_key_pressed = 0 }

abbrev pub clear_both : Keyboard → Keyboard
clear_both kb = record kb { normal_key_pressed = 0; special_key_pressed = 0 }

-- `if (wait_stdin_list != NULL) wakeup(&wait_stdin_list, NULL, 0);`
unfoldable pub wake_readers : ℕ → M (Unit {0})
wake_readers n = do
  p ← get_head wait_stdin_list
  if p == null then pure tt else wakeup n wait_stdin_list null 0

-- A normal key that was released, with no special key held.
unfoldable pub plain_key : ℕ → Keyboard → M Keyboard
unfolding echo append erase wake_readers
plain_key n kb =
    let c = normalmap kb.normal_key_pressed in
    if kb.normal_key_pressed == 0xe
    then pure (clear_normal (erase (echo 0xe kb)))
    else if kb.normal_key_pressed == 0x1c
    then (do
      t ← append c (echo c kb)
      wake_readers n
      pure (clear_normal (record t { stdin_buf_state = 1 })))
    else (do t ← append c (echo c kb); pure (clear_normal t))

unfoldable pub last_waiter : ℕ → Ptr → M Ptr
last_waiter zero p = λ _. out_of_fuel
last_waiter (suc n) p = do q ← load_next p; if q == null then pure p else last_waiter n q

-- `if (current->mm != NULL) kill_by_pid(current->pid, SIGKILL);`
unfoldable pub kill_user : ℕ → Ptr → M (Unit {0})
unfolding load
kill_user n c = do
  t ← load c
  if t.mm == null then pure tt else (do r ← kill_by_pid n t.pid sigkill; pure tt)

-- Ctrl-C: the last task on the list that waits for input, or the current one if it is a user process.
unfoldable pub interrupt_user : ℕ → M (Unit {0})
unfolding last_waiter load kill_user
interrupt_user n = do
  p ← get_head wait_stdin_list
  c ← get_current
  if p == null
      then kill_user n c
      else (do w ← last_waiter n p; t ← load w; r ← kill_by_pid n t.pid sigkill; pure tt)

-- `put_to_screen(mark, 64, 24, 0); put_to_screen(c, 65, 24, 0);`
unfoldable pub show_mark : ℕ → ℕ → Keyboard → Keyboard
show_mark mark c kb = record kb {
  screen = put_to_screen c 65 24 0 (put_to_screen mark 64 24 0 kb.screen);
}

unfoldable pub control_key : ℕ → Keyboard → M Keyboard
unfolding show_mark interrupt_user
control_key n kb = do
  if kb.normal_key_pressed == 0x2e then interrupt_user n else pure tt
  let marked = show_mark 94 (shiftmap kb.normal_key_pressed) kb in
      pure (
        if kb.normal_key_pressed == 0x26
        then record marked { screen = clear_screen marked.screen }
        else marked)

-- The switch on the special key.
unfoldable pub special_key : ℕ → Keyboard → M Keyboard
unfolding control_key show_mark append echo
special_key n kb =
    let c = shiftmap kb.normal_key_pressed in
    if kb.special_key_pressed == 0x2a
    then append c (echo c kb)
    else if kb.special_key_pressed == 0x38
    then pure (show_mark 64 (normalmap kb.normal_key_pressed) kb)
    else if kb.special_key_pressed == 0x1d
    then control_key n kb
    else pure kb

-- kbdintr on a status and a byte of the controller.
unfoldable pub kbdintr : ℕ → (ℕ → ℕ) → ℕ → ℕ → Keyboard → M Keyboard
unfolding is_normal_key_pressed is_normal_key_released is_special_key_pressed
    is_special_key_released plain_key special_key
kbdintr n before status data_ kb =
    if bit_and status 1 == 0
    then pure kb
    else if is_normal_key_pressed data_
    then pure (record kb { normal_key_pressed = data_ })
    else if is_special_key_pressed data_
    then pure (record kb { special_key_pressed = data_ })
    else if is_normal_key_released before data_
    then (if kb.special_key_pressed == 0
        then plain_key n kb
        else (do t ← special_key n kb; pure (clear_both t)))
    else if is_special_key_released data_
    then (if kb.normal_key_pressed == 0
        then pure (record kb { special_key_pressed = 0 })
        else (do t ← special_key n kb; pure (clear_both t)))
    else pure kb
