-- ===== src/Clock.antt =====
-- The clock of interrupt_handler_timer in sys/timer.c and write_time_to_screen, which shows it.
pub mod Time
use plum_os.Prelude.{ℕ, zero, suc, ◌+◌, ◌/◌, ◌%◌, ◌^◌, ◌==◌, leb, if◌then◌else◌}
use plum_os.Console.{Screen, offset, set_cell}

-- The counters: a 64-bit number of ticks, and ints as their 32-bit patterns. `sec` and `min` never pass
-- 60.
pub record Clock : Type 0 where
  pub ticks : ℕ
  pub sec : ℕ
  pub min : ℕ
  pub hour : ℕ

-- `ticks % 100 == 0` and what it guards, but for the output
unfoldable pub count_second : Clock → Clock
count_second c =
    if ((c.sec + 1) % 60) == 0
    then if ((c.min + 1) % 60) == 0
      then record c { sec = 0; min = 0; hour = (c.hour + 1) % 2 ^ 32 }
      else record c { sec = 0; min = c.min + 1 }
    else record c { sec = c.sec + 1 }

unfoldable pub tick : Clock → Clock
tick c =
    let t = record c { ticks = (c.ticks + 1) % 2 ^ 64 } in
    if (t.ticks % 100) == 0 then count_second t else t

-- `put_to_screen(c, col, row, color)`
unfoldable pub put_to_screen : ℕ → ℕ → ℕ → ℕ → Screen → Screen
put_to_screen c col row color s =
    set_cell ((offset row col + 1) % 2 ^ 32) color (set_cell (offset row col) (c % 256) s)

-- A number in two columns: its tens from 10 on, else a `0`, then its ones.
unfoldable pub put_two_digits : ℕ → ℕ → Screen → Screen
put_two_digits n col s =
    put_to_screen (n % 10 + 48) (col + 1) 24 9
      (put_to_screen (if leb 10 n then n / 10 + 48 else 48) col 24 9 s)

unfoldable pub write_time_to_screen : ℕ → ℕ → ℕ → Screen → Screen
write_time_to_screen h m sec s = put_two_digits sec 76 (
    put_to_screen 58 75 24 9
      (put_two_digits m 73 (put_to_screen 58 72 24 9 (put_two_digits h 70 s))))
