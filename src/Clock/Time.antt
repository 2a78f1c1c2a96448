-- ===== src/Clock/Time.antt =====
-- What the clock of sys/timer.c counts and shows.
use plum_os.Prelude.{
  ℕ, zero, suc, ◌+◌, ◌-◌, ◌*◌, ◌/◌, ◌%◌, ◌^◌, ◌<◌, ◌≡◌, refl, arith, ◌==◌, if◌then◌else◌, if_both,
  leb,
}
use plum_os.Console.{Screen, offset}
use plum_os.Console.Scroll.{glyph}
use plum_os.Clock.{Clock, count_second, tick, put_to_screen, put_two_digits, write_time_to_screen}

-- Seconds and minutes are below 60, and the time is that of the ticks, 100 to the second.
pub record OnTime (c : Clock) : Type 0 where
  pub sec_in : c.sec < 60
  pub min_in : c.min < 60
  pub total : c.hour * 3600 + c.min * 60 + c.sec ≡ c.ticks / 100

abbrev pub ticked : ℕ → Clock → Clock
ticked zero c = c
ticked (suc n) c = ticked n (tick c)

tick-OnTime : (c : Clock) → c.ticks + 1 < 2 ^ 49 → OnTime c → OnTime (tick c)
unfolding tick count_second
tick-OnTime c b i =
    if_both OnTime (((c.ticks + 1) % 2 ^ 64 % 100) == 0)
      (λ e.
        if_both OnTime (((c.sec + 1) % 60) == 0)
          (λ e'.
            if_both OnTime (((c.min + 1) % 60) == 0)
              (λ e''. record {
                sec_in = omega arith;
                min_in = omega arith;
                total = ground (arith, i.total, i.sec_in, i.min_in);
              })
              λ e''. record {
                sec_in = omega arith;
                min_in = ground (arith, i.min_in);
                total = ground (arith, i.total, i.sec_in, i.min_in);
              })
          λ e'. record {
            sec_in = ground (arith, i.sec_in);
            min_in = i.min_in;
            total = ground (arith, i.total, i.sec_in);
          })
      λ e. record { sec_in = i.sec_in; min_in = i.min_in; total = ground (arith, i.total) }

tick-ticks : (c : Clock) → c.ticks + 1 < 2 ^ 49 → (tick c).ticks ≡ c.ticks + 1
unfolding tick count_second
tick-ticks c b = ground arith

-- Through n timer interrupts from a clock that is right, with fewer than 2 ^ 49 ticks in the end,
-- the seconds and the minutes stay below 60, and hours, minutes and seconds together are the number
-- of ticks, 100 to the second.
pub ticked-OnTime : (n : ℕ) (c : Clock) → c.ticks + n < 2 ^ 49 → OnTime c → OnTime (ticked n c)
ticked-OnTime zero c b i = i
ticked-OnTime (suc n) c b i =
    ticked-OnTime n (tick c) (omega (arith, tick-ticks c (omega arith)))
      (tick-OnTime c (omega arith) i)

-- The number in the columns j and j + 1 of row 24.
abbrev pub shown : Screen → ℕ → ℕ
shown s j = (glyph s 24 j - 48) * 10 + (glyph s 24 (j + 1) - 48)

two_digits :
    (n : ℕ)
    → n < 100
    → ((if leb 10 n then n / 10 + 48 else 48) % 256 - 48) * 10 + ((n % 10 + 48) % 256 - 48) ≡ n
two_digits n h = ground arith

-- The hour, minute and second, each below 100, stand readable in row 24 in columns 70, 73 and 76, with
-- colons between them.
pub write_time_to_screen-shown :
    (h m sec : ℕ) (s : Screen)
    → h < 100
    → m < 100
    → sec < 100
    → let t = write_time_to_screen h m sec s in
      (shown t 70 ≡ h)
      × (shown t 73 ≡ m)
      × (shown t 76 ≡ sec)
      × (glyph t 24 72 ≡ 58)
      × (glyph t 24 75 ≡ 58)
unfolding write_time_to_screen put_two_digits put_to_screen offset
write_time_to_screen-shown h m sec s a b c =
    (two_digits h a, two_digits m b, two_digits sec c, refl, refl)
