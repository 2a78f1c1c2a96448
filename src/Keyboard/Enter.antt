-- ===== src/Keyboard/Enter.antt =====
-- The release of the Enter key: the line is ready, and its readers wake.
use plum_os.Prelude.{
  true, false, ℕ, suc, ◌+◌, ◌<◌, ◌≡◌, refl, ap, ◌∙◌, ◌≢◌, length, ◌==◌, arith, inl, inr, Bool-cases,
}
use plum_os.Kernel.{Kernel, pure, and_then, put, null, wait_stdin_list}
use plum_os.Kernel.Ends.{Ends, ends, chain, Ends-of_eq}
use plum_os.Sched.{wakeup, wakeup_loop}
use plum_os.Sched.Queues.{Queues, IsQueued}
use plum_os.Sched.Wakeup.{Woken, wakeup-Woken}
use plum_os.Keyboard.{
  Keyboard, normalmap, echo, appended, buffer_bytes, clear_normal, wake_readers, plain_key, kbdintr,
}
use plum_os.Keyboard.Typing.{release, room_left, appended-buffer}

wake_somebody :
    (n : ℕ) (k : Kernel)
    → (k.head wait_stdin_list == null) ≡ false
    → wake_readers n k ≡ wakeup n wait_stdin_list null 0 k
unfolding wake_readers
wake_somebody n k e = rw e refl

wake_nobody :
    (n : ℕ) (k : Kernel)
    → (k.head wait_stdin_list == null) ≡ true
    → wake_readers (suc n) k ≡ wakeup (suc n) wait_stdin_list null 0 k
unfolding wake_readers wakeup wakeup_loop
wake_nobody n k e = rw e refl

-- Where nobody waits, the call that is left out would do nothing.
wake_readers-wakeup :
    (n : ℕ) (k : Kernel) → wake_readers (suc n) k ≡ wakeup (suc n) wait_stdin_list null 0 k
wake_readers-wakeup n k = elim (Bool-cases (k.head wait_stdin_list == null)) [
  | inl e ↦ wake_nobody n k e
  | inr e ↦ wake_somebody (suc n) k e
]

-- The keyboard after Enter, and the tasks that waited for input.
pub record LineReady (kb : Keyboard) (k : Kernel) (qs : Queues) (t : Keyboard) (g : Kernel)
    : Type 0 where
  pub ready : t.stdin_buf_state ≡ 1
  pub size : t.screen.stdin_buf_size ≡ kb.screen.stdin_buf_size + 1
  pub newline : t.stdin_buf ≡ put kb.stdin_buf kb.screen.stdin_buf_size 10
  pub no_key : t.normal_key_pressed ≡ 0
  pub queues : Queues
  pub woken : Woken wait_stdin_list k qs g queues

enter_def :
    (n : ℕ) (kb : Keyboard) (k : Kernel)
    → kb.normal_key_pressed ≡ 0x1c
    → kb.screen.stdin_buf_size < buffer_bytes
    → plain_key n kb k
      ≡ and_then
          (wake_readers n k)
          (λ u. pure (clear_normal (record (appended 10 (echo 10 kb)) { stdin_buf_state = 1 })))
unfolding plain_key normalmap
enter_def n kb k e room = rw (e, room_left 10 kb.screen room) refl

enter_written : normalmap 0x1c ≢ 0
unfolding normalmap
enter_written e = omega (arith, e)

-- Enter is released, with no other key held and room in the buffer's page of 4096 bytes, while the scheduler's lists
-- are well-formed and at most n tasks wait for input: the interrupt returns. Then the line is marked ready, a newline stands at the end of
-- the buffer, which has grown by one, no key is held, and all tasks that waited for input are
-- active: they have moved to the front of the active list, last one first, and the other lists are
-- as they were.
pub kbdintr-LineReady :
    (n : ℕ) (before : ℕ → ℕ) (kb : Keyboard) (k : Kernel) (qs : Queues)
    → kb.normal_key_pressed ≡ 0x1c
    → kb.special_key_pressed ≡ 0
    → kb.screen.stdin_buf_size < buffer_bytes
    → IsQueued k qs
    → length (qs wait_stdin_list) < suc n
    → Ends (LineReady kb k qs) (kbdintr (suc n) before 1 0x9c kb k)
kbdintr-LineReady n before kb k qs held no_special room q few =
    Ends-of_eq
      (release (suc n) before 0x1c kb k enter_written no_special
        ∙ enter_def (suc n) kb k held room
        ∙ ap
            (λ r. and_then r (λ u.
              pure (clear_normal (record (appended 10 (echo 10 kb)) { stdin_buf_state = 1 }))))
            (wake_readers-wakeup n k))
      (chain (wakeup-Woken (suc n) wait_stdin_list k qs (λ e. omega (arith, e)) q few)
        λ u g (qs2, w). ends (record {
          ready = refl;
          size = (appended-buffer 10 kb).0 ∙ omega (arith, room);
          newline = (appended-buffer 10 kb).1;
          no_key = refl;
          queues = qs2;
          woken = w;
        }))
