-- ===== src/Examples/Reads.antt =====
-- Reading at concrete states.
use plum_os.Prelude.{ℕ, ◌≡◌, refl, true, false, not, ◌==◌, some, arith}
use plum_os.Input.{Io, read_stdin, read_file}
use plum_os.Input.Stdin.{HandedOver, read_stdin-HandedOver}
use plum_os.Input.File.{NextBytes, read_file-NextBytes}

-- Eight typed bytes in a page of the kernel, and a file of 100 bytes at 20000 of which 40 have been read.
abbrev typed : Io
typed = record {
  mem = λ a. a;
  has_vma = λ a. true;
  present = λ p. not (p == 0);
  backing = λ a. 0;
  memory_full = false;
  stdin_buf = 0xffffffff80300000;
  stdin_buf_size = 8;
  stdin_buf_state = 1;
  file_array = λ g. record { type = 1; start_addr = 20000; size = 100; pos = 40 };
}

read_stdin-HandedOver_example :
    (r : ℕ × Io) × (read_stdin 500 3 typed ≡ some r) × HandedOver 500 3 typed r
read_stdin-HandedOver_example =
    read_stdin-HandedOver 500 3 typed refl refl (omega arith) (omega arith) (omega arith)
      (omega arith) (λ j l ne. absurd (omega (arith, ne))) (λ i j l u e. omega (arith, e))

-- The room of 80 bytes at 4050 crosses into the next page.
read_file-NextBytes_example :
    (r : ℕ × Io) × (read_file 3 4050 80 typed ≡ some r) × NextBytes 3 4050 80 typed r
read_file-NextBytes_example =
    read_file-NextBytes 3 4050 80 typed
      (record { file = refl; pos_in = omega arith; in_memory = omega arith }) refl refl
      (omega arith) (omega arith) (λ j l ne. ground (arith, ne)) (omega arith)
      (λ a b l u e. omega (arith, e))
