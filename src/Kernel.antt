-- ===== src/Kernel.antt =====
-- The kernel's shared state: the task structures of include/sys/proc.h at their addresses, the list
-- heads and counters that sys/process.c, sys/syscall.c and sys/kbd.c share, and the outcome of kernel
-- code. A read or write through NULL faults (no page table maps the low addresses to the kernel);
-- a failed `assert` and a `panic` loop for ever.
pub mod Ends
use plum_os.Prelude.{ℕ, ◌==◌, if◌then◌else◌}
use plum_os.Frames.{Frames}

abbrev pub Ptr : Type 0
Ptr = ℕ

abbrev pub null : Ptr
null = 0

-- `enum TASK_STATE`; `unset` is the 0 of a fresh page, which no enumerator has.
pub data TaskState : Type 0 where
  unset running active sleeping zombie : TaskState

-- `struct task_struct` without its `next` link, as far as scheduling, signals and waiting read it. `exit_status` and
-- `sleep_time` are 32-bit patterns. `prev` and `last` are written and never read by these lists.
pub record Task : Type 0 where
  pub kernel_stack : ℕ
  pub mm : Ptr
  pub pid : ℕ
  pub ppid : ℕ
  pub waited : ℕ
  pub orphan : ℕ
  pub exit_status : ℕ
  pub sigterm : ℕ
  pub timeslice : ℕ
  pub state : TaskState
  pub sleep_time : ℕ

-- The addresses of the four list-head variables, which a `task_struct **` argument points to.
abbrev pub Head : Type 0
Head = ℕ

abbrev pub task_headp : Head
task_headp = 0

abbrev pub sleep_task_list : Head
sleep_task_list = 1

abbrev pub wait_stdin_list : Head
wait_stdin_list = 2

abbrev pub zombie_list : Head
zombie_list = 3

-- `next` holds the link of the structure at each address, `task` its other fields.
pub record Kernel : Type 0 where
  pub next : Ptr → Ptr
  pub task : Ptr → Task
  pub head : Head → Ptr
  pub current : Ptr
  pub clear_zombie : Ptr
  pub zombie_count : ℕ
  pub rsp0 : ℕ
  pub frames : Frames

pub data Run (A : Type 0) : Type 0 where
  ok : A → Kernel → Run A
  fault : Run A
  hang : Run A
  out_of_fuel : Run A

abbrev pub M : Type 0 → Type 0
M A = Kernel → Run A

abbrev pub pure : {A : Type 0} → A → M A
pure = ok

module _ {A B : Type 0} where
  abbrev pub and_then : Run A → (A → M B) → Run B
  and_then (ok a k) f = f a k
  and_then fault f = fault
  and_then hang f = hang
  and_then out_of_fuel f = out_of_fuel

  infixl 5 ◌>>=◌ ◌>>◌
  abbrev pub ◌>>=◌ : M A → (A → M B) → M B
  m >>= f = λ k. and_then (m k) f

  abbrev pub ◌>>◌ : M A → M B → M B
  m >> n = m >>= λ _. n

abbrev pub put {ℓ} : {A : Type ℓ} → (ℕ → A) → ℕ → A → ℕ → A
put f p a q = if p == q then a else f q

-- a read of the fields of `*p`
unfoldable pub load : Ptr → M Task
load p k = if p == null then fault else ok (k.task p) k

-- `p->f = ...`, for whichever fields `f` changes
unfoldable pub modify : Ptr → (Task → Task) → M (Unit {0})
modify p f k = if p == null then fault else ok tt (record k { task = put k.task p (f (k.task p)) })

-- `p->next` and `p->next = q`
unfoldable pub load_next : Ptr → M Ptr
load_next p k = if p == null then fault else ok (k.next p) k

unfoldable pub set_next : Ptr → Ptr → M (Unit {0})
set_next p q k = if p == null then fault else ok tt (record k { next = put k.next p q })

-- `*head` and `*head = p`
abbrev pub get_head : Head → M Ptr
get_head l k = ok (k.head l) k

abbrev pub set_head : Head → Ptr → M (Unit {0})
set_head l p k = ok tt (record k { head = put k.head l p })

abbrev pub get_current : M Ptr
get_current k = ok k.current k
