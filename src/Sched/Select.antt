-- ===== src/Sched/Select.antt =====
-- select_task_struct of sys/process.c on the active list.
use plum_os.Prelude.{
  ℕ, zero, suc, ◌+◌, ◌<◌, ◌≡◌, refl, ◌≢◌, ◌∙◌, ap, true, List, [], ◌∷◌, arith, has, length, ◌==◌,
  if◌then◌else◌, Bool-cases, inl, inr, ==_iff, ==_ne, get_or, ◌%◌,
}
use plum_os.Kernel.{Ptr, null, Task, task_headp, Kernel, ok, load, load_next}
use plum_os.TaskList.{find_process_by_pid}
use plum_os.TaskList.Chain.{Chain, Chain-ne-null}
use plum_os.TaskList.Find.{first_with_pid, find_process_by_pid-first}
use plum_os.Sched.{successor, select_task_struct}

-- The task behind `me` on the list, or `first` if it is the last.
abbrev pub behind : Ptr → List Ptr → Ptr → Ptr
behind me [] first = first
behind me (x ∷ []) first = first
behind me (x ∷ y ∷ ys) first = if x == me then y else behind me (y ∷ ys) first

abbrev pub first_of : List Ptr → Ptr
first_of [] = null
first_of (x ∷ xs) = x

-- No two tasks of the list share a pid.
abbrev pub OwnPid : (Ptr → Task) → List Ptr → Type 0
OwnPid task [] = Unit {0}
OwnPid task (x ∷ xs) = ((q : Ptr) → has q xs ≡ true → (task q).pid ≢ (task x).pid) × OwnPid task xs

first_with_pid_self :
    (task : Ptr → Task) (me : Ptr) (xs : List Ptr)
    → OwnPid task xs
    → has me xs ≡ true
    → first_with_pid (task me).pid task xs ≡ me
first_with_pid_self task me [] o h = cc
first_with_pid_self task me (x ∷ xs) o h =
    ground (arith, o.0 me, first_with_pid_self task me xs o.1)

next-behind :
    (h : Ptr → Ptr) (p me first : Ptr) (xs : List Ptr)
    → Chain h p xs
    → has me xs ≡ true
    → (if h me == null then first else h me) ≡ behind me xs first
next-behind h p me first [] c m = cc
next-behind h p me first (x ∷ []) c m = ground arith
next-behind h p me first (x ∷ y ∷ ys) c m =
    ground (arith, next-behind h (h x) me first (y ∷ ys) c.3)

successor-eq :
    (p first : Ptr) (k : Kernel)
    → p ≢ null
    → successor p first k ≡ ok (if k.next p == null then first else k.next p) k
unfolding successor load_next
successor-eq p first k h = ground arith

select-eq :
    (n : ℕ) (k : Kernel)
    → k.current ≢ null
    → find_process_by_pid n (k.task k.current).pid (k.head task_headp) k ≡ ok k.current k
    → select_task_struct n k ≡ successor k.current (k.head task_headp) k
unfolding select_task_struct load
select-eq n k h e = rw (==_ne k.current null h) (rw e (rw (==_ne k.current null h)))

-- While the current task is active, select_task_struct gives the task behind it on the active list,
-- the first one behind the last, and changes nothing.
pub select_task_struct-behind :
    (n : ℕ) (k : Kernel) (xs : List Ptr)
    → Chain k.next (k.head task_headp) xs
    → OwnPid k.task xs
    → has k.current xs ≡ true
    → length xs < n
    → select_task_struct n k ≡ ok (behind k.current xs (k.head task_headp)) k
select_task_struct-behind n k xs c o h f =
    select-eq n k ne (
      find_process_by_pid-first n (k.task k.current).pid (k.head task_headp) k xs c f
      ∙ ap (λ (p : Ptr). ok p k) (first_with_pid_self k.task k.current xs o h))
    ∙ successor-eq k.current (k.head task_headp) k ne
    ∙ ap (λ (p : Ptr). ok p k)
        (next-behind k.next (k.head task_headp) k.current (k.head task_headp) xs c h)
  where
    ne : k.current ≢ null
    ne = Chain-ne-null k.next (k.head task_headp) k.current xs c h

pub has-get_or : (xs : List Ptr) (i : ℕ) → i < length xs → has (get_or xs i null) xs ≡ true
has-get_or [] i h = absurd (omega arith)
has-get_or (x ∷ xs) zero h = ground arith
has-get_or (x ∷ xs) (suc i) h = ground (arith, has-get_or xs i)

behind-get_or :
    (h : Ptr → Ptr) (p first : Ptr) (xs : List Ptr) (i : ℕ)
    → Chain h p xs
    → suc i < length xs
    → behind (get_or xs i null) xs first ≡ get_or xs (suc i) null
behind-get_or h p first [] i c b = absurd (omega arith)
behind-get_or h p first (x ∷ []) i c b = absurd (omega arith)
behind-get_or h p first (x ∷ y ∷ ys) zero c b = ground arith
behind-get_or h p first (x ∷ y ∷ ys) (suc i) c b =
    ground (arith, has-get_or (y ∷ ys) i, behind-get_or h (h x) first (y ∷ ys) i c.3)

behind_last :
    (h : Ptr → Ptr) (p first : Ptr) (xs : List Ptr) (i : ℕ)
    → Chain h p xs
    → suc i ≡ length xs
    → behind (get_or xs i null) xs first ≡ first
behind_last h p first [] i c b = absurd (omega arith)
behind_last h p first (x ∷ []) i c b = refl
behind_last h p first (x ∷ y ∷ ys) zero c b = absurd (omega arith)
behind_last h p first (x ∷ y ∷ ys) (suc i) c b =
    ground (arith, has-get_or (y ∷ ys) i, behind_last h (h x) first (y ∷ ys) i c.3)

head-get_or : (h : Ptr → Ptr) (p : Ptr) (xs : List Ptr) → Chain h p xs → p ≡ get_or xs 0 null
head-get_or h p [] c = c
head-get_or h p (x ∷ xs) c = c.0

round_to_zero : (i n : ℕ) → suc i ≡ n → 0 ≡ (i + 1) % n
round_to_zero i n e = grind arith

round_on : (i n : ℕ) → suc i < n → suc i ≡ (i + 1) % n
round_on i n e = grind arith

-- The positions on the list go round.
pub behind_round :
    (h : Ptr → Ptr) (p : Ptr) (xs : List Ptr) (i : ℕ)
    → Chain h p xs
    → i < length xs
    → behind (get_or xs i null) xs p ≡ get_or xs ((i + 1) % length xs) null
behind_round h p xs i c b = elim (Bool-cases (suc i == length xs)) [
  | inl e ↦
      behind_last h p p xs i c ((==_iff _ _).0 e)
      ∙ head-get_or h p xs c
      ∙ ap (λ (j : ℕ). get_or xs j null) (round_to_zero i (length xs) (ground arith))
  | inr e ↦
      behind-get_or h p p xs i c (ground arith)
      ∙ ap (λ (j : ℕ). get_or xs j null) (round_on i (length xs) (ground arith))
]
