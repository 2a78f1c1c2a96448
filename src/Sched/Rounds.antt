-- ===== src/Sched/Rounds.antt =====
-- Calls of schedule of sys/process.c in a row, while no signal is pending.
use plum_os.Prelude.{
  ℕ, zero, suc, ◌+◌, ◌-◌, ◌%◌, ◌<◌, ◌≡◌, sym, ◌≢◌, ◌∙◌, ap, true, List, arith, has, length, get_or,
  subst, ◌==◌, if◌then◌else◌, Bool-cases, inl, inr, ==_iff,
}
use native.Mathlib.Nat.{mod-add-mod, add-mod-mod}
use plum_os.Kernel.{Ptr, null, task_headp, Kernel, M, pure, ok, ◌>>◌}
use plum_os.Kernel.Ends.{Ends, ends, chain, Ends-of_eq}
use plum_os.TaskList.Chain.{Chain, Chain-ne-null}
use plum_os.Sched.{stays, away, switch_to, schedule_from, schedule}
use plum_os.Sched.Select.{OwnPid, behind, behind_round, has-get_or, select_task_struct-behind}

-- `next` has the processor.
abbrev pub running_now : Ptr → Kernel → Kernel
running_now p k = record k { current = p; rsp0 = (k.task p).kernel_stack }

schedule_from-quiet :
    (n f : ℕ) (p : Ptr) (k : Kernel)
    → p ≢ null
    → (k.task p).sigterm ≢ 1
    → schedule_from n (suc f) p k
      ≡ (if p == k.current then ok stays k else ok (away p) (running_now p k))
unfolding schedule_from switch_to
schedule_from-quiet n f p k h s = ground arith

-- If the task behind the current one has no signal pending, schedule gives it the processor and its
-- kernel stack; if that is the current task itself, nothing happens.
pub schedule-behind :
    (n f : ℕ) (k : Kernel) (xs : List Ptr)
    → Chain k.next (k.head task_headp) xs
    → OwnPid k.task xs
    → has k.current xs ≡ true
    → length xs < n
    → let p = behind k.current xs (k.head task_headp) in
      p ≢ null
      → (k.task p).sigterm ≢ 1
      → schedule n (suc f) k
        ≡ (if p == k.current then ok stays k else ok (away p) (running_now p k))
unfolding schedule
schedule-behind n f k xs c o h b ne s =
    rw (select_task_struct-behind n k xs c o h b)
      (schedule_from-quiet n f (behind k.current xs (k.head task_headp)) k ne s)

-- d calls of schedule in a row, each by the task that runs at that time
unfoldable pub schedules : ℕ → ℕ → ℕ → M (Unit {0})
schedules n f zero = pure tt
schedules n f (suc d) = do schedule n f; schedules n f d

-- `k` while the task at position i of the active list runs, on kernel stack r.
abbrev pub turn : Kernel → List Ptr → ℕ → ℕ → Kernel
turn k xs i r = record k { current = get_or xs i null; rsp0 = r }

abbrev pub AtTurn : Kernel → List Ptr → ℕ → Kernel → Type 0
AtTurn k xs i g = (r : ℕ) × (g ≡ turn k xs i r)

-- The active list `xs` is well formed, and none of its tasks has a signal pending.
pub record IsQuiet (k : Kernel) (xs : List Ptr) : Type 0 where
  pub list : Chain k.next (k.head task_headp) xs
  pub pids : OwnPid k.task xs
  pub unsignalled : (q : Ptr) → has q xs ≡ true → (k.task q).sigterm ≢ 1

round_none : (i n : ℕ) → i < n → i ≡ (i + 0) % n
round_none i n h = grind arith

round_more : (i d n : ℕ) → ((i + 1) % n + d) % n ≡ (i + suc d) % n
round_more i d n = mod-add-mod (i + 1) n d ∙ ap (λ (m : ℕ). m % n) (omega arith)

round_wrap : (j n : ℕ) → j < n → (j + n) % n ≡ j
round_wrap j n h = grind arith

-- The distance from position i to position j, going round.
round_to : (i j n : ℕ) → i < n → j < n → (i + (j + n - i) % n) % n ≡ j
round_to i j n h h' =
    add-mod-mod i (j + n - i) n ∙ ap (λ (m : ℕ). m % n) (omega arith) ∙ round_wrap j n h'

module _ (n f : ℕ) (k : Kernel) (xs : List Ptr) (c : IsQuiet k xs) (b : length xs < n) where
  after_turn :
      (i r : ℕ)
      → i < length xs
      → Ends (λ _ g. AtTurn k xs ((i + 1) % length xs) g) (schedule n (suc f) (turn k xs i r))
  after_turn i r h =
      Ends-of_eq
        (schedule-behind n f (turn k xs i r) xs c.list c.pids (has-get_or xs i h) b
          (subst (λ p. p ≢ null) (sym at)
            (Chain-ne-null k.next (k.head task_headp) q xs c.list member))
          (subst (λ p. (k.task p).sigterm ≢ 1) (sym at) (c.unsignalled q member)))
        (elim (Bool-cases (behind (get_or xs i null) xs (k.head task_headp) == get_or xs i null)) [
          | inl e ↦
              rw e (
                ends
                  (r, ap (λ p. record k { current = p; rsp0 = r }) (sym ((==_iff _ _).0 e) ∙ at)))
          | inr e ↦ rw e (
              ends (
                (k.task (behind (get_or xs i null) xs (k.head task_headp))).kernel_stack,
                ap
                    (λ p. record k {
                      current = p;
                      rsp0 =
                          (k.task (behind (get_or xs i null) xs (k.head task_headp))).kernel_stack;
                    })
                    at,
              ))
        ])
    where
      q : Ptr
      q = get_or xs ((i + 1) % length xs) null

      member : has q xs ≡ true
      member = has-get_or xs ((i + 1) % length xs) (omega arith)

      at : behind (get_or xs i null) xs (k.head task_headp) ≡ q
      at = behind_round k.next (k.head task_headp) xs i c.list h

  schedules-AtTurn :
      (d i r : ℕ)
      → i < length xs
      → Ends (λ _ g. AtTurn k xs ((i + d) % length xs) g) (schedules n (suc f) d (turn k xs i r))
  unfolding schedules
  schedules-AtTurn zero i r h = ends (r, ap (λ (j : ℕ). turn k xs j r) (round_none i (length xs) h))
  schedules-AtTurn (suc d) i r h = chain (after_turn i r h) λ _ g (r', e).
      subst (λ y. Ends (λ _ u. AtTurn k xs ((i + suc d) % length xs) u) (schedules n (suc f) d y))
        (sym e)
        (subst
          (λ j.
            Ends (λ _ u. AtTurn k xs j u)
              (schedules n (suc f) d (turn k xs ((i + 1) % length xs) r')))
          (round_more i d (length xs)) (schedules-AtTurn d ((i + 1) % length xs) r' (omega arith)))

-- From any position i on a quiet active list of fewer than n tasks, some number of calls of schedule
-- below the list's length gives the processor to the task at any position j, so that no task is
-- passed over.
pub schedules-AtTurn_any :
    (n f : ℕ) (k : Kernel) (xs : List Ptr) (i j r : ℕ)
    → IsQuiet k xs
    → length xs < n
    → i < length xs
    → j < length xs
    → (d : ℕ) × (d < length xs)
      × Ends (λ _ g. AtTurn k xs j g) (schedules n (suc f) d (turn k xs i r))
schedules-AtTurn_any n f k xs i j r c b h h' = (
  (j + length xs - i) % length xs,
  omega arith,
  subst
      (λ m.
        Ends (λ _ g. AtTurn k xs m g)
          (schedules n (suc f) ((j + length xs - i) % length xs) (turn k xs i r)))
      (round_to i j (length xs) h h')
      (schedules-AtTurn n f k xs c b ((j + length xs - i) % length xs) i r h),
)
