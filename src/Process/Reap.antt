-- ===== src/Process/Reap.antt =====
-- free_process of sys/process.c on the abstract lists.
use plum_os.Prelude.{ℕ, ◌<◌, ◌≡◌, refl, ◌≢◌, true, has, length, ap, ==_ne}
use plum_os.Frames.{Frames, free_page}
use plum_os.Kernel.{
  Ptr, null, Task, TaskState, unset, running, active, sleeping, zombie, zombie_list, Kernel, M,
  hang, ◌>>◌, and_then,
}
use plum_os.Kernel.Ends.{Ends, ends, chain, Ends-of_eq}
use plum_os.TaskList.{remove_from_tasklist}
use plum_os.TaskList.Chain.{Chain-ne-null}
use plum_os.Sched.Queues.{Queues, IsQueued, Relinks, taken_off, remove_from_tasklist-taken_off}
use plum_os.Process.{free_process, pfn_of, free_frame, is_zombie}

-- The pages of a process, its kernel stack and its task structure, are given back.
abbrev pub released : Ptr → (Ptr → Task) → Frames → Frames
released p t s = free_page (pfn_of p) (free_page (pfn_of (t p).kernel_stack) s)

free_process_of :
    (n : ℕ) (p : Ptr) (k : Kernel)
    → p ≢ null
    → (k.task p).state ≡ zombie
    → (k.task p).mm ≢ null
    → free_process n p k
      ≡ (remove_from_tasklist n zombie_list p >> free_frame (pfn_of p))
          (record k { frames = free_page (pfn_of (k.task p).kernel_stack) k.frames })
unfolding free_process
free_process_of n p k h z m =
    rw (==_ne p null h) (rw (==_ne p null h) (rw z (rw (==_ne (k.task p).mm null m) refl)))

-- A zombie with a memory map leaves the zombie list, of fewer than n tasks, and its two pages are
-- released; nothing else changes.
pub free_process-taken_off :
    (n : ℕ) (p : Ptr) (k : Kernel) (qs : Queues)
    → IsQueued k qs
    → has p (qs zombie_list) ≡ true
    → length (qs zombie_list) < n
    → (k.task p).state ≡ zombie
    → (k.task p).mm ≢ null
    → Ends
        (λ _ g.
          IsQueued g (taken_off zombie_list p qs)
          × Relinks (record k { frames = released p k.task k.frames }) g)
        (free_process n p k)
free_process-taken_off n p k qs i h f z m =
    Ends-of_eq
      (free_process_of n p k
        (Chain-ne-null k.next (k.head zombie_list) p (qs zombie_list) (i.chains zombie_list) h) z m)
      (chain
        (remove_from_tasklist-taken_off n zombie_list p
          (record k { frames = free_page (pfn_of (k.task p).kernel_stack) k.frames }) qs
          (record { chains = i.chains; apart = i.apart }) h f)
        λ r g (_, i', e). ends (
          record { chains = i'.chains; apart = i'.apart },
          ap (λ (x : Kernel). record x { frames = free_page (pfn_of p) x.frames }) e,
        ))

not_zombie :
    (s : TaskState) (k : Kernel) (rest : Unit {0} → M (Unit {0}))
    → s ≢ zombie
    → and_then (is_zombie s k) rest ≡ hang
not_zombie zombie k rest h = absurd (h refl)
not_zombie unset k rest h = refl
not_zombie running k rest h = refl
not_zombie active k rest h = refl
not_zombie sleeping k rest h = refl

-- free_process on a task that is no zombie stops the kernel in an assert.
pub free_process-hang :
    (n : ℕ) (p : Ptr) (k : Kernel)
    → p ≢ null
    → (k.task p).state ≢ zombie
    → free_process n p k ≡ hang
unfolding free_process
free_process-hang n p k h z =
    rw (==_ne p null h) (rw (==_ne p null h) (not_zombie (k.task p).state k _ z))
