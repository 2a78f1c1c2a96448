-- ===== src/TaskList/Add.antt =====
-- add_to_tasklist of sys/process.c on a well-formed list.
use plum_os.Prelude.{◌≡◌, refl, ◌≢◌, false, List, ◌∷◌, arith, has, ==_refl, sym, subst}
use plum_os.Kernel.{Ptr, null, Head, Kernel, Run, ok, fault, hang, out_of_fuel, put, put}
use plum_os.TaskList.{add_to_tasklist}
use plum_os.TaskList.Chain.{Chain, Chain-cons}

-- What add_to_tasklist leaves behind: ts stands in front, and nothing else has moved.
abbrev pub Added : Head → Ptr → List Ptr → Kernel → Run (Unit {0}) → Type 0
Added l ts xs k (ok r g) =
    Chain g.next (g.head l) (ts ∷ xs)
    × ((q : Ptr) → q ≢ ts → g.next q ≡ k.next q)
    × ((m : Head) → l ≢ m → g.head m ≡ k.head m)
    × (record g { next = k.next; head = k.head } ≡ k)
Added l ts xs k fault = ⊥
Added l ts xs k hang = ⊥
Added l ts xs k out_of_fuel = ⊥

add_to_tasklist-eq :
    (l : Head) (ts : Ptr) (k : Kernel)
    → ts ≢ null
    → add_to_tasklist l ts k
      ≡ ok tt (record k { next = put k.next ts (k.head l); head = put k.head l ts })
unfolding add_to_tasklist
add_to_tasklist-eq l ts k h = ground arith

-- A task that is not NULL and not on the list yet becomes its first.
pub add_to_tasklist-Added :
    (l : Head) (ts : Ptr) (k : Kernel) (xs : List Ptr)
    → ts ≢ null
    → has ts xs ≡ false
    → Chain k.next (k.head l) xs
    → Added l ts xs k (add_to_tasklist l ts k)
add_to_tasklist-Added l ts k xs h o c =
    subst (Added l ts xs k) (sym (add_to_tasklist-eq l ts k h)) (
      subst (λ p. Chain (put k.next ts (k.head l)) p (ts ∷ xs)) (rw ==_refl)
          (Chain-cons k.next ts (k.head l) xs h o c),
      λ q ne. ground arith,
      λ m ne. ground arith,
      refl,
    )
