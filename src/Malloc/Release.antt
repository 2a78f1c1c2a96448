-- ===== src/Malloc/Release.antt =====
-- free of libc/malloc.c, for the program, and free after malloc.
use mathlib.Core.List.{append_assoc}
use plum_os.Prelude.{
  ℕ, ◌+◌, ◌*◌, ◌^◌, ◌≤◌, ◌<◌, ◌≡◌, ◌≢◌, refl, sym, ap, ◌∙◌, subst, false, List, [], ◌∷◌, ◌++◌, ◌==◌,
  ==_ne, ==_refl, ==_iff, Bool-cases, inl, inr, if◌then◌else◌, arith, if_both, some, none, length,
}
use plum_os.Kernel.{Ptr}
use plum_os.Malloc.{Heap, Words, free, malloc, adjusted}
use plum_os.Malloc.Blocks.{Block, size_of, total, total-append}
use plum_os.Malloc.Coalesce.{merge}
use plum_os.Malloc.Join.{Tiled, absorb, join}
use plum_os.Malloc.Place.{freed, free-join}
use plum_os.Malloc.Fit.{prologue, first_fit}
use plum_os.Malloc.Held.{
  held, held-marked, held-join, held-absorb, AllSized, Blocks-AllSized, held-Holds,
}
use plum_os.Malloc.Serve.{IsHeap, Grants}
use plum_os.Malloc.Taken.{Serves}
use plum_os.Malloc.Answer.{units_added, malloc-Serves}

absorb_total : (b : Block) (ys : List Block) → total (absorb b ys) ≡ size_of b + total ys
absorb_total b [] = refl
absorb_total b (n ∷ ys) =
    if_both (λ z. total z ≡ size_of b + total (n ∷ ys)) n.used (λ e. refl) (λ e. omega arith)

join_total :
    (p b : Block) (ys : List Block) → total (join p b ys) ≡ size_of p + (size_of b + total ys)
join_total p b ys =
    if_both (λ z. total z ≡ size_of p + (size_of b + total ys)) p.used
      (λ e. omega (arith, absorb_total b ys)) (λ e. omega (arith, absorb_total (merge p b) ys))

AllSized-right : (xs ys : List Block) → AllSized (xs ++ ys) → AllSized ys
AllSized-right [] ys h = h
AllSized-right (x ∷ xs) ys h = AllSized-right xs ys h.1

record LastOf (bs : List Block) : Type 0 where
  zs : List Block
  p : Block
  parts : bs ≡ zs ++ (p ∷ [])

last_of : (x : Block) (xs : List Block) → LastOf (x ∷ xs)
last_of x [] = record { zs = []; p = x; parts = refl }
last_of x (y ∷ xs) =
    let r = last_of y xs in
    record { zs = x ∷ r.zs; p = r.p; parts = ap (λ (z : List Block). x ∷ z) r.parts }

-- What free makes of the blocks xs, b and ys: the words for them, and the same held bytes
record Freed (w : Words) (s : Ptr) (xs : List Block) (b : Block) (ys cs : List Block) : Type 0 where
  tiled : Tiled w s (prologue ∷ cs)
  length_kept : total cs ≡ total (xs ++ (b ∷ ys))
  alike : (o : ℕ) → held cs o ≡ held (xs ++ (freed b ∷ ys)) o

sized_from :
    (w : Words) (s : Ptr) (xs : List Block) (b : Block) (ys : List Block)
    → Tiled w s (prologue ∷ (xs ++ (b ∷ ys)))
    → AllSized (b ∷ ys)
sized_from w s xs b ys t =
    AllSized-right xs (b ∷ ys) (Blocks-AllSized w s (prologue ∷ (xs ++ (b ∷ ys))) t.blocks).1

free_behind :
    (w : Words) (s : Ptr) (xs : List Block) (b : Block) (ys : List Block)
    → Tiled w s (prologue ∷ (xs ++ (b ∷ ys)))
    → (cs : List Block) × Freed (free (s + (8 + total xs)) w) s xs b ys cs
free_behind w s [] b ys t = (
  absorb (freed b) ys,
  record {
    tiled =
        subst (λ z. Tiled (free z w) s (prologue ∷ absorb (freed b) ys)) (omega arith)
          (free-join w s [] ys prologue b t);
    length_kept = absorb_total (freed b) ys;
    alike = held-absorb (freed b) ys refl (sized_from w s [] b ys t).1;
  },
)
free_behind w s (x ∷ xs) b ys t =
    let l = last_of x xs in
    let shape =
      ap (λ (z : List Block). z ++ (b ∷ ys)) l.parts ∙ append_assoc l.zs (l.p ∷ []) (b ∷ ys) in
    let shape2 =
      ap (λ (z : List Block). z ++ (freed b ∷ ys)) l.parts
      ∙ append_assoc l.zs (l.p ∷ []) (freed b ∷ ys) in
    let len = ap total l.parts in
    (
      l.zs ++ join l.p (freed b) ys,
      record {
        tiled =
            subst (λ z. Tiled (free z w) s (prologue ∷ (l.zs ++ join l.p (freed b) ys)))
              (omega (arith, len, total-append l.zs (l.p ∷ [])))
              (free-join w s (prologue ∷ l.zs) ys l.p b
                (subst (λ (z : List Block). Tiled w s (prologue ∷ z)) shape t));
        length_kept =
            total-append l.zs (join l.p (freed b) ys)
            ∙ ap (λ z. total l.zs + z) (join_total l.p (freed b) ys)
            ∙ sym (total-append l.zs (l.p ∷ (b ∷ ys)))
            ∙ ap total (sym shape);
        alike = λ o.
            held-join l.zs ys l.p (freed b) refl (sized_from w s (x ∷ xs) b ys t) o
            ∙ ap (λ z. held z o) (sym shape2);
      },
    )

-- From h, which held the blocks bs, to t: nothing is held at offset o, and all else is what it was.
pub record Releases (o : ℕ) (h : Heap) (bs : List Block) (t : Heap) (cs : List Block) : Type 0 where
  pub heap : IsHeap t cs
  pub gone : held cs o ≡ 0
  pub others : (i : ℕ) → i ≢ o → held cs i ≡ held bs i

abbrev pub after_free : Ptr → Heap → Heap
after_free p h = record h { word = free p h.word }

freed_block :
    (h : Heap) (xs : List Block) (b : Block) (ys : List Block)
    → IsHeap h (xs ++ (b ∷ ys))
    → (cs : List Block) × Releases
        (total xs)
        h
        (xs ++ (b ∷ ys))
        (after_free (h.heap_listp + (8 + total xs)) h)
        cs
freed_block h xs b ys i =
    let f = free_behind h.word h.heap_listp xs b ys i.tiled in
    let r = f.1 in
    let at : (o : ℕ)
        → held (xs ++ (freed b ∷ ys)) o ≡ (if o == total xs then 0 else held (xs ++ (b ∷ ys)) o) =
      λ o.
        held-marked false xs ys b o
          (Blocks-AllSized h.word h.heap_listp (prologue ∷ (xs ++ (b ∷ ys))) i.tiled.blocks).1 in
    (
      f.0,
      record {
        heap = record {
          tiled = r.tiled;
          aligned = i.aligned;
          at_break = omega (arith, i.at_break, r.length_kept);
          ready = i.ready;
        };
        gone = r.alike (total xs) ∙ at (total xs) ∙ rw (==_refl (total xs)) refl;
        others = λ o ne. r.alike o ∙ at o ∙ rw (==_ne o (total xs) ne) refl;
      },
    )

-- free of a block that the program holds on a heap that is set up: the block is no longer held, all other
-- blocks that the program holds are what they were, and the heap stays well-formed.
pub free-Releases :
    (h : Heap) (bs : List Block) (o : ℕ)
    → IsHeap h bs
    → held bs o ≢ 0
    → (cs : List Block) × Releases o h bs (after_free (h.heap_listp + (8 + o)) h) cs
free-Releases h bs o i ne =
    let r = held-Holds bs o ne in
    subst (λ z. (cs : List Block) × Releases z h bs (after_free (h.heap_listp + (8 + z)) h) cs)
      r.at_offset
      (subst
        (λ z.
          (cs : List Block) × Releases (total r.xs) h z
            (after_free (h.heap_listp + (8 + total r.xs)) h) cs)
        (sym r.parts) (freed_block h r.xs r.b r.ys (subst (IsHeap h) r.parts i)))

cancelled :
    (size a : ℕ) (h t u : Heap) (bs cs ds : List Block)
    → Serves size a h bs t cs
    → Releases a t cs u ds
    → (o : ℕ) → held ds o ≡ held bs o
cancelled size a h t u bs cs ds s r o = elim (Bool-cases (o == a)) [
  | inl e ↦ subst (λ z. held ds z ≡ held bs z) (sym ((==_iff o a).0 e)) (r.gone ∙ sym s.fresh)
  | inr e ↦ r.others o (apart e) ∙ s.others o (apart e)
]
  where
    apart : (o == a) ≡ false → o ≢ a
    apart e k = grind arith

free_answer :
    (size a : ℕ) (h t : Heap) (bs cs : List Block)
    → 1 ≤ size
    → Serves size a h bs t cs
    → (ds : List Block) × IsHeap (after_free (h.heap_listp + (8 + a)) t) ds
      × ((o : ℕ) → held ds o ≡ held bs o)
free_answer size a h t bs cs asks s =
    let f = free-Releases t cs a s.heap (λ e. absurd (omega (arith, s.enough))) in
    (
      f.0,
      subst (λ z. IsHeap (after_free (z + (8 + a)) t) f.0) s.same_start f.1.heap,
      cancelled size a h t (after_free (t.heap_listp + (8 + a)) t) bs cs f.0 s f.1,
    )

-- malloc, of a request as for malloc-Serves, and free of its result leave what the program holds as it was,
-- at every offset, in a heap that is well-formed.
pub free-malloc :
    (sys_brk : ℕ → ℕ → ℕ) (fuel size : ℕ) (h : Heap) (bs : List Block)
    → IsHeap h bs
    → 1 ≤ size
    → size + 15 < 2 ^ 64
    → length bs < fuel
    → (first_fit (adjusted size) bs ≡ none
        → Grants sys_brk h.curbrk × (h.curbrk + units_added size * 8 ≤ 2 ^ 30))
    → (p : Ptr) × (t : Heap) × (cs : List Block) × (malloc sys_brk fuel size h ≡ some (p, t))
      × IsHeap (after_free p t) cs
      × ((o : ℕ) → held cs o ≡ held bs o)
free-malloc sys_brk fuel size h bs i asks small fueled room =
    let (a, t, cs, got, s) = malloc-Serves sys_brk fuel size h bs i asks small fueled room in
    let f = free_answer size a h t bs cs asks s in (h.heap_listp + (8 + a), t, f.0, got, f.1, f.2)
