-- ===== src/Examples/Pages.antt =====
-- The page allocator at concrete states.
use plum_os.Prelude.{ℕ, ◌^◌, ◌≤◌, ◌≡◌, refl, ◌≢◌, some, arith, ◌==◌, if◌then◌else◌}
use plum_os.Frames.{Frames, get_free_page, free_page, mark_busy, set_ref, get_free_page_loop}
use plum_os.Frames.Alloc.{
  Allocates, get_free_page-Allocates, get_free_page-free_page, get_free_page_twice,
}

-- Pages 0 to 672 are in use.
abbrev booted : Frames
booted = record { ref = λ p. if p == 673 then 0 else 1; bitmap = λ i. 0; shl_int = λ k. 2 ^ k }

get_free_page-Allocates_example : Allocates 671 32766 booted (get_free_page booted)
get_free_page-Allocates_example = get_free_page-Allocates booted

get_free_page-free_page_example :
    (r : ℕ × Frames) × (get_free_page (free_page 700 booted) ≡ some r) × (r.0 ≤ 700)
get_free_page-free_page_example =
    get_free_page-free_page 700 booted (omega arith) (omega arith) refl

-- Every page is free.
abbrev vacant : Frames
vacant = record { ref = λ p. 0; bitmap = λ i. 0; shl_int = λ k. 2 ^ k }

abbrev vacant_after : ℕ → Frames → Frames
vacant_after p s = mark_busy p (set_ref p 1 s)

get_free_page_twice_example :
    let t = vacant_after 671 vacant in
    let u = vacant_after 672 t in
    (◌≢◌ {A = ℕ} 671 672)
    × (u.ref 671 ≡ 1)
    × (u.ref 672 ≡ 1)
    × ((k : ℕ) → vacant.ref k ≢ 0 → u.ref k ≡ vacant.ref k)
unfolding get_free_page get_free_page_loop mark_busy
get_free_page_twice_example =
    get_free_page_twice vacant (vacant_after 671 vacant)
      (vacant_after 672 (vacant_after 671 vacant)) 671 672 refl refl
