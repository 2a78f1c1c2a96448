-- ===== src/Archive/Opened.antt =====
-- tarfs_open of sys/tarfs.c on a file that the archive has.
use plum_os.Prelude.{ℕ, ◌≡◌, Option, some, List}
use plum_os.Prelude.Int.{ℤ, pos}
use plum_os.Kernel.{put}
use plum_os.Shell.Lookup.{IsString}
use plum_os.Archive.Open.{TarfsFile, FileArray, Outcome, gives}
use plum_os.Archive.Entry.{IsEntry}

-- What tarfs_open leaves: fd i has the entry e, and all else is as before.
abbrev pub Opened : ℕ → ℕ → ℕ → List ℕ → ℕ → List ℕ → FileArray → Option (Outcome ℤ) → Type 0
Opened i p ty t n mode files o =
    (e : TarfsFile) × (o ≡ some (gives (pos i) (put files i e)))
    × IsEntry p ty t n (files i) e
    × IsString e.mode mode
