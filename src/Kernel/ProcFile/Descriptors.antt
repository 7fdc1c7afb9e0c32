-- ===== src/Kernel/ProcFile/Descriptors.antt =====
-- The descriptor table: which descriptor an open returns.
use huster_experiment_pke.Base.{
  ℕ, zero, suc, ◌+◌, ◌≤◌, ◌<◌, ◌≡◌, ◌≢◌, refl, inl, inr, true, false, none, some, arith, ltb, leb,
  Option-cases,
}
use huster_experiment_pke.Base.Int.{pos}
use huster_experiment_pke.Base.Run.{ok, panic}
use huster_experiment_pke.Kernel.Process.{update}
use huster_experiment_pke.Kernel.ProcFile.{
  max_files, fd_none, File, ProcFiles, get_opened_file, free_entry, do_open, do_opendir,
}

free_entry-found :
    (n i fd : ℕ) (f : ℕ → File)
    → free_entry n i f ≡ some fd
    → (fd < i + n) × ((f fd).status ≡ fd_none) × ((j : ℕ) → i ≤ j → j < fd → (f j).status ≢ fd_none)
unfolding free_entry
free_entry-found zero i fd f e = cc
free_entry-found (suc n) i fd f e = ground (arith, free_entry-found n (i + 1) fd f)

free_entry-none :
    (n i j : ℕ) (f : ℕ → File)
    → free_entry n i f ≡ none
    → i ≤ j
    → j < i + n
    → (f j).status ≢ fd_none
unfolding free_entry
free_entry-none zero i j f e lo hi = absurd (omega arith)
free_entry-none (suc n) i j f e lo hi = ground (arith, free_entry-none n (i + 1) j f)

-- With an entry free and less than MAX_FILES opens so far, do_open returns the lowest free descriptor,
-- which may be 0;
-- get_opened_file leads back to the file opened, and the other entries stay as they are.
pub get_opened_file-do_open :
    (p : ProcFiles) (file : File) (k : ℕ)
    → p.nfiles < max_files
    → k < max_files
    → (p.opened_files k).status ≡ fd_none
    → (fd : ℕ) × (q : ProcFiles) × (do_open (some file) p ≡ ok (pos fd) q)
      × (fd < max_files)
      × ((p.opened_files fd).status ≡ fd_none)
      × ((j : ℕ) → j < fd → (p.opened_files j).status ≢ fd_none)
      × (q.opened_files (get_opened_file (pos fd)) ≡ file)
      × ((j : ℕ) → j ≢ fd → q.opened_files j ≡ p.opened_files j)
      × (q.nfiles ≡ p.nfiles + 1)
unfolding do_open get_opened_file
get_opened_file-do_open p file k room lt free =
    let test : leb max_files p.nfiles ≡ false = ground arith in
    elim (Option-cases (free_entry max_files 0 p.opened_files)) [
      | inl e ↦ absurd (free_entry-none max_files 0 k p.opened_files e (omega arith) lt free)
      | inr (fd, e) ↦
          let (within, none_yet, before) = free_entry-found max_files 0 fd p.opened_files e in
          let known : ltb fd max_files ≡ true = ground arith in
          (
            fd,
            record { opened_files = update p.opened_files fd file; nfiles = p.nfiles + 1 },
            rw (test, e),
            within,
            none_yet,
            λ j l. before j (omega arith) l,
            rw known (ground arith),
            λ j ne. ground arith,
            refl,
          )
    ]

-- Once a process has opened MAX_FILES files do_open panics, also when every entry of the table is free
-- again; do_opendir, which does not look at the count, still returns a descriptor.
pub do_open_exhausted :
    (p : ProcFiles) (file : File)
    → max_files ≤ p.nfiles
    → ((i : ℕ) → (p.opened_files i).status ≡ fd_none)
    → (do_open (some file) p ≡ panic)
      × ((fd : ℕ) × (q : ProcFiles) × (do_opendir (some file) p ≡ ok (pos fd) q))
unfolding do_open do_opendir
do_open_exhausted p file full closed =
    let test : leb max_files p.nfiles ≡ true = ground arith in
    (
      rw test,
      elim (Option-cases (free_entry max_files 0 p.opened_files)) [
        | inl e ↦
            absurd (
              free_entry-none max_files 0 0 p.opened_files e (omega arith) (omega arith) (closed 0))
        | inr (fd, e) ↦ (
          fd,
          record { opened_files = update p.opened_files fd file; nfiles = p.nfiles + 1 },
          rw e,
        )
      ],
    )
