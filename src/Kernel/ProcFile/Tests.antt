-- ===== src/Kernel/ProcFile/Tests.antt =====
-- The descriptor table of a process that has just started, and of one that has opened 128 files.
use huster_experiment_pke.Base.{ℕ, ◌<◌, ◌≡◌, ◌≢◌, refl, some, arith}
use huster_experiment_pke.Base.Int.{pos}
use huster_experiment_pke.Base.Run.{ok}
use huster_experiment_pke.Kernel.ProcFile.{
  max_files, fd_none, fd_opened, File, ProcFiles, get_opened_file, do_open,
}
use huster_experiment_pke.Kernel.ProcFile.Descriptors.{get_opened_file-do_open}

abbrev closed : File
closed = record { status = fd_none; readable = 0; writable = 0; offset = 0; f_dentry = 0 }

abbrev file : File
file = record { status = fd_opened; readable = 1; writable = 0; offset = 0; f_dentry = 64 }

abbrev files : ℕ → ProcFiles
files n = record { opened_files = λ i. closed; nfiles = n }

get_opened_file-do_open_example :
    (fd : ℕ) × (q : ProcFiles) × (do_open (some file) (files 0) ≡ ok (pos fd) q)
    × (fd < max_files)
    × (((files 0).opened_files fd).status ≡ fd_none)
    × ((j : ℕ) → j < fd → ((files 0).opened_files j).status ≢ fd_none)
    × (q.opened_files (get_opened_file (pos fd)) ≡ file)
    × ((j : ℕ) → j ≢ fd → q.opened_files j ≡ (files 0).opened_files j)
    × (q.nfiles ≡ 1)
get_opened_file-do_open_example =
    get_opened_file-do_open (files 0) file 5 (omega arith) (omega arith) refl
