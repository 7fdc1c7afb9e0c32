-- ===== src/Kernel/ProcFile.antt =====
-- kernel/proc_file.c: the open files of a process. What vfs_open and vfs_opendir return is an argument,
-- `none` for NULL; the path walk is not modelled.
pub mod Descriptors
mod Tests
use huster_experiment_pke.Base.{
  ℕ, zero, suc, ◌+◌, ◌-◌, Bool, true, false, not, Option, none, some, arith, ltb, leb, ◌==◌,
  if◌then◌else◌,
}
use huster_experiment_pke.Base.Int.{ℤ, pos, negsuc, minus_one}
use huster_experiment_pke.Base.Run.{Run, ok, panic, Cmd}
use huster_experiment_pke.Kernel.Process.{update}
use huster_experiment_pke.Kernel.Rfs.{r_file}
use huster_experiment_pke.Kernel.Rfs.File.{Vinode}
use huster_experiment_pke.Kernel.Rfs.Write.{Istat}

abbrev pub max_files : ℕ
max_files = 128

abbrev pub fd_none : ℕ
fd_none = 0

abbrev pub fd_opened : ℕ
fd_opened = 1

-- struct file; the dentry is its address
pub record File : Type 0 where
  pub status : ℕ
  pub readable : ℕ
  pub writable : ℕ
  pub offset : ℕ
  pub f_dentry : ℕ

pub record ProcFiles : Type 0 where
  pub opened_files : ℕ → File
  pub nfiles : ℕ

-- the status of every entry of a page that held `old` before
unfoldable pub init_proc_file_management : (ℕ → File) → ProcFiles
init_proc_file_management old = record {
  opened_files = λ i. record (old i) { status = fd_none };
  nfiles = 0;
}

-- The index of the entry that get_opened_file points to. Its loop ends at the last entry for an `fd`
-- that is none of the table's, and the test for NULL does not see this.
unfoldable pub get_opened_file : ℤ → ℕ
get_opened_file (pos n) = if ltb n max_files then n else max_files - 1
get_opened_file (negsuc n) = max_files - 1

-- the first free entry from `i` on, `n` entries being left
pub free_entry : ℕ → ℕ → (ℕ → File) → Option ℕ
free_entry zero i f = none
free_entry (suc n) i f = elim ((f i).status == fd_none) [
  | true ↦ some i
  | false ↦ free_entry n (i + 1) f
]

-- without a free entry the loop ends with `fd` MAX_FILES and the pointer to the last entry
abbrev pub install : Option ℕ → File → ProcFiles → ℤ × ProcFiles
install (some fd) file p =
    (pos fd, record { opened_files = update p.opened_files fd file; nfiles = p.nfiles + 1 })
install none file p = (
  pos max_files,
  record { opened_files = update p.opened_files (max_files - 1) file; nfiles = p.nfiles + 1 },
)

unfoldable pub do_open : Option File → Cmd ProcFiles ℤ
unfolding free_entry
do_open none p = ok minus_one p
do_open (some file) p =
    let r = install (free_entry max_files 0 p.opened_files) file p in
    if leb max_files p.nfiles then panic else ok r.0 r.1

-- the panic is on the status of the last entry that the loop has seen
abbrev pub install_dir : Option ℕ → File → ProcFiles → Run ProcFiles ℤ
install_dir (some fd) file p = ok (install (some fd) file p).0 (install (some fd) file p).1
install_dir none file p = panic

unfoldable pub do_opendir : Option File → Cmd ProcFiles ℤ
unfolding free_entry
do_opendir none p = ok minus_one p
do_opendir (some file) p = install_dir (free_entry max_files 0 p.opened_files) file p

abbrev pub is_zero : ℤ → Bool
is_zero (pos n) = n == 0
is_zero (negsuc n) = false

-- What the file of a dentry is: the inode's type, its vinode, and viop_lseek of its file system, which
-- takes the offset asked for, `whence` and the file's offset.
pub record Inode : Type 0 where
  pub vinode : Vinode
  pub viop_lseek : ℤ → ℕ → ℕ → ℤ × ℕ

unfoldable pub vfs_lseek : Inode → File → ℤ → ℕ → ℤ × File
vfs_lseek node file offset whence =
    let r = node.viop_lseek offset whence file.offset in
    if not (node.vinode.type == r_file)
    then (minus_one, file)
    else (if is_zero r.0 then pos r.1 else minus_one, record file { offset = r.1 })

unfoldable pub do_lseek : (ℕ → Inode) → ℤ → ℤ → ℕ → ProcFiles → ℤ × ProcFiles
do_lseek node fd offset whence p =
    let i = get_opened_file fd in
    let file = p.opened_files i in
    let r = vfs_lseek (node file.f_dentry) file offset whence in
    (r.0, record p { opened_files = update p.opened_files i r.1 })

unfoldable pub vfs_stat : Inode → Istat
vfs_stat node = record {
  st_inum = node.vinode.inum;
  st_size = node.vinode.size;
  st_type = node.vinode.type;
  st_nlinks = node.vinode.nlinks;
  st_blocks = node.vinode.blocks;
}

unfoldable pub do_stat : (ℕ → Inode) → ℤ → ProcFiles → Istat
do_stat node fd p = vfs_stat (node (p.opened_files (get_opened_file fd)).f_dentry)

-- the argument for the offset is not used; the count of the dentry is in the second component
unfoldable pub alloc_vfs_file : ℕ → ℕ → ℕ → ℕ → File × ℕ
alloc_vfs_file file_dentry d_ref readable writable = (
  record {
    status = fd_opened;
    readable = readable;
    writable = writable;
    offset = 0;
    f_dentry = file_dentry;
  },
  d_ref + 1,
)
