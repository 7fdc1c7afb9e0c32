-- ===== src/Kernel/Rfs/File.antt =====
-- kernel/rfs.c: reading, writing and seeking in a file. Offsets and lengths are natural numbers below
-- the ranges of `int` and `ssize_t`.
pub mod Buffer
pub mod Read
use huster_experiment_pke.Base.{
  ℕ, zero, suc, ◌+◌, ◌-◌, ◌*◌, ◌/◌, ◌%◌, Bool, true, false, ◌&&◌, ◌||◌, Option, none, some, arith,
  ltb, leb, ◌==◌, if◌then◌else◌,
}
use huster_experiment_pke.Base.Int.{ℤ, pos, ◌+ℤ◌, ltb_ℤ, pos_part}
use huster_experiment_pke.Base.Run.{Run, ok, killed, done, Cmd, and_then}
use huster_experiment_pke.Kernel.Process.{update}
use huster_experiment_pke.Kernel.Ramdev.{Block, Fs}
use huster_experiment_pke.Kernel.Rfs.{
  Dinode, copy_in, rfs_r1block, rfs_w1block, rfs_read_dinode, rfs_write_dinode, rfs_alloc_block,
}

-- struct vinode, less its pointers
pub record Vinode : Type 0 where
  pub inum : ℕ
  pub size : ℕ
  pub type : ℕ
  pub nlinks : ℕ
  pub blocks : ℕ
  pub addrs : ℕ → ℕ

-- the vinode's information as a disk inode
abbrev pub dinode_of : Vinode → Dinode
dinode_of v = record {
  size = v.size;
  type = v.type;
  nlinks = v.nlinks;
  blocks = v.blocks;
  addrs = v.addrs;
}

unfoldable pub rfs_write_back_vinode : Vinode → Cmd Fs ℕ
rfs_write_back_vinode v s = rfs_write_dinode (dinode_of v) v.inum s

abbrev pub with_dinode : Vinode → Dinode → Vinode
with_dinode v d = record v {
  size = d.size;
  nlinks = d.nlinks;
  blocks = d.blocks;
  type = d.type;
  addrs = d.addrs;
}

unfoldable pub rfs_update_vinode : Vinode → Cmd Fs Vinode
rfs_update_vinode v s = and_then (rfs_read_dinode v.inum s) (λ d s'. ok (with_dinode v d) s')

-- strcpy(dst, src), `n` being more than the number of bytes before the NUL of `src` from `i` on
unfoldable pub strcpy_from : ℕ → ℕ → Block → Block → Block
strcpy_from zero i dst src = dst
strcpy_from (suc n) i dst src =
    let rest = strcpy_from n (i + 1) (update dst i (src i)) src in
    if src i == 0 then update dst i 0 else rest

-- the local variables of rfs_read that its loop changes
pub record Cursor : Type 0 where
  pub buffer : Block
  pub buf_offset : ℕ
  pub block_offset : ℕ

-- `while (readtimes != 0)`
unfoldable pub read_blocks : ℕ → (ℕ → ℕ) → Cursor → Cmd Fs Cursor
read_blocks zero addrs c s = ok c s
read_blocks (suc readtimes) addrs c s = and_then (rfs_r1block (addrs c.block_offset) s) (λ _ s'.
    read_blocks readtimes addrs
      (record {
        buffer = copy_in c.buffer c.buf_offset s'.iobuffer 4096;
        buf_offset = c.buf_offset + 4096;
        block_offset = c.block_offset + 1;
      })
      s')

-- the part behind the complete blocks
read_remain : (ℕ → ℕ) → ℕ → Cursor → Cmd Fs Block
read_remain addrs remain c s =
    if ltb 0 remain
    then and_then (rfs_r1block (addrs c.block_offset) s)
        (λ _ s'. ok (copy_in c.buffer c.buf_offset s'.iobuffer remain) s')
    else ok c.buffer s

-- the bytes that rfs_read collects in `buffer`, which starts uninitialised
unfoldable pub read_buffer : (ℕ → ℕ) → ℕ → ℕ → Block → Cmd Fs Block
unfolding read_remain read_blocks
read_buffer addrs offset len buffer s =
    let align = offset % 4096 in
    let readtimes = (align + len) / 4096 in
    let first = if readtimes == 0 then len else 4096 - align in
    and_then (rfs_r1block (addrs (offset / 4096)) s) (λ _ s'.
      let b = copy_in buffer 0 (λ j. s'.iobuffer (align + j)) first in
      if readtimes == 0
      then ok b s'
      else and_then
          (read_blocks (readtimes - 1) addrs
            (record { buffer = b; buf_offset = first; block_offset = offset / 4096 + 1 }) s')
          (read_remain addrs ((align + len) % 4096)))

pub record Transfer : Type 0 where
  pub buf : Block
  pub count : ℕ
  pub offset : ℕ

abbrev pub read_count : Vinode → ℕ → ℕ → ℕ
read_count f len offset = if ltb f.size (offset + len) then f.size - offset else len

-- `r_buf` before the call is an argument, and what it holds after the call is in the result.
unfoldable pub rfs_read : Vinode → Block → ℕ → ℕ → Cmd Fs Transfer
unfolding strcpy_from read_buffer
rfs_read f r_buf len offset s =
    let count = read_count f len offset in
    if ltb f.size offset
    then killed s
    else and_then (read_buffer f.addrs offset count (λ _. 0) s) (λ b s'.
      ok
        (record {
          buf = strcpy_from (count + 1) 0 r_buf (update b count 0);
          count = count;
          offset = offset + count;
        })
        s')
