-- ===== src/Kernel/Rfs/Format.antt =====
-- kernel/rfs.c: formatting a RAM disk and reading its superblock when it is mounted.
pub mod Mount
use huster_experiment_pke.Base.{
  ℕ, zero, suc, ◌+◌, ◌*◌, Bool, true, false, not, arith, ◌==◌, if◌then◌else◌,
}
use huster_experiment_pke.Base.Run.{Run, ok, killed, Cmd, and_then}
use huster_experiment_pke.Kernel.Process.{update}
use huster_experiment_pke.Kernel.Ramdev.{Block, Fs}
use huster_experiment_pke.Kernel.Rfs.{
  r_dir, r_free, rfs_blk_offset_super, rfs_blk_offset_inode, rfs_blk_offset_bitmap,
  rfs_blk_offset_free, rfs_max_inode_blknum, Dinode, get_int, put_int, rfs_r1block, rfs_w1block,
  rfs_write_dinode,
}
use huster_experiment_pke.Kernel.Rfs.File.{Vinode, rfs_update_vinode}
use huster_experiment_pke.Kernel.Rfs.Dir.{new_vinode}

abbrev pub rfs_magic : ℕ
rfs_magic = 0xBEAF

-- magic, size, nblocks and ninodes; the rest of the block is what the iobuffer held
abbrev pub super_buffer : Block → Block
super_buffer b = put_int (put_int (put_int (put_int b 0 rfs_magic) 4 112) 8 100) 12 320

-- one empty disk inode; its `addrs` are left as they are
abbrev pub empty_inode : Block → ℕ → Block
empty_inode b off =
    put_int (put_int (put_int (put_int b off 0) (off + 4) r_free) (off + 8) 0) (off + 12) 0

unfoldable pub empty_inodes : ℕ → ℕ → Block → Block
empty_inodes zero i b = b
empty_inodes (suc n) i b = empty_inodes n (i + 1) (empty_inode b (i * 128))

unfoldable pub write_inode_blocks : ℕ → ℕ → Cmd Fs ℕ
write_inode_blocks zero i s = ok 0 s
write_inode_blocks (suc n) i s =
    and_then (rfs_w1block (rfs_blk_offset_inode + i) s) (λ _ s'. write_inode_blocks n (i + 1) s')

-- `stack` is what the uninitialised `addrs` of the local variable root_dinode hold
abbrev pub root_dinode : (ℕ → ℕ) → Dinode
root_dinode stack = record {
  size = 0;
  type = r_dir;
  nlinks = 1;
  blocks = 1;
  addrs = update stack 0 rfs_blk_offset_free;
}

abbrev pub first_freemap : Block
first_freemap = put_int (λ _. 0) 0 1

-- a block of empty inodes is built in the iobuffer and written to all inode blocks
unfoldable pub format_inodes : Cmd Fs ℕ
unfolding empty_inodes write_inode_blocks
format_inodes s =
    write_inode_blocks rfs_max_inode_blknum 0 (record s { iobuffer = empty_inodes 32 0 s.iobuffer })

unfoldable pub rfs_format_dev : (ℕ → ℕ) → Cmd Fs ℕ
rfs_format_dev stack s =
    and_then (rfs_w1block rfs_blk_offset_super (record s { iobuffer = super_buffer s.iobuffer }))
      (λ _ s₁. and_then (format_inodes s₁) (λ _ s₂.
        and_then (rfs_write_dinode (root_dinode stack) 0 s₂)
          (λ _ s₃. rfs_w1block rfs_blk_offset_bitmap (record s₃ { iobuffer = first_freemap }))))

-- the vinode of the root directory; bitmap and nblocks of the superblock are in the state
unfoldable pub rfs_get_superblock : Cmd Fs Vinode
rfs_get_superblock s = and_then (rfs_r1block rfs_blk_offset_super s) (λ _ s₁.
    let nblocks = get_int s₁.iobuffer 8 in
    if not (get_int s₁.iobuffer 0 == rfs_magic)
    then killed s₁
    else and_then (rfs_update_vinode (new_vinode 0) s₁) (λ root s₂.
      and_then (rfs_r1block rfs_blk_offset_bitmap s₂) (λ _ s₃.
        let bitmap = s₃.iobuffer in
        ok root (record s₃ { nblocks = nblocks; freemap = λ i. get_int bitmap (4 * i) }))))
