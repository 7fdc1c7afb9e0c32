-- ===== src/Kernel/Rfs.antt =====
-- kernel/rfs.c: the disk inodes and the bitmap of the RAM disk file system. An `int` on disk is four
-- bytes, least significant first; it is its bit pattern here, since sizes, block and inode numbers are
-- never negative. The pages that the functions allocate for temporary copies and give back again are
-- not modelled, nor that there may be none left.
pub mod Layout
mod Tests
pub mod Bitmap
pub mod File
pub mod Write
pub mod Dir
pub mod Unlink
pub mod Format
use huster_experiment_pke.Base.{
  ℕ, zero, suc, ◌+◌, ◌-◌, ◌*◌, ◌/◌, ◌%◌, Bool, true, false, ◌&&◌, Option, none, some, arith, ltb,
  leb, ◌==◌, if◌then◌else◌,
}
use huster_experiment_pke.Base.Run.{Run, ok, fault, killed, done, Cmd, and_then}
use huster_experiment_pke.Kernel.Process.{update}
use huster_experiment_pke.Kernel.Ramdev.{Block, Fs, ramdisk_read, ramdisk_write}

abbrev pub r_file : ℕ
r_file = 0

abbrev pub r_dir : ℕ
r_dir = 1

abbrev pub r_free : ℕ
r_free = 2

abbrev pub rfs_blk_offset_super : ℕ
rfs_blk_offset_super = 0

abbrev pub rfs_blk_offset_inode : ℕ
rfs_blk_offset_inode = 1

abbrev pub rfs_blk_offset_bitmap : ℕ
rfs_blk_offset_bitmap = 11

abbrev pub rfs_blk_offset_free : ℕ
rfs_blk_offset_free = 12

abbrev pub rfs_max_inode_blknum : ℕ
rfs_max_inode_blknum = 10

abbrev pub rfs_direct_blknum : ℕ
rfs_direct_blknum = 10

-- struct rfs_dinode; of `addrs` the first ten entries are on disk
pub record Dinode : Type 0 where
  pub size : ℕ
  pub type : ℕ
  pub nlinks : ℕ
  pub blocks : ℕ
  pub addrs : ℕ → ℕ

-- the `int` at `off` of a block
abbrev pub get_int : Block → ℕ → ℕ
get_int b off = b off + 256 * b (off + 1) + 65536 * b (off + 2) + 16777216 * b (off + 3)

-- byte `i` of the `int` `v`
abbrev pub int_byte : ℕ → ℕ → ℕ
int_byte v zero = v % 256
int_byte v (suc zero) = v / 256 % 256
int_byte v (suc (suc zero)) = v / 65536 % 256
int_byte v (suc (suc (suc i))) = v / 16777216 % 256

-- the fields of a disk inode in the order of its declaration
abbrev pub field : Dinode → ℕ → ℕ
field d zero = d.size
field d (suc zero) = d.type
field d (suc (suc zero)) = d.nlinks
field d (suc (suc (suc zero))) = d.blocks
field d (suc (suc (suc (suc i)))) = d.addrs i

-- memcpy(b + off, src, len)
abbrev pub copy_in : Block → ℕ → (ℕ → ℕ) → ℕ → Block
copy_in b off src len x = if leb off x && ltb x (off + len) then src (x - off) else b x

abbrev pub put_int : Block → ℕ → ℕ → Block
put_int b off v = copy_in b off (int_byte v) 4

-- the 56 bytes of a disk inode
abbrev pub dinode_byte : Dinode → ℕ → ℕ
dinode_byte d j = int_byte (field d (j / 4)) (j % 4)

abbrev pub dinode_at : Block → ℕ → Dinode
dinode_at b off = record {
  size = get_int b off;
  type = get_int b (off + 4);
  nlinks = get_int b (off + 8);
  blocks = get_int b (off + 12);
  addrs = λ i. get_int b (off + 16 + 4 * i);
}

abbrev pub rfs_r1block : ℕ → Cmd Fs ℕ
rfs_r1block n_block = ramdisk_read n_block

abbrev pub rfs_w1block : ℕ → Cmd Fs ℕ
rfs_w1block n_block = ramdisk_write n_block

-- where inode `n` is: 32 inodes of 128 bytes in a block
abbrev pub inode_block : ℕ → ℕ
inode_block n = n / 32 + rfs_blk_offset_inode

abbrev pub inode_offset : ℕ → ℕ
inode_offset n = n % 32 * 128

-- The NULL that the code returns when the device reports an error is not reached: the RAM disk
-- reports none.
unfoldable pub rfs_read_dinode : ℕ → Cmd Fs Dinode
rfs_read_dinode n_inode s =
    and_then (rfs_r1block (inode_block n_inode) s)
      (λ _ s'. ok (dinode_at s'.iobuffer (inode_offset n_inode)) s')

unfoldable pub rfs_write_dinode : Dinode → ℕ → Cmd Fs ℕ
rfs_write_dinode dinode n_inode s = and_then (rfs_r1block (inode_block n_inode) s) (λ _ s'.
    rfs_w1block (inode_block n_inode)
      (record s' { iobuffer = copy_in s'.iobuffer (inode_offset n_inode) (dinode_byte dinode) 56 }))

-- the first zero of the bitmap from `i` on, `n` entries being left
pub find_block : ℕ → ℕ → (ℕ → ℕ) → Option ℕ
find_block zero i f = none
find_block (suc n) i f = elim (f i == 0) [ true ↦ some i | false ↦ find_block n (i + 1) f ]

take_block : Option ℕ → Cmd Fs ℕ
take_block none s = killed s
take_block (some b) s = ok (rfs_blk_offset_free + b) (record s { freemap = update s.freemap b 1 })

unfoldable pub rfs_alloc_block : Cmd Fs ℕ
unfolding take_block find_block
rfs_alloc_block s = take_block (find_block s.nblocks 0 s.freemap) s

-- a block in front of the data blocks has no entry in the bitmap
unfoldable pub rfs_free_block : ℕ → Cmd Fs ℕ
rfs_free_block block_num s =
    if ltb block_num rfs_blk_offset_free
    then fault
    else ok 0 (record s { freemap = update s.freemap (block_num - rfs_blk_offset_free) 0 })
