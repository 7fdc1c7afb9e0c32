-- ===== src/Kernel/Ramdev.antt =====
-- kernel/ramdev.c: reading and writing one block of the RAM disk through the device's iobuffer.
use huster_experiment_pke.Base.{ℕ, leb, if◌then◌else◌}
use huster_experiment_pke.Base.Run.{ok, killed, Cmd}
use huster_experiment_pke.Kernel.Process.{update}

-- the bytes of a block
abbrev pub Block : Type 0
Block = ℕ → ℕ

-- A RAM disk (`d_address` as an array of blocks, and its iobuffer) and the two fields of the
-- super_block mounted on it that change or bound its use: the bitmap s_fs_info and nblocks.
pub record Fs : Type 0 where
  pub disk : ℕ → Block
  pub iobuffer : Block
  pub freemap : ℕ → ℕ
  pub nblocks : ℕ

abbrev pub ramdisk_block_count : ℕ
ramdisk_block_count = 128

-- A block number is the bit pattern of an `int`; a negative one is out of range as well.
abbrev pub ramdisk_write : ℕ → Cmd Fs ℕ
ramdisk_write blkno s =
    if leb ramdisk_block_count blkno
    then killed s
    else ok 0 (record s { disk = update s.disk blkno s.iobuffer })

abbrev pub ramdisk_read : ℕ → Cmd Fs ℕ
ramdisk_read blkno s =
    if leb ramdisk_block_count blkno then killed s else ok 0 (record s { iobuffer = s.disk blkno })
