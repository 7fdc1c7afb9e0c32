-- ===== src/Kernel/Rfs/Write.antt =====
-- kernel/rfs.c: rfs_write, rfs_lseek, rfs_disk_stat. What `rfs_write` changes in the vinode is in its
-- result.
pub mod Bytes
use huster_experiment_pke.Base.{
  ℕ, zero, suc, ◌+◌, ◌-◌, ◌*◌, ◌/◌, ◌%◌, Bool, true, false, ◌&&◌, ◌||◌, arith, ltb, leb, ◌==◌,
  if◌then◌else◌,
}
use huster_experiment_pke.Base.Int.{ℤ, pos, ◌+ℤ◌, ltb_ℤ, pos_part, minus_one}
use huster_experiment_pke.Base.Run.{Run, ok, killed, done, Cmd, and_then}
use huster_experiment_pke.Kernel.Process.{update}
use huster_experiment_pke.Kernel.Ramdev.{Block, Fs}
use huster_experiment_pke.Kernel.Rfs.{
  copy_in, rfs_r1block, rfs_w1block, rfs_read_dinode, rfs_alloc_block,
}
use huster_experiment_pke.Kernel.Rfs.File.{Vinode}

-- `if (block_offset == f_inode->blocks)` a block is allocated for the file
abbrev pub extend : Vinode → ℕ → Cmd Fs Vinode
extend f block_offset s =
    if block_offset == f.blocks
    then and_then (rfs_alloc_block s)
        (λ a s'. ok (record f { addrs = update f.addrs block_offset a; blocks = f.blocks + 1 }) s')
    else ok f s

-- `memcpy(iobuffer, w_buf + k, n)` and the write of the block; the rest of the block is what the
-- iobuffer held
abbrev pub put_block : Vinode → ℕ → Block → ℕ → ℕ → Cmd Fs ℕ
put_block f block_offset w_buf k n s =
    rfs_w1block (f.addrs block_offset)
      (record s { iobuffer = copy_in s.iobuffer 0 (λ j. w_buf (k + j)) n })

-- `while (writetimes != 0)`, at block `block_offset` of the file and byte `k` of the writer's buffer
unfoldable pub write_blocks : ℕ → Vinode → ℕ → Block → ℕ → Cmd Fs Vinode
write_blocks zero f block_offset w_buf k s = ok f s
write_blocks (suc writetimes) f block_offset w_buf k s = and_then (extend f block_offset s) (λ g s₁.
    and_then (put_block g block_offset w_buf k 4096 s₁)
      (λ _ s₂. write_blocks writetimes g (block_offset + 1) w_buf (k + 4096) s₂))

abbrev pub write_remain : ℕ → Vinode → ℕ → Block → ℕ → Cmd Fs Vinode
write_remain remain f block_offset w_buf k s =
    if ltb 0 remain
    then and_then (extend f block_offset s)
        (λ g s₁. and_then (put_block g block_offset w_buf k remain s₁) (λ _ s₂. ok g s₂))
    else ok f s

-- the complete blocks, and the remaining data
unfoldable pub write_rest : ℕ → ℕ → Vinode → ℕ → Block → ℕ → Cmd Fs Vinode
unfolding write_blocks
write_rest writetimes remain f block_offset w_buf k s =
    and_then (write_blocks writetimes f block_offset w_buf k s)
      (λ g s'. write_remain remain g (block_offset + writetimes) w_buf (k + 4096 * writetimes) s')

-- the first block, when the offset lies within it: read, changed and written back
abbrev pub change_block : Vinode → ℕ → ℕ → Block → ℕ → Cmd Fs ℕ
change_block f block_offset align w_buf n s =
    and_then (rfs_r1block (f.addrs block_offset) s) (λ _ s'.
      rfs_w1block (f.addrs block_offset)
        (record s' { iobuffer = copy_in s'.iobuffer align w_buf n }))

unfoldable pub write_body : Vinode → Block → ℕ → ℕ → Cmd Fs Vinode
unfolding write_rest
write_body f w_buf len offset s =
    let align = offset % 4096 in
    let writetimes = (len + align) / 4096 in
    let remain = (len + align) % 4096 in
    let first = if writetimes == 0 then len else 4096 - align in
    let block_offset = offset / 4096 in
    if align == 0
    then write_rest writetimes remain f block_offset w_buf 0 s
    else and_then (change_block f block_offset align w_buf first s) (λ _ s'.
      if writetimes == 0
      then ok f s'
      else write_rest (writetimes - 1) remain f (block_offset + 1) w_buf first s')

pub record Written : Type 0 where
  pub vinode : Vinode
  pub count : ℕ
  pub offset : ℕ

unfoldable pub rfs_write : Vinode → Block → ℕ → ℕ → Cmd Fs Written
unfolding write_body
rfs_write f w_buf len offset s =
    if ltb f.size offset
    then killed s
    else and_then (write_body f w_buf len offset s) (λ g s'.
      ok
        (record {
          vinode = record g { size = if ltb g.size (offset + len) then offset + len else g.size };
          count = len;
          offset = offset + len;
        })
        s')

abbrev pub lseek_set : ℕ
lseek_set = 0

abbrev pub lseek_cur : ℕ
lseek_cur = 1

-- `target` as the new offset of a file of `size` bytes: the return value and the offset afterwards
seek_to : ℤ → ℕ → ℕ → ℤ × ℕ
seek_to target size offset =
    if ltb_ℤ target (pos 0) || ltb_ℤ (pos size) target
    then (minus_one, offset)
    else (pos 0, pos_part target)

unfoldable pub rfs_lseek : Vinode → ℤ → ℕ → ℕ → ℤ × ℕ
unfolding seek_to
rfs_lseek f new_offset whence offset =
    if whence == lseek_set
    then seek_to new_offset f.size offset
    else (if whence == lseek_cur
        then seek_to (pos offset +ℤ new_offset) f.size offset
        else (minus_one, offset))

pub record Istat : Type 0 where
  pub st_inum : ℕ
  pub st_size : ℕ
  pub st_type : ℕ
  pub st_nlinks : ℕ
  pub st_blocks : ℕ

unfoldable pub rfs_disk_stat : Vinode → Cmd Fs Istat
rfs_disk_stat v s = and_then (rfs_read_dinode v.inum s) (λ d s'.
    ok
      (record {
        st_inum = v.inum;
        st_size = d.size;
        st_type = d.type;
        st_nlinks = d.nlinks;
        st_blocks = d.blocks;
      })
      s')
