-- ===== src/Kernel/Rfs/Write/Bytes.antt =====
-- What rfs_write leaves in the file, byte by byte, and where rfs_lseek moves the offset.
use native.Mathlib.Decide.{ℕ_discrete}
use huster_experiment_pke.Base.{
  ℕ, ◌+◌, ◌/◌, ◌%◌, ◌≤◌, ◌<◌, ◌≡◌, ◌≢◌, refl, ◌∙◌, true, false, arith, ltb, leb, ◌==◌,
  if◌then◌else◌, ◌⊎◌,
}
use huster_experiment_pke.Base.Int.{ℤ, pos, ◌+ℤ◌, minus_one, ◌≤ℤ◌}
use huster_experiment_pke.Base.Run.{ok}
use huster_experiment_pke.Kernel.Process.{update}
use huster_experiment_pke.Kernel.Ramdev.{Block, Fs}
use huster_experiment_pke.Kernel.Rfs.{copy_in}
use huster_experiment_pke.Kernel.Rfs.File.{Vinode}
use huster_experiment_pke.Kernel.Rfs.File.Buffer.{content}
use huster_experiment_pke.Kernel.Rfs.Write.{
  write_blocks, write_rest, write_body, Written, rfs_write, rfs_lseek, seek_to, lseek_set,
  lseek_cur,
}

-- the offset that a call of lseek asks for
abbrev pub target : ℤ → ℕ → ℕ → ℤ
target new_offset whence offset =
    if whence == lseek_set then new_offset else pos offset +ℤ new_offset

-- rfs_lseek with a known `whence` moves the offset to the place asked for when it lies within the file;
-- in every other case it fails with -1 and leaves the offset alone.
pub rfs_lseek_in_file :
    (f : Vinode) (new_offset : ℤ) (whence offset : ℕ)
    → ((n : ℕ)
        → n ≤ f.size
        → whence ≤ lseek_cur
        → target new_offset whence offset ≡ pos n
        → rfs_lseek f new_offset whence offset ≡ (pos 0, n))
      × ((lseek_cur < whence)
            ⊎ ((pos f.size +ℤ pos 1 ≤ℤ target new_offset whence offset)
                ⊎ (target new_offset whence offset ≤ℤ minus_one))
          → rfs_lseek f new_offset whence offset ≡ (minus_one, offset))
unfolding rfs_lseek seek_to
rfs_lseek_in_file f new_offset whence offset = (λ n le w e. ground arith, λ h. ground arith)

-- the device after the bytes of one block were changed
changed : Fs → ℕ → ℕ → Block → ℕ → Fs
changed s a align w_buf n =
    let b = copy_in (s.disk a) align w_buf n in record s { iobuffer = b; disk = update s.disk a b }

grown : Vinode → ℕ → Vinode
grown f end = record f { size = if ltb f.size end then end else f.size }

write-short :
    (f : Vinode) (w_buf : Block) (len offset : ℕ) (s : Fs)
    → ltb f.size offset ≡ false
    → leb 128 (f.addrs (offset / 4096)) ≡ false
    → (offset % 4096 == 0) ≡ false
    → (len + offset % 4096) / 4096 ≡ 0
    → rfs_write f w_buf len offset s
      ≡ ok
          (record { vinode = grown f (offset + len); count = len; offset = offset + len })
          (changed s (f.addrs (offset / 4096)) (offset % 4096) w_buf len)
unfolding rfs_write write_body changed grown
write-short f w_buf len offset s le here mid short = rw (le, mid, here, short)

changed_byte :
    (s : Fs) (a align len b x : ℕ) (w_buf : Block)
    → (changed s a align w_buf len).disk b x
      ≡ (if b == a then copy_in (s.disk a) align w_buf len x else s.disk b x)
unfolding changed
changed_byte s a align len b x w_buf = ground arith

-- A write at an offset up to the file's end that is not at a block boundary, and that ends inside the
-- same block, changes exactly the bytes written, provided the block is no other block of the file and has
-- an address below 128. The count and the new offset are returned, the size becomes the end of the write
-- if that lies behind the file's end and stays otherwise, and no other field of the vinode changes.
pub rfs_write_within :
    (f : Vinode) (w_buf : Block) (len offset : ℕ) (s : Fs)
    → offset ≤ f.size
    → f.addrs (offset / 4096) < 128
    → offset % 4096 ≢ 0
    → offset % 4096 + len < 4096
    → ((i : ℕ) → i ≢ offset / 4096 → f.addrs i ≢ f.addrs (offset / 4096))
    → (r : Written) × (s' : Fs) × (rfs_write f w_buf len offset s ≡ ok r s')
      × (r.offset ≡ offset + len)
      × (r.count ≡ len)
      × (r.vinode ≡ record f { size = if ltb f.size (offset + len) then offset + len else f.size })
      × ((j : ℕ) → j < len → content s'.disk f.addrs (offset + j) ≡ w_buf j)
      × ((i : ℕ)
          → (i < offset) ⊎ (offset + len ≤ i)
          → content s'.disk f.addrs i ≡ content s.disk f.addrs i)
unfolding grown changed
rfs_write_within f w_buf len offset s le here mid fits apart =
    let a = f.addrs (offset / 4096) in
    (
      record { vinode = grown f (offset + len); count = len; offset = offset + len },
      changed s a (offset % 4096) w_buf len,
      write-short f w_buf len offset s (ground arith) (ground arith) (ground arith) (omega arith),
      refl,
      refl,
      refl,
      λ j lt.
          let d : (offset + j) / 4096 ≡ offset / 4096 = omega arith in
          let m : (offset + j) % 4096 ≡ offset % 4096 + j = omega arith in
          rw (d, m)
            (changed_byte s a (offset % 4096) len a (offset % 4096 + j) w_buf ∙ ground arith),
      λ i out. unchanged i out,
    )
  where
    unchanged :
        (i : ℕ)
        → (i < offset) ⊎ (offset + len ≤ i)
        → content (changed s (f.addrs (offset / 4096)) (offset % 4096) w_buf len).disk f.addrs i
          ≡ content s.disk f.addrs i
    unchanged i out =
        changed_byte s (f.addrs (offset / 4096)) (offset % 4096) len (f.addrs (i / 4096)) (i % 4096)
          w_buf
        ∙ elim (ℕ_discrete (i / 4096) (offset / 4096)) [
          | yes e ↦
              let test : (f.addrs (offset / 4096) == f.addrs (offset / 4096)) ≡ true =
                ground arith in
              rw (e, test) (ground arith)
          | no ne ↦ ground (arith, apart (i / 4096) ne)
        ]

-- the device after a block was written from the iobuffer with `n` new bytes at its start
overwritten : Fs → ℕ → Block → ℕ → Fs
overwritten s a w_buf n =
    let b = copy_in s.iobuffer 0 (λ j. w_buf (0 + j)) n in
    record s { iobuffer = b; disk = update s.disk a b }

write-aligned :
    (f : Vinode) (w_buf : Block) (len offset : ℕ) (s : Fs)
    → ltb f.size offset ≡ false
    → leb 128 (f.addrs (offset / 4096 + 0)) ≡ false
    → (offset % 4096 == 0) ≡ true
    → (len + offset % 4096) / 4096 ≡ 0
    → ltb 0 ((len + offset % 4096) % 4096) ≡ true
    → (offset / 4096 + 0 == f.blocks) ≡ false
    → (len + offset % 4096) % 4096 ≡ len
    → rfs_write f w_buf len offset s
      ≡ ok
          (record { vinode = grown f (offset + len); count = len; offset = offset + len })
          (overwritten s (f.addrs (offset / 4096 + 0)) w_buf len)
unfolding rfs_write write_body write_rest write_blocks overwritten grown
write-aligned f w_buf len offset s le here al short some_left old rest =
    rw (le, al, short, some_left, old, here, rest)

-- A short write at a block boundary inside the file does not read the block first: behind the bytes
-- written, the rest of the block becomes what the iobuffer last held.
pub rfs_write_clobbers :
    (f : Vinode) (w_buf : Block) (len offset : ℕ) (s : Fs)
    → offset ≤ f.size
    → f.addrs (offset / 4096) < 128
    → offset % 4096 ≡ 0
    → 0 < len
    → len < 4096
    → offset / 4096 < f.blocks
    → (r : Written) × (s' : Fs) × (rfs_write f w_buf len offset s ≡ ok r s')
      × ((j : ℕ) → j < len → content s'.disk f.addrs (offset + j) ≡ w_buf j)
      × ((j : ℕ) → len ≤ j → j < 4096 → content s'.disk f.addrs (offset + j) ≡ s.iobuffer j)
unfolding overwritten
rfs_write_clobbers f w_buf len offset s le here al some short old =
    let zero_more : offset / 4096 + 0 ≡ offset / 4096 = omega arith in
    let block : (j : ℕ) → j < 4096 → (offset + j) / 4096 ≡ offset / 4096 = λ j lt. omega arith in
    let inner : (j : ℕ) → j < 4096 → (offset + j) % 4096 ≡ j = λ j lt. omega arith in
    (
      record { vinode = grown f (offset + len); count = len; offset = offset + len },
      overwritten s (f.addrs (offset / 4096 + 0)) w_buf len,
      write-aligned f w_buf len offset s (ground arith) (rw zero_more (ground arith)) (ground arith)
          (omega arith) (ground arith) (ground arith) (omega arith),
      λ j lt. rw (zero_more, block j (omega arith), inner j (omega arith)) (ground arith),
      λ j lo lt. rw (zero_more, block j lt, inner j lt) (ground arith),
    )
