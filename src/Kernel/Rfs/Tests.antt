-- ===== src/Kernel/Rfs/Tests.antt =====
-- The theorems on the RAM disk file system at small concrete file systems.
use huster_experiment_pke.Base.{
  ℕ, zero, suc, ◌+◌, ◌≤◌, ◌<◌, ◌≡◌, ◌≢◌, ◌⊎◌, refl, true, false, none, some, [], ◌∷◌, arith, ◌==◌,
  if◌then◌else◌, ◌^◌, ltb,
}
use huster_experiment_pke.Base.Run.{ok, killed}
use huster_experiment_pke.Kernel.Process.{update}
use huster_experiment_pke.Kernel.Ramdev.{Fs}
use huster_experiment_pke.Kernel.Rfs.{
  r_dir, r_free, Dinode, field, dinode_at, inode_block, inode_offset, rfs_write_dinode,
  rfs_alloc_block, rfs_blk_offset_free,
}
use huster_experiment_pke.Kernel.Rfs.Layout.{Reads, rfs_read_dinode-rfs_write_dinode}
use huster_experiment_pke.Kernel.Rfs.Bitmap.{rfs_alloc_block_first}
use huster_experiment_pke.Kernel.Rfs.File.{Vinode, Transfer, rfs_read}
use huster_experiment_pke.Kernel.Rfs.File.Buffer.{content}
use huster_experiment_pke.Kernel.Rfs.File.Read.{rfs_read-content}
use huster_experiment_pke.Kernel.Rfs.Write.{Written, rfs_write}
use huster_experiment_pke.Kernel.Rfs.Write.Bytes.{rfs_write_within}
use huster_experiment_pke.Kernel.Rfs.Dir.{rfs_add_direntry, rfs_lookup}
use huster_experiment_pke.Kernel.Rfs.Dir.Lookup.{named, entry_inum, vinode_on, rfs_lookup_first}
use huster_experiment_pke.Kernel.Rfs.Dir.Add.{IsDir, rfs_lookup-rfs_add_direntry}
use huster_experiment_pke.Kernel.Rfs.Format.{rfs_format_dev, rfs_get_superblock}
use huster_experiment_pke.Kernel.Rfs.Format.Mount.{rfs_get_superblock-rfs_format_dev}

abbrev fs : Fs
fs = record {
  disk = λ b x. 0;
  iobuffer = λ x. 7;
  freemap = λ i. if i == 0 then 1 else 0;
  nblocks = 100;
}

-- 5000 bytes in the blocks 13 and 14
abbrev file : Vinode
file = record { inum = 1; size = 5000; type = 0; nlinks = 1; blocks = 2; addrs = λ i. i + 13 }

-- the root directory, empty, in block 12
abbrev root : Vinode
root = record { inum = 0; size = 0; type = r_dir; nlinks = 1; blocks = 1; addrs = λ i. i + 12 }

abbrev dinode : Dinode
dinode = record { size = 300; type = 0; nlinks = 1; blocks = 1; addrs = λ i. 13 }

fits : (k : ℕ) → k < 14 → field dinode k < 2 ^ 32
fits zero lt = omega arith
fits (suc zero) lt = omega arith
fits (suc (suc zero)) lt = omega arith
fits (suc (suc (suc zero))) lt = omega arith
fits (suc (suc (suc (suc i)))) lt = omega arith

rfs_read_dinode-rfs_write_dinode_example :
    (s' : Fs) × (rfs_write_dinode dinode 40 fs ≡ ok 0 s')
    × Reads s' 40 dinode
    × ((m : ℕ) (e : Dinode) → m < 320 → m ≢ 40 → Reads fs m e → Reads s' m e)
    × ((b : ℕ) → (b < 1) ⊎ (11 ≤ b) → s'.disk b ≡ fs.disk b)
rfs_read_dinode-rfs_write_dinode_example =
    rfs_read_dinode-rfs_write_dinode fs dinode 40 (omega arith) fits

rfs_alloc_block_first_example :
    ((b : ℕ) × (b < 100)
      × (fs.freemap b ≡ 0)
      × ((j : ℕ) → j < b → fs.freemap j ≢ 0)
      × (rfs_alloc_block fs
          ≡ ok (rfs_blk_offset_free + b) (record fs { freemap = update fs.freemap b 1 })))
    ⊎ (((j : ℕ) → j < 100 → fs.freemap j ≢ 0) × (rfs_alloc_block fs ≡ killed fs))
rfs_alloc_block_first_example = rfs_alloc_block_first fs

takes_13 : rfs_alloc_block fs ≡ ok 13 (record fs { freemap = update fs.freemap 1 1 })
unfolding rfs_alloc_block
takes_13 = refl

rfs_read-content_example :
    (r : Transfer) × (s' : Fs) × (rfs_read file (λ x. 1) 200 4000 fs ≡ ok r s')
    × (r.count ≡ 200)
    × (r.offset ≡ 4000 + r.count)
    × (s'.disk ≡ fs.disk)
    × ((j : ℕ)
        → j < r.count
        → ((m : ℕ) → m < j → content fs.disk file.addrs (4000 + m) ≢ 0)
        → r.buf j ≡ content fs.disk file.addrs (4000 + j))
    × ((m j : ℕ) → m < r.count → m < j → content fs.disk file.addrs (4000 + m) ≡ 0 → r.buf j ≡ 1)
rfs_read-content_example =
    rfs_read-content file (λ x. 1) 200 4000 fs (omega arith) (omega arith) (λ i lt. omega arith)

rfs_write_within_example :
    (r : Written) × (s' : Fs) × (rfs_write file (λ j. 65) 3 100 fs ≡ ok r s')
    × (r.offset ≡ 103)
    × (r.count ≡ 3)
    × (r.vinode ≡ record file { size = if ltb 5000 103 then 103 else 5000 })
    × ((j : ℕ) → j < 3 → content s'.disk file.addrs (100 + j) ≡ 65)
    × ((i : ℕ)
        → (i < 100) ⊎ (103 ≤ i)
        → content s'.disk file.addrs i ≡ content fs.disk file.addrs i)
rfs_write_within_example =
    rfs_write_within file (λ j. 65) 3 100 fs (omega arith) (omega arith) (omega arith) (omega arith)
      (λ i ne. omega arith)

rfs_lookup_first_example :
    ((j : ℕ)
      → j < 0
      → ((m : ℕ) → m < j → named fs.disk root.addrs (97 ∷ []) m ≡ false)
      → named fs.disk root.addrs (97 ∷ []) j ≡ true
      → entry_inum fs.disk root.addrs j < 320
      → (s' : Fs) × (rfs_lookup root (97 ∷ []) fs
          ≡ ok (some (vinode_on fs (entry_inum fs.disk root.addrs j))) s')
        × (s'.disk ≡ fs.disk))
    × (((m : ℕ) → m < 0 → named fs.disk root.addrs (97 ∷ []) m ≡ false)
        → (s' : Fs) × (rfs_lookup root (97 ∷ []) fs ≡ ok none s') × (s'.disk ≡ fs.disk))
rfs_lookup_first_example = rfs_lookup_first root (97 ∷ []) fs (λ m lt. omega arith)

root-IsDir : IsDir root
root-IsDir = record {
  type = refl;
  inum = omega arith;
  whole = refl;
  slots = λ i le. (omega arith, omega arith);
  apart = λ i lt. omega arith;
}

rfs_lookup-rfs_add_direntry_example :
    (dir' : Vinode) × (s' s'' : Fs) × (rfs_add_direntry root (97 ∷ 98 ∷ []) 5 fs
      ≡ ok (some dir') s')
    × (rfs_lookup dir' (97 ∷ 98 ∷ []) s' ≡ ok (some (vinode_on s' 5)) s'')
rfs_lookup-rfs_add_direntry_example =
    rfs_lookup-rfs_add_direntry root (97 ∷ 98 ∷ []) 5 fs root-IsDir (omega arith) (omega arith)
      (λ m lt. absurd (omega arith))

rfs_get_superblock-rfs_format_dev_example :
    (s' s'' : Fs) × (root : Vinode) × (rfs_format_dev (λ i. 9) fs ≡ ok 0 s')
    × (rfs_get_superblock s' ≡ ok root s'')
    × (root.type ≡ r_dir)
    × (root.size ≡ 0)
    × (root.nlinks ≡ 1)
    × (root.addrs 0 ≡ 12)
    × (s''.nblocks ≡ 100)
    × (s''.freemap 0 ≡ 1)
    × ((i : ℕ) → 0 < i → s''.freemap i ≡ 0)
    × ((m : ℕ)
        → 0 < m
        → m < 320
        → (dinode_at (s''.disk (inode_block m)) (inode_offset m)).type ≡ r_free)
rfs_get_superblock-rfs_format_dev_example = rfs_get_superblock-rfs_format_dev (λ i. 9) fs
