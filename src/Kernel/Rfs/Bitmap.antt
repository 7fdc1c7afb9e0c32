-- ===== src/Kernel/Rfs/Bitmap.antt =====
-- The bitmap of data blocks: allocation takes the first free block, and freeing gives it back.
use mathlib.Core.Path.{fun_ext}
use huster_experiment_pke.Base.{
  ℕ, zero, suc, ◌+◌, ◌≤◌, ◌<◌, ◌≡◌, ◌≢◌, none, some, ap, ◌⊎◌, inl, inr, arith, Option-cases, ltb,
  false,
}
use huster_experiment_pke.Base.Run.{ok, killed}
use huster_experiment_pke.Kernel.Process.{update}
use huster_experiment_pke.Kernel.Ramdev.{Fs}
use huster_experiment_pke.Kernel.Rfs.{
  rfs_blk_offset_free, find_block, take_block, rfs_alloc_block, rfs_free_block,
}

find_block_found :
    (n i : ℕ) (f : ℕ → ℕ) (b : ℕ)
    → find_block n i f ≡ some b
    → (b < i + n) × (f b ≡ 0) × ((j : ℕ) → i ≤ j → j < b → f j ≢ 0)
unfolding find_block
find_block_found zero i f b e = cc
find_block_found (suc n) i f b e = ground (arith, find_block_found n (i + 1) f b)

find_block-none : (n i j : ℕ) (f : ℕ → ℕ) → find_block n i f ≡ none → i ≤ j → j < i + n → f j ≢ 0
unfolding find_block
find_block-none zero i j f e lo hi = absurd (omega arith)
find_block-none (suc n) i j f e lo hi = ground (arith, find_block-none n (i + 1) j f)

-- rfs_alloc_block hands out the first data block that is free and marks it; the disk stays as it is.
-- When no block is free it kills the process and changes nothing.
pub rfs_alloc_block_first :
    (s : Fs)
    → ((b : ℕ) × (b < s.nblocks)
        × (s.freemap b ≡ 0)
        × ((j : ℕ) → j < b → s.freemap j ≢ 0)
        × (rfs_alloc_block s
            ≡ ok (rfs_blk_offset_free + b) (record s { freemap = update s.freemap b 1 })))
      ⊎ (((j : ℕ) → j < s.nblocks → s.freemap j ≢ 0) × (rfs_alloc_block s ≡ killed s))
unfolding rfs_alloc_block
rfs_alloc_block_first s = elim (Option-cases (find_block s.nblocks 0 s.freemap)) [
  | inr (b, e) ↦
      let (lt, free, before) = find_block_found s.nblocks 0 s.freemap b e in
      inl (b, omega arith, free, λ j l. before j (omega arith) l, rw (e, take_block))
  | inl e ↦ inr (
    λ j l. find_block-none s.nblocks 0 j s.freemap e (omega arith) (omega arith),
    rw (e, take_block),
  )
]

free_after :
    (s : Fs) (b : ℕ)
    → s.freemap b ≡ 0
    → rfs_free_block (rfs_blk_offset_free + b) (record s { freemap = update s.freemap b 1 })
      ≡ ok 0 s
unfolding rfs_free_block
free_after s b free =
    let data_block : ltb (rfs_blk_offset_free + b) rfs_blk_offset_free ≡ false = ground arith in
    rw data_block
      (ap (λ (f : ℕ → ℕ). ok 0 (record s { freemap = f })) (fun_ext (λ j. ground arith)))

-- Giving back the block that was just allocated restores the file system's state.
pub rfs_free_block-rfs_alloc_block :
    (s t : Fs) (b : ℕ) → rfs_alloc_block s ≡ ok b t → rfs_free_block b t ≡ ok 0 s
rfs_free_block-rfs_alloc_block s t b run = elim (rfs_alloc_block_first s) [
  | inl (c, lt, free, before, e) ↦
      let block : rfs_blk_offset_free + c ≡ b = cc in
      let after : record s { freemap = update s.freemap c 1 } ≡ t = cc in
      rw (← block, ← after) (free_after s c free)
  | inr (full, e) ↦ cc
]
