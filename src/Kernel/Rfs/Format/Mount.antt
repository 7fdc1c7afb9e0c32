-- ===== src/Kernel/Rfs/Format/Mount.antt =====
-- Mounting a device that was just formatted.
use native.Mathlib.Decide.{ℕ_discrete}
use huster_experiment_pke.Base.{
  ℕ, zero, suc, ◌+◌, ◌*◌, ◌%◌, ◌^◌, ◌≤◌, ◌<◌, ◌≡◌, refl, ◌∙◌, ap, false, not, arith, ltb, leb, ◌==◌,
  Bool-cases, inl, inr, ◌⊎◌,
}
use huster_experiment_pke.Base.Run.{ok}
use huster_experiment_pke.Kernel.Process.{update}
use huster_experiment_pke.Kernel.Ramdev.{Block, Fs}
use huster_experiment_pke.Kernel.Rfs.{
  r_dir, r_free, get_int, put_int, copy_in, dinode_at, inode_block, inode_offset, field,
  dinode_byte, rfs_blk_offset_super, rfs_blk_offset_bitmap,
}
use huster_experiment_pke.Kernel.Rfs.Layout.{get_int_bytes, written, write_dinode-run, field_copied}
use huster_experiment_pke.Kernel.Rfs.File.{Vinode}
use huster_experiment_pke.Kernel.Rfs.Dir.Lookup.{vinode_on, update_vinode-run}
use huster_experiment_pke.Kernel.Rfs.Format.{
  rfs_magic, super_buffer, empty_inode, empty_inodes, write_inode_blocks, root_dinode,
  first_freemap, format_inodes, rfs_format_dev, rfs_get_superblock,
}

-- the type of inode `j` of the block is not touched when the inodes from `i` on are emptied
empty_inodes_before : (n i x : ℕ) (b : Block) → x < i * 128 → empty_inodes n i b x ≡ b x
unfolding empty_inodes
empty_inodes_before zero i x b lt = refl
empty_inodes_before (suc n) i x b lt =
    ground (arith, empty_inodes_before n (i + 1) x (empty_inode b (i * 128)))

get_int_frame :
    (b c : Block) (off : ℕ)
    → ((x : ℕ) → off ≤ x → x < off + 4 → c x ≡ b x)
    → get_int c off ≡ get_int b off
get_int_frame b c off same = rw (
  same off (omega arith) (omega arith),
  same (off + 1) (omega arith) (omega arith),
  same (off + 2) (omega arith) (omega arith),
  same (off + 3) (omega arith) (omega arith),
)

put_int_same : (b : Block) (off v : ℕ) → v < 2 ^ 32 → get_int (put_int b off v) off ≡ v
put_int_same b off v lt =
    get_int_bytes v off (put_int b off v) lt (ground arith) (ground arith) (ground arith)
      (ground arith)

put_int_other :
    (b : Block) (off at v : ℕ)
    → (at + 4 ≤ off) ⊎ (off + 4 ≤ at)
    → get_int (put_int b off v) at ≡ get_int b at
put_int_other b off at v h = get_int_frame b (put_int b off v) at (λ x lo hi. ground arith)

empty_inode_type : (b : Block) (off : ℕ) → get_int (empty_inode b off) (off + 4) ≡ r_free
empty_inode_type b off =
    put_int_other (put_int (put_int (put_int b off 0) (off + 4) r_free) (off + 8) 0) (off + 12)
      (off + 4) 0 (inl (omega arith))
    ∙ put_int_other (put_int (put_int b off 0) (off + 4) r_free) (off + 8) (off + 4) 0
        (inl (omega arith))
    ∙ put_int_same (put_int b off 0) (off + 4) r_free (omega arith)

empty_inodes_type :
    (n i j : ℕ) (b : Block)
    → i ≤ j
    → j < i + n
    → get_int (empty_inodes n i b) (j * 128 + 4) ≡ r_free
unfolding empty_inodes
empty_inodes_type zero i j b le lt = absurd (omega arith)
empty_inodes_type (suc n) i j b le lt = elim (ℕ_discrete i j) [
  | yes e ↦
      get_int_frame (empty_inode b (i * 128)) (empty_inodes n (i + 1) (empty_inode b (i * 128)))
        (j * 128 + 4)
        (λ x lo hi. empty_inodes_before n (i + 1) x (empty_inode b (i * 128)) (omega arith))
      ∙ rw e (empty_inode_type b (j * 128))
  | no ne ↦ empty_inodes_type n (i + 1) j (empty_inode b (i * 128)) (omega arith) (omega arith)
]

-- the loop over the inode blocks writes the iobuffer to the blocks 1 + i, ..., i + n
write_inode_blocks-run :
    (n i : ℕ) (s : Fs)
    → i + n ≤ 10
    → (t : Fs) × (write_inode_blocks n i s ≡ ok 0 t)
      × (t.iobuffer ≡ s.iobuffer)
      × ((b : ℕ) → i < b → b ≤ i + n → t.disk b ≡ s.iobuffer)
      × ((b : ℕ) → (b ≤ i) ⊎ (i + n < b) → t.disk b ≡ s.disk b)
unfolding write_inode_blocks
write_inode_blocks-run zero i s le = (s, refl, refl, λ b lo hi. absurd (omega arith), λ b out. refl)
write_inode_blocks-run (suc n) i s le =
    let s' : Fs = record s { disk = update s.disk (1 + i) s.iobuffer } in
    let test : leb 128 (1 + i) ≡ false = ground arith in
    let (t, run, buf, inside, outside) = write_inode_blocks-run n (i + 1) s' (omega arith) in
    (
      t,
      rw (test, run),
      buf,
      λ b lo hi. elim (ℕ_discrete b (1 + i)) [
        | yes e ↦ outside b (inl (omega arith)) ∙ ground arith
        | no ne ↦ inside b (omega arith) (omega arith)
      ],
      λ b out. outside b (ground arith) ∙ ground arith,
    )

-- the device with its superblock written, and at the end
with_super : Fs → Fs
with_super s =
    let b = super_buffer s.iobuffer in
    record s { iobuffer = b; disk = update s.disk rfs_blk_offset_super b }

formatted : (ℕ → ℕ) → Fs → Fs
formatted stack t =
    let w = written t (root_dinode stack) 0 in
    record w { iobuffer = first_freemap; disk = update w.disk rfs_blk_offset_bitmap first_freemap }

format-run :
    (stack : ℕ → ℕ) (s t : Fs)
    → format_inodes (with_super s) ≡ ok 0 t
    → rfs_format_dev stack s ≡ ok 0 (formatted stack t)
unfolding rfs_format_dev with_super formatted
format-run stack s t run = rw (run, write_dinode-run t (root_dinode stack) 0 (omega arith))

format_inodes-run :
    (s : Fs)
    → (t : Fs) × (format_inodes s ≡ ok 0 t)
      × ((b : ℕ) → 0 < b → b ≤ 10 → t.disk b ≡ empty_inodes 32 0 s.iobuffer)
      × ((b : ℕ) → (b ≤ 0) ⊎ (10 < b) → t.disk b ≡ s.disk b)
unfolding format_inodes
format_inodes-run s =
    let u : Fs = record s { iobuffer = empty_inodes 32 0 s.iobuffer } in
    let (t, run, buf, inside, outside) = write_inode_blocks-run 10 0 u (omega arith) in
    (t, run, inside, outside)

mounted : Fs → Fs
mounted f = record f {
  iobuffer = f.disk rfs_blk_offset_bitmap;
  nblocks = get_int (f.disk rfs_blk_offset_super) 8;
  freemap = λ i. get_int (f.disk rfs_blk_offset_bitmap) (4 * i);
}

get_superblock-run :
    (f : Fs)
    → get_int (f.disk rfs_blk_offset_super) 0 ≡ rfs_magic
    → rfs_get_superblock f ≡ ok (vinode_on f 0) (mounted f)
unfolding rfs_get_superblock mounted
get_superblock-run f magic =
    let b = f.disk 0 in
    let test : not (get_int b 0 == rfs_magic) ≡ false = ground arith in
    rw (test, update_vinode-run (record f { iobuffer = b }) 0 (omega arith))

-- what the blocks of a formatted device hold
record Blank (stack : ℕ → ℕ) (s f : Fs) : Type 0 where
  super : f.disk 0 ≡ super_buffer s.iobuffer
  first :
      f.disk 1
      ≡ copy_in (empty_inodes 32 0 (super_buffer s.iobuffer)) 0 (dinode_byte (root_dinode stack)) 56
  others : (b : ℕ) → 1 < b → b ≤ 10 → f.disk b ≡ empty_inodes 32 0 (super_buffer s.iobuffer)
  bitmap : f.disk 11 ≡ first_freemap

format-Blank :
    (stack : ℕ → ℕ) (s : Fs) → (f : Fs) × (rfs_format_dev stack s ≡ ok 0 f) × Blank stack s f
unfolding with_super formatted written
format-Blank stack s =
    let (t, run, inside, outside) = format_inodes-run (with_super s) in
    (
      formatted stack t,
      format-run stack s t run,
      record {
        super = outside 0 (inl (omega arith));
        first =
            ap (λ (b : Block). copy_in b 0 (dinode_byte (root_dinode stack)) 56)
              (inside 1 (omega arith) (omega arith));
        others = λ b lo hi. ground arith ∙ inside b (omega arith) (omega arith);
        bitmap = refl;
      },
    )

module _ (stack : ℕ → ℕ) (s f : Fs) (k : Blank stack s f) where
  root_field : (i : ℕ) → i < 5 → field (dinode_at (f.disk 1) 0) i ≡ field (root_dinode stack) i
  root_field i lt = rw k.first (
      field_copied (empty_inodes 32 0 (super_buffer s.iobuffer)) 0 i (root_dinode stack)
        (omega arith) (small i lt))
    where
      small : (i : ℕ) → i < 5 → field (root_dinode stack) i < 2 ^ 32
      small zero lt = omega arith
      small (suc zero) lt = omega arith
      small (suc (suc zero)) lt = omega arith
      small (suc (suc (suc zero))) lt = omega arith
      small (suc (suc (suc (suc zero)))) lt = omega arith
      small (suc (suc (suc (suc (suc i))))) lt = absurd (omega arith)

  inode_free :
      (m : ℕ) → 0 < m → m < 320 → get_int (f.disk (inode_block m)) (inode_offset m + 4) ≡ r_free
  inode_free m lo hi = elim (Bool-cases (ltb m 32)) [
    | inl first ↦
        let here : inode_block m ≡ 1 = ground arith in
        rw (here, k.first)
          (get_int_frame (empty_inodes 32 0 (super_buffer s.iobuffer))
              (copy_in (empty_inodes 32 0 (super_buffer s.iobuffer)) 0
                (dinode_byte (root_dinode stack)) 56)
              (inode_offset m + 4) (λ x l h. ground arith)
            ∙ empty_inodes_type 32 0 (m % 32) (super_buffer s.iobuffer) (omega arith) (omega arith))
    | inr later ↦
        rw (k.others (inode_block m) (ground arith) (omega arith))
          (empty_inodes_type 32 0 (m % 32) (super_buffer s.iobuffer) (omega arith) (omega arith))
  ]

freemap_rest : (i : ℕ) → 0 < i → get_int first_freemap (4 * i) ≡ 0
freemap_rest i lo = put_int_other (λ _. 0) 0 (4 * i) 1 (inr (omega arith)) ∙ refl

-- A device that was just formatted can be mounted: its root is an empty directory with one link and
-- the first data block, of the 100 data blocks only that one is in use, and all other inodes are free.
pub rfs_get_superblock-rfs_format_dev :
    (stack : ℕ → ℕ) (s : Fs)
    → (s' s'' : Fs) × (root : Vinode) × (rfs_format_dev stack s ≡ ok 0 s')
      × (rfs_get_superblock s' ≡ ok root s'')
      × (root.type ≡ r_dir)
      × (root.size ≡ 0)
      × (root.nlinks ≡ 1)
      × (root.addrs 0 ≡ 12)
      × (s''.nblocks ≡ 100)
      × (s''.freemap 0 ≡ 1)
      × ((i : ℕ) → 0 < i → s''.freemap i ≡ 0)
      × ((m : ℕ)
          → 0 < m
          → m < 320
          → (dinode_at (s''.disk (inode_block m)) (inode_offset m)).type ≡ r_free)
unfolding mounted
rfs_get_superblock-rfs_format_dev stack s =
    let (f, run, k) = format-Blank stack s in
    (
      f,
      mounted f,
      vinode_on f 0,
      run,
      get_superblock-run f (rw k.super refl),
      root_field stack s f k 1 (omega arith),
      root_field stack s f k 0 (omega arith),
      root_field stack s f k 2 (omega arith),
      root_field stack s f k 4 (omega arith),
      rw k.super refl,
      rw k.bitmap refl,
      λ i lo. rw k.bitmap (freemap_rest i lo),
      λ m lo hi. inode_free stack s f k m lo hi,
    )
