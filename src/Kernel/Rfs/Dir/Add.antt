-- ===== src/Kernel/Rfs/Dir/Add.antt =====
-- What rfs_add_direntry adds to a directory is what rfs_lookup finds in it.
use native.Mathlib.Decide.{ℕ_discrete}
use huster_experiment_pke.Base.{
  ℕ, ◌+◌, ◌/◌, ◌%◌, ◌^◌, ◌≤◌, ◌<◌, ◌≡◌, ◌≢◌, ◌∙◌, ap, true, false, not, arith, leb, ◌==◌,
  if◌then◌else◌, inl, inr, ◌⊎◌, List, [], ◌∷◌, some, length,
}
use huster_experiment_pke.Base.Run.{ok}
use huster_experiment_pke.Kernel.Process.{update}
use huster_experiment_pke.Kernel.Ramdev.{Block, Fs}
use huster_experiment_pke.Kernel.Rfs.{r_dir, get_int, put_int, inode_block}
use huster_experiment_pke.Kernel.Rfs.Layout.{get_int_bytes, written, write_dinode-run}
use huster_experiment_pke.Kernel.Rfs.File.{Vinode, dinode_of, rfs_write_back_vinode}
use huster_experiment_pke.Kernel.Rfs.Dir.{
  put_name, name_matches, put_entry, rfs_add_direntry, entry_offset, rfs_lookup,
}
use huster_experiment_pke.Kernel.Rfs.Dir.Lookup.{named, entry_inum, vinode_on, rfs_lookup_first}

put_name_before : (b : Block) (off x : ℕ) (name : List ℕ) → x < off → put_name b off name x ≡ b x
put_name_before b off x [] lt = ground arith
put_name_before b off x (c ∷ cs) lt =
    ground (arith, put_name_before (update b off c) (off + 1) x cs)

put_name_behind :
    (b : Block) (off x : ℕ) (name : List ℕ) → off + length name < x → put_name b off name x ≡ b x
put_name_behind b off x [] lt = ground arith
put_name_behind b off x (c ∷ cs) lt =
    ground (arith, put_name_behind (update b off c) (off + 1) x cs)

name_matches-put_name :
    (b : Block) (off : ℕ) (name : List ℕ) → name_matches (put_name b off name) off name ≡ true
name_matches-put_name b off [] = ground arith
name_matches-put_name b off (c ∷ cs) = ground (
  arith,
  put_name_before (update b off c) (off + 1) off cs,
  name_matches-put_name (update b off c) (off + 1) cs,
)

name_matches_frame :
    (b c : Block) (off : ℕ) (name : List ℕ)
    → ((x : ℕ) → off ≤ x → x ≤ off + length name → c x ≡ b x)
    → name_matches c off name ≡ name_matches b off name
name_matches_frame b c off [] same = rw (same off (omega arith) (omega arith))
name_matches_frame b c off (d ∷ ds) same = rw (
  same off (omega arith) (omega arith),
  name_matches_frame b c (off + 1) ds (λ x lo hi. same x (omega arith) (omega arith)),
)

-- an entry leaves the bytes outside its 32 bytes alone
put_entry_outside :
    (b : Block) (off inum x : ℕ) (name : List ℕ)
    → length name < 28
    → (x < off) ⊎ (off + 32 ≤ x)
    → put_entry b off inum name x ≡ b x
put_entry_outside b off inum x name short (inl lt) =
    put_name_before (put_int b off inum) (off + 4) x name (omega arith) ∙ ground arith
put_entry_outside b off inum x name short (inr ge) =
    put_name_behind (put_int b off inum) (off + 4) x name (omega arith) ∙ ground arith

put_entry_inum :
    (b : Block) (off inum : ℕ) (name : List ℕ)
    → inum < 2 ^ 32
    → get_int (put_entry b off inum name) off ≡ inum
put_entry_inum b off inum name lt =
    let p = put_int b off inum in
    let byte : (x : ℕ) → x < off + 4 → put_entry b off inum name x ≡ p x =
      λ x l. put_name_before p (off + 4) x name l in
    get_int_bytes inum off (put_entry b off inum name) lt (byte off (omega arith) ∙ ground arith)
      (byte (off + 1) (omega arith) ∙ ground arith) (byte (off + 2) (omega arith) ∙ ground arith)
      (byte (off + 3) (omega arith) ∙ ground arith)

-- the file system after the entry was added
added : Vinode → List ℕ → ℕ → Fs → Fs
added dir name inum s =
    let n = dir.addrs (dir.size / 4096) in
    let b = put_entry (s.disk n) (dir.size % 4096) inum name in
    written (record s { iobuffer = b; disk = update s.disk n b })
      (dinode_of (record dir { size = dir.size + 32 })) dir.inum

add-run :
    (dir : Vinode) (name : List ℕ) (inum : ℕ) (s : Fs)
    → dir.type ≡ r_dir
    → dir.inum < 320
    → leb 128 (dir.addrs (dir.size / 4096)) ≡ false
    → rfs_add_direntry dir name inum s
      ≡ ok (some (record dir { size = dir.size + 32 })) (added dir name inum s)
unfolding rfs_add_direntry rfs_write_back_vinode added
add-run dir name inum s t small here =
    let n = dir.addrs (dir.size / 4096) in
    let b = put_entry (s.disk n) (dir.size % 4096) inum name in
    let is_dir : not (dir.type == r_dir) ≡ false = ground arith in
    rw (
      is_dir,
      here,
      write_dinode-run (record s { iobuffer = b; disk = update s.disk n b })
          (dinode_of (record dir { size = dir.size + 32 })) dir.inum small,
    )

added_data :
    (dir : Vinode) (name : List ℕ) (inum a : ℕ) (s : Fs)
    → dir.inum < 320
    → 12 ≤ a
    → (added dir name inum s).disk a ≡ (
        if a == dir.addrs (dir.size / 4096)
        then put_entry (s.disk (dir.addrs (dir.size / 4096))) (dir.size % 4096) inum name
        else s.disk a)
unfolding added written
added_data dir name inum a s small above =
    let other : (a == inode_block dir.inum) ≡ false = ground arith in rw other

-- a directory whose blocks are distinct data blocks, with whole entries
pub record IsDir (dir : Vinode) : Type 0 where
  pub type : dir.type ≡ r_dir
  pub inum : dir.inum < 320
  pub whole : dir.size % 32 ≡ 0
  pub slots : (i : ℕ) → i ≤ dir.size / 4096 → (12 ≤ dir.addrs i) × (dir.addrs i < 128)
  pub apart : (i : ℕ) → i < dir.size / 4096 → dir.addrs i ≢ dir.addrs (dir.size / 4096)

module _ (dir : Vinode) (name : List ℕ) (inum : ℕ) (s : Fs) (d : IsDir dir)
    (short : length name < 28) where
  spot : entry_offset (dir.size / 32) ≡ dir.size % 4096
  spot = omega (arith, d.whole)

  slot : dir.size / 32 / 128 ≡ dir.size / 4096
  slot = omega arith

  last_block :
      (added dir name inum s).disk (dir.addrs (dir.size / 4096))
      ≡ put_entry (s.disk (dir.addrs (dir.size / 4096))) (dir.size % 4096) inum name
  last_block =
      let n = dir.addrs (dir.size / 4096) in
      let own : (n == n) ≡ true = ground arith in
      added_data dir name inum n s d.inum (d.slots (dir.size / 4096) (omega arith)).0 ∙ rw own

  added-named : named (added dir name inum s).disk dir.addrs name (dir.size / 32) ≡ true
  added-named =
      rw (slot, spot, last_block)
        (name_matches-put_name
          (put_int (s.disk (dir.addrs (dir.size / 4096))) (dir.size % 4096) inum)
          (dir.size % 4096 + 4) name)

  added_inum :
      inum < 2 ^ 32 → entry_inum (added dir name inum s).disk dir.addrs (dir.size / 32) ≡ inum
  added_inum lt =
      rw (slot, spot, last_block)
        (put_entry_inum (s.disk (dir.addrs (dir.size / 4096))) (dir.size % 4096) inum name lt)

  -- the entries that were there keep their names
  kept_named :
      (other : List ℕ) (m : ℕ)
      → length other < 28
      → m < dir.size / 32
      → named (added dir name inum s).disk dir.addrs other m ≡ named s.disk dir.addrs other m
  kept_named other m le lt = elim (ℕ_discrete (m / 128) (dir.size / 4096)) [
    | yes e ↦
        rw (e, last_block)
          (name_matches_frame (s.disk (dir.addrs (dir.size / 4096)))
            (put_entry (s.disk (dir.addrs (dir.size / 4096))) (dir.size % 4096) inum name)
            (entry_offset m + 4) other
            (λ x lo hi.
              put_entry_outside (s.disk (dir.addrs (dir.size / 4096))) (dir.size % 4096) inum x name
                short (inl (omega (arith, d.whole)))))
    | no ne ↦
        let near : m / 128 < dir.size / 4096 = omega (arith, d.whole) in
        let far : (dir.addrs (m / 128) == dir.addrs (dir.size / 4096)) ≡ false =
          ground (arith, d.apart (m / 128) near) in
        ap (λ (b : Block). name_matches b (entry_offset m + 4) other)
          (added_data dir name inum (dir.addrs (m / 128)) s d.inum
              (d.slots (m / 128) (omega arith)).0
            ∙ rw far)
  ]

-- After rfs_add_direntry of a name of less than 28 bytes that the directory does not have yet, where the
-- block of the next entry is there already and is no other block of the directory, rfs_lookup of that name returns the vinode of the inode number added.
pub rfs_lookup-rfs_add_direntry :
    (dir : Vinode) (name : List ℕ) (inum : ℕ) (s : Fs)
    → IsDir dir
    → length name < 28
    → inum < 320
    → ((m : ℕ) → m < dir.size / 32 → named s.disk dir.addrs name m ≡ false)
    → (dir' : Vinode) × (s' s'' : Fs) × (rfs_add_direntry dir name inum s ≡ ok (some dir') s')
      × (rfs_lookup dir' name s' ≡ ok (some (vinode_on s' inum)) s'')
rfs_lookup-rfs_add_direntry dir name inum s d short lt new =
    let dir' = record dir { size = dir.size + 32 } in
    let s' = added dir name inum s in
    let here = (d.slots (dir.size / 4096) (omega arith)).1 in
    let e = added_inum dir name inum s d short (omega arith) in
    let (s'', found, same) =
      (rfs_lookup_first dir' name s' (λ m l. (d.slots (m / 128) (omega arith)).1)).0 (dir.size / 32)
        (omega arith) (λ m l. kept_named dir name inum s d short name m short l ∙ new m l)
        (added-named dir name inum s d short) (rw e lt) in
    (
      dir',
      s',
      s'',
      add-run dir name inum s d.type d.inum (ground arith),
      found ∙ ap (λ i. ok (some (vinode_on s' i)) s'') e,
    )
