-- ===== src/Kernel/Rfs/Dir.antt =====
-- kernel/rfs.c: directories as arrays of 32-byte entries, 128 to a block: an `int` inode number and a
-- name of up to 28 bytes. A C string is the list of its bytes, without the NUL.
pub mod Lookup
pub mod Add
use huster_experiment_pke.Base.{
  ℕ, zero, suc, ◌+◌, ◌-◌, ◌*◌, ◌/◌, ◌%◌, ◌^◌, Bool, true, false, not, ◌&&◌, List, [], ◌∷◌, Option,
  none, some, arith, ltb, leb, ◌==◌, if◌then◌else◌,
}
use huster_experiment_pke.Base.Run.{Run, ok, killed, panic, fault, done, Cmd, and_then}
use huster_experiment_pke.Kernel.Process.{update}
use huster_experiment_pke.Kernel.Ramdev.{Block, Fs}
use huster_experiment_pke.Kernel.Rfs.{
  r_file, r_dir, r_free, Dinode, get_int, put_int, copy_in, rfs_r1block, rfs_w1block,
  rfs_read_dinode, rfs_write_dinode, rfs_alloc_block, rfs_free_block,
}
use huster_experiment_pke.Kernel.Rfs.File.{Vinode, rfs_write_back_vinode, rfs_update_vinode}

-- strcpy(b + off, name)
abbrev pub put_name : Block → ℕ → List ℕ → Block
put_name b off [] = update b off 0
put_name b off (c ∷ cs) = put_name (update b off c) (off + 1) cs

-- `strcmp(b + off, name) == 0`
abbrev pub name_matches : Block → ℕ → List ℕ → Bool
name_matches b off [] = b off == 0
name_matches b off (c ∷ cs) = (b off == c) && name_matches b (off + 1) cs

abbrev pub put_entry : Block → ℕ → ℕ → List ℕ → Block
put_entry b off inum name = put_name (put_int b off inum) (off + 4) name

-- `none` is the return value -1; else 0, with the directory's vinode after the call
unfoldable pub rfs_add_direntry : Vinode → List ℕ → ℕ → Cmd Fs (Option Vinode)
rfs_add_direntry dir name inum s =
    let n_block = dir.addrs (dir.size / 4096) in
    let dir' = record dir { size = dir.size + 32 } in
    if not (dir.type == r_dir)
    then ok none s
    else and_then (rfs_r1block n_block s) (λ _ s₁.
      and_then
        (rfs_w1block n_block
          (record s₁ { iobuffer = put_entry s₁.iobuffer (dir.size % 4096) inum name }))
        (λ _ s₂. and_then (rfs_write_back_vinode dir' s₂) (λ _ s₃. ok (some dir') s₃)))

-- where entry `i` is within its block
abbrev pub entry_offset : ℕ → ℕ
entry_offset i = i % 128 * 32

-- the block of entry `i` is read in at its first entry
abbrev pub at_boundary : (ℕ → ℕ) → ℕ → Cmd Fs ℕ
at_boundary addrs i s = if i % 128 == 0 then rfs_r1block (addrs (i / 128)) s else ok 0 s

-- the first entry named `name` from entry `i` on, `n` entries being left
unfoldable pub find_entry : ℕ → ℕ → (ℕ → ℕ) → List ℕ → Cmd Fs (Option ℕ)
find_entry zero i addrs name s = ok none s
find_entry (suc n) i addrs name s = and_then (at_boundary addrs i s) (λ _ s'.
    elim (name_matches s'.iobuffer (entry_offset i + 4) name) [
      | true ↦ ok (some i) s'
      | false ↦ find_entry n (i + 1) addrs name s'
    ])

-- default_alloc_vinode leaves `type` and `addrs` as they are in the page; both are set before use
abbrev pub new_vinode : ℕ → Vinode
new_vinode inum = record { inum = inum; size = 0; type = 0; nlinks = 0; blocks = 0; addrs = λ _. 0 }

found_entry : Option ℕ → Cmd Fs (Option Vinode)
found_entry none s = ok none s
found_entry (some i) s =
    and_then (rfs_update_vinode (new_vinode (get_int s.iobuffer (entry_offset i))) s)
      (λ v s'. ok (some v) s')

unfoldable pub rfs_lookup : Vinode → List ℕ → Cmd Fs (Option Vinode)
unfolding find_entry found_entry
rfs_lookup parent name s =
    and_then (find_entry (parent.size / 32) 0 parent.addrs name s) found_entry

-- The search for a free inode. When there is none the loop leaves the last inode it has read in
-- `free_dinode`, which is not NULL, and 0 in `free_inum`.
unfoldable pub find_inode : ℕ → ℕ → Dinode → Cmd Fs (ℕ × Dinode)
find_inode zero i last s = ok (0, last) s
find_inode (suc n) i last s =
    and_then (rfs_read_dinode i s)
      (λ d s'. elim (d.type == r_free) [ true ↦ ok (i, d) s' | false ↦ find_inode n (i + 1) d s' ])

abbrev pub no_dinode : Dinode
no_dinode = record { size = 0; type = 0; nlinks = 0; blocks = 0; addrs = λ _. 0 }

abbrev pub fresh_dinode : Dinode → ℕ → ℕ → ℕ → Dinode
fresh_dinode d type blocks block = record {
  size = 0;
  type = type;
  nlinks = 1;
  blocks = blocks;
  addrs = update d.addrs 0 block;
}

-- the new file's vinode and the directory's
unfoldable pub rfs_create : Vinode → List ℕ → Cmd Fs (Option (Vinode × Vinode))
unfolding find_inode
rfs_create parent name s = and_then (find_inode 320 0 no_dinode s) (λ free s₁.
    and_then (rfs_alloc_block s₁) (λ block s₂.
      and_then (rfs_write_dinode (fresh_dinode free.1 r_file 0 block) free.0 s₂) (λ _ s₃.
        and_then (rfs_update_vinode (new_vinode free.0) s₃) (λ v s₄.
          and_then (rfs_add_direntry parent name free.0 s₄)
            (λ p s₅. elim p [ none ↦ ok none s₅ | some q ↦ ok (some (v, q)) s₅ ])))))

unfoldable pub rfs_mkdir : Vinode → List ℕ → Cmd Fs (Option (Vinode × Vinode))
unfolding find_inode
rfs_mkdir parent name s = and_then (find_inode 320 0 no_dinode s) (λ free s₁.
    and_then (rfs_alloc_block s₁) (λ block s₂.
      and_then (rfs_write_dinode (fresh_dinode free.1 r_dir 1 block) free.0 s₂) (λ _ s₃.
        and_then (rfs_add_direntry parent name free.0 s₃) (λ p s₄. elim p [
          | none ↦ ok none s₄
          | some q ↦
              and_then (rfs_update_vinode (new_vinode free.0) s₄) (λ v s₅. ok (some (v, q)) s₅)
        ]))))

or_else : Option Vinode → Vinode → Vinode
or_else none v = v
or_else (some w) v = w

-- the vinodes of the directory and of the linked file; what rfs_add_direntry returns is ignored
unfoldable pub rfs_link : Vinode → List ℕ → Vinode → Cmd Fs (Vinode × Vinode)
unfolding or_else
rfs_link parent name link_node s =
    let linked = record link_node { nlinks = link_node.nlinks + 1 } in
    and_then (rfs_add_direntry parent name link_node.inum s) (λ p s₁.
      and_then (rfs_write_back_vinode linked s₁) (λ _ s₂. ok (or_else p parent, linked) s₂))
