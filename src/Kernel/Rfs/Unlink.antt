-- ===== src/Kernel/Rfs/Unlink.antt =====
-- kernel/rfs.c: rfs_unlink, and rfs_readdir on the cache that rfs_hook_opendir fills.
use huster_experiment_pke.Base.{
  ℕ, zero, suc, ◌+◌, ◌-◌, ◌*◌, ◌/◌, ◌%◌, ◌^◌, not, ◌&&◌, List, Option, none, some, ltb, leb, ◌==◌,
  if◌then◌else◌,
}
use huster_experiment_pke.Base.Run.{ok, panic, fault, Cmd, and_then}
use huster_experiment_pke.Kernel.Ramdev.{Block, Fs}
use huster_experiment_pke.Kernel.Rfs.{
  r_free, Dinode, get_int, copy_in, rfs_r1block, rfs_w1block, rfs_read_dinode, rfs_write_dinode,
  rfs_free_block,
}
use huster_experiment_pke.Kernel.Rfs.File.{Vinode, rfs_write_back_vinode}
use huster_experiment_pke.Kernel.Rfs.Dir.{entry_offset, find_entry}

-- the memmove that closes the gap of entry `o` within its block
abbrev pub close_gap : Block → ℕ → Block
close_gap b o = copy_in b (o * 32) (λ j. b ((o + 1) * 32 + j)) ((128 - o - 1) * 32)

-- The loop over the blocks from `i` on, `n` of them: the first entry of each moves to the end of the
-- block before it, which is `previous` and is written then.
unfoldable pub shift_blocks : ℕ → ℕ → (ℕ → ℕ) → Block → Cmd Fs Block
shift_blocks zero i addrs previous s = ok previous s
shift_blocks (suc n) i addrs previous s = and_then (rfs_r1block (addrs i) s) (λ _ s₁.
    let this = s₁.iobuffer in
    and_then (rfs_w1block (addrs (i - 1)) (record s₁ { iobuffer = copy_in previous 4064 this 32 }))
      (λ _ s₂. shift_blocks n (i + 1) addrs (close_gap this 0) s₂))

-- `for (int i = 0; i < unlink_dinode->blocks; ++i) rfs_free_block(...)`
unfoldable pub free_blocks : ℕ → ℕ → (ℕ → ℕ) → Cmd Fs ℕ
free_blocks zero i addrs s = ok 0 s
free_blocks (suc n) i addrs s =
    and_then (rfs_free_block (addrs i) s) (λ _ s'. free_blocks n (i + 1) addrs s')

-- the disk inode with its new link count, free with its blocks when the count has come to 0
abbrev pub release : Dinode → ℕ → Cmd Fs Dinode
release d nlinks s =
    if nlinks == 0
    then and_then (free_blocks d.blocks 0 d.addrs s)
        (λ _ s'. ok (record d { nlinks = nlinks; type = r_free }) s')
    else ok (record d { nlinks = nlinks }) s

-- the last block of the directory is given back when it has become empty
abbrev pub trim : Vinode → Cmd Fs Vinode
trim parent s =
    if ((parent.size / 32 - 1) % 128 == 0) && ltb 1 parent.blocks
    then and_then (rfs_free_block (parent.addrs (parent.blocks - 1)) s)
        (λ _ s'. ok (record parent { blocks = parent.blocks - 1 }) s')
    else ok parent s

-- entry `i` is taken out of the directory file
unfoldable pub remove_entry : Vinode → ℕ → Cmd Fs Vinode
unfolding shift_blocks
remove_entry parent i s =
    let first = i / 128 in
    and_then (rfs_r1block (parent.addrs first) s) (λ _ s₁.
      and_then
        (shift_blocks (parent.blocks - (first + 1)) (first + 1) parent.addrs
          (close_gap s₁.iobuffer (i % 128)) s₁)
        (λ last s₂.
          and_then (rfs_w1block (parent.addrs (parent.blocks - 1)) (record s₂ { iobuffer = last }))
            (λ _ s₃. and_then (trim parent s₃) (λ p s₄.
              and_then (rfs_write_back_vinode (record p { size = p.size - 32 }) s₄)
                (λ _ s₅. ok (record p { size = p.size - 32 }) s₅)))))

-- `unlink_vinode->nlinks--` on an `int`
abbrev pub less_one : ℕ → ℕ
less_one n = (n + 2 ^ 32 - 1) % 2 ^ 32

unlink_entry : Vinode → Vinode → ℕ → Cmd Fs (Option (Vinode × Vinode))
unfolding free_blocks remove_entry
unlink_entry parent v i s =
    let inum = get_int s.iobuffer (entry_offset i) in
    and_then (rfs_read_dinode inum s) (λ d s₁.
      if not (v.nlinks == d.nlinks)
      then panic
      else and_then (release d (less_one v.nlinks) s₁) (λ d' s₂.
        and_then (rfs_write_dinode d' inum s₂) (λ _ s₃.
          and_then (remove_entry parent i s₃)
            (λ p s₄. ok (some (p, record v { nlinks = less_one v.nlinks })) s₄))))

unlink_found : Vinode → Vinode → Option ℕ → Cmd Fs (Option (Vinode × Vinode))
unfolding unlink_entry
unlink_found parent v none s = ok none s
unlink_found parent v (some i) s = unlink_entry parent v i s

-- In a directory without entries the pointer to the entry is NULL when `p_direntry->inum` is read,
-- which the code does before it tests whether the name was found.
unfoldable pub rfs_unlink : Vinode → List ℕ → Vinode → Cmd Fs (Option (Vinode × Vinode))
unfolding find_entry unlink_found
rfs_unlink parent name v s =
    if parent.size / 32 == 0
    then fault
    else and_then (find_entry (parent.size / 32) 0 parent.addrs name s) (unlink_found parent v)

-- struct dir
pub record DirRecord : Type 0 where
  pub name : Block
  pub inum : ℕ

-- `cache` is the memory at `dir_base_addr`. 29 bytes of name are copied, the last of them from the
-- next entry. The result is the entry and the new offset; `none` is -1.
unfoldable pub rfs_readdir : Vinode → Block → DirRecord → ℕ → Option (DirRecord × ℕ)
rfs_readdir dir_vinode cache dir offset =
    if leb (dir_vinode.size / 32) offset
    then none
    else some (
      record {
        name = copy_in dir.name 0 (λ j. cache (offset * 32 + 4 + j)) 29;
        inum = get_int cache (offset * 32);
      },
      offset + 1,
    )
