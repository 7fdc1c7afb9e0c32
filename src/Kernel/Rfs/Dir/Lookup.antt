-- ===== src/Kernel/Rfs/Dir/Lookup.antt =====
-- rfs_lookup finds the first entry of the name, and what rfs_add_direntry has added.
use native.Mathlib.Decide.{ℕ_discrete}
use huster_experiment_pke.Base.{
  ℕ, zero, suc, ◌+◌, ◌/◌, ◌%◌, ◌≤◌, ◌<◌, ◌≡◌, refl, ◌∙◌, ap, true, false, arith, leb, ◌==◌,
  Bool-cases, inl, inr, ◌⊎◌, List, Option, none, some, Bool,
}
use huster_experiment_pke.Base.Run.{Run, ok}
use huster_experiment_pke.Kernel.Ramdev.{Block, Fs}
use huster_experiment_pke.Kernel.Rfs.{get_int, dinode_at, inode_block, inode_offset}
use huster_experiment_pke.Kernel.Rfs.Layout.{read_dinode-run}
use huster_experiment_pke.Kernel.Rfs.File.{Vinode, with_dinode, rfs_update_vinode}
use huster_experiment_pke.Kernel.Rfs.Dir.{
  name_matches, entry_offset, at_boundary, find_entry, found_entry, new_vinode, rfs_lookup,
}

-- whether entry `i` of the directory has the name
abbrev pub named : (ℕ → Block) → (ℕ → ℕ) → List ℕ → ℕ → Bool
named disk addrs name i = name_matches (disk (addrs (i / 128))) (entry_offset i + 4) name

-- the inode number in entry `i`
abbrev pub entry_inum : (ℕ → Block) → (ℕ → ℕ) → ℕ → ℕ
entry_inum disk addrs i = get_int (disk (addrs (i / 128))) (entry_offset i)

-- the iobuffer holds the block of entry `i`, unless the next step reads it
abbrev Current : Fs → (ℕ → ℕ) → ℕ → Type 0
Current s addrs i = (i % 128 ≡ 0) ⊎ (s.iobuffer ≡ s.disk (addrs (i / 128)))

abbrev pub loaded : Fs → ℕ → Fs
loaded s a = record s { iobuffer = s.disk a }

at_boundary-run :
    (addrs : ℕ → ℕ) (i : ℕ) (s : Fs)
    → addrs (i / 128) < 128
    → Current s addrs i
    → at_boundary addrs i s ≡ ok 0 (loaded s (addrs (i / 128)))
at_boundary-run addrs i s lt (inl e) =
    let test : leb 128 (addrs (i / 128)) ≡ false = ground arith in rw (e, test)
at_boundary-run addrs i s lt (inr e) = elim (Bool-cases (i % 128 == 0)) [
  | inl b ↦ let test : leb 128 (addrs (i / 128)) ≡ false = ground arith in rw (b, test)
  | inr b ↦ rw b (ap (λ (x : Block). ok 0 (record s { iobuffer = x })) e)
]

find_entry-suc :
    (n i : ℕ) (addrs : ℕ → ℕ) (name : List ℕ) (s : Fs)
    → addrs (i / 128) < 128
    → Current s addrs i
    → find_entry (suc n) i addrs name s ≡ elim (named s.disk addrs name i) [
      | true ↦ ok (some i) (loaded s (addrs (i / 128)))
      | false ↦ find_entry n (i + 1) addrs name (loaded s (addrs (i / 128)))
    ]
unfolding find_entry
find_entry-suc n i addrs name s lt cur = rw (at_boundary-run addrs i s lt cur)

next_Current : (addrs : ℕ → ℕ) (i : ℕ) (s : Fs) → Current (loaded s (addrs (i / 128))) addrs (i + 1)
next_Current addrs i s = elim (Bool-cases ((i + 1) % 128 == 0)) [
  | inl b ↦ inl (ground arith)
  | inr b ↦
      let same : i / 128 ≡ (i + 1) / 128 = ground arith in inr (ap (λ q. s.disk (addrs q)) same)
]

pub find_entry-found :
    (n i j : ℕ) (addrs : ℕ → ℕ) (name : List ℕ) (s : Fs)
    → i ≤ j
    → j < i + n
    → ((m : ℕ) → m < i + n → addrs (m / 128) < 128)
    → ((m : ℕ) → i ≤ m → m < j → named s.disk addrs name m ≡ false)
    → named s.disk addrs name j ≡ true
    → Current s addrs i
    → find_entry n i addrs name s ≡ ok (some j) (loaded s (addrs (j / 128)))
unfolding find_entry
find_entry-found zero i j addrs name s le lt back before here cur = absurd (omega arith)
find_entry-found (suc n) i j addrs name s le lt back before here cur = elim (ℕ_discrete i j) [
  | yes e ↦
      let now : named s.disk addrs name i ≡ true = rw e here in
      find_entry-suc n i addrs name s (back i (omega arith)) cur
      ∙ rw now (ap (λ (m : ℕ). ok (some m) (loaded s (addrs (m / 128)))) e)
  | no ne ↦
      let other : named s.disk addrs name i ≡ false = before i (omega arith) (omega arith) in
      find_entry-suc n i addrs name s (back i (omega arith)) cur
      ∙ rw other (
          find_entry-found n (i + 1) j addrs name (loaded s (addrs (i / 128))) (omega arith)
            (omega arith) (λ m l. back m (omega arith)) (λ m lo hi. before m (omega arith) hi) here
            (next_Current addrs i s))
]

-- the search of a name that is not there reads blocks and changes nothing else
pub record Missed (s : Fs) (r : Run Fs (Option ℕ)) : Type 0 where
  pub after : Fs
  pub run : r ≡ ok none after
  pub kept : after.disk ≡ s.disk

pub find_entry-Missed :
    (n i : ℕ) (addrs : ℕ → ℕ) (name : List ℕ) (s : Fs)
    → ((m : ℕ) → m < i + n → addrs (m / 128) < 128)
    → ((m : ℕ) → i ≤ m → m < i + n → named s.disk addrs name m ≡ false)
    → Current s addrs i
    → Missed s (find_entry n i addrs name s)
unfolding find_entry
find_entry-Missed zero i addrs name s back absent cur = record {
  after = s;
  run = refl;
  kept = refl;
}
find_entry-Missed (suc n) i addrs name s back absent cur =
    let other : named s.disk addrs name i ≡ false = absent i (omega arith) (omega arith) in
    let rest =
      find_entry-Missed n (i + 1) addrs name (loaded s (addrs (i / 128)))
        (λ m l. back m (omega arith)) (λ m lo hi. absent m (omega arith) (omega arith))
        (next_Current addrs i s) in
    record {
      after = rest.after;
      run = find_entry-suc n i addrs name s (back i (omega arith)) cur ∙ rw other rest.run;
      kept = rest.kept;
    }

-- the vinode that the disk inode `inum` gives
abbrev pub vinode_on : Fs → ℕ → Vinode
vinode_on s inum =
    with_dinode (new_vinode inum) (dinode_at (s.disk (inode_block inum)) (inode_offset inum))

pub update_vinode-run :
    (s : Fs) (inum : ℕ)
    → inum < 320
    → rfs_update_vinode (new_vinode inum) s ≡ ok (vinode_on s inum) (loaded s (inode_block inum))
unfolding rfs_update_vinode
update_vinode-run s inum lt = rw (read_dinode-run s inum lt)

-- rfs_lookup returns the vinode of the first entry of the name, made from its disk inode. When no
-- entry has the name it returns none; the disk stays as it is.
pub rfs_lookup_first :
    (parent : Vinode) (name : List ℕ) (s : Fs)
    → ((m : ℕ) → m < parent.size / 32 → parent.addrs (m / 128) < 128)
    → ((j : ℕ)
        → j < parent.size / 32
        → ((m : ℕ) → m < j → named s.disk parent.addrs name m ≡ false)
        → named s.disk parent.addrs name j ≡ true
        → entry_inum s.disk parent.addrs j < 320
        → (s' : Fs) × (rfs_lookup parent name s
            ≡ ok (some (vinode_on s (entry_inum s.disk parent.addrs j))) s')
          × (s'.disk ≡ s.disk))
      × (((m : ℕ) → m < parent.size / 32 → named s.disk parent.addrs name m ≡ false)
          → (s' : Fs) × (rfs_lookup parent name s ≡ ok none s') × (s'.disk ≡ s.disk))
unfolding rfs_lookup found_entry
rfs_lookup_first parent name s back = (
  λ j lt before here fits.
      let run =
        find_entry-found (parent.size / 32) 0 j parent.addrs name s (omega arith) (omega arith)
          (λ m l. back m (omega arith)) (λ m lo hi. before m hi) here (inl refl) in
      let inum = entry_inum s.disk parent.addrs j in
      (
        loaded s (inode_block inum),
        rw run (rw (update_vinode-run (loaded s (parent.addrs (j / 128))) inum fits)),
        refl,
      ),
  λ absent.
      let miss =
        find_entry-Missed (parent.size / 32) 0 parent.addrs name s (λ m l. back m (omega arith))
          (λ m lo hi. absent m (omega arith)) (inl refl) in
      (miss.after, rw miss.run, miss.kept),
)
