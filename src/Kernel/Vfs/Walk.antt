-- ===== src/Kernel/Vfs/Walk.antt =====
-- kernel/vfs.c: the path walk through the dentry table and the directories behind it, and the path of
-- the current directory. Dentries and vinodes live at their addresses, and NULL is 0 in a key of the
-- table; a page given back is not handed out again. A string that its buffer cannot hold, and a step
-- through NULL, are faults.
pub mod Rcwd
use huster_experiment_pke.Base.{
  ℕ, zero, suc, ◌+◌, Bool, true, false, not, ◌&&◌, List, [], ◌∷◌, ◌++◌, Option, none, some, length,
  ltb, ◌==◌, if◌then◌else◌,
}
use huster_experiment_pke.Base.Run.{Run, ok, fault}
use huster_experiment_pke.Base.Int.{ℤ}
use huster_experiment_pke.Util.HashTable.{Table}
use huster_experiment_pke.Kernel.Process.{update}
use huster_experiment_pke.Kernel.Vfs.{
  DentryKey, VinodeKey, hash_get_dentry, hash_put_dentry, hash_get_vinode, hash_put_vinode,
}

pub record Dentry : Type 0 where
  pub name : List ℕ
  pub d_ref : ℕ
  pub dentry_inode : ℕ
  pub parent : Option ℕ

-- the fields of a vinode that this layer reads and writes
pub record Node : Type 0 where
  pub inum : ℤ
  pub sb : ℕ
  pub ref : ℕ
  pub nlinks : ℕ

-- `fresh` is the address of the next page handed out
pub record Vfs : Type 0 where
  pub dentries : ℕ → Dentry
  pub vinodes : ℕ → Node
  pub dentry_hash_table : Table DentryKey ℕ
  pub vinode_hash_table : Table VinodeKey ℕ
  pub root : ℕ
  pub fresh : ℕ

-- the dentry found or NULL, the last parent or NULL, and the name that is missing
pub record Result : Type 0 where
  pub dentry : Option ℕ
  pub parent : Option ℕ
  pub miss_name : List ℕ

-- the size of the buffers that hold a path
abbrev pub max_path_len : ℕ
max_path_len = 30

-- with the NUL behind it
unfoldable pub fits : List ℕ → Bool
fits s = ltb (length s) max_path_len

abbrev pub address : Option ℕ → ℕ
address none = 0
address (some a) = a

abbrev pub slash : ℕ
slash = 47

abbrev pub dot : ℕ
dot = 46

-- the tokens that strtok(_, "/") gives one after the other
abbrev pub in_word : List ℕ → Bool
in_word [] = false
in_word (c ∷ cs) = not (c == slash)

abbrev pub prefix : ℕ → Bool → List (List ℕ) → List (List ℕ)
prefix c true (t ∷ ts) = (c ∷ t) ∷ ts
prefix c true [] = (c ∷ []) ∷ []
prefix c false ts = (c ∷ []) ∷ ts

unfoldable pub tokens : List ℕ → List (List ℕ)
tokens [] = []
tokens (c ∷ cs) = let rest = tokens cs in if c == slash then rest else prefix c (in_word cs) rest

-- the vinode of the new dentry `d`: the one in the table, or the one found, in a page of its own
abbrev pub share_vinode : ℕ → Option ℕ → Node → Vfs → Vfs
share_vinode d (some i) found v = record v {
  vinodes = update v.vinodes i (record (v.vinodes i) { ref = (v.vinodes i).ref + 1 });
  dentries = update v.dentries d (record (v.dentries d) { dentry_inode = i });
}
share_vinode d none found v = record v {
  vinodes = update v.vinodes (d + 1) (record found { ref = found.ref + 1 });
  dentries = update v.dentries d (record (v.dentries d) { dentry_inode = d + 1 });
  vinode_hash_table = (hash_put_vinode v.vinode_hash_table found.sb found.inum (d + 1)).1;
}

-- alloc_vfs_dentry(token, NULL, parent)
unfoldable pub alloc_vfs_dentry : List ℕ → ℕ → Vfs → Vfs
alloc_vfs_dentry token parent v = record v {
  dentries =
      update v.dentries v.fresh
        (record { name = token; d_ref = 0; dentry_inode = 0; parent = some parent });
  fresh = v.fresh + 2;
}

-- the dentry and the vinode of an entry that the directory on the disk has
unfoldable pub enter : List ℕ → ℕ → Node → Vfs → Vfs
unfolding alloc_vfs_dentry
enter token parent found v =
    let d = v.fresh in
    let v₁ =
      share_vinode d (hash_get_vinode v.vinode_hash_table found.sb found.inum) found
        (alloc_vfs_dentry token parent v) in
    record v₁ {
      dentry_hash_table =
          (hash_put_dentry v₁.dentry_hash_table (record { parent = parent; name = token }) d).1;
    }

-- "./" and "../" in front of a path
abbrev pub after_dot : List ℕ → List ℕ
after_dot (a ∷ b ∷ cs) = if (a == dot) && (b == slash) then cs else a ∷ b ∷ cs
after_dot cs = cs

abbrev pub after_dots : Option ℕ → Option ℕ → List ℕ → Option ℕ × List ℕ
after_dots p up (a ∷ b ∷ c ∷ cs) =
    if (a == dot) && (b == dot) && (c == slash) then (up, cs) else (p, a ∷ b ∷ c ∷ cs)
after_dots p up cs = (p, cs)

-- "." and ".."
abbrev pub is_dot : List ℕ → Bool
is_dot (a ∷ []) = a == dot
is_dot cs = false

abbrev pub is_dots : List ℕ → Bool
is_dots (a ∷ b ∷ []) = (a == dot) && (b == dot)
is_dots cs = false

-- What the file system behind a directory answers to viop_lookup: the vinode of the name, or NULL.
module _ (viop_lookup : Node → List ℕ → Option Node) where
  -- the loop over the tokens, at the dentry `this`; `(*parent)->dentry_inode` wants a dentry
  unfoldable pub lookup_tokens : List (List ℕ) → Option ℕ → Option ℕ → Vfs → Run Vfs Result
  lookup_tokens [] this parent v = ok (record { dentry = this; parent = parent; miss_name = [] }) v
  lookup_tokens (token ∷ ts) this parent v =
      elim (hash_get_dentry v.dentry_hash_table (address this) token) [
        | some d ↦ lookup_tokens ts (some d) this v
        | none ↦ elim this [
          | none ↦ fault
          | some a ↦ elim (viop_lookup (v.vinodes (v.dentries a).dentry_inode) token) [
            | none ↦ ok (record { dentry = none; parent = some a; miss_name = token }) v
            | some found ↦ lookup_tokens ts (some v.fresh) (some a) (enter token a found v)
          ]
        ]
      ]

  abbrev pub found_at : Option ℕ → Vfs → Run Vfs Result
  found_at d v = ok (record { dentry = d; parent = d; miss_name = [] }) v

  abbrev pub found_above : Option ℕ → Vfs → Run Vfs Result
  found_above none v = fault
  found_above (some a) v = found_at (v.dentries a).parent v

  -- the path behind the prefixes, from `parent`; it is copied into a buffer
  unfoldable pub lookup_rest : Option ℕ → List ℕ → Vfs → Run Vfs Result
  lookup_rest parent path v =
      if is_dot path
      then found_at parent v
      else (if is_dots path
          then found_above parent v
          else (if fits path then lookup_tokens (tokens path) parent parent v else fault))

  unfoldable pub lookup_final_dentry : List ℕ → ℕ → Vfs → Run Vfs Result
  unfolding lookup_rest
  lookup_final_dentry path parent v =
      let (p, rest) = after_dots (some parent) (v.dentries parent).parent (after_dot path) in
      lookup_rest p rest v

-- vfs_rcwd: the path of `cur`, in front of the one in `temp_buf`, written into `new_buf`; the fuel is
-- above the depth of the tree, and a loop that runs out of it faults
unfoldable pub path_of : ℕ → Option ℕ → List ℕ → Vfs → Run Vfs (List ℕ)
path_of fuel none temp_buf v = fault
path_of zero (some cur) temp_buf v = fault
path_of (suc fuel) (some cur) temp_buf v = elim (cur == v.root) [
  | true ↦ ok temp_buf v
  | false ↦ elim (fits (slash ∷ (v.dentries cur).name ++ temp_buf)) [
    | true ↦ path_of fuel (v.dentries cur).parent (slash ∷ (v.dentries cur).name ++ temp_buf) v
    | false ↦ fault
  ]
]

-- the path that is copied to `pathbuf`, which is there, like `cwd`
unfoldable pub vfs_rcwd : ℕ → ℕ → Vfs → Run Vfs (List ℕ)
unfolding path_of
vfs_rcwd fuel cwd v = if cwd == v.root then ok (slash ∷ []) v else path_of fuel (some cwd) [] v
