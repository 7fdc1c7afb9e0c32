-- ===== src/Kernel/Vfs/Tests.antt =====
-- The vinode table, empty, and the theorem on it.
use huster_experiment_pke.Base.{
  ℕ, List, ◌+◌, true, false, ◌&&◌, none, some, [], ◌∷◌, ◌≡◌, refl, ◌==◌, if◌then◌else◌, arith,
}
use huster_experiment_pke.Base.Int.{pos, negsuc}
use huster_experiment_pke.Util.HashTable.{Table, hash_table_init, default_get, default_put}
use huster_experiment_pke.Util.HashTable.Laws.{AllUnique}
use huster_experiment_pke.Kernel.Vfs.Walk.{Vfs, Result, lookup_final_dentry, vfs_rcwd}
use huster_experiment_pke.Kernel.Vfs.Walk.Rcwd.{
  Cached, here, down, lookup_final_dentry-vfs_rcwd, vfs_rcwd_overruns,
}
use huster_experiment_pke.Base.Run.{ok, fault}
use huster_experiment_pke.Kernel.Vfs.{
  VinodeKey, dentry_keys, vinode_keys, dentry_hash_equal, dentry_hash_func, hash_get_dentry,
  hash_put_dentry, hash_get_vinode, hash_put_vinode,
}
use huster_experiment_pke.Kernel.Vfs.Cache.{hash_get_vinode-hash_put_vinode}

abbrev empty : Table VinodeKey ℕ
empty = λ i. []

empty-none : hash_get_vinode empty 1 (pos 3) ≡ none
unfolding hash_get_vinode default_get
empty-none = refl

hash_get_vinode-hash_put_vinode_example :
    (t : Table VinodeKey ℕ) × (hash_put_vinode empty 1 (pos 3) 77 ≡ (true, t))
    × AllUnique vinode_keys t
    × (hash_get_vinode t 1 (pos 3) ≡ some 77)
    × ((sb' m : ℕ)
        → (3 == m) && (1 == sb') ≡ false
        → hash_get_vinode t sb' (pos m) ≡ hash_get_vinode empty sb' (pos m))
    × ((m : ℕ) → hash_put_vinode empty 1 (negsuc m) 77 ≡ (false, empty))
hash_get_vinode-hash_put_vinode_example =
    hash_get_vinode-hash_put_vinode empty 1 3 77 (λ i. tt) empty-none

-- the directory "bin" below the root, at 7000 and 5000
abbrev tree : Vfs
tree = record {
  dentries = λ d. record {
    name = if d == 7000 then 98 ∷ 105 ∷ 110 ∷ [] else 47 ∷ [];
    d_ref = 0;
    dentry_inode = d + 1;
    parent = if d == 7000 then some 5000 else none;
  };
  vinodes = λ i. record { inum = pos i; sb = 1; ref = 1; nlinks = 1 };
  dentry_hash_table =
      (hash_put_dentry (hash_table_init dentry_keys)
        (record { parent = 5000; name = 98 ∷ 105 ∷ 110 ∷ [] }) 7000).1;
  vinode_hash_table = hash_table_init vinode_keys;
  root = 5000;
  fresh = 9000;
}

bin-Cached : Cached tree 7000 5000 ((98 ∷ 105 ∷ 110 ∷ []) ∷ [])
unfolding hash_get_dentry hash_put_dentry hash_table_init default_get default_put dentry_keys
    dentry_hash_func dentry_hash_equal
bin-Cached =
    down 5000 7000 (98 ∷ 105 ∷ 110 ∷ []) refl refl refl (omega arith) (omega arith, ground arith)
      here

lookup_final_dentry-vfs_rcwd_example :
    (p : List ℕ) × (r : Result) × (vfs_rcwd 4 7000 tree ≡ ok p tree)
    × (p ≡ 47 ∷ 98 ∷ 105 ∷ 110 ∷ [])
    × (lookup_final_dentry (λ n name. none) p 5000 tree ≡ ok r tree)
    × (r.dentry ≡ some 7000)
lookup_final_dentry-vfs_rcwd_example =
    lookup_final_dentry-vfs_rcwd (λ n name. none) tree 7000 ((98 ∷ 105 ∷ 110 ∷ []) ∷ []) 4
      bin-Cached (omega arith) (omega arith)

-- a directory of that name in a directory of the same name, and so on: the name has 15 letters
abbrev deep_name : List ℕ
deep_name = 97 ∷ 98 ∷ 99 ∷ 97 ∷ 98 ∷ 99 ∷ 97 ∷ 98 ∷ 99 ∷ 97 ∷ 98 ∷ 99 ∷ 97 ∷ 98 ∷ 99 ∷ []

abbrev deep : Vfs
deep = record tree {
  dentries = λ d. record {
    name = deep_name;
    d_ref = 0;
    dentry_inode = d + 1;
    parent = if d == 7000 then some 6000 else (if d == 6000 then some 5000 else none);
  };
  dentry_hash_table =
      (hash_put_dentry
        (hash_put_dentry (hash_table_init dentry_keys) (record { parent = 5000; name = deep_name })
          6000).1
        (record { parent = 6000; name = deep_name }) 7000).1;
}

deep-Cached : Cached deep 7000 5000 (deep_name ∷ deep_name ∷ [])
unfolding hash_get_dentry hash_put_dentry hash_table_init default_get default_put dentry_keys
    dentry_hash_func dentry_hash_equal
deep-Cached =
    down 5000 6000 deep_name refl refl refl (omega arith) (ground arith, ground arith)
      (down 6000 7000 deep_name refl refl refl (omega arith) (ground arith, ground arith) here)

vfs_rcwd_overruns_example : vfs_rcwd 4 7000 deep ≡ fault
vfs_rcwd_overruns_example =
    vfs_rcwd_overruns deep 7000 (deep_name ∷ deep_name ∷ []) 4 deep-Cached (omega arith)
      (omega arith)
