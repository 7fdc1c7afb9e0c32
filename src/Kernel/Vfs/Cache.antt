-- ===== src/Kernel/Vfs/Cache.antt =====
-- The vinode table as a map from superblock and inode number to vinodes.
use huster_experiment_pke.Base.{ℕ, true, false, ◌&&◌, none, some, ◌≡◌, refl, ◌∙◌, arith, ◌==◌}
use huster_experiment_pke.Base.Int.{pos, negsuc}
use huster_experiment_pke.Util.HashTable.{Table}
use huster_experiment_pke.Util.HashTable.Laws.{AllUnique, default_get-default_put}
use huster_experiment_pke.Kernel.Vfs.{
  VinodeKey, vinode_keys, vinode_hash_equal, hash_get_vinode, hash_put_vinode,
}

module _ {V : Type 0} where
  -- A vinode that is not in the table yet is found after hash_put_vinode under its superblock and inode
  -- number, and what is found under all others stays. A negative inode number is refused.
  pub hash_get_vinode-hash_put_vinode :
      (table : Table VinodeKey V) (sb n : ℕ) (v : V)
      → AllUnique vinode_keys table
      → hash_get_vinode table sb (pos n) ≡ none
      → (t : Table VinodeKey V) × (hash_put_vinode table sb (pos n) v ≡ (true, t))
        × AllUnique vinode_keys t
        × (hash_get_vinode t sb (pos n) ≡ some v)
        × ((sb' m : ℕ)
            → (n == m) && (sb == sb') ≡ false
            → hash_get_vinode t sb' (pos m) ≡ hash_get_vinode table sb' (pos m))
        × ((m : ℕ) → hash_put_vinode table sb (negsuc m) v ≡ (false, table))
  unfolding hash_get_vinode hash_put_vinode vinode_keys vinode_hash_equal
  hash_get_vinode-hash_put_vinode table sb n v u new =
      let (t, run, unique, get) =
        default_get-default_put vinode_keys table (record { inum = n; sb = sb }) v u new in
      (
        t,
        run,
        unique,
        get (record { inum = n; sb = sb }) ∙ ground arith,
        λ sb' m ne. get (record { inum = m; sb = sb' }) ∙ rw ne,
        λ m. refl,
      )
