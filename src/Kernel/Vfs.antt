-- ===== src/Kernel/Vfs.antt =====
-- kernel/vfs.c: the keys of the dentry and vinode hash tables. A pointer is its address, and the name
-- of a dentry the list of its bytes without the NUL.
pub mod Cache
pub mod Walk
mod Tests
use huster_experiment_pke.Base.{
  ℕ, ◌+◌, ◌*◌, ◌%◌, ◌^◌, ◌<◌, Bool, true, false, ◌&&◌, List, [], ◌∷◌, Option, none, some, ◌≡◌, refl,
  sym, ◌∙◌, ap, arith, ◌==◌, if◌then◌else◌,
}
use huster_experiment_pke.Base.Int.{ℤ, pos, negsuc}
use huster_experiment_pke.Util.HashTable.{
  hash_table_init, HashKey, Table, default_get, default_put, default_erase,
}

pub record DentryKey : Type 0 where
  pub parent : ℕ
  pub name : List ℕ

pub record VinodeKey : Type 0 where
  pub inum : ℕ
  pub sb : ℕ

-- `strcmp(a, b) == 0`
pub same_name : List ℕ → List ℕ → Bool
same_name [] [] = true
same_name [] (y ∷ ys) = false
same_name (x ∷ xs) [] = false
same_name (x ∷ xs) (y ∷ ys) = (x == y) && same_name xs ys

unfoldable pub dentry_hash_equal : DentryKey → DentryKey → Bool
unfolding same_name
dentry_hash_equal a b = same_name a.name b.name && (a.parent == b.parent)

pub hash_bytes : List ℕ → ℕ → ℕ
hash_bytes [] hash = hash
hash_bytes (c ∷ cs) hash = hash_bytes cs ((hash * 32 + hash + c) % 2 ^ 64)

unfoldable pub dentry_hash_func : DentryKey → ℕ
unfolding hash_bytes
dentry_hash_func key =
    let hash = hash_bytes key.name 5381 in (hash * 32 + hash + key.parent) % 2 ^ 64 % 128

unfoldable pub vinode_hash_equal : VinodeKey → VinodeKey → Bool
vinode_hash_equal a b = (a.inum == b.inum) && (a.sb == b.sb)

unfoldable pub vinode_hash_func : VinodeKey → ℕ
vinode_hash_func key = key.inum % 128

same_name-eq : (xs ys : List ℕ) → same_name xs ys ≡ true → xs ≡ ys
unfolding same_name
same_name-eq [] [] e = refl
same_name-eq [] (y ∷ ys) e = cc
same_name-eq (x ∷ xs) [] e = cc
same_name-eq (x ∷ xs) (y ∷ ys) e = ground (arith, same_name-eq xs ys)

pub same_name_refl : (xs : List ℕ) → same_name xs xs ≡ true
unfolding same_name
same_name_refl [] = refl
same_name_refl (x ∷ xs) = ground (arith, same_name_refl xs)

pub same_name_sym : (xs ys : List ℕ) → same_name xs ys ≡ same_name ys xs
unfolding same_name
same_name_sym [] [] = refl
same_name_sym [] (y ∷ ys) = refl
same_name_sym (x ∷ xs) [] = refl
same_name_sym (x ∷ xs) (y ∷ ys) = ground (arith, same_name_sym xs ys)

pub dentry_equal-name : (a b : DentryKey) → dentry_hash_equal a b ≡ true → a.name ≡ b.name
unfolding dentry_hash_equal
dentry_equal-name a b e = same_name-eq a.name b.name (ground arith)

pub dentry_equal-parent : (a b : DentryKey) → dentry_hash_equal a b ≡ true → a.parent ≡ b.parent
unfolding dentry_hash_equal
dentry_equal-parent a b e = ground arith

pub dentry_equal_refl : (a : DentryKey) → dentry_hash_equal a a ≡ true
unfolding dentry_hash_equal
dentry_equal_refl a = ground (arith, same_name_refl a.name)

pub dentry_equal_sym : (a b : DentryKey) → dentry_hash_equal a b ≡ dentry_hash_equal b a
unfolding dentry_hash_equal
dentry_equal_sym a b = ground (arith, same_name_sym a.name b.name)

pub dentry_equal_trans :
    (a b c : DentryKey)
    → dentry_hash_equal a b ≡ true
    → dentry_hash_equal a c ≡ dentry_hash_equal b c
unfolding dentry_hash_equal
dentry_equal_trans a b c e = rw (dentry_equal-name a b e, dentry_equal-parent a b e)

pub dentry_same_chain :
    (a b : DentryKey) → dentry_hash_equal a b ≡ true → dentry_hash_func a ≡ dentry_hash_func b
unfolding dentry_hash_func
dentry_same_chain a b e = rw (dentry_equal-name a b e, dentry_equal-parent a b e)

pub dentry_in_table : (a : DentryKey) → dentry_hash_func a < 128
unfolding dentry_hash_func
dentry_in_table a = omega arith

pub vinode_equal_refl : (a : VinodeKey) → vinode_hash_equal a a ≡ true
unfolding vinode_hash_equal
vinode_equal_refl a = ground arith

pub vinode_equal_sym : (a b : VinodeKey) → vinode_hash_equal a b ≡ vinode_hash_equal b a
unfolding vinode_hash_equal
vinode_equal_sym a b = ground arith

pub vinode_equal_trans :
    (a b c : VinodeKey)
    → vinode_hash_equal a b ≡ true
    → vinode_hash_equal a c ≡ vinode_hash_equal b c
unfolding vinode_hash_equal
vinode_equal_trans a b c e = ground arith

pub vinode_same_chain :
    (a b : VinodeKey) → vinode_hash_equal a b ≡ true → vinode_hash_func a ≡ vinode_hash_func b
unfolding vinode_hash_equal vinode_hash_func
vinode_same_chain a b e = ground arith

pub vinode_in_table : (a : VinodeKey) → vinode_hash_func a < 128
unfolding vinode_hash_func
vinode_in_table a = omega arith

-- the dentry table's functions meet what the hash table asks of them
unfoldable pub dentry_keys : HashKey DentryKey
dentry_keys = record {
  virtual_hash_equal = dentry_hash_equal;
  virtual_hash_func = dentry_hash_func;
  equal_refl = dentry_equal_refl;
  equal_trans = dentry_equal_trans;
  equal_sym = dentry_equal_sym;
  same_chain = dentry_same_chain;
  in_table = dentry_in_table;
}

-- and so do the vinode table's
unfoldable pub vinode_keys : HashKey VinodeKey
vinode_keys = record {
  virtual_hash_equal = vinode_hash_equal;
  virtual_hash_func = vinode_hash_func;
  equal_refl = vinode_equal_refl;
  equal_trans = vinode_equal_trans;
  equal_sym = vinode_equal_sym;
  same_chain = vinode_same_chain;
  in_table = vinode_in_table;
}

-- the tables' own interface; `V` is the type of the pointers stored
module _ {V : Type 0} where
  unfoldable pub hash_get_dentry : Table DentryKey V → ℕ → List ℕ → Option V
  hash_get_dentry table parent name =
      default_get dentry_keys table (record { parent = parent; name = name })

  -- `true` for the return value 0
  unfoldable pub hash_put_dentry : Table DentryKey V → DentryKey → V → Bool × Table DentryKey V
  hash_put_dentry table key dentry = default_put dentry_keys table key dentry

  unfoldable pub hash_erase_dentry : Table DentryKey V → DentryKey → Bool × Table DentryKey V
  hash_erase_dentry table key = default_erase dentry_keys table key

  unfoldable pub hash_get_vinode : Table VinodeKey V → ℕ → ℤ → Option V
  hash_get_vinode table sb (pos n) = default_get vinode_keys table (record { inum = n; sb = sb })
  hash_get_vinode table sb (negsuc n) = none

  unfoldable pub hash_put_vinode : Table VinodeKey V → ℕ → ℤ → V → Bool × Table VinodeKey V
  hash_put_vinode table sb (pos n) vinode =
      default_put vinode_keys table (record { inum = n; sb = sb }) vinode
  hash_put_vinode table sb (negsuc n) vinode = (false, table)

  unfoldable pub hash_erase_vinode : Table VinodeKey V → ℕ → ℤ → Bool × Table VinodeKey V
  hash_erase_vinode table sb (pos n) =
      default_erase vinode_keys table (record { inum = n; sb = sb })
  hash_erase_vinode table sb (negsuc n) = (false, table)

-- the two tables, both empty; the return value is 0
unfoldable pub vfs_init : {V W : Type 0} → Table DentryKey V × Table VinodeKey W
vfs_init = (hash_table_init dentry_keys, hash_table_init vinode_keys)
