-- ===== src/Util/HashTable/Tests.antt =====
-- The hash table with the keys of vinodes, empty and with one entry.
use huster_experiment_pke.Base.{
  ℕ, true, false, none, some, [], ◌∷◌, ◌≡◌, ◌≢◌, refl, Bool-cases, inl, inr, if◌then◌else◌, ◌==◌,
}
use huster_experiment_pke.Util.HashTable.{Table, default_get, default_put, default_erase}
use huster_experiment_pke.Util.HashTable.Laws.{
  AllUnique, default_get-default_put, default_get-default_erase,
}
use huster_experiment_pke.Kernel.Vfs.{VinodeKey, vinode_keys}

abbrev key : VinodeKey
key = record { inum = 200; sb = 1 }

abbrev table : Table VinodeKey ℕ
table = λ i. if i == 72 then (key, 5) ∷ [] else []

abbrev empty : Table VinodeKey ℕ
empty = λ i. []

table-AllUnique : AllUnique vinode_keys table
table-AllUnique i = elim (Bool-cases (i == 72)) [ inl e ↦ rw e (refl, tt) | inr ne ↦ rw ne tt ]

default_get-default_put_example :
    (t : Table VinodeKey ℕ) × (default_put vinode_keys empty key 5 ≡ (true, t))
    × AllUnique vinode_keys t
    × ((other : VinodeKey)
        → default_get vinode_keys t other ≡ (
            if vinode_keys.virtual_hash_equal key other
            then some 5
            else default_get vinode_keys empty other))
unfolding default_get
default_get-default_put_example = default_get-default_put vinode_keys empty key 5 (λ i. tt) refl

default_get-default_erase_example :
    (((v : ℕ) → default_get vinode_keys table key ≢ some v)
      → default_erase vinode_keys table key ≡ (false, table))
    × ((v : ℕ)
        → default_get vinode_keys table key ≡ some v
        → (t : Table VinodeKey ℕ) × (default_erase vinode_keys table key ≡ (true, t))
          × AllUnique vinode_keys t
          × ((other : VinodeKey)
              → default_get vinode_keys t other ≡ (
                  if vinode_keys.virtual_hash_equal key other
                  then none
                  else default_get vinode_keys table other)))
default_get-default_erase_example = default_get-default_erase vinode_keys table key table-AllUnique
