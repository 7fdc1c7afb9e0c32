-- ===== src/Util/HashTable.antt =====
-- util/hash_table.c: a table of 128 chains. The nodes behind a head are one list; a pointer to a value
-- is a value, and NULL is `none`.
pub mod Laws
mod Tests
use huster_experiment_pke.Base.{
  ℕ, ◌+◌, ◌<◌, Bool, true, false, Option, none, some, List, [], ◌∷◌, ◌≡◌, ◌==◌, if◌then◌else◌,
  arith,
}
use huster_experiment_pke.Kernel.Process.{update}

abbrev pub hash_table_size : ℕ
hash_table_size = 128

-- virtual_hash_equal and virtual_hash_func of a table, with what its client owes: the test is an
-- equivalence, and equal keys have one chain, which is one of the table's
pub record HashKey (K : Type 0) : Type 0 where
  pub virtual_hash_equal : K → K → Bool
  pub virtual_hash_func : K → ℕ
  pub equal_refl : (a : K) → virtual_hash_equal a a ≡ true
  pub equal_trans :
      (a b c : K) → virtual_hash_equal a b ≡ true → virtual_hash_equal a c ≡ virtual_hash_equal b c
  pub equal_sym : (a b : K) → virtual_hash_equal a b ≡ virtual_hash_equal b a
  pub same_chain :
      (a b : K) → virtual_hash_equal a b ≡ true → virtual_hash_func a ≡ virtual_hash_func b
  pub in_table : (a : K) → virtual_hash_func a < hash_table_size

abbrev pub Table : Type 0 → Type 0 → Type 0
Table K V = ℕ → List (K × V)

module _ {K V : Type 0} where
  -- the walk along a chain
  abbrev pub find : HashKey K → K → List (K × V) → Option V
  find h key [] = none
  find h key ((k, v) ∷ rest) =
      let later = find h key rest in if h.virtual_hash_equal k key then some v else later

  -- the chain without the first node of the key
  abbrev pub remove : HashKey K → K → List (K × V) → List (K × V)
  remove h key [] = []
  remove h key ((k, v) ∷ rest) =
      let later = (k, v) ∷ remove h key rest in if h.virtual_hash_equal k key then rest else later

  unfoldable pub default_get : HashKey K → Table K V → K → Option V
  default_get h table key = find h key (table (h.virtual_hash_func key))

  -- by what the table has for the key: `true` is the return value 0
  abbrev pub put_node : Option V → Table K V → ℕ → K × V → Bool × Table K V
  put_node (some v) table index node = (false, table)
  put_node none table index node = (true, update table index (node ∷ table index))

  -- The page of the node is taken before the test, and is not given back when the key is there already.
  unfoldable pub default_put : HashKey K → Table K V → K → V → Bool × Table K V
  unfolding default_get
  default_put h table key value =
      put_node (default_get h table key) table (h.virtual_hash_func key) (key, value)

  abbrev pub erase_node : Option V → HashKey K → Table K V → ℕ → K → Bool × Table K V
  erase_node (some v) h table index key = (true, update table index (remove h key (table index)))
  erase_node none h table index key = (false, table)

  unfoldable pub default_erase : HashKey K → Table K V → K → Bool × Table K V
  default_erase h table key =
      let index = h.virtual_hash_func key in erase_node (find h key (table index)) h table index key

-- the chains are emptied and the record's functions installed; a record always has a hash function
unfoldable pub hash_table_init : {K V : Type 0} → HashKey K → Table K V
hash_table_init h i = []
