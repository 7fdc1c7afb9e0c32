-- ===== src/Util/HashTable/Laws.antt =====
-- The table as a finite map: what put, erase and get do to the value at each key.
use native.Mathlib.Decide.{ℕ_discrete}
use huster_experiment_pke.Base.{
  ℕ, true, false, none, some, List, [], ◌∷◌, ◌≡◌, ◌≢◌, refl, sym, ◌∙◌, ◌==◌, if◌then◌else◌, arith,
  Bool-cases, Option-cases, inl, inr,
}
use huster_experiment_pke.Kernel.Process.{update}
use huster_experiment_pke.Util.HashTable.{
  HashKey, Table, find, remove, default_get, default_put, default_erase,
}

module _ {K V : Type 0} (h : HashKey K) where
  -- no two nodes of the chain have equal keys
  abbrev pub Unique : List (K × V) → Type 0
  Unique [] = Unit {0}
  Unique ((k, v) ∷ rest) = (find h k rest ≡ none) × Unique rest

  -- every chain has unique keys, and only keys that belong there
  abbrev pub AllUnique : Table K V → Type 0
  AllUnique table = (i : ℕ) → Unique (table i)

  find_equal :
      (a b : K) (chain : List (K × V))
      → h.virtual_hash_equal a b ≡ true
      → find h a chain ≡ find h b chain
  find_equal a b [] e = refl
  find_equal a b ((k, v) ∷ rest) e =
      let same : h.virtual_hash_equal k a ≡ h.virtual_hash_equal k b =
        h.equal_sym k a ∙ h.equal_trans a b k e ∙ h.equal_sym b k in
      rw (same, find_equal a b rest e)

  find-remove_same :
      (key : K) (chain : List (K × V)) → Unique chain → find h key (remove h key chain) ≡ none
  find-remove_same key [] u = refl
  find-remove_same key ((k, v) ∷ rest) u = elim (Bool-cases (h.virtual_hash_equal k key)) [
    | inl e ↦ rw e (sym (find_equal k key rest e) ∙ u.0)
    | inr ne ↦ rw ne (rw ne (find-remove_same key rest u.1))
  ]

  find-remove_other :
      (key other : K) (chain : List (K × V))
      → h.virtual_hash_equal key other ≡ false
      → find h other (remove h key chain) ≡ find h other chain
  find-remove_other key other [] ne = refl
  find-remove_other key other ((k, v) ∷ rest) ne = elim (Bool-cases (h.virtual_hash_equal k key)) [
    | inl e ↦
        let far : h.virtual_hash_equal k other ≡ false = h.equal_trans k key other e ∙ ne in
        rw (e, far)
    | inr far ↦ rw far (rw (find-remove_other key other rest ne))
  ]

  Unique-remove : (key : K) (chain : List (K × V)) → Unique chain → Unique (remove h key chain)
  Unique-remove key [] u = tt
  Unique-remove key ((k, v) ∷ rest) u = elim (Bool-cases (h.virtual_hash_equal k key)) [
    | inl e ↦ rw e u.1
    | inr ne ↦
        let ne' : h.virtual_hash_equal key k ≡ false = h.equal_sym key k ∙ ne in
        rw ne (find-remove_other key k rest ne' ∙ u.0, Unique-remove key rest u.1)
  ]

  put-new :
      (table : Table K V) (key : K) (value : V)
      → default_get h table key ≡ none
      → default_put h table key value ≡ (
        true,
        update table (h.virtual_hash_func key) ((key, value) ∷ table (h.virtual_hash_func key)),
      )
  unfolding default_put
  put-new table key value e = rw (default_put, e)

  -- Putting a key that the table does not have succeeds, makes its value readable under every equal
  -- key, leaves the other keys alone, and keeps the keys unique.
  pub default_get-default_put :
      (table : Table K V) (key : K) (value : V)
      → AllUnique table
      → default_get h table key ≡ none
      → (t : Table K V) × (default_put h table key value ≡ (true, t))
        × AllUnique t
        × ((other : K)
            → default_get h t other
              ≡ (if h.virtual_hash_equal key other then some value else default_get h table other))
  unfolding default_get
  default_get-default_put table key value u new =
      let index = h.virtual_hash_func key in
      let t = update table index ((key, value) ∷ table index) in
      (
        t,
        put-new table key value new,
        λ i. elim (ℕ_discrete i index) [
          | yes e ↦ let test : (i == index) ≡ true = ground arith in rw test (new, u index)
          | no ne ↦ let test : (i == index) ≡ false = ground arith in rw test (u i)
        ],
        λ other. elim (Bool-cases (h.virtual_hash_func other == index)) [
          | inl here ↦ let e : h.virtual_hash_func other ≡ index = ground arith in rw (here, e)
          | inr away ↦ elim (Bool-cases (h.virtual_hash_equal key other)) [
            | inl equal ↦ absurd (ground (arith, h.same_chain key other equal))
            | inr ne ↦ rw (away, ne)
          ]
        ],
      )

  erase-there :
      (table : Table K V) (key : K) (v : V)
      → default_get h table key ≡ some v
      → default_erase h table key ≡ (
        true,
        update table (h.virtual_hash_func key) (remove h key (table (h.virtual_hash_func key))),
      )
  unfolding default_get default_erase
  erase-there table key v e = rw (default_erase, e)

  -- Erasing a key that is there succeeds, keeps the keys unique, and takes away exactly the value read
  -- under the equal keys; erasing a key that is not there fails and changes nothing.
  pub default_get-default_erase :
      (table : Table K V) (key : K)
      → AllUnique table
      → (((v : V) → default_get h table key ≢ some v) → default_erase h table key ≡ (false, table))
        × ((v : V)
            → default_get h table key ≡ some v
            → (t : Table K V) × (default_erase h table key ≡ (true, t))
              × AllUnique t
              × ((other : K)
                  → default_get h t other
                    ≡ (if h.virtual_hash_equal key other then none else default_get h table other)))
  unfolding default_get default_erase
  default_get-default_erase table key u = (
    λ absent. elim (Option-cases (find h key (table (h.virtual_hash_func key)))) [
      | inl e ↦ rw (default_erase, e)
      | inr (v, e) ↦ absurd (absent v e)
    ],
    λ v there.
        let index = h.virtual_hash_func key in
        let t = update table index (remove h key (table index)) in
        (
          t,
          erase-there table key v there,
          λ i. elim (ℕ_discrete i index) [
            | yes e ↦
                let test : (i == index) ≡ true = ground arith in
                rw test (Unique-remove key (table index) (u index))
            | no ne ↦ let test : (i == index) ≡ false = ground arith in rw test (u i)
          ],
          λ other. elim (Bool-cases (h.virtual_hash_equal key other)) [
            | inl equal ↦
                let e : h.virtual_hash_func other ≡ index = sym (h.same_chain key other equal) in
                let here : (h.virtual_hash_func other == index) ≡ true = ground arith in
                rw (here, equal)
                  (sym (find_equal key other (remove h key (table index)) equal)
                    ∙ find-remove_same key (table index) (u index))
            | inr ne ↦ elim (Bool-cases (h.virtual_hash_func other == index)) [
              | inl here ↦
                  let e : h.virtual_hash_func other ≡ index = ground arith in
                  rw (here, ne, e) (find-remove_other key other (table index) ne)
              | inr away ↦ rw (away, ne)
            ]
          ],
        ),
  )
