-- ===== src/Kernel/Vmm/Extend.antt =====
-- One memory's tables extend another's: valid entries stay, and no translation changes.
use native.Mathlib.Decide.{ℕ_discrete}
use huster_experiment_pke.Base.{
  ℕ, zero, suc, ◌+◌, ◌*◌, ◌/◌, ◌≤◌, ◌<◌, ◌≡◌, ◌≢◌, refl, sym, ◌∙◌, true, arith, if◌then◌else◌, List,
  ◌∉◌, Option, none, some, Bool-cases, inl, inr,
}
use huster_experiment_pke.Kernel.Memory.{Mem}
use huster_experiment_pke.Kernel.Vmm.{has, pte_v, pte2pa, px, slot}
use huster_experiment_pke.Kernel.Vmm.Table.{entry_of, IsTable, px_small, slot_apart}

abbrev pub page_of : ℕ → ℕ
page_of x = x / 4096 * 4096

-- `free` and `h` are the free list and the heights of the pages before, `free'` and `h'` after
pub record Extends (m : Mem) (h : ℕ → ℕ) (free : List ℕ) (m' : Mem) (h' : ℕ → ℕ) (free' : List ℕ)
    : Type 0 where
  pub entries :
      (q j : ℕ)
      → h q ≢ 0
      → j < 512
      → has pte_v (m (q + 8 * j)) ≡ true
      → m' (q + 8 * j) ≡ m (q + 8 * j)
  pub heights : (q : ℕ) → h q ≢ 0 → h' q ≡ h q
  pub meaning : (level q va : ℕ) → h q ≡ suc level → entry_of level m' q va ≡ entry_of level m q va
  pub contents : (x : ℕ) → h (page_of x) ≡ 0 → h' (page_of x) ≡ 0 → m' x ≡ m x
  pub untouched : (x : ℕ) → h x ≡ 0 → x ∉ free → (h' x ≡ 0) × (x ∉ free')

pub Extends-refl : (m : Mem) (h : ℕ → ℕ) (free : List ℕ) → Extends m h free m h free
Extends-refl m h free = record {
  entries = λ q j n l v. refl;
  heights = λ q n. refl;
  meaning = λ level q va e. refl;
  contents = λ x z z'. refl;
  untouched = λ x z out. (z, out);
}

-- a page that is no table in the end was none in between
pub still_none : (h h' : ℕ → ℕ) (q : ℕ) → ((r : ℕ) → h r ≢ 0 → h' r ≡ h r) → h' q ≡ 0 → h q ≡ 0
still_none h h' q heights z = elim (ℕ_discrete (h q) 0) [
  | yes e ↦ e
  | no n ↦ absurd (n (sym (heights q n) ∙ z))
]

pub Extends-trans :
    {m m' m'' : Mem} {h h' h'' : ℕ → ℕ} {free free' free'' : List ℕ}
    → Extends m h free m' h' free'
    → Extends m' h' free' m'' h'' free''
    → Extends m h free m'' h'' free''
Extends-trans {m} {m'} {m''} {h} {h'} {h''} a b =
    let live : (q : ℕ) → h q ≢ 0 → h' q ≢ 0 = λ q n e. n (sym (a.heights q n) ∙ e) in
    record {
      entries = λ q j n l v.
          b.entries q j (live q n) l (rw (a.entries q j n l v) v) ∙ a.entries q j n l v;
      heights = λ q n. b.heights q (live q n) ∙ a.heights q n;
      meaning = λ level q va e.
          b.meaning level q va (a.heights q (λ z. omega arith) ∙ e) ∙ a.meaning level q va e;
      contents = λ x z z'.
          let between = still_none h' h'' (page_of x) b.heights z' in
          b.contents x between z' ∙ a.contents x z between;
      untouched = λ x z out. let (z', out') = a.untouched x z out in b.untouched x z' out';
    }

-- the address of the leaf entry for `va`, where the way to it is there
unfoldable pub leaf_of : ℕ → Mem → ℕ → ℕ → Option ℕ
leaf_of zero m pt va = some (slot pt 0 va)
leaf_of (suc level) m pt va =
    let deeper = leaf_of level m (pte2pa (m (slot pt (suc level) va))) va in
    if has pte_v (m (slot pt (suc level) va)) then deeper else none

abbrev pub word_at : Mem → Option ℕ → ℕ
word_at m none = 0
word_at m (some a) = m a

pub entry_of-leaf_of :
    (level : ℕ) (m : Mem) (pt va : ℕ) → entry_of level m pt va ≡ word_at m (leaf_of level m pt va)
unfolding entry_of leaf_of
entry_of-leaf_of zero m pt va = refl
entry_of-leaf_of (suc level) m pt va = elim (Bool-cases (has pte_v (m (slot pt (suc level) va)))) [
  | inl e ↦ rw e (entry_of-leaf_of level m (pte2pa (m (slot pt (suc level) va))) va)
  | inr e ↦ rw e
]

module _ (m : Mem) (root : ℕ) (height : ℕ → ℕ) (t : IsTable m root height) where
  -- a leaf entry stands in a table of pages
  pub leaf_table :
      (level q va a : ℕ)
      → height q ≡ suc level
      → leaf_of level m q va ≡ some a
      → (r : ℕ) × (height r ≡ 1) × (a ≡ r + 8 * px 0 va)
  unfolding leaf_of
  leaf_table zero q va a h e = (q, h, ground arith)
  leaf_table (suc level) q va a h e = elim (Bool-cases (has pte_v (m (slot q (suc level) va)))) [
    | inl valid ↦
        let down = t.child q (px (suc level) va) level h (px_small (suc level) va) valid in
        leaf_table level (pte2pa (m (slot q (suc level) va))) va a down (rw valid at e)
    | inr stop ↦ let f = rw stop at e in absurd (ground arith)
  ]

  -- two ways to one leaf entry are one way
  pub leaf_of_inj :
      (level q r va vb a : ℕ)
      → height q ≡ suc level
      → height r ≡ suc level
      → leaf_of level m q va ≡ some a
      → leaf_of level m r vb ≡ some a
      → (q ≡ r) × ((j : ℕ) → j ≤ level → px j va ≡ px j vb)
  unfolding leaf_of
  leaf_of_inj zero q r va vb a h h' e e' =
      let (same, index) =
        slot_apart q r (px 0 va) (px 0 vb) (t.page q (omega arith)).0 (t.page r (omega arith)).0
          (px_small 0 va) (px_small 0 vb) (ground arith) in
      (same, λ j l. let z : j ≡ 0 = omega arith in rw z index)
  leaf_of_inj (suc level) q r va vb a h h' e e' =
      elim (Bool-cases (has pte_v (m (slot q (suc level) va)))) [
        | inr stop ↦ let f = rw stop at e in absurd (ground arith)
        | inl valid ↦ elim (Bool-cases (has pte_v (m (slot r (suc level) vb)))) [
          | inr stop ↦ let f = rw stop at e' in absurd (ground arith)
          | inl valid' ↦
              let down = t.child q (px (suc level) va) level h (px_small (suc level) va) valid in
              let down' = t.child r (px (suc level) vb) level h' (px_small (suc level) vb) valid' in
              let (target, below) =
                leaf_of_inj level (pte2pa (m (slot q (suc level) va)))
                  (pte2pa (m (slot r (suc level) vb))) va vb a down down' (rw valid at e)
                  (rw valid' at e') in
              let (same, index) =
                t.apart q r (px (suc level) va) (px (suc level) vb) level level h h'
                  (px_small (suc level) va) (px_small (suc level) vb) valid valid' target in
              (
                same,
                λ j l. elim (ℕ_discrete j (suc level)) [
                  | yes top ↦ rw top index
                  | no other ↦ below j (omega arith)
                ],
              )
        ]
      ]
