-- ===== src/Kernel/Vmm/Table.antt =====
-- A page table as the function that it computes, and the invariant that makes it a tree.
use huster_experiment_pke.Base.{
  ℕ, zero, suc, ◌+◌, ◌*◌, ◌/◌, ◌%◌, ◌^◌, ◌<◌, ◌≡◌, ◌≢◌, sym, ◌∙◌, ap, true, arith, if◌then◌else◌,
  bit_or,
}
use huster_experiment_pke.Base.Bits.{halve, halve_ten, halve-bit_or, bit-bit_or, or_none}
use huster_experiment_pke.Kernel.Memory.{Mem}
use huster_experiment_pke.Kernel.Vmm.{has, pte_v, pa2pte, pte2pa, px, slot}

-- The entry that the hardware finds for `va` in the table `pt` of the level, 0 when the way to it ends
-- at an invalid entry.
unfoldable pub entry_of : ℕ → Mem → ℕ → ℕ → ℕ
entry_of zero m pt va = m (slot pt 0 va)
entry_of (suc level) m pt va =
    let deeper = entry_of level m (pte2pa (m (slot pt (suc level) va))) va in
    if has pte_v (m (slot pt (suc level) va)) then deeper else 0

-- The pages of a page table and their height: 3 for the root, 1 for the tables of pages, 0 for a page
-- that is no table. Valid entries lead one down, and no two of them to the same table.
pub record IsTable (m : Mem) (root : ℕ) (height : ℕ → ℕ) : Type 0 where
  pub top : height root ≡ 3
  pub page : (p : ℕ) → height p ≢ 0 → (p % 4096 ≡ 0) × (0 < p) × (p < 2 ^ 56)
  pub child :
      (p i n : ℕ)
      → height p ≡ suc (suc n)
      → i < 512
      → has pte_v (m (p + 8 * i)) ≡ true
      → height (pte2pa (m (p + 8 * i))) ≡ suc n
  pub apart :
      (p q i j n k : ℕ)
      → height p ≡ suc (suc n)
      → height q ≡ suc (suc k)
      → i < 512
      → j < 512
      → has pte_v (m (p + 8 * i)) ≡ true
      → has pte_v (m (q + 8 * j)) ≡ true
      → pte2pa (m (p + 8 * i)) ≡ pte2pa (m (q + 8 * j))
      → (p ≡ q) × (i ≡ j)

-- the entry for a table at `p`
abbrev pub link : ℕ → ℕ
link p = bit_or (pa2pte p) 1

pub link-has : (p : ℕ) → has pte_v (link p) ≡ true
link-has p = ground (arith, bit-bit_or 0 (pa2pte p) 1)

-- a page address survives the way into an entry with flags and back
pub pte2pa-or :
    (p perm : ℕ) → p % 4096 ≡ 0 → p < 2 ^ 56 → perm < 1024 → pte2pa (bit_or (pa2pte p) perm) ≡ p
pte2pa-or p perm al lt small =
    let low : halve 10 perm ≡ 0 = omega arith in
    let q : bit_or (pa2pte p) perm / 1024 ≡ bit_or (halve 10 (pa2pte p)) (halve 10 perm) =
      sym (halve_ten (bit_or (pa2pte p) perm)) ∙ halve-bit_or 10 (pa2pte p) perm in
    let r : bit_or (pa2pte p) perm / 1024 ≡ halve 10 (pa2pte p) =
      q ∙ rw low (or_none (halve 10 (pa2pte p)) (halve 10 (pa2pte p)) (omega arith)) in
    omega (arith, r, halve_ten (pa2pte p))

pub px_small : (level va : ℕ) → px level va < 512
px_small zero va = omega arith
px_small (suc zero) va = omega arith
px_small (suc (suc level)) va = omega arith

-- two entries of tables at the same address are one
pub slot_apart :
    (p q i j : ℕ)
    → p % 4096 ≡ 0
    → q % 4096 ≡ 0
    → i < 512
    → j < 512
    → p + 8 * i ≡ q + 8 * j
    → (p ≡ q) × (i ≡ j)
slot_apart p q i j a b li lj e = (omega arith, omega arith)

-- the three indices determine the page
pub px_page :
    (va vb : ℕ)
    → va < 2 ^ 38
    → vb < 2 ^ 38
    → px 0 va ≡ px 0 vb
    → px 1 va ≡ px 1 vb
    → px 2 va ≡ px 2 vb
    → va / 4096 ≡ vb / 4096
px_page va vb la lb e f g = omega arith

pub page_px : (va vb level : ℕ) → va / 4096 ≡ vb / 4096 → px level va ≡ px level vb
page_px va vb zero e = omega arith
page_px va vb (suc zero) e = omega arith
page_px va vb (suc (suc level)) e = omega arith

-- the addresses of one page have one entry
pub entry_of-page :
    (level : ℕ) (m : Mem) (q va vb : ℕ)
    → va / 4096 ≡ vb / 4096
    → entry_of level m q va ≡ entry_of level m q vb
unfolding entry_of
entry_of-page zero m q va vb e = rw (page_px va vb 0 e)
entry_of-page (suc level) m q va vb e = rw (page_px va vb (suc level) e) (
    ap (λ (x : ℕ). if has pte_v (m (slot q (suc level) vb)) then x else 0)
      (entry_of-page level m (pte2pa (m (slot q (suc level) vb))) va vb e))
