-- ===== src/Kernel/Vmm/Entry.antt =====
-- The bits of page-table entries: the page address above, the flags below.
use huster_experiment_pke.Base.{
  ℕ, ◌-◌, ◌/◌, ◌%◌, ◌^◌, ◌<◌, ◌≡◌, ◌∙◌, true, false, arith, bit_and, bit_or, Bool-cases, inl, inr,
  ◌⊎◌,
}
use huster_experiment_pke.Base.Bits.{
  bit, halve, halve_ten, halve-bit_or, halve-bit_and, bit-bit_or, bit-bit_and, or_none, ones,
  and_ones,
}
use huster_experiment_pke.Kernel.Vmm.{
  has, pte_v, pte_r, pte_w, pte_cow, pa2pte, pte2pa, cow_entry, pte_u,
}
use huster_experiment_pke.Kernel.Vmm.Leaf.{resolved}
use huster_experiment_pke.Kernel.Vmm.Map.{entry_for}

-- flags do not reach the page address
pub above_flags : (x flags : ℕ) → flags < 1024 → bit_or x flags / 1024 ≡ x / 1024
above_flags x flags small =
    let low : halve 10 flags ≡ 0 = omega arith in
    let split : halve 10 (bit_or x flags) ≡ bit_or (halve 10 x) (halve 10 flags) =
      halve-bit_or 10 x flags in
    let upper : halve 10 (bit_or x flags) ≡ halve 10 x =
      split ∙ rw low (or_none (halve 10 x) (halve 10 x) (omega arith)) in
    omega (arith, upper, halve_ten x, halve_ten (bit_or x flags))

pub entry_for-has_v : (pa perm : ℕ) → has pte_v (entry_for pa perm) ≡ true
entry_for-has_v pa perm = ground (arith, bit-bit_or 0 (bit_or (pa2pte pa) perm) 1)

pub entry_for-pte2pa :
    (pa perm : ℕ) → pa % 4096 ≡ 0 → pa < 2 ^ 56 → perm < 1024 → pte2pa (entry_for pa perm) ≡ pa
entry_for-pte2pa pa perm al lt small =
    let valid = above_flags (bit_or (pa2pte pa) perm) 1 (omega arith) in
    let flags = above_flags (pa2pte pa) perm small in omega arith

-- the flags R, W, COW and U of the entry are those of `perm`
pub entry_for-flags :
    (pa perm : ℕ)
    → (bit 1 (entry_for pa perm) ≡ bit 1 perm)
      × (bit 2 (entry_for pa perm) ≡ bit 2 perm)
      × (bit 8 (entry_for pa perm) ≡ bit 8 perm)
      × (bit 4 (entry_for pa perm) ≡ bit 4 perm)
entry_for-flags pa perm = (
  omega (arith, bit-bit_or 1 (bit_or (pa2pte pa) perm) 1, bit-bit_or 1 (pa2pte pa) perm),
  omega (arith, bit-bit_or 2 (bit_or (pa2pte pa) perm) 1, bit-bit_or 2 (pa2pte pa) perm),
  omega (arith, bit-bit_or 8 (bit_or (pa2pte pa) perm) 1, bit-bit_or 8 (pa2pte pa) perm),
  omega (arith, bit-bit_or 4 (bit_or (pa2pte pa) perm) 1, bit-bit_or 4 (pa2pte pa) perm),
)

-- an entry that can be read or written resolves to its page
pub entry_for-resolved :
    (pa perm : ℕ)
    → pa % 4096 ≡ 0
    → pa < 2 ^ 56
    → perm < 1024
    → (bit 1 perm ≡ 1) ⊎ (bit 2 perm ≡ 1)
    → resolved (entry_for pa perm) ≡ pa
entry_for-resolved pa perm al lt small (inl r) =
    let read : has pte_r (entry_for pa perm) ≡ true = ground (arith, entry_for-flags pa perm) in
    rw (entry_for-has_v pa perm, read) (entry_for-pte2pa pa perm al lt small)
entry_for-resolved pa perm al lt small (inr w) =
    let write : has pte_w (entry_for pa perm) ≡ true = ground (arith, entry_for-flags pa perm) in
    rw (entry_for-has_v pa perm, write)
      (elim (Bool-cases (has pte_r (entry_for pa perm))) [
        | inl r ↦ rw r (entry_for-pte2pa pa perm al lt small)
        | inr n ↦ rw n (entry_for-pte2pa pa perm al lt small)
      ])

-- what user_vm_set_cow makes of an entry: not writable, marked, valid as before, and of the same page
pub cow_entry_lem :
    (pte : ℕ)
    → pte < 2 ^ 64
    → (has pte_w (cow_entry pte) ≡ false)
      × (has pte_cow (cow_entry pte) ≡ true)
      × (has pte_v (cow_entry pte) ≡ has pte_v pte)
      × (has pte_r (cow_entry pte) ≡ has pte_r pte)
      × (has pte_u (cow_entry pte) ≡ has pte_u pte)
      × (pte2pa (cow_entry pte) ≡ pte2pa pte)
cow_entry_lem pte lt =
    let mask = 2 ^ 64 - 1 - 4 in
    let kept = bit_and pte mask in
    let upper : halve 10 kept ≡ bit_and (halve 10 pte) (ones 54) = halve-bit_and 10 pte mask in
    let all : bit_and (halve 10 pte) (ones 54) ≡ halve 10 pte =
      and_ones 54 (halve 10 pte) (omega arith) in
    let marked = above_flags kept 256 (omega arith) in
    let page : pte2pa (cow_entry pte) ≡ pte2pa pte =
      omega (arith, upper, all, marked, halve_ten kept, halve_ten pte) in
    (
      ground (arith, bit-bit_or 2 kept 256, bit-bit_and 2 pte mask),
      ground (arith, bit-bit_or 8 kept 256, bit-bit_and 8 pte mask),
      ground (arith, bit-bit_or 0 kept 256, bit-bit_and 0 pte mask),
      ground (arith, bit-bit_or 1 kept 256, bit-bit_and 1 pte mask),
      ground (arith, bit-bit_or 4 kept 256, bit-bit_and 4 pte mask),
      page,
    )
