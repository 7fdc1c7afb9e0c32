-- ===== src/Kernel/Trap/Faults.antt =====
-- Two more outcomes of a store page fault: the page has one owner, and the stack grows.
use huster_experiment_pke.Base.{
  ℕ, ◌+◌, ◌-◌, ◌*◌, ◌/◌, ◌^◌, ◌≤◌, ◌<◌, ◌≡◌, ◌≢◌, refl, ◌∙◌, true, false, ◌&&◌, arith, ltb, leb,
  ◌==◌, if◌then◌else◌, List, ◌∷◌, Option, none, some, length, bit_and, bit_or,
}
use huster_experiment_pke.Base.Bits.{
  halve, halve_ten, halve-bit_and, bit-bit_or, bit-bit_and, ones, and_ones,
}
use huster_experiment_pke.Base.Run.{ok}
use huster_experiment_pke.Base.Word.{round_down}
use huster_experiment_pke.Kernel.Memory.{store}
use huster_experiment_pke.Kernel.Pmm.{Pmm, get_page_ref}
use huster_experiment_pke.Kernel.Pmm.Laws.{taken, alloc_page-taken}
use huster_experiment_pke.Kernel.Vmm.{
  has, pte_v, pte_r, pte_w, pte_cow, pte2pa, prot_to_type, user_vm_get_pte, user_va_to_pa,
  user_vm_map, pte_u,
}
use huster_experiment_pke.Kernel.Vmm.Entry.{above_flags}
use huster_experiment_pke.Kernel.Vmm.Table.{entry_of}
use huster_experiment_pke.Kernel.Vmm.Space.{IsSpace}
use huster_experiment_pke.Kernel.Vmm.Extend.{leaf_of, word_at, entry_of-leaf_of}
use huster_experiment_pke.Kernel.Vmm.Leaf.{
  page_walk_reads, entry_of-store, store-IsSpace, leaf_of-page,
}
use huster_experiment_pke.Kernel.Vmm.Confined.{Confined, store-Confined}
use huster_experiment_pke.Kernel.Vmm.Pages.{mapped_page}
use huster_experiment_pke.Kernel.Vmm.Change.{leaf_for}
use huster_experiment_pke.Kernel.Trap.{
  Space, user_stack_top, stack_limit, read_write, owned_entry, break_cow, map_new, grow, fault_by,
  store_page_fault,
}

-- writable, not marked, valid, readable and the user's as before, and of the same page
pub owned_entry_lem :
    (pte : ℕ)
    → pte < 2 ^ 64
    → (has pte_w (owned_entry pte) ≡ true)
      × (has pte_cow (owned_entry pte) ≡ false)
      × (has pte_v (owned_entry pte) ≡ has pte_v pte)
      × (has pte_r (owned_entry pte) ≡ has pte_r pte)
      × (has pte_u (owned_entry pte) ≡ has pte_u pte)
      × (pte2pa (owned_entry pte) ≡ pte2pa pte)
owned_entry_lem pte lt =
    let mask = 2 ^ 64 - 1 - 256 in
    let more = bit_or (bit_or pte 4) 128 in
    let w = above_flags pte 4 (omega arith) in
    let d = above_flags (bit_or pte 4) 128 (omega arith) in
    let upper : halve 10 (bit_and more mask) ≡ bit_and (halve 10 more) (ones 54) =
      halve-bit_and 10 more mask in
    let all : bit_and (halve 10 more) (ones 54) ≡ halve 10 more =
      and_ones 54 (halve 10 more) (omega (arith, halve_ten more)) in
    (
      ground (arith, bit-bit_and 2 more mask, bit-bit_or 2 (bit_or pte 4) 128, bit-bit_or 2 pte 4),
      ground (arith, bit-bit_and 8 more mask, bit-bit_or 8 (bit_or pte 4) 128, bit-bit_or 8 pte 4),
      ground (arith, bit-bit_and 0 more mask, bit-bit_or 0 (bit_or pte 4) 128, bit-bit_or 0 pte 4),
      ground (arith, bit-bit_and 1 more mask, bit-bit_or 1 (bit_or pte 4) 128, bit-bit_or 1 pte 4),
      ground (arith, bit-bit_and 4 more mask, bit-bit_or 4 (bit_or pte 4) 128, bit-bit_or 4 pte 4),
      omega (arith, upper, all, halve_ten (bit_and more mask), halve_ten more),
    )

-- A store to a page that is marked PTE_COW and has at most one reference: no page is allocated, the
-- entry of the page of the fault is made writable and loses the mark, and stays a valid entry of the
-- same physical page, readable and the user's as before; no other translation and no page's contents change.
pub store_page_fault_owns :
    (t : Space) (fault_va : ℕ) (s : Pmm) (free : List ℕ) (h : ℕ → ℕ) (pte : ℕ)
    → fault_va < 2 ^ 38
    → IsSpace s free t.pagetable h
    → entry_of 2 s.mem t.pagetable fault_va ≡ pte
    → pte < 2 ^ 64
    → has pte_v pte ≡ true
    → has pte_cow pte ≡ true
    → get_page_ref s (pte2pa pte) ≤ 1
    → (s' : Pmm) × (store_page_fault t fault_va s ≡ ok tt s')
      × IsSpace s' free t.pagetable h
      × Confined t.pagetable s.mem h free s'.mem h free
      × ((vb : ℕ)
          → vb < 2 ^ 38
          → entry_of 2 s'.mem t.pagetable vb ≡ (
              if vb / 4096 == fault_va / 4096
              then owned_entry pte
              else entry_of 2 s.mem t.pagetable vb))
      × (has pte_v (owned_entry pte) ≡ true)
      × (has pte_r (owned_entry pte) ≡ has pte_r pte)
      × (has pte_u (owned_entry pte) ≡ has pte_u pte)
      × (has pte_w (owned_entry pte) ≡ true)
      × (has pte_cow (owned_entry pte) ≡ false)
      × (pte2pa (owned_entry pte) ≡ pte2pa pte)
unfolding store_page_fault fault_by round_down user_vm_get_pte break_cow
store_page_fault_owns t fault_va s free h pte lt sp e wide valid marked sole =
    let root = t.pagetable in
    let va = fault_va / 4096 * 4096 in
    let (a, leaf', word') = leaf_for s.mem root fault_va (rw e valid) in
    let word : s.mem a ≡ pte = word' ∙ e in
    let leaf : leaf_of 2 s.mem root va ≡ some a =
      leaf_of-page s.mem root h sp.tree fault_va a 0 leaf' 2 root va (omega arith) ∙ leaf' in
    let one : ltb 1 (get_page_ref s (pte2pa pte)) ≡ false = ground arith in
    let v = owned_entry pte in
    (
      record s { mem = store s.mem a v },
      rw (page_walk_reads root va s (omega arith), leaf, word, valid, marked, one) refl,
      store-IsSpace s free root h fault_va a v sp leaf',
      store-Confined s.mem root h sp.tree fault_va a v leaf' free,
      λ vb lt'. entry_of-store s.mem root h sp.tree fault_va a v leaf' vb lt lt',
      (owned_entry_lem pte wide).2 ∙ valid,
      (owned_entry_lem pte wide).3,
      (owned_entry_lem pte wide).4,
      (owned_entry_lem pte wide).0,
      (owned_entry_lem pte wide).1,
      (owned_entry_lem pte wide).5,
    )

-- with no translation there, the fault goes to `grow`
to_grow :
    (t : Space) (fault_va : ℕ) (s : Pmm)
    → fault_va < 2 ^ 38
    → has pte_v (entry_of 2 s.mem t.pagetable (round_down fault_va)) ≡ false
    → store_page_fault t fault_va s ≡ grow t fault_va s
unfolding store_page_fault user_vm_get_pte round_down
to_grow t fault_va s lt invalid =
    let va = fault_va / 4096 * 4096 in
    rw (page_walk_reads t.pagetable va s (omega arith)) (
      by_leaf (leaf_of 2 s.mem t.pagetable va)
        (rw (← entry_of-leaf_of 2 s.mem t.pagetable va) invalid))
  where
    by_leaf :
        (o : Option ℕ)
        → has pte_v (word_at s.mem o) ≡ false
        → fault_by t fault_va o s ≡ grow t fault_va s
    by_leaf none i = refl
    by_leaf (some a) i = rw i refl

map_new-run :
    (t : Space) (va : ℕ) (s : Pmm) (p : ℕ) (free : List ℕ) (h : ℕ → ℕ)
    → IsSpace s (p ∷ free) t.pagetable h
    → map_new t va s ≡ user_vm_map t.pagetable va 4096 p (prot_to_type read_write true) (taken s p)
unfolding map_new
map_new-run t va s p free h sp = rw (alloc_page-taken s p free sp.frames) refl

-- A store to the stack's range, where nothing is mapped, with three free pages: the page of the fault is
-- translated to the page at the front of the free list; no other translation of this or another
-- address space changes, and no word of a page that is no table.
pub store_page_fault_grows :
    (t : Space) (fault_va : ℕ) (s : Pmm) (p : ℕ) (free : List ℕ) (h : ℕ → ℕ)
    → stack_limit t < fault_va
    → fault_va ≤ user_stack_top
    → IsSpace s (p ∷ free) t.pagetable h
    → has pte_v (entry_of 2 s.mem t.pagetable (round_down fault_va)) ≡ false
    → 2 ≤ length free
    → (s' : Pmm) × (free' : List ℕ) × (h' : ℕ → ℕ) × (store_page_fault t fault_va s ≡ ok tt s')
      × IsSpace s' free' t.pagetable h'
      × Confined t.pagetable s.mem h free s'.mem h' free'
      × ((off : ℕ)
          → off < 4096
          → user_va_to_pa t.pagetable (round_down fault_va + off) s' ≡ ok (p + off) s')
      × ((vb : ℕ)
          → vb < 2 ^ 38
          → vb / 4096 ≢ fault_va / 4096
          → entry_of 2 s'.mem t.pagetable vb ≡ entry_of 2 s.mem t.pagetable vb)
unfolding grow round_down
store_page_fault_grows t fault_va s p free h above below sp invalid enough =
    let va = fault_va / 4096 * 4096 in
    let low : ltb user_stack_top fault_va ≡ false = ground arith in
    let inside : (leb fault_va user_stack_top && ltb (stack_limit t) fault_va) ≡ true =
      ground arith in
    let page : va / 4096 ≡ fault_va / 4096 = omega arith in
    let (s', free', h', run, sp', kept, found, others) =
      mapped_page t.pagetable va s p free h (omega arith) (omega arith) sp invalid enough in
    (
      s',
      free',
      h',
      rw (to_grow t fault_va s (omega arith) invalid, low, inside)
          (map_new-run t va s p free h sp ∙ run),
      sp',
      kept,
      found,
      λ vb lt far. others vb lt (λ e. far (e ∙ page)),
    )
