-- ===== src/Kernel/Trap/Tests.antt =====
-- The page faults, on the small memory of Kernel/Vmm/Example.
use huster_experiment_pke.Base.{
  ℕ, ◌+◌, ◌*◌, ◌/◌, ◌^◌, ◌<◌, ◌≡◌, ◌≢◌, refl, true, false, arith, ◌==◌, if◌then◌else◌, List, ◌∷◌,
  [],
}
use huster_experiment_pke.Base.Run.{ok}
use huster_experiment_pke.Base.Word.{round_down}
use huster_experiment_pke.Kernel.Pmm.{Pmm, get_page_ref}
use huster_experiment_pke.Kernel.Vmm.{
  has, pte_v, pte_r, pte_w, pte_cow, pte2pa, user_va_to_pa, pte_u,
}
use huster_experiment_pke.Kernel.Vmm.Example.{
  root, user_page, shared_pte, height, pages, free, space, user_page-IsPage,
}
use huster_experiment_pke.Kernel.Vmm.Table.{entry_of}
use huster_experiment_pke.Kernel.Vmm.Space.{IsSpace}
use huster_experiment_pke.Kernel.Vmm.Extend.{page_of}
use huster_experiment_pke.Kernel.Vmm.Confined.{Confined}
use huster_experiment_pke.Kernel.Trap.{Space, private_entry, owned_entry, store_page_fault}
use huster_experiment_pke.Kernel.Trap.Cow.{store_page_fault_copies}
use huster_experiment_pke.Kernel.Trap.Faults.{store_page_fault_owns, store_page_fault_grows}

-- twenty pages of stack, and two pages of heap
abbrev shell : Space
shell = record { pagetable = root; size = 20 * 4096; heap_top = 0x402000 }

abbrev rest : List ℕ
rest = 0x80015000 ∷ 0x80016000 ∷ []

store_page_fault_copies_example :
    (s' : Pmm) × (store_page_fault shell 0x400008 (pages 2) ≡ ok tt s')
    × IsSpace s' rest root height
    × ((vb : ℕ)
        → vb < 2 ^ 38
        → entry_of 2 s'.mem root vb ≡ (
            if vb / 4096 == 0x400008 / 4096
            then private_entry 0x80014000
            else entry_of 2 (pages 2).mem root vb))
    × (has pte_v (private_entry 0x80014000) ≡ true)
    × (has pte_r (private_entry 0x80014000) ≡ true)
    × (has pte_w (private_entry 0x80014000) ≡ true)
    × (has pte_cow (private_entry 0x80014000) ≡ false)
    × (has pte_u (private_entry 0x80014000) ≡ true)
    × (pte2pa (private_entry 0x80014000) ≡ 0x80014000)
    × ((off : ℕ) → off < 4096 → s'.mem (0x80014000 + off) ≡ (pages 2).mem (user_page + off))
    × ((r vb : ℕ)
        → height r ≡ 3
        → r ≢ root
        → entry_of 2 s'.mem r vb ≡ entry_of 2 (pages 2).mem r vb)
    × ((x : ℕ) → height (page_of x) ≡ 0 → page_of x ≢ 0x80014000 → s'.mem x ≡ (pages 2).mem x)
    × (get_page_ref s' user_page + 1 ≡ get_page_ref (pages 2) user_page)
unfolding entry_of get_page_ref
store_page_fault_copies_example =
    store_page_fault_copies shell 0x400008 (pages 2) 0x80014000 rest height user_page (omega arith)
      (space 2) refl refl refl (user_page-IsPage 2) refl refl (omega arith)

store_page_fault_owns_example :
    (s' : Pmm) × (store_page_fault shell 0x400008 (pages 1) ≡ ok tt s')
    × IsSpace s' free root height
    × Confined root (pages 1).mem height free s'.mem height free
    × ((vb : ℕ)
        → vb < 2 ^ 38
        → entry_of 2 s'.mem root vb ≡ (
            if vb / 4096 == 0x400008 / 4096
            then owned_entry shared_pte
            else entry_of 2 (pages 1).mem root vb))
    × (has pte_v (owned_entry shared_pte) ≡ true)
    × (has pte_r (owned_entry shared_pte) ≡ has pte_r shared_pte)
    × (has pte_u (owned_entry shared_pte) ≡ has pte_u shared_pte)
    × (has pte_w (owned_entry shared_pte) ≡ true)
    × (has pte_cow (owned_entry shared_pte) ≡ false)
    × (pte2pa (owned_entry shared_pte) ≡ pte2pa shared_pte)
unfolding entry_of get_page_ref
store_page_fault_owns_example =
    store_page_fault_owns shell 0x400008 (pages 1) free height shared_pte (omega arith) (space 1)
      refl (omega arith) refl refl (omega arith)

store_page_fault_grows_example :
    (s' : Pmm) × (free' : List ℕ) × (h' : ℕ → ℕ) × (store_page_fault shell 0x7fffe010 (pages 2)
      ≡ ok tt s')
    × IsSpace s' free' root h'
    × Confined root (pages 2).mem height rest s'.mem h' free'
    × ((off : ℕ)
        → off < 4096
        → user_va_to_pa root (round_down 0x7fffe010 + off) s' ≡ ok (0x80014000 + off) s')
    × ((vb : ℕ)
        → vb < 2 ^ 38
        → vb / 4096 ≢ 0x7fffe010 / 4096
        → entry_of 2 s'.mem root vb ≡ entry_of 2 (pages 2).mem root vb)
unfolding entry_of round_down
store_page_fault_grows_example =
    store_page_fault_grows shell 0x7fffe010 (pages 2) 0x80014000 rest height (omega arith)
      (omega arith) (space 2) refl (omega arith)
