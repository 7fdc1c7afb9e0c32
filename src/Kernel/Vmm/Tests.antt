-- ===== src/Kernel/Vmm/Tests.antt =====
-- The theorems on page tables, on the small memory of Kernel/Vmm/Example.
use huster_experiment_pke.Base.{
  ℕ, ◌+◌, ◌-◌, ◌/◌, ◌^◌, ◌≤◌, ◌<◌, ◌≡◌, refl, true, false, arith, ◌==◌, if◌then◌else◌, List, ◌∷◌,
  ◌⊎◌,
}
use huster_experiment_pke.Base.Run.{ok, killed}
use huster_experiment_pke.Base.Word.{round_down}
use huster_experiment_pke.Kernel.Pmm.{Pmm, get_page_ref}
use huster_experiment_pke.Kernel.Vmm.{
  has, pte_v, pte_r, pte_w, pte_cow, pte2pa, map_pages, user_vm_map, user_va_to_pa, user_vm_set_cow,
  user_vm_unmap, cow_entry, pte_u,
}
use huster_experiment_pke.Kernel.Vmm.Example.{
  root, user_page, height, pages, free, space, user_page-IsPage,
}
use huster_experiment_pke.Kernel.Vmm.Table.{entry_of, entry_of-page}
use huster_experiment_pke.Kernel.Vmm.Space.{IsSpace}
use huster_experiment_pke.Kernel.Vmm.Map.{Mapped, pages_of, map_pages_maps}
use huster_experiment_pke.Kernel.Vmm.Confined.{Confined}
use huster_experiment_pke.Kernel.Vmm.Pages.{user_va_to_pa-user_vm_map}
use huster_experiment_pke.Kernel.Vmm.Change.{
  user_vm_map_refuses, user_vm_set_cow_lem, user_vm_unmap_page,
}

nothing_there :
    (vb : ℕ)
    → round_down 0x401000 ≤ vb
    → vb < round_down (0x401000 + 4096 - 1) + 4096
    → has pte_v (entry_of 2 (pages 2).mem root vb) ≡ false
unfolding round_down entry_of
nothing_there vb from to =
    let page : vb / 4096 ≡ 0x401000 / 4096 = omega arith in
    rw (entry_of-page 2 (pages 2).mem root vb 0x401000 page) refl

map_pages_maps_example :
    Mapped
      (pages 2)
      free
      height
      root
      (round_down 0x401000)
      (round_down (0x401000 + 4096 - 1))
      user_page
      214
      (pages_of 0x401000 4096)
      (map_pages root 0x401000 4096 user_page 214 (pages 2))
map_pages_maps_example =
    map_pages_maps root 0x401000 4096 user_page 214 (pages 2) free height (omega arith)
      (omega arith) (omega arith) (space 2) nothing_there

user_va_to_pa-user_vm_map_example :
    (s' : Pmm) × (free' : List ℕ) × (h' : ℕ → ℕ) × (user_vm_map root 0x401000 4096 user_page 214
        (pages 2)
      ≡ ok tt s')
    × IsSpace s' free' root h'
    × Confined root (pages 2).mem height free s'.mem h' free'
    × ((vb : ℕ)
        → round_down 0x401000 ≤ vb
        → vb < round_down (0x401000 + 4096 - 1) + 4096
        → user_va_to_pa root vb s' ≡ ok (user_page + (vb - round_down 0x401000)) s')
    × ((vb : ℕ)
        → vb < 2 ^ 38
        → (vb < round_down 0x401000) ⊎ (round_down (0x401000 + 4096 - 1) + 4096 ≤ vb)
        → entry_of 2 s'.mem root vb ≡ entry_of 2 (pages 2).mem root vb)
user_va_to_pa-user_vm_map_example =
    user_va_to_pa-user_vm_map root 0x401000 4096 user_page 214 (pages 2) free height (omega arith)
      (omega arith) (omega arith) refl (omega arith) (space 2) nothing_there (omega arith)

there : has pte_v (entry_of 2 (pages 2).mem root 0x400000) ≡ true
unfolding entry_of
there = refl

user_vm_map_refuses_example :
    user_vm_map root 0x400000 4096 user_page 214 (pages 2) ≡ killed (pages 2)
unfolding round_down entry_of
user_vm_map_refuses_example =
    user_vm_map_refuses root 0x400000 4096 user_page 214 (pages 2) (omega arith) (omega arith) refl

user_vm_set_cow_lem_example :
    (s' : Pmm) × (user_vm_set_cow root 0x400000 (pages 2) ≡ ok tt s')
    × IsSpace s' free root height
    × Confined root (pages 2).mem height free s'.mem height free
    × ((vb : ℕ)
        → vb < 2 ^ 38
        → entry_of 2 s'.mem root vb ≡ (
            if vb / 4096 == 0x400000 / 4096
            then cow_entry (entry_of 2 (pages 2).mem root 0x400000)
            else entry_of 2 (pages 2).mem root vb))
    × (has pte_v (cow_entry (entry_of 2 (pages 2).mem root 0x400000)) ≡ true)
    × (has pte_w (cow_entry (entry_of 2 (pages 2).mem root 0x400000)) ≡ false)
    × (has pte_cow (cow_entry (entry_of 2 (pages 2).mem root 0x400000)) ≡ true)
    × (has pte_r (cow_entry (entry_of 2 (pages 2).mem root 0x400000))
        ≡ has pte_r (entry_of 2 (pages 2).mem root 0x400000))
    × (has pte_u (cow_entry (entry_of 2 (pages 2).mem root 0x400000))
        ≡ has pte_u (entry_of 2 (pages 2).mem root 0x400000))
    × (pte2pa (cow_entry (entry_of 2 (pages 2).mem root 0x400000))
        ≡ pte2pa (entry_of 2 (pages 2).mem root 0x400000))
    × (s'.refs ≡ (pages 2).refs)
unfolding entry_of
user_vm_set_cow_lem_example =
    user_vm_set_cow_lem root 0x400000 (pages 2) free height (omega arith) (space 2) there
      (omega arith)

user_vm_unmap_page_example :
    let pa = pte2pa (entry_of 2 (pages 1).mem root 0x400000) in
    (s' : Pmm) × (user_vm_unmap root 0x400000 4096 true (pages 1) ≡ ok tt s')
    × IsSpace s' (pa ∷ free) root height
    × (get_page_ref s' pa ≡ 0)
    × ((vb : ℕ)
        → vb < 2 ^ 38
        → entry_of 2 s'.mem root vb
          ≡ (if vb / 4096 == 0x400000 / 4096 then 0 else entry_of 2 (pages 1).mem root vb))
unfolding entry_of
user_vm_unmap_page_example =
    user_vm_unmap_page root 0x400000 (pages 1) free height refl (omega arith) (space 1) there
      (omega arith) (user_page-IsPage 1) refl refl refl
