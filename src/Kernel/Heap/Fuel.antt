-- ===== src/Kernel/Heap/Fuel.antt =====
-- The loops over the pages of a block visit each page of it once, in order, and end by their tests.
use huster_experiment_pke.Base.{ℕ, zero, suc, ◌+◌, ◌-◌, ◌*◌, ◌/◌, Bool, true, false, List, [], ◌∷◌}
use huster_experiment_pke.Base.Run.{ok, done, Cmd, and_then}
use huster_experiment_pke.Kernel.Vmm.{lookup_pa}
use huster_experiment_pke.Kernel.Heap.{
  Heap, on_pmm, if_unmapped, unmap_unless, page_has_other_allocation,
}

-- `n` pages, the first at `page_va`
abbrev pub pages_from : ℕ → ℕ → List ℕ
pages_from page_va zero = []
pages_from page_va (suc n) = page_va ∷ pages_from (page_va + 4096) n

-- the pages that the bytes [va, va + size) touch
abbrev pub pages_touched : ℕ → ℕ → List ℕ
pages_touched va size = pages_from (va / 4096 * 4096) ((va + size - va / 4096 * 4096 + 4095) / 4096)

-- one page, with `k` for the rest
abbrev pub map_then : Cmd Heap Bool → ℕ → Cmd Heap Bool
map_then k page_va h = and_then (on_pmm (lookup_pa h.pagetable page_va) h) (λ pa h₁.
    and_then (if_unmapped page_va pa h₁)
      (λ fine h₂. elim fine [ false ↦ ok false h₂ | true ↦ k h₂ ]))

-- the pages of a list that are not mapped get one, up to the first for which there is none
abbrev pub map_each : List ℕ → Cmd Heap Bool
map_each [] h = ok true h
map_each (p ∷ ps) h = map_then (map_each ps) p h

abbrev pub unmap_then : Cmd Heap (Unit {0}) → ℕ → Cmd Heap (Unit {0})
unmap_then k page_va h =
    and_then (unmap_unless (page_has_other_allocation page_va h.malloc_list) page_va h)
      (λ _ h'. k h')

-- the pages of a list that no used block touches are unmapped
abbrev pub unmap_each : List ℕ → Cmd Heap (Unit {0})
unmap_each [] h = done h
unmap_each (p ∷ ps) h = unmap_then (unmap_each ps) p h
