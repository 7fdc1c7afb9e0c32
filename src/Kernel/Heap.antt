-- ===== src/Kernel/Heap.antt =====
-- The user heap of kernel/process.c: user_better_malloc and user_better_free. The nodes of malloc_list and
-- malloc_free_list are in pages of their own; a doubly linked list is the list of its nodes.
mod Tests
pub mod Blocks
pub mod Loose
pub mod Malloc
pub mod Fuel
pub mod Top
pub mod Free
use huster_experiment_pke.Base.{
  ℕ, zero, suc, ◌+◌, ◌-◌, ◌*◌, ◌/◌, ◌%◌, ◌^◌, Bool, true, false, not, ◌&&◌, ◌||◌, List, [], ◌∷◌,
  ◌++◌, Option, none, some, arith, ltb, leb, ◌==◌, if◌then◌else◌,
}
use huster_experiment_pke.Base.Run.{Run, ok, killed, panic, fault, done, Cmd, and_then}
use huster_experiment_pke.Base.Word.{u64, u64_mod, round_down}
use huster_experiment_pke.Kernel.Pmm.{Pmm, alloc_page, free_page}
use huster_experiment_pke.Kernel.Vmm.{lookup_pa, prot_to_type, user_vm_map, user_vm_unmap}

-- malloc_t, at the address `page`
pub record Block : Type 0 where
  pub page : ℕ
  pub va : ℕ
  pub size : ℕ

-- the fields of the current process that the heap uses, and physical memory
pub record Heap : Type 0 where
  pub pmm : Pmm
  pub pagetable : ℕ
  pub heap_top : ℕ
  pub malloc_list : List Block
  pub malloc_free_list : List Block

module _ {A : Type 0} where
  abbrev pub lift : Heap → Run Pmm A → Run Heap A
  lift h (ok a s) = ok a (record h { pmm = s })
  lift h (killed s) = killed (record h { pmm = s })
  lift h panic = panic
  lift h fault = fault

-- a function of kernel/pmm.c or kernel/vmm.c
abbrev pub on_pmm : {A : Type 0} → Cmd Pmm A → Cmd Heap A
on_pmm c h = lift h (c h.pmm)

abbrev pub push_free : Block → Heap → Heap
push_free b h = record h { malloc_free_list = b ∷ h.malloc_free_list }

abbrev pub push_used : Block → Heap → Heap
push_used b h = record h { malloc_list = b ∷ h.malloc_list }

-- the first block that is large enough, and the list without it
pub record Fit : Type 0 where
  pub block : Block
  pub others : List Block

abbrev pub keep : Block → Option Fit → Option Fit
keep b none = none
keep b (some f) = some (record f { others = b ∷ f.others })

unfoldable pub find_fit : ℕ → List Block → Option Fit
find_fit size [] = none
find_fit size (b ∷ bs) =
    let rest = keep b (find_fit size bs) in
    if leb size b.size then some (record { block = b; others = bs }) else rest

-- a fresh page for the virtual page `va`; `false` when there is none
map_page : ℕ → ℕ → Cmd Heap Bool
map_page va pa h =
    if pa == 0
    then ok false h
    else and_then (on_pmm (user_vm_map h.pagetable va 4096 pa (prot_to_type 3 true)) h)
        (λ _ h'. ok true h')

unfoldable pub new_page : ℕ → Cmd Heap Bool
unfolding map_page
new_page va h = and_then (on_pmm alloc_page h) (map_page va)

abbrev pub if_unmapped : ℕ → ℕ → Cmd Heap Bool
if_unmapped va pa h = if pa == 0 then new_page va h else ok true h

-- the pages of [page_va, end) that are not mapped get one; a loop that runs out of fuel faults
unfoldable pub map_missing : ℕ → ℕ → ℕ → Cmd Heap Bool
map_missing zero page_va end h = fault
map_missing (suc fuel) page_va end h = elim (ltb page_va end) [
  | false ↦ ok true h
  | true ↦ and_then (on_pmm (lookup_pa h.pagetable page_va) h) (λ pa h₁.
      and_then (if_unmapped page_va pa h₁) (λ fine h₂. elim fine [
        | false ↦ ok false h₂
        | true ↦ map_missing fuel (u64 (page_va + 4096)) end h₂
      ]))
]

-- a node for a list: the first of malloc_free_list, whose block is forgotten, or a new page; NULL is 0
abbrev pub pop_node : List Block → Cmd Heap ℕ
pop_node [] h = on_pmm alloc_page h
pop_node (b ∷ bs) h = ok b.page (record h { malloc_free_list = bs })

-- the rest of a block that was too large, and the block itself
split_block : Block → ℕ → ℕ → Cmd Heap ℕ
split_block reuse size rem h =
    if rem == 0
    then ok 0 (push_free reuse h)
    else ok reuse.va (
        push_used (record reuse { size = size })
          (push_free (record { page = rem; va = u64 (reuse.va + size); size = reuse.size - size })
            h))

take_block : Block → ℕ → Bool → Cmd Heap ℕ
unfolding split_block
take_block reuse size fine h =
    if not fine
    then ok 0 (push_free reuse h)
    else (if ltb size reuse.size
        then and_then (pop_node h.malloc_free_list h) (split_block reuse size)
        else ok reuse.va (push_used reuse h))

unfoldable pub reuse_block : ℕ → Fit → Cmd Heap ℕ
unfolding take_block
reuse_block size f h =
    and_then
      (map_missing (size / 4096 + 3) (round_down f.block.va) (u64 (f.block.va + size))
        (record h { malloc_free_list = f.others }))
      (take_block f.block size)

-- the node goes back to where it came from
unfoldable pub give_back : ℕ → List Block → Cmd Heap ℕ
give_back node [] h = and_then (on_pmm (free_page node) h) (λ _ h'. ok 0 h')
give_back node (b ∷ bs) h = ok 0 (push_free b h)

-- `user_vm_unmap` of the pages mapped so far
unfoldable pub unmap_pages : ℕ → ℕ → Cmd Heap (Unit {0})
unmap_pages va zero h = done h
unmap_pages va (suc n) h =
    and_then (on_pmm (user_vm_unmap h.pagetable va 4096 true) h)
      (λ _ h'. unmap_pages (u64 (va + 4096)) n h')

-- the loop over the pages above the first; the pages left, and the pages mapped
unfoldable pub map_more : ℕ → ℕ → ℕ → Cmd Heap (Option ℕ)
map_more zero mapped va h = ok none h
map_more (suc left) mapped va h = and_then (new_page va h) (λ fine h'. elim fine [
  | false ↦ ok (some mapped) h'
  | true ↦ map_more left (suc mapped) (u64 (va + 4096)) h'
])

-- the new block at the top of the heap
abbrev pub bump : ℕ → ℕ → ℕ → Heap → Heap
bump node va size h =
    push_used (record { page = node; va = va; size = size })
      (record h { heap_top = u64 (va + size) })

abbrev pub unmap_first : Bool → ℕ → Cmd Heap (Unit {0})
unmap_first first_page va h =
    if first_page then on_pmm (user_vm_unmap h.pagetable va 4096 true) h else done h

after_more : ℕ → List Block → ℕ → ℕ → Bool → Option ℕ → Cmd Heap ℕ
after_more node from va size first_page none h = ok va (bump node va size h)
after_more node from va size first_page (some mapped) h =
    and_then (unmap_first first_page (round_down va) h) (λ _ h₁.
      and_then (unmap_pages (round_down va + 4096) mapped h₁) (λ _ h₂. give_back node from h₂))

-- the first page is there
grow_heap : ℕ → List Block → ℕ → ℕ → Bool → Cmd Heap ℕ
unfolding after_more
grow_heap node from va size first_page h =
    let remaining = u64 (round_down va + 4096 + u64_mod - va) in
    let n_pages = u64 (size + u64_mod - remaining + 4096 - 1) / 4096 in
    if leb size remaining
    then ok va (bump node va size h)
    else and_then (map_more n_pages 0 (round_down va + 4096) h)
        (after_more node from va size first_page)

first_page_done : ℕ → List Block → ℕ → ℕ → Bool → Bool → Cmd Heap ℕ
unfolding grow_heap
first_page_done node from va size first_page fine h =
    if fine then grow_heap node from va size first_page h else give_back node from h

with_node : ℕ → List Block → ℕ → ℕ → Cmd Heap ℕ
unfolding first_page_done
with_node size from va node h =
    if node == 0
    then ok 0 h
    else and_then (on_pmm (lookup_pa h.pagetable (round_down va)) h) (λ pa h₁.
      and_then (if_unmapped (round_down va) pa h₁) (first_page_done node from va size (pa == 0)))

unfoldable pub extend : ℕ → Cmd Heap ℕ
unfolding with_node
extend size h =
    and_then (pop_node h.malloc_free_list h) (with_node size h.malloc_free_list h.heap_top)

malloc_by : ℕ → Option Fit → Cmd Heap ℕ
malloc_by size none h = extend size h
malloc_by size (some f) h = reuse_block size f h

-- `current[tp]` is there: the caller is a system call of the running process
unfoldable pub user_better_malloc : ℕ → Cmd Heap ℕ
unfolding malloc_by
user_better_malloc size h =
    if size == 0 then ok 0 h else malloc_by size (find_fit size h.malloc_free_list) h

unfoldable pub find_used : ℕ → List Block → Option Fit
find_used va [] = none
find_used va (b ∷ bs) =
    let rest = keep b (find_used va bs) in
    if b.va == va then some (record { block = b; others = bs }) else rest

unfoldable pub page_has_other_allocation : ℕ → List Block → Bool
page_has_other_allocation page_va [] = false
page_has_other_allocation page_va (b ∷ bs) =
    (ltb page_va (u64 (b.va + b.size)) && ltb b.va (u64 (page_va + 4096)))
    || page_has_other_allocation page_va bs

abbrev pub unmap_unless : Bool → ℕ → Cmd Heap (Unit {0})
unmap_unless used page_va h =
    if used then done h else on_pmm (user_vm_unmap h.pagetable page_va 4096 true) h

unfoldable pub unmap_unused : ℕ → ℕ → ℕ → Cmd Heap (Unit {0})
unmap_unused zero page_va end h = fault
unmap_unused (suc fuel) page_va end h = elim (ltb page_va end) [
  | false ↦ done h
  | true ↦
      and_then (unmap_unless (page_has_other_allocation page_va h.malloc_list) page_va h)
        (λ _ h'. unmap_unused fuel (u64 (page_va + 4096)) end h')
]

free_by : Option Fit → Cmd Heap (Unit {0})
free_by none h = done h
free_by (some f) h =
    unmap_unused (f.block.size / 4096 + 3) (round_down f.block.va) (u64 (f.block.va + f.block.size))
      (push_free f.block (record h { malloc_list = f.others }))

unfoldable pub user_better_free : ℕ → Cmd Heap (Unit {0})
unfolding free_by
user_better_free va h = free_by (find_used va h.malloc_list) h
