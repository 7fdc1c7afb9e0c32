-- ===== src/Kernel/PageHeap.antt =====
-- The page-wise heap of kernel/syscall.c: sys_user_allocate_page and sys_user_free_page, and the heap part
-- of do_fork, which shares the pages copy on write.
pub mod Alloc
mod Tests
use huster_experiment_pke.Base.{
  ℕ, zero, suc, ◌+◌, ◌-◌, ◌*◌, ◌/◌, ◌%◌, Bool, true, false, not, List, [], ◌∷◌, arith, ltb, leb,
  ◌==◌, if◌then◌else◌, length,
}
use huster_experiment_pke.Base.Run.{Run, ok, killed, panic, fault, done, Cmd, and_then}
use huster_experiment_pke.Base.Word.{u64}
use huster_experiment_pke.Kernel.Pmm.{Pmm, alloc_page, inc_page_ref}
use huster_experiment_pke.Kernel.Vmm.{
  lookup_pa, prot_to_type, user_vm_map, user_vm_unmap, user_vm_map_cow, user_vm_set_cow,
}

-- the heap of the current process. `free_pages` is the used part of free_pages_address[], the last entry
-- first; `npages` is mapped_info[HEAP_SEGMENT].npages.
pub record PageHeap : Type 0 where
  pub pmm : Pmm
  pub pagetable : ℕ
  pub heap_top : ℕ
  pub free_pages : List ℕ
  pub npages : ℕ

abbrev pub max_heap_pages : ℕ
max_heap_pages = 32

abbrev pub lift : {A : Type 0} → PageHeap → Run Pmm A → Run PageHeap A
lift h (ok a s) = ok a (record h { pmm = s })
lift h (killed s) = killed (record h { pmm = s })
lift h panic = panic
lift h fault = fault

abbrev pub on_pmm : {A : Type 0} → Cmd Pmm A → Cmd PageHeap A
on_pmm c h = lift h (c h.pmm)

abbrev pub map_at : ℕ → ℕ → Cmd PageHeap ℕ
map_at va pa h =
    and_then (on_pmm (user_vm_map h.pagetable va 4096 pa (prot_to_type 3 true)) h)
      (λ _ h'. ok va h')

-- the address: of a page that was given back, by assert() below the top, or at the top
next_address : ℕ → List ℕ → Cmd PageHeap ℕ
next_address pa [] h =
    map_at h.heap_top pa (record h { heap_top = u64 (h.heap_top + 4096); npages = h.npages + 1 })
next_address pa (va ∷ vas) h =
    if ltb va h.heap_top then map_at va pa (record h { free_pages = vas }) else panic

unfoldable pub sys_user_allocate_page : Cmd PageHeap ℕ
unfolding next_address
sys_user_allocate_page h =
    and_then (on_pmm alloc_page h) (λ pa h'. next_address pa h'.free_pages h')

-- behind the last entry of free_pages_address[] the store is out of bounds
unfoldable pub sys_user_free_page : ℕ → Cmd PageHeap (Unit {0})
sys_user_free_page va h = and_then (on_pmm (user_vm_unmap h.pagetable va 4096 true) h) (λ _ h'.
    if ltb (length h'.free_pages) max_heap_pages
    then done (record h' { free_pages = va ∷ h'.free_pages })
    else fault)

-- one page of the loop in do_fork: a page that is mapped at the parent is mapped at the child too, marked
-- at both, and counted
abbrev pub share : ℕ → ℕ → ℕ → ℕ → Cmd Pmm (Unit {0})
share child parent heap_block pa s =
    if pa == 0
    then done s
    else and_then (user_vm_map_cow child heap_block 4096 pa s)
        (λ _ s₁. and_then (user_vm_set_cow parent heap_block s₁) (λ _ s₂. inc_page_ref pa s₂))

unfoldable pub share_page : ℕ → ℕ → ℕ → Cmd Pmm (Unit {0})
share_page child parent heap_block s =
    and_then (lookup_pa parent heap_block s) (share child parent heap_block)
