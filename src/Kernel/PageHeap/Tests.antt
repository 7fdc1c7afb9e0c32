-- ===== src/Kernel/PageHeap/Tests.antt =====
-- The page-wise heap, on the memory of Kernel/Vmm/Example.
use huster_experiment_pke.Base.{◌≡◌, refl, arith, [], ◌∷◌}
use huster_experiment_pke.Base.Run.{ok}
use huster_experiment_pke.Kernel.Vmm.Example.{
  root, user_page, height, pages, free, space, user_page-IsPage,
}
use huster_experiment_pke.Kernel.Vmm.Table.{entry_of}
use huster_experiment_pke.Kernel.Vmm.Space.{IsSpace}
use huster_experiment_pke.Kernel.PageHeap.{PageHeap, sys_user_allocate_page, sys_user_free_page}
use huster_experiment_pke.Kernel.PageHeap.Alloc.{
  NewPage, sys_user_allocate_page_top, sys_user_allocate_page-sys_user_free_page,
}

-- one page of heap, mapped
abbrev heap : PageHeap
heap = record { pmm = pages 1; pagetable = root; heap_top = 0x401000; free_pages = []; npages = 1 }

sys_user_allocate_page_top_example :
    (h' : PageHeap) × (sys_user_allocate_page heap ≡ ok 0x401000 h')
    × (h'.heap_top ≡ 0x402000)
    × (h'.free_pages ≡ [])
    × NewPage heap 0x80014000 0x401000 height (0x80015000 ∷ 0x80016000 ∷ []) h'
unfolding entry_of
sys_user_allocate_page_top_example =
    sys_user_allocate_page_top heap 0x80014000 (0x80015000 ∷ 0x80016000 ∷ []) height refl refl
      (omega arith) (space 1) refl (omega arith)

sys_user_allocate_page-sys_user_free_page_example :
    (h' h'' : PageHeap) × (sys_user_free_page 0x400000 heap ≡ ok tt h')
    × IsSpace h'.pmm (user_page ∷ free) root height
    × (h'.free_pages ≡ 0x400000 ∷ [])
    × (sys_user_allocate_page h' ≡ ok 0x400000 h'')
    × (h''.heap_top ≡ 0x401000)
    × (h''.free_pages ≡ [])
    × NewPage h' user_page 0x400000 height free h''
unfolding entry_of
sys_user_allocate_page-sys_user_free_page_example =
    sys_user_allocate_page-sys_user_free_page heap 0x400000 free height user_page refl (omega arith)
      (omega arith) refl (space 1) refl (omega arith) refl (user_page-IsPage 1) refl refl refl
      (omega arith) (omega arith)
