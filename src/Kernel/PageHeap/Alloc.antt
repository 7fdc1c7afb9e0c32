-- ===== src/Kernel/PageHeap/Alloc.antt =====
-- What sys_user_allocate_page and sys_user_free_page do to the address space.
use huster_experiment_pke.Base.{
  ℕ, ◌+◌, ◌/◌, ◌%◌, ◌^◌, ◌≤◌, ◌<◌, ◌≡◌, ◌≢◌, refl, ◌∙◌, true, false, arith, ltb, ◌==◌, List, [],
  ◌∷◌, ◌∉◌, length, ==_refl,
}
use huster_experiment_pke.Base.Run.{ok}
use huster_experiment_pke.Base.Word.{u64}
use huster_experiment_pke.Kernel.Pmm.{page_index}
use huster_experiment_pke.Kernel.Pmm.Chain.{IsPage}
use huster_experiment_pke.Kernel.Pmm.Laws.{alloc_page-taken}
use huster_experiment_pke.Kernel.Vmm.{has, pte_v, pte2pa, pte_flags, user_va_to_pa}
use huster_experiment_pke.Kernel.Vmm.Table.{entry_of}
use huster_experiment_pke.Kernel.Vmm.Space.{IsSpace}
use huster_experiment_pke.Kernel.Vmm.Confined.{Confined}
use huster_experiment_pke.Kernel.Vmm.Change.{user_vm_unmap_page}
use huster_experiment_pke.Kernel.Vmm.Pages.{mapped_page}
use huster_experiment_pke.Kernel.PageHeap.{
  PageHeap, max_heap_pages, next_address, sys_user_allocate_page, sys_user_free_page,
}

-- the page at `va` and what is kept of the address space
abbrev pub NewPage : PageHeap → ℕ → ℕ → (ℕ → ℕ) → List ℕ → PageHeap → Type 0
NewPage h p va height free h' =
    (free' : List ℕ) × (height' : ℕ → ℕ) × IsSpace h'.pmm free' h.pagetable height'
    × Confined h.pagetable h.pmm.mem height free h'.pmm.mem height' free'
    × ((off : ℕ) → off < 4096 → user_va_to_pa h.pagetable (va + off) h'.pmm ≡ ok (p + off) h'.pmm)
    × ((vb : ℕ)
        → vb < 2 ^ 38
        → vb / 4096 ≢ va / 4096
        → entry_of 2 h'.pmm.mem h.pagetable vb ≡ entry_of 2 h.pmm.mem h.pagetable vb)

-- With no page given back before, the heap's top aligned and not mapped, and two more free pages for
-- tables, sys_user_allocate_page returns the heap's top, moves it up by a page, and maps the page there to
-- the first free physical page; nothing else of the address space changes.
pub sys_user_allocate_page_top :
    (h : PageHeap) (p : ℕ) (free : List ℕ) (height : ℕ → ℕ)
    → h.free_pages ≡ []
    → h.heap_top % 4096 ≡ 0
    → h.heap_top + 4096 ≤ 2 ^ 38
    → IsSpace h.pmm (p ∷ free) h.pagetable height
    → has pte_v (entry_of 2 h.pmm.mem h.pagetable h.heap_top) ≡ false
    → 2 ≤ length free
    → (h' : PageHeap) × (sys_user_allocate_page h ≡ ok h.heap_top h')
      × (h'.heap_top ≡ h.heap_top + 4096)
      × (h'.free_pages ≡ [])
      × NewPage h p h.heap_top height free h'
unfolding sys_user_allocate_page next_address
sys_user_allocate_page_top h p free height empty al top sp invalid enough =
    let (s', free', height', run, sp', kept, inside, outside) =
      mapped_page h.pagetable h.heap_top h.pmm p free height al top sp invalid enough in
    let up : u64 (h.heap_top + 4096) ≡ h.heap_top + 4096 = omega arith in
    (
      record h { pmm = s'; heap_top = h.heap_top + 4096; npages = h.npages + 1 },
      rw (alloc_page-taken h.pmm p free sp.frames, empty, up, run) refl,
      refl,
      empty,
      (free', height', sp', kept, inside, outside),
    )

-- sys_user_free_page of a mapped page with one reference, with room among the remembered addresses and
-- two free pages, gives its physical page back, takes the translation away, and remembers the address;
-- the next sys_user_allocate_page returns that address
-- again, with a page mapped there.
pub sys_user_allocate_page-sys_user_free_page :
    (h : PageHeap) (va : ℕ) (free : List ℕ) (height : ℕ → ℕ) (pa : ℕ)
    → va % 4096 ≡ 0
    → va < h.heap_top
    → h.heap_top ≤ 2 ^ 38
    → h.heap_top % 4096 ≡ 0
    → IsSpace h.pmm free h.pagetable height
    → has pte_v (entry_of 2 h.pmm.mem h.pagetable va) ≡ true
    → pte_flags (entry_of 2 h.pmm.mem h.pagetable va) ≢ 1
    → pte2pa (entry_of 2 h.pmm.mem h.pagetable va) ≡ pa
    → IsPage h.pmm pa
    → height pa ≡ 0
    → pa ∉ free
    → h.pmm.refs (page_index h.pmm pa) ≡ 1
    → length h.free_pages < max_heap_pages
    → 2 ≤ length free
    → (h' h'' : PageHeap) × (sys_user_free_page va h ≡ ok tt h')
      × IsSpace h'.pmm (pa ∷ free) h.pagetable height
      × (h'.free_pages ≡ va ∷ h.free_pages)
      × (sys_user_allocate_page h' ≡ ok va h'')
      × (h''.heap_top ≡ h.heap_top)
      × (h''.free_pages ≡ h.free_pages)
      × NewPage h' pa va height free h''
unfolding sys_user_allocate_page next_address sys_user_free_page
sys_user_allocate_page-sys_user_free_page h va free height pa al below top al_top sp valid leaf e is
      z out one room enough =
    let root = h.pagetable in
    let (s₁, run, sp₁, counted, meaning) =
      user_vm_unmap_page root va h.pmm free height al (omega arith) sp valid leaf (rw e is) (rw e z)
        (rw e out) (rw e one) in
    let h₁ : PageHeap = record h { pmm = s₁; free_pages = va ∷ h.free_pages } in
    let fits : ltb (length h.free_pages) max_heap_pages ≡ true = ground arith in
    let sp₂ : IsSpace s₁ (pa ∷ free) root height = rw (← e) sp₁ in
    let here : (va / 4096 == va / 4096) ≡ true = ==_refl (va / 4096) in
    let gone : entry_of 2 s₁.mem root va ≡ 0 = meaning va (omega arith) ∙ rw here refl in
    let invalid : has pte_v (entry_of 2 s₁.mem root va) ≡ false = rw gone refl in
    let (s', free', height', run', sp', kept, inside, outside) =
      mapped_page root va s₁ pa free height al (omega arith) sp₂ invalid enough in
    let low : ltb va h.heap_top ≡ true = ground arith in
    (
      h₁,
      record h₁ { pmm = s'; free_pages = h.free_pages },
      rw (run, fits) refl,
      sp₂,
      refl,
      rw (alloc_page-taken s₁ pa free sp₂.frames, low, run') refl,
      refl,
      refl,
      (free', height', sp', kept, inside, outside),
    )
