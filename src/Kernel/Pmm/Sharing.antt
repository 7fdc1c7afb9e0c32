-- ===== src/Kernel/Pmm/Sharing.antt =====
-- Reference counts that go up and down, and a page freed twice.
use huster_experiment_pke.Base.{ℕ, ◌+◌, ◌%◌, ◌≤◌, ◌<◌, List, ◌∷◌, ◌≡◌, refl, ◌∙◌, arith}
use huster_experiment_pke.Base.Run.{ok}
use huster_experiment_pke.Kernel.Memory.{store}
use huster_experiment_pke.Kernel.Pmm.{
  Pmm, page_index, set_ref, push, drop_ref, free_page, alloc_page, inc_page_ref, dec_page_ref,
  get_page_ref,
}
use huster_experiment_pke.Kernel.Pmm.Chain.{IsPage, IsValid}
use huster_experiment_pke.Kernel.Pmm.Laws.{pushed, free_page-run, free_page-unreferenced}

inc_page_ref-run :
    (s : Pmm) (p : ℕ)
    → IsPage s p
    → s.refs (page_index s p) < 65535
    → inc_page_ref p s
      ≡ ok tt (record s { refs = set_ref s.refs (page_index s p) (s.refs (page_index s p) + 1) })
unfolding inc_page_ref
inc_page_ref-run s p is small =
    let wrap : (s.refs (page_index s p) + 1) % 65536 ≡ s.refs (page_index s p) + 1 = omega arith in
    rw wrap (ground (arith, is.above, is.below, is.counted))

-- Sharing an allocated page and dropping the share leaves memory, the free list's head and every
-- count as they were; in between the count is one higher.
pub dec_page_ref-inc_page_ref :
    (s : Pmm) (p : ℕ)
    → IsPage s p
    → 1 ≤ s.refs (page_index s p)
    → s.refs (page_index s p) < 65535
    → (t u : Pmm) × (inc_page_ref p s ≡ ok tt t)
      × (get_page_ref t p ≡ get_page_ref s p + 1)
      × (dec_page_ref p t ≡ ok tt u)
      × (u.mem ≡ s.mem)
      × (u.head ≡ s.head)
      × ((i : ℕ) → u.refs i ≡ s.refs i)
unfolding dec_page_ref drop_ref push get_page_ref
dec_page_ref-inc_page_ref s p is one small =
    let i = page_index s p in
    let t : Pmm = record s { refs = set_ref s.refs i (s.refs i + 1) } in
    (
      t,
      record t { refs = set_ref t.refs i (s.refs i) },
      inc_page_ref-run s p is small,
      ground (arith, is.above, is.below, is.counted),
      free_page-run t p (record {
        aligned = is.aligned;
        above = is.above;
        below = is.below;
        counted = is.counted;
      })
          ∙ ground arith,
      refl,
      refl,
      λ j. ground arith,
    )

-- A second free_page of the page at the head of the free list is accepted, and makes the list a
-- cycle: alloc_page hands the same page out again and again.
pub free_page_twice :
    (s : Pmm) (p : ℕ) (xs : List ℕ)
    → IsValid s (p ∷ xs)
    → (t u w : Pmm) × (free_page p s ≡ ok tt t) × (alloc_page t ≡ ok p u) × (alloc_page u ≡ ok p w)
unfolding pushed alloc_page store
free_page_twice s p xs v =
    let t = pushed s p s.refs in
    let i = page_index s p in
    let u : Pmm = record t { refs = set_ref t.refs i 1 } in
    (
      t,
      u,
      record u { refs = set_ref u.refs i 1 },
      free_page-unreferenced s p v.pages.0.0 v.pages.0.1,
      ground (arith, v.chain, v.pages.0.0.counted),
      ground (arith, v.chain, v.pages.0.0.counted),
    )
