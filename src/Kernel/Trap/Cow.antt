-- ===== src/Kernel/Trap/Cow.antt =====
-- Copy on write: what a store to a shared page leaves behind.
use huster_experiment_pke.Base.{
  ℕ, ◌+◌, ◌-◌, ◌*◌, ◌/◌, ◌%◌, ◌^◌, ◌≤◌, ◌<◌, ◌≡◌, ◌≢◌, refl, sym, ◌∙◌, ap, true, false, ◌&&◌, arith,
  ltb, leb, ◌==◌, if◌then◌else◌, List, ◌∷◌, ◌∉◌, some,
}
use huster_experiment_pke.Base.Run.{ok}
use huster_experiment_pke.Base.Word.{round_down}
use huster_experiment_pke.Kernel.Memory.{Mem, store}
use huster_experiment_pke.Kernel.Pmm.{Pmm, page_index, get_page_ref, dec_page_ref}
use huster_experiment_pke.Kernel.Pmm.Chain.{IsPage}
use huster_experiment_pke.Kernel.Pmm.Laws.{get_page_ref-page, taken, alloc_page-taken, taken-refs}
use huster_experiment_pke.Kernel.Vmm.{
  has, pte_v, pte_r, pte_w, pte_cow, pte2pa, prot_to_type, user_vm_get_pte, pte_u,
}
use huster_experiment_pke.Kernel.Vmm.Entry.{entry_for-has_v, entry_for-flags, entry_for-pte2pa}
use huster_experiment_pke.Kernel.Vmm.Table.{entry_of}
use huster_experiment_pke.Kernel.Vmm.Space.{IsSpace}
use huster_experiment_pke.Kernel.Vmm.Extend.{leaf_of, page_of}
use huster_experiment_pke.Kernel.Vmm.Leaf.{
  page_walk_reads, entry_of-store, store-IsSpace, leaf_of-page,
}
use huster_experiment_pke.Kernel.Vmm.Confined.{store-Confined}
use huster_experiment_pke.Kernel.Vmm.Foreign.{
  Within, Within-IsSpace, Within-SameTables, leaf_of_same, entry_of-same, taken-IsSpace,
  free_page_shared-IsSpace,
}
use huster_experiment_pke.Kernel.Vmm.Change.{leaf_for}
use huster_experiment_pke.Kernel.Trap.{
  Space, copy_page, private_entry, copy_to, break_cow, fault_by, store_page_fault,
}

copy_page-Within : (p pa : ℕ) (m : Mem) → p % 4096 ≡ 0 → Within p m (copy_page p pa m)
copy_page-Within p pa m al x far = ground arith

copy_page-copies :
    (p pa : ℕ) (m : Mem) (off : ℕ) → off < 4096 → copy_page p pa m (p + off) ≡ m (pa + off)
copy_page-copies p pa m off lt =
    let inside : (leb p (p + off) && ltb (p + off) (p + 4096)) ≡ true = ground arith in
    let same : pa + (p + off - p) ≡ pa + off = omega arith in rw (inside, same) refl

-- the new entry is valid, can be read and written by the user, and leads to the new page
pub private_entry-flags :
    (p : ℕ)
    → (has pte_v (private_entry p) ≡ true)
      × (has pte_r (private_entry p) ≡ true)
      × (has pte_w (private_entry p) ≡ true)
      × (has pte_cow (private_entry p) ≡ false)
      × (has pte_u (private_entry p) ≡ true)
unfolding prot_to_type
private_entry-flags p = (
  entry_for-has_v p 214,
  ground (arith, entry_for-flags p 214),
  ground (arith, entry_for-flags p 214),
  ground (arith, entry_for-flags p 214),
  ground (arith, entry_for-flags p 214),
)

pub private_entry-pte2pa : (p : ℕ) → p % 4096 ≡ 0 → p < 2 ^ 56 → pte2pa (private_entry p) ≡ p
unfolding prot_to_type
private_entry-pte2pa p al lt = entry_for-pte2pa p 214 al lt (omega arith)

module _ (s : Pmm) (p : ℕ) (free : List ℕ) (root : ℕ) (h : ℕ → ℕ) (sp : IsSpace s (p ∷ free) root h)
    (va a : ℕ) (lt : va < 2 ^ 38) (leaf : leaf_of 2 s.mem root va ≡ some a) (pa : ℕ)
    (is : IsPage s pa) (z : h pa ≡ 0) (out : pa ∉ p ∷ free)
    (shared : 2 ≤ s.refs (page_index s pa)) where
  m₂ : Mem
  m₂ = copy_page p pa s.mem

  -- the state in which the reference to the shared page is dropped
  s₃ : Pmm
  s₃ = record (taken s p) { mem = store m₂ a (private_entry p) }

  within : Within p s.mem m₂
  unfolding m₂
  within = copy_page-Within p pa s.mem sp.frames.pages.0.0.aligned

  copied-IsSpace : IsSpace (record (taken s p) { mem = m₂ }) free root h
  copied-IsSpace =
      Within-IsSpace (taken s p) m₂ p free root h (taken-IsSpace s p free root h sp) sp.spare.0
        sp.frames.distinct.0 within

  leaf₂ : leaf_of 2 m₂ root va ≡ some a
  leaf₂ =
      leaf_of_same s.mem m₂ root h sp.tree
        (Within-SameTables s.mem m₂ root h p sp.tree sp.spare.0 within) 2 root va sp.tree.top
      ∙ leaf

  s₃-IsSpace : IsSpace s₃ free root h
  unfolding s₃
  s₃-IsSpace =
      store-IsSpace (record (taken s p) { mem = m₂ }) free root h va a (private_entry p)
        copied-IsSpace leaf₂

  s₃-IsPage : IsPage s₃ pa
  unfolding s₃
  s₃-IsPage = record {
    aligned = is.aligned;
    above = is.above;
    below = is.below;
    counted = is.counted;
  }

  same_count : s₃.refs (page_index s₃ pa) ≡ s.refs (page_index s pa)
  unfolding s₃
  same_count = taken-refs s p pa sp.frames.start_aligned sp.frames.pages.0.0 is (λ e. ground arith)

  same_ref : get_page_ref s₃ pa ≡ get_page_ref s pa
  same_ref = get_page_ref-page s₃ pa s₃-IsPage ∙ same_count ∙ sym (get_page_ref-page s pa is)

  meaning :
      (vb : ℕ)
      → vb < 2 ^ 38
      → entry_of 2 s₃.mem root vb
        ≡ (if vb / 4096 == va / 4096 then private_entry p else entry_of 2 s.mem root vb)
  unfolding s₃
  meaning vb lt' =
      let kept =
        entry_of-same s.mem m₂ root h sp.tree
          (Within-SameTables s.mem m₂ root h p sp.tree sp.spare.0 within) 2 root vb sp.tree.top in
      entry_of-store m₂ root h copied-IsSpace.tree va a (private_entry p) leaf₂ vb lt lt'
      ∙ rw kept refl

  others : (r vb : ℕ) → h r ≡ 3 → r ≢ root → entry_of 2 s₃.mem r vb ≡ entry_of 2 s.mem r vb
  unfolding s₃
  others r vb top far =
      (store-Confined m₂ root h copied-IsSpace.tree va a (private_entry p) leaf₂ free).others r vb
        top far
      ∙ entry_of-same s.mem m₂ root h sp.tree
          (Within-SameTables s.mem m₂ root h p sp.tree sp.spare.0 within) 2 r vb top

  contents : (x : ℕ) → h (page_of x) ≡ 0 → page_of x ≢ p → s₃.mem x ≡ s.mem x
  unfolding s₃
  contents x zx far =
      (store-Confined m₂ root h copied-IsSpace.tree va a (private_entry p) leaf₂ free).contents x zx
        zx
      ∙ within x far

  copied : (off : ℕ) → off < 4096 → s₃.mem (p + off) ≡ s.mem (pa + off)
  unfolding s₃ m₂
  copied off lt' =
      let al = sp.frames.pages.0.0.aligned in
      let here : page_of (p + off) ≡ p = omega arith in
      let zp : h (page_of (p + off)) ≡ 0 = ap h here ∙ sp.spare.0 in
      (store-Confined m₂ root h copied-IsSpace.tree va a (private_entry p) leaf₂ free).contents
        (p + off) zp zp
      ∙ copy_page-copies p pa s.mem off lt'

  break_cow-run : pte2pa (s.mem a) ≡ pa → break_cow a s ≡ dec_page_ref pa s₃
  unfolding break_cow copy_to s₃ m₂
  break_cow-run e =
      let many : ltb 1 (get_page_ref s pa) ≡ true = ground (arith, get_page_ref-page s pa is) in
      let page : (p == 0) ≡ false = ground (arith, sp.frames.chain.1) in
      rw (e, many, alloc_page-taken s p free sp.frames, page) refl

  -- what holds after the fault
  broken :
      pte2pa (s.mem a) ≡ pa
      → (s' : Pmm) × (break_cow a s ≡ ok tt s')
        × IsSpace s' free root h
        × ((vb : ℕ)
            → vb < 2 ^ 38
            → entry_of 2 s'.mem root vb
              ≡ (if vb / 4096 == va / 4096 then private_entry p else entry_of 2 s.mem root vb))
        × ((off : ℕ) → off < 4096 → s'.mem (p + off) ≡ s.mem (pa + off))
        × ((r vb : ℕ) → h r ≡ 3 → r ≢ root → entry_of 2 s'.mem r vb ≡ entry_of 2 s.mem r vb)
        × ((x : ℕ) → h (page_of x) ≡ 0 → page_of x ≢ p → s'.mem x ≡ s.mem x)
        × (get_page_ref s' pa + 1 ≡ get_page_ref s pa)
  unfolding dec_page_ref
  broken e =
      let (s', run, sp', counted, same) =
        free_page_shared-IsSpace s₃ pa free root h s₃-IsSpace s₃-IsPage (ground arith)
          (omega (arith, same_count)) in
      (
        s',
        break_cow-run e ∙ run,
        sp',
        rw same meaning,
        rw same copied,
        rw same others,
        rw same contents,
        counted ∙ same_ref,
      )

-- A store to a page that is marked PTE_COW and has more than one reference, with a free page left: the
-- page of the fault is translated to a fresh page with the same words, by an entry that is valid,
-- readable, writable, the user's and not marked; no other translation of this or another address space changes, and no word of another page
-- that is no table, the shared one among them; and the shared page loses one reference.
pub store_page_fault_copies :
    (t : Space) (fault_va : ℕ) (s : Pmm) (p : ℕ) (free : List ℕ) (h : ℕ → ℕ) (pa : ℕ)
    → fault_va < 2 ^ 38
    → IsSpace s (p ∷ free) t.pagetable h
    → has pte_v (entry_of 2 s.mem t.pagetable fault_va) ≡ true
    → has pte_cow (entry_of 2 s.mem t.pagetable fault_va) ≡ true
    → pte2pa (entry_of 2 s.mem t.pagetable fault_va) ≡ pa
    → IsPage s pa
    → h pa ≡ 0
    → pa ∉ p ∷ free
    → 2 ≤ get_page_ref s pa
    → (s' : Pmm) × (store_page_fault t fault_va s ≡ ok tt s')
      × IsSpace s' free t.pagetable h
      × ((vb : ℕ)
          → vb < 2 ^ 38
          → entry_of 2 s'.mem t.pagetable vb ≡ (
              if vb / 4096 == fault_va / 4096
              then private_entry p
              else entry_of 2 s.mem t.pagetable vb))
      × (has pte_v (private_entry p) ≡ true)
      × (has pte_r (private_entry p) ≡ true)
      × (has pte_w (private_entry p) ≡ true)
      × (has pte_cow (private_entry p) ≡ false)
      × (has pte_u (private_entry p) ≡ true)
      × (pte2pa (private_entry p) ≡ p)
      × ((off : ℕ) → off < 4096 → s'.mem (p + off) ≡ s.mem (pa + off))
      × ((r vb : ℕ) → h r ≡ 3 → r ≢ t.pagetable → entry_of 2 s'.mem r vb ≡ entry_of 2 s.mem r vb)
      × ((x : ℕ) → h (page_of x) ≡ 0 → page_of x ≢ p → s'.mem x ≡ s.mem x)
      × (get_page_ref s' pa + 1 ≡ get_page_ref s pa)
unfolding store_page_fault fault_by round_down user_vm_get_pte
store_page_fault_copies t fault_va s p free h pa lt sp valid marked e is z out shared =
    let root = t.pagetable in
    let va = fault_va / 4096 * 4096 in
    let (a, leaf', word) = leaf_for s.mem root fault_va valid in
    let leaf : leaf_of 2 s.mem root va ≡ some a =
      leaf_of-page s.mem root h sp.tree fault_va a 0 leaf' 2 root va (omega arith) ∙ leaf' in
    let is_cow : (has pte_v (s.mem a) && has pte_cow (s.mem a)) ≡ true =
      rw (word, valid, marked) refl in
    let two : 2 ≤ s.refs (page_index s pa) = omega (arith, get_page_ref-page s pa is) in
    let page : va / 4096 ≡ fault_va / 4096 = omega arith in
    let (s', run, sp', meaning', rest₁, rest₂, rest₃, rest₄) =
      broken s p free root h sp va a (omega arith) leaf pa is z out two (rw word e) in
    (
      s',
      rw (page_walk_reads root va s (omega arith), leaf, is_cow) run,
      sp',
      λ vb lt'. meaning' vb lt' ∙ rw page refl,
      (private_entry-flags p).0,
      (private_entry-flags p).1,
      (private_entry-flags p).2,
      (private_entry-flags p).3,
      (private_entry-flags p).4,
      private_entry-pte2pa p sp.frames.pages.0.0.aligned
          (omega (arith, sp.frames.pages.0.0.below, sp.small)),
      rest₁,
      rest₂,
      rest₃,
      rest₄,
    )
