-- ===== src/Kernel/Vmm/Change.antt =====
-- user_vm_set_cow, user_vm_unmap of one page, and what is refused.
use huster_experiment_pke.Base.{
  ℕ, zero, suc, ◌+◌, ◌-◌, ◌*◌, ◌/◌, ◌%◌, ◌^◌, ◌≤◌, ◌<◌, ◌≡◌, ◌≢◌, refl, sym, ◌∙◌, ap, Bool, true,
  false, arith, ltb, leb, ◌==◌, if◌then◌else◌, List, ◌∷◌, ◌∉◌, Option, some, Option-cases,
  Bool-cases, inl, inr,
}
use huster_experiment_pke.Base.Run.{ok, killed}
use huster_experiment_pke.Base.Word.{u64, u64_mod, round_down}
use huster_experiment_pke.Kernel.Memory.{Mem, store}
use huster_experiment_pke.Kernel.Pmm.{Pmm, free_page, page_index, get_page_ref}
use huster_experiment_pke.Kernel.Pmm.Chain.{IsPage}
use huster_experiment_pke.Kernel.Vmm.{
  has, pte_v, pte_r, pte_w, pte_cow, pte2pa, pte_flags, slot, cow_entry, next_table, walk_from,
  page_walk, map_pages, map_loop, set_entry, maxva, user_vm_map, set_cow, user_vm_set_cow,
  user_vm_unmap, unmap_loop, clear_entry, drop_page, walk_from, pte_u,
}
use huster_experiment_pke.Kernel.Vmm.Entry.{cow_entry_lem}
use huster_experiment_pke.Kernel.Vmm.Table.{entry_of}
use huster_experiment_pke.Kernel.Vmm.Space.{IsSpace}
use huster_experiment_pke.Kernel.Vmm.Extend.{leaf_of, word_at, entry_of-leaf_of}
use huster_experiment_pke.Kernel.Vmm.Confined.{Confined, store-Confined}
use huster_experiment_pke.Kernel.Vmm.Leaf.{page_walk_reads, entry_of-store, store-IsSpace}
use huster_experiment_pke.Kernel.Vmm.Foreign.{
  SameTables-store, leaf_of_same, entry_of-same, free_page-IsSpace,
}

-- a translation that is there has a leaf entry
pub leaf_for :
    (m : Mem) (root va : ℕ)
    → has pte_v (entry_of 2 m root va) ≡ true
    → (a : ℕ) × (leaf_of 2 m root va ≡ some a) × (m a ≡ entry_of 2 m root va)
leaf_for m root va valid = elim (Option-cases (leaf_of 2 m root va)) [
  | inl e ↦
      let nothing : entry_of 2 m root va ≡ 0 = entry_of-leaf_of 2 m root va ∙ ap (word_at m) e in
      let clash : has pte_v (entry_of 2 m root va) ≡ false = rw nothing refl in
      absurd (ground arith)
  | inr (a, e) ↦ (a, e, sym (entry_of-leaf_of 2 m root va ∙ ap (word_at m) e))
]

-- where the tables are there, `alloc` makes no difference
walk_from_present :
    (level pt va a : ℕ) (alloc : Bool) (s : Pmm)
    → leaf_of level s.mem pt va ≡ some a
    → walk_from level (some pt) va alloc s ≡ ok (some a) s
unfolding walk_from leaf_of next_table
walk_from_present zero pt va a alloc s e = ap (λ (o : Option ℕ). ok o s) e
walk_from_present (suc level) pt va a alloc s e =
    elim (Bool-cases (has pte_v (s.mem (slot pt (suc level) va)))) [
      | inl valid ↦ rw valid (
          walk_from_present level (pte2pa (s.mem (slot pt (suc level) va))) va a alloc s
            (rw valid at e))
      | inr stop ↦ let f = rw stop at e in absurd (ground arith)
    ]

-- Mapping over a translation is refused: where the first page of the range is mapped, user_vm_map
-- kills the process, and memory is as before.
pub user_vm_map_refuses :
    (root va size pa perm : ℕ) (s : Pmm)
    → 0 < size
    → va + size ≤ 2 ^ 38
    → has pte_v (entry_of 2 s.mem root (round_down va)) ≡ true
    → user_vm_map root va size pa perm s ≡ killed s
unfolding user_vm_map map_pages map_loop page_walk set_entry round_down
user_vm_map_refuses root va size pa perm s some_page top valid =
    let first = va / 4096 * 4096 in
    let (a, leaf, word) = leaf_for s.mem root first valid in
    let e : u64 (va + size + u64_mod - 1) ≡ va + size - 1 = omega arith in
    let fuel : size / 4096 + 3 ≡ suc (size / 4096 + 2) = omega arith in
    let more : leb first ((va + size - 1) / 4096 * 4096) ≡ true = ground arith in
    let inside : leb maxva first ≡ false = ground arith in
    let taken : has pte_v (s.mem a) ≡ true = rw word valid in
    rw (e, fuel, more, map_loop, inside, walk_from_present 2 root first a true s leaf, taken) refl

-- user_vm_set_cow of a page that is mapped, by an entry of 64 bits, replaces its entry, for the page's
-- addresses and no others, by one that is valid, not writable, marked PTE_COW, readable and the user's as before, and
-- of the same physical page; other address spaces, the contents of pages and the counts stay.
pub user_vm_set_cow_lem :
    (root va : ℕ) (s : Pmm) (free : List ℕ) (h : ℕ → ℕ)
    → va < 2 ^ 38
    → IsSpace s free root h
    → has pte_v (entry_of 2 s.mem root va) ≡ true
    → entry_of 2 s.mem root va < 2 ^ 64
    → (s' : Pmm) × (user_vm_set_cow root va s ≡ ok tt s')
      × IsSpace s' free root h
      × Confined root s.mem h free s'.mem h free
      × ((vb : ℕ)
          → vb < 2 ^ 38
          → entry_of 2 s'.mem root vb ≡ (
              if vb / 4096 == va / 4096
              then cow_entry (entry_of 2 s.mem root va)
              else entry_of 2 s.mem root vb))
      × (has pte_v (cow_entry (entry_of 2 s.mem root va)) ≡ true)
      × (has pte_w (cow_entry (entry_of 2 s.mem root va)) ≡ false)
      × (has pte_cow (cow_entry (entry_of 2 s.mem root va)) ≡ true)
      × (has pte_r (cow_entry (entry_of 2 s.mem root va)) ≡ has pte_r (entry_of 2 s.mem root va))
      × (has pte_u (cow_entry (entry_of 2 s.mem root va)) ≡ has pte_u (entry_of 2 s.mem root va))
      × (pte2pa (cow_entry (entry_of 2 s.mem root va)) ≡ pte2pa (entry_of 2 s.mem root va))
      × (s'.refs ≡ s.refs)
unfolding user_vm_set_cow set_cow
user_vm_set_cow_lem root va s free h lt sp valid wide =
    let (a, leaf, word) = leaf_for s.mem root va valid in
    let taken : has pte_v (s.mem a) ≡ true = rw word valid in
    let v = cow_entry (entry_of 2 s.mem root va) in
    let (unwritable, marked, kept, readable, user, page) =
      cow_entry_lem (entry_of 2 s.mem root va) wide in
    (
      record s { mem = store s.mem a v },
      rw (page_walk_reads root va s lt, leaf, taken, word) refl,
      store-IsSpace s free root h va a v sp leaf,
      store-Confined s.mem root h sp.tree va a v leaf free,
      λ vb lt'. entry_of-store s.mem root h sp.tree va a v leaf vb lt lt',
      kept ∙ valid,
      unwritable,
      marked,
      readable,
      user,
      page,
      refl,
    )

-- one round of the loop, from what free_page gives
unmap_one :
    (root va a : ℕ) (s s₁ : Pmm)
    → va + 4096 ≤ 2 ^ 38
    → leaf_of 2 s.mem root va ≡ some a
    → has pte_v (s.mem a) ≡ true
    → (pte_flags (s.mem a) == 1) ≡ false
    → free_page (pte2pa (s.mem a)) s ≡ ok tt s₁
    → unmap_loop 3 root va (va + 4096) true s ≡ ok tt (record s₁ { mem = store s₁.mem a 0 })
unfolding unmap_loop clear_entry drop_page
unmap_one root va a s s₁ top leaf valid a_leaf run =
    let more : ltb va (va + 4096) ≡ true = ground arith in
    let stop : ltb (va + 4096) (va + 4096) ≡ false = ground arith in
    let e : u64 (va + 4096) ≡ va + 4096 = omega arith in
    rw
      (more, unmap_loop, page_walk_reads root va s (omega arith), leaf, valid, a_leaf, run, e, stop)
      refl

-- user_vm_unmap of one mapped page, with `free`, where the page has one reference: the page goes to the
-- front of the free list with count 0, its addresses have no translation, and the other
-- translations are as before.
pub user_vm_unmap_page :
    (root va : ℕ) (s : Pmm) (free : List ℕ) (h : ℕ → ℕ)
    → va % 4096 ≡ 0
    → va + 4096 ≤ 2 ^ 38
    → IsSpace s free root h
    → has pte_v (entry_of 2 s.mem root va) ≡ true
    → pte_flags (entry_of 2 s.mem root va) ≢ 1
    → IsPage s (pte2pa (entry_of 2 s.mem root va))
    → h (pte2pa (entry_of 2 s.mem root va)) ≡ 0
    → pte2pa (entry_of 2 s.mem root va) ∉ free
    → s.refs (page_index s (pte2pa (entry_of 2 s.mem root va))) ≡ 1
    → (s' : Pmm) × (user_vm_unmap root va 4096 true s ≡ ok tt s')
      × IsSpace s' (pte2pa (entry_of 2 s.mem root va) ∷ free) root h
      × (get_page_ref s' (pte2pa (entry_of 2 s.mem root va)) ≡ 0)
      × ((vb : ℕ)
          → vb < 2 ^ 38
          → entry_of 2 s'.mem root vb
            ≡ (if vb / 4096 == va / 4096 then 0 else entry_of 2 s.mem root vb))
unfolding user_vm_unmap get_page_ref
user_vm_unmap_page root va s free h al top sp valid not_table is z out one =
    let pa = pte2pa (entry_of 2 s.mem root va) in
    let (a, leaf, word) = leaf_for s.mem root va valid in
    let taken : has pte_v (s.mem a) ≡ true = rw word valid in
    let flags : (pte_flags (s.mem a) == 1) ≡ false = rw word (ground arith) in
    let (s₁, run, sp₁, counted, written) = free_page-IsSpace s pa free root h sp is z out one in
    let same = SameTables-store s.mem root h pa s.head sp.tree is.aligned z in
    let leaf₁ : leaf_of 2 s₁.mem root va ≡ some a = rw written (
      leaf_of_same s.mem (store s.mem pa s.head) root h sp.tree same 2 root va sp.tree.top
      ∙ leaf) in
    let end : u64 (va + 4096) ≡ va + 4096 = omega arith in
    let aligned : (va % 4096 == 0) ≡ true = ground arith in
    (
      record s₁ { mem = store s₁.mem a 0 },
      rw (aligned, end) (unmap_one root va a s s₁ top leaf taken flags (rw word run)),
      store-IsSpace s₁ (pa ∷ free) root h va a 0 sp₁ leaf₁,
      counted,
      λ vb lt.
          let kept : entry_of 2 s₁.mem root vb ≡ entry_of 2 s.mem root vb = rw written (
            entry_of-same s.mem (store s.mem pa s.head) root h sp.tree same 2 root vb
              sp.tree.top) in
          entry_of-store s₁.mem root h sp₁.tree va a 0 leaf₁ vb (omega arith) lt ∙ rw kept refl,
    )
