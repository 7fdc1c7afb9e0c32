-- ===== src/Kernel/Vmm/Map.antt =====
-- map_pages: the pages of a range are translated to consecutive physical pages, and nothing else changes.
use huster_experiment_pke.Base.{
  ℕ, zero, suc, ◌+◌, ◌-◌, ◌*◌, ◌/◌, ◌%◌, ◌^◌, ◌≤◌, ◌<◌, ◌≡◌, refl, sym, ◌∙◌, ap, Bool, true, false,
  ◌&&◌, arith, ltb, leb, ◌==◌, if◌then◌else◌, List, [], Option, some, length, Bool-cases, inl, inr,
  ◌⊎◌, bit_or,
}
use huster_experiment_pke.Base.Run.{Run, ok, and_then, Cmd}
use huster_experiment_pke.Base.Word.{u64, u64_mod, round_down}
use huster_experiment_pke.Kernel.Memory.{Mem, store}
use huster_experiment_pke.Kernel.Pmm.{Pmm}
use huster_experiment_pke.Kernel.Vmm.{has, pte_v, pa2pte, set_entry, map_loop, map_pages}
use huster_experiment_pke.Kernel.Vmm.Table.{entry_of}
use huster_experiment_pke.Kernel.Vmm.Space.{IsSpace}
use huster_experiment_pke.Kernel.Vmm.Extend.{word_at, entry_of-leaf_of}
use huster_experiment_pke.Kernel.Vmm.Walk.{Walked, arrived, exhausted, page_walk_allocates}
use huster_experiment_pke.Kernel.Vmm.Confined.{
  Confined, Confined-refl, Confined-trans, Extends-Confined, store-Confined,
}
use huster_experiment_pke.Kernel.Vmm.Leaf.{entry_of-store, store-IsSpace}

-- the entry that map_pages writes for the page at `pa`
abbrev pub entry_for : ℕ → ℕ → ℕ
entry_for pa perm = bit_or (bit_or (pa2pte pa) perm) 1

-- the translation of `vb` after the pages from `first` to `last` have been mapped, from the one before
unfoldable pub mapped : ℕ → ℕ → ℕ → ℕ → ℕ → ℕ → ℕ
mapped first last pa perm vb old =
    if leb first vb && ltb vb (last + 4096)
    then entry_for (pa + (vb / 4096 * 4096 - first)) perm
    else old

-- no page of the range has a translation
abbrev pub Unmapped : Mem → ℕ → ℕ → ℕ → Type 0
Unmapped m root first last =
    (vb : ℕ) → first ≤ vb → vb < last + 4096 → has pte_v (entry_of 2 m root vb) ≡ false

pub data Mapped (s : Pmm) (free : List ℕ) (h : ℕ → ℕ) (root first last pa perm pages : ℕ)
    : Run Pmm Bool → Type 0 where
  finished :
      (s' : Pmm) (free' : List ℕ) (h' : ℕ → ℕ)
      → IsSpace s' free' root h'
      → Confined root s.mem h free s'.mem h' free'
      → ((vb : ℕ)
          → vb < 2 ^ 38
          → entry_of 2 s'.mem root vb ≡ mapped first last pa perm vb (entry_of 2 s.mem root vb))
      → Mapped s free h root first last pa perm pages (ok true s')
  out_of_memory :
      (s' : Pmm) (h' : ℕ → ℕ)
      → IsSpace s' [] root h'
      → Confined root s.mem h free s'.mem h' []
      → ((vb : ℕ)
          → vb < 2 ^ 38
          → (vb < first) ⊎ (last + 4096 ≤ vb)
          → entry_of 2 s'.mem root vb ≡ entry_of 2 s.mem root vb)
      → length free < 2 * pages
      → Mapped s free h root first last pa perm pages (ok false s')

mapped_after :
    (first last pa perm vb old : ℕ) → first ≡ last + 4096 → mapped first last pa perm vb old ≡ old
unfolding mapped
mapped_after first last pa perm vb old done =
    let outside : (leb first vb && ltb vb (last + 4096)) ≡ false = ground arith in rw outside refl

mapped_step :
    (first last pa perm vb old : ℕ)
    → first % 4096 ≡ 0
    → first ≤ last
    → mapped
        (first + 4096)
        last
        (pa + 4096)
        perm
        vb
        (if vb / 4096 == first / 4096 then entry_for pa perm else old)
      ≡ mapped first last pa perm vb old
unfolding mapped
mapped_step first last pa perm vb old al le = elim (Bool-cases (vb / 4096 == first / 4096)) [
  | inl same ↦
      let before : leb (first + 4096) vb ≡ false = ground arith in
      let from : leb first vb ≡ true = ground arith in
      let to : ltb vb (last + 4096) ≡ true = ground arith in
      let offset : pa + (vb / 4096 * 4096 - first) ≡ pa = ground arith in
      rw (same, before, from, to, offset) refl
  | inr other ↦ rw other (elim (Bool-cases (leb (first + 4096) vb)) [
    | inl later ↦
        let from : leb first vb ≡ true = ground arith in
        let offset : pa + 4096 + (vb / 4096 * 4096 - (first + 4096))
            ≡ pa + (vb / 4096 * 4096 - first) =
          ground arith in
        rw (later, from, offset) refl
    | inr before ↦ let from : leb first vb ≡ false = ground arith in rw (before, from) refl
  ])
]

-- the outcome for the rest of the range, after one page more in front of it
one_more :
    (root first last pa perm n : ℕ) (s s₂ : Pmm) (free free₂ : List ℕ) (h h₂ : ℕ → ℕ)
    → first % 4096 ≡ 0
    → first ≤ last
    → length free ≤ 2 + length free₂
    → ((vb : ℕ)
        → vb < 2 ^ 38
        → entry_of 2 s₂.mem root vb
          ≡ (if vb / 4096 == first / 4096 then entry_for pa perm else entry_of 2 s.mem root vb))
    → Confined root s.mem h free s₂.mem h₂ free₂
    → (r : Run Pmm Bool) → Mapped s₂ free₂ h₂ root (first + 4096) last (pa + 4096) perm n r
    → Mapped s free h root first last pa perm (suc n) r
one_more root first last pa perm n s s₂ free free₂ h h₂ al le count now kept _
      (finished s' free' h' sp' kept' meaning) =
    finished s' free' h' sp' (Confined-trans kept kept') (λ vb lt.
      meaning vb lt
      ∙ rw (now vb lt) (mapped_step first last pa perm vb (entry_of 2 s.mem root vb) al le))
one_more root first last pa perm n s s₂ free free₂ h h₂ al le count now kept _
      (out_of_memory s' h' sp' kept' same short) =
    out_of_memory s' h' sp' (Confined-trans kept kept')
      (λ vb lt out.
        let other : (vb / 4096 == first / 4096) ≡ false = ground arith in
        same vb lt (ground arith) ∙ rw (now vb lt, other) refl)
      (omega arith)

-- what is done with the leaf entry, and the rest of the loop
unfoldable with_leaf : ℕ → ℕ → ℕ → ℕ → ℕ → ℕ → Option ℕ → Cmd Pmm Bool
with_leaf fuel root first last pa perm o s₁ =
    and_then (set_entry (entry_for pa perm) o s₁) (λ fine s₂. elim fine [
      | false ↦ ok false s₂
      | true ↦ map_loop fuel root (u64 (first + 4096)) last (u64 (pa + 4096)) perm s₂
    ])

with_leaf-run :
    (fuel root first last pa perm a : ℕ) (s : Pmm)
    → has pte_v (s.mem a) ≡ false
    → first + 4096 < 2 ^ 64
    → pa + 4096 < 2 ^ 64
    → with_leaf fuel root first last pa perm (some a) s
      ≡ map_loop fuel root
          (first + 4096)
          last
          (pa + 4096)
          perm
          (record s { mem = store s.mem a (entry_for pa perm) })
unfolding with_leaf set_entry
with_leaf-run fuel root first last pa perm a s invalid lt lt' =
    let e : u64 (first + 4096) ≡ first + 4096 = omega arith in
    let e' : u64 (pa + 4096) ≡ pa + 4096 = omega arith in rw (invalid, e, e') refl

-- one page is mapped; `rest` is what the loop does then
map_first :
    (fuel root first last pa perm n : ℕ) (s : Pmm) (free : List ℕ) (h : ℕ → ℕ)
    → first % 4096 ≡ 0
    → last + 4096 ≡ first + 4096 * suc n
    → last + 4096 ≤ 2 ^ 38
    → pa + 4096 * suc n < 2 ^ 64
    → IsSpace s free root h
    → Unmapped s.mem root first last
    → ((s₂ : Pmm) (free₂ : List ℕ) (h₂ : ℕ → ℕ)
        → IsSpace s₂ free₂ root h₂
        → Unmapped s₂.mem root (first + 4096) last
        → Mapped s₂ free₂ h₂ root
            (first + 4096)
            last
            (pa + 4096)
            perm
            n
            (map_loop fuel root (first + 4096) last (pa + 4096) perm s₂))
    → (r : Run Pmm (Option ℕ)) → Walked s free root h 2 root first r
    → Mapped s free h root first last pa perm
        (suc n)
        (and_then r (with_leaf fuel root first last pa perm))
unfolding with_leaf set_entry
map_first fuel root first last pa perm n s free h al size top small sp unmapped rest _
      (exhausted s' h' sp' ext short) =
    out_of_memory s' h' sp' (Extends-Confined root ext)
      (λ vb lt out. ext.meaning 2 root vb sp.tree.top) (omega arith)
map_first fuel root first last pa perm n s free h al size top small sp unmapped rest _
      (arrived s₁ free₁ h₁ a sp₁ ext leaf count) =
    let same : (vb : ℕ) → entry_of 2 s₁.mem root vb ≡ entry_of 2 s.mem root vb =
      λ vb. ext.meaning 2 root vb sp.tree.top in
    let here : s₁.mem a ≡ entry_of 2 s.mem root first =
      ap (word_at s₁.mem) (sym leaf) ∙ sym (entry_of-leaf_of 2 s₁.mem root first) ∙ same first in
    let invalid : has pte_v (s₁.mem a) ≡ false =
      rw here (unmapped first (omega arith) (omega arith)) in
    let s₂ : Pmm = record s₁ { mem = store s₁.mem a (entry_for pa perm) } in
    let sp₂ = store-IsSpace s₁ free₁ root h₁ first a (entry_for pa perm) sp₁ leaf in
    let now : (vb : ℕ)
        → vb < 2 ^ 38
        → entry_of 2 s₂.mem root vb
          ≡ (if vb / 4096 == first / 4096 then entry_for pa perm else entry_of 2 s.mem root vb) =
      λ vb lt.
        entry_of-store s₁.mem root h₁ sp₁.tree first a (entry_for pa perm) leaf vb (omega arith) lt
        ∙ rw (same vb) refl in
    let unmapped₂ : Unmapped s₂.mem root (first + 4096) last = λ vb from to.
      let other : (vb / 4096 == first / 4096) ≡ false = ground arith in
      rw (now vb (omega arith), other) (unmapped vb (omega arith) to) in
    rw (with_leaf-run fuel root first last pa perm a s₁ invalid (omega arith) (omega arith)) (
      one_more root first last pa perm n s s₂ free free₁ h h₁ al (omega arith) count now
        (Confined-trans (Extends-Confined root ext)
          (store-Confined s₁.mem root h₁ sp₁.tree first a (entry_for pa perm) leaf free₁))
        _ (rest s₂ free₁ h₁ sp₂ unmapped₂))

pub map_loop_maps :
    (fuel root n first last pa perm : ℕ) (s : Pmm) (free : List ℕ) (h : ℕ → ℕ)
    → n < fuel
    → first % 4096 ≡ 0
    → last + 4096 ≡ first + 4096 * n
    → last + 4096 ≤ 2 ^ 38
    → pa + 4096 * n < 2 ^ 64
    → IsSpace s free root h
    → Unmapped s.mem root first last
    → Mapped s free h root first last pa perm n (map_loop fuel root first last pa perm s)
unfolding map_loop with_leaf
map_loop_maps zero root n first last pa perm s free h enough al size top small sp unmapped =
    absurd (omega arith)
map_loop_maps (suc fuel) root zero first last pa perm s free h enough al size top small sp
      unmapped =
    let done : leb first last ≡ false = ground arith in
    rw (done, map_loop)
      (finished s free h sp (Confined-refl root s.mem h free) (λ vb lt.
        sym (mapped_after first last pa perm vb (entry_of 2 s.mem root vb) (omega arith))))
map_loop_maps (suc fuel) root (suc n) first last pa perm s free h enough al size top small sp
      unmapped =
    let more : leb first last ≡ true = ground arith in
    rw (more, map_loop)
      (map_first fuel root first last pa perm n s free h al size top small sp unmapped
        (λ s₂ free₂ h₂ sp₂ unmapped₂.
          map_loop_maps fuel root n (first + 4096) last (pa + 4096) perm s₂ free₂ h₂ (omega arith)
            (omega arith) (omega arith) top (omega arith) sp₂ unmapped₂)
        _ (page_walk_allocates s free root h first sp (omega arith)))

-- the number of pages that hold a byte of [va, va + size)
abbrev pub pages_of : ℕ → ℕ → ℕ
pages_of va size = (va + size - 1) / 4096 - va / 4096 + 1

-- map_pages of a range without translations in it gives the pages of the range the consecutive
-- physical pages from `pa`, with the flags `perm` and PTE_V, and changes no other translation; or it
-- returns -1, and then no translation outside the range has changed, the free list is used up, and
-- it had fewer than two pages for each page of the range.
pub map_pages_maps :
    (root va size pa perm : ℕ) (s : Pmm) (free : List ℕ) (h : ℕ → ℕ)
    → 0 < size
    → va + size ≤ 2 ^ 38
    → pa + size + 8192 ≤ 2 ^ 64
    → IsSpace s free root h
    → Unmapped s.mem root (round_down va) (round_down (va + size - 1))
    → Mapped s free h root
        (round_down va)
        (round_down (va + size - 1))
        pa
        perm
        (pages_of va size)
        (map_pages root va size pa perm s)
unfolding map_pages round_down
map_pages_maps root va size pa perm s free h some_page top small sp unmapped =
    let e : u64 (va + size + u64_mod - 1) ≡ va + size - 1 = omega arith in
    rw e (
      map_loop_maps (size / 4096 + 3) root (pages_of va size) (va / 4096 * 4096)
        ((va + size - 1) / 4096 * 4096) pa perm s free h (omega arith) (omega arith) (omega arith)
        (omega arith) (omega arith) sp unmapped)
