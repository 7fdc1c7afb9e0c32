-- ===== src/Kernel/Vmm/Pages.antt =====
-- user_vm_map, user_vm_set_cow and the two look-ups, seen through the translation function.
use huster_experiment_pke.Base.{
  ℕ, ◌+◌, ◌-◌, ◌*◌, ◌/◌, ◌%◌, ◌^◌, ◌≤◌, ◌<◌, ◌≡◌, ◌≢◌, refl, ◌∙◌, ap, Bool, true, false, not, ◌&&◌,
  arith, ltb, leb, if◌then◌else◌, List, ◌∷◌, Option, none, some, length, ◌⊎◌, bit_and, bit_or,
}
use huster_experiment_pke.Base.Bits.{ones, and_ones}
use huster_experiment_pke.Base.Run.{Run, ok, and_then}
use huster_experiment_pke.Base.Word.{u64, round_down}
use huster_experiment_pke.Kernel.Memory.{Mem}
use huster_experiment_pke.Kernel.Pmm.{Pmm}
use huster_experiment_pke.Kernel.Pmm.Laws.{taken}
use huster_experiment_pke.Kernel.Vmm.{
  prot_to_type, has, pte_v, pa2pte, or_kill, map_pages, va_pa, user_va_to_pa, user_vm_map,
}
use huster_experiment_pke.Kernel.Vmm.Table.{entry_of, entry_of-page}
use huster_experiment_pke.Kernel.Vmm.Space.{IsSpace}
use huster_experiment_pke.Kernel.Vmm.Extend.{leaf_of, word_at, entry_of-leaf_of}
use huster_experiment_pke.Kernel.Vmm.Confined.{Confined}
use huster_experiment_pke.Kernel.Vmm.Leaf.{page_walk_reads}
use huster_experiment_pke.Kernel.Vmm.Map.{
  entry_for, mapped, Unmapped, Mapped, finished, out_of_memory, pages_of, map_pages_maps,
}
use huster_experiment_pke.Kernel.Vmm.Foreign.{taken-IsSpace}
use huster_experiment_pke.Kernel.Vmm.Entry.{entry_for-has_v, above_flags}

-- the address that an entry gives to user_va_to_pa
abbrev pub address_by : ℕ → ℕ → ℕ
address_by pte va =
    if not (has pte_v pte) then 0 else u64 (bit_and (pte / 1024) 0x3FFFFFFFFFFF * 4096 + va % 4096)

va_pa-word_at : (o : Option ℕ) (va : ℕ) (m : Mem) → va_pa o va m ≡ address_by (word_at m o) va
unfolding va_pa
va_pa-word_at none va m = refl
va_pa-word_at (some a) va m = refl

pub user_va_to_pa_reads :
    (root va : ℕ) (s : Pmm)
    → va < 2 ^ 38
    → user_va_to_pa root va s ≡ ok (address_by (entry_of 2 s.mem root va) va) s
unfolding user_va_to_pa
user_va_to_pa_reads root va s lt =
    rw (page_walk_reads root va s lt, entry_of-leaf_of 2 s.mem root va)
      (ap (λ (x : ℕ). ok x s) (va_pa-word_at (leaf_of 2 s.mem root va) va s.mem))

entry_for-address_by :
    (pa perm va : ℕ)
    → pa % 4096 ≡ 0
    → pa < 2 ^ 56
    → perm < 1024
    → address_by (entry_for pa perm) va ≡ pa + va % 4096
entry_for-address_by pa perm va al lt small =
    let valid = above_flags (bit_or (pa2pte pa) perm) 1 (omega arith) in
    let flags = above_flags (pa2pte pa) perm small in
    let kept : bit_and (entry_for pa perm / 1024) (ones 46) ≡ entry_for pa perm / 1024 =
      and_ones 46 (entry_for pa perm / 1024) (omega arith) in
    rw (entry_for-has_v pa perm) (omega arith)

-- map_pages has an outcome of `Mapped`: with two free pages for each page, it is the first
with_memory :
    (s : Pmm) (free : List ℕ) (h : ℕ → ℕ) (root first last pa perm pages : ℕ) (r : Run Pmm Bool)
    → 2 * pages ≤ length free
    → Mapped s free h root first last pa perm pages r
    → (s' : Pmm) × (free' : List ℕ) × (h' : ℕ → ℕ) × (and_then r or_kill ≡ ok tt s')
      × IsSpace s' free' root h'
      × Confined root s.mem h free s'.mem h' free'
      × ((vb : ℕ)
          → vb < 2 ^ 38
          → entry_of 2 s'.mem root vb ≡ mapped first last pa perm vb (entry_of 2 s.mem root vb))
with_memory s free h root first last pa perm pages _ enough (finished s' free' h' sp kept meaning) =
    (s', free', h', refl, sp, kept, meaning)
with_memory s free h root first last pa perm pages _ enough
      (out_of_memory s' h' sp kept same short) =
    absurd (omega arith)

-- user_vm_map of a range of a user address space that has no translation there, with two free pages
-- for each page of the range: it returns, keeps the tables a tree apart from the free list, changes no
-- translation outside the range, none of another address space, and no word of a page that is no
-- table; and in the range user_va_to_pa finds the byte at the same distance from `pa`.
pub user_va_to_pa-user_vm_map :
    (root va size pa perm : ℕ) (s : Pmm) (free : List ℕ) (h : ℕ → ℕ)
    → 0 < size
    → va + size ≤ 2 ^ 38
    → pa + size + 8192 ≤ 2 ^ 56
    → pa % 4096 ≡ 0
    → perm < 1024
    → IsSpace s free root h
    → Unmapped s.mem root (round_down va) (round_down (va + size - 1))
    → 2 * pages_of va size ≤ length free
    → (s' : Pmm) × (free' : List ℕ) × (h' : ℕ → ℕ) × (user_vm_map root va size pa perm s ≡ ok tt s')
      × IsSpace s' free' root h'
      × Confined root s.mem h free s'.mem h' free'
      × ((vb : ℕ)
          → round_down va ≤ vb
          → vb < round_down (va + size - 1) + 4096
          → user_va_to_pa root vb s' ≡ ok (pa + (vb - round_down va)) s')
      × ((vb : ℕ)
          → vb < 2 ^ 38
          → (vb < round_down va) ⊎ (round_down (va + size - 1) + 4096 ≤ vb)
          → entry_of 2 s'.mem root vb ≡ entry_of 2 s.mem root vb)
unfolding user_vm_map round_down mapped
user_va_to_pa-user_vm_map root va size pa perm s free h some_page top small al flags sp unmapped
      enough =
    let (s', free', h', run, sp', kept, meaning) =
      with_memory s free h root (va / 4096 * 4096) ((va + size - 1) / 4096 * 4096) pa perm
        (pages_of va size) (map_pages root va size pa perm s) enough
        (map_pages_maps root va size pa perm s free h some_page top (omega arith) sp unmapped) in
    (
      s',
      free',
      h',
      run,
      sp',
      kept,
      λ vb from to.
          let inside : (leb (va / 4096 * 4096) vb && ltb vb ((va + size - 1) / 4096 * 4096 + 4096))
              ≡ true =
            ground arith in
          let there : entry_of 2 s'.mem root vb
              ≡ entry_for (pa + (vb / 4096 * 4096 - va / 4096 * 4096)) perm =
            meaning vb (omega arith) ∙ rw inside refl in
          let found =
            entry_for-address_by (pa + (vb / 4096 * 4096 - va / 4096 * 4096)) perm vb (omega arith)
              (omega arith) flags in
          let place : pa + (vb / 4096 * 4096 - va / 4096 * 4096) + vb % 4096
              ≡ pa + (vb - va / 4096 * 4096) =
            omega arith in
          rw (user_va_to_pa_reads root vb s' (omega arith), there, found, place) refl,
      λ vb lt out.
          let outside : (leb (va / 4096 * 4096) vb && ltb vb ((va + size - 1) / 4096 * 4096 + 4096))
              ≡ false =
            ground arith in
          meaning vb lt ∙ rw outside refl,
    )

-- the first free page, mapped for the user at one page that has no translation
pub mapped_page :
    (root va : ℕ) (s : Pmm) (p : ℕ) (free : List ℕ) (h : ℕ → ℕ)
    → va % 4096 ≡ 0
    → va + 4096 ≤ 2 ^ 38
    → IsSpace s (p ∷ free) root h
    → has pte_v (entry_of 2 s.mem root va) ≡ false
    → 2 ≤ length free
    → (s' : Pmm) × (free' : List ℕ) × (h' : ℕ → ℕ) × (user_vm_map root va 4096 p
          (prot_to_type 3 true)
          (taken s p)
        ≡ ok tt s')
      × IsSpace s' free' root h'
      × Confined root s.mem h free s'.mem h' free'
      × ((off : ℕ) → off < 4096 → user_va_to_pa root (va + off) s' ≡ ok (p + off) s')
      × ((vb : ℕ)
          → vb < 2 ^ 38
          → vb / 4096 ≢ va / 4096
          → entry_of 2 s'.mem root vb ≡ entry_of 2 s.mem root vb)
unfolding prot_to_type round_down
mapped_page root va s p free h al top sp invalid enough =
    let is = sp.frames.pages.0.0 in
    let here : va / 4096 * 4096 ≡ va = omega arith in
    let last : (va + 4096 - 1) / 4096 * 4096 ≡ va = omega arith in
    let unmapped : Unmapped s.mem root (round_down va) (round_down (va + 4096 - 1)) =
      λ vb from to. rw (entry_of-page 2 s.mem root vb va (omega arith)) invalid in
    let (s', free', h', run, sp', kept, inside, outside) =
      user_va_to_pa-user_vm_map root va 4096 p (prot_to_type 3 true) (taken s p) free h
        (omega arith) top (omega (arith, is.below, sp.small)) is.aligned (omega arith)
        (taken-IsSpace s p free root h sp) unmapped (omega arith) in
    (
      s',
      free',
      h',
      run,
      sp',
      kept,
      λ off lt.
          let place : va + off - va / 4096 * 4096 ≡ off = omega arith in
          inside (va + off) (omega arith) (omega arith) ∙ ap (λ (k : ℕ). ok (p + k) s') place,
      λ vb lt far. outside vb lt (ground arith),
    )
