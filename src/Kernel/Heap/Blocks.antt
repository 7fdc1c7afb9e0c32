-- ===== src/Kernel/Heap/Blocks.antt =====
-- The blocks of the heap: live blocks and free ones are apart, and end below the heap's top.
use huster_experiment_pke.Base.{
  ℕ, zero, suc, ◌+◌, ◌≤◌, ◌≡◌, refl, ◌∙◌, Bool, true, false, arith, ltb, leb, ◌==◌, List, [], ◌∷◌,
  All, ◌≢◌, Option, none, some, Bool-cases, inl, inr, ◌⊎◌,
}
use huster_experiment_pke.Base.Run.{Run, ok, killed, panic, fault, Cmd, and_then}
use huster_experiment_pke.Base.Word.{u64}
use huster_experiment_pke.Kernel.Pmm.{Pmm, alloc_page}
use huster_experiment_pke.Kernel.Vmm.{lookup_pa, prot_to_type, user_vm_map, user_vm_unmap}
use huster_experiment_pke.Kernel.Heap.{
  Block, Heap, Fit, lift, on_pmm, find_fit, find_used, keep, map_page, new_page, map_missing,
  unmap_pages, map_more, if_unmapped, unmap_first,
}

-- no byte in common
abbrev pub Apart : Block → Block → Type 0
Apart a b = (a.va + a.size ≤ b.va) ⊎ (b.va + b.size ≤ a.va)

abbrev pub AllApart : List Block → Type 0
AllApart [] = Unit {0}
AllApart (b ∷ bs) = All (Apart b) bs × AllApart bs

abbrev pub Below : ℕ → Block → Type 0
Below top b = b.va + b.size ≤ top

pub record IsHeap (h : Heap) : Type 0 where
  pub used : AllApart h.malloc_list
  pub unused : AllApart h.malloc_free_list
  pub apart : All (λ b. All (Apart b) h.malloc_list) h.malloc_free_list
  pub used_below : All (Below h.heap_top) h.malloc_list
  pub unused_below : All (Below h.heap_top) h.malloc_free_list

-- the same blocks, whatever happened to memory
pub record SameBlocks (h h' : Heap) : Type 0 where
  pub top : h'.heap_top ≡ h.heap_top
  pub used : h'.malloc_list ≡ h.malloc_list
  pub unused : h'.malloc_free_list ≡ h.malloc_free_list

-- the outcomes that leave the blocks alone
pub data Quiet {A : Type 0} (h : Heap) : Run Heap A → Type 0 where
  returns : (a : A) (h' : Heap) → SameBlocks h h' → Quiet h (ok a h')
  kills : (h' : Heap) → SameBlocks h h' → Quiet h (killed h')
  panics : Quiet h panic
  faults : Quiet h fault

lift-Quiet : {A : Type 0} (h : Heap) (r : Run Pmm A) → Quiet h (lift h r)
lift-Quiet h (ok a s) =
    returns a (record h { pmm = s }) (record { top = refl; used = refl; unused = refl })
lift-Quiet h (killed s) =
    kills (record h { pmm = s }) (record { top = refl; used = refl; unused = refl })
lift-Quiet h panic = panics
lift-Quiet h fault = faults

SameBlocks-trans : {h h' h'' : Heap} → SameBlocks h h' → SameBlocks h' h'' → SameBlocks h h''
SameBlocks-trans a b = record {
  top = b.top ∙ a.top;
  used = b.used ∙ a.used;
  unused = b.unused ∙ a.unused;
}

same : (h : Heap) → SameBlocks h h
same h = record { top = refl; used = refl; unused = refl }

after : {A : Type 0} (h h' : Heap) (r : Run Heap A) → SameBlocks h h' → Quiet h' r → Quiet h r
after h h' _ e (returns a h'' e') = returns a h'' (SameBlocks-trans e e')
after h h' _ e (kills h'' e') = kills h'' (SameBlocks-trans e e')
after h h' _ e panics = panics
after h h' _ e faults = faults

-- one quiet step after another
pub then_quiet :
    {A B : Type 0} (h : Heap) (k : A → Cmd Heap B) (r : Run Heap A)
    → Quiet h r
    → ((a : A) (h' : Heap) → Quiet h' (k a h'))
    → Quiet h (and_then r k)
then_quiet h k _ (returns a h' e) next = after h h' (k a h') e (next a h')
then_quiet h k _ (kills h' e) next = kills h' e
then_quiet h k _ panics next = panics
then_quiet h k _ faults next = faults

pub on_pmm-Quiet : {A : Type 0} (c : Cmd Pmm A) (h : Heap) → Quiet h (on_pmm c h)
on_pmm-Quiet c h = lift-Quiet h (c h.pmm)

map_page-Quiet : (va pa : ℕ) (h : Heap) → Quiet h (map_page va pa h)
unfolding map_page
map_page-Quiet va pa h = elim (Bool-cases (pa == 0)) [
  | inl none_left ↦ rw none_left (returns false h (same h))
  | inr page ↦
      let map = user_vm_map h.pagetable va 4096 pa (prot_to_type 3 true) in
      rw page (
        then_quiet h (λ _ h'. ok true h') (on_pmm map h) (on_pmm-Quiet map h)
          (λ u h'. returns true h' (same h')))
]

pub new_page-Quiet : (va : ℕ) (h : Heap) → Quiet h (new_page va h)
unfolding new_page
new_page-Quiet va h =
    then_quiet h (map_page va) (on_pmm alloc_page h) (on_pmm-Quiet alloc_page h) (map_page-Quiet va)

pub if_unmapped-Quiet : (va pa : ℕ) (h : Heap) → Quiet h (if_unmapped va pa h)
if_unmapped-Quiet va pa h = elim (Bool-cases (pa == 0)) [
  | inl missing ↦ rw missing (new_page-Quiet va h)
  | inr there ↦ rw there (returns true h (same h))
]

-- a loop goes on, or ends with `stop`
on_fine :
    {A : Type 0} (stop : A) (k : Cmd Heap A)
    → ((h : Heap) → Quiet h (k h))
    → (fine : Bool) (h : Heap) → Quiet h (elim fine [ false ↦ ok stop h | true ↦ k h ])
on_fine stop k quiet false h = returns stop h (same h)
on_fine stop k quiet true h = quiet h

pub map_missing-Quiet : (fuel page_va end : ℕ) (h : Heap) → Quiet h (map_missing fuel page_va end h)
unfolding map_missing
map_missing-Quiet zero page_va end h = faults
map_missing-Quiet (suc fuel) page_va end h = elim (Bool-cases (ltb page_va end)) [
  | inr stop ↦ rw (stop, map_missing) (returns true h (same h))
  | inl more ↦
      let look = lookup_pa h.pagetable page_va in
      rw (more, map_missing)
        (then_quiet h _ (on_pmm look h) (on_pmm-Quiet look h) (λ pa h₁.
          then_quiet h₁ _ (if_unmapped page_va pa h₁) (if_unmapped-Quiet page_va pa h₁) (
            on_fine false (map_missing fuel (u64 (page_va + 4096)) end)
              (map_missing-Quiet fuel (u64 (page_va + 4096)) end))))
]

pub map_more-Quiet : (left mapped va : ℕ) (h : Heap) → Quiet h (map_more left mapped va h)
unfolding map_more
map_more-Quiet zero mapped va h = returns none h (same h)
map_more-Quiet (suc left) mapped va h = then_quiet h _ (new_page va h) (new_page-Quiet va h) (
    on_fine (some mapped) (map_more left (suc mapped) (u64 (va + 4096)))
      (map_more-Quiet left (suc mapped) (u64 (va + 4096))))

pub unmap_pages-Quiet : (va n : ℕ) (h : Heap) → Quiet h (unmap_pages va n h)
unfolding unmap_pages
unmap_pages-Quiet va zero h = returns tt h (same h)
unmap_pages-Quiet va (suc n) h =
    let unmap = user_vm_unmap h.pagetable va 4096 true in
    then_quiet h _ (on_pmm unmap h) (on_pmm-Quiet unmap h)
      (λ u h'. unmap_pages-Quiet (u64 (va + 4096)) n h')

pub unmap_first-Quiet : (first : Bool) (va : ℕ) (h : Heap) → Quiet h (unmap_first first va h)
unmap_first-Quiet true va h = on_pmm-Quiet (user_vm_unmap h.pagetable va 4096 true) h
unmap_first-Quiet false va h = returns tt h (same h)

-- one block taken out of a list
pub data Removed (b : Block) : List Block → List Block → Type 0 where
  first : (bs : List Block) → Removed b bs (b ∷ bs)
  later : (c : Block) {os bs : List Block} → Removed b os bs → Removed b (c ∷ os) (c ∷ bs)

pub Removed-All {κ} :
    (P : Block → Type κ) {b : Block} {os bs : List Block}
    → Removed b os bs
    → All P bs
    → P b × All P os
Removed-All P (first bs) all = all
Removed-All P (later c r) all = let (p, rest) = Removed-All P r all.1 in (p, (all.0, rest))

pub Apart-sym : (a b : Block) → Apart a b → Apart b a
Apart-sym a b (inl e) = inr e
Apart-sym a b (inr e) = inl e

pub All-Apart-sym : (a : Block) (bs : List Block) → All (λ b. Apart b a) bs → All (Apart a) bs
All-Apart-sym a [] all = tt
All-Apart-sym a (b ∷ bs) all = (Apart-sym b a all.0, All-Apart-sym a bs all.1)

pub Removed-AllApart :
    {b : Block} {os bs : List Block}
    → Removed b os bs
    → AllApart bs
    → All (Apart b) os × AllApart os
Removed-AllApart (first bs) all = all
Removed-AllApart {b} (later c r) all =
    let (rest, apart) = Removed-AllApart r all.1 in
    let (one, others) = Removed-All (Apart c) r all.0 in
    ((Apart-sym c b one, rest), (others, apart))

-- `b`, with nothing wanted in front of it
pub data First (Wanted : Block → Type 0) (b : Block) : List Block → Type 0 where
  front : (bs : List Block) → Wanted b → First Wanted b (b ∷ bs)
  behind : (c : Block) {bs : List Block} → ¬ Wanted c → First Wanted b bs → First Wanted b (c ∷ bs)

-- what a search through a list gives
pub data Found (Wanted : Block → Type 0) (bs : List Block) : Option Fit → Type 0 where
  nothing : All (λ b. ¬ Wanted b) bs → Found Wanted bs none
  got :
      (f : Fit)
      → Removed f.block f.others bs
      → Wanted f.block
      → First Wanted f.block bs
      → Found Wanted bs (some f)

Found-keep :
    (Wanted : Block → Type 0) (b : Block) (bs : List Block) (r : Option Fit)
    → Found Wanted bs r
    → ¬ Wanted b
    → Found Wanted (b ∷ bs) (keep b r)
Found-keep Wanted b bs _ (nothing all) no_b = nothing (no_b, all)
Found-keep Wanted b bs _ (got f r w i) no_b =
    got (record f { others = b ∷ f.others }) (later b r) w (behind b no_b i)

pub find_fit-Found : (size : ℕ) (bs : List Block) → Found (λ b. size ≤ b.size) bs (find_fit size bs)
unfolding find_fit
find_fit-Found size [] = nothing tt
find_fit-Found size (b ∷ bs) = elim (Bool-cases (leb size b.size)) [
  | inl fits ↦
      let le : size ≤ b.size = ground arith in
      rw fits (got (record { block = b; others = bs }) (first bs) le (front bs le))
  | inr small ↦
      let gt : ¬ (size ≤ b.size) = λ le. absurd (ground arith) in
      rw small (Found-keep _ b bs (find_fit size bs) (find_fit-Found size bs) gt)
]

pub find_used-Found : (va : ℕ) (bs : List Block) → Found (λ b. b.va ≡ va) bs (find_used va bs)
unfolding find_used
find_used-Found va [] = nothing tt
find_used-Found va (b ∷ bs) = elim (Bool-cases (b.va == va)) [
  | inl here ↦
      let at : b.va ≡ va = ground arith in
      rw here (got (record { block = b; others = bs }) (first bs) at (front bs at))
  | inr other ↦
      let far : b.va ≢ va = λ e. absurd (ground arith) in
      rw other (Found-keep _ b bs (find_used va bs) (find_used-Found va bs) far)
]
