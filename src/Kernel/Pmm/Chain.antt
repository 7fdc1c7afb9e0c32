-- ===== src/Kernel/Pmm/Chain.antt =====
-- The free list of kernel/pmm.c as a list of page addresses.
use huster_experiment_pke.Base.{ℕ, ◌%◌, ◌≤◌, ◌<◌, List, [], ◌∷◌, ◌≡◌, arith, ◌∉◌, Distinct, All}
use huster_experiment_pke.Kernel.Memory.{Mem, store}
use huster_experiment_pke.Kernel.Pmm.{Pmm, page_index, max_page_num}

-- from `p` the first words of the pages lead through `xs` to NULL
abbrev pub Chain : Mem → ℕ → List ℕ → Type 0
Chain m p [] = p ≡ 0
Chain m p (x ∷ xs) = (p ≡ x) × (0 < x) × Chain m (m x) xs

-- what `free_page` accepts: an aligned address whose index counts
pub record IsPage (s : Pmm) (pa : ℕ) : Type 0 where
  pub aligned : pa % 4096 ≡ 0
  pub above : s.free_mem_start_addr ≤ pa
  pub below : pa < s.free_mem_end_addr
  pub counted : page_index s pa < max_page_num s

-- a page on the free list: managed, and with no reference
abbrev pub IsFree : Pmm → ℕ → Type 0
IsFree s pa = IsPage s pa × (s.refs (page_index s pa) ≡ 0)

pub record IsValid (s : Pmm) (free : List ℕ) : Type 0 where
  pub start_aligned : s.free_mem_start_addr % 4096 ≡ 0
  pub start_pos : 0 < s.free_mem_start_addr
  pub chain : Chain s.mem s.head free
  pub distinct : Distinct free
  pub pages : All (IsFree s) free

-- a chain is left alone by a write elsewhere
pub Chain-store :
    (m : Mem) (a v p : ℕ) (xs : List ℕ) → a ∉ xs → Chain m p xs → Chain (store m a v) p xs
unfolding store
Chain-store m a v p [] out c = c
Chain-store m a v p (x ∷ xs) out c = ground (arith, Chain-store m a v (m x) xs)
