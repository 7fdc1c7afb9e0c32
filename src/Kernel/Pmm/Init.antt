-- ===== src/Kernel/Pmm/Init.antt =====
-- create_freepage_list and pmm_init of kernel/pmm.c: what the free list is after boot.
use huster_experiment_pke.Base.{
  ℕ, zero, suc, ◌+◌, ◌-◌, ◌*◌, ◌/◌, ◌%◌, ◌^◌, ◌≤◌, ◌<◌, List, [], ◌∷◌, true, ◌≡◌, refl, arith, ap,
  ◌∉◌, All, ltb, lt→ltb, if◌then◌else◌, length, ◌∙◌,
}
use huster_experiment_pke.Base.Run.{ok}
use huster_experiment_pke.Base.Word.{u64, round_up, round_up_bounds}
use huster_experiment_pke.Kernel.Pmm.{
  Pmm, page_index, free_page, free_pages_from, create_freepage_list, pmm_init, kern_base, dram_base,
  pke_max_allowable_ram,
}
use huster_experiment_pke.Kernel.Pmm.Chain.{IsPage, IsValid}
use huster_experiment_pke.Kernel.Pmm.Laws.{free_page-adds}

-- `n` pages from `p` on, the highest first, in front of `xs`
abbrev pub stack : ℕ → ℕ → List ℕ → List ℕ
stack zero p xs = xs
stack (suc n) p xs = stack n (p + 4096) (p ∷ xs)

-- each page lies directly above the next one on the list
abbrev pub Contiguous : List ℕ → Type 0
Contiguous [] = Unit {0}
Contiguous (x ∷ []) = Unit {0}
Contiguous (x ∷ (y ∷ ys)) = (x ≡ y + 4096) × Contiguous (y ∷ ys)

not-mem_of_above : (p : ℕ) (xs : List ℕ) → All (λ x. x < p) xs → p ∉ xs
not-mem_of_above p [] h = refl
not-mem_of_above p (x ∷ xs) h = ground (arith, not-mem_of_above p xs)

All-lt_mono : (p q : ℕ) (xs : List ℕ) → p ≤ q → All (λ x. x < p) xs → All (λ x. x < q) xs
All-lt_mono p q [] le h = tt
All-lt_mono p q (x ∷ xs) le h = (omega arith, All-lt_mono p q xs le h.1)

length-stack : (n p : ℕ) (xs : List ℕ) → length (stack n p xs) ≡ n + length xs
length-stack zero p xs = omega arith
length-stack (suc n) p xs = omega (arith, length-stack n (p + 4096) (p ∷ xs))

Contiguous-stack :
    (n p : ℕ) (xs : List ℕ) (q : ℕ)
    → p ≡ q + 4096
    → Contiguous (q ∷ xs)
    → Contiguous (stack n p (q ∷ xs))
Contiguous-stack zero p xs q e c = c
Contiguous-stack (suc n) p xs q e c = Contiguous-stack n (p + 4096) (q ∷ xs) p refl (e, c)

pub Contiguous-stack_nil : (n p : ℕ) → Contiguous (stack n p [])
Contiguous-stack_nil zero p = tt
Contiguous-stack_nil (suc n) p = Contiguous-stack n (p + 4096) [] p refl tt

-- one round of the loop
free_pages_from_round :
    (fuel p q end : ℕ) (s t r : Pmm)
    → u64 (p + 4096) ≡ q
    → ltb q end ≡ true
    → free_page p s ≡ ok tt t
    → free_pages_from fuel q end t ≡ ok tt r
    → free_pages_from (suc fuel) p end s ≡ ok tt r
unfolding free_pages_from
free_pages_from_round fuel p q end s t r next go run rest =
    rw (ap (λ (x : ℕ). ltb x end) next ∙ go, free_pages_from, run)
      (ap (λ (x : ℕ). free_pages_from fuel x end t) next ∙ rest)

-- the loop's invariant, with `n` rounds to go
free_pages_from-stack :
    (fuel n p end : ℕ) (s : Pmm) (xs : List ℕ)
    → IsValid s xs
    → ((i : ℕ) → s.refs i ≡ 0)
    → All (λ x. x < p) xs
    → s.free_mem_end_addr ≡ end
    → s.free_mem_start_addr ≤ p
    → p % 4096 ≡ 0
    → end < 2 ^ 63
    → p < end
    → p + 4096 * n < end
    → end ≤ p + 4096 * n + 4096
    → n < fuel
    → (s' : Pmm) × (free_pages_from fuel p end s ≡ ok tt s') × IsValid s' (stack n p xs)
unfolding free_pages_from
free_pages_from-stack zero n p end s xs v z a es lo al big lt h1 h2 f = absurd (omega arith)
free_pages_from-stack (suc fuel) zero p end s xs v z a es lo al big lt h1 h2 f =
    (s, ground arith, v)
free_pages_from-stack (suc fuel) (suc n) p end s xs v z a es lo al big lt h1 h2 f =
    let is : IsPage s p = record {
      aligned = al;
      above = lo;
      below = omega arith;
      counted = omega arith;
    } in
    let (t, run, w, refs, start, stop) =
      free_page-adds s p xs v is (not-mem_of_above p xs a) (z (page_index s p)) in
    let (s', rest, valid) =
      free_pages_from-stack fuel n (p + 4096) end t (p ∷ xs) w (λ i. ground (arith, z i))
        (omega arith, All-lt_mono p (p + 4096) xs (omega arith) a) (omega arith) (omega arith)
        (omega arith) big (omega arith) (omega arith) (omega arith) (omega arith) in
    (
      s',
      free_pages_from_round fuel p (p + 4096) end s t s' (omega arith) (lt→ltb _ _ (omega arith))
          run rest,
      valid,
    )

-- the number of pages that the loop of create_freepage_list frees between `start` and `end`
abbrev pub page_count : ℕ → ℕ → ℕ
page_count start end = (end - start - 1) / 4096

pub create_freepage_list-stack :
    (start end : ℕ) (s : Pmm)
    → 0 < start
    → start < end
    → end < 2 ^ 63
    → s.free_mem_start_addr ≡ start
    → s.free_mem_end_addr ≡ end
    → start % 4096 ≡ 0
    → ((i : ℕ) → s.refs i ≡ 0)
    → (s' : Pmm) × (create_freepage_list start end s ≡ ok tt s')
      × IsValid s' (stack (page_count start end) start [])
unfolding create_freepage_list
create_freepage_list-stack start end s pos lt big es ee al z =
    let same : round_up start ≡ start = omega (arith, round_up_bounds start pos (omega arith)) in
    let begin : Pmm = record s { head = 0 } in
    let v : IsValid begin [] = record {
      start_aligned = omega arith;
      start_pos = omega arith;
      chain = refl;
      distinct = tt;
      pages = tt;
    } in
    rw same (
      free_pages_from-stack (end / 4096 + 1) (page_count start end) start end begin [] v z tt ee
        (omega arith) al big lt (omega arith) (omega arith) (omega arith))

-- The physical memory that pmm_init manages, for a kernel that ends at `kernel_end`.
abbrev pub managed_end : ℕ → ℕ
managed_end g_mem_size =
    (if ltb pke_max_allowable_ram g_mem_size then pke_max_allowable_ram else g_mem_size) + dram_base

-- the state that pmm_init hands to create_freepage_list
abbrev bounded : ℕ → ℕ → Pmm → Pmm
bounded start end s = record s { free_mem_start_addr = start; free_mem_end_addr = end }

pmm_init-run :
    (kernel_end g_mem_size : ℕ) (s : Pmm)
    → kern_base < kernel_end
    → kernel_end < 2 ^ 63
    → round_up kernel_end < managed_end g_mem_size
    → pmm_init kernel_end g_mem_size s
      ≡ create_freepage_list
          (round_up kernel_end)
          (managed_end g_mem_size)
          (bounded (round_up kernel_end) (managed_end g_mem_size) s)
unfolding pmm_init
pmm_init-run kernel_end g_mem_size s above small room = ground (arith, round_up_bounds kernel_end)

managed_end-lt : (g_mem_size : ℕ) → managed_end g_mem_size < 2 ^ 63
managed_end-lt g_mem_size = ground arith

-- After pmm_init the free list holds every page between the kernel's end and the end of memory whose
-- successor also starts below that end, each once, in descending order with no gap. (The memory must
-- reach beyond the page in which the kernel ends.)
pub pmm_init-stack :
    (kernel_end g_mem_size : ℕ) (s : Pmm)
    → kern_base < kernel_end
    → kernel_end < 2 ^ 63
    → round_up kernel_end < managed_end g_mem_size
    → ((i : ℕ) → s.refs i ≡ 0)
    → let start = round_up kernel_end in
      let free = stack (page_count start (managed_end g_mem_size)) start [] in
      (s' : Pmm) × (pmm_init kernel_end g_mem_size s ≡ ok tt s')
      × IsValid s' free
      × Contiguous free
      × (length free ≡ page_count start (managed_end g_mem_size))
pmm_init-stack kernel_end g_mem_size s above small room z =
    let start = round_up kernel_end in
    let end = managed_end g_mem_size in
    let bounds = round_up_bounds kernel_end (omega arith) (omega arith) in
    let (s', run, valid) =
      create_freepage_list-stack start end (bounded start end s) (omega (arith, bounds)) room
        (managed_end-lt g_mem_size) refl refl bounds.2 z in
    (
      s',
      pmm_init-run kernel_end g_mem_size s above small room ∙ run,
      valid,
      Contiguous-stack_nil (page_count start end) start,
      omega (arith, length-stack (page_count start end) start []),
    )
