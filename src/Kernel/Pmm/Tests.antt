-- ===== src/Kernel/Pmm/Tests.antt =====
-- A machine with two free pages, and the theorems on it.
use huster_experiment_pke.Base.{ℕ, [], ◌∷◌, ◌≡◌, refl, arith, ◌==◌, if◌then◌else◌, length}
use huster_experiment_pke.Base.Run.{ok}
use huster_experiment_pke.Base.Word.{round_up}
use huster_experiment_pke.Kernel.Memory.{store}
use huster_experiment_pke.Kernel.Pmm.{Pmm, free_page, get_page_ref, pmm_init}
use huster_experiment_pke.Kernel.Pmm.Chain.{IsPage, IsValid}
use huster_experiment_pke.Kernel.Pmm.Laws.{free_page-pushes}
use huster_experiment_pke.Kernel.Pmm.Init.{
  stack, Contiguous, page_count, managed_end, pmm_init-stack,
}

abbrev first : ℕ
first = 0x80200000

abbrev second : ℕ
second = 0x80201000

abbrev third : ℕ
third = 0x80202000

-- `third` is allocated with `n` references; `first` is free and leads to `second`
abbrev machine : ℕ → Pmm
machine n = record {
  mem = λ a. if a == first then second else 0;
  head = first;
  refs = λ i. if i == 2 then n else 0;
  free_mem_start_addr = first;
  free_mem_end_addr = 0x80210000;
}

machine-IsValid : (n : ℕ) → IsValid (machine n) (first ∷ second ∷ [])
machine-IsValid n = record {
  start_aligned = refl;
  start_pos = omega arith;
  chain = omega arith;
  distinct = (refl, (refl, tt));
  pages = (
    (
      record { aligned = refl; above = omega arith; below = omega arith; counted = omega arith },
      refl,
    ),
    (
      (
        record { aligned = refl; above = omega arith; below = omega arith; counted = omega arith },
        refl,
      ),
      tt,
    ),
  );
}

third-IsPage : (n : ℕ) → IsPage (machine n) third
third-IsPage n = record {
  aligned = refl;
  above = omega arith;
  below = omega arith;
  counted = omega arith;
}

free_page-pushes_example :
    (s' : Pmm) × (free_page third (machine 1) ≡ ok tt s')
    × IsValid s' (third ∷ first ∷ second ∷ [])
    × (get_page_ref s' third ≡ 0)
    × (s'.mem ≡ store (machine 1).mem third first)
free_page-pushes_example =
    free_page-pushes (machine 1) third (first ∷ second ∷ []) (machine-IsValid 1) (third-IsPage 1)
      refl refl

abbrev blank : Pmm
blank = record {
  mem = λ _. 0;
  head = 0;
  refs = λ _. 0;
  free_mem_start_addr = 0;
  free_mem_end_addr = 0;
}

pmm_init-stack_example :
    let start = round_up 0x80012345 in
    let free = stack (page_count start (managed_end 0x40000)) start [] in
    (s' : Pmm) × (pmm_init 0x80012345 0x40000 blank ≡ ok tt s')
    × IsValid s' free
    × Contiguous free
    × (length free ≡ page_count start (managed_end 0x40000))
unfolding round_up
pmm_init-stack_example =
    pmm_init-stack 0x80012345 0x40000 blank (omega arith) (omega arith) (omega arith) (λ i. refl)
