-- ===== src/Kernel/Vmm/Example.antt =====
-- A small memory with one address space: three tables, one user page, and a free list of three pages.
use native.Mathlib.Decide.{ℕ_discrete}
use huster_experiment_pke.Base.{
  sym, ◌∙◌, ◌-◌, ℕ, suc, ◌+◌, ◌*◌, ◌%◌, ◌≤◌, ◌<◌, ◌≡◌, refl, true, arith, ◌==◌, if◌then◌else◌, List,
  [], ◌∷◌, bit_or,
}
use huster_experiment_pke.Kernel.Memory.{Mem}
use huster_experiment_pke.Kernel.Pmm.{Pmm}
use huster_experiment_pke.Kernel.Pmm.Chain.{IsPage, IsValid}
use huster_experiment_pke.Kernel.Vmm.{has, pte_v, pa2pte, pte2pa, cow_perm}
use huster_experiment_pke.Kernel.Vmm.Table.{link}
use huster_experiment_pke.Kernel.Vmm.Space.{IsSpace}

abbrev pub root : ℕ
root = 0x80010000

abbrev pub user_page : ℕ
user_page = 0x80013000

-- the entry of the page at 0x400000, shared copy on write
abbrev pub shared_pte : ℕ
shared_pte = bit_or (pa2pte user_page) cow_perm

abbrev pub words : Mem
words x =
    if x == 0x80010000
    then link 0x80011000
    else (if x == 0x80011010
        then link 0x80012000
        else (if x == 0x80012000
            then shared_pte
            else (if x == 0x80014000
                then 0x80015000
                else (if x == 0x80015000
                    then 0x80016000
                    else (if x == 0x80013008 then 77 else 0)))))

abbrev pub height : ℕ → ℕ
height x =
    if x == 0x80010000
    then 3
    else (if x == 0x80011000 then 2 else (if x == 0x80012000 then 1 else 0))

-- with `n` references to the user page
abbrev pub pages : ℕ → Pmm
pages n = record {
  mem = words;
  head = 0x80014000;
  refs = λ i.
      if i == 3
      then n
      else (if i == 4 then 0 else (if i == 5 then 0 else (if i == 6 then 0 else 1)));
  free_mem_start_addr = 0x80010000;
  free_mem_end_addr = 0x80020000;
}

abbrev pub free : List ℕ
free = 0x80014000 ∷ 0x80015000 ∷ 0x80016000 ∷ []

is_page : (n p : ℕ) → p % 4096 ≡ 0 → 0x80010000 ≤ p → p < 0x80020000 → IsPage (pages n) p
is_page n p al above below = record {
  aligned = al;
  above = above;
  below = below;
  counted = omega arith;
}

pub user_page-IsPage : (n : ℕ) → IsPage (pages n) user_page
user_page-IsPage n = is_page n user_page (omega arith) (omega arith) (omega arith)

frames : (n : ℕ) → IsValid (pages n) free
frames n = record {
  start_aligned = omega arith;
  start_pos = omega arith;
  chain = (refl, omega arith, (refl, omega arith, (refl, omega arith, refl)));
  distinct = (refl, (refl, (refl, tt)));
  pages = (
    (is_page n 0x80014000 (omega arith) (omega arith) (omega arith), refl),
    (
      (is_page n 0x80015000 (omega arith) (omega arith) (omega arith), refl),
      ((is_page n 0x80016000 (omega arith) (omega arith) (omega arith), refl), tt),
    ),
  );
}

-- the two valid entries of the upper tables
data Entry (p i n : ℕ) : Type 0 where
  of_root : p ≡ 0x80010000 → i ≡ 0 → n ≡ 1 → Entry p i n
  of_middle : p ≡ 0x80011000 → i ≡ 2 → n ≡ 0 → Entry p i n

entry :
    (p i n : ℕ)
    → height p ≡ suc (suc n)
    → i < 512
    → has pte_v (words (p + 8 * i)) ≡ true
    → Entry p i n
entry p i n up li valid = elim (ℕ_discrete p 0x80010000) [
  | yes e ↦ of_root e (index_root i li (rw e at valid)) (ground arith)
  | no far ↦ elim (ℕ_discrete p 0x80011000) [
    | yes e ↦ of_middle e (index_middle i li (rw e at valid)) (ground arith)
    | no far' ↦ absurd (ground arith)
  ]
]
  where
    index_root : (i : ℕ) → i < 512 → has pte_v (words (0x80010000 + 8 * i)) ≡ true → i ≡ 0
    index_root i li valid = ground arith

    index_middle : (i : ℕ) → i < 512 → has pte_v (words (0x80011000 + 8 * i)) ≡ true → i ≡ 2
    index_middle i li valid = ground arith

target : (p i n : ℕ) → Entry p i n → pte2pa (words (p + 8 * i)) ≡ 0x80010000 + (2 - n) * 4096
target p i n (of_root e e' e'') = rw (e, e', e'') refl
target p i n (of_middle e e' e'') = rw (e, e', e'') refl

child : (p i n : ℕ) → Entry p i n → height (pte2pa (words (p + 8 * i))) ≡ suc n
child p i n (of_root e e' e'') = rw (e, e', e'') refl
child p i n (of_middle e e' e'') = rw (e, e', e'') refl

same_entry :
    (p q i j n k : ℕ)
    → Entry p i n
    → Entry q j k
    → 0x80010000 + (2 - n) * 4096 ≡ 0x80010000 + (2 - k) * 4096
    → (p ≡ q) × (i ≡ j)
same_entry p q i j n k (of_root e e' e'') (of_root d d' d'') s = (omega arith, omega arith)
same_entry p q i j n k (of_root e e' e'') (of_middle d d' d'') s = absurd (omega arith)
same_entry p q i j n k (of_middle e e' e'') (of_root d d' d'') s = absurd (omega arith)
same_entry p q i j n k (of_middle e e' e'') (of_middle d d' d'') s = (omega arith, omega arith)

pub space : (n : ℕ) → IsSpace (pages n) free root height
space n = record {
  frames = frames n;
  tree = record {
    top = refl;
    page = λ p h. ground arith;
    child = λ p i k up li valid. child p i k (entry p i k up li valid);
    apart = λ p q i j l k up up' li lj valid valid' e.
        let here = entry p i l up li valid in
        let there = entry q j k up' lj valid' in
        same_entry p q i j l k here there (sym (target p i l here) ∙ e ∙ target q j k there);
  };
  spare = (refl, (refl, (refl, tt)));
  small = omega arith;
}
