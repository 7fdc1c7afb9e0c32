-- ===== src/Kernel/Vmm/Space.antt =====
-- Page tables and the free list in one memory: what kernel/pmm.c hands out becomes a table of kernel/vmm.c.
use huster_experiment_pke.Base.{
  ℕ, suc, ◌+◌, ◌*◌, ◌%◌, ◌^◌, ◌≤◌, ◌<◌, ◌≡◌, ◌≢◌, sym, ◌∙◌, ap, arith, ◌==◌, if◌then◌else◌, List,
  [], ◌∷◌, ◌∉◌, All,
}
use huster_experiment_pke.Kernel.Memory.{Mem, store, store_ne}
use huster_experiment_pke.Kernel.Pmm.{Pmm}
use huster_experiment_pke.Kernel.Pmm.Chain.{Chain, IsFree, IsValid}
use huster_experiment_pke.Kernel.Vmm.{clear_page}
use huster_experiment_pke.Kernel.Vmm.Table.{IsTable, link, slot_apart}
use huster_experiment_pke.Kernel.Vmm.Grow.{grown}

-- the free list and the tree share no page
pub record IsSpace (s : Pmm) (free : List ℕ) (root : ℕ) (height : ℕ → ℕ) : Type 0 where
  pub frames : IsValid s free
  pub tree : IsTable s.mem root height
  pub spare : All (λ x. height x ≡ 0) free
  pub small : s.free_mem_end_addr ≤ 2 ^ 55

-- two memories that agree on the first words of free pages
abbrev Agree : Mem → Mem → List ℕ → Type 0
Agree m m' xs = All (λ x. m' x ≡ m x) xs

Chain-Agree : (m m' : Mem) (p : ℕ) (xs : List ℕ) → Agree m m' xs → Chain m p xs → Chain m' p xs
Chain-Agree m m' p [] a c = c
Chain-Agree m m' p (x ∷ xs) a c = (c.0, c.1, rw a.0 (Chain-Agree m m' (m x) xs a.1 c.2))

All-mem :
    (s : Pmm) (m : Mem) (xs : List ℕ) → All (IsFree s) xs → All (IsFree (record s { mem = m })) xs
All-mem s m [] all = tt
All-mem s m (x ∷ xs) all = (
  (
    record {
      aligned = all.0.0.aligned;
      above = all.0.0.above;
      below = all.0.0.below;
      counted = all.0.0.counted;
    },
    all.0.1,
  ),
  All-mem s m xs all.1,
)

pub IsValid-mem :
    (s : Pmm) (m : Mem) (xs : List ℕ)
    → IsValid s xs
    → Agree s.mem m xs
    → IsValid (record s { mem = m }) xs
IsValid-mem s m xs v a = record {
  start_aligned = v.start_aligned;
  start_pos = v.start_pos;
  chain = Chain-Agree s.mem m s.head xs a v.chain;
  distinct = v.distinct;
  pages = All-mem s m xs v.pages;
}

-- a write to a table's entry does not touch a free page
pub Agree-store :
    (s : Pmm) (height : ℕ → ℕ) (xs : List ℕ) (q j v : ℕ)
    → All (IsFree s) xs
    → All (λ x. height x ≡ 0) xs
    → q % 4096 ≡ 0
    → height q ≢ 0
    → j < 512
    → Agree s.mem (store s.mem (q + 8 * j) v) xs
Agree-store s height [] q j v f z al h lj = tt
Agree-store s height (x ∷ xs) q j v f z al h lj =
    let far : x ≢ q + 8 * j = λ e.
      let same : x ≡ q = (slot_apart x q 0 j f.0.0.aligned al (omega arith) lj (omega arith)).0 in
      h (sym (ap height same) ∙ z.0) in
    (store_ne s.mem (q + 8 * j) v x far, Agree-store s height xs q j v f.1 z.1 al h lj)

-- nor does the new table, whose page has left the list
pub Agree-grown :
    (s : Pmm) (height : ℕ → ℕ) (xs : List ℕ) (q j p : ℕ)
    → All (IsFree s) xs
    → All (λ x. height x ≡ 0) xs
    → p ∉ xs
    → p % 4096 ≡ 0
    → q % 4096 ≡ 0
    → height q ≢ 0
    → j < 512
    → Agree s.mem (grown s.mem (q + 8 * j) p) xs
unfolding grown
Agree-grown s height [] q j p f z out alp al h lj = tt
Agree-grown s height (x ∷ xs) q j p f z out alp al h lj =
    let far : x ≢ q + 8 * j = λ e.
      let same : x ≡ q = (slot_apart x q 0 j f.0.0.aligned al (omega arith) lj (omega arith)).0 in
      h (sym (ap height same) ∙ z.0) in
    let other : p ≢ x = λ e. ground arith in
    let al_x = f.0.0.aligned in
    let kept : clear_page s.mem p x ≡ s.mem x = ground arith in
    (
      store_ne (clear_page s.mem p) (q + 8 * j) (link p) x far ∙ kept,
      Agree-grown s height xs q j p f.1 z.1 (ground arith) alp al h lj,
    )

pub All-height' :
    (height : ℕ → ℕ) (p n : ℕ) (xs : List ℕ)
    → p ∉ xs
    → All (λ x. height x ≡ 0) xs
    → All (λ x. (if x == p then suc n else height x) ≡ 0) xs
All-height' height p n [] out z = tt
All-height' height p n (x ∷ xs) out z =
    (ground (arith, z.0), All-height' height p n xs (ground arith) z.1)
