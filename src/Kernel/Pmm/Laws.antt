-- ===== src/Kernel/Pmm/Laws.antt =====
-- What alloc_page, free_page and the reference counts do to the free list.
use huster_experiment_pke.Base.{
  ℕ, Bool-cases, inl, inr, ◌∙◌, ◌+◌, ◌-◌, ◌/◌, ◌%◌, ◌≤◌, List, [], ◌∷◌, not, ◌||◌, ◌≡◌, ◌≢◌, refl,
  arith, ◌∉◌, All, leb, ◌==◌,
}
use huster_experiment_pke.Base.Run.{ok, panic, done}
use huster_experiment_pke.Kernel.Memory.{Mem, store, store_self}
use huster_experiment_pke.Kernel.Pmm.{
  Pmm, page_index, max_page_num, set_ref, out_of_range, push, drop_ref, free_page, alloc_page,
  get_page_ref,
}
use huster_experiment_pke.Kernel.Pmm.Chain.{IsPage, IsFree, IsValid, Chain-store}

pages_apart :
    (start p q : ℕ)
    → start % 4096 ≡ 0
    → p % 4096 ≡ 0
    → q % 4096 ≡ 0
    → start ≤ p
    → start ≤ q
    → (p - start) / 4096 ≡ (q - start) / 4096
    → p ≡ q
pages_apart start p q hs hp hq lp lq e = omega arith

-- free pages stay free when another page's count changes
All-set_ref :
    (s : Pmm) (m : Mem) (h p v : ℕ) (xs : List ℕ)
    → s.free_mem_start_addr % 4096 ≡ 0
    → IsPage s p
    → p ∉ xs
    → All (IsFree s) xs
    → All (IsFree (record s { mem = m; head = h; refs = set_ref s.refs (page_index s p) v })) xs
All-set_ref s m h p v [] a is out all = tt
All-set_ref s m h p v (x ∷ xs) a is out all = (
  (
    record {
      aligned = all.0.0.aligned;
      above = all.0.0.above;
      below = all.0.0.below;
      counted = all.0.0.counted;
    },
    ground (arith, pages_apart s.free_mem_start_addr x p),
  ),
  All-set_ref s m h p v xs a is (ground arith) all.1,
)

pub get_page_ref-page : (s : Pmm) (p : ℕ) → IsPage s p → get_page_ref s p ≡ s.refs (page_index s p)
unfolding get_page_ref
get_page_ref-page s p is = ground (arith, is.above, is.below, is.counted)

-- the state after the page `p` at the front of the free list has been handed out
abbrev pub taken : Pmm → ℕ → Pmm
taken s p = record s { head = s.mem p; refs = set_ref s.refs (page_index s p) 1 }

pub alloc_page-taken :
    (s : Pmm) (p : ℕ) (xs : List ℕ) → IsValid s (p ∷ xs) → alloc_page s ≡ ok p (taken s p)
unfolding alloc_page
alloc_page-taken s p xs v = ground (arith, v.pages.0.0.counted)

pub taken-IsValid : (s : Pmm) (p : ℕ) (xs : List ℕ) → IsValid s (p ∷ xs) → IsValid (taken s p) xs
taken-IsValid s p xs v = record {
  start_aligned = v.start_aligned;
  start_pos = v.start_pos;
  chain = v.chain.2;
  distinct = v.distinct.1;
  pages = All-set_ref s s.mem (s.mem p) p 1 xs v.start_aligned v.pages.0.0 v.distinct.0 v.pages.1;
}

-- another page's count stays
pub taken-refs :
    (s : Pmm) (p q : ℕ)
    → s.free_mem_start_addr % 4096 ≡ 0
    → IsPage s p
    → IsPage s q
    → q ≢ p
    → (taken s p).refs (page_index s q) ≡ s.refs (page_index s q)
taken-refs s p q al is is' ne =
    let other : page_index s q ≢ page_index s p = λ e.
      ne (pages_apart s.free_mem_start_addr q p al is'.aligned is.aligned is'.above is.above e) in
    ground arith

-- alloc_page takes the first free page, leaves memory alone and counts one reference to it.
pub alloc_page-pops :
    (s : Pmm) (p : ℕ) (xs : List ℕ)
    → IsValid s (p ∷ xs)
    → (s' : Pmm) × (alloc_page s ≡ ok p s')
      × IsValid s' xs
      × (get_page_ref s' p ≡ 1)
      × (s'.mem ≡ s.mem)
unfolding get_page_ref
alloc_page-pops s p xs v = (
  taken s p,
  alloc_page-taken s p xs v,
  taken-IsValid s p xs v,
  ground (arith, v.pages.0.0.counted, v.pages.0.0.above, v.pages.0.0.below),
  refl,
)

pub alloc_page-end :
    (s s' : Pmm) (p : ℕ) → alloc_page s ≡ ok p s' → s'.free_mem_end_addr ≡ s.free_mem_end_addr
unfolding alloc_page
alloc_page-end s s' p e = ground arith

-- With no free page alloc_page returns NULL and changes nothing.
pub alloc_page-empty : (s : Pmm) → IsValid s [] → alloc_page s ≡ ok 0 s
unfolding alloc_page
alloc_page-empty s v = ground (arith, v.chain)

-- the state after a page has gone to the front of the free list
unfoldable pub pushed : Pmm → ℕ → (ℕ → ℕ) → Pmm
pushed s p f = record s { mem = store s.mem p s.head; head = p; refs = f }

pub free_page-run :
    (s : Pmm) (p : ℕ) → IsPage s p → free_page p s ≡ done (push p (drop_ref (page_index s p) s))
unfolding free_page
free_page-run s p is = ground (arith, is.aligned, is.above, is.below, is.counted)

pub free_page-unreferenced :
    (s : Pmm) (p : ℕ)
    → IsPage s p
    → s.refs (page_index s p) ≡ 0
    → free_page p s ≡ ok tt (pushed s p s.refs)
unfolding drop_ref push pushed
free_page-unreferenced s p is e = free_page-run s p is ∙ ground arith

free_page-last :
    (s : Pmm) (p : ℕ)
    → IsPage s p
    → s.refs (page_index s p) ≡ 1
    → free_page p s ≡ ok tt (pushed s p (set_ref s.refs (page_index s p) 0))
unfolding drop_ref push pushed
free_page-last s p is e = free_page-run s p is ∙ ground arith

pushed-IsValid :
    (s : Pmm) (p : ℕ) (xs : List ℕ) (f : ℕ → ℕ)
    → IsValid s xs
    → IsPage s p
    → p ∉ xs
    → f (page_index s p) ≡ 0
    → All (IsFree (pushed s p f)) xs
    → IsValid (pushed s p f) (p ∷ xs)
unfolding pushed
pushed-IsValid s p xs f v is out zero all = record {
  start_aligned = v.start_aligned;
  start_pos = v.start_pos;
  chain = (
    refl,
    omega (arith, is.above, v.start_pos),
    rw store_self (Chain-store s.mem p s.head s.head xs out v.chain),
  );
  distinct = (out, v.distinct);
  pages = (
    (
      record { aligned = is.aligned; above = is.above; below = is.below; counted = is.counted },
      zero,
    ),
    all,
  );
}

pub free_page-end :
    (s s' : Pmm) (p : ℕ) → free_page p s ≡ ok tt s' → s'.free_mem_end_addr ≡ s.free_mem_end_addr
unfolding free_page push drop_ref
free_page-end s s' p e = ground arith

-- A page whose count is 1 and that is not on the free list goes to the front of it, with count 0.
pub free_page-pushes :
    (s : Pmm) (p : ℕ) (xs : List ℕ)
    → IsValid s xs
    → IsPage s p
    → p ∉ xs
    → s.refs (page_index s p) ≡ 1
    → (s' : Pmm) × (free_page p s ≡ ok tt s')
      × IsValid s' (p ∷ xs)
      × (get_page_ref s' p ≡ 0)
      × (s'.mem ≡ store s.mem p s.head)
unfolding pushed get_page_ref
free_page-pushes s p xs v is out one =
    let f = set_ref s.refs (page_index s p) 0 in
    (
      pushed s p f,
      free_page-last s p is one,
      pushed-IsValid s p xs f v is out (ground arith)
          (All-set_ref s (store s.mem p s.head) p p 0 xs v.start_aligned is out v.pages),
      ground arith,
      refl,
    )

All-same :
    (s : Pmm) (m : Mem) (h : ℕ) (xs : List ℕ)
    → All (IsFree s) xs
    → All (IsFree (record s { mem = m; head = h })) xs
All-same s m h [] all = tt
All-same s m h (x ∷ xs) all = (
  (
    record {
      aligned = all.0.0.aligned;
      above = all.0.0.above;
      below = all.0.0.below;
      counted = all.0.0.counted;
    },
    all.0.1,
  ),
  All-same s m h xs all.1,
)

-- The same of a page whose count is 0, as when the list is first built.
pub free_page-adds :
    (s : Pmm) (p : ℕ) (xs : List ℕ)
    → IsValid s xs
    → IsPage s p
    → p ∉ xs
    → s.refs (page_index s p) ≡ 0
    → (s' : Pmm) × (free_page p s ≡ ok tt s')
      × IsValid s' (p ∷ xs)
      × (s'.refs ≡ s.refs)
      × (s'.free_mem_start_addr ≡ s.free_mem_start_addr)
      × (s'.free_mem_end_addr ≡ s.free_mem_end_addr)
unfolding pushed
free_page-adds s p xs v is out zero = (
  pushed s p s.refs,
  free_page-unreferenced s p is zero,
  pushed-IsValid s p xs s.refs v is out zero (All-same s _ p xs v.pages),
  refl,
  refl,
  refl,
)

-- A page with more than one reference stays allocated; only its count falls by one.
pub free_page_shared :
    (s : Pmm) (p : ℕ) (xs : List ℕ)
    → IsValid s xs
    → IsPage s p
    → p ∉ xs
    → 2 ≤ s.refs (page_index s p)
    → (s' : Pmm) × (free_page p s ≡ ok tt s')
      × IsValid s' xs
      × (get_page_ref s' p + 1 ≡ get_page_ref s p)
      × (s'.mem ≡ s.mem)
unfolding drop_ref push get_page_ref
free_page_shared s p xs v is out two =
    let k = s.refs (page_index s p) - 1 in
    (
      record s { refs = set_ref s.refs (page_index s p) k },
      free_page-run s p is ∙ ground arith,
      record {
        start_aligned = v.start_aligned;
        start_pos = v.start_pos;
        chain = v.chain;
        distinct = v.distinct;
        pages = All-set_ref s s.mem s.head p k xs v.start_aligned is out v.pages;
      },
      ground (arith, is.above, is.below, is.counted),
      refl,
    )

refused : (s : Pmm) (p : ℕ) → ¬ IsPage s p → free_page p s ≡ panic
unfolding free_page
refused s p nope = elim (Bool-cases (not (p % 4096 == 0) || out_of_range s p)) [
  | inl bad ↦ rw bad
  | inr good ↦ elim (Bool-cases (leb (max_page_num s) (page_index s p))) [
    | inl bad ↦ rw (good, bad)
    | inr fine ↦ absurd (
        nope (record {
          aligned = ground arith;
          above = ground arith;
          below = ground arith;
          counted = ground arith;
        }))
  ]
]

-- free_page stops the machine exactly at an address that is no managed page.
pub free_page_panics :
    (s : Pmm) (p : ℕ)
    → (IsPage s p → (s' : Pmm) × (free_page p s ≡ ok tt s'))
      × (¬ IsPage s p → free_page p s ≡ panic)
free_page_panics s p =
    (λ is. (push p (drop_ref (page_index s p) s), free_page-run s p is), refused s p)
