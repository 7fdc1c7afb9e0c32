-- ===== src/Kernel/Vmm/Foreign.antt =====
-- Writes outside the tables: what a page gets that has been handed out, or given back.
use huster_experiment_pke.Base.{
  ℕ, zero, suc, ◌+◌, ◌*◌, ◌%◌, ◌≤◌, ◌<◌, ◌≡◌, ◌≢◌, refl, sym, ◌∙◌, ap, arith, List, [], ◌∷◌, ◌∉◌,
  All, Bool-cases, inl, inr,
}
use huster_experiment_pke.Base.Run.{ok}
use huster_experiment_pke.Kernel.Memory.{Mem, store, store_ne}
use huster_experiment_pke.Kernel.Pmm.{Pmm, free_page, page_index, get_page_ref}
use huster_experiment_pke.Kernel.Pmm.Chain.{IsPage, IsFree}
use huster_experiment_pke.Kernel.Pmm.Laws.{
  taken, taken-IsValid, free_page-pushes, free_page_shared, free_page-end,
}
use huster_experiment_pke.Kernel.Vmm.{has, pte_v, pte2pa, px, slot}
use huster_experiment_pke.Kernel.Vmm.Table.{entry_of, IsTable, px_small, slot_apart}
use huster_experiment_pke.Kernel.Vmm.Space.{IsSpace, IsValid-mem}
use huster_experiment_pke.Kernel.Vmm.Extend.{leaf_of, page_of}

-- two memories with the same tables
abbrev pub SameTables : (ℕ → ℕ) → Mem → Mem → Type 0
SameTables h m m' = (q j : ℕ) → h q ≢ 0 → j < 512 → m' (q + 8 * j) ≡ m (q + 8 * j)

module _ (m m' : Mem) (root : ℕ) (h : ℕ → ℕ) (t : IsTable m root h) (same : SameTables h m m') where
  pub same-IsTable : IsTable m' root h
  same-IsTable = record {
    top = t.top;
    page = t.page;
    child = λ q j n hq lj valid.
        let e = same q j (omega arith) lj in rw e (t.child q j n hq lj (rw (← e) valid));
    apart = λ q r j l n k hq hr lj ll valid valid' eq.
        let e = same q j (omega arith) lj in
        let e' = same r l (omega arith) ll in
        t.apart q r j l n k hq hr lj ll (rw (← e) valid) (rw (← e') valid')
          (ap pte2pa (sym e) ∙ eq ∙ ap pte2pa e');
  }

  pub leaf_of_same :
      (level q va : ℕ) → h q ≡ suc level → leaf_of level m' q va ≡ leaf_of level m q va
  unfolding leaf_of
  leaf_of_same zero q va hq = refl
  leaf_of_same (suc level) q va hq =
      let e = same q (px (suc level) va) (omega arith) (px_small (suc level) va) in
      elim (Bool-cases (has pte_v (m (slot q (suc level) va)))) [
        | inl valid ↦
            let down = t.child q (px (suc level) va) level hq (px_small (suc level) va) valid in
            rw (e, valid) (leaf_of_same level (pte2pa (m (slot q (suc level) va))) va down)
        | inr stop ↦ rw (e, stop)
      ]

  pub entry_of-same :
      (level q va : ℕ) → h q ≡ suc level → entry_of level m' q va ≡ entry_of level m q va
  unfolding entry_of
  entry_of-same zero q va hq = same q (px 0 va) (omega arith) (px_small 0 va)
  entry_of-same (suc level) q va hq =
      let e = same q (px (suc level) va) (omega arith) (px_small (suc level) va) in
      elim (Bool-cases (has pte_v (m (slot q (suc level) va)))) [
        | inl valid ↦
            let down = t.child q (px (suc level) va) level hq (px_small (suc level) va) valid in
            rw (e, valid) (entry_of-same level (pte2pa (m (slot q (suc level) va))) va down)
        | inr stop ↦ rw (e, stop)
      ]

-- a change within the page at `p`
abbrev pub Within : ℕ → Mem → Mem → Type 0
Within p m m' = (x : ℕ) → page_of x ≢ p → m' x ≡ m x

pub Within-SameTables :
    (m m' : Mem) (root : ℕ) (h : ℕ → ℕ) (p : ℕ)
    → IsTable m root h
    → h p ≡ 0
    → Within p m m'
    → SameTables h m m'
Within-SameTables m m' root h p t z within q j hq lj =
    let al = (t.page q hq).0 in
    let here : page_of (q + 8 * j) ≡ q = omega arith in
    within (q + 8 * j) (λ e. hq (ap h (sym here ∙ e) ∙ z))

Within-Agree :
    (s : Pmm) (m' : Mem) (p : ℕ) (xs : List ℕ)
    → p ∉ xs
    → All (IsFree s) xs
    → Within p s.mem m'
    → All (λ x. m' x ≡ s.mem x) xs
Within-Agree s m' p [] out all within = tt
Within-Agree s m' p (x ∷ xs) out all within =
    let al = all.0.0.aligned in
    let here : page_of x ≡ x = omega arith in
    (within x (λ e. ground arith), Within-Agree s m' p xs (ground arith) all.1 within)

-- a change within an allocated page that is no table
pub Within-IsSpace :
    (s : Pmm) (m' : Mem) (p : ℕ) (free : List ℕ) (root : ℕ) (h : ℕ → ℕ)
    → IsSpace s free root h
    → h p ≡ 0
    → p ∉ free
    → Within p s.mem m'
    → IsSpace (record s { mem = m' }) free root h
Within-IsSpace s m' p free root h sp z out within = record {
  frames = IsValid-mem s m' free sp.frames (Within-Agree s m' p free out sp.frames.pages within);
  tree =
      same-IsTable s.mem m' root h sp.tree (Within-SameTables s.mem m' root h p sp.tree z within);
  spare = sp.spare;
  small = sp.small;
}

-- the first word of a page that is no table
pub SameTables-store :
    (m : Mem) (root : ℕ) (h : ℕ → ℕ) (p v : ℕ)
    → IsTable m root h
    → p % 4096 ≡ 0
    → h p ≡ 0
    → SameTables h m (store m p v)
SameTables-store m root h p v t al z q j hq lj = store_ne m p v (q + 8 * j) (λ e.
    let same : q ≡ p = (slot_apart q p j 0 (t.page q hq).0 al lj (omega arith) (omega arith)).0 in
    hq (ap h same ∙ z))

-- alloc_page hands out a page that is no table
pub taken-IsSpace :
    (s : Pmm) (p : ℕ) (free : List ℕ) (root : ℕ) (h : ℕ → ℕ)
    → IsSpace s (p ∷ free) root h
    → IsSpace (taken s p) free root h
taken-IsSpace s p free root h sp = record {
  frames = taken-IsValid s p free sp.frames;
  tree = sp.tree;
  spare = sp.spare.1;
  small = sp.small;
}

-- free_page of an allocated page with one reference
pub free_page-IsSpace :
    (s : Pmm) (p : ℕ) (free : List ℕ) (root : ℕ) (h : ℕ → ℕ)
    → IsSpace s free root h
    → IsPage s p
    → h p ≡ 0
    → p ∉ free
    → s.refs (page_index s p) ≡ 1
    → (s' : Pmm) × (free_page p s ≡ ok tt s')
      × IsSpace s' (p ∷ free) root h
      × (get_page_ref s' p ≡ 0)
      × (s'.mem ≡ store s.mem p s.head)
free_page-IsSpace s p free root h sp is z out one =
    let (s', run, v, counted, written) = free_page-pushes s p free sp.frames is out one in
    (
      s',
      run,
      record {
        frames = v;
        tree = rw written (
            same-IsTable s.mem (store s.mem p s.head) root h sp.tree
              (SameTables-store s.mem root h p s.head sp.tree is.aligned z));
        spare = (z, sp.spare);
        small = omega (arith, sp.small, free_page-end s s' p run);
      },
      counted,
      written,
    )

-- free_page of a page with more references
pub free_page_shared-IsSpace :
    (s : Pmm) (p : ℕ) (free : List ℕ) (root : ℕ) (h : ℕ → ℕ)
    → IsSpace s free root h
    → IsPage s p
    → p ∉ free
    → 2 ≤ s.refs (page_index s p)
    → (s' : Pmm) × (free_page p s ≡ ok tt s')
      × IsSpace s' free root h
      × (get_page_ref s' p + 1 ≡ get_page_ref s p)
      × (s'.mem ≡ s.mem)
free_page_shared-IsSpace s p free root h sp is out two =
    let (s', run, v, counted, same) = free_page_shared s p free sp.frames is out two in
    (
      s',
      run,
      record {
        frames = v;
        tree = rw same sp.tree;
        spare = sp.spare;
        small = omega (arith, sp.small, free_page-end s s' p run);
      },
      counted,
      same,
    )
