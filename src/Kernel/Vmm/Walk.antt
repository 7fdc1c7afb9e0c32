-- ===== src/Kernel/Vmm/Walk.antt =====
-- page_walk with `alloc`: it makes the tables that are missing from the free list, and finds the leaf entry.
use huster_experiment_pke.Base.{
  ℕ, zero, suc, ◌+◌, ◌*◌, ◌%◌, ◌^◌, ◌≤◌, ◌<◌, ◌≡◌, ◌≢◌, refl, ◌∙◌, ap, Bool, true, false, arith,
  leb, ◌==◌, List, [], ◌∷◌, ◌∉◌, Option, none, some, length, Bool-cases, inl, inr,
}
use huster_experiment_pke.Base.Run.{Run, ok, and_then}
use huster_experiment_pke.Kernel.Memory.{Mem, store_ne}
use huster_experiment_pke.Kernel.Pmm.{Pmm}
use huster_experiment_pke.Kernel.Pmm.Chain.{IsValid}
use huster_experiment_pke.Kernel.Pmm.Laws.{alloc_page-pops, alloc_page-empty, alloc_page-end}
use huster_experiment_pke.Kernel.Vmm.{
  has, pte_v, pte2pa, px, slot, clear_page, hang, next_table, walk_from, page_walk, maxva,
}
use huster_experiment_pke.Kernel.Vmm.Table.{IsTable, link, link-has, px_small}
use huster_experiment_pke.Kernel.Vmm.Grow.{
  grown, height', entry_of_same, grown-IsTable, word_same, word_hung, height'-ne, height'-self,
  hung-pte2pa,
}
use huster_experiment_pke.Kernel.Vmm.Space.{IsSpace, IsValid-mem, Agree-grown, All-height'}
use huster_experiment_pke.Kernel.Vmm.Extend.{Extends, Extends-refl, Extends-trans, leaf_of, page_of}

module _ (m : Mem) (root : ℕ) (height : ℕ → ℕ) (t : IsTable m root height) (pt i n p : ℕ)
    (up : height pt ≡ suc (suc n)) (li : i < 512) (invalid : has pte_v (m (pt + 8 * i)) ≡ false)
    (new : height p ≡ 0) (al : p % 4096 ≡ 0) (pos : 0 < p) (lt : p < 2 ^ 56) (free : List ℕ)
    (out : p ∉ free) where
  grown-Extends :
      Extends m height
        (p ∷ free)
        (grown m (pt + 8 * i) p)
        (height' m root height t pt i n p up li invalid new al pos lt)
        free
  unfolding grown
  grown-Extends = record {
    entries = λ q j h lj valid.
        word_same m root height t pt i n p up li invalid new al pos lt q j h lj
          (λ e. let clash : has pte_v (m (q + 8 * j)) ≡ false = rw e invalid in cc);
    heights = λ q h.
        height'-ne m root height t pt i n p up li invalid new al pos lt q
          (λ e. h (ap height e ∙ new));
    meaning = λ level q va h.
        entry_of_same m root height t pt i n p up li invalid new al pos lt level q va h;
    contents = λ x z z'.
        let pt_al : pt % 4096 ≡ 0 = (t.page pt (omega arith)).0 in
        let far : x ≢ pt + 8 * i =
          λ e. let same : page_of x ≡ pt = omega arith in omega (arith, ap height same) in
        let other : page_of x ≢ p = λ e. ground arith in
        store_ne (clear_page m p) (pt + 8 * i) (link p) x far ∙ ground arith;
    untouched =
        λ x z outside. let other : x ≢ p = λ e. ground arith in (ground arith, ground arith);
  }

-- the outcomes of one round at the table `pt` of the level `suc level`
data Stepped (s : Pmm) (free : List ℕ) (root : ℕ) (h : ℕ → ℕ) (level pt va : ℕ)
    : Run Pmm (Option ℕ) → Type 0 where
  into :
      (s' : Pmm) (free' : List ℕ) (h' : ℕ → ℕ) (q : ℕ)
      → IsSpace s' free' root h'
      → Extends s.mem h free s'.mem h' free'
      → has pte_v (s'.mem (slot pt (suc level) va)) ≡ true
      → pte2pa (s'.mem (slot pt (suc level) va)) ≡ q
      → h' q ≡ suc level
      → length free ≤ suc (length free')
      → Stepped s free root h level pt va (ok (some q) s')
  nothing_left :
      IsSpace s [] root h
      → Extends s.mem h free s.mem h []
      → length free < 1
      → Stepped s free root h level pt va (ok none s)

module _ (s : Pmm) (root : ℕ) (h : ℕ → ℕ) (level pt va : ℕ) (up : h pt ≡ suc (suc level)) where
  entry : ℕ
  entry = slot pt (suc level) va

  present :
      (free : List ℕ)
      → IsSpace s free root h
      → has pte_v (s.mem entry) ≡ true
      → Stepped s free root h level pt va (next_table entry true s)
  unfolding next_table entry
  present free sp valid = rw valid (
      into s free h (pte2pa (s.mem entry)) sp (Extends-refl s.mem h free) valid refl
        (sp.tree.child pt (px (suc level) va) level up (px_small (suc level) va) valid)
        (omega arith))

  missing_none :
      IsSpace s [] root h
      → has pte_v (s.mem entry) ≡ false
      → Stepped s [] root h level pt va (next_table entry true s)
  unfolding next_table entry
  missing_none sp invalid =
      rw (invalid, alloc_page-empty s sp.frames)
        (nothing_left sp (Extends-refl s.mem h []) (omega arith))

  missing_some :
      (p : ℕ) (free : List ℕ)
      → IsSpace s (p ∷ free) root h
      → has pte_v (s.mem entry) ≡ false
      → Stepped s (p ∷ free) root h level pt va (next_table entry true s)
  unfolding next_table entry grown
  missing_some p free sp invalid =
      let (s₁, run, v, counted, same) = alloc_page-pops s p free sp.frames in
      let i = px (suc level) va in
      let li : i < 512 = px_small (suc level) va in
      let t = sp.tree in
      let new : h p ≡ 0 = sp.spare.0 in
      let is = sp.frames.pages.0.0 in
      let al : p % 4096 ≡ 0 = is.aligned in
      let pos : 0 < p = sp.frames.chain.1 in
      let lt : p < 2 ^ 56 = omega (arith, is.below, sp.small) in
      let out : p ∉ free = sp.frames.distinct.0 in
      let pt_al : pt % 4096 ≡ 0 = (t.page pt (omega arith)).0 in
      let m' = grown s.mem (pt + 8 * i) p in
      let h' = height' s.mem root h t pt i level p up li invalid new al pos lt in
      let frames : IsValid (record s₁ { mem = m' }) free = IsValid-mem s₁ m' free v (
        rw same (
          Agree-grown s h free pt i p sp.frames.pages.1 sp.spare.1 out al pt_al (omega arith)
            li)) in
      let nonzero : (p == 0) ≡ false = ground arith in
      let hung : hang entry p s₁ ≡ ok (some p) (record s₁ { mem = m' }) = rw (nonzero, same) refl in
      rw (invalid, run, hung)
        (into (record s₁ { mem = m' }) free h' p
          (record {
            frames = frames;
            tree = grown-IsTable s.mem root h t pt i level p up li invalid new al pos lt;
            spare = All-height' h p level free out sp.spare.1;
            small = omega (arith, sp.small, alloc_page-end s s₁ p run);
          })
          (grown-Extends s.mem root h t pt i level p up li invalid new al pos lt free out)
          (rw (word_hung s.mem root h t pt i level p up li invalid new al pos lt) (link-has p))
          (hung-pte2pa s.mem root h t pt i level p up li invalid new al pos lt)
          (height'-self s.mem root h t pt i level p up li invalid new al pos lt) (omega arith))

stepped :
    (s : Pmm) (free : List ℕ) (root : ℕ) (h : ℕ → ℕ) (level pt va : ℕ)
    → IsSpace s free root h
    → h pt ≡ suc (suc level)
    → Stepped s free root h level pt va (next_table (slot pt (suc level) va) true s)
unfolding entry
stepped s free root h level pt va sp up =
    elim (Bool-cases (has pte_v (s.mem (slot pt (suc level) va)))) [
      | inl valid ↦ present s root h level pt va up free sp valid
      | inr invalid ↦ missing free sp invalid
    ]
  where
    missing :
        (xs : List ℕ)
        → IsSpace s xs root h
        → has pte_v (s.mem (slot pt (suc level) va)) ≡ false
        → Stepped s xs root h level pt va (next_table (slot pt (suc level) va) true s)
    missing [] sp' invalid = missing_none s root h level pt va up sp' invalid
    missing (p ∷ xs) sp' invalid = missing_some s root h level pt va up p xs sp' invalid

-- the outcomes of the walk from the table `pt` of the level
pub data Walked (s : Pmm) (free : List ℕ) (root : ℕ) (h : ℕ → ℕ) (level pt va : ℕ)
    : Run Pmm (Option ℕ) → Type 0 where
  arrived :
      (s' : Pmm) (free' : List ℕ) (h' : ℕ → ℕ) (a : ℕ)
      → IsSpace s' free' root h'
      → Extends s.mem h free s'.mem h' free'
      → leaf_of level s'.mem pt va ≡ some a
      → length free ≤ level + length free'
      → Walked s free root h level pt va (ok (some a) s')
  exhausted :
      (s' : Pmm) (h' : ℕ → ℕ)
      → IsSpace s' [] root h'
      → Extends s.mem h free s'.mem h' []
      → length free < level
      → Walked s free root h level pt va (ok none s')

pub walk_from-none :
    (level va : ℕ) (alloc : Bool) (s : Pmm) → walk_from level none va alloc s ≡ ok none s
unfolding walk_from
walk_from-none zero va alloc s = refl
walk_from-none (suc level) va alloc s = refl

-- the way found below stays behind the entry passed on it
leaf_of-step :
    (m : Mem) (level pt va q a : ℕ)
    → has pte_v (m (slot pt (suc level) va)) ≡ true
    → pte2pa (m (slot pt (suc level) va)) ≡ q
    → leaf_of level m q va ≡ some a
    → leaf_of (suc level) m pt va ≡ some a
unfolding leaf_of
leaf_of-step m level pt va q a valid target e = rw (valid, target) e

then_walk :
    (s : Pmm) (free : List ℕ) (root : ℕ) (h : ℕ → ℕ) (level pt va : ℕ)
    → h pt ≡ suc (suc level)
    → ((s' : Pmm) (free' : List ℕ) (h' : ℕ → ℕ) (q : ℕ)
        → IsSpace s' free' root h'
        → h' q ≡ suc level
        → Walked s' free' root h' level q va (walk_from level (some q) va true s'))
    → (r : Run Pmm (Option ℕ)) → Stepped s free root h level pt va r
    → Walked s free root h (suc level) pt va (and_then r (λ o s'. walk_from level o va true s'))
then_walk s free root h level pt va up ih _ (nothing_left sp ext short) =
    rw (walk_from-none level va true s) (exhausted s h sp ext (omega arith))
then_walk s free root h level pt va up ih _ (into s' free' h' q sp' ext valid target hq count) =
    finish _ (ih s' free' h' q sp' hq)
  where
    finish :
        (r : Run Pmm (Option ℕ))
        → Walked s' free' root h' level q va r
        → Walked s free root h (suc level) pt va r
    finish _ (arrived s₂ f₂ h₂ a sp₂ ext₂ leaf count₂) =
        let same =
          ext₂.entries pt (px (suc level) va)
            (λ z. omega (arith, ext.heights pt (λ z'. omega arith))) (px_small (suc level) va)
            valid in
        arrived s₂ f₂ h₂ a sp₂ (Extends-trans ext ext₂)
          (leaf_of-step s₂.mem level pt va q a (rw same valid) (rw same target) leaf) (omega arith)
    finish _ (exhausted s₂ h₂ sp₂ ext₂ count₂) =
        exhausted s₂ h₂ sp₂ (Extends-trans ext ext₂) (omega arith)

pub walk_from_walks :
    (level : ℕ) (s : Pmm) (free : List ℕ) (root : ℕ) (h : ℕ → ℕ) (pt va : ℕ)
    → IsSpace s free root h
    → h pt ≡ suc level
    → Walked s free root h level pt va (walk_from level (some pt) va true s)
unfolding walk_from leaf_of
walk_from_walks zero s free root h pt va sp up =
    arrived s free h (slot pt 0 va) sp (Extends-refl s.mem h free) refl (omega arith)
walk_from_walks (suc level) s free root h pt va sp up =
    then_walk s free root h level pt va up
      (λ s' free' h' q sp' hq. walk_from_walks level s' free' root h' q va sp' hq) _
      (stepped s free root h level pt va sp up)

-- page_walk with `alloc`, for a virtual address in range: it keeps every translation, keeps the tables a
-- tree apart from the free list, and returns the leaf entry of the address; or it returns NULL, and
-- then every free page has been used up, and there was at most one of them.
pub page_walk_allocates :
    (s : Pmm) (free : List ℕ) (root : ℕ) (h : ℕ → ℕ) (va : ℕ)
    → IsSpace s free root h
    → va < 2 ^ 38
    → Walked s free root h 2 root va (page_walk root va true s)
unfolding page_walk
page_walk_allocates s free root h va sp lt =
    let inside : leb maxva va ≡ false = ground arith in
    rw inside (walk_from_walks 2 s free root h root va sp sp.tree.top)
