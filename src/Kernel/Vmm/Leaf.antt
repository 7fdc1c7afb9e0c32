-- ===== src/Kernel/Vmm/Leaf.antt =====
-- Reading and writing the leaf entry of a virtual address.
use huster_experiment_pke.Base.{
  ℕ, zero, suc, ◌+◌, ◌*◌, ◌/◌, ◌^◌, ◌<◌, ◌≡◌, refl, sym, ◌∙◌, ap, false, not, ◌&&◌, ◌||◌, arith,
  leb, ◌==◌, if◌then◌else◌, List, Option, none, some, Bool-cases, inl, inr,
}
use huster_experiment_pke.Base.Run.{ok}
use huster_experiment_pke.Kernel.Memory.{Mem, store, store_self, store_ne}
use huster_experiment_pke.Kernel.Pmm.{Pmm}
use huster_experiment_pke.Kernel.Vmm.{
  has, pte_v, pte_r, pte_w, pte2pa, px, slot, next_table, walk_from, page_walk, maxva, found_pa,
  lookup_pa,
}
use huster_experiment_pke.Kernel.Vmm.Table.{
  entry_of, IsTable, px_small, slot_apart, px_page, page_px,
}
use huster_experiment_pke.Kernel.Vmm.Space.{IsSpace, IsValid-mem, Agree-store}
use huster_experiment_pke.Kernel.Vmm.Extend.{
  leaf_of, word_at, entry_of-leaf_of, leaf_table, leaf_of_inj,
}
use huster_experiment_pke.Kernel.Vmm.Walk.{walk_from-none}

walk_from_reads :
    (level : ℕ) (pt va : ℕ) (s : Pmm)
    → walk_from level (some pt) va false s ≡ ok (leaf_of level s.mem pt va) s
unfolding walk_from leaf_of next_table
walk_from_reads zero pt va s = refl
walk_from_reads (suc level) pt va s =
    elim (Bool-cases (has pte_v (s.mem (slot pt (suc level) va)))) [
      | inl valid ↦ rw valid (walk_from_reads level (pte2pa (s.mem (slot pt (suc level) va))) va s)
      | inr stop ↦ rw stop (walk_from-none level va false s)
    ]

-- Without `alloc`, page_walk only reads.
pub page_walk_reads :
    (root va : ℕ) (s : Pmm)
    → va < 2 ^ 38
    → page_walk root va false s ≡ ok (leaf_of 2 s.mem root va) s
unfolding page_walk
page_walk_reads root va s lt =
    let inside : leb maxva va ≡ false = ground arith in rw inside (walk_from_reads 2 root va s)

-- the page that an entry gives to lookup_pa
abbrev pub resolved : ℕ → ℕ
resolved pte =
    if not (has pte_v pte) || (not (has pte_r pte) && not (has pte_w pte)) then 0 else pte2pa pte

found_pa-word_at : (o : Option ℕ) (m : Mem) → found_pa o m ≡ resolved (word_at m o)
unfolding found_pa
found_pa-word_at none m = refl
found_pa-word_at (some a) m = refl

-- lookup_pa is a function of the translation; it changes nothing.
pub lookup_pa_reads :
    (root va : ℕ) (s : Pmm)
    → va < 2 ^ 38
    → lookup_pa root va s ≡ ok (resolved (entry_of 2 s.mem root va)) s
unfolding lookup_pa
lookup_pa_reads root va s lt =
    let inside : leb maxva va ≡ false = ground arith in
    rw (inside, page_walk_reads root va s lt, entry_of-leaf_of 2 s.mem root va)
      (ap (λ (x : ℕ). ok x s) (found_pa-word_at (leaf_of 2 s.mem root va) s.mem))

module _ (m : Mem) (root : ℕ) (h : ℕ → ℕ) (t : IsTable m root h) (va a v : ℕ)
    (leaf : leaf_of 2 m root va ≡ some a) where
  -- the tables of tables are left alone
  upper_same : (q j n : ℕ) → h q ≡ suc (suc n) → j < 512 → store m a v (q + 8 * j) ≡ m (q + 8 * j)
  upper_same q j n hq lj =
      let (r, hr, place) = leaf_table m root h t 2 root va a t.top leaf in
      store_ne m a v (q + 8 * j) (λ e.
        let same : q ≡ r =
          (slot_apart q r j (px 0 va) (t.page q (omega arith)).0 (t.page r (omega arith)).0 lj
            (px_small 0 va) (e ∙ place)).0 in
        omega (arith, ap h same))

  pub store-IsTable : IsTable (store m a v) root h
  store-IsTable = record {
    top = t.top;
    page = t.page;
    child = λ q j n hq lj valid.
        let same = upper_same q j n hq lj in rw same (t.child q j n hq lj (rw (← same) valid));
    apart = λ q r j l n k hq hr lj ll valid valid' e.
        let same = upper_same q j n hq lj in
        let same' = upper_same r l k hr ll in
        t.apart q r j l n k hq hr lj ll (rw (← same) valid) (rw (← same') valid')
          (ap pte2pa (sym same) ∙ e ∙ ap pte2pa same');
  }

  pub leaf_of-store :
      (level q vb : ℕ) → h q ≡ suc level → leaf_of level (store m a v) q vb ≡ leaf_of level m q vb
  unfolding leaf_of
  leaf_of-store zero q vb hq = refl
  leaf_of-store (suc level) q vb hq =
      let same = upper_same q (px (suc level) vb) level hq (px_small (suc level) vb) in
      elim (Bool-cases (has pte_v (m (slot q (suc level) vb)))) [
        | inl valid ↦
            let down = t.child q (px (suc level) vb) level hq (px_small (suc level) vb) valid in
            rw (same, valid) (leaf_of-store level (pte2pa (m (slot q (suc level) vb))) vb down)
        | inr stop ↦ rw (same, stop)
      ]

  -- equal pages have one leaf entry
  pub leaf_of-page :
      (level q vb : ℕ) → va / 4096 ≡ vb / 4096 → leaf_of level m q vb ≡ leaf_of level m q va
  unfolding leaf_of
  leaf_of-page zero q vb e = rw (page_px va vb 0 e)
  leaf_of-page (suc level) q vb e = rw (page_px va vb (suc level) e) (
      ap (λ (o : Option ℕ). if has pte_v (m (slot q (suc level) vb)) then o else none)
        (leaf_of-page level (pte2pa (m (slot q (suc level) vb))) vb e))

  word_at-store :
      (vb : ℕ) (o : Option ℕ)
      → va < 2 ^ 38
      → vb < 2 ^ 38
      → leaf_of 2 m root vb ≡ o
      → word_at (store m a v) o ≡ (if vb / 4096 == va / 4096 then v else word_at m o)
  word_at-store vb none lt lt' e = elim (Bool-cases (vb / 4096 == va / 4096)) [
    | inl same ↦ let f = leaf_of-page 2 root vb (ground arith) in absurd (ground arith)
    | inr other ↦ rw other
  ]
  word_at-store vb (some b) lt lt' e = elim (Bool-cases (vb / 4096 == va / 4096)) [
    | inl same ↦
        let f = leaf_of-page 2 root vb (ground arith) in
        let eq : b ≡ a = ground arith in rw (eq, same) (store_self m a v)
    | inr other ↦ rw other (
        store_ne m a v b (λ eq.
          let (_, index) =
            leaf_of_inj m root h t 2 root root vb va a t.top t.top (e ∙ ap some eq) leaf in
          let f =
            px_page vb va lt' lt (index 0 (omega arith)) (index 1 (omega arith))
              (index 2 (omega arith)) in
          ground arith))
  ]

  -- A write to the leaf entry of `va` changes the translation of the addresses of that page only.
  pub entry_of-store :
      (vb : ℕ)
      → va < 2 ^ 38
      → vb < 2 ^ 38
      → entry_of 2 (store m a v) root vb
        ≡ (if vb / 4096 == va / 4096 then v else entry_of 2 m root vb)
  entry_of-store vb lt lt' =
      rw
        (
          entry_of-leaf_of 2 (store m a v) root vb,
          entry_of-leaf_of 2 m root vb,
          leaf_of-store 2 root vb t.top,
        )
        (word_at-store vb (leaf_of 2 m root vb) lt lt' refl)

pub store-IsSpace :
    (s : Pmm) (free : List ℕ) (root : ℕ) (h : ℕ → ℕ) (va a v : ℕ)
    → IsSpace s free root h
    → leaf_of 2 s.mem root va ≡ some a
    → IsSpace (record s { mem = store s.mem a v }) free root h
store-IsSpace s free root h va a v sp leaf =
    let t = sp.tree in
    let (r, hr, place) = leaf_table s.mem root h t 2 root va a t.top leaf in
    record {
      frames = IsValid-mem s (store s.mem a v) free sp.frames (
          rw place (
            Agree-store s h free r (px 0 va) v sp.frames.pages sp.spare (t.page r (omega arith)).0
              (omega arith) (px_small 0 va)));
      tree = store-IsTable s.mem root h t va a v leaf;
      spare = sp.spare;
      small = sp.small;
    }
