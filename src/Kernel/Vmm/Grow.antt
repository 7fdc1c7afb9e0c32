-- ===== src/Kernel/Vmm/Grow.antt =====
-- A new, empty table that is hung into an invalid entry: the tree grows, and no translation changes.
use native.Mathlib.Decide.{ℕ_discrete}
use huster_experiment_pke.Base.{
  ℕ, zero, suc, ◌+◌, ◌*◌, ◌%◌, ◌^◌, ◌<◌, ◌≡◌, ◌≢◌, refl, sym, ◌∙◌, ap, true, false, arith,
  Bool-cases, inl, inr,
}
use huster_experiment_pke.Kernel.Memory.{Mem, store, store_self, store_ne}
use huster_experiment_pke.Kernel.Process.{update}
use huster_experiment_pke.Kernel.Vmm.{has, pte_v, pte2pa, px, slot, clear_page}
use huster_experiment_pke.Kernel.Vmm.Table.{
  entry_of, IsTable, link, link-has, pte2pa-or, px_small, slot_apart,
}

unfoldable pub grown : Mem → ℕ → ℕ → Mem
grown m a p = store (clear_page m p) a (link p)

module _ (m : Mem) (root : ℕ) (height : ℕ → ℕ) (t : IsTable m root height) (pt i n p : ℕ)
    (up : height pt ≡ suc (suc n)) (li : i < 512) (invalid : has pte_v (m (pt + 8 * i)) ≡ false)
    (new : height p ≡ 0) (al : p % 4096 ≡ 0) (pos : 0 < p) (lt : p < 2 ^ 56) where
  abbrev pub m' : Mem
  m' = grown m (pt + 8 * i) p

  pt_al : pt % 4096 ≡ 0
  pt_al = (t.page pt (omega arith)).0

  pub word_same :
      (q j : ℕ) → height q ≢ 0 → j < 512 → q + 8 * j ≢ pt + 8 * i → m' (q + 8 * j) ≡ m (q + 8 * j)
  unfolding grown
  word_same q j h lj ne =
      let q_al = (t.page q h).0 in
      let far : q ≢ p = λ e. h (ap height e ∙ new) in
      store_ne (clear_page m p) (pt + 8 * i) (link p) (q + 8 * j) ne ∙ ground arith

  word_new : (j : ℕ) → j < 512 → m' (p + 8 * j) ≡ 0
  unfolding grown
  word_new j lj =
      let ne : p + 8 * j ≢ pt + 8 * i = λ e.
        let same : p ≡ pt = (slot_apart p pt j i al pt_al lj li e).0 in
        omega (arith, ap height same) in
      store_ne (clear_page m p) (pt + 8 * i) (link p) (p + 8 * j) ne ∙ ground arith

  pub word_hung : m' (pt + 8 * i) ≡ link p
  unfolding grown
  word_hung = store_self (clear_page m p) (pt + 8 * i) (link p)

  pub hung-pte2pa : pte2pa (m' (pt + 8 * i)) ≡ p
  hung-pte2pa = rw word_hung (pte2pa-or p 1 al lt (omega arith))

  entry_of_new : (level va : ℕ) → entry_of level m' p va ≡ 0
  unfolding entry_of
  entry_of_new zero va = word_new (px 0 va) (px_small 0 va)
  entry_of_new (suc level) va =
      let nothing : has pte_v (m' (slot p (suc level) va)) ≡ false =
        rw (word_new (px (suc level) va) (px_small (suc level) va)) refl in
      rw nothing

  pub entry_of_same :
      (level q va : ℕ) → height q ≡ suc level → entry_of level m' q va ≡ entry_of level m q va
  unfolding entry_of
  entry_of_same zero q va h = word_same q (px 0 va) (omega arith) (px_small 0 va) (λ e. omega (
    arith,
    ap height (slot_apart q pt (px 0 va) i (t.page q (omega arith)).0 pt_al (px_small 0 va) li e).0,
  ))
  entry_of_same (suc level) q va h = elim (ℕ_discrete (slot q (suc level) va) (pt + 8 * i)) [
    | yes e ↦
        let old : has pte_v (m (slot q (suc level) va)) ≡ false = rw e invalid in
        let hung : has pte_v (m' (slot q (suc level) va)) ≡ true = rw (e, word_hung) (link-has p) in
        let down : pte2pa (m' (slot q (suc level) va)) ≡ p = rw e hung-pte2pa in
        rw (old, hung, down) (entry_of_new level va)
    | no ne ↦
        let same = word_same q (px (suc level) va) (omega arith) (px_small (suc level) va) ne in
        elim (Bool-cases (has pte_v (m (slot q (suc level) va)))) [
          | inl valid ↦
              let down = t.child q (px (suc level) va) level h (px_small (suc level) va) valid in
              rw (same, valid) (entry_of_same level (pte2pa (m (slot q (suc level) va))) va down)
          | inr stop ↦ rw (same, stop)
        ]
  ]

  abbrev pub height' : ℕ → ℕ
  height' = update height p (suc n)

  pub height'-ne : (q : ℕ) → q ≢ p → height' q ≡ height q
  height'-ne q ne = ground arith

  pub height'-self : height' p ≡ suc n
  height'-self = ground arith

  -- a valid entry of the new tree is the one hung in, or one of the old tree
  data Source (q j k : ℕ) : Type 0 where
    hung_here : q ≡ pt → j ≡ i → k ≡ n → pte2pa (m' (q + 8 * j)) ≡ p → Source q j k
    was_there :
        height q ≡ suc (suc k)
        → m' (q + 8 * j) ≡ m (q + 8 * j)
        → has pte_v (m (q + 8 * j)) ≡ true
        → Source q j k

  source :
      (q j k : ℕ)
      → height' q ≡ suc (suc k)
      → j < 512
      → has pte_v (m' (q + 8 * j)) ≡ true
      → Source q j k
  source q j k h lj valid = elim (ℕ_discrete q p) [
    | yes e ↦
        let empty : m' (q + 8 * j) ≡ 0 = rw e (word_new j lj) in
        let clash : has pte_v (m' (q + 8 * j)) ≡ false = rw empty refl in cc
    | no far ↦
        let hq : height q ≡ suc (suc k) = sym (height'-ne q far) ∙ h in
        let q_al : q % 4096 ≡ 0 = (t.page q (omega arith)).0 in
        elim (ℕ_discrete (q + 8 * j) (pt + 8 * i)) [
          | yes e ↦
              let (eq, ej) = slot_apart q pt j i q_al pt_al lj li e in
              hung_here eq ej (omega (arith, ap height eq)) (rw e hung-pte2pa)
          | no ne ↦
              let same = word_same q j (omega arith) lj ne in was_there hq same (rw (← same) valid)
        ]
  ]

  -- where a valid entry of the old tree leads, there was a table before
  old_target :
      (q j k : ℕ)
      → height q ≡ suc (suc k)
      → j < 512
      → has pte_v (m (q + 8 * j)) ≡ true
      → (pte2pa (m (q + 8 * j)) ≢ p) × (height' (pte2pa (m (q + 8 * j))) ≡ suc k)
  old_target q j k h lj valid =
      let down = t.child q j k h lj valid in
      let far : pte2pa (m (q + 8 * j)) ≢ p = λ e. omega (arith, ap height e) in
      (far, height'-ne _ far ∙ down)

  child' : (q j k : ℕ) → j < 512 → Source q j k → height' (pte2pa (m' (q + 8 * j))) ≡ suc k
  child' q j k lj (hung_here eq ej ek down) = rw (down, ek) height'-self
  child' q j k lj (was_there h same valid) = rw same (old_target q j k h lj valid).1

  apart' :
      (q r j l k o : ℕ)
      → j < 512
      → l < 512
      → Source q j k
      → Source r l o
      → pte2pa (m' (q + 8 * j)) ≡ pte2pa (m' (r + 8 * l))
      → (q ≡ r) × (j ≡ l)
  apart' q r j l k o lj ll (hung_here a b c d) (hung_here a' b' c' d') e =
      (omega arith, omega arith)
  apart' q r j l k o lj ll (hung_here a b c d) (was_there h same valid) e =
      absurd ((old_target r l o h ll valid).0 (rw (← same) (sym e ∙ d)))
  apart' q r j l k o lj ll (was_there h same valid) (hung_here a b c d) e =
      absurd ((old_target q j k h lj valid).0 (rw (← same) (e ∙ d)))
  apart' q r j l k o lj ll (was_there h same valid) (was_there h' same' valid') e =
      t.apart q r j l k o h h' lj ll valid valid' (ap pte2pa (sym same) ∙ e ∙ ap pte2pa same')

  page' : (q : ℕ) → height' q ≢ 0 → (q % 4096 ≡ 0) × (0 < q) × (q < 2 ^ 56)
  page' q h = elim (ℕ_discrete q p) [
    | yes e ↦ rw e (al, pos, lt)
    | no far ↦ t.page q (λ z. h (height'-ne q far ∙ z))
  ]

  -- the tree with the new table is a tree
  pub grown-IsTable : IsTable m' root height'
  grown-IsTable = record {
    top = height'-ne root (λ e. omega (arith, t.top, ap height e)) ∙ t.top;
    page = page';
    child = λ q j k h lj valid. child' q j k lj (source q j k h lj valid);
    apart = λ q r j l k o h h' lj ll valid valid'.
        apart' q r j l k o lj ll (source q j k h lj valid) (source r l o h' ll valid');
  }
