-- ===== src/Kernel/Vmm/Confined.antt =====
-- What a change of one address space leaves alone: the other address spaces, and the contents of the
-- pages that are no tables.
use huster_experiment_pke.Base.{
  ℕ, ◌%◌, ◌≡◌, ◌≢◌, refl, sym, ◌∙◌, ap, arith, List, ◌∉◌, Option, none, some,
}
use huster_experiment_pke.Kernel.Memory.{Mem, store, store_ne}
use huster_experiment_pke.Kernel.Vmm.Table.{entry_of, IsTable}
use huster_experiment_pke.Kernel.Vmm.Extend.{
  Extends, page_of, still_none, leaf_of, word_at, entry_of-leaf_of, leaf_table, leaf_of_inj,
}
use huster_experiment_pke.Kernel.Vmm.Leaf.{leaf_of-store}

-- Tables stay tables; the other roots translate as before; a page that is no table keeps its words;
-- and an allocated page does not become a table, or free.
pub record Confined (root : ℕ) (m : Mem) (h : ℕ → ℕ) (free : List ℕ) (m' : Mem) (h' : ℕ → ℕ)
    (free' : List ℕ) : Type 0 where
  pub heights : (q : ℕ) → h q ≢ 0 → h' q ≡ h q
  pub others : (r va : ℕ) → h r ≡ 3 → r ≢ root → entry_of 2 m' r va ≡ entry_of 2 m r va
  pub contents : (x : ℕ) → h (page_of x) ≡ 0 → h' (page_of x) ≡ 0 → m' x ≡ m x
  pub untouched : (x : ℕ) → h x ≡ 0 → x ∉ free → (h' x ≡ 0) × (x ∉ free')

pub Confined-refl :
    (root : ℕ) (m : Mem) (h : ℕ → ℕ) (free : List ℕ) → Confined root m h free m h free
Confined-refl root m h free = record {
  heights = λ q n. refl;
  others = λ r va top far. refl;
  contents = λ x z z'. refl;
  untouched = λ x z out. (z, out);
}

pub Confined-trans :
    {root : ℕ} {m m' m'' : Mem} {h h' h'' : ℕ → ℕ} {free free' free'' : List ℕ}
    → Confined root m h free m' h' free'
    → Confined root m' h' free' m'' h'' free''
    → Confined root m h free m'' h'' free''
Confined-trans {root} {m} {m'} {m''} {h} {h'} {h''} a b = record {
  heights = λ q n. b.heights q (λ e. n (sym (a.heights q n) ∙ e)) ∙ a.heights q n;
  others = λ r va top far.
      b.others r va (a.heights r (λ z. omega arith) ∙ top) far ∙ a.others r va top far;
  contents = λ x z z'.
      let between = still_none h' h'' (page_of x) b.heights z' in
      b.contents x between z' ∙ a.contents x z between;
  untouched = λ x z out. let (z', out') = a.untouched x z out in b.untouched x z' out';
}

pub Extends-Confined :
    (root : ℕ) {m m' : Mem} {h h' : ℕ → ℕ} {free free' : List ℕ}
    → Extends m h free m' h' free'
    → Confined root m h free m' h' free'
Extends-Confined root e = record {
  heights = e.heights;
  others = λ r va top far. e.meaning 2 r va top;
  contents = e.contents;
  untouched = e.untouched;
}

module _ (m : Mem) (root : ℕ) (h : ℕ → ℕ) (t : IsTable m root h) (va a v : ℕ)
    (leaf : leaf_of 2 m root va ≡ some a) where
  -- a leaf entry is reached from one root only
  other_word :
      (r vb : ℕ) (o : Option ℕ)
      → h r ≡ 3
      → r ≢ root
      → leaf_of 2 m r vb ≡ o
      → word_at (store m a v) o ≡ word_at m o
  other_word r vb none top far e = refl
  other_word r vb (some b) top far e =
      store_ne m a v b
        (λ eq. far (leaf_of_inj m root h t 2 r root vb va a top t.top (e ∙ ap some eq) leaf).0)

  other_root : (r vb : ℕ) → h r ≡ 3 → r ≢ root → entry_of 2 (store m a v) r vb ≡ entry_of 2 m r vb
  other_root r vb top far =
      rw
        (
          entry_of-leaf_of 2 (store m a v) r vb,
          entry_of-leaf_of 2 m r vb,
          leaf_of-store m root h t va a v leaf 2 r vb top,
        )
        (other_word r vb (leaf_of 2 m r vb) top far refl)

  leaf_apart : (x : ℕ) → h (page_of x) ≡ 0 → x ≢ a
  leaf_apart x z e =
      let (r, hr, place) = leaf_table m root h t 2 root va a t.top leaf in
      let al : r % 4096 ≡ 0 = (t.page r (omega arith)).0 in
      let same : page_of x ≡ r = omega arith in omega (arith, ap h same)

  -- a write to a leaf entry
  pub store-Confined : (free : List ℕ) → Confined root m h free (store m a v) h free
  store-Confined free = record {
    heights = λ q n. refl;
    others = other_root;
    contents = λ x z z'. store_ne m a v x (leaf_apart x z);
    untouched = λ x z out. (z, out);
  }
