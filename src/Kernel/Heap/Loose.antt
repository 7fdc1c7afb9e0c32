-- ===== src/Kernel/Heap/Loose.antt =====
-- Moving blocks between the lists keeps them apart.
use huster_experiment_pke.Base.{
  ℕ, ◌+◌, ◌^◌, ◌≤◌, ◌<◌, ◌≡◌, sym, arith, List, [], ◌∷◌, All, inl, inr,
}
use huster_experiment_pke.Base.Word.{u64}
use huster_experiment_pke.Kernel.Heap.{Block, Heap, push_free, push_used, bump}
use huster_experiment_pke.Kernel.Heap.Blocks.{
  Apart, Below, IsHeap, SameBlocks, Removed, Removed-All, Removed-AllApart, Apart-sym,
}

-- a block that is in no list, and could be in any
pub record Loose (b : Block) (h : Heap) : Type 0 where
  pub with_used : All (Apart b) h.malloc_list
  pub with_unused : All (Apart b) h.malloc_free_list
  pub below : Below h.heap_top b

pub SameBlocks-IsHeap : {h h' : Heap} → SameBlocks h h' → IsHeap h → IsHeap h'
SameBlocks-IsHeap e v = record {
  used = rw e.used v.used;
  unused = rw e.unused v.unused;
  apart = rw (e.used, e.unused) v.apart;
  used_below = rw (e.top, e.used) v.used_below;
  unused_below = rw (e.top, e.unused) v.unused_below;
}

pub SameBlocks-Loose : {h h' : Heap} (b : Block) → SameBlocks h h' → Loose b h → Loose b h'
SameBlocks-Loose b e l = record {
  with_used = rw e.used l.with_used;
  with_unused = rw e.unused l.with_unused;
  below = rw e.top l.below;
}

pub push_free-IsHeap : (b : Block) (h : Heap) → IsHeap h → Loose b h → IsHeap (push_free b h)
push_free-IsHeap b h v l = record {
  used = v.used;
  unused = (l.with_unused, v.unused);
  apart = (l.with_used, v.apart);
  used_below = v.used_below;
  unused_below = (l.below, v.unused_below);
}

-- a new block in the list of the used ones
add_used :
    (b : Block) (used xs : List Block)
    → All (Apart b) xs
    → All (λ c. All (Apart c) used) xs
    → All (λ c. All (Apart c) (b ∷ used)) xs
add_used b used [] l all = tt
add_used b used (x ∷ xs) l all = ((Apart-sym b x l.0, all.0), add_used b used xs l.1 all.1)

pub push_used-IsHeap : (b : Block) (h : Heap) → IsHeap h → Loose b h → IsHeap (push_used b h)
push_used-IsHeap b h v l = record {
  used = (l.with_used, v.used);
  unused = v.unused;
  apart = add_used b h.malloc_list h.malloc_free_list l.with_unused v.apart;
  used_below = (l.below, v.used_below);
  unused_below = v.unused_below;
}

-- a part of a block
abbrev pub Inside : Block → Block → Type 0
Inside a b = (b.va ≤ a.va) × (a.va + a.size ≤ b.va + b.size)

All-Inside : (a b : Block) (xs : List Block) → Inside a b → All (Apart b) xs → All (Apart a) xs
All-Inside a b [] i all = tt
All-Inside a b (x ∷ xs) i all = (one all.0, All-Inside a b xs i all.1)
  where
    one : Apart b x → Apart a x
    one (inl e) = inl (omega (arith, i))
    one (inr e) = inr (omega (arith, i))

pub Loose-Inside : (a b : Block) (h : Heap) → Inside a b → Loose b h → Loose a h
Loose-Inside a b h i l = record {
  with_used = All-Inside a b h.malloc_list i l.with_used;
  with_unused = All-Inside a b h.malloc_free_list i l.with_unused;
  below = omega (arith, l.below, i);
}

abbrev pub without : Heap → List Block → Heap
without h os = record h { malloc_free_list = os }

-- a block taken off the free list is loose
pub Removed-Loose :
    (h : Heap) {b : Block} {os : List Block}
    → IsHeap h
    → Removed b os h.malloc_free_list
    → IsHeap (without h os) × Loose b (without h os)
Removed-Loose h {b} {os} v r =
    let (with_unused, unused) = Removed-AllApart r v.unused in
    let (with_used, apart) = Removed-All (λ c. All (Apart c) h.malloc_list) r v.apart in
    let (below, unused_below) = Removed-All (Below h.heap_top) r v.unused_below in
    (
      record {
        used = v.used;
        unused = unused;
        apart = apart;
        used_below = v.used_below;
        unused_below = unused_below;
      },
      record { with_used = with_used; with_unused = with_unused; below = below },
    )

All-above :
    (b : Block) (top : ℕ) (xs : List Block) → b.va ≡ top → All (Below top) xs → All (Apart b) xs
All-above b top [] e all = tt
All-above b top (x ∷ xs) e all = (inr (omega (arith, all.0)), All-above b top xs e all.1)

All-raise : (top more : ℕ) (xs : List Block) → top ≤ more → All (Below top) xs → All (Below more) xs
All-raise top more [] le all = tt
All-raise top more (x ∷ xs) le all = (omega (arith, all.0), All-raise top more xs le all.1)

-- the block at the top of the heap
pub bump-IsHeap :
    (node va size : ℕ) (h : Heap)
    → IsHeap h
    → h.heap_top ≡ va
    → va + size < 2 ^ 64
    → IsHeap (bump node va size h)
bump-IsHeap node va size h v e lt =
    let b : Block = record { page = node; va = va; size = size } in
    let sum : u64 (va + size) ≡ va + size = omega arith in
    let raised : IsHeap (record h { heap_top = u64 (va + size) }) = record {
      used = v.used;
      unused = v.unused;
      apart = v.apart;
      used_below = All-raise h.heap_top (u64 (va + size)) h.malloc_list (omega arith) v.used_below;
      unused_below =
          All-raise h.heap_top (u64 (va + size)) h.malloc_free_list (omega arith) v.unused_below;
    } in
    push_used-IsHeap b (record h { heap_top = u64 (va + size) }) raised
      (record {
        with_used = All-above b h.heap_top h.malloc_list (sym e) v.used_below;
        with_unused = All-above b h.heap_top h.malloc_free_list (sym e) v.unused_below;
        below = omega arith;
      })
