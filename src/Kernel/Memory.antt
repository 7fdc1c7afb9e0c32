-- ===== src/Kernel/Memory.antt =====
-- Physical memory as 64-bit words. The kernel code modelled over it (the free list of
-- kernel/pmm.c, the page tables of kernel/vmm.c) reads and writes aligned words only.
use huster_experiment_pke.Base.{ℕ, ◌≡◌, ◌≢◌, arith, ◌==◌, if◌then◌else◌}

-- the word at each address that is a multiple of 8
abbrev pub Mem : Type 0
Mem = ℕ → ℕ

unfoldable pub store : Mem → ℕ → ℕ → Mem
store m a v x = if x == a then v else m x

pub store_self : (m : Mem) (a v : ℕ) → store m a v a ≡ v
unfolding store
store_self m a v = ground arith

pub store_ne : (m : Mem) (a v x : ℕ) → x ≢ a → store m a v x ≡ m x
unfolding store
store_ne m a v x h = ground arith
