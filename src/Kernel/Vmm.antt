-- ===== src/Kernel/Vmm.antt =====
-- kernel/vmm.c: three-level page tables (Sv39) in the words of physical memory. A `pagetable_t` is the
-- address of a page, a `pte_t *` the address of a word, and NULL is `none`.
pub mod Table
mod Tests
pub mod Example
pub mod Grow
pub mod Space
pub mod Extend
pub mod Walk
pub mod Leaf
pub mod Confined
pub mod Map
pub mod Entry
pub mod Foreign
pub mod Change
pub mod Pages
use huster_experiment_pke.Base.{
  ℕ, zero, suc, ◌+◌, ◌-◌, ◌*◌, ◌/◌, ◌%◌, ◌^◌, Bool, true, false, not, ◌&&◌, ◌||◌, Option, none,
  some, arith, ltb, leb, ◌==◌, if◌then◌else◌, bit_and, bit_or,
}
use huster_experiment_pke.Base.Bits.{bit}
use huster_experiment_pke.Base.Run.{Run, ok, killed, fault, done, Cmd, and_then}
use huster_experiment_pke.Base.Word.{u64, u64_mod, round_down}
use huster_experiment_pke.Kernel.Memory.{Mem, store}
use huster_experiment_pke.Kernel.Pmm.{
  Pmm, alloc_page, free_page, kern_base, dram_base, pke_max_allowable_ram,
}

-- the flags of an entry, by the place of their bit
abbrev pub pte_v : ℕ
pte_v = 0

abbrev pub pte_r : ℕ
pte_r = 1

abbrev pub pte_w : ℕ
pte_w = 2

abbrev pub pte_u : ℕ
pte_u = 4

abbrev pub pte_cow : ℕ
pte_cow = 8

-- `pte & PTE_...` as a test
abbrev pub has : ℕ → ℕ → Bool
has flag pte = bit flag pte == 1

abbrev pub pa2pte : ℕ → ℕ
pa2pte pa = u64 (pa / 4096 * 1024)

abbrev pub pte2pa : ℕ → ℕ
pte2pa pte = u64 (pte / 1024 * 4096)

-- PTE_FLAGS, the low ten bits
abbrev pub pte_flags : ℕ → ℕ
pte_flags pte = pte % 1024

abbrev pub maxva : ℕ
maxva = 2 ^ 38

-- PX(level, va), and the address of that entry of the table `pt`
abbrev pub px : ℕ → ℕ → ℕ
px zero va = va / 2 ^ 12 % 512
px (suc zero) va = va / 2 ^ 21 % 512
px (suc (suc level)) va = va / 2 ^ 30 % 512

abbrev pub slot : ℕ → ℕ → ℕ → ℕ
slot pt level va = pt + 8 * px level va

-- memset(pt, 0, PGSIZE) on a page
abbrev pub clear_page : Mem → ℕ → Mem
clear_page m p x = if leb p x && ltb x (p + 4096) then 0 else m x

-- a fresh table, unless no page is left, hung into the entry at `a`
abbrev pub hang : ℕ → ℕ → Cmd Pmm (Option ℕ)
hang a p s =
    if p == 0
    then ok none s
    else ok (some p) (record s { mem = store (clear_page s.mem p) a (bit_or (pa2pte p) 1) })

-- one round of the loop of page_walk: the next table, by the entry at `a`
unfoldable pub next_table : ℕ → Bool → Cmd Pmm (Option ℕ)
next_table a alloc s =
    if has pte_v (s.mem a)
    then ok (some (pte2pa (s.mem a))) s
    else (if alloc then and_then (alloc_page s) (hang a) else ok none s)

-- the rest of the walk from the table `pt` at `level`
unfoldable pub walk_from : ℕ → Option ℕ → ℕ → Bool → Cmd Pmm (Option ℕ)
walk_from level none va alloc s = ok none s
walk_from zero (some pt) va alloc s = ok (some (slot pt 0 va)) s
walk_from (suc level) (some pt) va alloc s =
    and_then (next_table (slot pt (suc level) va) alloc s) (λ o s'. walk_from level o va alloc s')

unfoldable pub page_walk : ℕ → ℕ → Bool → Cmd Pmm (Option ℕ)
unfolding walk_from next_table
page_walk page_dir va alloc s =
    if leb maxva va then killed s else walk_from 2 (some page_dir) va alloc s

-- `*pte = ...` and the tests of map_pages
set_entry : ℕ → Option ℕ → Cmd Pmm Bool
set_entry v none s = ok false s
set_entry v (some a) s =
    if has pte_v (s.mem a) then killed s else ok true (record s { mem = store s.mem a v })

-- the loop of map_pages over the pages from `first` to `last`; `true` is the return value 0
unfoldable pub map_loop : ℕ → ℕ → ℕ → ℕ → ℕ → ℕ → Cmd Pmm Bool
unfolding set_entry
map_loop zero page_dir first last pa perm s = fault
map_loop (suc fuel) page_dir first last pa perm s = elim (leb first last) [
  | false ↦ ok true s
  | true ↦ and_then (page_walk page_dir first true s) (λ o s₁.
      and_then (set_entry (bit_or (bit_or (pa2pte pa) perm) 1) o s₁) (λ fine s₂. elim fine [
        | false ↦ ok false s₂
        | true ↦ map_loop fuel page_dir (u64 (first + 4096)) last (u64 (pa + 4096)) perm s₂
      ]))
]

-- the fuel is above the number of pages touched; a loop that runs out of it faults
unfoldable pub map_pages : ℕ → ℕ → ℕ → ℕ → ℕ → Cmd Pmm Bool
unfolding map_loop
map_pages page_dir va size pa perm s =
    map_loop (size / 4096 + 3) page_dir (round_down va) (round_down (u64 (va + size + u64_mod - 1)))
      pa perm s

-- `PTE_R | PTE_A`, `PTE_W | PTE_D`, `PTE_X | PTE_A`, `PTE_R` and `PTE_U`
unfoldable pub prot_to_type : ℕ → Bool → ℕ
prot_to_type prot user =
    let r = if bit 0 prot == 1 then bit_or 2 64 else 0 in
    let w = if bit 1 prot == 1 then bit_or r (bit_or 4 128) else r in
    let x = if bit 2 prot == 1 then bit_or w (bit_or 8 64) else w in
    let perm = if x == 0 then 2 else x in if user then bit_or perm 16 else perm

found_pa : Option ℕ → Mem → ℕ
found_pa none m = 0
found_pa (some a) m =
    if not (has pte_v (m a)) || (not (has pte_r (m a)) && not (has pte_w (m a)))
    then 0
    else pte2pa (m a)

unfoldable pub lookup_pa : ℕ → ℕ → Cmd Pmm ℕ
unfolding found_pa
lookup_pa pagetable va s =
    if leb maxva va
    then ok 0 s
    else and_then (page_walk pagetable va false s) (λ o s'. ok (found_pa o s'.mem) s')

-- the 46 bits behind the flags, and the offset within the page
va_pa : Option ℕ → ℕ → Mem → ℕ
va_pa none va m = 0
va_pa (some a) va m =
    if not (has pte_v (m a))
    then 0
    else u64 (bit_and (m a / 1024) 0x3FFFFFFFFFFF * 4096 + va % 4096)

unfoldable pub user_va_to_pa : ℕ → ℕ → Cmd Pmm ℕ
unfolding va_pa
user_va_to_pa page_dir va s =
    and_then (page_walk page_dir va false s) (λ o s'. ok (va_pa o va s'.mem) s')

abbrev pub or_kill : Bool → Cmd Pmm (Unit {0})
or_kill fine s = if fine then done s else killed s

unfoldable pub user_vm_map : ℕ → ℕ → ℕ → ℕ → ℕ → Cmd Pmm (Unit {0})
user_vm_map page_dir va size pa perm s = and_then (map_pages page_dir va size pa perm s) or_kill

unfoldable pub kern_vm_map : ℕ → ℕ → ℕ → ℕ → ℕ → Cmd Pmm (Unit {0})
kern_vm_map page_dir va pa sz perm s = and_then (map_pages page_dir va sz pa perm s) or_kill

drop_page : Bool → ℕ → Cmd Pmm (Unit {0})
drop_page free pa s = if free then free_page pa s else done s

-- one page of user_vm_unmap
clear_entry : Bool → Option ℕ → Cmd Pmm (Unit {0})
unfolding drop_page
clear_entry free none s = killed s
clear_entry free (some a) s =
    if not (has pte_v (s.mem a))
    then killed s
    else (if pte_flags (s.mem a) == 1
        then killed s
        else and_then (drop_page free (pte2pa (s.mem a)) s)
            (λ _ s'. done (record s' { mem = store s'.mem a 0 })))

unfoldable pub unmap_loop : ℕ → ℕ → ℕ → ℕ → Bool → Cmd Pmm (Unit {0})
unfolding clear_entry
unmap_loop zero page_dir a end free s = fault
unmap_loop (suc fuel) page_dir a end free s = elim (ltb a end) [
  | false ↦ done s
  | true ↦ and_then (page_walk page_dir a false s) (λ o s₁.
      and_then (clear_entry free o s₁)
        (λ _ s₂. unmap_loop fuel page_dir (u64 (a + 4096)) end free s₂))
]

unfoldable pub user_vm_unmap : ℕ → ℕ → ℕ → Bool → Cmd Pmm (Unit {0})
unfolding unmap_loop
user_vm_unmap page_dir va size free s =
    if not (va % 4096 == 0)
    then killed s
    else unmap_loop (size / 4096 + 2) page_dir va (u64 (va + size)) free s

-- `(*pte & ~PTE_W) | PTE_COW`
abbrev pub cow_entry : ℕ → ℕ
cow_entry pte = bit_or (bit_and pte (2 ^ 64 - 1 - 4)) 256

set_cow : Option ℕ → Cmd Pmm (Unit {0})
set_cow none s = done s
set_cow (some a) s =
    if has pte_v (s.mem a)
    then done (record s { mem = store s.mem a (cow_entry (s.mem a)) })
    else done s

unfoldable pub user_vm_set_cow : ℕ → ℕ → Cmd Pmm (Unit {0})
unfolding set_cow
user_vm_set_cow page_dir va s = and_then (page_walk page_dir va false s) set_cow

unfoldable pub user_vm_get_pte : ℕ → ℕ → Cmd Pmm (Option ℕ)
user_vm_get_pte pagetable va = page_walk pagetable va false

-- `PTE_R | PTE_A | PTE_U | PTE_COW | PTE_V`
abbrev pub cow_perm : ℕ
cow_perm = 2 + 64 + 16 + 256 + 1

unfoldable pub cow_loop : ℕ → ℕ → ℕ → ℕ → ℕ → Cmd Pmm (Unit {0})
unfolding set_entry
cow_loop zero page_dir first last pa s = fault
cow_loop (suc fuel) page_dir first last pa s = elim (leb first last) [
  | false ↦ done s
  | true ↦ and_then (page_walk page_dir first true s) (λ o s₁.
      and_then (set_entry (bit_or (pa2pte pa) cow_perm) o s₁) (λ fine s₂. elim fine [
        | false ↦ done s₂
        | true ↦ cow_loop fuel page_dir (u64 (first + 4096)) last (u64 (pa + 4096)) s₂
      ]))
]

unfoldable pub user_vm_map_cow : ℕ → ℕ → ℕ → ℕ → Cmd Pmm (Unit {0})
unfolding cow_loop
user_vm_map_cow page_dir va size pa s =
    cow_loop (size / 4096 + 3) page_dir (round_down va) (round_down (u64 (va + size + u64_mod - 1)))
      pa s

-- the end of the memory that the kernel maps
abbrev pub phys_top : ℕ
phys_top = dram_base + pke_max_allowable_ram

-- the two direct mappings, in the new directory; `etext` is the address of the linker's symbol `_etext`
kern_maps : ℕ → ℕ → Cmd Pmm ℕ
kern_maps etext dir s =
    if dir == 0
    then fault
    else and_then
        (kern_vm_map dir kern_base dram_base (u64 (etext + u64_mod - kern_base))
          (prot_to_type 5 false) (record s { mem = clear_page s.mem dir }))
        (λ _ s₁.
          and_then
            (kern_vm_map dir etext etext (u64 (phys_top + u64_mod - etext)) (prot_to_type 3 false)
              s₁)
            (λ _ s₂. ok dir s₂))

-- the result is g_kernel_pagetable
unfoldable pub kern_vm_init : ℕ → Cmd Pmm ℕ
unfolding kern_maps
kern_vm_init etext s = and_then (alloc_page s) (kern_maps etext)
