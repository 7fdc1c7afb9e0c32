-- ===== src/Kernel/Trap.antt =====
-- The page-fault cases of kernel/strap.c: a store to a shared page that is copied on write, and the
-- stack and the heap that get their pages when they are touched.
mod Tests
pub mod Cow
pub mod Faults
use huster_experiment_pke.Base.{
  ℕ, ◌+◌, ◌-◌, ◌*◌, ◌/◌, ◌%◌, ◌^◌, Bool, true, false, not, ◌&&◌, ◌||◌, arith, ltb, leb, ◌==◌,
  if◌then◌else◌, Option, none, some, bit_and, bit_or,
}
use huster_experiment_pke.Base.Run.{Run, ok, killed, fault, done, Cmd, and_then}
use huster_experiment_pke.Base.Word.{u64, u64_mod, round_down}
use huster_experiment_pke.Kernel.Memory.{Mem, store}
use huster_experiment_pke.Kernel.Pmm.{Pmm, alloc_page, get_page_ref, dec_page_ref}
use huster_experiment_pke.Kernel.Vmm.{
  has, pte_v, pte_cow, pa2pte, pte2pa, prot_to_type, user_vm_map, user_vm_get_pte,
}

-- the fields of process_t that a page fault reads; `heap_top` is user_heap.heap_top
pub record Space : Type 0 where
  pub pagetable : ℕ
  pub size : ℕ
  pub heap_top : ℕ

abbrev pub user_stack_top : ℕ
user_stack_top = 0x7ffff000

-- `USER_STACK_TOP - current[tp]->size`, on uint64
abbrev pub stack_limit : Space → ℕ
stack_limit t = u64 (user_stack_top + u64_mod - t.size)

-- PROT_READ | PROT_WRITE
abbrev pub read_write : ℕ
read_write = 3

-- memcpy(dst, src, PGSIZE) of pages; a null pointer is no page
abbrev pub copy_page : ℕ → ℕ → Mem → Mem
copy_page dst src m x = if leb dst x && ltb x (dst + 4096) then m (src + (x - dst)) else m x

-- the entry for a private page at `new_pa`
abbrev pub private_entry : ℕ → ℕ
private_entry new_pa = bit_or (bit_or (pa2pte new_pa) (prot_to_type read_write true)) 1

-- the private copy, and its entry at `a`
copy_to : ℕ → ℕ → ℕ → Cmd Pmm (Unit {0})
copy_to a pa new_pa s =
    if new_pa == 0
    then fault
    else dec_page_ref pa
        (record s { mem = store (copy_page new_pa pa s.mem) a (private_entry new_pa) })

-- the entry of a page with one owner: writable again, and no longer marked
abbrev pub owned_entry : ℕ → ℕ
owned_entry pte = bit_and (bit_or (bit_or pte 4) 128) (2 ^ 64 - 1 - 256)

-- a store to the page behind the marked entry at `a`
unfoldable pub break_cow : ℕ → Cmd Pmm (Unit {0})
unfolding copy_to
break_cow a s =
    let pa = pte2pa (s.mem a) in
    if ltb 1 (get_page_ref s pa)
    then and_then (alloc_page s) (copy_to a pa)
    else done (record s { mem = store s.mem a (owned_entry (s.mem a)) })

-- a page handed out for the page of the fault
unfoldable pub map_new : Space → ℕ → Cmd Pmm (Unit {0})
map_new t va_page s =
    and_then (alloc_page s)
      (λ pa s₁. user_vm_map t.pagetable va_page 4096 pa (prot_to_type read_write true) s₁)

-- the store is to no marked page
unfoldable pub grow : Space → ℕ → Cmd Pmm (Unit {0})
unfolding map_new
grow t fault_va s =
    if ltb user_stack_top fault_va
    then killed s
    else (if leb fault_va user_stack_top && ltb (stack_limit t) fault_va
        then map_new t (round_down fault_va) s
        else (if leb fault_va (stack_limit t) && leb t.heap_top fault_va
            then killed s
            else map_new t (round_down fault_va) s))

fault_by : Space → ℕ → Option ℕ → Cmd Pmm (Unit {0})
fault_by t fault_va none s = grow t fault_va s
fault_by t fault_va (some a) s =
    if has pte_v (s.mem a) && has pte_cow (s.mem a) then break_cow a s else grow t fault_va s

-- `case CAUSE_STORE_PAGE_FAULT` of smode_trap_handler
unfoldable pub store_page_fault : Space → ℕ → Cmd Pmm (Unit {0})
unfolding fault_by
store_page_fault t fault_va s =
    and_then (user_vm_get_pte t.pagetable (round_down fault_va) s) (fault_by t fault_va)

abbrev pub cause_store_page_fault : ℕ
cause_store_page_fault = 15

-- smode_trap_handler calls it for CAUSE_LOAD_PAGE_FAULT, 13
unfoldable pub handle_user_page_fault : Space → ℕ → ℕ → Cmd Pmm (Unit {0})
unfolding map_new
handle_user_page_fault t mcause stval s =
    if mcause == cause_store_page_fault
    then (if ltb user_stack_top stval
        then killed s
        else (if leb stval user_stack_top && ltb (stack_limit t) stval
            then map_new t (round_down stval) s
            else (if leb stval (stack_limit t) && leb t.heap_top stval then killed s else done s)))
    else done s
