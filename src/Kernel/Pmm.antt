-- ===== src/Kernel/Pmm.antt =====
-- kernel/pmm.c: physical pages with reference counts on a free list threaded through the pages.
-- Each function runs under `pmm_lock` and is one step here.
pub mod Chain
pub mod Laws
pub mod Sharing
pub mod Init
mod Tests
use huster_experiment_pke.Base.{
  ℕ, zero, suc, ◌+◌, ◌-◌, ◌*◌, ◌/◌, ◌%◌, Bool, true, false, not, ◌||◌, arith, ltb, leb, ◌==◌,
  if◌then◌else◌,
}
use huster_experiment_pke.Base.Run.{Run, ok, panic, killed, Cmd, and_then, ◌>>=◌, ◌>>◌, pure, done}
use huster_experiment_pke.Base.Word.{u64, u64_mod, round_up}
use huster_experiment_pke.Kernel.Memory.{Mem, store}

-- `head` is g_free_mem_list.next, 0 for NULL; a `list_node` is the first word of a free page.
-- `refs` is page_ref_count; PMM_MAX_PAGES is above what PKE_MAX_ALLOWABLE_RAM gives.
pub record Pmm : Type 0 where
  pub mem : Mem
  pub head : ℕ
  pub refs : ℕ → ℕ
  pub free_mem_start_addr : ℕ
  pub free_mem_end_addr : ℕ

abbrev pub page_index : Pmm → ℕ → ℕ
page_index s pa = (pa - s.free_mem_start_addr) / 4096

abbrev pub max_page_num : Pmm → ℕ
max_page_num s = (s.free_mem_end_addr - s.free_mem_start_addr) / 4096

abbrev pub set_ref : (ℕ → ℕ) → ℕ → ℕ → ℕ → ℕ
set_ref f i v j = if j == i then v else f j

abbrev pub out_of_range : Pmm → ℕ → Bool
out_of_range s pa = ltb pa s.free_mem_start_addr || leb s.free_mem_end_addr pa

-- `n->next = g_free_mem_list.next; g_free_mem_list.next = n`, when the count has come to 0
pub push : ℕ → Pmm → Pmm
push pa s =
    if s.refs (page_index s pa) == 0 then record s { mem = store s.mem pa s.head; head = pa } else s

pub drop_ref : ℕ → Pmm → Pmm
drop_ref i s = if s.refs i == 0 then s else record s { refs = set_ref s.refs i (s.refs i - 1) }

unfoldable pub free_page : ℕ → Cmd Pmm (Unit {0})
unfolding push drop_ref
free_page pa s =
    if not (pa % 4096 == 0) || out_of_range s pa
    then panic
    else (if leb (max_page_num s) (page_index s pa)
        then panic
        else done (push pa (drop_ref (page_index s pa) s)))

-- the count of the page handed out is set to 1, if its index is one of a managed page
claim : ℕ → Pmm → Pmm
claim pa s =
    if ltb (page_index s pa) (max_page_num s)
    then record s { refs = set_ref s.refs (page_index s pa) 1 }
    else s

unfoldable pub alloc_page : Cmd Pmm ℕ
unfolding claim
alloc_page s =
    if s.head == 0 then ok 0 s else ok s.head (claim s.head (record s { head = s.mem s.head }))

-- uint16_t: the count wraps
unfoldable pub inc_page_ref : ℕ → Cmd Pmm (Unit {0})
inc_page_ref pa s =
    if out_of_range s pa
    then done s
    else (if ltb (page_index s pa) (max_page_num s)
        then done (record s {
          refs = set_ref s.refs (page_index s pa) ((s.refs (page_index s pa) + 1) % 65536);
        })
        else done s)

unfoldable pub dec_page_ref : ℕ → Cmd Pmm (Unit {0})
dec_page_ref pa = free_page pa

unfoldable pub get_page_ref : Pmm → ℕ → ℕ
get_page_ref s pa =
    if out_of_range s pa
    then 0
    else (if ltb (page_index s pa) (max_page_num s) then s.refs (page_index s pa) else 0)

-- `for (p = ...; p + PGSIZE < end; p += PGSIZE) free_page(p)`, with fuel for the rounds
unfoldable pub free_pages_from : ℕ → ℕ → ℕ → Cmd Pmm (Unit {0})
free_pages_from zero p end s = done s
free_pages_from (suc fuel) p end s = elim (ltb (u64 (p + 4096)) end) [
  | true ↦ and_then (free_page p s) (λ _ s'. free_pages_from fuel (u64 (p + 4096)) end s')
  | false ↦ done s
]

-- the fuel is more than the number of pages below `end`
unfoldable pub create_freepage_list : ℕ → ℕ → Cmd Pmm (Unit {0})
create_freepage_list start end s =
    free_pages_from (end / 4096 + 1) (round_up start) end (record s { head = 0 })

abbrev pub kern_base : ℕ
kern_base = 0x80000000

abbrev pub dram_base : ℕ
dram_base = 0x80000000

-- 128 MB
abbrev pub pke_max_allowable_ram : ℕ
pke_max_allowable_ram = 134217728

-- `kernel_end` is the address of the linker's symbol `_end`, `g_mem_size` what the machine reports.
unfoldable pub pmm_init : ℕ → ℕ → Cmd Pmm (Unit {0})
pmm_init kernel_end g_mem_size s =
    let size = if ltb pke_max_allowable_ram g_mem_size then pke_max_allowable_ram else g_mem_size in
    let start = round_up kernel_end in
    if ltb size (u64 (kernel_end + u64_mod - kern_base))
    then panic
    else create_freepage_list start (size + dram_base)
        (record s { free_mem_start_addr = start; free_mem_end_addr = size + dram_base })
