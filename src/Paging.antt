-- ===== src/Paging.antt =====
-- Page directories and page tables of mem/paging.h. A directory and a table are 1024 words in
-- memory, at the address by which the source points to them. Loading cr3 and cr0, the page fault
-- handler, which only prints and dies, and the code behind the `return` at the head of
-- `paging_init` are left out, and so are the `printf` calls.
pub mod Entry
pub mod Walk
pub mod Page
pub mod Fresh
pub mod Map
pub mod Range
mod Tests
use owmice.Base.{
  ℕ, zero, suc, ◌+◌, ◌-◌, ◌*◌, ◌/◌, ◌%◌, ◌^◌, bit_and, bit_or, Bool, true, false, not, ◌==◌,
  if◌then◌else◌, Outcome, done, died, status_nomem, and_then,
}
use owmice.Memory.{Memory, load32, store32}
use owmice.Bytes.{memset}
use owmice.Frames.{Frames, alloc_block}

abbrev u32 : ℕ → ℕ
u32 n = n % 2 ^ 32

-- `~p` on 32 bits.
abbrev complement : ℕ → ℕ
complement p = 2 ^ 32 - 1 - p

abbrev pub page_size : ℕ
page_size = 4096

abbrev pub pages_per_table : ℕ
pages_per_table = 1024

abbrev pub page_present : ℕ
page_present = 1

abbrev pub page_writable : ℕ
page_writable = 2

abbrev pub page_user : ℕ
page_user = 4

abbrev pub page_4mb : ℕ
page_4mb = 0x80

-- `PAGE_FRAME` and `PDE_FRAME`.
abbrev pub page_frame : ℕ
page_frame = 0x7FFFF000

pub pagedir_idx : ℕ → ℕ
pagedir_idx x = bit_and (x / 2 ^ 22) 0x3ff

pub pagetable_idx : ℕ → ℕ
pagetable_idx x = bit_and (x / 2 ^ 12) 0x3ff

-- `PAGE_ADDR` of the entry that was read.
pub page_addr : ℕ → ℕ
page_addr entry = bit_and entry (complement 0xfff)

-- The operations on an entry of a table.
pub page_set_property : ℕ → ℕ → ℕ
page_set_property e property = bit_or e property

pub page_del_property : ℕ → ℕ → ℕ
page_del_property e property = bit_and e (complement property)

pub page_set_frame : ℕ → ℕ → ℕ
page_set_frame e addr = bit_or (bit_and e (complement page_frame)) addr

pub page_is_present : ℕ → Bool
page_is_present e = not (bit_and e page_present == 0)

pub page_is_writable : ℕ → Bool
page_is_writable e = not (bit_and e page_writable == 0)

pub page_pfn : ℕ → ℕ
page_pfn e = bit_and e page_frame

-- The operations on an entry of a directory; the constants have the same values.
pub table_add_property : ℕ → ℕ → ℕ
table_add_property e property = bit_or e property

pub table_del_property : ℕ → ℕ → ℕ
table_del_property e property = bit_and e (complement property)

pub table_set_frame : ℕ → ℕ → ℕ
table_set_frame e addr = bit_or (bit_and e (complement page_frame)) addr

pub table_is_present : ℕ → Bool
table_is_present e = not (bit_and e page_present == 0)

pub table_is_writable : ℕ → Bool
table_is_writable e = not (bit_and e page_writable == 0)

pub table_pfn : ℕ → ℕ
table_pfn e = bit_and e page_frame

pub table_is_user : ℕ → Bool
table_is_user e = not (bit_and e page_user == 0)

pub table_is_4mb : ℕ → Bool
table_is_4mb e = not (bit_and e page_4mb == 0)

-- The frame allocator, the memory and `dir_current`.
pub record Paging : Type 0 where
  pub frames : Frames
  pub memory : Memory
  pub dir_current : ℕ

pub get_page : ℕ → ℕ → ℕ
get_page p addr = if p == 0 then 0 else p + 4 * pagetable_idx addr

pub get_pagetable : Memory → ℕ → ℕ → ℕ
get_pagetable m p addr = if p == 0 then 0 else page_addr (load32 m (p + 4 * pagedir_idx addr))

pub current_page : Paging → ℕ → ℕ
current_page s addr = get_page (get_pagetable s.memory s.dir_current addr) addr

pub switch_directory : Paging → ℕ → Bool × Paging
switch_directory s dir = if dir == 0 then (false, s) else (true, record s { dir_current = dir })

-- A present, writable entry for a frame, over what the entry held.
pub make_entry : ℕ → ℕ → ℕ
make_entry e frame =
    page_set_property (page_set_property (page_set_frame e frame) page_present) page_writable

-- What `map_page` and `map_table` write into the directory's entry: the properties, then the frame.
pub link_table : ℕ → ℕ → ℕ
link_table e table =
    table_set_frame (table_add_property (table_add_property e page_present) page_writable) table

-- The cleared table that a directory gets where it has none.
pub new_table : Paging → Outcome (ℕ × Paging)
new_table s = and_then (alloc_block s.frames) (λ (table, frames).
    if table == 0
    then died status_nomem
    else done (
      table,
      record s { frames = frames; memory = memset s.memory table 0 (4 * pages_per_table) },
    ))

pub has_table : ℕ → Bool
has_table e = bit_and e page_present == page_present

-- The first half of `map_page`: the directory has a table for the address.
pub ensure_table : Paging → ℕ → Outcome Paging
ensure_table s virt =
    let slot = s.dir_current + 4 * pagedir_idx virt in
    if has_table (load32 s.memory slot)
    then done s
    else and_then (new_table s) (λ (table, s).
      done (record s { memory = store32 s.memory slot (link_table (load32 s.memory slot) table) }))

-- The second half: the page's entry in the table.
pub set_page : Paging → ℕ → ℕ → Paging
set_page s phys virt =
    let m = s.memory in
    let table = page_addr (load32 m (s.dir_current + 4 * pagedir_idx virt)) in
    let slot = table + 4 * pagetable_idx virt in
    record s { memory = store32 m slot (make_entry (load32 m slot) phys) }

pub map_page : Paging → ℕ → ℕ → Outcome Paging
map_page s phys virt = and_then (ensure_table s virt) (λ s. done (set_page s phys virt))

pub map_pages : ℕ → Paging → ℕ → ℕ → Outcome Paging
map_pages zero s phys virt = done s
map_pages (suc amt) s phys virt =
    and_then (map_page s phys virt)
      (λ s. map_pages amt s (u32 (phys + page_size)) (u32 (virt + page_size)))

pub size_to_pages : ℕ → ℕ
size_to_pages sz =
    let res = u32 (bit_and sz 0xFFFFF000 + 0x1000) / page_size in if res == 0 then 1 else res

-- The loop of `map_table`.
pub fill_table : ℕ → Memory → ℕ → ℕ → ℕ → Memory
fill_table zero m table frame virt = m
fill_table (suc left) m table frame virt =
    let page =
      page_set_frame (page_set_property (page_set_property 0 page_present) page_writable) frame in
    fill_table left (store32 m (table + 4 * pagetable_idx virt) page) table
      (u32 (frame + page_size)) (u32 (virt + page_size))

pub map_table : Paging → ℕ → ℕ → Outcome Paging
map_table s phys virt =
    let slot = s.dir_current + 4 * pagedir_idx virt in
    if has_table (load32 s.memory slot)
    then done s
    else and_then (new_table s) (λ (table, s).
      let m = fill_table 1024 s.memory table phys virt in
      done (record s { memory = store32 m slot (link_table (load32 m slot) table) }))

pub map_tables : ℕ → Paging → ℕ → ℕ → Outcome Paging
map_tables zero s phys virt = done s
map_tables (suc amt) s phys virt =
    let step = page_size * pages_per_table in
    and_then (map_table s phys virt) (λ s. map_tables amt s (u32 (phys + step)) (u32 (virt + step)))

pub size_to_tables : ℕ → ℕ
size_to_tables sz =
    let res = u32 (0x1000 + bit_and sz 0xFFFFF000) / (pages_per_table * page_size) in
    if res == 0 then 1 else res

-- `alloc_page` on the entry at `e`.
pub alloc_page : Paging → ℕ → Outcome (Bool × Paging)
alloc_page s e = and_then (alloc_block s.frames) (λ (p, frames).
    if p == 0
    then done (false, record s { frames = frames })
    else done (
      true,
      record s { frames = frames; memory = store32 s.memory e (make_entry (load32 s.memory e) p) },
    ))

pub free_page : Paging → ℕ → Paging
free_page s virt =
    let m = s.memory in
    let table = page_addr (load32 m (s.dir_current + 4 * pagedir_idx virt)) in
    let slot = table + 4 * pagetable_idx virt in
    record s { memory = store32 m slot (page_del_property (load32 m slot) page_present) }
