-- ===== src/Memory/HugePage.antt =====
-- kernel/src/kernel.cpp, classes HugePageManager and NumaManager.
use uefi_boot_system.Prelude.{
  ℕ, ◌+◌, ◌-◌, ◌%◌, ◌^◌, Bool, true, false, not, ◌&&◌, ◌||◌, List, if◌then◌else◌, leb, ◌==◌,
  bit_and, get_or, set, replicate,
}
use uefi_boot_system.Memory.Pmm.{
  PhysicalMemory, allocate_page, free_page, allocate_aligned, free_contiguous,
}

abbrev pub huge_page_size : ℕ
huge_page_size = 0x200000

abbrev pub huge_page_pages : ℕ
huge_page_pages = 512

-- `attached` says that `m_PhysicalMemory` is not null.
unfoldable pub huge_allocate : Bool → PhysicalMemory → ℕ × PhysicalMemory
huge_allocate attached p =
    if attached then allocate_aligned huge_page_pages huge_page_pages p else (0, p)

unfoldable pub huge_free : Bool → ℕ → PhysicalMemory → PhysicalMemory
huge_free attached physical p =
    if attached && not (physical == 0) && (bit_and physical (huge_page_size - 1) == 0)
    then free_contiguous physical huge_page_pages p
    else p

pub record NumaNode : Type 0 where
  pub id : ℕ
  pub total_pages : ℕ
  pub free_pages : ℕ
  pub online : Bool

pub record Numa : Type 0 where
  pub attached : Bool
  pub nodes : List NumaNode
  pub node_count : ℕ

abbrev pub numa_node_count : ℕ
numa_node_count = 4

abbrev pub no_node : NumaNode
no_node = record { id = 0; total_pages = 0; free_pages = 0; online = false }

unfoldable pub numa_init : PhysicalMemory → Numa
numa_init p = record {
  attached = true;
  nodes =
      set (replicate numa_node_count no_node) 0
        (record { id = 0; total_pages = p.total_pages; free_pages = p.free_pages; online = true });
  node_count = 1;
}

unfoldable pub numa_allocate_page : ℕ → Numa → PhysicalMemory → ℕ × Numa × PhysicalMemory
numa_allocate_page preferred_node n p =
    let node = get_or n.nodes preferred_node no_node in
    if not n.attached || leb n.node_count preferred_node || not node.online
    then (0, n, p)
    else let (page, p') = allocate_page p in
      (
        page,
        if not (page == 0) && not (node.free_pages == 0)
            then record n {
              nodes = set n.nodes preferred_node (record node { free_pages = node.free_pages - 1 });
            }
            else n,
        p',
      )

unfoldable pub numa_free_page : ℕ → ℕ → Numa → PhysicalMemory → Numa × PhysicalMemory
numa_free_page node physical n p =
    let v = get_or n.nodes node no_node in
    if not n.attached || physical == 0 || leb n.node_count node then (n, p) else (
      record n { nodes = set n.nodes node (record v { free_pages = (v.free_pages + 1) % 2 ^ 64 }) },
      free_page physical p,
    )
