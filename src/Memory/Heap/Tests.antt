-- ===== src/Memory/Heap/Tests.antt =====
-- The heap's theorem at a concrete input.
use uefi_boot_system.Prelude.{◌≡◌, refl, ◌^◌, ◌-◌, arith}
use uefi_boot_system.Memory.Pmm.{align_up, align_down}
use uefi_boot_system.Memory.Heap.{
  KernelHeap, IsHeap, Allocates, heap_allocate, heap_allocate-Allocates,
}

abbrev some_heap : KernelHeap
some_heap = record { start = 0x200000; current = 0x200008; finish = 0x280000 }

some_heap-IsHeap : IsHeap some_heap
some_heap-IsHeap = record { used = omega arith; inside = omega arith }

heap_allocate-Allocates_example :
    Allocates 4 60 refl 8192 some_heap (heap_allocate 8192 (2 ^ 4) some_heap)
heap_allocate-Allocates_example =
    heap_allocate-Allocates 4 60 refl 8192 some_heap some_heap-IsHeap (omega arith) (omega arith)

-- A size near 2 to the 64 wraps around: the call answers a block, and the end moves back.
wraps :
    heap_allocate (2 ^ 64 - 16) 16 some_heap
    ≡ (0x200010, record { start = 0x200000; current = 0x200000; finish = 0x280000 })
unfolding heap_allocate align_up align_down
wraps = refl
