-- ===== src/Examples/Heaps.antt =====
-- The theorems on the allocator, at a concrete heap.
use ez_rtos.Kmalloc.Clear.{IsCleared, kcalloc-IsCleared}
use ez_rtos.Kmalloc.Split.{kmalloc-OneLarger}
use ez_rtos.Kmalloc.Free.Ends.{kmalloc-ends}
use ez_rtos.Kmalloc.{Heap, set_header, kmalloc, kcalloc}
use ez_rtos.Kmalloc.Free.{kfree}
use ez_rtos.Kmalloc.Free.Reuse.{kfree-kmalloc, kmalloc_twice}
use ez_rtos.Base.{
  ◌+◌, ◌-◌, ◌≤◌, ◌≡◌, refl, none, some, [], ◌∷◌, arith, ◌==◌, if◌then◌else◌, Ptr, null,
}

-- A heap from 2000 down to 1000, with nothing allocated.
abbrev fresh : Heap
fresh = record {
  param = record {
    kmalloc_heap_start = 2000;
    kmalloc_heap_end = 1000;
    kmalloc_break = 2000;
    freelist_head = null;
  };
  header = λ q. record { size = 0; next = null };
  bytes = λ q. 0;
}

kfree-kmalloc_example :
    (p : Ptr) × (h' : Heap) × (kmalloc 1 32 fresh ≡ some (p, h'))
    × (1004 ≤ p)
    × (p + 32 ≤ 2000)
    × (h'.param.kmalloc_break ≡ p - 4)
    × (kfree 1 p h' ≡ some (set_header (p - 4) (record { size = 0; next = null }) fresh))
kfree-kmalloc_example = kfree-kmalloc 0 0 32 fresh (record {
  none_free = refl;
  above_zero = omega arith;
  room = omega arith;
  break_in = omega arith;
  word = omega arith;
})

-- Pieces of 24 and 16 bytes at 1500 and 1200 are free.
abbrev two_free : Heap
two_free = record fresh {
  param = record (fresh.param) { kmalloc_break = 1100; freelist_head = 1500 };
  header = λ q.
      if q == 1500
      then record { size = 24; next = 1200 }
      else if q == 1200
      then record { size = 16; next = null }
      else record { size = 0; next = null };
}

kmalloc_twice_example :
    (h' : Heap) × (kmalloc 2 16 two_free ≡ some (1204, h')) × (kmalloc 2 16 h' ≡ some (1204, h'))
kmalloc_twice_example = kmalloc_twice 0 16 1500 1200 two_free (record {
  head = refl;
  linked = refl;
  first_differs = omega arith;
  second_fits = refl;
  ne_null = (omega arith, omega arith);
  apart = omega arith;
})

kmalloc-ends_example :
    ((r : Ptr × Heap) × (kmalloc 3 8 two_free ≡ some r))
    × ((h' : Heap) × (kfree 3 1804 two_free ≡ some h'))
kmalloc-ends_example =
    kmalloc-ends 3 8 1804 two_free (1500 ∷ 1200 ∷ []) (refl, omega arith, (refl, omega arith, refl))
      (omega arith)

abbrev one_free : Heap
one_free = record two_free {
  header = λ q.
      if q == 1500 then record { size = 24; next = null } else record { size = 0; next = null };
}

kmalloc-OneLarger_example :
    (p : Ptr) × (h' : Heap) × (kmalloc 2 8 one_free ≡ some (p, h'))
    × (1504 + (h'.header 1500).size + 4 ≡ p)
    × (p + 8 ≡ 1528)
    × (h'.header (p - 4) ≡ record { size = 8; next = null })
    × ((h'.header 1500).next ≡ null)
    × (h'.param ≡ one_free.param)
kmalloc-OneLarger_example = kmalloc-OneLarger 0 8 one_free 1500 (record {
  head = refl;
  alone = refl;
  ne_null = omega arith;
  larger = omega arith;
  word = omega arith;
})

-- The heap after 32 bytes have been allocated, for 8 items of 4 bytes each.
abbrev with_items : Heap
with_items = elim (kmalloc 1 32 fresh) [ none ↦ fresh | some (_, h0) ↦ h0 ]

kcalloc-IsCleared_example :
    (h' : Heap) × (kcalloc 1 8 4 fresh ≡ some (1968, h')) × IsCleared with_items 32 1968 h'
unfolding kmalloc
kcalloc-IsCleared_example = kcalloc-IsCleared 1 8 4 fresh with_items 1968 refl (omega arith)
