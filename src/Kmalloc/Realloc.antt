-- ===== src/Kmalloc/Realloc.antt =====
-- krealloc of p2/rtos/kernel/others/kmalloc.c.
use mathlib.Core.Option
use ez_rtos.Kmalloc.{
  Heap, sizeof_heap_seg, segment_end, set_header, set_size, pointer_is_valid, write_seg_header,
  grow_kmalloc_break, kmalloc,
}
use ez_rtos.Kmalloc.Free.{kfree}
use ez_rtos.Kernel.Run.{copy_bytes}
use ez_rtos.Base.{
  ℕ, zero, suc, Bool, true, false, not, ◌&&◌, Option, none, some, ltb, leb, ◌==◌, if◌then◌else◌,
  Ptr, null, add_word, sub_word, is_negative,
}

-- A block that gets smaller: the rest of it, at its lower end, is freed.
shrink : ℕ → Ptr → ℕ → Heap → Option (Ptr × Heap)
unfolding write_seg_header kfree
shrink n p len h =
    let p_entry = sub_word p sizeof_heap_seg in
    let size_diff = sub_word (h.header p_entry).size len in
    if leb size_diff sizeof_heap_seg
    then some (p, h)
    else (let retaddr = add_word p size_diff in
        let split = write_seg_header (sub_word retaddr sizeof_heap_seg) len null h in
        let rest = set_size p_entry (sub_word size_diff sizeof_heap_seg) split in
        Option.map (λ h'. (retaddr, h')) (kfree n p rest))

-- The loop for the free piece with the next lower address.
find_right : ℕ → Ptr → Ptr → Heap → Option Ptr
find_right zero p_entry current_piece h = none
find_right (suc n) p_entry current_piece h =
    let rest = find_right n p_entry (h.header current_piece).next h in
    if current_piece == null
    then some null
    else if ltb current_piece p_entry
    then some current_piece
    else rest

-- The new address, NULL if the block cannot grow where it is, with the piece whose header is written.
-- The Boolean is that the heap has no room, after which the call returns NULL.
pub record Growth : Type 0 where
  pub retaddr : Ptr
  pub p_entry : Ptr
  pub no_room : Bool
  pub heap : Heap

grow_in_place : Ptr → ℕ → ℕ → Ptr → Heap → Growth
unfolding grow_kmalloc_break
grow_in_place p len size_diff right h =
    let p_entry = sub_word p sizeof_heap_seg in
    let as_it_is : Growth = record {
      retaddr = null;
      p_entry = p_entry;
      no_room = false;
      heap = h;
    } in
    let right_size = (h.header right).size in
    if not (right == null) && segment_end h right == p_entry
    then (if add_word right_size sizeof_heap_seg == size_diff
        then record as_it_is { retaddr = add_word right sizeof_heap_seg }
        else if leb size_diff right_size
        then record as_it_is {
          retaddr = sub_word p size_diff;
          heap =
              if ltb size_diff right_size
              then set_size right (sub_word right_size size_diff) h
              else h;
        }
        else as_it_is)
    else if p_entry == h.param.kmalloc_break
    then (let (new_break, grown) = grow_kmalloc_break (add_word len sizeof_heap_seg) h in
        if new_break == null then record as_it_is { no_room = true; heap = grown } else record {
          retaddr = sub_word p size_diff;
          p_entry = grown.param.kmalloc_break;
          no_room = false;
          heap = grown;
        })
    else as_it_is

-- A new block. The copy goes from it to the old one, as long as the header at `p_entry` says.
move_block : ℕ → Ptr → Ptr → ℕ → Heap → Option (Ptr × Heap)
unfolding kmalloc kfree
move_block n p p_entry len h = elim (kmalloc n len h) [
  | none ↦ none
  | some (retaddr, h') ↦
      if retaddr == null
      then some (null, h')
      else (let size = (h'.header p_entry).size in
          let copied = record h' { bytes = copy_bytes size p retaddr h'.bytes } in
          Option.map (λ h''. (retaddr, h'')) (kfree n p copied))
]

-- What follows the search of a block that gets larger.
grow : ℕ → Ptr → ℕ → ℕ → Heap → Ptr → Option (Ptr × Heap)
unfolding grow_in_place move_block write_seg_header
grow n p len size_diff h right =
    let g = grow_in_place p len size_diff right h in
    if g.no_room
    then some (null, g.heap)
    else if g.retaddr == null
    then move_block n p g.p_entry len g.heap
    else some (
      g.retaddr,
      set_header (sub_word p sizeof_heap_seg) (record { size = 0; next = null })
          (write_seg_header g.p_entry len null g.heap),
    )

unfoldable pub krealloc : ℕ → Ptr → ℕ → Heap → Option (Ptr × Heap)
unfolding pointer_is_valid shrink find_right grow
krealloc n p len h =
    let p_entry = sub_word p sizeof_heap_seg in
    let size_diff = sub_word len (h.header p_entry).size in
    if not (pointer_is_valid p h)
    then some (null, h)
    else if size_diff == 0
    then some (p, h)
    else if is_negative size_diff
    then shrink n p len h
    else elim (find_right n p_entry h.param.freelist_head h) [
      | none ↦ none
      | some right ↦ grow n p len size_diff h right
    ]
