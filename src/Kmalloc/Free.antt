-- ===== src/Kmalloc/Free.antt =====
-- kfree of p2/rtos/kernel/others/kmalloc.c. Its steps pass on the piece that is free and the one that
-- is linked before it.
pub mod Reuse
pub mod Ends
use mathlib.Core.Option
use ez_rtos.Kmalloc.{
  Heap, sizeof_heap_seg, segment_end, set_size, set_next, set_freelist_head, set_kmalloc_break,
  pointer_is_valid, write_seg_header,
}
use ez_rtos.Base.{
  ℕ, zero, suc, Bool, true, false, not, ◌&&◌, Option, none, some, ltb, ◌==◌, if◌then◌else◌, Ptr,
  null, add_word, sub_word,
}

-- What the loop of `kfree` finds, unless the piece is free already.
pub record Neighbours : Type 0 where
  pub double_free : Bool
  pub closest_left : Ptr
  pub closest_left_prev : Ptr
  pub closest_right : Ptr

find_neighbours : ℕ → Ptr → Ptr → Ptr → Ptr → Heap → Option Neighbours
find_neighbours zero p_entry current_piece closest_left closest_left_prev h = none
find_neighbours (suc n) p_entry current_piece closest_left closest_left_prev h =
    let rest =
      find_neighbours n p_entry (h.header current_piece).next current_piece closest_left h in
    let found : Neighbours = record {
      double_free = false;
      closest_left = closest_left;
      closest_left_prev = closest_left_prev;
      closest_right = null;
    } in
    if current_piece == null
    then some found
    else if ltb p_entry current_piece
    then rest
    else if ltb current_piece p_entry
    then some (record found { closest_right = current_piece })
    else some (record found { double_free = true })

-- The free piece, the one linked before it, and the heap.
pub record Freed : Type 0 where
  pub p_entry : Ptr
  pub p_entry_prev : Ptr
  pub heap : Heap

-- Step 1, after the loop.
link_piece : Ptr → Neighbours → Heap → Freed
link_piece p_entry found h =
    if found.closest_left == null
    then record {
      p_entry = p_entry;
      p_entry_prev = null;
      heap = set_freelist_head p_entry (set_next p_entry h.param.freelist_head h);
    }
    else record {
      p_entry = p_entry;
      p_entry_prev = found.closest_left;
      heap =
          set_next found.closest_left p_entry
            (set_next p_entry (h.header found.closest_left).next h);
    }

-- Step 2.
merge_left : Neighbours → Freed → Freed
unfolding write_seg_header
merge_left found f =
    let h = f.heap in
    if not (found.closest_left == null) && segment_end h f.p_entry == found.closest_left
    then (let more = add_word (h.header found.closest_left).size sizeof_heap_seg in
        let grown = set_size f.p_entry (add_word (h.header f.p_entry).size more) h in
        let erased = write_seg_header found.closest_left 0 null grown in
        if found.closest_left_prev == null
        then record f { heap = set_freelist_head f.p_entry erased }
        else record {
          p_entry = f.p_entry;
          p_entry_prev = found.closest_left_prev;
          heap = set_next found.closest_left_prev f.p_entry erased;
        })
    else f

-- Step 3.
merge_right : Neighbours → Freed → Freed
unfolding write_seg_header
merge_right found f =
    let h = f.heap in
    let right = found.closest_right in
    if not (right == null) && segment_end h right == f.p_entry
    then (let more = add_word (h.header f.p_entry).size sizeof_heap_seg in
        let grown = set_size right (add_word (h.header right).size more) h in
        let erased = write_seg_header f.p_entry 0 null grown in
        if f.p_entry_prev == null
        then record f { p_entry = right; heap = set_freelist_head right erased }
        else record f { p_entry = right; heap = set_next f.p_entry_prev right erased })
    else f

-- Step 4.
reduce_break : Freed → Heap
unfolding write_seg_header
reduce_break f =
    let h = f.heap in
    if f.p_entry == h.param.kmalloc_break && (h.header f.p_entry).next == null
    then (let erased =
          write_seg_header f.p_entry 0 null (set_kmalloc_break (segment_end h f.p_entry) h) in
        if f.p_entry_prev == null
        then set_freelist_head null erased
        else set_next f.p_entry_prev null erased)
    else h

-- The four steps, and what a piece that is free already does.
free_steps : Ptr → Heap → Neighbours → Heap
unfolding link_piece merge_left merge_right reduce_break
free_steps p_entry h found =
    if found.double_free
    then h
    else reduce_break (merge_right found (merge_left found (link_piece p_entry found h)))

unfoldable pub kfree : ℕ → Ptr → Heap → Option Heap
unfolding pointer_is_valid find_neighbours free_steps
kfree n p h =
    let p_entry = sub_word p sizeof_heap_seg in
    if pointer_is_valid p h
    then Option.map (free_steps p_entry h)
        (find_neighbours n p_entry h.param.freelist_head null null h)
    else some h
