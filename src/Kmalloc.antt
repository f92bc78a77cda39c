-- ===== src/Kmalloc.antt =====
-- p2/rtos/kernel/others/kmalloc.c: the allocator of the kernel's own heap, which grows to lower
-- addresses. The free pieces are a chain of headers, from the highest address to the lowest. This
-- file has all but kfree and krealloc. A header is 4 bytes; the headers are in a memory of their own,
-- by address, and what is allocated is in the memory of bytes. The loops along the chain run on fuel,
-- `none` where it is used up.
pub mod Free
pub mod Realloc
pub mod Clear
pub mod Split
use ez_rtos.Kernel.Run.{clear_bytes}
use mathlib.Core.Option
use ez_rtos.Base.{
  ℕ, zero, suc, ◌*◌, ◌%◌, ◌^◌, Bool, true, false, not, ◌&&◌, ◌||◌, Option, none, some, map, ltb,
  leb, ◌==◌, if◌then◌else◌, Ptr, null, add_word, sub_word,
}

pub record HeapSeg : Type 0 where
  pub size : ℕ
  pub next : Ptr

pub record KmallocParam : Type 0 where
  pub kmalloc_heap_start : Ptr
  pub kmalloc_heap_end : Ptr
  pub kmalloc_break : Ptr
  pub freelist_head : Ptr

-- The static variables, and the memory.
pub record Heap : Type 0 where
  pub param : KmallocParam
  pub header : Ptr → HeapSeg
  pub bytes : Ptr → ℕ

abbrev pub sizeof_heap_seg : ℕ
sizeof_heap_seg = 4

abbrev pub max_heap_size : Heap → ℕ
max_heap_size h = sub_word h.param.kmalloc_heap_start h.param.kmalloc_heap_end

abbrev pub segment_end : Heap → Ptr → Ptr
segment_end h p = add_word (add_word p sizeof_heap_seg) (h.header p).size

-- `*p = s`.
abbrev pub set_header : Ptr → HeapSeg → Heap → Heap
set_header p s h = record h { header = λ q. if p == q then s else h.header q }

abbrev pub set_size : Ptr → ℕ → Heap → Heap
set_size p n h = set_header p (record (h.header p) { size = n }) h

abbrev pub set_next : Ptr → Ptr → Heap → Heap
set_next p q h = set_header p (record (h.header p) { next = q }) h

abbrev pub set_freelist_head : Ptr → Heap → Heap
set_freelist_head p h = record h { param = record (h.param) { freelist_head = p } }

abbrev pub set_kmalloc_break : Ptr → Heap → Heap
set_kmalloc_break p h = record h { param = record (h.param) { kmalloc_break = p } }

unfoldable pub pointer_is_valid : Ptr → Heap → Bool
pointer_is_valid p h =
    let p_entry = sub_word p sizeof_heap_seg in
    if p == null
    then false
    else if ltb p h.param.kmalloc_break
        || ltb p h.param.kmalloc_heap_end
        || ltb h.param.kmalloc_heap_start p
    then false
    else if leb (max_heap_size h) (h.header p_entry).size || not ((h.header p_entry).next == null)
    then false
    else true

unfoldable pub write_seg_header : Ptr → ℕ → Ptr → Heap → Heap
write_seg_header seg_header len next h =
    set_header seg_header (record { size = len; next = next }) h

-- The new break, or NULL. `check_stack_integrity` is always 1.
unfoldable pub grow_kmalloc_break : ℕ → Heap → Ptr × Heap
grow_kmalloc_break amount h =
    let new_break = sub_word h.param.kmalloc_break amount in
    if ltb new_break h.param.kmalloc_heap_end || ltb h.param.kmalloc_heap_start new_break
    then (null, h)
    else (new_break, set_kmalloc_break new_break h)

unfoldable pub get_kmalloc_break : Heap → Ptr
get_kmalloc_break h = h.param.kmalloc_break

unfoldable pub init_kmalloc : Ptr → Ptr → Heap → ℕ × Heap
init_kmalloc start last h = if ltb start last then (0, h) else (
  1,
  record h {
    param = record {
      kmalloc_heap_start = start;
      kmalloc_heap_end = last;
      kmalloc_break = start;
      freelist_head = null;
    };
  },
)

unfoldable pub save_kmalloc_param : Heap → KmallocParam
save_kmalloc_param h = h.param

unfoldable pub load_kmalloc_param : KmallocParam → Heap → Heap
load_kmalloc_param p h = record h { param = p }

-- What the first loop of `kmalloc` finds.
pub record Pieces : Type 0 where
  pub exact_piece : Ptr
  pub exact_piece_prev : Ptr
  pub next_smallest_piece : Ptr

-- A piece that is larger than what is asked for, and smaller than the one found so far.
fits_better : ℕ → Ptr → Ptr → Heap → Bool
fits_better len current_piece next_smallest_piece h =
    ltb (add_word len sizeof_heap_seg) (h.header current_piece).size
    && (next_smallest_piece == null
        || ltb (h.header current_piece).size (h.header next_smallest_piece).size)

-- That loop. Its last part sets `previous_piece` to the piece that it has moved on to.
find_pieces : ℕ → ℕ → Ptr → Ptr → Ptr → Heap → Option Pieces
unfolding fits_better
find_pieces zero len current_piece previous_piece next_smallest_piece h = none
find_pieces (suc n) len current_piece previous_piece next_smallest_piece h =
    let next = (h.header current_piece).next in
    let smallest =
      if fits_better len current_piece next_smallest_piece h
      then current_piece
      else next_smallest_piece in
    let rest = find_pieces n len next next smallest h in
    if current_piece == null
    then some (record {
      exact_piece = null;
      exact_piece_prev = null;
      next_smallest_piece = next_smallest_piece;
    })
    else if (h.header current_piece).size == len
    then some (record {
      exact_piece = current_piece;
      exact_piece_prev = previous_piece;
      next_smallest_piece = next_smallest_piece;
    })
    else rest

-- Attempt 1.
take_exact : Ptr → Ptr → Heap → Ptr × Heap
take_exact exact_piece exact_piece_prev h =
    let next = (h.header exact_piece).next in
    let unlinked =
      if exact_piece_prev == null
      then set_freelist_head next h
      else set_next exact_piece_prev next h in
    (add_word exact_piece sizeof_heap_seg, set_next exact_piece null unlinked)

-- Attempt 2.
split_piece : Ptr → ℕ → Heap → Ptr × Heap
unfolding write_seg_header
split_piece piece len h =
    let size = sub_word (h.header piece).size (add_word len sizeof_heap_seg) in
    let retaddr = add_word (add_word piece sizeof_heap_seg) (add_word size sizeof_heap_seg) in
    (retaddr, write_seg_header (sub_word retaddr sizeof_heap_seg) len null (set_size piece size h))

-- Attempt 3. The two cases of the code compute the same.
allocate_more : ℕ → Heap → Ptr × Heap
unfolding write_seg_header grow_kmalloc_break
allocate_more len h =
    let retaddr =
      if h.param.kmalloc_break == h.param.kmalloc_heap_start
      then sub_word h.param.kmalloc_heap_start len
      else sub_word h.param.kmalloc_break len in
    let (new_break, grown) = grow_kmalloc_break (add_word len sizeof_heap_seg) h in
    if new_break == null
    then (null, grown)
    else (retaddr, write_seg_header (sub_word retaddr sizeof_heap_seg) len null grown)

-- The three attempts.
attempt : ℕ → Pieces → Heap → Ptr × Heap
unfolding take_exact split_piece allocate_more
attempt len found h =
    if not (found.exact_piece == null)
    then take_exact found.exact_piece found.exact_piece_prev h
    else if not (found.next_smallest_piece == null)
    then split_piece found.next_smallest_piece len h
    else allocate_more len h

-- The first argument is the fuel of the loop.
unfoldable pub kmalloc : ℕ → ℕ → Heap → Option (Ptr × Heap)
unfolding find_pieces attempt
kmalloc n len h =
    Option.map (λ found. attempt len found h) (find_pieces n len h.param.freelist_head null null h)

unfoldable pub kcalloc : ℕ → ℕ → ℕ → Heap → Option (Ptr × Heap)
unfolding kmalloc clear_bytes
kcalloc n nitems size h =
    let total_len = (nitems * size) % 2 ^ 16 in
    Option.map
      (λ r.
        if r.0 == null
        then r
        else (r.0, record (r.1) { bytes = clear_bytes total_len r.0 r.1.bytes }))
      (kmalloc n total_len h)
