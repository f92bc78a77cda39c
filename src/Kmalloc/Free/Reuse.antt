-- ===== src/Kmalloc/Free/Reuse.antt =====
-- Blocks that kmalloc takes from the end of the heap, and gives twice.
use ez_rtos.Kmalloc.Free.{
  find_neighbours, link_piece, merge_left, merge_right, reduce_break, free_steps, kfree,
}
use ez_rtos.Kmalloc.{
  Heap, set_header, set_next, set_kmalloc_break, pointer_is_valid, write_seg_header,
  grow_kmalloc_break, find_pieces, take_exact, allocate_more, attempt, kmalloc,
}
use ez_rtos.Base.{
  ℕ, suc, ◌+◌, ◌-◌, ◌≤◌, ◌<◌, ◌≡◌, refl, sym, ap, ◌∙◌, ◌≢◌, false, some, arith, ◌==◌, if◌then◌else◌,
  ==_refl, ==_ne, Ptr, null, add_word, sub_word,
}

-- A heap with no free piece, and room for `len` bytes and a header.
pub record HasRoom (h : Heap) (len : ℕ) : Type 0 where
  pub none_free : h.param.freelist_head ≡ null
  pub above_zero : 0 < h.param.kmalloc_heap_end
  pub room : h.param.kmalloc_heap_end + len + 4 ≤ h.param.kmalloc_break
  pub break_in : h.param.kmalloc_break ≤ h.param.kmalloc_heap_start
  pub word : h.param.kmalloc_heap_start < 65536

sub_word-le : (a b : ℕ) → b ≤ a → a < 65536 → sub_word a b ≡ a - b
sub_word-le a b h w = omega arith

add_word-lt : (a b : ℕ) → a + b < 65536 → add_word a b ≡ a + b
add_word-lt a b w = omega arith

-- The heap after a block of `len` bytes has been taken from its end.
abbrev pub extended : Heap → ℕ → Heap
extended h len =
    set_header (h.param.kmalloc_break - len - 4) (record { size = len; next = null })
      (set_kmalloc_break (h.param.kmalloc_break - (len + 4)) h)

grow_kmalloc_break-room :
    (len : ℕ) (h : Heap)
    → HasRoom h len
    → grow_kmalloc_break (len + 4) h
      ≡ (h.param.kmalloc_break - (len + 4), set_kmalloc_break (h.param.kmalloc_break - (len + 4)) h)
unfolding grow_kmalloc_break
grow_kmalloc_break-room len h r =
    let lower : sub_word h.param.kmalloc_break (len + 4) ≡ h.param.kmalloc_break - (len + 4) =
      sub_word-le h.param.kmalloc_break (len + 4) (omega (arith, r.room))
        (omega (arith, r.break_in, r.word)) in
    let room = r.room in let break_in = r.break_in in ground arith

allocate_more-room :
    (len : ℕ) (h : Heap)
    → HasRoom h len
    → allocate_more len h ≡ (h.param.kmalloc_break - len, extended h len)
unfolding allocate_more write_seg_header
allocate_more-room len h r =
    let amount : add_word len 4 ≡ len + 4 =
      add_word-lt len 4 (omega (arith, r.above_zero, r.room, r.break_in, r.word)) in
    let grown = grow_kmalloc_break-room len h r in
    let at_break : sub_word h.param.kmalloc_break len ≡ h.param.kmalloc_break - len =
      sub_word-le h.param.kmalloc_break len (omega (arith, r.room))
        (omega (arith, r.break_in, r.word)) in
    let at_start : sub_word h.param.kmalloc_heap_start len ≡ h.param.kmalloc_heap_start - len =
      sub_word-le h.param.kmalloc_heap_start len (omega (arith, r.room, r.break_in)) r.word in
    let at_header : sub_word (h.param.kmalloc_break - len) 4 ≡ h.param.kmalloc_break - len - 4 =
      sub_word-le (h.param.kmalloc_break - len) 4 (omega (arith, r.room))
        (omega (arith, r.break_in, r.word)) in
    let some_break : (h.param.kmalloc_break - (len + 4) == null) ≡ false =
      ==_ne _ null (λ e. omega (arith, e, r.room, r.above_zero)) in
    let retaddr : (if h.param.kmalloc_break == h.param.kmalloc_heap_start
          then sub_word h.param.kmalloc_heap_start len
          else sub_word h.param.kmalloc_break len)
        ≡ h.param.kmalloc_break - len =
      ground (arith, at_break, at_start) in
    rw (amount, grown, some_break, retaddr, at_header) refl

pub kmalloc-room :
    (n len : ℕ) (h : Heap)
    → HasRoom h len
    → kmalloc (suc n) len h ≡ some (h.param.kmalloc_break - len, extended h len)
unfolding kmalloc find_pieces attempt
kmalloc-room n len h r =
    let none_free = r.none_free in let more = allocate_more-room len h r in ground arith

kfree-extended :
    (n len : ℕ) (h : Heap)
    → HasRoom h len
    → kfree (suc n) (h.param.kmalloc_break - len) (extended h len)
      ≡ some (set_header (h.param.kmalloc_break - len - 4) (record { size = 0; next = null }) h)
unfolding kfree pointer_is_valid find_neighbours free_steps link_piece merge_left merge_right
    reduce_break write_seg_header
kfree-extended n len h r =
    let none_free = r.none_free in
    let at_header : sub_word (h.param.kmalloc_break - len) 4 ≡ h.param.kmalloc_break - len - 4 =
      sub_word-le (h.param.kmalloc_break - len) 4 (omega (arith, r.room))
        (omega (arith, r.break_in, r.word)) in
    let all : sub_word h.param.kmalloc_heap_start h.param.kmalloc_heap_end
        ≡ h.param.kmalloc_heap_start - h.param.kmalloc_heap_end =
      sub_word-le h.param.kmalloc_heap_start h.param.kmalloc_heap_end
        (omega (arith, r.room, r.break_in)) r.word in
    let past_header : add_word (h.param.kmalloc_break - len - 4) 4 ≡ h.param.kmalloc_break - len =
      omega (arith, r.room, r.break_in, r.word) in
    let past : add_word (h.param.kmalloc_break - len) len ≡ h.param.kmalloc_break =
      omega (arith, r.room, r.break_in, r.word) in
    let room = r.room in let break_in = r.break_in in ground arith

-- A free list whose second piece has the size asked for, and whose first piece has not.
pub record SecondFits (h : Heap) (len : ℕ) (a b : Ptr) : Type 0 where
  pub head : h.param.freelist_head ≡ a
  pub linked : (h.header a).next ≡ b
  pub first_differs : (h.header a).size ≢ len
  pub second_fits : (h.header b).size ≡ len
  pub ne_null : (a ≢ null) × (b ≢ null)
  pub apart : a ≢ b

kmalloc-SecondFits :
    (n len : ℕ) (h : Heap) (a b : Ptr)
    → SecondFits h len a b
    → kmalloc (suc (suc n)) len h ≡ some (add_word b 4, set_next b null h)
unfolding kmalloc find_pieces attempt take_exact
kmalloc-SecondFits n len h a b s =
    let head = s.head in
    let linked = s.linked in
    let first_differs = s.first_differs in
    let second_fits = s.second_fits in let (na, nb) = s.ne_null in ground arith

-- With no free piece and room on the heap, kmalloc takes a block from the end of the heap, which
-- lies, with its header, between the end of the heap and the old break; kfree of that block gives
-- it back: the break and the free list are as they were, and of the headers only the one of the
-- block differs. The heap lies above address 0.
pub kfree-kmalloc :
    (n m len : ℕ) (h : Heap)
    → HasRoom h len
    → (p : Ptr) × (h' : Heap) × (kmalloc (suc n) len h ≡ some (p, h'))
      × (h.param.kmalloc_heap_end + 4 ≤ p)
      × (p + len ≤ h.param.kmalloc_break)
      × (h'.param.kmalloc_break ≡ p - 4)
      × (kfree (suc m) p h' ≡ some (set_header (p - 4) (record { size = 0; next = null }) h))
kfree-kmalloc n m len h r = (
  h.param.kmalloc_break - len,
  extended h len,
  kmalloc-room n len h r,
  omega (arith, r.room),
  omega (arith, r.room),
  omega arith,
  kfree-extended m len h r,
)

SecondFits-set_next :
    (len : ℕ) (a b : Ptr) (h : Heap) → SecondFits h len a b → SecondFits (set_next b null h) len a b
SecondFits-set_next len a b h s =
    let other : (b == a) ≡ false = ==_ne b a (λ e. s.apart (sym e)) in
    record {
      head = s.head;
      linked = rw other s.linked;
      first_differs = rw other s.first_differs;
      second_fits = rw (==_refl b) s.second_fits;
      ne_null = s.ne_null;
      apart = s.apart;
    }

set_next_again : (b : Ptr) (h : Heap) → set_next b null (set_next b null h) ≡ set_next b null h
set_next_again b h = ground arith

-- kmalloc gives the same block twice: when the second free piece has exactly the size asked for and
-- the first has not, the piece stays on the free list, since the loop notes it as its own
-- predecessor, and the next kmalloc of that size returns the same address. The two pieces are
-- different and not NULL.
pub kmalloc_twice :
    (n len : ℕ) (a b : Ptr) (h : Heap)
    → SecondFits h len a b
    → (h' : Heap) × (kmalloc (suc (suc n)) len h ≡ some (add_word b 4, h'))
      × (kmalloc (suc (suc n)) len h' ≡ some (add_word b 4, h'))
kmalloc_twice n len a b h s =
    let again =
      kmalloc-SecondFits n len (set_next b null h) a b (SecondFits-set_next len a b h s) in
    (
      set_next b null h,
      kmalloc-SecondFits n len h a b s,
      again ∙ ap (λ g. some (add_word b 4, g)) (set_next_again b h),
    )
