-- ===== src/Kmalloc/Split.antt =====
-- A block that kmalloc cuts from a larger free piece.
use ez_rtos.Kmalloc.{
  Heap, set_header, set_size, write_seg_header, fits_better, find_pieces, split_piece, attempt,
  kmalloc,
}
use ez_rtos.Base.{
  ℕ, suc, ◌+◌, ◌-◌, ◌<◌, ◌≡◌, refl, ap, ◌∙◌, ◌≢◌, false, some, arith, ◌==◌, ==_refl, ==_ne, Ptr,
  null, add_word, sub_word,
}

-- The only free piece is at `a`, and is larger than `len` and a header.
pub record OneLarger (h : Heap) (len : ℕ) (a : Ptr) : Type 0 where
  pub head : h.param.freelist_head ≡ a
  pub alone : (h.header a).next ≡ null
  pub ne_null : a ≢ null
  pub larger : len + 4 < (h.header a).size
  pub word : a + 4 + (h.header a).size < 65536

-- The block begins where the piece, which has lost its upper end, now ends, behind a header.
abbrev pub cut_at : Heap → ℕ → Ptr → Ptr
cut_at h len a = a + 4 + ((h.header a).size - (len + 4)) + 4

abbrev pub cut : Heap → ℕ → Ptr → Heap
cut h len a =
    set_header (cut_at h len a - 4) (record { size = len; next = null })
      (set_size a ((h.header a).size - (len + 4)) h)

split_piece-OneLarger :
    (len : ℕ) (h : Heap) (a : Ptr)
    → OneLarger h len a
    → split_piece a len h ≡ (cut_at h len a, cut h len a)
unfolding split_piece write_seg_header
split_piece-OneLarger len h a o =
    let size = (h.header a).size in
    let amount : add_word len 4 ≡ len + 4 = omega (arith, o.larger, o.word) in
    let left : sub_word size (len + 4) ≡ size - (len + 4) = omega (arith, o.larger, o.word) in
    let behind : add_word a 4 ≡ a + 4 = omega (arith, o.word) in
    let more : add_word (size - (len + 4)) 4 ≡ size - (len + 4) + 4 =
      omega (arith, o.larger, o.word) in
    let start : add_word (a + 4) (size - (len + 4) + 4) ≡ cut_at h len a =
      omega (arith, o.larger, o.word) in
    let header : sub_word (cut_at h len a) 4 ≡ cut_at h len a - 4 =
      omega (arith, o.larger, o.word) in
    rw (amount, left, behind, more, start, header) refl

find_pieces-OneLarger :
    (n len : ℕ) (h : Heap) (a : Ptr)
    → OneLarger h len a
    → kmalloc (suc (suc n)) len h ≡ some (split_piece a len h)
unfolding kmalloc find_pieces fits_better attempt
find_pieces-OneLarger n len h a o =
    let head = o.head in
    let alone = o.alone in
    let ne_null = o.ne_null in
    let larger = o.larger in
    let amount : add_word len 4 ≡ len + 4 = omega (arith, o.larger, o.word) in ground arith

-- From the only free piece, when that is larger than the block asked for and a header together,
-- kmalloc cuts the block off at the upper end: the piece, a header and the block then fill exactly
-- what the piece had, the block has its header, the piece stays alone on the free list, and the
-- break stays. The piece does not reach the end of the address space.
pub kmalloc-OneLarger :
    (n len : ℕ) (h : Heap) (a : Ptr)
    → OneLarger h len a
    → (p : Ptr) × (h' : Heap) × (kmalloc (suc (suc n)) len h ≡ some (p, h'))
      × (a + 4 + (h'.header a).size + 4 ≡ p)
      × (p + len ≡ a + 4 + (h.header a).size)
      × (h'.header (p - 4) ≡ record { size = len; next = null })
      × ((h'.header a).next ≡ null)
      × (h'.param ≡ h.param)
kmalloc-OneLarger n len h a o =
    let apart : (cut_at h len a - 4 == a) ≡ false = ==_ne _ a (λ e. omega (arith, e)) in
    (
      cut_at h len a,
      cut h len a,
      find_pieces-OneLarger n len h a o ∙ ap some (split_piece-OneLarger len h a o),
      rw (apart, ==_refl a) refl,
      omega (arith, o.larger),
      rw (==_refl (cut_at h len a - 4)) refl,
      rw (apart, ==_refl a) o.alone,
      refl,
    )
