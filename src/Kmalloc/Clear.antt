-- ===== src/Kmalloc/Clear.antt =====
-- The block that kcalloc clears.
use ez_rtos.Kernel.Run.{clear_bytes}
use ez_rtos.Kernel.Bytes.{clear_bytes-cleared}
use ez_rtos.Kmalloc.{Heap, kmalloc, kcalloc}
use ez_rtos.Base.{ℕ, ◌+◌, ◌*◌, ◌%◌, ◌<◌, ◌≡◌, refl, ◌≢◌, false, some, arith, ◌==◌, ==_ne, Ptr, null}

-- `p` is a block of `len` bytes, all 0, in a heap that is otherwise `h0`.
pub record IsCleared (h0 : Heap) (len : ℕ) (p : Ptr) (h : Heap) : Type 0 where
  pub same_param : h.param ≡ h0.param
  pub same_headers : h.header ≡ h0.header
  pub zeros : (i : ℕ) → i < len → h.bytes (p + i) ≡ 0

-- When kmalloc gives a block for the product of the two sizes, as a word, kcalloc returns that
-- block with all its bytes 0; the headers and the static variables are as kmalloc left them. The
-- block is not NULL.
pub kcalloc-IsCleared :
    (n nitems size : ℕ) (h h0 : Heap) (p : Ptr)
    → kmalloc n ((nitems * size) % 65536) h ≡ some (p, h0)
    → p ≢ null
    → (h' : Heap) × (kcalloc n nitems size h ≡ some (p, h'))
      × IsCleared h0 ((nitems * size) % 65536) p h'
unfolding kcalloc
kcalloc-IsCleared n nitems size h h0 p run ne =
    let len : ℕ = (nitems * size) % 65536 in
    let there : (p == null) ≡ false = ==_ne p null ne in
    (
      record h0 { bytes = clear_bytes len p h0.bytes },
      ground arith,
      record {
        same_param = refl;
        same_headers = refl;
        zeros = λ i l. clear_bytes-cleared len i p h0.bytes l;
      },
    )
