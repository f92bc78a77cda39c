-- ===== src/Kernel/Bytes.antt =====
-- What copying and clearing bytes leave and what they write.
use ez_rtos.Kernel.Run.{copy_bytes, clear_bytes}
use ez_rtos.Base.{
  ℕ, zero, suc, ◌+◌, ◌≤◌, ◌<◌, ◌≡◌, refl, ap, ◌∙◌, ◌≢◌, ◌⊎◌, inl, inr, false, arith, ◌==◌,
  if◌then◌else◌, ==_ne, Ptr,
}

outside-ne : (n dst q : ℕ) → (q < dst) ⊎ (dst + suc n ≤ q) → dst ≢ q
outside-ne n dst q h e = ground arith

outside-tail : (n dst q : ℕ) → (q < dst) ⊎ (dst + suc n ≤ q) → (q < dst + 1) ⊎ (dst + 1 + n ≤ q)
outside-tail n dst q (inl l) = inl (omega arith)
outside-tail n dst q (inr r) = inr (omega arith)

-- Outside the destination nothing changes.
pub copy_bytes-outside :
    (n : ℕ) (dst src q : Ptr) (b : Ptr → ℕ)
    → (q < dst) ⊎ (dst + n ≤ q)
    → copy_bytes n dst src b q ≡ b q
unfolding copy_bytes
copy_bytes-outside zero dst src q b h = refl
copy_bytes-outside (suc n) dst src q b h =
    let apart : (dst == q) ≡ false = ==_ne dst q (outside-ne n dst q h) in
    copy_bytes-outside n (dst + 1) (src + 1) q _ (outside-tail n dst q h) ∙ rw apart refl

-- The destination has what the source had, when the two are apart.
pub copy_bytes-copied :
    (n i : ℕ) (dst src : Ptr) (b : Ptr → ℕ)
    → (dst + n ≤ src) ⊎ (src + n ≤ dst)
    → i < n
    → copy_bytes n dst src b (dst + i) ≡ b (src + i)
unfolding copy_bytes
copy_bytes-copied zero i dst src b h l = absurd (omega (arith, l))
copy_bytes-copied (suc n) zero dst src b h l =
    copy_bytes-outside n (dst + 1) (src + 1) (dst + 0) _ (inl (omega arith))
    ∙ written (dst + 0) (src + 0) (omega arith) (omega arith)
  where
    written : (q s : ℕ) → dst ≡ q → src ≡ s → (if dst == q then b src else b q) ≡ b s
    written q s e e' = ground arith
copy_bytes-copied (suc n) (suc i) dst src b h l =
    let step : Ptr → ℕ = λ q. if dst == q then b src else b q in
    let to : dst + suc i ≡ dst + 1 + i = omega arith in
    let from : src + 1 + i ≡ src + suc i = omega arith in
    let apart : (dst == src + suc i) ≡ false = ==_ne dst (src + suc i) (ne h) in
    ap (copy_bytes n (dst + 1) (src + 1) step) to
    ∙ copy_bytes-copied n i (dst + 1) (src + 1) step (still_apart h) (omega (arith, l))
    ∙ ap step from
    ∙ rw apart refl
  where
    ne : (dst + suc n ≤ src) ⊎ (src + suc n ≤ dst) → dst ≢ src + suc i
    ne (inl a) e = omega (arith, l, a, e)
    ne (inr a) e = omega (arith, l, a, e)

    still_apart :
        (dst + suc n ≤ src) ⊎ (src + suc n ≤ dst)
        → (dst + 1 + n ≤ src + 1) ⊎ (src + 1 + n ≤ dst + 1)
    still_apart (inl a) = inl (omega (arith, a))
    still_apart (inr a) = inr (omega (arith, a))

-- Clearing `n` bytes leaves the others alone.
pub clear_bytes-outside :
    (n : ℕ) (p q : Ptr) (b : Ptr → ℕ) → (q < p) ⊎ (p + n ≤ q) → clear_bytes n p b q ≡ b q
unfolding clear_bytes
clear_bytes-outside zero p q b h = refl
clear_bytes-outside (suc n) p q b h =
    let apart : (p == q) ≡ false = ==_ne p q (outside-ne n p q h) in
    clear_bytes-outside n (p + 1) q _ (outside-tail n p q h) ∙ rw apart refl

pub clear_bytes-cleared : (n i : ℕ) (p : Ptr) (b : Ptr → ℕ) → i < n → clear_bytes n p b (p + i) ≡ 0
unfolding clear_bytes
clear_bytes-cleared zero i p b l = absurd (omega (arith, l))
clear_bytes-cleared (suc n) zero p b l =
    clear_bytes-outside n (p + 1) (p + 0) _ (inl (omega arith)) ∙ written (p + 0) (omega arith)
  where
    written : (q : ℕ) → p ≡ q → (if p == q then 0 else b q) ≡ 0
    written q e = ground arith
clear_bytes-cleared (suc n) (suc i) p b l =
    let step : Ptr → ℕ = λ q. if p == q then 0 else b q in
    let to : p + suc i ≡ p + 1 + i = omega arith in
    ap (clear_bytes n (p + 1) step) to ∙ clear_bytes-cleared n i (p + 1) step (omega (arith, l))
