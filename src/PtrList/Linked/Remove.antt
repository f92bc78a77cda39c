-- ===== src/PtrList/Linked/Remove.antt =====
-- Removing a node in memory and from a list of nodes.
use ez_rtos.Base.{
  ℕ, zero, suc, ◌<◌, ◌≡◌, refl, ap, ◌∙◌, subst, inl, inr, ◌+◌, Bool, true, false, Option, none,
  some, List, [], ◌∷◌, arith, ◌==◌, ==_refl, ==_ne, Bool-cases, length, Ptr, null,
}
use ez_rtos.PtrList
use ez_rtos.PtrList.{Node, nodes, first_addr}
use ez_rtos.PtrList.Cycle.{has_addr, AreNodes}
use ez_rtos.PtrList.Linked
use ez_rtos.PtrList.Linked.{Entry, Nodes, write_entry, remove_loop}
use ez_rtos.PtrList.Linked.Chain.{IsLinked, IsLinked-write}

-- Both fail, or both remove the same node or none; what is left is linked, and other memory is as
-- before.
pub data SameRemoval (s : Nodes) (n : Node) (ns : List Node)
    : Option (Bool × Nodes) → Option (List Node × Bool) → Type 0 where
  both_fail : SameRemoval s n ns none none
  both_return :
      {b : Bool} {s' : Nodes} {ns' : List Node}
      → IsLinked s' (n ∷ ns')
      → AreNodes ns'
      → ((q : Ptr) → has_addr ns q ≡ false → has_addr ns' q ≡ false)
      → ((q : Ptr) → has_addr (n ∷ ns) q ≡ false → s' q ≡ s q)
      → length ns' < suc (length ns)
      → SameRemoval s n ns (some (b, s')) (some (ns', b))

-- A node before the one where the search goes on.
add_before :
    (s : Nodes) (n m : Node) (ms : List Node) (x : Option (Bool × Nodes))
    (y : Option (List Node × Bool))
    → s n.addr ≡ some (record { ptr = n.ptr; next = m.addr })
    → AreNodes (m ∷ ms)
    → has_addr (m ∷ ms) n.addr ≡ false
    → SameRemoval s m ms x y
    → SameRemoval s n (m ∷ ms) x (elim y [ none ↦ none | some (ns', b) ↦ some (m ∷ ns', b) ])
add_before s n m ms _ _ at a h both_fail = both_fail
add_before s n m ms _ _ at a h (both_return {b} {s'} {ns'} l a' sub others fewer) =
    both_return (others n.addr h ∙ at, l) (a.0, sub m.addr (a.1), a')
      (λ q h'. let x = sub q (ground arith) in ground arith) (λ q h'. others q (ground arith))
      (omega (arith, fewer))

-- The node behind `n` is the one to remove.
remove_next :
    (s : Nodes) (n m : Node) (ms : List Node)
    → IsLinked s (n ∷ m ∷ ms)
    → AreNodes (n ∷ m ∷ ms)
    → SameRemoval s n
        (m ∷ ms)
        (Linked.unlink s n.addr (record { ptr = n.ptr; next = m.addr }) m.addr)
        (some (ms, true))
unfolding Linked.unlink
remove_next s n m ms (at, (at', l)) (nn, na, (nm, ma, a)) =
    let apart : (m.addr == n.addr) ≡ false = ground arith in
    let outside : has_addr ms n.addr ≡ false = ground arith in
    let new : Entry = record { ptr = n.ptr; next = first_addr ms } in
    rw (Linked.unlink, at')
      (both_return
        (
          rw (apart, ==_refl n.addr) refl,
          IsLinked-write (write_entry s n.addr (some new)) m.addr none ms ma
              (IsLinked-write s n.addr (some new) ms outside l),
        )
        a (λ q h. ground arith) (λ q h. ground arith) (omega arith))

remove_loop-null : (k : ℕ) (s : Nodes) (r : Ptr) → 0 < k → remove_loop k s null r ≡ some (false, s)
unfolding remove_loop
remove_loop-null zero s r h = absurd (omega (arith, h))
remove_loop-null (suc k) s r h = refl

pub remove_loop-SameRemoval :
    (k : ℕ) (s : Nodes) (r : Ptr) (n : Node) (ns : List Node)
    → IsLinked s (n ∷ ns)
    → AreNodes (n ∷ ns)
    → s null ≡ none
    → length ns + 1 < k
    → SameRemoval s n ns (remove_loop k s n.addr r) (PtrList.unlink r ns)
unfolding remove_loop PtrList.unlink Linked.unlink
remove_loop-SameRemoval zero s r n ns l a z h = absurd (omega (arith, h))
remove_loop-SameRemoval (suc k) s r n [] (at, l) a z h =
    let there : (n.addr == null) ≡ false = ==_ne n.addr null (a.0) in
    elim (Bool-cases (null == r)) [
      | inl at_null ↦
          let e : r ≡ null = ground arith in
          let nothing : s r ≡ none = ap s e ∙ z in
          let is_null : (r == null) ≡ true = ground arith in
          rw (remove_loop, PtrList.unlink, there, at, at_null, Linked.unlink, nothing, is_null)
            both_fail
      | inr other ↦
          let not_null : (r == null) ≡ false = ground arith in
          rw
            (
              remove_loop,
              PtrList.unlink,
              there,
              at,
              other,
              remove_loop-null k s r (omega (arith, h)),
              not_null,
            )
            (both_return (at, tt) tt (λ q h'. h') (λ q h'. refl) (omega arith))
    ]
remove_loop-SameRemoval (suc k) s r n (m ∷ ms) (at, l) a z h =
    let there : (n.addr == null) ≡ false = ==_ne n.addr null (a.0) in
    elim (Bool-cases (m.addr == r)) [
      | inl hit ↦
          let e : m.addr ≡ r = ground arith in
          rw (remove_loop, PtrList.unlink, there, at, hit)
            (subst
              (λ x.
                SameRemoval s n (m ∷ ms)
                  (Linked.unlink s n.addr (record { ptr = n.ptr; next = m.addr }) x)
                  (some (ms, true)))
              e (remove_next s n m ms (at, l) a))
      | inr miss ↦
          rw (remove_loop, PtrList.unlink, there, at, miss)
            (add_before s n m ms (remove_loop k s m.addr r) (PtrList.unlink r ms) at a.2 a.1
              (remove_loop-SameRemoval k s r m ms l a.2 z (omega (arith, h))))
    ]
