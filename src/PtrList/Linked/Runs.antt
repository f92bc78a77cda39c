-- ===== src/PtrList/Linked/Runs.antt =====
-- Removing a node does the same in memory and on the list, and so does each sequence of calls.
use mathlib.Core.Option
use ez_rtos.Base.{
  ℕ, suc, ◌+◌, ◌<◌, ◌≡◌, refl, sym, ap, ◌∙◌, subst, inl, inr, Bool, false, Option, none, some, List,
  [], ◌∷◌, arith, ◌==◌, ==_refl, ==_ne, Bool-cases, length, Ptr, null,
}
use ez_rtos.PtrList
use ez_rtos.PtrList.{Node, PtrList, nodes, first_addr, no_nodes, is_empty, add_last, last_addr}
use ez_rtos.PtrList.Cycle.{has_addr, AreNodes}
use ez_rtos.PtrList.Linked
use ez_rtos.PtrList.Linked.{Entry, Nodes, write_entry}
use ez_rtos.PtrList.Linked.Chain.{IsLinked, IsLinked-write}
use ez_rtos.PtrList.Linked.Remove.{SameRemoval, both_fail, both_return, remove_loop-SameRemoval}
use ez_rtos.PtrList.Linked.Calls.{
  ListCall, add_ptr, find_node, remove_node, next_node, find_tail, destroy_list, bit, on_nodes,
  on_list, run_on_nodes, run_on_list, IsList, IsAllowed, IfBoth, AreAllowed,
}
use ez_rtos.PtrList.Linked.Same.{
  SameCall, fails, returns, same_list, null_free-write, next-SameCall, tail-same, find-same,
  destroy-SameCall, add-SameCall,
}

-- What removing a node behind the head leaves.
removed-SameCall :
    (s : Nodes) (l : PtrList) (x : Option (Bool × Nodes)) (y : Option (List Node × Bool))
    → IsList s l.addr l
    → SameRemoval s (record { addr = l.addr; ptr = l.ptr }) l.next x y
    → SameCall l.addr l (Option.map (λ (r : Bool × Nodes). (bit (r.0), r.1)) x) (
        Option.map
          (λ (r : PtrList × Bool). (bit (r.1), r.0))
          (elim y [ none ↦ none | some (ns, found) ↦ some (record l { next = ns }, found) ]))
removed-SameCall s l _ _ i both_fail = fails
removed-SameCall s l _ _ i (both_return {b} {s'} {ns'} linked a sub others fewer) =
    let null_outside = nodes-null (nodes l) i.distinct in
    returns (bit b)
      (record {
        head = refl;
        linked = linked;
        distinct = (i.distinct.0, sub l.addr (i.distinct.1), a);
        null_free = others null null_outside ∙ i.null_free;
      })
      (omega (arith, fewer))
  where
    nodes-null : (ns : List Node) → AreNodes ns → has_addr ns null ≡ false
    nodes-null [] a = refl
    nodes-null (n ∷ ns) (nn, _, a) =
        let apart : (n.addr == null) ≡ false = ==_ne n.addr null nn in rw apart (nodes-null ns a)

head-SameCall :
    (s : Nodes) (l : PtrList) (ns : List Node)
    → l.next ≡ ns
    → s null ≡ none
    → IsLinked s (record { addr = l.addr; ptr = l.ptr } ∷ ns)
    → AreNodes (record { addr = l.addr; ptr = l.ptr } ∷ ns)
    → SameCall l.addr l
        (Option.map (λ (r : Bool × Nodes). (bit (r.0), r.1)) (Linked.remove_head s l.addr))
        (some (1, PtrList.remove_head l ns))
unfolding Linked.remove_head PtrList.remove_head
head-SameCall s l [] e z (at, _) (nn, na, a) =
    rw (Linked.remove_head, at)
      (returns 1
        (record {
          head = refl;
          linked = (rw (==_refl l.addr) refl, tt);
          distinct = (nn, refl, tt);
          null_free = null_free-write s l.addr (some Linked.unused_entry) nn z;
        })
        (omega arith))
head-SameCall s l (m ∷ ms) e z (at, (at', k)) (nn, na, (nm, ma, a)) =
    let there : (m.addr == null) ≡ false = ==_ne m.addr null nm in
    let apart : (m.addr == l.addr) ≡ false = ground arith in
    let outside : has_addr ms l.addr ≡ false = ground arith in
    let second : Entry = record { ptr = m.ptr; next = first_addr ms } in
    let s1 : Nodes = write_entry s l.addr (some second) in
    let count = ap length e in
    rw (Linked.remove_head, at, there, at')
      (returns 1
        (record {
          head = refl;
          linked = (
            rw (apart, ==_refl l.addr) refl,
            IsLinked-write s1 m.addr none ms ma
                (IsLinked-write s l.addr (some second) ms outside k),
          );
          distinct = (nn, outside, a);
          null_free =
              null_free-write s1 m.addr none nm (null_free-write s l.addr (some second) nn z);
        })
        (omega (arith, count)))

remove-SameCall :
    (n : ℕ) (s : Nodes) (l : PtrList) (r : Ptr)
    → IsList s l.addr l
    → length l.next + 1 < n
    → SameCall l.addr l (on_nodes n l.addr (remove_node r) s) (on_list (remove_node r) l)
unfolding on_nodes on_list Linked.ptrlist_remove PtrList.ptrlist_remove
remove-SameCall n s l r i few = elim (Bool-cases (l.addr == r)) [
  | inl is_head ↦
      rw (Linked.ptrlist_remove, PtrList.ptrlist_remove, is_head)
        (head-SameCall s l l.next refl i.null_free i.linked i.distinct)
  | inr behind ↦
      rw (Linked.ptrlist_remove, PtrList.ptrlist_remove, behind)
        (removed-SameCall s l (Linked.remove_loop n s l.addr r) (PtrList.unlink r l.next) i (
          remove_loop-SameRemoval n s r (record { addr = l.addr; ptr = l.ptr }) l.next i.linked
            i.distinct i.null_free few))
]

-- The fuel is more than the nodes.
pub call-SameCall :
    (n : ℕ) (c : ListCall) (s : Nodes) (l : PtrList)
    → IsList s l.addr l
    → length l.next + 1 < n
    → IsAllowed c s l
    → SameCall l.addr l (on_nodes n l.addr c s) (on_list c l)
unfolding on_nodes on_list
call-SameCall n (add_ptr p e) s l i few h = add-SameCall n s l p e i few h
call-SameCall n (find_node p) s l i few h =
    rw (find-same n s l p i.linked i.distinct few)
      (same_list s l.addr l (PtrList.ptrlist_find l p) i)
call-SameCall n (remove_node r) s l i few h = remove-SameCall n s l r i few
call-SameCall n (next_node c) s l i few h =
    rw (next-SameCall s l c i h) (either (PtrList.ptrlist_cnext l c))
  where
    either :
        (o : Option Ptr)
        → SameCall l.addr l (Option.map (λ r. (r, s)) o) (Option.map (λ r. (r, l)) o)
    either none = fails
    either (some v) = same_list s l.addr l v i
call-SameCall n find_tail s l i few h =
    rw (tail-same n s l i.linked i.distinct (omega (arith, few)))
      (same_list s l.addr l (PtrList.ptrlist_findtail l) i)
call-SameCall n destroy_list s l i few h = destroy-SameCall s l i

-- The rest of a sequence, after calls that do the same.
after_call :
    (n : ℕ) (a : Ptr) (cs : List ListCall) (l : PtrList)
    → length l.next + suc (length cs) + 1 < n
    → ((s' : Nodes) (l' : PtrList)
        → IsList s' a l'
        → length l'.next + length cs + 1 < n
        → AreAllowed n a cs s' l'
        → run_on_nodes n a cs s' ≡ run_on_list cs l')
    → {x : Option (ℕ × Nodes)} {y : Option (ℕ × PtrList)} → SameCall a l x y
    → IfBoth x y (λ s' l'. AreAllowed n a cs s' l')
    → ◌≡◌ {A = Option (List ℕ)}
        (elim x [ none ↦ none | some (v, s') ↦ Option.map (λ vs. v ∷ vs) (run_on_nodes n a cs s') ])
        (elim y [ none ↦ none | some (v, l') ↦ Option.map (λ vs. v ∷ vs) (run_on_list cs l') ])
after_call n a cs l few rest fails f = refl
after_call n a cs l few rest (returns {s'} {l'} v i more) f =
    ap (Option.map (λ vs. v ∷ vs)) (rest s' l' i (omega (arith, more, few)) f)

-- Every sequence of calls of the list functions returns the same values on the nodes in memory,
-- with their pointers, as on the list model that the kernel modules use, or fails in both: adding
-- with or without a new node and with an allocation that fails, finding, removing the head or
-- another node, the circular next, the tail, and destroying. The list is in memory at first with
-- its nodes at different addresses, no node lies at NULL, an address that malloc returns holds no
-- node at that time, a circular next starts from a node of the list, and the fuel is more than the
-- nodes and the calls together.
pub run_on_nodes-eq-run_on_list :
    (n : ℕ) (cs : List ListCall) (s : Nodes) (a : Ptr) (l : PtrList)
    → IsList s a l
    → length l.next + length cs + 1 < n
    → AreAllowed n a cs s l
    → run_on_nodes n a cs s ≡ run_on_list cs l
unfolding run_on_nodes run_on_list
run_on_nodes-eq-run_on_list n [] s a l i few f = refl
run_on_nodes-eq-run_on_list n (c ∷ cs) s a l i few (now, later) =
    let i' : IsList s l.addr l = subst (λ x. IsList s x l) (sym i.head) i in
    after_call n a cs l (omega (arith, few))
      (λ s' l' j m f. run_on_nodes-eq-run_on_list n cs s' a l' j m f)
      (subst (λ x. SameCall x l (on_nodes n x c s) (on_list c l)) i.head
        (call-SameCall n c s l i' (omega (arith, few)) now))
      later
