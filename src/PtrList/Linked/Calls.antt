-- ===== src/PtrList/Linked/Calls.antt =====
-- The calls of the list functions on nodes in memory and on a list.
use mathlib.Core.Option
use ez_rtos.Base.{
  ℕ, ◌≡◌, Bool, true, false, Option, none, some, List, [], ◌∷◌, if◌then◌else◌, Ptr, null,
}
use ez_rtos.PtrList
use ez_rtos.PtrList.{PtrList, nodes, is_empty}
use ez_rtos.PtrList.Cycle.{has_addr, AreNodes}
use ez_rtos.PtrList.Linked
use ez_rtos.PtrList.Linked.{Nodes}
use ez_rtos.PtrList.Linked.Chain.{IsLinked}

-- What `malloc` returns for a new node comes last.
pub data ListCall : Type 0 where
  add_ptr : Ptr → Ptr → ListCall
  find_node remove_node next_node : Ptr → ListCall
  find_tail destroy_list : ListCall

abbrev pub bit : Bool → ℕ
bit true = 1
bit false = 0

-- The result, 0 where there is none, and the memory after. The arguments are the fuel and the
-- address of the static head.
unfoldable pub on_nodes : ℕ → Ptr → ListCall → Nodes → Option (ℕ × Nodes)
on_nodes n a (add_ptr p e) s = Linked.ptrlist_add n s a p e
on_nodes n a (find_node p) s = Option.map (λ r. (r, s)) (Linked.ptrlist_find n s a p)
on_nodes n a (remove_node r) s =
    Option.map (λ (x : Bool × Nodes). (bit (x.0), x.1)) (Linked.ptrlist_remove n s a r)
on_nodes n a (next_node c) s = Option.map (λ r. (r, s)) (Linked.ptrlist_cnext s a c)
on_nodes n a find_tail s = Option.map (λ r. (r, s)) (Linked.ptrlist_findtail n s a)
on_nodes n a destroy_list s = Option.map (λ s'. (0, s')) (Linked.ptrlist_destroy s a)

-- `ptrlist_add` of the model returns the list alone; the code returns the node that holds the pointer.
unfoldable pub on_list : ListCall → PtrList → Option (ℕ × PtrList)
on_list (add_ptr p e) l =
    Option.map (λ l'. (if is_empty l then l.addr else e, l')) (PtrList.ptrlist_add l p e)
on_list (find_node p) l = some (PtrList.ptrlist_find l p, l)
on_list (remove_node r) l =
    Option.map (λ (x : PtrList × Bool). (bit (x.1), x.0)) (PtrList.ptrlist_remove l r)
on_list (next_node c) l = Option.map (λ r. (r, l)) (PtrList.ptrlist_cnext l c)
on_list find_tail l = some (PtrList.ptrlist_findtail l, l)
on_list destroy_list l = Option.map (λ l'. (0, l')) (PtrList.ptrlist_destroy l)

-- The results of a sequence of calls, none if one of them fails.
unfoldable pub run_on_nodes : ℕ → Ptr → List ListCall → Nodes → Option (List ℕ)
run_on_nodes n a [] s = some []
run_on_nodes n a (c ∷ cs) s = elim (on_nodes n a c s) [
  | none ↦ none
  | some (v, s') ↦ Option.map (λ vs. v ∷ vs) (run_on_nodes n a cs s')
]

unfoldable pub run_on_list : List ListCall → PtrList → Option (List ℕ)
run_on_list [] l = some []
run_on_list (c ∷ cs) l = elim (on_list c l) [
  | none ↦ none
  | some (v, l') ↦ Option.map (λ vs. v ∷ vs) (run_on_list cs l')
]

-- The list in memory, with its head at `a`; no node lies at NULL.
pub record IsList (s : Nodes) (a : Ptr) (l : PtrList) : Type 0 where
  pub head : l.addr ≡ a
  pub linked : IsLinked s (nodes l)
  pub distinct : AreNodes (nodes l)
  pub null_free : s null ≡ none

-- `malloc` gives an address with no node, and a step along the list starts from a node of it.
abbrev pub IsAllowed : ListCall → Nodes → PtrList → Type 0
IsAllowed (add_ptr p e) s l = s e ≡ none
IsAllowed (next_node c) s l = has_addr (nodes l) c ≡ true
IsAllowed _ s l = Unit {0}

abbrev pub IfBoth : Option (ℕ × Nodes) → Option (ℕ × PtrList) → (Nodes → PtrList → Type 0) → Type 0
IfBoth (some (_, s)) (some (_, l)) P = P s l
IfBoth _ _ P = Unit {0}

abbrev pub AreAllowed : ℕ → Ptr → List ListCall → Nodes → PtrList → Type 0
AreAllowed n a [] s l = Unit {0}
AreAllowed n a (c ∷ cs) s l =
    IsAllowed c s l × IfBoth (on_nodes n a c s) (on_list c l) (λ s' l'. AreAllowed n a cs s' l')
