-- ===== src/Examples/Lists.antt =====
-- The theorem on the lists in memory: two pointers are added, and the first one is removed, which
-- moves the second one into the head.
use ez_rtos.Base.{◌≡◌, refl, none, some, List, [], ◌∷◌, arith, ◌==◌, if◌then◌else◌}
use ez_rtos.PtrList
use ez_rtos.PtrList.{PtrList, empty}
use ez_rtos.PtrList.Linked
use ez_rtos.PtrList.Linked.{Nodes, unused_entry}
use ez_rtos.PtrList.Linked.Calls.{
  ListCall, add_ptr, find_node, remove_node, next_node, find_tail, IsList, run_on_nodes,
  run_on_list, on_nodes, on_list,
}
use ez_rtos.PtrList.Linked.Runs.{run_on_nodes-eq-run_on_list}

abbrev one_head : Nodes
one_head = λ q. if 10 == q then some unused_entry else none

one_head-IsList : IsList one_head 10 (empty 10)
one_head-IsList = record {
  head = refl;
  linked = (refl, tt);
  distinct = ((omega arith), refl, tt);
  null_free = refl;
}

abbrev calls : List ListCall
calls =
    add_ptr 100 20
    ∷ add_ptr 200 20
    ∷ find_node 200
    ∷ next_node 20
    ∷ remove_node 10
    ∷ find_tail
    ∷ find_node 200
    ∷ []

run_on_nodes-eq-run_on_list_example :
    run_on_nodes 20 10 calls one_head ≡ run_on_list calls (empty 10)
unfolding on_nodes on_list Linked.ptrlist_add Linked.link_last Linked.ptrlist_find
    Linked.ptrlist_remove Linked.ptrlist_cnext Linked.ptrlist_findtail Linked.findtail_loop
    Linked.remove_head PtrList.ptrlist_add PtrList.ptrlist_find PtrList.ptrlist_remove
    PtrList.ptrlist_cnext PtrList.ptrlist_findtail PtrList.successor
run_on_nodes-eq-run_on_list_example =
    run_on_nodes-eq-run_on_list 20 calls one_head 10 (empty 10) one_head-IsList (omega arith)
      (refl, (refl, (tt, (refl, (tt, (tt, (tt, tt)))))))

run_on_list-calls : run_on_list calls (empty 10) ≡ some (10 ∷ 20 ∷ 20 ∷ 10 ∷ 1 ∷ 10 ∷ 10 ∷ [])
unfolding run_on_list on_list PtrList.ptrlist_add PtrList.ptrlist_find PtrList.ptrlist_remove
    PtrList.ptrlist_cnext PtrList.ptrlist_findtail PtrList.successor
run_on_list-calls = refl
