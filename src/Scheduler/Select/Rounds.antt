-- ===== src/Scheduler/Select/Rounds.antt =====
-- The order in which the search of the scheduler goes over the process list.
use ez_rtos.Base.{
  ℕ, zero, suc, ◌+◌, ◌<◌, ◌≡◌, refl, sym, ap, ◌∙◌, subst, Option, none, some, List, [], ◌∷◌, ◌++◌,
  arith, ==_refl, length, length-append, Ptr,
}
use ez_rtos.PtrList.{Node, PtrList, nodes, first_addr}
use ez_rtos.PtrList.Cycle.{AreNodes, before_ne, next_addr, cnext-append}
use ez_rtos.Kernel.Types.{Pd}
use ez_rtos.Scheduler.Select.{
  Search, no_search, ptr_at, consider, visit, search_loop, chosen, kernel_select_next_task,
}
use mathlib.Core.List.{append_assoc, append-nil}
use ez_rtos.Kernel.State.{Kernel}
use mathlib.Core.Path.{fun_ext}
use mathlib.Core.Option

pub ptr_at-append :
    (pre : List Node) (n : Node) (post : List Node)
    → AreNodes (pre ++ (n ∷ post))
    → ptr_at n.addr (pre ++ (n ∷ post)) ≡ some n.ptr
unfolding ptr_at
ptr_at-append [] n post a = rw (==_refl n.addr)
ptr_at-append (m ∷ pre) n post a =
    rw (before_ne pre n post m.addr a.1) (ptr_at-append pre n post a.2)

pub ptr_at-nodes :
    (l : PtrList) (pre : List Node) (n : Node) (post : List Node)
    → nodes l ≡ pre ++ (n ∷ post)
    → AreNodes (nodes l)
    → ptr_at n.addr (nodes l) ≡ some n.ptr
ptr_at-nodes l pre n post e a =
    subst (λ ns. ptr_at n.addr ns ≡ some n.ptr) (sym e)
      (ptr_at-append pre n post (subst AreNodes e a))

abbrev pub bind {ℓ} : {A : Type ℓ} → Option A → (A → Option A) → Option A
bind none f = none
bind (some s) f = f s

module _ (cell : Ptr → Option Pd) where
  -- The search over a list of nodes, in order.
  unfoldable pub consider_node : Node → Search → Option Search
  consider_node n s = elim (cell n.ptr) [ none ↦ none | some d ↦ consider cell n.addr n.ptr d s ]

  unfoldable pub consider_all : List Node → Search → Option Search
  consider_all [] s = some s
  consider_all (n ∷ ns) s = bind (consider_node n s) (λ s'. consider_all ns s')

  visit-append :
      (l : PtrList) (pre : List Node) (n : Node) (post : List Node) (s : Search)
      → nodes l ≡ pre ++ (n ∷ post)
      → AreNodes (nodes l)
      → visit cell l n.addr s ≡ consider_node n s
  unfolding visit consider_node
  visit-append l pre n post s e a = ground (arith, ptr_at-nodes l pre n post e a)

  search_step :
      (l : PtrList) (pre : List Node) (n : Node) (post : List Node) (j : ℕ) (s : Search)
      → nodes l ≡ pre ++ (n ∷ post)
      → AreNodes (nodes l)
      → search_loop cell l (suc j) n.addr s
        ≡ bind (consider_node n s) (λ s'. search_loop cell l j (next_addr l post) s')
  unfolding search_loop
  search_step l pre n post j s e a =
      ground (arith, visit-append l pre n post s e a, cnext-append l pre n post e a)

  bind_assoc :
      (o : Option Search) (f g : Search → Option Search)
      → bind (bind o f) g ≡ bind o (λ s. bind (f s) g)
  bind_assoc none f g = refl
  bind_assoc (some s) f g = refl

  search_loop-append :
      (l : PtrList) (pre : List Node) (n : Node) (mid back : List Node) (r j : ℕ) (s : Search)
      → nodes l ≡ pre ++ (n ∷ (mid ++ back))
      → AreNodes (nodes l)
      → r ≡ length mid + 1 + j
      → search_loop cell l r n.addr s
        ≡ bind (consider_all (n ∷ mid) s) (λ s'. search_loop cell l j (next_addr l back) s')
  unfolding consider_all
  search_loop-append l pre n mid back zero j s e a h = absurd (omega arith)
  search_loop-append l pre n [] back (suc r) j s e a h =
      let same : r ≡ j = omega arith in
      rw same (
        search_step l pre n back j s e a
        ∙ sym (
            bind_assoc (consider_node n s) some (λ s'. search_loop cell l j (next_addr l back) s')))
  search_loop-append l pre n (m ∷ mid) back (suc r) j s e a h =
      search_step l pre n (m ∷ (mid ++ back)) r s e a
      ∙ ap (bind (consider_node n s)) (
          fun_ext λ s'.
            search_loop-append l (pre ++ (n ∷ [])) m mid back r j s'
              (e ∙ sym (append_assoc pre (n ∷ []) (m ∷ (mid ++ back)))) a (omega arith))
      ∙ sym (
          bind_assoc (consider_node n s) (λ s'. consider_all (m ∷ mid) s')
            (λ s'. search_loop cell l j (next_addr l back) s'))

module _ (cell : Ptr → Option Pd) where
  bind-some : (o : Option Search) → bind o some ≡ o
  bind-some none = refl
  bind-some (some s) = refl

  consider_all-append :
      (xs ys : List Node) (s : Search)
      → consider_all cell (xs ++ ys) s ≡ bind (consider_all cell xs s) (consider_all cell ys)
  unfolding consider_all
  consider_all-append [] ys s = refl
  consider_all-append (x ∷ xs) ys s =
      ap (bind (consider_node cell x s)) (fun_ext (λ s'. consider_all-append xs ys s'))
      ∙ sym (bind_assoc cell (consider_node cell x s) (consider_all cell xs) (consider_all cell ys))

  -- As many rounds from the head as a front part of the list has nodes consider just those.
  search_loop-front :
      (l : PtrList) (front back : List Node) (r : ℕ) (s : Search)
      → nodes l ≡ front ++ back
      → AreNodes (nodes l)
      → r ≡ length front
      → 0 < length front
      → search_loop cell l r l.addr s ≡ consider_all cell front s
  unfolding search_loop
  search_loop-front l [] back r s e a h p = absurd (omega arith)
  search_loop-front l (x ∷ mid) back r s e a h p =
      ap (λ i. search_loop cell l r i s) (ap first_addr e)
      ∙ search_loop-append cell l [] x mid back r 0 s e a (omega arith)
      ∙ bind-some (consider_all cell (x ∷ mid) s)

-- The nodes from the one behind `n` on, round to `n` itself.
abbrev pub round : List Node → Node → List Node → List Node
round pre n post = post ++ (pre ++ (n ∷ []))

module _ (cell : Ptr → Option Pd) (l : PtrList) (pre : List Node) (n : Node)
    (a : AreNodes (nodes l)) where
  pub search_loop-round :
      (post : List Node) (r : ℕ) (s : Search)
      → nodes l ≡ pre ++ (n ∷ post)
      → r ≡ length pre + 1 + length post
      → search_loop cell l r (next_addr l post) s ≡ consider_all cell (round pre n post) s
  search_loop-round [] r s e c =
      search_loop-front cell l (pre ++ (n ∷ [])) [] r s (e ∙ sym (append-nil (pre ++ (n ∷ [])))) a
        (omega (arith, length-append pre (n ∷ []))) (omega (arith, length-append pre (n ∷ [])))
  search_loop-round (m ∷ post) r s e c =
      search_loop-append cell l (pre ++ (n ∷ [])) m post [] r (length pre + 1) s
        (e ∙ simp (append-nil, append_assoc)) a (omega arith)
      ∙ ap (bind (consider_all cell (m ∷ post) s)) (
          fun_ext λ s'.
            search_loop-front cell l (pre ++ (n ∷ [])) (m ∷ post) (length pre + 1) s'
              (e ∙ sym (append_assoc pre (n ∷ []) (m ∷ post))) a
              (omega (arith, length-append pre (n ∷ [])))
              (omega (arith, length-append pre (n ∷ []))))
      ∙ sym (consider_all-append cell (m ∷ post) (pre ++ (n ∷ [])) s)

module _ (k : Kernel) (pre : List Node) (n : Node) (post : List Node)
    (e : nodes k.tasks.list ≡ pre ++ (n ∷ post)) (a : AreNodes (nodes k.tasks.list))
    (last : k.last_dispatched ≡ n.addr)
    (counted : k.tasks.count ≡ length pre + 1 + length post) where
  pub kernel_select_next_task-round :
      kernel_select_next_task k
      ≡ Option.map chosen (consider_all k.tasks.cell (round pre n post) no_search)
  unfolding kernel_select_next_task
  kernel_select_next_task-round = rw last (
      ground (
        arith,
        cnext-append k.tasks.list pre n post e a,
        search_loop-round k.tasks.cell k.tasks.list pre n a post k.tasks.count no_search e counted,
      ))
