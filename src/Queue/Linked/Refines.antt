-- ===== src/Queue/Linked/Refines.antt =====
-- The queue in memory that stands for a list queue, and what a new element and the removal of
-- the oldest one do to it.
use ez_rtos.Queue.{Queue, after_pop}
use ez_rtos.Queue.Linked.{Store, write, LinkedQueue, State, new_element, dequeue, take_value}
use ez_rtos.Queue.Linked.Chain.{
  Cell, values, first, last, IsApart, IsChain, IsChain-write, fresh-IsApart, set_next-last,
  values-snoc, last-snoc,
}
use ez_rtos.Base.{
  ℕ, ◌-◌, ◌≡◌, refl, sym, ap, ◌∙◌, ◌≢◌, false, none, some, List, [], ◌∷◌, ◌++◌, arith, ◌==◌,
  ==_refl, ==_ne, Ptr, null, add_word,
}

-- The fields of the queue and the elements behind it, at the cells, are those of `q`.
pub record Represents (σ : State) (cells : List Cell) (q : Queue) : Type 0 where
  pub chain : IsChain (σ.0) cells
  pub head : σ.1.head ≡ first cells
  pub tail : σ.1.tail ≡ last null cells
  pub elements : q.elements ≡ values cells
  pub count : q.count ≡ σ.1.count
  pub is_ptr_queue : q.is_ptr_queue ≡ σ.1.is_ptr_queue

-- `s'` differs from `s` at most at the cells and at `qe`.
abbrev pub IsWithin : Store → List Cell → Ptr → Store → Type 0
IsWithin s cells qe s' = (p : Ptr) → IsApart p cells → p ≢ qe → s' p ≡ s p

pub new_element-Represents :
    (s : Store) (l : LinkedQueue) (cells : List Cell) (q : Queue) (qe : Ptr) (v : ℕ)
    → Represents (s, l) cells q
    → qe ≢ null
    → s qe ≡ none
    → (σ : State) × (new_element s l qe v ≡ some σ)
      × Represents σ
          (cells ++ (record { at = qe; val = v } ∷ []))
          (record q { elements = q.elements ++ (v ∷ []); count = add_word q.count 1 })
      × IsWithin s cells qe (σ.0)
unfolding new_element
new_element-Represents s l [] q qe v r n fresh =
    let there : (qe == null) ≡ false = ==_ne qe null n in
    (
      (
        write s qe (some (record { val = v; next = null })),
        record l { head = qe; tail = qe; count = add_word l.count 1 },
      ),
      ground arith,
      record {
        chain = (n, tt, ground arith, tt);
        head = refl;
        tail = refl;
        elements = ap (λ vs. vs ++ (v ∷ [])) r.elements;
        count = ap (λ c. add_word c 1) r.count;
        is_ptr_queue = r.is_ptr_queue;
      },
      λ p a ne. ground arith,
    )
new_element-Represents s l (c ∷ cs) q qe v r n fresh =
    let new : Store = write s qe (some (record { val = v; next = null })) in
    let apart = fresh-IsApart s qe (c ∷ cs) fresh r.chain in
    let chain = IsChain-write s qe _ (c ∷ cs) apart r.chain in
    let (s', set, linked, others) =
      set_next-last new qe v c cs n (rw (==_refl qe) refl) apart chain in
    let there : (qe == null) ≡ false = ==_ne qe null n in
    let used : (l.head == null) ≡ false = ==_ne l.head null (λ e. r.chain.0 (sym r.head ∙ e)) in
    (
      (s', record l { tail = qe; count = add_word l.count 1 }),
      rw (there, used, r.tail, set) refl,
      record {
        chain = linked;
        head = r.head;
        tail = sym (last-snoc c.at (record { at = qe; val = v }) cs);
        elements =
            ap (λ vs. vs ++ (v ∷ [])) r.elements
            ∙ sym (values-snoc (record { at = qe; val = v }) (c ∷ cs));
        count = ap (λ c. add_word c 1) r.count;
        is_ptr_queue = r.is_ptr_queue;
      },
      λ p a ne. others p a ∙ ground arith,
    )

-- The list queue without its oldest element.
abbrev pub popped : Queue → List ℕ → Queue
popped q vs = record q { elements = vs; count = after_pop vs q.count }

-- The oldest element leaves the queue and stays in memory.
pub dequeue-Represents :
    (s : Store) (l : LinkedQueue) (c : Cell) (cs : List Cell) (q : Queue)
    → Represents (s, l) (c ∷ cs) q
    → (q.count == 0) ≡ false
    → (l' : LinkedQueue) × (dequeue s l ≡ some (c.at, l'))
      × Represents (s, l') cs (popped q (values cs))
unfolding dequeue after_pop
dequeue-Represents s l c [] q r n =
    let used : (l.head == null) ≡ false = ==_ne l.head null (λ e. r.chain.0 (sym r.head ∙ e)) in
    let counted : (l.count == 0) ≡ false = ap (λ x. x == 0) (sym r.count) ∙ n in
    (
      record l { head = null; tail = null; count = 0 },
      rw (used, counted, r.head, r.chain.2) refl,
      record {
        chain = tt;
        head = refl;
        tail = refl;
        elements = refl;
        count = refl;
        is_ptr_queue = r.is_ptr_queue;
      },
    )
dequeue-Represents s l c (d ∷ ds) q r n =
    let used : (l.head == null) ≡ false = ==_ne l.head null (λ e. r.chain.0 (sym r.head ∙ e)) in
    let counted : (l.count == 0) ≡ false = ap (λ x. x == 0) (sym r.count) ∙ n in
    let more : (d.at == null) ≡ false = ==_ne d.at null (r.chain.3.0) in
    (
      record l { head = d.at; count = l.count - 1 },
      rw (used, counted, r.head, r.chain.2, more) refl,
      record {
        chain = r.chain.3;
        head = refl;
        tail = r.tail;
        elements = refl;
        count = ap (λ x. x - 1) r.count;
        is_ptr_queue = r.is_ptr_queue;
      },
    )

-- Its value is taken and it is freed.
pub take_value-Represents :
    (s : Store) (l : LinkedQueue) (c : Cell) (cs : List Cell) (q : Queue)
    → c.at ≢ null
    → IsApart c.at cs
    → s c.at ≡ some (record { val = c.val; next = first cs })
    → Represents (s, l) cs q
    → (take_value s (c.at, l) ≡ some (c.val, (write s c.at none, l)))
      × Represents (write s c.at none, l) cs q
unfolding take_value
take_value-Represents s l c cs q n apart at r =
    let there : (c.at == null) ≡ false = ==_ne c.at null n in
    (
      rw (there, at) refl,
      record {
        chain = IsChain-write s c.at none cs apart r.chain;
        head = r.head;
        tail = r.tail;
        elements = r.elements;
        count = r.count;
        is_ptr_queue = r.is_ptr_queue;
      },
    )
