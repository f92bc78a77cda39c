-- ===== src/Queue/Linked/Chain.antt =====
-- The chain of elements behind the head of a queue.
use ez_rtos.Base.{
  ℕ, ◌≡◌, refl, sym, ap, ◌∙◌, ◌≢◌, false, Option, none, some, List, [], ◌∷◌, ◌++◌, arith, ◌==◌,
  ==_ne, Ptr, null,
}
use ez_rtos.Queue.Linked.{Element, Store, write, set_next}

-- An element with its address.
pub record Cell : Type 0 where
  pub at : Ptr
  pub val : ℕ

abbrev pub values : List Cell → List ℕ
values [] = []
values (c ∷ cs) = c.val ∷ values cs

abbrev pub first : List Cell → Ptr
first [] = null
first (c ∷ _) = c.at

-- The address of the last cell, `p` if there is none.
abbrev pub last : Ptr → List Cell → Ptr
last p [] = p
last p (c ∷ cs) = last c.at cs

-- No cell is at `p`.
abbrev pub IsApart : Ptr → List Cell → Type 0
IsApart p [] = Unit {0}
IsApart p (c ∷ cs) = (p ≢ c.at) × IsApart p cs

-- The cells stand in memory one after the other, each pointing to the next and the last to NULL, at
-- addresses that differ.
abbrev pub IsChain : Store → List Cell → Type 0
IsChain s [] = Unit {0}
IsChain s (c ∷ cs) =
    (c.at ≢ null)
    × IsApart c.at cs
    × (s c.at ≡ some (record { val = c.val; next = first cs }))
    × IsChain s cs

-- A write to another address leaves a chain alone.
pub IsChain-write :
    (s : Store) (p : Ptr) (e : Option Element) (cs : List Cell)
    → IsApart p cs
    → IsChain s cs
    → IsChain (write s p e) cs
IsChain-write s p e [] a h = tt
IsChain-write s p e (c ∷ cs) (ne, a) (n, a', at, h) =
    (n, a', ground arith, IsChain-write s p e cs a h)

-- An address that holds no element is no cell's.
pub fresh-IsApart :
    (s : Store) (p : Ptr) (cs : List Cell) → s p ≡ none → IsChain s cs → IsApart p cs
fresh-IsApart s p [] f h = tt
fresh-IsApart s p (c ∷ cs) f (_, _, at, h) = (λ e. ground arith, fresh-IsApart s p cs f h)

IsApart-snoc :
    (p : Ptr) (c : Cell) (cs : List Cell) → p ≢ c.at → IsApart p cs → IsApart p (cs ++ (c ∷ []))
IsApart-snoc p c [] n a = (n, tt)
IsApart-snoc p c (d ∷ ds) n (m, a) = (m, IsApart-snoc p c ds n a)

-- The last cell's element, and the store with its pointer set to a new element.
pub set_next-last :
    (s : Store) (qe : Ptr) (v : ℕ) (c : Cell) (cs : List Cell)
    → qe ≢ null
    → s qe ≡ some (record { val = v; next = null })
    → IsApart qe (c ∷ cs)
    → IsChain s (c ∷ cs)
    → (s' : Store) × (set_next s (last c.at cs) qe ≡ some s')
      × IsChain s' ((c ∷ cs) ++ (record { at = qe; val = v } ∷ []))
      × ((q : Ptr) → IsApart q (c ∷ cs) → s' q ≡ s q)
unfolding set_next
set_next-last s qe v c [] n new (ne, _) (nc, _, at, _) =
    let apart : (c.at == qe) ≡ false = ==_ne c.at qe (λ e. ne (sym e)) in
    (
      write s c.at (some (record { val = c.val; next = qe })),
      ground arith,
      (nc, ((λ e. ne (sym e)), tt), ground arith, (n, tt, ground arith, tt)),
      λ q h. ground arith,
    )
set_next-last s qe v c (d ∷ cs) n new (ne, a) (nc, ac, at, h) =
    let (s', set, chain, others) = set_next-last s qe v d cs n new a h in
    (
      s',
      set,
      (
        nc,
        IsApart-snoc c.at (record { at = qe; val = v }) (d ∷ cs) (λ e. ne (sym e)) ac,
        others c.at ac ∙ at,
        chain,
      ),
      λ q (_, h). others q h,
    )

pub values-snoc : (c : Cell) (cs : List Cell) → values (cs ++ (c ∷ [])) ≡ values cs ++ (c.val ∷ [])
values-snoc c [] = refl
values-snoc c (d ∷ ds) = ap (λ vs. d.val ∷ vs) (values-snoc c ds)

pub last-snoc : (p : Ptr) (c : Cell) (cs : List Cell) → last p (cs ++ (c ∷ [])) ≡ c.at
last-snoc p c [] = refl
last-snoc p c (d ∷ ds) = last-snoc d.at c ds
