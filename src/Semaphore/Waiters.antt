-- ===== src/Semaphore/Waiters.antt =====
-- The whole loop of `Kernel_Semaphore_Get_From_Queue` over the queue of waiters.
use ez_rtos.Base.{
  ℕ, zero, suc, ◌+◌, ◌-◌, sym, ap, subst, ◌≤◌, ◌<◌, ◌≡◌, refl, ◌∙◌, inl, inr, false, Option, some,
  List, [], ◌∷◌, ◌++◌, arith, ◌==◌, ==_refl, Bool-cases, length, Ptr, null,
}
use ez_rtos.Kernel.Types.{ProcessState, Pd}
use ez_rtos.Kernel.Objects.{Semaphore}
use ez_rtos.Kernel.State.{Kernel}
use ez_rtos.Kernel.Run.{update, ok}
use ez_rtos.Queue.Laws.{IsValid}
use ez_rtos.Semaphore.Serve.{
  IsNoWaiter, read_next, served, get_from_queue_loop-served, get_from_queue_loop-short,
  get_from_queue_loop-empty,
}
use ez_rtos.Semaphore.Waiting.{
  has, AreWaiting, amount_of, demand, AreWaiting-update, demand-update, shorter, ready_pd,
  Readied-cons, Serves, fewer, has-append,
}
use ez_rtos.Semaphore.{get_from_queue_loop, kernel_semaphore_get_from_queue}

loop-Serves :
    (front : List Ptr) (w : Ptr) (back : List Ptr) (j : ℕ) (k : Kernel) (s : Ptr) (sem : Semaphore)
    → k.semaphores.cell s ≡ some sem
    → IsValid sem.wait_queue
    → sem.wait_queue.elements ≡ front ++ (w ∷ back)
    → AreWaiting k.tasks.cell (front ++ (w ∷ back))
    → sem.count < 32768
    → demand k.tasks.cell front ≤ sem.count
    → sem.count < demand k.tasks.cell (front ++ (w ∷ []))
    → length front < j
    → (k' : Kernel) × (get_from_queue_loop j s k ≡ ok tt k') × Serves k s sem front (w ∷ back) k'
unfolding demand
loop-Serves front w back zero k s sem h v e a l d d' f = absurd (omega arith)
loop-Serves [] w back (suc j) k s sem h v e ((t, ew, st, lt), o, a) l d d' f = (
  k,
  get_from_queue_loop-short j k s sem h v w back t e ew l lt (ground (arith, ew)),
  record {
    after = sem;
    holds_sem = h;
    left = omega arith;
    queue = e;
    valid = v;
    readied = λ p. refl;
    same_switch = refl;
  },
)
loop-Serves (x ∷ front) w back (suc j) k s sem h v e ((t, ex, st, lt), o, a) l d d' f =
    let rest = front ++ (w ∷ back) in
    let cell = k.tasks.cell in
    let fx : has front x ≡ false = ground (arith, has-append front (w ∷ back) x) in
    let fw : has (front ++ (w ∷ [])) x ≡ false =
      ground (arith, has-append front (w ∷ back) x, has-append front (w ∷ []) x) in
    let here_demand = demand-update cell x (some (ready_pd t)) front fx in
    let next_demand = demand-update cell x (some (ready_pd t)) (front ++ (w ∷ [])) fw in
    let amount : amount_of (cell x) ≡ t.request_args.arg1 = rw ex in
    let (k', run, out) =
      loop-Serves front w back j (served k s sem x t rest) s (fewer sem t rest) (rw (==_refl s))
        (shorter sem.wait_queue x rest v e) refl
        (AreWaiting-update cell x (some (ready_pd t)) rest o a) (omega arith)
        (omega (arith, here_demand, amount)) (omega (arith, next_demand, amount)) (omega arith) in
    (
      k',
      get_from_queue_loop-served j k s sem h v x rest t e ex st l (omega (arith, amount)) ∙ run,
      record {
        after = out.after;
        holds_sem = out.holds_sem;
        left = omega (arith, out.left, here_demand, amount);
        queue = out.queue;
        valid = out.valid;
        readied = Readied-cons cell x front t k'.tasks.cell ex fx out.readied;
        same_switch = out.same_switch;
      },
    )

length-front :
    (front : List Ptr) (w : Ptr) (back : List Ptr) → length front < length (front ++ (w ∷ back)) + 1
length-front [] w back = omega arith
length-front (x ∷ front) w back = omega (arith, length-front front w back)

-- Get_From_Queue serves the longest prefix of the waiting tasks whose requests the count covers: when the
-- count covers the requests of `front` and not also that of `w`, the tasks of `front` become ready and lose
-- their places, the count loses their requests, and `w` stays the head of the queue.
pub kernel_semaphore_get_from_queue-Serves :
    (front : List Ptr) (w : Ptr) (back : List Ptr) (k : Kernel) (s : Ptr) (sem : Semaphore)
    → k.semaphores.cell s ≡ some sem
    → IsValid sem.wait_queue
    → sem.wait_queue.elements ≡ front ++ (w ∷ back)
    → AreWaiting k.tasks.cell (front ++ (w ∷ back))
    → sem.count < 32768
    → demand k.tasks.cell front ≤ sem.count
    → sem.count < demand k.tasks.cell (front ++ (w ∷ []))
    → (k' : Kernel) × (kernel_semaphore_get_from_queue s k ≡ ok tt k')
      × Serves k s sem front (w ∷ back) k'
unfolding kernel_semaphore_get_from_queue
kernel_semaphore_get_from_queue-Serves front w back k s sem h v e a l d d' =
    let n : length front < length sem.wait_queue.elements + 1 = rw e (length-front front w back) in
    let (k', run, out) =
      loop-Serves front w back (length sem.wait_queue.elements + 1) k s sem h v e a l d d' n in
    (k', ground (arith, run), out)

-- A write to a task that waits for a semaphore is not one to NULL.
still_null :
    (cell : Ptr → Option Pd) (x : Ptr) (c : Option Pd) (t : Pd)
    → cell x ≡ some t
    → t.state ≡ ProcessState.wait_semaphore
    → IsNoWaiter (cell null)
    → update cell x c null ≡ cell null
still_null cell x c t ex st z = elim (Bool-cases (x == null)) [
  | inl is ↦
      let at_null : cell null ≡ some t = ground (arith, ex) in
      absurd (ground (arith, subst IsNoWaiter at_null z))
  | inr not_null ↦ rw not_null refl
]

loop_drains :
    (ws : List Ptr) (j : ℕ) (k : Kernel) (s : Ptr) (sem : Semaphore)
    → k.semaphores.cell s ≡ some sem
    → IsValid sem.wait_queue
    → sem.wait_queue.elements ≡ ws
    → AreWaiting k.tasks.cell ws
    → IsNoWaiter (k.tasks.cell null)
    → sem.count < 32768
    → demand k.tasks.cell ws ≤ sem.count
    → length ws < j
    → (k' : Kernel) × Serves k s sem ws [] k'
      × (get_from_queue_loop j s k
          ≡ read_next (k.tasks.cell null) (sem.count - demand k.tasks.cell ws) k')
unfolding demand
loop_drains ws zero k s sem h v e a z l d f = absurd (omega arith)
loop_drains [] (suc j) k s sem h v e a z l d f =
    let all_left : sem.count ≡ sem.count - 0 = omega arith in
    (
      k,
      record {
        after = sem;
        holds_sem = h;
        left = omega arith;
        queue = e;
        valid = v;
        readied = λ p. refl;
        same_switch = refl;
      },
      get_from_queue_loop-empty j k s sem h v e l z
          ∙ ap (λ n. read_next (k.tasks.cell null) n k) all_left,
    )
loop_drains (x ∷ ws) (suc j) k s sem h v e ((t, ex, st, lt), o, a) z l d f =
    let cell = k.tasks.cell in
    let rest_demand = demand-update cell x (some (ready_pd t)) ws o in
    let amount : amount_of (cell x) ≡ t.request_args.arg1 = rw ex in
    let same_null = still_null cell x (some (ready_pd t)) t ex st z in
    let (k', out, run) =
      loop_drains ws j (served k s sem x t ws) s (fewer sem t ws) (rw (==_refl s))
        (shorter sem.wait_queue x ws v e) refl (AreWaiting-update cell x (some (ready_pd t)) ws o a)
        (subst IsNoWaiter (sym same_null) z) (omega arith) (omega (arith, rest_demand, amount))
        (omega arith) in
    let left : (sem.count - t.request_args.arg1) - demand (update cell x (some (ready_pd t))) ws
        ≡ sem.count - (amount_of (cell x) + demand cell ws) =
      omega (arith, rest_demand, amount) in
    (
      k',
      record {
        after = out.after;
        holds_sem = out.holds_sem;
        left = omega (arith, out.left, rest_demand, amount);
        queue = out.queue;
        valid = out.valid;
        readied = Readied-cons cell x ws t k'.tasks.cell ex o out.readied;
        same_switch = out.same_switch;
      },
      get_from_queue_loop-served j k s sem h v x ws t e ex st l (omega (arith, amount))
          ∙ run
          ∙ ap
              (λ c.
                read_next c
                  ((sem.count - t.request_args.arg1)
                    - demand (update cell x (some (ready_pd t))) ws)
                  k')
              same_null
          ∙ ap (λ n. read_next (cell null) n k') left,
    )

-- When the count covers every waiting request, Get_From_Queue serves all the tasks of the queue and goes
-- on to what lies at NULL.
pub kernel_semaphore_get_from_queue-drains :
    (k : Kernel) (s : Ptr) (sem : Semaphore)
    → k.semaphores.cell s ≡ some sem
    → IsValid sem.wait_queue
    → AreWaiting k.tasks.cell sem.wait_queue.elements
    → IsNoWaiter (k.tasks.cell null)
    → sem.count < 32768
    → demand k.tasks.cell sem.wait_queue.elements ≤ sem.count
    → (k' : Kernel) × Serves k s sem sem.wait_queue.elements [] k'
      × (kernel_semaphore_get_from_queue s k
          ≡ read_next
              (k.tasks.cell null)
              (sem.count - demand k.tasks.cell sem.wait_queue.elements)
              k')
unfolding kernel_semaphore_get_from_queue
kernel_semaphore_get_from_queue-drains k s sem h v a z l d =
    let (k', out, run) =
      loop_drains sem.wait_queue.elements (length sem.wait_queue.elements + 1) k s sem h v refl a z
        l d (omega arith) in
    (k', out, ground (arith, run))
