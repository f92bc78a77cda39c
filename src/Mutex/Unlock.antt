-- ===== src/Mutex/Unlock.antt =====
-- `Kernel_Unlock_Mutex`: the cases of an unlock.
use ez_rtos.Base.{
  ℕ, ◌-◌, ◌<◌, ◌≡◌, ◌≢◌, true, Option, some, List, ◌∷◌, arith, ==_refl, ==_ne, Ptr, sub_word,
  to_priority,
}
use ez_rtos.Kernel.Types.{ErrorCode, ProcessState, Pd}
use ez_rtos.Kernel.Objects.{Mutex}
use ez_rtos.Kernel.State.{Kernel}
use ez_rtos.Kernel.Run.{update, set_cell, update-update, ok}
use ez_rtos.Queue.Laws.{IsValid, dequeue_ptr-cons, dequeue_int-eq-dequeue_ptr}
use ez_rtos.Mutex.{kernel_unlock_mutex}
use ez_rtos.Mutex.Lock.{Finds, writes_mutex}

-- The mutex handed to the waiter `d`, which had the priority `pri` when it began to wait.
abbrev pub handed : Mutex → Pd → ℕ → List Ptr → List ℕ → Mutex
handed mut d pri ps pris = record mut {
  owner = d.pid;
  owner_orig_priority = to_priority pri;
  lock_count = 1;
  wait_queue = record (mut.wait_queue) { elements = ps; count = mut.wait_queue.count - 1 };
  orig_priority = record (mut.orig_priority) {
    elements = pris;
    count = mut.orig_priority.count - 1;
  };
}

-- The memory of the tasks after the hand-over.
abbrev pub handed_cell :
    (Ptr → Option Pd) → (c : Ptr) (me : Pd) (p : Ptr) (d : Pd) → ℕ → ℕ → Ptr → Option Pd
handed_cell cell c me p d orig highest =
    update
      (update (update cell c (some (record me { pri = orig }))) p
        (some (record d { state = ProcessState.ready; pri = to_priority highest })))
      c (some (record me { pri = orig; state = ProcessState.ready }))

module _ (k : Kernel) (me : Pd) (m : Ptr) (mut : Mutex)
    (caller : k.tasks.cell k.current_process ≡ some me)
    (f : Finds k me.request_args.arg0 m mut) where
  -- Only the owner can unlock; the mutex stays as it is.
  pub kernel_unlock_mutex_refused :
      mut.owner ≢ me.pid
      → kernel_unlock_mutex k ≡ ok tt (record k { err = ErrorCode.object_not_found_err })
  unfolding kernel_unlock_mutex
  kernel_unlock_mutex_refused n = ground arith

  pub kernel_unlock_mutex_again :
      mut.owner ≡ me.pid
      → 1 < mut.lock_count
      → mut.lock_count < 65536
      → kernel_unlock_mutex k
        ≡ ok tt (writes_mutex k m (record mut { lock_count = mut.lock_count - 1 }))
  unfolding kernel_unlock_mutex
  kernel_unlock_mutex_again e h w = ground arith

  pub kernel_unlock_mutex_free :
      mut.owner ≡ me.pid
      → mut.lock_count ≡ 1
      → mut.wait_queue.count ≡ 0
      → kernel_unlock_mutex k
        ≡ ok tt (record k {
          tasks =
              set_cell k.tasks k.current_process
                (some (record me { pri = mut.owner_orig_priority }));
          mutexes = set_cell k.mutexes m (some (record mut { lock_count = 0; owner = 0 }));
        })
  unfolding kernel_unlock_mutex
  kernel_unlock_mutex_free e h z = ground (
    arith,
    update-update k.mutexes.cell m (some (record mut { lock_count = sub_word mut.lock_count 1 }))
        (some (record mut { lock_count = 0; owner = 0 })),
  )

  -- The last unlock hands the mutex to the waiter at the head of the queue, `p`: it becomes the
  -- owner, with one lock, and is ready at the highest priority of the mutex. The caller has its own
  -- priority back, and yields.
  pub kernel_unlock_mutex_hands_over :
      (p : Ptr) (ps : List Ptr) (d : Pd) (pri : ℕ) (pris : List ℕ)
      → mut.owner ≡ me.pid
      → mut.lock_count ≡ 1
      → IsValid mut.wait_queue
      → IsValid mut.orig_priority
      → mut.wait_queue.elements ≡ p ∷ ps
      → mut.orig_priority.elements ≡ pri ∷ pris
      → k.tasks.cell p ≡ some d
      → p ≢ k.current_process
      → d.state ≡ ProcessState.wait_mutex
      → kernel_unlock_mutex k
        ≡ ok tt (record k {
          kernel_request_cswitch = true;
          tasks = record (k.tasks) {
            cell =
                handed_cell k.tasks.cell k.current_process me p d mut.owner_orig_priority
                  mut.highest_priority;
          };
          mutexes = set_cell k.mutexes m (some (handed mut d pri ps pris));
        })
  unfolding kernel_unlock_mutex
  kernel_unlock_mutex_hands_over p ps d pri pris o one vw vp ew ep hd np w = ground (
    arith,
    dequeue_ptr-cons mut.wait_queue p ps vw ew,
    dequeue_int-eq-dequeue_ptr mut.orig_priority,
    dequeue_ptr-cons mut.orig_priority pri pris vp ep,
    ==_ne p k.current_process np,
    ==_refl m,
    update-update k.mutexes.cell m (some (record mut { lock_count = sub_word mut.lock_count 1 }))
        (some (record mut { lock_count = 0 })),
    update-update k.mutexes.cell m (some (record mut { lock_count = 0 }))
        (some (handed mut d pri ps pris)),
  )
