-- ===== src/Mutex/Lock.antt =====
-- `Kernel_Lock_Mutex`: the three cases of a lock.
use ez_rtos.Base.{ℕ, ◌≡◌, ◌≢◌, true, some, List, ◌∷◌, arith, ◌==◌, Ptr, null, add_word}
use ez_rtos.Queue.{Queue, enqueue_int, enqueue_ptr}
use ez_rtos.PtrList.{nodes}
use ez_rtos.PtrList.Walk.{first_object}
use ez_rtos.Kernel.Types.{ProcessState, Pd}
use ez_rtos.Kernel.Objects.{Mutex}
use ez_rtos.Kernel.State.{Kernel}
use ez_rtos.Kernel.Run.{set_cell, ok}
use ez_rtos.Mutex.{raised, inherited, kernel_lock_mutex}

-- `m` is the mutex that the search for `id` finds.
pub record Finds (k : Kernel) (id : ℕ) (m : Ptr) (mut : Mutex) : Type 0 where
  pub ne_zero : id ≢ 0
  pub first : first_object k.mutexes.cell (λ x. x.id == id) (nodes k.mutexes.list) ≡ some m
  pub ne_null : m ≢ null
  pub holds : k.mutexes.cell m ≡ some mut

abbrev pub writes_mutex : Kernel → Ptr → Mutex → Kernel
writes_mutex k m mut = record k { mutexes = set_cell k.mutexes m (some mut) }

module _ (k : Kernel) (me : Pd) (m : Ptr) (mut : Mutex)
    (here : k.tasks.cell k.current_process ≡ some me) (f : Finds k me.request_args.arg0 m mut) where
  pub kernel_lock_mutex_free :
      mut.owner ≡ 0
      → kernel_lock_mutex k
        ≡ ok tt (
            writes_mutex k m (record mut {
              owner = me.pid;
              owner_orig_priority = me.pri;
              highest_priority = me.pri;
              lock_count = add_word mut.lock_count 1;
            }))
  unfolding kernel_lock_mutex
  kernel_lock_mutex_free e = ground arith

  pub kernel_lock_mutex_again :
      mut.owner ≢ 0
      → mut.owner ≡ me.pid
      → kernel_lock_mutex k
        ≡ ok tt (writes_mutex k m (record mut { lock_count = add_word mut.lock_count 1 }))
  unfolding kernel_lock_mutex
  kernel_lock_mutex_again n e = ground arith

  pub kernel_lock_mutex_wait :
      (a b : Ptr) (later : List Ptr) (waiters priorities : Queue)
      → mut.owner ≢ 0
      → mut.owner ≢ me.pid
      → k.answers ≡ a ∷ b ∷ later
      → enqueue_ptr mut.wait_queue a k.current_process ≡ some (waiters, true)
      → enqueue_int mut.orig_priority b me.pri ≡ some (priorities, true)
      → kernel_lock_mutex k
        ≡ ok tt (record k {
          answers = later;
          kernel_request_cswitch = true;
          mutexes = set_cell k.mutexes m (
              some (record mut {
                wait_queue = waiters;
                orig_priority = priorities;
                highest_priority = raised mut.highest_priority me.pri;
              }));
          tasks = set_cell k.tasks k.current_process (
              some (record me {
                pri = inherited mut.highest_priority me.pri;
                state = ProcessState.wait_mutex;
              }));
        })
  unfolding kernel_lock_mutex
  kernel_lock_mutex_wait a b later waiters priorities n e h ew ep = ground arith
