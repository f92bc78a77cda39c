-- ===== src/Mutex/Nesting.antt =====
-- Locking and unlocking a mutex that nobody waits for.
use ez_rtos.PtrList.{nodes}
use ez_rtos.Kernel.Types.{Pd}
use ez_rtos.Kernel.Objects.{Mutex}
use ez_rtos.Kernel.State.{Kernel}
use ez_rtos.Kernel.Run.{◌>>◌, set_cell, update-update, ok}
use ez_rtos.Base.{◌≡◌, refl, ap, ◌∙◌, some, arith, ◌==◌, ==_refl, Ptr, add_word}
use ez_rtos.Kernel.Search.{first_object-update}
use ez_rtos.Mutex.{kernel_lock_mutex, kernel_unlock_mutex}
use ez_rtos.Mutex.Lock.{Finds, writes_mutex, kernel_lock_mutex_free}
use ez_rtos.Mutex.Unlock.{kernel_unlock_mutex_free}

-- Free, with the priority of the task `me` left as a note.
abbrev pub free_again : Pd → Mutex → Mutex
free_again me mut = record mut {
  owner = 0;
  lock_count = 0;
  highest_priority = me.pri;
  owner_orig_priority = me.pri;
}

module _ (k : Kernel) (me : Pd) (m : Ptr) (mut : Mutex)
    (caller : k.tasks.cell k.current_process ≡ some me)
    (f : Finds k me.request_args.arg0 m mut) where
  -- The mutex with the caller as its holder.
  abbrev mine : Mutex
  mine = record mut {
    owner = me.pid;
    owner_orig_priority = me.pri;
    highest_priority = me.pri;
    lock_count = add_word mut.lock_count 1;
  }

  abbrev after_lock : Kernel
  after_lock = writes_mutex k m mine

  mine-Finds : Finds after_lock me.request_args.arg0 m mine
  mine-Finds = record {
    ne_zero = f.ne_zero;
    first =
        first_object-update k.mutexes.cell (λ x. x.id == me.request_args.arg0) m mut mine
          (nodes k.mutexes.list) f.holds refl
        ∙ f.first;
    ne_null = f.ne_null;
    holds = rw (==_refl m) refl;
  }

  -- A task that locks a free mutex that nobody waits for, and then unlocks it, leaves the mutex
  -- free and has the priority it had; of the kernel nothing else changes but the two notes of
  -- priorities in the mutex. The mutex is the one that the search finds.
  pub kernel_unlock_mutex-kernel_lock_mutex :
      mut.owner ≡ 0
      → mut.lock_count ≡ 0
      → mut.wait_queue.count ≡ 0
      → (kernel_lock_mutex >> kernel_unlock_mutex) k
        ≡ ok tt (record k {
          tasks = set_cell k.tasks k.current_process (some me);
          mutexes = set_cell k.mutexes m (some (free_again me mut));
        })
  kernel_unlock_mutex-kernel_lock_mutex o z w = rw (kernel_lock_mutex_free k me m mut caller f o) (
      kernel_unlock_mutex_free after_lock me m mine caller mine-Finds refl (ground arith) w
      ∙ ap
          (λ c. ok tt (record k {
            tasks = set_cell k.tasks k.current_process (some me);
            mutexes = record (k.mutexes) { cell = c };
          }))
          (update-update k.mutexes.cell m (some mine) (some (free_again me mut))))
