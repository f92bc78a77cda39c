-- ===== src/Scheduler/Tick/Timeout.antt =====
-- How timeouts run out, and when the tick interrupt preempts.
use ez_rtos.Base.{
  ℕ, zero, suc, ◌+◌, ◌-◌, ◌≤◌, ◌<◌, ◌≡◌, refl, ap, ◌∙◌, ◌≢◌, Bool, true, false, some, List, [], ◌∷◌,
  ◌++◌, arith, if◌then◌else◌, add_word,
}
use ez_rtos.PtrList.{nodes}
use ez_rtos.Kernel.Types.{ProcessState, KernelRequest, Pd}
use ez_rtos.Kernel.Run.{M, pure, ◌>>=◌, set_cell, ok}
use ez_rtos.Kernel.ForEach.{AreTasks, mapped, for_each-mapped}
use ez_rtos.Kernel.State.{Kernel}
use ez_rtos.Scheduler.Tick.{kernel_tick_isr, tick_pd, kernel_tick_handler}

-- Kernel_Tick_Handler, when ticks have been counted, changes every task of the process list by
-- `tick_pd` with that number of ticks, and no other task, and sets the count back to 0. The nodes
-- of the list hold different tasks in memory.
pub kernel_tick_handler-mapped :
    (k : Kernel)
    → k.tick_count ≢ 0
    → AreTasks k.tasks.cell (nodes k.tasks.list)
    → kernel_tick_handler k
      ≡ ok tt (record k {
        tick_count = 0;
        tasks = record (k.tasks) {
          cell = mapped (tick_pd k.tick_count) (nodes k.tasks.list) k.tasks.cell;
        };
      })
unfolding kernel_tick_handler
kernel_tick_handler-mapped k n a =
    ground (arith, for_each-mapped (tick_pd k.tick_count) (nodes k.tasks.list) k a)

-- The handler runs once for each number of the list: so many ticks had been counted.
unfoldable pub tick_all : List ℕ → Pd → Pd
tick_all [] d = d
tick_all (x ∷ xs) d = tick_all xs (tick_pd x d)

unfoldable pub total : List ℕ → ℕ
total [] = 0
total (x ∷ xs) = x + total xs

tick_pd_early :
    (x : ℕ) (d : Pd)
    → d.state ≡ ProcessState.sleeping
    → x < d.request_timeout
    → d.request_timeout < 32768
    → tick_pd x d ≡ record d { request_timeout = d.request_timeout - x }
unfolding tick_pd
tick_pd_early x d s h l = ground arith

tick_pd_due :
    (x : ℕ) (d : Pd)
    → d.state ≡ ProcessState.sleeping
    → 0 < d.request_timeout
    → d.request_timeout ≤ x
    → x ≤ 32768
    → tick_pd x d ≡ record d { request_timeout = 0; state = ProcessState.ready; request_retval = 0 }
unfolding tick_pd
tick_pd_due x d s p h l = ground arith

tick_all_early :
    (xs : List ℕ) (d : Pd)
    → d.state ≡ ProcessState.sleeping
    → total xs < d.request_timeout
    → d.request_timeout < 32768
    → tick_all xs d ≡ record d { request_timeout = d.request_timeout - total xs }
unfolding tick_all total
tick_all_early [] d s h l = ground arith
tick_all_early (x ∷ xs) d s h l = rw (tick_pd_early x d s (omega arith) l) (
    tick_all_early xs (record d { request_timeout = d.request_timeout - x }) s (omega arith)
      (omega arith)
    ∙ ap (λ t. record d { request_timeout = t }) (omega arith))

tick_all-append : (xs ys : List ℕ) (d : Pd) → tick_all (xs ++ ys) d ≡ tick_all ys (tick_all xs d)
unfolding tick_all
tick_all-append [] ys d = refl
tick_all-append (x ∷ xs) ys d = tick_all-append xs ys (tick_pd x d)

-- A task that sleeps for fewer than 32768 ticks sleeps on while the ticks handled are fewer than
-- its timeout, with the difference left; the run of the handler that reaches its timeout, with
-- 32768 ticks at most, makes it ready with 0 as its result.
pub tick_all-sleeping :
    (xs : List ℕ) (x : ℕ) (d : Pd)
    → d.state ≡ ProcessState.sleeping
    → d.request_timeout < 32768
    → total xs < d.request_timeout
    → d.request_timeout ≤ total xs + x
    → x ≤ 32768
    → (tick_all xs d ≡ record d { request_timeout = d.request_timeout - total xs })
      × (tick_all (xs ++ (x ∷ [])) d
          ≡ record d { request_timeout = 0; state = ProcessState.ready; request_retval = 0 })
unfolding tick_all
tick_all-sleeping xs x d s l h h' w = (
  tick_all_early xs d s h l,
  tick_all-append xs (x ∷ []) d
      ∙ ap (tick_pd x) (tick_all_early xs d s h l)
      ∙ tick_pd_due x (record d { request_timeout = d.request_timeout - total xs }) s (omega arith)
          (omega arith) w,
)

-- The tick handler takes the timeout of a sleeping task for one that has passed when more than
-- 32767 ticks of it are left: the task is woken with its time gone, whatever the number of ticks.
pub tick_pd_long :
    (x : ℕ) (d : Pd)
    → d.state ≡ ProcessState.sleeping
    → d.request_timeout < 65536
    → x + 32768 ≤ d.request_timeout
    → tick_pd x d ≡ record d { request_timeout = 0; state = ProcessState.ready; request_retval = 0 }
unfolding tick_pd
tick_pd_long x d s w h = ground arith

-- Interrupts until one of them enters the kernel, `n` at most.
unfoldable pub interrupts : ℕ → M Bool
interrupts zero = pure false
interrupts (suc n) = kernel_tick_isr >>= λ entered. if entered then pure true else interrupts n

isr_counts :
    (k : Kernel)
    → k.preemptive_cswitch_allowed ≡ true
    → k.ticks_since_last_cswitch < 24
    → kernel_tick_isr k
      ≡ ok false (record k {
        tick_count = add_word k.tick_count 1;
        ticks_since_last_cswitch = k.ticks_since_last_cswitch + 1;
      })
unfolding kernel_tick_isr
isr_counts k a h = ground arith

isr_enters :
    (k : Kernel) (d : Pd)
    → k.preemptive_cswitch_allowed ≡ true
    → k.ticks_since_last_cswitch ≡ 24
    → k.tasks.cell k.current_process ≡ some d
    → kernel_tick_isr k
      ≡ ok true (record k {
        tick_count = add_word k.tick_count 1;
        ticks_since_last_cswitch = 25;
        tasks =
            set_cell k.tasks k.current_process
              (some (record d { request = KernelRequest.task_yield }));
      })
unfolding kernel_tick_isr
isr_enters k d a h e = ground arith

abbrev pub counted : Kernel → ℕ → ℕ → Kernel
counted k t c = record k { tick_count = t; ticks_since_last_cswitch = c }

-- Below the 25th tick the interrupts only count.
interrupts_later :
    (n m j t c t' c' : ℕ) (k : Kernel)
    → k.preemptive_cswitch_allowed ≡ true
    → c + n < 25
    → t + n < 65536
    → j ≡ n + m
    → t' ≡ t + n
    → c' ≡ c + n
    → interrupts j (counted k t c) ≡ interrupts m (counted k t' c')
unfolding interrupts
interrupts_later zero m j t c t' c' k a h w ej et ec =
    let pj : j ≡ m = omega arith in
    let pt : t' ≡ t = omega arith in let pc : c' ≡ c = omega arith in rw (pj, pt, pc)
interrupts_later (suc n) m zero t c t' c' k a h w ej et ec = absurd (omega arith)
interrupts_later (suc n) m (suc j) t c t' c' k a h w ej et ec =
    rw (isr_counts (counted k t c) a (omega arith)) (
      interrupts_later n m j (add_word t 1) (c + 1) t' c' k a (omega arith) (omega arith)
        (omega arith) (omega arith) (omega arith))

-- Preemption comes exactly at the 25th tick since the last switch: before it the interrupts only
-- count, and that one makes the request of the running task a yield and enters the kernel.
-- Preemption is on, at most 24 ticks have been counted since the switch, the tick count does not
-- wrap, and the running task is in memory.
pub interrupts_preempt :
    (n m : ℕ) (k : Kernel) (d : Pd)
    → k.preemptive_cswitch_allowed ≡ true
    → k.tick_count + 25 < 65536
    → k.ticks_since_last_cswitch + n ≡ 24
    → k.tasks.cell k.current_process ≡ some d
    → (interrupts n k ≡ ok false (counted k (k.tick_count + n) 24))
      × (interrupts (n + suc m) k
          ≡ ok true (record (counted k (k.tick_count + n + 1) 25) {
            tasks =
                set_cell k.tasks k.current_process
                  (some (record d { request = KernelRequest.task_yield }));
          }))
unfolding interrupts
interrupts_preempt n m k d a t h e = (
  interrupts_later n 0 n k.tick_count k.ticks_since_last_cswitch (k.tick_count + n) 24 k a
      (omega arith) (omega arith) (omega arith) refl (omega arith),
  interrupts_later n (suc m) (n + suc m) k.tick_count k.ticks_since_last_cswitch (k.tick_count + n)
        24 k a (omega arith) (omega arith) refl refl (omega arith)
      ∙ rw (isr_enters (counted k (k.tick_count + n) 24) d a refl e) (ground arith),
)
