-- ===== src/Examples/Idle.antt =====
-- The theorem on the idle loop, at a concrete kernel.
use ez_rtos.Scheduler.Dispatch.{idle}
use ez_rtos.Scheduler.Dispatch.Wakes.{AnyReady, handled}
use ez_rtos.Scheduler.Dispatch.Wakes.Ends.{idle-ends}
use ez_rtos.Scheduler.Tick.{tick_pd}
use ez_rtos.Kernel.Types.{ProcessState, Pd}
use ez_rtos.Kernel.State.{Kernel}
use ez_rtos.Kernel.Run.{ok}
use ez_rtos.Base.{
  ℕ, zero, suc, ◌≡◌, refl, inl, none, some, List, [], ◌∷◌, ◌++◌, arith, ◌==◌, if◌then◌else◌,
}
use ez_rtos.Examples.{task, machine}

-- One task, which sleeps for 50 more ticks.
abbrev sleeper : Pd
sleeper = record (task 1 3 ProcessState.sleeping) { request_timeout = 50 }

abbrev asleep : Kernel
asleep = record (machine sleeper sleeper sleeper) {
  tasks = record {
    list = record { addr = 10; ptr = 100; next = [] };
    count = 1;
    last_id = 1;
    cell = λ p. if p == 100 then some sleeper else none;
  };
}

-- One tick in each of `n` rounds.
abbrev ticking : ℕ → List ℕ
ticking zero = []
ticking (suc n) = 1 ∷ ticking n

-- It is awake by the time that 100 ticks have come in.
awake : AnyReady (handled asleep 100).tasks.cell (record { addr = 10; ptr = 100 } ∷ [])
unfolding tick_pd
awake = inl (
  record sleeper { request_timeout = 0; state = ProcessState.ready; request_retval = 0 },
  refl,
  refl,
)

idle-ends_example :
    (k' : Kernel) × (idle (ticking 99 ++ (1 ∷ (0 ∷ 0 ∷ []))) 10 0 asleep ≡ ok tt k')
    × (k'.tasks ≡ (handled asleep 100).tasks)
idle-ends_example =
    idle-ends (ticking 99) (0 ∷ 0 ∷ []) 1 10 asleep
      ([], record { addr = 10; ptr = 100 }, [], refl, refl) (omega arith, refl, tt)
      ((sleeper, refl), refl, tt) ((sleeper, refl, refl), tt) refl (omega arith) refl (omega arith)
      awake (omega arith)
