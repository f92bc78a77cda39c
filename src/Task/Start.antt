-- ===== src/Task/Start.antt =====
-- The bytes of a new task's stack, and what the bottom half of `Exit_Kernel` of
-- hardware/cswitch.s loads from them when the task is entered for the first time.
use ez_rtos.PtrList.{is_empty}
use ez_rtos.Kernel.Types.{ProcessState, Pd}
use ez_rtos.Kernel.State.{Kernel}
use ez_rtos.Kernel.Run.{clear_bytes, ok}
use ez_rtos.Task.Create.{created, registered, framed, kernel_create_task_direct_registers}
use ez_rtos.Kernel.Bytes.{clear_bytes-outside, clear_bytes-cleared}
use ez_rtos.Task.{kernel_create_task_direct}
use ez_rtos.Base.{
  ℕ, zero, suc, ◌+◌, ◌-◌, ◌*◌, ◌≤◌, ◌<◌, ◌≡◌, refl, ap, ◌∙◌, ◌≢◌, ◌⊎◌, inl, inr, false, some, List,
  [], ◌∷◌, arith, ◌==◌, ==_refl, ==_ne, Ptr, null, add_word, sub_word,
}

-- `pop`: the stack pointer goes up, then the byte is read.
unfoldable pub pop_each : ℕ → Ptr → (Ptr → ℕ) → List ℕ × Ptr
pop_each zero sp b = ([], sp)
pop_each (suc n) sp b =
    let top = add_word sp 1 in let (vs, last) = pop_each n top b in (b top ∷ vs, last)

-- What `RESTORECTX` loads: `SREG`, `EIND`, and r31 to r0.
pub record Context : Type 0 where
  pub sreg : ℕ
  pub eind : ℕ
  pub registers : List ℕ

-- The address that `ret` and `reti` pop, its highest byte first.
unfoldable pub pop_address : Ptr → (Ptr → ℕ) → ℕ × Ptr
pop_address sp b =
    let high = add_word sp 1 in
    let middle = add_word high 1 in
    let low = add_word middle 1 in (b high * 65536 + b middle * 256 + b low, low)

-- `RESTORECTX` and `reti`: the context, the program counter and the stack pointer.
unfoldable pub enter_task : Ptr → (Ptr → ℕ) → Context × ℕ × Ptr
enter_task sp b =
    let (registers, after) = pop_each 32 (add_word (add_word sp 1) 1) b in
    let (pc, last) = pop_address after b in
    (
      record {
        sreg = b (add_word sp 1);
        eind = b (add_word (add_word sp 1) 1);
        registers = registers;
      },
      pc,
      last,
    )

abbrev pub zeros : ℕ → List ℕ
zeros zero = []
zeros (suc n) = 0 ∷ zeros n

pop_each-zeros :
    (n : ℕ) (sp : Ptr) (b : Ptr → ℕ)
    → ((i : ℕ) → i < n → b (sp + 1 + i) ≡ 0)
    → sp + n < 65536
    → pop_each n sp b ≡ (zeros n, sp + n)
unfolding pop_each
pop_each-zeros zero sp b z l = ap (λ q. ([], q)) (omega arith)
pop_each-zeros (suc n) sp b z l =
    let top : add_word sp 1 ≡ sp + 1 = omega (arith, l) in
    let first : b (sp + 1) ≡ 0 = ap b (omega arith) ∙ z 0 (omega arith) in
    let last : sp + 1 + n ≡ sp + suc n = omega arith in
    rw
      (
        top,
        first,
        pop_each-zeros n (sp + 1) b (λ i m. ap b (omega arith) ∙ z (suc i) (omega (arith, m)))
            (omega (arith, l)),
        last,
      )
      refl

module _ (terminate f : Ptr) (b : Ptr → ℕ) (t : Ptr) (l : 6 ≤ t) (u : t < 65536) where
  framed-below : (q : Ptr) → q + 5 < t → framed terminate f b t q ≡ b q
  unfolding framed
  framed-below q h = ground arith

  framed-above : (q : Ptr) → t < q → framed terminate f b t q ≡ b q
  unfolding framed
  framed-above q h = ground arith

  -- The two return addresses on the stack.
  framed-entry : f < 65536 → pop_address (t - 6) (framed terminate f b t) ≡ (f, t - 3)
  unfolding framed pop_address
  framed-entry h =
      let a1 : add_word (t - 6) 1 ≡ t - 5 = omega (arith, l, u) in
      let a2 : add_word (t - 5) 1 ≡ t - 4 = omega (arith, l, u) in
      let a3 : add_word (t - 4) 1 ≡ t - 3 = omega (arith, l, u) in rw (a1, a2, a3) (ground arith)

  framed-return : terminate < 65536 → pop_address (t - 3) (framed terminate f b t) ≡ (terminate, t)
  unfolding framed pop_address
  framed-return h =
      let a1 : add_word (t - 3) 1 ≡ t - 2 = omega (arith, l, u) in
      let a2 : add_word (t - 2) 1 ≡ t - 1 = omega (arith, l, u) in
      let a3 : add_word (t - 1) 1 ≡ t = omega (arith, l, u) in rw (a1, a2, a3) (ground arith)

abbrev pub blank_context : Context
blank_context = record { sreg = 0; eind = 0; registers = zeros 32 }

-- The stack of `size` bytes at `stack` is that of a task that is to start with `f`. `b0` is the
-- memory before.
pub record IsStartStack (terminate f stack size : ℕ) (b0 : Ptr → ℕ) (sp : Ptr) (b : Ptr → ℕ)
    : Type 0 where
  pub enters : enter_task sp b ≡ (blank_context, f, stack + size - 4)
  pub leaves : pop_address (stack + size - 4) b ≡ (terminate, stack + size - 1)
  pub others : (q : Ptr) → (q < stack) ⊎ (stack + size ≤ q) → b q ≡ b0 q

module _ (terminate f stack size : ℕ) (b0 : Ptr → ℕ) (room : 40 ≤ size)
    (fits : stack + size < 65537) (ns : stack ≢ null) (code : f < 65536)
    (exit : terminate < 65536) where
  abbrev clear : Ptr → ℕ
  clear = clear_bytes size stack b0

  abbrev start : Ptr → ℕ
  start = framed terminate f clear (stack + size - 1)

  start-blank : (i : ℕ) → i + 6 < size → start (stack + i) ≡ 0
  start-blank i h =
      framed-below terminate f clear (stack + size - 1) (omega arith) (omega arith) (stack + i)
        (omega arith)
      ∙ clear_bytes-cleared size i stack b0 (omega arith)

  start-others : (q : Ptr) → (q < stack) ⊎ (stack + size ≤ q) → start q ≡ b0 q
  start-others q (inl h) =
      framed-below terminate f clear (stack + size - 1) (omega arith) (omega arith) q (omega arith)
      ∙ clear_bytes-outside size stack q b0 (inl h)
  start-others q (inr h) =
      framed-above terminate f clear (stack + size - 1) (omega arith) (omega arith) q (omega arith)
      ∙ clear_bytes-outside size stack q b0 (inr h)

  register-blank : (i : ℕ) → i < 32 → start (stack + (size - 39) + 1 + i) ≡ 0
  register-blank i h =
      let at : stack + (size - 39) + 1 + i ≡ stack + (size - 38 + i) = omega arith in
      ap start at ∙ start-blank (size - 38 + i) (omega arith)

  start-leaves : pop_address (stack + size - 4) start ≡ (terminate, stack + size - 1)
  start-leaves =
      let from : stack + size - 4 ≡ stack + size - 1 - 3 = omega arith in
      ap (λ sp. pop_address sp start) from
      ∙ framed-return terminate f clear (stack + size - 1) (omega arith) (omega arith) exit

  start-enters : enter_task (stack + size - 41) start ≡ (blank_context, f, stack + size - 4)
  unfolding enter_task
  start-enters =
      let t : ℕ = stack + size - 1 in
      let a1 : add_word (stack + size - 41) 1 ≡ stack + (size - 40) = omega arith in
      let a2 : add_word (stack + (size - 40)) 1 ≡ stack + (size - 39) = omega arith in
      let sreg : start (stack + (size - 40)) ≡ 0 = start-blank (size - 40) (omega arith) in
      let eind : start (stack + (size - 39)) ≡ 0 = start-blank (size - 39) (omega arith) in
      let after : stack + (size - 39) + 32 ≡ t - 6 = omega arith in
      let last : t - 3 ≡ stack + size - 4 = omega arith in
      let entry = framed-entry terminate f clear t (omega arith) (omega arith) code in
      rw
        (
          a1,
          a2,
          sreg,
          eind,
          pop_each-zeros 32 (stack + (size - 39)) start (λ i h. register-blank i h) (omega arith),
          after,
          entry,
          last,
        )
        refl

  start-IsStartStack : IsStartStack terminate f stack size b0 (stack + size - 41) start
  start-IsStartStack = record {
    enters = start-enters;
    leaves = start-leaves;
    others = start-others;
  }

-- A task that Kernel_Create_Task_Direct makes is entered at its function: from its stack pointer
-- RESTORECTX loads 34 zeros, reti pops the address of the function, and what is then left on the
-- stack is the address of Task_Terminate, for a function that returns. No byte outside the stack
-- changes. There are not 16 tasks, the list is in use, the three allocations succeed, the stack has
-- at least 40 bytes and lies within the address space, and the addresses of the function and of
-- Task_Terminate are words.
pub enter_task-kernel_create_task_direct :
    (terminate : Ptr) (k : Kernel) (junk : Pd) (f : Ptr) (stack_size py arg : ℕ) (p e stack : Ptr)
    (later : List Ptr)
    → k.tasks.count ≢ 16
    → is_empty k.tasks.list ≡ false
    → k.answers ≡ p ∷ e ∷ stack ∷ later
    → p ≢ null
    → e ≢ null
    → stack ≢ null
    → 40 ≤ stack_size
    → stack + stack_size < 65537
    → f < 65536
    → terminate < 65536
    → (k' : Kernel) × (d : Pd) × (kernel_create_task_direct terminate junk f stack_size py arg k
        ≡ ok (add_word k.tasks.last_id 1) k')
      × (k'.tasks.cell p ≡ some d)
      × (d.state ≡ ProcessState.ready)
      × IsStartStack terminate f stack stack_size k.bytes d.sp k'.bytes
enter_task-kernel_create_task_direct terminate k junk f stack_size py arg p e stack later space used
      given np ne ns room fits code exit =
    let (list, _, run) =
      kernel_create_task_direct_registers terminate k junk f stack_size py arg p e stack later space
        used given np ne in
    let there : (stack == null) ≡ false = ==_ne stack null ns in
    let bottom : add_word stack (sub_word stack_size 1) ≡ stack + stack_size - 1 = omega arith in
    let top : sub_word (sub_word (stack + stack_size - 1) 6) 34 ≡ stack + stack_size - 41 =
      omega arith in
    let sp : Ptr = sub_word (sub_word (add_word stack (sub_word stack_size 1)) 6) 34 in
    let d : Pd = record (created junk (add_word k.tasks.last_id 1) f stack_size py arg stack) {
      sp = sp;
    } in
    (
      record (registered k later list p d) {
        bytes =
            framed terminate f (clear_bytes stack_size stack k.bytes)
              (add_word stack (sub_word stack_size 1));
      },
      d,
      run ∙ rw there refl,
      rw (==_refl p) refl,
      refl,
      rw (bottom, top)
          (start-IsStartStack terminate f stack stack_size k.bytes room fits ns code exit),
    )
