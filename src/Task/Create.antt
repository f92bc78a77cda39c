-- ===== src/Task/Create.antt =====
-- Creating a task.
use ez_rtos.PtrList.{PtrList, is_empty, ptrlist_add}
use ez_rtos.Kernel.Types.{ErrorCode, ProcessState, KernelRequest, Pd}
use ez_rtos.Kernel.State.{Kernel}
use ez_rtos.Kernel.Run.{
  update, malloc, clear_bytes, memset_zero, write_byte, list_add, update-update, ok,
}
use ez_rtos.Base.{
  ℕ, ◌<◌, ◌≡◌, refl, ◌∙◌, ◌≢◌, inl, inr, false, some, List, [], ◌∷◌, ◌++◌, arith, ◌==◌,
  if◌then◌else◌, Bool-cases, Ptr, null, add_word, sub_word,
}
use ez_rtos.PtrList.Change.{contents, contents-ptrlist_add}
use ez_rtos.Task.{
  low_byte, high_byte, kernel_init_task_stack, register_task, kernel_create_task_direct,
}

-- The descriptor of a new task whose stack is at `stack`.
abbrev pub created : Pd → ℕ → Ptr → ℕ → ℕ → ℕ → Ptr → Pd
created junk pid f stack_size py arg stack = record junk {
  pid = pid;
  pri = py;
  stack_size = stack_size;
  stack = stack;
  arg = arg;
  request = KernelRequest.none_request;
  state = ProcessState.ready;
  code = f;
  starvation_ticks = 0;
}

-- The variables of the kernel with the task `d` at `p` and the list `list`.
abbrev pub registered : Kernel → List Ptr → PtrList → Ptr → Pd → Kernel
registered k later list p d = record k {
  answers = later;
  tasks = record (k.tasks) {
    list = list;
    count = add_word k.tasks.count 1;
    last_id = add_word k.tasks.last_id 1;
    cell = update k.tasks.cell p (some d);
  };
}

-- The bytes `b` with the six that `Kernel_Init_Task_Stack` writes from `sp` downwards.
unfoldable pub framed : Ptr → Ptr → (Ptr → ℕ) → Ptr → Ptr → ℕ
framed terminate f b sp = write_byte (sub_word sp 5) 0 (
    write_byte (sub_word sp 4) (high_byte f) (
      write_byte (sub_word sp 3) (low_byte f) (
        write_byte (sub_word sp 2) 0 (
          write_byte (sub_word sp 1) (high_byte terminate)
            (write_byte sp (low_byte terminate) b)))))

kernel_init_task_stack-framed :
    (terminate sp f : Ptr) (k : Kernel)
    → sp < 65536
    → kernel_init_task_stack terminate sp f k
      ≡ ok (sub_word (sub_word sp 6) 34) (record k { bytes = framed terminate f k.bytes sp })
unfolding kernel_init_task_stack framed
kernel_init_task_stack-framed terminate sp f k l =
    let s2 : sub_word (sub_word sp 1) 1 ≡ sub_word sp 2 = omega arith in
    let s3 : sub_word (sub_word sp 2) 1 ≡ sub_word sp 3 = omega arith in
    let s4 : sub_word (sub_word sp 3) 1 ≡ sub_word sp 4 = omega arith in
    let s5 : sub_word (sub_word sp 4) 1 ≡ sub_word sp 5 = omega arith in
    let s6 : sub_word (sub_word sp 5) 1 ≡ sub_word sp 6 = omega arith in
    rw (s2, s3, s4, s5, s6) refl

module _ (terminate : Ptr) (k : Kernel) (junk : Pd) (f : Ptr) (stack_size py arg : ℕ)
    (p e stack : Ptr) (later : List Ptr) (space : k.tasks.count ≢ 16)
    (used : is_empty k.tasks.list ≡ false) (given : k.answers ≡ p ∷ e ∷ stack ∷ later)
    (np : p ≢ null) (ne : e ≢ null) where
  abbrev fresh : Pd
  fresh = created junk (add_word k.tasks.last_id 1) f stack_size py arg stack

  list_added :
      (list : PtrList)
      → ptrlist_add k.tasks.list p e ≡ some list
      → list_add k.tasks.list p (record k { answers = e ∷ stack ∷ later })
        ≡ ok list (record k { answers = stack ∷ later })
  unfolding list_add malloc
  list_added list h = ground arith

  -- The descriptor is written, then given its stack, then its stack pointer.
  abbrev bare : Pd
  bare = record fresh { stack = junk.stack }

  abbrev last_byte : Ptr
  last_byte = add_word stack (sub_word stack_size 1)

  abbrev ready_to_run : Pd
  ready_to_run = record fresh { sp = sub_word (sub_word last_byte 6) 34 }

  abbrev waiting_for_stack : Kernel
  waiting_for_stack = record k { answers = stack ∷ later }

  -- When `Kernel_Init_Task_Stack` is called.
  abbrev with_stack : PtrList → Kernel
  with_stack list = record (registered k later list p fresh) {
    tasks = record (k.tasks) {
      list = list;
      count = add_word k.tasks.count 1;
      last_id = add_word k.tasks.last_id 1;
      cell = update (update k.tasks.cell p (some bare)) p (some fresh);
    };
    bytes = clear_bytes stack_size stack k.bytes;
  }

  gives :
      (list : PtrList)
      → ptrlist_add k.tasks.list p e ≡ some list
      → kernel_create_task_direct terminate junk f stack_size py arg k
        ≡ register_task terminate p list junk f stack_size py arg waiting_for_stack
  unfolding kernel_create_task_direct malloc
  gives list h = ground (arith, list_added list h)

  registers :
      (list : PtrList)
      → register_task terminate p list junk f stack_size py arg waiting_for_stack ≡ (
          if stack == null
          then ok 0 (record (registered k later list p fresh) { err = ErrorCode.malloc_failed_err })
          else ok (add_word k.tasks.last_id 1) (record (registered k later list p ready_to_run) {
            bytes = framed terminate f (clear_bytes stack_size stack k.bytes) last_byte;
          }))
  unfolding register_task malloc memset_zero
  registers list = elim (Bool-cases (stack == null)) [
    | inl failed ↦ rw failed (ground (arith, update-update k.tasks.cell p (some bare) (some fresh)))
    | inr given_one ↦
        let start =
          kernel_init_task_stack-framed terminate last_byte f (with_stack list) (omega arith) in
        rw given_one (
          ground (
            arith,
            start,
            update-update k.tasks.cell p (some bare) (some fresh),
            update-update k.tasks.cell p (some fresh) (some ready_to_run),
          ))
  ]

  -- Kernel_Create_Task_Direct puts a ready task with the next identifier at the end of the process
  -- list. With a stack allocated it returns the identifier, and the stack pointer is 40 bytes below
  -- the last byte of the stack. If the stack cannot be allocated it raises an error and returns 0,
  -- and the ready task without a stack stays in the list and in the count. There are not 16 tasks,
  -- the list is in use, and the allocations of the descriptor and of the list node succeed.
  pub kernel_create_task_direct_registers :
      (list : PtrList) × (contents list ≡ contents k.tasks.list ++ (p ∷ []))
      × (kernel_create_task_direct terminate junk f stack_size py arg k ≡ (
          if stack == null
          then ok 0 (record (registered k later list p fresh) { err = ErrorCode.malloc_failed_err })
          else ok (add_word k.tasks.last_id 1) (record (registered k later list p ready_to_run) {
            bytes = framed terminate f (clear_bytes stack_size stack k.bytes) last_byte;
          })))
  kernel_create_task_direct_registers =
      let (list, h, c) = contents-ptrlist_add k.tasks.list p e np ne in
      (list, c, gives list h ∙ registers list)
