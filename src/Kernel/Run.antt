-- ===== src/Kernel/Run.antt =====
-- Kernel code as functions on the kernel's state, which may fault.
use ez_rtos.Base.{
  ℕ, zero, suc, ◌+◌, ◌≡◌, true, Option, none, some, List, [], ◌∷◌, arith, ◌==◌, if◌then◌else◌, Ptr,
  null,
}
use mathlib.Core.Path.{fun_ext}
use ez_rtos.PtrList.{PtrList, is_empty, ptrlist_add}
use ez_rtos.Kernel.Types.{ErrorCode, ProcessState, Pd}
use ez_rtos.Kernel.Objects.{Mutex, Semaphore, Event, EventGroup, Mail, Mailbox, Objects}
use ez_rtos.Kernel.State.{Kernel}

-- `fault` is an access through a pointer to no object. `waiting` is a kernel that is still in its
-- idle loop when the interrupts that the run is given have all been served. `out_of_fuel` is a loop
-- that was given too few rounds.
pub data Run (A : Type 0) : Type 0 where
  ok : A → Kernel → Run A
  fault : Run A
  waiting : Kernel → Run A
  out_of_fuel : Run A

abbrev pub M : Type 0 → Type 0
M A = Kernel → Run A

abbrev pub pure : {A : Type 0} → A → M A
pure = ok

module _ {A B : Type 0} where
  abbrev pub and_then : Run A → (A → M B) → Run B
  and_then (ok a k) f = f a k
  and_then fault f = fault
  and_then (waiting k) f = waiting k
  and_then out_of_fuel f = out_of_fuel

  infixl 5 ◌>>=◌
  abbrev pub ◌>>=◌ : M A → (A → M B) → M B
  m >>= f = λ k. and_then (m k) f

infixl 5 ◌>>◌
abbrev pub ◌>>◌ : {B : Type 0} → M (Unit {0}) → M B → M B
m >> n = m >>= λ _. n

abbrev pub done : M (Unit {0})
done = ok tt

-- A result of the list and queue functions, whose `none` is a fault.
abbrev pub from_option : {A : Type 0} → Option A → M A
from_option none k = fault
from_option (some a) k = ok a k

abbrev pub get : M Kernel
get k = ok k k

abbrev pub put : Kernel → M (Unit {0})
put k' k = ok tt k'

-- The memory of one type of object, with one address written.
abbrev pub update : {A : Type 0} → (Ptr → Option A) → Ptr → Option A → Ptr → Option A
update f p c q = if p == q then c else f q

-- `*p` of each type of object.
abbrev pub load_pd : Ptr → M Pd
load_pd p k = elim (k.tasks.cell p) [ none ↦ fault | some d ↦ ok d k ]

abbrev pub load_mutex : Ptr → M Mutex
load_mutex p k = elim (k.mutexes.cell p) [ none ↦ fault | some m ↦ ok m k ]

abbrev pub load_semaphore : Ptr → M Semaphore
load_semaphore p k = elim (k.semaphores.cell p) [ none ↦ fault | some s ↦ ok s k ]

abbrev pub load_event : Ptr → M Event
load_event p k = elim (k.events.cell p) [ none ↦ fault | some e ↦ ok e k ]

abbrev pub load_event_group : Ptr → M EventGroup
load_event_group p k = elim (k.event_groups.cell p) [ none ↦ fault | some e ↦ ok e k ]

abbrev pub load_mailbox : Ptr → M Mailbox
load_mailbox p k = elim (k.mailboxes.cell p) [ none ↦ fault | some m ↦ ok m k ]

abbrev pub load_mail : Ptr → M Mail
load_mail p k = elim (k.mails p) [ none ↦ fault | some m ↦ ok m k ]

-- `*p = v`, after a read of `*p`; with `none`, `free(p)`.
abbrev pub set_cell : {A : Type 0} → Objects A → Ptr → Option A → Objects A
set_cell o p c = record o { cell = update o.cell p c }

abbrev pub store_pd : Ptr → Option Pd → M (Unit {0})
store_pd p c k = ok tt (record k { tasks = set_cell k.tasks p c })

abbrev pub store_mutex : Ptr → Option Mutex → M (Unit {0})
store_mutex p c k = ok tt (record k { mutexes = set_cell k.mutexes p c })

abbrev pub store_semaphore : Ptr → Option Semaphore → M (Unit {0})
store_semaphore p c k = ok tt (record k { semaphores = set_cell k.semaphores p c })

abbrev pub store_event : Ptr → Option Event → M (Unit {0})
store_event p c k = ok tt (record k { events = set_cell k.events p c })

abbrev pub store_event_group : Ptr → Option EventGroup → M (Unit {0})
store_event_group p c k = ok tt (record k { event_groups = set_cell k.event_groups p c })

abbrev pub store_mailbox : Ptr → Option Mailbox → M (Unit {0})
store_mailbox p c k = ok tt (record k { mailboxes = set_cell k.mailboxes p c })

abbrev pub store_mail : Ptr → Option Mail → M (Unit {0})
store_mail p c k = ok tt (record k { mails = update k.mails p c })

-- `Current_Process->state = s`.
abbrev pub set_state : Ptr → ProcessState → M (Unit {0})
set_state p s = load_pd p >>= λ d. store_pd p (some (record d { state = s }))

-- `Current_Process->request_retval = v`.
abbrev pub set_retval : Ptr → ℕ → M (Unit {0})
set_retval p v = load_pd p >>= λ d. store_pd p (some (record d { request_retval = v }))

-- The address of `Current_Process`, and `Kernel_Request_Cswitch = 1`.
abbrev pub current : M Ptr
current k = ok k.current_process k

abbrev pub request_cswitch : M (Unit {0})
request_cswitch k = ok tt (record k { kernel_request_cswitch = true })

abbrev pub kernel_error_handler : ErrorCode → M (Unit {0})
kernel_error_handler e k = ok tt k

-- `kernel_raise_error`, less its print.
abbrev pub raise_error : ErrorCode → M (Unit {0})
raise_error e k = kernel_error_handler e (record k { err = e })

unfoldable pub take_answer : List Ptr → Kernel → Run Ptr
take_answer [] k = ok null k
take_answer (p ∷ ps) k = ok p (record k { answers = ps })

-- `malloc`: the next answer.
unfoldable pub malloc : M Ptr
unfolding take_answer
malloc k = take_answer k.answers k

-- `memcpy(dst, src, n)` on the bytes of the memory.
unfoldable pub copy_bytes : ℕ → Ptr → Ptr → (Ptr → ℕ) → Ptr → ℕ
copy_bytes zero dst src b = b
copy_bytes (suc n) dst src b =
    copy_bytes n (dst + 1) (src + 1) (λ q. if dst == q then b src else b q)

unfoldable pub memcpy : Ptr → Ptr → ℕ → M (Unit {0})
unfolding copy_bytes
memcpy dst src n k = ok tt (record k { bytes = copy_bytes n dst src k.bytes })

-- `memset(p, 0, n)`.
unfoldable pub clear_bytes : ℕ → Ptr → (Ptr → ℕ) → Ptr → ℕ
clear_bytes zero p b = b
clear_bytes (suc n) p b = clear_bytes n (p + 1) (λ q. if p == q then 0 else b q)

unfoldable pub memset_zero : Ptr → ℕ → M (Unit {0})
unfolding clear_bytes
memset_zero p n k = ok tt (record k { bytes = clear_bytes n p k.bytes })

-- `*p = v` of an `unsigned char`.
abbrev pub write_byte : Ptr → ℕ → (Ptr → ℕ) → Ptr → ℕ
write_byte p v b q = if p == q then v else b q

-- `ptrlist_add(&l, p)`: a node is allocated unless the list is empty.
unfoldable pub list_add : PtrList → Ptr → M PtrList
unfolding malloc
list_add l p =
    if is_empty l
    then from_option (ptrlist_add l p null)
    else (malloc >>= λ e. from_option (ptrlist_add l p e))

-- `if(KernelActive) Current_Process->request_retval = v;`
abbrev pub reply_if_active : ℕ → M (Unit {0})
reply_if_active v k = (if k.kernel_active then set_retval k.current_process v else done) k

-- The later of two writes to an address counts.
pub update-update :
    {A : Type 0} (f : Ptr → Option A) (p : Ptr) (c c' : Option A)
    → update (update f p c) p c' ≡ update f p c'
update-update f p c c' = fun_ext λ q. update_at q
  where
    update_at : (q : Ptr) → update (update f p c) p c' q ≡ update f p c' q
    update_at q = ground arith
