-- ===== src/Mailbox/Transfer/Ends/Fuel.antt =====
-- The fuel that the two loops over the waiting tasks are given.
use ez_rtos.Mailbox.Sound.{AllSound, Sound}
use ez_rtos.Mailbox.Transfer.{send_from_queue, recv_from_queue, fuel_of}
use ez_rtos.Mailbox.Transfer.Ends.Rounds.{send_from_queue-Keeps, recv_from_queue-Keeps}
use ez_rtos.Kernel.State.{Kernel}
use ez_rtos.Kernel.Objects.{Mailbox}
use ez_rtos.Kernel.Run.{out_of_fuel}
use ez_rtos.Base.{ℕ, zero, suc, ◌≤◌, ◌≡◌, ◌≢◌, some, arith, Ptr}
use ez_rtos.Kernel.Ensures.{Ensures-ne-out_of_fuel}

-- The two loops over the tasks that wait to send to a box and to receive from it, which call one
-- another, end: with one round more than there are tasks waiting, or with more, neither runs out of
-- fuel. The mailboxes are sound.
pub from_queue-ends :
    (n : ℕ) (mb : Ptr) (k : Kernel) (m : Mailbox)
    → AllSound k
    → k.mailboxes.cell mb ≡ some m
    → fuel_of m ≤ n
    → (send_from_queue n mb k ≢ out_of_fuel) × (recv_from_queue n mb k ≢ out_of_fuel)
from_queue-ends zero mb k m h e few = absurd (omega (arith, few))
from_queue-ends (suc n) mb k m h e few =
    let s : Sound n mb k = record { boxes = h; box = m; holds_box = e; few = omega (arith, few) } in
    (
      Ensures-ne-out_of_fuel (send_from_queue-Keeps n mb k s),
      Ensures-ne-out_of_fuel (recv_from_queue-Keeps n mb k s),
    )
