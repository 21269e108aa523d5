-- ===== src/Lib.antt =====
-- Verification library of the concurrency course repository: the synchronisation primitives,
-- executors and futures that its tasks implement in C++.
--
-- Threads and schedules. Threads.antt holds what all concurrent parts share: a family of program
-- counters, one for each thread, and schedules that interleave the threads' steps. A schedule
-- is a list of turns, of any length and in any order; a theorem about `run step n ts init` is
-- about every reachable state of `n` threads. A step is one access to an atomic, or one critical
-- section under a mutex of the standard library, which no other critical section can interrupt.
-- Memory is sequentially consistent: memory orders are not modelled.
--
-- The parts:
--   Base                the shared names, tests on numbers, lists by native length
--   Futex               what the code relies on of twist::ed::futex, as a parameter with laws
--   Locks.SpinLock      tasks/mutex/spinlock: `exchange`, `lock_round`, `try_lock`, `unlock`
--   Locks.FutexMutex    tasks/mutex/mutex/mutex.hpp: `Lock` in the steps `lock_fast`, `lock_body`,
--                       `Wait`, `lock_again`; `Unlock` in the steps `unlock` and `WakeOne`
--   Cond.Semaphore      tasks/cond/semaphore: `acquire`, `release`, and the tokens
--   Cond.BoundedQueue   tasks/cond/semaphore/queue.hpp: the lines of `Put` and `Take`, over three
--                       semaphores of Cond.Semaphore
--   Exec.BlockingQueue  tasks/tasks/thread-pool/tp/queue.hpp: the critical sections of `Put`,
--                       `Take` and `Close`, and their notifications
--   Exec.Manual         tasks/tasks/executors/exe/executors/manual.cpp: the loops of `RunAtMost` and,
--                       on fuel, `Drain`
--   Exec.Strand         tasks/tasks/executors/exe/executors/strand.cpp over a queue that is a
--                       list, and Exec.Strand.Queue, over exe/support/msqueue.hpp at its accesses of
--                       `head_`, `tail_` and the nodes' links, with `CollectGarbage`; the second
--                       refines the first. A use of a deleted node sets `fault`, and the theorems
--                       are about schedules where it is not set: the code does not rule it out.
--                       The address of a deleted node is not used again.
--   Locks.TicketLock    tasks/mutex/try-lock/ticket_lock.hpp: `Lock` in the steps `take_ticket` and
--                       `is_waiting`, `TryLock`, and `unlock`
--   Locks.QueueSpinLock tasks/mutex/queue/queue_spinlock.hpp: `Acquire` and `Release` at their
--                       accesses of `tail_` and of the guards
--   Locks.Dining        tasks/mutex/dining: the table's forks, and `Eat` from lock to unlock
--   Locks.TrickyLock    tasks/mutex/livelock/tricky_lock.hpp: `step_in`, `step_back`, `unlock`
--   Cond.Barrier        tasks/cond/barrier/cyclic_barrier.hpp: `ArriveAndWait` at its accesses of the
--                       counters
--   Cond.WaitGroup      tasks/cond/wait_group/wait_group.hpp: `Add`, `Done` and `Wait` at their
--                       atomic accesses, over the futex
--   Fibers.Mutex        tasks/fibers/mutex/exe/fibers/sync/mutex.hpp: the steps of `LockAwaiter` and
--                       `UnlockAwaiter`
--   Fibers.Event        tasks/fibers/mutex/exe/fibers/sync/event.hpp: the step of `EventAwaiter`, and
--                       `Fire` with its loop
--   Fibers.WaitGroup    tasks/fibers/mutex/exe/fibers/sync/wait_group.hpp: `Add`, `Done` and `Wait`
--                       at their atomic accesses and operations of the queue
--   Futures.StdFuture   tasks/futures/std/stdlike: the steps of `SetValue`, `SetException` and `Get`
--   Futures.RefCounter  tasks/futures/fun/exe/support/ref_counter.hpp, which the callbacks share of
--   Futures.First       combine/par/first.hpp and
--   Futures.Both        combine/par/all.hpp of tasks/futures/fun/exe/futures
--   Futures.SharedState tasks/futures/fun/exe/futures/state/shared_state.hpp: the steps of
--                       `SetResult`, and of `SetCallback` or `SyncGet`, over the shared state
--   Futures.Result      tasks/futures/fun/exe/result/types/result.hpp
--   LockFree.StealQueue tasks/lockfree/steal/work_stealing_queue.hpp: `TryPush`, `TryPop` and `Grab`
--                       at their atomic accesses
--   LockFree.StampedPtr tasks/lockfree/stack/atomic_stamped_ptr.hpp: the packing and the atomic word
--   LockFree.SharedPtr  tasks/lockfree/shared_ptr/shared_ptr.hpp: `increment_counter`, and the calls
--                       of `SharedPtr` and `AtomicSharedPtr` at their accesses
--   LockFree.SplitStack tasks/lockfree/stack/lock_free_stack.hpp: `Push` and `TryPop` at their
--                       accesses of `head_` and of the counters, and the destructor
--   Memory.Refer        tasks/tasks/executors/exe/support/refer: the constructors and methods of `Ref`
--                       over `RefCounted`, on the Ref variables of a program
--
-- A method is a function from the object's state to its new state and what it returns; a method
-- with several atomic accesses is one function for each access, and a constructor of `Pc` for each
-- place between them, with the locals that are live there. Counters of fixed width wrap around.
-- Fields that the source does not have (such as `taken`, `accepted`, `pushed`, `executed`, `sets`,
-- `generation` and `is_called`, and `submitted` of the shared state) record what happened.
--
-- Bounds: schedules have any length, except in Exec.Strand, LockFree.StealQueue, Locks.TicketLock
-- and Memory.Refer, where a schedule has at most 2^62 steps, so that no 64-bit counter can run a
-- full circle, and in LockFree.SharedPtr, where it has at most 64000, so that `Load` does not handle
-- an overflow of the stamp, and in LockFree.SplitStack, where it has at most 65535, so that the stamp
-- fits the stamped pointer. The fuel of `Drain` is enough if it is at least the weight of the queue,
-- for any weight by which a task outweighs what it submits.
--
-- Not modelled: memory orders, allocation failure, logging, and the code that the repository only
-- calls (twist, sure, wheels, function2, expected), which is a parameter where it matters.
pub mod Base
pub mod Fibers
pub mod Futures
pub mod Futex
pub mod LockFree
pub mod Memory
pub mod Threads
pub mod Locks
pub mod Cond
pub mod Exec
