-- ===== src/Lib.antt =====
-- corral, a header-only C++ library for structured concurrency: its containers and its
-- synchronisation primitives.
--
-- corral/detail/Queue.h is a circular buffer that grows; the executor and the channels keep
-- their items in it. corral/detail/ParkingLot.h is a wait queue on
-- corral/detail/IntrusiveList.h; corral/Semaphore.h, corral/Event.h, corral/Value.h and both
-- halves of corral/Channel.h are wait queues with a state of their own. corral/detail/wait.h
-- is what anyOf, mostOf and allOf are made of. A task is a promise (corral/detail/Promise.h),
-- and a nursery (corral/Nursery.h) owns tasks. corral/Shared.h lets several tasks await one
-- operation, corral/ThreadPool.h runs functions in other threads for tasks that await them,
-- corral/CBPortal.h makes a callback awaitable and corral/detail/Sequence.h joins two
-- awaitables. Their awaiters are driven by tasks: constructed, asked whether they are ready,
-- suspended, cancelled, resumed and destroyed.
--
-- Where each part is modelled:
--
-- - Base: names of the libraries, lists over the native numbers, and lists of awaiters.
-- - Queue (corral/detail/Queue.h): `Queue` is the class, with pointers as indices from
--   `buffer_` and the buffer as raw memory; each operation is a function. Queue.Cells has the
--   ranges of cells, Queue.Rep says which list a queue holds, Queue.Grow, Queue.Append,
--   Queue.PopTo and Queue.Visit are about the operations, Queue.Whole is
--   about the destruction of a queue, and Queue.Refine about sequences of operations.
-- - ParkingLot (corral/detail/ParkingLot.h, corral/detail/IntrusiveList.h,
--   corral/ParkingLot.h): `Lot` is the order of the awaiters that wait, and of those resumed.
-- - Channel (corral/Channel.h): `Channel` has a queue and two `Half` records.
--   Channel.Awaiters has the awaiters; Channel.Inv the invariant; Channel.Wake
--   `wakeAwaiters`; Channel.Read, Channel.Write and Channel.WriteRange the four forms of
--   `tryTransfer`; Channel.Closing `close`; Channel.Claims and Channel.Resume the life of an
--   awaiter.
-- - Semaphore (corral/Semaphore.h) and Event (corral/Event.h), with Semaphore.Runs and
--   Event.Runs on sequences of calls.
-- - Mux (corral/detail/wait.h): a combiner with its children, each with its state; the
--   awaitables are given by what their methods answer. Mux.Cancels and Mux.Count are about
--   cancelling children and about `invoke` at any depth, Mux.Resumption about starting and
--   completing children, Mux.Outside about the cancellation by the parent, and Mux.Early
--   about children that end while others are being started. Mux.Immediate has the combiners
--   that are ready without a suspension and what they return: Mux.Immediate.Evolve,
--   Mux.Immediate.Settle and Mux.Immediate.Report follow one child, Mux.Immediate.Progress and
--   Mux.Immediate.Results all of them.
-- - Value (corral/Value.h): a value with the awaiters that wait, for any element type; what
--   the operators do to it is an argument. Value.Laws is about one change and Value.Runs
--   about sequences of calls.
-- - Executor (corral/Executor.h): the executors of a thread, each with its list of ready
--   tasks; what a callback does is the calls of runSoon that it makes. Executor.Order is
--   about executors of one event loop, Executor.Finish about the order and the end of the
--   callbacks of one of them, and Executor.Capture about callbacks that are run at once.
-- - Promise (corral/detail/Promise.h): a task's promise, with its awaitee given by its
--   answers. Promise.Live has what holds between two calls, Promise.Outcome is about how a
--   task ends and Promise.Pending about a cancellation that it cannot act on yet.
-- - Nursery (corral/Nursery.h): the tasks of a nursery, its parent, and what its executor was
--   given. Nursery.Inv, Nursery.Cancel and Nursery.Steps are about the calls one by one,
--   Nursery.Runs about sequences of them and Nursery.Destroyed about the promises.
-- - IntrusivePtr (corral/detail/IntrusivePtr.h): the counts of the objects and the pointers
--   to them, with IntrusivePtr.Counts on sequences of calls.
-- - Shared (corral/Shared.h): the state that the parents of a shared operation have in common,
--   with the operation given by its answers. Shared.Invoke is about its completion, Shared.Inv
--   and Shared.Moves about single calls, Shared.Runs about sequences of them, Shared.Cancel
--   about cancelling a parent, Shared.Results about results, and Shared.Early about tasks that
--   are being cancelled or come late.
-- - ThreadPool (corral/ThreadPool.h): the three queues of a pool, its workers and its main
--   thread, with a step for each access to an atomic variable; the lists that `next_` links are
--   lists, so the reuse of that link is not shown. ThreadPool.Slots is about indices, ThreadPool.Places, ThreadPool.Moves and ThreadPool.Runs about where tasks are,
--   ThreadPool.Late about ticks, and ThreadPool.Token has the cancellation token.
-- - CbPortal (corral/CBPortal.h): one portal with the proxy by which a task first awaits it, and
--   what the task took. CbPortal.Inv and CbPortal.Moves are about single calls, CbPortal.Runs about
--   sequences of them.
-- - Sequence (corral/detail/Sequence.h): the two stages of a sequence, with both awaitables given
--   by their answers, and Sequence.Inv and Sequence.Runs on its life.
-- - With (corral/detail/With.h): a guarded body, with the background and the body given by their
--   answers. With.Cases says what the end and the cancellation of a stage come to, With.Inv what
--   holds between two calls, With.Ends is about the end of a stage, With.Outside about the
--   cancellation by the parent, With.Started about the start of the second stage, With.Runs about
--   sequences of these, and With.Cancel about a cancellation that is not complete at once.
-- - PointerBits (corral/detail/PointerBits.h): the merged form, as a word of 64 bits.
--   PointerBits.Bits is about masks and PointerBits.Packing about `set`.
-- - Checker (corral/detail/utility.h): the state machine by which `SanitizedAwaiter` checks the
--   calls of an awaiter, and the adapter by `noncancellable`. Checker.Documented compares it with
--   the state machine of doc/02_adapting.md, and Checker.Adapters is about the adapter.
-- - TaskValue (corral/detail/TaskAwaiter.h): `ValueOrPromise`, as a word of 64 bits and cells of a
--   heap. TaskValue.Words is about its masks and TaskValue.Stored about what it stores.
-- - TaskAwaiter (corral/detail/TaskAwaiter.h, and `Result` and `AwaitableLambda` of
--   corral/detail/utility.h): the awaiter of a task, made from a TaskValue and watched by a Checker,
--   with its promise given by how it ends; TaskAwaiter.Inv and TaskAwaiter.Runs are about its life.
--   TaskAwaiter.Lambda has functions that return tasks, TaskAwaiter.Lambda.Inv and
--   TaskAwaiter.Lambda.Runs their life.
--
-- Conventions. An awaiter is a number, its address. `handle_.resume()` gives a task to the
-- executor, which runs it after the current callback (corral/Executor.h), so a call here ends
-- before any task that it wakes runs; the order of such tasks is recorded. A function that
-- asserts, or that reads raw memory, returns an option, and `none` is the failed assertion or
-- the fault. Numbers are unbounded: sizes are those of buffers that were allocated, and the
-- invariants show that no difference goes below 0, where the model stops and size_t would
-- wrap. Every loop is a recursion on a list or a count. `invoke` of a combiner uses fuel, one
-- more than its children, since each call within another finds one more child done; so does
-- the loop of an executor, which ends if its callbacks schedule less and less. The loop of
-- Shared::State::invoke uses as much as there are parents, since each round wakes one. The
-- indices of a thread pool wrap around at 64 bits and its capacity is computed in 32; the fuel of
-- bit_ceil is that width. Memory is sequentially consistent. Element types
-- are small types, and moving an element is copying it.
--
-- Not modelled: an executor's destruction, coroutine frames, error policies, nurseries that
-- are not opened by a scope, the destructor of a thread pool and how its workers block,
-- several portals awaited at once, the combiners of ranges, the adapters of
-- corral/detail/utility.h that are not named above, run (corral/run.h), the degenerate
-- thread pool, introspection, event loop adapters, memory allocation that fails, element
-- constructors that throw, and the pointers of the intrusive list. Left out are also the assertion of
-- `AwaiterBase::claim` in corral/Channel.h that the awaiter holds no claim (`await_suspend` makes
-- it too, and there it is modelled), and that of `await_cancel` in corral/detail/wait.h that
-- all children of an abortable combiner are cancelled at once.
pub mod Base
pub mod Queue
pub mod ParkingLot
pub mod Channel
pub mod Semaphore
pub mod Event
pub mod Mux
pub mod Value
pub mod Executor
pub mod Promise
pub mod Nursery
pub mod IntrusivePtr
pub mod Shared
pub mod ThreadPool
pub mod Checker
pub mod TaskValue
pub mod TaskAwaiter
pub mod PointerBits
pub mod Sequence
pub mod With
pub mod CbPortal
