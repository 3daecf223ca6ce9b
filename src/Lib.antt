-- ===== src/Lib.antt =====
-- A verification library for SObjectizer, an actor framework in C++. It models eight parts of
-- dev/so_5 that hold the framework's own core logic: agents with their states, message chains, the
-- subscription storages of agents, the demand queues of the dispatchers with one thread and
-- priorities, the queue of the thread pools, the core of mboxes, the repository of cooperations and
-- that of stop guards.
--
-- Agents (Agent). An agent has a tree of states, of which the current one and its parents are
-- active; it switches between them and looks in them for the handler of a message. Agent/State.antt
-- models `state_t` of dev/so_5/state.hpp and dev/so_5/agent.cpp: the states of the program stand in
-- a store, by their addresses, and the constructors, the histories and the paths are functions on
-- it. Agent/Switch.antt models `agent_t::do_state_switch`; the handlers that it calls and the time
-- limits that it sets and drops are signals. Agent/Core.antt models the part of `agent_t` that
-- changes the state, with its checks, and the time limits of states. Agent/Subscribing.antt models
-- the part over a subscription storage: the subscriptions with their checks, `so_deactivate_agent`,
-- and the search for a handler. The storage is a parameter, an implementation of the interface in
-- Subscription/Iface.antt; the message sink of a type is an argument of a subscription.
-- Agent/Core/Scripts.antt and Agent/Subscribing/Deactivated.antt have the scripts of calls.
--
-- Message chains (Mchain). A chain is a queue of messages with a capacity, into which senders put
-- messages and from which receivers take them. dev/so_5/impl/mchain_details.hpp has three queues and
-- the class template `mchain_template` over them. Mchain/Queue.antt is the interface between the
-- two: a record of a queue's operations, and one of the laws that the chain relies on.
-- Mchain/Unlimited.antt, Mchain/LimitedDynamic.antt and Mchain/LimitedPreallocated.antt model the
-- classes `unlimited_demand_queue`, `limited_dynamic_demand_queue` and
-- `limited_preallocated_demand_queue`, member function by member function; the last one is a ring in
-- an array, with its head index and size. Mchain/Chain.antt models `mchain_template`: a method takes
-- the chain to the new chain, the signals that it raises (notifications of threads, of select cases
-- and of the tracing) and its result, or to an exception. The lock makes a method one step; a method
-- that waits on a condition variable is two steps, one up to the wait and one from its end.
-- Mchain/Chain/Ops.antt puts the steps of all threads into one sequence.
--
-- Subscription storages (Subscription). An agent keeps its event handlers in a storage, keyed by
-- mbox, message type and state; the storage subscribes at the mbox with the first handler of an mbox
-- and a type and unsubscribes with the last. Subscription/Iface.antt models
-- dev/so_5/impl/subscription_storage_iface.hpp, with the contract of a storage as a record of laws.
-- Subscription/VectorBased.antt, Subscription/MapBased.antt and Subscription/Adaptive.antt model
-- dev/so_5/impl/subscr_storage_vector_based.cpp, subscr_storage_map_based.cpp and
-- subscr_storage_adaptive.cpp, operation by operation. Subscription/Agreement.antt has scripts of
-- calls on a storage. Pointers (states, sinks) and type indices are numbers.
--
-- Dispatchers with one thread and priorities (PrioOneThread). PrioOneThread/Priority.antt models
-- dev/so_5/priority.hpp, and PrioOneThread/StrictlyOrdered.antt the class `demand_queue_t` of
-- dev/so_5/disp/prio_one_thread/strictly_ordered/impl/demand_queue.hpp: a subqueue for each priority
-- and a pointer to the highest one that has demands. PrioOneThread/StrictlyOrdered/Order.antt has
-- the specification, one line of waiting demands. PrioOneThread/QuotedRoundRobin.antt models the
-- class `demand_queue_t` of dev/so_5/disp/prio_one_thread/quoted_round_robin/impl/demand_queue.hpp
-- with the quotes of quotes.hpp beside it. The scripts of calls are those of the other queue.
--
-- Cooperations (Coop). Coop/Repository.antt models `coop_repository_basis_t` of
-- dev/so_5/impl/coop_repository_basis.cpp: the counting of registrations, cooperations and agents,
-- and the shutdown that waits for the registrations in progress. The own registration of a
-- cooperation ends in a step between the two sections of `register_coop`; from there on its final
-- deregistration may begin, which may come before the cooperation is counted.
--
-- Thread pools (QueueOfQueues). QueueOfQueues.antt models `queue_of_queues_t` of
-- dev/so_5/disp/reuse/queue_of_queues.hpp, from which the threads of a pool take the agents' queues,
-- and the threads around it: those at work, those that wait and those that have been notified.
--
-- Mboxes (MboxCore). MboxCore.antt models `mbox_core_t` of dev/so_5/impl/mbox_core.cpp with its
-- dictionary of named mboxes. `introduce_named_mbox` is two steps, with the call of the factory
-- between them; the end of a named mbox (dev/so_5/impl/named_local_mbox.cpp) is a step.
--
-- Stop guards (StopGuard). StopGuard.antt models `stop_guard_repository_t` of
-- dev/so_5/impl/stop_guard_repo.hpp. A section under the lock is one step, so that `initiate_stop`
-- is three; the steps of all threads come in any order.
--
-- Parameters. `std::sort` in the vector-based storage is a parameter: any permutation that leaves no
-- element less than one before it. Whether an mbox's subscribe_event_handler throws is an argument
-- of a creation.
--
-- Integers. Base/Words.antt adds and subtracts as `unsigned int` and `size_t` do: so count the
-- repository of cooperations, the mbox core and the agents bound to a queue. Counters that never
-- exceed the number of threads or of things in memory, the ids and the sizes of queues are plain
-- numbers.
--
-- Fuel. The loops over the parents of a state and over its substates have 16 rounds, the
-- constructors' bound on the nesting (`max_deep`). The loop of `actual_close` has a round for each
-- demand in the queue, which is enough since each round takes one. The loop of the round robin `pop`
-- has eight rounds, one for each priority, which is enough since a demand is in one of the eight
-- subqueues.
--
-- Not modelled: failing allocations, and with them an exception of setup_content while the adaptive
-- storage switches; delivery filters, debug dumps and tracing output; the lock and the scheduler
-- themselves; the destructors of the dispatchers' queues; the move constructor of a state, the
-- listeners of an agent beyond the state that they are told, the timer and the subscription behind a
-- time limit, and the handlers of users, whose calls of the agent from within a switch come to the
-- exception that the guard throws. The other parts of the framework (the cooperations themselves, the
-- delivery of messages by mboxes, the other dispatchers, timers, the environment) are not in this
-- library yet.
pub mod Agent
pub mod Base
pub mod Coop
pub mod MboxCore
pub mod Mchain
pub mod PrioOneThread
pub mod QueueOfQueues
pub mod StopGuard
pub mod Subscription
