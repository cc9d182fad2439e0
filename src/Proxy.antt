-- ===== src/Proxy.antt =====
-- internal/proxy/proxy.go: Resolve, forward and resolveViaFallback, and the slots that bound the
-- queries in flight; internal/proxy/listen.go: the two listeners. What one query meets outside the
-- process is the argument `World`: the draws of the planner, the clock, whether the context is
-- cancelled before each round, and what each exchange gives. The run of one query is taken in one
-- piece, with nothing else running beside it, but for the connections and datagrams of Listen; log
-- lines are left out.
pub mod Types
pub mod Demo
pub mod Attempts
pub mod Forward
pub mod Slots
pub mod Client
pub mod Service
pub mod Listen
mod Examples
