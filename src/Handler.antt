-- ===== src/Handler.antt =====
-- pkg/handler, pkg/task_store.go and pkg/config_resolver.go: which task is run, and when. `Task` holds
-- the data, `Resolver` and `Filter` the eligibility of a task, `TaskStore`, `Deferred` and `Redrive`
-- the state that the handler keeps, `Capacity` and `Trigger` the bounds on Jobs,
-- `Success` and `CurrentJob` the guards against a second run, `Spawn` all the gates in their order,
-- `Acquire` the claim after them.
pub mod Int
pub mod Maps
pub mod Task
pub mod TaskStore
pub mod Deferred
pub mod Redrive
pub mod Resolver
pub mod Filter
pub mod Capacity
pub mod Trigger
pub mod Success
pub mod CurrentJob
pub mod Spawn
pub mod Acquire
