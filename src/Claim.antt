-- ===== src/Claim.antt =====
-- pkg/claim: who may run a task. `Target` and `Key` say what a claim is held on, `Client` what the
-- claim client answers, `Lease` is the lease manager, and `Api` is the client.
pub mod Target
pub mod Key
pub mod Client
pub mod Lease
pub mod Api
