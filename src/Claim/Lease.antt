-- ===== src/Claim/Lease.antt =====
-- pkg/claim/lease_manager.go and lease_manager_tick.go: the lease manager's state, and the calls
-- that it makes. An operation runs under the manager's mutex, so it is a function of the state;
-- it returns a value, the trace of its calls and counts in order, and the new state.
-- The clock, the claim client, the Job control and the caller's context are functions of a world
-- about which nothing is assumed, so every answer may be any answer.
pub mod Store
pub mod Clock
pub mod Fence
pub mod Release
pub mod Create
pub mod Takeover
pub mod Renew
pub mod Tick
pub mod Safety
pub mod Fenced
pub mod Hold
pub mod Exclusion
pub mod Leak
pub mod Grant
pub mod Recover
pub mod Deletes
pub mod Recovery
pub mod Adoption
pub mod Accounting
pub mod View
pub mod Audit
use agent_task_executor.Common.{ℕ, Bool, true, false, List, [], ◌∷◌, ◌++◌, Result}
use agent_task_executor.Text.{Text}
use agent_task_executor.Claim.Target.{ClaimTarget}
use agent_task_executor.Claim.Client.{Claim, Failure}
use agent_task_executor.Claim.Lease.Store.{HeldClaim}

-- The context of a call: the caller's, the recovery's own, or one with a deadline.
pub data Ctx : Type 0 where
  caller recovery : Ctx
  until : ℕ → Ctx

-- The fields of `leaseManager` that never change, as functions of the world.
pub record LeaseManager (W : Type 0) : Type 0 where
  pub cluster : Text
  pub now : W → ℕ × W
  pub done : W → Bool × W
  pub acquire : Ctx → ClaimTarget → Text → Text → ℕ → W → Result Failure Claim × W
  pub renew : Ctx → ClaimTarget → Text → Text → Text → ℕ → W → Result Failure Claim × W
  pub release : Ctx → ClaimTarget → Text → W → Result Failure (Unit {0}) × W
  pub read : Ctx → ClaimTarget → W → Result Failure Claim × W
  pub list : Ctx → Text → W → Result Failure (List Claim) × W
  pub is_job_running : Ctx → Text → W → Result Failure Bool × W
  pub delete_job : Ctx → Text → W → Result Failure (Unit {0}) × W

-- The results of `executor_claim_total`.
pub data Label : Type 0 where
  claimed recovered conflict error released already_released taken_over takeover_too_early fenced
        claim_lost adopted renewed renew_failed jobless_released :
      Label

-- What an operation of the manager returns as its error.
pub data ManagerError : Type 0 where
  bad_key lease_conflict lease_not_expired : ManagerError
  client_error : Failure → ManagerError

-- What an operation did, with the answer that it got.
pub data Event : Type 0 where
  counted : Label → Event
  asked_running : Text → Result Failure Bool → Event
  deleted_job : Text → Result Failure (Unit {0}) → Event
  acquire_call : ClaimTarget → Text → Result Failure Claim → Event
  renew_call : ClaimTarget → Text → Result Failure Claim → Event
  release_call : ClaimTarget → Text → Result Failure (Unit {0}) → Event
  read_call : ClaimTarget → Result Failure Claim → Event
  list_call : Result Failure (List Claim) → Event

-- The map `held`, and the world.
pub record State (W : Type 0) : Type 0 where
  pub held : List HeldClaim
  pub world : W

abbrev pub M : Type 0 → Type 0 → Type 0
M W A = State W → A × List Event × State W

abbrev pub pure : {W A : Type 0} → A → M W A
pure a s = (a, [], s)

infixl 5 ◌>>=◌ ◌>>◌
abbrev pub ◌>>=◌ : {W A B : Type 0} → M W A → (A → M W B) → M W B
◌>>=◌ m f s = let (a, t, s') = m s in let (b, t', s'') = f a s' in (b, t ++ t', s'')

abbrev pub ◌>>◌ : {W A B : Type 0} → M W A → M W B → M W B
m >> k = m >>= λ _. k

abbrev pub count : {W : Type 0} → Label → M W (Unit {0})
count l s = (tt, counted l ∷ [], s)

abbrev pub get_held : {W : Type 0} → M W (List HeldClaim)
get_held s = (s.held, [], s)

abbrev pub set_held : {W : Type 0} → List HeldClaim → M W (Unit {0})
set_held xs s = (tt, [], record s { held = xs })

-- A call of the outside world, with the event that it leaves.
abbrev pub call : {W A : Type 0} → (A → List Event) → (W → A × W) → M W A
call note f s = let (a, w) = f s.world in (a, note a, record s { world = w })

-- A loop over the sorted keys.
unfoldable pub for_each : {W A : Type 0} → List A → (A → M W (Unit {0})) → M W (Unit {0})
for_each [] f = pure tt
for_each (x ∷ xs) f = f x >> for_each xs f

abbrev pub when : {W : Type 0} → Bool → M W (Unit {0}) → M W (Unit {0})
when true f = f
when false f = pure tt

module _ {W : Type 0} (m : LeaseManager W) where
  abbrev pub current_date_time : M W ℕ
  current_date_time = call (λ _. []) m.now

  abbrev pub ctx_done : M W Bool
  ctx_done = call (λ _. []) m.done

  abbrev pub client_acquire : Ctx → ClaimTarget → Text → ℕ → M W (Result Failure Claim)
  client_acquire ctx target claimant ttl =
      call (λ a. acquire_call target claimant a ∷ []) (m.acquire ctx target m.cluster claimant ttl)

  abbrev pub client_renew : Ctx → ClaimTarget → Text → Text → ℕ → M W (Result Failure Claim)
  client_renew ctx target token claimant ttl =
      call (λ a. renew_call target token a ∷ []) (m.renew ctx target m.cluster token claimant ttl)

  abbrev pub client_release : Ctx → ClaimTarget → Text → M W (Result Failure (Unit {0}))
  client_release ctx target token =
      call (λ a. release_call target token a ∷ []) (m.release ctx target token)

  abbrev pub client_read : Ctx → ClaimTarget → M W (Result Failure Claim)
  client_read ctx target = call (λ a. read_call target a ∷ []) (m.read ctx target)

  abbrev pub client_list : M W (Result Failure (List Claim))
  client_list = call (λ a. list_call a ∷ []) (m.list caller m.cluster)

  abbrev pub is_job_running : Ctx → Text → M W (Result Failure Bool)
  is_job_running ctx task = call (λ a. asked_running task a ∷ []) (m.is_job_running ctx task)

  abbrev pub delete_job : Text → M W (Result Failure (Unit {0}))
  delete_job task = call (λ a. deleted_job task a ∷ []) (m.delete_job caller task)
