-- ===== src/Claim/Lease/Grant/Outcome.antt =====
-- A claim as its keys and the server's answers determine it (`ClaimPair` in
-- pkg/claim/lease_manager.go).
use agent_task_executor.Common.{
  ℕ, ◌≡◌, Bool, true, false, ◌⊎◌, inl, inr, List, [], ◌∷◌, ◌++◌, some, Result, ok, err,
}
use agent_task_executor.Text.{Text, text_eq}
use agent_task_executor.Claim.Target.{ClaimTarget}
use agent_task_executor.Claim.Client.{Claim}
use agent_task_executor.Claim.Key.{target_from_key}
use agent_task_executor.Claim.Lease.Store.{HeldClaim, insert}
use agent_task_executor.Claim.Lease.{Event, acquire_call, read_call, ManagerError}
use agent_task_executor.Claim.Lease.Create.{HeldClaimView, second_target_from_key}

-- Some event of the trace is such.
abbrev pub Some : (Event → Type 0) → List Event → Type 0
Some P [] = ⊥
Some P (e ∷ t) = P e ⊎ Some P t

pub Some-left : (P : Event → Type 0) (t t' : List Event) → Some P t → Some P (t ++ t')
Some-left P [] t' a = absurd a
Some-left P (e ∷ t) t' (inl p) = inl p
Some-left P (e ∷ t) t' (inr a) = inr (Some-left P t t' a)

pub Some-right : (P : Event → Type 0) (t t' : List Event) → Some P t' → Some P (t ++ t')
Some-right P [] t' a = a
Some-right P (e ∷ t) t' a = inr (Some-right P t t' a)

-- The server granted this claim at the address.
abbrev pub Acquires : ClaimTarget → Claim → Event → Type 0
Acquires target c e = (claimant : Text) × (e ≡ acquire_call target claimant (ok c))

-- Or it showed it, as one of this cluster, when it was read back after a failed answer.
abbrev pub Answers : Text → ClaimTarget → Claim → Event → Type 0
Answers cluster target c e =
    Acquires target c e ⊎ ((e ≡ read_call target (ok c)) × (text_eq c.holder cluster ≡ true))

-- The token of the secondary: none without a secondary key, else that of its granted claim.
abbrev IsSecond : Text → ClaimTarget → Text → List Event → Type 0
IsSecond [] target token t = token ≡ []
IsSecond (x ∷ key) target token t =
    (d : Claim) × (token ≡ d.lease_token) × Some (Acquires target d) t

-- The stored claim `h`, and what is returned.
pub record IsGranted (cluster key second_key task_id : Text) (now : ℕ) (t : List Event)
    (r : Result ManagerError HeldClaimView) (h : HeldClaim) : Type 0 where
  pub claim : Claim
  pub answered : Some (Answers cluster h.target claim) t
  pub keys : (h.key ≡ key) × (h.second_key ≡ second_key) × (h.task_id ≡ task_id)
  pub address : target_from_key key ≡ some h.target
  pub second_address : second_target_from_key second_key ≡ some h.second_target
  pub lease : (h.lease_token ≡ claim.lease_token) × (h.lease_until ≡ claim.lease_until)
  pub second : IsSecond second_key h.second_target h.second_token t
  pub renewed : h.last_renew_at ≡ now
  pub nothing_pending : (h.release_pending ≡ false) × (h.pending_job_deletion ≡ false)
  pub returned :
      r
      ≡ ok (record {
        key = key;
        task_id = task_id;
        lease_token = claim.lease_token;
        lease_until = claim.lease_until;
      })

-- A create fails and changes nothing, or it stores such a claim under its key.
pub data Grants (cluster key second_key task_id : Text) (now : ℕ) (hs : List HeldClaim)
    (t : List Event) (r : Result ManagerError HeldClaimView) (hs' : List HeldClaim) : Type 0 where
  fails :
      (e : ManagerError)
      → r ≡ err e
      → hs' ≡ hs
      → Grants cluster key second_key task_id now hs t r hs'
  grants :
      (h : HeldClaim)
      → IsGranted cluster key second_key task_id now t r h
      → hs' ≡ insert h hs
      → Grants cluster key second_key task_id now hs t r hs'

abbrev pub claim_or : Claim → Result ManagerError (Claim × Bool) → Claim
claim_or d (ok c) = c.0
claim_or d (err e) = d
