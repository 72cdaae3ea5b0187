-- ===== src/Claim/Lease/Recovery/Outcome.antt =====
-- What may become of a listed claim when `Recover` (pkg/claim/lease_manager.go) goes through it.
use agent_task_executor.Common.{
  ℕ, ◌≡◌, ◌<◌, ◌-◌, ◌++◌, ◌⊎◌, sym, subst, true, false, refl, inl, inr, arith, Bool-cases, List, [],
  Option, none, some, if◌then◌else◌, ltb,
}
use agent_task_executor.Text.{Text, codes}
use agent_task_executor.Claim.Client.{Claim}
use agent_task_executor.Claim.Lease.Store.{HeldClaim, insert}
use agent_task_executor.Claim.Lease.Clock.{fence_due, lease_duration}
use agent_task_executor.Claim.Lease.{Event}
use agent_task_executor.Claim.Lease.Safety.{gone_in, gone_in-append}
use agent_task_executor.Claim.Lease.Deletes.{deletes, deletes-append, runs_in, runs_in-append}
use agent_task_executor.Claim.Lease.Recover.{listed_claim, second_key_of}

-- A lease that can be read, and whose fence is not due.
abbrev pub Current : ℕ → Claim → Type 0
Current now c = (c.lease_unreadable ≡ false) × (fence_due now c.lease_until ≡ false)

abbrev pub OtherCurrent : ℕ → Option Claim → Type 0
OtherCurrent now none = Unit {0}
OtherCurrent now (some c) = Current now c

-- The fence of a listed lease is due, or the lease cannot be read.
abbrev pub Due : ℕ → Claim → Type 0
Due now c = (c.lease_unreadable ≡ true) ⊎ (fence_due now c.lease_until ≡ true)

abbrev pub SomeDue : ℕ → Claim → Option Claim → Type 0
SomeDue now primary none = Due now primary
SomeDue now primary (some c) = Due now primary ⊎ Due now c

-- The lease that a claim is judged by: one that cannot be read is over since one lease duration.
abbrev pub judged : ℕ → Claim → ℕ
judged now c = if c.lease_unreadable then now - lease_duration else c.lease_until

abbrev pub judged_group : ℕ → Claim → Option Claim → ℕ
judged_group now primary none = judged now primary
judged_group now primary (some c) =
    if ltb (judged now c) (judged now primary) then judged now c else judged now primary

-- The earlier one of the listed leases.
abbrev pub listed_lease : Claim → Option Claim → ℕ
listed_lease primary none = primary.lease_until
listed_lease primary (some c) =
    if ltb c.lease_until primary.lease_until then c.lease_until else primary.lease_until

-- The token of the other claim of a group, if there is one.
abbrev other_token : Option Claim → Text
other_token none = []
other_token (some c) = c.lease_token

-- A held claim is that of the listing: its keys, its task and its tokens.
abbrev pub IsListed : Claim → Option Claim → HeldClaim → Type 0
IsListed primary secondary h =
    (h.key ≡ codes "claims/" ++ primary.scope ++ codes "/" ++ primary.id)
    × (h.second_key ≡ second_key_of secondary)
    × (h.task_id ≡ primary.task_id)
    × (h.lease_token ≡ primary.lease_token)
    × (h.second_token ≡ other_token secondary)
    × (h.release_pending ≡ false)

pub listed_claim-IsListed :
    (primary : Claim) (secondary : Option Claim) (lease_until : ℕ)
    → IsListed primary secondary (listed_claim primary secondary lease_until)
listed_claim-IsListed primary none l = (refl, refl, refl, refl, refl, refl)
listed_claim-IsListed primary (some c) l = (refl, refl, refl, refl, refl, refl)

-- What becomes of the claim, or of the two claims, of a group.
pub data Recovered (primary : Claim) (secondary : Option Claim) (now : ℕ) (hs : List HeldClaim)
    (t : List Event) (hs' : List HeldClaim) : Type 0 where
  finished :
      gone_in primary.task_id t ≡ true
      → hs' ≡ hs
      → (deletes t ≡ false) ⊎ SomeDue now primary secondary
      → Recovered primary secondary now hs t hs'
  stopping :
      (h : HeldClaim)
      → SomeDue now primary secondary
      → IsListed primary secondary h
      → (h.pending_job_deletion ≡ true) × (h.lease_until ≡ judged_group now primary secondary)
      → hs' ≡ insert h hs
      → Recovered primary secondary now hs t hs'
  adopting :
      (h : HeldClaim)
      → Current now primary
      → OtherCurrent now secondary
      → deletes t ≡ false
      → (h.needs_running_check ≡ true) ⊎ (runs_in primary.task_id t ≡ true)
      → IsListed primary secondary h
      → (h.renew_next_tick ≡ true)
        × (h.pending_job_deletion ≡ false)
        × (h.lease_until ≡ listed_lease primary secondary)
      → hs' ≡ insert h hs
      → Recovered primary secondary now hs t hs'

-- More events before, without a deletion.
pub longer-Recovered :
    (primary : Claim) (secondary : Option Claim) (now : ℕ) (hs hs' : List HeldClaim)
    (t t' : List Event)
    → deletes t ≡ false
    → Recovered primary secondary now hs t' hs'
    → Recovered primary secondary now hs (t ++ t') hs'
longer-Recovered primary secondary now hs hs' t t' d (finished g e (inl n)) =
    finished (ground (arith, gone_in-append primary.task_id t t')) e
      (inl (ground (arith, deletes-append t t', d, n)))
longer-Recovered primary secondary now hs hs' t t' d (finished g e (inr n)) =
    finished (ground (arith, gone_in-append primary.task_id t t')) e (inr n)
longer-Recovered primary secondary now hs hs' t t' d (stopping h l i f e) = stopping h l i f e
longer-Recovered primary secondary now hs hs' t t' d (adopting h c f n (inl x) i g e) =
    adopting h c f (ground (arith, deletes-append t t', d, n)) (inl x) i g e
longer-Recovered primary secondary now hs hs' t t' d (adopting h c f n (inr x) i g e) =
    adopting h c f (ground (arith, deletes-append t t', d, n))
      (inr (ground (arith, runs_in-append primary.task_id t t', x))) i g e

-- The same of an equal trace and an equal map.
pub same-Recovered :
    (primary : Claim) (secondary : Option Claim) (now : ℕ) (hs hs' hs'' : List HeldClaim)
    (t t' : List Event)
    → Recovered primary secondary now hs t hs'
    → t' ≡ t
    → hs'' ≡ hs'
    → Recovered primary secondary now hs t' hs''
same-Recovered primary secondary now hs hs' hs'' t t' r p q =
    subst (λ x. Recovered primary secondary now hs x hs'') (sym p)
      (subst (λ x. Recovered primary secondary now hs t x) (sym q) r)

pub judged-Current :
    (now lease_until : ℕ) (c : Claim)
    → 0 < now
    → fence_due now lease_until ≡ false
    → (ltb (judged now c) lease_until ≡ false)
    → Current now c
unfolding fence_due
judged-Current now lease_until c p e q = elim (Bool-cases c.lease_unreadable) [
  | inl b ↦ absurd (ground (arith, b))
  | inr b ↦ (b, ground (arith, b))
]

pub judged_group-primary :
    (now : ℕ) (primary : Claim) (secondary : Option Claim)
    → ltb (judged now primary) (judged_group now primary secondary) ≡ false
judged_group-primary now primary none = ground arith
judged_group-primary now primary (some c) = ground arith

pub judged_group-Other :
    (now : ℕ) (primary : Claim) (secondary : Option Claim)
    → 0 < now
    → fence_due now (judged_group now primary secondary) ≡ false
    → OtherCurrent now secondary
judged_group-Other now primary none p e = tt
judged_group-Other now primary (some c) p e =
    judged-Current now (judged_group now primary (some c)) c p e (ground arith)

judged-Due : (now : ℕ) (c : Claim) → fence_due now (judged now c) ≡ true → Due now c
judged-Due now c e = elim (Bool-cases c.lease_unreadable) [
  | inl b ↦ inl b
  | inr b ↦ inr (ground (arith, b, e))
]

pub judged_group-Due :
    (now : ℕ) (primary : Claim) (secondary : Option Claim)
    → fence_due now (judged_group now primary secondary) ≡ true
    → SomeDue now primary secondary
judged_group-Due now primary none e = judged-Due now primary e
judged_group-Due now primary (some c) e =
    elim (Bool-cases (ltb (judged now c) (judged now primary))) [
      | inl b ↦ inr (judged-Due now c (ground (arith, b, e)))
      | inr b ↦ inl (judged-Due now primary (ground (arith, b, e)))
    ]

pub judged_group-listed :
    (now : ℕ) (primary : Claim) (secondary : Option Claim)
    → Current now primary
    → OtherCurrent now secondary
    → judged_group now primary secondary ≡ listed_lease primary secondary
judged_group-listed now primary none (a, b) c = ground (arith, a)
judged_group-listed now primary (some d) (a, b) (c, e) = ground (arith, a, c)
