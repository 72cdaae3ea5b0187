-- ===== src/Claim/Lease/Accounting/Storing.antt =====
-- What the recovery of a group (pkg/claim/lease_manager.go) stores, and lists of claims in order.
use agent_task_executor.Common.{
  ℕ, ◌≡◌, sym, ◌∙◌, ◌⊎◌, ◌↔◌, inl, inr, true, Bool-cases, All, List, [], ◌∷◌, Option, some, arith,
}
use agent_task_executor.Text.{Text, text_eq, text_lt}
use agent_task_executor.Text.Laws.{text_eq_refl}
use agent_task_executor.Claim.Client.{Claim}
use agent_task_executor.Claim.Lease.Store.{HeldClaim, find, insert, find-insert}
use agent_task_executor.Claim.Lease.{Event}
use agent_task_executor.Claim.Lease.Safety.{gone_in}
use agent_task_executor.Claim.Lease.Recover.{claim_key_of, second_key_of, insert_claim, sort_claims}
use agent_task_executor.Claim.Lease.Recovery.Outcome.{Recovered, finished, stopping, adopting}

-- A key is held for a task.
abbrev pub Has : Text → Text → List HeldClaim → Type 0
Has task k hs = (h : HeldClaim) × (find k hs ≡ some h) × (h.task_id ≡ task)

Has-insert :
    (task k : Text) (h : HeldClaim) (hs : List HeldClaim)
    → h.task_id ≡ task
    → Has task k hs
    → Has task k (insert h hs)
Has-insert task k h hs e (h', f, g) = elim (Bool-cases (text_eq h.key k)) [
  | inl c ↦ (h, ground (arith, c, find-insert k h hs), e)
  | inr c ↦ (h', ground (arith, c, f, find-insert k h hs), g)
]

find-inserted : (h : HeldClaim) (hs : List HeldClaim) → find h.key (insert h hs) ≡ some h
find-inserted h hs = ground (arith, find-insert h.key h hs, text_eq_refl h.key)

-- A group, once recovered, is held under the first key with the second, or its task has no job.
pub data Stored (p : Claim) (o : Option Claim) (t : List Event) (hs hs' : List HeldClaim)
    : Type 0 where
  none_stored : gone_in p.task_id t ≡ true → hs' ≡ hs → Stored p o t hs hs'
  one_stored :
      (h : HeldClaim)
      → h.key ≡ claim_key_of p
      → h.second_key ≡ second_key_of o
      → h.task_id ≡ p.task_id
      → hs' ≡ insert h hs
      → Stored p o t hs hs'

pub Recovered-Stored :
    (p : Claim) (o : Option Claim) (now : ℕ) (hs hs' : List HeldClaim) (t : List Event)
    → Recovered p o now hs t hs'
    → Stored p o t hs hs'
Recovered-Stored p o now hs hs' t (finished g e d) = none_stored g e
Recovered-Stored p o now hs hs' t (stopping h d (k, q, i, r, u, v) f e) = one_stored h k q i e
Recovered-Stored p o now hs hs' t (adopting h b c d n (k, q, i, r, u, v) f e) = one_stored h k q i e

pub Stored-keeps :
    (p : Claim) (o : Option Claim) (t : List Event) (hs hs' : List HeldClaim) (task k : Text)
    → p.task_id ≡ task
    → Stored p o t hs hs'
    → Has task k hs
    → Has task k hs'
Stored-keeps p o t hs hs' task k e (none_stored g q) a = rw q a
Stored-keeps p o t hs hs' task k e (one_stored h b c d q) a =
    rw q (Has-insert task k h hs (d ∙ e) a)

pub Stored-gives :
    (p : Claim) (o : Option Claim) (t : List Event) (hs hs' : List HeldClaim)
    → Stored p o t hs hs'
    → (gone_in p.task_id t ≡ true)
      ⊎ ((h : HeldClaim) × (find (claim_key_of p) hs' ≡ some h)
          × (h.key ≡ claim_key_of p)
          × (h.second_key ≡ second_key_of o)
          × (h.task_id ≡ p.task_id))
Stored-gives p o t hs hs' (none_stored g e) = inl g
Stored-gives p o t hs hs' (one_stored h b c d e) =
    inr (h, rw (e, sym b) (find-inserted h hs), b, c, d)

module _ (P : Claim → Type 0) where
  All-insert_claim : (c : Claim) (cs : List Claim) → All P (insert_claim c cs) ↔ (P c × All P cs)
  unfolding insert_claim
  All-insert_claim c [] = (λ a. a, λ a. a)
  All-insert_claim c (d ∷ ds) =
      let (there, back) = All-insert_claim c ds in
      elim (Bool-cases (text_lt (claim_key_of d) (claim_key_of c))) [
        | inl e ↦
            rw e (λ (a, b). let (x, y) = there b in (x, (a, y)), λ (x, (a, y)). (a, back (x, y)))
        | inr e ↦ rw e (λ a. a, λ a. a)
      ]

  pub All-sort_claims : (cs : List Claim) → All P (sort_claims cs) ↔ All P cs
  unfolding sort_claims
  All-sort_claims [] = (λ a. a, λ a. a)
  All-sort_claims (c ∷ cs) =
      let (there, back) = All-insert_claim c (sort_claims cs) in
      let (on, off) = All-sort_claims cs in
      (λ a. let (x, y) = there a in (x, on y), λ (x, y). back (x, off y))
