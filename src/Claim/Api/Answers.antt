-- ===== src/Claim/Api/Answers.antt =====
-- What the claim client (pkg/claim/vault_api_client.go) sends, and what its answers are good for.
use agent_task_executor.Common.{
  ℕ, ◌≡◌, refl, Bool, true, false, not, ◌&&◌, Result, ok, err, List, [], ◌∷◌, arith, inl, inr,
  Option-cases, Result-cases,
}
use agent_task_executor.Text.{Text, is_empty}
use agent_task_executor.Claim.Target.{ClaimTarget, path, renew_path}
use agent_task_executor.Claim.Client.{Claim, Failure, target_invalid}
use agent_task_executor.Claim.Lease.{Ctx}
use agent_task_executor.Claim.Api.{
  Transport, ClaimResponseBody, with_renew_before, claim_from_response, decode_claim,
  claims_from_items, do_path, answered, acquire_answer, acquire, renewed_answer, renew, release,
  read_answer, send_acquire, send_renew, read, list_answer, list,
}

-- A claim that can be renewed and released: it has a token.
abbrev pub has_token : Claim → Bool
has_token c = not (is_empty c.lease_token)

-- Where a claim is returned, it has a token and its lease was read.
abbrev pub usable : Result Failure Claim → Bool
usable (err f) = true
usable (ok c) = has_token c && not c.lease_unreadable

abbrev pub all_tokens : List Claim → Bool
all_tokens [] = true
all_tokens (c ∷ cs) = has_token c && all_tokens cs

-- Where claims are listed, each has a token.
abbrev pub listed_tokens : Result Failure (List Claim) → Bool
listed_tokens (err f) = true
listed_tokens (ok cs) = all_tokens cs

module _ {W : Type 0} (t : Transport W) where
  decode_claim-usable : (raw : List ℕ) → usable (decode_claim t raw) ≡ true
  unfolding decode_claim claim_from_response with_renew_before
  decode_claim-usable raw = ground arith

  acquire_answer-usable : (status : ℕ) (raw : List ℕ) → usable (acquire_answer t status raw) ≡ true
  unfolding acquire_answer
  acquire_answer-usable status raw = ground (arith, decode_claim-usable raw)

  renewed_answer-usable : (status : ℕ) (raw : List ℕ) → usable (renewed_answer t status raw) ≡ true
  unfolding renewed_answer
  renewed_answer-usable status raw = ground (arith, decode_claim-usable raw)

  read_answer-usable : (status : ℕ) (raw : List ℕ) → usable (read_answer t status raw) ≡ true
  unfolding read_answer
  read_answer-usable status raw = ground (arith, decode_claim-usable raw)

  answered-usable :
      (answer : ℕ → List ℕ → Result Failure Claim)
      → ((status : ℕ) (raw : List ℕ) → usable (answer status raw) ≡ true)
      → (r : Result Failure (ℕ × List ℕ) × W) → usable (answered t answer r).0 ≡ true
  answered-usable answer p (err f, w) = refl
  answered-usable answer p (ok (status, raw), w) = p status raw

  item-has_token :
      (item : ClaimResponseBody) (c : Claim)
      → claim_from_response t item false ≡ ok c
      → has_token c ≡ true
  unfolding claim_from_response with_renew_before
  item-has_token item c e = ground arith

  claims_from_items-listed_tokens :
      (items : List ClaimResponseBody) → listed_tokens (claims_from_items t items) ≡ true
  unfolding claims_from_items
  claims_from_items-listed_tokens [] = refl
  claims_from_items-listed_tokens (item ∷ items) =
      elim (Result-cases (claim_from_response t item false)) [
        | inl (c, e) ↦ elim (Result-cases (claims_from_items t items)) [
          | inl (cs, d) ↦
              ground (arith, e, d, item-has_token item c e, claims_from_items-listed_tokens items)
          | inr (f, d) ↦ ground (arith, e, d)
        ]
        | inr (f, e) ↦ ground (arith, e)
      ]

  list_answer-listed_tokens :
      (status : ℕ) (raw : List ℕ) → listed_tokens (list_answer t status raw) ≡ true
  unfolding list_answer
  list_answer-listed_tokens status raw = elim (Option-cases (t.decode_items raw)) [
    | inl e ↦ ground (arith, e)
    | inr (items, e) ↦ ground (arith, e, claims_from_items-listed_tokens items)
  ]

  answered-listed_tokens :
      (r : Result Failure (ℕ × List ℕ) × W) → listed_tokens (answered t (list_answer t) r).0 ≡ true
  answered-listed_tokens (err f, w) = refl
  answered-listed_tokens (ok (status, raw), w) = list_answer-listed_tokens status raw

  acquire-usable :
      (ctx : Ctx) (target : ClaimTarget) (holder claimant : Text) (ttl : ℕ) (w : W)
      → usable (acquire t ctx target holder claimant ttl w).0 ≡ true
  unfolding acquire
  acquire-usable ctx target holder claimant ttl w = ground (
    arith,
    answered-usable (acquire_answer t) acquire_answer-usable
        (send_acquire t ctx target holder claimant ttl w),
  )

  renew-usable :
      (ctx : Ctx) (target : ClaimTarget) (holder token claimant : Text) (ttl : ℕ) (w : W)
      → usable (renew t ctx target holder token claimant ttl w).0 ≡ true
  unfolding renew
  renew-usable ctx target holder token claimant ttl w = ground (
    arith,
    answered-usable (renewed_answer t) renewed_answer-usable
        (send_renew t ctx target holder token claimant ttl w),
  )

  -- A claim that `Acquire`, `Renew` or `Read` returns has a lease token and a lease that was read;
  -- every claim that `List` returns has a lease token.
  pub claims_are_usable :
      (ctx : Ctx) (target : ClaimTarget) (holder token claimant : Text) (ttl : ℕ) (w : W)
      → (usable (acquire t ctx target holder claimant ttl w).0 ≡ true)
        × (usable (renew t ctx target holder token claimant ttl w).0 ≡ true)
        × (usable (read t ctx target w).0 ≡ true)
        × (listed_tokens (list t ctx holder w).0 ≡ true)
  unfolding read list
  claims_are_usable ctx target holder token claimant ttl w = (
    acquire-usable ctx target holder claimant ttl w,
    renew-usable ctx target holder token claimant ttl w,
    answered-usable (read_answer t) read_answer-usable _,
    answered-listed_tokens _,
  )

  -- An operation on a target that has no path fails with `ErrClaimTargetInvalid` and sends nothing.
  pub unaddressable_refused :
      (ctx : Ctx) (target : ClaimTarget) (holder token claimant : Text) (ttl : ℕ) (w : W)
      → path t.path_escape target ≡ []
      → (acquire t ctx target holder claimant ttl w ≡ (err target_invalid, w))
        × (renew t ctx target holder token claimant ttl w ≡ (err target_invalid, w))
        × (release t ctx target token w ≡ (err target_invalid, w))
        × (read t ctx target w ≡ (err target_invalid, w))
  unfolding acquire renew release read send_acquire send_renew do_path renew_path
  unaddressable_refused ctx target holder token claimant ttl w e =
      (ground (arith, e), ground (arith, e), rw e refl, rw e refl)
