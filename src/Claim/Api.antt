-- ===== src/Claim/Api.antt =====
-- The claim client (pkg/claim/vault_api_client.go): its requests, and how it reads the answers. The
-- HTTP exchange, the decoding of JSON and the parser of instants are parameters. A body is its list
-- of bytes.
pub mod Answers
use agent_task_executor.Common.{
  ℕ, Bool, true, false, not, ◌++◌, Option, none, some, Result, ok, err, if◌then◌else◌, List, [],
  ◌∷◌, ltb, ◌==◌, ◌*◌, length,
}
use agent_task_executor.Text.{Text, codes, is_empty}
use agent_task_executor.Claim.Target.{ClaimTarget, no_target, path, renew_path}
use agent_task_executor.Claim.Client.{
  Claim, Failure, claim_held, claim_free, lease_lost, target_invalid, other,
}
use agent_task_executor.Claim.Lease.{Ctx}
use agent_task_executor.Claim.Lease.Clock.{zero_time}

pub data Method : Type 0 where
  get post delete : Method

-- An empty field, or a time to live of 0, is left out of the body.
pub record ClaimRequestBody : Type 0 where
  pub holder : Text
  pub ttl_seconds : ℕ
  pub lease_token : Text
  pub task_id : Text

pub record ClaimResponseBody : Type 0 where
  pub scope : Text
  pub id : Text
  pub holder : Text
  pub task_id : Text
  pub lease_until : Text
  pub renew_before : Text
  pub lease_token : Text

-- What the client relies on: an exchange fails or gives a status and a body. A held body is read
-- for its `lease_until` only.
pub record Transport (W : Type 0) : Type 0 where
  pub path_escape : Text → Text
  pub query_escape : Text → Text
  pub exchange : Ctx → Method → Text → Option ClaimRequestBody → W → Option (ℕ × List ℕ) × W
  pub decode_claim_body : List ℕ → Option ClaimResponseBody
  pub decode_held_until : List ℕ → Option Text
  pub decode_items : List ℕ → Option (List ClaimResponseBody)
  pub parse_date_time : Text → Option ℕ

abbrev pub max_response_bytes : ℕ
max_response_bytes = 10 * 1024 * 1024

-- Whether `claimantTaskIDError` finds no error.
unfoldable pub claimant_fits : ClaimTarget → Text → Bool
claimant_fits target claimant =
    if not (is_empty target.task_id) then is_empty claimant else not (is_empty claimant)

module _ {W : Type 0} (t : Transport W) where
  abbrev pub converted : ClaimResponseBody → ℕ → ℕ → Bool → Claim
  converted parsed until before unreadable = record {
    scope = parsed.scope;
    id = parsed.id;
    holder = parsed.holder;
    task_id = parsed.task_id;
    lease_until = until;
    renew_before = before;
    lease_token = parsed.lease_token;
    lease_unreadable = unreadable;
  }

  -- `claimFromResponse` after its lease: `renew_before` may be left out, but not be unreadable.
  unfoldable pub with_renew_before : ClaimResponseBody → ℕ → Result Failure Claim
  with_renew_before parsed until =
      if is_empty parsed.renew_before
      then ok (converted parsed until zero_time false)
      else (elim (t.parse_date_time parsed.renew_before) [
        | none ↦ err other
        | some before ↦ ok (converted parsed until before false)
      ])

  unfoldable pub claim_from_response : ClaimResponseBody → Bool → Result Failure Claim
  unfolding with_renew_before
  claim_from_response parsed strict_lease =
      if is_empty parsed.lease_until
      then err other
      else if is_empty parsed.lease_token
      then err other
      else (elim (t.parse_date_time parsed.lease_until) [
        | none ↦ if strict_lease then err other else ok (converted parsed zero_time zero_time true)
        | some until ↦ with_renew_before parsed until
      ])

  unfoldable pub decode_claim : List ℕ → Result Failure Claim
  unfolding claim_from_response
  decode_claim raw = elim (t.decode_claim_body raw) [
    | none ↦ err other
    | some parsed ↦ claim_from_response parsed true
  ]

  -- The error of `heldError`: a held body whose lease cannot be parsed is no `ErrClaimHeld`.
  unfoldable pub held_error : List ℕ → Failure
  held_error raw = elim (t.decode_held_until raw) [
    | none ↦ claim_held
    | some until ↦ elim (t.parse_date_time until) [ none ↦ other | some u ↦ claim_held ]
  ]

  -- The loop of `List`: the first item that is no claim fails the listing.
  unfoldable pub claims_from_items : List ClaimResponseBody → Result Failure (List Claim)
  unfolding claim_from_response
  claims_from_items [] = ok []
  claims_from_items (item ∷ items) =
      let rest = claims_from_items items in
      elim (claim_from_response item false) [
        | err f ↦ err f
        | ok c ↦ elim rest [ err f ↦ err f | ok cs ↦ ok (c ∷ cs) ]
      ]

  -- `doPath`: without a path nothing is sent.
  unfoldable pub do_path :
      Ctx → Method → Text → Option ClaimRequestBody → W → Result Failure (ℕ × List ℕ) × W
  do_path ctx method address body w =
      if is_empty address
      then (err target_invalid, w)
      else (let (answer, w') = t.exchange ctx method address body w in
          (
            elim answer [
              | none ↦ err other
              | some (status, raw) ↦
                  if ltb max_response_bytes (length raw) then err other else ok (status, raw)
            ],
            w',
          ))

  -- The answer of an exchange, read by its status.
  abbrev pub answered :
      {A : Type 0}
      → (ℕ → List ℕ → Result Failure A)
      → Result Failure (ℕ × List ℕ) × W
      → Result Failure A × W
  answered read (err f, w) = (err f, w)
  answered read (ok (status, raw), w) = (read status raw, w)

  unfoldable pub acquire_answer : ℕ → List ℕ → Result Failure Claim
  unfolding decode_claim held_error
  acquire_answer status raw =
      if status == 409
      then err (held_error raw)
      else if not (status == 201)
      then err other
      else decode_claim raw

  -- The exchange of `Acquire`.
  unfoldable pub send_acquire :
      Ctx → ClaimTarget → Text → Text → ℕ → W → Result Failure (ℕ × List ℕ) × W
  unfolding do_path
  send_acquire ctx target holder claimant ttl =
      do_path ctx post (path t.path_escape target)
        (some (record { holder = holder; ttl_seconds = ttl; lease_token = []; task_id = claimant }))

  unfoldable pub acquire : Ctx → ClaimTarget → Text → Text → ℕ → W → Result Failure Claim × W
  unfolding send_acquire claimant_fits
  acquire ctx target holder claimant ttl w =
      if claimant_fits target claimant
      then answered acquire_answer (send_acquire ctx target holder claimant ttl w)
      else (err target_invalid, w)

  unfoldable pub renewed_answer : ℕ → List ℕ → Result Failure Claim
  unfolding decode_claim
  renewed_answer status raw =
      if status == 409
      then err lease_lost
      else if not (status == 200)
      then err other
      else decode_claim raw

  -- The exchange of `Renew`.
  unfoldable pub send_renew :
      Ctx → ClaimTarget → Text → Text → Text → ℕ → W → Result Failure (ℕ × List ℕ) × W
  unfolding do_path
  send_renew ctx target holder token claimant ttl =
      do_path ctx post (renew_path t.path_escape target) (
        some
          (record { holder = holder; ttl_seconds = ttl; lease_token = token; task_id = claimant }))

  unfoldable pub renew : Ctx → ClaimTarget → Text → Text → Text → ℕ → W → Result Failure Claim × W
  unfolding send_renew claimant_fits
  renew ctx target holder token claimant ttl w =
      if is_empty holder
      then (err target_invalid, w)
      else if claimant_fits target claimant
      then answered renewed_answer (send_renew ctx target holder token claimant ttl w)
      else (err target_invalid, w)

  unfoldable pub release_answer : ℕ → List ℕ → Result Failure (Unit {0})
  release_answer status raw =
      if status == 409 then err lease_lost else if not (status == 204) then err other else ok tt

  unfoldable pub release : Ctx → ClaimTarget → Text → W → Result Failure (Unit {0}) × W
  unfolding do_path
  release ctx target token w = answered release_answer (
      do_path ctx delete (path t.path_escape target)
        (some (record { holder = []; ttl_seconds = 0; lease_token = token; task_id = [] })) w)

  unfoldable pub read_answer : ℕ → List ℕ → Result Failure Claim
  unfolding decode_claim
  read_answer status raw =
      if status == 404
      then err claim_free
      else if not (status == 200)
      then err other
      else decode_claim raw

  unfoldable pub read : Ctx → ClaimTarget → W → Result Failure Claim × W
  unfolding do_path
  read ctx target w = answered read_answer (do_path ctx get (path t.path_escape target) none w)

  unfoldable pub list_answer : ℕ → List ℕ → Result Failure (List Claim)
  unfolding claims_from_items
  list_answer status raw =
      if not (status == 200)
      then err other
      else (elim (t.decode_items raw) [ none ↦ err other | some items ↦ claims_from_items items ])

  abbrev pub list_path : Text → Text
  list_path holder =
      if not (is_empty holder)
      then codes "/api/v1/claims" ++ (codes "?holder=" ++ t.query_escape holder)
      else codes "/api/v1/claims"

  unfoldable pub list : Ctx → Text → W → Result Failure (List Claim) × W
  unfolding do_path
  list ctx holder w = answered list_answer (do_path ctx get (list_path holder) none w)
