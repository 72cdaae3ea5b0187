-- ===== src/Claim/Lease/Store.antt =====
-- The map `held` of pkg/claim/lease_manager.go. Every claim is stored under its own field `key`,
-- so the map is the list of its values. Claims are shared by pointer: a write through a pointer is
-- `update`, which writes to the map while the claim is in it.
use agent_task_executor.Common.{
  ℕ, ◌≡◌, refl, Bool, true, false, List, [], ◌∷◌, Option, none, some, arith, if◌then◌else◌, map,
  Bool-cases, Option-cases, inl, inr,
}
use agent_task_executor.Text.{Text, text_eq, text_lt}
use agent_task_executor.Text.Laws.{eq_of_text_eq, text_eq_iff, text_eq_refl}
use agent_task_executor.Claim.Target.{ClaimTarget}

-- `pendingDeletionPath`.
pub data DeletionPath : Type 0 where
  no_path fence_path lost_path : DeletionPath

pub record HeldClaim : Type 0 where
  pub key : Text
  pub target : ClaimTarget
  pub task_id : Text
  pub lease_token : Text
  pub lease_until : ℕ
  pub second_key : Text
  pub second_target : ClaimTarget
  pub second_token : Text
  pub last_renew_at : ℕ
  pub renew_next_tick : Bool
  pub pending_job_deletion : Bool
  pub pending_deletion_path : DeletionPath
  pub release_pending : Bool
  pub needs_running_check : Bool
  pub hold_until : ℕ
  pub jobless_since : ℕ
  pub last_jobless_check_at : ℕ

-- `held, ok := m.held[key]`.
unfoldable pub find : Text → List HeldClaim → Option HeldClaim
find k [] = none
find k (h ∷ hs) = if text_eq h.key k then some h else find k hs

-- A write through a pointer to a claim of the map.
unfoldable pub update : HeldClaim → List HeldClaim → List HeldClaim
update h' [] = []
update h' (h ∷ hs) = (if text_eq h.key h'.key then h' else h) ∷ update h' hs

-- `delete(m.held, key)`.
unfoldable pub delete : Text → List HeldClaim → List HeldClaim
delete k [] = []
delete k (h ∷ hs) = let rest = delete k hs in if text_eq h.key k then rest else h ∷ rest

-- `m.held[held.key] = held`.
unfoldable pub insert : HeldClaim → List HeldClaim → List HeldClaim
insert h' hs = h' ∷ delete h'.key hs

-- The loop of `findHeld` over the entries of the map, for a claim with the secondary key.
unfoldable pub find_second : Text → List HeldClaim → List HeldClaim → Option HeldClaim
find_second k hs [] = none
find_second k hs (j ∷ js) =
    let rest = find_second k hs js in
    elim (find j.key hs) [ none ↦ rest | some h ↦ if text_eq h.second_key k then some h else rest ]

abbrev pub or_else {ℓ} : {A : Type ℓ} → Option A → Option A → Option A
or_else (some a) b = some a
or_else none b = b

unfoldable pub find_held : Text → List HeldClaim → Option HeldClaim
find_held k hs = or_else (find k hs) (find_second k hs hs)

-- `sort.Strings`.
unfoldable pub insert_key : Text → List Text → List Text
insert_key k [] = k ∷ []
insert_key k (j ∷ js) = if text_lt j k then j ∷ insert_key k js else k ∷ (j ∷ js)

unfoldable pub sort_keys : List Text → List Text
unfolding insert_key
sort_keys [] = []
sort_keys (k ∷ ks) = insert_key k (sort_keys ks)

unfoldable pub held_keys : List HeldClaim → List Text
unfolding sort_keys
held_keys hs = sort_keys (map (λ h. h.key) hs)

abbrev pub is_some {ℓ} : {A : Type ℓ} → Option A → Bool
is_some none = false
is_some (some a) = true

pub find_key : (k : Text) (hs : List HeldClaim) (h : HeldClaim) → find k hs ≡ some h → h.key ≡ k
unfolding find
find_key k [] h e = ground arith
find_key k (x ∷ hs) h e = ground (arith, find_key k hs h, eq_of_text_eq x.key k)

pub find-update :
    (k : Text) (h : HeldClaim) (hs : List HeldClaim)
    → find k (update h hs)
      ≡ (if text_eq h.key k then (if is_some (find k hs) then some h else none) else find k hs)
unfolding find update
find-update k h [] = ground arith
find-update k h (x ∷ hs) =
    ground
      (arith, find-update k h hs, text_eq_iff x.key h.key, text_eq_iff h.key k, text_eq_iff x.key k)

pub find-delete :
    (k j : Text) (hs : List HeldClaim)
    → find k (delete j hs) ≡ (if text_eq j k then none else find k hs)
unfolding find delete
find-delete k j [] = ground arith
find-delete k j (x ∷ hs) =
    ground (arith, find-delete k j hs, text_eq_iff x.key j, text_eq_iff j k, text_eq_iff x.key k)

pub find-insert :
    (k : Text) (h : HeldClaim) (hs : List HeldClaim)
    → find k (insert h hs) ≡ (if text_eq h.key k then some h else find k hs)
unfolding find insert
find-insert k h hs = ground (arith, find-delete k h.key hs)

find_second-find :
    (k : Text) (hs js : List HeldClaim) (h : HeldClaim)
    → find_second k hs js ≡ some h
    → find h.key hs ≡ some h
unfolding find_second
find_second-find k hs [] h e = ground arith
find_second-find k hs (j ∷ js) h e = elim (Option-cases (find j.key hs)) [
  | inl f ↦ find_second-find k hs js h (ground (arith, f))
  | inr (i, f) ↦ elim (Bool-cases (text_eq i.second_key k)) [
    | inl c ↦ ground (arith, f, c, find_key j.key hs i f)
    | inr c ↦ find_second-find k hs js h (ground (arith, f, c))
  ]
]

-- `findHeld` gives an entry of the map.
pub find_held-find :
    (k : Text) (hs : List HeldClaim) (h : HeldClaim)
    → find_held k hs ≡ some h
    → find h.key hs ≡ some h
unfolding find_held
find_held-find k hs h e = elim (Option-cases (find k hs)) [
  | inl f ↦ find_second-find k hs hs h (ground (arith, f))
  | inr (i, f) ↦ ground (arith, f, find_key k hs i f)
]

pub delete-update :
    (h : HeldClaim) (k : Text) (hs : List HeldClaim)
    → h.key ≡ k
    → delete k (update h hs) ≡ delete k hs
unfolding delete update
delete-update h k [] e = refl
delete-update h k (x ∷ hs) e =
    ground
      (arith, delete-update h k hs e, text_eq_refl k, text_eq_iff x.key h.key, text_eq_iff x.key k)

pub update-update :
    (h h' : HeldClaim) (hs : List HeldClaim)
    → h'.key ≡ h.key
    → update h' (update h hs) ≡ update h' hs
unfolding update
update-update h h' [] e = refl
update-update h h' (x ∷ hs) e = ground (
  arith,
  update-update h h' hs e,
  text_eq_refl h.key,
  text_eq_iff x.key h.key,
  text_eq_iff x.key h'.key,
)
