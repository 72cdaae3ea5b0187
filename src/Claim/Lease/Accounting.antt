-- ===== src/Claim/Lease/Accounting.antt =====
-- What becomes of the listed claims of a task in `Recover` (pkg/claim/lease_manager.go).
pub mod Storing
use agent_task_executor.Common.{
  ℕ, ◌≡◌, ◌<◌, refl, sym, ◌∙◌, ◌⊎◌, ◌↔◌, subst, inl, inr, true, Bool-cases, ◌&&◌, ◌++◌, All,
  All-map, List, [], ◌∷◌, Option, none, some, arith,
}
use agent_task_executor.Text.{Text, codes, text_eq, text_lt}
use agent_task_executor.Text.Laws.{text_eq_refl}
use agent_task_executor.Claim.Client.{Claim}
use agent_task_executor.Claim.Lease.Store.{HeldClaim, find, insert, find-insert}
use agent_task_executor.Claim.Lease.{State, LeaseManager, Event, for_each}
use agent_task_executor.Claim.Lease.Safety.{gone_in, gone_in-append}
use agent_task_executor.Claim.Lease.Recover.{
  claim_key_of, second_key_of, fenced_claim, adopted_claim, insert_claim, sort_claims, group_pair,
  recover_group, recover_task_group,
}
use agent_task_executor.Claim.Lease.Recovery.{recover_group-Recovered}
use agent_task_executor.Claim.Lease.Accounting.Storing.{
  Has, Stored, Recovered-Stored, Stored-keeps, Stored-gives, All-sort_claims,
}

-- What became of a listed claim: its task has no running Job, or it is held, as a first or as a
-- second key, for its task.
pub data Accounted (c : Claim) (t : List Event) (hs : List HeldClaim) : Type 0 where
  no_job : gone_in c.task_id t ≡ true → Accounted c t hs
  as_first :
      (h : HeldClaim) → find (claim_key_of c) hs ≡ some h → h.task_id ≡ c.task_id → Accounted c t hs
  as_second :
      (h : HeldClaim)
      → find h.key hs ≡ some h
      → h.second_key ≡ claim_key_of c
      → h.task_id ≡ c.task_id
      → Accounted c t hs

module _ {W : Type 0} (m : LeaseManager W) (later : (w : W) → 0 < (m.now w).0) where
  group-Stored :
      (p : Claim) (o : Option Claim) (s : State W)
      → Stored p o (recover_group m p o s).1 s.held (recover_group m p o s).2.held
  group-Stored p o s =
      Recovered-Stored p o (m.now s.world).0 s.held (recover_group m p o s).2.held
        (recover_group m p o s).1 (recover_group-Recovered m p o s (later s.world))

  -- The loop of `recoverTaskGroup` over claims that are recovered one by one.
  abbrev singles : List Claim → State W → (Unit {0}) × List Event × State W
  singles cs = for_each cs (λ c. recover_group m c none)

  abbrev OfTask : Text → List Claim → Type 0
  OfTask task cs = All (λ c. c.task_id ≡ task) cs

  singles-keeps :
      (task k : Text) (cs : List Claim) (s : State W)
      → OfTask task cs
      → Has task k s.held
      → Has task k (singles cs s).2.held
  unfolding for_each
  singles-keeps task k [] s p a = a
  singles-keeps task k (c ∷ cs) s (e, p) a =
      singles-keeps task k cs (recover_group m c none s).2 p (
        Stored-keeps c none (recover_group m c none s).1 s.held (recover_group m c none s).2.held
          task k e (group-Stored c none s) a)

  -- The task has no running job, or the claim is held under its key.
  abbrev KeptSingle : Text → List Event → List HeldClaim → Claim → Type 0
  KeptSingle task t hs c = (gone_in task t ≡ true) ⊎ Has task (claim_key_of c) hs

  later_gone :
      (task : Text) (t t' : List Event) (hs : List HeldClaim) (c : Claim)
      → KeptSingle task t' hs c
      → KeptSingle task (t ++ t') hs c
  later_gone task t t' hs c (inl g) = inl (ground (arith, gone_in-append task t t'))
  later_gone task t t' hs c (inr a) = inr a

  singles-Kept :
      (task : Text) (cs : List Claim) (s : State W)
      → OfTask task cs
      → All (KeptSingle task (singles cs s).1 (singles cs s).2.held) cs
  unfolding for_each
  singles-Kept task [] s p = tt
  singles-Kept task (c ∷ cs) s (e, p) =
      let s' : State W = (recover_group m c none s).2 in
      let t : List Event = (recover_group m c none s).1 in
      (
        head c cs s e p (Stored-gives c none t s.held s'.held (group-Stored c none s)),
        All-map cs (λ d. later_gone task t (singles cs s').1 (singles cs s').2.held d)
            (singles-Kept task cs s' p),
      )
    where
      head :
          (c : Claim) (cs : List Claim) (s : State W)
          → c.task_id ≡ task
          → OfTask task cs
          → (gone_in c.task_id (recover_group m c none s).1 ≡ true)
            ⊎ ((h : HeldClaim) × (find (claim_key_of c) (recover_group m c none s).2.held ≡ some h)
                × (h.key ≡ claim_key_of c)
                × (h.second_key ≡ [])
                × (h.task_id ≡ c.task_id))
          → KeptSingle task
              ((recover_group m c none s).1 ++ (singles cs (recover_group m c none s).2).1)
              (singles cs (recover_group m c none s).2).2.held
              c
      head c cs s e p (inl g) = inl (
          ground (
            arith,
            gone_in-append task (recover_group m c none s).1
                (singles cs (recover_group m c none s).2).1,
          ))
      head c cs s e p (inr (h, f, a, b, d)) =
          inr (singles-keeps task (claim_key_of c) cs (recover_group m c none s).2 p (h, f, d ∙ e))

  single-Accounted :
      (task : Text) (t : List Event) (hs : List HeldClaim) (c : Claim)
      → c.task_id ≡ task
      → KeptSingle task t hs c
      → Accounted c t hs
  single-Accounted task t hs c e (inl g) = no_job (subst (λ x. gone_in x t ≡ true) (sym e) g)
  single-Accounted task t hs c e (inr (h, f, d)) = as_first h f (d ∙ sym e)

  singles-Accounted :
      (task : Text) (cs : List Claim) (s : State W)
      → OfTask task cs
      → All (λ c. Accounted c (singles (sort_claims cs) s).1 (singles (sort_claims cs) s).2.held) cs
  singles-Accounted task cs s p =
      let t : List Event = (singles (sort_claims cs) s).1 in
      let hs : List HeldClaim = (singles (sort_claims cs) s).2.held in
      let sorted : OfTask task (sort_claims cs) =
        (All-sort_claims (λ c. c.task_id ≡ task) cs).1 p in
      let kept : All (KeptSingle task t hs) cs =
        (All-sort_claims (KeptSingle task t hs) cs).0
          (singles-Kept task (sort_claims cs) s sorted) in
      both cs t hs p kept
    where
      both :
          (cs : List Claim) (t : List Event) (hs : List HeldClaim)
          → OfTask task cs
          → All (KeptSingle task t hs) cs
          → All (λ c. Accounted c t hs) cs
      both [] t hs p k = tt
      both (c ∷ cs) t hs (e, p) (a, k) = (single-Accounted task t hs c e a, both cs t hs p k)

  pair-Accounted :
      (a b : Claim) (s : State W)
      → b.task_id ≡ a.task_id
      → Accounted a (recover_group m a (some b) s).1 (recover_group m a (some b) s).2.held
        × Accounted b (recover_group m a (some b) s).1 (recover_group m a (some b) s).2.held
  pair-Accounted a b s e =
      elim (Stored-gives a (some b) (recover_group m a (some b) s).1 s.held
        (recover_group m a (some b) s).2.held (group-Stored a (some b) s)) [
          | inl g ↦ (
            no_job g,
            no_job (subst (λ x. gone_in x (recover_group m a (some b) s).1 ≡ true) (sym e) g),
          )
          | inr (h, f, k, l, d) ↦ (
            as_first h f d,
            as_second h
                (subst (λ x. find x (recover_group m a (some b) s).2.held ≡ some h) (sym k) f) l
                (d ∙ sym e),
          )
        ]

  -- After a restart, where the clock is past its origin, no claim of a task is forgotten: for each
  -- of the task's listed claims, the cluster answered that the task has no running Job or that its
  -- Job is deleted, or the claim is held for the task, as a first or as a second key.
  pub recover_task_group-Accounted :
      (task : Text) (cs : List Claim) (s : State W)
      → OfTask task cs
      → All (λ c. Accounted c (recover_task_group m cs s).1 (recover_task_group m cs s).2.held) cs
  unfolding recover_task_group group_pair
  recover_task_group-Accounted task [] s p = tt
  recover_task_group-Accounted task (a ∷ []) s p = singles-Accounted task (a ∷ []) s p
  recover_task_group-Accounted task (a ∷ (b ∷ (c ∷ cs))) s p =
      singles-Accounted task (a ∷ (b ∷ (c ∷ cs))) s p
  recover_task_group-Accounted task (a ∷ (b ∷ [])) s (d, (e, p)) =
      elim (Bool-cases (text_eq a.scope (codes "repo") && text_eq b.scope (codes "pr"))) [
        | inl f ↦
            rw (f, recover_task_group, group_pair)
              (let (x, y) = pair-Accounted a b s (e ∙ sym d) in (x, (y, tt)))
        | inr f ↦
            elim (Bool-cases (text_eq a.scope (codes "pr") && text_eq b.scope (codes "repo"))) [
              | inl g ↦
                  rw (f, g, recover_task_group, group_pair)
                    (let (x, y) = pair-Accounted b a s (d ∙ sym e) in (y, (x, tt)))
              | inr g ↦
                  rw (f, g, recover_task_group, group_pair)
                    (singles-Accounted task (a ∷ (b ∷ [])) s (d, (e, p)))
            ]
      ]
