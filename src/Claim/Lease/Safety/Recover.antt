-- ===== src/Claim/Lease/Safety/Recover.antt =====
-- What `Recover` (pkg/claim/lease_manager.go) does to the claims that are held already: it runs
-- beside the other operations, and stores what it adopts over what it finds.
use agent_task_executor.Common.{
  ℕ, ◌≡◌, refl, sym, ap, subst, ◌∙◌, Bool, true, false, ◌&&◌, inl, inr, List, [], ◌∷◌, ◌++◌, Option,
  none, some, Result, ok, err, arith, Bool-cases, Result-cases, if◌then◌else◌, All, All-map,
}
use agent_task_executor.Text.{Text, codes, text_eq}
use agent_task_executor.Text.Laws.{eq_of_text_eq}
use agent_task_executor.Claim.Client.{Claim, Failure}
use agent_task_executor.Claim.Lease.Store.{HeldClaim, insert, find-insert}
use agent_task_executor.Claim.Lease.Clock.{fence_due}
use agent_task_executor.Claim.Lease.{caller, State, LeaseManager, M, Event, list_call, for_each}
use agent_task_executor.Claim.Lease.Safety.{
  Kept, gone, held, displaced, Keeps, Safe, Keeps-trans, gone_in, gone_in-append, displaces,
  displaced_in, displaced_in-append,
}
use agent_task_executor.Claim.Lease.Recovery.{
  drop_fenced-held, release_recovered-held, group_lease-state,
}
use agent_task_executor.Claim.Lease.Accounting.Storing.{All-sort_claims}
use agent_task_executor.Claim.Lease.Recover.{
  claim_key_of, fenced_claim, adopted_claim, group_lease, stop_fenced, recover_fence_group,
  recover_adopt_group, recover_leased, recover_group, group_pair, sort_claims, recover_task_group,
  task_ids, by_task_id, recover_listed, recover,
}

-- A claim is one of a listing, as far as displacing goes.
abbrev Listed : List Claim → Claim → Type 0
Listed cs c = (k task : Text) → displaces k task (c ∷ []) ≡ true → displaces k task cs ≡ true

Listed-more : (d : Claim) (cs : List Claim) (c : Claim) → Listed cs c → Listed (d ∷ cs) c
Listed-more d cs c l k task e = ground (arith, l k task e)

All-Listed : (cs : List Claim) → All (Listed cs) cs
All-Listed [] = tt
All-Listed (c ∷ cs) =
    (λ k task e. ground (arith, e), All-map cs (λ d. Listed-more c cs d) (All-Listed cs))

All-by_task_id :
    (P : Claim → Type 0) (t : Text) (cs : List Claim) → All P cs → All P (by_task_id t cs)
unfolding by_task_id
All-by_task_id P t [] a = tt
All-by_task_id P t (c ∷ cs) (p, a) = keep (text_eq c.task_id t) (All-by_task_id P t cs a)
  where
    keep :
        (b : Bool)
        → All P (by_task_id t cs)
        → All P (if b then c ∷ by_task_id t cs else by_task_id t cs)
    keep true rest = (p, rest)
    keep false rest = rest

-- What recovering a group does to the map: nothing, or it stores a claim under the first key.
data Stores (p : Claim) (hs hs' : List HeldClaim) : Type 0 where
  none_stored : hs' ≡ hs → Stores p hs hs'
  one_stored :
      (h : HeldClaim)
      → h.key ≡ claim_key_of p
      → h.task_id ≡ p.task_id
      → h.release_pending ≡ false
      → hs' ≡ insert h hs
      → Stores p hs hs'

module _ {W : Type 0} (m : LeaseManager W) where
  stop_fenced-Stores :
      (p : Claim) (o : Option Claim) (l : ℕ) (s : State W)
      → Stores p s.held (stop_fenced m p o l s).2.held
  unfolding stop_fenced
  stop_fenced-Stores p o l s = elim (Result-cases (m.delete_job caller p.task_id s.world).0) [
    | inl (a, e) ↦ none_stored (
        ground (
          arith,
          e,
          drop_fenced-held m p o (record s { world = (m.delete_job caller p.task_id s.world).1 }),
        ))
    | inr (x, e) ↦ one_stored (fenced_claim p o l) refl refl refl (ground (arith, e))
  ]

  same_map :
      (p : Claim) (hs hs' hs'' : List HeldClaim) → Stores p hs hs' → hs'' ≡ hs' → Stores p hs hs''
  same_map p hs hs' hs'' a e = subst (λ x. Stores p hs x) (sym e) a

  abbrev asked : Claim → State W → State W
  asked c s = record s { world = (m.is_job_running caller c.task_id s.world).1 }

  recover_fence_group-Stores :
      (p : Claim) (o : Option Claim) (l : ℕ) (s : State W)
      → Stores p s.held (recover_fence_group m p o l s).2.held
  unfolding recover_fence_group
  recover_fence_group-Stores p o l s =
      elim (Result-cases (m.is_job_running caller p.task_id s.world).0) [
        | inl (true, e) ↦
            same_map p s.held _ _ (stop_fenced-Stores p o l (asked p s)) (ground (arith, e))
        | inl (false, e) ↦ none_stored (ground (arith, e, drop_fenced-held m p o (asked p s)))
        | inr (x, e) ↦
            same_map p s.held _ _ (stop_fenced-Stores p o l (asked p s)) (ground (arith, e))
      ]

  recover_adopt_group-Stores :
      (p : Claim) (o : Option Claim) (l now : ℕ) (s : State W)
      → Stores p s.held (recover_adopt_group m p o l now s).2.held
  unfolding recover_adopt_group
  recover_adopt_group-Stores p o l now s =
      elim (Result-cases (m.is_job_running caller p.task_id s.world).0) [
        | inl (true, e) ↦
            one_stored (adopted_claim p o l now false) refl refl refl (ground (arith, e))
        | inl (false, e) ↦ none_stored (ground (arith, e, release_recovered-held m p o (asked p s)))
        | inr (x, e) ↦ one_stored (adopted_claim p o l now true) refl refl refl (ground (arith, e))
      ]

  recover_leased-Stores :
      (p : Claim) (o : Option Claim) (now l : ℕ) (s : State W)
      → Stores p s.held (recover_leased m p o now l s).2.held
  unfolding recover_leased
  recover_leased-Stores p o now l s = by (fence_due now l)
    where
      by :
          (b : Bool)
          → Stores p s.held
              ((if b then recover_fence_group m p o l else recover_adopt_group m p o l now)
                s).2.held
      by true = recover_fence_group-Stores p o l s
      by false = recover_adopt_group-Stores p o l now s

  recover_group-Stores :
      (p : Claim) (o : Option Claim) (s : State W) → Stores p s.held (recover_group m p o s).2.held
  unfolding recover_group
  recover_group-Stores p o s =
      let now : ℕ = (m.now s.world).0 in
      let timed : State W = record s { world = (m.now s.world).1 } in
      let lease = group_lease m now p o timed in
      subst (λ (x : State W). Stores p x.held (recover_leased m p o now lease.0 lease.2).2.held)
        (group_lease-state m now p o timed) (recover_leased-Stores p o now lease.0 lease.2)

first_or : Claim → Option (Claim × Claim) → Claim
first_or d none = d
first_or d (some (a, b)) = a

abbrev choose : Bool → Bool → Claim → Claim → Option (Claim × Claim)
choose true y a b = some (a, b)
choose false true a b = some (b, a)
choose false false a b = none

if-choose :
    (x y : Bool) (a b : Claim)
    → (if◌then◌else◌ {A = Option (Claim × Claim)} x
        (some (a, b))
        (if◌then◌else◌ {A = Option (Claim × Claim)} y (some (b, a)) none))
      ≡ choose x y a b
if-choose true y a b = refl
if-choose false true a b = refl
if-choose false false a b = refl

chosen-first :
    (P : Claim → Type 0) (x y : Bool) (a b p q : Claim)
    → P a
    → P b
    → choose x y a b ≡ some (p, q)
    → P p
unfolding first_or
chosen-first P true y a b p q u v e = subst P (ap (first_or p) e) u
chosen-first P false true a b p q u v e = subst P (ap (first_or p) e) v
chosen-first P false false a b p q u v e = absurd (ground (arith, e))

group_pair-first :
    (P : Claim → Type 0) (ds : List Claim) (p q : Claim)
    → All P ds
    → group_pair ds ≡ some (p, q)
    → P p
unfolding group_pair
group_pair-first P [] p q u e = absurd (ground (arith, e))
group_pair-first P (a ∷ []) p q u e = absurd (ground (arith, e))
group_pair-first P (a ∷ (b ∷ [])) p q (u, (v, w)) e =
    chosen-first P (text_eq a.scope (codes "repo") && text_eq b.scope (codes "pr"))
      (text_eq a.scope (codes "pr") && text_eq b.scope (codes "repo")) a b p q u v
      (sym (
          if-choose (text_eq a.scope (codes "repo") && text_eq b.scope (codes "pr"))
            (text_eq a.scope (codes "pr") && text_eq b.scope (codes "repo")) a b)
        ∙ e)
group_pair-first P (a ∷ (b ∷ (c ∷ ds))) p q u e = absurd (ground (arith, e))

-- The same of a trace that shows as much.
retrace :
    (h : HeldClaim) (k : Text) (t t' : List Event) (hs : List HeldClaim)
    → (gone_in h.task_id t ≡ true → gone_in h.task_id t' ≡ true)
    → (displaced_in k h.task_id t ≡ true → displaced_in k h.task_id t' ≡ true)
    → Kept h k t hs
    → Kept h k t' hs
retrace h k t t' hs g d (gone a) = gone (g a)
retrace h k t t' hs g d (held j f e p) = held j f e p
retrace h k t t' hs g d (displaced a) = displaced (d a)

module _ {W : Type 0} (cs : List Claim) where
  -- The claims are kept by what follows the listing of these claims.
  abbrev KeepsListed : State W → List Event → State W → Type 0
  KeepsListed s t s' = Keeps s (list_call (ok cs) ∷ t) s'

  KeepsListed-trans :
      (s s' s'' : State W) (t t' : List Event)
      → KeepsListed s t s'
      → KeepsListed s' t' s''
      → KeepsListed s (t ++ t') s''
  KeepsListed-trans s s' s'' t t' a b k h f r =
      let x = list_call (ok cs) in
      retrace h k ((x ∷ t) ++ (x ∷ t')) (x ∷ (t ++ t')) s''.held
        (λ g. ground (arith, g, gone_in-append h.task_id t (x ∷ t'), gone_in-append h.task_id t t'))
        (λ g. ground (
          arith,
          g,
          displaced_in-append k h.task_id t (x ∷ t'),
          displaced_in-append k h.task_id t t',
        ))
        (Keeps-trans s s' s'' (x ∷ t) (x ∷ t') a b k h f r)

  KeepsListed-refl : (s : State W) → KeepsListed s [] s
  KeepsListed-refl s k h f r = held h f refl r

  KeepsListed-for_each :
      {A : Type 0} (P : A → Type 0) (xs : List A) (f : A → M W (Unit {0}))
      → All P xs
      → ((x : A) → P x → (s : State W) → KeepsListed s (f x s).1 (f x s).2)
      → (s : State W) → KeepsListed s (for_each xs f s).1 (for_each xs f s).2
  unfolding for_each
  KeepsListed-for_each P [] f a keeps s = KeepsListed-refl s
  KeepsListed-for_each P (x ∷ xs) f (p, a) keeps s =
      KeepsListed-trans s (f x s).2 (for_each xs f (f x s).2).2 (f x s).1
        (for_each xs f (f x s).2).1 (keeps x p s) (KeepsListed-for_each P xs f a keeps (f x s).2)

  Stores-KeepsListed :
      (p : Claim) (s s' : State W) (t : List Event)
      → Listed cs p
      → Stores p s.held s'.held
      → KeepsListed s t s'
  Stores-KeepsListed p s s' t l (none_stored e) k h f r = held h (rw e f) refl r
  Stores-KeepsListed p s s' t l (one_stored i a b c e) k h f r =
      elim (Bool-cases (text_eq i.key k)) [
        | inr x ↦ held h (ground (arith, e, find-insert k i s.held)) refl r
        | inl x ↦ elim (Bool-cases (text_eq i.task_id h.task_id)) [
          | inl y ↦
              held i (ground (arith, e, find-insert k i s.held))
                (eq_of_text_eq i.task_id h.task_id y) c
          | inr y ↦ displaced (ground (arith, l k h.task_id (ground (arith, a, b, x, y))))
        ]
      ]

module _ {W : Type 0} (m : LeaseManager W) (cs : List Claim) where
  group-KeepsListed :
      (p : Claim) (o : Option Claim) (s : State W)
      → Listed cs p
      → KeepsListed cs s (recover_group m p o s).1 (recover_group m p o s).2
  group-KeepsListed p o s l =
      Stores-KeepsListed cs p s (recover_group m p o s).2 (recover_group m p o s).1 l
        (recover_group-Stores m p o s)

  singles-KeepsListed :
      (ds : List Claim) (s : State W)
      → All (Listed cs) ds
      → let run = for_each (sort_claims ds) (λ c. recover_group m c none) s in
        KeepsListed cs s run.1 run.2
  singles-KeepsListed ds s a =
      KeepsListed-for_each cs (Listed cs) (sort_claims ds) (λ c. recover_group m c none)
        ((All-sort_claims (Listed cs) ds).1 a) (λ c l s. group-KeepsListed c none s l) s

  grouped :
      (o : Option (Claim × Claim)) (ds : List Claim) (s : State W)
      → All (Listed cs) ds
      → ((a b : Claim) → o ≡ some (a, b) → Listed cs a)
      → let run =
          (elim o as (λ _. M W (Unit {0})) [
            | some (a, b) ↦ recover_group m a (some b)
            | none ↦ for_each (sort_claims ds) (λ c. recover_group m c none)
          ])
            s in
        KeepsListed cs s run.1 run.2
  grouped none ds s a l = singles-KeepsListed ds s a
  grouped (some (p, q)) ds s a l = group-KeepsListed p (some q) s (l p q refl)

  task_group-KeepsListed :
      (ds : List Claim) (s : State W)
      → All (Listed cs) ds
      → KeepsListed cs s (recover_task_group m ds s).1 (recover_task_group m ds s).2
  unfolding recover_task_group
  task_group-KeepsListed ds s a =
      grouped (group_pair ds) ds s a (λ p q e. group_pair-first (Listed cs) ds p q a e)

  tasks-KeepsListed :
      (ts : List Text) (s : State W)
      → let run = for_each ts (λ t. recover_task_group m (by_task_id t cs)) s in
        KeepsListed cs s run.1 run.2
  unfolding for_each
  tasks-KeepsListed [] s = KeepsListed-refl cs s
  tasks-KeepsListed (t ∷ ts) s =
      let f : Text → M W (Unit {0}) = λ t. recover_task_group m (by_task_id t cs) in
      KeepsListed-trans cs s (f t s).2 (for_each ts f (f t s).2).2 (f t s).1
        (for_each ts f (f t s).2).1
        (task_group-KeepsListed (by_task_id t cs) s
          (All-by_task_id (Listed cs) t cs (All-Listed cs)))
        (tasks-KeepsListed ts (f t s).2)

module _ {W : Type 0} (m : LeaseManager W) where
  listed-Keeps :
      (r : Result Failure (List Claim)) (s : State W)
      → Keeps s (list_call r ∷ (recover_listed m r s).1) (recover_listed m r s).2
  unfolding recover_listed
  listed-Keeps (err f) s = λ k h e p. held h e refl p
  listed-Keeps (ok cs) s =
      let run = for_each (task_ids cs) (λ t. recover_task_group m (by_task_id t cs)) s in
      λ k h e p.
        retrace h k (list_call (ok cs) ∷ run.1) _ run.2.held
          (λ g. ground (arith, g, gone_in-append h.task_id run.1 []))
          (λ g. ground (arith, g, displaced_in-append k h.task_id run.1 []))
          (tasks-KeepsListed m cs (task_ids cs) s k h e p)

  pub recover-Safe : Safe (recover m)
  unfolding recover
  recover-Safe s =
      let r = m.list caller m.cluster s.world in listed-Keeps r.0 (record s { world = r.1 })
