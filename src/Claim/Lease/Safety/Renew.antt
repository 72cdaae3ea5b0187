-- ===== src/Claim/Lease/Safety/Renew.antt =====
-- What a renewal (pkg/claim/lease_manager_tick.go) does to the held claims.
use agent_task_executor.Common.{
  ℕ, ◌≡◌, refl, sym, true, inl, List, [], ◌∷◌, Option, none, some, Result, ok, err, not, if-intro,
  ◌||◌, ◌&&◌, subst,
}
use agent_task_executor.Text.{Text, text_eq, is_empty}
use agent_task_executor.Claim.Client.{
  Claim, Failure, lease_lost, claim_held, claim_free, target_invalid, other,
}
use agent_task_executor.Claim.Lease.Store.{HeldClaim, find, update, find_key, held_keys}
use agent_task_executor.Claim.Lease.Clock.{renew_due}
use agent_task_executor.Claim.Lease.{Ctx, until, State, LeaseManager, M, Event, ◌>>=◌, Label}
use agent_task_executor.Claim.Lease.Safety.{
  Does, if-Does, write-Outcome, longer-Outcome, find_after_write, same, changed, Outcome-Keeps,
  Keeps, Keeps-refl, Keeps-trans, Safe, Safe-for_each, Safe-at_key,
}
use mathlib.Core.List.{append-nil}
use agent_task_executor.Claim.Lease.{read_call, renew_call, renewed}
use agent_task_executor.Claim.Lease.Clock.{request_deadline, lease_seconds}
use agent_task_executor.Claim.Lease.Fence.{request_context, evaluate_fence, lose_claim}
use agent_task_executor.Claim.Lease.Create.{
  claimant_task_id, read_back, held_by_us, read_back_result,
}
use agent_task_executor.Claim.Lease.Renew.{
  renewed_by, renew_read_back, renew_second, renewing, renew_claim, renew_key, renew_due_claims,
  second_answer, read_back_answer, read_back_found, after_read_back, renew_answer, renew_step,
}
use agent_task_executor.Claim.Lease.Safety.Fence.{evaluate_fence-Safe, lose_claim-Outcome}

module _ {W : Type 0} (m : LeaseManager W) where
  second_answer-Outcome :
      (h : HeldClaim) (l : Label) (r : Result Failure Claim) (s : State W)
      → Does h s (second_answer m h.key h l r)
  unfolding second_answer
  second_answer-Outcome h l (ok c) s =
      changed (record h { second_token = c.lease_token }) refl refl refl (inl refl)
  second_answer-Outcome h l (err lease_lost) s = lose_claim-Outcome m h s
  second_answer-Outcome h l (err claim_held) s =
      changed (record h { renew_next_tick = true }) refl refl refl (inl refl)
  second_answer-Outcome h l (err claim_free) s =
      changed (record h { renew_next_tick = true }) refl refl refl (inl refl)
  second_answer-Outcome h l (err target_invalid) s =
      changed (record h { renew_next_tick = true }) refl refl refl (inl refl)
  second_answer-Outcome h l (err other) s =
      changed (record h { renew_next_tick = true }) refl refl refl (inl refl)

  renew_second-Outcome :
      (h : HeldClaim) (l : Label) (s : State W) → Does h s (renew_second m h.key h l)
  unfolding renew_second request_context
  renew_second-Outcome h l s =
      if-Does h s (is_empty h.second_key) _ _ (λ _. same refl)
        (λ _. longer-Outcome h s.held _ (_ ∷ []) _ (second_answer-Outcome h l _ _))

  read_back_answer-Outcome :
      (h : HeldClaim) (r : Result Failure (Option Claim)) (s : State W)
      → Does h s (read_back_answer m h.key h r)
  unfolding read_back_answer
  read_back_answer-Outcome h (err f) s = same refl
  read_back_answer-Outcome h (ok none) s = simp append-nil (lose_claim-Outcome m h s)
  read_back_answer-Outcome h (ok (some c)) s =
      if-Does h s (held_by_us m c && text_eq c.lease_token h.lease_token) _ _ (λ _. same refl)
        (λ _.
          if-Does h s (held_by_us m c) _ _ (λ _. changed (renewed_by c h) refl refl refl (inl refl))
            (λ _. simp append-nil (lose_claim-Outcome m h s)))

  -- The claim that a read-back returns is the one in the map.
  abbrev Current : Text → Option (Label × HeldClaim) → List HeldClaim → Type 0
  Current key none hs = Unit
  Current key (some (l, h)) hs = find key hs ≡ some h

  read_back_answer-Current :
      (h : HeldClaim) (r : Result Failure (Option Claim)) (s : State W)
      → find h.key s.held ≡ some h
      → Current h.key (read_back_answer m h.key h r s).0 (read_back_answer m h.key h r s).2.held
  unfolding read_back_answer
  read_back_answer-Current h (err f) s e = e
  read_back_answer-Current h (ok none) s e = tt
  read_back_answer-Current h (ok (some c)) s e =
      if-intro now_current (held_by_us m c && text_eq c.lease_token h.lease_token) _ _ e (
        if-intro now_current (held_by_us m c) _ _
          (find_after_write h (renewed_by c h) s.held refl e) tt)
    where
      now_current : M W (Option (Label × HeldClaim)) → Type 0
      now_current f = Current h.key (f s).0 (f s).2.held

  at_own_key :
      (h : HeldClaim) (s : State W)
      → find h.key s.held ≡ some h
      → Keeps s (read_back_found m h.key (some h) s).1 (read_back_found m h.key (some h) s).2
        × Current h.key
            (read_back_found m h.key (some h) s).0
            (read_back_found m h.key (some h) s).2.held
  unfolding read_back_found request_context read_back
  at_own_key h s e =
      let ctx : Ctx = until (request_deadline (m.now s.world).0 s.held) in
      let answer = m.read ctx h.target (m.now s.world).1 in
      let s2 : State W = record s { world = answer.1 } in
      let run = read_back_answer m h.key h (read_back_result answer.0) s2 in
      (
        Outcome-Keeps h s (read_call h.target answer.0 ∷ run.1) run.2 e (
            longer-Outcome h s.held run.2.held (read_call h.target answer.0 ∷ []) run.1
              (read_back_answer-Outcome h (read_back_result answer.0) s2)),
        read_back_answer-Current h (read_back_result answer.0) s2 e,
      )

  read_back_found-Keeps :
      (key : Text) (s : State W) (o : Option HeldClaim)
      → find key s.held ≡ o
      → Keeps s (read_back_found m key o s).1 (read_back_found m key o s).2
        × Current key (read_back_found m key o s).0 (read_back_found m key o s).2.held
  unfolding read_back_found request_context read_back
  read_back_found-Keeps key s none e = (Keeps-refl s, tt)
  read_back_found-Keeps key s (some h) e =
      let k : h.key ≡ key = find_key key s.held h e in
      subst
        (λ j.
          Keeps s (read_back_found m j (some h) s).1 (read_back_found m j (some h) s).2
          × Current j (read_back_found m j (some h) s).0 (read_back_found m j (some h) s).2.held)
        k (at_own_key h s (subst (λ j. find j s.held ≡ some h) (sym k) e))

  renew_read_back-Keeps :
      (key : Text) (s : State W)
      → Keeps s (renew_read_back m key s).1 (renew_read_back m key s).2
        × Current key (renew_read_back m key s).0 (renew_read_back m key s).2.held
  unfolding renew_read_back
  renew_read_back-Keeps key s =
      let s1 : State W = record s { world = (m.now s.world).1 } in
      let fenced = evaluate_fence m (m.now s.world).0 s1 in
      let rest = read_back_found-Keeps key fenced.2 (find key fenced.2.held) refl in
      (
        Keeps-trans s fenced.2 (read_back_found m key (find key fenced.2.held) fenced.2).2 fenced.1
            (read_back_found m key (find key fenced.2.held) fenced.2).1
            (evaluate_fence-Safe m (m.now s.world).0 s1) rest.0,
        rest.1,
      )

  after_read_back-Keeps :
      (key : Text) (o : Option (Label × HeldClaim)) (s : State W)
      → Current key o s.held
      → Keeps s (after_read_back m key o s).1 (after_read_back m key o s).2
  unfolding after_read_back
  after_read_back-Keeps key none s c = Keeps-refl s
  after_read_back-Keeps key (some (l, h)) s c =
      let k : h.key ≡ key = find_key key s.held h c in
      subst (λ j. Keeps s (renew_second m j h l s).1 (renew_second m j h l s).2) k
        (Outcome-Keeps h s (renew_second m h.key h l s).1 (renew_second m h.key h l s).2
          (subst (λ j. find j s.held ≡ some h) (sym k) c) (renew_second-Outcome h l s))

  recover_renew-Safe : (key : Text) → Safe (renew_read_back m key >>= after_read_back m key)
  recover_renew-Safe key s =
      let back = renew_read_back m key s in
      let r = renew_read_back-Keeps key s in
      Keeps-trans s back.2 (after_read_back m key back.0 back.2).2 back.1
        (after_read_back m key back.0 back.2).1 r.0 (after_read_back-Keeps key back.0 back.2 r.1)

  renew_answer-Keeps :
      (h : HeldClaim) (r : Result Failure Claim) (s : State W)
      → find h.key s.held ≡ some h
      → Keeps s (renew_answer m h.key h r s).1 (renew_answer m h.key h r s).2
  unfolding renew_answer
  renew_answer-Keeps h (ok c) s e =
      let s2 : State W = record s { held = update (renewed_by c h) s.held } in
      let run = renew_second m h.key (renewed_by c h) renewed s2 in
      Outcome-Keeps h s run.1 run.2 e (
        write-Outcome h (renewed_by c h) s.held s2.held run.2.held run.1 refl refl refl refl
          (renew_second-Outcome (renewed_by c h) renewed s2))
  renew_answer-Keeps h (err lease_lost) s e =
      Outcome-Keeps h s (lose_claim m h.key h s).1 (lose_claim m h.key h s).2 e
        (lose_claim-Outcome m h s)
  renew_answer-Keeps h (err claim_held) s e = recover_renew-Safe h.key s
  renew_answer-Keeps h (err claim_free) s e = recover_renew-Safe h.key s
  renew_answer-Keeps h (err target_invalid) s e = recover_renew-Safe h.key s
  renew_answer-Keeps h (err other) s e = recover_renew-Safe h.key s

  renew_claim-Keeps :
      (now : ℕ) (h : HeldClaim) (s : State W)
      → find h.key s.held ≡ some h
      → Keeps s (renew_claim m h.key h now s).1 (renew_claim m h.key h now s).2
  unfolding renew_claim request_context
  renew_claim-Keeps now h s e =
      let w : HeldClaim = renewing m now h in
      let ctx : Ctx = until (request_deadline (m.now s.world).0 (update w s.held)) in
      let answer =
        m.renew ctx h.target m.cluster h.lease_token (claimant_task_id h.target h.task_id)
          lease_seconds (m.now s.world).1 in
      let s2 : State W = record { held = update w s.held; world = answer.1 } in
      let asked : List Event = renew_call h.target h.lease_token answer.0 ∷ [] in
      let run = renew_answer m h.key w answer.0 s2 in
      Keeps-trans s s2 run.2 asked run.1
        (Outcome-Keeps h s asked s2 e (changed w refl refl refl (inl refl)))
        (renew_answer-Keeps w answer.0 s2 (find_after_write h w s.held refl e))

  renew_step-Keeps :
      (h : HeldClaim) (s : State W)
      → find h.key s.held ≡ some h
      → Keeps s (renew_step m h.key h s).1 (renew_step m h.key h s).2
  unfolding renew_step
  renew_step-Keeps h s e =
      let s1 : State W = record s { world = (m.now s.world).1 } in
      let run = renew_claim m h.key h (m.now s.world).0 s1 in
      let s2 : State W = record run.2 { world = (m.now run.2.world).1 } in
      let fenced = evaluate_fence m (m.now run.2.world).0 s2 in
      if-intro (λ (f : M W (Unit {0})). Keeps s (f s).1 (f s).2)
        (h.pending_job_deletion || h.release_pending) _ _ (Keeps-refl s)
        (if-intro (λ (f : M W (Unit {0})). Keeps s (f s1).1 (f s1).2)
          (not h.renew_next_tick && not (renew_due (m.now s.world).0 h.last_renew_at)) _ _
          (Keeps-refl s)
          (Keeps-trans s run.2 fenced.2 run.1 fenced.1 (renew_claim-Keeps (m.now s.world).0 h s1 e)
            (evaluate_fence-Safe m (m.now run.2.world).0 s2)))

  pub renew_due_claims-Safe : Safe (renew_due_claims m)
  unfolding renew_due_claims renew_key
  renew_due_claims-Safe s =
      Safe-for_each (held_keys s.held) (renew_key m) (Safe-at_key (renew_step m) renew_step-Keeps) s
