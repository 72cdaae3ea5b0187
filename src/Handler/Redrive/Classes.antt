-- ===== src/Handler/Redrive/Classes.antt =====
-- The classes of redrive reasons (classifyRedriveReasons) and the decision taken on them
-- (redriveStreakCapped).
use agent_task_executor.Common.{
  ℕ, ◌≡◌, refl, sym, subst, ◌↔◌, ◌≤◌, ◌<◌, ◌⊎◌, inl, inr, Bool, true, false, ◌&&◌, ◌||◌, List, [],
  ◌∷◌, length, arith, leb, ltb, ◌==◌, ◌++◌, zero, suc, ap, if◌then◌else◌, some, none, ◌-◌,
}
use agent_task_executor.Text.{Text, codes}
use agent_task_executor.Text.Laws.{text_eq_iff}
use agent_task_executor.Handler.Maps.{mem}
use agent_task_executor.Handler.Task.{Task}
use agent_task_executor.Handler.Redrive.{
  RedriveClass, unknown, broken, transient, all_same, redrive_reason_unknown, recent_reasons,
  classify_recent, classify_redrive_reasons, skip, CapDecision, allowed, refused, broken_signature,
  transient_exhausted,
}

-- Every reason of the list is the text.
abbrev pub Constant : Text → List Text → Type 0
Constant r [] = Unit
Constant r (x ∷ xs) = (x ≡ r) × Constant r xs

abbrev pub IsBroken : List Text → Type 0
IsBroken recent =
    (3 ≤ length recent)
    × (Constant (codes "pod_crash_no_stdout") recent
        ⊎ (Constant (codes "pod_oom_killed") recent ⊎ Constant (codes "type_mismatch") recent))

-- What a class says of the reasons that are looked at.
abbrev pub IsClass : RedriveClass → List Text → Type 0
IsClass unknown recent = Constant (codes "unknown") recent
IsClass broken recent = IsBroken recent
IsClass transient recent = ¬ Constant (codes "unknown") recent × ¬ IsBroken recent

all_same-Constant : (r : Text) (xs : List Text) → (all_same r xs ≡ true) ↔ Constant r xs
unfolding all_same
all_same-Constant r [] = ground arith
all_same-Constant r (x ∷ xs) = ground (arith, all_same-Constant r xs, text_eq_iff x r)

mem-three : (r a b c : Text) → (mem r (a ∷ (b ∷ (c ∷ []))) ≡ true) ↔ ((r ≡ a) ⊎ ((r ≡ b) ⊎ (r ≡ c)))
unfolding mem
mem-three r a b c = ground (arith, text_eq_iff a r, text_eq_iff b r, text_eq_iff c r)

Constant-first :
    (r first : Text) (rest : List Text) → Constant r (first ∷ rest) → Constant first rest
Constant-first r first rest (e, c) = subst (λ x. Constant x rest) (sym e) c

Constant-same :
    (r first : Text) (rest : List Text)
    → first ≡ r
    → Constant first rest
    → Constant r (first ∷ rest)
Constant-same r first rest e c = (e, subst (λ x. Constant x rest) e c)

-- The test for the class broken, for any three reasons.
module _ (a b c : Text) where
  abbrev IsOneOf : List Text → Type 0
  IsOneOf xs = (3 ≤ length xs) × (Constant a xs ⊎ (Constant b xs ⊎ Constant c xs))

  Constant-IsOneOf :
      (first : Text) (rest : List Text)
      → 3 ≤ length (first ∷ rest)
      → Constant first rest
      → (first ≡ a) ⊎ ((first ≡ b) ⊎ (first ≡ c))
      → IsOneOf (first ∷ rest)
  Constant-IsOneOf first rest h same (inl e) = (h, inl (Constant-same a first rest e same))
  Constant-IsOneOf first rest h same (inr (inl e)) =
      (h, inr (inl (Constant-same b first rest e same)))
  Constant-IsOneOf first rest h same (inr (inr e)) =
      (h, inr (inr (Constant-same c first rest e same)))

  IsOneOf-Constant :
      (first : Text) (rest : List Text)
      → IsOneOf (first ∷ rest)
      → Constant first rest × ((first ≡ a) ⊎ ((first ≡ b) ⊎ (first ≡ c)))
  IsOneOf-Constant first rest (h, inl k) = (Constant-first a first rest k, inl k.0)
  IsOneOf-Constant first rest (h, inr (inl k)) = (Constant-first b first rest k, inr (inl k.0))
  IsOneOf-Constant first rest (h, inr (inr k)) = (Constant-first c first rest k, inr (inr k.0))

  IsOneOf-test :
      (first : Text) (rest : List Text)
      → ((leb 3 (length (first ∷ rest)) && (all_same first rest && mem first (a ∷ (b ∷ (c ∷ [])))))
          ≡ true)
        ↔ IsOneOf (first ∷ rest)
  IsOneOf-test first rest =
      let (same, same') = all_same-Constant first rest in
      let (m, m') = mem-three first a b c in
      (
        λ t.
            let h : 3 ≤ length (first ∷ rest) = ground (arith, t) in
            let s : all_same first rest ≡ true = ground (arith, t) in
            let e : mem first (a ∷ (b ∷ (c ∷ []))) ≡ true = ground (arith, t) in
            Constant-IsOneOf first rest h (same s) (m e),
        λ k.
            let (cs, e) = IsOneOf-Constant first rest k in
            let h : 3 ≤ length (first ∷ rest) = k.0 in
            let s : all_same first rest ≡ true = same' cs in
            let e' : mem first (a ∷ (b ∷ (c ∷ []))) ≡ true = m' e in ground (arith, h, s, e'),
      )

bool_clash : false ≡ true → ⊥
bool_clash e = ground arith

choose-IsClass :
    (u b : Bool) (recent : List Text)
    → (u ≡ true) ↔ Constant (codes "unknown") recent
    → (b ≡ true) ↔ IsBroken recent
    → IsClass (if u then unknown else if b then broken else transient) recent
choose-IsClass true b recent (f, g) h = f refl
choose-IsClass false true recent f (g, k) = g refl
choose-IsClass false false recent (f, f') (g, g') = (λ c. bool_clash (f' c), λ c. bool_clash (g' c))

recent-IsClass : (recent : List Text) → IsClass (classify_recent recent) recent
unfolding classify_recent
recent-IsClass [] = tt
recent-IsClass (first ∷ rest) =
    choose-IsClass (all_same redrive_reason_unknown (first ∷ rest)) _ (first ∷ rest)
      (all_same-Constant redrive_reason_unknown (first ∷ rest))
      (IsOneOf-test (codes "pod_crash_no_stdout") (codes "pod_oom_killed") (codes "type_mismatch")
        first rest)

abbrev pub min : ℕ → ℕ → ℕ
min a b = if ltb b a then b else a

skip-split :
    (n : ℕ) (rs : List Text)
    → n ≤ length rs
    → (older : List Text) × (rs ≡ older ++ skip n rs) × (length (skip n rs) ≡ length rs - n)
skip-split zero rs h = ([], refl, ground arith)
skip-split (suc n) [] h = absurd (ground (arith, h))
skip-split (suc n) (r ∷ rs) h =
    let (older, e, l) = skip-split n rs (omega arith) in
    (r ∷ older, ap (λ x. r ∷ x) e, omega (arith, l))

nothing-IsClass : (recent : List Text) → length recent ≡ 0 → IsClass unknown recent
nothing-IsClass [] e = tt
nothing-IsClass (r ∷ rs) e = absurd (ground (arith, e))

stop-IsClass :
    (stops : Bool) (recent : List Text)
    → (stops ≡ true → length recent ≡ 0)
    → IsClass (if stops then unknown else classify_recent recent) recent
stop-IsClass true recent f = nothing-IsClass recent (f refl)
stop-IsClass false recent f = recent-IsClass recent

-- The reasons that are looked at are the newest ones, as many as the count, or all where there are
-- fewer. Of these, the class is unknown where every one is "unknown"; broken where they are three
-- or more and all the same one of the three broken reasons; and transient otherwise.
pub classify_redrive_reasons-IsClass :
    (reasons : List Text) (count : ℕ)
    → (older : List Text) × (recent : List Text) × (reasons ≡ older ++ recent)
      × (length recent ≡ min count (length reasons))
      × IsClass (classify_redrive_reasons reasons count) recent
unfolding classify_redrive_reasons
classify_redrive_reasons-IsClass reasons count =
    let n = length reasons - min count (length reasons) in
    let (older, e, l) = skip-split n reasons (omega arith) in
    let m : length (recent_reasons reasons count) ≡ min count (length reasons) =
      ground (arith, l) in
    (
      older,
      recent_reasons reasons count,
      e,
      m,
      stop-IsClass (ltb count 1 || length reasons == 0) (recent_reasons reasons count)
          (λ t. ground (arith, t, m)),
    )

-- A decision, of which the count and the reasons that are looked at are given.
abbrev pub IsDecision : ℕ → List Text → CapDecision → Type 0
IsDecision n recent d =
    ((n < 3) × (d ≡ allowed))
    ⊎ ((3 ≤ n)
        × (((n < 6) × (IsClass transient recent × (d ≡ allowed)))
            ⊎ (((6 ≤ n)
                  × (IsClass transient recent × (d ≡ refused (some (transient_exhausted, n)))))
                ⊎ ((IsClass broken recent × (d ≡ refused (some (broken_signature, n))))
                    ⊎ (IsClass unknown recent × (d ≡ refused none))))))
