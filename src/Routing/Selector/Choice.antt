-- ===== src/Routing/Selector/Choice.antt =====
-- Which candidate `select_ai_target` takes, and what it says of it.
use xray_routing_panel.Prelude.{
  ℕ, zero, suc, ◌+◌, ◌<◌, ◌≡◌, refl, sym, subst, ap, ◌∙◌, ◌↔◌, ◌⊎◌, inl, inr, Bool, true, false,
  not, Option, none, some, List, [], ◌∷◌, arith, Bool-cases, length, any, ℤ, pos, negsuc, is_some,
}
use xray_routing_panel.Routing.Candidates.{Candidate}
use xray_routing_panel.Routing.Selector.{
  ProbeAnswer, ProbedCandidate, AiTarget, reaches, has_management_error, first_from,
  first_reachable, preferred, choose_index, get_elem?, status_of, describe, target_at,
  select_ai_target, should_fallback, probe_one, probe_all,
}

-- `index` is in the list, no probe before it is reachable, and it is unless none of the list is.
abbrev pub IsFirst : List ProbedCandidate → ℕ → Type 0
IsFirst [] index = ⊥
IsFirst (p ∷ ps) zero = (reaches p ≡ true) ⊎ (any reaches (p ∷ ps) ≡ false)
IsFirst (p ∷ ps) (suc index) = (reaches p ≡ false) × (any reaches ps ≡ true) × IsFirst ps index

-- Where a probe is reachable, the loop stops at the first, whatever place it started from.
first_from-IsFirst :
    (default start : ℕ) (ps : List ProbedCandidate)
    → any reaches ps ≡ true
    → (index : ℕ) × (first_from default start ps ≡ start + index) × IsFirst ps index
first_from-IsFirst default start [] h = absurd (ground (arith, h))
first_from-IsFirst default start (p ∷ ps) h = elim (Bool-cases (reaches p)) [
  | inl e ↦ (0, rw e (omega arith), inl e)
  | inr e ↦
      let (index, found, first) =
        first_from-IsFirst default (suc start) ps (ground (arith, h, e)) in
      (suc index, rw e (omega (arith, found)), (e, ground (arith, h, e), first))
]

first_from-none :
    (default start : ℕ) (ps : List ProbedCandidate)
    → any reaches ps ≡ false
    → first_from default start ps ≡ default
first_from-none default start [] h = refl
first_from-none default start (p ∷ ps) h = ground (arith, h, first_from-none default (suc start) ps)

first_reachable-IsFirst :
    (p : ProbedCandidate) (ps : List ProbedCandidate) → IsFirst (p ∷ ps) (first_reachable (p ∷ ps))
unfolding first_reachable
first_reachable-IsFirst p ps = elim (Bool-cases (any reaches (p ∷ ps))) [
  | inl e ↦
      let (index, found, first) = first_from-IsFirst 0 0 (p ∷ ps) e in
      subst (IsFirst (p ∷ ps)) (sym (found ∙ omega arith)) first
  | inr e ↦ subst (IsFirst (p ∷ ps)) (sym (first_from-none 0 0 (p ∷ ps) e)) (inr e)
]

IsFirst-lt : (ps : List ProbedCandidate) (index : ℕ) → IsFirst ps index → index < length ps
IsFirst-lt [] index h = absurd h
IsFirst-lt (p ∷ ps) zero h = omega arith
IsFirst-lt (p ∷ ps) (suc index) h = omega (arith, IsFirst-lt ps index h.2)

choose_index-lt :
    (preferred_index : Option ℤ) (p : ProbedCandidate) (ps : List ProbedCandidate)
    → choose_index preferred_index (p ∷ ps) < length (p ∷ ps)
unfolding choose_index preferred
choose_index-lt none p ps = IsFirst-lt (p ∷ ps) _ (first_reachable-IsFirst p ps)
choose_index-lt (some (pos n)) p ps = ground arith
choose_index-lt (some (negsuc n)) p ps = omega arith

get_elem?-some :
    (ps : List ProbedCandidate) (n : ℕ)
    → n < length ps
    → (p : ProbedCandidate) × (get_elem? ps n ≡ some p)
get_elem?-some [] n h = absurd (omega (arith, h))
get_elem?-some (p ∷ ps) zero h = (p, refl)
get_elem?-some (p ∷ ps) (suc n) h = get_elem?-some ps n (omega (arith, h))

status_of-fallback :
    (error is_manual one any_one : Bool)
    → (should_fallback (status_of error is_manual one (not any_one)) ≡ true)
      ↔ (is_manual ≡ false) × (error ≡ false) × (any_one ≡ false)
unfolding should_fallback status_of
status_of-fallback error is_manual one any_one = ground arith

-- What the caller learns of the choice.
module _ (probe : Candidate → ProbeAnswer × ℕ) where
  abbrev chosen : Option ℤ → List ProbedCandidate → Option AiTarget
  chosen preferred_index probes =
      target_at preferred_index probes (choose_index preferred_index probes)
        (get_elem? probes (choose_index preferred_index probes))

  selects :
      (preferred_index : Option ℤ) (ps : List ProbedCandidate)
      → choose_index preferred_index ps < length ps
      → (p : ProbedCandidate) × (get_elem? ps (choose_index preferred_index ps) ≡ some p)
        × (chosen preferred_index ps
            ≡ some (describe preferred_index ps (choose_index preferred_index ps) p))
  selects preferred_index ps h =
      let (p, there) = get_elem?-some ps (choose_index preferred_index ps) h in
      (p, there, ap (target_at preferred_index ps (choose_index preferred_index ps)) there)

  -- With at least one candidate, whatever index is given, `select_ai_target` returns a target. The
  -- target asks for the fall back to the primary route exactly if no index is given, no probe had a
  -- management error and no candidate is reachable.
  pub should_fallback_iff :
      (preferred_index : Option ℤ) (c : Candidate) (cs : List Candidate)
      → (t : AiTarget) × (select_ai_target probe (c ∷ cs) preferred_index ≡ some t)
        × ((should_fallback t.probe_status ≡ true)
            ↔ (is_some preferred_index ≡ false)
              × (any has_management_error (probe_all probe (c ∷ cs)) ≡ false)
              × (any reaches (probe_all probe (c ∷ cs)) ≡ false))
  unfolding select_ai_target describe status_of should_fallback
  should_fallback_iff preferred_index c cs =
      let ps = probe_all probe (c ∷ cs) in
      let (p, there, equal) =
        selects preferred_index ps
          (choose_index-lt preferred_index (probe_one probe c) (probe_all probe cs)) in
      (
        describe preferred_index ps (choose_index preferred_index ps) p,
        equal,
        status_of-fallback (any has_management_error ps) (is_some preferred_index) (reaches p)
            (any reaches ps),
      )
