-- ===== src/Routing/Candidates/Dedupe.antt =====
-- What `dedupe_upstream_candidates` leaves.
use xray_routing_panel.Prelude.{
  String, ◌≡◌, refl, sym, ap, ◌∙◌, subst, inl, inr, true, false, ◌||◌, List, [], ◌∷◌, arith,
  str_eq_refl, str_eq_sym, Bool-cases, All, any, strip, strip-strip,
}
use xray_routing_panel.Prelude.Apart.{Apart, All-zip, All-map, All-of_any}
use xray_routing_panel.Routing.Candidates.{
  Candidate, same_key, normalized, dedupe_after, dedupe_upstream_candidates,
}

module _ (lower : String → String) where
  same_key_refl : (c : Candidate) → same_key lower c c ≡ true
  unfolding same_key
  same_key_refl c = ground (
    arith,
    str_eq_refl (lower (strip c.upstream_host)),
    str_eq_refl (lower (strip c.candidate_type)),
    str_eq_refl (strip c.candidate_label),
  )

  same_key_sym : (a b : Candidate) → same_key lower a b ≡ same_key lower b a
  unfolding same_key
  same_key_sym a b =
      rw
        (
          str_eq_sym (lower (strip a.upstream_host)) (lower (strip b.upstream_host)),
          str_eq_sym (lower (strip a.candidate_type)) (lower (strip b.candidate_type)),
          str_eq_sym (strip a.candidate_label) (strip b.candidate_label),
        )
        (ground arith)

  -- The key is read of the stripped host, so a normalized candidate has the key it had.
  same_key-normalized :
      (a b : Candidate) → same_key lower (normalized lower a) b ≡ same_key lower a b
  unfolding same_key
  same_key-normalized a b = rw (strip-strip a.upstream_host) refl

  none_seen : (cs : List Candidate) → All (λ x. any (same_key lower x) [] ≡ false) cs
  none_seen [] = tt
  none_seen (c ∷ cs) = (refl, none_seen cs)

  key_of_normalized : (a b : Candidate) → same_key lower a (normalized lower b) ≡ same_key lower a b
  key_of_normalized a b =
      same_key_sym a (normalized lower b) ∙ same_key-normalized b a ∙ same_key_sym b a

  normalized_twice : (c : Candidate) → normalized lower (normalized lower c) ≡ normalized lower c
  normalized_twice c = ap (λ h. record c { upstream_host = h }) (strip-strip c.upstream_host)

  -- Nothing in the rest has the key of a candidate that those seen shut out.
  avoids :
      (s : Candidate) (seen cs : List Candidate)
      → ((c : Candidate) → any (same_key lower c) seen ≡ false → same_key lower c s ≡ false)
      → any (same_key lower s) (dedupe_after lower seen cs) ≡ false
  unfolding dedupe_after
  avoids s seen [] h = refl
  avoids s seen (c ∷ cs) h = elim (Bool-cases (any (same_key lower c) seen)) [
    | inl e ↦ rw e (avoids s seen cs h)
    | inr e ↦
        rw (e, key_of_normalized s c, same_key_sym s c, h c e)
          (avoids s (c ∷ seen) cs (λ d k. h d (ground (arith, k))))
  ]

  dedupe_after-Apart :
      (seen cs : List Candidate) → Apart (same_key lower) (dedupe_after lower seen cs)
  unfolding dedupe_after
  dedupe_after-Apart seen [] = tt
  dedupe_after-Apart seen (c ∷ cs) = elim (Bool-cases (any (same_key lower c) seen)) [
    | inl e ↦ rw e (dedupe_after-Apart seen cs)
    | inr e ↦ rw e (
      avoids (normalized lower c) (c ∷ seen) cs (λ d k. key_of_normalized d c ∙ ground (arith, k)),
      dedupe_after-Apart (c ∷ seen) cs,
    )
  ]

  -- The candidate's key is among those seen or those left.
  abbrev IsCovered : List Candidate → List Candidate → Candidate → Type 0
  IsCovered seen left x = (any (same_key lower x) seen || any (same_key lower x) left) ≡ true

  drops :
      (seen : List Candidate) (c : Candidate) (cs : List Candidate)
      → any (same_key lower c) seen ≡ true
      → dedupe_after lower seen (c ∷ cs) ≡ dedupe_after lower seen cs
  unfolding dedupe_after
  drops seen c cs e = rw e refl

  keeps :
      (seen : List Candidate) (c : Candidate) (cs : List Candidate)
      → any (same_key lower c) seen ≡ false
      → dedupe_after lower seen (c ∷ cs) ≡ normalized lower c ∷ dedupe_after lower (c ∷ seen) cs
  unfolding dedupe_after
  keeps seen c cs e = rw e refl

  dedupe_after-covers :
      (seen cs : List Candidate) → All (IsCovered seen (dedupe_after lower seen cs)) cs
  dedupe_after-covers seen [] = tt
  dedupe_after-covers seen (c ∷ cs) = elim (Bool-cases (any (same_key lower c) seen)) [
    | inl e ↦
        subst (λ left. All (IsCovered seen left) (c ∷ cs)) (sym (drops seen c cs e))
          (ground (arith, e), dedupe_after-covers seen cs)
    | inr e ↦
        let rest = dedupe_after lower (c ∷ seen) cs in
        subst (λ left. All (IsCovered seen left) (c ∷ cs)) (sym (keeps seen c cs e))
          (
            ground (arith, key_of_normalized c c, same_key_refl c),
            All-map (IsCovered (c ∷ seen) rest) (IsCovered seen (normalized lower c ∷ rest))
                (λ x k. ground (arith, key_of_normalized x c, k)) cs
                (dedupe_after-covers (c ∷ seen) cs),
          )
  ]

  dedupe_after-normal :
      (seen cs : List Candidate) → All (λ x. normalized lower x ≡ x) (dedupe_after lower seen cs)
  unfolding dedupe_after
  dedupe_after-normal seen [] = tt
  dedupe_after-normal seen (c ∷ cs) = elim (Bool-cases (any (same_key lower c) seen)) [
    | inl e ↦ rw e (dedupe_after-normal seen cs)
    | inr e ↦ rw e (normalized_twice c, dedupe_after-normal (c ∷ seen) cs)
  ]

  dedupe_after-unchanged :
      (seen cs : List Candidate)
      → Apart (same_key lower) cs
      → All (λ x. normalized lower x ≡ x) cs
      → All (λ x. any (same_key lower x) seen ≡ false) cs
      → dedupe_after lower seen cs ≡ cs
  unfolding dedupe_after
  dedupe_after-unchanged seen [] a n h = refl
  dedupe_after-unchanged seen (c ∷ cs) a n h =
      rw (h.0, n.0)
        (ap (λ rest. c ∷ rest)
          (dedupe_after-unchanged (c ∷ seen) cs a.1 n.1 (
            All-zip (λ x. same_key lower c x ≡ false) (λ x. any (same_key lower x) seen ≡ false)
              (λ x. any (same_key lower x) (c ∷ seen) ≡ false)
              (λ x p q. ground (arith, same_key_sym x c, p, q)) cs
              (All-of_any (same_key lower c) cs a.0) h.1)))

  -- The key of a candidate is its host in lower case, its port, its type and its label. No two
  -- candidates that `dedupe_upstream_candidates` leaves have one key, every candidate given to it has
  -- its key among those left, and a second call changes nothing.
  pub dedupe_upstream_candidates-exact :
      (candidates : List Candidate)
      → Apart (same_key lower) (dedupe_upstream_candidates lower candidates)
        × All
            (λ c. any (same_key lower c) (dedupe_upstream_candidates lower candidates) ≡ true)
            candidates
        × (dedupe_upstream_candidates lower (dedupe_upstream_candidates lower candidates)
            ≡ dedupe_upstream_candidates lower candidates)
  unfolding dedupe_upstream_candidates
  dedupe_upstream_candidates-exact candidates = (
    dedupe_after-Apart [] candidates,
    dedupe_after-covers [] candidates,
    dedupe_after-unchanged [] (dedupe_after lower [] candidates) (dedupe_after-Apart [] candidates)
        (dedupe_after-normal [] candidates) (none_seen (dedupe_after lower [] candidates)),
  )
