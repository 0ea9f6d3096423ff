-- ===== src/Routing/Domains/Exact.antt =====
-- What `save_ai_domains_to_panel_db` leaves in the two tables.
use xray_routing_panel.Prelude.{
  ℕ, String, ◌≡◌, refl, sym, ap, ◌∙◌, subst, ◌⊎◌, inl, inr, Bool, true, false, ◌&&◌, ◌||◌, List, [],
  ◌∷◌, arith, eq_iff, str_eq_sym, Bool-cases, All, any, select, find, update,
}
use xray_routing_panel.Prelude.Apart.{All-map, All-zip, All-of_any, any-append, All-append_one}
use xray_routing_panel.Routing.Domains.{
  DomainRow, Observation, Tables, Item, Report, Decisions, is_row, is_ai_item, member, last_item,
  ai_domains, sum_hits, upsert_domain, save_observations, item_or_default, domain_row, save_domains,
  save_once, SaveStatus, written, database_locked, with_lock_retry, save_ai_domains,
}

-- A row's total is the sum of the hits of its domain's observations.
abbrev pub IsTotalled : List Observation → DomainRow → Type 0
IsTotalled os r = r.total_hits ≡ sum_hits r.domain os

-- So it is for the rows that the test lets through.
abbrev IsDone : List Observation → (DomainRow → Bool) → DomainRow → Type 0
IsDone os q r = q r ≡ true → IsTotalled os r

All-update_to :
    {A : Type 0} (P Q : A → Type 0) (test : A → Bool) (new : A)
    → Q new
    → ((x : A) → test x ≡ false → P x → Q x)
    → (xs : List A) → All P xs
    → All Q (update test (λ _. new) xs)
All-update_to P Q test new n f [] h = tt
All-update_to P Q test new n f (x ∷ xs) h = elim (Bool-cases (test x)) [
  | inl e ↦ rw e (n, All-update_to P Q test new n f xs h.1)
  | inr e ↦ rw e (f x e h.0, All-update_to P Q test new n f xs h.1)
]

upsert-IsDone :
    (os : List Observation) (q : DomainRow → Bool) (r : DomainRow) (rs : List DomainRow)
    → IsTotalled os r
    → All (IsDone os q) rs
    → All (IsDone os (λ x. is_row r.domain x || q x)) (upsert_domain r rs)
unfolding upsert_domain
upsert-IsDone os q r rs n h = elim (Bool-cases (any (is_row r.domain) rs)) [
  | inl e ↦ rw e (
      All-update_to (IsDone os q) (IsDone os (λ x. is_row r.domain x || q x)) (is_row r.domain) r
        (λ _. n) (λ x no_row done k. done (ground (arith, no_row, k))) rs h)
  | inr e ↦ rw e (
      All-append_one (IsDone os (λ x. is_row r.domain x || q x)) rs r
        (All-zip (λ x. is_row r.domain x ≡ false) (IsDone os q)
          (IsDone os (λ x. is_row r.domain x || q x))
          (λ x no_row done k. done (ground (arith, no_row, k))) rs
          (All-of_any (is_row r.domain) rs e) h)
        (λ _. n))
]

any-update_row :
    (d : String) (r : DomainRow) (rs : List DomainRow)
    → any (is_row d) (update (is_row r.domain) (λ _. r) rs) ≡ any (is_row d) rs
any-update_row d r [] = refl
any-update_row d r (x ∷ rs) =
    ground
      (arith, any-update_row d r rs, eq_iff x.domain r.domain, eq_iff x.domain d, eq_iff r.domain d)

row_domain : (d : String) (r : DomainRow) → is_row d r ≡ true → r.domain ≡ d
row_domain d r h = ground (arith, eq_iff r.domain d, h)

any-of_domain :
    (d : String) (r : DomainRow) (rs : List DomainRow)
    → is_row d r ≡ true
    → any (is_row r.domain) rs ≡ any (is_row d) rs
any-of_domain d r rs h = ap (λ x. any (is_row x) rs) (row_domain d r h)

any-upsert :
    (d : String) (r : DomainRow) (rs : List DomainRow)
    → any (is_row d) (upsert_domain r rs) ≡ (any (is_row d) rs || is_row d r)
unfolding upsert_domain
any-upsert d r rs = elim (Bool-cases (any (is_row r.domain) rs)) [
  | inl e ↦ rw e (any-update_row d r rs ∙ ground (arith, e, any-of_domain d r rs))
  | inr e ↦ rw e (any-append (is_row d) rs (r ∷ []) ∙ ground arith)
]

member_of_row :
    (d : String) (r : DomainRow) (kept : List String)
    → is_row d r ≡ true
    → member r.domain kept ≡ member d kept
member_of_row d r kept h = ap (λ x. member x kept) (row_domain d r h)

none-IsDone : (os : List Observation) (rs : List DomainRow) → All (IsDone os (λ _. false)) rs
none-IsDone os [] = tt
none-IsDone os (r ∷ rs) = ((λ h. absurd (ground (arith, h))), none-IsDone os rs)

module _ (dumps : List String → String) (report : Report) (decisions : Decisions)
    (items : List Item) (os : List Observation) where
  -- The row that the second loop writes for a domain.
  abbrev row_of : String → List DomainRow → DomainRow
  row_of domain rs =
      domain_row dumps report decisions os domain
        (item_or_default dumps decisions domain (last_item domain items)) (find (is_row domain) rs)

  row_of-IsTotalled : (domain : String) (rs : List DomainRow) → IsTotalled os (row_of domain rs)
  unfolding domain_row
  row_of-IsTotalled domain rs = refl

  row_of_domain : (domain : String) (rs : List DomainRow) → (row_of domain rs).domain ≡ domain
  unfolding domain_row
  row_of_domain domain rs = refl

  save_domains-IsDone :
      (kept : List String) (q : DomainRow → Bool) (rs : List DomainRow)
      → All (IsDone os q) rs
      → All
          (IsDone os (λ x. member x.domain kept || q x))
          (save_domains dumps report decisions items os kept rs)
  unfolding save_domains
  save_domains-IsDone [] q rs h = h
  save_domains-IsDone (domain ∷ kept) q rs h =
      let r = row_of domain rs in
      All-map (IsDone os (λ x. member x.domain kept || (is_row r.domain x || q x)))
        (IsDone os (λ x. member x.domain (domain ∷ kept) || q x))
        (λ x done k. done (ground (arith, str_eq_sym x.domain domain, k)))
        (save_domains dumps report decisions items os kept (upsert_domain r rs))
        (save_domains-IsDone kept (λ x. is_row r.domain x || q x) (upsert_domain r rs)
          (upsert-IsDone os q r rs (row_of-IsTotalled domain rs) h))

  -- Of one domain, a row is there after the second loop if one was there or the domain is kept.
  any-save_domains :
      (d : String) (kept : List String) (rs : List DomainRow)
      → any (is_row d) (save_domains dumps report decisions items os kept rs)
        ≡ (any (is_row d) rs || member d kept)
  unfolding save_domains
  any-save_domains d [] rs = ground arith
  any-save_domains d (domain ∷ kept) rs =
      any-save_domains d kept (upsert_domain (row_of domain rs) rs)
      ∙ ground (arith, any-upsert d (row_of domain rs) rs, str_eq_sym d domain)

-- What is selected by a test on the domain.
any-select_domain :
    (d : String) (kept : List String) (rs : List DomainRow)
    → any (is_row d) (select (λ (r : DomainRow). member r.domain kept) rs)
      ≡ (any (is_row d) rs && member d kept)
any-select_domain d kept [] = refl
any-select_domain d kept (r ∷ rs) =
    ground (arith, any-select_domain d kept rs, member_of_row d r kept)

All-select_done :
    (os : List Observation) (q : DomainRow → Bool) (rs : List DomainRow)
    → All (IsDone os q) rs
    → All (IsTotalled os) (select q rs)
All-select_done os q [] h = tt
All-select_done os q (r ∷ rs) h = elim (Bool-cases (q r)) [
  | inl e ↦ rw e (h.0 e, All-select_done os q rs h.1)
  | inr e ↦ rw e (All-select_done os q rs h.1)
]

four_attempts :
    (is_locked : ℕ → Bool) (f : Tables → Tables) (t : Tables)
    → ((is_locked 0 && is_locked 1 && is_locked 2 && is_locked 3) ≡ true)
        × (with_lock_retry is_locked f 4 0 t ≡ (database_locked, t))
      ⊎ ((is_locked 0 && is_locked 1 && is_locked 2 && is_locked 3) ≡ false)
        × (with_lock_retry is_locked f 4 0 t ≡ (written, f t))
unfolding with_lock_retry
four_attempts is_locked f t = elim (Bool-cases (is_locked 0)) [
  | inr a ↦ inr (rw a refl, rw a refl)
  | inl a ↦ elim (Bool-cases (is_locked 1)) [
    | inr b ↦ inr (rw (a, b) refl, rw (a, b) refl)
    | inl b ↦ elim (Bool-cases (is_locked 2)) [
      | inr c ↦ inr (rw (a, b, c) refl, rw (a, b, c) refl)
      | inl c ↦ elim (Bool-cases (is_locked 3)) [
        | inr d ↦ inr (rw (a, b, c, d) refl, rw (a, b, c, d) refl)
        | inl d ↦ inl (rw (a, b, c, d) refl, rw (a, b, c, d) refl)
      ]
    ]
  ]
]

module _ (dumps : List String → String) (report : Report) (decisions : Decisions) where
  save_once-IsExact :
      (t : Tables)
      → All
          (IsTotalled (save_once dumps report decisions t).observations)
          (save_once dumps report decisions t).domains
        × ((d : String)
            → any (is_row d) (save_once dumps report decisions t).domains
              ≡ member d (ai_domains t (select is_ai_item report.domains) decisions))
  unfolding save_once
  save_once-IsExact t =
      let items = select is_ai_item report.domains in
      let kept = ai_domains t items decisions in
      let os = save_observations dumps report decisions items t.observations in
      (
        All-select_done os (λ r. member r.domain kept)
            (save_domains dumps report decisions items os kept t.domains)
            (All-map (IsDone os (λ x. member x.domain kept || false))
              (IsDone os (λ x. member x.domain kept)) (λ x done k. done (ground (arith, k)))
              (save_domains dumps report decisions items os kept t.domains)
              (save_domains-IsDone dumps report decisions items os kept (λ _. false) t.domains
                (none-IsDone os t.domains))),
        λ d.
            any-select_domain d kept (save_domains dumps report decisions items os kept t.domains)
            ∙ ground (arith, any-save_domains dumps report decisions items os d kept t.domains),
      )

  -- What holds of the status and the tables that the call leaves.
  unfoldable pub IsSaved : Tables → Bool → SaveStatus × Tables → Type 0
  IsSaved t all_locked (status, t') =
      (status ≡ database_locked) × (all_locked ≡ true) × (t' ≡ t)
      ⊎ (status ≡ written)
        × (all_locked ≡ false)
        × All (IsTotalled t'.observations) t'.domains
        × ((d : String)
            → any (is_row d) t'.domains
              ≡ member d (ai_domains t (select is_ai_item report.domains) decisions))

  -- `save_ai_domains_to_panel_db`. If every one of its four attempts meets a lock, it says so and the
  -- tables are as before. Otherwise it writes: the total of each row of ai_domains is the sum of the
  -- hits of its domain's observations as they are then, and a domain has a row exactly if it is one of
  -- `ai_domains`, the domains decided to be AI that the report or the history has.
  pub save_ai_domains-IsSaved :
      (is_locked : ℕ → Bool) (t : Tables)
      → IsSaved t
          (is_locked 0 && is_locked 1 && is_locked 2 && is_locked 3)
          (save_ai_domains dumps is_locked report decisions t)
  unfolding save_ai_domains IsSaved
  save_ai_domains-IsSaved is_locked t =
      elim (four_attempts is_locked (save_once dumps report decisions) t) [
        | inl (all_locked, e) ↦
            subst (IsSaved t (is_locked 0 && is_locked 1 && is_locked 2 && is_locked 3)) (sym e)
              (inl (refl, all_locked, refl))
        | inr (one_free, e) ↦
            let (totalled, exact) = save_once-IsExact t in
            subst (IsSaved t (is_locked 0 && is_locked 1 && is_locked 2 && is_locked 3)) (sym e)
              (inr (refl, one_free, totalled, exact))
      ]
