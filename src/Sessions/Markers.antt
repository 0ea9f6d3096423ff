-- ===== src/Sessions/Markers.antt =====
-- A change of a tenant's credentials ends the sessions that were opened with the old ones.
use xray_routing_panel.Prelude.{
  ℕ, String, ◌≡◌, refl, sym, ap, ◌∙◌, Bool, true, false, ◌&&◌, List, [], ◌∷◌, arith, eq_iff, ◌==◌,
  All, str_eq, split_by, is_piece, split_by-piece, split_by-append,
}
use xray_routing_panel.Database.Tables.{Port}
use xray_routing_panel.Sessions.{
  Session, join_fields, is_tenant_session_authenticated, mark_tenant_session_authenticated,
  tenant_session_marker,
}

abbrev is_nul : ℕ → Bool
is_nul c = c == 0

-- A text without the character of code 0.
abbrev pub has_no_nul : String → Bool
has_no_nul = is_piece is_nul

split-join_fields :
    (field : String) (rest : List String)
    → All (λ s. has_no_nul s ≡ true) (field ∷ rest)
    → split_by is_nul (join_fields field rest) ≡ field ∷ rest
split-join_fields field [] h = split_by-piece is_nul field h.0
split-join_fields field (next ∷ rest) h =
    split_by-append is_nul field "\0" (join_fields next rest) h.0 refl
    ∙ ap (λ fields. field ∷ fields) (split-join_fields next rest h.1)

-- The text that the marker is the digest of.
abbrev pub marked_text : Port → String
marked_text p = join_fields p.tenant_token (p.tenant_username ∷ p.tenant_password ∷ [])

abbrev pub CleanFields : Port → Type 0
CleanFields p =
    All (λ s. has_no_nul s ≡ true) (p.tenant_token ∷ p.tenant_username ∷ p.tenant_password ∷ [])

abbrev pub same_credentials : Port → Port → Bool
same_credentials p q =
    str_eq p.tenant_token q.tenant_token
    && str_eq p.tenant_username q.tenant_username
    && str_eq p.tenant_password q.tenant_password

text_credentials :
    (p q : Port)
    → CleanFields p
    → CleanFields q
    → marked_text p ≡ marked_text q
    → same_credentials p q ≡ true
text_credentials p q a b h =
    let fields =
      sym (split-join_fields p.tenant_token (p.tenant_username ∷ p.tenant_password ∷ []) a)
      ∙ ap (split_by is_nul) h
      ∙ split-join_fields q.tenant_token (q.tenant_username ∷ q.tenant_password ∷ []) b in
    ground (
      arith,
      fields,
      eq_iff p.tenant_token q.tenant_token,
      eq_iff p.tenant_username q.tenant_username,
      eq_iff p.tenant_password q.tenant_password,
    )

credentials_text : (p q : Port) → same_credentials p q ≡ true → marked_text p ≡ marked_text q
credentials_text p q h = cc (token p q h, username p q h, password p q h)
  where
    token : (p q : Port) → same_credentials p q ≡ true → p.tenant_token ≡ q.tenant_token
    token p q h = ground (arith, eq_iff p.tenant_token q.tenant_token, h)

    username : (p q : Port) → same_credentials p q ≡ true → p.tenant_username ≡ q.tenant_username
    username p q h = ground (arith, eq_iff p.tenant_username q.tenant_username, h)

    password : (p q : Port) → same_credentials p q ≡ true → p.tenant_password ≡ q.tenant_password
    password p q h = ground (arith, eq_iff p.tenant_password q.tenant_password, h)

-- What the test comes to, right after the session was opened.
abbrev passes : (String → String) → Port → Port → Bool
passes sha256 p q =
    str_eq p.tenant_token q.tenant_token && str_eq (sha256 (marked_text p)) (sha256 (marked_text q))

equal_texts : (s t : String) → s ≡ t → str_eq s t ≡ true
equal_texts s t h = ground (arith, eq_iff s t, h)

passes_of_same :
    (sha256 : String → String) (p q : Port) → same_credentials p q ≡ true → passes sha256 p q ≡ true
passes_of_same sha256 p q h = ground (
  arith,
  h,
  equal_texts (sha256 (marked_text p)) (sha256 (marked_text q))
      (ap sha256 (credentials_text p q h)),
)

digests_equal :
    (sha256 : String → String) (p q : Port)
    → passes sha256 p q ≡ true
    → sha256 (marked_text p) ≡ sha256 (marked_text q)
digests_equal sha256 p q h =
    ground (arith, h, eq_iff (sha256 (marked_text p)) (sha256 (marked_text q)))

same_of_passes :
    (sha256 : String → String) (p q : Port)
    → CleanFields p
    → CleanFields q
    → (sha256 (marked_text p) ≡ sha256 (marked_text q) → marked_text p ≡ marked_text q)
    → passes sha256 p q ≡ true
    → same_credentials p q ≡ true
same_of_passes sha256 p q a b no_collision h =
    text_credentials p q a b (no_collision (digests_equal sha256 p q h))

Bool-iff : {a b : Bool} → (b ≡ true → a ≡ true) → (a ≡ true → b ≡ true) → a ≡ b
Bool-iff {a = true} {b = true} f g = refl
Bool-iff {a = false} {b = false} f g = refl
Bool-iff {a = true} {b = false} f g = sym (g refl)
Bool-iff {a = false} {b = true} f g = f refl

module _ (auth_enabled : Bool) (auth_marker : String) (sha256 : String → String) where
  -- A session that was opened for a port passes the test for a row of `ports` exactly if the row has
  -- the token, the user name and the password of then, where no field has the character of code 0
  -- and the digests of the two marked texts do not collide.
  pub is_tenant_session_authenticated-mark :
      (p q : Port) (s : Session)
      → CleanFields p
      → CleanFields q
      → (sha256 (marked_text p) ≡ sha256 (marked_text q) → marked_text p ≡ marked_text q)
      → is_tenant_session_authenticated auth_enabled auth_marker sha256 q
          (mark_tenant_session_authenticated auth_enabled auth_marker sha256 p s)
        ≡ same_credentials p q
  unfolding is_tenant_session_authenticated mark_tenant_session_authenticated tenant_session_marker
  is_tenant_session_authenticated-mark p q s a b no_collision =
      Bool-iff (passes_of_same sha256 p q) (same_of_passes sha256 p q a b no_collision)
