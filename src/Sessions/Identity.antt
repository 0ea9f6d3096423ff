-- ===== src/Sessions/Identity.antt =====
-- A session never holds more than one identity.
use xray_routing_panel.Prelude.{
  String, ◌≡◌, refl, ◌⊎◌, inl, inr, Bool, false, ◌&&◌, none, List, [], ◌∷◌, arith,
}
use xray_routing_panel.Database.Tables.{Port}
use xray_routing_panel.Sessions.{
  Session, Account, Request, admin_login, admin_logout, tenant_logout, customer_logout,
  tenant_login, customer_login, empty_session, is_session_authenticated,
  is_tenant_session_authenticated, is_customer_session_authenticated, respond, respond_all,
}

abbrev HasNoAdmin : Session → Type 0
HasNoAdmin s = s.admin_marker ≡ none

abbrev HasNoTenant : Session → Type 0
HasNoTenant s = (s.tenant_token ≡ none) × (s.tenant_marker ≡ none)

abbrev HasNoCustomer : Session → Type 0
HasNoCustomer s = (s.customer_id ≡ none) × (s.customer_marker ≡ none)

-- Of the three identities, the keys of at least two are absent.
unfoldable pub HasOneIdentity : Session → Type 0
HasOneIdentity s =
    HasNoAdmin s × HasNoTenant s
    ⊎ (HasNoAdmin s × HasNoCustomer s ⊎ HasNoTenant s × HasNoCustomer s)

module _ (auth_enabled : Bool) (auth_marker : String) (sha256 : String → String) where
  respond-HasOneIdentity :
      (r : Request) (s : Session)
      → HasOneIdentity s
      → HasOneIdentity (respond auth_enabled auth_marker sha256 r s)
  unfolding respond HasOneIdentity
  respond-HasOneIdentity admin_login s h = inr (inr ((refl, refl), (refl, refl)))
  respond-HasOneIdentity (tenant_login p) s h = inr (inl (refl, (refl, refl)))
  respond-HasOneIdentity (customer_login c) s h = inl (refl, (refl, refl))
  respond-HasOneIdentity admin_logout s h = ground arith
  respond-HasOneIdentity tenant_logout s h = ground arith
  respond-HasOneIdentity customer_logout s h = ground arith

  respond_all-HasOneIdentity :
      (rs : List Request) (s : Session)
      → HasOneIdentity s
      → HasOneIdentity (respond_all auth_enabled auth_marker sha256 rs s)
  unfolding respond_all
  respond_all-HasOneIdentity [] s h = h
  respond_all-HasOneIdentity (r ∷ rs) s h =
      respond_all-HasOneIdentity rs (respond auth_enabled auth_marker sha256 r s)
        (respond-HasOneIdentity r s h)

  -- At most one of the three tests of a request succeeds.
  unfoldable pub IsSoleLogin : Port → Account → Session → Type 0
  IsSoleLogin p c s =
      ((is_session_authenticated auth_enabled auth_marker sha256 s
          && is_tenant_session_authenticated auth_enabled auth_marker sha256 p s)
        ≡ false)
      × ((is_session_authenticated auth_enabled auth_marker sha256 s
            && is_customer_session_authenticated auth_enabled auth_marker sha256 c s)
          ≡ false)
      × ((is_tenant_session_authenticated auth_enabled auth_marker sha256 p s
            && is_customer_session_authenticated auth_enabled auth_marker sha256 c s)
          ≡ false)

  HasOneIdentity-IsSoleLogin :
      (p : Port) (c : Account) (s : Session) → HasOneIdentity s → IsSoleLogin p c s
  unfolding HasOneIdentity IsSoleLogin is_session_authenticated is_tenant_session_authenticated
      is_customer_session_authenticated
  HasOneIdentity-IsSoleLogin p c s h = ground arith

  -- After any sequence of logins and logouts, of any identities, from an empty session: the session is
  -- not authenticated as two of the administrator, a tenant and a customer at once, whichever port
  -- and customer one asks for.
  pub respond_all-IsSoleLogin :
      (rs : List Request) (p : Port) (c : Account)
      → IsSoleLogin p c (respond_all auth_enabled auth_marker sha256 rs empty_session)
  unfolding HasOneIdentity
  respond_all-IsSoleLogin rs p c =
      HasOneIdentity-IsSoleLogin p c (respond_all auth_enabled auth_marker sha256 rs empty_session)
        (respond_all-HasOneIdentity rs empty_session (inl (refl, (refl, refl))))
