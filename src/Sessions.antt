-- ===== src/Sessions.antt =====
-- The sessions of the three identities: app/auth/sessions.py, app/auth/csrf.py and
-- app/auth/credentials.py.
pub mod Identity
pub mod Markers
use xray_routing_panel.Prelude.{
  ℕ, String, Bool, true, false, not, ◌&&◌, ◌||◌, Option, none, some, List, [], ◌∷◌, ◌==◌,
  if◌then◌else◌, str_eq, is_empty, str_append, strip, get_or, decimal,
}
use xray_routing_panel.Database.Tables.{Port}

-- The keys of the Flask session that the program uses.
pub record Session : Type 0 where
  pub admin_marker : Option String
  pub tenant_token : Option String
  pub tenant_marker : Option String
  pub customer_id : Option ℕ
  pub customer_marker : Option String
  pub csrf_token : Option String

abbrev pub empty_session : Session
empty_session = record {
  admin_marker = none;
  tenant_token = none;
  tenant_marker = none;
  customer_id = none;
  customer_marker = none;
  csrf_token = none;
}

unfoldable pub clear_admin_session : Session → Session
clear_admin_session s = record s { admin_marker = none }

unfoldable pub clear_tenant_session : Session → Session
clear_tenant_session s = record s { tenant_token = none; tenant_marker = none }

unfoldable pub clear_customer_session : Session → Session
clear_customer_session s = record s { customer_id = none; customer_marker = none }

-- `session.get(key) == text`
abbrev has_text : Option String → String → Bool
has_text none t = false
has_text (some s) t = str_eq s t

abbrev has_number : Option ℕ → ℕ → Bool
has_number none n = false
has_number (some m) n = m == n

-- `sep.join(fields)` with the character of code 0
abbrev pub join_fields : String → List String → String
join_fields field [] = field
join_fields field (next ∷ rest) = str_append field (str_append "\0" (join_fields next rest))

-- What the session code reads of a customer.
pub record Account : Type 0 where
  pub id : ℕ
  pub email : String
  pub password_hash : String
  pub status : String

-- What a request does to the session.
pub data Request : Type 0 where
  admin_login admin_logout tenant_logout customer_logout : Request
  tenant_login : Port → Request
  customer_login : Account → Request

-- `auth_marker` is `AUTH_SESSION_MARKER`, `sha256` the digest in hexadecimal.
module _ (auth_enabled : Bool) (auth_marker : String) (sha256 : String → String) where
  unfoldable pub is_session_authenticated : Session → Bool
  is_session_authenticated s = auth_enabled && has_text s.admin_marker auth_marker

  unfoldable pub mark_session_authenticated : Session → Session
  unfolding clear_tenant_session clear_customer_session
  mark_session_authenticated s = record (clear_tenant_session (clear_customer_session s)) {
    admin_marker = some auth_marker;
  }

  unfoldable pub tenant_session_marker : Port → String
  tenant_session_marker p =
      sha256 (join_fields p.tenant_token (p.tenant_username ∷ p.tenant_password ∷ []))

  unfoldable pub is_tenant_session_authenticated : Port → Session → Bool
  unfolding tenant_session_marker
  is_tenant_session_authenticated p s =
      has_text s.tenant_token p.tenant_token && has_text s.tenant_marker (tenant_session_marker p)

  unfoldable pub mark_tenant_session_authenticated : Port → Session → Session
  unfolding clear_admin_session clear_tenant_session clear_customer_session tenant_session_marker
  mark_tenant_session_authenticated p s =
      record (clear_tenant_session (clear_customer_session (clear_admin_session s))) {
        tenant_token = some p.tenant_token;
        tenant_marker = some (tenant_session_marker p);
      }

  unfoldable pub customer_session_marker : Account → String
  unfolding decimal
  customer_session_marker c =
      sha256 (join_fields (decimal c.id) (c.email ∷ c.password_hash ∷ c.status ∷ []))

  unfoldable pub is_customer_session_authenticated : Account → Session → Bool
  unfolding customer_session_marker
  is_customer_session_authenticated c s =
      has_number s.customer_id c.id && has_text s.customer_marker (customer_session_marker c)

  unfoldable pub mark_customer_session_authenticated : Account → Session → Session
  unfolding clear_admin_session clear_tenant_session clear_customer_session customer_session_marker
  mark_customer_session_authenticated c s =
      record (clear_customer_session (clear_tenant_session (clear_admin_session s))) {
        customer_id = some c.id;
        customer_marker = some (customer_session_marker c);
      }

  unfoldable pub respond : Request → Session → Session
  unfolding mark_session_authenticated mark_tenant_session_authenticated
      mark_customer_session_authenticated clear_admin_session clear_tenant_session
      clear_customer_session
  respond admin_login = mark_session_authenticated
  respond admin_logout = clear_admin_session
  respond tenant_logout = clear_tenant_session
  respond customer_logout = clear_customer_session
  respond (tenant_login p) = mark_tenant_session_authenticated p
  respond (customer_login c) = mark_customer_session_authenticated c

  unfoldable pub respond_all : List Request → Session → Session
  unfolding respond
  respond_all [] s = s
  respond_all (r ∷ rs) s = respond_all rs (respond r s)

-- `ensure_csrf_token`; `fresh` is `secrets.token_urlsafe(24)`
unfoldable pub ensure_csrf_token : String → Session → String × Session
unfolding strip
ensure_csrf_token fresh s =
    let token = strip (get_or s.csrf_token "") in
    if is_empty token then (fresh, record s { csrf_token = some fresh }) else (token, s)

-- `validate_csrf_token`
unfoldable pub validate_csrf_token : String → Session → Bool
unfolding strip
validate_csrf_token value s =
    let expected = strip (get_or s.csrf_token "") in
    not (is_empty expected) && str_eq expected (strip value)

-- `credentials_match` for the configured name and password, and for those of a port
unfoldable pub credentials_match : String → String → String → String → Bool
credentials_match panel_username panel_password username password =
    str_eq username panel_username && str_eq password panel_password

unfoldable pub tenant_credentials_match : Port → String → String → Bool
tenant_credentials_match p username password =
    str_eq username p.tenant_username && str_eq password p.tenant_password

-- `customer_credentials_match`; `check` is `check_password_hash`, `none` for its `ValueError`
unfoldable pub customer_credentials_match :
    (String → String → Option Bool) → Account → String → Bool
customer_credentials_match check c password =
    not (is_empty c.password_hash) && get_or (check c.password_hash password) false
