-- ===== src/Routing/Candidates/ShareUrl.antt =====
-- `parse_vless_fallback_url` of app/xray/ai_routing/candidates.py, on what `urlparse` reads.
use xray_routing_panel.Prelude.{
  ℕ, String, ◌≡◌, refl, ◌⊎◌, inl, inr, Bool, true, false, not, ◌||◌, Option, none, some, List, [],
  ◌∷◌, if◌then◌else◌, Bool-cases, subst, is_empty, strip, str_eq, or_text,
}
use xray_routing_panel.Routing.Endpoints.{
  Parsed, Gives, parsed, rejected, not_vless, missing_uuid, missing_upstream_host,
  missing_upstream_port, url_port, unsupported_network, incomplete_reality, unsupported_security,
}
use xray_routing_panel.Routing.Candidates.{Candidate, Outbound, Reality}

-- `parsed.port`: absent, a number, or one that `urlparse` refuses
pub data UrlPort : Type 0 where
  no_port : UrlPort
  port_number : ℕ → UrlPort
  bad_port : UrlPort

-- What the code reads of `urlparse`: an absent part is an empty text, as the code tests it. The scheme is
-- in lower case, the user and the fragment are unquoted, `query` is `parse_qsl`'s list.
pub record Url : Type 0 where
  pub scheme : String
  pub username : String
  pub hostname : String
  pub port : UrlPort
  pub query : List (String × String)
  pub fragment : String

-- `dict(query).get(key, default)`: the last of equal keys counts
abbrev pub param : String → String → List (String × String) → String
param key default [] = default
param key default ((k, v) ∷ query) = param key (if str_eq k key then v else default) query

-- `str(…).strip()`
abbrev pub optional : String → Option String
optional s = if is_empty s then none else some s

module _ (lower : String → String) where
  unfoldable pub network_of : Url → String
  unfolding strip
  network_of url = or_text (lower (strip (param "type" "tcp" url.query))) "tcp"

  unfoldable pub security_of : Url → String
  unfolding strip
  security_of url = or_text (lower (strip (param "security" "none" url.query))) "none"

  unfoldable pub reality_of : Url → Reality
  unfolding strip
  reality_of url = record {
    server_name = strip (param "sni" "" url.query);
    fingerprint = strip (param "fp" "" url.query);
    public_key = strip (param "pbk" "" url.query);
    short_id = strip (param "sid" "" url.query);
    mldsa65_verify = optional (strip (param "pqv" "" url.query));
    spider_x = optional (strip (param "spx" "" url.query));
  }

  abbrev pub is_complete : Reality → Bool
  is_complete r = not (
      is_empty r.server_name
      || is_empty r.fingerprint
      || is_empty r.public_key
      || is_empty r.short_id)

  abbrev pub IsComplete : Option Reality → Type 0
  IsComplete none = ⊥
  IsComplete (some r) = is_complete r ≡ true

  abbrev pub server_name_of : Option Reality → String
  server_name_of none = ""
  server_name_of (some r) = r.server_name

  unfoldable pub share_candidate : Url → ℕ → Option Reality → Candidate
  unfolding strip network_of security_of
  share_candidate url port reality = record {
    upstream_host = url.hostname;
    upstream_port = port;
    candidate_type = "share_url";
    candidate_label = strip url.fragment;
    probe_server_name = strip (server_name_of reality);
    proxy_payload_override = some (record {
      address = url.hostname;
      port = port;
      user_id = url.username;
      encryption = or_text (strip (param "encryption" "none" url.query)) "none";
      flow = optional (strip (param "flow" "" url.query));
      network = network_of url;
      security = security_of url;
      reality_settings = reality;
    });
  }

  -- from the number of the port on
  unfoldable pub share_of_port : String → Url → UrlPort → Parsed (Option Candidate)
  unfolding share_candidate network_of security_of reality_of
  share_of_port field url no_port = rejected field missing_upstream_port
  share_of_port field url bad_port = rejected field url_port
  share_of_port field url (port_number port) =
      if not (str_eq (network_of url) "tcp")
      then rejected field unsupported_network
      else if str_eq (security_of url) "reality"
      then if is_complete (reality_of url)
        then parsed (some (share_candidate url port (some (reality_of url))))
        else rejected field incomplete_reality
      else if str_eq (security_of url) "none"
      then parsed (some (share_candidate url port none))
      else rejected field unsupported_security

  -- `urlparse` is the reading of a text
  unfoldable pub parse_vless_fallback_url :
      (String → Url) → String → String → Parsed (Option Candidate)
  unfolding strip share_of_port
  parse_vless_fallback_url urlparse raw field =
      let text = strip raw in
      let url = urlparse text in
      if is_empty text
      then parsed none
      else if not (str_eq url.scheme "vless")
      then rejected field not_vless
      else if is_empty url.username
      then rejected field missing_uuid
      else if is_empty url.hostname
      then rejected field missing_upstream_host
      else share_of_port field url url.port

  -- The outbound goes over TCP, for a user that is named, either without TLS or in the reality mode with
  -- its four settings.
  abbrev pub IsUsable : Option Outbound → Type 0
  IsUsable none = ⊥
  IsUsable (some o) =
      (str_eq o.network "tcp" ≡ true)
      × (is_empty o.user_id ≡ false)
      × ((str_eq o.security "none" ≡ true) × (o.reality_settings ≡ none)
          ⊎ (str_eq o.security "reality" ≡ true) × IsComplete o.reality_settings)

  abbrev pub IsShared : Option Candidate → Type 0
  IsShared none = Unit
  IsShared (some c) = (is_empty c.upstream_host ≡ false) × IsUsable c.proxy_payload_override

  share_of_port-IsShared :
      (field : String) (url : Url) (port : UrlPort)
      → is_empty url.hostname ≡ false
      → is_empty url.username ≡ false
      → Gives IsShared (share_of_port field url port)
  unfolding share_of_port share_candidate
  share_of_port-IsShared field url no_port h u = tt
  share_of_port-IsShared field url bad_port h u = tt
  share_of_port-IsShared field url (port_number port) h u =
      elim (Bool-cases (str_eq (network_of url) "tcp")) [
        | inr e ↦ rw e tt
        | inl tcp ↦ rw tcp (elim (Bool-cases (str_eq (security_of url) "reality")) [
          | inl r ↦ rw r (elim (Bool-cases (is_complete (reality_of url))) [
            | inl full ↦ rw full (h, (tcp, u, inr (r, full)))
            | inr e ↦ rw e tt
          ])
          | inr r ↦ rw r (elim (Bool-cases (str_eq (security_of url) "none")) [
            | inl plain ↦ rw plain (h, (tcp, u, inl (plain, refl)))
            | inr e ↦ rw e tt
          ])
        ])
      ]

  url-IsShared :
      (urlparse : String → Url) (raw field : String)
      → Gives IsShared (parse_vless_fallback_url urlparse raw field)
  unfolding parse_vless_fallback_url
  url-IsShared urlparse raw field =
      let url = urlparse (strip raw) in
      elim (Bool-cases (is_empty (strip raw))) [
        | inl e ↦ rw e tt
        | inr e ↦ rw e (elim (Bool-cases (str_eq url.scheme "vless")) [
          | inr s ↦ rw s tt
          | inl s ↦ rw s (elim (Bool-cases (is_empty url.username)) [
            | inl u ↦ rw u tt
            | inr u ↦ rw u (elim (Bool-cases (is_empty url.hostname)) [
              | inl k ↦ rw k tt
              | inr k ↦ rw k (share_of_port-IsShared field url url.port k u)
            ])
          ])
        ])
      ]

  -- `parse_vless_fallback_url`, where it returns a candidate: its host is not empty, and its outbound
  -- goes over TCP for a user that is named, either without TLS or in the reality mode with all four
  -- settings present.
  pub parse_vless_fallback_url-IsShared :
      (urlparse : String → Url) (raw field : String) (shared : Option Candidate)
      → parse_vless_fallback_url urlparse raw field ≡ parsed shared
      → IsShared shared
  parse_vless_fallback_url-IsShared urlparse raw field shared h =
      subst (Gives IsShared) h (url-IsShared urlparse raw field)
