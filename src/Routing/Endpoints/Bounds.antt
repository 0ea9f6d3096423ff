-- ===== src/Routing/Endpoints/Bounds.antt =====
-- What `parse_upstream_endpoint` and `parse_upstream_list` accept is a host and a port in range.
use xray_routing_panel.Prelude.{
  ◌≤◌, String, ◌≡◌, subst, inl, inr, false, Option, none, some, List, [], ◌∷◌, arith, leb,
  Bool-cases, All, ℤ, pos, negsuc, python_int, is_empty, strip, strip-strip, starts_with, ◌&&◌,
  if◌then◌else◌,
}
use xray_routing_panel.Routing.Endpoints.{
  Endpoint, Parsed, Gives, parsed, rejected, Parts, check_port, check_number, default_endpoint,
  bracket_parts, plain_parts, resolve_port, resolve_parts, parse_upstream_endpoint, collect,
  parse_entries, split_entries, parse_upstream_list,
}

-- A host without white space around it, not empty, and a port in 1..65535.
abbrev pub IsUpstream : Endpoint → Type 0
IsUpstream e =
    (is_empty e.upstream_host ≡ false)
    × (strip e.upstream_host ≡ e.upstream_host)
    × (1 ≤ e.upstream_port)
    × (e.upstream_port ≤ 65535)

module _ (field text host : String) (full : is_empty host ≡ false) (tight : strip host ≡ host) where
  check_port-Gives : (z : ℤ) → Gives IsUpstream (check_port field text host z)
  unfolding check_port
  check_port-Gives (pos n) = elim (Bool-cases (leb 1 n && leb n 65535)) [
    | inl e ↦ rw e (full, tight, ground arith, ground arith)
    | inr e ↦ rw e tt
  ]
  check_port-Gives (negsuc n) = tt

  check_number-Gives : (z : Option ℤ) → Gives IsUpstream (check_number field text host z)
  unfolding check_number
  check_number-Gives none = tt
  check_number-Gives (some z) = check_port-Gives z

  default_endpoint-Gives : (z : Option ℤ) → Gives IsUpstream (default_endpoint field text host z)
  unfolding default_endpoint
  default_endpoint-Gives none = tt
  default_endpoint-Gives (some z) = check_port-Gives z

  resolve_port-Gives :
      (default_port : Option ℤ) (port_text : Option String)
      → Gives IsUpstream (resolve_port field text default_port host port_text)
  unfolding resolve_port
  resolve_port-Gives default_port none = default_endpoint-Gives default_port
  resolve_port-Gives default_port (some port_text) = elim (Bool-cases (is_empty port_text)) [
    | inl e ↦ rw e (default_endpoint-Gives default_port)
    | inr e ↦ rw e (check_number-Gives (python_int port_text))
  ]

resolve_parts-Gives :
    (field text : String) (default_port : Option ℤ) (parts : Parsed Parts)
    → Gives IsUpstream (resolve_parts field text default_port parts)
unfolding resolve_parts
resolve_parts-Gives field text default_port (rejected f e) = tt
resolve_parts-Gives field text default_port (parsed (host, port_text)) =
    elim (Bool-cases (is_empty (strip host))) [
      | inl e ↦ rw e tt
      | inr e ↦
          rw e
            (resolve_port-Gives field text (strip host) e (strip-strip host) default_port port_text)
    ]

parse-Gives :
    (raw field : String) (default_port : Option ℤ)
    → Gives IsUpstream (parse_upstream_endpoint raw default_port field)
unfolding parse_upstream_endpoint
parse-Gives raw field default_port = elim (Bool-cases (is_empty (strip raw))) [
  | inl e ↦ rw e tt
  | inr e ↦ rw e (
      resolve_parts-Gives field (strip raw) default_port (
        if starts_with b'[' (strip raw)
        then bracket_parts field (strip raw)
        else parsed (plain_parts (strip raw))))
]

collect-Gives :
    (x : Parsed Endpoint) (xs : Parsed (List Endpoint))
    → Gives IsUpstream x
    → Gives (All IsUpstream) xs
    → Gives (All IsUpstream) (collect x xs)
collect-Gives (rejected f e) xs h k = tt
collect-Gives (parsed x) (rejected f e) h k = tt
collect-Gives (parsed x) (parsed xs) h k = (h, k)

entries-Gives :
    (default_port : Option ℤ) (field : String) (tokens : List String)
    → Gives (All IsUpstream) (parse_entries default_port field tokens)
unfolding parse_entries
entries-Gives default_port field [] = tt
entries-Gives default_port field (token ∷ tokens) = elim (Bool-cases (is_empty (strip token))) [
  | inl e ↦ rw e (entries-Gives default_port field tokens)
  | inr e ↦ rw e (
      collect-Gives (parse_upstream_endpoint (strip token) default_port field)
        (parse_entries default_port field tokens) (parse-Gives (strip token) field default_port)
        (entries-Gives default_port field tokens))
]

list-Gives :
    (raw field : String) (default_port : Option ℤ)
    → Gives (All IsUpstream) (parse_upstream_list raw default_port field)
unfolding parse_upstream_list
list-Gives raw field default_port = elim (Bool-cases (is_empty (strip raw))) [
  | inl e ↦ rw e tt
  | inr e ↦ rw e (entries-Gives default_port field (split_entries (strip raw)))
]

-- Where `parse_upstream_list` accepts a text, whatever the default port, each endpoint of the list
-- has a host that is not empty and has no white space around it, and a port in 1..65535.
pub parse_upstream_list-IsUpstream :
    (raw field : String) (default_port : Option ℤ) (endpoints : List Endpoint)
    → parse_upstream_list raw default_port field ≡ parsed endpoints
    → All IsUpstream endpoints
parse_upstream_list-IsUpstream raw field default_port endpoints h =
    subst (Gives (All IsUpstream)) h (list-Gives raw field default_port)
