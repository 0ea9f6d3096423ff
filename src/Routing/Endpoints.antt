-- ===== src/Routing/Endpoints.antt =====
-- `join_host_port`, `parse_upstream_endpoint` and `parse_upstream_list` of
-- app/xray/ai_routing/candidates.py.
pub mod RoundTrip
pub mod Bounds
use Prim.Native.Char.{Char, code}
use xray_routing_panel.Prelude.{
  ◌+◌, ℕ, String, Bool, true, false, not, ◌&&◌, ◌||◌, Option, none, some, List, [], ◌∷◌, leb, ◌==◌,
  if◌then◌else◌, ℤ, pos, negsuc, python_int, is_empty, strip, str_append, partition, has_char,
  starts_with, split_by, decimal,
}

-- The `ValueError` of an entry, with the entry's text where the message shows it.
pub data EndpointError : Type 0 where
  -- of the share URL
  not_vless missing_uuid missing_upstream_host missing_upstream_port url_port : EndpointError
  unsupported_network incomplete_reality unsupported_security : EndpointError
  -- of an empty list of candidates
  no_upstream : EndpointError
  empty_entry : EndpointError
  invalid_ipv6 : String → EndpointError
  needs_brackets : String → EndpointError
  missing_host : String → EndpointError
  missing_port : String → EndpointError
  invalid_port : String → EndpointError
  port_out_of_range : String → EndpointError

pub data Parsed (A : Type 0) : Type 0 where
  parsed : A → Parsed A
  -- the field's name and what is wrong with its entry
  rejected : String → EndpointError → Parsed A

module _ {A B : Type 0} where
  abbrev pub and_then : Parsed A → (A → Parsed B) → Parsed B
  and_then (parsed a) f = f a
  and_then (rejected f e) g = rejected f e

module _ {A : Type 0} where
  -- Where the call returns, the predicate holds of what it returns.
  abbrev pub Gives : (A → Type 0) → Parsed A → Type 0
  Gives P (parsed a) = P a
  Gives P (rejected f e) = Unit

pub record Endpoint : Type 0 where
  pub upstream_host : String
  pub upstream_port : ℕ

-- `f"{host_text}:{int(port)}"`, the host in brackets if it has a colon and none yet
unfoldable pub join_host_port : String → ℕ → String
unfolding strip
join_host_port host port =
    let host_text = strip host in
    str_append
      (if has_char b':' host_text && not (starts_with b'[' host_text)
        then str_append "[" (str_append host_text "]")
        else host_text)
      (str_append ":" (decimal port))

-- `text.count(c)`
abbrev count_char : ℕ → String → ℕ
count_char a String.[] = 0
count_char a (String.◌∷◌ c s) = (if code c == a then 1 else 0) + count_char a s

-- What stands for the host and for the port, `none` where no port is given.
abbrev pub Parts : Type 0
Parts = String × Option String

-- `text[1:]`
abbrev tail_text : String → String
tail_text String.[] = String.[]
tail_text (String.◌∷◌ c s) = s

-- `[host]` or `[host]:port`; the text starts with a bracket
unfoldable pub bracket_parts : String → String → Parsed Parts
unfolding strip
bracket_parts field text =
    let (inner, after) = partition b']' (tail_text text) in
    let remainder = strip after in
    if not (has_char b']' text)
    then rejected field (invalid_ipv6 text)
    else if is_empty remainder
    then parsed (strip inner, none)
    else if not (starts_with b':' remainder)
    then rejected field (needs_brackets text)
    else parsed (strip inner, some (strip (tail_text remainder)))

-- `host` or `host:port`; with one colon `rsplit(":", 1)` splits as `partition` does
unfoldable pub plain_parts : String → Parts
plain_parts text =
    let (host, port_text) = partition b':' text in
    if count_char b':' text == 1 then (host, some port_text) else (text, none)

-- `port <= 0 or port > 65535`
unfoldable pub check_port : String → String → String → ℤ → Parsed Endpoint
check_port field text host (pos n) =
    if leb 1 n && leb n 65535
    then parsed (record { upstream_host = host; upstream_port = n })
    else rejected field (port_out_of_range text)
check_port field text host (negsuc n) = rejected field (port_out_of_range text)

-- A port's text that `int` refuses, or its number.
unfoldable pub check_number : String → String → String → Option ℤ → Parsed Endpoint
unfolding check_port
check_number field text host none = rejected field (invalid_port text)
check_number field text host (some z) = check_port field text host z

unfoldable pub default_endpoint : String → String → String → Option ℤ → Parsed Endpoint
unfolding check_port
default_endpoint field text host none = rejected field (missing_port text)
default_endpoint field text host (some z) = check_port field text host z

unfoldable pub resolve_port : String → String → Option ℤ → String → Option String → Parsed Endpoint
unfolding check_number default_endpoint python_int
resolve_port field text default_port host none = default_endpoint field text host default_port
resolve_port field text default_port host (some port_text) =
    if is_empty port_text
    then default_endpoint field text host default_port
    else check_number field text host (python_int port_text)

unfoldable pub resolve_parts : String → String → Option ℤ → Parsed Parts → Parsed Endpoint
unfolding resolve_port strip
resolve_parts field text default_port (rejected f e) = rejected f e
resolve_parts field text default_port (parsed (host, port_text)) =
    if is_empty (strip host)
    then rejected field (missing_host text)
    else resolve_port field text default_port (strip host) port_text

unfoldable pub parse_upstream_endpoint : String → Option ℤ → String → Parsed Endpoint
unfolding strip bracket_parts plain_parts resolve_parts
parse_upstream_endpoint raw default_port field_name =
    let text = strip raw in
    if is_empty text
    then rejected field_name empty_entry
    else resolve_parts field_name text default_port
        (if starts_with b'[' text then bracket_parts field_name text else parsed (plain_parts text))

-- the characters that part the entries of a list
abbrev pub is_separator : ℕ → Bool
is_separator c = c == b'\n' || c == b',' || c == b';'

-- `re.split("[\n,;]", text)`; a run of separators gives empty entries, which are skipped below
abbrev pub split_entries : String → List String
split_entries = split_by is_separator

abbrev pub collect : Parsed Endpoint → Parsed (List Endpoint) → Parsed (List Endpoint)
collect (rejected f e) rest = rejected f e
collect (parsed x) (rejected f e) = rejected f e
collect (parsed x) (parsed xs) = parsed (x ∷ xs)

unfoldable pub parse_entries : Option ℤ → String → List String → Parsed (List Endpoint)
unfolding strip parse_upstream_endpoint
parse_entries default_port field_name [] = parsed []
parse_entries default_port field_name (token ∷ tokens) =
    let rest = parse_entries default_port field_name tokens in
    if is_empty (strip token)
    then rest
    else collect (parse_upstream_endpoint (strip token) default_port field_name) rest

unfoldable pub parse_upstream_list : String → Option ℤ → String → Parsed (List Endpoint)
unfolding parse_entries strip
parse_upstream_list raw default_port field_name =
    let text = strip raw in
    if is_empty text then parsed [] else parse_entries default_port field_name (split_entries text)
