-- ===== src/Routing/Endpoints/RoundTrip.antt =====
-- What `join_host_port` prints, `parse_upstream_endpoint` reads back.
use xray_routing_panel.Prelude.{
  ℕ, ◌+◌, ◌≤◌, String, ◌≡◌, refl, ap, ◌∙◌, inl, inr, Bool, true, false, not, ◌&&◌, Option, some,
  arith, ◌==◌, if◌then◌else◌, Bool-cases, ℤ, is_empty, is_space, strip, str_append, has_char,
  starts_with, all_chars, is_solid, strip-solid, all_chars-append, all_chars-imp, has_char-append,
  partition-append, decimal, is_digit, decimal-digits, decimal-IsSolid, decimal-is_empty,
  python_int-decimal,
}
use xray_routing_panel.Routing.Endpoints.{
  parsed, count_char, join_host_port, bracket_parts, plain_parts, check_port, check_number,
  resolve_port, resolve_parts, parse_upstream_endpoint,
}

-- The characters of a host: no white space, bracket or separator of entries.
abbrev host_char : ℕ → Bool
host_char c =
    not (is_space c) && not (c == b'[') && not (c == b']') && not (c == b',') && not (c == b';')

-- A host name or an address, as it stands without brackets.
unfoldable pub is_host : String → Bool
is_host host = not (is_empty host) && all_chars host_char host

abbrev port_text : ℕ → String
port_text port = str_append ":" (decimal port)

is_host-chars : (host : String) → is_host host ≡ true → all_chars host_char host ≡ true
unfolding is_host
is_host-chars host h = ground (arith, h)

is_host-is_empty : (host : String) → is_host host ≡ true → is_empty host ≡ false
unfolding is_host
is_host-is_empty host h = ground (arith, h)

host-IsSolid : (host : String) → is_host host ≡ true → is_solid host ≡ true
host-IsSolid host h =
    all_chars-imp host_char (λ c. not (is_space c)) (λ c k. ground (arith, k)) host
      (is_host-chars host h)

lacks :
    (p : ℕ → Bool) (a : ℕ)
    → p a ≡ false
    → (s : String) → all_chars p s ≡ true
    → has_char a s ≡ false
lacks p a out String.[] h = refl
lacks p a out (String.◌∷◌ c s) h = ground (arith, out, h, lacks p a out s)

host-lacks :
    (a : ℕ) (host : String) → host_char a ≡ false → is_host host ≡ true → has_char a host ≡ false
host-lacks a host out h = lacks host_char a out host (is_host-chars host h)

port_text-IsSolid : (port : ℕ) → is_solid (port_text port) ≡ true
port_text-IsSolid port = decimal-IsSolid port

-- The port's text gives back the port.
resolve_port-decimal :
    (field text host : String) (default_port : Option ℤ) (port : ℕ)
    → 1 ≤ port
    → port ≤ 65535
    → resolve_port field text default_port host (some (decimal port))
      ≡ parsed (record { upstream_host = host; upstream_port = port })
unfolding resolve_port check_number check_port
resolve_port-decimal field text host default_port port lo hi =
    rw (decimal-is_empty port, python_int-decimal port) (ground arith)

resolve_parts-decimal :
    (field text host : String) (default_port : Option ℤ) (port : ℕ)
    → is_host host ≡ true
    → 1 ≤ port
    → port ≤ 65535
    → resolve_parts field text default_port (parsed (host, some (decimal port)))
      ≡ parsed (record { upstream_host = host; upstream_port = port })
unfolding resolve_parts
resolve_parts-decimal field text host default_port port h lo hi =
    rw (strip-solid host (host-IsSolid host h), is_host-is_empty host h)
      (resolve_port-decimal field text host default_port port lo hi)

count_char-lacks : (a : ℕ) (s : String) → has_char a s ≡ false → count_char a s ≡ 0
count_char-lacks a String.[] h = refl
count_char-lacks a (String.◌∷◌ c s) h = ground (arith, count_char-lacks a s, h)

count_char-append :
    (a : ℕ) (s t : String) → count_char a (str_append s t) ≡ count_char a s + count_char a t
count_char-append a String.[] t = omega arith
count_char-append a (String.◌∷◌ c s) t = ground (arith, count_char-append a s t)

is_digit_colon : is_digit b':' ≡ false
unfolding is_digit
is_digit_colon = refl

decimal-lacks_colon : (port : ℕ) → has_char b':' (decimal port) ≡ false
decimal-lacks_colon port = lacks is_digit b':' is_digit_colon (decimal port) (decimal-digits port)

one_colon :
    (host : String) (port : ℕ)
    → has_char b':' host ≡ false
    → count_char b':' (str_append host (port_text port)) ≡ 1
one_colon host port h =
    rw
      (
        count_char-append b':' host (port_text port),
        count_char-lacks b':' host h,
        count_char-lacks b':' (decimal port) (decimal-lacks_colon port),
      )
      (omega arith)

plain_parts-join :
    (host : String) (port : ℕ)
    → has_char b':' host ≡ false
    → plain_parts (str_append host (port_text port)) ≡ (host, some (decimal port))
unfolding plain_parts
plain_parts-join host port h =
    rw (one_colon host port h, partition-append ":" host (decimal port) h) refl

bracket_parts-join :
    (field host : String) (port : ℕ)
    → is_host host ≡ true
    → bracket_parts field (str_append "[" (str_append host (str_append "]" (port_text port))))
      ≡ parsed (host, some (decimal port))
unfolding bracket_parts
bracket_parts-join field host port h =
    rw
      (
        partition-append "]" host (port_text port) (host-lacks b']' host refl h),
        has_char-append b']' host (str_append "]" (port_text port)),
        host-lacks b']' host refl h,
        strip-solid (port_text port) (port_text-IsSolid port),
        strip-solid host (host-IsSolid host h),
        strip-solid (decimal port) (decimal-IsSolid port),
      )
      refl

is_host-starts_with :
    (host rest : String) → is_host host ≡ true → starts_with b'[' (str_append host rest) ≡ false
unfolding is_host
is_host-starts_with String.[] rest h = absurd (ground (arith, h))
is_host-starts_with (String.◌∷◌ c s) rest h = ground (arith, h)

no_bracket : (host : String) → is_host host ≡ true → starts_with b'[' host ≡ false
unfolding is_host
no_bracket String.[] h = refl
no_bracket (String.◌∷◌ c s) h = ground (arith, h)

is_host-append :
    (host rest : String) → is_host host ≡ true → is_empty (str_append host rest) ≡ false
unfolding is_host
is_host-append String.[] rest h = absurd (ground (arith, h))
is_host-append (String.◌∷◌ c s) rest h = refl

host-append-IsSolid :
    (host rest : String)
    → is_host host ≡ true
    → is_solid rest ≡ true
    → is_solid (str_append host rest) ≡ true
host-append-IsSolid host rest h k =
    all_chars-append (λ c. not (is_space c)) host rest (host-IsSolid host h) k

parse-of_tight :
    (field text : String) (default_port : Option ℤ)
    → strip text ≡ text
    → is_empty text ≡ false
    → parse_upstream_endpoint text default_port field
      ≡ resolve_parts field text default_port
          (if starts_with b'[' text then bracket_parts field text else parsed (plain_parts text))
unfolding parse_upstream_endpoint
parse-of_tight field text default_port h k = rw h (rw k refl)

-- `join_host_port` without brackets.
parse-plain :
    (field host : String) (default_port : Option ℤ) (port : ℕ)
    → is_host host ≡ true
    → 1 ≤ port
    → port ≤ 65535
    → has_char b':' host ≡ false
    → parse_upstream_endpoint (str_append host (port_text port)) default_port field
      ≡ parsed (record { upstream_host = host; upstream_port = port })
unfolding parse_upstream_endpoint
parse-plain field host default_port port h lo hi no_colon =
    rw
      (
        strip-solid (str_append host (port_text port))
            (host-append-IsSolid host (port_text port) h (port_text-IsSolid port)),
        is_host-append host (port_text port) h,
        is_host-starts_with host (port_text port) h,
        plain_parts-join host port no_colon,
      )
      (resolve_parts-decimal field (str_append host (port_text port)) host default_port port h lo
        hi)

-- `join_host_port` with brackets.
parse-bracket :
    (field host : String) (default_port : Option ℤ) (port : ℕ)
    → is_host host ≡ true
    → 1 ≤ port
    → port ≤ 65535
    → parse_upstream_endpoint
        (str_append "[" (str_append host (str_append "]" (port_text port))))
        default_port
        field
      ≡ parsed (record { upstream_host = host; upstream_port = port })
parse-bracket field host default_port port h lo hi =
    let text = str_append "[" (str_append host (str_append "]" (port_text port))) in
    parse-of_tight field text default_port
      (strip-solid text
        (host-append-IsSolid host (str_append "]" (port_text port)) h (port_text-IsSolid port)))
      refl
    ∙ ap (resolve_parts field text default_port) (bracket_parts-join field host port h)
    ∙ resolve_parts-decimal field text host default_port port h lo hi

str_append_assoc : (s t u : String) → str_append (str_append s t) u ≡ str_append s (str_append t u)
str_append_assoc String.[] t u = refl
str_append_assoc (String.◌∷◌ c s) t u = ap (String.◌∷◌ c) (str_append_assoc s t u)

-- A host that is not empty and has no white space, bracket, comma or semicolon, with a port in
-- 1..65535: what `join_host_port` prints of the two, `parse_upstream_endpoint` reads back as the
-- same host and port, whether the host has colons and is put in brackets or not, and whatever the
-- default port.
pub parse_upstream_endpoint-join_host_port :
    (field host : String) (default_port : Option ℤ) (port : ℕ)
    → is_host host ≡ true
    → 1 ≤ port
    → port ≤ 65535
    → parse_upstream_endpoint (join_host_port host port) default_port field
      ≡ parsed (record { upstream_host = host; upstream_port = port })
unfolding join_host_port
parse_upstream_endpoint-join_host_port field host default_port port h lo hi =
    elim (Bool-cases (has_char b':' host)) [
      | inl e ↦
          rw
            (
              strip-solid host (host-IsSolid host h),
              e,
              no_bracket host h,
              str_append_assoc host "]" (port_text port),
            )
            (parse-bracket field host default_port port h lo hi)
      | inr e ↦
          rw (strip-solid host (host-IsSolid host h), e)
            (parse-plain field host default_port port h lo hi e)
    ]
