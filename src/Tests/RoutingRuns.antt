-- ===== src/Tests/RoutingRuns.antt =====
-- Runs of the AI routing of app/xray/ai_routing and app/state/ai_routing.py on concrete inputs.
use xray_routing_panel.Prelude.{
  ℕ, String, ◌≡◌, refl, Bool, true, false, not, ◌&&◌, Option, none, some, List, [], ◌∷◌, arith, ltb,
  if◌then◌else◌, length, All, any, pos, strip, str_eq,
}
use xray_routing_panel.Prelude.Apart.{Apart}
use xray_routing_panel.Routing.Endpoints.{
  Endpoint, parsed, join_host_port, parse_upstream_endpoint, parse_upstream_list,
}
use xray_routing_panel.Routing.Endpoints.RoundTrip.{parse_upstream_endpoint-join_host_port, is_host}
use xray_routing_panel.Routing.Endpoints.Bounds.{IsUpstream, parse_upstream_list-IsUpstream}
use xray_routing_panel.Routing.Candidates.{
  Candidate, same_key, dedupe_upstream_candidates, build_template_upstream_candidate,
}
use xray_routing_panel.Routing.Candidates.Dedupe.{dedupe_upstream_candidates-exact}
use xray_routing_panel.Routing.Candidates.ShareUrl.{Url, port_number, parse_vless_fallback_url}
use xray_routing_panel.Routing.Selector.{ProbeAnswer, manual_unreachable}
use xray_routing_panel.Routing.Domains.{Tables, Report, Decision, Decisions, save_ai_domains}
use xray_routing_panel.Routing.Domains.Exact.{IsSaved, save_ai_domains-IsSaved}
use xray_routing_panel.Routing.Manager.{auto, backup, Runtime, CycleWorld, decide_route, is_forced}
use xray_routing_panel.Routing.Manager.Route.{is_good, is_applied, decide_route_iff}
use xray_routing_panel.Routing.Manual.{Manual, ManualWorld, parse_mode, read_mode, set_manual_mode}
use xray_routing_panel.Routing.Manual.Agree.{Served, KeepsNames, Follows, set_manual_mode-Served}

-- `str.lower` on texts that are in lower case already
abbrev in_lower : String → String
in_lower s = s

is_host_ipv6 : is_host "2001:db8::7" ≡ true
unfolding is_host
is_host_ipv6 = refl

parse_upstream_endpoint-join_host_port_example :
    parse_upstream_endpoint (join_host_port "2001:db8::7" 27166) none "AI_UPSTREAMS"
    ≡ parsed (record { upstream_host = "2001:db8::7"; upstream_port = 27166 })
parse_upstream_endpoint-join_host_port_example =
    parse_upstream_endpoint-join_host_port "AI_UPSTREAMS" "2001:db8::7" none 27166 is_host_ipv6
      (omega arith) (omega arith)

abbrev two_endpoints : List Endpoint
two_endpoints =
    (record { upstream_host = "a.example"; upstream_port = 443 })
    ∷ (record { upstream_host = "::1"; upstream_port = 27166 })
    ∷ []

two_endpoints-parsed :
    parse_upstream_list " a.example:443;; [::1],\n" (some (pos 27166)) "AI_UPSTREAMS"
    ≡ parsed two_endpoints
unfolding parse_upstream_list
two_endpoints-parsed = refl

parse_upstream_list-IsUpstream_example : All IsUpstream two_endpoints
parse_upstream_list-IsUpstream_example =
    parse_upstream_list-IsUpstream " a.example:443;; [::1],\n" "AI_UPSTREAMS" (some (pos 27166))
      two_endpoints two_endpoints-parsed

abbrev three_candidates : List Candidate
three_candidates =
    build_template_upstream_candidate "a.example" 443
    ∷ build_template_upstream_candidate "b.example" 443
    ∷ build_template_upstream_candidate " a.example " 443
    ∷ []

repeated_one-dropped : length (dedupe_upstream_candidates in_lower three_candidates) ≡ 2
unfolding dedupe_upstream_candidates build_template_upstream_candidate
repeated_one-dropped = refl

dedupe_upstream_candidates-exact_example :
    Apart (same_key in_lower) (dedupe_upstream_candidates in_lower three_candidates)
    × All
        (λ c.
          any (same_key in_lower c) (dedupe_upstream_candidates in_lower three_candidates) ≡ true)
        three_candidates
    × (dedupe_upstream_candidates in_lower (dedupe_upstream_candidates in_lower three_candidates)
        ≡ dedupe_upstream_candidates in_lower three_candidates)
dedupe_upstream_candidates-exact_example =
    dedupe_upstream_candidates-exact in_lower three_candidates

abbrev share_url : Url
share_url = record {
  scheme = "vless";
  username = "uuid";
  hostname = "c.example";
  port = port_number 443;
  query = ("security", "reality") ∷ ("sni", "x") ∷ ("fp", "y") ∷ ("pbk", "z") ∷ ("sid", "w") ∷ [];
  fragment = "backup";
}

abbrev shared_candidate : Option Candidate
shared_candidate = some (record {
  upstream_host = "c.example";
  upstream_port = 443;
  candidate_type = "share_url";
  candidate_label = "backup";
  probe_server_name = "x";
  proxy_payload_override = some (record {
    address = "c.example";
    port = 443;
    user_id = "uuid";
    encryption = "none";
    flow = none;
    network = "tcp";
    security = "reality";
    reality_settings = some (record {
      server_name = "x";
      fingerprint = "y";
      public_key = "z";
      short_id = "w";
      mldsa65_verify = none;
      spider_x = none;
    });
  });
})

shared_candidate-parsed :
    parse_vless_fallback_url in_lower (λ _. share_url) "vless://uuid@c.example:443" "F"
    ≡ parsed shared_candidate
unfolding parse_vless_fallback_url
shared_candidate-parsed = refl

-- Only the second candidate answers.
abbrev probe_second : Candidate → ProbeAnswer × ℕ
probe_second c = (
  record {
    is_reachable = str_eq c.upstream_host "b.example";
    failure_reason = if str_eq c.upstream_host "b.example" then "" else "timed out";
    probe_method = "tcp";
    management_error = false;
  },
  1000,
)

abbrev first_candidate : Candidate
first_candidate = build_template_upstream_candidate "a.example" 443

abbrev second_candidates : List Candidate
second_candidates = build_template_upstream_candidate "b.example" 443 ∷ []

abbrev first_report : Report
first_report = record {
  window_start = 100;
  window_end = 200;
  generated_at = 210;
  domains =
      (record {
        domain = "chat.example";
        hits = 3;
        classification = "ai";
        reason = "model";
        protocols = "tcp" ∷ [];
        first_seen = some 120;
        last_seen = some 190;
      })
      ∷ (record {
        domain = "news.example";
        hits = 9;
        classification = "other";
        reason = "";
        protocols = "tcp" ∷ [];
        first_seen = some 130;
        last_seen = some 180;
      })
      ∷ [];
}

abbrev ai_decision : Decision
ai_decision = record { classification = "ai"; reason = "model"; source = "builtin"; model = "" }

abbrev first_decisions : Decisions
first_decisions = ("chat.example", ai_decision) ∷ ("gone.example", ai_decision) ∷ []

abbrev old_tables : Tables
old_tables = record {
  domains =
      (record {
        domain = "old.example";
        classification = "ai";
        reason = "";
        source = "";
        model = "";
        first_seen = none;
        last_seen = none;
        total_hits = 7;
        last_protocols = "[]";
        last_report_window_start = none;
        last_report_window_end = none;
        updated_at = 50;
      })
      ∷ [];
  observations = [];
}

abbrev some_dumps : List String → String
some_dumps [] = "[]"
some_dumps (p ∷ ps) = p

-- the first two attempts meet a lock
abbrev locked_twice : ℕ → Bool
locked_twice n = ltb n 2

old_domain-deleted :
    length
      ((save_ai_domains some_dumps locked_twice first_report first_decisions old_tables).1).domains
    ≡ 1
unfolding save_ai_domains
old_domain-deleted = refl

save_ai_domains-IsSaved_example :
    IsSaved some_dumps first_report first_decisions old_tables
      (locked_twice 0 && locked_twice 1 && locked_twice 2 && locked_twice 3)
      (save_ai_domains some_dumps locked_twice first_report first_decisions old_tables)
save_ai_domains-IsSaved_example =
    save_ai_domains-IsSaved some_dumps first_report first_decisions locked_twice old_tables

decide_route_iff_example :
    let routed =
      ltb 0 (length {A = String} ("chat.example" ∷ []))
      && not (is_forced auto)
      && is_good manual_unreachable
      && true in
    let (status, fragment) = decide_route ("chat.example" ∷ []) auto manual_unreachable true in
    (fragment ≡ (if routed then some ("chat.example" ∷ []) else none))
    × (is_applied status ≡ routed)
decide_route_iff_example = decide_route_iff ("chat.example" ∷ []) auto manual_unreachable true

abbrev failing_cycle : CycleWorld
failing_cycle = record {
  config_after = "new";
  render_fails = false;
  is_managed = true;
  supports_sync = true;
  sync_fails = false;
  remote_changed = true;
  external_reloader = false;
  supports_restart = true;
  has_restart_command = false;
  has_restart_container = false;
  restart_fails = true;
  running_after_failure = "old";
  has_manual_override = false;
}

abbrev working_cycle : CycleWorld
working_cycle = record failing_cycle { restart_fails = false; remote_changed = false }

abbrev old_runtime : Runtime
old_runtime = record { config = "old"; is_pending = false; running = "old" }

-- The manager takes the node to the backup, and the database then refuses the mode.
abbrev refusing_world : ManualWorld
refusing_world = record {
  now = 500;
  is_enabled = true;
  candidate_count = 2;
  is_configured = true;
  lock_is_busy = false;
  commit_fails = true;
  manager_returns = true;
  rollback_returns = true;
}

abbrev auto_mode : Manual
auto_mode = record { stored = some "auto"; updated_at = none; runs = [] }

in_lower-KeepsNames : KeepsNames in_lower
in_lower-KeepsNames mode = refl

backup-parsed : parse_mode (in_lower (strip " backup ")) ≡ some backup
unfolding parse_mode strip
backup-parsed = refl

auto_mode-Follows : Follows in_lower auto_mode
unfolding Follows
auto_mode-Follows = tt

set_manual_mode-Served_example :
    Served refusing_world backup
      (read_mode in_lower auto_mode.stored)
      auto_mode
      (set_manual_mode in_lower refusing_world " backup " auto_mode)
    × Follows in_lower (set_manual_mode in_lower refusing_world " backup " auto_mode).1
set_manual_mode-Served_example =
    set_manual_mode-Served in_lower refusing_world " backup " backup auto_mode in_lower-KeepsNames
      auto_mode-Follows backup-parsed
