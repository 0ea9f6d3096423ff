-- ===== src/Routing/Candidates.antt =====
-- The candidates of app/xray/ai_routing/candidates.py: how the list is built and how repeated ones
-- are dropped.
pub mod Dedupe
pub mod Build
pub mod ShareUrl
use xray_routing_panel.Prelude.{
  ℕ, String, Bool, true, false, ◌&&◌, Option, none, some, List, [], ◌∷◌, any, ◌==◌, if◌then◌else◌,
  strip, str_eq,
}

-- What the share URL gives for TLS in the reality mode.
pub record Reality : Type 0 where
  pub server_name : String
  pub fingerprint : String
  pub public_key : String
  pub short_id : String
  pub mldsa65_verify : Option String
  pub spider_x : Option String

-- The one outbound of `proxy_payload_override`.
pub record Outbound : Type 0 where
  pub address : String
  pub port : ℕ
  pub user_id : String
  pub encryption : String
  pub flow : Option String
  pub network : String
  pub security : String
  pub reality_settings : Option Reality

-- A candidate. `probe_server_name` and the outbound's payload are there for a share URL only.
pub record Candidate : Type 0 where
  pub upstream_host : String
  pub upstream_port : ℕ
  pub candidate_type : String
  pub candidate_label : String
  pub probe_server_name : String
  pub proxy_payload_override : Option Outbound

unfoldable pub build_template_upstream_candidate : String → ℕ → Candidate
unfolding strip
build_template_upstream_candidate host port = record {
  upstream_host = strip host;
  upstream_port = port;
  candidate_type = "template";
  candidate_label = "";
  probe_server_name = "";
  proxy_payload_override = none;
}

-- `lower` is `str.lower`, the case tables of Unicode.
module _ (lower : String → String) where
  -- Two candidates have one key in `dedupe_upstream_candidates`.
  unfoldable pub same_key : Candidate → Candidate → Bool
  unfolding strip
  same_key a b =
      str_eq (lower (strip a.upstream_host)) (lower (strip b.upstream_host))
      && a.upstream_port == b.upstream_port
      && str_eq (lower (strip a.candidate_type)) (lower (strip b.candidate_type))
      && str_eq (strip a.candidate_label) (strip b.candidate_label)

  abbrev pub normalized : Candidate → Candidate
  normalized c = record c { upstream_host = strip c.upstream_host }

  -- The rest of the loop, after the candidates `seen`.
  unfoldable pub dedupe_after : List Candidate → List Candidate → List Candidate
  unfolding same_key
  dedupe_after seen [] = []
  dedupe_after seen (c ∷ cs) =
      let fresh = dedupe_after (c ∷ seen) cs in
      let rest = dedupe_after seen cs in
      if any (same_key c) seen then rest else normalized c ∷ fresh

  unfoldable pub dedupe_upstream_candidates : List Candidate → List Candidate
  unfolding dedupe_after
  dedupe_upstream_candidates candidates = dedupe_after [] candidates
