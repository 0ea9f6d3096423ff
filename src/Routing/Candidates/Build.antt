-- ===== src/Routing/Candidates/Build.antt =====
-- `build_ai_upstream_candidates` of app/xray/ai_routing/candidates.py.
use xray_routing_panel.Prelude.{
  ℕ, String, ◌≡◌, Option, none, some, List, [], ◌∷◌, ◌++◌, map, if◌then◌else◌, pos, is_empty, strip,
  subst,
}
use xray_routing_panel.Prelude.Apart.{Apart}
use xray_routing_panel.Routing.Endpoints.{
  Endpoint, Parsed, parsed, rejected, and_then, Gives, no_upstream, parse_upstream_list,
}
use xray_routing_panel.Routing.Candidates.{
  Candidate, build_template_upstream_candidate, same_key, dedupe_upstream_candidates,
}
use xray_routing_panel.Routing.Candidates.Dedupe.{dedupe_upstream_candidates-exact}
use xray_routing_panel.Routing.Candidates.ShareUrl.{Url, parse_vless_fallback_url}

abbrev pub IsNonempty : List Candidate → Type 0
IsNonempty [] = ⊥
IsNonempty (c ∷ cs) = Unit

abbrev templates : List Endpoint → List Candidate
templates = map (λ e. build_template_upstream_candidate e.upstream_host e.upstream_port)

abbrev from_option : Option Candidate → List Candidate
from_option none = []
from_option (some c) = c ∷ []

-- `if not candidates: raise`
unfoldable pub require_some : List Candidate → Parsed (List Candidate)
require_some [] = rejected "" no_upstream
require_some (c ∷ cs) = parsed (c ∷ cs)

module _ (lower : String → String) (urlparse : String → Url) where
  -- the list before the repeated ones are dropped
  unfoldable pub configured_candidates :
      String → ℕ → String → String → String → Parsed (List Candidate)
  unfolding strip parse_upstream_list parse_vless_fallback_url build_template_upstream_candidate
  configured_candidates primary_host primary_port upstreams_raw fallbacks_raw fallback_share_url =
      let given =
        and_then (parse_upstream_list upstreams_raw (some (pos primary_port)) "AI_UPSTREAMS")
          λ items. parsed (templates items) in
      let primary_first =
        and_then
          (parse_vless_fallback_url lower urlparse fallback_share_url "AI_UPSTREAM_FALLBACK_URL")
          λ shared.
            and_then
              (parse_upstream_list fallbacks_raw (some (pos primary_port)) "AI_UPSTREAM_FALLBACKS")
              λ items. parsed (
                build_template_upstream_candidate primary_host primary_port ∷ from_option shared
                ++ templates items) in
      if is_empty (strip upstreams_raw) then primary_first else given

  unfoldable pub build_ai_upstream_candidates :
      String → ℕ → String → String → String → Parsed (List Candidate)
  unfolding configured_candidates dedupe_upstream_candidates require_some
  build_ai_upstream_candidates primary_host primary_port upstreams_raw fallbacks_raw
        fallback_share_url =
      and_then
        (configured_candidates primary_host primary_port upstreams_raw fallbacks_raw
          fallback_share_url)
        λ candidates. require_some (dedupe_upstream_candidates lower candidates)

  abbrev IsBuilt : List Candidate → Type 0
  IsBuilt cs = Apart (same_key lower) cs × IsNonempty cs

  require_some-IsBuilt :
      (cs : List Candidate) → Apart (same_key lower) cs → Gives IsBuilt (require_some cs)
  unfolding require_some
  require_some-IsBuilt [] h = tt
  require_some-IsBuilt (c ∷ cs) h = (h, tt)

  and_then-IsBuilt :
      (candidates : Parsed (List Candidate))
      → Gives IsBuilt (and_then candidates λ cs. require_some (dedupe_upstream_candidates lower cs))
  and_then-IsBuilt (rejected f e) = tt
  and_then-IsBuilt (parsed cs) =
      require_some-IsBuilt (dedupe_upstream_candidates lower cs)
        (dedupe_upstream_candidates-exact lower cs).0

  build-IsBuilt :
      (host : String) (port : ℕ) (ups fbs url : String) (cs : List Candidate)
      → build_ai_upstream_candidates host port ups fbs url ≡ parsed cs
      → IsBuilt cs
  unfolding build_ai_upstream_candidates
  build-IsBuilt host port ups fbs url cs h =
      subst (Gives IsBuilt) h (and_then-IsBuilt (configured_candidates host port ups fbs url))
