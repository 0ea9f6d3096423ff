-- ===== src/Routing/Selector.antt =====
-- `select_ai_target` and `should_fallback_to_primary_route` of app/xray/ai_routing/selector.py.
pub mod Choice
use xray_routing_panel.Prelude.{
  ℕ, zero, suc, ◌+◌, String, Bool, true, false, not, ◌&&◌, ◌||◌, Option, none, some, List, [], ◌∷◌,
  map, ltb, if◌then◌else◌, length, any, is_some, ℤ, pos, negsuc, get_or, is_empty, strip, str_eq,
}
use xray_routing_panel.Routing.Candidates.{Candidate}

-- The answer of a candidate's probe: `probe_reality_endpoint` where a server name is there,
-- `probe_tcp_endpoint` otherwise.
pub record ProbeAnswer : Type 0 where
  pub is_reachable : Bool
  pub failure_reason : String
  pub probe_method : String
  pub management_error : Bool

-- What `probe_ai_upstream_candidate` returns.
pub record ProbedCandidate : Type 0 where
  pub candidate : Candidate
  pub answer : ProbeAnswer
  pub checked_at : ℕ

pub data ProbeStatus : Type 0 where
  probe_error manual_selected manual_unreachable all_unreachable reachable : ProbeStatus

pub record AiTarget : Type 0 where
  pub selected : ProbedCandidate
  pub selected_index : ℕ
  pub selected_number : ℕ
  pub candidate_count : ℕ
  pub failover_active : Bool
  pub probe_status : ProbeStatus
  pub is_manual : Bool
  pub target_failure_reason : String
  pub candidates : List ProbedCandidate

abbrev pub reaches : ProbedCandidate → Bool
reaches p = p.answer.is_reachable

abbrev pub has_management_error : ProbedCandidate → Bool
has_management_error p = p.answer.management_error

-- The loop over the probes: the first that is reachable, 0 where none is.
abbrev pub first_from : ℕ → ℕ → List ProbedCandidate → ℕ
first_from default index [] = default
first_from default index (p ∷ ps) =
    let rest = first_from default (suc index) ps in if reaches p then index else rest

unfoldable pub first_reachable : List ProbedCandidate → ℕ
first_reachable probes = first_from 0 0 probes

-- `int(preferred_index)`, 0 where it is out of the list
unfoldable pub preferred : ℤ → List ProbedCandidate → ℕ
preferred (pos n) probes = if ltb n (length probes) then n else 0
preferred (negsuc n) probes = 0

unfoldable pub choose_index : Option ℤ → List ProbedCandidate → ℕ
unfolding first_reachable preferred
choose_index none probes = first_reachable probes
choose_index (some z) probes = preferred z probes

-- `probes[index]`, `none` for the `IndexError`
abbrev pub get_elem? : List ProbedCandidate → ℕ → Option ProbedCandidate
get_elem? [] n = none
get_elem? (p ∷ ps) zero = some p
get_elem? (p ∷ ps) (suc n) = get_elem? ps n

unfoldable pub status_of : Bool → Bool → Bool → Bool → ProbeStatus
status_of error is_manual is_reachable no_one =
    if error
    then probe_error
    else if is_manual && is_reachable
    then manual_selected
    else if is_manual
    then manual_unreachable
    else if no_one
    then all_unreachable
    else reachable

unfoldable pub describe : Option ℤ → List ProbedCandidate → ℕ → ProbedCandidate → AiTarget
unfolding status_of
describe preferred_index probes index p =
    let no_one = not (any reaches probes) in
    let error = any has_management_error probes in
    let is_manual = is_some preferred_index in
    record {
      selected = p;
      selected_index = index;
      selected_number = index + 1;
      candidate_count = length probes;
      failover_active = ltb 0 index;
      probe_status = status_of error is_manual (reaches p) no_one;
      is_manual = is_manual;
      target_failure_reason =
          if no_one || error || is_manual && not (reaches p) then p.answer.failure_reason else "";
      candidates = probes;
    }

abbrev pub target_at :
    Option ℤ → List ProbedCandidate → ℕ → Option ProbedCandidate → Option AiTarget
target_at preferred_index probes index none = none
target_at preferred_index probes index (some p) = some (describe preferred_index probes index p)

abbrev pub probe_one : (Candidate → ProbeAnswer × ℕ) → Candidate → ProbedCandidate
probe_one probe c =
    let (answer, at) = probe c in record { candidate = c; answer = answer; checked_at = at }

abbrev pub probe_all : (Candidate → ProbeAnswer × ℕ) → List Candidate → List ProbedCandidate
probe_all probe = map (probe_one probe)

-- `probe` gives the answer for a candidate and the time it was taken at; `none` is an `IndexError`.
unfoldable pub select_ai_target :
    (Candidate → ProbeAnswer × ℕ) → List Candidate → Option ℤ → Option AiTarget
unfolding choose_index describe
select_ai_target probe candidates preferred_index =
    let probes = probe_all probe candidates in
    let index = choose_index preferred_index probes in
    target_at preferred_index probes index (get_elem? probes index)

-- `should_fallback_to_primary_route`
unfoldable pub should_fallback : ProbeStatus → Bool
should_fallback all_unreachable = true
should_fallback _ = false
