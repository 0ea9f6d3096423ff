-- ===== src/Routing/Domains.antt =====
-- The tables ai_domains and ai_domain_observations of app/xray/ai_routing/repository.py, and how one
-- report is saved in them.
pub mod Exact
use Prim.Native.Nat.{Ordering}
use Prim.Native.String
use xray_routing_panel.Prelude.{
  ℕ, zero, suc, ◌+◌, min, max, String, Bool, true, false, not, ◌&&◌, ◌||◌, Option, none, some, List,
  [], ◌∷◌, ◌++◌, ◌==◌, ltb, if◌then◌else◌, any, select, find, update, str_eq, is_empty, strip,
  is_some,
}

-- `ai_domains`
pub record DomainRow : Type 0 where
  pub domain : String
  pub classification : String
  pub reason : String
  pub source : String
  pub model : String
  pub first_seen : Option ℕ
  pub last_seen : Option ℕ
  pub total_hits : ℕ
  pub last_protocols : String
  pub last_report_window_start : Option ℕ
  pub last_report_window_end : Option ℕ
  pub updated_at : ℕ

-- `ai_domain_observations`, without the row's number, which nothing reads
pub record Observation : Type 0 where
  pub domain : String
  pub window_start : ℕ
  pub window_end : ℕ
  pub hits : ℕ
  pub classification : String
  pub reason : String
  pub source : String
  pub model : String
  pub protocols : String
  pub first_seen : Option ℕ
  pub last_seen : Option ℕ
  pub created_at : ℕ

pub record Tables : Type 0 where
  pub domains : List DomainRow
  pub observations : List Observation

-- One of `report["domains"]`.
pub record Item : Type 0 where
  pub domain : String
  pub hits : ℕ
  pub classification : String
  pub reason : String
  pub protocols : List String
  pub first_seen : Option ℕ
  pub last_seen : Option ℕ

pub record Report : Type 0 where
  pub window_start : ℕ
  pub window_end : ℕ
  pub generated_at : ℕ
  pub domains : List Item

-- One value of `decisions["domains"]`; `source` and `model` come stripped.
pub record Decision : Type 0 where
  pub classification : String
  pub reason : String
  pub source : String
  pub model : String

-- the dictionary `decisions["domains"]`
abbrev pub Decisions : Type 0
Decisions = List (String × Decision)

abbrev pub no_decision : Decision
no_decision = record { classification = ""; reason = ""; source = ""; model = "" }

-- `decisions["domains"].get(domain, {})`
abbrev pub decision_for : Decisions → String → Decision
decision_for [] domain = no_decision
decision_for ((d, v) ∷ rest) domain = if str_eq d domain then v else decision_for rest domain

abbrev pub is_row : String → DomainRow → Bool
is_row domain r = str_eq r.domain domain

abbrev pub is_ai_item : Item → Bool
is_ai_item item = str_eq item.classification "ai"

abbrev pub member : String → List String → Bool
member domain = any (λ d. str_eq d domain)

-- `{item["domain"]: item for item in items}.get(domain)`: the last of one domain counts
abbrev pub last_item : String → List Item → Option Item
last_item domain [] = none
last_item domain (item ∷ items) =
    let later = last_item domain items in
    if is_some later then later else if str_eq item.domain domain then some item else none

-- `a < b` of texts
abbrev text_before : String → String → Bool
text_before a b = elim (String.compare a b) [ Ordering.lt ↦ true | _ ↦ false ]

-- `sorted(texts)`
abbrev insert_text : String → List String → List String
insert_text d [] = d ∷ []
insert_text d (e ∷ es) =
    let rest = insert_text d es in if text_before e d then e ∷ rest else d ∷ e ∷ es

abbrev sorted : List String → List String
sorted [] = []
sorted (d ∷ ds) = insert_text d (sorted ds)

-- In the history of the observations, or a row with hits.
unfoldable pub is_historical : Tables → String → Bool
is_historical t domain =
    any (λ (o : Observation). str_eq o.classification "ai" && str_eq o.domain domain) t.observations
    || any
        (λ (r : DomainRow). is_row domain r && str_eq r.classification "ai" && ltb 0 r.total_hits)
        t.domains

abbrev kept_keys : Tables → List Item → Decisions → List String
kept_keys t items [] = []
kept_keys t items ((domain, decision) ∷ rest) =
    let more = kept_keys t items rest in
    if str_eq decision.classification "ai"
      && (is_some (last_item domain items) || is_historical t domain)
    then domain ∷ more
    else more

-- `ai_domains`: what the table holds after the save
unfoldable pub ai_domains : Tables → List Item → Decisions → List String
unfolding is_historical
ai_domains t items decisions = sorted (kept_keys t items decisions)

-- `SUM(hits)` of a domain
abbrev pub sum_hits : String → List Observation → ℕ
sum_hits domain [] = 0
sum_hits domain (o ∷ os) = (if str_eq o.domain domain then o.hits else 0) + sum_hits domain os

-- `MIN` and `MAX` of SQL, which pass over NULL
abbrev merge : (ℕ → ℕ → ℕ) → Option ℕ → Option ℕ → Option ℕ
merge f none b = b
merge f (some a) none = some a
merge f (some a) (some b) = some (f a b)

-- `COALESCE(a, b)`, and `a or b`
abbrev coalesce : Option ℕ → Option ℕ → Option ℕ
coalesce none b = b
coalesce (some a) b = some a

abbrev first_seen_of : String → List Observation → Option ℕ
first_seen_of domain [] = none
first_seen_of domain (o ∷ os) =
    let rest = first_seen_of domain os in
    if str_eq o.domain domain then merge min (coalesce o.first_seen o.last_seen) rest else rest

abbrev last_seen_of : String → List Observation → Option ℕ
last_seen_of domain [] = none
last_seen_of domain (o ∷ os) =
    let rest = last_seen_of domain os in
    if str_eq o.domain domain then merge max o.last_seen rest else rest

abbrev same_window : Observation → Observation → Bool
same_window a b =
    str_eq a.domain b.domain && a.window_start == b.window_start && a.window_end == b.window_end

-- `INSERT … ON CONFLICT(domain, window_start, window_end) DO UPDATE`
unfoldable pub upsert_observation : Observation → List Observation → List Observation
upsert_observation o os =
    if any (same_window o) os then update (same_window o) (λ _. o) os else os ++ o ∷ []

-- `INSERT … ON CONFLICT(domain) DO UPDATE`, which sets every other column
unfoldable pub upsert_domain : DomainRow → List DomainRow → List DomainRow
upsert_domain r rs =
    if any (is_row r.domain) rs then update (is_row r.domain) (λ _. r) rs else rs ++ r ∷ []

-- `dumps` is `json.dumps` of a list of texts.
module _ (dumps : List String → String) where
  abbrev observed : Report → Decisions → Item → Observation
  observed report decisions item =
      let decision = decision_for decisions item.domain in
      record {
        domain = item.domain;
        window_start = report.window_start;
        window_end = report.window_end;
        hits = item.hits;
        classification = item.classification;
        reason = item.reason;
        source = decision.source;
        model = decision.model;
        protocols = dumps item.protocols;
        first_seen = item.first_seen;
        last_seen = item.last_seen;
        created_at = report.generated_at;
      }

  -- the first loop
  unfoldable pub save_observations :
      Report → Decisions → List Item → List Observation → List Observation
  unfolding upsert_observation
  save_observations report decisions [] os = os
  save_observations report decisions (item ∷ items) os =
      save_observations report decisions items
        (upsert_observation (observed report decisions item) os)

  -- `observed_ai_by_domain.get(domain, {…})`
  abbrev item_or_default : Decisions → String → Option Item → Item
  item_or_default decisions domain (some item) = item
  item_or_default decisions domain none = record {
    domain = domain;
    hits = 0;
    classification = "ai";
    reason = (decision_for decisions domain).reason;
    protocols = [];
    first_seen = none;
    last_seen = none;
  }

  -- The protocols of before stay where the item has none.
  abbrev protocols_text : List String → Option DomainRow → String
  protocols_text [] none = dumps []
  protocols_text [] (some r) = if is_empty r.last_protocols then dumps [] else r.last_protocols
  protocols_text (p ∷ ps) existing = dumps (p ∷ ps)

  unfoldable pub domain_row :
      Report → Decisions → List Observation → String → Item → Option DomainRow → DomainRow
  domain_row report decisions os domain item existing =
      let decision = decision_for decisions domain in
      record {
        domain = domain;
        classification = item.classification;
        reason = item.reason;
        source = decision.source;
        model = decision.model;
        first_seen = coalesce (first_seen_of domain os) item.first_seen;
        last_seen = coalesce (last_seen_of domain os) item.last_seen;
        total_hits = sum_hits domain os;
        last_protocols = protocols_text item.protocols existing;
        last_report_window_start = some report.window_start;
        last_report_window_end = some report.window_end;
        updated_at = report.generated_at;
      }

  -- the second loop
  unfoldable pub save_domains :
      Report
      → Decisions
      → List Item
      → List Observation
      → List String
      → List DomainRow
      → List DomainRow
  unfolding upsert_domain domain_row
  save_domains report decisions items os [] rs = rs
  save_domains report decisions items os (domain ∷ rest) rs =
      save_domains report decisions items os rest (
        upsert_domain
          (domain_row report decisions os domain
            (item_or_default decisions domain (last_item domain items)) (find (is_row domain) rs))
          rs)

  -- `_save_ai_domains_to_panel_db_once`; with no domain the last SELECT leaves none
  unfoldable pub save_once : Report → Decisions → Tables → Tables
  unfolding ai_domains save_observations save_domains
  save_once report decisions t =
      let items = select is_ai_item report.domains in
      let kept = ai_domains t items decisions in
      let os = save_observations report decisions items t.observations in
      record {
        domains =
            select (λ (r : DomainRow). member r.domain kept)
              (save_domains report decisions items os kept t.domains);
        observations = os;
      }

-- The result of `save_ai_domains_to_panel_db`, where the database is there.
pub data SaveStatus : Type 0 where
  written database_locked : SaveStatus

-- `run_with_sqlite_lock_retry`: `is_locked` tells of each attempt if it meets a lock.
unfoldable pub with_lock_retry :
    (ℕ → Bool) → (Tables → Tables) → ℕ → ℕ → Tables → SaveStatus × Tables
with_lock_retry is_locked operation zero attempt t = (database_locked, t)
with_lock_retry is_locked operation (suc left) attempt t =
    let again = with_lock_retry is_locked operation left (suc attempt) t in
    if is_locked attempt then again else (written, operation t)

abbrev lock_retry_attempts : ℕ
lock_retry_attempts = 4

unfoldable pub save_ai_domains :
    (List String → String) → (ℕ → Bool) → Report → Decisions → Tables → SaveStatus × Tables
unfolding with_lock_retry save_once
save_ai_domains dumps is_locked report decisions =
    with_lock_retry is_locked (save_once dumps report decisions) lock_retry_attempts 0
