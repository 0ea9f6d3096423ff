-- ===== src/Routing/Manual.antt =====
-- The manual mode of app/state/ai_routing.py: how it is read, and `set_ai_routing_manual_mode`, which
-- has the AI domain manager apply it before it is stored. The manager is a process of its own: here
-- are the runs that the service asks of it, and whether each raised.
pub mod Agree
use xray_routing_panel.Prelude.{
  ℕ, String, Bool, true, false, not, ◌&&◌, ◌||◌, Option, none, some, List, ◌∷◌, if◌then◌else◌, ltb,
  strip, or_text, str_eq, get_or, Result, ok, err, Error, validation_error, runtime_error, Exec,
  pure, raise, raise_if, gets, lift, modify, ◌>>=◌, ◌>>◌,
}
use xray_routing_panel.Routing.Manager.{
  ManualMode, auto, primary, backup, forced_fallback, names_target, is_forced,
}

-- A run of the manager that was asked for: the mode that it was given, and whether it returned.
pub record ManagerRun : Type 0 where
  pub mode : ManualMode
  pub succeeded : Bool

-- The two keys of `app_state`, and the runs of the manager, the newest first.
pub record Manual : Type 0 where
  pub stored : Option String
  pub updated_at : Option ℕ
  pub runs : List ManagerRun

pub record ManualWorld : Type 0 where
  pub now : ℕ
  pub is_enabled : Bool
  pub candidate_count : ℕ
  pub is_configured : Bool
  pub lock_is_busy : Bool
  pub commit_fails : Bool
  pub manager_returns : Bool
  pub rollback_returns : Bool

abbrev pub mode_text : ManualMode → String
mode_text auto = "auto"
mode_text primary = "primary"
mode_text backup = "backup"
mode_text forced_fallback = "forced_fallback"

-- One of the four modes
unfoldable pub parse_mode : String → Option ManualMode
parse_mode text =
    if str_eq text "auto"
    then some auto
    else if str_eq text "primary"
    then some primary
    else if str_eq text "backup"
    then some backup
    else if str_eq text "forced_fallback"
    then some forced_fallback
    else none

abbrev pub is_same : ManualMode → ManualMode → Bool
is_same auto auto = true
is_same primary primary = true
is_same backup backup = true
is_same forced_fallback forced_fallback = true
is_same _ _ = false

abbrev pub with_run : ManualMode → Bool → Manual → Manual
with_run mode succeeded s = record s {
  runs = record { mode = mode; succeeded = succeeded } ∷ s.runs;
}

-- `_trigger_ai_domain_manager`
unfoldable pub trigger : Bool → ManualMode → Exec Manual Unit
trigger returns mode s =
    (if returns then ok tt else err (runtime_error "AI 域名管理器执行失败"), with_run mode returns s)

-- The same, where its failure is only logged.
unfoldable pub trigger_quietly : Bool → ManualMode → Manual → Manual
unfolding trigger
trigger_quietly returns mode s = (trigger returns mode s).1

-- `apply_state_update(operation)`, and what follows if it raises.
unfoldable pub commit_mode : ManualWorld → ManualMode → ManualMode → Exec Manual Unit
unfolding trigger_quietly
commit_mode w mode previous s =
    if w.commit_fails
    then (
      err (runtime_error "database"),
      if is_same previous mode then s else trigger_quietly w.rollback_returns previous s,
    )
    else (ok tt, record s { stored = some (mode_text mode); updated_at = some w.now })

require_mode : Option ManualMode → Exec Manual ManualMode
require_mode none s =
    (err (validation_error "AI 路由模式仅支持 auto、primary、backup 或 forced_fallback。"), s)
require_mode (some mode) s = (ok mode, s)

-- The guards before the manager runs, in their order; the last is the lock that another run holds.
unfoldable pub check_mode : ManualWorld → ManualMode → Result (Unit {0})
check_mode w mode =
    if not w.is_enabled
    then err (validation_error "AI 路由未启用。")
    else if names_target mode && ltb w.candidate_count 2
    then err (validation_error "当前只配置了一个 AI 节点，无法执行双节点切换。")
    else if is_forced mode && not w.is_configured
    then err (validation_error "数据面未配置，无法应用 AI 回退。")
    else if w.lock_is_busy
    then err (runtime_error "AI 路由正在应用配置，请稍后重试。")
    else ok tt

-- `lower` is `str.lower`, the case tables of Unicode.
module _ (lower : String → String) where
  -- The mode of `ai_routing_manual_state`, `read_ai_routing_manual_mode`: auto for anything unknown
  unfoldable pub read_mode : Option String → ManualMode
  unfolding parse_mode strip
  read_mode stored =
      get_or (parse_mode (lower (strip (or_text (get_or stored "auto") "auto")))) auto

  unfoldable pub set_manual_mode : ManualWorld → String → Exec Manual Unit
  unfolding require_mode check_mode parse_mode strip trigger commit_mode read_mode
  set_manual_mode w raw = do
    mode ← require_mode (parse_mode (lower (strip raw)))
    lift (check_mode w mode)
    previous ← gets (λ s. read_mode s.stored)
    trigger w.manager_returns mode
    commit_mode w mode previous
