-- ===== src/Routing/Manual/Agree.antt =====
-- The stored mode, and the mode that the manager was last run with.
use xray_routing_panel.Prelude.{
  String, ◌≡◌, refl, sym, ap, ◌∙◌, ◌⊎◌, inl, inr, true, false, some, List, [], ◌∷◌, arith, strip,
  Bool, Bool-cases, Result, ok, err, runtime_error, ◌>>=◌, ◌>>◌, lift, gets, Exec, subst,
}
use xray_routing_panel.Routing.Manager.{ManualMode, auto, primary, backup, forced_fallback}
use xray_routing_panel.Routing.Manual.{
  Manual, ManagerRun, ManualWorld, mode_text, parse_mode, is_same, with_run, trigger,
  trigger_quietly, commit_mode, require_mode, check_mode, read_mode, set_manual_mode,
}

-- What an error of a call leaves: what is stored is as before, and of the manager's runs there is
-- none, or one that raised, or, where the database refused the mode, one that was done and was
-- followed by one with the previous mode, unless that is the same.
abbrev pub Refused : ManualWorld → ManualMode → ManualMode → Manual → Manual → Type 0
Refused w mode previous s s' =
    (s'.stored ≡ s.stored)
    × (s'.updated_at ≡ s.updated_at)
    × ((s'.runs ≡ s.runs)
        ⊎ (s'.runs ≡ (with_run mode false s).runs)
        ⊎ (w.commit_fails ≡ true)
          × ((previous ≡ mode) × (s'.runs ≡ (with_run mode true s).runs)
              ⊎ (s'.runs ≡ (with_run previous w.rollback_returns (with_run mode true s)).runs)))

-- What a call leaves: with the mode that it asks for, and the mode stored before.
unfoldable pub Served :
    ManualWorld → ManualMode → ManualMode → Manual → Result (Unit {0}) × Manual → Type 0
Served w mode previous s (ok u, s') =
    (s'.stored ≡ some (mode_text mode))
    × (s'.updated_at ≡ some w.now)
    × (s'.runs ≡ (with_run mode true s).runs)
Served w mode previous s (err e, s') = Refused w mode previous s s'

is_same→≡ : (a b : ManualMode) → is_same a b ≡ true → a ≡ b
is_same→≡ auto auto h = refl
is_same→≡ primary primary h = refl
is_same→≡ backup backup h = refl
is_same→≡ forced_fallback forced_fallback h = refl
is_same→≡ auto primary h = absurd (ground (arith, h))
is_same→≡ auto backup h = absurd (ground (arith, h))
is_same→≡ auto forced_fallback h = absurd (ground (arith, h))
is_same→≡ primary auto h = absurd (ground (arith, h))
is_same→≡ primary backup h = absurd (ground (arith, h))
is_same→≡ primary forced_fallback h = absurd (ground (arith, h))
is_same→≡ backup auto h = absurd (ground (arith, h))
is_same→≡ backup primary h = absurd (ground (arith, h))
is_same→≡ backup forced_fallback h = absurd (ground (arith, h))
is_same→≡ forced_fallback auto h = absurd (ground (arith, h))
is_same→≡ forced_fallback primary h = absurd (ground (arith, h))
is_same→≡ forced_fallback backup h = absurd (ground (arith, h))

module _ (w : ManualWorld) (mode previous : ManualMode) (s : Manual) where
  -- After a run of the manager that returned.
  commit_mode-Served : Served w mode previous s (commit_mode w mode previous (with_run mode true s))
  unfolding commit_mode trigger_quietly Served
  commit_mode-Served = elim (Bool-cases w.commit_fails) [
    | inr e ↦ rw e (refl, refl, refl)
    | inl e ↦ rw e (elim (Bool-cases (is_same previous mode)) [
      | inl q ↦ rw q (refl, refl, inr (inr (refl, inl (is_same→≡ previous mode q, refl))))
      | inr q ↦ rw q (refl, refl, inr (inr (refl, inr refl)))
    ])
  ]

  raised-Served :
      Served w mode previous s (err (runtime_error "AI 域名管理器执行失败"), with_run mode false s)
  unfolding Served
  raised-Served = (refl, refl, inr (inl refl))

  trigger-Served :
      (returns : Bool)
      → Served w mode previous s ((trigger returns mode >>= λ _. commit_mode w mode previous) s)
  unfolding trigger
  trigger-Served true = commit_mode-Served
  trigger-Served false = raised-Served

  -- A guard that refuses leaves everything as it was.
  guard-Served :
      (r : Result (Unit {0})) (m : Exec Manual Unit)
      → Served w mode previous s (m s)
      → Served w mode previous s ((lift r >> m) s)
  unfolding Served
  guard-Served (err e) m h = (refl, refl, inl refl)
  guard-Served (ok u) m h = h

-- The newest run of the manager, if it returned, was with the mode.
FollowsRuns : ManualMode → List ManagerRun → Type 0
FollowsRuns mode [] = Unit
FollowsRuns mode (r ∷ rs) = (r.succeeded ≡ false) ⊎ (r.mode ≡ mode)

module _ (lower : String → String) where
  -- `lower` leaves the names of the modes as they are.
  abbrev pub KeepsNames : Type 0
  KeepsNames = (mode : ManualMode) → lower (mode_text mode) ≡ mode_text mode

  -- The manager follows the stored mode: its newest run was with that, unless it raised.
  unfoldable pub Follows : Manual → Type 0
  unfolding FollowsRuns
  Follows s = FollowsRuns (read_mode lower s.stored) s.runs

  read_mode-mode_text :
      KeepsNames → (mode : ManualMode) → read_mode lower (some (mode_text mode)) ≡ mode
  unfolding read_mode parse_mode
  read_mode-mode_text k auto = rw (k auto) refl
  read_mode-mode_text k primary = rw (k primary) refl
  read_mode-mode_text k backup = rw (k backup) refl
  read_mode-mode_text k forced_fallback = rw (k forced_fallback) refl

  follow :
      (s' : Manual) (mode : ManualMode) (runs : List ManagerRun)
      → read_mode lower s'.stored ≡ mode
      → s'.runs ≡ runs
      → FollowsRuns mode runs
      → Follows s'
  unfolding Follows
  follow s' mode runs e q h =
      subst (λ m. FollowsRuns m s'.runs) (sym e) (subst (FollowsRuns mode) (sym q) h)

  module _ (w : ManualWorld) (mode : ManualMode) (s : Manual) where
    Refused-Follows :
        (s' : Manual) → Follows s → Refused w mode (read_mode lower s.stored) s s' → Follows s'
    unfolding Follows FollowsRuns
    Refused-Follows s' h (same, time, runs) =
        let previous = ap (read_mode lower) same in
        elim runs [
          | inl none_run ↦ follow s' (read_mode lower s.stored) s.runs previous none_run h
          | inr (inl raised) ↦ follow s' (read_mode lower s.stored) _ previous raised (inl refl)
          | inr (inr (e, inl (is_mode, done))) ↦
              follow s' (read_mode lower s.stored) _ previous done (inr (sym is_mode))
          | inr (inr (e, inr back)) ↦
              follow s' (read_mode lower s.stored) _ previous back (inr refl)
        ]

    Served-Follows :
        KeepsNames
        → (r : Result (Unit {0}) × Manual) → Follows s
        → Served w mode (read_mode lower s.stored) s r
        → Follows r.1
    unfolding Served Follows FollowsRuns
    Served-Follows k (ok u, s') h (stored, time, runs) =
        follow s' mode _ (ap (read_mode lower) stored ∙ read_mode-mode_text k mode) runs (inr refl)
    Served-Follows k (err e, s') h refused = Refused-Follows s' h refused

  set_manual_mode_lem :
      (w : ManualWorld) (raw : String) (mode : ManualMode) (s : Manual)
      → parse_mode (lower (strip raw)) ≡ some mode
      → Served w mode (read_mode lower s.stored) s (set_manual_mode lower w raw s)
  unfolding set_manual_mode require_mode
  set_manual_mode_lem w raw mode s h = rw h (
      guard-Served w mode (read_mode lower s.stored) s (check_mode w mode)
        (gets (λ (t : Manual). read_mode lower t.stored) >>= λ previous.
          trigger w.manager_returns mode >> commit_mode w mode previous)
        (trigger-Served w mode (read_mode lower s.stored) s w.manager_returns))

  -- `set_ai_routing_manual_mode` with one of the four modes, whatever fails. On success the mode is
  -- stored with the time, after one run of the manager with it that returned. On an error nothing stored
  -- changes, and the manager was not run, or its one run raised, or the database refused the mode after
  -- a run that returned and the manager was run again with the mode that is stored, unless the two are
  -- the same. So the manager still follows the stored mode, if it did: its newest run was with that,
  -- unless it raised.
  pub set_manual_mode-Served :
      (w : ManualWorld) (raw : String) (mode : ManualMode) (s : Manual)
      → KeepsNames
      → Follows s
      → parse_mode (lower (strip raw)) ≡ some mode
      → Served w mode (read_mode lower s.stored) s (set_manual_mode lower w raw s)
        × Follows (set_manual_mode lower w raw s).1
  set_manual_mode-Served w raw mode s k follows h =
      let served = set_manual_mode_lem w raw mode s h in
      (served, Served-Follows w mode s k (set_manual_mode lower w raw s) follows served)
