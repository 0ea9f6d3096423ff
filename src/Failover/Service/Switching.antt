-- ===== src/Failover/Service/Switching.antt =====
-- The outcomes of `switch_dns_target`, app/state/dns_failover.py.
use xray_routing_panel.Prelude.{
  ◌≡◌, ◌≢◌, refl, ◌∙◌, Bool, true, Option, some, none, String, ok, err, Error, arith, strip,
  strip-strip, eq_iff, Bool-cases, inl, inr,
}
use xray_routing_panel.Failover.Peak.{Target}
use xray_routing_panel.Failover.Config.{Config, Contents, Reading, resolve_contents}
use xray_routing_panel.Failover.State.{Failover, push_entry}
use xray_routing_panel.Failover.Transition.{Reason, desired_content, target_from_content}
use xray_routing_panel.Failover.Service.{
  DnsRecord, Answer, answered, refused, same_found, SwitchReading, stored, switch_fetched,
  switch_updated, switch_dns_target,
}
use xray_routing_panel.Failover.Service.Counters.{SameRecord}

-- A switch that raises, for whatever reason, leaves the stored target, content and time of the
-- last switch as they were.
pub switch_error-SameRecord :
    (c : Config) (target : Target) (reason : Reason) (auto : Bool) (w : SwitchReading)
    (s : Failover) {e : Error}
    → (switch_dns_target c target reason auto w s).0 ≡ err e
    → SameRecord s (switch_dns_target c target reason auto w s).1
unfolding switch_dns_target push_entry
switch_error-SameRecord c target reason auto w s h = ground arith

same_found_lem : (o : Option Target) (t : Target) → same_found o t ≡ true → o ≡ some t
same_found_lem none t h = cc
same_found_lem (some u) t h = ground arith

-- The provider's record after an accepted update has the content that was asked for.
abbrev pub Echoes : SwitchReading → Type 0
Echoes w = (x : String) (r : DnsRecord) → w.synced x ≡ answered r → strip r.content ≡ strip x

-- The content of a target.
abbrev pub content_of : Config → Reading → Target → String
content_of c r target =
    let contents = resolve_contents c r in
    desired_content target contents.primary_content contents.backup_content

target_of-desired :
    (target : Target) (p b : String)
    → strip p ≢ strip b
    → target_from_content (desired_content target p b) p b ≡ some target
unfolding target_from_content desired_content
target_of-desired Target.primary p b ne =
    rw strip-strip (ground (arith, eq_iff (strip p) (strip p)))
target_of-desired Target.backup p b ne =
    rw strip-strip (ground (arith, eq_iff (strip b) (strip p), eq_iff (strip b) (strip b)))

desired_of-target :
    (target : Target) (x p b : String)
    → target_from_content x p b ≡ some target
    → strip x ≡ desired_content target p b
unfolding target_from_content desired_content
desired_of-target target x p b h =
    ground (arith, eq_iff (strip x) (strip p), eq_iff (strip x) (strip b))

strip-desired :
    (target : Target) (p b : String)
    → strip (desired_content target p b) ≡ desired_content target p b
unfolding desired_content
strip-desired Target.primary p b = strip-strip p
strip-desired Target.backup p b = strip-strip b

module _ (target : Target) (reason : Reason) (auto : Bool) (w : SwitchReading) (contents : Contents)
    (echo : Echoes w) where
  open contents use {primary_content, backup_content}

  -- The row names the target, and its content is the target's.
  abbrev Points : Failover → Type 0
  Points s =
      (s.row.current_target ≡ stored target)
      × (strip s.row.current_record_content ≡ desired_content target primary_content backup_content)

  updated-Points :
      (content : String) (a : Answer) (s : Failover)
      → strip primary_content ≢ strip backup_content
      → w.synced (desired_content target primary_content backup_content) ≡ a
      → (switch_updated target reason auto contents w.now content a s).0 ≡ ok tt
      → Points (switch_updated target reason auto contents w.now content a s).1
  unfolding switch_updated push_entry
  updated-Points content (refused m) s ne e h = cc
  updated-Points content (answered r) s ne e h =
      let same =
        echo (desired_content target primary_content backup_content) r e
        ∙ strip-desired target primary_content backup_content in
      (
        rw same (rw (target_of-desired target primary_content backup_content ne)),
        rw strip-strip same,
      )

  fetched-Points :
      (a : Answer) (s : Failover)
      → strip primary_content ≢ strip backup_content
      → (switch_fetched target reason auto contents w.now w.synced a s).0 ≡ ok tt
      → Points (switch_fetched target reason auto contents w.now w.synced a s).1
  unfolding switch_fetched push_entry
  fetched-Points (refused m) s ne h = cc
  fetched-Points (answered r) s ne h =
      elim (Bool-cases (
        same_found (target_from_content (strip r.content) primary_content backup_content) target)) [
          | inl e ↦ rw e (
            refl,
            desired_of-target target (strip r.content) primary_content backup_content
                (same_found_lem _ target e),
          )
          | inr e ↦ rw e (
              updated-Points (strip r.content)
                (w.synced (desired_content target primary_content backup_content)) s ne refl
                (rw e at h))
        ]

-- When a switch returns, the stored target is the requested one and the stored content is its
-- content, provided that the provider stores the content it is sent and that the two targets have
-- different contents.
pub switch_ok-Points :
    (c : Config) (target : Target) (reason : Reason) (auto : Bool) (w : SwitchReading)
    (s : Failover)
    → Echoes w
    → content_of c w.status Target.primary ≢ content_of c w.status Target.backup
    → (switch_dns_target c target reason auto w s).0 ≡ ok tt
    → let row = (switch_dns_target c target reason auto w s).1.row in
      (row.current_target ≡ stored target)
      × (strip row.current_record_content ≡ content_of c w.status target)
unfolding switch_dns_target push_entry desired_content
switch_ok-Points c target reason auto w s echo ne h =
    ground
      (arith, fetched-Points target reason auto w (resolve_contents c w.status) echo w.fetched s ne)
