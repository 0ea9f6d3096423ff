-- ===== src/Commerce/Lifecycle/Settled.antt =====
-- The closed statuses of app/state/commerce.py: fulfilled, cancelled and expired.
use xray_routing_panel.Prelude.{ℕ, ◌≡◌, refl, ◌∙◌, ap, true, false, Option, none, some, List, arith}
use xray_routing_panel.Database.{Db}
use xray_routing_panel.Database.Tables.{Order, OrderStatus, pending_payment, payment_rejected}
use xray_routing_panel.Commerce.{is_open, is_awaiting, find_order}
use xray_routing_panel.Commerce.Lifecycle.{
  ◌⟶◌, ◌⟶*◌, stay, step, pay, pay_again, reject, fulfil, cancel, lapse, Advances,
}
use xray_routing_panel.Commerce.Lifecycle.Keys.{OrdersKeyed}
use xray_routing_panel.Commerce.Lifecycle.Runs.{OrderCall, run, run-Advances}

awaiting_is_open : (s : OrderStatus) → is_awaiting s ≡ true → is_open s ≡ true
awaiting_is_open pending_payment h = refl
awaiting_is_open payment_rejected h = refl
awaiting_is_open _ h = ground arith

step_is_open : {s t : OrderStatus} → s ⟶ t → is_open s ≡ true
step_is_open pay = refl
step_is_open pay_again = refl
step_is_open reject = refl
step_is_open fulfil = refl
step_is_open (cancel e) = e
step_is_open (lapse {s} e) = awaiting_is_open s e

closed_stays : {s t : OrderStatus} → s ⟶* t → is_open s ≡ false → t ≡ s
closed_stays stay h = refl
closed_stays (step k ks) h = let e = step_is_open k in cc

-- The order has the status.
abbrev pub HasStatus : OrderStatus → Option Order → Type 0
HasStatus s none = ⊥
HasStatus s (some o) = o.status ≡ s

advance_closed :
    (s : OrderStatus) (o p : Option Order)
    → is_open s ≡ false
    → HasStatus s o
    → Advances o p
    → HasStatus s p
advance_closed s none p c h k = absurd h
advance_closed s (some o) none c h k = k
advance_closed s (some o) (some p) c h k = closed_stays k.0 (ap is_open h ∙ c) ∙ h

-- An order that is fulfilled, cancelled or expired stays so, whatever calls are made on orders, in a
-- table whose ids are distinct and below the next one.
pub run-HasStatus :
    (i : ℕ) (cs : List OrderCall) (db : Db) (s : OrderStatus)
    → OrdersKeyed db
    → is_open s ≡ false
    → HasStatus s (find_order i db)
    → HasStatus s (find_order i (run cs db))
run-HasStatus i cs db s keyed c h =
    advance_closed s (find_order i db) (find_order i (run cs db)) c h (run-Advances i cs db keyed)
