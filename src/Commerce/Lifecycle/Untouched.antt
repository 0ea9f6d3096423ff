-- ===== src/Commerce/Lifecycle/Untouched.antt =====
-- The orders under what a fulfilment does to ports and services.
use xray_routing_panel.Prelude.{
  ℕ, ◌≡◌, Option, none, some, String, List, Bool-cases, inl, inr, Result, modify, lift, any,
}
use xray_routing_panel.Prelude.Keeps.{Keeps, keeps_rules}
use xray_routing_panel.Database.{Db}
use xray_routing_panel.Database.Tables.{Port, Subscription, Order, OrderKind, new_purchase, renewal}
use xray_routing_panel.Traffic.{reset_port_usage}
use xray_routing_panel.Ports.{insert_port, update_port_row, conflicts}
use xray_routing_panel.Ports.Operations.{
  Draws, unique_tenant_token, unique_subscription_token, unique_tenant_username,
}
use xray_routing_panel.Commerce.Orders.{or_invalid}
use xray_routing_panel.Commerce.Fulfilment.{
  ShopSettings, open_service, renew_service, serve, insert_subscription,
}

module _ (xs : List Order) (n : ℕ) where
  abbrev pub SameOrders : Db → Type 0
  SameOrders db = (db.orders ≡ xs) × (db.next_order_id ≡ n)

  insert_port-SameOrders : (p : Port) → Keeps SameOrders (insert_port p)
  unfolding insert_port
  insert_port-SameOrders p = record {
    at = λ db h. elim (Bool-cases (any (conflicts p) db.ports)) [
      | inl e ↦ simp e h
      | inr e ↦ simp e h
    ];
  }

  unique_tenant_token-SameOrders : (w : Draws) → Keeps SameOrders (unique_tenant_token w)
  unfolding unique_tenant_token
  unique_tenant_token-SameOrders w = record { at = λ db h. h }

  unique_subscription_token-SameOrders :
      (w : Draws) → Keeps SameOrders (unique_subscription_token w)
  unfolding unique_subscription_token
  unique_subscription_token-SameOrders w = record { at = λ db h. h }

  unique_tenant_username-SameOrders : (w : Draws) → Keeps SameOrders (unique_tenant_username w)
  unfolding unique_tenant_username
  unique_tenant_username-SameOrders w = record { at = λ db h. h }

  Keeps-lift : {A : Type 0} (r : Result A) → Keeps SameOrders (lift r)
  Keeps-lift r = record { at = λ db h. h }

  or_invalid-SameOrders :
      {A : Type 0} (o : Option A) (m : String) → Keeps SameOrders (or_invalid o m)
  unfolding or_invalid
  or_invalid-SameOrders none m = record { at = λ db h. h }
  or_invalid-SameOrders (some a) m = record { at = λ db h. h }

  update_row-SameOrders :
      (i : ℕ) (f : Port → Port) → Keeps SameOrders (modify (update_port_row i f))
  unfolding update_port_row
  update_row-SameOrders i f = record { at = λ db h. h }

  reset_usage-SameOrders : (i : ℕ) → Keeps SameOrders (modify (reset_port_usage i))
  unfolding reset_port_usage
  reset_usage-SameOrders i = record { at = λ db h. h }

  insert_subscription-SameOrders : (s : Subscription) → Keeps SameOrders (insert_subscription s)
  unfolding insert_subscription
  insert_subscription-SameOrders s = record { at = λ db h. h }

  update_subscriptions-SameOrders :
      (g : Db → List Subscription)
      → Keeps SameOrders (modify (λ (db : Db). record db { subscriptions = g db }))
  update_subscriptions-SameOrders g = record { at = λ db h. h }

  ruleset order_rules = (
    keeps_rules, insert_port-SameOrders, unique_tenant_token-SameOrders,
    unique_subscription_token-SameOrders, unique_tenant_username-SameOrders, Keeps-lift,
    or_invalid-SameOrders, update_row-SameOrders, reset_usage-SameOrders,
    insert_subscription-SameOrders,
  )

  pub serve-SameOrders :
      (k : OrderKind) (c : ShopSettings) (w : Draws) (email : String) (o : Order)
      → Keeps SameOrders (serve k c w email o)
  unfolding serve open_service renew_service
  serve-SameOrders new_purchase c w email o = search order_rules depth 12
  serve-SameOrders renewal c w email o = search (order_rules, update_subscriptions-SameOrders _)
