-- ===== src/Commerce/Lifecycle/Kept.antt =====
-- The keys of `orders` under each call, and the creation of an order (app/state/commerce.py).
use xray_routing_panel.Prelude.{
  ℕ, zero, suc, ◌+◌, refl, sym, subst, Bool, Option, none, some, String, List, [], ◌∷◌, ◌++◌, ◌==◌,
  Bool-cases, inl, inr, find, modify,
}
use xray_routing_panel.Prelude.Keeps.{Keeps, Keeps-modify, keeps_rules}
use xray_routing_panel.Database.{Db}
use xray_routing_panel.Database.Tables.{Order, OrderKind, new_purchase, renewal, Plan, Submission}
use xray_routing_panel.Ports.Operations.{Draws}
use xray_routing_panel.Commerce.{expire_pending_orders, find_order, draw_order_no}
use xray_routing_panel.Commerce.Orders.{
  OrderReading, check_kind, check_renewal, insert_order, create_order, place_order, reject_order,
  cancel_order,
}
use xray_routing_panel.Commerce.Payment.{insert_submission}
use xray_routing_panel.Commerce.Fulfilment.{ShopSettings, serve, approve_order, fulfill_in_tx}
use xray_routing_panel.Commerce.Lifecycle.{Advances, Advances-refl, Advances-trans, expire-Advances}
use xray_routing_panel.Commerce.Lifecycle.Untouched.{serve-SameOrders}
use xray_routing_panel.Commerce.Lifecycle.Keys.{
  Keyed, OrdersKeyed, or_invalid-Keeps, expire-Keeps, insert_order-Keeps, update_order-Keeps,
  mark_reviewed-Keeps,
}

-- What only reads keeps everything.
module _ {P : Db → Type 0} where
  pub draw_order_no-Keeps :
      (taken : String → Bool) (draw : ℕ → String) (i k : ℕ) → Keeps P (draw_order_no taken draw i k)
  unfolding draw_order_no
  draw_order_no-Keeps taken draw i zero = record { at = λ db h. h }
  draw_order_no-Keeps taken draw i (suc k) = record {
    at = λ db h. elim (Bool-cases (taken (draw i))) [
      | inl e ↦ simp e ((draw_order_no-Keeps taken draw (i + 1) k).at db h)
      | inr e ↦ simp e h
    ];
  }

  pub check_kind-Keeps :
      (now customer_id : ℕ) (plan : Plan) (kind : OrderKind) (service_id : Option ℕ)
      → Keeps P (check_kind now customer_id plan kind service_id)
  unfolding check_kind check_renewal
  check_kind-Keeps now customer_id plan new_purchase service_id = record { at = λ db h. h }
  check_kind-Keeps now customer_id plan renewal none = record { at = λ db h. h }
  check_kind-Keeps now customer_id plan renewal (some service_id) =
      search (keeps_rules, or_invalid-Keeps) depth 12

ruleset call_rules = (
  keeps_rules, or_invalid-Keeps, draw_order_no-Keeps, check_kind-Keeps, expire-Keeps,
  insert_order-Keeps, mark_reviewed-Keeps,
)

pub create_order-Keeps :
    (customer_id plan_id : ℕ) (kind : Option OrderKind) (service_id : Option ℕ) (w : OrderReading)
    → Keeps OrdersKeyed (create_order customer_id plan_id kind service_id w)
unfolding create_order place_order
create_order-Keeps customer_id plan_id kind service_id w = search call_rules depth 16

pub reject_order-Keeps :
    (order_id : ℕ) (note : String) (now : ℕ) → Keeps OrdersKeyed (reject_order order_id note now)
unfolding reject_order
reject_order-Keeps order_id note now = search (call_rules, update_order-Keeps) depth 14

pub cancel_order-Keeps :
    (order_id : ℕ) (note : String) (now : ℕ) → Keeps OrdersKeyed (cancel_order order_id note now)
unfolding cancel_order
cancel_order-Keeps order_id note now = search (call_rules, update_order-Keeps) depth 14

pub serve-Keeps :
    (k : OrderKind) (c : ShopSettings) (w : Draws) (email : String) (o : Order)
    → Keeps OrdersKeyed (serve k c w email o)
serve-Keeps k c w email o = record {
  at = λ db h.
      let (same, next) =
        (serve-SameOrders db.orders db.next_order_id k c w email o).at db (refl, refl) in
      subst (λ n. Keyed (serve k c w email o db).1.orders n) (sym next)
        (subst (λ xs. Keyed xs db.next_order_id) (sym same) h);
}

approve_order-Keeps :
    (o : Order) (note : String) (now : ℕ) (service_id : Option ℕ)
    → Keeps OrdersKeyed (approve_order o note now service_id)
unfolding approve_order
approve_order-Keeps o note now service_id = search (call_rules, update_order-Keeps) depth 14

pub fulfill_in_tx-Keeps :
    (shop : ShopSettings) (w : Draws) (order_id : ℕ) (note : String)
    → Keeps OrdersKeyed (fulfill_in_tx shop w order_id note)
unfolding fulfill_in_tx
fulfill_in_tx-Keeps shop w order_id note =
    search (call_rules, serve-Keeps, approve_order-Keeps) depth 14

append_submission-Keeps :
    (s : Db → Submission) (n : Db → ℕ)
    → Keeps OrdersKeyed (
        modify (λ (db : Db). record db {
          submissions = db.submissions ++ s db ∷ [];
          next_submission_id = n db;
        }))
append_submission-Keeps s n = Keeps-modify _ (λ db h. h)

pub insert_submission-Keeps :
    (customer_id : ℕ) (order_no path note : String) (now : ℕ)
    → Keeps OrdersKeyed (insert_submission customer_id order_no path note now)
unfolding insert_submission
insert_submission-Keeps customer_id order_no path note now =
    search (call_rules, append_submission-Keeps _ _, update_order-Keeps) depth 14

module _ (i : ℕ) where
  append-Advances :
      (xs : List Order) (o : Order)
      → Advances
          (find (λ (o : Order). o.id == i) xs)
          (find (λ (o : Order). o.id == i) (xs ++ o ∷ []))
  append-Advances [] o = tt
  append-Advances (x ∷ xs) o = elim (Bool-cases (x.id == i)) [
    | inl e ↦ simp e (Advances-refl (some x))
    | inr e ↦ simp e (append-Advances xs o)
  ]

  -- An order of the state `before` has advanced.
  abbrev pub IsAfter : Db → Db → Type 0
  IsAfter before db = Advances (find_order i before) (find_order i db)

  expire-IsAfter :
      (before : Db) (now : ℕ) → Keeps (IsAfter before) (modify (expire_pending_orders now))
  expire-IsAfter before now = Keeps-modify _ (λ db h.
      Advances-trans (find_order i before) (find_order i db)
        (find_order i (expire_pending_orders now db)) h (expire-Advances i now db))

  insert_order-IsAfter :
      (before : Db) (o : Order) → Keeps (IsAfter before) (modify (insert_order o))
  unfolding insert_order find_order
  insert_order-IsAfter before o = Keeps-modify _ (λ db h.
      Advances-trans (find_order i before) (find_order i db) (find_order i (insert_order o db)) h
        (append-Advances db.orders (record o { id = db.next_order_id })))

  pub create_order-IsAfter :
      (before : Db) (customer_id plan_id : ℕ) (kind : Option OrderKind) (service_id : Option ℕ)
      (w : OrderReading)
      → Keeps (IsAfter before) (create_order customer_id plan_id kind service_id w)
  unfolding create_order place_order
  create_order-IsAfter before customer_id plan_id kind service_id w =
      search
        (
          keeps_rules, or_invalid-Keeps, draw_order_no-Keeps, check_kind-Keeps, expire-IsAfter,
          insert_order-IsAfter,
        )
        depth 16
