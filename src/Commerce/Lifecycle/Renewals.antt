-- ===== src/Commerce/Lifecycle/Renewals.antt =====
-- The open orders for one service, app/state/commerce.py.
use xray_routing_panel.Prelude.{
  ℕ, ◌≡◌, sym, subst, true, false, some, List, [], ◌∷◌, ◌==◌, Bool-cases, inl, inr, find, any, All,
  modify, arith,
}
use xray_routing_panel.Prelude.Apart.{Apart}
use xray_routing_panel.Prelude.Sole.{IsSole, Opens, update-IsSole}
use xray_routing_panel.Prelude.Keeps.{Keeps, Keeps-modify}
use xray_routing_panel.Database.{Db}
use xray_routing_panel.Database.Tables.{Order}
use xray_routing_panel.Commerce.{is_due, is_open, expire_pending_orders, update_order, find_order}
use xray_routing_panel.Commerce.Orders.{is_open_for}
use xray_routing_panel.Commerce.Lifecycle.Keys.{
  same_id, OrdersKeyed, expire-OrdersKeyed, update_order-OrdersKeyed,
}

none_with_id :
    (j : ℕ) (x : Order) (xs : List Order)
    → (x.id == j) ≡ true
    → any (same_id x) xs ≡ false
    → (o : Order) → All (λ y. (y.id == j) ≡ true → y ≡ o) xs
none_with_id j x [] e h o = tt
none_with_id j x (y ∷ ys) e h o =
    ((λ k. ground (arith, e, h, k)), none_with_id j x ys e (ground (arith, h)) o)

-- In a keyed table a row with the id of the one found is that one.
same_row :
    (j : ℕ) (xs : List Order) (o : Order)
    → Apart same_id xs
    → find (λ (o : Order). o.id == j) xs ≡ some o
    → All (λ x. (x.id == j) ≡ true → x ≡ o) xs
same_row j [] o h e = cc
same_row j (x ∷ xs) o h e = elim (Bool-cases (x.id == j)) [
  | inl k ↦ let same : x ≡ o = cc (simp k at e) in ((λ _. same), none_with_id j x xs k h.0 o)
  | inr k ↦ ((λ t. ground (arith, k, t)), same_row j xs o h.1 (simp k at e))
]

All-imp :
    {P Q : Order → Type 0} → ((x : Order) → P x → Q x) → (xs : List Order) → All P xs → All Q xs
All-imp f [] h = tt
All-imp f (x ∷ xs) h = (f x h.0, All-imp f xs h.1)

pub All-every : {P : Order → Type 0} → ((x : Order) → P x) → (xs : List Order) → All P xs
All-every f [] = tt
All-every f (x ∷ xs) = (f x, All-every f xs)

module _ (s : ℕ) where
  -- The ids are distinct and below the next one, and at most one order for the service is open.
  abbrev pub IsExclusive : Db → Type 0
  IsExclusive db = OrdersKeyed db × IsSole (is_open_for s) db.orders

  -- An update that closes rows, or leaves them open that are.
  pub update_order-IsExclusive :
      (j : ℕ) (f : Order → Order) (db : Db)
      → ((o : Order) → (f o).id ≡ o.id)
      → All (Opens (is_open_for s) (λ (o : Order). o.id == j) f) db.orders
      → IsExclusive db
      → IsExclusive (update_order j f db)
  unfolding update_order
  update_order-IsExclusive j f db keep a h = (
    update_order-OrdersKeyed j f keep db h.0,
    update-IsSole (is_open_for s) (λ (o : Order). o.id == j) f db.orders a h.1,
  )

  -- The found order is open, and the update leaves it for the service that it is for.
  pub update_found-IsExclusive :
      (j : ℕ) (f : Order → Order) (db : Db) (o : Order)
      → find_order j db ≡ some o
      → is_open o.status ≡ true
      → ((o : Order) → (f o).id ≡ o.id)
      → ((o : Order) → (f o).service_subscription_id ≡ o.service_subscription_id)
      → IsExclusive db
      → IsExclusive (update_order j f db)
  unfolding find_order
  update_found-IsExclusive j f db o e open_there keep service h =
      update_order-IsExclusive j f db keep
        (All-imp
          (λ x same t p.
            let there : x ≡ o = same t in
            let shut : is_open x.status ≡ true =
              subst (λ (x : Order). is_open x.status ≡ true) (sym there) open_there in
            ground (arith, p, shut, service x))
          db.orders (same_row j db.orders o h.0.0 e))
        h

  expired-IsSole :
      (now : ℕ) (db : Db)
      → IsSole (is_open_for s) db.orders
      → IsSole (is_open_for s) (expire_pending_orders now db).orders
  unfolding expire_pending_orders
  expired-IsSole now db h =
      update-IsSole (is_open_for s) (is_due now) _ db.orders
        (All-every (λ o t p. ground (arith, t, p)) db.orders) h

  pub expire-IsExclusive : (now : ℕ) → Keeps IsExclusive (modify (expire_pending_orders now))
  expire-IsExclusive now =
      Keeps-modify _ (λ db h. (expire-OrdersKeyed now db h.0, expired-IsSole now db h.1))
