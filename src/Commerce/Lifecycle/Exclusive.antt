-- ===== src/Commerce/Lifecycle/Exclusive.antt =====
-- The open orders for one service under each call on orders.
use xray_routing_panel.Prelude.{
  ℕ, ◌≡◌, refl, subst, true, false, Option, none, some, String, Bool-cases, inl, inr, any, Result,
  ok, err, Error, Exec, raise_if, gets, modify, pure, continue, ◌>>=◌, ◌>>◌, arith,
}
use xray_routing_panel.Prelude.Sole.{append-IsSole}
use xray_routing_panel.Prelude.Keeps.{Keeps, Keeps-gets, keeps_rules}
use xray_routing_panel.Database.{Db}
use xray_routing_panel.Database.Tables.{Order, OrderKind, new_purchase, renewal, Plan}
use xray_routing_panel.Commerce.Orders.{
  OrderReading, is_open_for, check_kind, check_renewal, insert_order, place_order, create_order,
}
use xray_routing_panel.Commerce.Lifecycle.Keys.{or_invalid-Keeps, insert_order-Keeps}
use xray_routing_panel.Commerce.Lifecycle.Kept.{draw_order_no-Keeps, check_kind-Keeps}
use xray_routing_panel.Commerce.Lifecycle.Renewals.{IsExclusive, expire-IsExclusive}

-- No order for the service of a new order is open.
abbrev IsFree : Option ℕ → Db → Type 0
IsFree none db = Unit
IsFree (some i) db = any (is_open_for i) db.orders ≡ false

-- Where the call returns, its result and the state that it leaves are in `Q`.
record Ends {A : Type 0} (Q : A → Db → Type 0) (m : Exec Db A) : Type 0 where
  at : (db : Db) (a : A) → (m db).0 ≡ ok a → Q a (m db).1

module _ {A B : Type 0} {Q : B → Db → Type 0} where
  continue-Ends :
      (r : Result A) (f : A → Exec Db B) → ((a : A) → Ends Q (f a)) → Ends Q (continue r f)
  continue-Ends (ok a) f h = h a
  continue-Ends (err e) f h = record { at = λ db b k. cc }

  Ends-bind : (m : Exec Db A) (f : A → Exec Db B) → ((a : A) → Ends Q (f a)) → Ends Q (m >>= f)
  Ends-bind m f h = record {
    at = λ db b k. let (r, db') = m db in (continue-Ends r f h).at db' b k;
  }

module _ {A B : Type 0} {P : Db → Type 0} {Q : A → Db → Type 0} where
  continued :
      (r : Result A) (f : A → Exec Db B) (db : Db)
      → P db
      → ((a : A) → r ≡ ok a → Q a db)
      → ((a : A) (db : Db) → P db → Q a db → P (f a db).1)
      → P (continue r f db).1
  continued (ok a) f db p q h = h a db p (q a refl)
  continued (err e) f db p q h = p

  Keeps-after :
      (m : Exec Db A) (f : A → Exec Db B)
      → Keeps P m
      → Ends Q m
      → ((a : A) (db : Db) → P db → Q a db → P (f a db).1)
      → Keeps P (m >>= f)
  Keeps-after m f k e h = record {
    at = λ db p. let (r, db') = m db in continued r f db' (k.at db p) (λ a. e.at db a) h;
  }

IsFree-Ends :
    (i : ℕ) (e : Error)
    → Ends IsFree (
        gets (λ (db : Db). any (is_open_for i) db.orders) >>= λ existing.
        raise_if existing e >> pure (some i))
IsFree-Ends i e = record {
  at = λ db a h. elim (Bool-cases (any (is_open_for i) db.orders)) [
    | inl there ↦ cc
    | inr free ↦
        let same : some i ≡ a = cc (simp free at h) in
        simp free (subst (λ a. IsFree a db) same free)
  ];
}

check_kind-Ends :
    (now customer_id : ℕ) (plan : Plan) (kind : OrderKind) (service_id : Option ℕ)
    → Ends IsFree (check_kind now customer_id plan kind service_id)
unfolding check_kind check_renewal
check_kind-Ends now customer_id plan new_purchase service_id = record {
  at = λ db a h. let same : none ≡ a = cc in subst (λ a. IsFree a db) same tt;
}
check_kind-Ends now customer_id plan renewal none = record { at = λ db a h. cc }
check_kind-Ends now customer_id plan renewal (some i) = search (Ends-bind, IsFree-Ends) depth 12

-- From a state in `P`, whatever the outcome, to one in `Q`.
pub record Into {A : Type 0} (P Q : Db → Type 0) (m : Exec Db A) : Type 0 where
  pub at : (db : Db) → P db → Q (m db).1

module _ {A B : Type 0} {P Q : Db → Type 0} (weaken : (db : Db) → P db → Q db) where
  continue-Into :
      (r : Result A) (f : A → Exec Db B) → ((a : A) → Into P Q (f a)) → Into P Q (continue r f)
  continue-Into (ok a) f h = h a
  continue-Into (err e) f h = record { at = weaken }

  pub Into-bind :
      (m : Exec Db A) (f : A → Exec Db B)
      → Keeps P m
      → ((a : A) → Into P Q (f a))
      → Into P Q (m >>= f)
  Into-bind m f k h = record {
    at = λ db p. let (r, db') = m db in (continue-Into r f h).at db' (k.at db p);
  }

module _ (s : ℕ) where
  free_for :
      (service : Option ℕ) (db : Db) (o : Order)
      → o.service_subscription_id ≡ service
      → IsFree service db
      → is_open_for s o ≡ true
      → any (is_open_for s) db.orders ≡ false
  free_for none db o e h t = ground (arith, e, t)
  free_for (some i) db o e h t =
      let same : i ≡ s = ground (arith, e, t) in
      subst (λ i. any (is_open_for i) db.orders ≡ false) same h

  -- The exclusion, and that no order for the service of the new order is open.
  abbrev IsReady : Option ℕ → Db → Type 0
  IsReady service db = IsExclusive s db × IsFree service db

  insert-IsExclusive :
      (o : Order) (db : Db)
      → IsReady o.service_subscription_id db
      → IsExclusive s (insert_order o db)
  unfolding insert_order
  insert-IsExclusive o db h = (
    (insert_order-Keeps o).at db h.0.0,
    append-IsSole (is_open_for s) db.orders (record o { id = db.next_order_id })
        (free_for o.service_subscription_id db (record o { id = db.next_order_id }) refl h.1) h.0.1,
  )

  insert-Into :
      (o : Order) (order_no : String)
      → Into
          (IsReady o.service_subscription_id)
          (IsExclusive s)
          (modify (insert_order o) >> pure order_no)
  insert-Into o order_no = record { at = insert-IsExclusive o }

  place_order-Into :
      (w : OrderReading) (customer_id : ℕ) (plan : Plan) (kind : OrderKind) (service : Option ℕ)
      → Into (IsReady service) (IsExclusive s) (place_order w customer_id plan kind service)
  unfolding place_order
  place_order-Into w customer_id plan kind service =
      search
        (
          Into-bind {P = IsReady service} {Q = IsExclusive s} (λ db h. h.0),
          Keeps-gets,
          draw_order_no-Keeps,
          insert-Into,
        )
        depth 12

  checked-IsExclusive :
      (w : OrderReading) (customer_id : ℕ) (plan : Plan) (kind : OrderKind) (service_id : Option ℕ)
      → Keeps (IsExclusive s) (
          check_kind w.now customer_id plan kind service_id >>= place_order w customer_id plan kind)
  checked-IsExclusive w customer_id plan kind service_id =
      Keeps-after {Q = IsFree} _ _ (check_kind-Keeps w.now customer_id plan kind service_id)
        (check_kind-Ends w.now customer_id plan kind service_id)
        (λ service db p q. (place_order-Into w customer_id plan kind service).at db (p, q))

  pub create_order-IsExclusive :
      (customer_id plan_id : ℕ) (kind : Option OrderKind) (service_id : Option ℕ) (w : OrderReading)
      → Keeps (IsExclusive s) (create_order customer_id plan_id kind service_id w)
  unfolding create_order
  create_order-IsExclusive customer_id plan_id kind service_id w =
      search (keeps_rules, or_invalid-Keeps, expire-IsExclusive, checked-IsExclusive) depth 14
