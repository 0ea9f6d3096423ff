-- ===== src/Commerce/Lifecycle/Rivals.antt =====
-- The open orders for one service under sequences of calls on orders.
use xray_routing_panel.Prelude.{
  ℕ, ◌+◌, ◌≡◌, refl, sym, subst, Bool, true, false, not, Option, none, some, String, List, [], ◌∷◌,
  ◌++◌, ◌==◌, Bool-cases, Option-cases, inl, inr, find, Error, Exec, raise_if, gets, modify, strip,
  ◌>>=◌, ◌>>◌, arith,
}
use xray_routing_panel.Prelude.Keeps.{Keeps, Keeps-modify, keeps_rules}
use xray_routing_panel.Prelude.Sole.{IsSole}
use xray_routing_panel.Database.{Db}
use xray_routing_panel.Database.Tables.{
  Order, OrderKind, ReviewStatus, rejected, payment_rejected, payment_submitted, submitted,
}
use xray_routing_panel.Ports.Operations.{Draws}
use xray_routing_panel.Commerce.{
  is_open, is_awaiting, is_submitted, update_order, find_order, mark_reviewed, review, newest,
}
use xray_routing_panel.Commerce.Orders.{is_open_for, or_invalid, reject_order, cancel_order}
use xray_routing_panel.Commerce.Payment.{is_order_of, insert_submission}
use xray_routing_panel.Commerce.Fulfilment.{ShopSettings, serve, approve_order, fulfill_in_tx}
use xray_routing_panel.Commerce.Lifecycle.Keys.{find-by_id, or_invalid-Keeps}
use xray_routing_panel.Commerce.Lifecycle.Kept.{serve-Keeps}
use xray_routing_panel.Commerce.Lifecycle.Untouched.{serve-SameOrders}
use xray_routing_panel.Commerce.Lifecycle.Runs.{
  OrderCall, lapse_due, create, submit, reject, cancel, fulfill, after, run, transaction-keeps,
}
use xray_routing_panel.Commerce.Lifecycle.Renewals.{
  All-every, IsExclusive, expire-IsExclusive, update_order-IsExclusive, update_found-IsExclusive,
}
use xray_routing_panel.Commerce.Lifecycle.Exclusive.{Into-bind, create_order-IsExclusive}

module _ {A B : Type 0} (P : Db → Type 0) (look : Db → Option B) (test : B → Bool)
    (k : B → Exec Db A)
    (keep : (b : B) (db : Db) → P db → look db ≡ some b → test b ≡ true → P (k b db).1)
    (message : String) (wrong : Error) where
  row-Keeps : Keeps P (
      gets look >>= λ found. or_invalid found message >>= λ b. raise_if (not (test b)) wrong >> k b)
  unfolding or_invalid
  row-Keeps = record {
    at = λ db h. elim (Option-cases (look db)) [
      | inl e ↦ simp e h
      | inr (b, e) ↦ elim (Bool-cases (test b)) [
        | inl t ↦ simp (e, t) (keep b db h e t)
        | inr t ↦ simp (e, t) h
      ]
    ];
  }

submitted_is_open : (o : Order) → is_submitted o.status ≡ true → is_open o.status ≡ true
submitted_is_open o h = ground arith

awaiting_is_open : (o : Order) → is_awaiting o.status ≡ true → is_open o.status ≡ true
awaiting_is_open o h = ground arith

-- What `reject_order` and a submission do with the row they found.
abbrev rejecting : String → ℕ → Order → Exec Db Unit
rejecting note now o =
    mark_reviewed o.id rejected note now
    >> modify (
        update_order o.id
          (λ o. record o { status = payment_rejected; rejection_reason = note; updated_at = now }))

abbrev submitting : String → String → ℕ → Order → Exec Db Unit
submitting path note now order =
    modify (λ (db : Db). record db {
      submissions =
          db.submissions
          ++ record {
            id = db.next_submission_id;
            order_id = order.id;
            proof_image_path = path;
            payer_note = note;
            submitted_at = now;
            review_note = "";
            reviewed_at = none;
            review_status = submitted;
          }
            ∷ [];
      next_submission_id = db.next_submission_id + 1;
    })
    >> modify (
        update_order order.id
          (λ o. record o { status = payment_submitted; rejection_reason = ""; updated_at = now }))

module _ (s : ℕ) where
  -- With the row that was found.
  abbrev IsFound : ℕ → Order → Db → Type 0
  IsFound j o db = IsExclusive s db × (find (λ (o : Order). o.id == j) db.orders ≡ some o)

  review-IsFound :
      (j : ℕ) (o : Order) (found : Option ℕ) (status : ReviewStatus) (note : String) (now : ℕ)
      → Keeps (IsFound j o) (review found status note now)
  unfolding review
  review-IsFound j o none status note now = record { at = λ db h. h }
  review-IsFound j o (some i) status note now = record { at = λ db h. h }

  mark_reviewed-IsFound :
      (j : ℕ) (o : Order) (i : ℕ) (status : ReviewStatus) (note : String) (now : ℕ)
      → Keeps (IsFound j o) (mark_reviewed i status note now)
  unfolding mark_reviewed
  mark_reviewed-IsFound j o i status note now = record {
    at = λ db h. (review-IsFound j o (newest i db.submissions) status note now).at db h;
  }

  review-IsExclusive :
      (found : Option ℕ) (status : ReviewStatus) (note : String) (now : ℕ)
      → Keeps (IsExclusive s) (review found status note now)
  unfolding review
  review-IsExclusive none status note now = record { at = λ db h. h }
  review-IsExclusive (some i) status note now = record { at = λ db h. h }

  mark_reviewed-IsExclusive :
      (i : ℕ) (status : ReviewStatus) (note : String) (now : ℕ)
      → Keeps (IsExclusive s) (mark_reviewed i status note now)
  unfolding mark_reviewed
  mark_reviewed-IsExclusive i status note now = record {
    at = λ db h. (review-IsExclusive (newest i db.submissions) status note now).at db h;
  }

  close-IsExclusive :
      (j : ℕ) (f : Order → Order)
      → ((o : Order) → (f o).id ≡ o.id)
      → ((o : Order) → is_open (f o).status ≡ false)
      → Keeps (IsExclusive s) (modify (update_order j f))
  close-IsExclusive j f keep closed = Keeps-modify _ (λ db h.
      update_order-IsExclusive s j f db keep
        (All-every (λ o t p. ground (arith, p, closed o)) db.orders) h)

  serve-IsExclusive :
      (k : OrderKind) (c : ShopSettings) (w : Draws) (email : String) (o : Order)
      → Keeps (IsExclusive s) (serve k c w email o)
  serve-IsExclusive k c w email o = record {
    at = λ db h.
        let (same, next) =
          (serve-SameOrders db.orders db.next_order_id k c w email o).at db (refl, refl) in
        ((serve-Keeps k c w email o).at db h.0, subst (IsSole (is_open_for s)) (sym same) h.1);
  }

  cancel_order-IsExclusive :
      (order_id : ℕ) (note : String) (now : ℕ)
      → Keeps (IsExclusive s) (cancel_order order_id note now)
  unfolding cancel_order
  cancel_order-IsExclusive order_id note now =
      search (keeps_rules, or_invalid-Keeps, expire-IsExclusive, close-IsExclusive) depth 14

  approve_order-IsExclusive :
      (o : Order) (note : String) (now : ℕ) (service_id : Option ℕ)
      → Keeps (IsExclusive s) (approve_order o note now service_id)
  unfolding approve_order
  approve_order-IsExclusive o note now service_id =
      search (keeps_rules, mark_reviewed-IsExclusive, close-IsExclusive) depth 14

  fulfill_in_tx-IsExclusive :
      (shop : ShopSettings) (w : Draws) (order_id : ℕ) (note : String)
      → Keeps (IsExclusive s) (fulfill_in_tx shop w order_id note)
  unfolding fulfill_in_tx
  fulfill_in_tx-IsExclusive shop w order_id note =
      search
        (
          keeps_rules, or_invalid-Keeps, expire-IsExclusive, serve-IsExclusive,
          approve_order-IsExclusive,
        )
        depth 14

  rejected-IsExclusive :
      (order_id : ℕ) (note : String) (now : ℕ) (o : Order) (db : Db)
      → IsExclusive s db
      → find_order order_id db ≡ some o
      → is_submitted o.status ≡ true
      → IsExclusive s (rejecting note now o db).1
  unfolding find_order
  rejected-IsExclusive order_id note now o db h e t =
      (Into-bind {P = IsFound o.id o} {Q = IsExclusive s} (λ db h. h.0)
          (mark_reviewed o.id rejected note now) _
          (mark_reviewed-IsFound o.id o o.id rejected note now)
          (λ _. record {
            at = λ db h.
                update_found-IsExclusive s o.id _ db o h.1 (submitted_is_open o t) (λ o. refl)
                  (λ o. refl) h.0;
          })).at
        db (h, find-by_id (λ (o : Order). o.id == order_id) db.orders o h.0.0 e)

  reject_order-IsExclusive :
      (order_id : ℕ) (note : String) (now : ℕ)
      → Keeps (IsExclusive s) (reject_order order_id note now)
  unfolding reject_order
  reject_order-IsExclusive order_id note now =
      search
        (
          keeps_rules,
          expire-IsExclusive,
          row-Keeps (IsExclusive s) (find_order order_id) (λ (o : Order). is_submitted o.status)
              (rejecting (strip note) now) (rejected-IsExclusive order_id (strip note) now),
        )
        depth 10

  submitted-IsExclusive :
      (customer_id : ℕ) (order_no path note : String) (now : ℕ) (o : Order) (db : Db)
      → IsExclusive s db
      → find (is_order_of customer_id order_no) db.orders ≡ some o
      → is_awaiting o.status ≡ true
      → IsExclusive s (submitting path note now o db).1
  unfolding find_order update_order
  submitted-IsExclusive customer_id order_no path note now o db h e t =
      update_found-IsExclusive s o.id _ db o
        (find-by_id (is_order_of customer_id order_no) db.orders o h.0.0 e) (awaiting_is_open o t)
        (λ o. refl) (λ o. refl) h

  insert_submission-IsExclusive :
      (customer_id : ℕ) (order_no path note : String) (now : ℕ)
      → Keeps (IsExclusive s) (insert_submission customer_id order_no path note now)
  unfolding insert_submission
  insert_submission-IsExclusive customer_id order_no path note now =
      search
        (
          keeps_rules,
          expire-IsExclusive,
          row-Keeps (IsExclusive s) (λ (db : Db). find (is_order_of customer_id order_no) db.orders)
              (λ (o : Order). is_awaiting o.status) (submitting path note now)
              (submitted-IsExclusive customer_id order_no path note now),
        )
        depth 10

  after-IsExclusive : (c : OrderCall) (db : Db) → IsExclusive s db → IsExclusive s (after c db)
  unfolding after
  after-IsExclusive (create customer_id plan_id kind service_id w) db h =
      transaction-keeps (IsExclusive s) _ db h
        ((create_order-IsExclusive s customer_id plan_id kind service_id w).at db h)
  after-IsExclusive (submit customer_id order_no path note now) db h =
      transaction-keeps (IsExclusive s) _ db h
        ((insert_submission-IsExclusive customer_id order_no path note now).at db h)
  after-IsExclusive (reject order_id note now) db h =
      transaction-keeps (IsExclusive s) _ db h
        ((reject_order-IsExclusive order_id note now).at db h)
  after-IsExclusive (cancel order_id note now) db h =
      transaction-keeps (IsExclusive s) _ db h
        ((cancel_order-IsExclusive order_id note now).at db h)
  after-IsExclusive (fulfill shop w order_id note) db h =
      transaction-keeps (IsExclusive s) _ db h
        ((fulfill_in_tx-IsExclusive shop w order_id note).at db h)
  after-IsExclusive (lapse_due now) db h =
      transaction-keeps (IsExclusive s) _ db h ((expire-IsExclusive s now).at db h)

  -- Whatever calls are made on orders, returning or raising: if at most one open order is for a
  -- service, and the ids of the orders are distinct and below the next one, it stays so.
  pub run-IsExclusive :
      (cs : List OrderCall) (db : Db) → IsExclusive s db → IsExclusive s (run cs db)
  unfolding run
  run-IsExclusive [] db h = h
  run-IsExclusive (c ∷ cs) db h = run-IsExclusive cs (after c db) (after-IsExclusive c db h)
