-- ===== src/Tests/OrderRuns.antt =====
-- Runs of sequences of calls on orders, and of a submission that raises.
use xray_routing_panel.Prelude.{refl, true, some, List, [], ◌∷◌, strip, runtime_error, arith}
use xray_routing_panel.Database.{Db}
use xray_routing_panel.Database.Tables.{renewal, Order, cancelled}
use xray_routing_panel.Ports.Operations.{Draws}
use xray_routing_panel.Commerce.{find_order}
use xray_routing_panel.Commerce.Fulfilment.{ShopSettings}
use xray_routing_panel.Commerce.Payment.{
  ProofReading, partial, write_proof, proof_path, payment_proof_extension, save_payment_proof,
  submit_payment,
}
use xray_routing_panel.Commerce.Payment.Cleanup.{IsUndone, submit_payment_error-IsUndone}
use xray_routing_panel.Commerce.Lifecycle.{Advances}
use xray_routing_panel.Commerce.Lifecycle.Keys.{OrdersKeyed}
use xray_routing_panel.Commerce.Lifecycle.Runs.{
  create, OrderCall, fulfill, cancel, run, run-Advances,
}
use xray_routing_panel.Commerce.Lifecycle.Renewals.{IsExclusive}
use xray_routing_panel.Commerce.Lifecycle.Rivals.{run-IsExclusive}
use xray_routing_panel.Commerce.Lifecycle.Settled.{HasStatus, run-HasStatus}
use xray_routing_panel.Tests.Fixtures.{db}

abbrev draws : Draws
draws = record {
  now = 60;
  tenant_token = λ i. "t";
  subscription_token = λ i. "s";
  tenant_username = λ i. "u";
  tenant_password = "p";
}

abbrev shop : ShopSettings
shop = record {
  auto_ports = record { first = some 20001; last = some 20005 };
  upstream_host = "127.0.0.1";
  upstream_port = 1080;
}

db-OrdersKeyed : OrdersKeyed db
db-OrdersKeyed = ((refl, tt), (omega arith, tt))

-- The paid order is approved, and then somebody tries to cancel it.
abbrev calls : List OrderCall
calls = fulfill shop draws 1 "" ∷ cancel 1 "" 70 ∷ []

run-Advances_example : Advances (find_order 1 db) (find_order 1 (run calls db))
run-Advances_example = run-Advances 1 calls db db-OrdersKeyed

-- The same order, cancelled.
abbrev closed_orders : List Order → List Order
closed_orders [] = []
closed_orders (o ∷ os) = record o { status = cancelled } ∷ closed_orders os

abbrev closed : Db
closed = record db { orders = closed_orders db.orders }

run-HasStatus_example : HasStatus cancelled (find_order 1 (run calls closed))
unfolding find_order
run-HasStatus_example =
    run-HasStatus 1 calls closed cancelled ((refl, tt), (omega arith, tt)) refl refl

abbrev proof : ProofReading
proof = record {
  now = 60;
  stamp = "20260101T000000";
  token = "abcdef";
  max_bytes = 1000;
  max_bytes_text = "1 KB";
  writing = partial 2;
  unlinks = true;
}

-- The disk is full after two bytes.
submit_payment_error-IsUndone_example :
    IsUndone
      (partial 2)
      (proof_path proof "N1" "jpg")
      (255 ∷ 216 ∷ 255 ∷ [])
      (record { db = db; proofs = [] })
      (submit_payment proof 1 "N1" (255 ∷ 216 ∷ 255 ∷ []) "" (record { db = db; proofs = [] })).1
unfolding submit_payment save_payment_proof payment_proof_extension strip write_proof
submit_payment_error-IsUndone_example =
    submit_payment_error-IsUndone proof 1 "N1" (255 ∷ 216 ∷ 255 ∷ []) ""
      (record { db = db; proofs = [] }) {e = runtime_error "OSError"} refl refl refl

-- The paid order as a renewal of the first service, and another renewal of it that is asked for.
abbrev renewal_orders : List Order → List Order
renewal_orders [] = []
renewal_orders (o ∷ os) =
    record o { kind = renewal; service_subscription_id = some 1 } ∷ renewal_orders os

abbrev renewing : Db
renewing = record db { orders = renewal_orders db.orders }

abbrev ask_again : OrderCall
ask_again =
    create 1 1 (some renewal) (some 1)
      (record { now = 60; order_no = λ i. "N2"; fallback_hours = 24 })

run-IsExclusive_example : IsExclusive 1 (run (ask_again ∷ calls) renewing)
run-IsExclusive_example =
    run-IsExclusive 1 (ask_again ∷ calls) renewing
      (((refl, tt), (omega arith, tt)), ((λ _. refl), tt))
