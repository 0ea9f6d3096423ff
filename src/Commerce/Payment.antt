-- ===== src/Commerce/Payment.antt =====
-- Payment proofs: `save_payment_proof_file` and `submit_order_payment_submission` of
-- app/state/commerce.py. The clock's text and the random part of a file's name are drawn.
pub mod Cleanup
use xray_routing_panel.Prelude.{
  ℕ, zero, suc, ◌+◌, Bool, true, false, ◌&&◌, not, none, String, List, [], ◌∷◌, ◌++◌, ◌==◌, ltb,
  if◌then◌else◌, str_eq, str_append, is_empty, strip, find, length, select, Result, ok, err,
  validation_error, runtime_error, take, drop, Exec, pure, raise_if, gets, modify, ◌>>=◌, ◌>>◌,
}
use xray_routing_panel.Database.{Db, transaction}
use xray_routing_panel.Database.Tables.{Order, payment_submitted, submitted}
use xray_routing_panel.Commerce.{is_awaiting, expire_pending_orders, update_order, is_long}
use xray_routing_panel.Commerce.Orders.{or_invalid}

abbrev pub starts_with : List ℕ → List ℕ → Bool
starts_with [] bytes = true
starts_with (x ∷ xs) [] = false
starts_with (x ∷ xs) (b ∷ bytes) = x == b && starts_with xs bytes

-- `payment_proof_extension_from_bytes`; four bytes at 8 are "WEBP" if the rest starts with them
unfoldable pub payment_proof_extension : List ℕ → String
payment_proof_extension payload =
    if starts_with (137 ∷ 80 ∷ 78 ∷ 71 ∷ 13 ∷ 10 ∷ 26 ∷ 10 ∷ []) payload
    then "png"
    else if starts_with (255 ∷ 216 ∷ 255 ∷ []) payload
    then "jpg"
    else if starts_with (82 ∷ 73 ∷ 70 ∷ 70 ∷ []) payload
        && starts_with (87 ∷ 69 ∷ 66 ∷ 80 ∷ []) (drop 8 payload)
    then "webp"
    else ""

-- The files under `PAYMENT_PROOFS_DIR`, by their relative paths, and the tables.
pub record Shop : Type 0 where
  pub db : Db
  pub proofs : List (String × List ℕ)

-- How the making of the order's directory and the writing of a file end: all is written, or they
-- raise, before there is a file or with its first bytes written.
pub data Writing : Type 0 where
  complete unopened : Writing
  partial : ℕ → Writing

pub record ProofReading : Type 0 where
  pub now : ℕ
  -- `utc_now().strftime(…)` and `generate_subscription_token(6)`
  pub stamp : String
  pub token : String
  -- `PAYMENT_PROOF_MAX_BYTES`, and the text that the message makes of it
  pub max_bytes : ℕ
  pub max_bytes_text : String
  pub writing : Writing
  -- whether the file of a refused submission can be unlinked
  pub unlinks : Bool

abbrev pub proof_path : ProofReading → String → String → String
proof_path w order_no extension = str_append "payment-proofs/" (
    str_append order_no (
      str_append "/"
        (str_append w.stamp (str_append "-" (str_append w.token (str_append "." extension))))))

abbrev pub unlink : String → List (String × List ℕ) → List (String × List ℕ)
unlink path files = select (λ file. not (str_eq file.0 path)) files

-- `mkdir` and `write_bytes`; an `OSError` is not caught here
unfoldable pub write_proof : Writing → String → List ℕ → Exec Shop Unit
write_proof complete path content s =
    (ok tt, record s { proofs = (path, content) ∷ unlink path s.proofs })
write_proof unopened path content s = (err (runtime_error "OSError"), s)
write_proof (partial n) path content s = (
  err (runtime_error "OSError"),
  record s { proofs = (path, take n content) ∷ unlink path s.proofs },
)

-- `save_payment_proof_file`
unfoldable pub save_payment_proof : ProofReading → String → List ℕ → Exec Shop String
unfolding write_proof
save_payment_proof w order_no content = do
  let extension = payment_proof_extension content
  raise_if (length content == 0) (validation_error "请上传支付截图。")
  raise_if (ltb w.max_bytes (length content))
      (validation_error (str_append "支付截图不能超过 " (str_append w.max_bytes_text "。")))
  raise_if (is_empty extension) (validation_error "支付截图只支持 PNG、JPG、WEBP。")
  let path = proof_path w order_no extension
  write_proof w.writing path content
  pure path

-- `WHERE order_no = ? AND customer_id = ?`
abbrev pub is_order_of : ℕ → String → Order → Bool
is_order_of customer_id order_no o = str_eq o.order_no order_no && o.customer_id == customer_id

-- The operation that `submit_order_payment_submission` hands to its transaction.
unfoldable pub insert_submission : ℕ → String → String → String → ℕ → Exec Db Unit
insert_submission customer_id order_no path note now = do
  modify (expire_pending_orders now)
  found ← gets (λ (db : Db). find (is_order_of customer_id order_no) db.orders)
  order ← or_invalid found "订单不存在。"
  raise_if (not (is_awaiting order.status)) (validation_error "当前订单状态不允许重新提交支付凭证。")
  modify (λ (db : Db). record db {
    submissions =
        db.submissions
        ++ record {
          id = db.next_submission_id;
          order_id = order.id;
          proof_image_path = path;
          payer_note = note;
          submitted_at = now;
          review_note = "";
          reviewed_at = none;
          review_status = submitted;
        }
          ∷ [];
    next_submission_id = db.next_submission_id + 1;
  })
  modify (
      update_order order.id
        (λ o. record o { status = payment_submitted; rejection_reason = ""; updated_at = now }))

-- The end of the request: a proof whose transaction raised is unlinked again. If that raises too, it is
-- with an exception of its own.
unfoldable pub keep_or_unlink :
    Bool → String → Shop → Result (Unit {0}) × Db → Result (Unit {0}) × Shop
keep_or_unlink unlinks path s (ok u, db) = (ok u, record s { db = db })
keep_or_unlink unlinks path s (err e, db) =
    (err e, record s { db = db; proofs = if unlinks then unlink path s.proofs else s.proofs })

-- `submit_order_payment_submission`
unfoldable pub submit_payment : ProofReading → ℕ → String → List ℕ → String → Exec Shop Unit
submit_payment w customer_id order_no content payer_note = do
  let note = strip payer_note
  raise_if (is_long 300 note) (validation_error "付款备注不能超过 300 个字符。")
  path ← save_payment_proof w order_no content
  λ (s : Shop).
      keep_or_unlink w.unlinks path s
        (transaction (insert_submission customer_id order_no path note w.now) s.db)
