-- ===== src/Commerce/Payment/Cleanup.antt =====
-- `submit_order_payment_submission` of app/state/commerce.py where it raises.
use xray_routing_panel.Prelude.{
  ℕ, ap, ◌≡◌, ◌⊎◌, inl, inr, take, Exec, ◌>>◌, refl, Bool, true, false, String, List, [], ◌∷◌,
  str_eq, strip, any, Result, ok, err, Error, arith, eq_iff,
}
use xray_routing_panel.Database.{Db, transaction, end_transaction}
use xray_routing_panel.Commerce.Payment.{
  Shop, ProofReading, Writing, complete, unopened, partial, write_proof, proof_path, unlink,
  payment_proof_extension, save_payment_proof, insert_submission, keep_or_unlink, submit_payment,
}

-- A file has the path.
abbrev pub is_there : String → List (String × List ℕ) → Bool
is_there path files = any (λ file. str_eq file.0 path) files

unlink-absent :
    (path : String) (files : List (String × List ℕ))
    → is_there path files ≡ false
    → unlink path files ≡ files
unlink-absent path [] h = refl
unlink-absent path (f ∷ fs) h = ground (arith, unlink-absent path fs)

unlink-written :
    (path : String) (content : List ℕ) (files : List (String × List ℕ))
    → is_there path files ≡ false
    → unlink path ((path, content) ∷ unlink path files) ≡ files
unlink-written path content files h =
    let gone : unlink path files ≡ files = unlink-absent path files h in
    simp gone (ground (arith, eq_iff path path, gone))

-- What a request that raised leaves: everything as it was, or besides that the first bytes of a
-- proof whose writing broke off.
abbrev pub IsUndone : Writing → String → List ℕ → Shop → Shop → Type 0
IsUndone writing path content s s' =
    (s'.db ≡ s.db)
    × ((s'.proofs ≡ s.proofs)
        ⊎ (n : ℕ) × (writing ≡ partial n) × (s'.proofs ≡ (path, take n content) ∷ s.proofs))

keep_or_unlink_lem :
    (writing : Writing) (path : String) (content : List ℕ) (s : Shop) (r : Result (Unit {0}) × Db)
    {e : Error}
    → is_there path s.proofs ≡ false
    → let written = record s { proofs = (path, content) ∷ unlink path s.proofs } in
      (keep_or_unlink true path written (end_transaction r s.db)).0 ≡ err e
      → IsUndone writing path content s
          (keep_or_unlink true path written (end_transaction r s.db)).1
unfolding keep_or_unlink end_transaction
keep_or_unlink_lem writing path content s (ok u, db) absent h = cc
keep_or_unlink_lem writing path content s (err e, db) absent h =
    (refl, inl (unlink-written path content s.proofs absent))

-- The rest of a request, from the writing on.
abbrev write_and_insert : Bool → Writing → String → List ℕ → Exec Db Unit → Exec Shop Unit
write_and_insert unlinks writing path content operation =
    write_proof writing path content
    >> (λ (s : Shop). keep_or_unlink unlinks path s (transaction operation s.db))

write_and_insert-IsUndone :
    (unlinks : Bool) (writing : Writing) (path : String) (content : List ℕ)
    (operation : Exec Db Unit) (s : Shop) {e : Error}
    → unlinks ≡ true
    → is_there path s.proofs ≡ false
    → (write_and_insert unlinks writing path content operation s).0 ≡ err e
    → IsUndone writing path content s (write_and_insert unlinks writing path content operation s).1
unfolding write_proof transaction
write_and_insert-IsUndone true complete path content operation s {e} u absent h =
    keep_or_unlink_lem complete path content s (operation s.db) {e = e} absent h
write_and_insert-IsUndone false complete path content operation s u absent h = cc
write_and_insert-IsUndone unlinks unopened path content operation s u absent h = (refl, inl refl)
write_and_insert-IsUndone unlinks (partial n) path content operation s u absent h = (
  refl,
  inr (n, refl, ap (λ files. (path, take n content) ∷ files) (unlink-absent path s.proofs absent)),
)

-- A submission that raises leaves the tables as they were, if no file had the drawn path before, and
-- the proof of a refused submission can be unlinked. It leaves the files of the proofs as they were
-- too, unless the writing of the proof broke off: then the bytes that were written stay under the drawn
-- path.
pub submit_payment_error-IsUndone :
    (w : ProofReading) (customer_id : ℕ) (order_no : String) (content : List ℕ)
    (payer_note : String) (s : Shop) {e : Error}
    → w.unlinks ≡ true
    → is_there (proof_path w order_no (payment_proof_extension content)) s.proofs ≡ false
    → (submit_payment w customer_id order_no content payer_note s).0 ≡ err e
    → IsUndone w.writing
        (proof_path w order_no (payment_proof_extension content))
        content
        s
        (submit_payment w customer_id order_no content payer_note s).1
unfolding submit_payment save_payment_proof
submit_payment_error-IsUndone w customer_id order_no content payer_note s {e} unlinks absent h =
    let path = proof_path w order_no (payment_proof_extension content) in
    ground (
      arith,
      write_and_insert-IsUndone w.unlinks w.writing path content
          (insert_submission customer_id order_no path (strip payer_note) w.now) s {e = e} unlinks
          absent,
    )
