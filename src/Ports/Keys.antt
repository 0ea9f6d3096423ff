-- ===== src/Ports/Keys.antt =====
-- The keys of `ports`: the id, the listening port, and the non-empty tokens and user names.
use xray_routing_panel.Prelude.{
  ℕ, ◌+◌, ◌<◌, ◌≡◌, Bool, false, ◌||◌, String, arith, eq_iff, ◌==◌, All, any, Bool-cases, inl, inr,
}
use xray_routing_panel.Prelude.Apart.{
  Apart, Apart-select, Apart-append_one, Apart-update, All-of_any, All-zip, All-append_one,
  All-update, All-select,
}
use xray_routing_panel.Database.{Db}
use xray_routing_panel.Database.Tables.{Port}
use xray_routing_panel.Ports.{same_text, conflicts, insert_port, update_port_row, delete_port_in_tx}

-- The PRIMARY KEY and the UNIQUE indexes.
abbrev pub clash : Port → Port → Bool
clash p q = p.id == q.id || conflicts p q

pub record IsKeyed (db : Db) : Type 0 where
  pub apart : Apart clash db.ports
  pub below : All (λ (p : Port). p.id < db.next_port_id) db.ports

same_text_comm : (a b : String) → same_text a b ≡ same_text b a
unfolding same_text
same_text_comm a b = ground (arith, eq_iff a b, eq_iff b a)

pub conflicts_comm : (p q : Port) → conflicts p q ≡ conflicts q p
unfolding conflicts
conflicts_comm p q = ground (
  arith,
  same_text_comm p.tenant_token q.tenant_token,
  same_text_comm p.subscription_token q.subscription_token,
  same_text_comm p.tenant_username q.tenant_username,
)

module _ (p : Port) (db : Db) (h : IsKeyed db) where
  abbrev new_row : Port
  new_row = record p { id = db.next_port_id }

  new-apart : any (conflicts p) db.ports ≡ false → All (λ q. clash q new_row ≡ false) db.ports
  unfolding conflicts
  new-apart e =
      All-zip (λ q. q.id < db.next_port_id) (λ q. conflicts p q ≡ false)
        (λ q. clash q new_row ≡ false) (λ q b c. ground (arith, conflicts_comm p q)) db.ports
        h.below (All-of_any (conflicts p) db.ports e)

  pub insert_port-IsKeyed : IsKeyed (insert_port p db).1
  unfolding insert_port
  insert_port-IsKeyed = elim (Bool-cases (any (conflicts p) db.ports)) [
    | inl e ↦ rw e h
    | inr e ↦ rw e (record {
      apart = Apart-append_one clash new_row db.ports (new-apart e) h.apart;
      below =
          All-append_one (λ q. q.id < db.next_port_id + 1) db.ports new_row
            (All-zip (λ q. q.id < db.next_port_id) (λ q. q.id < db.next_port_id)
              (λ q. q.id < db.next_port_id + 1) (λ q b c. omega arith) db.ports h.below h.below)
            (omega arith);
    })
  ]

pub delete_port-IsKeyed : (i n : ℕ) (db : Db) → IsKeyed db → IsKeyed (delete_port_in_tx i n db)
unfolding delete_port_in_tx
delete_port-IsKeyed i n db h = record {
  apart = Apart-select clash _ db.ports h.apart;
  below = All-select _ _ db.ports h.below;
}

-- An update of one row keeps the keys, if it keeps the id and what it writes conflicts with no
-- other row.
module _ (i : ℕ) (f : Port → Port) (K : Port → Type 0) (same_id : (p : Port) → (f p).id ≡ p.id)
    (free : (p q : Port)
      → K q
      → (q.id == i) ≡ false
      → conflicts p q ≡ false
      → conflicts (f p) q ≡ false) where
  pub update_port_row-IsKeyed :
      (db : Db) → All K db.ports → IsKeyed db → IsKeyed (update_port_row i f db)
  unfolding update_port_row
  update_port_row-IsKeyed db k h = record {
    apart =
        Apart-update clash (λ (p : Port). p.id == i) f K (λ p q a b. ground arith)
          (λ p q kq a b c. ground (arith, same_id p, free p q kq b))
          (λ p q kq a b c.
            ground (arith, same_id p, free p q kq b, conflicts_comm p q, conflicts_comm (f p) q))
          db.ports k h.apart;
    below =
        All-update (λ (p : Port). p.id < db.next_port_id) _ f (λ p b. rw (same_id p) b) db.ports
          h.below;
  }
