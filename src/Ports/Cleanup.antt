-- ===== src/Ports/Cleanup.antt =====
-- `cleanup_expired_ports_in_tx` and `delete_port_in_tx` of app/state/ports.py.
use xray_routing_panel.Prelude.{
  ℕ, ◌≡◌, refl, ◌∙◌, ap, Bool, true, false, ◌&&◌, not, List, [], ◌∷◌, arith, ◌==◌, if◌then◌else◌,
  any, select, Bool-cases, inl, inr,
}
use xray_routing_panel.Prelude.Apart.{Apart}
use xray_routing_panel.Database.{Db}
use xray_routing_panel.Database.Tables.{Port, Total, Daily}
use xray_routing_panel.Ports.{delete_port_in_tx, delete_ports, is_removable, cleanup_expired_ports}
use xray_routing_panel.Ports.Keys.{IsKeyed, clash}
use xray_routing_panel.Traffic.Sums.{Measure, total_of, daily_sum}
use xray_routing_panel.Traffic.Consistency.{IsConsistent}

select-select :
    (p q : Port → Bool) (xs : List Port) → select p (select q xs) ≡ select (λ x. q x && p x) xs
select-select p q [] = refl
select-select p q (x ∷ xs) = ground (arith, select-select p q xs)

-- The rows with the id of one of `ps`.
abbrev has_id : List Port → Port → Bool
has_id ps x = any (λ (p : Port). p.id == x.id) ps

select-eq :
    (p q : Port → Bool) (xs : List Port) → ((x : Port) → p x ≡ q x) → select p xs ≡ select q xs
select-eq p q [] h = refl
select-eq p q (x ∷ xs) h = rw (h x) (rw (select-eq p q xs h))

delete_ports-select :
    (ps : List Port) (db : Db)
    → (delete_ports ps db).ports ≡ select (λ x. not (has_id ps x)) db.ports
unfolding delete_ports delete_port_in_tx
delete_ports-select [] db = select_all db.ports
  where
    select_all : (xs : List Port) → xs ≡ select (λ x. true) xs
    select_all [] = refl
    select_all (x ∷ xs) = ap (λ ys. x ∷ ys) (select_all xs)
delete_ports-select (p ∷ ps) db =
    delete_ports-select ps (delete_port_in_tx p.id p.listen_port db)
    ∙ select-select (λ x. not (has_id ps x)) (λ x. not (x.id == p.id)) db.ports
    ∙ select-eq _ _ db.ports (λ x. ground arith)

-- Where the rows have distinct ids, one of them is selected by id exactly if it is selected.
has_id-select :
    (test : Port → Bool) (xs : List Port) (x : Port)
    → any (clash x) xs ≡ false
    → has_id (select test xs) x ≡ false
has_id-select test [] x h = refl
has_id-select test (y ∷ ys) x h = ground (arith, has_id-select test ys x)

select-skip :
    (x : Port) (zs xs : List Port)
    → any (clash x) xs ≡ false
    → select (λ y. not (has_id (x ∷ zs) y)) xs ≡ select (λ y. not (has_id zs y)) xs
select-skip x zs [] h = refl
select-skip x zs (y ∷ ys) h = ground (arith, select-skip x zs ys)

select-has_id :
    (test : Port → Bool) (xs : List Port)
    → Apart clash xs
    → select (λ y. not (has_id (select test xs) y)) xs ≡ select (λ y. not (test y)) xs
select-has_id test [] h = refl
select-has_id test (x ∷ xs) h = elim (Bool-cases (test x)) [
  | inl e ↦ ground (arith, select-skip x (select test xs) xs h.0, select-has_id test xs h.1)
  | inr e ↦ ground (arith, has_id-select test xs x h.0, select-has_id test xs h.1)
]

-- The cleanup removes exactly the rows that have expired and belong to no customer and no service,
-- and leaves the others as they are, in a table whose rows are apart.
pub cleanup_expired_ports-exact :
    (now : ℕ) (db : Db)
    → IsKeyed db
    → (cleanup_expired_ports now db).ports ≡ select (λ p. not (is_removable now p)) db.ports
unfolding cleanup_expired_ports
cleanup_expired_ports-exact now db h =
    delete_ports-select (select (is_removable now) db.ports) db
    ∙ select-has_id (is_removable now) db.ports h.apart

module _ (m : Measure) (port lp : ℕ) where
  total_of-select :
      (ts : List Total)
      → total_of m port (select (λ (t : Total). not (t.listen_port == lp)) ts)
        ≡ (if port == lp then 0 else total_of m port ts)
  unfolding total_of
  total_of-select [] = ground arith
  total_of-select (t ∷ ts) = ground (arith, total_of-select ts)

  daily_sum-select :
      (ds : List Daily)
      → daily_sum m port (select (λ (d : Daily). not (d.listen_port == lp)) ds)
        ≡ (if port == lp then 0 else daily_sum m port ds)
  unfolding daily_sum
  daily_sum-select [] = ground arith
  daily_sum-select (d ∷ ds) = ground (arith, daily_sum-select ds)

-- Deleting a port's rows keeps the totals equal to the sums over the days.
pub delete_port-IsConsistent :
    (i lp : ℕ) (db : Db) → IsConsistent db → IsConsistent (delete_port_in_tx i lp db)
unfolding delete_port_in_tx
delete_port-IsConsistent i lp db h m port =
    ground
      (arith, total_of-select m port lp db.totals, daily_sum-select m port lp db.daily, h m port)

pub delete_ports-IsConsistent :
    (ps : List Port) (db : Db) → IsConsistent db → IsConsistent (delete_ports ps db)
unfolding delete_ports
delete_ports-IsConsistent [] db h = h
delete_ports-IsConsistent (p ∷ ps) db h =
    delete_ports-IsConsistent ps (delete_port_in_tx p.id p.listen_port db)
      (delete_port-IsConsistent p.id p.listen_port db h)
