-- ===== src/Apply/Policy.antt =====
-- The three places that decide whether a port runs: status_payload, the automatic stop and the list
-- that is rendered (app/helpers.py, app/xray/apply.py).
use xray_routing_panel.Prelude.{
  ℕ, ◌≤◌, ◌≡◌, refl, ◌∙◌, Bool, false, ◌&&◌, ◌||◌, List, [], ◌∷◌, map, arith, ◌==◌, any, select,
  update, All,
}
use xray_routing_panel.Database.{Db}
use xray_routing_panel.Database.Tables.{Port, Total}
use xray_routing_panel.Ports.Status.{port_status, is_active}
use xray_routing_panel.Apply.{
  is_stopped, StopClocks, disable_auto_stopped_ports, insert_sorted, sort, is_rendered,
  render_panel_ports,
}

abbrev pub elem : ℕ → List ℕ → Bool
elem n = any (λ m. m == n)

elem-insert_sorted : (n m : ℕ) (ms : List ℕ) → elem n (insert_sorted m ms) ≡ (m == n || elem n ms)
unfolding insert_sorted
elem-insert_sorted n m [] = refl
elem-insert_sorted n m (k ∷ ks) = ground (arith, elem-insert_sorted n m ks)

elem-sort : (n : ℕ) (ms : List ℕ) → elem n (sort ms) ≡ elem n ms
unfolding sort
elem-sort n [] = refl
elem-sort n (m ∷ ms) = elem-insert_sorted n m (sort ms) ∙ ground (arith, elem-sort n ms)

-- The numbers rise, or stay.
abbrev pub IsSorted : List ℕ → Type 0
IsSorted [] = Unit
IsSorted (n ∷ []) = Unit
IsSorted (n ∷ (m ∷ ms)) = (n ≤ m) × IsSorted (m ∷ ms)

insert_sorted-IsSorted : (n : ℕ) (ms : List ℕ) → IsSorted ms → IsSorted (insert_sorted n ms)
unfolding insert_sorted
insert_sorted-IsSorted n [] h = tt
insert_sorted-IsSorted n (m ∷ []) h = ground arith
insert_sorted-IsSorted n (m ∷ (k ∷ ks)) h = ground (arith, insert_sorted-IsSorted n (k ∷ ks) h.1)

sort-IsSorted : (ms : List ℕ) → IsSorted (sort ms)
unfolding sort
sort-IsSorted [] = tt
sort-IsSorted (m ∷ ms) = insert_sorted-IsSorted m (sort ms) (sort-IsSorted ms)

is_rendered-eq-is_active :
    (now : ℕ) (totals : List Total) (p : Port)
    → is_rendered now totals p ≡ is_active (port_status now totals p)
unfolding port_status
is_rendered-eq-is_active now totals p = ground arith

elem-rendered :
    (now n : ℕ) (totals : List Total) (ps : List Port)
    → elem n (map (λ (p : Port). p.listen_port) (select (is_rendered now totals) ps))
      ≡ any (λ (p : Port). is_active (port_status now totals p) && p.listen_port == n) ps
elem-rendered now n totals [] = refl
elem-rendered now n totals (p ∷ ps) =
    ground (arith, is_rendered-eq-is_active now totals p, elem-rendered now n totals ps)

-- The rendered list is sorted, and it holds a port's number exactly if a row with that number has
-- the status "active" at that time.
pub render_panel_ports-active :
    (now : ℕ) (db : Db) (n : ℕ)
    → IsSorted (render_panel_ports now db)
      × (elem n (render_panel_ports now db)
          ≡ any
              (λ (p : Port). is_active (port_status now db.totals p) && p.listen_port == n)
              db.ports)
unfolding render_panel_ports
render_panel_ports-active now db n =
    let numbers = map (λ (p : Port). p.listen_port) (select (is_rendered now db.totals) db.ports) in
    (sort-IsSorted numbers, elem-sort n numbers ∙ elem-rendered now n db.totals db.ports)

-- Every row is enabled exactly if its status is "active".
abbrev pub AllSettled : ℕ → List Total → List Port → Type 0
AllSettled now totals = All (λ (p : Port). p.enabled ≡ is_active (port_status now totals p))

update-AllSettled :
    (now at : ℕ) (totals : List Total) (ps : List Port)
    → AllSettled now totals
        (update (is_stopped now totals) (λ p. record p { enabled = false; updated_at = at }) ps)
unfolding port_status
update-AllSettled now at totals [] = tt
update-AllSettled now at totals (p ∷ ps) = (ground arith, update-AllSettled now at totals ps)

-- After the automatic stop a row is enabled exactly if it has the status "active" at that time.
pub disable_auto_stopped_ports-AllSettled :
    (w : StopClocks) (db : Db)
    → let db' = (disable_auto_stopped_ports w db).1 in AllSettled w.now db'.totals db'.ports
unfolding disable_auto_stopped_ports
disable_auto_stopped_ports-AllSettled w db = update-AllSettled w.now w.now _ _
