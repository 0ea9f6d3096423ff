-- ===== src/Ports/Kept.antt =====
-- The calls of `PortsService` and of reset_port_traffic that write no key of another row.
use xray_routing_panel.Prelude.{
  ℕ, zero, suc, ◌+◌, ◌≡◌, refl, Bool, false, String, arith, str_eq, any, Bool-cases, inl, inr, ok,
  modify,
}
use xray_routing_panel.Prelude.Apart.{All-true}
use xray_routing_panel.Prelude.Keeps.{Keeps, Keeps-modify, keeps_rules}
use xray_routing_panel.Database.{Db}
use xray_routing_panel.Database.Tables.{Port}
use xray_routing_panel.Ports.{
  conflicts, draw_unique, update_port_row, insert_port, delete_port_in_tx,
}
use xray_routing_panel.Traffic.{reset_port_usage}
use xray_routing_panel.Ports.Operations.{
  Draws, PortPayload, unique_tenant_token, unique_subscription_token, unique_tenant_username,
  create_port, require_port, toggle_port, delete_port, reset_port_traffic,
}
use xray_routing_panel.Ports.Keys.{
  IsKeyed, insert_port-IsKeyed, delete_port-IsKeyed, update_port_row-IsKeyed,
}

-- What 16 draws return is not taken.
pub draw_unique-free :
    (taken : String → Bool) (message : String) (draw : ℕ → String) (i k : ℕ) (t : String)
    → draw_unique taken message draw i k ≡ ok t
    → taken t ≡ false
unfolding draw_unique
draw_unique-free taken message draw i zero t h = cc
draw_unique-free taken message draw i (suc k) t h = elim (Bool-cases (taken (draw i))) [
  | inl e ↦ draw_unique-free taken message draw (i + 1) k t (rw e at h)
  | inr e ↦ let q : draw i ≡ t = cc (rw e at h) in rw (← q) e
]

pub unique_tenant_token-free :
    (w : Draws) (db : Db) (t : String)
    → (unique_tenant_token w db).0 ≡ ok t
    → any (λ (p : Port). str_eq p.tenant_token t) db.ports ≡ false
unfolding unique_tenant_token
unique_tenant_token-free w db t =
    draw_unique-free (λ token. any (λ (p : Port). str_eq p.tenant_token token) db.ports)
      "无法为 tenant_token 生成唯一 token。" w.tenant_token 0 16 t

pub unique_subscription_token-free :
    (w : Draws) (db : Db) (t : String)
    → (unique_subscription_token w db).0 ≡ ok t
    → any (λ (p : Port). str_eq p.subscription_token t) db.ports ≡ false
unfolding unique_subscription_token
unique_subscription_token-free w db t =
    draw_unique-free (λ token. any (λ (p : Port). str_eq p.subscription_token token) db.ports)
      "无法为 subscription_token 生成唯一 token。" w.subscription_token 0 16 t

pub unique_tenant_username-free :
    (w : Draws) (db : Db) (t : String)
    → (unique_tenant_username w db).0 ≡ ok t
    → any (λ (p : Port). str_eq p.tenant_username t) db.ports ≡ false
unfolding unique_tenant_username
unique_tenant_username-free w db t =
    draw_unique-free (λ token. any (λ (p : Port). str_eq p.tenant_username token) db.ports)
      "无法生成唯一租户用户名。" w.tenant_username 0 16 t

pub require_port-Keeps : (i : ℕ) → Keeps IsKeyed (require_port i)
unfolding require_port
require_port-Keeps i = record { at = λ s h. ground (arith, h) }

pub tenant_token-Keeps : (w : Draws) → Keeps IsKeyed (unique_tenant_token w)
unfolding unique_tenant_token
tenant_token-Keeps w = record { at = λ s h. h }

pub subscription_token-Keeps : (w : Draws) → Keeps IsKeyed (unique_subscription_token w)
unfolding unique_subscription_token
subscription_token-Keeps w = record { at = λ s h. h }

pub tenant_username-Keeps : (w : Draws) → Keeps IsKeyed (unique_tenant_username w)
unfolding unique_tenant_username
tenant_username-Keeps w = record { at = λ s h. h }

pub insert_port-Keeps : (p : Port) → Keeps IsKeyed (insert_port p)
insert_port-Keeps p = record { at = insert_port-IsKeyed p }

pub create_port-Keeps : (payload : PortPayload) (w : Draws) → Keeps IsKeyed (create_port payload w)
unfolding create_port
create_port-Keeps payload w = search (
  keeps_rules, tenant_token-Keeps, subscription_token-Keeps, tenant_username-Keeps,
  insert_port-Keeps,
)

-- The columns of the keys stay.
pub update_rest-IsKeyed :
    (i : ℕ) (f : Port → Port)
    → ((p : Port) → (f p).id ≡ p.id)
    → ((p q : Port) → conflicts (f p) q ≡ conflicts p q)
    → (db : Db) → IsKeyed db
    → IsKeyed (update_port_row i f db)
update_rest-IsKeyed i f id same db h =
    update_port_row-IsKeyed i f (λ _. Unit {0}) id (λ p q _ _ c. rw (same p q) c) db
      (All-true db.ports) h

pub enable_row-Keeps :
    (i now : ℕ) (b : Bool)
    → Keeps IsKeyed (modify (update_port_row i (λ p. record p { enabled = b; updated_at = now })))
unfolding conflicts
enable_row-Keeps i now b = Keeps-modify _ (update_rest-IsKeyed i _ (λ p. refl) (λ p q. refl))

pub delete_row-Keeps : (i n : ℕ) → Keeps IsKeyed (modify (delete_port_in_tx i n))
delete_row-Keeps i n = Keeps-modify _ (delete_port-IsKeyed i n)

pub reset_usage-Keeps : (n : ℕ) → Keeps IsKeyed (modify (reset_port_usage n))
unfolding reset_port_usage
reset_usage-Keeps n = Keeps-modify _ (λ db h. record { apart = h.apart; below = h.below })

ruleset row_rules =
    (keeps_rules, require_port-Keeps, enable_row-Keeps, delete_row-Keeps, reset_usage-Keeps)

pub toggle_port-Keeps : (i now : ℕ) → Keeps IsKeyed (toggle_port i now)
unfolding toggle_port
toggle_port-Keeps i now = search row_rules

pub delete_port-Keeps : (i : ℕ) → Keeps IsKeyed (delete_port i)
unfolding delete_port
delete_port-Keeps i = search row_rules

pub reset_port_traffic-Keeps : (i now : ℕ) → Keeps IsKeyed (reset_port_traffic i now)
unfolding reset_port_traffic
reset_port_traffic-Keeps i now = search row_rules
