-- ===== src/Ports/Unique.antt =====
-- The keys of `ports` under the mutations of app/state/ports.py and reset_port_traffic.
use xray_routing_panel.Prelude.{
  ℕ, ◌≡◌, refl, false, ◌&&◌, not, String, arith, eq_iff, ◌==◌, str_eq, any, Bool-cases, inl, inr,
  Result, ok, err, modify, pure, continue, ◌>>◌,
}
use xray_routing_panel.Prelude.Apart.{All-of_any}
use xray_routing_panel.Prelude.Keeps.{Keeps, Keeps-bind}
use xray_routing_panel.Database.{Db}
use xray_routing_panel.Database.Tables.{Port}
use xray_routing_panel.Ports.{same_text, conflicts, update_port_row}
use xray_routing_panel.Ports.Operations.{
  Draws, PortPayload, unique_tenant_token, unique_subscription_token, unique_tenant_username,
  create_port, require_port, listen_port_taken, update_port, toggle_port, delete_port,
  rotate_port_tenant_token, rotate_port_subscription_token, rotate_port_tenant_credentials,
  reset_port_traffic,
}
use xray_routing_panel.Ports.Keys.{IsKeyed, update_port_row-IsKeyed}
use xray_routing_panel.Ports.Kept.{
  unique_tenant_token-free, unique_subscription_token-free, unique_tenant_username-free,
  require_port-Keeps, create_port-Keeps, toggle_port-Keeps, delete_port-Keeps,
  reset_port_traffic-Keeps,
}

-- What an update writes in one column conflicts with no other row, if no row has it there.
module _ (i now : ℕ) (db : Db) (h : IsKeyed db) (t : String) where
  rotated_tenant_token :
      any (λ (p : Port). str_eq p.tenant_token t) db.ports ≡ false
      → IsKeyed (update_port_row i (λ p. record p { tenant_token = t; updated_at = now }) db)
  unfolding conflicts same_text
  rotated_tenant_token free =
      update_port_row-IsKeyed i _ (λ q. str_eq q.tenant_token t ≡ false) (λ p. refl)
        (λ p q k _ c. ground (arith, eq_iff t q.tenant_token, eq_iff q.tenant_token t)) db
        (All-of_any _ db.ports free) h

  rotated_subscription_token :
      any (λ (p : Port). str_eq p.subscription_token t) db.ports ≡ false
      → IsKeyed (update_port_row i (λ p. record p { subscription_token = t; updated_at = now }) db)
  unfolding conflicts same_text
  rotated_subscription_token free =
      update_port_row-IsKeyed i _ (λ q. str_eq q.subscription_token t ≡ false) (λ p. refl)
        (λ p q k _ c. ground (arith, eq_iff t q.subscription_token, eq_iff q.subscription_token t))
        db (All-of_any _ db.ports free) h

  rotated_username :
      (password : String)
      → any (λ (p : Port). str_eq p.tenant_username t) db.ports ≡ false
      → IsKeyed (
          update_port_row i
            (λ p. record p { tenant_username = t; tenant_password = password; updated_at = now })
            db)
  unfolding conflicts same_text
  rotated_username password free =
      update_port_row-IsKeyed i _ (λ q. str_eq q.tenant_username t ≡ false) (λ p. refl)
        (λ p q k _ c. ground (arith, eq_iff t q.tenant_username, eq_iff q.tenant_username t)) db
        (All-of_any _ db.ports free) h

-- A drawn text is written only if it is not taken.
write_drawn :
    {A : Type 0} (db : Db) (write : String → Db → Db) (result : String → A) (r : Result String)
    → IsKeyed db
    → ((t : String) → r ≡ ok t → IsKeyed (write t db))
    → IsKeyed (continue r (λ t. modify (write t) >> pure (result t)) db).1
write_drawn db write result (ok t) h kept = kept t refl
write_drawn db write result (err e) h kept = h

rotate_port_tenant_token-Keeps : (i : ℕ) (w : Draws) → Keeps IsKeyed (rotate_port_tenant_token i w)
unfolding rotate_port_tenant_token unique_tenant_token
rotate_port_tenant_token-Keeps i w = Keeps-bind (require_port i) _ (require_port-Keeps i) (λ _.
    record {
      at = λ db h.
          write_drawn db
            (λ t. update_port_row i (λ p. record p { tenant_token = t; updated_at = w.now }))
            (λ t. t) (unique_tenant_token w db).0 h
            (λ t e. rotated_tenant_token i w.now db h t (unique_tenant_token-free w db t e));
    })

rotate_port_subscription_token-Keeps :
    (i : ℕ) (w : Draws) → Keeps IsKeyed (rotate_port_subscription_token i w)
unfolding rotate_port_subscription_token unique_subscription_token
rotate_port_subscription_token-Keeps i w =
    Keeps-bind (require_port i) _ (require_port-Keeps i) (λ _. record {
      at = λ db h.
          write_drawn db
            (λ t. update_port_row i (λ p. record p { subscription_token = t; updated_at = w.now }))
            (λ t. t) (unique_subscription_token w db).0 h
            (λ t e.
              rotated_subscription_token i w.now db h t (unique_subscription_token-free w db t e));
    })

rotate_port_tenant_credentials-Keeps :
    (i : ℕ) (w : Draws) → Keeps IsKeyed (rotate_port_tenant_credentials i w)
unfolding rotate_port_tenant_credentials unique_tenant_username
rotate_port_tenant_credentials-Keeps i w =
    Keeps-bind (require_port i) _ (require_port-Keeps i) (λ _. record {
      at = λ db h.
          write_drawn {A = String × String} db
            (λ t. update_port_row i (λ p. record p {
              tenant_username = t;
              tenant_password = w.tenant_password;
              updated_at = w.now;
            }))
            (λ t. (t, w.tenant_password)) (unique_tenant_username w db).0 h
            (λ t e.
              rotated_username i w.now db h t w.tenant_password
                (unique_tenant_username-free w db t e));
    })

moved_port-IsKeyed :
    (i now : ℕ) (payload : PortPayload) (db : Db)
    → listen_port_taken i payload.listen_port db ≡ false
    → IsKeyed db
    → IsKeyed (
        update_port_row i
          (λ p. record p {
            listen_port = payload.listen_port;
            upstream_host = payload.upstream_host;
            upstream_port = payload.upstream_port;
            expires_at = payload.expires_at;
            traffic_limit_bytes = payload.traffic_limit_bytes;
            note = payload.note;
            updated_at = now;
          })
          db)
unfolding conflicts listen_port_taken
moved_port-IsKeyed i now payload db free h =
    update_port_row-IsKeyed i _
      (λ q. (not (q.id == i) && q.listen_port == payload.listen_port) ≡ false) (λ p. refl)
      (λ p q k n c. ground arith) db (All-of_any _ db.ports free) h

update_port-Keeps :
    (i : ℕ) (payload : PortPayload) (now : ℕ) → Keeps IsKeyed (update_port i payload now)
unfolding update_port
update_port-Keeps i payload now = Keeps-bind (require_port i) _ (require_port-Keeps i) (λ _.
    record {
      at = λ db h. elim (Bool-cases (listen_port_taken i payload.listen_port db)) [
        | inl e ↦ rw e h
        | inr e ↦ rw e (moved_port-IsKeyed i now payload db e h)
      ];
    })

-- The mutations of a port, as one type.
pub data Mutation : Type 0 where
  create : PortPayload → Draws → Mutation
  edit : ℕ → PortPayload → ℕ → Mutation
  toggle reset_traffic : ℕ → ℕ → Mutation
  remove : ℕ → Mutation
  rotate_tenant_token rotate_subscription_token rotate_credentials : ℕ → Draws → Mutation

abbrev pub state_after : Mutation → Db → Db
state_after (create payload w) db = (create_port payload w db).1
state_after (edit i payload now) db = (update_port i payload now db).1
state_after (toggle i now) db = (toggle_port i now db).1
state_after (reset_traffic i now) db = (reset_port_traffic i now db).1
state_after (remove i) db = (delete_port i db).1
state_after (rotate_tenant_token i w) db = (rotate_port_tenant_token i w db).1
state_after (rotate_subscription_token i w) db = (rotate_port_subscription_token i w db).1
state_after (rotate_credentials i w) db = (rotate_port_tenant_credentials i w db).1

-- Every mutation of a port, returning or raising, keeps the keys of the table: ids below the next
-- one, and no two rows with one id, one listening port, or one non-empty token or user name.
pub mutation-IsKeyed : (m : Mutation) (db : Db) → IsKeyed db → IsKeyed (state_after m db)
mutation-IsKeyed (create payload w) = (create_port-Keeps payload w).at
mutation-IsKeyed (edit i payload now) = (update_port-Keeps i payload now).at
mutation-IsKeyed (toggle i now) = (toggle_port-Keeps i now).at
mutation-IsKeyed (reset_traffic i now) = (reset_port_traffic-Keeps i now).at
mutation-IsKeyed (remove i) = (delete_port-Keeps i).at
mutation-IsKeyed (rotate_tenant_token i w) = (rotate_port_tenant_token-Keeps i w).at
mutation-IsKeyed (rotate_subscription_token i w) = (rotate_port_subscription_token-Keeps i w).at
mutation-IsKeyed (rotate_credentials i w) = (rotate_port_tenant_credentials-Keeps i w).at
