-- ===== src/Server/Handlers/Finalize/Rejection.antt =====
-- An order whose finalization the upstream has definitively rejected is invalid from then on.
use acme_gateway.Prelude.{ℕ, String, true, ◌≡◌, refl, ◌∙◌, none, some, ok, eq_refl, find_row}
use acme_gateway.Model.{Order, order_status_invalid}
use acme_gateway.Store.Db.{Db, whole_seconds}
use acme_gateway.Store.Orders.{get_order, has_id, update_order_status}
use acme_gateway.Store.Orders.Laws.{get_order-update_order_status, with_status}
use acme_gateway.Upstream.Types.{Called, CallError}
use acme_gateway.Server.Errors.{relay_upstream_error, is_definitive_rejection}
use acme_gateway.Server.Requests.{refused}
use acme_gateway.Server.World.{Gateway, World, ◌>>=◌}
use acme_gateway.Server.Handlers.Orders.{set_status}
use acme_gateway.Server.Handlers.Finalize.{finalized}

updated :
    (now : ℕ) (id : String) (db : Db) (o : Order)
    → get_order none id db ≡ ok (some o)
    → get_order none id (update_order_status none now id order_status_invalid db).1
      ≡ ok (some (record o { status = order_status_invalid; updated_at = whole_seconds now }))
unfolding get_order
updated now id db o h =
    let found : find_row (has_id id) db.orders ≡ some o = cc in
    (get_order-update_order_status now id order_status_invalid id db).1
    ∙ rw (eq_refl id, found, with_status) refl

module _ (g : Gateway) where
  -- When the upstream rejects a finalization for good (a 4xx problem that is not transient) and the
  -- database works, the client gets the upstream's problem, and the stored order is invalid
  -- afterwards, with its other fields kept.
  pub finalized-rejected :
      (o x : Order) (e : CallError) (w : World)
      → is_definitive_rejection (relay_upstream_error "finalizing upstream order" e).status ≡ true
      → g.fault (ℕ.suc w.tick) ≡ none
      → get_order none o.id w.db ≡ ok (some x)
      → ((finalized g o (Called.broken e) w).0
          ≡ refused (relay_upstream_error "finalizing upstream order" e))
        × (get_order none o.id (finalized g o (Called.broken e) w).1.db
            ≡ ok (
                some (record x {
                  status = order_status_invalid;
                  updated_at = whole_seconds (g.now w.tick);
                })))
  unfolding finalized set_status ◌>>=◌
  finalized-rejected o x e w definitive working there =
      (rw definitive refl, rw (definitive, working) (updated (g.now w.tick) o.id w.db x there))
