-- ===== src/Store/Orders/Laws.antt =====
-- Orders: what is read back after a save or a status update.
use acme_gateway.Prelude.{
  ℕ, String, ◌≡◌, refl, Option, none, some, ok, err, ◌==◌, eq_iff, arith, find_row, find_row_sound,
  Option-cases, inl, inr, is_some, if◌then◌else◌, update, ◌<>◌,
}
use acme_gateway.Prelude.Tables.{find_row-put, find_row-update}
use acme_gateway.Model.{Order}
use acme_gateway.Store.Db.{Db, whole_seconds}
use acme_gateway.Store.Orders.{has_id, save_order, get_order, update_order_status}

-- The order as the database keeps it: with whole seconds.
abbrev pub stored : Order → Order
stored o = record o {
  created_at = whole_seconds o.created_at;
  updated_at = whole_seconds o.updated_at;
}

abbrev order_key : Order → String
order_key o = o.id

-- After a successful save, the order's id reads back as that order, up to fractions of a second, and
-- every other id reads as before.
pub get_order-save_order :
    (failure : Option String) (o : Order) (db : Db)
    → (save_order failure o db).0 ≡ ok tt
    → (id : String)
    → get_order none id (save_order failure o db).1
      ≡ (if o.id == id then ok (some (stored o)) else get_order none id db)
unfolding save_order get_order
get_order-save_order (some e) o db h id = cc
get_order-save_order none o db h id = ground (arith, find_row-put order_key id (stored o) db.orders)

-- The row of an id after its status is set.
abbrev pub with_status : ℕ → String → Option Order → Option Order
with_status now status none = none
with_status now status (some o) =
    some (record o { status = status; updated_at = whole_seconds now })

-- On a working database a status update fails exactly when the order is missing; otherwise that
-- order has the new status and time and keeps its other fields, and every other order is unchanged.
pub get_order-update_order_status :
    (now : ℕ) (id status j : String) (db : Db)
    → ((update_order_status none now id status db).0 ≡ (
        if is_some (find_row (has_id id) db.orders)
        then ok tt
        else err ("order " <> id <> " not found")))
      × (get_order none j (update_order_status none now id status db).1 ≡ (
          if j == id
          then ok (with_status now status (find_row (has_id id) db.orders))
          else get_order none j db))
unfolding update_order_status get_order
get_order-update_order_status now id status j db = (
  ground arith,
  elim (Option-cases (find_row (has_id j) db.orders)) [
    | inl e ↦ ground (arith, eq_iff j id, updated j)
    | inr (o, e) ↦
        ground (arith, eq_iff j id, eq_iff o.id j, updated j, find_row_sound (has_id j) db.orders e)
  ],
)
  where
    updated :
        (j : String)
        → find_row (has_id j) (
            update
              (has_id id)
              (λ o. record o { status = status; updated_at = whole_seconds now })
              db.orders)
          ≡ elim (find_row (has_id j) db.orders) [
            | none ↦ none
            | some o ↦ some (
                if o.id == id
                then record o { status = status; updated_at = whole_seconds now }
                else o)
          ]
    updated j =
        find_row-update order_key (has_id id)
          (λ o. record o { status = status; updated_at = whole_seconds now }) (λ o. refl) j
          db.orders
