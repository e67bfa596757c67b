-- ===== src/Store/Resources/Laws.antt =====
-- The mapping of upstream URLs to gateway ids, scoped to an order.
use acme_gateway.Prelude.{
  Bool-cases, ap, String, true, ◌≡◌, ◌≢◌, refl, Option, none, some, ok, ◌==◌, ◌&&◌, eq_iff, eq_refl,
  arith, List, [], ◌∷◌, ◌++◌, find_row, is_some, find_row-append_none, if◌then◌else◌, Option-cases,
  inl, inr, ◌⊎◌,
}
use acme_gateway.Model.{ResourceMap}
use acme_gateway.Store.Db.{Db}
use acme_gateway.Store.Resources.{
  has_gateway_id, at_url_of_order, conflicts, save_resource, get_resource_by_upstream_url_and_order,
}

-- The row that answers for an upstream URL of an order.
abbrev pub mapped : String → String → Db → Option ResourceMap
mapped url order_id db = find_row (at_url_of_order url order_id) db.resource_map

-- The row that stands for `r` after it is saved: the one that was there, or `r` itself.
abbrev pub settled : ResourceMap → Option ResourceMap → ResourceMap
settled r none = record r { cert_fingerprint = "" }
settled r (some row) = row

conflicts-none :
    (r : ResourceMap) (rows : List ResourceMap)
    → find_row (conflicts r) rows ≡ none
    → (find_row (at_url_of_order r.upstream_url r.order_id) rows ≡ none)
      × (find_row (has_gateway_id r.gateway_id) rows ≡ none)
conflicts-none r [] h = (refl, refl)
conflicts-none r (x ∷ rows) h = ground (arith, conflicts-none r rows)

conflicts-some :
    (r : ResourceMap) (rows : List ResourceMap)
    → find_row (has_gateway_id r.gateway_id) rows ≡ none
    → is_some (find_row (conflicts r) rows) ≡ true
    → is_some (find_row (at_url_of_order r.upstream_url r.order_id) rows) ≡ true
conflicts-some r [] a h = h
conflicts-some r (x ∷ rows) a h = ground (arith, conflicts-some r rows)

other_url :
    (r : ResourceMap) (url order_id : String) (rows : List ResourceMap)
    → (r.upstream_url ≢ url) ⊎ (r.order_id ≢ order_id)
    → find_row (at_url_of_order url order_id) (rows ++ record r { cert_fingerprint = "" } ∷ [])
      ≡ find_row (at_url_of_order url order_id) rows
other_url r url order_id [] h =
    ground (arith, eq_iff r.upstream_url url, eq_iff r.order_id order_id)
other_url r url order_id (x ∷ rows) h = ground (arith, other_url r url order_id rows h)

same_url :
    (r : ResourceMap) (db : Db)
    → find_row (has_gateway_id r.gateway_id) db.resource_map ≡ none
    → (save_resource none r db).0 ≡ ok tt
    → mapped r.upstream_url r.order_id (save_resource none r db).1
      ≡ some (settled r (mapped r.upstream_url r.order_id db))
unfolding save_resource
same_url r db fresh h = elim (Option-cases (find_row (conflicts r) db.resource_map)) [
  | inl e ↦ ground (
    arith,
    conflicts-none r db.resource_map e,
    eq_refl r.upstream_url,
    eq_refl r.order_id,
    find_row-append_none (at_url_of_order r.upstream_url r.order_id) db.resource_map
        (record r { cert_fingerprint = "" } ∷ []),
  )
  | inr (row, e) ↦ ground (arith, conflicts-some r db.resource_map fresh)
]

apart_url :
    (r : ResourceMap) (url order_id : String) (db : Db)
    → (r.upstream_url ≢ url) ⊎ (r.order_id ≢ order_id)
    → mapped url order_id (save_resource none r db).1 ≡ mapped url order_id db
unfolding save_resource
apart_url r url order_id db apart = elim (Option-cases (find_row (conflicts r) db.resource_map)) [
  | inl e ↦ ground (arith, other_url r url order_id db.resource_map apart)
  | inr (row, e) ↦ rw e refl
]

-- After a mapping under a fresh gateway id is saved, its upstream URL and order resolve to the row
-- that was there before, so that its gateway id is preserved, or else to the new row; every other
-- pair of a URL and an order resolves as before.
pub get-save_resource :
    (r : ResourceMap) (db : Db)
    → find_row (has_gateway_id r.gateway_id) db.resource_map ≡ none
    → (save_resource none r db).0 ≡ ok tt
    → (url order_id : String)
    → get_resource_by_upstream_url_and_order none url order_id (save_resource none r db).1
      ≡ ok (
          if (r.upstream_url == url) && (r.order_id == order_id)
          then some (settled r (mapped url order_id db))
          else mapped url order_id db)
unfolding get_resource_by_upstream_url_and_order
get-save_resource r db fresh h url order_id = elim (Bool-cases (r.upstream_url == url)) [
  | inr e ↦
      rw e
        (ap ok (apart_url r url order_id db (inl (λ p. ground (arith, eq_iff r.upstream_url url)))))
  | inl e ↦ elim (Bool-cases (r.order_id == order_id)) [
    | inr k ↦
        rw (e, k)
          (ap ok
            (apart_url r url order_id db (inr (λ p. ground (arith, eq_iff r.order_id order_id)))))
    | inl k ↦
        rw (e, k, ← (eq_iff r.upstream_url url).0 e, ← (eq_iff r.order_id order_id).0 k)
          (ap ok (same_url r db fresh h))
  ]
]
