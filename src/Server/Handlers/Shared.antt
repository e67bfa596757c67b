-- ===== src/Server/Handlers/Shared.antt =====
-- What the handlers' common steps keep of the log, and the nonce of a response.
use acme_gateway.Prelude.{String, ◌≡◌, refl, List, Option, none, some}
use acme_gateway.Server.Requests.{ParsedJws, HttpRequest, Checked, accepted, refused}
use acme_gateway.Server.World.{Gateway, World, Sent, Act}
use acme_gateway.Server.World.Sends.{Extends}
use acme_gateway.Server.World.Keeps.{IsQuiet, quiet_rules}
use acme_gateway.Server.Handlers.{
  Response, attach_nonce, serve, finished, or_first, validate_request, verify_request,
}

module _ (g : Gateway) where
  pub validate_request-IsQuiet : (r : HttpRequest) → IsQuiet (validate_request g r)
  unfolding validate_request
  validate_request-IsQuiet r = search quiet_rules depth 20

  pub verify_request-IsQuiet : (p : ParsedJws) → IsQuiet (verify_request g p)
  unfolding verify_request
  verify_request-IsQuiet p = search quiet_rules depth 20

  finished-Extends :
      {P : Sent → Type 0} (base : List Sent) (first : Option String) (c : Checked Response)
      (w : World)
      → Extends P base w.sent
      → Extends P base (finished g first (c, w)).1.sent
  unfolding attach_nonce
  finished-Extends base first (accepted r) w e = e
  finished-Extends base first (refused x) w e = e

  -- A response sends what its handler does.
  pub serve-Extends :
      {P : Sent → Type 0} (h : Act Response) (w : World)
      → Extends P (attach_nonce g w).1.sent (h (attach_nonce g w).1).1.sent
      → Extends P w.sent (serve g h w).1.sent
  unfolding serve attach_nonce
  serve-Extends h w e =
      let v = attach_nonce g w in finished-Extends w.sent v.0 (h v.1).0 (h v.1).1 e

  finished-nonce :
      (first : Option String) (v : String) (c : Checked Response) (w : World)
      → first ≡ some v
      → (n : String) × ((finished g first (c, w)).0.replay_nonce ≡ some n)
  finished-nonce first v (accepted r) w h = (v, h)
  finished-nonce first v (refused e) w h = replaced (attach_nonce g w).0
    where
      replaced : (again : Option String) → (n : String) × (or_first g first again ≡ some n)
      replaced none = (v, h)
      replaced (some n) = (n, refl)

  -- A response keeps the nonce that its handler's headers have set, or has a later one.
  pub serve-nonce :
      (h : Act Response) (w : World) (v : String)
      → (attach_nonce g w).0 ≡ some v
      → (n : String) × ((serve g h w).0.replay_nonce ≡ some n)
  unfolding serve
  serve-nonce h w v first =
      let a = attach_nonce g w in finished-nonce a.0 v (h a.1).0 (h a.1).1 first
