-- ===== src/Upstream/NonceRing.antt =====
-- internal/upstream/client.go: the ring buffer of upstream nonces in getNonce and saveNonce.
pub mod Laws
use acme_gateway.Prelude.{
  ℕ, ◌+◌, ◌-◌, ◌%◌, String, Option, none, some, get_or, set, ◌==◌, ltb, if◌then◌else◌,
}
use acme_gateway.Upstream.Types.{Client, nonce_pool_size}

-- the cached branch of getNonce
unfoldable pub take_nonce : Client → Option (String × Client)
take_nonce c =
    if ltb 0 c.nonce_count
    then some (
      get_or c.nonces c.nonce_head "",
      record c {
        nonces = set c.nonces c.nonce_head "";
        nonce_head = (c.nonce_head + 1) % nonce_pool_size;
        nonce_count = c.nonce_count - 1;
      },
    )
    else none

unfoldable pub save_nonce : String → Client → Client
save_nonce n c =
    if n == ""
    then c
    else if ltb c.nonce_count nonce_pool_size
    then record c {
      nonces = set c.nonces c.nonce_tail n;
      nonce_tail = (c.nonce_tail + 1) % nonce_pool_size;
      nonce_count = c.nonce_count + 1;
    }
    else c
