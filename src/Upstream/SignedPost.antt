-- ===== src/Upstream/SignedPost.antt =====
-- internal/upstream/client.go: Directory, getNonce, signedPostWithHeaders and parseACMEError. The
-- network, JSON and the JWS signer are parameters; each exchange is numbered by its attempt.
pub mod Identity
pub mod Laws
use acme_gateway.Prelude.{
  ℕ, zero, suc, ◌+◌, ◌-◌, String, Bool, true, false, ◌&&◌, List, [], ◌∷◌, ◌++◌, Option, none, some,
  Result, ok, err, ◌==◌, eqb, if◌then◌else◌, ◌<>◌,
}
use acme_gateway.Upstream.Types.{AcmeDirectory, AcmeError, Client}
use acme_gateway.Upstream.NonceRing.{take_nonce, save_nonce}

-- A response; `problem` is the body read as an ACME problem document, if it is one.
pub record Response : Type 0 where
  pub status : ℕ
  pub replay_nonce : String
  pub location : String
  pub link : List String
  pub body : String
  pub problem : Option AcmeError

abbrev pub bad_nonce_type : String
bad_nonce_type = "urn:ietf:params:acme:error:badNonce"

abbrev pub max_attempts : ℕ
max_attempts = 3

abbrev has_bad_nonce_type : Option AcmeError → Bool
has_bad_nonce_type none = false
has_bad_nonce_type (some ae) = ae.type == bad_nonce_type

-- The response makes the client try again.
abbrev pub is_bad_nonce : Response → Bool
is_bad_nonce resp = eqb resp.status 400 && has_bad_nonce_type resp.problem

pub record Network : Type 0 where
  -- GET of the directory, with its status and decoding checked
  pub get_directory : ℕ → String → Result AcmeDirectory
  -- HEAD of newNonce: the Replay-Nonce header, empty if absent
  pub head_nonce : ℕ → String → Result String
  -- the signer: nonce, account URL, URL and payload
  pub sign : String → String → String → String → String → Result String
  -- POST of a body, with extra headers
  pub post : ℕ → String → String → List (String × String) → Result Response

module _ (net : Network) where
  unfoldable pub directory : ℕ → Client → Result AcmeDirectory × Client
  directory i c = elim c.directory [
    | some dir ↦ (ok dir, c)
    | none ↦ elim (net.get_directory i c.directory_url) [
      | ok dir ↦ (ok dir, record c { directory = some dir })
      | err e ↦ (err e, c)
    ]
  ]

  abbrev fresh_nonce : ℕ → Result AcmeDirectory × Client → Result String × Client
  fresh_nonce i (err e, c) = (err e, c)
  fresh_nonce i (ok dir, c) = elim (net.head_nonce i dir.new_nonce) [
    | err e ↦ (err ("fetching nonce: " <> e), c)
    | ok n ↦ if n == "" then (err "upstream returned no Replay-Nonce", c) else (ok n, c)
  ]

  unfoldable pub get_nonce : ℕ → Client → Result String × Client
  unfolding directory
  get_nonce i c = elim (take_nonce c) [
    | some (n, c') ↦ (ok n, c')
    | none ↦ fresh_nonce i (directory i c)
  ]

  module _ (url payload : String) (headers : List (String × String)) where
    -- One round of the loop: a final result, or none for another round; and what was sent, if it
    -- came to that: the nonce and the response.
    pub record Round : Type 0 where
      pub result : Option (Result Response)
      pub client : Client
      pub sent : List (String × Response)

    abbrev answer : Client → String → Result Response → Round
    answer c n (err e) = record { result = some (err e); client = c; sent = [] }
    answer c n (ok resp) = record {
      result = if is_bad_nonce resp then none else some (ok resp);
      client = save_nonce resp.replay_nonce c;
      sent = (n, resp) ∷ [];
    }

    abbrev post_signed : ℕ → Client → String → Result String → Round
    post_signed i c n (err e) = record { result = some (err e); client = c; sent = [] }
    post_signed i c n (ok body) = answer c n (net.post i url body headers)

    abbrev send : ℕ → Result String × Client → Round
    send i (err e, c) = record { result = some (err e); client = c; sent = [] }
    send i (ok n, c) = post_signed i c n (net.sign c.key n c.account_url url payload)

    unfoldable pub round : ℕ → Client → Round
    round i c = send i (get_nonce i c)

    -- The loop from attempt `i`, with the attempts that are left.
    unfoldable pub attempts : ℕ → ℕ → Client → Result Response × Client × List (String × Response)
    attempts zero i c = (err "upstream rejected nonce after 3 attempts", c, [])
    attempts (suc left) i c =
        let r = round i c in
        elim r.result [
          | some result ↦ (result, r.client, r.sent)
          | none ↦
              let (result, c', sent) = attempts left (i + 1) r.client in
              (result, c', r.sent ++ sent)
        ]

    unfoldable pub signed_post_with_headers :
        Client → Result Response × Client × List (String × Response)
    signed_post_with_headers c = attempts max_attempts 0 c

  unfoldable pub signed_post :
      String → String → Client → Result Response × Client × List (String × Response)
  signed_post url payload c = signed_post_with_headers url payload [] c

-- parseACMEError: the problem with the HTTP status put in, or none for another error
unfoldable pub parse_acme_error : Response → Option AcmeError
parse_acme_error resp = elim resp.problem [
  | none ↦ none
  | some ae ↦ some (record ae { status = resp.status })
]
