-- ===== src/Upstream/SignedPost/Identity.antt =====
-- Sending requests changes neither the key nor the account URL of a client.
use acme_gateway.Prelude.{
  ℕ, zero, suc, ◌+◌, String, ◌≡◌, refl, ◌∙◌, List, [], some, Result, ok, err, arith, Option-cases,
  inl, inr,
}
use acme_gateway.Upstream.Types.{AcmeDirectory, Client}
use acme_gateway.Upstream.NonceRing.{take_nonce, save_nonce}
use acme_gateway.Upstream.SignedPost.{
  Response, Network, Round, directory, get_nonce, fresh_nonce, send, post_signed, answer, round,
  attempts, signed_post_with_headers, signed_post,
}

pub record SameIdentity (a b : Client) : Type 0 where
  pub key : a.key ≡ b.key
  pub account_url : a.account_url ≡ b.account_url

pub SameIdentity-refl : (c : Client) → SameIdentity c c
SameIdentity-refl c = record { key = refl; account_url = refl }

pub SameIdentity-trans : {a b c : Client} → SameIdentity a b → SameIdentity b c → SameIdentity a c
SameIdentity-trans p q = record { key = p.key ∙ q.key; account_url = p.account_url ∙ q.account_url }

save_nonce-same : (n : String) (c : Client) → SameIdentity (save_nonce n c) c
unfolding save_nonce
save_nonce-same n c = record { key = ground arith; account_url = ground arith }

take_nonce-same : (c c' : Client) (n : String) → take_nonce c ≡ some (n, c') → SameIdentity c' c
unfolding take_nonce
take_nonce-same c c' n e = record { key = ground arith; account_url = ground arith }

module _ (net : Network) where
  pub directory-same : (i : ℕ) (c : Client) → SameIdentity (directory net i c).1 c
  unfolding directory
  directory-same i c = record { key = ground arith; account_url = ground arith }

  fresh_nonce-same :
      (i : ℕ) (r : Result AcmeDirectory × Client) → SameIdentity (fresh_nonce net i r).1 r.1
  fresh_nonce-same i (err e, c) = SameIdentity-refl c
  fresh_nonce-same i (ok dir, c) = record { key = ground arith; account_url = ground arith }

  get_nonce-same : (i : ℕ) (c : Client) → SameIdentity (get_nonce net i c).1 c
  unfolding get_nonce directory
  get_nonce-same i c = elim (Option-cases (take_nonce c)) [
    | inl e ↦
        rw (e, get_nonce)
          (SameIdentity-trans (fresh_nonce-same i (directory net i c)) (directory-same i c))
    | inr ((n, c'), e) ↦ rw (e, get_nonce) (take_nonce-same c c' n e)
  ]

  module _ (url payload : String) (headers : List (String × String)) where
    answer-same :
        (c : Client) (n : String) (r : Result Response)
        → SameIdentity (answer net url payload headers c n r).client c
    answer-same c n (err e) = SameIdentity-refl c
    answer-same c n (ok resp) = save_nonce-same resp.replay_nonce c

    post_signed-same :
        (i : ℕ) (c : Client) (n : String) (body : Result String)
        → SameIdentity (post_signed net url payload headers i c n body).client c
    post_signed-same i c n (err e) = SameIdentity-refl c
    post_signed-same i c n (ok body) = answer-same c n (net.post i url body headers)

    send-same :
        (i : ℕ) (r : Result String × Client)
        → SameIdentity (send net url payload headers i r).client r.1
    send-same i (err e, c) = SameIdentity-refl c
    send-same i (ok n, c) = post_signed-same i c n (net.sign c.key n c.account_url url payload)

    round-same : (i : ℕ) (c : Client) → SameIdentity (round net url payload headers i c).client c
    unfolding round
    round-same i c = SameIdentity-trans (send-same i (get_nonce net i c)) (get_nonce-same i c)

    attempts-same :
        (left i : ℕ) (c : Client) → SameIdentity (attempts net url payload headers left i c).1 c
    unfolding attempts
    attempts-same zero i c = SameIdentity-refl c
    attempts-same (suc left) i c =
        let r : Round net url payload headers = round net url payload headers i c in
        elim (Option-cases r.result) [
          | inl e ↦
              rw (e, attempts)
                (SameIdentity-trans (attempts-same left (i + 1) r.client) (round-same i c))
          | inr (result, e) ↦ rw (e, attempts) (round-same i c)
        ]

  pub signed_post-same :
      (url payload : String) (c : Client) → SameIdentity (signed_post net url payload c).1 c
  unfolding signed_post signed_post_with_headers
  signed_post-same url payload c = attempts-same url payload [] 3 0 c
