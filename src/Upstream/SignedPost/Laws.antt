-- ===== src/Upstream/SignedPost/Laws.antt =====
-- The retry loop of signed requests: what is sent, and when it ends.
use acme_gateway.Prelude.{
  ℕ, zero, suc, ◌+◌, ◌≤◌, ◌<◌, String, true, false, ◌≡◌, inl, inr, refl, ap, List, [], ◌∷◌, ◌++◌,
  none, some, Result, ok, err, Bool-cases, All, length, arith,
}
use acme_gateway.Upstream.Types.{Client}
use acme_gateway.Upstream.SignedPost.{
  Response, Network, is_bad_nonce, Round, answer, post_signed, send, round, attempts, get_nonce,
  max_attempts, signed_post_with_headers,
}

abbrev pub IsBad : String × Response → Type 0
IsBad (n, resp) = is_bad_nonce resp ≡ true

-- How a request ends after the exchanges `sent`, with at most `most` of them.
pub data Ends (most : ℕ) (sent : List (String × Response)) (result : Result Response) : Type 0 where
  -- the last response is the first that is no badNonce problem, and it is the result
  answered :
      (earlier : List (String × Response)) (n : String) (resp : Response)
      → sent ≡ earlier ++ (n, resp) ∷ []
      → All IsBad earlier
      → is_bad_nonce resp ≡ false
      → length sent ≤ most
      → result ≡ ok resp
      → Ends most sent result
  -- a request could not be built, signed or sent; all responses before were badNonce problems
  failed :
      (e : String) → All IsBad sent → length sent < most → result ≡ err e → Ends most sent result
  -- every attempt was answered by a badNonce problem
  gave_up :
      All IsBad sent
      → length sent ≡ most
      → result ≡ err "upstream rejected nonce after 3 attempts"
      → Ends most sent result

module _ (net : Network) (url payload : String) (headers : List (String × String)) where
  -- What one round did.
  data Did (r : Round net url payload headers) : Type 0 where
    rejected :
        (n : String) (resp : Response)
        → r.result ≡ none
        → r.sent ≡ (n, resp) ∷ []
        → is_bad_nonce resp ≡ true
        → Did r
    accepted :
        (n : String) (resp : Response)
        → r.result ≡ some (ok resp)
        → r.sent ≡ (n, resp) ∷ []
        → is_bad_nonce resp ≡ false
        → Did r
    broke : (e : String) → r.result ≡ some (err e) → r.sent ≡ [] → Did r

  answer-Did :
      (c : Client) (n : String) (r : Result Response) → Did (answer net url payload headers c n r)
  answer-Did c n (err e) = broke e refl refl
  answer-Did c n (ok resp) = elim (Bool-cases (is_bad_nonce resp)) [
    | inl bad ↦ rejected n resp (rw bad) refl bad
    | inr good ↦ accepted n resp (rw good) refl good
  ]

  post_signed-Did :
      (i : ℕ) (c : Client) (n : String) (body : Result String)
      → Did (post_signed net url payload headers i c n body)
  post_signed-Did i c n (err e) = broke e refl refl
  post_signed-Did i c n (ok body) = answer-Did c n (net.post i url body headers)

  send-Did : (i : ℕ) (nonce : Result String × Client) → Did (send net url payload headers i nonce)
  send-Did i (err e, c) = broke e refl refl
  send-Did i (ok n, c) = post_signed-Did i c n (net.sign c.key n c.account_url url payload)

  round-Did : (i : ℕ) (c : Client) → Did (round net url payload headers i c)
  unfolding round
  round-Did i c = send-Did i (get_nonce net i c)

  Ends-cons :
      {most : ℕ} {sent : List (String × Response)} {result : Result Response} (n : String)
      (resp : Response)
      → is_bad_nonce resp ≡ true
      → Ends most sent result
      → Ends (suc most) ((n, resp) ∷ sent) result
  Ends-cons n resp bad (answered earlier m last p bads good short e) =
      answered ((n, resp) ∷ earlier) m last (ap (λ l. (n, resp) ∷ l) p) (bad, bads) good
        (omega arith) e
  Ends-cons n resp bad (failed e bads short p) = failed e (bad, bads) (omega arith) p
  Ends-cons n resp bad (gave_up bads full p) = gave_up (bad, bads) (omega arith) p

  attempts-Ends :
      (left i : ℕ) (c : Client)
      → Ends left
          (attempts net url payload headers left i c).2
          (attempts net url payload headers left i c).0
  unfolding attempts
  attempts-Ends zero i c = gave_up tt refl refl
  attempts-Ends (suc left) i c = elim (round-Did i c) [
    | rejected n resp p q bad ↦
        rw (p, q, attempts)
          (Ends-cons n resp bad
            (attempts-Ends left (i + 1) (round net url payload headers i c).client))
    | accepted n resp p q good ↦
        rw (p, q, attempts) (answered [] n resp refl tt good (omega arith) refl)
    | broke e p q ↦ rw (p, q, attempts) (failed e tt (omega arith) refl)
  ]

  -- A signed request makes at most three attempts, goes on only after badNonce problems, and
  -- returns a response only if it is the last one received and no badNonce problem; it gives up
  -- only after three badNonce problems.
  pub signed_post_with_headers-Ends :
      (c : Client)
      → Ends max_attempts
          (signed_post_with_headers net url payload headers c).2
          (signed_post_with_headers net url payload headers c).0
  unfolding signed_post_with_headers
  signed_post_with_headers-Ends c = attempts-Ends 3 0 c
