-- ===== src/Upstream/Account/Laws.antt =====
-- Registration keeps the client's key, and puts the URL that it returns in the client.
use acme_gateway.Prelude.{
  String, ◌≡◌, ◌≢◌, refl, List, Option, Result, ok, err, ◌==◌, ◌&&◌, not, eqb, eq_iff, arith,
  Bool-cases, inl, inr,
}
use acme_gateway.Config.{EabConfig}
use acme_gateway.Upstream.Types.{AcmeDirectory, Client}
use acme_gateway.Upstream.SignedPost.{Response, Network, directory, signed_post}
use acme_gateway.Upstream.SignedPost.Identity.{
  SameIdentity, SameIdentity-trans, directory-same, signed_post-same,
}
use acme_gateway.Upstream.Account.{
  AccountCodec, register, with_directory, post_account, binding, answered, accept,
}

-- What a registration leaves: the client's key; on success the returned URL, which is not empty, in
-- the client; on failure the account URL as it was.
pub data IsRegistered (c : Client) (r : Result String × Client) : Type 0 where
  registered :
      (url : String)
      → r.0 ≡ ok url
      → url ≢ ""
      → r.1.key ≡ c.key
      → r.1.account_url ≡ url
      → IsRegistered c r
  refused : (e : String) → r.0 ≡ err e → SameIdentity r.1 c → IsRegistered c r

module _ (net : Network) (codec : AccountCodec) where
  accept-IsRegistered :
      (c d : Client) (url : String) → SameIdentity d c → IsRegistered c (accept net codec d url)
  accept-IsRegistered c d url same = elim (Bool-cases (url == "")) [
    | inl e ↦ rw e (refused _ refl same)
    | inr e ↦ rw e (registered url refl (λ p. ground (arith, eq_iff url "")) same.key refl)
  ]

  answered-IsRegistered :
      (c : Client) (r : Result Response × Client × List (String × Response))
      → SameIdentity r.1 c
      → IsRegistered c (answered net codec r)
  answered-IsRegistered c (err e, d, sent) same = refused _ refl same
  answered-IsRegistered c (ok resp, d, sent) same =
      elim (Bool-cases (not (eqb resp.status 201) && not (eqb resp.status 200))) [
        | inl e ↦ rw e (refused _ refl same)
        | inr e ↦ rw e (accept-IsRegistered c d _ same)
      ]

  post_account-IsRegistered :
      (c d : Client) (email url : String) (b : Result (Option String))
      → SameIdentity d c
      → IsRegistered c (post_account net codec email d url b)
  post_account-IsRegistered c d email url (err e) same = refused e refl same
  post_account-IsRegistered c d email url (ok b) same =
      let payload = codec.account_payload email b in
      answered-IsRegistered c (signed_post net url payload d)
        (SameIdentity-trans (signed_post-same net url payload d) same)

  with_directory-IsRegistered :
      (c : Client) (email : String) (eab : Option EabConfig) (r : Result AcmeDirectory × Client)
      → SameIdentity r.1 c
      → IsRegistered c (with_directory net codec email eab r)
  with_directory-IsRegistered c email eab (err e, d) same = refused e refl same
  with_directory-IsRegistered c email eab (ok dir, d) same =
      post_account-IsRegistered c d email dir.new_account
        (binding net codec d.key dir.new_account eab) same

  -- A registration keeps the client's key. If it succeeds, the URL that it returns is not empty and
  -- is the client's account URL; if it fails, the account URL is as before.
  pub register-IsRegistered :
      (c : Client) (email : String) (eab : Option EabConfig)
      → IsRegistered c (register net codec c email eab)
  unfolding register
  register-IsRegistered c email eab =
      with_directory-IsRegistered c email eab (directory net 0 c) (directory-same net 0 c)
