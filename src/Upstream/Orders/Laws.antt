-- ===== src/Upstream/Orders/Laws.antt =====
-- What an upstream call's success and its problems say of the upstream's response.
use acme_gateway.Prelude.{
  ℕ, String, Bool, true, false, ◌≡◌, ◌≢◌, refl, ap, ◌∙◌, List, Option, none, some, Result, ok, err,
  if◌then◌else◌, ◌==◌, arith, eq_iff, Option-cases, inl, inr,
}
use acme_gateway.Model.{Identifier}
use acme_gateway.Upstream.Types.{
  AcmeDirectory, AcmeError, AcmeOrder, Client, returned, broken, problem,
}
use acme_gateway.Upstream.SignedPost.{Response, Network, directory, signed_post, parse_acme_error}
use acme_gateway.Upstream.Orders.{
  OrderCodec, Posted, error_of, status_error, read_or_fail, result_of, has_status, profile_of,
  with_location, submit_to, submit_order, finalize_order,
}

-- The response had this status, and its body was read as this value.
pub record IsRead {A : Type 0} (status : ℕ) (read : Response → Result A) (r : Result Response)
    (a : A) : Type 0 where
  pub resp : Response
  pub posted : r ≡ ok resp
  pub status_is : resp.status ≡ status
  pub value : read resp ≡ ok a

module _ {A : Type 0} (doing decoding : String) (status : ℕ) (read : Response → Result A) where
  read_or_fail-returned : (r : Result A) (a : A) → read_or_fail decoding r ≡ returned a → r ≡ ok a
  read_or_fail-returned (ok b) a h = cc
  read_or_fail-returned (err e) a h = absurd (cc)

  read-returned :
      (resp : Response) (a : A) (b : Bool)
      → has_status status resp ≡ b
      → (if b then read_or_fail decoding (read resp) else broken (status_error resp)) ≡ returned a
      → IsRead status read (ok resp) a
  read-returned resp a true e h = record {
    resp = resp;
    posted = refl;
    status_is = ground arith;
    value = read_or_fail-returned (read resp) a h;
  }
  read-returned resp a false e h = absurd (cc)

  result_of-returned :
      (p : Posted) (a : A)
      → (result_of doing decoding (has_status status) read p).0 ≡ returned a
      → IsRead status read p.0 a
  result_of-returned (err e, c, sent) a h = absurd (cc)
  result_of-returned (ok resp, c, sent) a h = read-returned resp a (has_status status resp) refl h

-- The profile is sent unless it is empty.
pub data IsProfile (profile : String) : Option String → Type 0 where
  omitted : profile ≡ "" → IsProfile profile none
  given : profile ≢ "" → IsProfile profile (some profile)

named : (profile : String) → (profile == "") ≡ false → profile ≢ ""
named profile e h = let t = (eq_iff profile "").1 h in cc

if-IsProfile :
    (profile : String) (b : Bool)
    → (profile == "") ≡ b
    → IsProfile profile (if b then none else some profile)
if-IsProfile profile true e = omitted ((eq_iff profile "").0 e)
if-IsProfile profile false e = given (named profile e)

module _ (net : Network) (codec : OrderCodec) where
  -- The order was made at the directory's newOrder URL, with the identifiers and the profile, if
  -- any; the response was 201, its body has the order, and its Location is the order's URL.
  pub record IsSubmitted (c : Client) (ids : List Identifier) (profile : String) (o : AcmeOrder)
      (url : String) : Type 0 where
    pub dir : AcmeDirectory
    pub found : (directory net 0 c).0 ≡ ok dir
    pub sent : Option String
    pub sends : IsProfile profile sent
    pub resp : Response
    pub posted :
        (signed_post net dir.new_order (codec.order_payload ids sent) (directory net 0 c).1).0
        ≡ ok resp
    pub created : resp.status ≡ 201
    pub body : codec.read_order resp.body ≡ ok o
    pub location : resp.location ≡ url

  with_location-ok :
      (resp : Response) (r : Result AcmeOrder) (o : AcmeOrder) (url : String)
      → with_location net codec resp r ≡ ok (o, url)
      → (r ≡ ok o) × (resp.location ≡ url)
  with_location-ok resp (ok a) o url h = (cc, cc)
  with_location-ok resp (err e) o url h = absurd (cc)

  submit_to-returned :
      (c : Client) (ids : List Identifier) (profile : String) (o : AcmeOrder) (url : String)
      (r : Result AcmeDirectory × Client)
      → directory net 0 c ≡ r
      → (submit_to net codec ids profile r).0 ≡ returned (o, url)
      → IsSubmitted c ids profile o url
  submit_to-returned c ids profile o url (err e, d) p h = absurd (cc)
  submit_to-returned c ids profile o url (ok dir, d) p h =
      let x =
        result_of-returned "submitting order" "decoding order response" 201
          (λ resp. with_location net codec resp (codec.read_order resp.body))
          (signed_post net dir.new_order (codec.order_payload ids (profile_of net codec profile)) d)
          (o, url) h in
      let (body, location) = with_location-ok x.resp (codec.read_order x.resp.body) o url x.value in
      record {
        dir = dir;
        found = ap (λ x. x.0) p;
        sent = profile_of net codec profile;
        sends = if-IsProfile profile (profile == "") refl;
        resp = x.resp;
        posted = rw p x.posted;
        created = x.status_is;
        body = body;
        location = location;
      }

  -- An order that is returned as submitted was made by a signed request to the newOrder URL of the
  -- directory, with the identifiers and with the profile unless it is empty; the response had status
  -- 201, and the order and its URL are the response's body and Location.
  pub submit_order-IsSubmitted :
      (c : Client) (ids : List Identifier) (profile : String) (o : AcmeOrder) (url : String)
      → (submit_order net codec c ids profile).0 ≡ returned (o, url)
      → IsSubmitted c ids profile o url
  unfolding submit_order
  submit_order-IsSubmitted c ids profile o url h =
      submit_to-returned c ids profile o url (directory net 0 c) refl h

-- The upstream's own problem, with the status of the response, which is not the expected one.
pub record IsProblem (status : ℕ) (r : Result Response) (ae : AcmeError) : Type 0 where
  pub resp : Response
  pub posted : r ≡ ok resp
  pub other : resp.status ≢ status
  pub same : ae.status ≡ resp.status

parsed_status :
    (resp : Response) (ae : AcmeError) → parse_acme_error resp ≡ some ae → ae.status ≡ resp.status
unfolding parse_acme_error
parsed_status resp ae h = elim (Option-cases resp.problem) [
  | inl e ↦ absurd (let k = rw e at h in cc)
  | inr (x, e) ↦ (let k = rw e at h in cc)
]

problem_status :
    (resp : Response) (o : Option AcmeError) (ae : AcmeError)
    → parse_acme_error resp ≡ o
    → error_of resp o ≡ problem ae
    → ae.status ≡ resp.status
problem_status resp none ae p h = absurd (cc)
problem_status resp (some e) ae p h =
    parsed_status resp ae (let same : e ≡ ae = cc in p ∙ ap some same)

module _ {A : Type 0} (doing decoding : String) (status : ℕ) (read : Response → Result A) where
  read_or_fail-failure :
      (r : Result A) (ae : AcmeError) → read_or_fail decoding r ≢ broken (problem ae)
  read_or_fail-failure (ok a) ae h = absurd (cc)
  read_or_fail-failure (err e) ae h = absurd (cc)

  read-problem :
      (resp : Response) (ae : AcmeError) (b : Bool)
      → has_status status resp ≡ b
      → (if b then read_or_fail decoding (read resp) else broken (status_error resp))
        ≡ broken (problem ae)
      → IsProblem status (ok resp) ae
  read-problem resp ae true e h = absurd (read_or_fail-failure (read resp) ae h)
  read-problem resp ae false e h = record {
    resp = resp;
    posted = refl;
    other = λ same. ground arith;
    same = problem_status resp (parse_acme_error resp) ae refl (cc);
  }

  result_of-problem :
      (p : Posted) (ae : AcmeError)
      → (result_of doing decoding (has_status status) read p).0 ≡ broken (problem ae)
      → IsProblem status p.0 ae
  result_of-problem (err e, c, sent) ae h = absurd (cc)
  result_of-problem (ok resp, c, sent) ae h = read-problem resp ae (has_status status resp) refl h

-- A problem that the finalization of an order ends in is the upstream's: the response to the signed
-- CSR had a status other than 200, and the problem has that status.
pub finalize_order-IsProblem :
    (net : Network) (codec : OrderCodec) (c : Client) (url csr_der : String) (ae : AcmeError)
    → (finalize_order net codec c url csr_der).0 ≡ broken (problem ae)
    → IsProblem 200 (signed_post net url (codec.csr_payload csr_der) c).0 ae
unfolding finalize_order
finalize_order-IsProblem net codec c url csr_der ae h =
    result_of-problem "finalizing order" "decoding finalize response" 200
      (λ resp. codec.read_order resp.body) (signed_post net url (codec.csr_payload csr_der) c) ae h
