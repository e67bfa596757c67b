-- ===== src/Upstream/Links/Laws.antt =====
-- The alternate certificates are of the certificate's own origin, each once.
use acme_gateway.Prelude.{
  String, Bool, true, false, not, ◌&&◌, ◌≡◌, refl, List, [], ◌∷◌, Option, none, some, Result, ok,
  err, ◌==◌, arith, if◌then◌else◌, All, Some, Bool-cases, eq_iff, ◌++◌, ◌⊎◌, inl, inr, equal_fold,
}
use acme_gateway.Prelude.Tables.{All-imp, Distinct}
use acme_gateway.Upstream.Links.{
  Url, UrlParser, is_http, is_seen, new_target, resolved_target, alternate_of, alternates,
  parse_alternate_link_part, split_link_header_values, all_parts, parse_alternate_cert_links,
}

-- The target parses and, resolved against the base, is an http or https URL of the base's scheme and
-- host, up to case, with this text.
pub record IsResolved (urls : UrlParser) (base : Url) (target s : String) : Type 0 where
  pub ref : Url
  pub parses : urls.parse target ≡ ok ref
  pub text : (urls.resolve_reference base ref).text ≡ s
  pub http :
      ((urls.resolve_reference base ref).scheme ≡ "http")
      ⊎ ((urls.resolve_reference base ref).scheme ≡ "https")
  pub scheme : equal_fold (urls.resolve_reference base ref).scheme base.scheme ≡ true
  pub host : equal_fold (urls.resolve_reference base ref).host base.host ≡ true

abbrev pub IsTarget : String → String → Type 0
IsTarget target part = parse_alternate_link_part part ≡ some target

-- The same, for the target of an alternate link in one of these headers.
pub record IsSameOrigin (urls : UrlParser) (headers : List String) (base : Url) (s : String)
    : Type 0 where
  pub target : String
  pub linked : Some (λ raw. Some (IsTarget target) (split_link_header_values raw)) headers
  pub resolved : IsResolved urls base target s

is_http-scheme : (u : Url) → is_http u ≡ true → (u.scheme ≡ "http") ⊎ (u.scheme ≡ "https")
is_http-scheme u h = elim (Bool-cases (u.scheme == "http")) [
  | inl e ↦ inl ((eq_iff u.scheme "http").0 e)
  | inr e ↦ inr ((eq_iff u.scheme "https").0 (ground arith))
]

module _ {A : Type 0} (P : A → Type 0) where
  Some-append : (l m : List A) → Some P (l ++ m) → Some P l ⊎ Some P m
  Some-append [] m h = inr h
  Some-append (x ∷ l) m (inl p) = inl (inl p)
  Some-append (x ∷ l) m (inr q) = elim (Some-append l m q) [ inl a ↦ inl (inr a) | inr b ↦ inr b ]

-- A part of all headers is one of a header.
all_parts-Some :
    (P : String → Type 0) (headers : List String)
    → Some P (all_parts headers)
    → Some (λ raw. Some P (split_link_header_values raw)) headers
all_parts-Some P [] h = absurd h
all_parts-Some P (raw ∷ headers) h =
    elim (Some-append P (split_link_header_values raw) (all_parts headers) h) [
      | inl a ↦ inl a
      | inr b ↦ inr (all_parts-Some P headers b)
    ]

module _ (urls : UrlParser) (base : Url) where
  -- What was resolved, for the target of one of these parts.
  record IsOf (parts : List String) (s : String) : Type 0 where
    target : String
    linked : Some (IsTarget target) parts
    resolved : IsResolved urls base target s

  later : (part : String) (parts : List String) (s : String) → IsOf parts s → IsOf (part ∷ parts) s
  later part parts s x = record { target = x.target; linked = inr x.linked; resolved = x.resolved }

  -- A target that is taken is new, and of the base's origin.
  new_target-IsResolved :
      (seen : List String) (target s : String) (ref : Url)
      → urls.parse target ≡ ok ref
      → new_target urls base seen (urls.resolve_reference base ref) ≡ some s
      → IsResolved urls base target s × (is_seen s seen ≡ false)
  new_target-IsResolved seen target s ref parses h = (
    record {
      ref = ref;
      parses = parses;
      text = ground arith;
      http = is_http-scheme (urls.resolve_reference base ref) (ground arith);
      scheme = ground arith;
      host = ground arith;
    },
    ground arith,
  )

  resolved_target-IsResolved :
      (seen : List String) (target s : String) (r : Result Url)
      → urls.parse target ≡ r
      → resolved_target urls base seen r ≡ some s
      → IsResolved urls base target s × (is_seen s seen ≡ false)
  resolved_target-IsResolved seen target s (err e) p h = absurd (cc)
  resolved_target-IsResolved seen target s (ok u) p h = new_target-IsResolved seen target s u p h

  abbrev IsNew : List String → List String → String → Type 0
  IsNew parts seen s = IsOf parts s × (is_seen s seen ≡ false)

  alternate_of-IsNew :
      (part : String) (parts seen : List String) (t : Option String) (s : String)
      → parse_alternate_link_part part ≡ t
      → alternate_of urls base seen t ≡ some s
      → IsNew (part ∷ parts) seen s
  alternate_of-IsNew part parts seen none s p h = absurd (cc)
  alternate_of-IsNew part parts seen (some t) s p h =
      let (resolved, unseen) = resolved_target-IsResolved seen t s (urls.parse t) refl h in
      (record { target = t; linked = inl p; resolved = resolved }, unseen)

  abbrev AreNew : List String → List String → List String → Type 0
  AreNew parts seen l = All (IsNew parts seen) l × Distinct (λ a b. a == b) l

  weaken :
      (part : String) (parts : List String) (s : String) (seen l : List String)
      → All (IsNew parts (s ∷ seen)) l
      → All (IsNew (part ∷ parts) seen) l × All (λ t. (s == t) ≡ false) l
  weaken part parts s seen [] h = (tt, tt)
  weaken part parts s seen (t ∷ l) ((o, n), h) =
      let (a, b) = weaken part parts s seen l h in
      (((later part parts t o, ground arith), a), (ground arith, b))

  taken :
      (part : String) (seen parts : List String) (o : Option String)
      → ((s : String) → o ≡ some s → IsNew (part ∷ parts) seen s)
      → ((seen' : List String) → AreNew parts seen' (alternates urls base seen' parts))
      → AreNew (part ∷ parts) seen (elim o [
        | none ↦ alternates urls base seen parts
        | some s ↦ s ∷ alternates urls base (s ∷ seen) parts
      ])
  taken part seen parts none h rest =
      let (all, distinct) = rest seen in
      (All-imp (λ s n. (later part parts s n.0, n.1)) _ all, distinct)
  taken part seen parts (some s) h rest =
      let (all, distinct) = rest (s ∷ seen) in
      let (a, b) = weaken part parts s seen _ all in ((h s refl, a), (b, distinct))

  alternates-AreNew :
      (seen parts : List String) → AreNew parts seen (alternates urls base seen parts)
  unfolding alternates
  alternates-AreNew seen [] = (tt, tt)
  alternates-AreNew seen (part ∷ parts) =
      taken part seen parts (alternate_of urls base seen (parse_alternate_link_part part))
        (λ s h. alternate_of-IsNew part parts seen (parse_alternate_link_part part) s refl h)
        (λ seen'. alternates-AreNew seen' parts)

  of_headers :
      (headers : List String) (s : String)
      → IsOf (all_parts headers) s
      → IsSameOrigin urls headers base s
  of_headers headers s x = record {
    target = x.target;
    linked = all_parts-Some (IsTarget x.target) headers x.linked;
    resolved = x.resolved;
  }

  -- Each alternate URL of a certificate is what the target of an alternate link in one of its Link
  -- headers resolves to, against the URL that the certificate was fetched from; it is an http or
  -- https URL of that URL's scheme and host, up to case; and no URL comes twice.
  pub parse_alternate_cert_links-IsSameOrigin :
      (headers : List String) (base_url : String)
      → urls.parse base_url ≡ ok base
      → All (IsSameOrigin urls headers base) (parse_alternate_cert_links urls headers base_url)
        × Distinct (λ a b. a == b) (parse_alternate_cert_links urls headers base_url)
  unfolding parse_alternate_cert_links
  parse_alternate_cert_links-IsSameOrigin headers base_url parses =
      rw parses (if_http (is_http base && not (base.host == "")))
    where
      if_http :
          (b : Bool)
          → All
              (IsSameOrigin urls headers base)
              (if b then alternates urls base [] (all_parts headers) else [])
            × Distinct
                (λ x y. x == y)
                (if b then alternates urls base [] (all_parts headers) else [])
      if_http true =
          let (all, distinct) = alternates-AreNew [] (all_parts headers) in
          (All-imp (λ s h. of_headers headers s h.0) _ all, distinct)
      if_http false = (tt, tt)
