-- ===== src/Upstream/Account.antt =====
-- internal/upstream/account.go: registration of the gateway's account at an upstream CA. JSON and
-- the MAC of the external account binding are parameters.
pub mod Laws
use Prim.Native.Char.{Char, code}
use Prim.Native.String.{count}
use acme_gateway.Prelude.{
  ℕ, zero, suc, String, Bool, ◌&&◌, ◌||◌, ltb, not, List, Option, none, some, Result, ok, err, ◌==◌,
  eqb, if◌then◌else◌, ◌<>◌,
}
use acme_gateway.Config.{EabConfig}
use acme_gateway.Upstream.Types.{AcmeDirectory, AcmeError, Client}
use acme_gateway.Upstream.SignedPost.{Response, Network, directory, signed_post, parse_acme_error}

pub record AccountCodec : Type 0 where
  -- buildEAB: the key, the newAccount URL, the credentials
  pub build_eab : String → String → EabConfig → Result String
  -- the payload: the contact address and the binding, if any
  pub account_payload : String → Option String → String
  -- the "id" of a response body, empty if there is none
  pub body_id : String → String

-- line feeds and carriage returns as spaces
unfoldable one_line : String → String
one_line String.[] = String.[]
one_line (String.◌∷◌ c s) =
    let rest = one_line s in
    if eqb (code c) 10 || eqb (code c) 13 then " " <> rest else String.◌∷◌ c rest

unfoldable first_runes : ℕ → String → String
first_runes zero s = String.[]
first_runes (suc n) String.[] = String.[]
first_runes (suc n) (String.◌∷◌ c s) = String.◌∷◌ c (first_runes n s)

abbrev max_subproblem_log_runes : ℕ
max_subproblem_log_runes = 512

unfoldable pub summarize_subproblems : String → String
unfolding one_line first_runes
summarize_subproblems raw =
    let s = one_line raw in
    if ltb max_subproblem_log_runes (count s)
    then first_runes max_subproblem_log_runes s <> "…(truncated)"
    else s

-- ACMEError.Error
abbrev pub acme_error_text : AcmeError → String
acme_error_text ae =
    if ae.subproblems == ""
    then "ACME error " <> ae.type <> ": " <> ae.detail
    else "ACME error "
      <> ae.type
      <> ": "
      <> ae.detail
      <> " (subproblems: "
      <> summarize_subproblems ae.subproblems
      <> ")"

abbrev pub response_error : Response → String
response_error resp = elim (parse_acme_error resp) [
  | none ↦ "upstream HTTP: " <> resp.body
  | some ae ↦ acme_error_text ae
]

module _ (net : Network) (codec : AccountCodec) where
  abbrev account_url_of : Response → String
  account_url_of resp = if resp.location == "" then codec.body_id resp.body else resp.location

  abbrev accept : Client → String → Result String × Client
  accept c url =
      if url == ""
      then (err "upstream did not return account URL", c)
      else (ok url, record c { account_url = url })

  abbrev answered : Result Response × Client × List (String × Response) → Result String × Client
  answered (err e, c, _) = (err ("posting new-account: " <> e), c)
  answered (ok resp, c, _) =
      if not (eqb resp.status 201) && not (eqb resp.status 200)
      then (err (response_error resp), c)
      else accept c (account_url_of resp)

  abbrev binding : String → String → Option EabConfig → Result (Option String)
  binding key url none = ok none
  binding key url (some eab) = elim (codec.build_eab key url eab) [
    | err e ↦ err ("building EAB: " <> e)
    | ok b ↦ ok (some b)
  ]

  abbrev post_account : String → Client → String → Result (Option String) → Result String × Client
  post_account email c url (err e) = (err e, c)
  post_account email c url (ok b) = answered (signed_post net url (codec.account_payload email b) c)

  abbrev with_directory :
      String → Option EabConfig → Result AcmeDirectory × Client → Result String × Client
  with_directory email eab (err e, c) = (err e, c)
  with_directory email eab (ok dir, c) =
      post_account email c dir.new_account (binding c.key dir.new_account eab)

  unfoldable pub register : Client → String → Option EabConfig → Result String × Client
  register c email eab = with_directory email eab (directory net 0 c)
