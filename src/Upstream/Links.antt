-- ===== src/Upstream/Links.antt =====
-- internal/upstream/order.go: the alternate certificates of Link headers. Parsing and resolving URLs
-- is net/url's, a parameter.
pub mod Laws
use Prim.Native.Char.{Char, code}
use Prim.Native.String
use acme_gateway.Prelude.{
  ℕ, String, Bool, true, false, not, ◌&&◌, ◌||◌, List, [], ◌∷◌, ◌++◌, map, Option, none, some,
  Result, ok, err, ◌==◌, eqb, if◌then◌else◌, has_prefix, trim_space, equal_fold, trim_prefix,
}
use acme_gateway.Prelude.Text.Split.{push, split, cut, trim, fields}

-- splitLinkHeaderValues: whether the next byte is in a quoted string, and whether it is escaped.
pub record Scan : Type 0 where
  pub in_quote : Bool
  pub escaped : Bool

-- a backslash, a quotation mark, or another byte
unfoldable pub scan : Char → Scan → Scan
scan c s =
    if eqb (code c) 92
    then record s { escaped = if s.in_quote then not s.escaped else false }
    else if eqb (code c) 34
    then record { in_quote = if s.escaped then s.in_quote else not s.in_quote; escaped = false }
    else record s { escaped = false }

-- a comma outside quotes
abbrev ends_part : Char → Scan → Bool
ends_part c s = eqb (code c) 44 && not s.in_quote

unfoldable pub split_parts : Scan → String → List String
unfolding scan push
split_parts s String.[] = String.[] ∷ []
split_parts s (String.◌∷◌ c v) =
    let rest = split_parts (scan c s) v in if ends_part c s then String.[] ∷ rest else push c rest

unfoldable pub split_link_header_values : String → List String
unfolding split_parts
split_link_header_values v =
    map trim_space (split_parts (record { in_quote = false; escaped = false }) v)

abbrev any_alternate : List String → Bool
any_alternate [] = false
any_alternate (rel ∷ rels) = equal_fold rel "alternate" || any_alternate rels

-- one parameter of a link: rel with "alternate" among its words
abbrev is_alternate_rel : Option (String × String) → Bool
is_alternate_rel none = false
is_alternate_rel (some (k, v)) =
    equal_fold (trim_space k) "rel" && any_alternate (fields (trim 34 (trim_space v)))

abbrev has_alternate_rel : List String → Bool
has_alternate_rel [] = false
has_alternate_rel (p ∷ ps) = is_alternate_rel (cut 61 (trim_space p)) || has_alternate_rel ps

-- the target and the parameters of `<target>params`
abbrev target_of : Option (String × String) → Option String
target_of none = none
target_of (some (target, params)) =
    if target == "" then none else if has_alternate_rel (split 59 params) then some target else none

unfoldable pub parse_alternate_link_part : String → Option String
unfolding split cut trim fields
parse_alternate_link_part part =
    let p = trim_space part in
    if has_prefix p "<" then target_of (cut 62 (trim_prefix p "<")) else none

pub record Url : Type 0 where
  pub scheme : String
  pub host : String
  pub text : String

pub record UrlParser : Type 0 where
  pub parse : String → Result Url
  pub resolve_reference : Url → Url → Url

abbrev pub is_http : Url → Bool
is_http u = u.scheme == "http" || u.scheme == "https"

abbrev pub has_origin : Url → Url → Bool
has_origin base u = equal_fold u.scheme base.scheme && equal_fold u.host base.host

abbrev pub is_seen : String → List String → Bool
is_seen s [] = false
is_seen s (t ∷ ts) = t == s || is_seen s ts

module _ (urls : UrlParser) (base : Url) where
  -- a resolved target that has not been seen
  abbrev pub new_target : List String → Url → Option String
  new_target seen u =
      if is_http u && has_origin base u && not (is_seen u.text seen) then some u.text else none

  abbrev resolved_target : List String → Result Url → Option String
  resolved_target seen (err e) = none
  resolved_target seen (ok u) = new_target seen (urls.resolve_reference base u)

  abbrev alternate_of : List String → Option String → Option String
  alternate_of seen none = none
  alternate_of seen (some target) = resolved_target seen (urls.parse target)

  -- The loop over the parts of all headers, with what it has seen.
  unfoldable pub alternates : List String → List String → List String
  unfolding parse_alternate_link_part
  alternates seen [] = []
  alternates seen (part ∷ parts) = elim (alternate_of seen (parse_alternate_link_part part)) [
    | none ↦ alternates seen parts
    | some s ↦ s ∷ alternates (s ∷ seen) parts
  ]

abbrev all_parts : List String → List String
all_parts [] = []
all_parts (raw ∷ headers) = split_link_header_values raw ++ all_parts headers

abbrev from_base : UrlParser → List String → Result Url → List String
from_base urls headers (err e) = []
from_base urls headers (ok base) =
    if is_http base && not (base.host == "")
    then alternates urls base [] (all_parts headers)
    else []

unfoldable pub parse_alternate_cert_links : UrlParser → List String → String → List String
unfolding split_link_header_values alternates
parse_alternate_cert_links urls headers base_url = from_base urls headers (urls.parse base_url)
