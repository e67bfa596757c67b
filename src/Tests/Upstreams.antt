-- ===== src/Tests/Upstreams.antt =====
-- internal/upstream with a CA that is scripted.
use acme_gateway.Prelude.{
  ℕ, zero, suc, ◌+◌, ◌%◌, ◌<◌, ◌<>◌, String, ◌≡◌, refl, List, [], ◌∷◌, none, some, ok,
}
use acme_gateway.Model.Int.{pos}
use acme_gateway.Config.{UpstreamConfig}
use acme_gateway.Store.Db.{empty}
use acme_gateway.Store.Accounts.{
  get_upstream_account_by_slot, get_upstream_account_for_account, save_upstream_account,
  save_upstream_account_for_account,
}
use acme_gateway.Upstream.Types.{Client, new_client}
use acme_gateway.Upstream.NonceRing.{save_nonce, take_nonce}
use acme_gateway.Upstream.NonceRing.Laws.{
  IsRing, IsTaken, queue, pushed, new_client-IsRing, queue-save_nonce, queue-take_nonce,
}
use acme_gateway.Upstream.SignedPost.{
  Response, Network, bad_nonce_type, max_attempts, directory, get_nonce, round, attempts,
  signed_post_with_headers, signed_post, parse_acme_error,
}
use acme_gateway.Upstream.SignedPost.Laws.{Ends, signed_post_with_headers-Ends}
use acme_gateway.Upstream.Account.{acme_error_text, summarize_subproblems, AccountCodec, register}
use acme_gateway.Upstream.Account.Laws.{IsRegistered, register-IsRegistered}
use acme_gateway.Upstream.Pool.{
  Env, new_pool, slot_count, new_client_for_upstream, restored, create_from, get_or_create_all,
  get_slot, ensure_slot_registered, next_client, get_client_for_account,
}
use acme_gateway.Upstream.Pool.Laws.{get_client_for_account-again}
use acme_gateway.Upstream.Pool.Restart.{IsSound, get_client_for_account-restart}
use acme_gateway.Upstream.Pool.Slots.{IsFull, IsAtSlot, get_slot_total, next_client-round_robin}
use acme_gateway.Tests.Routing.{le}

abbrev pub fresh : Client
fresh = new_client "https://ca/directory" "k"

queue-save_nonce_example :
    IsRing (save_nonce "n1" fresh) × (queue (save_nonce "n1" fresh) ≡ pushed "n1" (queue fresh))
queue-save_nonce_example =
    queue-save_nonce "n1" fresh (new_client-IsRing "https://ca/directory" "k")

queue-take_nonce_example :
    IsTaken (queue (save_nonce "n1" fresh)) (take_nonce (save_nonce "n1" fresh))
queue-take_nonce_example =
    queue-take_nonce (save_nonce "n1" fresh)
      ((queue-save_nonce "n1" fresh (new_client-IsRing "https://ca/directory" "k")).0)

abbrev pub bad_nonce : Response
bad_nonce = record {
  status = 400;
  replay_nonce = "n3";
  location = "";
  link = [];
  body = "";
  problem = some (record { type = bad_nonce_type; detail = ""; status = 400; subproblems = "" });
}

abbrev pub created : Response
created = record bad_nonce { status = 201; location = "https://ca/acct/1"; problem = none }

-- The CA refuses the first nonce and accepts the second.
abbrev answers : ℕ → Response
answers zero = bad_nonce
answers (suc n) = created

abbrev pub scripted : Network
scripted = record {
  get_directory = λ i url. ok (record {
    new_nonce = "https://ca/nonce";
    new_account = "https://ca/new-acct";
    new_order = "https://ca/new-order";
    revoke_cert = "";
    key_change = "";
  });
  head_nonce = λ i url. ok "n1";
  sign = λ key nonce account url payload. ok (nonce <> payload);
  post = λ i url body headers. ok (answers i);
}

abbrev plain : AccountCodec
plain = record {
  build_eab = λ key url eab. ok eab.key_id;
  account_payload = λ email binding. email;
  body_id = λ body. "";
}

signed_post_with_headers-Ends_example :
    Ends max_attempts
      (signed_post_with_headers scripted "https://ca/new-order" "{}" [] fresh).2
      (signed_post_with_headers scripted "https://ca/new-order" "{}" [] fresh).0
signed_post_with_headers-Ends_example =
    signed_post_with_headers-Ends scripted "https://ca/new-order" "{}" [] fresh

register-IsRegistered_example :
    IsRegistered fresh (register scripted plain fresh "ops@example.com" none)
register-IsRegistered_example = register-IsRegistered scripted plain fresh "ops@example.com" none

-- Keys are drawn by number, and a key is its own PEM text.
abbrev pub env : Env
env = record {
  generate_key = λ i. ok "k";
  parse_key = λ pem. ok pem;
  load_ca_cert = λ path. ok tt;
  key_pem = λ key. ok key;
  net = λ i. scripted;
  codec = plain;
  now = 0;
  read_failure = λ i. none;
  write_failure = none;
}

abbrev upstreams : List (String × UpstreamConfig)
upstreams = ("le", le) ∷ []

abbrev registered : Client
registered = (register scripted plain fresh "ops@example.com" none).1

given : (get_client_for_account upstreams env "le" "acct-1" empty new_pool).0 ≡ ok registered
unfolding get_client_for_account get_upstream_account_for_account restored new_client_for_upstream
    register directory get_nonce round attempts signed_post_with_headers signed_post take_nonce
    save_nonce parse_acme_error save_upstream_account_for_account
given = refl

get_client_for_account-again_example :
    get_client_for_account upstreams env "le" "acct-1" empty
      (get_client_for_account upstreams env "le" "acct-1" empty new_pool).1
    ≡ (ok registered, (get_client_for_account upstreams env "le" "acct-1" empty new_pool).1, empty)
get_client_for_account-again_example =
    get_client_for_account-again upstreams env env "le" "acct-1" empty empty new_pool registered
      given

sound : IsSound env
sound = record { key_round_trip = λ key pem e. cc }

get_client_for_account-restart_example :
    (again : Client) × ((get_client_for_account upstreams env "le" "acct-1"
        (get_client_for_account upstreams env "le" "acct-1" empty new_pool).2
        new_pool).0
      ≡ ok again)
    × (again.key ≡ registered.key)
    × (again.account_url ≡ registered.account_url)
    × ((get_client_for_account upstreams env "le" "acct-1"
          (get_client_for_account upstreams env "le" "acct-1" empty new_pool).2
          new_pool).2
        ≡ (get_client_for_account upstreams env "le" "acct-1" empty new_pool).2)
get_client_for_account-restart_example =
    get_client_for_account-restart upstreams env env "le" "acct-1" empty new_pool registered sound
      refl given refl (λ pem. refl) (λ path. refl)

full : IsFull upstreams "le" le refl new_pool
full = record { full = λ cs e. absurd (cc) }

both : (get_or_create_all upstreams env "le" empty new_pool).0 ≡ ok (fresh ∷ fresh ∷ [])
unfolding get_or_create_all create_from restored new_client_for_upstream
    get_upstream_account_by_slot
both = refl

get_slot_total_example :
    (c : Client) × IsAtSlot (fresh ∷ fresh ∷ []) (pos 1) c
    × ((get_slot upstreams env "le" (pos 1) empty new_pool).0 ≡ ok c)
get_slot_total_example =
    get_slot_total upstreams "le" le refl env (pos 1) empty new_pool (fresh ∷ fresh ∷ []) full both

next_client-round_robin_example :
    (0 < slot_count le.account_count) × (1 ≡ (0 + 1) % slot_count le.account_count)
next_client-round_robin_example =
    next_client-round_robin upstreams "le" le refl env env empty empty new_pool registered
      registered 0 1 full
      (unfold next_client get_or_create_all create_from restored new_client_for_upstream
          get_upstream_account_by_slot ensure_slot_registered register directory get_nonce round
          attempts signed_post_with_headers signed_post take_nonce save_nonce parse_acme_error
          save_upstream_account in
        refl)
      (unfold next_client get_or_create_all create_from restored new_client_for_upstream
          get_upstream_account_by_slot ensure_slot_registered register directory get_nonce round
          attempts signed_post_with_headers signed_post take_nonce save_nonce parse_acme_error
          save_upstream_account in
        refl)

acme_error_text_test :
    acme_error_text (record { type = "t"; detail = "d"; status = 400; subproblems = "[\n]" })
    ≡ "ACME error t: d (subproblems: [ ])"
unfolding summarize_subproblems
acme_error_text_test = refl
