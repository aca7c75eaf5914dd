-- ===== src/Subscription.antt =====
-- services/subscription/src/lib.rs: the answer to a request for a user's configuration.
pub mod Eviction
pub mod Access
pub mod Connected
use vpn.Prelude.{
  ℕ, String, string_Eq, ◌==◌, Bool, true, false, not, ◌&&◌, ◌||◌, ltb, nat_eq, if◌then◌else◌, List,
  [], ◌∷◌, length, Option, none, some, Result, ok, err, F64, Eq,
}
use vpn.CompatConfig.Model.{CompatUser, CompatError, CompatEndpoint, UsersJson, is_active}
use vpn.CompatConfig.Server.Json.{Value}
use vpn.CompatConfig.Render.{
  SelectionProfile, reliability, parse_profile, render_singbox_client_subscription_with_profile,
}
use vpn.CompatConfig.Render.Uri.{render_uri_list}
use vpn.CompatConfig.Disk.{Disk, Host}
use vpn.CompatConfig.Users.{load_users}
use vpn.Rendezvous.RateLimiter.{Limiter}
use Eviction.{allow}

-- The endpoints of the state, how a document is printed (`serde_json::to_string_pretty`), and `hash_token`
-- of crates/compat-config/src/credentials.rs: the SHA-256 of a token's bytes in hex.
pub record Rendering : Type 0 where
  pub endpoints : List CompatEndpoint
  pub to_string_pretty : Value → String
  pub hash_token : List ℕ → String

pub record SubQuery : Type 0 where
  pub format : Option String
  pub profile : Option String

pub data Response : Type 0 where
  too_many_requests not_found internal_error render_error unknown_format : Response
  -- a body of JSON
  json : String → Response
  -- a body of plain text, by its bytes
  text : List ℕ → Response

module _ (r : Rendering) where
  unfoldable pub verify_token : List ℕ → String → Bool
  verify_token token stored = r.hash_token token == stored

  -- the loop over the users: every one is looked at, and the last that matches is kept
  unfoldable pub find_from : Option CompatUser → List CompatUser → List ℕ → ℕ → Option CompatUser
  unfolding verify_token
  find_from found [] token now = found
  find_from found (u ∷ us) token now =
      let matches = verify_token token u.subscription_token_hash_hex in
      find_from (if matches && is_active u now then some u else found) us token now

  unfoldable pub find_user_by_token : List CompatUser → List ℕ → ℕ → Option CompatUser
  unfolding find_from
  find_user_by_token users token now_unix = find_from none users token now_unix

  unfoldable pub profile_of : SubQuery → SelectionProfile
  unfolding parse_profile
  profile_of q = elim q.profile [
    | none ↦ reliability
    | some s ↦ elim (parse_profile s) [ none ↦ reliability | some p ↦ p ]
  ]

  unfoldable pub format_of : SubQuery → String
  format_of q = elim q.format [ none ↦ "singbox" | some s ↦ s ]

  unfoldable pub render_for : CompatUser → SubQuery → Response
  unfolding profile_of format_of render_singbox_client_subscription_with_profile render_uri_list
  render_for user q =
      let format = format_of q in
      if format == "singbox"
      then elim (render_singbox_client_subscription_with_profile user r.endpoints (profile_of q)) [
        | err e ↦ render_error
        | ok doc ↦ json (r.to_string_pretty doc)
      ]
      else if (format == "uri") || (format == "hiddify")
      then elim (render_uri_list user r.endpoints) [ err e ↦ render_error | ok body ↦ text body ]
      else unknown_format

  unfoldable pub answer_for : Option CompatUser → SubQuery → Response
  unfolding render_for
  answer_for none q = not_found
  answer_for (some user) q = render_for user q

  unfoldable pub answer_users :
      Result CompatError (List CompatUser) → List ℕ → ℕ → SubQuery → Response
  unfolding answer_for find_user_by_token
  answer_users (err e) token now q = internal_error
  answer_users (ok users) token now q = answer_for (find_user_by_token users token now) q

module _ (d : F64) (Ip : Type 0) ⦃ip_Eq : Eq Ip⦄ (r : Rendering) (h : Host) (json_users : UsersJson)
    (users_file : String) where
  -- the limiter, the bound on the token's length, the users on the disk, and the answer
  unfoldable pub get_subscription :
      Limiter d Ip → Ip → ℕ → Disk → List ℕ → SubQuery → ℕ → Response × Limiter d Ip
  unfolding answer_users
  get_subscription limiter ip instant disk token q now =
      let (allowed, limiter') = allow d Ip limiter ip instant in
      if not allowed
      then (too_many_requests, limiter')
      else if nat_eq (length token) 0 || ltb 128 (length token)
      then (not_found, limiter')
      else (answer_users r (load_users h json_users users_file disk) token now q, limiter')
