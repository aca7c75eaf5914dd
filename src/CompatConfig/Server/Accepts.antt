-- ===== src/CompatConfig/Server/Accepts.antt =====
-- Which credentials a configuration admits (crates/compat-config/src/server.rs).
use mathlib.Core.List.{Memᴰ}
use mathlib.Core.List.Memᴰ.{not-nil}
use vpn.Prelude.{
  ℕ, ◌≡◌, ◌↔◌, inl, inr, refl, sym, ◌∙◌, ap, String, string_Eq, ◌==◌, Bool, true, ◌&&◌, List, [],
  ◌∷◌, map, keep, mem-keep, keep-mem, Option, none, some, Bool-cases, arith,
}
use vpn.CompatConfig.Model.{CompatUser, is_active, RealityServerParams, Hysteria2ServerParams}
use vpn.CompatConfig.Server.Json.{Value, bool, num, str, object, get, array, elements-array}
use vpn.CompatConfig.Server.Reading.{is_option_text, listed, has, any_of, elements_at}
use vpn.CompatConfig.Server.{
  ServerPorts, vless_user, hysteria_user, vless_inbound, hysteria_inbound, with_masquerade,
  with_obfs, with_bandwidth, render_singbox_server_config,
}

-- An inbound of this type has a user whose field holds the secret.
unfoldable pub accepts : String → String → String → Value → Bool
unfolding any_of has elements_at
accepts kind key secret doc =
    any_of
      (λ inbound. has "type" kind inbound && any_of (has key secret) (elements_at "users" inbound))
      (elements_at "inbounds" doc)

-- Some user in the list is active and has this secret.
pub record IsAdmitted (users : List CompatUser) (now : ℕ) (secret_of : CompatUser → String)
    (secret : String) : Type 0 where
  pub user : CompatUser
  pub stored : Memᴰ user users
  pub active : is_active user now ≡ true
  pub matches : secret_of user ≡ secret

any_users_sound :
    (f : CompatUser → Value) (key secret : String) (secret_of : CompatUser → String)
    → ((u : CompatUser) → has key secret (f u) ≡ (secret_of u == secret))
    → (us : List CompatUser) → any_of (has key secret) (map f us) ≡ true
    → (u : CompatUser) × Memᴰ u us × (secret_of u ≡ secret)
unfolding any_of
any_users_sound f key secret secret_of h [] e = absurd (cc)
any_users_sound f key secret secret_of h (u ∷ us) e = elim (Bool-cases (secret_of u == secret)) [
  | inl same ↦ (u, Memᴰ.head refl, (string_Eq.beq_iff (secret_of u) secret).0 same)
  | inr other ↦
      let (v, inside, same) = any_users_sound f key secret secret_of h us (ground (arith, h u)) in
      (v, Memᴰ.tail inside, same)
]

any_users_complete :
    (f : CompatUser → Value) (key secret : String) (secret_of : CompatUser → String)
    → ((u : CompatUser) → has key secret (f u) ≡ (secret_of u == secret))
    → (us : List CompatUser) (u : CompatUser) → Memᴰ u us
    → secret_of u ≡ secret
    → any_of (has key secret) (map f us) ≡ true
unfolding any_of
any_users_complete f key secret secret_of h [] u m same = absurd (not-nil m)
any_users_complete f key secret secret_of h (v ∷ us) u (Memᴰ.head q) same =
    ground (arith, h v, ap secret_of q, string_Eq.beq_iff (secret_of v) secret)
any_users_complete f key secret secret_of h (v ∷ us) u (Memᴰ.tail m) same =
    ground (arith, any_users_complete f key secret secret_of h us u m same)

-- what the Hysteria2 inbound says of its obfuscation
unfoldable pub obfs_object : Option String → Option Value
obfs_object none = none
obfs_object (some password) =
    some (object (("type", str "salamander") ∷ ("password", str password) ∷ []))

-- the optional fields of the Hysteria2 inbound leave the others, and the obfuscation is as it is set
pub optional_fields :
    (masquerade obfs : Option String) (up down : Option ℕ) (kind port users tls : Value)
    → let v = with_bandwidth up down (
        with_obfs obfs (
          with_masquerade masquerade (
            object (
              ("type", kind)
              ∷ ("tag", str "hysteria2-in")
              ∷ ("listen", str "::")
              ∷ ("listen_port", port)
              ∷ ("users", users)
              ∷ ("tls", tls)
              ∷ [])))) in
      (get "type" v ≡ some kind)
      × (get "users" v ≡ some users)
      × (get "listen_port" v ≡ some port)
      × (get "obfs" v ≡ obfs_object obfs)
      × (get "tls" v ≡ some tls)
unfolding with_bandwidth with_obfs with_masquerade obfs_object
optional_fields none none none down kind port users tls = (refl, refl, refl, refl, refl)
optional_fields none none (some up) none kind port users tls = (refl, refl, refl, refl, refl)
optional_fields none none (some up) (some down) kind port users tls = (refl, refl, refl, refl, refl)
optional_fields none (some o) none down kind port users tls = (refl, refl, refl, refl, refl)
optional_fields none (some o) (some up) none kind port users tls = (refl, refl, refl, refl, refl)
optional_fields none (some o) (some up) (some down) kind port users tls =
    (refl, refl, refl, refl, refl)
optional_fields (some m) none none down kind port users tls = (refl, refl, refl, refl, refl)
optional_fields (some m) none (some up) none kind port users tls = (refl, refl, refl, refl, refl)
optional_fields (some m) none (some up) (some down) kind port users tls =
    (refl, refl, refl, refl, refl)
optional_fields (some m) (some o) none down kind port users tls = (refl, refl, refl, refl, refl)
optional_fields (some m) (some o) (some up) none kind port users tls =
    (refl, refl, refl, refl, refl)
optional_fields (some m) (some o) (some up) (some down) kind port users tls =
    (refl, refl, refl, refl, refl)

module _ (users : List CompatUser) (reality : RealityServerParams)
    (hysteria : Hysteria2ServerParams) (ports : ServerPorts) (now : ℕ) where
  active_users : List CompatUser
  active_users = keep (λ u. is_active u now) users

  users_of_inbounds :
      (elements_at "users" (vless_inbound active_users reality ports) ≡ map vless_user active_users)
      × (elements_at "users" (hysteria_inbound active_users hysteria ports)
          ≡ map hysteria_user active_users)
      × (get "type" (hysteria_inbound active_users hysteria ports) ≡ some (str "hysteria2"))
  unfolding elements_at vless_inbound hysteria_inbound
  users_of_inbounds =
      let tls = object (
        ("enabled", bool true)
        ∷ ("certificate_path", str hysteria.tls_cert_path)
        ∷ ("key_path", str hysteria.tls_key_path)
        ∷ []) in
      let (kind, us, _, _, _) =
        optional_fields hysteria.masquerade_dir_path hysteria.obfs_password hysteria.up_mbps
          hysteria.down_mbps (str "hysteria2") (num ports.hysteria2_port)
          (array (map hysteria_user active_users)) tls in
      (
        elements-array (map vless_user active_users),
        ap listed us ∙ elements-array (map hysteria_user active_users),
        kind,
      )

  hysteria-kind :
      (k : String)
      → has "type" k (hysteria_inbound active_users hysteria ports) ≡ ("hysteria2" == k)
  unfolding has
  hysteria-kind k = ap (is_option_text k) users_of_inbounds.2

  accepts-vless :
      (id : String)
      → accepts "vless" "uuid" id (render_singbox_server_config users reality hysteria ports now)
        ≡ any_of (has "uuid" id) (map vless_user active_users)
  unfolding accepts render_singbox_server_config active_users any_of
  accepts-vless id =
      ground (arith, ap (any_of (has "uuid" id)) users_of_inbounds.0, hysteria-kind "vless")

  accepts-hysteria :
      (password : String)
      → accepts "hysteria2" "password" password
          (render_singbox_server_config users reality hysteria ports now)
        ≡ any_of (has "password" password) (map hysteria_user active_users)
  unfolding accepts render_singbox_server_config active_users any_of
  accepts-hysteria password =
      ground (
        arith,
        ap (any_of (has "password" password)) users_of_inbounds.1,
        hysteria-kind "hysteria2",
      )

  admits :
      (f : CompatUser → Value) (key secret : String) (secret_of : CompatUser → String)
      → ((u : CompatUser) → has key secret (f u) ≡ (secret_of u == secret))
      → (any_of (has key secret) (map f active_users) ≡ true)
        ↔ IsAdmitted users now secret_of secret
  unfolding active_users
  admits f key secret secret_of h = (
    λ e.
        let (u, inside, same) = any_users_sound f key secret secret_of h active_users e in
        let (stored, active) = mem-keep (λ v. is_active v now) users inside in
        record { user = u; stored = stored; active = active; matches = same },
    λ a.
        any_users_complete f key secret secret_of h active_users a.user
          (keep-mem (λ v. is_active v now) a.stored a.active) a.matches,
  )

  has-vless_user :
      (id : String) (u : CompatUser) → has "uuid" id (vless_user u) ≡ (u.vless_uuid == id)
  unfolding has vless_user
  has-vless_user id u = refl

  has-hysteria_user :
      (p : String) (u : CompatUser)
      → has "password" p (hysteria_user u) ≡ (u.hysteria2_password == p)
  unfolding has hysteria_user
  has-hysteria_user p u = refl

  -- The configuration that is rendered admits a VLESS identifier, and a Hysteria2 password, exactly
  -- when it is that of a user in the list who is active.
  pub render_admits :
      (id password : String)
      → ((accepts "vless" "uuid" id (render_singbox_server_config users reality hysteria ports now)
            ≡ true)
          ↔ IsAdmitted users now (λ u. u.vless_uuid) id)
        × ((accepts "hysteria2" "password" password
                (render_singbox_server_config users reality hysteria ports now)
              ≡ true)
            ↔ IsAdmitted users now (λ u. u.hysteria2_password) password)
  render_admits id password =
      let (sound, complete) = admits vless_user "uuid" id (λ u. u.vless_uuid) (has-vless_user id) in
      let (sound', complete') =
        admits hysteria_user "password" password (λ u. u.hysteria2_password)
          (has-hysteria_user password) in
      (
        (λ e. sound (sym (accepts-vless id) ∙ e), λ a. accepts-vless id ∙ complete a),
        (
          λ e. sound' (sym (accepts-hysteria password) ∙ e),
          λ a. accepts-hysteria password ∙ complete' a,
        ),
      )
