-- ===== src/Examples/Users.antt =====
-- Theorems on the users' file (crates/compat-config) and the subscription service
-- (services/subscription) for one user on a small disk.
use mathlib.Core.List.{Memᴰ}
use mathlib.Core.List.Memᴰ.{not-nil}
use vpn.Prelude.{
  ℕ, ◌≡◌, ◌≤◌, refl, String, string_Eq, true, List, [], ◌∷◌, length, none, some, ok, whole, nat_Eq,
  lookup,
}
use vpn.CompatConfig.Model.{io, CompatUser, UsersFile, is_active}
use vpn.CompatConfig.Disk.{Disk, Host, File}
use vpn.CompatConfig.Disk.Replaced.{IsReplaced}
use vpn.CompatConfig.Disk.Backup.{AreApart}
use vpn.CompatConfig.Users.{
  load_users, save_users_atomic, migrate_users, detect_users_schema, current, migrated,
}
use vpn.CompatConfig.Users.Laws.{load-save_users}
use vpn.CompatConfig.Users.Migration.{IsMigrated, migrate_users_done, migrate_users_failed}
use vpn.Rendezvous.RateLimiter.{Limiter}
use vpn.Rendezvous.RateLimiter
use vpn.Subscription.{Rendering, SubQuery, get_subscription, render_for, not_found, json}
use vpn.Subscription.Eviction.{allow}
use vpn.Subscription.Access.{IsEntitled, get_subscription_served, get_subscription_refused}
use vpn.Examples.UserCodecs.{users_codec, users_codec-laws}

abbrev alice : CompatUser
alice = record {
  id = "user_1";
  name = "alice";
  enabled = true;
  vless_uuid = "uuid";
  hysteria2_password = "secret";
  subscription_token_hash_hex = "hash";
  created_at = 1;
  expires_at = some 500;
}

abbrev users : List CompatUser
users = alice ∷ []

abbrev pub stored : UsersFile
stored = record { schema_version = 1; users = users }

abbrev pub path : String
path = "users.json"

-- a host on which every call succeeds
abbrev pub host : Host
host = record {
  parent = λ p. some "users";
  tmp_of = λ p. "users.json.tmp.1";
  backup_of = λ p. "users.json.bak";
  dir_gid = λ p. some 7;
  process_uid = 0;
  process_gid = 0;
  masked = λ mode. mode;
  create_dir_ok = true;
  dir_mode_ok = true;
  chown_ok = true;
  rename_ok = true;
  chmod_ok = true;
  unlink_ok = true;
  read_ok = λ n. true;
  short_write = λ p. none;
}

-- a host whose writes stop after two bytes
abbrev full : Host
full = record host { short_write = λ p. some (7 ∷ 7 ∷ []) }

abbrev empty_disk : Disk
empty_disk = []

-- a disk with the bare list of older versions, for a service's group
abbrev pub legacy_disk : Disk
legacy_disk = (path, record { bytes = 8 ∷ []; mode = 416; uid = 0; gid = 9 }) ∷ []

apart : AreApart host path
apart = record { tmp = λ h. cc; backup = λ h. cc; siblings = λ h. cc }

apart_full : AreApart full path
apart_full = record { tmp = λ h. cc; backup = λ h. cc; siblings = λ h. cc }

saved : (save_users_atomic host (users_codec stored) path users legacy_disk).0 ≡ ok tt
unfolding save_users_atomic vpn.CompatConfig.Disk.replace
saved = refl

load-save_users_example :
    let after = (save_users_atomic host (users_codec stored) path users legacy_disk).1 in
    (load_users host (users_codec stored) path after ≡ ok users)
    × (detect_users_schema host (users_codec stored) path after ≡ current)
    × ((bytes : List ℕ) × IsReplaced host path bytes 416 legacy_disk after)
load-save_users_example =
    load-save_users host (users_codec stored) (users_codec-laws stored) path users legacy_disk
      apart.tmp refl saved

done : (migrate_users host (users_codec stored) path legacy_disk).0 ≡ ok (migrated "users.json.bak")
unfolding migrate_users detect_users_schema vpn.CompatConfig.Disk.read
    vpn.CompatConfig.Disk.backup_before_mutate vpn.CompatConfig.Disk.atomic_write
done = refl

migrate_users_done_example :
    IsMigrated host
      (users_codec stored)
      (users_codec-laws stored)
      path
      "users.json.bak"
      legacy_disk
      (migrate_users host (users_codec stored) path legacy_disk).1
migrate_users_done_example =
    migrate_users_done host (users_codec stored) (users_codec-laws stored) path "users.json.bak"
      legacy_disk apart (λ n. refl) done

-- every token but the empty one hashes to that of the user
abbrev pub rendering : Rendering
rendering = record {
  endpoints = [];
  to_string_pretty = λ doc. "document";
  hash_token = λ token. elim token [ [] ↦ "" | t ∷ ts ↦ elim ts [ [] ↦ "hash" | _ ∷ _ ↦ "other" ] ];
}

abbrev pub token : List ℕ
token = 5 ∷ []

abbrev pub query : SubQuery
query = record { format = none; profile = some "auto" }

abbrev pub limiter : Limiter whole ℕ
limiter = RateLimiter.new whole ℕ 2 1

answered :
    (get_subscription whole ℕ rendering host
      (users_codec stored)
      path
      limiter
      1
      0
      legacy_disk
      token
      query
      100).0
    ≡ json "document"
unfolding get_subscription allow load_users RateLimiter.allow vpn.CompatConfig.Disk.read render_for
    is_active
answered = refl

get_subscription_served_example :
    let answer =
      (get_subscription whole ℕ rendering host
        (users_codec stored)
        path
        limiter
        1
        0
        legacy_disk
        token
        query
        100).0 in
    (us : List CompatUser) × (u : CompatUser) × (load_users host
        (users_codec stored)
        path
        legacy_disk
      ≡ ok us)
    × Memᴰ u us
    × IsEntitled rendering token 100 u
    × (answer ≡ render_for rendering u query)
    × (1 ≤ length token)
    × (length token ≤ 128)
get_subscription_served_example =
    get_subscription_served whole ℕ rendering host (users_codec stored) path limiter 1 0 legacy_disk
      token query 100 (λ h. cc (answered, h), λ h. cc (answered, h), λ h. cc (answered, h))

-- at the instant 500 the user has expired
expired_user : (u : CompatUser) → Memᴰ u users → ¬ IsEntitled rendering token 500 u
unfolding is_active
expired_user u (Memᴰ.head q) i = cc (i.active, q)
expired_user u (Memᴰ.tail m) i = not-nil m

migrate_users_failed_example :
    lookup path (migrate_users full (users_codec stored) path legacy_disk).1
    ≡ lookup path legacy_disk
unfolding migrate_users detect_users_schema vpn.CompatConfig.Disk.read
    vpn.CompatConfig.Disk.backup_before_mutate
migrate_users_failed_example =
    migrate_users_failed full (users_codec stored) path legacy_disk io apart_full refl

get_subscription_refused_example :
    (get_subscription whole ℕ rendering host
      (users_codec stored)
      path
      limiter
      1
      0
      legacy_disk
      token
      query
      500).0
    ≡ not_found
unfolding allow load_users RateLimiter.allow vpn.CompatConfig.Disk.read
get_subscription_refused_example =
    get_subscription_refused whole ℕ rendering host (users_codec stored) path limiter 1 0
      legacy_disk token query 500 users refl refl expired_user
