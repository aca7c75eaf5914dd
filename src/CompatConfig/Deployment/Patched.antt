-- ===== src/CompatConfig/Deployment/Patched.antt =====
-- The text of `deployment.toml` before and after its migration
-- (crates/compat-config/src/deployment.rs).
use vpn.Prelude.{
  ℕ, ◌≡◌, inl, inr, refl, sym, ap, ◌∙◌, String, string_Eq, true, nat_eq_iff, List, ◌∷◌, ◌++◌,
  Option, none, some, Result, ok, ◌>>=◌, lookup, ok_or, arith, Option-cases, bind-ok, ok_or-ok,
  Bool-cases, ok-injective,
}
use vpn.CompatConfig.Model.{CompatError, parse}
use vpn.CompatConfig.Disk.{File, Disk, Host, read}
use vpn.CompatConfig.Deployment.{
  Toml, DeploymentConfig, version_key, any_versioned, lines, migrate_deployment_toml_text, validate,
  check_patched, patch, read_to_string, deployment_schema_version, starts_with, same_settings,
}
use vpn.CompatConfig.Deployment.Settings.{same_settings-equal}

some-injective {ℓ} : {A : Type ℓ} {a b : A} → ◌≡◌ {A = Option A} (some a) (some b) → a ≡ b
some-injective h = cc

key_line_versioned :
    (t : List ℕ) → any_versioned (lines (version_key ++ (32 ∷ 61 ∷ 32 ∷ 49 ∷ 10 ∷ t))) ≡ true
unfolding any_versioned lines starts_with vpn.Crypto.Hex.trim_start vpn.Crypto.Hex.is_white
key_line_versioned t = refl

patched_text :
    (original patched : List ℕ)
    → migrate_deployment_toml_text original ≡ some patched
    → patched ≡ version_key ++ (32 ∷ 61 ∷ 32 ∷ 49 ∷ 10 ∷ original)
unfolding migrate_deployment_toml_text
patched_text original patched h = elim (Bool-cases (any_versioned (lines original))) [
  | inl e ↦ absurd (cc (rw e at h))
  | inr e ↦ sym (some-injective (rw e at h))
]

-- A text that has been migrated is not migrated again.
pub migrate_deployment_toml_text_once :
    (original patched : List ℕ)
    → migrate_deployment_toml_text original ≡ some patched
    → migrate_deployment_toml_text patched ≡ none
unfolding migrate_deployment_toml_text
migrate_deployment_toml_text_once original patched h =
    rw (patched_text original patched h, key_line_versioned original) refl

module _ (toml : Toml) where
  -- What a text and the text patched from it have in common.
  pub record IsPatched (original patched : List ℕ) : Type 0 where
    -- the line `schema_version = 1` stands before the text
    pub line_first : patched ≡ version_key ++ (32 ∷ 61 ∷ 32 ∷ 49 ∷ 10 ∷ original)
    pub original_cfg : DeploymentConfig
    pub migrated_cfg : DeploymentConfig
    pub original_parsed : toml.from_str original ≡ some original_cfg
    pub migrated_parsed : toml.from_str patched ≡ some migrated_cfg
    pub migrated_valid : validate migrated_cfg ≡ ok tt
    pub migrated_version : migrated_cfg.schema_version ≡ deployment_schema_version
    pub settings_kept :
        migrated_cfg ≡ record original_cfg { schema_version = migrated_cfg.schema_version }

module _ (h : Host) (toml : Toml) where
  check_patched-ok :
      (cfg : DeploymentConfig) (text : List ℕ) {p : List ℕ}
      → check_patched h toml cfg text ≡ ok p
      → (m : DeploymentConfig) × (p ≡ text)
        × (toml.from_str text ≡ some m)
        × (validate m ≡ ok tt)
        × (m.schema_version ≡ deployment_schema_version)
        × (same_settings cfg m ≡ true)
  unfolding check_patched
  check_patched-ok cfg text h' =
      let (m, parsed, rest) = bind-ok (ok_or (toml.from_str text) parse) _ h' in
      (
        m,
        ground arith,
        ok_or-ok (toml.from_str text) parse parsed,
        ground arith,
        ground (arith, nat_eq_iff m.schema_version deployment_schema_version),
        ground arith,
      )

  text_patched :
      (o : Option (List ℕ)) (cfg : DeploymentConfig) {p : List ℕ}
      → ◌≡◌ {A = Result CompatError (Option (List ℕ))}
          (elim o [ none ↦ ok none | some t ↦ check_patched h toml cfg t >>= λ q. ok (some q) ])
          (ok (some p))
      → (t : List ℕ) × (o ≡ some t) × (check_patched h toml cfg t ≡ ok p)
  text_patched none cfg h' = absurd (cc)
  text_patched (some t) cfg h' =
      let (q, checked, same) = bind-ok (check_patched h toml cfg t) (λ q. ok (some q)) h' in
      (t, refl, checked ∙ ap ok (some-injective (ok-injective same)))

  read-bytes :
      (path : String) (d : Disk) {text : List ℕ}
      → read_to_string h toml 0 path d ≡ ok text
      → (file : File) × (lookup path d ≡ some file) × (file.bytes ≡ text)
  unfolding read_to_string read
  read-bytes path d h' = elim (Option-cases (lookup path d)) [
    | inl e ↦ absurd (ground arith)
    | inr (file, e) ↦ (file, e, ground arith)
  ]

  pub patch-some :
      (path : String) (d : Disk) {p : List ℕ}
      → patch h toml path d ≡ ok (some p)
      → (file : File) × (lookup path d ≡ some file) × IsPatched toml file.bytes p
  unfolding patch
  patch-some path d {p} h' =
      let (text, was_read, h1) = bind-ok (read_to_string h toml 0 path d) _ h' in
      let (cfg, parsed, h2) = bind-ok (ok_or (toml.from_str text) parse) _ h1 in
      let (_, valid, h3) = bind-ok (validate cfg) _ h2 in
      let (t, made, checked) = text_patched (migrate_deployment_toml_text text) cfg h3 in
      let (m, same, parsed', valid', version, settings) = check_patched-ok cfg t checked in
      let (file, there, bytes) = read-bytes path d was_read in
      (
        file,
        there,
        record {
          line_first =
              patched_text file.bytes p
                (ap migrate_deployment_toml_text bytes ∙ made ∙ ap some (sym same));
          original_cfg = cfg;
          migrated_cfg = m;
          original_parsed = ap toml.from_str bytes ∙ ok_or-ok (toml.from_str text) parse parsed;
          migrated_parsed = ap toml.from_str same ∙ parsed';
          migrated_valid = valid';
          migrated_version = version;
          settings_kept = same_settings-equal cfg m settings;
        },
      )
