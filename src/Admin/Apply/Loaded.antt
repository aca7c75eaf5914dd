-- ===== src/Admin/Apply/Loaded.antt =====
-- What systemd has loaded after a change that is reported live (apps/admin/src/main.rs).
use vpn.Prelude.{ℕ, ◌≡◌, ◌⊎◌, inl, inr, ◌∙◌, string_Eq, true, false, List, some, ok, lookup}
use vpn.CompatConfig.Model.{CompatUser, RealityServerParams}
use vpn.CompatConfig.Disk.{File}
use vpn.CompatConfig.Server.Json.{Value}
use vpn.Admin.{Machine, World}
use vpn.Admin.Apply.{document, stamp_matches, is_rejected, verify_reality_handshake_or_warn}
use vpn.Admin.Apply.Live.{IsLive, was_loaded, was_current}

-- Where the stamp fits a document that the file holds, systemd has loaded the file.
abbrev pub StampIsHonest : Machine → World → Type 0
StampIsHonest m w =
    (doc : Value) (fp : List ℕ) (file : File)
    → m.fingerprint doc ≡ some fp
    → stamp_matches m fp w.disk ≡ true
    → lookup m.singbox_config_file w.disk ≡ some file
    → m.parses_to file.bytes doc ≡ true
    → w.loaded ≡ some file.bytes

-- Systemd has loaded the document of these users: its own text, which passed the check and with which
-- no test client was turned away, or another text that parses to it.
pub record IsLoaded (m : Machine) (users : List CompatUser) (reality : RealityServerParams)
    (w : World) : Type 0 where
  pub bytes : List ℕ
  pub is_loaded : w.loaded ≡ some bytes
  pub is_document :
      ((m.box.to_vec_pretty (document m users reality) ≡ some bytes)
        × (m.box.check bytes ≡ ok tt)
        × (is_rejected (verify_reality_handshake_or_warn m users reality) ≡ false))
      ⊎ (m.parses_to bytes (document m users reality) ≡ true)

pub live-IsLoaded :
    (m : Machine) (users : List CompatUser) (reality : RealityServerParams)
    (before applied after : World)
    → StampIsHonest m before
    → IsLive m users reality before applied
    → after.loaded ≡ applied.loaded
    → IsLoaded m users reality after
live-IsLoaded m users reality before applied after honest
      (was_loaded bytes printed checked loaded tried) same =
    record { bytes = bytes; is_loaded = same ∙ loaded; is_document = inl (printed, checked, tried) }
live-IsLoaded m users reality before applied after honest
      (was_current fp file e there parses stamp disk kept) same =
    record {
      bytes = file.bytes;
      is_loaded = same ∙ kept ∙ honest (document m users reality) fp file e stamp there parses;
      is_document = inr parses;
    }
