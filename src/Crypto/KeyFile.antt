-- ===== src/Crypto/KeyFile.antt =====
-- crates/crypto/src/lib.rs: `save_to_file` and `load_from_file` on Unix, over a file system that is
-- a map from paths to modes and contents. The umask is one that leaves the owner's bits alone, so a
-- new file has the mode that is asked for.
pub mod Laws
use vpn.Prelude.{
  ℕ, String, string_Eq, ◌%◌, Bool, not, nat_eq, if◌then◌else◌, List, [], length, Option, none, some,
  Result, ok, err, ◌>>=◌, ◌>>◌, fail_if, ok_or, Map, lookup, insert,
}
use vpn.Crypto.{CryptoError, malformed_key, insecure_key_permissions, KeyPair}
use vpn.Crypto.Hex.{HexCodec, trim}

pub record File : Type 0 where
  pub mode : ℕ
  pub contents : List ℕ

abbrev pub Files : Type 0
Files = Map String File

module _ (x : HexCodec) where
  -- `create_new` refuses a path that is taken; `disk_ok` says whether the disk takes the write.
  unfoldable pub save_to_file :
      Bool → KeyPair → String → Files → Result CryptoError (Unit {0}) × Files
  save_to_file disk_ok k path files = elim (lookup path files) [
    | some f ↦ (err malformed_key, files)
    | none ↦
        if disk_ok
        then (ok tt, insert path (record { mode = 0o600; contents = x.encode k.signing_key }) files)
        else (err malformed_key, insert path (record { mode = 0o600; contents = [] }) files)
  ]

  -- `mode & 0o077` is the six low bits.
  unfoldable pub load_from_file : String → Files → Result CryptoError KeyPair
  load_from_file path files = do
    f ← ok_or (lookup path files) malformed_key
    fail_if (not (nat_eq (f.mode % 64) 0)) insecure_key_permissions
    bytes ← ok_or (x.decode (trim f.contents)) malformed_key
    fail_if (not (nat_eq (length bytes) 32)) malformed_key
    ok (record { signing_key = bytes })
