-- ===== src/Crypto/KeyFile/Laws.antt =====
-- A key that is saved is the key that is loaded, a key file is never overwritten, and a file that
-- others can reach is never loaded (crates/crypto/src/lib.rs).
use vpn.Prelude.{
  String, string_Eq, ◌%◌, ◌≡◌, ◌≢◌, Bool, true, [], length, none, some, ok, err, arith, lookup,
  lookup-insert,
}
use text.Mathlib.TextEquality.{eq_iff}
use vpn.Crypto.{malformed_key, insecure_key_permissions, KeyPair}
use vpn.Crypto.Hex.{HexCodec, HexLaws, trim-IsSolid}
use vpn.Crypto.KeyFile.{File, Files, save_to_file, load_from_file}

module _ (x : HexCodec) (laws : HexLaws x) where
  -- Saving a 32-byte key at a free path and loading it gives the key back; at a path that is taken
  -- nothing is written.
  pub load-save :
      (k : KeyPair) (path : String) (files : Files)
      → length k.signing_key ≡ 32
      → (lookup path files ≡ none
          → let (r, files') = save_to_file x true k path files in
            (r ≡ ok tt) × (load_from_file x path files' ≡ ok k))
        × ((f : File)
            → lookup path files ≡ some f
            → save_to_file x true k path files ≡ (err malformed_key, files))
  unfolding save_to_file load_from_file
  load-save k path files h =
      let file : File = record { mode = 0o600; contents = x.encode k.signing_key } in
      (
        λ free. (
          ground arith,
          ground (
            arith,
            lookup-insert path path file files,
            eq_iff path path,
            trim-IsSolid (x.encode k.signing_key) (laws.encode-IsSolid k.signing_key),
            laws.decode-encode k.signing_key,
          ),
        ),
        λ f taken. ground arith,
      )

  -- Saving touches no other path.
  pub save_elsewhere :
      (disk_ok : Bool) (k : KeyPair) (path other : String) (files : Files)
      → path ≢ other
      → lookup other (save_to_file x disk_ok k path files).1 ≡ lookup other files
  unfolding save_to_file
  save_elsewhere disk_ok k path other files h = ground (
    arith,
    lookup-insert path other (record { mode = 0o600; contents = x.encode k.signing_key }) files,
    lookup-insert path other (record { mode = 0o600; contents = [] }) files,
    eq_iff path other,
  )

  -- Whatever it holds, a file with a permission for group or others is refused.
  pub load-insecure :
      (path : String) (files : Files) (f : File)
      → lookup path files ≡ some f
      → f.mode % 64 ≢ 0
      → load_from_file x path files ≡ err insecure_key_permissions
  unfolding load_from_file
  load-insecure path files f e h = ground arith
