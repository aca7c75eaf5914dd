-- ===== src/Common/Framing.antt =====
-- crates/common/src/framing.rs: the destination header that a client sends before the raw stream.
-- A host is the bytes of its text. Where the source indexes or slices a buffer, the model does so
-- with a fault `panicked` for a position out of range.
mod Utf8
pub mod Decode
pub mod Stream
pub mod RoundTrip
pub mod Reading
unfoldable pub use Utf8.{is_utf8}
pub use Utf8.{IsAscii, IsAscii-is_utf8}
use Prim.Native.Nat.{◌≤◌}
use vpn.Prelude.{
  ℕ, ◌+◌, ◌*◌, ◌-◌, ◌%◌, ◌≡◌, Bool, ltb, leb, nat_eq, not, if◌then◌else◌, List, [], ◌∷◌, ◌++◌,
  length, get_elem?, take, drop, Option, none, some, Result, ok, err, ◌>>=◌, ◌>>◌, fail_if, ok_or,
  map_err, to_be_bytes,
}

abbrev pub version : ℕ
version = 1

abbrev pub max_host_len : ℕ
max_host_len = 255

pub data FramingError : Type 0 where
  unsupported_version : ℕ → FramingError
  host_too_long : ℕ → FramingError
  invalid_utf8 : FramingError

pub data Fault : Type 0 where
  error : FramingError → Fault
  panicked : Fault

-- `u16::from_be_bytes([hi, lo])`
abbrev pub from_be_bytes : ℕ → ℕ → ℕ
from_be_bytes hi lo = hi * 256 + lo

-- `len as u16` keeps the low 16 bits
unfoldable pub encode_destination : List ℕ → ℕ → Result FramingError (List ℕ)
unfolding to_be_bytes
encode_destination host port = do
  fail_if (ltb max_host_len (length host)) (host_too_long (length host))
  ok ((version ∷ []) ++ (to_be_bytes 2 (length host % 65536) ++ (host ++ to_be_bytes 2 port)))

-- `buf[i]`
abbrev pub byte_at : List ℕ → ℕ → Result Fault ℕ
byte_at buf i = ok_or (get_elem? buf i) panicked

-- `&buf[lo..hi]`
abbrev pub slice : List ℕ → ℕ → ℕ → Result Fault (List ℕ)
slice buf lo hi =
    if leb lo hi
    then if leb hi (length buf) then ok (take (hi - lo) (drop lo buf)) else err panicked
    else err panicked

-- The part of `decode_destination` that runs once the whole header is in the buffer.
unfoldable pub decode_body : List ℕ → ℕ → Result Fault (List ℕ × ℕ × ℕ)
decode_body buf host_len = do
  host ← slice buf 3 (3 + host_len)
  fail_if (not (is_utf8 host)) (error invalid_utf8)
  hi ← byte_at buf (3 + host_len)
  lo ← byte_at buf (3 + host_len + 1)
  ok (host, from_be_bytes hi lo, 3 + host_len + 2)

-- `Ok(None)` asks for more bytes; `Ok(Some(host, port, consumed))` is a header.
unfoldable pub decode_destination : List ℕ → Result Fault (Option (List ℕ × ℕ × ℕ))
decode_destination buf = if nat_eq (length buf) 0 then ok none else do
  v ← byte_at buf 0
  fail_if (not (nat_eq v version)) (error (unsupported_version v))
  if ltb (length buf) 3 then ok none else do
    hi ← byte_at buf 1
    lo ← byte_at buf 2
    let host_len = from_be_bytes hi lo
    fail_if (ltb max_host_len host_len) (error (host_too_long host_len))
    if ltb (length buf) (3 + host_len + 2)
        then ok none
        else do r ← decode_body buf host_len; ok (some r)

-- Reading from a stream: the bytes still to come. A stream that ends early is `unexpected_eof`.
pub data IoError : Type 0 where
  invalid_data invalid_input : FramingError → IoError
  unexpected_eof : IoError

-- `read_exact` of `n` bytes, with what is left of the stream
unfoldable pub read_exact : ℕ → List ℕ → Result IoError (List ℕ × List ℕ)
read_exact n s = if leb n (length s) then ok (take n s, drop n s) else err unexpected_eof

unfoldable pub read_u8 : List ℕ → Result IoError (ℕ × List ℕ)
read_u8 [] = err unexpected_eof
read_u8 (b ∷ s) = ok (b, s)

unfoldable pub read_u16 : List ℕ → Result IoError (ℕ × List ℕ)
read_u16 (hi ∷ lo ∷ s) = ok (from_be_bytes hi lo, s)
read_u16 _ = err unexpected_eof

unfoldable pub read_destination : List ℕ → Result IoError ((List ℕ × ℕ) × List ℕ)
unfolding read_exact read_u8 read_u16
read_destination s = do
  (v, s1) ← read_u8 s
  fail_if (not (nat_eq v version)) (invalid_data (unsupported_version v))
  (host_len, s2) ← read_u16 s1
  fail_if (ltb max_host_len host_len) (invalid_data (host_too_long host_len))
  (host, s3) ← read_exact host_len s2
  fail_if (not (is_utf8 host)) (invalid_data invalid_utf8)
  (port, s4) ← read_u16 s3
  ok ((host, port), s4)

-- `write_destination`: what the stream gets, or nothing when the host is refused
unfoldable pub write_destination : List ℕ → List ℕ → ℕ → Result IoError (List ℕ)
unfolding encode_destination
write_destination sent host port = do
  buf ← map_err invalid_input (encode_destination host port)
  ok (sent ++ buf)
