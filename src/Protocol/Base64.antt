-- ===== src/Protocol/Base64.antt =====
-- The `base64` crate's standard engine, which this repository only calls: its two functions, and
-- what RFC 4648 says of them.
use packet_browser.Prelude.{ℕ, Bytes, Bool, true, ◌||◌, Option, some, ◌≡◌, All, IsBytes, ◌==◌}
use packet_browser.Text.Ascii.{is_alphanumeric}

abbrev pub is_base64 : ℕ → Bool
is_base64 c = is_alphanumeric c || c == b'+' || c == b'/' || c == b'='

pub record Base64 : Type 0 where
  pub encode : Bytes → Bytes
  pub decode : Bytes → Option Bytes
  pub decode_encoded : (payload : Bytes) → IsBytes payload → decode (encode payload) ≡ some payload
  pub alphabet : (payload : Bytes) → All (λ c. is_base64 c ≡ true) (encode payload)
