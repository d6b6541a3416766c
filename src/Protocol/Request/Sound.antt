-- ===== src/Protocol/Request/Sound.antt =====
-- What `decode` accepts: input that begins with the encoding of the result.
use packet_browser.Prelude.{ℕ, Bytes, ◌∷◌, ◌++◌, ◌≡◌, ◌>>=◌, length, drop}
use packet_browser.Protocol.Request.{newline}
use packet_browser.Protocol.Types.{Request}

-- The line read, its newline, and the rest.
pub record IsLine (input : Bytes) (start : ℕ) (line : Bytes) (line_end : ℕ) : Type 0 where
  pub rest : Bytes
  pub splits : drop start input ≡ line ++ newline ∷ rest
  pub index : line_end ≡ length line
