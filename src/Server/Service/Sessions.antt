-- ===== src/Server/Service/Sessions.antt =====
-- A session answers what the client sends, one answer for each request, in order.
use packet_browser.Prelude.{
  ◌+◌, ◌≡◌, ◌≢◌, ap, Bytes, Bool, List, [], ◌∷◌, ◌++◌, Option, none, codes, All, length,
  length-append, arith,
}
use packet_browser.Protocol.Request.RoundTrip.{Encodable}
use packet_browser.Protocol.Types.{Status, Request, get, post}
use packet_browser.Server.Fetch.Answers.{Answers}
use packet_browser.Server.Fetch.{World, Connection, Handled, load_page, loading, status_response}
use packet_browser.Server.Reader.Requests.{IsAcceptable}

-- The answers to requests met by these worlds, from one state of the connection to another.
pub data Served : List World → List Request → Connection → Connection → Type 0 where
  finished : (c : Connection) → Served [] [] c c
  got :
      {world : World} {worlds : List World} {requests : List Request} (url : Bytes)
      (if_none_match : Option Bytes) (c : Connection) (h : Handled) (c' : Connection)
      → Answers world url if_none_match c h
      → Served worlds requests h.1 c'
      → Served (world ∷ worlds) (get url if_none_match ∷ requests) c c'
  rejected :
      {world : World} {worlds : List World} {requests : List Request} (url body : Bytes)
      (c c' : Connection)
      → Served worlds requests
          (record c {
            sent =
                c.sent
                ++ status_response world Status.err (codes "POST requests are not supported") ∷ [];
          })
          c'
      → Served (world ∷ worlds) (post url body ∷ requests) c c'

-- The world lets a write through, and its browser comes to an end with every page.
abbrev pub IsWorking : World → Type 0
IsWorking world =
    (world.write_error ≡ none)
    × ((has_browser : Bool) → load_page has_browser world.pages world.launches ≢ loading)

-- One answer for each request.
pub Served-length :
    {worlds : List World} {requests : List Request} {c c' : Connection}
    → Served worlds requests c c'
    → length c'.sent ≡ length c.sent + length requests
Served-length (finished c) = omega arith
Served-length (got url if_none_match c h c' a s) =
    let one = ap length a.sent_is in
    omega (arith, one, length-append c.sent (a.response ∷ []), Served-length s)
Served-length (rejected url body c c' s) =
    omega (arith, length-append c.sent (_ ∷ []), Served-length s)

-- The client's requests, carried by the wire form and accepted by the server.
abbrev pub AreValid : List Request → Type 0
AreValid = All (λ r. Encodable r × IsAcceptable r)
