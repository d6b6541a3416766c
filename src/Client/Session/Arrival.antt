-- ===== src/Client/Session/Arrival.antt =====
-- The loop of `handle_send_request` ends with the response, once its bytes have come.
use packet_browser.Agwpe.Transport.{TransportError, TransportEvent, data_event}
use packet_browser.Prelude.{Bytes, Result, ok}
use packet_browser.Protocol.Base64.{Base64}
use packet_browser.Protocol.Types.{Response}

abbrev pub delivered : Bytes → Result TransportError TransportEvent
delivered bytes = ok (data_event bytes)
