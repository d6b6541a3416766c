-- ===== src/Lib.antt =====
-- packet-browser: a web browser for packet radio. A client on the operator's machine talks through
-- a modem and an AX.25 node to a server, which loads pages in a browser and sends them compressed.
--
-- What is modelled, by file:
-- - Protocol (shared/src/protocol.rs): `Request` and `Response`. Request holds `Request::encode` and
--   `decode`; Response holds `Response::encode`, `decode_header` and `decode_payload`. A `String` is
--   its UTF-8 bytes and a `Vec<u8>` a list of bytes, both lists of native numbers. The base64 crate
--   is the interface of Protocol/Base64, with the laws of RFC 4648.
-- - Agwpe (client/src/transport/agwpe.rs): Types and Frame hold the frames of the modem's protocol and
--   their codec; Stream holds `read_frame_from_stream`, with the socket as the list of what its reads
--   give and `read_buf` as the state. Transport holds `send`, `recv` and `open_ax25_link`; the wait for
--   the link runs on the number of frames that are read before its deadline, and a socket that stays
--   silent is a timeout. Log entries are left out there.
-- - Server/Filter (server/src/filter.rs), Server/Blocklist (server/src/blocklist.rs): which names and
--   addresses may be fetched. Blocklist/HostsFile reads a line of a hosts file, Blocklist/Refresh holds
--   `fetch_capped`, `update_blocklist` and the loop of `start_blocklist_manager`, which runs on the list
--   of its refreshes, with the HTTP client of each as a parameter. `Net` stands for the url crate, the
--   resolver and the text form of IPv6 addresses.
-- - Server/Admission (`main` in server/src/main.rs): the two counters of connections. The accepting
--   thread and the threads of the connections take atomic actions in any order.
-- - Server/Reader (`read_bounded_line_until`, `read_exact_until` and `read_request` in
--   server/src/main.rs): reads from a socket that gives bytes, wake-ups of the poll, the passing of
--   the deadline, and errors. BufReader's buffer is part of that list.
-- - Server/Handshake (server/src/session.rs, the first half of `handle_connection`): the callsign and
--   the consent. The loop that skips the node's lines runs on fuel, one more than the items to come;
--   each round reads at least one of them, so that the fuel is enough. A peer that never ends is one
--   whose items go on behind the deadline: Handshake/Ending is about every continuation of the items up
--   to there. The prompts that the server writes meanwhile are left out.
-- - Server/Fetch (`handle_request` and the senders in server/src/main.rs, entries of
--   server/src/logger.rs): `World` stands for the browser's launches and page loads, the brotli
--   and sha2 crates and the probe of the origin. A load that never ends gives `none`.
-- - Server/Service (`handle_connection`): the loop of a session, with one world for each round. A
--   write to the stream fails or succeeds as a whole within one request.
-- - Server/OriginCc (`parse_cache_control` in server/src/origin_cc.rs): the httpdate crate is a
--   parameter. A panic is `none`.
-- - Client/State (client/src/state.rs): `AppState` and its operations, without time stamps, the
--   configuration and the channel of the pending consent.
-- - Client/Session (client/src/transport/session.rs): the driver of a session. A transport is what its
--   operations answer: the list of what `recv` gives, and an answer for each call that reaches the
--   wire, which the model also records; behind the list every deadline passes, so that the loops are
--   recursion on it. The abort flag is what each look at it finds. Prompts holds the steps of the
--   handshake, Requests a request, Reconnect the handshake with consent and the way back.
-- - Client/Manager (client/src/transport/manager.rs): `background_task` and its handlers over the driver.
-- - Client/Cache (client/src/cache.rs): the pages that the client keeps. The table of SQLite is its
--   rows, and each statement what its SQL says of them; `Sql` holds what SQLite decides.
-- - Client/Front (client/src/proxy.rs): `handle_browse`, `dispatch_ax25` and `serve_from_hit`, over the
--   cache and the driver. `Web` holds the crates, the configuration, and the clock, which is read once
--   for each page. Client/Consent holds `api_consent_post`, Client/Guard
--   `HostAllowlist` and `security_guard`, where the standard library's parse of addresses is a parameter.
-- - Prelude, Text: shared lists, numbers, tests, and what the code uses of `str`: search, split, UTF-8,
--   decimal numbers, trimming, words and their bytes.
-- - Tests: the theorems at concrete inputs.
--
-- A page goes from Client/Front through Client/Session over the link. Requests go from
-- `Request::encode` over the stream to Server/Reader, from there to Server/Fetch by Server/Service,
-- and the responses back by `Response::encode`; Server/Filter stands in front of every load.
--
-- Not modelled: the other handlers of the client's HTTP front and its pages, the VARA transport, the
-- server's filtering proxy and configuration, and the code that drives the browser. Log lines to
-- standard error, write timeouts and flushes carry no state here.
pub mod Prelude
pub mod Text
pub mod Protocol
pub mod Agwpe
pub mod Server
pub mod Client
pub mod Tests
