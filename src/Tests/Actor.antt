-- ===== src/Tests/Actor.antt =====
-- The theorems on client/src/transport/manager.rs at concrete inputs.
use packet_browser.Client.Manager.Commands.{last_callsign, background_task-last_callsign}
use packet_browser.Client.Manager.Opening.{OpenEnd, handle_open_session-OpenEnd}
use packet_browser.Client.Manager.{
  TransportCommand, connect_modem, open_session, close_session, send_request, handle_open_session,
  background_task,
}
use packet_browser.Client.Session.{Drive, answered}
use packet_browser.Prelude.{◌≡◌, true, List, [], ◌∷◌, length, codes}
use packet_browser.Tests.Drive.{plain_texts, drive_of, node_events}

abbrev ready_drive : Drive
ready_drive = drive_of (answered true) node_events

handle_open_session-OpenEnd_example :
    OpenEnd plain_texts
      (codes "N0NODE")
      2
      ready_drive
      (handle_open_session plain_texts (codes "N0NODE") 2 ready_drive)
handle_open_session-OpenEnd_example =
    handle_open_session-OpenEnd plain_texts (codes "N0NODE") 2 ready_drive

abbrev some_commands : List TransportCommand
some_commands =
    connect_modem (codes "K7ABC")
    ∷ open_session (codes "N0NODE") 2
    ∷ send_request (codes "GET x")
    ∷ close_session
    ∷ []

background_task-last_callsign_example :
    let end' = background_task plain_texts some_commands ready_drive in
    (length end'.0 ≡ length some_commands)
    × (end'.1.setting.local_callsign
        ≡ last_callsign some_commands end'.0 ready_drive.setting.local_callsign)
background_task-last_callsign_example =
    background_task-last_callsign plain_texts some_commands ready_drive
