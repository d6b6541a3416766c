-- ===== src/Tests/Panel.antt =====
-- The theorem on client/src/state.rs at a concrete input.
use packet_browser.Client.State.Ring.{add_logs, last_of, add_logs_lem}
use packet_browser.Client.State.{AppState, DebugLogEntry, new, info, trace, plain_entry}
use packet_browser.Prelude.{◌≡◌, List, [], ◌∷◌, ◌++◌, codes, arith}

abbrev entries : List DebugLogEntry
entries =
    plain_entry info (codes "A") (codes "1")
    ∷ plain_entry trace (codes "B") (codes "2")
    ∷ plain_entry info (codes "A") (codes "3")
    ∷ []

abbrev narrow : AppState
narrow = record new { log_capacity = 2 }

add_logs_lem_example : (add_logs entries narrow).debug_log ≡ last_of 2 (narrow.debug_log ++ entries)
unfolding new
add_logs_lem_example = add_logs_lem entries narrow (omega arith) (omega arith)
