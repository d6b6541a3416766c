-- ===== src/Client/State/Ring.antt =====
-- The log of the client's state is a window on all that was logged.
use packet_browser.Client.State.{AppState, DebugLogEntry, pushed, add_log}
use packet_browser.Prelude.{
  ℕ, suc, ◌+◌, ◌-◌, ◌≤◌, ◌<◌, ◌≡◌, refl, sym, ap, ◌∙◌, false, List, [], ◌∷◌, ◌++◌, append_assoc,
  append-nil, arith, leb, length, drop, length-append, Bool-cases, inl, inr,
}

-- Entries logged one after the other.
unfoldable pub add_logs : List DebugLogEntry → AppState → AppState
add_logs [] s = s
add_logs (e ∷ es) s = add_logs es (add_log e s)

-- The last entries of a list, so many as fit.
abbrev pub last_of : ℕ → List DebugLogEntry → List DebugLogEntry
last_of capacity entries = drop (length entries - capacity) entries

last_of_all :
    (capacity : ℕ) (entries : List DebugLogEntry)
    → length entries ≤ capacity
    → last_of capacity entries ≡ entries
last_of_all capacity entries h =
    let none_over : length entries - capacity ≡ 0 = omega (arith, h) in
    ap (λ n. drop n entries) none_over

-- One push, seen in the window on the longer list.
last_of-pushed :
    (capacity : ℕ) (entry : DebugLogEntry) (log more : List DebugLogEntry)
    → 0 < capacity
    → length log ≤ capacity
    → last_of capacity (pushed capacity entry log ++ more) ≡ last_of capacity (log ++ entry ∷ more)
unfolding pushed
last_of-pushed capacity entry [] more some_room h =
    rw (let t : leb capacity 0 ≡ false = ground arith in t) refl
last_of-pushed capacity entry (x ∷ log) more some_room h =
    elim (Bool-cases (leb capacity (suc (length log)))) [
      | inr room ↦ rw room (ap (last_of capacity) (append_assoc (x ∷ log) (entry ∷ []) more))
      | inl full ↦
          let short : length (log ++ entry ∷ more) ≡ length log + suc (length more) =
            length-append log (entry ∷ more) in
          let one : suc (length (log ++ entry ∷ more)) - capacity
              ≡ suc (length (log ++ entry ∷ more) - capacity) =
            ground (arith, full, short, h) in
          rw full (
            ap (last_of capacity) (append_assoc log (entry ∷ []) more)
            ∙ ap (λ n. drop n (x ∷ (log ++ entry ∷ more))) (sym one))
    ]

pushed-capacity :
    (capacity : ℕ) (entry : DebugLogEntry) (log : List DebugLogEntry)
    → 0 < capacity
    → length log ≤ capacity
    → length (pushed capacity entry log) ≤ capacity
unfolding pushed
pushed-capacity capacity entry [] some_room h =
    rw (let t : leb capacity 0 ≡ false = ground arith in t) (omega arith)
pushed-capacity capacity entry (x ∷ log) some_room h =
    elim (Bool-cases (leb capacity (suc (length log)))) [
      | inr room ↦ rw room (ground (arith, room, length-append log (entry ∷ [])))
      | inl full ↦ rw full (omega (arith, length-append log (entry ∷ []), h))
    ]

-- A log of positive capacity that is not over it holds, after any number of entries, the last ones
-- of all, as many as its capacity, in order.
pub add_logs_lem :
    (entries : List DebugLogEntry) (s : AppState)
    → 0 < s.log_capacity
    → length s.debug_log ≤ s.log_capacity
    → (add_logs entries s).debug_log ≡ last_of s.log_capacity (s.debug_log ++ entries)
unfolding add_logs add_log
add_logs_lem [] s some_room h =
    sym (last_of_all s.log_capacity s.debug_log h)
    ∙ ap (last_of s.log_capacity) (sym (append-nil s.debug_log))
add_logs_lem (e ∷ es) s some_room h =
    add_logs_lem es (add_log e s) some_room
      (pushed-capacity s.log_capacity e s.debug_log some_room h)
    ∙ last_of-pushed s.log_capacity e s.debug_log es some_room h
