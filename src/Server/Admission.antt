-- ===== src/Server/Admission.antt =====
-- The accept loop of server/src/main.rs: the caps on connections, per address and in all. The
-- accepting thread and the threads of the connections share two counters; each action below is
-- one access to one of them, and a run is any interleaving of actions.
pub mod Counts
pub mod Invariant
use packet_browser.Prelude.{
  ℕ, zero, suc, ◌+◌, ◌-◌, Bytes, Bool, true, false, ◌&&◌, List, [], ◌∷◌, Option, none, some, leb,
  ◌==◌, if◌then◌else◌, length,
}
use packet_browser.Server.Filter.Address.{IpAddr, v4, v6, Ipv4Addr}
use packet_browser.Text.Search.{equal}

abbrev pub max_connections : ℕ
max_connections = 50

abbrev pub max_connections_per_ip : ℕ
max_connections_per_ip = 5

-- `==` on addresses
unfoldable pub same_ip : IpAddr → IpAddr → Bool
same_ip (v4 a) (v4 b) = (a.o0 == b.o0) && (a.o1 == b.o1) && (a.o2 == b.o2) && (a.o3 == b.o3)
same_ip (v6 a) (v6 b) = equal a b
same_ip _ _ = false

-- The `HashMap` of the counts per address, by its `get`.
abbrev pub PeerCounts : Type 0
PeerCounts = IpAddr → Option ℕ

unfoldable pub set : IpAddr → Option ℕ → PeerCounts → PeerCounts
set ip value peers = λ k. if same_ip k ip then value else peers k

unfoldable pub or_zero : Option ℕ → ℕ
or_zero none = 0
or_zero (some n) = n

-- The per-address check: `none` when the cap is reached.
unfoldable pub claim_peer : Option IpAddr → PeerCounts → Option PeerCounts
claim_peer none peers = some peers
claim_peer (some ip) peers =
    let entry = or_zero (peers ip) in
    if leb max_connections_per_ip entry then none else some (set ip (some (suc entry)) peers)

unfoldable pub lowered : ℕ → Option ℕ
lowered c = if c - 1 == 0 then none else some (c - 1)

-- The same code stands in the rejection and in the drop of a `PeerGuard`.
unfoldable pub release_peer : Option IpAddr → PeerCounts → PeerCounts
unfolding lowered
release_peer none peers = peers
release_peer (some ip) peers = elim (peers ip) [ some c ↦ set ip (lowered c) peers | none ↦ peers ]

-- Where the accepting thread is: between connections; past the per-address check; past a
-- `fetch_add` that found the cap reached; past the `fetch_sub` that takes it back.
pub data Phase : Type 0 where
  idle : Phase
  claimed over releasing : Option IpAddr → Phase

pub record State : Type 0 where
  pub count : ℕ
  pub peers : PeerCounts
  pub phase : Phase
  -- the threads that hold both guards, and how many still hold the `ConnGuard` only
  pub running : List (Option IpAddr)
  pub finishing : ℕ

pub data Action : Type 0 where
  incoming : Option IpAddr → Action
  fetch_add fetch_sub give_back : Action
  drop_peer : ℕ → Action
  drop_conn : Action

unfoldable pub start : State
start = record { count = 0; peers = λ _. none; phase = idle; running = []; finishing = 0 }

-- The thread at a position of the list, and the others.
unfoldable pub take_out : ℕ → List (Option IpAddr) → Option (Option IpAddr × List (Option IpAddr))
take_out i [] = none
take_out zero (p ∷ ps) = some (p, ps)
take_out (suc i) (p ∷ ps) = elim (take_out i ps) [
  | some (q, rest) ↦ some (q, p ∷ rest)
  | none ↦ none
]

unfoldable pub on_incoming : Option IpAddr → State → State
on_incoming p s = elim (claim_peer p s.peers) [
  | none ↦ s
  | some peers ↦ record s { peers = peers; phase = claimed p }
]

-- `fetch_add`, and the spawned thread if the previous value is below the cap.
unfoldable pub on_fetch_add : Option IpAddr → State → State
on_fetch_add p s =
    if leb max_connections s.count
    then record s { count = suc s.count; phase = over p }
    else record s { count = suc s.count; phase = idle; running = p ∷ s.running }

-- The guards of a thread are dropped in the reverse of their order: the `PeerGuard` first.
unfoldable pub on_drop_peer : ℕ → State → State
on_drop_peer i s = elim (take_out i s.running) [
  | none ↦ s
  | some (p, rest) ↦ record s {
    peers = release_peer p s.peers;
    running = rest;
    finishing = suc s.finishing;
  }
]

unfoldable pub on_drop_conn : ℕ → State → State
on_drop_conn zero s = s
on_drop_conn (suc n) s = record s { count = s.count - 1; finishing = n }

-- An action that is not enabled changes nothing.
unfoldable pub step : Action → Phase → State → State
step (incoming p) idle s = on_incoming p s
step fetch_add (claimed p) s = on_fetch_add p s
step fetch_sub (over p) s = record s { count = s.count - 1; phase = releasing p }
step give_back (releasing p) s = record s { peers = release_peer p s.peers; phase = idle }
step (drop_peer i) phase s = on_drop_peer i s
step drop_conn phase s = on_drop_conn s.finishing s
step _ _ s = s

unfoldable pub run : List Action → State → State
unfolding step
run [] s = s
run (a ∷ rest) s = run rest (step a s.phase s)
