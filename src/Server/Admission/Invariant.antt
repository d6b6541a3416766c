-- ===== src/Server/Admission/Invariant.antt =====
-- The two caps of server/src/main.rs, in every interleaving.
use packet_browser.Prelude.{
  ℕ, zero, suc, ◌+◌, ◌≤◌, ◌≡◌, refl, sym, ap, List, [], ◌∷◌, Option, none, some, leb, length, arith,
  Bool-cases, Option-cases, inl, inr, ◌==◌, ==_iff, ◌≢◌,
}
use packet_browser.Server.Admission.{
  PeerCounts, or_zero, claim_peer, release_peer, max_connections, max_connections_per_ip, Phase,
  idle, claimed, over, releasing, State, Action, incoming, fetch_add, fetch_sub, give_back,
  drop_peer, drop_conn, start, take_out, on_incoming, on_fetch_add, on_drop_peer, on_drop_conn,
  step, run,
}
use packet_browser.Server.Admission.Counts.{
  hit, count_of, peer_count, NoZero, claim_peer_lem, release_peer_lem, take_out_lem,
}
use packet_browser.Server.Filter.Address.{IpAddr}
use mathlib.Core.Path.{subst}

-- What the accepting thread has claimed of the two counters for the connection at hand.
abbrev pub pending_peer : IpAddr → Phase → ℕ
pending_peer ip idle = 0
pending_peer ip (claimed p) = hit ip p
pending_peer ip (over p) = hit ip p
pending_peer ip (releasing p) = hit ip p

abbrev pub pending_slot : Phase → ℕ
pending_slot (over p) = 1
pending_slot _ = 0

-- The counters count the threads, and no cap is passed.
pub record IsCounted (s : State) : Type 0 where
  pub count_is : s.count ≡ length s.running + s.finishing + pending_slot s.phase
  pub capped : length s.running + s.finishing ≤ max_connections
  pub peers_are :
      (ip : IpAddr) → peer_count s.peers ip ≡ count_of ip s.running + pending_peer ip s.phase
  pub peers_capped : (ip : IpAddr) → peer_count s.peers ip ≤ max_connections_per_ip
  pub no_zero : NoZero s.peers

start-IsCounted : IsCounted start
unfolding start or_zero
start-IsCounted = record {
  count_is = refl;
  capped = omega arith;
  peers_are = λ ip. refl;
  peers_capped = λ ip. omega arith;
  no_zero = λ ip k. absurd (cc k);
}

hit_01 : (ip : IpAddr) (p : Option IpAddr) → hit ip p ≤ 1
hit_01 ip none = omega arith
hit_01 ip (some q) = ground arith

on_incoming_refused :
    (p : Option IpAddr) (s : State) → claim_peer p s.peers ≡ none → on_incoming p s ≡ s
unfolding on_incoming
on_incoming_refused p s h = rw (h, on_incoming) refl

on_incoming_claimed :
    (p : Option IpAddr) (s : State) {peers : PeerCounts}
    → claim_peer p s.peers ≡ some peers
    → on_incoming p s ≡ record s { peers = peers; phase = claimed p }
unfolding on_incoming
on_incoming_claimed p s h = rw (h, on_incoming) refl

on_drop_peer-none : (i : ℕ) (s : State) → take_out i s.running ≡ none → on_drop_peer i s ≡ s
unfolding on_drop_peer
on_drop_peer-none i s h = rw (h, on_drop_peer) refl

on_drop_peer-some :
    (i : ℕ) (s : State) {p : Option IpAddr} {rest : List (Option IpAddr)}
    → take_out i s.running ≡ some (p, rest)
    → on_drop_peer i s
      ≡ record s { peers = release_peer p s.peers; running = rest; finishing = suc s.finishing }
unfolding on_drop_peer
on_drop_peer-some i s h = rw (h, on_drop_peer) refl

on_incoming-IsCounted :
    (p : Option IpAddr) (s : State) → s.phase ≡ idle → IsCounted s → IsCounted (on_incoming p s)
on_incoming-IsCounted p s e w = elim (Option-cases (claim_peer p s.peers)) [
  | inl refused ↦ subst IsCounted (sym (on_incoming_refused p s refused)) w
  | inr (peers, h) ↦
      let (counts, clean, below) = claim_peer_lem p s.peers h w.no_zero in
      subst IsCounted (sym (on_incoming_claimed p s h)) (record {
        count_is = omega (arith, w.count_is, ap pending_slot e);
        capped = w.capped;
        peers_are = λ ip. omega (arith, counts ip, w.peers_are ip, ap (pending_peer ip) e);
        peers_capped = λ ip. elim (Bool-cases (hit ip p == 1)) [
          | inl here ↦
              let one = (==_iff (hit ip p) 1).0 here in omega (arith, counts ip, below ip one, one)
          | inr there ↦ ground (arith, there, counts ip, w.peers_capped ip, hit_01 ip p)
        ];
        no_zero = clean;
      })
]

on_fetch_add-IsCounted :
    (p : Option IpAddr) (s : State)
    → s.phase ≡ claimed p
    → IsCounted s
    → IsCounted (on_fetch_add p s)
unfolding on_fetch_add
on_fetch_add-IsCounted p s e w = elim (Bool-cases (leb max_connections s.count)) [
  | inl full ↦ rw full (record {
    count_is = omega (arith, w.count_is, ap pending_slot e);
    capped = w.capped;
    peers_are = λ ip. omega (arith, w.peers_are ip, ap (pending_peer ip) e);
    peers_capped = w.peers_capped;
    no_zero = w.no_zero;
  })
  | inr free ↦ rw free (record {
    count_is = omega (arith, w.count_is, ap pending_slot e);
    capped = ground (arith, free, w.count_is);
    peers_are = λ ip. omega (arith, w.peers_are ip, ap (pending_peer ip) e);
    peers_capped = w.peers_capped;
    no_zero = w.no_zero;
  })
]

on_drop_peer-IsCounted : (i : ℕ) (s : State) → IsCounted s → IsCounted (on_drop_peer i s)
on_drop_peer-IsCounted i s w = elim (Option-cases (take_out i s.running)) [
  | inl gone ↦ subst IsCounted (sym (on_drop_peer-none i s gone)) w
  | inr ((p, rest), h) ↦
      let (size, counts) = take_out_lem i s.running h in
      let (lower, clean) = release_peer_lem p s.peers w.no_zero in
      subst IsCounted (sym (on_drop_peer-some i s h)) (record {
        count_is = omega (arith, w.count_is, size);
        capped = omega (arith, w.capped, size);
        peers_are = λ ip. omega (arith, lower ip, counts ip, w.peers_are ip);
        peers_capped = λ ip. omega (arith, lower ip, w.peers_capped ip);
        no_zero = clean;
      })
]

on_drop_conn-IsCounted :
    (n : ℕ) (s : State) → n ≡ s.finishing → IsCounted s → IsCounted (on_drop_conn n s)
unfolding on_drop_conn
on_drop_conn-IsCounted zero s e w = w
on_drop_conn-IsCounted (suc n) s e w = record {
  count_is = omega (arith, w.count_is);
  capped = omega (arith, w.capped);
  peers_are = w.peers_are;
  peers_capped = w.peers_capped;
  no_zero = w.no_zero;
}

step-IsCounted :
    (a : Action) (phase : Phase) (s : State)
    → s.phase ≡ phase
    → IsCounted s
    → IsCounted (step a phase s)
unfolding step
step-IsCounted (incoming p) idle s e w = on_incoming-IsCounted p s e w
step-IsCounted (incoming p) (claimed q) s e w = w
step-IsCounted (incoming p) (over q) s e w = w
step-IsCounted (incoming p) (releasing q) s e w = w
step-IsCounted fetch_add idle s e w = w
step-IsCounted fetch_add (claimed p) s e w = on_fetch_add-IsCounted p s e w
step-IsCounted fetch_add (over p) s e w = w
step-IsCounted fetch_add (releasing p) s e w = w
step-IsCounted fetch_sub idle s e w = w
step-IsCounted fetch_sub (claimed p) s e w = w
step-IsCounted fetch_sub (over p) s e w = record {
  count_is = omega (arith, w.count_is, ap pending_slot e);
  capped = w.capped;
  peers_are = λ ip. omega (arith, w.peers_are ip, ap (pending_peer ip) e);
  peers_capped = w.peers_capped;
  no_zero = w.no_zero;
}
step-IsCounted fetch_sub (releasing p) s e w = w
step-IsCounted give_back idle s e w = w
step-IsCounted give_back (claimed p) s e w = w
step-IsCounted give_back (over p) s e w = w
step-IsCounted give_back (releasing p) s e w =
    let (lower, clean) = release_peer_lem p s.peers w.no_zero in
    record {
      count_is = omega (arith, w.count_is, ap pending_slot e);
      capped = w.capped;
      peers_are = λ ip. omega (arith, lower ip, w.peers_are ip, ap (pending_peer ip) e);
      peers_capped = λ ip. omega (arith, lower ip, w.peers_capped ip);
      no_zero = clean;
    }
step-IsCounted (drop_peer i) phase s e w = on_drop_peer-IsCounted i s w
step-IsCounted drop_conn phase s e w = on_drop_conn-IsCounted s.finishing s refl w

run_from-IsCounted : (actions : List Action) (s : State) → IsCounted s → IsCounted (run actions s)
unfolding run
run_from-IsCounted [] s w = w
run_from-IsCounted (a ∷ rest) s w =
    run_from-IsCounted rest (step a s.phase s) (step-IsCounted a s.phase s refl w)

-- From the empty server on, in every interleaving of the accepting thread with the threads of the
-- connections: the two counters count what is held, the threads that hold a guard of the global
-- counter are at most 50, and no address has a count above 5.
pub run-IsCounted : (actions : List Action) → IsCounted (run actions start)
run-IsCounted actions = run_from-IsCounted actions start start-IsCounted

or_zero-none : (o : Option ℕ) → or_zero o ≡ 0 → o ≢ some 0 → o ≡ none
unfolding or_zero
or_zero-none none h k = refl
or_zero-none (some n) h k = absurd (k (ap some h))

-- No slot leaks: when every connection of a run has ended and none is being admitted, the global
-- counter is 0 and the map holds no address.
pub run_released :
    (actions : List Action)
    → (run actions start).phase ≡ idle
    → (run actions start).running ≡ []
    → (run actions start).finishing ≡ 0
    → ((run actions start).count ≡ 0) × ((ip : IpAddr) → (run actions start).peers ip ≡ none)
run_released actions settled no_threads no_guards =
    let w = run-IsCounted actions in
    let size = ap length no_threads in
    (
      omega (arith, w.count_is, size, no_guards, ap pending_slot settled),
      λ ip.
          or_zero-none _
            (omega
              (arith, w.peers_are ip, ap (count_of ip) no_threads, ap (pending_peer ip) settled))
            (w.no_zero ip),
    )
