-- ===== src/Server/Admission/Counts.antt =====
-- What claiming and releasing do to the count of each address.
use packet_browser.Server.Admission.{
  same_ip, PeerCounts, set, or_zero, claim_peer, lowered, release_peer, take_out,
  max_connections_per_ip,
}
use packet_browser.Prelude.{
  ℕ, zero, suc, ◌+◌, ◌-◌, ◌<◌, ◌≡◌, ◌≢◌, refl, sym, ap, ◌∙◌, true, false, List, [], ◌∷◌, Option,
  none, some, leb, ◌==◌, if◌then◌else◌, length, arith, Bool-cases, Option-cases, inl, inr,
}
use packet_browser.Server.Filter.Address.{IpAddr, v4, v6}
use packet_browser.Text.Search.{equal_sound}
use packet_browser.Text.Split.{some_pair}
use mathlib.Core.Path.{subst}

pub same_ip_sound : (a b : IpAddr) → same_ip a b ≡ true → a ≡ b
unfolding same_ip
same_ip_sound (v4 a) (v4 b) h =
    let e0 : a.o0 ≡ b.o0 = ground (arith, h) in
    let e1 : a.o1 ≡ b.o1 = ground (arith, h) in
    let e2 : a.o2 ≡ b.o2 = ground (arith, h) in
    let e3 : a.o3 ≡ b.o3 = ground (arith, h) in
    λ i. v4 (record { o0 = e0 i; o1 = e1 i; o2 = e2 i; o3 = e3 i })
same_ip_sound (v4 a) (v6 b) h = cc
same_ip_sound (v6 a) (v4 b) h = cc
same_ip_sound (v6 a) (v6 b) h = ap v6 (equal_sound a b h)

abbrev pub hit : IpAddr → Option IpAddr → ℕ
hit ip none = 0
hit ip (some q) = if same_ip ip q then 1 else 0

-- How many of the threads serve an address.
abbrev pub count_of : IpAddr → List (Option IpAddr) → ℕ
count_of ip [] = 0
count_of ip (p ∷ ps) = hit ip p + count_of ip ps

abbrev pub peer_count : PeerCounts → IpAddr → ℕ
peer_count peers ip = or_zero (peers ip)

abbrev pub NoZero : PeerCounts → Type 0
NoZero peers = (ip : IpAddr) → peers ip ≢ some 0

-- Giving one address a new count, one that is not 0, changes the count of that address only.
module _ (q : IpAddr) (n : ℕ) (value : Option ℕ) (peers : PeerCounts) (new : or_zero value ≡ n)
    (clean : value ≢ some 0) (nz : NoZero peers) where
  set_same : (ip : IpAddr) → same_ip ip q ≡ true → peer_count (set q value peers) ip ≡ n
  unfolding set or_zero
  set_same ip h = rw h new

  set_other :
      (ip : IpAddr) → same_ip ip q ≡ false → peer_count (set q value peers) ip ≡ peer_count peers ip
  unfolding set or_zero
  set_other ip h = rw h refl

  set-NoZero : NoZero (set q value peers)
  unfolding set
  set-NoZero ip h = elim (Bool-cases (same_ip ip q)) [
    | inl same ↦ clean (rw same at h)
    | inr other ↦ nz ip (rw other at h)
  ]

abbrev Claims : Option IpAddr → PeerCounts → PeerCounts → Type 0
Claims p peers peers' =
    ((ip : IpAddr) → peer_count peers' ip ≡ peer_count peers ip + hit ip p)
    × NoZero peers'
    × ((ip : IpAddr) → hit ip p ≡ 1 → peer_count peers ip < max_connections_per_ip)

pub claim_peer_lem :
    (p : Option IpAddr) (peers : PeerCounts) {peers' : PeerCounts}
    → claim_peer p peers ≡ some peers'
    → NoZero peers
    → Claims p peers peers'
unfolding claim_peer or_zero
claim_peer_lem none peers {peers'} h nz =
    let e : peers ≡ peers' = cc h in
    subst (Claims none peers) e (λ ip. omega arith, nz, λ ip k. absurd (omega (arith, k)))
claim_peer_lem (some q) peers {peers'} h nz =
    let n = or_zero (peers q) in
    elim (Bool-cases (leb max_connections_per_ip n)) [
      | inl full ↦ absurd (cc (rw full at h))
      | inr free ↦
          let e : set q (some (suc n)) peers ≡ peers' = cc (rw free at h) in
          let clean : some (suc n) ≢ some 0 =
            λ k. absurd (let j : suc n ≡ 0 = cc k in omega (arith, j)) in
          subst (Claims (some q) peers) e (
            λ ip. elim (Bool-cases (same_ip ip q)) [
              | inl same ↦
                  let at = ap (peer_count peers) (same_ip_sound ip q same) in
                  let new = set_same q (suc n) (some (suc n)) peers refl clean nz ip same in
                  rw same (omega (arith, at, new))
              | inr other ↦
                  let new = set_other q (suc n) (some (suc n)) peers refl clean nz ip other in
                  rw other (omega (arith, new))
            ],
            set-NoZero q (suc n) (some (suc n)) peers refl clean nz,
            λ ip k. elim (Bool-cases (same_ip ip q)) [
              | inl same ↦
                  let at = ap (peer_count peers) (same_ip_sound ip q same) in
                  ground (arith, at, free)
              | inr other ↦ absurd (omega (arith, rw other at k))
            ],
          )
    ]

lowered_lem : (c : ℕ) → c ≢ 0 → (or_zero (lowered c) ≡ c - 1) × (lowered c ≢ some 0)
unfolding lowered or_zero
lowered_lem c h = elim (Bool-cases (c - 1 == 0)) [
  | inl last ↦ rw last (ground (arith, last), λ k. absurd (cc k))
  | inr more ↦ rw more (refl, λ k. absurd (let j : c - 1 ≡ 0 = cc k in ground (arith, more, j)))
]

abbrev Releases : Option IpAddr → PeerCounts → PeerCounts → Type 0
Releases p peers peers' =
    ((ip : IpAddr) → peer_count peers' ip ≡ peer_count peers ip - hit ip p) × NoZero peers'

release_peer_absent :
    (q : IpAddr) (peers : PeerCounts) → peers q ≡ none → release_peer (some q) peers ≡ peers
unfolding release_peer
release_peer_absent q peers h = rw (h, release_peer) refl

release_peer_present :
    (q : IpAddr) (peers : PeerCounts) {c : ℕ}
    → peers q ≡ some c
    → release_peer (some q) peers ≡ set q (lowered c) peers
unfolding release_peer
release_peer_present q peers h = rw (h, release_peer) refl

pub release_peer_lem :
    (p : Option IpAddr) (peers : PeerCounts)
    → NoZero peers
    → Releases p peers (release_peer p peers)
unfolding release_peer or_zero
release_peer_lem none peers nz = (λ ip. omega arith, nz)
release_peer_lem (some q) peers nz = elim (Option-cases (peers q)) [
  | inl absent ↦ subst (Releases (some q) peers) (sym (release_peer_absent q peers absent)) (
    λ ip. elim (Bool-cases (same_ip ip q)) [
      | inl same ↦
          let at = ap (peer_count peers) (same_ip_sound ip q same) in
          let zero_at : peer_count peers q ≡ 0 = ap or_zero absent in
          rw same (omega (arith, at, zero_at))
      | inr other ↦ rw other (omega arith)
    ],
    nz,
  )
  | inr (c, e) ↦
      let (value, clean) = lowered_lem c (λ z. nz q (e ∙ ap some z)) in
      subst (Releases (some q) peers) (sym (release_peer_present q peers e)) (
        λ ip. elim (Bool-cases (same_ip ip q)) [
          | inl same ↦
              let at = ap (peer_count peers) (same_ip_sound ip q same) in
              let was : peer_count peers q ≡ c = ap or_zero e in
              let new = set_same q (c - 1) (lowered c) peers value clean nz ip same in
              rw same (omega (arith, at, was, new))
          | inr other ↦
              let new = set_other q (c - 1) (lowered c) peers value clean nz ip other in
              rw other (omega (arith, new))
        ],
        set-NoZero q (c - 1) (lowered c) peers value clean nz,
      )
]

abbrev Takes : List (Option IpAddr) → Option IpAddr → List (Option IpAddr) → Type 0
Takes ps p rest =
    (length ps ≡ suc (length rest)) × ((ip : IpAddr) → count_of ip ps ≡ hit ip p + count_of ip rest)

pub take_out_lem :
    (i : ℕ) (ps : List (Option IpAddr)) {p : Option IpAddr} {rest : List (Option IpAddr)}
    → take_out i ps ≡ some (p, rest)
    → Takes ps p rest
unfolding take_out
take_out_lem zero [] h = absurd (cc h)
take_out_lem (suc i) [] h = absurd (cc h)
take_out_lem zero (q ∷ ps) {p} {rest} h =
    let (ep, er) = some_pair h in
    subst (λ r. Takes (q ∷ ps) p r) er (subst (λ r. Takes (q ∷ ps) r ps) ep (refl, λ ip. refl))
take_out_lem (suc i) (q ∷ ps) {p} {rest} h = elim (Option-cases (take_out i ps)) [
  | inl gone ↦ absurd (cc (rw gone at h))
  | inr ((p', rest'), e) ↦
      let (ep, er) = some_pair (rw e at h) in
      let (size, counts) = take_out_lem i ps e in
      subst (λ r. Takes (q ∷ ps) p r) er
        (subst (λ r. Takes (q ∷ ps) r (q ∷ rest')) ep (ap suc size, λ ip. omega (arith, counts ip)))
]
