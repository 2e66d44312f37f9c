-- ===== src/Auth/ClientIp/Peers.antt =====
-- Whose forwarded headers `client_ip` of backend/auth/src/routes.rs believes.
use Prim.Native.Nat.{bit_and}
use fullstackhex.Base.{
  arith, ℕ, zero, suc, ◌+◌, ◌*◌, ◌/◌, ◌%◌, ◌<◌, ◌≤◌, ◌≡◌, ◌↔◌, ◌⊎◌, inl, inr, refl, Bool, true,
  false, ◌&&◌, leb, ◌==◌, Text, none, some, Bool-cases, Option-cases, eq_iff,
}
use fullstackhex.Auth.ClientIp.{
  IpAddr, v4, v6, HeaderMap, is_proxy_peer, forwarded_ip, client_ip, peer_text,
}

-- A test of all numbers below a bound.
all_below : ℕ → (ℕ → Bool) → Bool
all_below zero f = true
all_below (suc n) f = f n && all_below n f

all_below-at : (n : ℕ) (f : ℕ → Bool) (i : ℕ) → all_below n f ≡ true → i < n → f i ≡ true
unfolding all_below
all_below-at zero f i h lt = absurd (omega (arith, lt))
all_below-at (suc n) f i h lt = elim (Bool-cases (f n)) [
  | inl e ↦ elim (Bool-cases (i == n)) [
    | inl same ↦ rw ((eq_iff i n).0 same) e
    | inr other ↦ all_below-at n f i (rw e at h) (ground (arith, other, lt))
  ]
  | inr e ↦ absurd (cc (rw e at h))
]

agree : Bool → Bool → Bool
agree true b = b
agree false true = false
agree false false = true

agree-eq : (a b : Bool) → agree a b ≡ true → a ≡ b
unfolding agree
agree-eq true true h = refl
agree-eq true false h = absurd (cc h)
agree-eq false true h = absurd (cc h)
agree-eq false false h = refl

-- A mask test of a 16-bit segment, and a range.
masked : ℕ → ℕ → ℕ → ℕ → Bool
masked mask low high a = agree (bit_and a mask == low) (leb low a && leb a high)

unique_local_range :
    all_below 256 (λ h. all_below 256 (λ l. masked 0xfe00 0xfc00 0xfdff (256 * h + l))) ≡ true
unfolding all_below masked agree
unique_local_range = refl

link_local_range :
    all_below 256 (λ h. all_below 256 (λ l. masked 0xffc0 0xfe80 0xfebf (256 * h + l))) ≡ true
unfolding all_below masked agree
link_local_range = refl

segment-at :
    (mask low high a : ℕ)
    → all_below 256 (λ h. all_below 256 (λ l. masked mask low high (256 * h + l))) ≡ true
    → a < 65536
    → (bit_and a mask == low) ≡ (leb low a && leb a high)
unfolding masked
segment-at mask low high a every lt =
    let at_row =
      all_below-at 256 (λ h. all_below 256 (λ l. masked mask low high (256 * h + l))) (a / 256)
        every (omega (arith, lt)) in
    let at_cell =
      all_below-at 256 (λ l. masked mask low high (256 * (a / 256) + l)) (a % 256) at_row
        (omega arith) in
    let whole : 256 * (a / 256) + a % 256 ≡ a = omega arith in
    agree-eq (bit_and a mask == low) (leb low a && leb a high) (rw whole at at_cell)

-- The addresses from which a proxy of one's own network comes: 127.0.0.0/8, 10.0.0.0/8,
-- 172.16.0.0/12, 192.168.0.0/16 and 169.254.0.0/16; ::1, fc00::/7 and fe80::/10.
abbrev pub LocalPeer : IpAddr → Type 0
LocalPeer (v4 a b c d) =
    (a ≡ 127)
    ⊎ ((a ≡ 10)
        ⊎ (((a ≡ 172) × (16 ≤ b) × (b ≤ 31)) ⊎ (((a ≡ 192) × (b ≡ 168)) ⊎ ((a ≡ 169) × (b ≡ 254)))))
LocalPeer (v6 a b c d e f g h) =
    ((a ≡ 0) × (b ≡ 0) × (c ≡ 0) × (d ≡ 0) × (e ≡ 0) × (f ≡ 0) × (g ≡ 0) × (h ≡ 1))
    ⊎ (((0xfc00 ≤ a) × (a ≤ 0xfdff)) ⊎ ((0xfe80 ≤ a) × (a ≤ 0xfebf)))

-- The first segment of an IPv6 address has 16 bits.
abbrev pub IsAddress : IpAddr → Type 0
IsAddress (v4 a b c d) = a < 256
IsAddress (v6 a b c d e f g h) = a < 65536

is_proxy_peer_iff : (ip : IpAddr) → IsAddress ip → (is_proxy_peer ip ≡ true) ↔ LocalPeer ip
unfolding is_proxy_peer
is_proxy_peer_iff (v4 a b c d) lt = (λ h. ground (arith, h), λ h. ground (arith, h))
is_proxy_peer_iff (v6 a b c d e f g h) lt =
    rw
      (
        segment-at 0xfe00 0xfc00 0xfdff a unique_local_range lt,
        segment-at 0xffc0 0xfe80 0xfebf a link_local_range lt,
      )
      (λ q. ground (arith, q), λ q. ground (arith, q))

module _ (show_ip : IpAddr → Text) where
  -- The address of a client whose peer is known: either TRUST_PROXY is set, the peer is of the local
  -- ranges and the address is the one that its headers forward, or it is the peer's own, and
  -- TRUST_PROXY is not set, the peer is not of those ranges, or its headers forward none.
  pub client_ip_exact :
      (trust_proxy : Bool) (headers : HeaderMap) (ip : IpAddr)
      → IsAddress ip
      → ((trust_proxy ≡ true)
          × LocalPeer ip
          × (forwarded_ip headers ≡ some (client_ip show_ip trust_proxy headers (some ip))))
        ⊎ ((client_ip show_ip trust_proxy headers (some ip) ≡ show_ip ip)
            × ((trust_proxy ≡ false) ⊎ ((¬ LocalPeer ip) ⊎ (forwarded_ip headers ≡ none))))
  unfolding client_ip peer_text
  client_ip_exact false headers ip lt = inr (refl, inl refl)
  client_ip_exact true headers ip lt = elim (Bool-cases (is_proxy_peer ip)) [
    | inl e ↦ elim (Option-cases (forwarded_ip headers)) [
      | inl f ↦ inr (rw (e, f) refl, inr (inr f))
      | inr (x, f) ↦ inl (refl, (is_proxy_peer_iff ip lt).0 e, rw (e, f) refl)
    ]
    | inr e ↦ inr (rw e refl, inr (inl (λ peer. cc ((is_proxy_peer_iff ip lt).1 peer, e))))
  ]
