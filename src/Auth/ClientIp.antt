-- ===== src/Auth/ClientIp.antt =====
-- `client_ip`, `forwarded_ip` and `is_proxy_peer` of backend/auth/src/routes.rs. Header values are
-- given where they are visible ASCII (`to_str`). How an address prints is an argument.
pub mod Peers
use Prim.Native.Nat.{bit_and}
use fullstackhex.Base.{
  ℕ, ◌≡◌, ◌⊎◌, Bool, false, ◌&&◌, ◌||◌, Text, codes, List, [], ◌∷◌, Option, none, some, split, trim,
  is_empty, leb, ◌==◌, if◌then◌else◌, arith,
}

-- `std::net::IpAddr`: four bytes, or eight 16-bit segments.
pub data IpAddr : Type 0 where
  v4 : ℕ → ℕ → ℕ → ℕ → IpAddr
  v6 : ℕ → ℕ → ℕ → ℕ → ℕ → ℕ → ℕ → ℕ → IpAddr

pub record HeaderMap : Type 0 where
  pub x_forwarded_for : Option Text
  pub x_real_ip : Option Text

-- `.map(|s| s.trim().to_string()).filter(|s| !s.is_empty())`
trimmed : Text → Option Text
trimmed s = let t = trim s in if is_empty t then none else some t

first : List Text → Option Text
first [] = none
first (p ∷ ps) = some p

abbrev and_then : Option Text → (Text → Option Text) → Option Text
and_then none f = none
and_then (some a) f = f a

abbrev or_else : Option Text → Option Text → Option Text
or_else none b = b
or_else (some a) b = some a

unfoldable pub forwarded_ip : HeaderMap → Option Text
unfolding trimmed first
forwarded_ip headers =
    or_else (and_then (and_then headers.x_forwarded_for (λ v. first (split b',' v))) trimmed)
      (and_then headers.x_real_ip trimmed)

-- `is_loopback() || is_private() || is_link_local()` of an IPv4 address, and the IPv6 tests.
unfoldable pub is_proxy_peer : IpAddr → Bool
is_proxy_peer (v4 a b c d) =
    a == 127
    || (a == 10 || (a == 172 && leb 16 b && leb b 31) || (a == 192 && b == 168))
    || (a == 169 && b == 254)
is_proxy_peer (v6 a b c d e f g h) =
    (a == 0 && b == 0 && c == 0 && d == 0 && e == 0 && f == 0 && g == 0 && h == 1)
    || bit_and a 0xfe00 == 0xfc00
    || bit_and a 0xffc0 == 0xfe80

module _ (show_ip : IpAddr → Text) where
  peer_text : Option IpAddr → Text
  peer_text none = codes "unknown"
  peer_text (some ip) = show_ip ip

  abbrev is_proxy : Option IpAddr → Bool
  is_proxy none = false
  is_proxy (some ip) = is_proxy_peer ip

  abbrev or_peer : Option Text → Text → Text
  or_peer none peer = peer
  or_peer (some ip) peer = ip

  -- `trust_proxy` is whether TRUST_PROXY is set.
  unfoldable pub client_ip : Bool → HeaderMap → Option IpAddr → Text
  unfolding peer_text
  client_ip trust_proxy headers peer =
      if trust_proxy && is_proxy peer
      then or_peer (forwarded_ip headers) (peer_text peer)
      else peer_text peer
