-- ===== src/HostNetwork/Addresses.antt =====
-- hostsystem/network.go: which addresses are blocked.
use fluxplane_system.Prelude.{
  ℕ, ◌/◌, ◌≡◌, refl, Bool, true, false, ◌&&◌, ◌||◌, [], ◌∷◌, ◌++◌, some, arith, leb, ◌==◌,
}
use fluxplane_system.HostNetwork.{mapped_prefix, blocked_ip}

-- The networks of 4-byte addresses that a public-only network must not reach: this host, the private
-- networks, the link-local network with the metadata service, all multicast groups, and no address.
abbrev pub in_blocked_network : ℕ → ℕ → ℕ → ℕ → Bool
in_blocked_network a b c d =
    a == 127
    || a == 10
    || (a == 172 && (leb 16 b && leb b 31))
    || (a == 192 && b == 168)
    || (a == 169 && b == 254)
    || (leb 224 a && leb a 239)
    || (a == 0 && b == 0 && c == 0 && d == 0)

high_bits_14 : (a : ℕ) → (a / 16 == 14) ≡ (leb 224 a && leb a 239)
high_bits_14 a = ground arith

high_bits_1 : (b : ℕ) → (b / 16 == 1) ≡ (leb 16 b && leb b 31)
high_bits_1 b = ground arith

absorb : (p q : Bool) → (p || (p && q)) ≡ p
absorb true q = refl
absorb false q = refl

blocked_v4 : (a b c d : ℕ) → blocked_ip (some (a ∷ b ∷ c ∷ d ∷ [])) ≡ in_blocked_network a b c d
unfolding blocked_ip
blocked_v4 a b c d = rw (high_bits_14 a) (rw (high_bits_1 b) (ground arith))

-- An address of 4 bytes is blocked exactly in the networks 0.0.0.0/32, 10.0.0.0/8, 127.0.0.0/8,
-- 169.254.0.0/16, 172.16.0.0/12, 192.168.0.0/16 and 224.0.0.0/4, and as the last 4 of 16 bytes behind
-- the prefix of mapped addresses just the same.
pub blocked_ip-eq-networks :
    (a b c d : ℕ)
    → (blocked_ip (some (a ∷ b ∷ c ∷ d ∷ [])) ≡ in_blocked_network a b c d)
      × (blocked_ip (some (mapped_prefix ++ (a ∷ b ∷ c ∷ d ∷ []))) ≡ in_blocked_network a b c d)
unfolding blocked_ip
blocked_ip-eq-networks a b c d = (blocked_v4 a b c d, blocked_v4 a b c d)
