-- ===== src/HostNetwork.antt =====
-- hostsystem/network.go: which addresses a host may be reached at. An address is its bytes, 4 or 16 of
-- them; `none` is a nil address. The resolver, the dialer and the parsers of the standard library are
-- fields of `Net`.
pub mod Addresses
pub mod Dialling
mod Examples
use fluxplane_system.Prelude.{
  ℕ, suc, ◌/◌, ◌%◌, leb, ltb, ◌==◌, Bool, true, false, not, ◌&&◌, ◌||◌, List, [], ◌∷◌, ◌++◌, Option,
  none, some, if◌then◌else◌,
}
use fluxplane_system.GoText.{Text, codes, text_eq, is_empty}
use fluxplane_system.Integers.{ℤ, pos, is_unset}
use fluxplane_system.System.{
  Error, Result, ok, err, ◌>>=◌, Bytes, blocked_target, no_allowed_address, invalid_url,
}

-- `net.IP`
abbrev pub Ip : Type 0
Ip = Bytes

-- What stands in front of an address of 4 bytes in one of 16.
abbrev pub mapped_prefix : Bytes
mapped_prefix = 0 ∷ 0 ∷ 0 ∷ 0 ∷ 0 ∷ 0 ∷ 0 ∷ 0 ∷ 0 ∷ 0 ∷ 0xff ∷ 0xff ∷ []

-- An address as the methods of `net.IP` look at it: the 4 bytes that `To4` finds, or 16 bytes, the
-- first two apart.
pub data View : Type 0 where
  v4 : (a b c d : ℕ) → View
  v6 : (a b : ℕ) (rest : Bytes) → View
  neither : View

unfoldable pub view : Ip → View
unfolding text_eq
view (a ∷ b ∷ c ∷ d ∷ []) = v4 a b c d
view (a ∷ b ∷ c ∷ d ∷ e ∷ f ∷ g ∷ h ∷ i ∷ j ∷ k ∷ l ∷ w ∷ x ∷ y ∷ z ∷ []) =
    if text_eq (a ∷ b ∷ c ∷ d ∷ e ∷ f ∷ g ∷ h ∷ i ∷ j ∷ k ∷ l ∷ []) mapped_prefix
    then v4 w x y z
    else v6 a b (c ∷ d ∷ e ∷ f ∷ g ∷ h ∷ i ∷ j ∷ k ∷ l ∷ w ∷ x ∷ y ∷ z ∷ [])
view _ = neither

-- `Equal` to `::1`, or to `::`.
abbrev pub ends_zeros : ℕ → Bytes → Bool
ends_zeros last rest = text_eq rest (0 ∷ 0 ∷ 0 ∷ 0 ∷ 0 ∷ 0 ∷ 0 ∷ 0 ∷ 0 ∷ 0 ∷ 0 ∷ 0 ∷ 0 ∷ last ∷ [])

-- `IsLoopback`
abbrev pub is_loopback : View → Bool
is_loopback (v4 a b c d) = a == 127
is_loopback (v6 a b rest) = a == 0 && b == 0 && ends_zeros 1 rest
is_loopback neither = false

-- `IsPrivate`; a mask of leading bits is a division.
abbrev pub is_private : View → Bool
is_private (v4 a b c d) = a == 10 || (a == 172 && b / 16 == 1) || (a == 192 && b == 168)
is_private (v6 a b rest) = a / 2 == 0x7e
is_private neither = false

-- `IsLinkLocalUnicast`
abbrev pub is_link_local_unicast : View → Bool
is_link_local_unicast (v4 a b c d) = a == 169 && b == 254
is_link_local_unicast (v6 a b rest) = a == 0xfe && b / 64 == 2
is_link_local_unicast neither = false

-- `IsLinkLocalMulticast`
abbrev pub is_link_local_multicast : View → Bool
is_link_local_multicast (v4 a b c d) = a == 224 && b == 0 && c == 0
is_link_local_multicast (v6 a b rest) = a == 0xff && b % 16 == 2
is_link_local_multicast neither = false

-- `IsMulticast`
abbrev pub is_multicast : View → Bool
is_multicast (v4 a b c d) = a / 16 == 0xe
is_multicast (v6 a b rest) = a == 0xff
is_multicast neither = false

-- `IsUnspecified`
abbrev pub is_unspecified : View → Bool
is_unspecified (v4 a b c d) = a == 0 && b == 0 && c == 0 && d == 0
is_unspecified (v6 a b rest) = a == 0 && b == 0 && ends_zeros 0 rest
is_unspecified neither = false

-- `Equal` to 169.254.169.254.
abbrev pub is_metadata : View → Bool
is_metadata (v4 a b c d) = a == 169 && b == 254 && c == 169 && d == 254
is_metadata (v6 a b rest) = false
is_metadata neither = false

unfoldable pub blocked_ip : Option Ip → Bool
unfolding view text_eq
blocked_ip none = true
blocked_ip (some ip) =
    is_loopback (view ip)
    || is_private (view ip)
    || is_link_local_unicast (view ip)
    || is_link_local_multicast (view ip)
    || is_multicast (view ip)
    || is_unspecified (view ip)
    || is_metadata (view ip)

-- `url.URL`: its scheme, its host with the port, and what `Hostname` returns.
pub record Url : Type 0 where
  pub scheme : Text
  pub host : Text
  pub hostname : Text

abbrev pub is_http : Url → Bool
is_http url = text_eq url.scheme (codes "http") || text_eq url.scheme (codes "https")

-- What the standard library finds out about names and addresses.
pub record Net : Type 0 where
  pub split_host_port : Text → Result (Text × Text)
  pub join_host_port : Text → Text → Text
  pub parse_ip : Text → Option Ip
  pub ip_string : Ip → Text
  pub lookup_ip_addr : Text → Result (List (Option Ip))

unfoldable pub validate_http_url : Net → Option Url → Bool → Result (Unit {0})
unfolding blocked_ip
validate_http_url net none allow_private = err invalid_url
validate_http_url net (some url) allow_private =
    if not (is_http url) || is_empty url.host
    then err invalid_url
    else if is_empty url.hostname
    then err invalid_url
    else elim (net.parse_ip url.hostname) [
      | none ↦ ok tt
      | some ip ↦ if not allow_private && blocked_ip (some ip) then err blocked_target else ok tt
    ]

-- The loop over what a name resolves to.
unfoldable pub first_allowed : Bool → List (Option Ip) → Result (Option Ip)
unfolding blocked_ip
first_allowed allow_private [] = err no_allowed_address
first_allowed allow_private (ip ∷ addrs) =
    if allow_private || not (blocked_ip ip) then ok ip else first_allowed allow_private addrs

unfoldable pub resolve_allowed_ip : Net → Text → Bool → Result (Option Ip)
unfolding first_allowed
resolve_allowed_ip net host allow_private = elim (net.parse_ip host) [
  | some ip ↦ if not allow_private && blocked_ip (some ip) then err blocked_target else ok (some ip)
  | none ↦ net.lookup_ip_addr host >>= λ addrs. first_allowed allow_private addrs
]

-- `String` of an address.
abbrev pub ip_text : Net → Option Ip → Text
ip_text net none = codes "<nil>"
ip_text net (some ip) = net.ip_string ip

pub record NetworkConfig : Type 0 where
  pub dial_timeout : ℤ
  pub allow_private : Bool

-- The dialer is its timeout.
pub record Network : Type 0 where
  pub dialer : Option ℤ
  pub allow_private : Bool

-- 30 seconds, in nanoseconds.
abbrev pub default_dial_timeout : ℤ
default_dial_timeout = pos 30000000000

abbrev pub new_network : NetworkConfig → Network
new_network cfg = record {
  dialer = some (if is_unset cfg.dial_timeout then default_dial_timeout else cfg.dial_timeout);
  allow_private = cfg.allow_private;
}

-- What is handed to `net.Dialer.DialContext`.
pub record DialCall : Type 0 where
  pub timeout : ℤ
  pub network : Text
  pub address : Text

abbrev pub allows_private : Option Network → Bool
allows_private none = false
allows_private (some n) = n.allow_private

abbrev pub timeout_of : Option Network → ℤ
timeout_of none = default_dial_timeout
timeout_of (some n) = elim n.dialer [ none ↦ default_dial_timeout | some timeout ↦ timeout ]

-- `DialContext` up to the dialer's call.
unfoldable pub dial_call : Net → Option Network → Text → Text → Result DialCall
unfolding resolve_allowed_ip
dial_call net n network address = net.split_host_port address >>= λ parts.
    resolve_allowed_ip net parts.0 (allows_private n) >>= λ ip. ok (record {
      timeout = timeout_of n;
      network = network;
      address = net.join_host_port (ip_text net ip) parts.1;
    })

-- `DialContext`, with the dialer.
unfoldable pub dial_context :
    {Conn : Type 0} → Net → (DialCall → Result Conn) → Option Network → Text → Text → Result Conn
unfolding dial_call
dial_context net dial n network address = dial_call net n network address >>= dial

-- `tls.Config`: the least version that is accepted, and the rest.
pub record TlsConfig (R : Type 0) : Type 0 where
  pub min_version : ℕ
  pub rest : R

-- `tls.VersionTLS12`
abbrev pub version_tls12 : ℕ
version_tls12 = 0x0303

-- The configuration of the zero value has `zero` for the rest.
unfoldable pub secure_tls_config : {R : Type 0} → R → Option (TlsConfig R) → TlsConfig R
secure_tls_config zero none = record { min_version = version_tls12; rest = zero }
secure_tls_config zero (some cfg) =
    if cfg.min_version == 0 || ltb cfg.min_version version_tls12
    then record { min_version = version_tls12; rest = cfg.rest }
    else cfg
