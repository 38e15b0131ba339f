-- ===== src/HostNetwork/Dialling.antt =====
-- hostsystem/network.go: the addresses that a network dials.
use fluxplane_system.Prelude.{
  ◌≤◌, ◌≡◌, ◌≢◌, refl, ap, ◌∙◌, sym, subst, Bool, true, false, not, ◌&&◌, ◌||◌, ◌⊎◌, inl, inr, List,
  [], ◌∷◌, Option, none, some, arith, Bool-cases, Option-cases, In, ltb, ◌==◌,
}
use fluxplane_system.GoText.{Text}
use fluxplane_system.System.{ok, err, >>=-eq-ok, ok-injective, blocked_target}
use fluxplane_system.HostNetwork.{
  Ip, blocked_ip, Url, Net, validate_http_url, first_allowed, resolve_allowed_ip, ip_text, Network,
  DialCall, allows_private, dial_call, TlsConfig, version_tls12, secure_tls_config,
}

-- Where an address for a host comes from: the host is that address, or it resolves to it.
abbrev pub IsAddressOf : Net → Text → Option Ip → Type 0
IsAddressOf net host ip =
    ((net.parse_ip host ≡ ip) × (ip ≢ none))
    ⊎ ((addrs : List (Option Ip)) × (net.parse_ip host ≡ none)
        × (net.lookup_ip_addr host ≡ ok addrs)
        × In ip addrs)

first_allowed-allowed :
    (addrs : List (Option Ip)) (ip : Option Ip)
    → first_allowed false addrs ≡ ok ip
    → In ip addrs × (blocked_ip ip ≡ false)
unfolding first_allowed
first_allowed-allowed [] ip h = cc
first_allowed-allowed (a ∷ addrs) ip h = elim (Bool-cases (blocked_ip a)) [
  | inl blocked ↦
      let rest = rw blocked at h in
      let (found, allowed) = first_allowed-allowed addrs ip rest in (inr found, allowed)
  | inr allowed ↦
      let same = ok-injective (rw allowed at h) in
      (inl (sym same), subst (λ i. blocked_ip i ≡ false) same allowed)
]

resolve_allowed_ip-allowed :
    (net : Net) (host : Text) (ip : Option Ip)
    → resolve_allowed_ip net host false ≡ ok ip
    → IsAddressOf net host ip × (blocked_ip ip ≡ false)
unfolding resolve_allowed_ip
resolve_allowed_ip-allowed net host ip h = elim (Option-cases (net.parse_ip host)) [
  | inl named ↦
      let h1 = rw (named, resolve_allowed_ip) at h in
      let (addrs, looked_up, chosen) = >>=-eq-ok (net.lookup_ip_addr host) _ h1 in
      let (found, allowed) = first_allowed-allowed addrs ip chosen in
      (inr (addrs, named, looked_up, found), allowed)
  | inr (literal, parsed) ↦
      let h1 = rw (parsed, resolve_allowed_ip) at h in
      elim (Bool-cases (blocked_ip (some literal))) [
        | inl blocked ↦ absurd (let h2 = rw blocked at h1 in cc)
        | inr allowed ↦
            let same = ok-injective (rw allowed at h1) in
            (inl (parsed ∙ same, λ e. cc), subst (λ i. blocked_ip i ≡ false) same allowed)
      ]
]

-- A network that does not allow private targets, or none, hands only such a call to the dialer whose
-- address is the text of an address of the host that is not blocked, with the port.
pub dial_call-allowed :
    (net : Net) (n : Option Network) (network address : Text) (call : DialCall)
    → allows_private n ≡ false
    → dial_call net n network address ≡ ok call
    → (host : Text) × (port : Text) × (ip : Option Ip) × (net.split_host_port address
        ≡ ok (host, port))
      × IsAddressOf net host ip
      × (blocked_ip ip ≡ false)
      × (call.address ≡ net.join_host_port (ip_text net ip) port)
unfolding dial_call
dial_call-allowed net n network address call public h =
    let ((host, port), split, h1) = >>=-eq-ok (net.split_host_port address) _ h in
    let h2 = rw public at h1 in
    let (ip, resolved, made) = >>=-eq-ok (resolve_allowed_ip net host false) _ h2 in
    let (found, allowed) = resolve_allowed_ip-allowed net host ip resolved in
    (host, port, ip, split, found, allowed, sym (ap (λ c. c.address) (ok-injective made)))

-- Whatever configuration is given, the secured one accepts no version below 1.2; it keeps the rest of
-- a given configuration, and a second pass changes nothing.
pub secure_tls_config-secure :
    {R : Type 0} (zero : R) (cfg : Option (TlsConfig R))
    → let secured = secure_tls_config zero cfg in
      (version_tls12 ≤ secured.min_version)
      × ((given : TlsConfig R) → cfg ≡ some given → secured.rest ≡ given.rest)
      × (secure_tls_config zero (some secured) ≡ secured)
unfolding secure_tls_config
secure_tls_config-secure zero none = (omega arith, λ given bad. cc, refl)
secure_tls_config-secure zero (some cfg) =
    elim (Bool-cases (cfg.min_version == 0 || ltb cfg.min_version version_tls12)) [
      | inl low ↦
          rw low
            (omega arith, λ given e. let same : cfg ≡ given = cc in ap (λ c. c.rest) same, refl)
      | inr high ↦ rw high (
        ground (arith, high),
        λ given e. let same : cfg ≡ given = cc in ap (λ c. c.rest) same,
        rw high refl,
      )
    ]

-- A URL that passes the check and whose host is an address is let through to that address by the
-- resolution for a dial under the same policy, and one that the resolution refuses does not pass.
pub validate_http_url-resolve :
    (net : Net) (url : Url) (allow_private : Bool) (ip : Ip)
    → net.parse_ip url.hostname ≡ some ip
    → ((validate_http_url net (some url) allow_private ≡ ok tt)
        → resolve_allowed_ip net url.hostname allow_private ≡ ok (some ip))
      × ((resolve_allowed_ip net url.hostname allow_private ≡ err blocked_target)
          → validate_http_url net (some url) allow_private ≢ ok tt)
unfolding validate_http_url resolve_allowed_ip
validate_http_url-resolve net url allow_private ip parsed =
    elim (Bool-cases (not allow_private && blocked_ip (some ip))) [
      | inl blocked ↦
          (λ passes. absurd (refused blocked passes), λ _ passes. refused blocked passes)
      | inr allowed ↦ rw (parsed, resolve_allowed_ip) (rw allowed (λ _. refl, λ bad. cc))
    ]
  where
    refused :
        (not allow_private && blocked_ip (some ip)) ≡ true
        → validate_http_url net (some url) allow_private ≢ ok tt
    refused blocked = rw (parsed, validate_http_url) (rw blocked (λ passes. ground (arith, passes)))
