-- ===== src/HostNetwork/Examples.antt =====
-- The theorems on addresses and dials at concrete addresses.
use fluxplane_system.Prelude.{◌≡◌, refl, false, [], ◌∷◌, ◌++◌, Option, none, some}
use fluxplane_system.GoText.{Text, codes}
use fluxplane_system.System.{ok}
use fluxplane_system.HostNetwork.{
  Ip, mapped_prefix, blocked_ip, Net, DialCall, default_dial_timeout, dial_call, ip_text,
}
use fluxplane_system.HostNetwork.Addresses.{in_blocked_network, blocked_ip-eq-networks}
use fluxplane_system.HostNetwork.Dialling.{IsAddressOf, dial_call-allowed}

blocked_ip-eq-networks_example :
    (blocked_ip (some (172 ∷ 31 ∷ 0 ∷ 1 ∷ [])) ≡ in_blocked_network 172 31 0 1)
    × (blocked_ip (some (mapped_prefix ++ (172 ∷ 31 ∷ 0 ∷ 1 ∷ []))) ≡ in_blocked_network 172 31 0 1)
blocked_ip-eq-networks_example = blocked_ip-eq-networks 172 31 0 1

abbrev public_ip : Ip
public_ip = 8 ∷ 8 ∷ 8 ∷ 8 ∷ []

-- Every name resolves to a private address, and then to a public one.
abbrev names : Net
names = record {
  split_host_port = λ address. ok (address, codes "80");
  join_host_port = λ host port. host ++ (58 ∷ port);
  parse_ip = λ _. none;
  ip_string = λ ip. ip;
  lookup_ip_addr = λ _. ok (some (10 ∷ 0 ∷ 0 ∷ 1 ∷ []) ∷ some public_ip ∷ []);
}

abbrev call : DialCall
call = record {
  timeout = default_dial_timeout;
  network = codes "tcp";
  address = public_ip ++ codes ":80";
}

names-dial_call : dial_call names none (codes "tcp") (codes "a") ≡ ok call
unfolding dial_call
names-dial_call = refl

dial_call-allowed_example :
    (host : Text) × (port : Text) × (ip : Option Ip) × (names.split_host_port (codes "a")
      ≡ ok (host, port))
    × IsAddressOf names host ip
    × (blocked_ip ip ≡ false)
    × (call.address ≡ names.join_host_port (ip_text names ip) port)
dial_call-allowed_example =
    dial_call-allowed names none (codes "tcp") (codes "a") call refl names-dial_call
