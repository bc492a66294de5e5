-- ===== src/Api/ClientAddress/Tests.antt =====
-- Witnesses for the client address, with an address library in which a network is one address.
use multi_platform_crypto_tr.Base.{◌≡◌, refl, String, some, List, [], ◌∷◌, str_eq}
use multi_platform_crypto_tr.Api.ClientAddress.{
  IpLibrary, split_all, stripped, hops_of, parse_networks, is_trusted, first_untrusted,
  resolve_client_ip,
}
use multi_platform_crypto_tr.Api.ClientAddress.Forged.{append, forged_prefix_ignored}
use multi_platform_crypto_tr.Security.Words.{plain}

abbrev single : IpLibrary
single = record {
  Network = String;
  Address = String;
  ip_network = λ s. some s;
  ip_address = λ s. some s;
  has = str_eq;
}

abbrev proxies : List String
proxies = "10.0.0.1" ∷ "10.0.0.2" ∷ []

forged_prefix_ignored_example :
    resolve_client_ip single plain
      (some "10.0.0.1")
      proxies
      (some (append "1.1.1.1" (append "," "8.8.8.8,10.0.0.2")))
    ≡ resolve_client_ip single plain (some "10.0.0.1") proxies (some "8.8.8.8,10.0.0.2")
forged_prefix_ignored_example =
    forged_prefix_ignored single plain "10.0.0.1" proxies "1.1.1.1" "8.8.8.8,10.0.0.2" "8.8.8.8"
      (unfold split_all stripped hops_of parse_networks is_trusted first_untrusted in refl)
