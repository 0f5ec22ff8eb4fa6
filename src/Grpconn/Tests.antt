-- ===== src/Grpconn/Tests.antt =====
-- Concrete runs of the model of src/transport/grpconn.go.
use opentitan_provisioning.Base.{◌≡◌, ◌↔◌, refl, inl, inr, [], ◌∷◌, some, ok, err, errorf}
use opentitan_provisioning.Grpconn.{
  ClientCert, Peer, Resolver, extract_client_ip, to_lower, first_part, any_ip, any_dns, check_dns,
  check_endpoint,
}
use opentitan_provisioning.Grpconn.Endpoint.{
  IsEndpoint, IsOneOf, address, check_endpoint_iff, check_endpoint-qualified_names,
}

abbrev cert : ClientCert
cert = record { ip_addresses = "10.0.0.7" ∷ []; dns_names = "Tester.fab" ∷ "TESTER" ∷ [] }

abbrev tester : Peer
tester = record { host = some "10.0.0.9"; certificates = some (cert ∷ []) }

abbrev resolver : Resolver
resolver ip = ok ("tester.fab." ∷ [])

by_label : check_endpoint resolver (some tester) ≡ ok tt
unfolding check_endpoint check_dns any_ip any_dns to_lower first_part extract_client_ip
by_label = refl

abbrev qualified : ClientCert
qualified = record { ip_addresses = "10.0.0.7" ∷ []; dns_names = "tester.fab" ∷ [] }

abbrev moved : Peer
moved = record { host = some "10.0.0.9"; certificates = some (qualified ∷ []) }

refused :
    check_endpoint resolver (some moved)
    ≡ err (errorf "client IP or DNS name does not match the IP or DNS name in the certificate")
unfolding check_endpoint check_dns any_ip any_dns to_lower first_part extract_client_ip
refused = refl

check_endpoint_iff_example :
    (check_endpoint resolver (some tester) ≡ ok tt) ↔ IsEndpoint resolver (some tester)
check_endpoint_iff_example = check_endpoint_iff resolver (some tester)

check_endpoint-qualified_names_example :
    (check_endpoint resolver (some moved) ≡ ok tt) ↔ IsOneOf (address moved) ("10.0.0.7" ∷ [])
check_endpoint-qualified_names_example =
    check_endpoint-qualified_names resolver moved qualified [] refl
      ((inr (inr (inr (inr (inr (inr (inl refl)))))), tt))
