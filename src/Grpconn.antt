-- ===== src/Grpconn.antt =====
-- src/transport/grpconn.go: the check of a client's address against its certificate. The DNS
-- resolver behind net.LookupAddr is a parameter; the TLS configuration is gRPC's own.
pub mod Endpoint
mod Tests
use Prim.Native.Char.{code}
use opentitan_provisioning.Base.{
  ℕ, ◌+◌, Bool, true, false, ◌&&◌, List, [], ◌∷◌, String, Option, none, some, Result, ok, err,
  errorf, panic, if◌then◌else◌, str_eq, nat_eq, leb, bytes_beq,
}
use opentitan_provisioning.Base.Exec.{Exec, ◌>>◌, lift}

-- The names of an x509.Certificate that are read: each address as its String() writes it.
pub record ClientCert : Type 0 where
  pub ip_addresses : List String
  pub dns_names : List String

-- A peer of gRPC. `host` is what net.SplitHostPort finds in its address, `none` where that fails;
-- `certificates` are the certificates of its TLS state, `none` where it has none.
pub record Peer : Type 0 where
  pub host : Option String
  pub certificates : Option (List ClientCert)

-- net.LookupAddr
abbrev pub Resolver : Type 0
Resolver = String → Result (List String)

-- ExtractClientIP, whose error CheckEndpointInterceptor and getClientIP drop: the text is then "".
unfoldable pub extract_client_ip : Option Peer → Result String
extract_client_ip none = err (errorf "peer not found in context")
extract_client_ip (some p) = elim p.host [
  | none ↦ err (errorf "address: missing port in address")
  | some ip ↦ ok ip
]

abbrev pub or_empty : Result String → String
or_empty (ok s) = s
or_empty (err _) = ""

-- strings.ToLower as the code points of its result; host names have ASCII letters only.
lower : ℕ → ℕ
lower c = if leb b'A' c && leb c b'Z' then c + 32 else c

pub to_lower : String → List ℕ
unfolding lower
to_lower String.[] = []
to_lower (String.◌∷◌ c s) = lower (code c) ∷ to_lower s

-- strings.Split(s, ".")[0]: what stands before the first dot.
pub first_part : String → String
first_part String.[] = String.[]
first_part (String.◌∷◌ c s) =
    if nat_eq (code c) b'.' then String.[] else String.◌∷◌ c (first_part s)

-- The loops over the addresses and over the names.
unfoldable pub any_ip : String → List String → Bool
any_ip client_ip [] = false
any_ip client_ip (ip ∷ rest) =
    let later = any_ip client_ip rest in if str_eq client_ip ip then true else later

pub any_dns : List ℕ → List String → Bool
unfolding to_lower
any_dns hostname [] = false
any_dns hostname (dns ∷ rest) =
    let later = any_dns hostname rest in if bytes_beq hostname (to_lower dns) then true else later

abbrev mismatch : Result (Unit {0})
mismatch = err (errorf "client IP or DNS name does not match the IP or DNS name in the certificate")

-- The part that asks for the name of the address: only its first label is compared.
unfoldable pub check_dns : Resolver → String → ClientCert → Result (Unit {0})
unfolding to_lower first_part any_dns
check_dns lookup_addr client_ip cert = elim (lookup_addr client_ip) [
  | err _ ↦ mismatch
  | ok [] ↦ err (panic "index out of range")
  | ok (client_dns ∷ _) ↦
      if any_dns (to_lower (first_part client_dns)) cert.dns_names then ok tt else mismatch
]

-- CheckEndpointInterceptor up to the call of the handler.
unfoldable pub check_endpoint : Resolver → Option Peer → Result (Unit {0})
unfolding any_ip
check_endpoint lookup_addr none = err (errorf "peer not found in context")
check_endpoint lookup_addr (some p) = elim p.certificates [
  | none ↦ err (panic "interface conversion")
  | some [] ↦ err (panic "index out of range")
  | some (client_cert ∷ _) ↦
      let client_ip = or_empty (extract_client_ip (some p)) in
      if any_ip client_ip client_cert.ip_addresses
      then ok tt
      else check_dns lookup_addr client_ip client_cert
]

-- CheckEndpointInterceptor: a request that passes goes on to its handler.
unfoldable pub check_endpoint_interceptor :
    {S A : Type 0} → Resolver → Option Peer → Exec S A → Exec S A
check_endpoint_interceptor lookup_addr peer handler =
    lift (check_endpoint lookup_addr peer) >> handler
