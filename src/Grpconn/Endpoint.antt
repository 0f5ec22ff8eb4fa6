-- ===== src/Grpconn/Endpoint.antt =====
-- Which clients CheckEndpointInterceptor of src/transport/grpconn.go lets through.
use Prim.Native.Char.{code}
use opentitan_provisioning.Base.{
  ◌≡◌, ◌≢◌, ◌⊎◌, ◌↔◌, refl, inl, inr, true, List, [], ◌∷◌, String, Option, none, some, ok,
  Bool-cases, Option-cases, Result-cases, arith, eq_iff, bytes_beq, bytes_beq_iff, str_eq, nat_eq,
  subst, All,
}
use opentitan_provisioning.Grpconn.{
  ClientCert, Peer, Resolver, extract_client_ip, or_empty, to_lower, first_part, any_ip, any_dns,
  check_dns, check_endpoint,
}

-- The text is one of the list; and so up to the case of letters.
abbrev pub IsOneOf : String → List String → Type 0
IsOneOf s [] = ⊥
IsOneOf s (t ∷ ts) = (s ≡ t) ⊎ IsOneOf s ts

abbrev pub NamesOneOf : String → List String → Type 0
NamesOneOf s [] = ⊥
NamesOneOf s (t ∷ ts) = (to_lower s ≡ to_lower t) ⊎ NamesOneOf s ts

-- The peer's address as a text.
abbrev pub address : Peer → String
address p = or_empty (extract_client_ip (some p))

-- The client's first certificate names the address of the connection, or the first label of the
-- first name that the resolver has for this address.
pub record IsEndpoint (lookup_addr : Resolver) (peer : Option Peer) : Type 0 where
  pub p : Peer
  pub cert : ClientCert
  pub others : List ClientCert
  pub known : peer ≡ some p
  pub certified : p.certificates ≡ some (cert ∷ others)
  pub matches :
      IsOneOf (address p) cert.ip_addresses
      ⊎ ((name : String) × (names : List String) × (lookup_addr (address p) ≡ ok (name ∷ names))
          × NamesOneOf (first_part name) cert.dns_names)

any_ip-IsOneOf : (s : String) (ts : List String) → any_ip s ts ≡ true → IsOneOf s ts
unfolding any_ip
any_ip-IsOneOf s [] h = cc
any_ip-IsOneOf s (t ∷ ts) h = elim (Bool-cases (str_eq s t)) [
  | inl e ↦ inl ((eq_iff s t).0 e)
  | inr n ↦ inr (any_ip-IsOneOf s ts (ground arith))
]

IsOneOf-any_ip : (s : String) (ts : List String) → IsOneOf s ts → any_ip s ts ≡ true
unfolding any_ip
IsOneOf-any_ip s [] h = absurd h
IsOneOf-any_ip s (t ∷ ts) (inl e) = ground (arith, eq_iff s t)
IsOneOf-any_ip s (t ∷ ts) (inr later) = ground (arith, IsOneOf-any_ip s ts later)

any_dns-NamesOneOf :
    (s : String) (ts : List String) → any_dns (to_lower s) ts ≡ true → NamesOneOf s ts
unfolding any_dns
any_dns-NamesOneOf s [] h = cc
any_dns-NamesOneOf s (t ∷ ts) h = elim (Bool-cases (bytes_beq (to_lower s) (to_lower t))) [
  | inl e ↦ inl ((bytes_beq_iff (to_lower s) (to_lower t)).0 e)
  | inr n ↦ inr (any_dns-NamesOneOf s ts (ground arith))
]

NamesOneOf-any_dns :
    (s : String) (ts : List String) → NamesOneOf s ts → any_dns (to_lower s) ts ≡ true
unfolding any_dns
NamesOneOf-any_dns s [] h = absurd h
NamesOneOf-any_dns s (t ∷ ts) (inl e) = ground (arith, bytes_beq_iff (to_lower s) (to_lower t))
NamesOneOf-any_dns s (t ∷ ts) (inr later) = ground (arith, NamesOneOf-any_dns s ts later)

module _ (lookup_addr : Resolver) where
  check_dns-eq-ok :
      (ip : String) (cert : ClientCert)
      → check_dns lookup_addr ip cert ≡ ok tt
      → (name : String) × (names : List String) × (lookup_addr ip ≡ ok (name ∷ names))
        × NamesOneOf (first_part name) cert.dns_names
  unfolding check_dns
  check_dns-eq-ok ip cert h = elim (Result-cases (lookup_addr ip)) [
    | inl ([], e) ↦ absurd (ground arith)
    | inl (name ∷ names, e) ↦
        (name, names, e, any_dns-NamesOneOf (first_part name) cert.dns_names (ground arith))
    | inr (x, e) ↦ absurd (ground arith)
  ]

  check_dns_of_name :
      (ip : String) (cert : ClientCert) (name : String) (names : List String)
      → lookup_addr ip ≡ ok (name ∷ names)
      → NamesOneOf (first_part name) cert.dns_names
      → check_dns lookup_addr ip cert ≡ ok tt
  unfolding check_dns
  check_dns_of_name ip cert name names e n =
      ground (arith, e, NamesOneOf-any_dns (first_part name) cert.dns_names n)

  check_endpoint-IsEndpoint :
      (peer : Option Peer) → check_endpoint lookup_addr peer ≡ ok tt → IsEndpoint lookup_addr peer
  unfolding check_endpoint
  check_endpoint-IsEndpoint none h = cc
  check_endpoint-IsEndpoint (some p) h = elim (Option-cases p.certificates) [
    | inl e ↦ absurd (ground arith)
    | inr ([], e) ↦ absurd (ground arith)
    | inr (cert ∷ others, e) ↦ record {
      p = p;
      cert = cert;
      others = others;
      known = refl;
      certified = e;
      matches = elim (Bool-cases (any_ip (address p) cert.ip_addresses)) [
        | inl yes_ ↦ inl (any_ip-IsOneOf (address p) cert.ip_addresses yes_)
        | inr no_ ↦ inr (check_dns-eq-ok (address p) cert (ground arith))
      ];
    }
  ]

  IsEndpoint-check_endpoint :
      (peer : Option Peer) → IsEndpoint lookup_addr peer → check_endpoint lookup_addr peer ≡ ok tt
  unfolding check_endpoint
  IsEndpoint-check_endpoint peer a = elim a.matches [
    | inl ip ↦
        ground (arith, a.known, a.certified, IsOneOf-any_ip (address a.p) a.cert.ip_addresses ip)
    | inr (name, names, e, n) ↦
        ground (arith, a.known, a.certified, check_dns_of_name (address a.p) a.cert name names e n)
  ]

  -- CheckEndpointInterceptor lets a client through exactly when the first certificate of its
  -- connection lists the address of the connection, or lists, in any case of letters, the first
  -- label of the first name that the resolver returns for this address.
  pub check_endpoint_iff :
      (peer : Option Peer) → (check_endpoint lookup_addr peer ≡ ok tt) ↔ IsEndpoint lookup_addr peer
  check_endpoint_iff peer = (check_endpoint-IsEndpoint peer, IsEndpoint-check_endpoint peer)

-- A name of several labels, such as a fully qualified one.
abbrev pub HasDot : String → Type 0
HasDot String.[] = ⊥
HasDot (String.◌∷◌ c s) = (code c ≡ b'.') ⊎ HasDot s

first_part-no_dot : (s : String) → All (λ c. c ≢ b'.') (to_lower (first_part s))
unfolding to_lower first_part
first_part-no_dot String.[] = tt
first_part-no_dot (String.◌∷◌ c s) = elim (Bool-cases (nat_eq (code c) b'.')) [
  | inl dot ↦ rw dot tt
  | inr other ↦ rw other ((λ h. ground arith), first_part-no_dot s)
]

to_lower-HasDot : (s : String) → HasDot s → All (λ c. c ≢ b'.') (to_lower s) → ⊥
unfolding to_lower
to_lower-HasDot String.[] d a = d
to_lower-HasDot (String.◌∷◌ c s) (inl dot) (first, rest) = absurd (first (ground arith))
to_lower-HasDot (String.◌∷◌ c s) (inr later) (first, rest) = to_lower-HasDot s later rest

dotted_names : (s : String) (ts : List String) → All HasDot ts → NamesOneOf (first_part s) ts → ⊥
dotted_names s [] a h = h
dotted_names s (t ∷ ts) (dot, dots) (inl e) =
    to_lower-HasDot t dot (subst (All (λ c. c ≢ b'.')) e (first_part-no_dot s))
dotted_names s (t ∷ ts) (dot, dots) (inr later) = dotted_names s ts dots later

-- A certificate whose DNS names all have a dot matches by its addresses alone: whatever the resolver
-- returns, a client whose address it does not list is refused.
pub check_endpoint-qualified_names :
    (lookup_addr : Resolver) (p : Peer) (cert : ClientCert) (others : List ClientCert)
    → p.certificates ≡ some (cert ∷ others)
    → All HasDot cert.dns_names
    → (check_endpoint lookup_addr (some p) ≡ ok tt) ↔ IsOneOf (address p) cert.ip_addresses
unfolding check_endpoint
check_endpoint-qualified_names lookup_addr p cert others e dots = (
  λ h. elim (Bool-cases (any_ip (address p) cert.ip_addresses)) [
    | inl listed ↦ any_ip-IsOneOf (address p) cert.ip_addresses listed
    | inr unlisted ↦
        let (name, names, found, n) = check_dns-eq-ok lookup_addr (address p) cert (ground arith) in
        absurd (dotted_names name cert.dns_names dots n)
  ],
  λ ip. ground (arith, IsOneOf-any_ip (address p) cert.ip_addresses ip),
)
