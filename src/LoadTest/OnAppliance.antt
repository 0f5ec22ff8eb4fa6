-- ===== src/LoadTest/OnAppliance.antt =====
-- The clients of src/pa/loadtest.go against the server of src/pa/pa_server.go, whose methods stand
-- behind the interceptor.
use opentitan_provisioning.Base.{
  ℕ, ◌≡◌, ◌⊎◌, refl, inl, inr, ap, sym, ◌∙◌, true, false, String, String_eq, List, [], Option, some,
  Result, ok, err, Error, arith, Bool-cases, Result-cases,
}
use opentitan_provisioning.Base.Exec.{Exec, pure}
use opentitan_provisioning.Base.Dict.{lookup}
use opentitan_provisioning.Base.Text.{has_suffix}
use opentitan_provisioning.Proto.{Bytes, DeviceData}
use opentitan_provisioning.Grpconn.{Peer, Resolver, check_endpoint}
use opentitan_provisioning.Auth.Interceptor.{
  Context, Metadata, authorize, any_suffix, exclude_methods_list, get_user_id, unary,
}
use opentitan_provisioning.Auth.Authorized.{EndsWithOneOf}
use opentitan_provisioning.Spm.Messages.{
  InitSessionRequest, InitSessionResponse, DeriveTokensRequest,
}
use opentitan_provisioning.Pa.{SpmClient, PbClient, Appliance, init_session, derive_tokens}
use opentitan_provisioning.Pa.Sessions.{init_session-authorize}
use opentitan_provisioning.Pa.Server.{
  Serving, intercepted, served_init_session, served_derive_tokens, served_endorse_certs,
  served_register_device, init_session_method, derive_tokens_method,
}
use opentitan_provisioning.LoadTest.{
  Service, ClientTask, Flags, setup, call, derive_tokens_request, new_client_metadata,
  call_metadata, error_of, itoa,
}

init_excluded : any_suffix init_session_method exclude_methods_list ≡ true
unfolding any_suffix has_suffix
init_excluded = refl

derive_included : any_suffix derive_tokens_method exclude_methods_list ≡ false
unfolding any_suffix has_suffix
derive_included = refl

-- gRPC hands the metadata to the server; the connection's peer is the same for all calls.
module _ {S : Type 0} (serving : Serving) (lookup_addr : Resolver) (spm : SpmClient S)
    (marshal : DeviceData → Result Bytes) (pb_client : PbClient S) (peer : Option Peer)
    (rand_uint64 : Appliance S → ℕ × Appliance S) where
  abbrev pub context : Metadata → Context
  context md = record { peer = peer; metadata = some md }

  unfoldable pub appliance_service : Service (Appliance S)
  appliance_service = record {
    load_client_credentials = pure tt;
    dial = pure tt;
    init_session = λ md request. served_init_session serving lookup_addr spm (context md) request;
    derive_tokens = λ md request. served_derive_tokens serving lookup_addr spm (context md) request;
    endorse_certs = λ md request. served_endorse_certs serving lookup_addr spm (context md) request;
    register_device = λ md request.
        served_register_device serving lookup_addr spm marshal pb_client (context md) request;
    rand_uint64 = rand_uint64;
  }

  -- TLS is off, or the client's certificate matches its address.
  abbrev pub IsAccepted : Type 0
  IsAccepted = (serving.interceptor.enable_tls ≡ false) ⊎ (check_endpoint lookup_addr peer ≡ ok tt)

  intercepted-ok :
      {A : Type 0} (method : String) (md : Metadata) (handler : Exec (Appliance S) A)
      (p : Appliance S)
      → IsAccepted
      → authorize serving.interceptor p.instance_ (context md) method ≡ ok tt
      → intercepted serving lookup_addr spm method (context md) handler p ≡ handler p
  unfolding intercepted unary
  intercepted-ok method md handler p (inl off) h = ground (arith, h, off)
  intercepted-ok method md handler p (inr matches) h = ground (arith, h, matches)

  intercepted-err :
      {A : Type 0} (method : String) (md : Metadata) (handler : Exec (Appliance S) A)
      (p : Appliance S) (e : Error)
      → authorize serving.interceptor p.instance_ (context md) method ≡ err e
      → intercepted serving lookup_addr spm method (context md) handler p ≡ (err e, p)
  unfolding intercepted unary
  intercepted-err method md handler p e h = ground (arith, h)

  setup-eq-ok :
      (flags : Flags) (sku : String) (c c' : ClientTask) (p p' : Appliance S)
      → setup appliance_service flags sku c p ≡ (ok c', p')
      → (r : InitSessionResponse) × (served_init_session serving lookup_addr spm
            (context (new_client_metadata c))
            (record { sku = sku; sku_auth = flags.test_sku_auth })
            p
          ≡ (ok r, p'))
        × (c' ≡ record c { auth_token = r.sku_session_token })
  unfolding setup appliance_service
  setup-eq-ok flags sku c c' p p' e =
      let opened =
        served_init_session serving lookup_addr spm (context (new_client_metadata c))
          (record { sku = sku; sku_auth = flags.test_sku_auth }) p in
      elim (Bool-cases flags.enable_tls) [
        | inl on ↦ elim (Result-cases opened.0) [
          | inl (r, found) ↦ (r, ground (arith, on, found, e), ground (arith, on, found, e))
          | inr (x, failed) ↦ absurd (ground (arith, on, failed, e))
        ]
        | inr off ↦ elim (Result-cases opened.0) [
          | inl (r, found) ↦ (r, ground (arith, off, found, e), ground (arith, off, found, e))
          | inr (x, failed) ↦ absurd (ground (arith, off, failed, e))
        ]
      ]

  served_init_session-handler :
      (md : Metadata) (request : InitSessionRequest) (p : Appliance S)
      → IsAccepted
      → serving.interceptor.exclude_methods ≡ exclude_methods_list
      → served_init_session serving lookup_addr spm (context md) request p
        ≡ init_session spm (context md) request p
  unfolding served_init_session authorize
  served_init_session-handler md request p open_ excluded =
      intercepted-ok init_session_method md (init_session spm (context md) request) p open_
        (rw (excluded, init_excluded) refl)

  -- What becomes of a client's DeriveTokens call in the state `p`: the handler's answer if the method
  -- is among those of the session, and else an error, with nothing changed.
  pub record IsServed (c : ClientTask) (p : Appliance S) (methods : List String) : Type 0 where
    pub served :
        (request : DeriveTokensRequest)
        → EndsWithOneOf derive_tokens_method methods
        → call appliance_service c (derive_tokens_request request) p
          ≡ error_of appliance_service (derive_tokens spm request p)
    pub refused :
        (request : DeriveTokensRequest)
        → (EndsWithOneOf derive_tokens_method methods → ⊥)
        → (e : Error) × (call appliance_service c (derive_tokens_request request) p ≡ (some e, p))

  call-IsServed :
      (c : ClientTask) (p : Appliance S) (methods : List String)
      → IsAccepted
      → (authorize serving.interceptor p.instance_ (context (call_metadata c)) derive_tokens_method
            ≡ ok tt
          → EndsWithOneOf derive_tokens_method methods)
      → (EndsWithOneOf derive_tokens_method methods
          → authorize serving.interceptor p.instance_
              (context (call_metadata c))
              derive_tokens_method
            ≡ ok tt)
      → IsServed c p methods
  unfolding call appliance_service served_derive_tokens
  call-IsServed c p methods open_ only if_ = record {
    served = λ request ends. ap (error_of appliance_service) (
        intercepted-ok derive_tokens_method (call_metadata c) (derive_tokens spm request) p open_
          (if_ ends));
    refused = λ request other.
        elim (Result-cases (
          authorize serving.interceptor p.instance_ (context (call_metadata c))
            derive_tokens_method)) [
              | inl (_, passes) ↦ absurd (other (only passes))
              | inr (e, fails) ↦ (
                e,
                ap (error_of appliance_service) (
                    intercepted-err derive_tokens_method (call_metadata c)
                      (derive_tokens spm request) p e fails),
              )
            ];
  }

  -- A client whose set-up against the appliance's server has succeeded, with TLS off or with a
  -- certificate that matches its address, and with the methods that need no token those of the source:
  -- the appliance's InitSession has answered it, and its DeriveTokens calls reach the handler if that
  -- method's full name ends with one of the names in the answer; if not, they are refused and change
  -- nothing.
  pub setup-IsServed :
      (flags : Flags) (sku : String) (c c' : ClientTask) (p p' : Appliance S)
      → IsAccepted
      → serving.interceptor.exclude_methods ≡ exclude_methods_list
      → setup appliance_service flags sku c p ≡ (ok c', p')
      → (r : InitSessionResponse) × (init_session spm
            (context (new_client_metadata c))
            (record { sku = sku; sku_auth = flags.test_sku_auth })
            p
          ≡ (ok r, p'))
        × IsServed c' p' r.auth_methods
  unfolding get_user_id new_client_metadata call_metadata lookup
  setup-IsServed flags sku c c' p p' open_ excluded e =
      let (r, opened, made) = setup-eq-ok flags sku c c' p p' e in
      let request : InitSessionRequest = record { sku = sku; sku_auth = flags.test_sku_auth } in
      let ran =
        sym (served_init_session-handler (new_client_metadata c) request p open_ excluded)
        ∙ opened in
      let both =
        init_session-authorize spm (context (new_client_metadata c)) request p p' r
          serving.interceptor (context (call_metadata c')) (new_client_metadata c)
          (call_metadata c') (itoa c.id) c'.auth_token derive_tokens_method [] ran refl refl refl
          (ground (arith, made)) refl (rw excluded derive_included) in
      (
        r,
        ran,
        call-IsServed c' p' r.auth_methods open_ (λ passes. (both.0 passes).1)
            (λ ends. both.1 (ap (λ t. t.auth_token) made, ends)),
      )
