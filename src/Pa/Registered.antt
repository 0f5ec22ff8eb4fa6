-- ===== src/Pa/Registered.antt =====
-- Registration from end to end: the appliance (src/pa/services/registry_shim/registry_shim.go) with
-- the proxy buffer's service (src/proxy_buffer/services/proxybuffer.go) behind its client.
use opentitan_provisioning.Base.{
  ◌≡◌, ap, subst, Option, none, some, Result, ok, Error, or_else, or_else-eq-ok,
}
use opentitan_provisioning.Base.Exec.{continue-eq-ok}
use opentitan_provisioning.Proto.{Bytes, DeviceData, RegistryRecord}
use opentitan_provisioning.Proto.DeviceIdText.{device_id_to_hex_string}
use opentitan_provisioning.ProxyBuffer.{DeviceRegistrationResponse}
use opentitan_provisioning.ProxyBuffer.Store.{Connector, IsFaithful, get_device}
use opentitan_provisioning.ProxyBuffer.Program.{over_grpc}
use opentitan_provisioning.ProxyBuffer.Service
use opentitan_provisioning.ProxyBuffer.Service.{register_device-stored}
use opentitan_provisioning.Spm.Messages.{ecdsa_params, hash_type_sha384, EndorseDataResponse}
use opentitan_provisioning.Pa.{
  SpmClient, PbClient, endorse_request, registry_record, registered, register_device,
}

response_eq : {a b : DeviceRegistrationResponse} → ok a ≡ ok b → a ≡ b
response_eq h = cc

over_grpc-eq-ok :
    {S : Type 0} (x : (DeviceRegistrationResponse × Option Error) × S)
    (response : DeviceRegistrationResponse)
    → (over_grpc x).0 ≡ ok response
    → x ≡ ((response, none), (over_grpc x).1)
unfolding over_grpc
over_grpc-eq-ok ((r, none), s) response h = ap (λ x. ((x, none), s)) (response_eq h)
over_grpc-eq-ok ((r, some e), s) response h = cc

module _ {S : Type 0} (spm : SpmClient S) (marshal : DeviceData → Result Bytes) (c : Connector S)
    (marshal_record : RegistryRecord → Result Bytes)
    (unmarshal_record : Bytes → Result RegistryRecord) where
  -- The client whose calls reach the service.
  unfoldable pub buffer_client : PbClient S
  unfolding over_grpc
  buffer_client =
      some (λ request s.
        over_grpc (Service.register_device c marshal_record unmarshal_record request s))

  module _ (faithful : IsFaithful c)
      (decodes : (rr : RegistryRecord) (b : Bytes)
        → marshal_record rr ≡ ok b
        → unmarshal_record b ≡ ok rr) where
    -- When RegisterDevice of the appliance succeeds, over a connector that keeps the contract, the
    -- proxy buffer's database returns under the text of the device's identifier a record of version
    -- 0 with that text, the device's SKU and the marshalled device data, and with the public key and
    -- the signature that the SPM returned, in this order, when it was asked to endorse exactly those
    -- bytes for that SKU under the label of the identity key, with SHA-384.
    pub register_device-get_device :
        (device_data : DeviceData) (s t : S)
        → register_device spm marshal buffer_client (record { device_data = some device_data }) s
          ≡ (ok tt, t)
        → (contents : Bytes) × (endorsed : EndorseDataResponse) × (marshal device_data
            ≡ ok contents)
          × ((spm.endorse_data
                (record {
                  sku = device_data.sku;
                  key_params = some (record {
                    key_label = "SigningKey/Identity/v0";
                    key = ecdsa_params hash_type_sha384;
                  });
                  payload = contents;
                })
                s).0
              ≡ ok endorsed)
          × (get_device c marshal_record unmarshal_record
                (device_id_to_hex_string device_data.device_id)
                t
              ≡ ok (record {
                device_id = device_id_to_hex_string device_data.device_id;
                sku = device_data.sku;
                version = 0;
                contents = contents;
                auth_pubkey = endorsed.pubkey;
                auth_signature = endorsed.signature;
              }))
    unfolding register_device registered buffer_client registry_record
    register_device-get_device device_data s t e =
        let (contents, encoded, e1) = continue-eq-ok (or_else (marshal device_data) _) _ _ e in
        let signed = spm.endorse_data (endorse_request device_data.sku contents) s in
        let (endorsed, made, e2) = continue-eq-ok (or_else signed.0 _) _ _ e1 in
        let rr : RegistryRecord = registry_record device_data contents endorsed in
        let answer =
          Service.register_device c marshal_record unmarshal_record
            (record { registry_record = rr }) signed.1 in
        let (response, sent, e3) = continue-eq-ok (or_else (over_grpc answer).0 _) _ _ e2 in
        (
          contents,
          endorsed,
          or_else-eq-ok _ _ encoded,
          or_else-eq-ok signed.0 _ made,
          subst (λ x. get_device c marshal_record unmarshal_record rr.device_id x ≡ ok rr)
              (ap (λ p. p.1) e3)
              (register_device-stored c marshal_record unmarshal_record faithful decodes
                (record { registry_record = rr }) signed.1 (over_grpc answer).1 response
                (over_grpc-eq-ok answer response (or_else-eq-ok _ _ sent))).0,
        )
