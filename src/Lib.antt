-- ===== src/Lib.antt =====
-- Verification library of opentitan-provisioning, the services that provision OpenTitan chips at a
-- manufacturing site.
--
-- The parts and how they interact. A tester opens a session for a SKU at the provisioning appliance
-- (PA), which asks the secure provisioning module (SPM) for authorization and a session token,
-- and remembers the user. Later requests pass an interceptor that compares the token. The SPM
-- derives tokens and endorses certificates and data with keys that stay in an HSM, which it reaches
-- through a queue of PKCS#11 sessions, one queue for each SKU. A provisioned device is registered:
-- the PA lets the SPM sign the device's data and sends the record to the proxy buffer, which stores
-- it. A load test drives the appliance with many clients at once.
--
-- Which file models which part. Functions keep their names, in snake case.
--   Base.antt, Base/         errors as values (gRPC statuses, wrapped errors, panics and calls that
--                            wait for ever), the execution monad (a state, and a result), maps as
--                            lists of distinct keys, lists and text over the native numbers
--   Proto.antt, Proto/       src/proto: messages, validators.go and device_id_utils.go
--   Grpconn.antt, Grpconn/   src/transport/grpconn.go: a client's address against its certificate
--   Auth.antt, Auth/         src/transport/auth_service: user.go and user_store.go (Auth),
--                            auth_service.go (Controller), auth_interceptor.go (Interceptor)
--   Pk11.antt, Pk11/         src/pk11: pk11.go (Connect, Keys), object.go (Find, Octets, Ecdsa, Keys),
--                            gensec.go (Secret), ecdsa.go (Ecdsa, Ecdsa/Curves, Keys), rsa.go (Rsa,
--                            Keys), aes.go (Aes). SoftToken is a small token that the witnesses run
--                            on, not code of the repository
--   Utils.antt, Utils/       src/utils/utils.go: files, certificates, passwords, texts (Texts)
--   ProxyBuffer.antt, ...    src/proxy_buffer: proto/validators.go (Validators),
--                            services/proxybuffer.go (Service), store/db.go and store/connector.go
--                            (Store), store/db_fake.go (Store/FakeDb), store/filedb.go
--                            (Store/FileDb), pb_server.go (Program)
--   Spm.antt, Spm/           src/spm/services: skucfg.go (SkuConfig), se.go (SecureElement),
--                            se_pk11.go (SessionQueue, Hsm, Hsm/Tokens, Hsm/Endorse) and spm.go
--                            (Messages, Server, Server/Params, Server/Handlers, Server/Sessions, where
--                            src/transport/auth_service/session_token.go stands too);
--                            src/spm/spm_server.go (Program)
--   Pa.antt, Pa/             src/pa/services/pa.go and registry_shim/registry_shim.go;
--                            src/pa/pa_server.go (Server)
--   LoadTest.antt, LoadTest/ src/pa/loadtest.go: the three tests, their goroutines (Run), main (Program),
--                            and the clients against the appliance's own server (OnAppliance)
--   System.antt, System/     the appliance in front of the SPM, and all that their callers can do
--   Logger.antt, Logger/     src/logger/logger.go, over the files and the clock of a host (Files)
-- Under each of them are the modules of the laws, named for what they prove, and the tests.
--
-- State. A handler is a function from the state to a result and the next state: the store of users,
-- the queue of a SKU's sessions together with the device, the table of SKUs. An error leaves the state
-- as the code leaves it at that point. A mutex that is held for the whole of an operation makes the
-- operation one step; where operations interleave, at the queue of sessions, the steps are a relation
-- and the invariant is proved by induction on it. The goroutines of the load test share a channel: a
-- move is one goroutine's next action on it, and the theorems hold for every order of the moves. For
-- the appliance and the SPM together a step is a call of the appliance, or anything that happens at
-- the SPM alone.
--
-- Bounds and fuel. Bytes and machine words are native numbers with their wrap-around written out.
-- The search for objects reads handles until a read returns none; it runs on fuel, and more fuel than
-- there are pending handles is enough. A run of the load test has the fuel of its moves, one for each
-- client and three for each call, which its theorem shows to be all there are. All other loops run
-- over lists or count down.
--
-- Parameters. Code of other packages is an argument: the device behind miekg/pkcs11 (`Ctx`), the
-- files and the environment (`Os`), crypto and encoding/asn1 (`Crypto`, `Asn1`), cSHAKE128,
-- the comparison of bcrypt, protobuf's marshalling, gorm's table, the DNS resolver, and the appliance
-- that the load test calls (`Service`). The host of the logger says which of its calls fail, and how
-- much one read returns. What a theorem relies on of them is a hypothesis by name, and the witnesses
-- give an instance: of a device, that an operation belongs to a session, which must have none under
-- way when it begins; of a table, that it has rows.
--
-- Not modelled: the TLS credentials of the gRPC connections, which are calls of Go's library, the
-- printing of the version, the debugging aids of src/pk11 (dump.go, test_support.go), the test data,
-- the clients in other languages, nil pointers in messages, and lines that other goroutines print
-- while a log is rotated.
pub mod Base
pub mod Proto
pub mod Grpconn
pub mod Logger
pub mod LoadTest
pub mod Auth
pub mod ProxyBuffer
pub mod Pk11
pub mod Utils
pub mod Spm
pub mod Pa
pub mod System
