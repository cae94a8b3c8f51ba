-- ===== src/Lib.antt =====
-- The end-to-end encryption core of DESperate, the Python service under client/cryptography.
--
-- The program. core/keys.py makes a user's keys: an ML-KEM and an X25519 identity key, a hybrid
-- Ed25519 and ML-DSA signing key, a signed prekey, and pairs of one-time prekeys, and turns them
-- into a public dict for the server and a private one for the keystore. core/pqxdh.py agrees on a
-- secret from one party's keys and the other's public dict. core/aead.py encrypts messages under
-- keys of the ratchet, and headers under nonces of core/header_counter.py. core/signatures.py signs
-- ciphertexts, and checks what the server delivers before it is decrypted. core/state_store.py keeps
-- the state of sessions in encrypted files, under a key that core/kdf.py and core/password.py derive.
-- core/dh_ratchet/session.py makes sessions, sends and receives messages through the doubleratchet
-- package, and saves its state with every message. core/srp_session.py logs in to the server without
-- showing it the password. crypto_service.py answers the client's requests with all of these: it
-- registers, logs in, opens the keystore, and starts, uses and resets conversations. main.py is the
-- smaller server over the same core: without the ratchet, it encrypts all messages of a conversation
-- under the key that the handshake gave.
--
-- Modules and code.
--   Prelude, Outcome      shared helpers; Python exceptions as the errors of a result type
--   Codec                 struct.pack, bytes.hex, str.encode and byte-string literals
--   Crypto, Suite         interfaces of the packages cryptography, argon2-cffi and oqs, with laws
--   Constants             core/constants.py
--   Counter               core/header_counter.py
--   Password, Kdf         core/password.py, core/kdf.py
--   Aead                  core/aead.py
--   Json                  the JSON values and dict operations of the modelled code
--   Keys                  core/keys.py: types, one-time prekeys, hybrid signatures, bundles
--   Pqxdh                 core/pqxdh.py
--   Signatures            core/signatures.py
--   Store                 core/state_store.py; Store.Abstract describes it as a table of sessions
--   Ratchet               core/dh_ratchet: ratchet_kdf.py and session.py, and in Ratchet.Adapters
--                         what the doubleratchet package is given, with dh_ratchet.py
--   Srp                   core/srp_session.py; Srp.Server describes the other side, after RFC 5054
--   Service               crypto_service.py: state and helpers, the handlers by subject (Keystore,
--                         Login, Messages, Reception), and the dispatch of requests
--   Effect                calls that change a state and may raise, as Service and Rpc use them
--   Rpc                   main.py: state and helpers, the handlers by subject (Registration, Login,
--                         Conversations, Messages), the loop of handle_client in Connection, and
--                         two requests that overlap in Interleaving
--   Tests                 runs, with concrete functions in the place of the packages
-- A function of the source has a definition of the same name; a method takes its object as an
-- argument. A method that changes its object or the file system returns it beside the result.
--
-- Choices. Random draws (salts, nonces, coins, keys) are arguments. Numbers are natural numbers,
-- and integers where the source tests for a negative one; words have the bounds of struct.pack
-- written out. Byte strings are lists of numbers, and a lemma that needs bytes says so. All loops
-- are structural recursion on their list or count; two have fuel, the count of a number's bits and
-- its decimal digits, with the number itself and one more as fuel, and fits_byte_length and
-- decimal_lem show that these are enough. In main.py a connection is a list of rounds, each with
-- what the reader delivers or raises and what becomes of drain, and the requests run one after
-- another. A parameter of a request that has another JSON type than the protocol's is a type error
-- where it is read. A file write takes what the operating system does as an argument: where an
-- OSError strikes, how many bytes os.write takes, and whether the temporary file can be removed.
--
-- Not modelled: the text of messages, logging and __repr__, overwriting secrets in memory, the
-- timing of comparisons, directories and errors of reading a file, the socket loop of
-- crypto_service.py, requests to main.py that overlap, but for two initiations (Rpc.Interleaving),
-- and its registration lock, and the parts of the system in other languages. The strength of the
-- cryptographic functions is not a subject: the laws say that honest use works.
pub mod Prelude
pub mod Outcome
pub mod Effect
pub mod Codec
pub mod Crypto
pub mod Constants
pub mod Counter
pub mod Password
pub mod Kdf
pub mod Aead
pub mod Suite
pub mod Json
pub mod Keys
pub mod Pqxdh
pub mod Signatures
pub mod Srp
pub mod Ratchet
pub mod Rpc
pub mod Service
pub mod Store
pub mod Tests
