-- ===== src/Service/Reception/Laws.antt =====
-- How the pinned identity key of a conversation is lost.
use desperate.Prelude.{
  ℕ, Bool, Option, inl, inr, ◌∷◌, ◌≢◌, ap, ◌∙◌, arith, ◌≡◌, refl, true, false, none, some, ◌==◌,
  list_eq, string_eq, nat_eq, beq_refl,
}
use desperate.Prelude.Dict.{lookup, erase, lookup-erase}
use desperate.Outcome.{
  Result, ok, err, value_error, identity_key_changed, file_not_found, ◌>>=◌, ◌>>◌, Result-cases,
}
use desperate.Codec.Words.{Bytes}
use desperate.Codec.Hex.{Text, from_hex}
use desperate.Json.{Json, Fields, find, as_fields}
use desperate.Keys.Types.{IdentityBundle}
use desperate.Keys.Bundle.{text_or_empty, to_private_bundle}
use desperate.Pqxdh.{PqxdhResult, respond}
use desperate.Pqxdh.Bundles.{InitiationBundle, from_dict, truth}
use desperate.Store.{StateStore}
use desperate.Store.Paths.{validate_session_id}
use desperate.Store.States.{load_state}
use desperate.Store.States.Laws.{save_state_other}
use desperate.Service.{
  Packages, Draws, Service, SessionEntry, lift, look, update, require_store, require_bundle,
  store_of, bundle_of, load_opk_secrets, meta_key, text_param, bundle_key, without_opk, consume_opk,
  save, on_files,
}
use desperate.Service.Messages.Laws.{files_without, forget_files_lem, files_without-load}
use desperate.Service.Reception.{
  sender_key, check_identity, drop_old, recover, consume_used, accept_first, receive,
  decrypt_message,
}

-- A well-formed initiation for a conversation that has a session, under another identity key than
-- the one pinned for it.
pub record Rekeyed {R : Type 0} (p : Packages R) (params : Fields) (s : Service R) (id : Text)
    (st : StateStore) : Type 0 where
  pub entry : SessionEntry R
  pub bundle : IdentityBundle
  pub ciphertext_hex : Text
  pub sender_hex : Text
  pub payload : Bytes
  pub key : Bytes
  pub initiation : Json
  pub init : InitiationBundle
  pub secret : PqxdhResult
  pub named : text_param "conversation_id" params ≡ ok id
  pub sent : text_param "ciphertext" params ≡ ok ciphertext_hex
  pub decoded : from_hex ciphertext_hex ≡ ok payload
  pub initiates : find "initiation_bundle" params ≡ some initiation
  pub not_empty : truth initiation ≡ true
  pub shown : text_or_empty (find "sender_ik_sig_pub" params) ≡ ok sender_hex
  pub read_key : sender_key sender_hex ≡ ok key
  pub parsed : from_dict initiation ≡ ok init
  pub agreed :
      respond p.suite bundle init (load_opk_secrets bundle).0 (load_opk_secrets bundle).1
      ≡ ok secret
  pub identity : s.local_bundle ≡ some bundle
  pub opened : s.store ≡ some st
  pub valid : validate_session_id id ≡ ok tt
  pub known : lookup id s.sessions ≡ some entry
  pub other_key : (key == entry.remote_ik_sig_pub) ≡ false

module _ {R : Type 0} (p : Packages R) where
  dropped_lem :
      (id : Text) (entry : SessionEntry R) (s : Service R) (st : StateStore)
      → s.store ≡ some st
      → validate_session_id id ≡ ok tt
      → drop_old p id true (some entry) s ≡ (
        ok (some entry.remote_ik_sig_pub),
        record s { sessions = erase id s.sessions; files = files_without p st id s.files },
      )
  unfolding drop_old update lift
  dropped_lem id entry s st opened valid =
      rw (forget_files_lem p id (record s { sessions = erase id s.sessions }) st opened valid) refl

  -- the service once the session, its pinned key and its files are dropped
  abbrev pub dropped : StateStore → Text → Service R → Service R
  dropped st id s = record s {
    sessions = erase id s.sessions;
    files = files_without p st id s.files;
  }

  -- the consumption of the one-time prekey that the initiation names, if it names one
  abbrev pub consumption :
      (draws : Draws) (params : Fields) (s : Service R) (id : Text) (st : StateStore)
      → Rekeyed p params s id st
      → Result (Unit {0}) × Service R
  consumption draws params s id st k =
      consume_used p draws k.bundle k.init.opk_id k.init.used_identity_kem (dropped st id s)

  refused_lem :
      (draws : Draws) (params : Fields) (s : Service R) (id : Text) (st : StateStore)
      (k : Rekeyed p params s id st) (t : Service R) (q : Result (Unit {0}) × Service R)
      → consume_used p draws k.bundle k.init.opk_id k.init.used_identity_kem t ≡ q
      → (accept_first p draws id k.payload k.sender_hex k.initiation
          (some k.entry.remote_ik_sig_pub)
          k.bundle
          t)
        ≡ ((q.0 >> err (value_error identity_key_changed)), q.1)
  unfolding accept_first lift check_identity
  refused_lem draws params s id st k t (ok u, after) e =
      rw (k.parsed, k.agreed, e, k.read_key, k.other_key) refl
  refused_lem draws params s id st k t (err x, after) e = rw (k.parsed, k.agreed, e) refl

  erased : (id : Text) (s : Service R) → lookup id (erase id s.sessions) ≡ none
  erased id s = rw (lookup-erase id id s.sessions, beq_refl id) refl

  decrypt_refused :
      (draws : Draws) (params : Fields) (s : Service R) (id : Text) (st : StateStore)
      (k : Rekeyed p params s id st)
      → let (r, t) = consumption draws params s id st k in
        decrypt_message p draws params s ≡ ((r >> err (value_error identity_key_changed)), t)
  unfolding decrypt_message lift look require_bundle bundle_of require_store store_of recover
      receive
  decrypt_refused draws params s id st k =
      rw
        (
          k.named, k.sent, k.initiates, k.shown, k.identity, k.opened, k.decoded, k.known,
          k.not_empty,
        )
        (rw
          (
            dropped_lem id k.entry (record s { store = some st; local_bundle = some k.bundle }) st
                refl k.valid,
            erased id s,
            k.not_empty,
          )
          (refused_lem draws params s id st k _ _ refl))

  -- Consuming a prekey changes neither the sessions nor the files of any but the bundle's.
  consumed_elsewhere :
      (draws : Draws) (b : IdentityBundle) (opk_id : Option ℕ) (kem : Bool) (t : Service R)
      (st : StateStore)
      → t.store ≡ some st
      → ((consume_used p draws b opk_id kem t).1.sessions ≡ t.sessions)
        × ((other : Text)
            → bundle_key ≢ other
            → load_state p.suite.cipher p.json st other
                (consume_used p draws b opk_id kem t).1.files
              ≡ load_state p.suite.cipher p.json st other t.files)
  unfolding consume_used require_store look store_of consume_opk update lift save on_files
  consumed_elsewhere draws b none kem t st opened = (refl, λ other apart. refl)
  consumed_elsewhere draws b (some n) true t st opened = (refl, λ other apart. refl)
  consumed_elsewhere draws b (some n) false t st opened =
      elim (Result-cases (to_private_bundle p.suite (without_opk n b) >>= as_fields)) [
        | inl (state, e) ↦
            let w = draws.writes 0 in
            rw (opened, e)
              (
                refl,
                λ other apart.
                    save_state_other p.suite.cipher p.json st bundle_key state w.nonce w.io t.files
                      other apart,
              )
        | inr (x, e) ↦ rw (opened, e) (refl, λ other apart. refl)
      ]

  abbrev third : Text → ℕ
  third (x ∷ (y ∷ (z ∷ t))) = z
  third t = 0

  meta_key-ne-bundle_key : (id : Text) → bundle_key ≢ meta_key id
  meta_key-ne-bundle_key id e = absurd (omega (arith, ap (λ t. third t) e))

  -- A well-formed initiation under another identity key, with which the handshake succeeds, in a
  -- service with an open keystore, for a conversation with a session, a valid name and another
  -- one than that of the keystore's own entry: it is refused with IDENTITY_KEY_CHANGED, or, if it
  -- names a one-time prekey whose consumption raises, with that exception. Either way the session
  -- and the pinned key are gone, from memory and from the disk: neither file of the conversation
  -- is found any more.
  pub decrypt_message_forgets_pin :
      (draws : Draws) (params : Fields) (s : Service R) (id : Text) (st : StateStore)
      (k : Rekeyed p params s id st)
      → bundle_key ≢ id
      → let (reply, s') = decrypt_message p draws params s in
        (reply ≡ ((consumption draws params s id st k).0 >> err (value_error identity_key_changed)))
        × (lookup id s'.sessions ≡ none)
        × (load_state p.suite.cipher p.json st id s'.files ≡ err file_not_found)
        × (load_state p.suite.cipher p.json st (meta_key id) s'.files ≡ err file_not_found)
  decrypt_message_forgets_pin draws params s id st k apart =
      let (state_gone, pin_gone) = files_without-load p id st s.files k.valid in
      let (sessions, files) =
        consumed_elsewhere draws k.bundle k.init.opk_id k.init.used_identity_kem (dropped st id s)
          st k.opened in
      rw (decrypt_refused draws params s id st k) (
        refl,
        ap (λ d. lookup id d) sessions ∙ erased id s,
        files id apart ∙ state_gone,
        files (meta_key id) (meta_key-ne-bundle_key id) ∙ pin_gone,
      )
