-- ===== src/Ratchet/Laws.antt =====
-- The wire form gives the message back.
use desperate.Prelude.{
  ℕ, ◌+◌, ◌≤◌, ◌<◌, ◌≡◌, ◌≢◌, refl, sym, ap, ◌∙◌, arith, true, false, not, [], ◌∷◌, ◌++◌, take,
  drop, length, length-append, take-append, drop-append, drop-drop, ltb, inl, inr, ◌==◌, nat_eq,
  list_eq, nat_beq_iff, ltb→lt, Bool-cases,
}
use desperate.Outcome.{ok, Result-cases}
use desperate.Codec.Words.{
  Bytes, pack_u32, pack_le, unpack_le, length-pack_le, unpack_u32-pack, u32_limit,
}
use desperate.Kdf.{is_empty}
use desperate.Ratchet.{EncryptedMessage, build_wire, parse_wire, wire_version}

pack_u32_inv : (n : ℕ) {b : Bytes} → pack_u32 n ≡ ok b → (b ≡ pack_le 4 n) × (n < u32_limit)
unfolding pack_u32
pack_u32_inv n e = ground arith

pub packed : (n : ℕ) (b : Bytes) → pack_u32 n ≡ ok b → (length b ≡ 4) × (unpack_le b ≡ n)
packed n b e =
    let (form, fits) = pack_u32_inv n e in rw form (length-pack_le 4 n, unpack_u32-pack n fits)

nonempty : (b : Bytes) → b ≢ [] → is_empty b ≡ false
nonempty [] h = absurd (h refl)
nonempty (x ∷ b) h = refl

-- The five parts of a wire message.
abbrev pub laid : Bytes → Bytes → Bytes → Bytes → Bytes → Bytes
laid i pn n key ct = wire_version ++ (i ++ (pn ++ (n ++ (key ++ ct))))

module _ (i pn n key ct : Bytes) (hi : length i ≡ 4) (hp : length pn ≡ 4) (hn : length n ≡ 4)
    (hk : length key ≡ 32) where
  pub drop-pn : drop 5 (laid i pn n key ct) ≡ pn ++ (n ++ (key ++ ct))
  drop-pn = sym (drop-drop 1 4 (laid i pn n key ct)) ∙ drop-append 4 i _ hi

  pub drop-n : drop 9 (laid i pn n key ct) ≡ n ++ (key ++ ct)
  drop-n =
      sym (drop-drop 5 4 (laid i pn n key ct)) ∙ ap (λ t. drop 4 t) drop-pn ∙ drop-append 4 pn _ hp

  pub drop-key : drop 13 (laid i pn n key ct) ≡ key ++ ct
  drop-key =
      sym (drop-drop 9 4 (laid i pn n key ct)) ∙ ap (λ t. drop 4 t) drop-n ∙ drop-append 4 n _ hn

  pub drop-ct : drop 45 (laid i pn n key ct) ≡ ct
  drop-ct =
      sym (drop-drop 13 32 (laid i pn n key ct))
      ∙ ap (λ t. drop 32 t) drop-key
      ∙ drop-append 32 key _ hk

  length-laid : length (laid i pn n key ct) ≡ 45 + length ct
  length-laid = omega (
    arith,
    length-append i (pn ++ (n ++ (key ++ ct))),
    length-append pn (n ++ (key ++ ct)),
    length-append n (key ++ ct),
    length-append key ct,
  )

  pub long_enough : 45 ≤ length (laid i pn n key ct)
  long_enough = omega (arith, length-laid)

  parse_laid :
      ct ≢ []
      → parse_wire (laid i pn n key ct)
        ≡ ok (
          unpack_le i,
          record {
            header = record {
              ratchet_pub = key;
              previous_sending_chain_length = unpack_le pn;
              sending_chain_length = unpack_le n;
            };
            ciphertext = ct;
          },
        )
  unfolding parse_wire desperate.Prelude.list_beq
  parse_laid body =
      let long : ltb (length (laid i pn n key ct)) 45 ≡ false = ground (arith, long_enough) in
      let full : is_empty ct ≡ false = nonempty ct body in
      rw
        (
          long,
          drop-pn,
          drop-n,
          drop-key,
          drop-ct,
          take-append 4 i (pn ++ (n ++ (key ++ ct))) hi,
          take-append 4 pn (n ++ (key ++ ct)) hp,
          take-append 4 n (key ++ ct) hn,
          take-append 32 key ct hk,
          full,
        )
        refl

-- What encrypt puts together, decrypt takes apart into the same index, header fields and
-- ciphertext, if the ciphertext is not empty; it is 45 bytes longer than the ciphertext.
pub parse_wire-build_wire :
    (index : ℕ) (m : EncryptedMessage) {wire : Bytes}
    → m.ciphertext ≢ []
    → build_wire index m ≡ ok wire
    → (parse_wire wire ≡ ok (index, m)) × (length wire ≡ 45 + length m.ciphertext)
unfolding build_wire
parse_wire-build_wire index m {wire} body e =
    let key = m.header.ratchet_pub in
    let p = m.header.previous_sending_chain_length in
    let q = m.header.sending_chain_length in
    elim (Result-cases (pack_u32 index)) [
      | inl (i, ei) ↦ elim (Result-cases (pack_u32 p)) [
        | inl (pn, ep) ↦ elim (Result-cases (pack_u32 q)) [
          | inl (n, en) ↦
              let size : length key ≡ 32 = ground arith in
              let form : laid i pn n key m.ciphertext ≡ wire = ground arith in
              let (bi, vi) = packed index i ei in
              let (bp, vp) = packed p pn ep in
              let (bn, vn) = packed q n en in
              rw (← form) (
                parse_laid i pn n key m.ciphertext bi bp bn size body ∙ rw (vi, vp, vn) refl,
                length-laid i pn n key m.ciphertext bi bp bn size,
              )
          | inr (x, en) ↦ absurd (ground arith)
        ]
        | inr (x, ep) ↦ absurd (ground arith)
      ]
      | inr (x, ei) ↦ absurd (ground arith)
    ]
