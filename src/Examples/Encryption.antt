-- ===== src/Examples/Encryption.antt =====
-- Examples for the encrypted objects.
use gose.Prelude.{
  inr, ◌⊎◌, ℕ, zero, suc, ap, sym, ◌≡◌, ◌↔◌, ◌-◌, ◌+◌, refl, ◌∙◌, true, false, [], ◌∷◌, ◌++◌,
  Option, none, some, Dict, get, arith, length, take, replicate, All-append, eq_iff, take-append_eq,
  length-append, append_assoc, length-replicate,
}
use gose.Bytes.{Bytes, IsByte, IsBytes, codes}
use gose.Bytes.Base64.{encode}
use gose.Bytes.Split.{join}
use gose.Error.{err, external, Result, ok}
use gose.KeyOps.{permits, valid_decryption_ops, valid_cryptor_ops}
use gose.Jose.Types.{
  alg_a256gcm, alg_rsa_oaep, empty_header, enc_a256gcm, key_ops_encrypt, key_ops_decrypt,
}
use gose.Jose.Jwe.{
  JweRfc7516Compact, HeaderJson, marshal_compact, unmarshal_compact, marshal_protected_header,
  check_header, segments, aad, marshal_legacy,
}
use gose.Jose.Jwe.RoundTrip.{AreBytes, unmarshal_compact-marshal}
use gose.Aead.{CipherAead, Sealing, returned, AesGcmCryptor, gcm_open, gcm_seal, sealed_size}
use gose.Aead.RoundTrip.{IsHonest}
use gose.KeyEncryption
use gose.KeyEncryption.{Backend, DecryptionKey}
use gose.KeyEncryption.Uniform.{IsHiding, failures_alike}
use gose.Aead.Gates.{opening_by, HasSizes, IsOpened, gcm_open_iff, gcm_seal-split}
use gose.Aead.Direct.{encrypt, decrypt, header_for}
use gose.Aead.Direct.Delivery.{IsShared, IsSound, ReadsBack, decrypt-encrypt}

-- a cipher that changes nothing: its tag is 7, its own nonce 8, 9
abbrev pub toy_seal : Option Bytes → Bytes → Sealing
toy_seal none p = returned (p ++ 7 ∷ 8 ∷ 9 ∷ [])
toy_seal (some n) p = returned (p ++ 7 ∷ [])

abbrev toy_aead : CipherAead
toy_aead = record {
  nonce_size = 2;
  overhead = 1;
  seal_with = λ n p a. toy_seal n p;
  open_with = λ n d a. ok (take (length d - 1) d);
}

pub tag_off : (p d : Bytes) → d ≡ p ++ 7 ∷ [] → take (length d - 1) d ≡ p
tag_off p d e =
    let n : length d - 1 ≡ length p = omega (arith, ap length e, length-append p (7 ∷ [])) in
    rw n (rw e (take-append_eq (length p) p (7 ∷ []) refl))

nonce_off : (p d : Bytes) → d ≡ p ++ 7 ∷ 8 ∷ 9 ∷ [] → take (length p + 1) d ≡ p ++ 7 ∷ []
nonce_off p d e =
    let apart : d ≡ (p ++ 7 ∷ []) ++ 8 ∷ 9 ∷ [] = e ∙ sym (append_assoc p (7 ∷ []) (8 ∷ 9 ∷ [])) in
    rw apart (take-append_eq (length p + 1) (p ++ 7 ∷ []) (8 ∷ 9 ∷ []) (length-append p (7 ∷ [])))

toy_aead-IsHonest : IsHonest toy_aead
toy_aead-IsHonest = record {
  given = λ n p a d b e. let e' : d ≡ p ++ 7 ∷ [] = cc e in rw (tag_off p d e') refl;
  made = λ p a d b e sized.
      let e' : d ≡ p ++ 7 ∷ 8 ∷ 9 ∷ [] = cc e in
      rw (tag_off p (take (length p + 1) d) (nonce_off p d e')) refl;
}

pub seal_bytes :
    (n : Option Bytes) (p d : Bytes) → IsBytes p → toy_seal n p ≡ returned d → IsBytes d
seal_bytes none p d b e =
    let e' : d ≡ p ++ 7 ∷ 8 ∷ 9 ∷ [] = cc e in
    rw e' (All-append IsByte p (7 ∷ 8 ∷ 9 ∷ []) b (omega arith, (omega arith, (omega arith, tt))))
seal_bytes (some n) p d b e =
    let e' : d ≡ p ++ 7 ∷ [] = cc e in rw e' (All-append IsByte p (7 ∷ []) b (omega arith, tt))

pub zeros-IsBytes : (n : ℕ) → IsBytes (replicate n 0)
zeros-IsBytes zero = tt
zeros-IsBytes (suc n) = (omega arith, zeros-IsBytes n)

abbrev toy_key : AesGcmCryptor
toy_key = record { kid = "k1"; alg = alg_a256gcm; aead = toy_aead; opts = valid_cryptor_ops }

abbrev pub zeros : ℕ → Result Bytes
zeros n = ok (replicate n 0)

abbrev other_data : Bytes
other_data = 42 ∷ []

abbrev toy_json : HeaderJson
toy_json = record { read = λ _. ok (header_for toy_key other_data); write = λ _. ok (1 ∷ []) }

abbrev keystore : Dict AesGcmCryptor
keystore = ("k1", toy_key) ∷ []

toy-IsSound : IsSound zeros toy_key.aead
toy-IsSound = record {
  honest = toy_aead-IsHonest;
  cipher_bytes = λ n p a d b e. seal_bytes n p d b e;
  random_bytes = λ n b e.
      let e' : b ≡ replicate n 0 = cc e in (rw e' (zeros-IsBytes n), rw e' (length-replicate n 0));
}

toy_key-IsShared : IsShared toy_key keystore
unfolding get
toy_key-IsShared = record {
  found = refl;
  named = λ e. let f : false ≡ true = (eq_iff "k1" "").1 e in cc f;
  enc = enc_a256gcm;
  listed = refl;
}

toy_json-ReadsBack : ReadsBack toy_json (header_for toy_key other_data)
toy_json-ReadsBack w e = let e' : w ≡ 1 ∷ [] = cc e in (rw e' (omega arith, tt), refl)

-- "AQ.." and the segments of the nonce 8, 9, of the text 5, 6 and of the tag 7
abbrev sent_text : Bytes
sent_text = codes "AQ..CAk.BQY.Bw"

text_sent : encrypt toy_json zeros toy_key true (5 ∷ 6 ∷ []) other_data ≡ ok sent_text
unfolding encrypt gcm_seal permits marshal_protected_header header_for marshal_legacy join encode
text_sent = refl

may_decrypt : permits valid_decryption_ops toy_key.opts key_ops_decrypt ≡ true
unfolding permits
may_decrypt = refl

decrypt-encrypt_example : decrypt toy_json keystore sent_text ≡ ok (5 ∷ 6 ∷ [], other_data)
decrypt-encrypt_example =
    decrypt-encrypt toy_json zeros toy_key toy-IsSound may_decrypt keystore true (5 ∷ 6 ∷ [])
      other_data sent_text toy_key-IsShared toy_json-ReadsBack (omega arith, (omega arith, tt))
      text_sent (omega arith)

gcm_open_iff_example :
    ((gcm_open toy_key key_ops_decrypt (8 ∷ 9 ∷ []) (5 ∷ []) [] (7 ∷ []) ≡ ok (5 ∷ []))
      ↔ IsOpened toy_key key_ops_decrypt (8 ∷ 9 ∷ []) (5 ∷ []) [] (7 ∷ []) (5 ∷ []))
    × (HasSizes toy_key (8 ∷ 9 ∷ []) (5 ∷ []) (7 ∷ [])
        ⊎ (gcm_open toy_key key_ops_decrypt (8 ∷ 9 ∷ []) (5 ∷ []) [] (7 ∷ [])
            ≡ gcm_open
                (opening_by (λ _ _ _. err (external "panic")) toy_key)
                key_ops_decrypt
                (8 ∷ 9 ∷ [])
                (5 ∷ [])
                []
                (7 ∷ [])))
gcm_open_iff_example =
    gcm_open_iff toy_key key_ops_decrypt (8 ∷ 9 ∷ []) (5 ∷ []) [] (7 ∷ []) (5 ∷ [])
      (λ _ _ _. err (external "panic"))

abbrev plain : Bytes
plain = 5 ∷ []

abbrev tag_and_nonce : Bytes
tag_and_nonce = 7 ∷ 8 ∷ 9 ∷ []

text_sealed : gcm_seal toy_key key_ops_encrypt none plain [] ≡ ok (plain, tag_and_nonce)
unfolding gcm_seal permits
text_sealed = refl

gcm_seal-split_example :
    (toy_key.aead.seal_with none plain [] ≡ returned (plain ++ tag_and_nonce))
    × (length plain ≡ length plain)
    × (length (plain ++ tag_and_nonce) ≡ sealed_size toy_key.aead none plain)
gcm_seal-split_example =
    gcm_seal-split toy_key key_ops_encrypt none plain [] plain tag_and_nonce text_sealed

abbrev rfc_jwe : JweRfc7516Compact
rfc_jwe = record {
  protected_header = header_for toy_key other_data;
  raw_protected_header = [];
  encrypted_key = [];
  initialization_vector = 8 ∷ [];
  ciphertext = 5 ∷ [];
  authentication_tag = 7 ∷ [];
}

rfc_text : marshal_compact toy_json rfc_jwe ≡ ok (codes "AQ..CA.BQ.Bw")
unfolding marshal_compact marshal_protected_header segments join encode
rfc_text = refl

header_checks : check_header (header_for toy_key other_data) ≡ ok tt
unfolding check_header header_for get
header_checks = refl

rfc_bytes : AreBytes [] (8 ∷ []) (5 ∷ []) (7 ∷ [])
rfc_bytes = record {
  key = tt;
  vector = (omega arith, tt);
  body = (omega arith, tt);
  tag = (omega arith, tt);
}

unmarshal_compact-marshal_example :
    (unmarshal_compact toy_json (codes "AQ..CA.BQ.Bw")
      ≡ ok (record rfc_jwe { raw_protected_header = encode (1 ∷ []) }))
    × (aad toy_json (record rfc_jwe { raw_protected_header = encode (1 ∷ []) })
        ≡ ok (encode (1 ∷ [])))
unmarshal_compact-marshal_example =
    unmarshal_compact-marshal toy_json rfc_jwe (1 ∷ []) (codes "AQ..CA.BQ.Bw") refl refl
      (omega arith, tt) header_checks rfc_bytes rfc_text (omega arith)

abbrev wrapped_jwe : JweRfc7516Compact
wrapped_jwe = record rfc_jwe {
  protected_header = record (header_for toy_key other_data) {
    jws = record empty_header { alg = alg_rsa_oaep; kid = "k1" };
    enc = enc_a256gcm;
  };
}

abbrev toy_backend : Backend
toy_backend = record { json = toy_json; gcm = λ _. ok toy_aead; random = zeros }

abbrev failing_key : DecryptionKey
failing_key = record { algorithm = alg_rsa_oaep; unwrap = λ _ _. err (external "decryption") }

abbrev lucky_key : DecryptionKey
lucky_key = record { algorithm = alg_rsa_oaep; unwrap = λ _ _. zeros 32 }

failing-IsHiding : IsHiding toy_backend wrapped_jwe failing_key
failing-IsHiding n h e = tt

lucky-IsHiding : IsHiding toy_backend wrapped_jwe lucky_key
unfolding get
lucky-IsHiding n h e = let n' : n ≡ 32 = cc e in inr (rw n' refl)

failures_alike_example :
    KeyEncryption.decrypt_parsed toy_backend (λ _. ok failing_key) none wrapped_jwe
    ≡ KeyEncryption.decrypt_parsed toy_backend (λ _. ok lucky_key) none wrapped_jwe
failures_alike_example =
    failures_alike toy_backend none wrapped_jwe failing_key lucky_key refl (λ _. ok failing_key)
      (λ _. ok lucky_key) refl refl failing-IsHiding lucky-IsHiding
