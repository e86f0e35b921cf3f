-- ===== src/Examples/Wrapping.antt =====
-- Examples for a wrapped content-encryption key and for the recipient's key store.
use gose.Prelude.{
  ◌⊎◌, ℕ, ◌≡◌, ◌↔◌, ◌-◌, ◌+◌, arith, refl, true, [], ◌∷◌, ◌++◌, none, some, length, take,
  length-replicate, replicate, Dict, get,
}
use gose.Bytes.{Bytes, codes}
use gose.Bytes.Base64.{encode}
use gose.Bytes.Split.{join}
use gose.Error.{unknown_key, gose_error, err, ok, panics}
use gose.KeyOps.{permits}
use gose.Crypto.{sha1}
use gose.Jose.Types.{alg_rsa_oaep}
use gose.Jose.Jwe.{HeaderJson, marshal_protected_header, marshal_compact}
use gose.Aead.{CipherAead, Sealing, panicked, gcm_seal}
use gose.Aead.RoundTrip.{IsHonest}
use gose.KeyEncryption.{Backend, DecryptionKey, decrypt, is_rsa_oaep_alg}
use gose.KeyEncryption.Encryptor.{
  RsaEncryptor, Surroundings, encrypt, make_jwe_protected_header, oaep_alg_from_hash,
}
use gose.KeyEncryption.Delivery.{IsSound, ReadsBack, decrypt-encrypt_oaep}
use gose.KeyEncryption.KeyStore.{get_decryption_key, IsGiven, get_decryption_key_iff}
use gose.Keys.Symmetric.{new_aes_gcm_cryptor}
use gose.Examples.Encryption.{toy_seal, tag_off, seal_bytes, zeros-IsBytes}

-- a cipher that changes nothing, and asks for a nonce of 12 bytes
abbrev wide_aead : CipherAead
wide_aead = record {
  nonce_size = 12;
  overhead = 1;
  seal_with = λ n p a. elim n [ none ↦ panicked (panics "nonce") | some m ↦ toy_seal (some m) p ];
  open_with = λ n d a. ok (take (length d - 1) d);
}

wide_aead-IsHonest : IsHonest wide_aead
wide_aead-IsHonest = record {
  given = λ n p a d b e. let e' : d ≡ p ++ 7 ∷ [] = cc e in rw (tag_off p d e') refl;
  made = λ p a d b e sized. cc e;
}

abbrev sender : RsaEncryptor
sender = record {
  rsa_public_key = record { n = 15; e = 3 };
  rsa_public_kid = "k1";
  rsa_alg = alg_rsa_oaep;
}

abbrev oaep_json : HeaderJson
oaep_json = record {
  read = λ _. ok (make_jwe_protected_header sender alg_rsa_oaep);
  write = λ _. ok (1 ∷ []);
}

-- the stream counts the reads, and its bytes are zeros; the key is not changed when it is wrapped
abbrev surroundings : Surroundings ℕ
surroundings = record {
  json = oaep_json;
  gcm = λ _. ok wide_aead;
  read_full = λ n r. ok (replicate n 0, r + 1);
  encrypt_oaep = λ _ _ cek r. ok (cek, r + 1);
}

surroundings-IsSound : IsSound surroundings
surroundings-IsSound = record {
  random_bytes = λ n r r' out e.
      let e' : out ≡ replicate n 0 = cc e in
      (rw e' (zeros-IsBytes n), rw e' (length-replicate n 0));
  wrapped_bytes = λ e h cek r r' out b eq. let e' : out ≡ cek = cc eq in rw e' b;
  honest = λ key aead e. let e' : aead ≡ wide_aead = cc e in rw e' wide_aead-IsHonest;
  cipher_bytes = λ key aead n p a d e b s.
      let e' : aead ≡ wide_aead = cc e in
      let s' : toy_seal (some n) p ≡ Sealing.returned d = rw e' at s in
      seal_bytes (some n) p d b s';
}

abbrev recipient : Backend
recipient = record { json = oaep_json; gcm = λ _. ok wide_aead; random = λ n. ok (replicate n 0) }

abbrev recipient_key : DecryptionKey
recipient_key = record { algorithm = alg_rsa_oaep; unwrap = λ _ c. ok c }

abbrev recipient_keys : Dict DecryptionKey
recipient_keys = ("k1", recipient_key) ∷ []

reads_back : ReadsBack surroundings recipient sender sha1
unfolding oaep_alg_from_hash
reads_back = record {
  json = refl;
  gcm = refl;
  header_back = λ a w n e.
      let same : a ≡ alg_rsa_oaep = cc n in
      let e' : w ≡ 1 ∷ [] = cc e in (rw e' (omega arith, tt), rw same refl);
}

abbrev wrapped_text : Bytes
wrapped_text = codes "AQ.AAAAAAAAAAAAAAAAAAAAAAAAAAAAAAAAAAAAAAAAAAA.AAAAAAAAAAAAAAAA.BQY.Bw"

text_wrapped : encrypt surroundings sender (5 ∷ 6 ∷ []) sha1 0 ≡ ok (wrapped_text, 3)
unfolding encrypt oaep_alg_from_hash gcm_seal permits marshal_protected_header marshal_compact join
    encode make_jwe_protected_header new_aes_gcm_cryptor
text_wrapped = refl

key_stored : get_decryption_key recipient_keys "k1" ≡ ok recipient_key
unfolding get_decryption_key get
key_stored = refl

key_fits : is_rsa_oaep_alg recipient_key.algorithm ≡ true
unfolding is_rsa_oaep_alg get
key_fits = refl

decrypt-encrypt_oaep_example :
    (aad : Bytes) × (decrypt recipient (get_decryption_key recipient_keys) none wrapped_text
      ≡ ok (5 ∷ 6 ∷ [], aad))
decrypt-encrypt_oaep_example =
    decrypt-encrypt_oaep surroundings surroundings-IsSound recipient sender (5 ∷ 6 ∷ []) sha1 0 3
      wrapped_text (get_decryption_key recipient_keys) recipient_key text_wrapped
      (omega arith, (omega arith, tt)) reads_back key_stored key_fits (λ cek wrapped r r' e. cc e)
      (omega arith)

get_decryption_key_iff_example :
    ((get_decryption_key recipient_keys "k2" ≡ ok recipient_key)
      ↔ IsGiven recipient_keys "k2" recipient_key)
    × (((other : DecryptionKey) × (get_decryption_key recipient_keys "k2" ≡ ok other))
        ⊎ (get_decryption_key recipient_keys "k2" ≡ err (gose_error unknown_key)))
get_decryption_key_iff_example = get_decryption_key_iff recipient_keys "k2" recipient_key
