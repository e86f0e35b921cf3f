-- ===== src/Aead/Direct/Delivery.antt =====
-- jwe_direct_encryptor_aead.go and jwe_direct_decryptor_aead.go: sender and recipient together.
use gose.Prelude.{
  ℕ, ◌+◌, ◌-◌, ◌≤◌, ◌≡◌, ◌≢◌, refl, ◌∙◌, Bool, true, false, not, Option, none, some, [], ◌∷◌, arith,
  ltb, length, take, drop, Dict, get, str_eq, eq_iff, eq_refl, All-take, All-drop, length-drop,
}
use gose.Bytes.{Bytes, IsByte, IsBytes}
use gose.Bytes.Base64.{encode}
use gose.Error.{Result, ok, >>=-eq-ok, guard->>-eq-ok}
use gose.Jose.Types.{Enc, key_ops_encrypt, key_ops_decrypt, max_compact_size}
use gose.KeyOps.{permits, valid_decryption_ops}
use gose.Jose.Jwe.{JweHeader, HeaderJson, marshal_protected_header, marshal_legacy, check_crit}
use gose.Jose.Jwe.RoundTrip.{AreBytes, unmarshal_legacy-marshal}
use gose.Aead.{CipherAead, returned, AesGcmCryptor, generate_nonce, gcm_open, gcm_seal, sealed_size}
use gose.Aead.Direct.{
  gcm_alg_to_enc_map, header_for, carried, or_empty, first_nonce, iv_of, iv_and_tag, encrypt,
  key_for, or_nil, decrypt_parsed, decrypt,
}
use gose.Aead.RoundTrip.{IsHonest, gcm_seal-WasSealed, gcm_open-gcm_seal, gcm_open-gcm_seal_made}

-- The recipient holds the sender's key under its ID, for a GCM algorithm.
pub record IsShared (key : AesGcmCryptor) (keystore : Dict AesGcmCryptor) : Type 0 where
  pub found : get key.kid keystore ≡ some key
  pub named : key.kid ≢ ""
  pub enc : Enc
  pub listed : get key.alg gcm_alg_to_enc_map ≡ some enc

-- What is documented of cipher and random source: the cipher opens what it sealed, both give byte
-- strings, and the source gives as many as it is asked for.
pub record IsSound (random : ℕ → Result Bytes) (aead : CipherAead) : Type 0 where
  pub honest : IsHonest aead
  pub cipher_bytes :
      (n : Option Bytes) (p a d : Bytes) → IsBytes p → aead.seal_with n p a ≡ returned d → IsBytes d
  pub random_bytes : (n : ℕ) (b : Bytes) → random n ≡ ok b → IsBytes b × (length b ≡ n)

-- `encoding/json` writes bytes for the header, which it reads back as the same header
abbrev pub ReadsBack : HeaderJson → JweHeader → Type 0
ReadsBack json h = (w : Bytes) → json.write h ≡ ok w → IsBytes w × (json.read w ≡ ok h)

-- the parts behind the header, which are byte strings and open again
record IsOpenable (key : AesGcmCryptor) (iv c a tag p : Bytes) : Type 0 where
  bytes : AreBytes [] iv c tag
  opened : gcm_open key key_ops_decrypt iv c a tag ≡ ok p

module _ (json : HeaderJson) (random : ℕ → Result Bytes) (key : AesGcmCryptor)
    (sound : IsSound random key.aead)
    (allowed : permits valid_decryption_ops key.opts key_ops_decrypt ≡ true) where
  parts_are_bytes :
      (nonce : Option Bytes) (p a c t : Bytes)
      → IsBytes p
      → gcm_seal key key_ops_encrypt nonce p a ≡ ok (c, t)
      → IsBytes c × IsBytes t
  parts_are_bytes used p a c t bp h =
      let w = gcm_seal-WasSealed key key_ops_encrypt used p a c t h in
      let b = sound.cipher_bytes used p a w.whole bp w.made in
      (
        rw (w.text) (All-take IsByte (length p) w.whole b),
        rw (w.rest) (All-drop IsByte (length p) w.whole b),
      )

  IsOpenable-given :
      (b p a c t : Bytes)
      → IsBytes p
      → generate_nonce random key ≡ ok b
      → gcm_seal key key_ops_encrypt (some b) p a ≡ ok (c, t)
      → IsOpenable key b c a t p
  IsOpenable-given b p a c t bp e h =
      let (bc, bt) = parts_are_bytes (some b) p a c t bp h in
      record {
        bytes = record {
          key = tt;
          vector = (sound.random_bytes key.aead.nonce_size b e).0;
          body = bc;
          tag = bt;
        };
        opened =
            gcm_open-gcm_seal key sound.honest key_ops_encrypt key_ops_decrypt b p a c t bp h
              allowed;
      }

  IsOpenable-made :
      (b p a c t : Bytes)
      → IsBytes p
      → generate_nonce random key ≡ ok b
      → gcm_seal key key_ops_encrypt none p a ≡ ok (c, t)
      → IsOpenable key (drop (length t - length b) t) c a (take (length t - length b) t) p
  IsOpenable-made b p a c t bp e h =
      let (bc, bt) = parts_are_bytes none p a c t bp h in
      let w = gcm_seal-WasSealed key key_ops_encrypt none p a c t h in
      let (_, drawn) = sound.random_bytes key.aead.nonce_size b e in
      let room : length w.whole ≡ key.aead.overhead + length p + key.aead.nonce_size =
        w.sized ∙ unfold sealed_size in refl in
      let at : length t - length b ≡ key.aead.overhead =
        rw (w.rest, drawn) (omega (arith, length-drop (length p) w.whole, room)) in
      rw at (record {
        bytes = record {
          key = tt;
          vector = All-drop IsByte key.aead.overhead t bt;
          body = bc;
          tag = All-take IsByte key.aead.overhead t bt;
        };
        opened =
            gcm_open-gcm_seal_made key sound.honest key_ops_encrypt key_ops_decrypt p a c t bp h
              allowed;
      })

  openable :
      (external : Bool) (nonce : Option Bytes) (p a c t iv tag : Bytes)
      → IsBytes p
      → first_nonce external (generate_nonce random key) ≡ ok nonce
      → gcm_seal key key_ops_encrypt nonce p a ≡ ok (c, t)
      → iv_and_tag external (generate_nonce random key) nonce t ≡ ok (iv, tag)
      → IsOpenable key iv c a tag p
  unfolding first_nonce iv_and_tag iv_of
  openable false used p a c t iv tag bp e h f =
      let (b, d, e') = >>=-eq-ok (generate_nonce random key) _ e in
      let u : used ≡ some b = cc e' in
      let v : iv ≡ b = cc (f, u) in
      let t' : tag ≡ t = cc (f, u) in rw (v, t') (IsOpenable-given b p a c t bp d (rw u at h))
  openable true used p a c t iv tag bp e h f =
      let u : used ≡ none = cc e in
      let (b, d, f₁) = >>=-eq-ok (generate_nonce random key) _ f in
      let (_, f₂) = guard->>-eq-ok (not (ltb (length t) (length b))) _ _ f₁ in
      let v : iv ≡ drop (length t - length b) t = cc f₂ in
      let t' : tag ≡ take (length t - length b) t = cc f₂ in
      rw (v, t') (IsOpenable-made b p a c t bp d (rw u at h))

  marshalled_header :
      (h : JweHeader) (m : Bytes)
      → marshal_protected_header json h ≡ ok m
      → (w : Bytes) × (json.write h ≡ ok w) × (m ≡ encode w)
  unfolding marshal_protected_header
  marshalled_header h m e = let (w, writes, f) = >>=-eq-ok (json.write h) _ e in (w, writes, cc f)

  key_for-header :
      (keystore : Dict AesGcmCryptor) (aad : Bytes)
      → IsShared key keystore
      → key_for keystore (header_for key aad) ≡ ok key
  unfolding key_for header_for or_empty
  key_for-header keystore aad shared =
      let named : str_eq key.kid "" ≡ false = ground (arith, eq_iff key.kid "", shared.named) in
      rw (named, shared.found, shared.listed, eq_refl shared.enc) refl

  or_nil-carried : (aad : Bytes) → or_nil (header_for key aad).other_aad ≡ aad
  unfolding header_for carried or_nil
  or_nil-carried [] = refl
  or_nil-carried (b ∷ aad) = refl

  decrypt_parsed-openable :
      (keystore : Dict AesGcmCryptor) (aad marshalled c iv tag p : Bytes)
      → IsShared key keystore
      → gcm_open key key_ops_decrypt iv c marshalled tag ≡ ok p
      → decrypt_parsed keystore (record {
        header = header_for key aad;
        marshalled_header = marshalled;
        encrypted_key = [];
        iv = iv;
        ciphertext = c;
        tag = tag;
      })
        ≡ ok (p, aad)
  unfolding decrypt_parsed
  decrypt_parsed-openable keystore aad marshalled c iv tag p shared h =
      rw (key_for-header keystore aad shared, h, or_nil-carried aad) refl

  delivered :
      (keystore : Dict AesGcmCryptor) (p aad m c iv tag text : Bytes)
      → IsShared key keystore
      → ReadsBack json (header_for key aad)
      → marshal_protected_header json (header_for key aad) ≡ ok m
      → IsOpenable key iv c m tag p
      → marshal_legacy (record {
        header = header_for key aad;
        marshalled_header = m;
        encrypted_key = [];
        iv = iv;
        ciphertext = c;
        tag = tag;
      })
        ≡ text
      → length text ≤ max_compact_size
      → decrypt json keystore text ≡ ok (p, aad)
  unfolding decrypt
  delivered keystore p aad m c iv tag text shared back f o whole short =
      let (w, writes, marshalled) = marshalled_header (header_for key aad) m f in
      let within : not (ltb max_compact_size (length text)) ≡ true = ground (arith, short) in
      let parsed =
        unmarshal_legacy-marshal json _ w (back w writes).0 (back w writes).1 marshalled
          (unfold check_crit header_for in refl) o.bytes (rw whole short) in
      rw (within, ← whole, parsed)
        (decrypt_parsed-openable keystore aad m c iv tag p shared o.opened)

  -- What `Encrypt` sends, with a nonce of its own or one of the backend's, `Decrypt` turns back into
  -- the plaintext and the additional data, if sender and recipient share the key, it may
  -- be used to decrypt, the text is within the bound, and the environment does what it documents.
  pub decrypt-encrypt :
      (keystore : Dict AesGcmCryptor) (external : Bool) (p aad text : Bytes)
      → IsShared key keystore
      → ReadsBack json (header_for key aad)
      → IsBytes p
      → encrypt json random key external p aad ≡ ok text
      → length text ≤ max_compact_size
      → decrypt json keystore text ≡ ok (p, aad)
  unfolding encrypt
  decrypt-encrypt keystore external p aad text shared back bp h short =
      let (used, e, h₁) = >>=-eq-ok (first_nonce external (generate_nonce random key)) _ h in
      let (m, f, h₂) = >>=-eq-ok (marshal_protected_header json (header_for key aad)) _ h₁ in
      let ((c, t), g, h₃) = >>=-eq-ok (gcm_seal key key_ops_encrypt used p m) _ h₂ in
      let ((iv, tag), k, h₄) =
        >>=-eq-ok (iv_and_tag external (generate_nonce random key) used t) _ h₃ in
      let o = openable external used p m c t iv tag bp e g k in
      delivered keystore p aad m c iv tag text shared back f o (cc h₄) short
