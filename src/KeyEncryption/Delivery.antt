-- ===== src/KeyEncryption/Delivery.antt =====
-- jwe_key_encryption_encryptor.go and jwe_key_encryption_decryptor.go: sender and recipient together.
use gose.Prelude.{
  ℕ, ◌≤◌, ◌≡◌, refl, ap, ◌∙◌, String, true, not, Option, none, some, [], ◌∷◌, ◌++◌, arith, ltb,
  length, get, str_eq, eq_iff, ◌==◌, All-take, All-drop,
}
use mathlib.Core.Path.{Path}
use gose.Bytes.{Bytes, IsByte, IsBytes}
use gose.Bytes.Base64.{encode}
use gose.Error.{in_context-eq-ok, Error, Result, ok, require, in_context, >>=-eq-ok}
use gose.Crypto.{Hash, sha1, sha256, sha384, sha512, no_hash}
use gose.Jose.Types.{Alg, key_ops_encrypt, max_compact_size, alg_rsa_oaep, alg_rsa_oaep_sha2}
use gose.Jose.Jwe.{
  JweRfc7516Compact, marshal_protected_header, marshal_compact, check_header, aad, is_supported,
}
use gose.Jose.Jwe.RoundTrip.{AreBytes, unmarshal_compact-marshal}
use gose.Aead.{CipherAead, gcm_seal, returned}
use gose.Aead.RoundTrip.{IsHonest, gcm_seal-WasSealed, sealed_opens}
use gose.Keys.Symmetric.{new_aes_gcm_cryptor}
use gose.KeyEncryption.{
  DecryptionKey, Backend, oaep_hash_from_alg, is_rsa_oaep_alg, enc_cek_length, cek_or_substitute,
  open_content, decrypt_hashed, decrypt_with, chosen_hash, length_known, decrypt_parsed, decrypt,
}
use gose.KeyEncryption.Encryptor.{
  RsaEncryptor, Surroundings, oaep_alg_from_hash, make_jwe_protected_header, cek_size,
  cek_algorithm, iv_size, encrypt,
}

-- The two tables between OAEP algorithms and hashes are inverse to each other.
pub oaep_hash_from_alg-oaep_alg_from_hash :
    (h : Hash) (a : Alg) → oaep_alg_from_hash h ≡ some a → oaep_hash_from_alg a ≡ some h
unfolding oaep_alg_from_hash oaep_hash_from_alg get
oaep_hash_from_alg-oaep_alg_from_hash sha1 a e = let same : a ≡ alg_rsa_oaep = cc e in rw same refl
oaep_hash_from_alg-oaep_alg_from_hash sha256 a e =
    let same : a ≡ alg_rsa_oaep_sha2 = cc e in rw same refl
oaep_hash_from_alg-oaep_alg_from_hash sha384 a e = cc e
oaep_hash_from_alg-oaep_alg_from_hash sha512 a e = cc e
oaep_hash_from_alg-oaep_alg_from_hash no_hash a e = cc e

-- What is documented of the libraries that the sender calls: the stream gives as many bytes as are
-- asked for, RSA-OAEP makes bytes of bytes, and a cipher of AES-GCM opens what it sealed and gives bytes.
pub record IsSound {R : Type 0} (b : Surroundings R) : Type 0 where
  pub random_bytes :
      (n : ℕ) (r r' : R) (out : Bytes)
      → b.read_full n r ≡ ok (out, r')
      → IsBytes out × (length out ≡ n)
  pub wrapped_bytes :
      (e : RsaEncryptor) (h : Hash) (cek : Bytes) (r r' : R) (out : Bytes)
      → IsBytes cek
      → b.encrypt_oaep e.rsa_public_key h cek r ≡ ok (out, r')
      → IsBytes out
  pub honest : (key : Bytes) (aead : CipherAead) → b.gcm key ≡ ok aead → IsHonest aead
  pub cipher_bytes :
      (key : Bytes) (aead : CipherAead) (n p a d : Bytes)
      → b.gcm key ≡ ok aead
      → IsBytes p
      → aead.seal_with (some n) p a ≡ returned d
      → IsBytes d

-- The recipient's key unwraps what the sender wraps with the hash.
abbrev pub Unwraps : {R : Type 0} → Surroundings R → RsaEncryptor → Hash → DecryptionKey → Type 0
Unwraps {R = R} b e h key =
    (cek wrapped : Bytes) (r r' : R)
    → b.encrypt_oaep e.rsa_public_key h cek r ≡ ok (wrapped, r')
    → key.unwrap h wrapped ≡ ok cek

-- everything that a successful encryption has computed
record WasEncrypted {R : Type 0} (b : Surroundings R) (e : RsaEncryptor) (p : Bytes) (h : Hash)
    (text : Bytes) : Type 0 where
  oaep_alg : Alg
  cek : Bytes
  wrapped : Bytes
  iv : Bytes
  aad : Bytes
  c : Bytes
  t : Bytes
  r₀ : R
  r₁ : R
  r₂ : R
  r₃ : R
  aead : CipherAead
  named : oaep_alg_from_hash h ≡ some oaep_alg
  cek_read : b.read_full cek_size r₀ ≡ ok (cek, r₁)
  wraps : b.encrypt_oaep e.rsa_public_key h cek r₁ ≡ ok (wrapped, r₂)
  iv_read : b.read_full iv_size r₂ ≡ ok (iv, r₃)
  authentic : marshal_protected_header b.json (make_jwe_protected_header e oaep_alg) ≡ ok aad
  cipher : b.gcm cek ≡ ok aead
  sealed :
      gcm_seal
        (new_aes_gcm_cryptor aead "" cek_algorithm (key_ops_encrypt ∷ []))
        key_ops_encrypt
        (some iv)
        p
        aad
      ≡ ok (c, t)
  marshalled :
      marshal_compact b.json (record {
        protected_header = make_jwe_protected_header e oaep_alg;
        raw_protected_header = [];
        encrypted_key = wrapped;
        initialization_vector = iv;
        ciphertext = c;
        authentication_tag = t;
      })
      ≡ ok text

require-eq-ok : (o : Option Alg) (f : Error) {a : Alg} → require o f ≡ ok a → o ≡ some a
require-eq-ok none f h = cc h
require-eq-ok (some o) f h = cc h

first_eq :
    {R : Type 0} (a a' : Bytes) (r r' : R)
    → Path (Result (Bytes × R)) (ok (a, r)) (ok (a', r'))
    → a ≡ a'
first_eq a a' r r' h = cc h

encrypt-WasEncrypted :
    {R : Type 0} (b : Surroundings R) (e : RsaEncryptor) (p : Bytes) (h : Hash) (r r' : R)
    (text : Bytes)
    → encrypt b e p h r ≡ ok (text, r')
    → WasEncrypted b e p h text
unfolding encrypt
encrypt-WasEncrypted b e p h r r' text eq =
    let (a, e₀, h₀) = >>=-eq-ok (require (oaep_alg_from_hash h) _) _ eq in
    let ((cek, r₁), e₁, h₁) = >>=-eq-ok (in_context _ (b.read_full cek_size r)) _ h₀ in
    let ((wrapped, r₂), e₂, h₂) =
      >>=-eq-ok (in_context _ (b.encrypt_oaep e.rsa_public_key h cek r₁)) _ h₁ in
    let ((iv, r₃), e₃, h₃) = >>=-eq-ok (in_context _ (b.read_full iv_size r₂)) _ h₂ in
    let (aad, e₄, h₄) =
      >>=-eq-ok (in_context _ (marshal_protected_header b.json (make_jwe_protected_header e a))) _
        h₃ in
    let (aead, e₅, h₅) = >>=-eq-ok (b.gcm cek) _ h₄ in
    let ((c, t), e₆, h₆) =
      >>=-eq-ok
        (in_context _ (
          gcm_seal (new_aes_gcm_cryptor aead "" cek_algorithm (key_ops_encrypt ∷ []))
            key_ops_encrypt (some iv) p aad))
        _ h₅ in
    let (out, e₇, h₇) = >>=-eq-ok (in_context _ (marshal_compact b.json _)) _ h₆ in
    record {
      oaep_alg = a;
      cek = cek;
      wrapped = wrapped;
      iv = iv;
      aad = aad;
      c = c;
      t = t;
      r₀ = r;
      r₁ = r₁;
      r₂ = r₂;
      r₃ = r₃;
      aead = aead;
      named = require-eq-ok (oaep_alg_from_hash h) _ e₀;
      cek_read = in_context-eq-ok _ _ e₁;
      wraps = in_context-eq-ok _ _ e₂;
      iv_read = in_context-eq-ok _ _ e₃;
      authentic = in_context-eq-ok _ _ e₄;
      cipher = e₅;
      sealed = in_context-eq-ok _ _ e₆;
      marshalled = in_context-eq-ok _ _ e₇ ∙ ap ok (first_eq out text r₃ r' h₇);
    }

-- The recipient has the same libraries, and encoding/json reads the sender's header back.
pub record ReadsBack {R : Type 0} (s : Surroundings R) (b : Backend) (e : RsaEncryptor) (h : Hash)
    : Type 0 where
  pub json : b.json ≡ s.json
  pub gcm : b.gcm ≡ s.gcm
  pub header_back :
      (a : Alg) (w : Bytes)
      → oaep_alg_from_hash h ≡ some a
      → b.json.write (make_jwe_protected_header e a) ≡ ok w
      → IsBytes w × (b.json.read w ≡ ok (make_jwe_protected_header e a))

module _ {R : Type 0} (s : Surroundings R) (sound : IsSound s) where
  -- what is sealed, in the form that the recipient reads
  abbrev jwe_of :
      {e : RsaEncryptor} {p : Bytes} {h : Hash} {text : Bytes}
      → WasEncrypted s e p h text
      → JweRfc7516Compact
  jwe_of {e = e} w = record {
    protected_header = make_jwe_protected_header e w.oaep_alg;
    raw_protected_header = [];
    encrypted_key = w.wrapped;
    initialization_vector = w.iv;
    ciphertext = w.c;
    authentication_tag = w.t;
  }

  parts-AreBytes :
      (e : RsaEncryptor) (p : Bytes) (h : Hash) (text : Bytes) (w : WasEncrypted s e p h text)
      → IsBytes p
      → AreBytes w.wrapped w.iv w.c w.t
  unfolding new_aes_gcm_cryptor
  parts-AreBytes e p h text w bp =
      let key = new_aes_gcm_cryptor w.aead "" cek_algorithm (key_ops_encrypt ∷ []) in
      let q = gcm_seal-WasSealed key key_ops_encrypt (some w.iv) p w.aad w.c w.t w.sealed in
      let whole = sound.cipher_bytes w.cek w.aead w.iv p w.aad q.whole w.cipher bp (q.made) in
      record {
        key =
            sound.wrapped_bytes e h w.cek w.r₁ w.r₂ w.wrapped
              (sound.random_bytes cek_size w.r₀ w.r₁ w.cek w.cek_read).0 w.wraps;
        vector = (sound.random_bytes iv_size w.r₂ w.r₃ w.iv w.iv_read).0;
        body = rw (q.text) (All-take IsByte (length p) q.whole whole);
        tag = rw (q.rest) (All-drop IsByte (length p) q.whole whole);
      }

  header_passes :
      (e : RsaEncryptor) (h : Hash) (a : Alg)
      → oaep_alg_from_hash h ≡ some a
      → (check_header (make_jwe_protected_header e a) ≡ ok tt)
        × (get (make_jwe_protected_header e a).enc enc_cek_length ≡ some cek_size)
        × ((make_jwe_protected_header e a).zip ≡ "")
        × ((make_jwe_protected_header e a).jws.kid ≡ e.rsa_public_kid)
        × ((make_jwe_protected_header e a).jws.alg ≡ a)
  unfolding oaep_alg_from_hash check_header make_jwe_protected_header get is_supported
  header_passes e sha1 a n =
      let same : a ≡ alg_rsa_oaep = cc n in rw same (refl, refl, refl, refl, refl)
  header_passes e sha256 a n =
      let same : a ≡ alg_rsa_oaep_sha2 = cc n in rw same (refl, refl, refl, refl, refl)
  header_passes e sha384 a n = cc n
  header_passes e sha512 a n = cc n
  header_passes e no_hash a n = cc n

  -- the recipient's part, from the parsed text on
  received :
      (b : Backend) (key : DecryptionKey) (keystore : String → Result DecryptionKey) (h : Hash)
      (a : Alg) (jwe : JweRfc7516Compact) (cek p aad' : Bytes) (aead : CipherAead)
      → oaep_alg_from_hash h ≡ some a
      → jwe.protected_header.jws.alg ≡ a
      → jwe.protected_header.zip ≡ ""
      → get jwe.protected_header.enc enc_cek_length ≡ some cek_size
      → keystore jwe.protected_header.jws.kid ≡ ok key
      → is_rsa_oaep_alg key.algorithm ≡ true
      → key.unwrap h jwe.encrypted_key ≡ ok cek
      → length cek ≡ cek_size
      → b.gcm cek ≡ ok aead
      → length jwe.initialization_vector ≡ aead.nonce_size
      → length jwe.authentication_tag ≡ aead.overhead
      → aad b.json jwe ≡ ok aad'
      → aead.open_with jwe.initialization_vector (jwe.ciphertext ++ jwe.authentication_tag) aad'
        ≡ ok p
      → decrypt_parsed b keystore none jwe ≡ ok (p, aad')
  unfolding decrypt_parsed length_known decrypt_with decrypt_hashed open_content cek_or_substitute
      chosen_hash
  received b key keystore h a jwe cek p aad' aead named alg zip enc found family unwraps len cipher
        fits tag authentic opens =
      let hash : oaep_hash_from_alg jwe.protected_header.jws.alg ≡ some h =
        rw alg (oaep_hash_from_alg-oaep_alg_from_hash h a named) in
      let plain : str_eq jwe.protected_header.zip "" ≡ true =
        (eq_iff jwe.protected_header.zip "").1 zip in
      let exact : (length cek == cek_size) ≡ true = ground (arith, len) in
      let fits' : (length jwe.initialization_vector == aead.nonce_size) ≡ true =
        ground (arith, fits) in
      let tag' : (length jwe.authentication_tag == aead.overhead) ≡ true = ground (arith, tag) in
      rw (plain, found, enc, hash, family, unwraps, exact, cipher, fits', tag', authentic, opens)
        refl

  delivered :
      (b : Backend) (e : RsaEncryptor) (p : Bytes) (h : Hash) (text : Bytes)
      (keystore : String → Result DecryptionKey) (key : DecryptionKey)
      (w : WasEncrypted s e p h text)
      → IsBytes p
      → ReadsBack s b e h
      → keystore e.rsa_public_kid ≡ ok key
      → is_rsa_oaep_alg key.algorithm ≡ true
      → Unwraps s e h key
      → length text ≤ max_compact_size
      → (aad' : Bytes) × (decrypt b keystore none text ≡ ok (p, aad'))
  unfolding decrypt marshal_protected_header new_aes_gcm_cryptor
  delivered b e p h text keystore key w bp reads found family unwraps short =
      let (passes, enc, zip, kid, alg) = header_passes e h w.oaep_alg w.named in
      let (header, writes, its_aad) =
        >>=-eq-ok (s.json.write (make_jwe_protected_header e w.oaep_alg)) _ w.authentic in
      let (bh, back) = reads.header_back w.oaep_alg header w.named (rw (reads.json) writes) in
      let (parsed, authentic) =
        unmarshal_compact-marshal b.json (jwe_of w) header text (rw (reads.json) writes) back bh
          passes (parts-AreBytes e p h text w bp) (rw (reads.json) (w.marshalled)) short in
      let aad_eq : w.aad ≡ encode header = cc its_aad in
      let sealer = new_aes_gcm_cryptor w.aead "" cek_algorithm (key_ops_encrypt ∷ []) in
      let (fits, tag, opens) =
        sealed_opens sealer (sound.honest w.cek w.aead w.cipher) key_ops_encrypt w.iv p w.aad w.c
          w.t bp w.sealed in
      let within : not (ltb max_compact_size (length text)) ≡ true = ground (arith, short) in
      let done =
        received b key keystore h w.oaep_alg
          (record (jwe_of w) { raw_protected_header = encode header }) w.cek p (encode header)
          w.aead w.named alg zip enc (rw kid found) family
          (unwraps w.cek w.wrapped w.r₁ w.r₂ w.wraps)
          (sound.random_bytes cek_size w.r₀ w.r₁ w.cek w.cek_read).1 (rw (reads.gcm) (w.cipher))
          fits tag authentic (rw aad_eq at opens) in
      (encode header, rw (within, parsed) done)

  -- A recipient whose key store holds, under the sender's key ID, an RSA-OAEP key that unwraps what the
  -- sender wraps gets back, from the text that `Encrypt` gave, the plaintext and some additional data.
  -- It takes the hash from the header. The plaintext consists of bytes, the text must be no longer than
  -- the bound, encoding/json reads the header back, and the libraries are taken to be sound.
  pub decrypt-encrypt_oaep :
      (b : Backend) (e : RsaEncryptor) (p : Bytes) (h : Hash) (r r' : R) (text : Bytes)
      (keystore : String → Result DecryptionKey) (key : DecryptionKey)
      → encrypt s e p h r ≡ ok (text, r')
      → IsBytes p
      → ReadsBack s b e h
      → keystore e.rsa_public_kid ≡ ok key
      → is_rsa_oaep_alg key.algorithm ≡ true
      → Unwraps s e h key
      → length text ≤ max_compact_size
      → (aad' : Bytes) × (decrypt b keystore none text ≡ ok (p, aad'))
  decrypt-encrypt_oaep b e p h r r' text keystore key eq bp reads found family unwraps short =
      delivered b e p h text keystore key (encrypt-WasEncrypted s e p h r r' text eq) bp reads found
        family unwraps short
