-- ===== src/Block/Direct/Delivery.antt =====
-- jwe_direct_encryptor_block.go and jwe_direct_decryptor_block.go: what one encrypts, the other
-- decrypts.
use gose.Prelude.{
  ℕ, ◌+◌, ◌*◌, ◌/◌, ◌%◌, ◌≤◌, ◌≡◌, refl, ap, [], ◌++◌, get, zero, suc, arith, length, replicate,
  All-append,
}
use gose.Bytes.{Bytes, IsBytes, IsByte}
use gose.Bytes.Base64.{encode}
use gose.Error.{ok, >>=-eq-ok, in_context, in_context-eq-ok}
use gose.Jose.Types.{alg_a256cbc, max_compact_size}
use gose.Jose.Jwe.{
  JweRfc7516Compact, HeaderJson, marshal_compact, check_header, is_supported,
  marshal_protected_header,
}
use gose.Jose.Jwe.RoundTrip.{AreBytes, unmarshal_compact-marshal}
use gose.Aead.{max_plaintext_size}
use gose.Block.Sizes.{seal-Fits}
use gose.KeyEncryption.Encryptor.{enc_of}
use gose.Block.Mac.{compute_hash}
use gose.Block.Direct.{
  BlockEncryptor, BlockDecryptor, block_header, encrypt, authenticated, decrypt,
}
use gose.Block.Direct.Steps.{
  Inverse, declared_back, open_blocks_made, opened_back, encrypt_steps, authenticated_made,
  decrypt_made,
}

header_passes :
    {S : Type 0} (json : HeaderJson) (e : BlockEncryptor S) (p : Bytes)
    → e.aes_key.alg ≡ alg_a256cbc
    → check_header (block_header json e p) ≡ ok tt
unfolding check_header block_header is_supported get enc_of
header_passes json e p alg = rw alg refl

-- The two sides share the keys, the algorithm is AES-CBC with a mode of 16-byte blocks that is taken
-- back on the other side, all parts are bytes, and encoding/json reads the header back.
pub record IsHonest {S : Type 0} (json : HeaderJson) (e : BlockEncryptor S) (d : BlockDecryptor S)
    (p : Bytes) (s t : S) : Type 0 where
  pub algorithm : e.aes_key.alg ≡ alg_a256cbc
  pub same_alg : e.aes_key.alg ≡ d.aes_key.alg
  pub same_kid : e.aes_key.kid ≡ d.aes_key.kid
  pub same_hmac : e.hmac_key ≡ d.hmac_key
  pub blocks : e.aes_key.block_cipher.block_size ≡ 16
  pub blocks_back : d.aes_key.block_cipher.block_size ≡ 16
  pub inverse : Inverse e.aes_key.block_cipher d.aes_key.block_cipher s t
  pub iv_bytes : IsBytes e.iv
  pub written_bytes : (k : ℕ) → IsBytes (e.aes_key.block_cipher.written (p ++ replicate k 0) s)
  pub tag_bytes : (a c tag : Bytes) → compute_hash e.hmac_key a e.iv c ≡ ok tag → IsBytes tag
  pub header_back :
      (w : Bytes)
      → json.write (block_header json e p) ≡ ok w
      → IsBytes w × (json.read w ≡ ok (block_header json e p))

zeros-IsBytes : (j : ℕ) → IsBytes (replicate j 0)
zeros-IsBytes zero = tt
zeros-IsBytes (suc j) = (omega arith, zeros-IsBytes j)

module _ {S : Type 0} (json : HeaderJson) (e : BlockEncryptor S) (d : BlockDecryptor S) (p : Bytes)
    (s t : S) (honest : IsHonest json e d p s t) where
  -- the checks of the recipient pass
  passes :
      (c text received tag : Bytes)
      → in_context "error marshalling the JWE Header"
          (marshal_protected_header json (block_header json e p))
        ≡ ok received
      → compute_hash e.hmac_key received e.iv c ≡ ok tag
      → marshal_compact json (record {
        protected_header = block_header json e p;
        raw_protected_header = [];
        encrypted_key = [];
        initialization_vector = e.iv;
        ciphertext = c;
        authentication_tag = tag;
      })
        ≡ ok text
      → IsBytes c
      → length c % 16 ≡ 0
      → length text ≤ max_compact_size
      → authenticated json d text
        ≡ ok (record {
          protected_header = block_header json e p;
          raw_protected_header = received;
          encrypted_key = [];
          initialization_vector = e.iv;
          ciphertext = c;
          authentication_tag = tag;
        })
  unfolding marshal_protected_header block_header
  passes c text received tag marshalled hashed written bytes whole short =
      let header = block_header json e p in
      let sent : JweRfc7516Compact = record {
        protected_header = header;
        raw_protected_header = [];
        encrypted_key = [];
        initialization_vector = e.iv;
        ciphertext = c;
        authentication_tag = tag;
      } in
      let (w, writes, encoded) =
        >>=-eq-ok (json.write header) _ (in_context-eq-ok _ _ marshalled) in
      let is : encode w ≡ received = cc encoded in
      let (bw, back) = honest.header_back w writes in
      let parts : AreBytes [] e.iv c tag = record {
        key = tt;
        vector = honest.iv_bytes;
        body = bytes;
        tag = honest.tag_bytes received c tag hashed;
      } in
      let (parsed, additional) =
        unmarshal_compact-marshal json sent w text writes back bw
          (header_passes json e p honest.algorithm) parts written short in
      let jwe = record sent { raw_protected_header = received } in
      authenticated_made json d text jwe received short (rw is at parsed) honest.same_alg
        honest.same_kid (rw is at additional) (rw honest.same_hmac at hashed) refl whole

  -- A recipient with the sender's keys gets back, from the text that `Encrypt` gave, the plaintext
  -- without its padding. The mode of the recipient takes back what the mode of the sender does, the
  -- padded plaintext is within the bound on plaintexts and the text within the bound on texts, the
  -- parts consist of bytes, and encoding/json reads the header back.
  pub decrypt-encrypt_block :
      (s₁ : S) (text : Bytes)
      → encrypt json e p s ≡ (ok text, s₁)
      → length p + 16 ≤ max_plaintext_size
      → length text ≤ max_compact_size
      → (t' : S) × (decrypt json d text t ≡ (ok p, t'))
  unfolding encrypt block_header
  decrypt-encrypt_block s₁ text h room short =
      let m = e.aes_key.block_cipher in
      let within : length p ≤ max_plaintext_size = omega (arith, room) in
      let (k, j, sealed, _, _, whole, total) =
        seal-Fits e.aes_key p s (omega (arith, honest.blocks)) honest.inverse.same_length within in
      let c = m.written (p ++ replicate k 0) s ++ replicate j 0 in
      let sixteen : length c ≡ (length p / 16 + 1) * 16 = rw honest.blocks at total in
      let aligned : length c % 16 ≡ 0 = omega (arith, sixteen) in
      let (received, tag, marshalled, hashed, written) =
        encrypt_steps json e p s (m.after (p ++ replicate k 0) s) text c
          (in_context "error marshalling the JWE Header"
            (marshal_protected_header json (block_header json e p)))
          sealed (ap (λ r. r.0) h) in
      let bytes =
        All-append IsByte (m.written (p ++ replicate k 0) s) (replicate j 0)
          (honest.written_bytes k) (zeros-IsBytes j) in
      let checked = passes c text received tag marshalled hashed written bytes aligned short in
      let (i, opens) =
        open_blocks_made d.aes_key c t (omega (arith, sixteen, room))
          (rw honest.blocks_back aligned) honest.inverse.same_length_back in
      let (rest, start) =
        opened_back m d.aes_key.block_cipher s t p k j i honest.inverse whole
          (rw honest.blocks aligned) in
      let declares = declared_back p rest within in
      (
        d.aes_key.block_cipher.after c t,
        decrypt_made json d text p _ t _ _ checked opens (rw start declares),
      )
