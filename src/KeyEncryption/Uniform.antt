-- ===== src/KeyEncryption/Uniform.antt =====
-- jwe_key_encryption_decryptor.go: what a sender can learn of a failed unwrapping.
use gose.Prelude.{
  ℕ, ◌≡◌, ◌≢◌, refl, ◌⊎◌, inl, inr, Bool-cases, ◌==◌, String, Option, none, some, arith, length,
  get,
}
use gose.Bytes.{Bytes}
use gose.Error.{Result, ok, err, require, ◌>>=◌, gose_error, GoseError}
use gose.Crypto.{Hash}
use gose.Jose.Jwe.{JweRfc7516Compact}
use gose.KeyEncryption.{
  DecryptionKey, Backend, substitute, cek_or_substitute, decrypt_hashed, chosen_hash, length_known,
  decrypt_with, decrypt_parsed, enc_cek_length, oaep_hash_from_alg,
}

module _ (b : Backend) where
  -- the outcome of an unwrapping that gives no CEK of `n` bytes, or that gives the random one
  abbrev pub Hides : ℕ → Result Bytes → Type 0
  Hides n (err e) = Unit
  Hides n (ok cek) = (length cek ≢ n) ⊎ (b.random n ≡ ok cek)

  cek-Hides : (n : ℕ) (r : Result Bytes) → Hides n r → cek_or_substitute b n r ≡ substitute b n
  unfolding cek_or_substitute substitute
  cek-Hides n (err e) h = refl
  cek-Hides n (ok cek) (inl h) = ground (arith, h)
  cek-Hides n (ok cek) (inr h) = elim (Bool-cases (length cek == n)) [
    | inl e ↦ rw (e, h) refl
    | inr e ↦ rw e refl
  ]

  -- a key that unwraps no CEK of the announced length from this JWE, or unwraps one that is what the
  -- source of random bytes gives
  abbrev pub IsHiding : JweRfc7516Compact → DecryptionKey → Type 0
  IsHiding jwe key =
      (n : ℕ) (h : Hash)
      → get jwe.protected_header.enc enc_cek_length ≡ some n
      → Hides n (key.unwrap h jwe.encrypted_key)

module _ (b : Backend) (oaep_hash : Option Hash) (jwe : JweRfc7516Compact)
    (key key' : DecryptionKey) (same : key.algorithm ≡ key'.algorithm) where
  hashed_alike :
      (n : ℕ) (h : Hash)
      → Hides b n (key.unwrap h jwe.encrypted_key)
      → Hides b n (key'.unwrap h jwe.encrypted_key)
      → decrypt_hashed b jwe n key h ≡ decrypt_hashed b jwe n key' h
  unfolding decrypt_hashed
  hashed_alike n h u u' = rw (same, cek-Hides b n _ u, cek-Hides b n _ u') refl

  with_alike :
      (n : ℕ)
      → ((h : Hash) → Hides b n (key.unwrap h jwe.encrypted_key))
      → ((h : Hash) → Hides b n (key'.unwrap h jwe.encrypted_key))
      → decrypt_with b oaep_hash jwe n key ≡ decrypt_with b oaep_hash jwe n key'
  unfolding decrypt_with
  with_alike n u u' = λ i.
      require (oaep_hash_from_alg jwe.protected_header.jws.alg)
        (gose_error GoseError.invalid_algorithm)
      >>= λ h. hashed_alike n (chosen_hash oaep_hash h) (u _) (u' _) i

  known_alike :
      (o : Option ℕ)
      → get jwe.protected_header.enc enc_cek_length ≡ o
      → IsHiding b jwe key
      → IsHiding b jwe key'
      → length_known b oaep_hash jwe (ok key) o ≡ length_known b oaep_hash jwe (ok key') o
  unfolding length_known
  known_alike none e r r' = refl
  known_alike (some n) e r r' = with_alike n (λ h. r n h e) (λ h. r' n h e)

  -- A sender cannot learn from the result whether, or how, the unwrapping of a CEK failed: a key that
  -- fails, by an error or by bytes of another length than announced, leads to the same result as one
  -- that fails in another way and as one that unwraps successfully, to a CEK that is what the source
  -- of random bytes gives. The keys are of one algorithm.
  pub failures_alike :
      (keystore keystore' : String → Result DecryptionKey)
      → keystore jwe.protected_header.jws.kid ≡ ok key
      → keystore' jwe.protected_header.jws.kid ≡ ok key'
      → IsHiding b jwe key
      → IsHiding b jwe key'
      → decrypt_parsed b keystore oaep_hash jwe ≡ decrypt_parsed b keystore' oaep_hash jwe
  unfolding decrypt_parsed
  failures_alike keystore keystore' e e' r r' =
      rw (e, e', known_alike (get jwe.protected_header.enc enc_cek_length) refl r r') refl
