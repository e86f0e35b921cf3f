-- ===== src/Aead/RoundTrip.antt =====
-- aes_gcm_cryptor.go: `Seal` and `Open` together.
use gose.Prelude.{
  ℕ, zero, suc, ◌+◌, ◌≤◌, ◌≡◌, refl, ◌∙◌, sym, ap, true, not, Option, none, some, List, [], ◌∷◌,
  ◌++◌, arith, ltb, ◌==◌, length, take, drop, take-append-drop, length-take, length-drop,
}
use gose.Bytes.{Bytes, IsBytes}
use gose.Error.{ok, >>=-eq-ok, guard->>-eq-ok}
use gose.Jose.Types.{KeyOps}
use gose.KeyOps.{permits, valid_decryption_ops, valid_encryption_ops}
use gose.Aead.{
  CipherAead, Sealing, returned, panicked, AesGcmCryptor, gcm_open, gcm_seal, recovered,
  sealed_size, max_plaintext_size, nonce_fits,
}

module _ {A : Type 0} where
  take_nil : (n : ℕ) → take {A = A} n [] ≡ []
  take_nil zero = refl
  take_nil (suc n) = refl

  drop_nil : (n : ℕ) → drop {A = A} n [] ≡ []
  drop_nil zero = refl
  drop_nil (suc n) = refl

  take-take-drop : (m n : ℕ) (xs : List A) → take m xs ++ take n (drop m xs) ≡ take (m + n) xs
  take-take-drop zero n xs = let e : 0 + n ≡ n = omega arith in rw e refl
  take-take-drop (suc m) n [] = take_nil n ∙ sym (take_nil (suc m + n))
  take-take-drop (suc m) n (x ∷ xs) =
      let e : suc m + n ≡ suc (m + n) = omega arith in
      rw e (ap (λ r. x ∷ r) (take-take-drop m n xs))

  drop-drop : (m n : ℕ) (xs : List A) → drop n (drop m xs) ≡ drop (m + n) xs
  drop-drop zero n xs = let e : 0 + n ≡ n = omega arith in rw e refl
  drop-drop (suc m) n [] = drop_nil n ∙ sym (drop_nil (suc m + n))
  drop-drop (suc m) n (x ∷ xs) =
      let e : suc m + n ≡ suc (m + n) = omega arith in rw e (drop-drop m n xs)

-- What is documented of `cipher.AEAD`: it opens what it sealed. A
-- cipher that makes the nonce itself
-- returns it at the end.
pub record IsHonest (aead : CipherAead) : Type 0 where
  pub given :
      (n p a d : Bytes)
      → IsBytes p
      → aead.seal_with (some n) p a ≡ returned d
      → aead.open_with n d a ≡ ok p
  pub made :
      (p a d : Bytes)
      → IsBytes p
      → aead.seal_with none p a ≡ returned d
      → length d ≡ length p + aead.overhead + aead.nonce_size
      → aead.open_with (drop (length p + aead.overhead) d) (take (length p + aead.overhead) d) a
        ≡ ok p

-- what `gcm_seal` has checked when it succeeds, and where its two results come from
pub record WasSealed (key : AesGcmCryptor) (nonce : Option Bytes) (p a c t : Bytes) : Type 0 where
  pub whole : Bytes
  pub made : key.aead.seal_with nonce p a ≡ returned whole
  pub short : length p ≤ max_plaintext_size
  pub fits : nonce_fits key.aead.nonce_size nonce ≡ true
  pub sized : length whole ≡ sealed_size key.aead nonce p
  pub text : c ≡ take (length p) whole
  pub rest : t ≡ drop (length p) whole

recovered-ok : (s : Sealing) (d : Bytes) → recovered s ≡ ok d → s ≡ returned d
unfolding recovered
recovered-ok (returned out) d h = cc h
recovered-ok (panicked e) d h = cc h

pub gcm_seal-WasSealed :
    (key : AesGcmCryptor) (op : KeyOps) (nonce : Option Bytes) (p a c t : Bytes)
    → gcm_seal key op nonce p a ≡ ok (c, t)
    → WasSealed key nonce p a c t
unfolding gcm_seal
gcm_seal-WasSealed key op nonce p a c t h =
    let (_, h₁) = guard->>-eq-ok (permits valid_encryption_ops key.opts op) _ _ h in
    let (short, h₂) = guard->>-eq-ok (not (ltb max_plaintext_size (length p))) _ _ h₁ in
    let (fits, h₃) = guard->>-eq-ok (nonce_fits key.aead.nonce_size nonce) _ _ h₂ in
    let (d, made, h₄) = >>=-eq-ok (recovered (key.aead.seal_with nonce p a)) _ h₃ in
    let (sized, h₅) = guard->>-eq-ok (length d == sealed_size key.aead nonce p) _ _ h₄ in
    record {
      whole = d;
      made = recovered-ok _ d made;
      short = ground (arith, short);
      fits = fits;
      sized = ground (arith, sized);
      text = cc h₅;
      rest = cc h₅;
    }

module _ (key : AesGcmCryptor) (honest : IsHonest key.aead) where
  opens :
      (op : KeyOps) (n c a t p : Bytes)
      → permits valid_decryption_ops key.opts op ≡ true
      → length c ≤ max_plaintext_size
      → length n ≡ key.aead.nonce_size
      → length t ≡ key.aead.overhead
      → key.aead.open_with n (c ++ t) a ≡ ok p
      → gcm_open key op n c a t ≡ ok p
  unfolding gcm_open
  opens op n c a t p allowed short fits sized h = ground (arith, allowed, short, fits, sized, h)

  -- what was sealed under a given nonce has the sizes that opening asks for, and the cipher opens it
  pub sealed_opens :
      (op : KeyOps) (n p a c t : Bytes)
      → IsBytes p
      → gcm_seal key op (some n) p a ≡ ok (c, t)
      → (length n ≡ key.aead.nonce_size)
        × (length t ≡ key.aead.overhead)
        × (key.aead.open_with n (c ++ t) a ≡ ok p)
  sealed_opens op n p a c t bp h =
      let w = gcm_seal-WasSealed key op (some n) p a c t h in
      let whole : c ++ t ≡ w.whole = rw (w.text, w.rest) (take-append-drop (length p) w.whole) in
      let room : length w.whole ≡ key.aead.overhead + length p =
        w.sized ∙ unfold sealed_size in refl in
      (
        unfold nonce_fits in ground (arith, w.fits),
        rw (w.rest) (omega (arith, length-drop (length p) w.whole, room)),
        rw whole (honest.given n p a w.whole bp w.made),
      )

  -- What the cryptor sealed under a given nonce it opens again, for the caller that may decrypt.
  pub gcm_open-gcm_seal :
      (op op' : KeyOps) (n p a c t : Bytes)
      → IsBytes p
      → gcm_seal key op (some n) p a ≡ ok (c, t)
      → permits valid_decryption_ops key.opts op' ≡ true
      → gcm_open key op' n c a t ≡ ok p
  gcm_open-gcm_seal op op' n p a c t bp h allowed =
      let w = gcm_seal-WasSealed key op (some n) p a c t h in
      let (fits, tag, opened) = sealed_opens op n p a c t bp h in
      let body : length c ≤ max_plaintext_size =
        rw (w.text) (omega (arith, length-take (length p) w.whole, w.short)) in
      opens op' n c a t p allowed body fits tag opened

  -- What a cryptor sealed that makes its own nonce it opens again, once the caller has taken the
  -- nonce off the end of the tag.
  pub gcm_open-gcm_seal_made :
      (op op' : KeyOps) (p a c t : Bytes)
      → IsBytes p
      → gcm_seal key op none p a ≡ ok (c, t)
      → permits valid_decryption_ops key.opts op' ≡ true
      → gcm_open key op' (drop key.aead.overhead t) c a (take key.aead.overhead t) ≡ ok p
  gcm_open-gcm_seal_made op op' p a c t bp h allowed =
      let w = gcm_seal-WasSealed key op none p a c t h in
      let o = key.aead.overhead in
      let n = length p in
      let room : length w.whole ≡ o + n + key.aead.nonce_size =
        w.sized ∙ unfold sealed_size in refl in
      let iv : drop o t ≡ drop (n + o) w.whole = ap (drop o) w.rest ∙ drop-drop n o w.whole in
      let text : c ++ take o t ≡ take (n + o) w.whole =
        rw (w.text, w.rest) (take-take-drop n o w.whole) in
      let fits : length (drop o t) ≡ key.aead.nonce_size =
        rw iv (omega (arith, length-drop (n + o) w.whole, room)) in
      let body : length c ≤ max_plaintext_size =
        rw (w.text) (omega (arith, length-take n w.whole, w.short)) in
      let tag : length (take o t) ≡ o =
        length-take o t ∙ rw (w.rest) (omega (arith, length-drop n w.whole, room)) in
      let opened = honest.made p a w.whole bp w.made (omega (arith, room)) in
      opens op' (drop o t) c a (take o t) p allowed body fits tag (rw (text, iv) opened)
