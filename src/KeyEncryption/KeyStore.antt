-- ===== src/KeyEncryption/KeyStore.antt =====
-- asymmetric_decryption_key_store.go: the keys of a recipient.
use gose.Prelude.{
  ◌≡◌, ◌↔◌, ◌⊎◌, inl, inr, refl, String, none, some, [], ◌∷◌, Dict, get, Option-cases,
}
use gose.Error.{Result, ok, err, gose_error, unknown_key}
use gose.KeyEncryption.{DecryptionKey}

-- the only key, if there is but one
sole_key : Dict DecryptionKey → Result DecryptionKey
sole_key ((kid, key) ∷ []) = ok key
sole_key _ = err (gose_error unknown_key)

-- `AsymmetricDecryptionKeyStoreImpl.Get`
unfoldable pub get_decryption_key : Dict DecryptionKey → String → Result DecryptionKey
unfolding sole_key get
get_decryption_key keys kid = elim (get kid keys) [ some key ↦ ok key | none ↦ sole_key keys ]

-- why a key is given
abbrev pub IsGiven : Dict DecryptionKey → String → DecryptionKey → Type 0
IsGiven keys kid key =
    (get kid keys ≡ some key)
    ⊎ ((get kid keys ≡ none) × ((other : String) × (keys ≡ (other, key) ∷ [])))

sole_key_sound :
    (keys : Dict DecryptionKey) (key : DecryptionKey)
    → sole_key keys ≡ ok key
    → (other : String) × (keys ≡ (other, key) ∷ [])
unfolding sole_key
sole_key_sound [] key h = cc h
sole_key_sound ((kid, k) ∷ []) key h = let e : k ≡ key = cc h in (kid, cc e)
sole_key_sound (a ∷ b ∷ keys) key h = cc h

sole_key_or_unknown :
    (keys : Dict DecryptionKey)
    → ((key : DecryptionKey) × (sole_key keys ≡ ok key))
      ⊎ (sole_key keys ≡ err (gose_error unknown_key))
unfolding sole_key
sole_key_or_unknown [] = inr refl
sole_key_or_unknown ((kid, k) ∷ []) = inl (k, refl)
sole_key_or_unknown (a ∷ b ∷ keys) = inr refl

-- `Get` gives a key exactly when it is the one under the key ID, or when the store has no key under
-- it and the key is the only one, whatever its own ID; where it gives no key, the error is that the
-- key is unknown.
pub get_decryption_key_iff :
    (keys : Dict DecryptionKey) (kid : String) (key : DecryptionKey)
    → ((get_decryption_key keys kid ≡ ok key) ↔ IsGiven keys kid key)
      × (((other : DecryptionKey) × (get_decryption_key keys kid ≡ ok other))
          ⊎ (get_decryption_key keys kid ≡ err (gose_error unknown_key)))
unfolding get_decryption_key sole_key
get_decryption_key_iff keys kid key = (
  (
    (λ h. elim (Option-cases (get kid keys)) [
      | inl e ↦
          let h' : sole_key keys ≡ ok key = rw (get_decryption_key, e) at h in
          inr (e, sole_key_sound keys key h')
      | inr (k, e) ↦ let h' : ok k ≡ ok key = rw (get_decryption_key, e) at h in inl (cc (e, h'))
    ]),
    (λ given. elim given [
      | inl e ↦ rw (get_decryption_key, e) refl
      | inr (e, (other, only)) ↦ rw (get_decryption_key, e, only) refl
    ]),
  ),
  elim (Option-cases (get kid keys)) [
    | inl e ↦ rw (get_decryption_key, e) (sole_key_or_unknown keys)
    | inr (k, e) ↦ inl (k, rw (get_decryption_key, e) refl)
  ],
)
