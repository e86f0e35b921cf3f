-- ===== src/Error.antt =====
-- The error values of errors.go and jose/types.go, and the result of a call that may fail.
use gose.Prelude.{String, ◌≡◌, refl, Bool, true, false, Option, none, some}

-- package jose
pub data JoseError : Type 0 where
  json_format blob_empty unsupported_key_type unexpected_key_type jwt_format : JoseError
  duplicate_key_ops jwk_inconsistent_certificate_fields jwk_certificate_key_mismatch : JoseError
  jwk_invalid_fingerprint_format jwk_reserved_claim_name jwe_format : JoseError
  invalid_algorithm invalid_encryption too_many_key_ops : JoseError
  crit_header_not_supported input_too_large : JoseError

-- package gose
pub data GoseError : Type 0 where
  invalid_key invalid_key_type unsupported_key_type invalid_signing_key_url : GoseError
  invalid_operations invalid_certificate_header unknown_key invalid_signature : GoseError
  inconsistent_key_values invalid_key_length hash_unavailable : GoseError
  invalid_exponent_encoding invalid_exponent invalid_modulus_encoding : GoseError
  invalid_x_encoding invalid_y_encoding : GoseError
  invalid_nonce invalid_authentication_tag seal_failed : GoseError
  invalid_jws_compact_encoding invalid_jws_base64_header_encoding : GoseError
  invalid_jws_header_encoding invalid_jws_base64_body_encoding : GoseError
  invalid_jws_base64_signature_encoding invalid_jwk_encoding invalid_jwt_encoding : GoseError
  invalid_jwt_timeframe invalid_kid no_expected_audience : GoseError
  invalid_delegate_encoding invalid_manifest_encoding invalid_key_size : GoseError
  invalid_algorithm invalid_encryption zip_compression_not_supported : GoseError
  input_too_large jwks_stale : GoseError

-- `external` is an error of the standard library or of a backend, `message` one that `fmt.Errorf`
-- makes with no sentinel, `joined` one that it makes of
-- two by `%w: %w`, `context` one that it makes around another by `%w`, and `panics` stands for a
-- call that does not return because it panics.
pub data Error : Type 0 where
  jose_error : JoseError → Error
  gose_error : GoseError → Error
  external : String → Error
  message : String → Error
  joined : Error → Error → Error
  context : String → Error → Error
  panics : String → Error

pub data Result {ℓ} (A : Type ℓ) : Type ℓ where
  ok : A → Result A
  err : Error → Result A

-- a call that returns no value but its error
abbrev pub Checked : Type 0
Checked = Result (Unit {0})

-- `if !b { return e }`
abbrev pub guard : Bool → Error → Checked
guard false fault = err fault
guard true _ = ok tt

-- `if err != nil { return err }`, with the value or without it
infixl 5 ◌>>=◌ ◌>>◌
abbrev pub ◌>>=◌ {ℓ κ} : {A : Type ℓ} {B : Type κ} → Result A → (A → Result B) → Result B
err fault >>= _ = err fault
ok value >>= next = next value

abbrev pub ◌>>◌ {κ} : {B : Type κ} → Checked → Result B → Result B
checked >> next = checked >>= λ _. next

-- `v, ok := …; if !ok { return e }`
abbrev pub require {ℓ} : {A : Type ℓ} → Option A → Error → Result A
require none e = err e
require (some a) e = ok a

-- `if err != nil { return fmt.Errorf("…: %w", err) }`
abbrev pub in_context {ℓ} : {A : Type ℓ} → String → Result A → Result A
in_context what (ok a) = ok a
in_context what (err e) = err (context what e)

-- A chain of calls succeeds only if each of them does.
pub >>=-eq-ok {ℓ κ} :
    {A : Type ℓ} {B : Type κ} (call : Result A) (next : A → Result B) {r : B}
    → (call >>= next) ≡ ok r
    → (value : A) × (call ≡ ok value) × (next value ≡ ok r)
>>=-eq-ok (err fault) next h = cc h
>>=-eq-ok (ok value) next h = (value, refl, h)

pub guard-eq-ok : (b : Bool) (e : Error) {u : Unit {0}} → guard b e ≡ ok u → b ≡ true
guard-eq-ok true e h = refl
guard-eq-ok false e h = cc

-- A guarded call succeeds exactly when its test holds and the rest succeeds.
pub guard->>-eq-ok {ℓ} :
    {B : Type ℓ} (b : Bool) (e : Error) (k : Result B) {x : B}
    → (guard b e >> k) ≡ ok x
    → (b ≡ true) × (k ≡ ok x)
guard->>-eq-ok true e k h = (refl, h)
guard->>-eq-ok false e k h = cc

pub in_context-eq-ok {ℓ} :
    {A : Type ℓ} (what : String) (r : Result A) {a : A} → in_context what r ≡ ok a → r ≡ ok a
in_context-eq-ok what (ok a) h = h
in_context-eq-ok what (err e) h = cc h
