-- ===== src/TrustStore/Revocation.antt =====
-- keystore.go: what `Remove` does for good.
use gose.Prelude.{String, ◌≡◌, ◌∙◌, true, List, [], ◌∷◌, arith, ap, eq_refl}
use gose.Error.{err, gose_error, unknown_key}
use gose.TrustStore.{
  TrustKeyStore, remove, get_key, Operation, add_op, remove_op, get_op, step, run,
}
use gose.TrustStore.View.{
  is_revoked, stored, answer, get_key-answer, is_revoked-add, is_revoked-remove, is_revoked-get_key,
}

step-IsRevoked :
    (o : Operation) (j l : String) (s : TrustKeyStore)
    → is_revoked j l s ≡ true
    → is_revoked j l (step o s) ≡ true
unfolding step
step-IsRevoked (add_op issuer jwk) j l s h = is_revoked-add issuer jwk s j l ∙ h
step-IsRevoked (remove_op issuer kid) j l s h = ground (arith, is_revoked-remove issuer kid s j l)
step-IsRevoked (get_op issuer kid) j l s h = is_revoked-get_key issuer kid s j l ∙ h

run-IsRevoked :
    (os : List Operation) (j l : String) (s : TrustKeyStore)
    → is_revoked j l s ≡ true
    → is_revoked j l (run os s) ≡ true
unfolding run
run-IsRevoked [] j l s h = h
run-IsRevoked (o ∷ os) j l s h = run-IsRevoked os j l (step o s) (step-IsRevoked o j l s h)

-- Once `remove` has returned true for an issuer and a key ID, `get_key` answers that the key is
-- unknown, whatever operations come in between, a new `add` of that key among them.
pub remove_is_final :
    (issuer kid : String) (s : TrustKeyStore) (os : List Operation)
    → (remove issuer kid s).0 ≡ true
    → (get_key issuer kid (run os (remove issuer kid s).1)).0 ≡ err (gose_error unknown_key)
remove_is_final issuer kid s os h =
    let gone : is_revoked issuer kid (remove issuer kid s).1 ≡ true =
      ground (arith, is_revoked-remove issuer kid s issuer kid, eq_refl issuer, eq_refl kid) in
    get_key-answer issuer kid (run os (remove issuer kid s).1)
    ∙ ap (λ b. answer b (stored issuer kid (run os (remove issuer kid s).1)))
        (run-IsRevoked os issuer kid (remove issuer kid s).1 gone)
