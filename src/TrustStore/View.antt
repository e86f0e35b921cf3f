-- ===== src/TrustStore/View.antt =====
-- What a caller can see of a trust store: the stored JWK and the revocation of each pair of issuer
-- and key ID.
use gose.Prelude.{
  String, ◌≡◌, refl, Bool, true, false, ◌&&◌, Option, none, some, [], arith, str_eq, eq_iff,
  if◌then◌else◌, Dict, get, put, delete, get-put, get-delete,
}
use gose.Error.{Result, err, gose_error, unknown_key}
use gose.Jose.Jwk
use gose.Jose.Jwk.{Jwk}
use gose.Keys.Verification.{VerificationKey, new_verification_key}
use gose.TrustStore.{TrustKeyStore, inner, has, ensure, add, remove, get_key, get_stored}

unfoldable pub find : {V : Type 0} → String → String → Dict (Dict V) → Option V
unfolding inner
find issuer kid m = get kid (inner (get issuer m))

unfoldable pub stored : String → String → TrustKeyStore → Option Jwk
unfolding find
stored issuer kid s = find issuer kid s.keys

unfoldable pub is_revoked : String → String → TrustKeyStore → Bool
unfolding find has
is_revoked issuer kid s = has (find issuer kid s.revoked)

module _ {V : Type 0} where
  find-ensure : (i j k : String) (m : Dict (Dict V)) → find j k (ensure i m) ≡ find j k m
  unfolding find ensure
  find-ensure i j k m = ground (arith, get-put i j [] m, eq_iff i j)

  find-put :
      (i j k l : String) (v : V) (m : Dict (Dict V))
      → find j l (put i (put k v (inner (get i m))) m)
        ≡ (if str_eq i j && str_eq k l then some v else find j l m)
  unfolding find
  find-put i j k l v m = ground (
    arith,
    eq_iff i j,
    get-put i j (put k v (inner (get i m))) m,
    get-put k l v (inner (get i m)),
  )

  find-delete :
      (i j k l : String) (m : Dict (Dict V))
      → find j l (put i (delete k (inner (get i m))) m)
        ≡ (if str_eq i j && str_eq k l then none else find j l m)
  unfolding find
  find-delete i j k l m = ground (
    arith,
    eq_iff i j,
    get-put i j (delete k (inner (get i m))) m,
    get-delete k l (inner (get i m)),
  )

-- the key that a call of `add` would store for a pair
abbrev pub kept_or : Option Jwk → Jwk → Option Jwk
kept_or none jwk = some jwk
kept_or (some old) _ = some old

module _ (issuer : String) (jwk : Jwk) (s : TrustKeyStore) where
  pub stored-add :
      (j l : String)
      → stored j l (add issuer jwk s).1 ≡ (
          if str_eq (Jwk.kid jwk) ""
          then stored j l s
          else if str_eq issuer j && str_eq (Jwk.kid jwk) l
          then kept_or (stored j l s) jwk
          else stored j l s)
  unfolding stored add
  stored-add j l = ground (
    arith,
    find-put issuer j (Jwk.kid jwk) l jwk (ensure issuer s.keys),
    find-ensure issuer j l s.keys,
    eq_iff issuer j,
    eq_iff (Jwk.kid jwk) l,
  )

  pub is_revoked-add : (j l : String) → is_revoked j l (add issuer jwk s).1 ≡ is_revoked j l s
  unfolding is_revoked add
  is_revoked-add j l = ground arith

module _ (issuer kid : String) (s : TrustKeyStore) where
  pub stored-remove :
      (j l : String)
      → stored j l (remove issuer kid s).1
        ≡ (if str_eq issuer j && str_eq kid l then none else stored j l s)
  unfolding stored remove
  stored-remove j l =
      ground (arith, find-delete issuer j kid l s.keys, eq_iff issuer j, eq_iff kid l)

  pub is_revoked-remove :
      (j l : String)
      → is_revoked j l (remove issuer kid s).1 ≡ (
          if str_eq issuer j && str_eq kid l && (remove issuer kid s).0
          then true
          else is_revoked j l s)
  unfolding is_revoked remove
  is_revoked-remove j l = ground (
    arith,
    find-put issuer j kid l tt (ensure issuer s.revoked),
    find-ensure issuer j l s.revoked,
  )

  pub is_revoked-get_key :
      (j l : String) → is_revoked j l (get_key issuer kid s).1 ≡ is_revoked j l s
  unfolding is_revoked get_key get_stored
  is_revoked-get_key j l = ground arith

-- the answer of `get_key` for what the pair shows
abbrev pub answer : Bool → Option Jwk → Result VerificationKey
answer true found = err (gose_error unknown_key)
answer false none = err (gose_error unknown_key)
answer false (some jwk) = (new_verification_key jwk).0

-- what `NewVerificationKey` leaves in the store
abbrev pub touched : Bool → Option Jwk → Option Jwk
touched true found = found
touched false none = none
touched false (some jwk) = some (new_verification_key jwk).1

module _ (issuer kid : String) (s : TrustKeyStore) where
  pub get_key-answer :
      (get_key issuer kid s).0 ≡ answer (is_revoked issuer kid s) (stored issuer kid s)
  unfolding get_key stored is_revoked
  get_key-answer = ground arith

  stored-get_stored :
      (o : Option Jwk) (j l : String)
      → find issuer kid s.keys ≡ o
      → stored j l (get_stored issuer kid o s).1
        ≡ (if str_eq issuer j && str_eq kid l then touched false o else stored j l s)
  unfolding get_stored stored
  stored-get_stored none j l e = ground (arith, eq_iff issuer j, eq_iff kid l)
  stored-get_stored (some jwk) j l e = find-put issuer j kid l (new_verification_key jwk).1 s.keys

  pub stored-get_key :
      (j l : String)
      → stored j l (get_key issuer kid s).1 ≡ (
          if str_eq issuer j && str_eq kid l
          then touched (is_revoked issuer kid s) (stored issuer kid s)
          else stored j l s)
  unfolding get_key stored is_revoked
  stored-get_key j l =
      ground
        (arith, eq_iff issuer j, eq_iff kid l, stored-get_stored (find issuer kid s.keys) j l refl)
