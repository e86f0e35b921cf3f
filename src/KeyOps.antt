-- ===== src/KeyOps.antt =====
-- The key_ops policy of helpers.go: `isSubset`, `intersection`, and the gate that every key type
-- puts before an operation, `isSubset(intersection(valid, ops), []KeyOps{operation})`.
pub mod Policy
use gose.Prelude.{Bool, true, false, ◌&&◌, ◌||◌, List, [], ◌∷◌, ◌++◌, str_eq, if◌then◌else◌}
use gose.Jose.Types.{KeyOps, key_ops_sign, key_ops_verify, key_ops_encrypt, key_ops_decrypt}

-- the inner loop of `isSubset`, with the flag `opExists`
op_exists : Bool → KeyOps → List KeyOps → Bool
op_exists found req [] = found
op_exists found req (op ∷ set) = op_exists (found || str_eq req op) req set

all_exist : Bool → List KeyOps → List KeyOps → Bool
all_exist result set [] = result
all_exist result set (req ∷ subset) = all_exist (result && op_exists false req set) set subset

unfoldable pub is_subset : List KeyOps → List KeyOps → Bool
unfolding op_exists all_exist
is_subset set [] = false
is_subset set (req ∷ subset) = all_exist true set (req ∷ subset)

-- the inner loop of `intersection`: `a` once for each equal entry of the second list
matches : KeyOps → List KeyOps → List KeyOps
matches a [] = []
matches a (b ∷ second) = if str_eq a b then a ∷ matches a second else matches a second

unfoldable pub intersection : List KeyOps → List KeyOps → List KeyOps
unfolding matches
intersection [] second = []
intersection (a ∷ first) second = matches a second ++ intersection first second

unfoldable pub permits : List KeyOps → List KeyOps → KeyOps → Bool
unfolding is_subset intersection
permits valid ops operation = is_subset (intersection valid ops) (operation ∷ [])

abbrev pub valid_verification_ops : List KeyOps
valid_verification_ops = key_ops_verify ∷ []

abbrev pub valid_signer_ops : List KeyOps
valid_signer_ops = key_ops_sign ∷ []

abbrev pub valid_encryption_ops : List KeyOps
valid_encryption_ops = key_ops_encrypt ∷ []

abbrev pub valid_decryption_ops : List KeyOps
valid_decryption_ops = key_ops_decrypt ∷ []

abbrev pub valid_cryptor_ops : List KeyOps
valid_cryptor_ops = key_ops_encrypt ∷ key_ops_decrypt ∷ []
