-- ===== src/Jose/Types.antt =====
-- jose/types.go and the header of jose/jws.go: the string types with their constants, the bounds of
-- the parsers, and the JOSE header.
use gose.Prelude.{ℕ, ◌^◌, String, Option, none, List, []}
use gose.Bytes.{Bytes}

abbrev pub Alg : Type 0
Alg = String

abbrev pub Crv : Type 0
Crv = String

abbrev pub KeyUse : Type 0
KeyUse = String

abbrev pub KeyOps : Type 0
KeyOps = String

abbrev pub JwsType : Type 0
JwsType = String

abbrev pub Enc : Type 0
Enc = String

abbrev pub Zip : Type 0
Zip = String

abbrev pub alg_rs256 : Alg
alg_rs256 = "RS256"

abbrev pub alg_rs384 : Alg
alg_rs384 = "RS384"

abbrev pub alg_rs512 : Alg
alg_rs512 = "RS512"

abbrev pub alg_ps256 : Alg
alg_ps256 = "PS256"

abbrev pub alg_ps384 : Alg
alg_ps384 = "PS384"

abbrev pub alg_ps512 : Alg
alg_ps512 = "PS512"

abbrev pub alg_es256 : Alg
alg_es256 = "ES256"

abbrev pub alg_es384 : Alg
alg_es384 = "ES384"

abbrev pub alg_es512 : Alg
alg_es512 = "ES512"

abbrev pub alg_a128gcm : Alg
alg_a128gcm = "A128GCM"

abbrev pub alg_a192gcm : Alg
alg_a192gcm = "A192GCM"

abbrev pub alg_a256gcm : Alg
alg_a256gcm = "A256GCM"

abbrev pub alg_a256cbc : Alg
alg_a256cbc = "A256CBC"

abbrev pub alg_dir : Alg
alg_dir = "dir"

abbrev pub alg_rsa_oaep : Alg
alg_rsa_oaep = "RSA-OAEP"

abbrev pub alg_rsa_oaep_sha2 : Alg
alg_rsa_oaep_sha2 = "RSA-OAEP-256"

abbrev pub key_ops_sign : KeyOps
key_ops_sign = "sign"

abbrev pub key_ops_verify : KeyOps
key_ops_verify = "verify"

abbrev pub key_ops_encrypt : KeyOps
key_ops_encrypt = "encrypt"

abbrev pub key_ops_decrypt : KeyOps
key_ops_decrypt = "decrypt"

abbrev pub jwt_type : JwsType
jwt_type = "JWT"

abbrev pub enc_a128gcm : Enc
enc_a128gcm = "A128GCM"

abbrev pub enc_a192gcm : Enc
enc_a192gcm = "A192GCM"

abbrev pub enc_a256gcm : Enc
enc_a256gcm = "A256GCM"

abbrev pub enc_a256cbc : Enc
enc_a256cbc = "A256CBC"

abbrev pub max_compact_size : ℕ
max_compact_size = 2 ^ 20

abbrev pub max_jwks_size : ℕ
max_jwks_size = 2 ^ 20

abbrev pub max_blob_size : ℕ
max_blob_size = 2 ^ 16

-- `JwsHeader`; an absent text is the empty one, an absent blob is `none`
pub record JwsHeader : Type 0 where
  pub alg : Alg
  pub jku : String
  pub kid : String
  pub x5u : String
  pub x5c : List Bytes
  pub x5t : Option Bytes
  pub x5t256 : Option Bytes
  pub typ : JwsType
  pub cty : JwsType
  pub crit : List String

-- the zero value of `JwsHeader`
abbrev pub empty_header : JwsHeader
empty_header = record {
  alg = "";
  jku = "";
  kid = "";
  x5u = "";
  x5c = [];
  x5t = none;
  x5t256 = none;
  typ = "";
  cty = "";
  crit = [];
}
