-- ===== src/Examples/Blocks.antt =====
-- Examples for encryption with a block mode and a keyed hash.
use gose.Prelude.{
  ℕ, ◌+◌, ◌*◌, ◌/◌, ◌%◌, ◌≤◌, ◌<◌, ◌≡◌, refl, false, some, [], ◌∷◌, ◌++◌, arith, length, replicate,
  take-append_length, zero, suc, get,
}
use gose.Bytes.{Bytes, IsBytes}
use gose.Bytes.BigEndian.{to_bytes}
use gose.Bytes.Split.{join}
use gose.Bytes.Base64.{encode}
use gose.Error.{external, Result, ok, err}
use gose.Jose.Types.{empty_header, jwt_type, max_compact_size, alg_a256cbc, enc_a256cbc}
use gose.Jose.Jwe.{JweProtectedHeader, HeaderJson, marshal_compact, marshal_protected_header}
use gose.KeyEncryption.Encryptor.{enc_of}
use gose.Block.{BlockMode, AesCbcCryptor, seal}
use gose.Block.Sizes.{seal-Fits}
use gose.Block.Mac.{HmacShaCryptor, hash_of, compute_hash, uint_to_bytes_big_endian}
use gose.Block.Direct.{BlockEncryptor, BlockDecryptor, encrypt, decrypt, block_header}
use gose.Block.Direct.Delivery.{IsHonest, decrypt-encrypt_block}
use gose.Block.Direct.Authentic.{Outcome, decrypt-IsAuthentic}

-- the mode changes nothing, and its state counts the calls
abbrev toy_mode : BlockMode ℕ
toy_mode = record { block_size = 16; written = λ src _. src; after = λ _ s. s + 1 }

abbrev toy_cryptor : AesCbcCryptor ℕ
toy_cryptor = record { kid = "k1"; alg = alg_a256cbc; block_cipher = toy_mode }

seal-Fits_example :
    (k : ℕ) × (j : ℕ) × (seal toy_cryptor (1 ∷ 2 ∷ []) 0
      ≡ (ok ((1 ∷ 2 ∷ replicate k 0) ++ replicate j 0), 1))
    × (k < 16)
    × (j ≤ 16)
    × (length {A = ℕ} (1 ∷ 2 ∷ replicate k 0) % 16 ≡ 0)
    × (length {A = ℕ} ((1 ∷ 2 ∷ replicate k 0) ++ replicate j 0) ≡ (2 / 16 + 1) * 16)
seal-Fits_example = seal-Fits toy_cryptor (1 ∷ 2 ∷ []) 0 (omega arith) (λ src. refl) (omega arith)

abbrev toy_hmac : HmacShaCryptor
toy_hmac = record { kid = "h1"; hash = some (λ b. 9 ∷ []); destroyed = false }

abbrev toy_encryptor : BlockEncryptor ℕ
toy_encryptor = record { aes_key = toy_cryptor; iv = 7 ∷ []; hmac_key = toy_hmac }

abbrev toy_decryptor : BlockDecryptor ℕ
toy_decryptor = record { aes_key = toy_cryptor; hmac_key = toy_hmac }

abbrev toy_header : JweProtectedHeader
toy_header = record {
  jws = record empty_header { alg = alg_a256cbc; kid = "k1"; typ = jwt_type; cty = jwt_type };
  other_aad = some (0 ∷ 0 ∷ 0 ∷ 0 ∷ 0 ∷ 0 ∷ 0 ∷ 2 ∷ []);
  enc = enc_a256cbc;
  zip = "";
}

abbrev read_some : Bytes → Result JweProtectedHeader
read_some [] = err (external "unexpected end of JSON input")
read_some (_ ∷ _) = ok toy_header

abbrev header_json : HeaderJson
header_json = record { read = read_some; write = λ _. ok (5 ∷ []) }

abbrev bytes_or : Result Bytes → Bytes
bytes_or (ok b) = b
bytes_or (err e) = []

abbrev sealed_bytes : Bytes
sealed_bytes = bytes_or ((encrypt header_json toy_encryptor (1 ∷ 2 ∷ []) 0).0)

decrypt-IsAuthentic_example :
    Outcome header_json toy_decryptor sealed_bytes 0
      ((decrypt header_json toy_decryptor sealed_bytes 0).0)
      ((decrypt header_json toy_decryptor sealed_bytes 0).1)
decrypt-IsAuthentic_example =
    decrypt-IsAuthentic header_json toy_decryptor sealed_bytes 0 (λ h e. cc e)

encrypted : encrypt header_json toy_encryptor (1 ∷ 2 ∷ []) 0 ≡ (ok sealed_bytes, 1)
unfolding encrypt marshal_protected_header seal marshal_compact join encode
encrypted = refl

some_zeros : (k : ℕ) → IsBytes (replicate k 0)
some_zeros zero = tt
some_zeros (suc k) = (omega arith, some_zeros k)

toy-IsHonest : IsHonest header_json toy_encryptor toy_decryptor (1 ∷ 2 ∷ []) 0 0
unfolding block_header enc_of uint_to_bytes_big_endian to_bytes get compute_hash hash_of
toy-IsHonest = record {
  algorithm = refl;
  same_alg = refl;
  same_kid = refl;
  same_hmac = refl;
  blocks = refl;
  blocks_back = refl;
  inverse = record {
    same_length = λ src. refl;
    same_length_back = λ src. refl;
    takes_back = λ src rest _ _. take-append_length src rest;
  };
  iv_bytes = (omega arith, tt);
  written_bytes = λ k. (omega arith, (omega arith, some_zeros k));
  tag_bytes = λ a c tag e. let e' : tag ≡ 9 ∷ [] = cc e in rw e' (omega arith, tt);
  header_back = λ w e. let e' : w ≡ 5 ∷ [] = cc e in rw e' ((omega arith, tt), refl);
}

sealed_short : length sealed_bytes ≤ max_compact_size
unfolding encrypt marshal_protected_header seal marshal_compact join encode
sealed_short = omega arith

decrypt-encrypt_block_example :
    (t' : ℕ) × (decrypt header_json toy_decryptor sealed_bytes 0 ≡ (ok (1 ∷ 2 ∷ []), t'))
decrypt-encrypt_block_example =
    decrypt-encrypt_block header_json toy_encryptor toy_decryptor (1 ∷ 2 ∷ []) 0 0 toy-IsHonest 1
      sealed_bytes encrypted (omega arith) sealed_short
