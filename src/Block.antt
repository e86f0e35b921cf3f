-- ===== src/Block.antt =====
-- aes_cbc_cryptor.go: `AesCbcCryptor`. The block mode is a parameter with its chaining state, which
-- every call gives on.
pub mod Sizes
pub mod Mac
pub mod Direct
use gose.Prelude.{
  ℕ, ◌+◌, ◌-◌, ◌*◌, ◌/◌, ◌%◌, String, Bool, true, false, [], ◌++◌, ltb, ◌==◌, length, take, drop,
  replicate, if◌then◌else◌,
}
use gose.Bytes.{Bytes}
use gose.Error.{Result, ok, err, panics}
use gose.Jose.Types.{Alg}
use gose.Aead.{max_plaintext_size}

-- `cipher.BlockMode`: what is written for a whole number of blocks, and the state after it
pub record BlockMode (S : Type 0) : Type 0 where
  pub block_size : ℕ
  pub written : Bytes → S → Bytes
  pub after : Bytes → S → S

-- `AesCbcCryptor`
pub record AesCbcCryptor (S : Type 0) : Type 0 where
  pub kid : String
  pub alg : Alg
  pub block_cipher : BlockMode S

-- `copy` into a fresh buffer of a size
unfoldable pub copied : ℕ → Bytes → Bytes
copied size b = take size b ++ replicate (size - length b) 0

-- `trimSize`
unfoldable pub trim_size : ℕ → Bytes → Bytes
unfolding copied
trim_size block_size input =
    if ltb max_plaintext_size (length input)
    then []
    else if length input % block_size == 0
    then input
    else copied ((length input / block_size + 1) * block_size) input

-- `getDestinationSize`
unfoldable pub get_destination_size : ℕ → ℕ → ℕ
get_destination_size input_length block_size =
    let multiplier = input_length / block_size in
    if ltb 0 multiplier then multiplier * block_size + block_size else block_size

module _ {S : Type 0} where
  -- `CryptBlocks(dst, src)` on a fresh `dst`: it panics if `src` is no whole number of blocks or if
  -- `dst` is too short
  unfoldable pub crypt_blocks : BlockMode S → ℕ → Bytes → S → Result Bytes × S
  crypt_blocks mode size src s =
      if length src % mode.block_size == 0
      then (if ltb size (length src)
          then (err (panics "crypto/cipher: output smaller than input"), s)
          else (ok (copied size (mode.written src s)), mode.after src s))
      else (err (panics "crypto/cipher: input not full blocks"), s)

  -- `Seal`, where nil is empty
  unfoldable pub seal : AesCbcCryptor S → Bytes → S → Result Bytes × S
  unfolding trim_size get_destination_size crypt_blocks
  seal cryptor plaintext s =
      let mode = cryptor.block_cipher in
      if ltb max_plaintext_size (length plaintext)
      then (ok [], s)
      else crypt_blocks mode (get_destination_size (length plaintext) mode.block_size)
          (trim_size mode.block_size plaintext) s

  -- `Open`
  unfoldable pub open_blocks : AesCbcCryptor S → Bytes → S → Result Bytes × S
  unfolding get_destination_size crypt_blocks
  open_blocks cryptor ciphertext s =
      let mode = cryptor.block_cipher in
      if ltb max_plaintext_size (length ciphertext)
      then (ok [], s)
      else if length ciphertext % mode.block_size == 0
      then crypt_blocks mode (get_destination_size (length ciphertext) mode.block_size) ciphertext s
      else (ok [], s)
