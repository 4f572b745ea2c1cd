-- ===== src/Crypto/Encryption.antt =====
-- services/identity/src/crypto/encryption.rs. `UnboundKey::new` takes every key of 32 bytes.
pub mod RoundTrip
use home_ryanseipp.Prelude.{
  ℕ, ◌+◌, Bool, Option, List, [], ◌∷◌, ◌++◌, length, take, drop, Result, ok, err, ok_or, ensure,
  ◌>>=◌, ◌>>◌, ltb, ◌==◌, if◌then◌else◌,
}
use home_ryanseipp.Effect.{Bytes}
use home_ryanseipp.Crypto.Primitives.{
  CryptoError, invalid_kek, invalid_key_material, encryption, decryption, Primitives,
}

abbrev pub kek_len : ℕ
kek_len = 32

abbrev pub nonce_len : ℕ
nonce_len = 12

abbrev pub tag_len : ℕ
tag_len = 16

pub record EncryptedKey : Type 0 where
  pub data_bytes : Bytes

-- `EncryptedKey::from_bytes`
unfoldable pub from_bytes : Bytes → Result CryptoError EncryptedKey
from_bytes data_bytes =
    if ltb (length data_bytes) (nonce_len + 1 + tag_len)
    then err invalid_key_material
    else ok (record { data_bytes = data_bytes })

abbrev pub nonce_bytes : EncryptedKey → Bytes
nonce_bytes e = take nonce_len e.data_bytes

abbrev pub ciphertext_and_tag : EncryptedKey → Bytes
ciphertext_and_tag e = drop nonce_len e.data_bytes

module _ (p : Primitives) where
  -- The random nonce, or the failure of the generator, is the last argument.
  unfoldable pub encrypt_private_key :
      Bytes → Bytes → Bytes → Option Bytes → Result CryptoError EncryptedKey
  encrypt_private_key kek plaintext aad filled = do
    ensure (length kek == kek_len) invalid_kek
    nonce ← ok_or encryption filled
    in_out ← ok_or encryption (p.seal kek nonce aad plaintext)
    ok (record { data_bytes = nonce ++ in_out })

  unfoldable pub decrypt_private_key : Bytes → EncryptedKey → Bytes → Result CryptoError Bytes
  decrypt_private_key kek encrypted aad = do
    ensure (length kek == kek_len) invalid_kek
    ok_or decryption (p.unseal kek (nonce_bytes encrypted) aad (ciphertext_and_tag encrypted))
