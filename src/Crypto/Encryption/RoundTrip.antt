-- ===== src/Crypto/Encryption/RoundTrip.antt =====
-- Encryption followed by decryption (crypto/encryption.rs).
use home_ryanseipp.Prelude.{
  ◌==◌, [], ◌∷◌, ◌++◌, ◌≡◌, refl, ap, ◌∙◌, sym, length, take, drop, some, ok, ensure, bind-eq-ok,
  ensure-eq-ok, ok_or-eq-ok, ok-injective,
}
use home_ryanseipp.Effect.{Bytes}
use home_ryanseipp.Crypto.Primitives.{Primitives, AeadLaws, invalid_kek}
use home_ryanseipp.Crypto.Encryption.{
  EncryptedKey, kek_len, nonce_len, encrypt_private_key, decrypt_private_key,
}

take-append : (a b : Bytes) → take (length a) (a ++ b) ≡ a
take-append [] b = refl
take-append (x ∷ a) b = ap (λ l. x ∷ l) (take-append a b)

drop-append : (a b : Bytes) → drop (length a) (a ++ b) ≡ b
drop-append [] b = refl
drop-append (x ∷ a) b = drop-append a b

module _ (p : Primitives) (aead : AeadLaws p) where
  -- What `encrypt_private_key` made with a nonce of 12 bytes is opened by `decrypt_private_key`
  -- under the same key and the same additional data, and gives the plaintext back.
  pub decrypt_private_key-encrypt_private_key :
      (kek plaintext aad nonce : Bytes) (e : EncryptedKey)
      → length nonce ≡ nonce_len
      → encrypt_private_key p kek plaintext aad (some nonce) ≡ ok e
      → decrypt_private_key p kek e aad ≡ ok plaintext
  unfolding encrypt_private_key decrypt_private_key
  decrypt_private_key-encrypt_private_key kek plaintext aad nonce e size h =
      let (_, e1, h) = bind-eq-ok (ensure (length kek == kek_len) invalid_kek) _ h in
      let (in_out, e2, h) = bind-eq-ok _ _ h in
      let same : e ≡ record { data_bytes = nonce ++ in_out } = sym (ok-injective h) in
      let opened = aead.unseal-seal kek nonce aad plaintext in_out (ok_or-eq-ok _ _ e2) in
      let front = ap (λ n. take n (nonce ++ in_out)) (sym size) ∙ take-append nonce in_out in
      let back = ap (λ n. drop n (nonce ++ in_out)) (sym size) ∙ drop-append nonce in_out in
      rw (same, ensure-eq-ok _ _ e1, front, back, opened) refl
