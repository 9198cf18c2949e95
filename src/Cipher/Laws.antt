-- ===== src/Cipher/Laws.antt =====
-- `seal` and `open` of src/resourcespace_platform/services/field_crypto.py together.
use resourcespace_authentica.Base.{
  ℕ, String, ◌≡◌, refl, true, false, some, ok, arith, remove_prefix-append, is_ascii,
}
use resourcespace_authentica.Cipher.{
  Fernet, FieldCipher, null_cipher, fernet_cipher, enc_prefix, is_sealed, seal, unseal,
}

-- What the broker relies on of Fernet, of one value: its tokens are ASCII and decrypt to the value.
abbrev pub IsSound : Fernet → String → Type 0
IsSound f value =
    (nonce : ℕ)
    → (is_ascii (f.encrypt nonce value) ≡ true) × (f.decrypt (f.encrypt nonce value) ≡ some value)

-- The same of a cipher: nothing is asked of the one without a key.
abbrev pub IsSoundCipher : FieldCipher → String → Type 0
IsSoundCipher null_cipher value = Unit
IsSoundCipher (fernet_cipher f) value = IsSound f value

pub unseal-seal :
    (c : FieldCipher) (nonce : ℕ) (value : String)
    → IsSoundCipher c value
    → is_sealed value ≡ false
    → unseal c (seal c nonce value) ≡ ok value
unfolding seal unseal
unseal-seal null_cipher nonce value h e = ground arith
unseal-seal (fernet_cipher f) nonce value h e = rw e (
    rw (remove_prefix-append enc_prefix (f.encrypt nonce value), unseal)
      (ground (arith, (h nonce).0, (h nonce).1)))

pub is_sealed-seal :
    (f : Fernet) (nonce : ℕ) (value : String)
    → is_sealed (seal (fernet_cipher f) nonce value) ≡ true
unfolding seal
is_sealed-seal f nonce value =
    ground (arith, remove_prefix-append enc_prefix (f.encrypt nonce value))

pub seal-seal :
    (c : FieldCipher) (n m : ℕ) (value : String) → seal c m (seal c n value) ≡ seal c n value
unfolding seal
seal-seal null_cipher n m value = refl
seal-seal (fernet_cipher f) n m value =
    ground (arith, remove_prefix-append enc_prefix (f.encrypt n value))
