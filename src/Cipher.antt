-- ===== src/Cipher.antt =====
-- The encryption of single fields (src/resourcespace_platform/services/field_crypto.py). The
-- Fernet object of the `cryptography` package is a parameter.
pub mod Laws
use resourcespace_authentica.Base.{
  ℕ, String, Option, none, some, Bool, ◌<>◌, Result, ok, err, if◌then◌else◌, truthy, is_present,
  remove_prefix, is_ascii,
}

-- One Fernet key. `encrypt` draws a random vector and reads the clock: its first argument.
-- `decrypt` returns `none` where the package raises InvalidToken.
pub record Fernet : Type 0 where
  pub encrypt : ℕ → String → String
  pub decrypt : String → Option String

abbrev pub enc_prefix : String
enc_prefix = "enc:v1:"

pub data CipherError : Type 0 where
  field_decrypt_error : CipherError
  -- `ciphertext.encode("ascii")` of a text that is not ASCII: a UnicodeEncodeError
  unicode_encode_error : CipherError

pub data FieldCipher : Type 0 where
  null_cipher : FieldCipher
  fernet_cipher : Fernet → FieldCipher

-- `value.startswith(ENC_PREFIX)`
unfoldable pub is_sealed : String → Bool
unfolding remove_prefix
is_sealed value = is_present (remove_prefix enc_prefix value)

unfoldable pub seal : FieldCipher → ℕ → String → String
unfolding is_sealed
seal null_cipher nonce value = value
seal (fernet_cipher f) nonce value =
    if is_sealed value then value else enc_prefix <> f.encrypt nonce value

abbrev decrypted : Option String → Result CipherError String
decrypted none = err field_decrypt_error
decrypted (some value) = ok value

unfoldable pub decrypt_ascii : Fernet → String → Result CipherError String
unfolding is_ascii
decrypt_ascii f ciphertext =
    if is_ascii ciphertext then decrypted (f.decrypt ciphertext) else err unicode_encode_error

unfoldable pub unseal : FieldCipher → String → Result CipherError String
unfolding is_sealed decrypt_ascii remove_prefix
unseal null_cipher value = if is_sealed value then err field_decrypt_error else ok value
unseal (fernet_cipher f) value = elim (remove_prefix enc_prefix value) [
  | none ↦ ok value
  | some ciphertext ↦ decrypt_ascii f ciphertext
]

pub data KeyError : Type 0 where
  invalid_key : KeyError

-- `make` is the constructor Fernet(...), `none` where it raises.
unfoldable pub create_field_cipher :
    (String → Option Fernet) → Option String → Result KeyError FieldCipher
create_field_cipher make none = ok null_cipher
create_field_cipher make (some key) =
    if truthy key
    then (elim (make key) [ none ↦ err invalid_key | some f ↦ ok (fernet_cipher f) ])
    else ok null_cipher
