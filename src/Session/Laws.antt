-- ===== src/Session/Laws.antt =====
-- Sealing, opening and stamping of a session together
-- (src/resourcespace_platform/services/auth_service.py).

use resourcespace_authentica.Base.{
  ℕ, String, Option, none, some, ◌≡◌, refl, true, false, ok, arith, truthy, ◌>>=◌,
}
use resourcespace_authentica.Cipher.{
  FieldCipher, null_cipher, fernet_cipher, Fernet, is_sealed, seal,
}
use resourcespace_authentica.Cipher.Laws.{IsSoundCipher, unseal-seal, is_sealed-seal}
use resourcespace_authentica.Session.{
  Session, seal_field, open_field, seal_session, open_session_dict, try_open_session_dict,
  stamp_broker_session_metadata,
}

-- A field that does not begin with the mark of a sealed value already.
abbrev pub IsPlain : Option String → Type 0
IsPlain none = Unit
IsPlain (some value) = is_sealed value ≡ false

-- A field that at rest shows nothing: missing, empty or sealed.
abbrev pub IsSealed : Option String → Type 0
IsSealed none = Unit
IsSealed (some value) = truthy value ≡ true → is_sealed value ≡ true

-- The cipher is sound of the field.
abbrev pub IsSoundField : FieldCipher → Option String → Type 0
IsSoundField c none = Unit
IsSoundField c (some value) = IsSoundCipher c value

abbrev pub IsSoundSession : FieldCipher → Session → Type 0
IsSoundSession c s = IsSoundField c s.upstream.session_key × IsSoundField c s.user.email

abbrev pub IsPlainSession : Session → Type 0
IsPlainSession s = IsPlain s.upstream.session_key × IsPlain s.user.email

abbrev pub IsSealedSession : Session → Type 0
IsSealedSession s = IsSealed s.upstream.session_key × IsSealed s.user.email

-- A sealed value is not empty.
is_sealed-truthy : (value : String) → is_sealed value ≡ true → truthy value ≡ true
unfolding is_sealed
is_sealed-truthy String.[] h = h
is_sealed-truthy (String.◌∷◌ c s) h = refl

truthy-seal :
    (c : FieldCipher) (n : ℕ) (value : String)
    → truthy value ≡ true
    → truthy (seal c n value) ≡ true
truthy-seal null_cipher n value h = unfold seal in h
truthy-seal (fernet_cipher f) n value h =
    is_sealed-truthy (seal (fernet_cipher f) n value) (is_sealed-seal f n value)

pub open_field-seal_field :
    (c : FieldCipher) (n : ℕ) (field : Option String)
    → IsSoundField c field
    → IsPlain field
    → open_field c (seal_field c n field) ≡ ok field
unfolding open_field seal_field
open_field-seal_field c n none h p = refl
open_field-seal_field c n (some value) h p =
    ground (arith, truthy-seal c n value, unseal-seal c n value h p)

pub IsSealed-seal_field :
    (f : Fernet) (n : ℕ) (field : Option String) → IsSealed (seal_field (fernet_cipher f) n field)
unfolding seal_field
IsSealed-seal_field f n none = tt
IsSealed-seal_field f n (some value) = ground (arith, is_sealed-seal f n value)

-- A session whose two secrets do not carry the mark of a sealed value is given back by opening
-- what sealing made of it, if the cipher is sound of the two.
pub open_session_dict-seal_session :
    (c : FieldCipher) (n m : ℕ) (session : Session)
    → IsSoundSession c session
    → IsPlainSession session
    → open_session_dict c (seal_session c n m session) ≡ ok session
unfolding open_session_dict seal_session
open_session_dict-seal_session c n m session (h, k) (p, q) = rw (
  open_field-seal_field c n session.upstream.session_key h p,
  open_field-seal_field c m session.user.email k q,
)

pub try_open_session_dict-seal_session :
    (c : FieldCipher) (n m : ℕ) (session : Session)
    → IsSoundSession c session
    → IsPlainSession session
    → try_open_session_dict c (seal_session c n m session) ≡ ok (some session)
unfolding try_open_session_dict
try_open_session_dict-seal_session c n m session h p =
    rw (open_session_dict-seal_session c n m session h p)

-- Sealing with a key leaves no secret of the session in the clear.
pub IsSealedSession-seal_session :
    (f : Fernet) (n m : ℕ) (session : Session)
    → IsSealedSession (seal_session (fernet_cipher f) n m session)
unfolding seal_session
IsSealedSession-seal_session f n m session = (
  IsSealed-seal_field f n session.upstream.session_key,
  IsSealed-seal_field f m session.user.email,
)

pub IsSealedSession-stamp :
    (client_id : String) (integration : Option String) (session : Session)
    → IsSealedSession session
    → IsSealedSession (stamp_broker_session_metadata client_id integration session)
unfolding stamp_broker_session_metadata
IsSealedSession-stamp client_id integration session h = h

pub IsPlainSession-stamp :
    (client_id : String) (integration : Option String) (session : Session)
    → IsPlainSession session
    → IsPlainSession (stamp_broker_session_metadata client_id integration session)
unfolding stamp_broker_session_metadata
IsPlainSession-stamp client_id integration session h = h

-- Opening looks at the secrets alone: a stamp put on before is there after.
pub open_session_dict-stamp :
    (c : FieldCipher) (client_id : String) (integration : Option String) (session : Session)
    → open_session_dict c (stamp_broker_session_metadata client_id integration session) ≡ (do
      opened ← open_session_dict c session
      ok (stamp_broker_session_metadata client_id integration opened))
unfolding open_session_dict stamp_broker_session_metadata
open_session_dict-stamp c client_id integration session = ground arith
