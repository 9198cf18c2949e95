-- ===== src/TrustedProxy/Hops.antt =====
-- The hops of `client_ip_from_x_forwarded_for` (src/resourcespace_platform/trusted_proxy.py) and the
-- peer of `resolve_client_host` (http_utils.py).
use resourcespace_authentica.Base.{
  String, some, true, false, ◌≡◌, refl, List, [], ◌∷◌, ◌++◌, split_on, strip_parts, All, arith,
}
use mathlib.Core.List.{reverse, reverse-append, reverse-cons, append_assoc}
use resourcespace_authentica.Config.{AppConfig}
use resourcespace_authentica.TrustedProxy.{
  IpLibrary, host_matches_trusted_proxy, first_untrusted, client_ip_from_x_forwarded_for,
  resolve_client_host, peer_or_unknown,
}

All-append : {A : Type 0} (P : A → Type 0) (xs ys : List A) → All P xs → All P ys → All P (xs ++ ys)
All-append P [] ys h k = k
All-append P (x ∷ xs) ys (p, h) k = (p, All-append P xs ys h k)

All-reverse : {A : Type 0} (P : A → Type 0) (xs : List A) → All P xs → All P (reverse xs)
All-reverse P [] h = tt
All-reverse P (x ∷ xs) (p, h) =
    rw reverse-cons (All-append P (reverse xs) (x ∷ []) (All-reverse P xs h) (p, tt))

module _ (ip : IpLibrary) (trusted : List String) where
  abbrev pub IsTrusted : String → Type 0
  IsTrusted hop = host_matches_trusted_proxy ip hop trusted ≡ true

  -- Trusted hops at the near end are passed over.
  pub first_untrusted-append :
      (near far : List String) (hop : String)
      → All IsTrusted near
      → host_matches_trusted_proxy ip hop trusted ≡ false
      → first_untrusted ip trusted (near ++ hop ∷ far) ≡ some hop
  unfolding first_untrusted
  first_untrusted-append [] far hop h u = rw u refl
  first_untrusted-append (x ∷ near) far hop (t, h) u =
      rw t (first_untrusted-append near far hop h u)

  -- The answer is the last untrusted hop: whatever a client has put before the address that the
  -- first trusted proxy appended, that address is returned.
  pub client_ip_last_untrusted :
      (raw hop : String) (before after : List String)
      → strip_parts (split_on b',' raw) ≡ before ++ hop ∷ after
      → All IsTrusted after
      → host_matches_trusted_proxy ip hop trusted ≡ false
      → client_ip_from_x_forwarded_for ip raw trusted ≡ some hop
  unfolding client_ip_from_x_forwarded_for
  client_ip_last_untrusted raw hop before after e h u =
      rw (e, reversed)
        (first_untrusted-append (reverse after) (reverse before) hop (All-reverse IsTrusted after h)
          u)
    where
      reversed : reverse (before ++ hop ∷ after) ≡ reverse after ++ hop ∷ reverse before
      reversed = simp (reverse-append, reverse-cons, append_assoc)

-- A peer that is not a trusted proxy is seen under its own address, whatever headers it sends.
pub resolve_untrusted_peer :
    (ip : IpLibrary) (config : AppConfig) (peer header : String)
    → host_matches_trusted_proxy ip peer config.trusted_proxy_hosts ≡ false
    → ((resolve_client_host ip config peer header).host ≡ peer_or_unknown peer)
      × ((resolve_client_host ip config peer header).header_trusted ≡ false)
unfolding resolve_client_host
resolve_untrusted_peer ip config peer header h = ground arith
