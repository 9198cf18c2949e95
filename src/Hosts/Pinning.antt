-- ===== src/Hosts/Pinning.antt =====
-- The addresses of `resolve_pinned_addresses`
-- (src/resourcespace_platform/services/resourcespace/_helpers.py).
use mathlib.Core.Path.{subst}
use resourcespace_authentica.Base.{
  String, Option, none, some, false, ◌==◌, ◌≡◌, ◌≢◌, refl, contains, List, [], ◌∷◌, ◌++◌, same_code,
  Result, ok, err, ◌>>=◌, All, arith, eq_iff, Bool-cases, inl, inr,
}
use resourcespace_authentica.Errors.{ResourceSpaceError}
use resourcespace_authentica.Hosts.{IpAddress, HostLibrary, found_or, canonical_ascii_host}
use resourcespace_authentica.Hosts.Resolve.{
  ip_is_blocked, append_new, not_empty, unresolved, place, sort_infos, resolve_pinned_addresses,
}

module _ (P : String → Type 0) where
  All-append : (xs ys : List String) → All P xs → All P ys → All P (xs ++ ys)
  All-append [] ys h k = k
  All-append (x ∷ xs) ys (p, h) k = (p, All-append xs ys h k)

  All-append_new :
      (ordered addresses : List String)
      → All P ordered
      → All P addresses
      → All P (append_new ordered addresses)
  unfolding append_new
  All-append_new ordered [] h k = h
  All-append_new ordered (a ∷ addresses) h (p, k) = elim (Bool-cases (contains a ordered)) [
    | inl old ↦ rw old (All-append_new ordered addresses h k)
    | inr fresh ↦
        rw fresh
          (All-append_new (ordered ++ a ∷ []) addresses (All-append ordered (a ∷ []) h (p, tt)) k)
  ]

-- No text stands twice.
abbrev pub IsDistinct : List String → Type 0
IsDistinct [] = Unit
IsDistinct (x ∷ xs) = (contains x xs ≡ false) × IsDistinct xs

contains-append :
    (x a : String) (xs : List String)
    → contains x xs ≡ false
    → (x == a) ≡ false
    → contains x (xs ++ a ∷ []) ≡ false
contains-append x a [] h k = rw k refl
contains-append x a (y ∷ ys) h k = ground (arith, contains-append x a ys)

IsDistinct-append :
    (xs : List String) (a : String)
    → IsDistinct xs
    → contains a xs ≡ false
    → IsDistinct (xs ++ a ∷ [])
IsDistinct-append [] a h k = (refl, tt)
IsDistinct-append (x ∷ xs) a (p, h) k = (
  contains-append x a xs p (ground (arith, eq_iff x a, eq_iff a x)),
  IsDistinct-append xs a h (ground arith),
)

IsDistinct-append_new :
    (ordered addresses : List String)
    → IsDistinct ordered
    → IsDistinct (append_new ordered addresses)
unfolding append_new
IsDistinct-append_new ordered [] h = h
IsDistinct-append_new ordered (a ∷ addresses) h = elim (Bool-cases (contains a ordered)) [
  | inl old ↦ rw old (IsDistinct-append_new ordered addresses h)
  | inr fresh ↦
      rw fresh
        (IsDistinct-append_new (ordered ++ a ∷ []) addresses (IsDistinct-append ordered a h fresh))
]

not_empty-eq-ok :
    (xs addresses : List String) → not_empty xs ≡ ok addresses → (xs ≡ addresses) × (addresses ≢ [])
not_empty-eq-ok [] addresses h = cc
not_empty-eq-ok (x ∷ xs) addresses h = (cc, λ e. cc)

module _ (library : HostLibrary) where
  -- The text parses as an address that is not blocked.
  abbrev pub IsPublic : String → Type 0
  IsPublic a = (ip : IpAddress) × (library.ip_address a ≡ some ip) × (ip_is_blocked ip ≡ false)

  abbrev ArePublic : Result ResourceSpaceError (List String × List String) → Type 0
  ArePublic (err e) = Unit
  ArePublic (ok (v4, v6)) = All IsPublic v4 × All IsPublic v6

  ArePublic-place :
      (a : String) (found : Option IpAddress)
      (rest : Result ResourceSpaceError (List String × List String))
      → library.ip_address a ≡ found
      → ArePublic rest
      → ArePublic (place library a found rest)
  ArePublic-place a none rest e h = h
  ArePublic-place a (some ip) (err x) e h = ground arith
  ArePublic-place a (some ip) (ok (v4, v6)) e (h, k) = elim (Bool-cases (ip_is_blocked ip)) [
    | inl blocked ↦ rw blocked tt
    | inr public ↦ elim (Bool-cases (same_code ip.version 6)) [
      | inl six ↦ rw (public, six) (h, ((ip, e, public), k))
      | inr four ↦ rw (public, four) (((ip, e, public), h), k)
    ]
  ]

  ArePublic-sort_infos : (infos : List String) → ArePublic (sort_infos library infos)
  unfolding sort_infos
  ArePublic-sort_infos [] = (tt, tt)
  ArePublic-sort_infos (a ∷ infos) =
      ArePublic-place a (library.ip_address a) (sort_infos library infos) refl
        (ArePublic-sort_infos infos)

  -- What the addresses of a host are.
  pub record IsPinnable (addresses : List String) : Type 0 where
    pub public : All IsPublic addresses
    pub distinct : IsDistinct addresses
    pub some_address : addresses ≢ []

  sorted-IsPinnable :
      (sorted : Result ResourceSpaceError (List String × List String)) (addresses : List String)
      → ArePublic sorted
      → (sorted >>= λ (v4, v6). not_empty (append_new [] (v4 ++ v6))) ≡ ok addresses
      → IsPinnable addresses
  sorted-IsPinnable (err e) addresses h k = cc
  sorted-IsPinnable (ok (v4, v6)) addresses (h, g) k =
      let (same, some_address) = not_empty-eq-ok (append_new [] (v4 ++ v6)) addresses k in
      record {
        public =
            subst (λ x. All IsPublic x) same
              (All-append_new IsPublic [] (v4 ++ v6) tt (All-append IsPublic v4 v6 h g));
        distinct = subst (λ x. IsDistinct x) same (IsDistinct-append_new [] (v4 ++ v6) tt);
        some_address = some_address;
      }

  -- If the addresses of a host are given out, there is at least one, none stands twice, and each
  -- of them parses as an address that is not private, loopback, link-local, reserved, multicast,
  -- unspecified or site-local, and that is global.
  pub resolve_pinned_addresses-IsPinnable :
      (host : String) (addresses : List String)
      → resolve_pinned_addresses library host ≡ ok addresses
      → IsPinnable addresses
  unfolding resolve_pinned_addresses
  resolve_pinned_addresses-IsPinnable host addresses h =
      canonical_case (canonical_ascii_host library host) h
    where
      infos_case :
          (found : Option (List String))
          → (do
            infos ← found_or unresolved found
            (v4, v6) ← sort_infos library infos
            not_empty (append_new [] (v4 ++ v6)))
            ≡ ok addresses
          → IsPinnable addresses
      infos_case none k = cc
      infos_case (some infos) k =
          sorted-IsPinnable (sort_infos library infos) addresses (ArePublic-sort_infos infos) k

      canonical_case :
          (ascii : Result ResourceSpaceError String)
          → (do
            a ← ascii
            infos ← found_or unresolved (library.getaddrinfo a)
            (v4, v6) ← sort_infos library infos
            not_empty (append_new [] (v4 ++ v6)))
            ≡ ok addresses
          → IsPinnable addresses
      canonical_case (err e) k = cc
      canonical_case (ok a) k = infos_case (library.getaddrinfo a) k
