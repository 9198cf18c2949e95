-- ===== src/Grants/Laws.antt =====
-- `verify_grant` and its links (src/resourcespace_platform/services/asset_service.py).
use resourcespace_authentica.Base.{
  ℕ, ◌<◌, ◌≤◌, ◌≡◌, ◌↔◌, refl, String, Option, none, some, true, lookup, truthy, is_ascii, arith,
  ok, eq_iff, eq_refl, drop_if_keeps, drop_if, lookup-insert_self, lookup-prune,
}
use resourcespace_authentica.State.{State, AssetGrant}
use resourcespace_authentica.CanvaVerifier.{Timestamp, positive, negative}
use resourcespace_authentica.Auth.{is_expired_grant}
use resourcespace_authentica.Grants.{
  AssetService, create_signature, prune_expired_grants, GrantDraws, GrantRequest, create_grant,
  grant_record, expiry_of, verified, VerifyDraws, verify_found, verify_parsed, verify_grant,
}

-- What a verification that honours `grant` rests on.
pub record IsHonoured (service : AssetService) (d : VerifyDraws)
    (grant_id expires_at signature : String) (s : State) (grant : AssetGrant) : Type 0 where
  pub expiry : ℕ
  pub id_text : truthy grant_id ≡ true
  pub expires_text : truthy expires_at ≡ true
  pub signature_text : truthy signature ≡ true
  pub parsed : service.library.int expires_at ≡ some (positive expiry)
  pub timely : d.now ≤ expiry
  pub signed : create_signature service grant_id expiry ≡ signature
  pub ascii : is_ascii signature ≡ true
  pub stored : lookup grant_id s.asset_grants ≡ some grant
  pub kept : d.prune_now < grant.expires_at
  pub live : d.found_now ≤ grant.expires_at

found-eq-verified :
    (d : VerifyDraws) (o : Option AssetGrant) (grant : AssetGrant)
    → verify_found d (drop_if (is_expired_grant d.prune_now) o) ≡ verified grant
    → (o ≡ some grant) × (d.prune_now < grant.expires_at) × (d.found_now ≤ grant.expires_at)
found-eq-verified d none grant h = cc
found-eq-verified d (some x) grant h = ground arith

parsed-IsHonoured :
    (service : AssetService) (d : VerifyDraws) (grant_id expires_at signature : String) (s : State)
    (grant : AssetGrant) (t : Option Timestamp)
    → truthy grant_id ≡ true
    → truthy expires_at ≡ true
    → truthy signature ≡ true
    → service.library.int expires_at ≡ t
    → (verify_parsed service d grant_id signature s t).0 ≡ ok (verified grant)
    → IsHonoured service d grant_id expires_at signature s grant
unfolding prune_expired_grants
parsed-IsHonoured service d grant_id expires_at signature s grant none p q r e h = cc
parsed-IsHonoured service d grant_id expires_at signature s grant (some (negative n)) p q r e h = cc
parsed-IsHonoured service d grant_id expires_at signature s grant (some (positive expiry)) p q r e
      h =
    let signed = eq_iff (create_signature service grant_id expiry) signature in
    let answer : verify_found d
          (drop_if (is_expired_grant d.prune_now) (lookup grant_id s.asset_grants))
        ≡ verified grant =
      ground (arith, lookup-prune (is_expired_grant d.prune_now) grant_id s.asset_grants) in
    let (stored, kept, live) = found-eq-verified d (lookup grant_id s.asset_grants) grant answer in
    record {
      expiry = expiry;
      id_text = p;
      expires_text = q;
      signature_text = r;
      parsed = e;
      timely = ground arith;
      signed = ground (arith, signed);
      ascii = ground arith;
      stored = stored;
      kept = kept;
      live = live;
    }

verify-IsHonoured :
    (service : AssetService) (d : VerifyDraws) (grant_id expires_at signature : String) (s : State)
    (grant : AssetGrant)
    → (verify_grant service d (some grant_id) (some expires_at) (some signature) s).0
      ≡ ok (verified grant)
    → IsHonoured service d grant_id expires_at signature s grant
unfolding verify_grant
verify-IsHonoured service d grant_id expires_at signature s grant h =
    parsed-IsHonoured service d grant_id expires_at signature s grant
      (service.library.int expires_at) (ground arith) (ground arith) (ground arith) refl
      (ground arith)

verify_of_IsHonoured :
    (service : AssetService) (d : VerifyDraws) (grant_id expires_at signature : String) (s : State)
    (grant : AssetGrant)
    → IsHonoured service d grant_id expires_at signature s grant
    → (verify_grant service d (some grant_id) (some expires_at) (some signature) s).0
      ≡ ok (verified grant)
unfolding verify_grant prune_expired_grants
verify_of_IsHonoured service d grant_id expires_at signature s grant x =
    let kept =
      drop_if_keeps (is_expired_grant d.prune_now) (lookup grant_id s.asset_grants) grant x.stored
        (ground (arith, x.kept)) in
    rw
      (
        x.id_text,
        x.expires_text,
        x.signature_text,
        x.parsed,
        x.signed,
        lookup-prune (is_expired_grant d.prune_now) grant_id s.asset_grants,
      )
      (rw (kept, x.ascii, eq_refl signature) (ground (arith, x.timely, x.live)))

-- A grant is honoured exactly when the three parameters are not empty, the expiry parses as a
-- number that is not in the past, the signature is that of the id and the expiry under the asset
-- secret, and the grant is stored and not expired at the two later readings of the clock.
pub verify_iff :
    (service : AssetService) (d : VerifyDraws) (grant_id expires_at signature : String) (s : State)
    (grant : AssetGrant)
    → ((verify_grant service d (some grant_id) (some expires_at) (some signature) s).0
        ≡ ok (verified grant))
      ↔ IsHonoured service d grant_id expires_at signature s grant
verify_iff service d grant_id expires_at signature s grant = (
  verify-IsHonoured service d grant_id expires_at signature s grant,
  verify_of_IsHonoured service d grant_id expires_at signature s grant,
)

-- The link of a grant that was just created opens it until its expiry, when the texts of the link
-- are not empty, the signature is ASCII, and int() reads back what str() wrote.
pub verify-create_grant :
    (service : AssetService) (c : GrantDraws) (q : GrantRequest) (d : VerifyDraws) (s : State)
    → (let (link, s') = create_grant service c q s in
        truthy c.grant_id ≡ true
        → truthy link.expires ≡ true
        → truthy link.sig ≡ true
        → is_ascii link.sig ≡ true
        → service.library.int (service.library.str (expiry_of service c))
          ≡ some (positive (expiry_of service c))
        → d.now ≤ expiry_of service c
        → d.prune_now < expiry_of service c
        → d.found_now ≤ expiry_of service c
        → (verify_grant service d (some link.grant_id) (some link.expires) (some link.sig) s').0
          ≡ ok (verified (grant_record service c q)))
unfolding create_grant
verify-create_grant service c q d s id_text expires_text sig_text ascii back timely kept live =
    let (link, s') = create_grant service c q s in
    verify_of_IsHonoured service d link.grant_id link.expires link.sig s' (grant_record service c q)
      (record {
        expiry = expiry_of service c;
        id_text = id_text;
        expires_text = expires_text;
        signature_text = sig_text;
        parsed = back;
        timely = timely;
        signed = refl;
        ascii = ascii;
        stored = lookup-insert_self c.grant_id (grant_record service c q) _;
        kept = kept;
        live = live;
      })
