-- ===== src/Pages/Answers.antt =====
-- The answers of `content_resources_find`
-- (src/resourcespace_platform/routes/content.py).
use resourcespace_authentica.Base.{String, Option, some, false, ◌≡◌, List, ◌++◌, map, ok}
use resourcespace_authentica.State.{State, AccessToken}
use resourcespace_authentica.Session.{Session}
use resourcespace_authentica.Live.Records.{LiveAsset}
use resourcespace_authentica.Live.Containers.{Container}
use resourcespace_authentica.Pages.{FoundPage, Resource, container, image}
use resourcespace_authentica.Pages.Continuations.{Continuation, decode_continuation}
use resourcespace_authentica.Pages.Gate.{Gate}
use resourcespace_authentica.Pages.Scopes.{IsAdmitted}
use resourcespace_authentica.Pages.Finding.{
  current_scope, find_resources, next_continuation, is_other_scope,
}
use resourcespace_authentica.Pages.Images.{AreImagesOf}
use resourcespace_authentica.Pages.Messages.{
  FindBody, ContentLibrary, FindRequest, FindDraws, ImageResponse,
}

module _ (library : ContentLibrary) where
  -- A page was found at the offsets of the continuation, which belongs to the same search, and the
  -- answer is its containers, one image for each of its assets, and the offsets that follow.
  pub record IsFound (d : FindDraws) (session : Session) (body : FindBody)
      (resources : List (Resource Container ImageResponse)) (next : Option String) : Type 0 where
    pub continuation : Continuation
    pub decoded :
        decode_continuation library.continuations library.json body.continuation
        ≡ ok (some continuation)
    pub same_search :
        is_other_scope library (current_scope library body) continuation.scope_key ≡ false
    pub page : FoundPage Container LiveAsset
    pub found : find_resources library session body continuation.offsets ≡ ok page
    pub images : List ImageResponse
    pub shown : AreImagesOf library d.grant 0 page.assets images
    pub in_order : resources ≡ map container page.containers ++ map image images
    pub followed : next ≡ next_continuation library (current_scope library body) page.next

  module _ (resources : List (Resource Container ImageResponse)) (next : Option String) where
    -- The request was admitted with its scope, and its search was answered.
    pub record IsAnswered (d : FindDraws) (q : FindRequest) (s : State) : Type 0 where
      pub token_record : AccessToken
      pub allowed_to :
          IsAdmitted library.service d.read_now "dam:read" q.authorization s token_record
      pub body : FindBody
      pub read : q.body ≡ some body
      pub found : IsFound d token_record.session body resources next
