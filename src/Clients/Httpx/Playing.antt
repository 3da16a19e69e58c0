-- ===== src/Clients/Httpx/Playing.antt =====
-- vcrmartin/stubs/httpx_stubs.py: what a request does on a cassette that is write-protected, and that
-- a played response is the recorded one.
use vcrpy.Prelude.{
  Bool, Bool-cases, Bytes, List, Result, Result-cases, Str, [], ap,
  cannot_overwrite_existing_cassette, err, false, inl, inr, ok, ok-injective, ok_of_bind, raised,
  some, str, subst, sym, true, ℕ, ◌>>=◌, ◌∙◌, ◌≡◌, ◌≢◌, ◌⊎◌, List_eq, ℕ_eq,
}
use vcrpy.Text.{lower}
use vcrpy.Text.Utf8.{encode}
use vcrpy.Dict.{Dict}
use vcrpy.Filters.Responses.{Response}
use vcrpy.Request.{Request, Urllib}
use vcrpy.Cassette.{can_play_response_for, play_response, write_protected}
use vcrpy.Connection.{Tape, request}
use vcrpy.Cassette.Playback.{can_play_then_plays}
use vcrpy.Cassette.WriteProtection.{kept_of_filter_request}
use vcrpy.Clients.{refuses}
use vcrpy.Clients.Grouping.{
  Pairs, values_of, group_from, from_serialized_headers, values_of-grouped,
}
use vcrpy.Clients.Httpx.{
  HttpxRequest, RealReply, Reply, PlayedReply, Library, Session, Client, send, decoded_pairs,
  from_serialized_response, make_vcr_request, shared_vcr_send, to_serialized_response,
  transform_headers, send_unplayed,
}

module _ {W J : Type 0} (library : Library W J) where
  -- What the answer of a protected cassette is, as `can_play_response_for` decides.
  abbrev pub SendEnding :
      Session W J
      → HttpxRequest
      → Request
      → Bool
      → Result ((Reply ⊎ PlayedReply) × Session W J)
      → Type 0
  SendEnding s request r true outcome =
      (vcr_response : Response) × (c' : Tape) × (play_response s.cassette r ≡ ok (vcr_response, c'))
      × (outcome ≡ (do
        response ← from_serialized_response library vcr_response
        ok (
          inr response,
          record s { cassette = c'; jar = library.extract_cookies s.jar request response },
        )))
  SendEnding s request r false outcome = outcome ≡ err (raised cannot_overwrite_existing_cassette)

  -- Under a cassette that is write-protected, and whose filter keeps the request and leaves what it
  -- has kept as it is, a client of httpx never sends it: it gets what httpx makes of the response that
  -- `play_response` plays, or `CannotOverwriteExistingCassetteException` is raised, as
  -- `can_play_response_for` decides. The network and the tasks stay as they were, and nothing is
  -- recorded. This holds of an empty cassette as well.
  pub protected_send_stays_offline :
      (urllib : Urllib) (client : Client) (s : Session W J) (request : HttpxRequest)
      (r kept : Request) (plays : Bool)
      → s.installed ≡ true
      → make_vcr_request urllib request ≡ ok r
      → write_protected s.cassette ≡ true
      → s.cassette.before_record_request r ≡ ok (some kept)
      → s.cassette.before_record_request kept ≡ ok (some kept)
      → can_play_response_for s.cassette r ≡ ok plays
      → SendEnding s request r plays (send library urllib client s request)
  unfolding send shared_vcr_send refuses send_unplayed
  protected_send_stays_offline urllib client s request r kept true on made protected k again h =
      let ((p, c', e), _, _) = can_play_then_plays s.cassette r k again h in
      (
        p,
        c',
        e,
        elim (Result-cases (from_serialized_response library p)) [
          | inr (x, e') ↦ rw (on, made, h, e, e')
          | inl (response, e') ↦ rw (on, made, h, e, e')
        ],
      )
  protected_send_stays_offline urllib client s request r kept false on made protected k again h =
      rw (on, made, h, protected, kept_of_filter_request s.cassette r k)

  -- The constructor `httpx.Response` keeps what it is given, and may add a Content-Length to the
  -- headers. It may raise.
  abbrev pub KeepsArguments : Type 0
  KeepsArguments =
      (code : ℕ) (reason content : Bytes) (headers : Pairs Str) (played : PlayedReply)
      → library.response code reason headers content ≡ ok played
      → (played.status_code ≡ code)
        × (played.reason_phrase ≡ reason)
        × (played.content ≡ content)
        × ((name : Str)
            → lower name ≢ str "content-length"
            → values_of name played.headers ≡ values_of name headers)

  -- What was recorded of a response is what is played, where httpx accepts it: its status, its content
  -- as it came over the network, its reason in UTF-8, and for each name of a header but
  -- Content-Length the values in their order. It assumes that the constructor of httpx keeps what it
  -- is given, but for a Content-Length.
  pub recorded_then_played :
      (reply reply' : RealReply) (stored : Response) (played : PlayedReply) (name : Str)
      → KeepsArguments
      → to_serialized_response library reply ≡ ok (stored, reply')
      → from_serialized_response library stored ≡ ok played
      → lower name ≢ str "content-length"
      → (pairs : Pairs Str) × (decoded_pairs reply.headers ≡ ok pairs)
        × (played.status_code ≡ reply.status_code)
        × (played.content ≡ reply.content)
        × (encode reply.reason_phrase ≡ ok played.reason_phrase)
        × (values_of name played.headers ≡ values_of name pairs)
  unfolding to_serialized_response transform_headers from_serialized_response
  recorded_then_played reply reply' stored played name keeps h1 h2 other =
      elim (Bool-cases reply.decoder) [
        | inl already ↦ absurd (let stopped = rw already at h1 in cc stopped)
        | inr unread ↦
            let (d, ed, h3) = ok_of_bind (transform_headers reply.headers) _ (rw unread at h1) in
            let (pairs, ep, h4) = ok_of_bind (decoded_pairs reply.headers) _ ed in
            let (content, _, h5) =
              ok_of_bind (library.decode_content (record reply { decoder = false })) _ h3 in
            let kept = ap (λ (x : Response × RealReply). x.0) (ok-injective h5) in
            let (reason, er, h6) = ok_of_bind (encode stored.message) _ h2 in
            let (code, phrase, body, values) =
              keeps stored.code reason stored.string (from_serialized_headers stored.headers) played
                h6 in
            let grouped : ◌≡◌ {A = Dict Str (List Str)} (group_from pairs []) d = ok-injective h4 in
            (
              pairs,
              ep,
              code ∙ ap (λ (x : Response). x.code) (sym kept),
              body ∙ ap (λ (x : Response). x.string) (sym kept),
              subst (λ (x : Response). encode x.message ≡ ok played.reason_phrase) (sym kept)
                  (er ∙ ap ok (sym phrase)),
              values name other
                  ∙ ap (λ (x : Response). values_of name (from_serialized_headers x.headers))
                      (sym kept)
                  ∙ ap (λ h. values_of name (from_serialized_headers h)) (sym grouped)
                  ∙ values_of-grouped name pairs,
            )
      ]
