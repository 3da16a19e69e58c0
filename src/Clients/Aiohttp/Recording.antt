-- ===== src/Clients/Aiohttp/Recording.antt =====
-- vcrmartin/stubs/aiohttp_stubs.py: what a request that the cassette cannot play leaves behind.
use vcrpy.Prelude.{
  List, [], ap, arith, ended, false, inr, length, length-append, ok, ok-injective, ok_of_bind, suc,
  sym, true, ℕ, ◌+◌, ◌∙◌, ◌∷◌, ◌≡◌, List_eq, ℕ_eq,
}
use vcrpy.Request.{Body, null, get_body, Request, Urllib}
use vcrpy.Cassette.{can_play_response_for, write_protected}
use vcrpy.Clients.{refuses}
use vcrpy.Clients.Aiohttp.{
  Library, Session, Arguments, Reply, Recorder, new_request, answer, record_responses, request_of,
  send_and_record, RealResponse, last_request, past_recorders, request_of_info,
}

length-past_recorders :
    (urllib : Urllib) (body : Body) (history : List RealResponse) (recorders : List Recorder)
    → past_recorders urllib body history ≡ ok recorders
    → length recorders ≡ length history
unfolding past_recorders
length-past_recorders urllib body [] recorders h =
    ap (λ (l : List Recorder). length l) (sym (ok-injective h))
length-past_recorders urllib body (response ∷ history) recorders h =
    let (request, _, h1) = ok_of_bind (request_of_info urllib response body) _ h in
    let (others, e, h2) = ok_of_bind (past_recorders urllib null history) _ h1 in
    ap (λ (l : List Recorder). length l) (sym (ok-injective h2))
    ∙ ap suc (length-past_recorders urllib null history others e)

length-record_responses :
    (urllib : Urllib) (r : Request) (reply : Reply) (recorders : List Recorder)
    → record_responses urllib r reply ≡ ok recorders
    → length recorders ≡ length reply.history + 1
unfolding record_responses
length-record_responses urllib r reply recorders h =
    let (body, _, h1) = ok_of_bind (get_body r) _ h in
    let (past, e, h2) = ok_of_bind (past_recorders urllib body reply.history) _ h1 in
    let (final, _, h3) = ok_of_bind (last_request urllib r reply) _ h2 in
    let last : Recorder = record { vcr_request = final; response = reply.response } in
    ap (λ (l : List Recorder). length l) (sym (ok-injective h3))
    ∙ omega (
      arith,
      length-append past (last ∷ []),
      length-past_recorders urllib body reply.history past e,
    )

module _ {W J : Type 0} (library : Library W J) (urllib : Urllib) where
  -- With an installed cassette that cannot play the request and is free to record, the reply of the
  -- server is returned and nothing is recorded: the cassette stays as it was. The generators that
  -- `record_responses` makes, one for each redirect and one for the reply, are dropped before they
  -- begin.
  pub unplayed_is_never_recorded :
      (n : ℕ) (s : Session W J) (a : Arguments) (r : Request) (reply : Reply) (w : W)
      (recorders : List Recorder)
      → s.installed ≡ true
      → request_of library urllib s.jar a ≡ ok r
      → can_play_response_for s.cassette r ≡ ok false
      → write_protected s.cassette ≡ false
      → library.real_request s.world a ≡ ok (reply, w)
      → record_responses urllib r reply ≡ ok recorders
      → (new_request library urllib n s a ≡ ended (ok (inr reply, record s { world = w })))
        × (length recorders ≡ length reply.history + 1)
  unfolding new_request answer send_and_record refuses
  unplayed_is_never_recorded n s a r reply w recorders on made unplayed free answered recorded = (
    simp (on, made, unplayed, free, answered, recorded),
    length-record_responses urllib r reply recorders recorded,
  )
