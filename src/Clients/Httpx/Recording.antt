-- ===== src/Clients/Httpx/Recording.antt =====
-- vcrmartin/stubs/httpx_stubs.py: when a request that the cassette cannot play is recorded, and when
-- it never is.
use vcrpy.Prelude.{
  Bytes, [], assertion_error, err, false, inl, none, ok, refl, some, true, ◌>>=◌, ◌∙◌, ◌∷◌, ◌≡◌,
  List_eq, ℕ_eq,
}
use vcrpy.Request.{Request, Urllib}
use vcrpy.Cassette.{can_play_response_for, write_protected}
use vcrpy.Connection.{Tape, request}
use vcrpy.Clients.{refuses}
use vcrpy.Clients.Httpx.{
  touched, record_history, final_request, record_one, to_serialized_response, HttpxRequest, Reply,
  Library, Session, Client, async_client, sync_client, send, make_vcr_request, record_by,
  record_responses, run_task, send_unplayed, shared_vcr_send,
}

-- A request that goes to the server: the cassette is installed, cannot play it and is free to record,
-- and the server answers.
pub record IsUnplayed {W J : Type 0} (library : Library W J) (urllib : Urllib) (s : Session W J)
    (request : HttpxRequest) (r : Request) (reply : Reply) (w : W) : Type 0 where
  pub on : s.installed ≡ true
  pub made : make_vcr_request urllib request ≡ ok r
  pub unplayed : can_play_response_for s.cassette r ≡ ok false
  pub free : write_protected s.cassette ≡ false
  pub answered : library.send_single_request s.world request ≡ ok (reply, w)

module _ {W J : Type 0} (library : Library W J) (urllib : Urllib) where
  sends :
      (client : Client) (s : Session W J) (request : HttpxRequest) (r : Request) (reply : Reply)
      (w : W)
      → IsUnplayed library urllib s request r reply w
      → send library urllib client s request ≡ (do
        (reply', s') ← record_by library urllib client (record s { world = w }) s.cassette r reply
        ok (inl reply', s'))
  unfolding send shared_vcr_send send_unplayed refuses
  sends client s request r reply w u = simp (u.on, u.made, u.unplayed, u.free, u.answered)

  -- A reply as `httpx.Client.send` leaves it unless it streams: it has read the content of it.
  abbrev pub read_by_caller : Bytes → Reply → Reply
  read_by_caller content reply = record reply {
    response = record reply.response { content = content; decoder = true };
  }

  read_reply_refused :
      (c : Tape) (r : Request) (content : Bytes) (reply : Reply)
      → reply.history ≡ []
      → record_responses library urllib c r (read_by_caller content reply)
        ≡ err (assertion_error [])
  unfolding record_responses record_history final_request record_one to_serialized_response
  read_reply_refused c r content reply alone = rw alone refl

  -- A request that the cassette cannot play, and may record, and a reply without redirections, which
  -- can be recorded: it is sent once. A `Client` without a running event loop, and an `AsyncClient`,
  -- record it before they return the reply. A `Client` in a running loop returns the reply of the
  -- server as it came, with the cassette as it was: the recording is a task of the loop. When the
  -- loop runs it, the cassette holds what the others would have recorded if the caller has not read
  -- the reply yet. If the caller has read it, the task ends with an AssertionError and nothing is
  -- recorded.
  pub recording_is_deferred :
      (s : Session W J) (request : HttpxRequest) (r : Request) (reply reply' : Reply) (w : W)
      (c' : Tape) (content : Bytes)
      → IsUnplayed library urllib s request r reply w
      → s.tasks ≡ []
      → reply.history ≡ []
      → record_responses library urllib s.cassette r reply ≡ ok (reply', c')
      → (s' : Session W J) × (send library urllib async_client s request
          ≡ ok (inl reply', record s { world = w; cassette = c' }))
        × (send library urllib (sync_client false) s request
            ≡ ok (inl reply', record s { world = w; cassette = c' }))
        × (send library urllib (sync_client true) s request ≡ ok (inl reply, s'))
        × (s'.cassette ≡ s.cassette)
        × (run_task library urllib s' ≡ (none, record s { world = w; cassette = c' }))
        × (run_task library urllib (touched (read_by_caller content) s')
            ≡ (some (assertion_error []), record s { world = w }))
  unfolding record_by run_task touched
  recording_is_deferred s request r reply reply' w c' content u idle alone recorded = (
    record s { world = w; tasks = (r, reply) ∷ [] },
    sends async_client s request r reply w u ∙ rw recorded refl,
    sends (sync_client false) s request r reply w u ∙ rw recorded refl,
    sends (sync_client true) s request r reply w u ∙ rw idle refl,
    refl,
    rw (recorded, idle) refl,
    rw (read_reply_refused s.cassette r content reply alone, idle) refl,
  )
