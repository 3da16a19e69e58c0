-- ===== src/Connection/Bypass.antt =====
-- What `VCRConnection` of vcrmartin/stubs/__init__.py does under a cassette that is empty, so that
-- `if self.cassette` is false.
use vcrpy.Prelude.{Result, Str, [], inl, ok, ok_of_bind, some, ◌>>=◌, ◌≡◌, ◌⊎◌, List_eq, ℕ_eq}
use vcrpy.Request.{Urllib, Body}
use vcrpy.Connection.Addresses.{Endpoint}
use vcrpy.Connection.Responses.{RealResponse, VcrResponse}
use vcrpy.Connection.{Connection, RealConnection, HeaderPairs, Tape, in_use, request, getresponse}

module _ {W : Type 0} (real : RealConnection W) (urllib : Urllib) (endpoint : Endpoint) where
  -- `request`, then `getresponse`.
  abbrev pub exchange :
      Connection W
      → Str
      → Str
      → Body
      → HeaderPairs
      → Result ((RealResponse ⊎ VcrResponse) × Connection W)
  exchange s method url body headers = do
    s1 ← request real urllib endpoint s method url body headers
    getresponse real endpoint s1

  -- The same on the real connection.
  abbrev pub real_exchange : W → Str → Str → Body → HeaderPairs → Result (RealResponse × W)
  real_exchange w method url body headers = do
    w1 ← real.request w method url body headers
    real.getresponse w1

  -- Under an empty cassette, of any record mode, an exchange is the one of the real connection: it
  -- reaches the network, and the cassette stays empty. So nothing is recorded into a new cassette,
  -- and neither `NONE` nor `ONCE` keeps a request from the network.
  pub empty_cassette_bypassed :
      (s : Connection W) (c : Tape) (method url : Str) (body : Body) (headers : HeaderPairs)
      (received : RealResponse) (w : W)
      → s.cassette ≡ some c
      → c.interactions ≡ []
      → real_exchange s.world method url body headers ≡ ok (received, w)
      → exchange s method url body headers ≡ ok (inl received, record s { world = w })
  unfolding request getresponse in_use
  empty_cassette_bypassed s c method url body headers received w installed empty h =
      let (w1, sent, got) = ok_of_bind (real.request s.world method url body headers) _ h in
      rw (installed, empty, sent, got)
