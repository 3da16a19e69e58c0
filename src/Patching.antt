-- ===== src/Patching.antt =====
-- vcrmartin/patch.py, `class CassettePatcherBuilder`: the attributes of other libraries are replaced
-- by stubs, and each stub remembers in `_baseclass` what it stands for. `O` are the objects that have
-- the attributes, modules and classes; `C` are the classes and functions that the attributes hold.
-- The attribute `_baseclass` is a stub's own: every class of vcrmartin/stubs that is installed sets
-- it in its body, and the functions get it from the patcher.
pub mod Originals
pub mod Naming
pub mod Installed
mod Tests
use vcrpy.Prelude.{
  Eq, List, Option, Run, Str, [], ended, err, key_error, length, none, ok, raised, runs_on, some,
  str, suc, then_run, type_error, zero, ℕ, ◌++◌, ◌∷◌, List_eq, Pair_eq, ℕ_eq,
}
use vcrpy.Dict.{Dict, get, insert}

-- What an attribute holds; `table` is a dictionary, as `httplib2.SCHEME_TO_CONNECTION`.
pub data Value (C : Type 0) : Type 0 where
  one : C → Value C
  table : Dict Str C → Value C

abbrev pub Place : Type 0 → Type 0
Place O = O × Str

pub record Store (O C : Type 0) : Type 0 where
  pub attributes : Dict (Place O) (Value C)
  pub baseclasses : Dict C (Value C)

-- The two first arguments of `_build_patcher`, and `replacement_class`.
pub record Triple (O C : Type 0) : Type 0 where
  pub place : Place O
  pub replacement : Value C

-- What `build` finds installed: the modules of the clients, and their stubs. `None` is a failed
-- import. The functions are made anew by each call of `build`.
pub record Clients (O C : Type 0) : Type 0 where
  pub httplib : O
  pub httplib_stubs : C × C
  pub conn : Option O
  pub requests_stubs : Option (C × C)
  pub urllib3_stubs : C × C
  pub aws_pools : Option (O × O)
  pub boto3_stubs : C × C
  pub httplib2 : Option O
  pub httplib2_stubs : C × C
  pub simple_client : Option (O × C)
  pub curl_client : Option (O × C)
  pub client_session : Option (O × C)
  pub httpx_clients : Option ((O × C) × (O × C))

module _ {O C : Type 0} where
  abbrev pub triple : O → Str → C → Triple O C
  triple obj attribute stub = record { place = (obj, attribute); replacement = one stub }

  abbrev pub pair : O → Str → Str → C × C → List (Triple O C)
  pair obj http https stubs = triple obj http stubs.0 ∷ triple obj https stubs.1 ∷ []

  unfoldable pub httplib_triples : Clients O C → List (Triple O C)
  httplib_triples l = pair l.httplib (str "HTTPConnection") (str "HTTPSConnection") l.httplib_stubs

  -- `_urllib3_patchers`
  abbrev urllib3_patchers : Option O → C × C → List (Triple O C)
  urllib3_patchers none stubs = []
  urllib3_patchers (some conn) stubs =
      triple conn (str "VerifiedHTTPSConnection") stubs.1
      ∷ pair conn (str "HTTPConnection") (str "HTTPSConnection") stubs

  abbrev requests_triples_of : Option O → Option (C × C) → List (Triple O C)
  requests_triples_of conn none = []
  requests_triples_of conn (some stubs) = urllib3_patchers conn stubs

  unfoldable pub requests_triples : Clients O C → List (Triple O C)
  requests_triples l = requests_triples_of l.conn l.requests_stubs

  abbrev boto3_triples_of : Option (O × O) → C × C → List (Triple O C)
  boto3_triples_of none stubs = []
  boto3_triples_of (some (pool, https_pool)) stubs =
      triple pool (str "ConnectionCls") stubs.0
      ∷ triple https_pool (str "ConnectionCls") stubs.1
      ∷ []

  unfoldable pub boto3_triples : Clients O C → List (Triple O C)
  boto3_triples l = boto3_triples_of l.aws_pools l.boto3_stubs

  unfoldable pub urllib3_triples : Clients O C → List (Triple O C)
  urllib3_triples l = urllib3_patchers l.conn l.urllib3_stubs

  abbrev httplib2_triples_of : Option O → C × C → List (Triple O C)
  httplib2_triples_of none stubs = []
  httplib2_triples_of (some cpool) stubs =
      pair cpool (str "HTTPConnectionWithTimeout") (str "HTTPSConnectionWithTimeout") stubs
      ++ record {
        place = (cpool, str "SCHEME_TO_CONNECTION");
        replacement = table ((str "http", stubs.0) ∷ (str "https", stubs.1) ∷ []);
      }
        ∷ []

  unfoldable pub httplib2_triples : Clients O C → List (Triple O C)
  httplib2_triples l = httplib2_triples_of l.httplib2 l.httplib2_stubs

  abbrev function_triple : Str → Option (O × C) → List (Triple O C)
  function_triple attribute none = []
  function_triple attribute (some (client, function)) = triple client attribute function ∷ []

  unfoldable pub tornado_triples : Clients O C → List (Triple O C)
  tornado_triples l =
      function_triple (str "fetch_impl") l.simple_client
      ++ function_triple (str "fetch_impl") l.curl_client

  unfoldable pub aiohttp_triples : Clients O C → List (Triple O C)
  aiohttp_triples l = function_triple (str "_request") l.client_session

  abbrev httpx_triples_of : Option ((O × C) × (O × C)) → List (Triple O C)
  httpx_triples_of none = []
  httpx_triples_of (some (async_client, client)) =
      triple async_client.0 (str "_send_single_request") async_client.1
      ∷ triple client.0 (str "_send_single_request") client.1
      ∷ []

  unfoldable pub httpx_triples : Clients O C → List (Triple O C)
  httpx_triples l = httpx_triples_of l.httpx_clients

  -- The steps of `build`, in their order.
  unfoldable pub build_triples : Clients O C → List (Triple O C)
  unfolding httplib_triples requests_triples boto3_triples urllib3_triples httplib2_triples
      tornado_triples aiohttp_triples httpx_triples
  build_triples l =
      httplib_triples l
      ++ requests_triples l
      ++ boto3_triples l
      ++ urllib3_triples l
      ++ httplib2_triples l
      ++ tornado_triples l
      ++ aiohttp_triples l
      ++ httpx_triples l

module _ {O C : Type 0} ⦃eO : Eq O⦄ ⦃eC : Eq C⦄ where
  -- getattr(base_class, "_baseclass"), where it has one
  abbrev pub baseclass : Store O C → Value C → Option (Value C)
  baseclass s (one c) = get c s.baseclasses
  baseclass s (table d) = none

  -- while hasattr(base_class, "_baseclass"): base_class = getattr(base_class, "_baseclass")
  unfoldable pub follow : ℕ → Store O C → Value C → Run (Value C)
  follow zero s base_class = runs_on
  follow (suc n) s base_class = elim (baseclass s base_class) [
    | none ↦ ended (ok base_class)
    | some next ↦ follow n s next
  ]

  -- The loop without a bound: a walk longer than the dictionary has come back to where it was.
  abbrev pub origin : Store O C → Value C → Run (Value C)
  origin s base_class = follow (suc (suc (length s.baseclasses))) s base_class

  -- The end of both branches: the attribute and `_baseclass` are set.
  abbrev pub installed : Place O → Value C → C → Value C → Store O C → Store O C
  installed p value stub base_class s = record {
    attributes = insert p value s.attributes;
    baseclasses = insert stub base_class s.baseclasses;
  }

  -- The loop over `replacement_class.items()`; `base_obj` is the dictionary that `p` holds.
  unfoldable pub patch_entries : Place O → Dict Str C → Dict Str C → Store O C → Run (Store O C)
  patch_entries p [] base_obj s = ended (ok s)
  patch_entries p ((key, value) ∷ items) base_obj s = elim (get key base_obj) [
    | none ↦ ended (err (raised key_error))
    | some c ↦ then_run (origin s (one c)) (λ base_class.
        let base_obj' = insert key value base_obj in
        patch_entries p items base_obj' (installed p (table base_obj') value base_class s))
  ]

  -- A class has no `[]`.
  unfoldable pub patch_found : Place O → Value C → Value C → Store O C → Run (Store O C)
  unfolding patch_entries follow
  patch_found p (one stub) held s =
      then_run (origin s held) (λ base_class. ended (ok (installed p (one stub) stub base_class s)))
  patch_found p (table items) (table base_obj) s = patch_entries p items base_obj s
  patch_found p (table []) (one c) s = ended (ok s)
  patch_found p (table (item ∷ items)) (one c) s = ended (err (raised type_error))

  unfoldable pub patch_present : Place O → Value C → Option (Value C) → Store O C → Run (Store O C)
  unfolding patch_found
  patch_present p replacement none s = ended (ok s)
  patch_present p replacement (some held) s = patch_found p replacement held s

  -- `_build_patcher`
  unfoldable pub build_patcher : Triple O C → Store O C → Run (Store O C)
  unfolding patch_present
  build_patcher t s = patch_present t.place t.replacement (get t.place s.attributes) s

  -- `_build_patchers_from_mock_triples`
  unfoldable pub build_patchers : List (Triple O C) → Store O C → Run (Store O C)
  unfolding build_patcher
  build_patchers [] s = ended (ok s)
  build_patchers (t ∷ triples) s = then_run (build_patcher t s) (build_patchers triples)

  unfoldable pub build : Clients O C → Store O C → Run (Store O C)
  unfolding build_patchers build_triples
  build l s = build_patchers (build_triples l) s
