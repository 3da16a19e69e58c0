-- ===== src/Config/Filtering.antt =====
-- vcrmartin/config.py, `_build_before_record_request`, `_build_ignore_hosts` and
-- `_build_before_record_response`. A deep copy of a value is the value.
use vcrpy.Prelude.{
  Bool, List, Option, Result, Str, [], false, if◌then◌else◌, none, ok, some, str, ◌++◌, ◌==◌, ◌>>=◌,
  ◌||◌, ◌∷◌, List_eq, ℕ_eq, Option_eq,
}
use vcrpy.Request.{Request, Urllib, HeaderText, host}
use vcrpy.Filters.{Replacement}
use vcrpy.Filters.HeaderFilters.{replace_headers}
use vcrpy.Filters.Queries.{replace_query_parameters}
use vcrpy.Filters.PostData.{Json, replace_post_data_parameters}
use vcrpy.Filters.Responses.{Response, Zlib, decode_response}

-- A name, or a tuple of a name and a replacement.
pub data FilterItem (V : Type 0) : Type 0 where
  name : Str → FilterItem V
  pair : Str → Replacement V → FilterItem V

-- A function of the user returns `None` or a value, or it raises.
abbrev pub Callback : Type 0 → Type 0
Callback A = A → Result (Option A)

-- `None`, one function, or an iterable of functions.
pub data Callbacks (A : Type 0) : Type 0 where
  absent : Callbacks A
  one : Callback A → Callbacks A
  iterable : List (Callback A) → Callbacks A

pub record RequestOptions : Type 0 where
  pub filter_headers : List (FilterItem HeaderText)
  pub filter_query_parameters : List (FilterItem Str)
  pub filter_post_data_parameters : List (FilterItem Str)
  pub before_record_request : Callbacks Request
  pub ignore_hosts : List Str
  pub ignore_localhost : Bool

module _ {A : Type 0} where
  unfoldable pub functions_of : Callbacks A → List (Callback A)
  functions_of absent = []
  functions_of (one f) = f ∷ []
  functions_of (iterable fs) = fs

  -- The loop over the functions, which `None` ends.
  unfoldable pub run_filters : List (Callback A) → Option A → Result (Option A)
  run_filters [] a = ok a
  run_filters (f ∷ fs) none = ok none
  run_filters (f ∷ fs) (some a) = do a' ← f a; run_filters fs a'

  -- A filter of the program always returns a value.
  abbrev pub keeping : (A → Result A) → Callback A
  keeping f a = do a' ← f a; ok (some a')

  -- if items: filter_functions.append(f)
  abbrev pub unless_empty : {B : Type 0} → List B → Callback A → List (Callback A)
  unless_empty [] f = []
  unless_empty (_ ∷ _) f = f ∷ []

unfoldable pub replacements_of : {V : Type 0} → List (FilterItem V) → List (Str × Replacement V)
replacements_of [] = []
replacements_of (name k ∷ rest) = (k, Replacement.remove) ∷ replacements_of rest
replacements_of (pair k rv ∷ rest) = (k, rv) ∷ replacements_of rest

-- The set `hosts_to_ignore`, as a list.
unfoldable pub hosts_to_ignore : List Str → Bool → List Str
hosts_to_ignore hosts localhost =
    hosts ++ (if localhost then str "localhost" ∷ str "0.0.0.0" ∷ str "127.0.0.1" ∷ [] else [])

unfoldable pub is_host_of : Option Str → List Str → Bool
is_host_of host [] = false
is_host_of host (h ∷ hosts) = host == some h || is_host_of host hosts

-- `filter_ignored_hosts`
unfoldable pub ignore_hosts_in : List Str → Callback Request
unfolding is_host_of
ignore_hosts_in hosts request = ok (if is_host_of (host request) hosts then none else some request)

module _ {J : Type 0} (urllib : Urllib) (codec : Json J) where
  -- The filters of the program, in their order.
  unfoldable pub own_filters : RequestOptions → List (Callback Request)
  unfolding replacements_of
  own_filters o =
      unless_empty o.filter_headers
        (keeping (λ r. replace_headers r (replacements_of o.filter_headers)))
      ++ (unless_empty o.filter_query_parameters (
            keeping
              (λ r. replace_query_parameters urllib r (replacements_of o.filter_query_parameters)))
          ++ unless_empty o.filter_post_data_parameters (
              keeping (λ r.
                replace_post_data_parameters codec r
                  (replacements_of o.filter_post_data_parameters))))

  unfoldable pub request_filters : RequestOptions → List (Callback Request)
  unfolding own_filters ignore_hosts_in functions_of hosts_to_ignore
  request_filters o =
      own_filters o
      ++ (unless_empty (hosts_to_ignore o.ignore_hosts o.ignore_localhost)
            (ignore_hosts_in (hosts_to_ignore o.ignore_hosts o.ignore_localhost))
          ++ functions_of o.before_record_request)

  -- `_build_before_record_request`
  unfoldable pub build_before_record_request : RequestOptions → Callback Request
  unfolding request_filters run_filters
  build_before_record_request o request = run_filters (request_filters o) (some request)

-- `_build_before_record_response`
unfoldable pub build_before_record_response : Zlib → Bool → Callbacks Response → Callback Response
unfolding functions_of run_filters decode_response
build_before_record_response zlib decode callbacks response =
    run_filters
      ((if decode then keeping (λ r. ok (decode_response zlib r)) ∷ [] else [])
        ++ functions_of callbacks)
      (some response)
