-- ===== src/Config/Tests.antt =====
-- The theorems about configurations at concrete ones.
use vcrpy.Prelude.{
  Option, Result, [], false, list_eq, ok, option_eq, refl, some, str, true, ℕ, ◌∷◌, ◌≡◌, ◌⊎◌,
  List_eq, ℕ_eq, Option_eq,
}
use vcrpy.RecordMode.{RecordMode}
use vcrpy.Text.{lower}
use vcrpy.Dict
use vcrpy.CaseInsensitiveDict
use vcrpy.Samples.{small_urllib, get_of, no_json}
use vcrpy.Request.{host, Request}
use vcrpy.CaseInsensitiveDict.{pop, CaseInsensitiveDict, get}
use vcrpy.CaseInsensitiveDict.Headers.{headers_from}
use vcrpy.Filters.HeaderFilters.{replace_headers}
use vcrpy.Cassette.{Cassette, new}
use vcrpy.Cassette.Appending.{with_interaction, append-of_Keeps}
use vcrpy.Config.Filtering.{RequestOptions, Callbacks, functions_of, build_before_record_request}
use vcrpy.Config.Recorded.{IsClean, named_items, recorded-IsClean}

abbrev options : RequestOptions
options = record {
  filter_headers = named_items (str "Cookie" ∷ []);
  filter_query_parameters = [];
  filter_post_data_parameters = [];
  before_record_request = Callbacks.absent;
  ignore_hosts = str "internal" ∷ [];
  ignore_localhost = true;
}

abbrev filter : Request → Result (Option Request)
filter = build_before_record_request small_urllib no_json options

abbrev empty_tape : Cassette Request ℕ
empty_tape = new (record {
  record_mode = RecordMode.once;
  match_on = [];
  before_record_request = filter;
  before_record_response = λ p. ok (some p);
  inject = false;
  allow_playback_repeats = false;
  drop_unused_requests = false;
})

abbrev stripped : Request
stripped = record (get_of (str "/")) { headers = record { store = [] } }

stripped_of : filter (get_of (str "/")) ≡ ok (some stripped)
unfolding build_before_record_request lower Dict.get Dict.insert Dict.erase list_eq replace_headers
    CaseInsensitiveDict.pop headers_from option_eq host
stripped_of = refl

recorded-IsClean_example :
    (with_interaction empty_tape stripped 1 ≡ empty_tape)
    ⊎ ((q : Request) × (p : ℕ) × (with_interaction empty_tape stripped 1
          ≡ with_interaction empty_tape q p)
        × IsClean small_urllib no_json options (str "Cookie" ∷ []) q)
recorded-IsClean_example =
    recorded-IsClean small_urllib no_json options (str "Cookie" ∷ []) empty_tape
      (with_interaction empty_tape stripped 1) (get_of (str "/")) 1
      (record { headers = refl; no_callback = unfold functions_of in refl }) refl
      (record { lowered = (unfold lower in refl, tt); distinct = (unfold Dict.get in refl, tt) })
      (append-of_Keeps empty_tape (get_of (str "/")) 1 (stripped_of, refl))
