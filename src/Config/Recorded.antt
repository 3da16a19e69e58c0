-- ===== src/Config/Recorded.antt =====
-- What the filters that vcrmartin/config.py composes keep out of a cassette.
use vcrpy.Prelude.{
  Bool, List, Option, Result, Result-cases, Str, [], ap, err, false, if◌then◌else◌, inl, inr, map,
  none, ok, ok-injective, ok_of_bind, refl, some, some-injective, subst, sym, true, ◌++◌, ◌>>=◌,
  ◌∙◌, ◌∷◌, ◌≡◌, ◌⊎◌, List_eq, ℕ_eq, Option_eq,
}
use vcrpy.CaseInsensitiveDict
use vcrpy.CaseInsensitiveDict.Laws.{IsStore}
use vcrpy.Request.{Request, Urllib, HeaderText, host}
use vcrpy.Filters.{Replacement, removals}
use vcrpy.Filters.HeaderFilters.{replace_headers, remove_headers}
use vcrpy.Filters.HeaderFilters.Removing.{names_key, remove_headers_removes}
use vcrpy.Filters.Queries.{replace_query_parameters}
use vcrpy.Filters.PostData.{Json, replace_post_data_parameters}
use vcrpy.Filters.Keeping.{headers-replace_query_parameters, headers-replace_post_data_parameters}
use vcrpy.Cassette.{Cassette, append}
use vcrpy.Cassette.Appending.{with_interaction, append_cases}
use vcrpy.Config.Filtering.{
  Callback, FilterItem, RequestOptions, keeping, unless_empty, functions_of, run_filters,
  replacements_of, hosts_to_ignore, is_host_of, ignore_hosts_in, own_filters, request_filters,
  build_before_record_request, name,
}

keeping_value :
    {A : Type 0} (outcome : Result A) (a' : A)
    → (outcome >>= λ b. ok (some b)) ≡ ok (some a')
    → outcome ≡ ok a'
keeping_value (ok b) a' h = cc h
keeping_value (err e) a' h = cc h

module _ {A : Type 0} where
  run_filters-none : (fs : List (Callback A)) → run_filters fs none ≡ ok none
  unfolding run_filters
  run_filters-none [] = refl
  run_filters-none (f ∷ fs) = refl

  run_filters-append :
      (fs gs : List (Callback A)) (a : Option A)
      → run_filters (fs ++ gs) a ≡ (run_filters fs a >>= run_filters gs)
  unfolding run_filters
  run_filters-append [] gs a = refl
  run_filters-append (f ∷ fs) gs none = sym (run_filters-none gs)
  run_filters-append (f ∷ fs) gs (some a) = elim (Result-cases (f a)) [
    | inl (a', e) ↦ rw e (run_filters-append fs gs a')
    | inr (x, e) ↦ rw e
  ]

  split_middle :
      (gs : List (Callback A)) (middle : Option A) (a' : A)
      → run_filters gs middle ≡ ok (some a')
      → (b : A) × (middle ≡ some b) × (run_filters gs (some b) ≡ ok (some a'))
  split_middle gs none a' h = let stopped = run_filters-none gs in cc (stopped, h)
  split_middle gs (some b) a' h = (b, refl, h)

  -- A value that comes out of two lists of functions came out of the first.
  split_filters :
      (fs gs : List (Callback A)) (a a' : A)
      → run_filters (fs ++ gs) (some a) ≡ ok (some a')
      → (b : A) × (run_filters fs (some a) ≡ ok (some b)) × (run_filters gs (some b) ≡ ok (some a'))
  split_filters fs gs a a' h =
      let (middle, first, second) =
        ok_of_bind (run_filters fs (some a)) (run_filters gs)
          (sym (run_filters-append fs gs (some a)) ∙ h) in
      let (b, e, rest) = split_middle gs middle a' second in (b, first ∙ ap ok e, rest)

  stage_runs :
      (f : A → Result A) (a a' : A)
      → run_filters (keeping f ∷ []) (some a) ≡ ok (some a')
      → f a ≡ ok a'
  unfolding run_filters
  stage_runs f a a' h =
      let (o, e, h1) = ok_of_bind (f a >>= λ b. ok (some b)) _ h in
      keeping_value (f a) a' (cc (e, h1))

  -- A stage of the pipeline that its option leaves out changes nothing; another is its function.
  stage_cases :
      {B : Type 0} (l : List B) (f : A → Result A) (a a' : A)
      → run_filters (unless_empty l (keeping f)) (some a) ≡ ok (some a')
      → (a' ≡ a) ⊎ (f a ≡ ok a')
  stage_cases [] f a a' h = inl (unfold run_filters in cc h)
  stage_cases (x ∷ l) f a a' h = inr (stage_runs f a a' h)

same_headers_stage :
    {B : Type 0} (l : List B) (f : Request → Result Request) (r r' : Request)
    → ((q q' : Request) → f q ≡ ok q' → q'.headers ≡ q.headers)
    → run_filters (unless_empty l (keeping f)) (some r) ≡ ok (some r')
    → r'.headers ≡ r.headers
same_headers_stage l f r r' keeps h = elim (stage_cases l f r r' h) [
  | inl same ↦ ap (λ (q : Request). q.headers) same
  | inr done ↦ keeps r r' done
]

-- The names of the option, all of them without a replacement.
abbrev pub named_items : {V : Type 0} → List Str → List (FilterItem V)
named_items = map name

replacements_of_named :
    {V : Type 0} (names : List Str) → replacements_of {V = V} (named_items names) ≡ removals names
unfolding replacements_of
replacements_of_named [] = refl
replacements_of_named (k ∷ names) =
    ap (λ l. (k, Replacement.remove) ∷ l) (replacements_of_named names)

-- No header that the list names, in any spelling.
abbrev pub HasNone : List Str → Request → Type 0
HasNone names r =
    (other : Str) → names_key names other ≡ true → CaseInsensitiveDict.get other r.headers ≡ none

removed_headers :
    (names : List Str) (r r' : Request)
    → IsStore r.headers
    → remove_headers r names ≡ ok r'
    → HasNone names r'
removed_headers names r r' w h other named =
    let (headers, removed, _, looked_up) = remove_headers_removes r names w in
    let same : r' ≡ record r { headers = headers } = ok-injective (sym h ∙ removed) in
    ap (λ (q : Request). CaseInsensitiveDict.get other q.headers) same
    ∙ (looked_up other ∙ rw named)

header_stage :
    (names : List Str) (r r' : Request)
    → IsStore r.headers
    → run_filters
        (unless_empty
          (named_items {V = HeaderText} names)
          (keeping (λ q. replace_headers q (replacements_of (named_items names)))))
        (some r)
      ≡ ok (some r')
    → HasNone names r'
header_stage [] r r' w h = λ other named. cc named
header_stage (k ∷ names) r r' w h =
    let done =
      stage_runs (λ q. replace_headers q (replacements_of (named_items (k ∷ names)))) r r' h in
    removed_headers (k ∷ names) r r' w (
      unfold remove_headers in
      subst (λ l. replace_headers r l ≡ ok r') (replacements_of_named (k ∷ names)) done)

kept_value :
    (dropped : Bool) (r r' : Request)
    → (if dropped then none else some r) ≡ some r'
    → (r' ≡ r) × (dropped ≡ false)
kept_value true r r' h = cc h
kept_value false r r' h = (cc h, refl)

ignore_stage :
    (hosts : List Str) (r r' : Request)
    → run_filters (unless_empty hosts (ignore_hosts_in hosts)) (some r) ≡ ok (some r')
    → (r' ≡ r) × (is_host_of (host r') hosts ≡ false)
unfolding run_filters ignore_hosts_in
ignore_stage [] r r' h = (cc h, unfold is_host_of in refl)
ignore_stage (x ∷ hosts) r r' h =
    let (same, kept) = kept_value (is_host_of (host r) (x ∷ hosts)) r r' (ok-injective h) in
    (same, ap (λ q. is_host_of (host q) (x ∷ hosts)) same ∙ kept)

module _ {J : Type 0} (urllib : Urllib) (codec : Json J) (o : RequestOptions)
    (names : List Str) where
  -- The options name headers, all to be removed, and the user gives no function.
  pub record IsPlain : Type 0 where
    pub headers : o.filter_headers ≡ named_items names
    pub no_callback : functions_of o.before_record_request ≡ []

  abbrev pub hosts : List Str
  hosts = hosts_to_ignore o.ignore_hosts o.ignore_localhost

  -- A request that the filters let through names no ignored host and none of the headers.
  abbrev pub IsClean : Request → Type 0
  IsClean r = (is_host_of (host r) hosts ≡ false) × HasNone names r

  own_stages :
      (r r' : Request)
      → IsPlain
      → IsStore r.headers
      → run_filters (own_filters urllib codec o) (some r) ≡ ok (some r')
      → HasNone names r'
  unfolding own_filters
  own_stages r r' plain w h =
      let by_headers = λ (items : List (FilterItem HeaderText)).
        unless_empty items (keeping (λ q. replace_headers q (replacements_of items))) in
      let by_query = λ (q : Request).
        replace_query_parameters urllib q (replacements_of o.filter_query_parameters) in
      let by_body = λ (q : Request).
        replace_post_data_parameters codec q (replacements_of o.filter_post_data_parameters) in
      let (r1, h1, rest) = split_filters (by_headers o.filter_headers) _ r r' h in
      let (r2, h2, h3) =
        split_filters (unless_empty o.filter_query_parameters (keeping by_query)) _ r1 r' rest in
      let none_left = header_stage names r r1 w (
        subst (λ items. run_filters (by_headers items) (some r) ≡ ok (some r1)) plain.headers h1) in
      let query_kept =
        same_headers_stage o.filter_query_parameters by_query r1 r2
          (λ q q' e. headers-replace_query_parameters urllib q q' _ e) h2 in
      let body_kept =
        same_headers_stage o.filter_post_data_parameters by_body r2 r'
          (λ q q' e. headers-replace_post_data_parameters codec q q' _ e) h3 in
      λ other named.
        ap (CaseInsensitiveDict.get other) (body_kept ∙ query_kept) ∙ none_left other named

  filtered-IsClean :
      (r r' : Request)
      → IsPlain
      → IsStore r.headers
      → build_before_record_request urllib codec o r ≡ ok (some r')
      → IsClean r'
  unfolding build_before_record_request request_filters
  filtered-IsClean r r' plain w h =
      let (r1, own, rest) = split_filters (own_filters urllib codec o) _ r r' h in
      let (r2, ignored, last) =
        split_filters (unless_empty hosts (ignore_hosts_in hosts)) _ r1 r' rest in
      let (same, not_ignored) = ignore_stage hosts r1 r2 ignored in
      let unchanged : some r2 ≡ some r' =
        ok-injective
          (subst (λ fs. run_filters fs (some r2) ≡ ok (some r')) plain.no_callback last) in
      let final : r' ≡ r1 = sym (some-injective _ _ unchanged) ∙ same in
      let clean : HasNone names r1 = own_stages r r1 plain w own in
      (
        ap (λ q. is_host_of (host q) hosts) (sym (some-injective _ _ unchanged)) ∙ not_ignored,
        λ other named.
            ap (λ (q : Request). CaseInsensitiveDict.get other q.headers) final ∙ clean other named,
      )

  -- With headers to remove and hosts to ignore, and whatever filters for queries and bodies, an
  -- `append` that returns has stored nothing, or one interaction at the end, whose request has no
  -- ignored host and none of the named headers in any spelling.
  pub recorded-IsClean :
      {P : Type 0} (c c' : Cassette Request P) (request : Request) (response : P)
      → IsPlain
      → c.before_record_request ≡ build_before_record_request urllib codec o
      → IsStore request.headers
      → append c request response ≡ ok c'
      → (c' ≡ c) ⊎ ((q : Request) × (p : P) × (c' ≡ with_interaction c q p) × IsClean q)
  recorded-IsClean c c' request response plain built w h =
      elim (append_cases c request response h) [
        | inl same ↦ inl same
        | inr (q, p, kept, stored) ↦ inr (
          q,
          p,
          stored,
          filtered-IsClean request q plain w (ap (λ f. f request) (sym built) ∙ kept.0),
        )
      ]
