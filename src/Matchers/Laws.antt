-- ===== src/Matchers/Laws.antt =====
-- What the default matchers and the matcher `body` decide, of requests of vcrmartin/request.py.
use mathlib.Core.List.{Perm}
use vcrpy.Prelude.{
  All, Bytes, Eq, List, Option, Result, Str, [], ap, arith, assertion_error, concat, eq_refl, err,
  if◌then◌else◌, inl, inr, map, none, ok, ok-injective, refl, some, sym, true, ℕ, ◌==◌, ◌>>=◌, ◌↔◌,
  ◌∙◌, ◌∷◌, ◌≡◌, ◌⊎◌, List_eq, ℕ_eq, Option_eq, Pair_eq,
}
use vcrpy.Dechunk.{dechunk, loop}
use vcrpy.Dechunk.Decoding.{Piece, IsPiece, IsEnd, encoded, contents_of, dechunk-encoded}
use vcrpy.Request.Sorting.Laws.{sorted_iff_perm}
use vcrpy.Request.{Request, Urllib, query, host, path, port, scheme, Body, read_body}
use vcrpy.Matchers.Bodies.{
  transformed, Loaders, apply_dechunk, chunked, dechunk_body, dechunk_bytes, get_transformers,
  same_body, same_content, transform_both, transformer, Kind, rank, same_kinds,
}
use vcrpy.Matching.{requests_match}
use vcrpy.Matching.Laws.{requests_match_iff}
use vcrpy.Matchers.{
  Shown, assert_same, default_matchers, host_matcher, method_matcher, of_request, path_matcher,
  port_matcher, query_matcher, scheme_matcher, body_matcher, message_of,
}

accepts_same :
    {A : Type 0} ⦃e : Eq A⦄ (a b : A) (message : Str)
    → ((assert_same (a == b) message ≡ ok none) ⊎ (assert_same (a == b) message ≡ ok (some true)))
      ↔ (a ≡ b)
accepts_same ⦃e⦄ a b message = ground (arith, e.beq_iff a b)

accepts_read :
    {A : Type 0} ⦃e : Eq A⦄ (a b : Result A) (message : A → A → Str)
    → (((do p ← a; q ← b; assert_same (p == q) (message p q)) ≡ ok none)
        ⊎ ((do p ← a; q ← b; assert_same (p == q) (message p q)) ≡ ok (some true)))
      ↔ ((p : A) × (a ≡ ok p) × (b ≡ ok p))
accepts_read (err x) b message =
    (λ h. absurd (elim h [ inl e ↦ cc e | inr e ↦ cc e ]), λ (p, e, f). absurd (cc e))
accepts_read (ok p) (err x) message =
    (λ h. absurd (elim h [ inl e ↦ cc e | inr e ↦ cc e ]), λ (p', e, f). absurd (cc f))
accepts_read (ok p) (ok q) message = (
  λ h. let same = (accepts_same p q (message p q)).0 h in (p, refl, ap ok (sym same)),
  λ (p', e, f). (accepts_same p q (message p q)).1 (ok-injective e ∙ sym (ok-injective f)),
)

module _ (urllib : Urllib) where
  -- The requests agree in all that the default `match_on` names.
  pub record Agree (r1 r2 : Request) : Type 0 where
    pub same_method : r1.method ≡ r2.method
    pub same_scheme : scheme r1 ≡ scheme r2
    pub same_host : host r1 ≡ host r2
    pub same_port : (p : Option ℕ) × (port r1 ≡ ok p) × (port r2 ≡ ok p)
    pub same_path : path r1 ≡ path r2
    pub same_parameters :
        Perm (urllib.parse_qsl r1.parsed_uri.query) (urllib.parse_qsl r2.parsed_uri.query)

  -- Under the default matchers two requests match exactly when they have the same method, scheme,
  -- host and path, and the same port, which can be read of both, and the parameters of one query are a permutation of those of the other.
  pub default_match_iff :
      (shown : Shown) (r1 r2 : Request)
      → (requests_match (some r1) r2 (default_matchers urllib shown) ≡ ok true) ↔ Agree r1 r2
  unfolding default_matchers of_request method_matcher scheme_matcher host_matcher port_matcher
      path_matcher query_matcher query scheme host port path
  default_match_iff shown r1 r2 =
      let iff = requests_match_iff (some r1) r2 (default_matchers urllib shown) in
      let same_query =
        sorted_iff_perm (urllib.parse_qsl r1.parsed_uri.query)
          (urllib.parse_qsl r2.parsed_uri.query) in
      let ports =
        accepts_read (port r1) (port r2) (λ p q. message_of (shown.of_port p) (shown.of_port q)) in
      (
        λ matched.
            let passed = iff.0 matched in
            record {
              same_method = (accepts_same _ _ _).0 passed.0;
              same_scheme = (accepts_same _ _ _).0 passed.1.0;
              same_host = (accepts_same _ _ _).0 passed.1.1.0;
              same_port = ports.0 passed.1.1.1.0;
              same_path = (accepts_same _ _ _).0 passed.1.1.1.1.0;
              same_parameters = same_query.0 ((accepts_same _ _ _).0 passed.1.1.1.1.1.0);
            },
        λ w. iff.1 (
          (accepts_same _ _ _).1 w.same_method,
          (
            (accepts_same _ _ _).1 w.same_scheme,
            (
              (accepts_same _ _ _).1 w.same_host,
              (
                ports.1 w.same_port,
                (
                  (accepts_same _ _ _).1 w.same_path,
                  ((accepts_same _ _ _).1 (same_query.1 w.same_parameters), tt),
                ),
              ),
            ),
          ),
        ),
      )

dechunk_body-of_dechunk :
    (bytes contents : Bytes)
    → dechunk bytes ≡ some (ok contents)
    → dechunk_body (Body.binary bytes) ≡ ok (Body.binary contents)
unfolding dechunk_body dechunk_bytes
dechunk_body-of_dechunk [] contents h = unfold dechunk loop in cc h
dechunk_body-of_dechunk (b ∷ bytes) contents h = rw h

-- What `transformed` makes of a request whose headers ask for `_dechunk` alone.
pub record IsChunked (r : Request) (ending trailer : Bytes) (ps : List Piece) : Type 0 where
  pub asks : get_transformers r.headers ≡ ok (chunked ∷ [])
  pub has_body : read_body r ≡ ok (Body.binary (encoded ending trailer ps))
  pub has_end : IsEnd ending
  pub are_pieces : All IsPiece ps

dechunk_body-encoded :
    (r : Request) (ending trailer : Bytes) (ps : List Piece) (w : IsChunked r ending trailer ps)
    → dechunk_body (Body.binary (encoded ending trailer ps))
      ≡ ok (Body.binary (concat (contents_of ps)))
dechunk_body-encoded r ending trailer ps w =
    dechunk_body-of_dechunk _ _ (dechunk-encoded ending trailer w.has_end ps w.are_pieces)

same_kinds_refl : (ks : List Kind) → same_kinds ks ks ≡ true
unfolding same_kinds
same_kinds_refl ks = eq_refl (map rank ks)

-- `body` on two requests in the chunked transfer encoding, whose headers ask for `_dechunk` and for no
-- other transformer, compares the contents of the chunks, put together: how each side was cut into chunks, the spelling of the sizes and what follows the last
-- chunk do not count.
pub body_matcher_of_chunked :
    {D : Type 0} (loaders : Loaders D) (r1 r2 : Request) (end1 end2 trailer1 trailer2 : Bytes)
    (ps qs : List Piece)
    → IsChunked r1 end1 trailer1 ps
    → IsChunked r2 end2 trailer2 qs
    → body_matcher loaders r1 r2 ≡ (
        if concat (contents_of ps) == concat (contents_of qs)
        then ok none
        else err (assertion_error []))
unfolding body_matcher transformed transform_both transformer apply_dechunk same_content same_body
body_matcher_of_chunked loaders r1 r2 end1 end2 trailer1 trailer2 ps qs w v =
    rw
      (
        w.asks,
        v.asks,
        w.has_body,
        v.has_body,
        same_kinds_refl (chunked ∷ []),
        dechunk_body-encoded r1 end1 trailer1 ps w,
        dechunk_body-encoded r2 end2 trailer2 qs v,
      )
      (ground arith)
