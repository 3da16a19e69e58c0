-- ===== src/Dechunk/Tests.antt =====
-- Runs of `_dechunk`, and the theorems about it at concrete bodies.
use vcrpy.Prelude.{
  Bytes, Result, [], arith, concat, err, list_eq, ok, raised, refl, some, str, unbound_local_error,
  ◌∷◌, ◌≡◌, List_eq, ℕ_eq,
}
use vcrpy.Dechunk.{dechunk, is_hexdigit, int_of_hex}
use vcrpy.Dechunk.Fuel.{dechunk_ends}
use vcrpy.Dechunk.Decoding.{Piece, IsPiece, IsEnd, encoded, contents_of, dechunk-encoded}

-- "2\r\nab\r\n0\r\n"
abbrev ab : Piece
ab = record { digits = str "2"; contents = str "ab" }

dechunk_empty : dechunk [] ≡ some (err (raised unbound_local_error))
unfolding dechunk list_eq
dechunk_empty = refl

dechunk_plain : dechunk (str "hello") ≡ some (ok (str "hello"))
unfolding dechunk list_eq
dechunk_plain = refl

dechunk_ends_example : (r : Result Bytes) × (dechunk (str "2\r\nab\r\n") ≡ some r)
dechunk_ends_example = dechunk_ends (str "2\r\nab\r\n")

ab-IsPiece : IsPiece ab
unfolding is_hexdigit int_of_hex
ab-IsPiece = record { hexadecimal = (refl, tt); size = refl; non_empty = omega arith }

zero-IsEnd : IsEnd (str "0")
unfolding is_hexdigit int_of_hex
zero-IsEnd = record { hexadecimal = (refl, tt); zero_size = refl }

dechunk-encoded_example :
    dechunk (encoded (str "0") (str "\r\n") (ab ∷ ab ∷ []))
    ≡ some (ok (concat (contents_of (ab ∷ ab ∷ []))))
dechunk-encoded_example =
    dechunk-encoded (str "0") (str "\r\n") zero-IsEnd (ab ∷ ab ∷ []) (ab-IsPiece, (ab-IsPiece, tt))
