-- ===== src/Cassette/Generator.antt =====
-- A Python generator over pure code: the values that it yields in turn, and how it ends. What a
-- consumer does not ask for is not raised.
use vcrpy.Prelude.{Error, List, Result, [], err, ok, ◌>>=◌, ◌∷◌}

pub data Gen (A : Type 0) : Type 0 where
  done : Gen A
  throws : Error → Gen A
  yields : A → Gen A → Gen A

-- [x for x in gen]
unfoldable pub gather : {A : Type 0} → Gen A → Result (List A)
gather done = ok []
gather (throws e) = err e
gather (yields a rest) = do as' ← gather rest; ok (a ∷ as')
