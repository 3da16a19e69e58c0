-- ===== src/Config/Paths.antt =====
-- vcrmartin/config.py, `ensure_suffix`, `add_cassette_library_dir` and
-- `_build_path_from_func_using_module`, and `compose` of vcrmartin/util.py. Paths are those of POSIX.
use vcrpy.Prelude.{
  Bool, Bool-cases, List, Option, Result, Str, [], arith, drop, drop-append, eq_refl, if◌then◌else◌,
  inl, inr, leb, length, length-append, none, not, ok, refl, some, str, true, ◌&&◌, ◌++◌, ◌-◌, ◌==◌,
  ◌>>=◌, ◌||◌, ◌∷◌, ◌≡◌, List_eq, ℕ_eq,
}
use vcrpy.Text.{starts_with}

abbrev pub PathTransformer : Type 0
PathTransformer = Str → Result Str

-- A function that is decorated: `__name__`, and `inspect.getfile` of it.
pub record Function : Type 0 where
  pub name : Str
  pub file : Str

abbrev pub PathGenerator : Type 0
PathGenerator = Function → Result Str

-- s.endswith(suffix)
unfoldable pub ends_with : Str → Str → Bool
ends_with suffix s = leb (length suffix) (length s) && drop (length s - length suffix) s == suffix

-- `ensure` of `ensure_suffix`
unfoldable pub ensure_suffix : Str → Str → Str
unfolding ends_with
ensure_suffix suffix path = if ends_with suffix path then path else path ++ suffix

-- os.path.join(folder, path)
unfoldable pub join_paths : Str → Str → Str
unfolding starts_with ends_with
join_paths folder path =
    if starts_with (str "/") path
    then path
    else if length folder == 0 || ends_with (str "/") folder
    then folder ++ path
    else folder ++ (str "/" ++ path)

-- p[:p.rfind("/") + 1]
abbrev pub to_last_slash : Str → Str
to_last_slash [] = []
to_last_slash (c ∷ path) =
    let rest = to_last_slash path in if length rest == 0 && not (c == 47) then [] else c ∷ rest

-- head.rstrip("/")
abbrev pub without_slashes : Str → Str
without_slashes [] = []
without_slashes (c ∷ head) =
    let rest = without_slashes head in if length rest == 0 && c == 47 then [] else c ∷ rest

-- os.path.dirname(path); a head of slashes alone stays as it is.
unfoldable pub dirname : Str → Str
dirname path =
    let head = to_last_slash path in
    let stripped = without_slashes head in if length stripped == 0 then head else stripped

-- `_build_path_from_func_using_module`
unfoldable pub build_path_from_func_using_module : Function → Str
unfolding dirname join_paths
build_path_from_func_using_module function = join_paths (dirname function.file) function.name

unfoldable pub add_cassette_library_dir : Str → Str → Str
unfolding starts_with join_paths
add_cassette_library_dir folder path =
    if starts_with folder path then path else join_paths folder path

-- `compose`: the last function first, those that are `None` left out.
unfoldable pub compose : {A : Type 0} → List (Option (A → Result A)) → A → Result A
compose [] incoming = ok incoming
compose (none ∷ functions) incoming = compose functions incoming
compose (some f ∷ functions) incoming = do res ← compose functions incoming; f res

unfoldable pub path_transformer_of : Str → Option PathTransformer → Option PathTransformer
unfolding compose add_cassette_library_dir
path_transformer_of [] transformer = transformer
path_transformer_of (c ∷ folder) transformer =
    some
      (compose (some (λ path. ok (add_cassette_library_dir (c ∷ folder) path)) ∷ transformer ∷ []))

-- elif not func_path_generator: ...
unfoldable pub path_generator_of : Str → Option PathGenerator → Option PathGenerator
unfolding build_path_from_func_using_module
path_generator_of (c ∷ folder) generator = generator
path_generator_of [] (some generator) = some generator
path_generator_of [] none = some (λ function. ok (build_path_from_func_using_module function))

ends_with-append : (suffix s : Str) → ends_with suffix (s ++ suffix) ≡ true
unfolding ends_with
ends_with-append suffix s =
    let measured : length (s ++ suffix) - length suffix ≡ length s =
      omega (arith, length-append s suffix) in
    let long : leb (length suffix) (length (s ++ suffix)) ≡ true =
      ground (arith, length-append s suffix) in
    rw (long, measured, drop-append s suffix) (eq_refl suffix)

-- `ensure_suffix` returns a path with the suffix, and one more call changes nothing.
ensure_suffix_once :
    (suffix path : Str)
    → (ends_with suffix (ensure_suffix suffix path) ≡ true)
      × (ensure_suffix suffix (ensure_suffix suffix path) ≡ ensure_suffix suffix path)
unfolding ensure_suffix
ensure_suffix_once suffix path = elim (Bool-cases (ends_with suffix path)) [
  | inl h ↦ rw h (h, rw h)
  | inr h ↦ rw (h, ends_with-append suffix path) (refl, refl)
]
