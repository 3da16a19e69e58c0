-- ===== src/Config/Folders.antt =====
-- vcrmartin/config.py: where `_build_path_from_func_using_module` and `add_cassette_library_dir` put a
-- file, told by the parts of a path.
use vcrpy.Text.{starts_with}
use vcrpy.Config.Paths.{
  Function, ends_with, join_paths, dirname, to_last_slash, without_slashes,
  build_path_from_func_using_module, add_cassette_library_dir,
}
use vcrpy.Prelude.{
  All, Str, [], ap, append_assoc, arith, drop-append, eq_iff, false, leb, length, length-append,
  list_eq, refl, str, sym, true, ℕ, ◌++◌, ◌-◌, ◌==◌, ◌∙◌, ◌∷◌, ◌≡◌, ◌≢◌, ℕ_eq, List_eq,
}

-- A folder other than the root, written without a slash at its end.
pub record IsFolder (place : Str) : Type 0 where
  pub front : Str
  pub last : ℕ
  pub parts : place ≡ front ++ last ∷ []
  pub open_end : last ≢ 47

-- A name in a folder.
abbrev pub HasNoSlash : Str → Type 0
HasNoSlash = All (λ (c : ℕ). c ≢ 47)

is_other : (c : ℕ) → c ≢ 47 → (c == 47) ≡ false
is_other c other = ground (arith, eq_iff c 47)

length-end : (front : Str) (c : ℕ) (rest : Str) → (length (front ++ c ∷ rest) == 0) ≡ false
length-end front c rest = ground (arith, length-append front (c ∷ rest))

to_last_slash-HasNoSlash : (base : Str) → HasNoSlash base → to_last_slash base ≡ []
to_last_slash-HasNoSlash [] w = refl
to_last_slash-HasNoSlash (c ∷ base) w = rw (to_last_slash-HasNoSlash base w.1, is_other c w.0) refl

to_last_slash-append :
    (place base : Str) → HasNoSlash base → to_last_slash (place ++ 47 ∷ base) ≡ place ++ 47 ∷ []
to_last_slash-append [] base w = rw (to_last_slash-HasNoSlash base w) refl
to_last_slash-append (c ∷ place) base w =
    rw (to_last_slash-append place base w, length-end place 47 []) refl

without_slashes-append :
    (front : Str) (last : ℕ)
    → last ≢ 47
    → without_slashes (front ++ last ∷ 47 ∷ []) ≡ front ++ last ∷ []
without_slashes-append [] last other = rw (is_other last other) refl
without_slashes-append (c ∷ front) last other =
    rw (without_slashes-append front last other, length-end front last []) refl

dirname-append :
    (place base : Str) → IsFolder place → HasNoSlash base → dirname (place ++ 47 ∷ base) ≡ place
unfolding dirname
dirname-append place base f w =
    let stripped : without_slashes (place ++ 47 ∷ []) ≡ place =
      ap (λ p. without_slashes (p ++ 47 ∷ [])) f.parts
      ∙ ap without_slashes (append_assoc f.front (f.last ∷ []) (47 ∷ []))
      ∙ without_slashes-append f.front f.last f.open_end
      ∙ sym f.parts in
    let nonempty : (length place == 0) ≡ false =
      ap (λ p. length p == 0) f.parts ∙ length-end f.front f.last [] in
    rw (to_last_slash-append place base w, stripped, nonempty) refl

ends_otherwise : (last : ℕ) → last ≢ 47 → (last ∷ [] == str "/") ≡ false
unfolding list_eq
ends_otherwise last other = rw (is_other last other) refl

ends_open : (front : Str) (last : ℕ) → last ≢ 47 → ends_with (str "/") (front ++ last ∷ []) ≡ false
unfolding ends_with
ends_open front last other =
    let measured : length (front ++ last ∷ []) - 1 ≡ length front =
      omega (arith, length-append front (last ∷ [])) in
    let long : leb 1 (length (front ++ last ∷ [])) ≡ true =
      ground (arith, length-append front (last ∷ [])) in
    rw (long, measured, drop-append front (last ∷ [])) (ends_otherwise last other)

-- `os.path.join` of a folder and a name that is no absolute path.
pub join_paths-IsFolder :
    (place name : Str)
    → IsFolder place
    → starts_with (str "/") name ≡ false
    → join_paths place name ≡ place ++ (str "/" ++ name)
unfolding join_paths
join_paths-IsFolder place name f relative =
    let nonempty : (length place == 0) ≡ false =
      ap (λ p. length p == 0) f.parts ∙ length-end f.front f.last [] in
    let no_end : ends_with (str "/") place ≡ false =
      ap (ends_with (str "/")) f.parts ∙ ends_open f.front f.last f.open_end in
    rw (relative, nonempty, no_end) refl

-- Where a function belongs: the folder of its file, where there is no library folder; the library
-- folder otherwise, unless the name of the function begins with the text of it.
abbrev pub IsHome : Str → Str → Function → Type 0
IsHome [] place function = (base : Str) × (function.file ≡ place ++ 47 ∷ base) × HasNoSlash base
IsHome (c ∷ folder) place function =
    (c ∷ folder ≡ place) × (starts_with (c ∷ folder) function.name ≡ false)

-- The cassette of a function where no option names one.
unfoldable pub default_path : Str → Function → Str
unfolding build_path_from_func_using_module add_cassette_library_dir
default_path [] function = build_path_from_func_using_module function
default_path (c ∷ folder) function = add_cassette_library_dir (c ∷ folder) function.name

pub default_path-IsHome :
    (folder place : Str) (function : Function)
    → IsFolder place
    → IsHome folder place function
    → starts_with (str "/") function.name ≡ false
    → default_path folder function ≡ place ++ (str "/" ++ function.name)
unfolding default_path build_path_from_func_using_module add_cassette_library_dir
default_path-IsHome [] place function f (base, file, w) relative =
    ap (λ p. join_paths (dirname p) function.name) file
    ∙ ap (λ p. join_paths p function.name) (dirname-append place base f w)
    ∙ join_paths-IsFolder place function.name f relative
default_path-IsHome (c ∷ folder) place function f (same, outside) relative =
    rw outside (
      ap (λ p. join_paths p function.name) same
      ∙ join_paths-IsFolder place function.name f relative)
