-- ===== src/Web/FileName.antt =====
-- `sanitizeFilename` of internal/web/handlers_attach.go, on names that are UTF-8, where `strings.Map`
-- works byte by byte on what it drops. `strings.TrimSpace` is a parameter.
pub mod Safety
use grafted_keys.Prelude.{
  ℕ, ◌++◌, Bool, true, false, not, ◌||◌, List, [], ◌∷◌, if◌then◌else◌, ltb, ◌==◌, length, take,
  select, Text, codes, same,
}

-- `strings.ReplaceAll(name, "\\", "/")`
unfoldable pub with_slashes : Text → Text
with_slashes [] = []
with_slashes (c ∷ cs) = (if c == b'\\' then b'/' else c) ∷ with_slashes cs

-- The last element of a path, where `element` is what has been read of the current one and `last` is
-- the last element that was not empty.
unfoldable pub last_element : Text → Text → Text → Text
last_element last element [] = if same element [] then last else element
last_element last element (c ∷ cs) =
    last_element (if c == b'/' then (if same element [] then last else element) else last)
      (if c == b'/' then [] else element ++ c ∷ []) cs

-- `filepath.Base`: a path of slashes alone is "/".
unfoldable pub file_base : Text → Text
unfolding last_element
file_base path =
    if same path []
    then codes "."
    else let element = last_element [] [] path in if same element [] then codes "/" else element

abbrev pub is_shown : ℕ → Bool
is_shown c = not (ltb c 32 || c == 127)

abbrev or_default : Text → Text
or_default name =
    if same name [] || same name (codes ".") || same name (codes "..")
    then codes "attachment"
    else name

abbrev shortened : Text → Text
shortened name = if ltb 200 (length name) then take 200 name else name

unfoldable pub sanitize_filename : (Text → Text) → Text → Text
unfolding with_slashes file_base select
sanitize_filename trim_space name =
    shortened (or_default (trim_space (select is_shown (file_base (with_slashes name)))))
