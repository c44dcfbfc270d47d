-- ===== src/Job/Modules.antt =====
-- The sets of modules that the serializer takes in and leaves out. A set is a list without doubles.
use lithops.Base.{
  Bool, false, ◌||◌, Option, none, some, List, [], ◌∷◌, ◌++◌, Text, codes, text_eq, map,
  if◌then◌else◌, leb, ◌&&◌, ◌+◌,
}

-- include_modules of the configuration: a list, None, or a string.
pub data IncludeConfig : Type 0 where
  modules : List Text → IncludeConfig
  no_modules : IncludeConfig
  text : Text → IncludeConfig

-- str.lower, of ASCII letters.
abbrev pub lower : Text → Text
lower s = map (λ c. if leb 65 c && leb c 90 then c + 32 else c) s

-- `none` is the ValueError.
unfoldable pub include_config : IncludeConfig → Option (Option (List Text))
include_config (modules ms) = some (some ms)
include_config no_modules = some none
include_config (text s) = if text_eq (lower s) (codes "none") then some none else none

abbrev pub has : Text → List Text → Bool
has t [] = false
has t (u ∷ us) = text_eq t u || has t us

-- set.update
unfoldable pub update : List Text → List Text → List Text
update set [] = set
update set (m ∷ ms) = update (if has m set then set else (set ++ m ∷ [])) ms

abbrev pub update_given : List Text → Option (List Text) → List Text
unfolding update
update_given set none = set
update_given set (some ms) = update set ms

unfoldable pub exclude_set : Option (List Text) → Option (List Text) → List Text
exclude_set config given = update_given (update_given [] config) given

-- The tests in the source's order: `inc_modules` is None without a list in the configuration and one
-- in the call, and whenever the call says None.
unfoldable pub include_set : Option (List Text) → Option (List Text) → Option (List Text)
include_set config none = none
include_set none (some []) = none
include_set none (some (m ∷ ms)) = some (update_given [] (some (m ∷ ms)))
include_set (some config) (some ms) = some (update_given (update_given [] (some config)) (some ms))
