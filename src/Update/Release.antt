-- ===== src/Update/Release.antt =====
-- update.rs: the tags, the redirects and the assets of releases, and what goes wrong.
use bolide.Base.{
  ℕ, Bool, false, ◌||◌, Option, none, some, List, [], ◌∷◌, ◌++◌, Result, ok, err, ◌==◌,
  if◌then◌else◌,
}
use bolide.Base.Text.{Text, codes, trim}

-- What the errors say. A path or a text that they print is kept.
pub data Trouble : Type 0 where
  no_version : Text → Trouble
  no_release_tag : Text → Trouble
  source_build : List Text → Trouble
  unresolved : Text → Trouble
  no_prebuilt : Text → Trouble
  no_scratch : Trouble
  not_downloaded : Text → Text → Trouble
  not_unpacked : Trouble
  no_binary : Text → Trouble
  not_replaced : List Text → Trouble

unfoldable pub strip_prefix : Text → Text → Option Text
strip_prefix [] s = some s
strip_prefix (c ∷ p) [] = none
strip_prefix (c ∷ p) (d ∷ s) = if c == d then strip_prefix p s else none

abbrev pub unwrap_or : Option Text → Text → Text
unwrap_or none s = s
unwrap_or (some t) s = t

unfoldable pub version_from_tag : Text → Result Trouble Text
version_from_tag tag = elim (unwrap_or (strip_prefix (codes "v") (trim tag)) (trim tag)) [
  | [] ↦ err (no_version tag)
  | ◌∷◌ c s ↦ ok (c ∷ s)
]

-- `split(['?', '#']).next()`.
unfoldable pub until_query : Text → Text
until_query [] = []
until_query (c ∷ s) = if (c == 63) || (c == 35) then [] else c ∷ until_query s

-- `strip_suffix('/')`, or the text.
unfoldable pub without_slash : Text → Text
without_slash [] = []
without_slash (c ∷ []) = if c == 47 then [] else c ∷ []
without_slash (c ∷ d ∷ s) = c ∷ without_slash (d ∷ s)

-- What `rsplit_once` has behind the last `p`, which is not empty.
unfoldable pub after_last : Text → Text → Option Text
after_last p [] = none
after_last p (c ∷ s) = elim (after_last p s) [ some t ↦ some t | none ↦ strip_prefix p (c ∷ s) ]

unfoldable pub has : ℕ → Text → Bool
has c [] = false
has c (d ∷ s) = (d == c) || has c s

unfoldable pub whole_tag : Text → Option Text → Result Trouble Text
whole_tag url none = err (no_release_tag url)
whole_tag url (some []) = err (no_release_tag url)
whole_tag url (some (c ∷ s)) =
    if has 47 (c ∷ s) then err (no_release_tag url) else version_from_tag (c ∷ s)

unfoldable pub version_from_release_url : Text → Result Trouble Text
version_from_release_url url =
    whole_tag (trim url)
      (after_last (codes "/releases/tag/") (without_slash (until_query (trim url))))

abbrev pub releases_page : Text
releases_page = codes "https://github.com/jakequist/bolide/releases"

unfoldable pub asset_name : Text → Text → Text
asset_name version target =
    codes "bolide-" ++ (version ++ (codes "-" ++ (target ++ codes ".tar.gz")))

unfoldable pub asset_url : Text → Text → Text
asset_url version target =
    releases_page ++ (codes "/download/v" ++ (version ++ (codes "/" ++ asset_name version target)))
