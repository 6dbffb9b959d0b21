-- ===== src/Base/Order.antt =====
-- `sort.Strings`, and insertion into a set of strings.
pub mod Kept
use mathlib.Core.Bool.{Bool}
use mathlib.Core.List.{List, [], ◌∷◌}
use mha_go.Base.Tests.{if◌then◌else◌}
use mha_go.Base.Lists.{any}
use mha_go.Base.Strings.{Text, text_lt, text_eq}

unfoldable pub insert_text : Text → List Text → List Text
insert_text s [] = s ∷ []
insert_text s (t ∷ l) = if text_lt t s then t ∷ insert_text s l else s ∷ t ∷ l

unfoldable pub sort_texts : List Text → List Text
unfolding insert_text
sort_texts [] = []
sort_texts (s ∷ l) = insert_text s (sort_texts l)

unfoldable pub has_text : Text → List Text → Bool
unfolding any
has_text s = any (λ t. text_eq s t)

-- A `map[string]struct{}` as the list of its keys.
unfoldable pub add_text : Text → List Text → List Text
unfolding has_text
add_text s l = if has_text s l then l else s ∷ l
