-- ===== src/Protocol/Keys.antt =====
-- src/review.ts and shared/structuredResult.ts: `Object.keys(value).sort().join(',')`.
use charterion.Prelude.{
  Text, List, [], ◌∷◌, ◌++◌, Bool, true, false, ◌||◌, ◌&&◌, if◌then◌else◌, ltb, ◌==◌,
}
use charterion.Prelude.Json.{Fields, keys}

-- The order of texts by their code units.
unfoldable pub text_le : Text → Text → Bool
text_le [] t = true
text_le (a ∷ s) [] = false
text_le (a ∷ s) (b ∷ t) = ltb a b || (a == b && text_le s t)

unfoldable pub insert_text : Text → List Text → List Text
insert_text t [] = t ∷ []
insert_text t (u ∷ us) = if text_le t u then t ∷ u ∷ us else u ∷ insert_text t us

unfoldable pub sort_texts : List Text → List Text
sort_texts [] = []
sort_texts (t ∷ ts) = insert_text t (sort_texts ts)

unfoldable pub join_comma : List Text → Text
join_comma [] = []
join_comma (t ∷ []) = t
join_comma (t ∷ u ∷ us) = t ++ (b',' ∷ join_comma (u ∷ us))

unfoldable pub sorted_keys : Fields → Text
unfolding text_le insert_text sort_texts join_comma
sorted_keys fs = join_comma (sort_texts (keys fs))
