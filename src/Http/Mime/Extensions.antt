-- ===== src/Http/Mime/Extensions.antt =====
-- The case of file extensions.
use caviar_hacker_grid.Base.{ℕ, [], ◌∷◌, map, ◌≡◌, refl, ap, arith}
use caviar_hacker_grid.Base.Text.{Bytes, to_lower}
use caviar_hacker_grid.Http.Mime.{get_mime_type, content_type_of, extensions}

to_lower_idem : (c : ℕ) → to_lower (to_lower c) ≡ to_lower c
unfolding to_lower
to_lower_idem c = ground arith

pub map-to_lower_idem : (s : Bytes) → map to_lower (map to_lower s) ≡ map to_lower s
map-to_lower_idem [] = refl
map-to_lower_idem (c ∷ s) = cc (to_lower_idem c, map-to_lower_idem s)

-- An extension in lower case has the content type of the extension itself.
pub get_mime_type-to_lower : (e : Bytes) → get_mime_type (map to_lower e) ≡ get_mime_type e
unfolding get_mime_type
get_mime_type-to_lower e = ap (λ x. content_type_of x extensions) (map-to_lower_idem e)
