-- ===== src/Auth/Tests.antt =====
-- Roles and signature references by example.
use blackcat_darkmesh_gatewa.Auth.{
  allowed, refused, role_forbidden, PolicyValueInput, values_of, normalize_role, default_normalize,
  normalize_from, require_allowed_role,
}
use blackcat_darkmesh_gatewa.Text.{trim, trim_start, trim_end, to_lower}
use blackcat_darkmesh_gatewa.Base.{◌≡◌, refl, none, some, [], ◌∷◌}

abbrev roles : PolicyValueInput
roles = values_of (some " Admin" ∷ none ∷ some "editor" ∷ [])

admin : require_allowed_role roles (some "ADMIN ") none ≡ allowed
unfolding require_allowed_role normalize_role default_normalize normalize_from trim trim_start
    trim_end to_lower
admin = refl

stranger : require_allowed_role roles (some "guest") (some "public") ≡ refused role_forbidden
unfolding require_allowed_role normalize_role default_normalize normalize_from trim trim_start
    trim_end to_lower
stranger = refl
