-- ===== src/Tests/Features.antt =====
-- The features of the protocol at concrete inputs.
use cpp2tnt.Prelude.{◌≡◌, true, false, some, [], ◌∷◌}
use cpp2tnt.Iproto.{create, has_feature, list_features}
use cpp2tnt.Iproto.Features.{elem, has_feature-create, list_features-create}

-- A feature that is known, one that is not, and one that the bitset has no bit for.
has_feature-create_example : has_feature (create (3 ∷ 9 ∷ 40 ∷ []) 4 []) 9 ≡ some true
has_feature-create_example = has_feature-create (3 ∷ 9 ∷ 40 ∷ []) 4 [] 9

list_features-create_example : elem 9 (list_features (create (3 ∷ 9 ∷ 40 ∷ []) 4 [])) ≡ false
list_features-create_example = list_features-create (3 ∷ 9 ∷ 40 ∷ []) 4 [] 9
