-- ===== src/Tests/Values.antt =====
-- Values and events on concrete inputs.
use wyreplumber.Prelude.{pos, true, ◌≡◌, refl, ok, ◌>>=◌}
use wyreplumber.Value.{
  Value, null, int, str, list, tuple, dict, frozen, nil, cons, end, field, text,
}
use wyreplumber.Value.Json.{freeze_json, thaw_json}
use wyreplumber.Value.Json.Laws.{is_json, thaw-freeze}
use wyreplumber.Value.Json.Immutable.{is_immutable, well_built, freeze-immutable}

-- {"volume": [1, None], "name": "sink"}
abbrev document : Value
document = dict (
    field (text "volume") (list (cons (int (pos 1)) (cons null nil)))
      (field (text "name") (str "sink") end))

document_json : is_json document ≡ true
unfolding is_json
document_json = refl

thaw-freeze_example : (freeze_json document >>= thaw_json) ≡ ok document
thaw-freeze_example = thaw-freeze document document_json

abbrev frozen_document : Value
frozen_document = frozen (
    field (text "volume") (tuple (cons (int (pos 1)) (cons null nil)))
      (field (text "name") (str "sink") end))

document_built : well_built document ≡ true
unfolding well_built
document_built = refl

document_freezes : freeze_json document ≡ ok frozen_document
unfolding freeze_json
document_freezes = refl

freeze-immutable_example :
    (is_immutable frozen_document ≡ true) × (freeze_json frozen_document ≡ ok frozen_document)
freeze-immutable_example = freeze-immutable document frozen_document document_built document_freezes
