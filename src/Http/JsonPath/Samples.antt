-- ===== src/Http/JsonPath/Samples.antt =====
-- internal/matchers/http.go: jsonPath expressions into a small document.
use vigie.Prelude.{◌≡◌, refl, some, List, [], ◌∷◌, All, map}
use vigie.Prelude.Int.{pos}
use vigie.Value.{Value, str, slice, object, nil, cons, end, field}
use vigie.Path.{follow}
use vigie.Path.Printed.{Form, dotted, indexed, segment_of}
use vigie.Http.JsonPath.{
  found, failed, out_of_bounds, eval_json_path, enter, split_segment, parse_array_index,
}
use vigie.Http.JsonPath.Ends.{IsReturned, eval_json_path-IsReturned}
use vigie.Http.JsonPath.Written.{IsCommon}
use vigie.Http.JsonPath.Agrees.{eval_json_path-write}

-- {"items": [{"name": "web"}]}
abbrev document : Value
document = object (field "items" (slice (cons (object (field "name" (str "web") end)) nil)) end)

eval-name : eval_json_path "$.items[0].name" document ≡ found (str "web")
unfolding eval_json_path enter split_segment vigie.Prelude.Texts.index_of vigie.Prelude.Texts.take
    parse_array_index
eval-name = refl

eval-far : eval_json_path "$.items[7]" document ≡ failed (out_of_bounds (pos 7) 1)
unfolding eval_json_path enter split_segment vigie.Prelude.Texts.index_of vigie.Prelude.Texts.take
    parse_array_index
eval-far = refl

-- What follows the digits of an index is not read.
eval-letters : eval_json_path "$.items[0th].name" document ≡ found (str "web")
unfolding eval_json_path enter split_segment vigie.Prelude.Texts.index_of vigie.Prelude.Texts.take
    parse_array_index
eval-letters = refl

-- An empty segment ends the path at a value that is neither a map nor a list.
eval-dots : eval_json_path "$.items[0].name..first" document ≡ found (str "web")
unfolding eval_json_path enter split_segment vigie.Prelude.Texts.index_of vigie.Prelude.Texts.take
    parse_array_index
eval-dots = refl

eval_json_path-IsReturned_example : IsReturned (eval_json_path "$.items[7].name" document)
eval_json_path-IsReturned_example = eval_json_path-IsReturned "$.items[7].name" document

abbrev rest : List Form
rest = indexed "0" 0 ∷ dotted "name" ∷ []

rest-IsCommon : All IsCommon (dotted "items" ∷ rest)
unfolding parse_array_index
rest-IsCommon = ((refl, refl), ((refl, refl), ((refl, refl), tt)))

follow-rest : follow (map segment_of (dotted "items" ∷ rest)) document ≡ some (str "web")
unfolding follow
follow-rest = refl

eval_json_path-write_example : eval_json_path "$.items[0].name" document ≡ found (str "web")
eval_json_path-write_example =
    eval_json_path-write "items" rest document (str "web") rest-IsCommon follow-rest
