-- ===== src/Path/Samples.antt =====
-- internal/path/path.go: a path into a small document.
use vigie.Prelude.{◌≡◌, refl, List, [], ◌∷◌, map, All}
use vigie.Value.{Value, str, slice, object, nil, cons, end, field}
use vigie.Path.{ok, parse, get, found, not_found, failed, unmatched_bracket, negative_index}
use vigie.Path.Printed.{Form, dotted, quoted, indexed, print, segment_of, IsWritable, parse-print}

-- labels: {"app.io/name": web}, ports: [http, metrics]
abbrev document : Value
document = object (
    field "labels" (object (field "app.io/name" (str "web") end))
      (field "ports" (slice (cons (str "http") (cons (str "metrics") nil))) end))

get-label : get document "labels[\"app.io/name\"]" ≡ found (str "web")
unfolding get
get-label = refl

get-port : get document "ports[ 1 ]" ≡ found (str "metrics")
unfolding get
get-port = refl

get-far : get document ".ports[7]" ≡ not_found
unfolding get
get-far = refl

get-negative : get document "ports[-1]" ≡ failed (negative_index "-1")
unfolding get
get-negative = refl

get-open : get document "ports[" ≡ failed unmatched_bracket
unfolding get
get-open = refl

abbrev label : List Form
label = dotted "labels" ∷ quoted "app.io/name" ∷ indexed "+1" 1 ∷ []

label-IsWritable : All IsWritable label
label-IsWritable = ((refl, refl), (refl, ((refl, refl, refl), tt)))

parse-print_example : parse (print label) ≡ ok (map segment_of label)
parse-print_example = parse-print label label-IsWritable
