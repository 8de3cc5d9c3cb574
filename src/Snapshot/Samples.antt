-- ===== src/Snapshot/Samples.antt =====
-- internal/snapshot/normalize.go: a manifest with annotations of Helm.
use vigie.Prelude.{◌≡◌, refl}
use vigie.Value.{Value, Fields, null, str, object, end, field}
use vigie.Snapshot.Normal.{normalize, normalize_value}

abbrev manifest : Value
manifest = object (
    field "kind" (str "Job") (
      field "metadata"
        (object (
          field "name" (str "web") (
            field "creationTimestamp" null
              (field "annotations" (object (field "helm.sh/hook" (str "test") end)) end))))
        end))

normalize-manifest :
    normalize manifest
    ≡ object (
        field "kind"
          (str "Job")
          (field "metadata" (object (field "name" (str "web") (field "annotations" null end))) end))
unfolding normalize_value
normalize-manifest = refl

abbrev hooks : Fields
hooks = field "helm.sh/hook" (str "test") (field "team" (str "web") end)
