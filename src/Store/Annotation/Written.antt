-- ===== src/Store/Annotation/Written.antt =====
-- The configuration that was last applied is read back as it was written, and writing it panics
-- exactly where the object has no annotations (core/modrulestore.go, the end of `CalculatePatch`).
use kubemod.Prelude.{
  String, ◌==◌, ◌≡◌, refl, ap, ◌∙◌, Option, none, some, List, [], ◌∷◌, Exec, done, panic, expect,
  if◌then◌else◌, ◌⊎◌, Option-cases, inl, inr,
}
use kubemod.Prelude.Text.{split}
use kubemod.Json.{
  Value, null, undefined, boolean, int, float, string, array, object, Fields, get_field, set_field,
  get_field-set_field,
}
use kubemod.Store.Annotation.{
  value_at, get_value_from_json_object, extract_last_applied_configuration, set_last_applied,
  field_object, last_applied_key, text_of,
}

-- The object that a value is, if it is one.
abbrev object_of : Option Value → Option Fields
object_of (some (object fs)) = some fs
object_of _ = none

-- The annotations of a document, if there are any.
abbrev pub annotations_of : Value → Option Fields
annotations_of v = object_of (get_value_from_json_object v "metadata:annotations")

object_of-eq-some : (o : Option Value) (fs : Fields) → object_of o ≡ some fs → o ≡ some (object fs)
object_of-eq-some none fs h = absurd (cc)
object_of-eq-some (some null) fs h = absurd (cc)
object_of-eq-some (some undefined) fs h = absurd (cc)
object_of-eq-some (some (boolean b)) fs h = absurd (cc)
object_of-eq-some (some (int n)) fs h = absurd (cc)
object_of-eq-some (some (float n)) fs h = absurd (cc)
object_of-eq-some (some (string s)) fs h = absurd (cc)
object_of-eq-some (some (array vs)) fs h = absurd (cc)
object_of-eq-some (some (object gs)) fs h =
    ap (λ o. elim o [ some hs ↦ some (object hs) | none ↦ none ]) h

expect_object :
    (o : Option Value)
    → Path (Exec Fields) (elim o [ some (object gs) ↦ done gs | _ ↦ panic ]) (expect (object_of o))
expect_object none = refl
expect_object (some null) = refl
expect_object (some undefined) = refl
expect_object (some (boolean b)) = refl
expect_object (some (int n)) = refl
expect_object (some (float n)) = refl
expect_object (some (string s)) = refl
expect_object (some (array vs)) = refl
expect_object (some (object fs)) = refl

field_object_lem :
    (k : String) (fs : Fields) → field_object k fs ≡ expect (object_of (get_field k fs))
field_object_lem k fs = expect_object (get_field k fs)

-- One component of a path that is not the last.
abbrev below : List String → Option Fields → Option Value
below path none = none
below path (some fs) = value_at fs path

below-object_of :
    (path : List String) (o : Option Value)
    → Path
        (Option Value)
        (elim o [ some (object gs) ↦ value_at gs path | _ ↦ none ])
        (below path (object_of o))
below-object_of path none = refl
below-object_of path (some null) = refl
below-object_of path (some undefined) = refl
below-object_of path (some (boolean b)) = refl
below-object_of path (some (int n)) = refl
below-object_of path (some (float n)) = refl
below-object_of path (some (string s)) = refl
below-object_of path (some (array vs)) = refl
below-object_of path (some (object fs)) = refl

value_at-below :
    (fs : Fields) (c d : String) (rest : List String)
    → value_at fs (c ∷ d ∷ rest) ≡ below (d ∷ rest) (object_of (get_field c fs))
unfolding value_at
value_at-below fs c d rest = below-object_of (d ∷ rest) (get_field c fs)

annotations_path :
    (fs : Fields)
    → get_value_from_json_object (object fs) "metadata:annotations"
      ≡ below ("annotations" ∷ []) (object_of (get_field "metadata" fs))
unfolding get_value_from_json_object split
annotations_path fs = value_at-below fs "metadata" "annotations" []

last_applied_path :
    (fs : Fields)
    → get_value_from_json_object
        (object fs)
        "metadata:annotations:kubectl.kubernetes.io/last-applied-configuration"
      ≡ below ("annotations" ∷ last_applied_key ∷ []) (object_of (get_field "metadata" fs))
unfolding get_value_from_json_object split
last_applied_path fs = value_at-below fs "metadata" "annotations" (last_applied_key ∷ [])

-- The document after the annotation is written.
abbrev written : Fields → Fields → Fields → String → Fields
written root metadata annotations text =
    set_field "metadata"
      (object (
        set_field "annotations" (object (set_field last_applied_key (string text) annotations))
          metadata))
      root

module _ (root metadata annotations : Fields) (text : String) where
  written-annotations :
      annotations_of (object (written root metadata annotations text))
      ≡ some (set_field last_applied_key (string text) annotations)
  unfolding value_at
  written-annotations =
      ap object_of (annotations_path (written root metadata annotations text))
      ∙ rw
          (
            get_field-set_field "metadata" "metadata",
            get_field-set_field "annotations" "annotations",
          )
          refl

  extract-written :
      extract_last_applied_configuration (object (written root metadata annotations text))
      ≡ some text
  unfolding value_at extract_last_applied_configuration
  extract-written =
      ap text_of (last_applied_path (written root metadata annotations text))
      ∙ rw
          (
            get_field-set_field "metadata" "metadata",
            value_at-below,
            get_field-set_field "annotations" "annotations",
            get_field-set_field last_applied_key last_applied_key,
          )
          refl

-- What writing the annotation does to a document with annotations: every field of the document but
-- the metadata, every field of the metadata but the annotations, and every annotation but the one
-- written stay as they are.
pub record IsWritten (v w : Value) (text : String) (before after : Fields) : Type 0 where
  pub root : Fields
  pub new_root : Fields
  pub metadata : Fields
  pub new_metadata : Fields
  pub was_object : v ≡ object root
  pub is_object : w ≡ object new_root
  pub had_metadata : get_field "metadata" root ≡ some (object metadata)
  pub had_annotations : get_field "annotations" metadata ≡ some (object before)
  pub fields :
      (k : String)
      → get_field k new_root
        ≡ (if "metadata" == k then some (object new_metadata) else get_field k root)
  pub metadata_fields :
      (k : String)
      → get_field k new_metadata
        ≡ (if "annotations" == k then some (object after) else get_field k metadata)
  pub had : annotations_of v ≡ some before
  pub has : annotations_of w ≡ some after
  pub extracted : extract_last_applied_configuration w ≡ some text
  pub others :
      (k : String)
      → get_field k after
        ≡ (if last_applied_key == k then some (string text) else get_field k before)

set_last_applied-object :
    (root : Fields) (text : String)
    → ((annotations_of (object root) ≡ none) × (set_last_applied (object root) text ≡ panic))
      ⊎ ((w : Value) × (before after : Fields) × (set_last_applied (object root) text ≡ done w)
          × IsWritten (object root) w text before after)
unfolding set_last_applied value_at
set_last_applied-object root text = elim (Option-cases (object_of (get_field "metadata" root))) [
  | inl none₁ ↦
      inl (ap object_of (annotations_path root) ∙ rw none₁ refl, rw (field_object_lem, none₁) refl)
  | inr (metadata, some₁) ↦ elim (Option-cases (object_of (get_field "annotations" metadata))) [
    | inl none₂ ↦ inl (
      ap object_of (annotations_path root) ∙ rw some₁ none₂,
      rw (field_object_lem, some₁, field_object_lem, none₂) refl,
    )
    | inr (annotations, some₂) ↦ inr (
      object (written root metadata annotations text),
      annotations,
      set_field last_applied_key (string text) annotations,
      rw (field_object_lem, some₁, field_object_lem, some₂) refl,
      record {
        root = root;
        new_root = written root metadata annotations text;
        metadata = metadata;
        new_metadata =
            set_field "annotations" (object (set_field last_applied_key (string text) annotations))
              metadata;
        was_object = refl;
        is_object = refl;
        had_metadata = object_of-eq-some _ metadata some₁;
        had_annotations = object_of-eq-some _ annotations some₂;
        fields = λ k. get_field-set_field k "metadata" _ root;
        metadata_fields = λ k. get_field-set_field k "annotations" _ metadata;
        had = ap object_of (annotations_path root) ∙ rw some₁ some₂;
        has = written-annotations root metadata annotations text;
        extracted = extract-written root metadata annotations text;
        others = λ k. get_field-set_field k last_applied_key (string text) annotations;
      },
    )
  ]
]

-- Writing the annotation panics if there are no annotations; otherwise it is written.
pub set_last_applied-IsWritten :
    (v : Value) (text : String)
    → ((annotations_of v ≡ none) × (set_last_applied v text ≡ panic))
      ⊎ ((w : Value) × (before after : Fields) × (set_last_applied v text ≡ done w)
          × IsWritten v w text before after)
unfolding set_last_applied get_value_from_json_object
set_last_applied-IsWritten null text = inl (refl, refl)
set_last_applied-IsWritten undefined text = inl (refl, refl)
set_last_applied-IsWritten (boolean b) text = inl (refl, refl)
set_last_applied-IsWritten (int n) text = inl (refl, refl)
set_last_applied-IsWritten (float n) text = inl (refl, refl)
set_last_applied-IsWritten (string s) text = inl (refl, refl)
set_last_applied-IsWritten (array vs) text = inl (refl, refl)
set_last_applied-IsWritten (object root) text = set_last_applied-object root text
