-- ===== src/Library.antt =====
-- What the program calls and does not contain: Go's regular expressions, templates and JSON, the
-- query language gval, the JSON patch libraries, YAML, and the Kubernetes client. A compiled
-- expression is the function that it computes. The parameter `lib : Library` stands for these
-- everywhere, and a theorem names what it relies on as a hypothesis.
use kubemod.Prelude.{String, Bool, Option, List, Result, Error}
use kubemod.Prelude.Int16.{ℤ}
use kubemod.Json.{Value}

-- `[]byte`; `none` is the nil slice.
abbrev pub Bytes : Type 0
Bytes = Option String

-- `*regexp.Regexp`, by its `MatchString`.
abbrev pub Regexp : Type 0
Regexp = String → Bool

-- `gval.Evaluable`.
abbrev pub Evaluable : Type 0
Evaluable = Value → Result Value

-- A part of a select key: `Atoi` of it where that succeeds, or its text.
pub data KeyPart : Type 0 where
  number : ℤ → KeyPart
  word : String → KeyPart

-- PatchTemplateContext and RejectTemplateContext (core/templatecontext.go).
pub data TemplateContext : Type 0 where
  patch_template_context : String → Value → List KeyPart → Value → TemplateContext
  reject_template_context : String → Value → TemplateContext

-- `*template.Template`, by its `Execute` into an empty builder.
abbrev pub Template : Type 0
Template = TemplateContext → Result String

-- `evanjsonpatch.Patch`, by `ApplyWithOptions`: the document and the error that it returns.
abbrev pub Patch : Type 0
Patch = Bytes → Bytes × Option Error

-- `ctrljsonpatch.JsonPatchOperation`.
pub record JsonPatchOperation : Type 0 where
  pub operation : String
  pub path : String
  pub value : Value

pub record Library : Type 0 where
  -- `regexp.Compile`
  pub compile_regexp : String → Result Regexp
  -- `jsonPathLanguage.NewEvaluable`
  pub new_evaluable : String → Result Evaluable
  -- `util.NewSafeTemplate(name).Parse(text)`
  pub parse_template : String → String → Result Template
  -- `fmt.Sprintf` at a format with another verb than `%[n]v`
  pub sprintf_other : String → List KeyPart → String
  -- `json.Unmarshal` into an `interface{}`, and `json.Marshal`
  pub unmarshal : Bytes → Result Value
  pub marshal : Value → Result Bytes
  -- `fmt.Sprintf("%v", v)`
  pub format_value : Value → String
  -- `yaml.YAMLToJSON`
  pub yaml_to_json : String → Result String
  -- `evanjsonpatch.DecodePatch`
  pub decode_patch : String → Result Patch
  -- `ctrljsonpatch.CreatePatch`
  pub create_patch : Bytes → Bytes → Result (List JsonPatchOperation)
