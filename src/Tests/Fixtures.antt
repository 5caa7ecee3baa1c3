-- ===== src/Tests/Fixtures.antt =====
-- A library, a cluster and a few rules to run the model on.
use mathlib.Core.List.Permᴰ
use kubemod.Prelude.{
  String, ◌==◌, false, Option, none, some, [], ◌∷◌, if◌then◌else◌, Result, ok, err,
}
use kubemod.Prelude.Int16.{pos}
use kubemod.Json.{Value, undefined, string, array, nil, cons, object, end, field, get_field}
use kubemod.Library.{Library, Bytes, Evaluable, Regexp, Template, Patch}
use kubemod.Api.{MatchItem, ModRule}
use kubemod.Kubernetes.{Kubernetes}
use kubemod.Item.{ModRuleStoreItem}
use kubemod.Store.{Sort, ModRuleStore, new_mod_rule_store}
use kubemod.Store.Contents.{Rearranges}
use kubemod.DryRun.{Tools}

abbrev pub pod : Value
pod = object (
    field "kind" (string "Pod")
      (field "images" (array (cons (string "nginx") (cons (string "redis") nil))) end))

abbrev or_undefined : Option Value → Value
or_undefined none = undefined
or_undefined (some v) = v

-- A query is the name of a field.
unfoldable pub query : String → Evaluable
unfolding get_field
query name (object fs) = ok (or_undefined (get_field name fs))
query name v = err "not an object"

abbrev compile : String → Result Evaluable
compile text = if text == "" then err "empty query" else ok (query text)

abbrev compile_exact : String → Result Regexp
compile_exact text = if text == "(" then err "missing )" else ok (λ s. s == text)

abbrev pub constant : String → Template
constant text = λ context. ok text

-- A patch that changes nothing.
abbrev pub same : Patch
same = λ doc. (doc, none)

abbrev read : Bytes → Result Value
read none = err "unexpected end of JSON input"
read (some text) = ok pod

abbrev pub lib : Library
lib = record {
  compile_regexp = compile_exact;
  new_evaluable = compile;
  parse_template = λ name text. ok (constant text);
  sprintf_other = λ format arguments. format;
  unmarshal = read;
  marshal = λ v. ok (some "{}");
  format_value = λ v. "map[]";
  yaml_to_json = λ text. ok text;
  decode_patch = λ text. ok same;
  create_patch = λ original modified. ok [];
}

abbrev pub sort : Sort
sort = λ before items. items

pub rearranges : Rearranges sort
rearranges items = Permᴰ.refl items

abbrev pub runs_nginx : MatchItem
runs_nginx = record {
  select = "images";
  match_for = "Any";
  match_value = some "nginx";
  match_values = [];
  match_regex = none;
  negate = false;
}

abbrev pub no_nginx : ModRule
no_nginx = record {
  namespace = "default";
  name = "no-nginx";
  spec = record {
    type = "Reject";
    execution_tier = pos 3;
    admission_operations = "CREATE" ∷ [];
    match = runs_nginx ∷ [];
    patch = [];
    reject_message = some "nginx is not allowed";
    target_namespace_regex = none;
  };
}

abbrev pub no_nginx_item : ModRuleStoreItem
no_nginx_item = record {
  mod_rule = no_nginx;
  compiled_target_namespace_regex = none;
  compiled_match_selects = (0, query "images") ∷ [];
  compiled_regexes = [];
  compiled_json_patch = [];
  reject_message_template = some (constant "nginx is not allowed");
}

abbrev pub add_label : ModRule
add_label = record {
  namespace = "default";
  name = "add-label";
  spec = record {
    type = "Patch";
    execution_tier = pos 0;
    admission_operations = "CREATE" ∷ [];
    match = runs_nginx ∷ [];
    patch =
        record {
          operation = "add";
          select = none;
          path = "/metadata/labels/web";
          value = some "nginx";
        }
        ∷ [];
    reject_message = none;
    target_namespace_regex = none;
  };
}

-- The expression for the target namespaces does not compile.
abbrev pub bad_regex : ModRule
bad_regex = record no_nginx { spec = record no_nginx.spec { target_namespace_regex = some "(" } }

abbrev pub empty : ModRuleStore
empty = new_mod_rule_store "kubemod-system"

abbrev pub k : Kubernetes
k = record {
  decode = λ raw. ok end;
  encode = λ fs. ok (some "{}");
  nested_string = λ fs path. ("", false, none);
  drop_managed_fields = λ fs. fs;
  get_annotations = λ fs. none;
  set_annotations = λ annotations fs. fs;
  get_namespace = λ name. ok end;
  get_node = λ name. ok end;
  get_pod = λ namespace name. ok end;
  update_pod = λ fs. none;
}

abbrev pub tools : Tools
tools = record {
  json_to_yaml = λ doc. ok doc;
  marshal_yaml = λ v. ok (some "");
  diff = λ a b. ok "";
  invalid = λ name errors. "invalid";
}
