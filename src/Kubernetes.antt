-- ===== src/Kubernetes.antt =====
-- What the webhooks call of the Kubernetes libraries: the client, the accessors of unstructured
-- objects and their JSON. The parameter `k : Kubernetes` stands for these.
use kubemod.Prelude.{String, Bool, Option, List, Result, Error}
use kubemod.Prelude.Dict.{Dict}
use kubemod.Json.{Fields}
use kubemod.Library.{Bytes, JsonPatchOperation}

pub record Kubernetes : Type 0 where
  -- `json.Unmarshal` into an `unstructured.Unstructured`, and `json.Marshal` of one
  pub decode : Bytes → Result Fields
  pub encode : Fields → Result Bytes
  -- `unstructured.NestedString`: the text, whether it was found, and the error
  pub nested_string : Fields → List String → String × Bool × Option Error
  -- `SetManagedFields(nil)`
  pub drop_managed_fields : Fields → Fields
  -- `GetAnnotations` and `SetAnnotations`; `none` is a nil map
  pub get_annotations : Fields → Option (Dict String)
  pub set_annotations : Option (Dict String) → Fields → Fields
  -- `client.Get` of a Namespace, of a Node, and of a Pod by namespace and name
  pub get_namespace : String → Result Fields
  pub get_node : String → Result Fields
  pub get_pod : String → String → Result Fields
  -- `client.Update` of a Pod
  pub update_pod : Fields → Option Error

-- `admission.Response`.
pub data Response : Type 0 where
  allowed : String → Response
  denied : String → Response
  patched : String → List JsonPatchOperation → Response
