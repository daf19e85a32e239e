-- ===== src/Api/Policies.antt =====
-- ResourceIndexPolicy and its parts, and the policy as the indexer caches it.
use search.Prelude.{Str, str_eq, Dict, ℕ, Bool, ◌&&◌, Option, List}
use search.Api.Values.{Json, Fields}

pub record TargetResource : Type 0 where
  pub group : Str
  pub version : Str
  pub kind : Str

pub record PolicyCondition : Type 0 where
  pub name : Str
  pub expression : Str

pub record FieldPolicy : Type 0 where
  pub path : Str
  pub searchable : Bool

pub record PolicySpec : Type 0 where
  pub target_resource : TargetResource
  pub conditions : List PolicyCondition
  pub fields : List FieldPolicy

-- metav1.ConditionStatus
pub data ConditionStatus : Type 0 where
  condition_true condition_false condition_unknown : ConditionStatus

-- metav1.Condition, less the times that the API library maintains
pub record Condition : Type 0 where
  pub type_name : Str
  pub status : ConditionStatus
  pub reason : Str
  pub message : Str

pub record PolicyStatus : Type 0 where
  pub conditions : List Condition
  pub index_name : Str
  pub current_generation : Str

-- The name and the deletion timestamp are all that the program reads of the object's metadata.
pub record Policy : Type 0 where
  pub name : Str
  pub deletion_timestamp : Option ℕ
  pub spec : PolicySpec
  pub status : PolicyStatus

-- A compiled CEL program is what its `Eval` does on an activation: a value, or an error.
abbrev pub Program : Type 0
Program = Fields → Option Json

pub record CachedPolicy : Type 0 where
  pub policy : Policy
  pub conditions : Dict Program

-- What the program asks of the Kubernetes library about an unstructured object: its group, version
-- and kind, its UID ("" if it has none), and whether its deletion timestamp is set.
pub record ObjectApi : Type 0 where
  pub gvk : Fields → TargetResource
  pub uid : Fields → Str
  pub is_terminating : Fields → Bool

abbrev pub same_target : TargetResource → TargetResource → Bool
same_target a b = str_eq a.group b.group && (str_eq a.version b.version && str_eq a.kind b.kind)
