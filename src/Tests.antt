-- ===== src/Tests.antt =====
-- Concrete data, and the theorems applied to it.
pub mod Buffer
pub mod Flights
pub mod Indexer
pub mod Reindexer
pub mod Search
pub mod Tenants
pub mod Client
pub mod Kinds
pub mod Rules
pub mod Reconciler
pub mod Statuses
pub mod Commands
use search.Prelude.{Str, lit, ok, err, true, false, none, some, [], ◌∷◌}
use search.Api.{
  Json, bool, str, obj, Fields, no_fields, field, TargetResource, condition_true, Condition, Policy,
  CachedPolicy, ObjectApi,
}
use search.Batcher.{UpsertOp, DeleteOp, Msg, BatchConfig, Batcher, new_batcher}
use search.Evaluation.{api_version}
use search.PolicyCache.{PolicyCache, Libraries}
use search.Consumer.{AuditEvent}
use search.Batcher.Flush.{SearchClient}

abbrev pub small_config : BatchConfig
small_config = record {
  batch_size = 2;
  flush_interval = 5;
  max_concurrent_uploads = 0;
  max_in_flight_flushes = 1;
  ack_progress_interval = 0;
}

abbrev pub empty_batcher : Batcher
empty_batcher = new_batcher small_config

abbrev pub first_msg : Msg
first_msg = record { id = 1; stream_seq = some 7 }

abbrev pub second_msg : Msg
second_msg = record { id = 2; stream_seq = some 8 }

abbrev pub pods : Str
pods = lit "v1_pod"

abbrev pub pod_doc : Json
pod_doc = obj (field (lit "uid") (str (lit "a")) no_fields)

abbrev pub pod_upsert : UpsertOp
pod_upsert = record { index_uid = pods; doc = pod_doc }

abbrev pub pod_delete : DeleteOp
pod_delete = record { index_uid = pods; doc_id = lit "b" }

-- A client that takes everything as one task, which finishes.
abbrev pub willing_client : SearchClient
willing_client = record {
  add_documents_async = λ i docs. ok (1 ∷ []);
  delete_documents_async = λ i ids. ok (2 ∷ []);
  wait_for_tasks = λ tasks. ok none;
}

abbrev pub secret_target : TargetResource
secret_target = record { group = []; version = lit "v1"; kind = lit "Secret" }

-- Every object is a living Secret with the UID "s1".
abbrev pub secret_api : ObjectApi
secret_api = record { gvk = λ o. secret_target; uid = λ o. lit "s1"; is_terminating = λ o. false }

abbrev pub secret_object : Fields
secret_object = field (lit "uid") (str (lit "s1")) (field (lit "data") (obj no_fields) no_fields)

abbrev pub ready_condition : Condition
ready_condition = record {
  type_name = lit "Ready";
  status = condition_true;
  reason = [];
  message = [];
}

abbrev pub secret_policy : Policy
secret_policy = record {
  name = lit "secrets";
  deletion_timestamp = none;
  spec = record {
    target_resource = secret_target;
    conditions = record { name = lit "c"; expression = lit "true" } ∷ [];
    fields = [];
  };
  status = record {
    conditions = ready_condition ∷ [];
    index_name = lit "v1_secret";
    current_generation = [];
  };
}

-- A compiler that takes nothing, and one that takes everything as a program that holds.
abbrev pub refusing_compiler : Libraries
refusing_compiler = record {
  compile = λ s. err (lit "syntax error");
  is_status_condition_true = λ cs t. true;
}

abbrev pub taking_compiler : Libraries
taking_compiler = record {
  compile = λ s. ok (record { output_is_bool = true; program = ok (λ act. some (bool true)) });
  is_status_condition_true = λ cs t. true;
}

abbrev pub secret_cached : CachedPolicy
secret_cached = record {
  policy = secret_policy;
  conditions = (lit "c", λ act. some (bool true)) ∷ [];
}

abbrev pub secret_cache : PolicyCache
secret_cache = record {
  policies = (lit "secrets", secret_cached) ∷ [];
  require_ready_condition = true;
}

-- An audit event on the Secret, with the given verb.
abbrev pub audit_event : Str → AuditEvent
audit_event verb = record {
  audit_id = lit "e1";
  verb = verb;
  annotations = [];
  object_ref = record {
    api_group = [];
    api_version = lit "v1";
    resource = lit "secrets";
    name = lit "s";
    namespace = lit "default";
    uid = lit "s1";
  };
  response_object = some secret_object;
}
