-- ===== src/Document/Retried/Tests.antt =====
-- A document write that is retried against a service which is busy at first.
use rociadb_core_sdk_rust.Prelude.{
  ℕ, ◌≡◌, refl, Option, none, some, List, [], ◌∷◌, ◌++◌, arith, ltb, if◌then◌else◌, length, Result,
  Action, ok, err,
}
use Prim.Native.String.{String}
use rociadb_core_sdk_rust.Duration.{Duration, from_secs}
use rociadb_core_sdk_rust.Error.{Error, Source, Status, sent, aborted}
use rociadb_core_sdk_rust.Client.{RociaDbClient, attempt, attempt_with_replay, kept_for_replay}
use rociadb_core_sdk_rust.Client.Service.{Rpc, Json, send}
use rociadb_core_sdk_rust.Retry.{
  new, retry, retry_from, attempts, should_retry, delay, full_jitter, delay_ceiling,
  jitter_numerator,
}
use rociadb_core_sdk_rust.Document.{
  Key, DocumentRpcs, DocumentWriteOptions, no_options, new_binding, with_node_binding, put_document,
}
use rociadb_core_sdk_rust.Document.Writes.{Write, doc_write, node_write, WriteLog}
use rociadb_core_sdk_rust.Document.Retried.{attempt_of}

-- What the service was sent.
abbrev World : Type 0
World = List Write

-- A method that answers in time.
abbrev answering :
    {Req Resp : Type 0} → (Req → Action World (Result Status Resp)) → Rpc World Req Resp
answering f = record {
  call = λ r w. f r.message w;
  deadline = λ t r w. let (answer, w') = f r.message w in (some answer, w');
}

abbrev conflict : Status
conflict = record {
  code = aborted;
  message = sent "write conflict, retry";
  reason_metadata = none;
  sources = [];
}

-- The first two writes of a node meet a conflict.
abbrev rpcs : DocumentRpcs World
rpcs = record {
  put_doc = answering (λ d w. (ok tt, w ++ doc_write d ∷ []));
  get_doc = answering (λ g w. (err conflict, w));
  delete_doc = answering (λ d w. (ok tt, w));
  put_node =
      answering (λ n w. (if ltb (length w) 4 then err conflict else ok tt, w ++ node_write n ∷ []));
}

abbrev client : RociaDbClient World
client = record {
  host = "http://127.0.0.1:50051";
  request_timeout = some (from_secs 5);
  max_file_bytes = 1024;
  token_manager = none;
}

abbrev uuid : Action World String
uuid w = ("00000000", w)

abbrev numbers : Json ℕ
numbers = record { to_vec = λ n. ok (n ∷ []); from_slice = λ bytes. err 7 }

abbrev link : String → String → Result Source (List ℕ)
link collection id = ok []

abbrev key : Key
key = record { tenant_id = "acme"; collection = "invoices"; id = "7" }

abbrev bound_options : DocumentWriteOptions
bound_options = with_node_binding (new_binding "invoice" "links") no_options

abbrev new_v4 : Action World (List ℕ)
new_v4 w = ([], w)

abbrev sleep : Duration → World → World
sleep d w = w

abbrev write_log : WriteLog client rpcs uuid
write_log = record {
  log = λ w. w;
  doc_recorded = record { call_logs = λ r w. refl; deadline_logs = λ t r w. refl };
  node_recorded = record { call_logs = λ r w. refl; deadline_logs = λ t r w. refl };
  refresh_apart = λ m w on. absurd (ground arith);
  uuid_apart = λ w. refl;
}

abbrev the_attempt : Action World (Result Error (Unit {0}))
the_attempt = attempt_of client rpcs uuid numbers link key 4 "job-1" bound_options

-- How many writes there were, by their kind.
abbrev kinds : List Write → List ℕ
kinds [] = []
kinds (doc_write d ∷ rest) = 0 ∷ kinds rest
kinds (node_write n ∷ rest) = 1 ∷ kinds rest

abbrev summary : Option (Result Error (Unit {0}) × World) → List ℕ
summary none = 9 ∷ []
summary (some (ok u, w)) = kinds w
summary (some (err e, w)) = 8 ∷ kinds w

third_time_stored :
    summary (retry (record { op = the_attempt; new_v4 = new_v4; sleep = sleep }) new [])
    ≡ 0 ∷ 1 ∷ 0 ∷ 1 ∷ 0 ∷ 1 ∷ []
unfolding put_document send attempt attempt_with_replay retry retry_from attempts should_retry delay
    full_jitter delay_ceiling jitter_numerator kept_for_replay
third_time_stored = refl
