-- ===== src/Document/Tests.antt =====
-- Runs of the document operations against a service in memory, and the theorems at concrete inputs.
use Prim.Native.String.{String}
use text.Mathlib.Text.{◌==◌}
use text.Mathlib.TextEquality.{eq_iff}
use mathlib.Core.Path.{subst}
use rociadb_core_sdk_rust.Prelude.{
  ℕ, ◌+◌, ◌≡◌, refl, ap, ◌≢◌, inl, inr, Option, none, some, List, [], ◌∷◌, ◌++◌, arith,
  if◌then◌else◌, Bool-cases, Option-cases, Result, Action, ok, err, false,
}
use mathlib.Core.Bool.{Bool, true, ◌&&◌}
use rociadb_core_sdk_rust.Duration.{from_secs}
use rociadb_core_sdk_rust.Error.{Error, Source, Status, sent, not_found}
use rociadb_core_sdk_rust.Client.{attempt, attempt_with_replay, RociaDbClient}
use rociadb_core_sdk_rust.Client.Service.{Rpc, Json, PageResponse, send}
use rociadb_core_sdk_rust.Client.Contract.{Answers}
use rociadb_core_sdk_rust.Document.{
  delete_document, DocumentWriteOptions, PutDocRequest, GetDocResponse, Key, DocumentRpcs,
  no_options, with_node_binding, put_document, get_document,
}
use rociadb_core_sdk_rust.Document.Reads.{
  decode_document_page, DocsResponse, ListCollectionsRequest, ListCollectionsResponse,
  list_documents, search_documents, query_documents, list_collections,
}
use rociadb_core_sdk_rust.Document.Writes.{Write, doc_write, node_write, WriteLog}
use rociadb_core_sdk_rust.Document.Pages.{NothingSent, zero_limit-NothingSent}
use rociadb_core_sdk_rust.Document.Store.{
  perform, Store, Steps, Operation, put, get, delete, run, Mark, put_mark, delete_mark, PutsOnce,
}
use rociadb_core_sdk_rust.Document.Store.Server.{read_effect, DocumentServer, ReadsBack, documents}
use rociadb_core_sdk_rust.Document.Store.Runs.{run-Steps, put_document-get_document}

-- What was written, and what the service holds.
abbrev World : Type 0
World = List Write × (Key → Option (List ℕ))

abbrev same_key : Key → Key → Bool
same_key k l = (k.tenant_id == l.tenant_id) && ((k.collection == l.collection) && (k.id == l.id))

same_key_refl : (k : Key) → same_key k k ≡ true
same_key_refl k =
    rw
      (
        (eq_iff k.tenant_id k.tenant_id).1 refl,
        (eq_iff k.collection k.collection).1 refl,
        (eq_iff k.id k.id).1 refl,
      )
      refl

same_key_is : (k l : Key) → same_key k l ≡ true → k ≡ l
same_key_is k l same =
    let t : (k.tenant_id == l.tenant_id) ≡ true = ground arith in
    let c : (k.collection == l.collection) ≡ true = ground arith in
    let i : (k.id == l.id) ≡ true = ground arith in
    let t' : k.tenant_id ≡ l.tenant_id = (eq_iff k.tenant_id l.tenant_id).0 t in
    let c' : k.collection ≡ l.collection = (eq_iff k.collection l.collection).0 c in
    let i' : k.id ≡ l.id = (eq_iff k.id l.id).0 i in rw (t', c', i') refl

abbrev replace : Key → Option (List ℕ) → (Key → Option (List ℕ)) → Key → Option (List ℕ)
replace key o s k = if same_key k key then o else s k

-- A service whose marks have all expired.
abbrev held : World → Store (List ℕ)
held w = record { at = w.1; used = λ m. false }

replace-PutsOnce :
    (mark : Mark) (key : Key) (o : Option (List ℕ)) (before after : List Write)
    (s : Key → Option (List ℕ))
    → PutsOnce mark key o (held (before, s)) (held (after, replace key o s))
replace-PutsOnce mark key o before after s = inl (
  rw (same_key_refl key) refl,
  λ k apart. elim (Bool-cases (same_key k key)) [
    | inl same ↦ absurd (apart (same_key_is k key same))
    | inr other ↦ rw other refl
  ],
  λ m impossible. absurd (cc impossible),
)

-- A method that answers in time.
abbrev answering :
    {Req Resp : Type 0} → (Req → World → Result Status Resp × World) → Rpc World Req Resp
answering f = record {
  call = λ r w. f r.message w;
  deadline = λ t r w. let (answer, w') = f r.message w in (some answer, w');
}

abbrev name_of : PutDocRequest → Key
name_of d = record { tenant_id = d.tenant_id; collection = d.collection; id = d.id }

abbrev no_document : Status
no_document = record {
  code = not_found;
  message = sent "no such document";
  reason_metadata = none;
  sources = [];
}

abbrev found : Option (List ℕ) → Result Status GetDocResponse
found none = err no_document
found (some bytes) = ok (record { json = bytes })

abbrev rpcs : DocumentRpcs World
rpcs = record {
  put_doc =
      answering (λ d w. (ok tt, (w.0 ++ doc_write d ∷ [], replace (name_of d) (some d.json) w.1)));
  get_doc = answering (λ g w.
      (found (w.1 (record { tenant_id = g.tenant_id; collection = g.collection; id = g.id })), w));
  delete_doc = answering (λ d w. (
    ok tt,
    (
      w.0,
      replace (record { tenant_id = d.tenant_id; collection = d.collection; id = d.id }) none w.1,
    ),
  ));
  put_node = answering (λ n w. (ok tt, (w.0 ++ node_write n ∷ [], w.1)));
}

abbrev client : RociaDbClient World
client = record {
  host = "http://127.0.0.1:50051";
  request_timeout = some (from_secs 5);
  max_file_bytes = 1024;
  token_manager = none;
}

abbrev uuid : Action World String
uuid w = ("00000000", w)

-- A number is written as its one byte.
abbrev read_one : List ℕ → Result Source ℕ
read_one (n ∷ []) = ok n
read_one _ = err 7

abbrev numbers : Json ℕ
numbers = record { to_vec = λ n. ok (n ∷ []); from_slice = read_one }

numbers-ReadsBack : ReadsBack numbers
numbers-ReadsBack v bytes made =
    let same : v ∷ [] ≡ bytes = cc made in subst (λ b. read_one b ≡ ok v) same refl

abbrev write_log : WriteLog client rpcs uuid
write_log = record {
  log = λ w. w.0;
  doc_recorded = record { call_logs = λ r w. refl; deadline_logs = λ t r w. refl };
  node_recorded = record { call_logs = λ r w. refl; deadline_logs = λ t r w. refl };
  refresh_apart = λ m w on. absurd (ground arith);
  uuid_apart = λ w. refl;
}

get_lem : (key : Key) (w : World) → Answers (read_effect held key) w (some (found (w.1 key))) w
get_lem key w = elim (Option-cases (w.1 key)) [
  | inl missing ↦ rw missing (λ k. refl, λ m u. u)
  | inr (bytes, is) ↦ rw (is, found) (is, (λ k. refl, λ m u. u))
]

abbrev server : DocumentServer client rpcs uuid
server = record {
  docs = held;
  puts = λ d. record {
    called = λ t w.
        replace-PutsOnce (put_mark (name_of d) d.request_id) (name_of d) (some d.json) w.0
          (w.0 ++ doc_write d ∷ []) w.1;
    timed = λ t w.
        replace-PutsOnce (put_mark (name_of d) d.request_id) (name_of d) (some d.json) w.0
          (w.0 ++ doc_write d ∷ []) w.1;
    refreshed = λ m w on. absurd (ground arith);
  };
  gets = λ g. record {
    called =
        λ t w. get_lem (record { tenant_id = g.tenant_id; collection = g.collection; id = g.id }) w;
    timed =
        λ t w. get_lem (record { tenant_id = g.tenant_id; collection = g.collection; id = g.id }) w;
    refreshed = λ m w on. absurd (ground arith);
  };
  deletes = λ d. record {
    called = λ t w.
        replace-PutsOnce
          (delete_mark (record { tenant_id = d.tenant_id; collection = d.collection; id = d.id })
            d.request_id)
          (record { tenant_id = d.tenant_id; collection = d.collection; id = d.id }) none w.0 w.0
          w.1;
    timed = λ t w.
        replace-PutsOnce
          (delete_mark (record { tenant_id = d.tenant_id; collection = d.collection; id = d.id })
            d.request_id)
          (record { tenant_id = d.tenant_id; collection = d.collection; id = d.id }) none w.0 w.0
          w.1;
    refreshed = λ m w on. absurd (ground arith);
  };
  nodes = λ n. record {
    called = λ t w. (λ k. refl, λ m u. u);
    timed = λ t w. (λ k. refl, λ m u. u);
    refreshed = λ m w on. absurd (ground arith);
  };
  draws = λ w. (λ k. refl, λ m u. u);
}

abbrev key : Key
key = record { tenant_id = "t"; collection = "people"; id = "ann" }

abbrev other : Key
other = record { tenant_id = "t"; collection = "people"; id = "bob" }

abbrev start : World
start = ([], λ k. none)

abbrev in_graph : DocumentWriteOptions
in_graph = with_node_binding (record { label = "person"; graph = "social" }) no_options

abbrev link : String → String → Result Source (List ℕ)
link collection id = ok (123 ∷ 125 ∷ [])

abbrev between : List (Operation ℕ)
between = put other 5 no_options ∷ get other ∷ delete other (record { request_id = none }) ∷ []

abbrev script : List (Operation ℕ)
script = put key 4 in_graph ∷ get key ∷ delete key (record { request_id = none }) ∷ get key ∷ []

run-Steps_example :
    let (events, w) = run client rpcs uuid numbers link script start in
    Steps (documents numbers held start) events (documents numbers held w)
run-Steps_example = run-Steps client rpcs uuid numbers server numbers-ReadsBack link script start

abbrev number_of : Result Error ℕ → ℕ
number_of (ok n) = n
number_of (err e) = 0

abbrev read_after : ℕ
read_after =
    let (answer, w1) = put_document client rpcs uuid numbers link key 4 in_graph start in
    let (events, w2) = run client rpcs uuid numbers link between w1 in
    number_of (get_document client rpcs uuid numbers key w2).0

apart : key ≢ other
apart same =
    let told : ("ann" == "bob") ≡ true = (eq_iff "ann" "bob").1 (ap (λ k. k.id) same) in
    absurd (ground arith)

put_document-get_document_example : read_after ≡ 4
unfolding run perform put_document get_document delete_document send attempt_with_replay attempt
put_document-get_document_example =
    put_document-get_document client rpcs uuid numbers server numbers-ReadsBack link key 4
      read_after in_graph between start refl refl (apart, (tt, (apart, tt))) refl

abbrev label : ℕ → Source → Source
label index e = 100 + index

abbrev page : Option PageResponse
page = some (record { next_cursor = "" })

second_unread : decode_document_page numbers label ((3 ∷ []) ∷ [] ∷ (5 ∷ []) ∷ []) page ≡ err 101
unfolding decode_document_page
second_unread = refl

-- A listing that answers with one document.
abbrev one : {Req : Type 0} → Rpc World Req DocsResponse
one =
    answering (λ request w. (ok (record { json = (3 ∷ []) ∷ []; page = none; total_count = 1 }), w))

abbrev no_collections : Rpc World ListCollectionsRequest ListCollectionsResponse
no_collections = answering (λ request w. (ok (record { collections = []; page = none }), w))

zero_limit-NothingSent_example :
    NothingSent (list_documents client numbers label one "t" "people" (some 0) none) start
    × NothingSent
        (search_documents client numbers label numbers one "t" "people" "age" 3 (some 0) none)
        start
    × NothingSent
        (query_documents client numbers label numbers one "t" "people" [] [] (some 0) none)
        start
    × NothingSent (list_collections client no_collections "t" (some 0) none) start
zero_limit-NothingSent_example =
    zero_limit-NothingSent client numbers label numbers one one one no_collections "t" "people"
      "age" 3 [] [] none start

-- The document is written before its node.
both_written :
    (put_document client rpcs uuid numbers link key 4 in_graph start).1.0
    ≡ doc_write (record {
      tenant_id = "t";
      collection = "people";
      id = "ann";
      json = 4 ∷ [];
      request_id = "put_document:people:00000000";
    })
      ∷ node_write (record {
        tenant_id = "t";
        graph = "social";
        node_id = "person:ann";
        json = 123 ∷ 125 ∷ [];
        request_id = "put_document:people:00000000";
      })
      ∷ []
unfolding put_document send attempt_with_replay attempt
both_written = refl
