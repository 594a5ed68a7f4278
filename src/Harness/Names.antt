-- ===== src/Harness/Names.antt =====
-- The files of the tasks (src-tauri/src/harness/store.rs): one file for each id, under the id of
-- the task that it holds.
use gpt_tools_mcp.Prelude.{String, ◌≡◌, refl, some, List, [], ◌∷◌, arith, All, eq_iff}
use gpt_tools_mcp.Prelude.Assoc.{get, insert, Distinct, Distinct-insert}
use gpt_tools_mcp.Harness.{TaskSession}
use gpt_tools_mcp.Harness.Store.{HarnessStore}
use gpt_tools_mcp.Harness.Trace.{Op, step, run, no_files}
use gpt_tools_mcp.Harness.Effect.{kept, started, rewritten, moved, step-Effect}

abbrev pub Named : List (String × TaskSession) → Type 0
Named ts = All (λ (e : String × TaskSession). e.1.id ≡ e.0) ts

pub record IsWellFormed (s : HarnessStore) : Type 0 where
  pub distinct : Distinct s.tasks
  pub named : Named s.tasks

Named-get :
    (id : String) (t : TaskSession) (ts : List (String × TaskSession))
    → Named ts
    → get id ts ≡ some t
    → t.id ≡ id
unfolding get
Named-get id t [] n h = absurd (cc)
Named-get id t ((j, u) ∷ ts) n h = ground (arith, n, Named-get id t ts n.1, eq_iff j id)

Named-insert :
    (id : String) (t : TaskSession) (ts : List (String × TaskSession))
    → t.id ≡ id
    → Named ts
    → Named (insert id t ts)
unfolding insert
Named-insert id t [] same n = (same, tt)
Named-insert id t ((j, u) ∷ ts) same n = ground (arith, n, Named-insert id t ts same n.1)

pub get-named :
    (id : String) (t : TaskSession) (s : HarnessStore)
    → IsWellFormed s
    → get id s.tasks ≡ some t
    → t.id ≡ id
get-named id t s v h = Named-get id t s.tasks v.named h

inserted :
    (id : String) (t : TaskSession) (s s' : HarnessStore)
    → IsWellFormed s
    → t.id ≡ id
    → s'.tasks ≡ insert id t s.tasks
    → IsWellFormed s'
inserted id t s s' v same e = record {
  distinct = rw e (Distinct-insert id t s.tasks v.distinct);
  named = rw e (Named-insert id t s.tasks same v.named);
}

pub step-IsNamed : (s : HarnessStore) (op : Op) → IsWellFormed s → IsWellFormed (step s op)
step-IsNamed s op v = elim (step-Effect s op) [
  | kept e ↦ record { distinct = rw e v.distinct; named = rw e v.named }
  | started w objective same idle e ↦ inserted w.uuid _ s (step s op) v refl e
  | rewritten id u t here same status e ↦ inserted t.id t s (step s op) v refl e
  | moved w id next u t same here allowed id_same status e ↦ inserted t.id t s (step s op) v refl e
]

pub no_files-IsWellFormed : IsWellFormed no_files
no_files-IsWellFormed = record { distinct = tt; named = tt }

pub run-IsNamed : (s : HarnessStore) (ops : List Op) → IsWellFormed s → IsWellFormed (run s ops)
unfolding run
run-IsNamed s [] v = v
run-IsNamed s (op ∷ ops) v = run-IsNamed (step s op) ops (step-IsNamed s op v)
