-- ===== src/Lib.antt =====
-- QualityCI: the decision of a run, from a case to its verdict, and what is built on it.
--
-- QualityCI checks an engineering change against the controlled documents that it affects. A case
-- (the change event and its documents) is validated, an impact plan is built from the event, seven
-- rules each give a finding, and the verdict of the run is taken from the findings. A finding is
-- PASS, CONTRADICTED or UNVERIFIABLE. The workflow takes a resolution of a case through its approvals
-- and replays the resolved case; a replay that passes makes a baseline. The store keeps an audit log
-- whose rows are linked by hashes, and the evaluation scores the rules on a benchmark of mutations.
--
-- The parts, and the code they model:
--   Case          a case of schema 0.4 as typed records, and document_by_type
--                 (src/qualityci/loader.py). Case/Numbers: the numbers of a specification, as dyadic
--                 fractions with the exact order.
--   Text          normalized_identity and relationship_key (src/qualityci/loader.py).
--   Model, Run    CheckStatus, EvidenceRef, Finding, ImpactPlan, RunResult with the checks of its
--                 constructor, and to_dict in Run/Same (src/qualityci/models.py).
--   Loader        validate_case (src/qualityci/loader.py): Checks has the small checks, Event the
--                 migrations' records and the event, Documents the documents, Validate the whole;
--                 Validate/Approved has what a valid case is known to have. Mutation has _set_nested and
--                 _delete_nested.
--   Impact        build_impact_plan (src/qualityci/impact.py); Scope compares it with the event.
--   Rules         the rules (src/qualityci/rules.py). Evidence, Index and Scope have their helpers;
--                 ProcessCoverage is R001, SpecConsistency R002, SpecialControl R003, RevisionDates
--                 R004, References R005, ValidationEvidence R006 and HighRiskApproval R007. The
--                 modules Passes say when a rule passes, the modules Sealed what it does without a
--                 sealed context.
--   Engine        _overall_status, _evaluate_case, run_case and _run_case_with_reference_context
--                 (src/qualityci/engine.py); Verdict, Sealed, Nulls, Total and Sound have the theorems.
--   Ingestion     _column_label and _column_number (src/qualityci/ingestion.py). The loop has the
--                 column number as fuel, and each round at least lowers the number.
--   Workflow      the gate of a resolution (src/qualityci/workflow.py). Approvals has _approved_roles and
--                 _validate_resolution_approvals, Operations the operations with their paths
--                 (validate_resolution_operation_paths is of src/qualityci/revision_artifacts.py), Attest
--                 _attest_approved_resolution, and Replay _replay_attested_resolution and
--                 _replay_with_validated_native_approval. Bound, Native, Paths, Authorized, Baseline and
--                 Admitted have the theorems. Json is the type of the values.
--   Store         the store (src/qualityci/store.py). Audit is the audit log, _append_audit and
--                 _verify_audit_chain_impl, with Linked, Sealed, Extended and Grown for its theorems. Rows
--                 has the rows of the tables, _entity_for_audit and _business_keys, Tables the columns
--                 and the unique columns of the schema. Save has the call that inserts a row or
--                 compares it and records it, Save/Entities the _save_*_entity calls, Save/Runs
--                 _save_case, _save_run and _save_run_validation_link, and Save/Replay the part of
--                 _save_native_replay_transaction that writes. Covered, Verified, Kept, Shared,
--                 Unique, Recomputed, Stored, Committed and Single have the theorems.
--   Approval      Subject has the subjects and Approval the assertions (src/qualityci/approval_subject.py),
--                 with the record of a context that a binding names
--                 (src/qualityci/authorization_records.py); Joined, Authorized and Built have the
--                 theorems.
--   Evaluation    _ratio, _validate_truth_vector and the loop of evaluate_benchmark
--                 (src/qualityci/evaluation.py); Sets, Counts and Bounds have the theorems.
--   Prelude       tests, lists, results, dictionaries, sorting and equalities of records that the
--                 parts share.
--   Examples      a small case that passes, a resolution of it, a benchmark, audit logs, a JSON value, a
--                 database with a replay, and approvals, with the theorems at them.
--
-- How the code is modelled. What raises is a Result with the message, or a Boolean for the
-- constructor of RunResult. A Python dictionary that is built by assignment is an association
-- list in insertion order, in which an assignment to a key replaces its entry. The loops are
-- folds and recursion on lists; only the loop of _column_label has fuel. An
-- explicit null of process_steps or affected_links, which validate_case accepts, is `none`, and the run
-- that reads it is an error with the message TypeError. Dates are day numbers
-- and instants are numbers of one time unit, since only their order is read. A rule of the
-- source builds its mismatch lists for a text and tests whether they are empty; the model keeps
-- the test.
--
-- What is a parameter. The Unicode operations of Python (NFKC, strip, split, casefold) are the record
-- TextOps, and no property assumes anything of them. SHA-256 over canonical JSON is the record Hashes.
-- A sealed context is an argument of the rules with a Boolean for the seal, since the code that seals
-- one stands in other modules. The gate takes as Services the code of other modules that it calls: the
-- preparation of the contexts, the rebuilding of the resolved case, the validation policy, the hash of
-- a subject. The audit log takes SHA-256, the reading of a payload, the row that an action names with
-- its fingerprint, and the tests of its content; the hash has to give digests without a bar only for
-- the theorem on the last hash. The store takes as Database the NOT NULL, CHECK and foreign key
-- constraints of SQLite, SHA-256, and the JSON of a payload, which a theorem on verification has to read
-- back; the comparisons that a replay makes with its contexts are a Boolean. Approvals take SHA-256, the
-- parser of RFC 3339, str.lower and the state of a case source. The evaluation takes the run of a
-- mutation. The metrics are quotients of natural numbers, where the source rounds to a float.
--
-- What is not modelled. Titles, summaries, excerpts, remediation and acceptance texts, and
-- reasoning_path: no decision reads them. The tests that a JSON value has the right shape are
-- the types of the records. The migrations of legacy cases and of stores, the source-rooted entry points,
-- the source-assured replay and the native approval records of the workflow, the sets of raw bytes that a
-- store stages (artifacts, controlled references, validation evidence, authorization records), the tests
-- before the first write of a replay, the semantic tests of stored rows, derive_approval_subject, the
-- signatures, the orchestration, the case builder, the rest of the ingestion of spreadsheets, the command
-- line and the web demo are not modelled.
pub mod Prelude
pub mod Text
pub mod Case
pub mod Model
pub mod Rules
pub mod Impact
pub mod Loader
pub mod Run
pub mod Engine
pub mod Json
pub mod Workflow
pub mod Evaluation
pub mod Store
pub mod Approval
pub mod Ingestion
pub mod Examples
