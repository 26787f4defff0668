-- ===== src/Lib.antt =====
-- The evidence control plane: signed records of what agents did, and what may be claimed from
-- them.
--
-- The program takes signed evidence records (sdk_python/evidence), emitted by clients that
-- buffer them locally (sdk_python/client), links them in streams that a verifier checks,
-- reconciles the population of a destination system against them, evaluates human oversight and
-- computes the coverage of a window (services/computation), under the denominator class that
-- qualification records put in force (services/admin). Each part is a module here:
--
-- - Prelude: shared names; results for exceptions, key equality, integers, lists, sets, dicts
--   in insertion order, and Python's stable sort with its laws.
-- - Evidence.Schema (sdk_python/evidence/schema.py): the validated records with the members
--   that the other parts read.
-- - Evidence.Origin (sdk_python/evidence/origin.py): `primary_signer_namespace`.
-- - Evidence.Signing (sdk_python/evidence/signing.py): the members of a signature and
--   `verify_record_signature`, which a stream's verification calls; in
--   Evidence.Signing.Producing `sign_record`, `counter_sign_attestation` and
--   `verify_attestation_signatures`. `Crypto` holds what it takes from elsewhere: Ed25519,
--   SHA-256, base64, and the canonical bytes of a rendered record, whole or without its
--   signature, which is what is signed. Evidence.Signing.Proven says what a verification has
--   checked.
-- - Evidence.Chain, Evidence.Chain.Continuity, Evidence.Chain.Stream
--   (sdk_python/evidence/chain.py): `create_key_continuity`, `verify_key_continuity`,
--   `_signature_key_id`, `_fork_checked_records`, `_verify_stream` as `verify_evidence_stream`,
--   and `verify_evidence_streams`. An error carries its class, the sequence of the break, the
--   last valid sequence, the gap and whether an attestation is still permitted; the stream it
--   names is that of the records.
-- - Evidence.Instants (sdk_python/evidence/instants.py): `parse_instant`, over the groups of
--   its pattern; the pattern's match and the calendar of `datetime` are parameters.
-- - Evidence.Revocation (sdk_python/evidence/revocation.py and versions.py, with
--   `verify_canonical_evidence_record` of services/ingestion/receipts.py): `_authenticate`,
--   `classify_revocation`, `check_revocation`; the answer of the endpoint is an input, and the
--   parsing of a record a parameter.
-- - Evidence.Samples: toy cryptography, with which the tests run.
-- - Connectors.Capabilities, Connectors.Enumeration (services/connectors/base.py): what a
--   connector declares, and `enumerate_for_window_coverage` with `_check_truncation_and_lag`.
--   The values of JSON and the reading of times are parameters; what `enumerate` returns
--   belongs to the connector.
-- - Client, Client.Emission, Client.Flush (sdk_python/client: client.py, buffer.py, gaps.py,
--   records.py): `emit` with `_author`, `_deliver`, `_buffer_or_gap` and `_emit_gap`, and
--   `flush`, on a `World` of the client's state and the records that ingestion has accepted.
--   Signing is a parameter; the clock's readings, the identifiers made and the end of each
--   submission are inputs.
-- - Admin.Rbac (services/admin/rbac.py): `from_roles`, `authorize`.
-- - Admin.Qualification (services/admin/qualification.py): the class lattice,
--   `governing_qualification`, `class_in_force`, `assert_class_claimable`.
-- - Computation.Reconciliation (services/computation/reconciliation.py):
--   `_accepted_identifiers`, `_indexes`, `_duplicate_identifiers`, `_classify`, `reconcile`.
-- - Computation.Coverage (services/computation/coverage.py): `compute_coverage`. Inputs holds
--   the boundary, the evidence and the gaps; Intervals the merged gaps and the covered
--   complement; Validation the scope, the results, the counts and the ratio's state; Facts what
--   bound records say of an action; Numerator the gap actions and the count; Report puts them
--   together. A ratio counts ten-thousandths: the quotient of `decimal` at 28 digits, rounded
--   down to four places, is that of the numbers below 10 ^ 24 that a population has.
-- - Ingestion.Receipts, Ingestion.Origin (services/ingestion/receipts.py): receipts with their
--   clock skew, and the role of a record's primary signature. `Formats` holds the texts of
--   times and the JSON of a payload.
-- - Attestation.Store, Attestation.Lifecycle (services/attestation/lifecycle.py and schema.py):
--   the two tables and `record_attestation`, `_record_transition`, `_deliver_notifications`,
--   `revoke_attestation`, `supersede_attestation` and `attestation_status`. The tables keep
--   their primary and unique keys, the references to `boundaries` and to `attestations`, and on
--   `revocations` the reason of a supersession and the trigger of
--   migrations/versions/0015_attestation_lifecycle.py; the references to `keys`, which are
--   looked up before, and the other checks of one row are left out. A transaction is a function
--   of the store; the new identifier and the time that it reads are inputs; `uuid` and the JSON
--   of records are the operations of `Codec`.
-- - Computation.Oversight (services/computation/oversight.py): `evaluate_review`,
--   `evaluate_oversight`.
--
-- An exception is an `err` of a data type with a constructor for each place that raises;
-- messages are left out. An instant is a number of microseconds, or of nanoseconds in
-- Evidence.Instants. A dict is an association list in insertion order, a set a list without
-- repetitions. Loops are recursions on the lists that they walk, so no definition needs fuel.
--
-- Not modelled: the ledger's database beside the two tables of the lifecycle, with its other
-- migrations, HTTP, task queues and user interfaces, which only carry records; canonical JSON
-- and Ed25519, which the records' signatures rest on; the validation of records by pydantic;
-- evidence bundles, the issuance of attestations, boundary versions, the population service and
-- the ingestion service, which compose the parts above; the vendor's connector.
pub mod Prelude
pub mod Admin
pub mod Computation
pub mod Evidence
pub mod Client
pub mod Ingestion
pub mod Attestation
pub mod Connectors
