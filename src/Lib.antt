-- ===== src/Lib.antt =====
-- Layerrail builds a repository's commit into an artifact and deploys it. A control plane (Ruby)
-- emits events; the services in Python act on them. This library models the services' own logic.
--
-- The build controller (services/build_controller/build_controller) claims a command from the
-- control plane, writes a row for the build, starts a Kubernetes job with a clone credential and a
-- registry credential, takes the result that the job's worker posts, and reconciles the rows: it
-- observes jobs, scans artifacts, uploads evidence, reports to the control plane and cleans up.
--   Build/Contracts  contracts.py: BuildCommand, CancelCommand, WorkerResult and their canonical
--     values
--   Build/Store      store.py: Operation, the table of operations and the archives beside it; the
--     methods of OperationStore in Build/Store/Methods and Build/Store/Pending, under their names
--   Build/World      the environment: the services that clients.py, kubernetes.py, scanner.py and
--     provenance.py call
--   Build/Commands   controller.py: run_command_once, _dispatch, _cancel, accept_result
--   Build/Reconciler controller.py: reconcile_once, _observe_job, _process_result and the helpers
-- A method of the store is a function from a table to an answer or an exception, and a table. The
-- controller's methods run in the same way over a World: the store, the number of calls made and
-- their trace. The answer to a call is given by the environment for the step at which it is made,
-- so a theorem about any environment covers every answer, exception and order of failures. The
-- methods of the store run one at a time, as its lock and its transactions have it; the controller's
-- two loops are not interleaved in the model, but each method of the store checks the status itself.
--
-- The local provider (apps/local_provider/local_provider) runs deployments of one sample image on a
-- developer's Docker: it takes events from the control plane, once each, and writes the routes of
-- aliases.
--   Provider/State     state.py: StateStore, its four tables, and the exceptions
--   Provider/Routes    routing.py: RouteWriter
--   Provider/Logs      logs.py: RuntimeLogFormatter
--   Provider/Local     the environment: runtime.py, control_plane.py, the clock and Python's own
--     functions on values of any form
--   Provider/Checks, Provider/Processor processor.py: Processor
-- The registry's authentication (services/registry_auth/registry_auth) keeps credentials that live
-- for an hour at most and exchanges them for tokens.
--   Registry/Names, Registry/Credentials store.py: CredentialStore
--   Registry/Tokens      tokens.py: TokenIssuer.issue
-- The artifact gateway (services/artifact_gateway/artifact_gateway) stores static sites and evidence
-- under keys that are written once, serves them, and deletes old revisions.
--   Artifacts/Store      storage.py: the interface ObjectStore, and the laws that its clients rely on
--   Artifacts/Paths, Artifacts/Media, Artifacts/Keys, Artifacts/Archives artifacts.py: _path, _uuid,
--     _media_type, _cache_control, the keys of objects, and _extract
--   Artifacts/Gateway    artifacts.py: publish_static, static_manifest, static_file, put_evidence and
--     evidence
--   Artifacts/Retention  artifacts.py: reconcile
--   Artifacts/History    sequences of these calls
-- The gateway is a client of any ObjectStore that keeps its laws; Artifacts/Memory is the store of
-- its tests, which keeps them, and Artifacts/Codec a codec of manifests that reads what it writes.
--
-- The web application's deployments (app): the service, the jobs of the workers and the monitor act
-- on the same rows.
--   Deploy/Model     models.py: Deployment, Project, Alias, and the database with the queue of jobs
--     and the streams of events
--   Deploy/Aliases   deployment.py and models.py: get_alias_domains, setup_aliases and
--     Alias.update_or_create
--   Deploy/Rollback, Deploy/Status, Deploy/Routes services/deployment.py: rollback; update_status and
--     cancel; update_traefik_config
--   Deploy/Variables models.py and deployment.py: get_env_vars and get_runtime_env_vars
--   Deploy/Environments models.py: has_active_environment_with_slug, create_environment,
--     update_environment and delete_environment; the identity of token_hex is an argument
--   Deploy/Jobs      workers/tasks/deployment.py and workers/monitor.py: finalize_deployment,
--     fail_deployment, delete_container, cleanup_inactive_containers and _check_status
-- A job is one step on the database: what Docker and the queue answer are arguments of it.
--
-- The web application's rules (app/utils), which its routers apply:
--   App/Branches, App/Groups environment.py: the environment of a branch, and branches by environment
--   App/Redirects            urls.py: the targets of redirects
--   App/Pages                pagination.py: the numbers of a page
--
-- Digests, the redaction of logs, dates and the text of a JSON value are parameters (Services), and
-- so are the members that tarfile finds in an archive (their sizes in ℕ), the codec of manifests and
-- str.lower.
-- Times are whole seconds in ℕ; a difference that Python would have negative is 0, which the tests
-- that use it treat in the same way. Every loop is over a list, and so is structural recursion.
--
-- Shared: Prelude (tests, texts, lists, tables), Effect (results and state passing, the invariants
-- that an action keeps, and what an action that returns has gone through), Json (JSON values).
--
-- Not modelled: the HTTP layers, the sandboxed worker, the control plane and the orchestrator in
-- Ruby, the web application's routers, forms and other services, its start of a deployment, and the
-- templates. Of the artifact gateway, failures of the object store's client; of the deployments,
-- failures of the database but for a subdomain that is too long for its column when a deployment is
-- finalized, sessions that hold a row while another job changes it, the monitor's
-- cache of containers that it is probing, and exit codes below 0.
pub mod App
pub mod Artifacts
pub mod Build
pub mod Deploy
pub mod Effect
pub mod Json
pub mod Prelude
pub mod Provider
pub mod Registry
