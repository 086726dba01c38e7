-- ===== src/Lib.antt =====
-- The controllers of burrito, a Kubernetes operator that plans and applies Terraform code.
--
-- A TerraformRepository is a Git repository, a TerraformLayer a directory of it that holds Terraform
-- code, and a TerraformRun one plan or apply of a layer. The layer controller looks at a layer and
-- decides whether to create a run. The run controller takes the lock of the layer, starts a runner
-- pod for the run, looks at the phase of the pod, and retries or ends the run. The layer controller
-- leaves a locked layer alone, reads the state of its last run, and keeps a history of runs. The two
-- share no memory: they interact by the objects that they read and write through the API server. So
-- does the HTTP server, which puts the requests of users on layers as annotations. The repository
-- controller tracks the branches that the layers of a repository are on, stores a bundle of each new
-- revision in the datastore and annotates the layers with it. A webhook asks for such a sync when a
-- branch is pushed, and makes a TerraformPullRequest of a pull request; its controller copies the
-- affected layers and comments their plans. A runner pod plans or applies a layer, keeps plans in the
-- datastore and annotates the layer with their sums. The datastore is a process of its own that keeps
-- logs, plans and bundles in a bucket, encrypted if it is asked to.
--
-- Base: numbers, lists, dictionaries, results, effects and text. ℤ stands for Go's signed integers:
--   nanoseconds, limits and the like; only the product of the exponential back-off is near the
--   bounds of an int64, and it wraps around (wrap64). A Go map is an association list.
-- Api: the custom resources and the settings of a layer that fall back on its repository
--   (api/v1alpha1/common.go and the *_types.go files). Go names in snake_case: GetTerraformEnabled is
--   get_terraform_enabled. Api.Merge has the merges of runner settings, Api.Engine the choice
--   between Terraform and OpenTofu.
-- World: what the controllers call and do not implement. World has the API server, the datastore and
--   the clock as functions on a state; Runtime the parsers of times, schedules and patterns. Both are
--   parameters of the models. Timers and Config are internal/burrito/config/config.go.
-- Annotations: internal/annotations/annotations.go.
-- Lock: internal/lock/lock.go; hash is FNV-1a on 32 bits. Lock.Server states what the API server
--   promises of leases: a name is taken once, what is created is there, what is deleted is gone, and
--   writes to pods and secrets leave leases alone.
-- SyncWindow: internal/utils/syncwindow/syncwindow.go. SyncWindow.Activity states what the next time
--   of a cron schedule means.
-- Run: internal/controllers/terraformrun. Run.Conditions is conditions.go, Run.States is states.go
--   (GetState is get_state, its switch choose_state, the handlers are initial_handler and so on, and
--   handle picks one), Run.Pod is pod.go, Run.Logs and Run.Reconcile are controller.go. Run.Reconcile
--   names the stages of Reconcile: advance up to the new status, settle with the logs uploaded.
-- Layer: internal/controllers/terraformlayer. Layer.Conditions is conditions.go, Layer.Runs is
--   run.go, Layer.States is states.go (Layer.Handled lists what its handlers come to, Layer.Taken
--   what becomes of a request), Layer.History and Layer.Reconcile are controller.go. A panic of the
--   source is none. Layer.Files is LayerFilesHaveChanged.
-- Repository: internal/controllers/terraformrepository. Repository.Branches is polling.go and the
--   branch states, Repository.Conditions is conditions.go and GetState of states.go,
--   Repository.States has the handlers and annotateLayers, Repository.Reconcile is controller.go.
--   Repository.Bundles states what the datastore promises of bundles: they stay once they are put.
-- PullRequest: internal/controllers/terraformpullrequest, a module for each of conditions.go, layer.go
--   and states.go; Reconcile is reconcile of PullRequest.States.
-- Webhook: internal/webhook/event, and internal/utils/url/url.go in Webhook.Url. Webhook.Pushed
--   states what the API server promises of patches of repositories (KeepsRequests). Webhook.Payloads is
--   internal/webhook/webhook.go and the webhook.go of internal/repository/providers, from a request to
--   its event; what parses and checks a request is the parameter Library, and Webhook.Signed states
--   what is relied on of its checks (ChecksSecrets).
-- Credentials: internal/repository/credentials/credentials.go. Credentials.Choice has what is true of
--   the chosen ones. A secret comes with its data decoded, or with none where they cannot be.
-- Runner: internal/runner/actions.go and parts of runner.go. Terraform, the file system and the
--   datastore's client are the parameter Machine. ExecAction is exec_action.
-- Encryption: internal/utils/encryption/encryption.go and internal/datastore/storage/encryption.go. A
--   slice of bytes is a list of numbers. Encrypt and Decrypt are encrypt and decrypt; those of the
--   manager are protect and reveal. Ciphers, the hash and the random source are the parameter Crypto,
--   and CryptoLaws states that CBC decryption undoes CBC encryption on whole blocks.
-- Datastore: internal/datastore/storage and internal/datastore/api. Datastore has the keys and the
--   parameter Backend, Datastore.Storage is common.go, Datastore.Mock is mock/mock.go,
--   Datastore.Handlers and Datastore.Migration are the HTTP handlers. Datastore.Stored states what is
--   expected of a backend (BackendLaws).
--   Datastore.S3, Gcs and Azure are the backends in storage/s3, gcs and azure, over the clients of their
--   SDKs (S3Client, GcsClient, AzureClient), and what is relied on of these (S3Laws and so on).
--   Datastore.Client is internal/datastore/client/client.go over the parameter Transport, where a panic
--   is none; Datastore.Server has the routes of internal/datastore/datastore.go, and Datastore.Network
--   joins the two; Datastore.Network.Bundles is about what the repository controller relies on of
--   bundles.
-- Authz: internal/utils/authz/middleware.go. The cache and the token review are the parameter Cluster; a
--   request that is passed on is next. Authz.Allowed states what is relied on of the cache.
-- Server: internal/server/api/sync.go and internal/server/utils/manual_sync.go; an answer is its HTTP
--   status. Server.Requests states what the API server promises of patches. Server.Views is
--   internal/server/api/layers.go and repositories.go; the format RFC 3339 of times is a parameter.
--   Server.Runs is internal/server/api/logs.go and runs.go, over the client of the datastore.
--   Server.Auth is internal/server/auth and the guards of internal/server/server.go, over the parameter
--   Outside (cookies, identity provider, random source); Server.Auth.Cookies states what is relied on
--   of cookies (CookieLaws), and Server.Auth.Routes has the routes that need a session.
-- Tests: a cluster in memory that keeps the promises, and examples on it.
--
-- A handler is a function from a state of the world to an answer and a new state; an error is an
-- answer, and the branches of the source are the clauses. Between the writes of one reconciliation
-- all reads see one state; between two reconciliations the state may be any. The loops of these parts
-- run over lists and texts, but for two kinds: itoa is on fuel, which is the number itself, and a
-- number has no more digits than that; the listings of the cloud backends are on fuel that their
-- backend takes as a function of the prefix and the state, and as many pages as S3 has are enough.
--
-- Not modelled: events, logging, metrics and the registration with the manager, which change nothing
-- that is read again; messages and times of conditions; the pod settings that are handed on unread
-- (volumes, resources, tolerations and the like); the text of pull request comments; the choice of a
-- storage backend; the set-up of a runner's directory and binaries; the Git and API
-- clients of the providers and the decoding of credentials; the loading of the configuration;
-- generated code, charts and the user interface.
pub mod Base
pub mod Api
pub mod World
pub mod Annotations
pub mod Lock
pub mod SyncWindow
pub mod Run
pub mod Layer
pub mod Repository
pub mod Server
pub mod Tests
pub mod Encryption
pub mod Datastore
pub mod PullRequest
pub mod Webhook
pub mod Runner
pub mod Credentials
pub mod Authz
