-- ===== src/Lib.antt =====
-- Sigstore scaffolding: the tools that set up a Sigstore instance on a Kubernetes cluster.
--
-- Each tool is a Go program that a job of the cluster runs. The tools make keys and certificates, keep
-- them in secrets of the cluster, and build a TUF repository from what the secrets hold. What they
-- share are four packages, which this library models first:
--  * tools/secret/pkg/secret: ReconcileSecret brings one secret to hold the given entries (Secret).
--  * tools/tuf/pkg/certs: SplitCertChain makes one file of each certificate of a chain (Certs).
--  * tools/tuf/pkg/repo: the repository builder, which makes targets of the files, with
--    trusted_root.json and signing_config.v0.2.json among them (Repo and the modules below it).
--  * tools/ctlog/pkg/ctlog: the configuration of the certificate transparency log, as a record with
--    operations and as the entries of a secret (Ctlog and the modules below it).
-- The jobs around them are modelled next to what they use:
--  * tools/ctlog/cmd/ctlog/createctconfig: the log's configuration kept in a secret
--    (Ctlog/CreateConfig).
--  * tools/fulcio/cmd/fulcio/createcerts, tools/rekor/cmd/rekor/rekor-createsecret and
--    tools/tsa/cmd/tsa/createcertchain: keys and certificates in secrets (Jobs/Fulcio with
--    Jobs/RootCertificate, Jobs/Rekor, Jobs/Tsa).
--  * tools/tuf/cmd/tuf/createsecret: what these jobs made, in the secret that the TUF server mounts
--    (Jobs/TufSecret).
--  * tools/tuf/cmd/tuf/server: the directory of files that initTUFRepo reads (Server), the repository
--    that it makes of them (Server/Init), and the modes of main (Server/Run).
--  * actions/setup-sigstore-env/fakeoidc and tools/getoidctoken: the tokens of a workload, for tests
--    and from a file (Http, with their start in Http/Main).
--  * tools/cloudsqlproxy: the end of the proxy's process (Jobs/Proxy).
--  * tools/create-tink-keyset: a signing key of a log, encrypted, with its public key and id in files
--    (Tink).
--  * tools/trillian/cmd/trillian/createdb: the schema of Trillian's database (Database, with the text of
--    its statements in Database/Schema, and the part of SQL that they are read in, in Database/Words and
--    Database/Sql).
--  * tools/trillian/cmd/trillian/createtree and updatetree: a tree whose id is kept in a config map,
--    which createctconfig reads (Jobs/Trees).
-- The repository builder is Repo/Usage (getTargetUsage), Repo/Keys (getKeyWithDetails,
-- pubkeyToTransparencyLogInstance), Repo/Chain (concatCertChain and the two authorities), Repo/Sort and
-- Repo/TrustedRoot (constructTrustedRoot), Repo/SigningConfig (constructSigningConfig), Repo/Create
-- (CreateRepoWithMetadata, writeStagedTarget), Repo/Options (CreateRepoWithOptions, CreateRepo),
-- Repo/Paths (validRelPath and path/filepath), Repo/Archive (Uncompress) and Repo/Compress (CompressFS).
-- How the code is written down:
--  * A call that can fail is a Result (Base/Results): a value, an error, a panic, or the end of the
--    process. An error keeps the constant text of its message and the error it wraps; the values that
--    are formatted into the message are left out. Logging is left out.
--  * A byte is a number and a text is a list of them (Base/Text). A map is an association list
--    (Base/Dict), and a theorem about a map speaks of what its keys read as, or allows the entries in
--    any order, where the order of Go's iteration matters.
--  * State is passed explicitly (Cluster): a call takes the state and gives a Result and the new state,
--    so that what was written before an error stays written.
--  * Code that is not of this repository is a parameter: the Kubernetes SecretInterface and its laws
--    (Cluster), the certificate codec of sigstore (Certs), the Go cryptography and PEM decoding
--    (Repo/External), NewTrustedRoot (Repo/TrustedRoot), the messages of the log's configuration
--    (Ctlog/External). Theorems that rely on it name what they rely on, and Tests gives concrete
--    instances for which this holds.
--
-- Loops are structural recursion. The one loop that is not is that of the chain parser (Repo/Chain): it
-- is run on fuel, the length of the trimmed text, which suffices since pem.Decode takes at least one
-- byte off for each block (Repo/Chain/Parse).
-- updateTree tries again as long as the server is unavailable; its loop (Jobs/Trees) has the number of
-- calls as fuel.
--
-- Not modelled: the declarations of flags, and the sources under third_party, which are copies of other
-- projects. Contexts, signals, logging and the version of the build are left out.
pub mod Base
pub mod Cluster
pub mod Files
pub mod Secret
pub mod Certs
pub mod Repo
pub mod Ctlog
pub mod Jobs
pub mod Database
pub mod Server
pub mod Tink
pub mod Http
pub mod Tests
