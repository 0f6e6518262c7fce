-- ===== src/Lib.antt =====
-- dezhan: the core of the vault, and the Go programs around its server.
--
-- dezhan is an immutable backup vault with an S3 interface. Its core is Ada: retention locks under
-- trusted time, and an audit chain (trusted_core), put together by the vault (vault). The server (server)
-- hands the vault's operations out over HTTP, and three Go programs stand beside it:
--   * the CSI driver (csi/internal/driver), which gives each volume a bucket of the vault: it makes,
--     deletes, snapshots and restores buckets over S3, and mounts them on nodes;
--   * the control CLI dezhanctl (ctl), an HTTP client of the vault's own interface;
--   * the Kubernetes operator (operator), which runs vaults: it brings a Service, a StatefulSet, the
--     claim of its volume and a disruption budget in line with a custom resource.
--
-- Base: names of the libraries, Go's results (Base.Results), lists measured by native numbers.
-- Text: Go strings as lists of bytes, and what the programs use of strings, strconv and net/url.
-- Dict: maps of strings, as lists of pairs with distinct keys where that matters.
--   Letter case and white space are those of ASCII.
--
-- Csi: csi/internal/driver.
--   Csi.Names: bucketName and snapshotBucket of controller.go. Csi.Conn: s3Conn and connFrom of s3.go.
--   Csi.Service: the AWS SDK's calls as a record, with the errors that the driver tells apart.
--   Csi.S3: createBucket, deleteBucket, listKeys, emptyBucket and copyAll of s3.go. The loop over the
--     pages of a listing runs on fuel. Csi.S3.Contract has a bound on the pages that a paginator has
--     still to return; Csi.S3.Pages is about fuel above it.
--   Csi.S3.Contract: what the driver relies on in S3, as laws over an abstract view of the service.
--     Csi.S3.Memory is a service in memory with these laws.
--   Csi.Controller: the controller service of controller.go. Csi.Node: the node service of node.go over
--     a record of the operating system's calls. Csi.CopySource: how server/src/dezhan_server.adb reads
--     the header that copyAll writes. Csi.Driver: driver.go and identity.go.
--
-- Core: trusted_core/src. Core.Retention: retention locks. Core.Clock: the clock guard, with Trusted_Time
--   as a number up to 2 ^ 63 - 1. Core.Sha256: SHA-256, on numbers below 2 ^ 32 with the wrap-around
--   written out. Core.Audit: entries, their 89 bytes, appending and the check of a chain; the collisions of
--   SHA-256 that a claim about chains has to except are named there.
--
-- Vault: vault/src/dezhan-vault.adb.
--   Vault.State: the state, with the files vault.state and vault.journal as lists of lines, each with the
--   fields that it writes. Vault.Lines: the text of a line (Core_Clock to A_Line), Field, the hex digits
--   and the attribute Value, of which plain decimal numbers are modelled, all that is written. Vault.Replay:
--   Apply_Line and Load on that text, exceptions included. Vault.Printed and Vault.Readable: which lines
--   are read back as they were written, which is what the loading of lines in Vault.Persist stands on.
--   Vault.Valid: calls with arguments of such a form. Vault.Writes: calls keep it. Vault.Stored and
--   Vault.Reloaded: the text of the files, and Load of it. A file is the list of its lines: ids and boot
--   ids have no line ends in them. Names that are empty or longer than 8192 bytes are in Name_Digest and
--   in the text as the code treats them; Vault.Lost is about them.
--   Vault.Persist: Save, the journal, Load. Vault.Objects: locks and deletion. Vault.Versions: versions and
--   delete markers. Vault.Admin: clock samples, seals, modes, buckets. A call takes the state and hands it
--   back beside its result or its exception, with what it had done before the exception.
--   Vault.Operations: sequences of calls. Vault.Spec: the abstract vault, on the part of the state that
--   Vault.Keeps names; Vault.Refines, the two against each other. Vault.Time, Vault.Retained: trusted time
--   and locks over sequences. Vault.Unbroken: the chain over sequences. Vault.Restart: Save, Load and the
--   sample after it. Vault.Files: what Load makes of the files, the lines still in the buffer included.
--   Vault.Durable: the steps that calls share. Vault.Recovered: every call, and Vault.Recovered.Runs,
--   sequences. Vault.Content: Put_Object's cutting into parts, Get_Object and Get_Object_Version, over the
--   storage as a record of two calls; uninitialised memory is an argument of the read. Vault.Parts and
--   Vault.Whole: what is put comes back. Vault.Misread: versions of what is stored in parts.
--   Vault.Torn: a crash inside Save. Vault.Marked: delete markers beside locks.
--
-- Ctl: ctl.
--   Ctl.Http: the transport as a record. Ctl.Client: client.go and stat.go of
--   ctl/internal/client. A body that Go returns beside an error is left out, since every caller drops
--   it. Ctl.Order: sort.Strings.
--   Ctl.Metrics: Metrics and labelValue of client.go, over float64 and its parser as parameters; a panic
--   is a value of its own. Ctl.Dashboard: ctl/internal/tui/dashboard.go, over lipgloss as a record.
--   Ctl.Commands: commands.go, admin.go, stat.go, root.go, dashboard.go and completion.go of ctl/cmd, over
--   files, streams and encoding/json as a record.
--
-- Operator: operator/.
--   Operator.Types: api/v1alpha1/dezhanvault_types.go, and as a record the types of Kubernetes that the
--   operator does not look into. Operator.Pod: applyPodSpec and what it calls. Operator.Objects: the
--   objects, applyDefaults, and the functions that are given to CreateOrUpdate. Operator.Reconcile:
--   Reconcile and its steps, over the API server and controller-runtime as a record of calls. The fields
--   that the operator never names are one opaque value of each object.
--
-- Worlds: every call of the outside takes the world and hands it back, also beside an error, since what
-- was done before an error stays done. Concurrent writers are not modelled.
--
-- Not modelled: log lines, the wiring of gRPC, cobra and controller managers, generated code,
-- and of Ada the storage, the erasure code, ciphers and
-- signatures, the server, its CLI and the verifier. Of the vault, multipart uploads, scrubbing, garbage
-- collection and listings are left out. The operation put_object takes
-- the id and the flag that store_object has answered.
pub mod Base
pub mod Text
pub mod Dict
pub mod Csi
pub mod Core
pub mod Ctl
pub mod Operator
pub mod Vault
