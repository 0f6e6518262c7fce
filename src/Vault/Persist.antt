-- ===== src/Vault/Persist.antt =====
-- Persistence of the vault, vault/src/dezhan-vault.adb: Save, the journal, and Load.
use dezhan.Base.{
  ℕ, ◌+◌, ◌++◌, [], ◌∷◌, List, Bool, true, false, ◌||◌, Option, none, some, if◌then◌else◌, ◌==◌,
  leb, length,
}
use dezhan.Text.{Text, text_eq}
use dezhan.Dict.{Dict, lookup, insert, remove}
use dezhan.Core.Clock.{no_anomaly, init}
use dezhan.Core.Audit.{AuditEntry, genesis_entry}
use dezhan.Vault.State.{
  Meta, VersionEntry, Line, clock_line, boot_line, modes_line, bkt_line, vsn_line, vseq_line,
  ver_line, obj_line, del_line, a_line, header_line, count_line, Vault, Act, update,
}

abbrev pub bkt_lines : Dict Bool → List Line
bkt_lines [] = []
bkt_lines ((k, b) ∷ m) = bkt_line k b ∷ bkt_lines m

-- only where versioning is on
abbrev pub vsn_lines : Dict Bool → List Line
vsn_lines [] = []
vsn_lines ((k, b) ∷ m) = let rest = vsn_lines m in if b then vsn_line k true ∷ rest else rest

abbrev pub ver_lines_of : Text → List VersionEntry → List Line
ver_lines_of k [] = []
ver_lines_of k (e ∷ es) = ver_line k e ∷ ver_lines_of k es

abbrev pub ver_lines : Dict (List VersionEntry) → List Line
ver_lines [] = []
ver_lines ((k, es) ∷ m) = ver_lines_of k es ++ ver_lines m

abbrev pub obj_lines : Dict Meta → List Line
obj_lines [] = []
obj_lines ((k, m) ∷ rest) = obj_line k m ∷ obj_lines rest

abbrev pub a_lines : List AuditEntry → List Line
a_lines [] = []
a_lines (e ∷ es) = a_line e ∷ a_lines es

-- What Save writes.
unfoldable pub snapshot_of : Vault → List Line
snapshot_of v =
    header_line
    ∷ clock_line v.clock.floor v.clock.sealed v.op_sealed
    ∷ boot_line v.last_boot
    ∷ modes_line v.ingest_only v.sync_shut
    ∷ (bkt_lines v.buckets
        ++ (vsn_lines v.versioned
            ++ vseq_line v.ver_seq
              ∷ (ver_lines v.versions
                  ++ (obj_lines v.index ++ count_line (length v.log) ∷ a_lines v.log))))

unfoldable pub saved : Vault → Vault
unfolding snapshot_of
saved v = record v { snapshot = snapshot_of v; journal = []; jrnl_count = 0; jrnl_buf = [] }

abbrev pub save : Act Unit
save = update saved

abbrev pub buffered : Line → Vault → Vault
buffered l v = record v { jrnl_buf = v.jrnl_buf ++ l ∷ [] }

abbrev pub append_jrnl : Line → Act Unit
append_jrnl l = update (buffered l)

abbrev pub compact_limit : ℕ
compact_limit = 20000

abbrev pub flushed : Vault → Vault
flushed v = record v {
  journal = v.journal ++ v.jrnl_buf;
  jrnl_count = v.jrnl_count + length v.jrnl_buf;
  jrnl_buf = [];
}

-- Commit_Jrnl
unfoldable pub committed : Vault → Vault
unfolding saved
committed v =
    if length v.jrnl_buf == 0
    then v
    else if leb compact_limit (v.jrnl_count + length v.jrnl_buf)
    then saved v
    else flushed v

abbrev pub commit_jrnl : Act Unit
commit_jrnl = update committed

-- J_Obj: the object stands in the index.
abbrev pub j_obj : Text → Meta → Act Unit
j_obj name m = append_jrnl (obj_line name m)

abbrev pub seen : Text → List VersionEntry → Bool
seen vid [] = false
seen vid (e ∷ es) = text_eq e.vid vid || seen vid es

abbrev pub versions_or_empty : Option (List VersionEntry) → List VersionEntry
versions_or_empty none = []
versions_or_empty (some es) = es

unfoldable pub add_version :
    Text → VersionEntry → Dict (List VersionEntry) → Dict (List VersionEntry)
unfolding lookup insert text_eq
add_version name e versions =
    let old = versions_or_empty (lookup name versions) in
    if seen e.vid old then versions else insert name (old ++ e ∷ []) versions

-- Apply_Line, once the fields of the line are read; Vault.Replay has it on the text of the line.
unfoldable pub apply_line : Vault → Line → Vault
unfolding insert remove add_version
apply_line v header_line = v
apply_line v (count_line n) = v
apply_line v (clock_line floor sealed op_sealed) = record v {
  clock = record {
    floor = floor;
    last_mono = 0;
    last_real = 0;
    anomaly = no_anomaly;
    sealed = sealed;
  };
  op_sealed = op_sealed;
  started = false;
}
apply_line v (boot_line b) = record v { last_boot = b }
apply_line v (modes_line ingest_only sync_shut) = record v {
  ingest_only = ingest_only;
  sync_shut = sync_shut;
}
apply_line v (bkt_line k lock) = record v { buckets = insert k lock v.buckets }
apply_line v (vsn_line k on) = record v { versioned = insert k on v.versioned }
apply_line v (vseq_line n) = record v { ver_seq = n }
apply_line v (ver_line k e) = record v { versions = add_version k e v.versions }
apply_line v (obj_line k m) = record v { index = insert k m v.index }
apply_line v (del_line k) = record v { index = remove k v.index }
apply_line v (a_line e) = if e.seq == length v.log then record v { log = v.log ++ e ∷ [] } else v

unfoldable pub apply_lines : Vault → List Line → Vault
unfolding apply_line
apply_lines v [] = v
apply_lines v (l ∷ ls) = apply_lines (apply_line v l) ls

-- A new State, with the files that are there.
abbrev pub blank : List Line → List Line → Vault
blank snapshot journal = record {
  clock = record { floor = 0; last_mono = 0; last_real = 0; anomaly = no_anomaly; sealed = false };
  started = false;
  op_sealed = false;
  last_boot = [];
  ingest_only = false;
  sync_shut = false;
  index = [];
  log = [];
  buckets = [];
  versioned = [];
  versions = [];
  ver_seq = 0;
  jrnl_count = 0;
  jrnl_buf = [];
  snapshot = snapshot;
  journal = journal;
}

-- Load, on lines whose fields are read: the snapshot, then the journal, whose lines are counted.
unfoldable pub load : List Line → List Line → Vault
unfolding apply_lines
load snapshot journal =
    let v = apply_lines (apply_lines (blank snapshot journal) snapshot) journal in
    record v { jrnl_count = v.jrnl_count + length journal }

-- Open without a snapshot: a new vault that is not saved yet.
unfoldable pub new_vault : Vault
unfolding init genesis_entry
new_vault = record (blank [] []) {
  clock = init (record { mono = 0; realtime = 0; boot_changed = false });
  log = genesis_entry 0 ∷ [];
}
