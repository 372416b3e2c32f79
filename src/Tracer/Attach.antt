-- ===== src/Tracer/Attach.antt =====
-- `NewTracer`, `attachProbes`, `findLibcPath` and `Stop` of internal/ebpf/tracer.go, and
-- `loadPodtrace` of internal/ebpf/loader.go: which resources are opened and closed.
pub mod Resources
pub mod Shutdown
pub mod Outcome
use podtrace.Prelude.{
  ℕ, Bool, true, false, Option, none, some, List, [], ◌∷◌, ◌++◌, map, if◌then◌else◌,
}
use podtrace.Strings.{Bytes, codes, has_prefix, is_empty}

-- What a program can be attached to.
pub data Hook : Type 0 where
  kprobe : Bytes → Hook
  kretprobe : Bytes → Hook
  tracepoint : Bytes → Bytes → Hook
  uprobe : Bytes → Bytes → Hook
  uretprobe : Bytes → Bytes → Hook

-- An entry of the map `probes`: a program and the kernel's symbol.
pub record Probe : Type 0 where
  pub program : Bytes
  pub symbol : Bytes

-- The answers of the kernel and of the loader's packages, with `none` for an error.
pub record Kernel : Type 0 where
  pub load_spec : Bytes → Option ℕ
  pub new_collection : ℕ → Option ℕ
  pub has_program : Bytes → Bool
  pub attach : Hook → Bytes → Option ℕ
  pub is_file : Bytes → Bool
  pub is_executable : Bytes → Bool
  pub new_reader : ℕ → Option ℕ

-- What must be closed in the end.
pub data Resource : Type 0 where
  link : ℕ → Resource
  collection_of : ℕ → Resource
  reader_of : ℕ → Resource

pub data Op : Type 0 where
  opened : Resource → Op
  closed : Resource → Op

pub record Tracer : Type 0 where
  pub collection : ℕ
  pub links : List ℕ
  pub reader : ℕ

abbrev pub probe : Bytes → Bytes → Probe
probe p s = record { program = p; symbol = s }

abbrev pub probes : List Probe
probes =
    probe (codes "kprobe_tcp_connect") (codes "tcp_v4_connect")
    ∷ probe (codes "kretprobe_tcp_connect") (codes "tcp_v4_connect")
    ∷ probe (codes "kprobe_tcp_v6_connect") (codes "tcp_v6_connect")
    ∷ probe (codes "kretprobe_tcp_v6_connect") (codes "tcp_v6_connect")
    ∷ probe (codes "kprobe_tcp_sendmsg") (codes "tcp_sendmsg")
    ∷ probe (codes "kretprobe_tcp_sendmsg") (codes "tcp_sendmsg")
    ∷ probe (codes "kprobe_tcp_recvmsg") (codes "tcp_recvmsg")
    ∷ probe (codes "kretprobe_tcp_recvmsg") (codes "tcp_recvmsg")
    ∷ probe (codes "kprobe_vfs_write") (codes "vfs_write")
    ∷ probe (codes "kretprobe_vfs_write") (codes "vfs_write")
    ∷ probe (codes "kprobe_vfs_read") (codes "vfs_read")
    ∷ probe (codes "kretprobe_vfs_read") (codes "vfs_read")
    ∷ probe (codes "kprobe_vfs_fsync") (codes "vfs_fsync")
    ∷ probe (codes "kretprobe_vfs_fsync") (codes "vfs_fsync")
    ∷ []

abbrev pub hook_of : Probe → Hook
hook_of p =
    if has_prefix (codes "kretprobe_") p.program then kretprobe p.symbol else kprobe p.symbol

abbrev pub close_links : List ℕ → List Op
close_links [] = []
close_links (l ∷ ls) = closed (link l) ∷ close_links ls

-- The loop over `probes`, from the links that are open already.
unfoldable pub attach_loop : Kernel → List Probe → List ℕ → List Op × Option (List ℕ)
attach_loop k [] links = ([], some links)
attach_loop k (p ∷ ps) links =
    if k.has_program p.program
    then elim (k.attach (hook_of p) p.program) [
      | none ↦ (close_links links, none)
      | some l ↦ let rest = attach_loop k ps (links ++ l ∷ []) in (opened (link l) ∷ rest.0, rest.1)
    ]
    else attach_loop k ps links

-- A program whose absence, or whose failure to attach, is no error.
unfoldable pub attach_optional : Kernel → Hook → Bytes → List ℕ → List Op × List ℕ
attach_optional k hook program links =
    if k.has_program program
    then elim (k.attach hook program) [
      | none ↦ ([], links)
      | some l ↦ (opened (link l) ∷ [], links ++ l ∷ [])
    ]
    else ([], links)

abbrev pub first_file : (Bytes → Bool) → List Bytes → Bytes
first_file is_file [] = []
first_file is_file (path ∷ paths) = if is_file path then path else first_file is_file paths

abbrev pub libc_paths : List Bytes
libc_paths =
    codes "/lib/x86_64-linux-gnu/libc.so.6"
    ∷ codes "/lib64/libc.so.6"
    ∷ codes "/lib/libc.so.6"
    ∷ codes "/usr/lib/x86_64-linux-gnu/libc.so.6"
    ∷ codes "/usr/lib64/libc.so.6"
    ∷ codes "/usr/lib/libc.so.6"
    ∷ []

abbrev pub find_libc_path : (Bytes → Bool) → Bytes
find_libc_path is_file = first_file is_file libc_paths

-- The uprobes on `getaddrinfo`, when there is a libc that can be opened.
unfoldable pub attach_dns : Kernel → List ℕ → List Op × List ℕ
attach_dns k links =
    let path = find_libc_path k.is_file in
    if is_empty path
    then ([], links)
    else if k.is_executable path
    then (let entry =
          attach_optional k (uprobe path (codes "getaddrinfo")) (codes "uprobe_getaddrinfo")
            links in
        let exit =
          attach_optional k (uretprobe path (codes "getaddrinfo")) (codes "uretprobe_getaddrinfo")
            entry.1 in
        (entry.0 ++ exit.0, exit.1))
    else ([], links)

-- `iterate` is the order in which `range` visits the map of probes.
unfoldable pub attach_probes : Kernel → (List Probe → List Probe) → List Op × Option (List ℕ)
attach_probes k iterate =
    let required = attach_loop k (iterate probes) [] in
    elim required.1 [
      | none ↦ (required.0, none)
      | some links ↦
          let sched =
            attach_optional k (tracepoint (codes "sched") (codes "sched_switch"))
              (codes "tracepoint_sched_switch") links in
          let dns = attach_dns k sched.1 in (required.0 ++ (sched.0 ++ dns.0), some dns.1)
    ]

unfoldable pub load_podtrace : Kernel → Option ℕ
load_podtrace k = elim (k.load_spec (codes "bpf/podtrace.bpf.o")) [
  | some spec ↦ some spec
  | none ↦ k.load_spec (codes "../bpf/podtrace.bpf.o")
]

-- After the collection has been opened.
unfoldable pub open_tracer : Kernel → (List Probe → List Probe) → ℕ → List Op × Option Tracer
open_tracer k iterate coll =
    let attached = attach_probes k iterate in
    elim attached.1 [
      | none ↦ (attached.0 ++ closed (collection_of coll) ∷ [], none)
      | some links ↦ elim (k.new_reader coll) [
        | none ↦ (attached.0 ++ (close_links links ++ closed (collection_of coll) ∷ []), none)
        | some rd ↦ (
          attached.0 ++ opened (reader_of rd) ∷ [],
          some (record { collection = coll; links = links; reader = rd }),
        )
      ]
    ]

unfoldable pub new_tracer : Kernel → (List Probe → List Probe) → List Op × Option Tracer
new_tracer k iterate = elim (load_podtrace k) [
  | none ↦ ([], none)
  | some spec ↦ elim (k.new_collection spec) [
    | none ↦ ([], none)
    | some coll ↦
        let rest = open_tracer k iterate coll in (opened (collection_of coll) ∷ rest.0, rest.1)
  ]
]

-- The reader, the links and the collection are closed, in this order.
unfoldable pub stop : Tracer → List Op
stop t =
    closed (reader_of t.reader) ∷ (close_links t.links ++ closed (collection_of t.collection) ∷ [])
