-- ===== src/Examples.antt =====
-- Concrete queues, packets, gates and rounds, and the theorems at these.
mod Queue
mod Packets
mod Gate
mod Council
mod WriterLock
mod Messages
mod Work
mod Acts
mod Alf
mod Journal
use clear_wright.Prelude.{String, Bool, true, false, Option, none, some, if◌then◌else◌, ℤ}
use clear_wright.Json.{Value, null, bool, str, obj, arr, nil, cons, Fields, end, field}
use clear_wright.Packet.{FilePath}
use clear_wright.Queue.{Host, Fs, Faults, same_path}
use clear_wright.Queue.Decide.{Clock}
use clear_wright.Queue.Request.{RequestArgs, Stamp}

-- A codec that keeps the value.
abbrev pub host : Host
host = record { Bytes = Value; dump = obj; load = some }

abbrev pub no_faults : Faults host
no_faults = record {
  read = false;
  create = false;
  write = false;
  reread = false;
  cleanup = false;
  remove = false;
  partial = null;
}

abbrev pub with_status : String → Fields → Fields
with_status status rest = field "packet_id" (str "p1") (
    field "packet_type" (str "code_change") (
      field "title" (str "t") (
        field "requesting_agent" (str "a") (
          field "created_at" (str "2026-01-01") (
            field "updated_at" (str "2026-01-01") (
              field "status" (str status) (
                field "source_path" (str "clearance_outbox/p1.json")
                  (field "packet_hash" (str "sha256:x") rest))))))))

-- A request, a cleared packet, and one in progress.
abbrev pub requested_packet : Fields
requested_packet = with_status "RTA" end

abbrev pub cleared_packet : Fields
cleared_packet = with_status "CTA" (field "clearance_expires_at" (str "2026-01-02") end)

abbrev pub active_packet : Fields
active_packet = with_status "IN_PROGRESS" (field "clearance_expires_at" (str "2026-01-02") end)

abbrev pub outbox : FilePath
outbox = record { parent = "q"; dir = "clearance_outbox"; name = "p1.json" }

abbrev pub in_progress : FilePath
in_progress = record { parent = "q"; dir = "clearance_in_progress"; name = "p1.json" }

-- The file system with one file.
abbrev pub holding : FilePath → Fields → Fs host
holding path p q = if same_path path q then some (obj p) else none

abbrev pub clock : Clock
clock = record { now = "2026-01-01"; iso_in = λ m. "2026-01-03" }

abbrev pub stamp : Stamp
stamp = record { now = "2026-01-01"; compact = "20260101T000000" }

abbrev pub request_args : RequestArgs
request_args = record {
  title = " t ";
  packet_type = "code_change";
  agent = "a";
  action = "act";
  target_label = "repo";
  allowed_scope = "";
  test_command = "";
  risk = "";
  authority = "WORKER";
  clearance = "BRANCH_CODE";
  priority = "NORMAL";
  id = "p2";
}
