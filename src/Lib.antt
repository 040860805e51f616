-- ===== src/Lib.antt =====
-- ClearWright: the clearance queue, the plan-level gate, the review council, the message log,
-- the presentation of work items and the store of lessons.
--
-- The program is a set of command-line tools over a queue of JSON packets on disk. A request
-- (tools/clearwright_request.py) is written into clearance_outbox; an operator decides it
-- (tools/clearwright_decide.py); an agent claims it (tools/clearwright_claim.py), which moves it
-- to clearance_in_progress; it is completed or failed (tools/clearwright_lifecycle.py), which
-- moves it to clearance_done or clearance_failed. Every tool validates a packet and its place
-- (tools/clearwright_validate.py) before and after it writes. Apart from the queue, a review
-- council (tools/clearwright_review_council.py) judges rounds of structured verdicts
-- (tools/clearwright_verdict.py), and an escalation leaves a gate (tools/clearwright_gate.py)
-- that blocks the work item until an operator's message opens it.
--
-- Prelude holds the names and lemmas that all share. Json is `dict` and the values of `json`.
-- Packet is clearwright_validate.py; Packet/Rules states well-formedness apart from it, and
-- Packet/Moves what the tools may change of a well-formed packet. Queue is the file system and
-- the safe-write steps that the tools share; the file system is a function from paths to
-- contents, and every system call that may raise OSError has a flag in `Faults`. Queue/Claim,
-- Queue/Decide, Queue/Lifecycle and Queue/Request are the tools, each with `prepare_…` for the
-- checks before the first write and a function of the source's name for the whole run; their
-- Keys modules are about the packets they build, their Laws modules about the files they leave.
-- Queue/Inspect is the read-only inspection of a packet, and Queue/Invariant runs the tools one
-- after another. Gate and its children are clearwright_gate.py: Subject, Ensure and Authority
-- follow the source's functions; the store is a function from file digests to records.
-- Council/Verdict is the contract of a verdict, Council/Rounds the stored results and which of
-- them count, Council/Evaluate the agreement rule. WriterLock is the lock of a queue root
-- (tools/clearwright_writer_lock.py), by which gate writes and archive operations exclude each
-- other; WriterLock/Removal is about the ways in which its flag goes. Examples evaluates the
-- theorems at concrete data.
--
-- Messages is the append-only log (tools/clearwright_message.py): build_message, and in
-- Messages/Log the files of the log with write_message, read_messages and
-- write_message_idempotent. Messages/Valid is about the messages built, Messages/Log/Append and
-- Messages/Log/Retry about writing and reading. A name that is taken is tried again under a
-- counter up to 999, which is the source's own bound. Identity (tools/clearwright_identity.py)
-- holds the ids of work items and the freezing of the legacy records. Work and its children are
-- tools/clearwright_work.py: Iso and Activity are the times of an item, State, Runner and
-- Presentation the derived fields, View the order and the counts, Items the derivation of all
-- items, Ids and Acts what an operator does to one of them. The messages, gates and council runs
-- of a queue are the record that these functions read.
--
-- Alf and its children are the lessons (tools/clearwright_alf.py, tools/clearwright_alf_synth.py
-- and tools/clearwright_alf_review.py): Score the tier and the score, Findings the store of
-- findings with their revisions, Attribute the occurrences and the release baselines, Dispose
-- the operator's dispositions, Steps the operations one after another. There an operation is
-- committed whole. Lines and Journal go below that: the staged writes of a commit are applied to
-- files that a crash may leave half written, and Recovery is about their replay. Recover is the
-- recovery of the operations that a journal holds, and Recover/Complete its outcome; Paths is
-- the check of the names in it. The chain of hashes, by which the journal itself is checked, is
-- not modelled.
--
-- A run of a tool is one step: two runs that interleave at their system calls are not modelled.
-- The lock-free read of `ensure_gate` is the exception; it may see any older store. Each
-- operation of the writer lock is one step, as the registry lock makes it; of the loop of
-- `acquire_exclusive` one turn is a step, so the deadline needs no bound. The operator's
-- override (`apply_override` of tools/clearwright_archive.py, WriterLock/Override) holds no
-- lock: what it checked and the removal are apart. A flag file whose fields have wrong types is
-- `malformed`, and token files that cannot be read are left out, as the source does. `json`,
-- hashing, Unicode normalization, `str.lower`, `str` of a value that is no text, time formatting
-- and parsing are parameters. A number with a fraction is an exact decimal. No definition needs
-- fuel: every loop of the source is over a list, a text or a bounded count. Printed text and
-- command lines are not modelled, and of the lifecycle tool not the scans of directories. Not
-- modelled: the egress guard, the archive but for its override, the use-cw workflow, the
-- artifacts and proofs, the calls of external reviewers, the processes and the server with its
-- console.
pub mod Prelude
pub mod Json
pub mod Packet
pub mod Queue
pub mod Gate
pub mod Council
pub mod Examples
pub mod WriterLock
pub mod Messages
pub mod Identity
pub mod Work
pub mod Alf
