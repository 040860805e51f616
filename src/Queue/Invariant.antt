-- ===== src/Queue/Invariant.antt =====
-- The queue under any sequence of tool runs: what each run of claim, decide, lifecycle
-- (complete, fail) and request can leave at a path, and the invariant of the directories.
pub mod Effect
use clear_wright.Prelude.{
  String, ◌≡◌, ◌≢◌, refl, sym, ◌⊎◌, inl, inr, Bool, true, false, List, [], ◌∷◌, Option, none, some,
  arith, Any, ok, ℤ,
}
use clear_wright.Json.{Value, null, str, obj, Fields, get}
use clear_wright.Packet.{FilePath, queue_status}
use clear_wright.Packet.Rules.{IsWellFormed}
use clear_wright.Queue.{Host, RoundTrips, Fs, Faults, load_packet}
use clear_wright.Queue.Claim.{claim}
use clear_wright.Queue.Decide.{Decision, Clock, decide}
use clear_wright.Queue.Lifecycle.{Ending, transition}
use clear_wright.Queue.Request.{RequestArgs, Stamp, request}
use clear_wright.Queue.Invariant.Effect.{
  Sane, IsSorted, Sane-IsSorted, claim-Sane, decide-Sane, transition-Sane, request-Sane,
}

-- One run of a tool, to its end, in which removing a partial file does not fail.
pub data Step (h : Host) : Fs h → Fs h → Type 1 where
  claimed :
      {fs : Fs h} (faults : Faults h) (path : FilePath) (claimant : Option String) (dry_run : Bool)
      (now : String)
      → faults.cleanup ≡ false
      → Step h fs (claim h fs faults path claimant dry_run now).1
  decided :
      {fs : Fs h} (faults : Faults h) (path : FilePath) (d : Decision) (actor : Option String)
      (reason : String) (dry_run : Bool) (lease : Option ℤ) (clock : Clock)
      → faults.cleanup ≡ false
      → Step h fs (decide h fs faults path d actor reason dry_run lease clock).1
  ended :
      {fs : Fs h} (faults : Faults h) (path : FilePath) (e : Ending) (actor : Option String)
      (dry_run : Bool) (reason : String) (results : Option Fields) (now : String)
      → faults.cleanup ≡ false
      → Step h fs (transition h fs faults path e actor dry_run reason results now).1
  requested :
      {fs : Fs h} (faults : Faults h) (has_outbox : Bool) (root : String) (args : RequestArgs)
      (dry_run : Bool) (at : Stamp)
      → faults.cleanup ≡ false
      → Step h fs (request h fs faults has_outbox root args dry_run at).1

-- The queue after a sequence of runs.
pub data Reaches (h : Host) (fs : Fs h) : Fs h → Type 1 where
  start : Reaches h fs fs
  after : {gs hs : Fs h} → Reaches h fs gs → Step h gs hs → Reaches h fs hs

Step-Sane : {h : Host} {fs gs : Fs h} → Step h fs gs → (q : FilePath) → Sane h fs gs q
Step-Sane (claimed {fs} faults path claimant dry_run now c) q =
    claim-Sane _ fs faults path c q claimant dry_run now
Step-Sane (decided {fs} faults path d actor reason dry_run lease clock c) q =
    decide-Sane _ fs faults path c q d actor reason dry_run lease clock
Step-Sane (ended {fs} faults path e actor dry_run reason results now c) q =
    transition-Sane _ fs faults path c q e actor dry_run reason results now
Step-Sane (requested {fs} faults has_outbox root args dry_run at c) q =
    request-Sane _ fs faults c q has_outbox root args dry_run at

-- Where the codec reads back what it writes, no sequence of runs breaks the order of the queue:
-- if every packet in a queue directory was well formed, with a status that its directory holds, it
-- still is, whatever the arguments and whatever fails but the removal of a partial file.
pub Reaches-IsSorted :
    (h : Host) (fs : Fs h) {gs : Fs h}
    → ((p : Fields) → RoundTrips h p)
    → Reaches h fs gs
    → IsSorted h fs
    → IsSorted h gs
Reaches-IsSorted h fs rt start s = s
Reaches-IsSorted h fs rt (after r step) s =
    Sane-IsSorted h _ _ rt (Step-Sane step) (Reaches-IsSorted h fs rt r s)
