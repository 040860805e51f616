-- ===== src/WriterLock/Recovery.antt =====
-- When a recovery removes the exclusive flag of another process.
use clear_wright.Prelude.{
  String, ◌≡◌, ◌⊎◌, inl, inr, refl, Bool, true, false, Option, none, some, str_eq, eq_iff, arith,
}
use clear_wright.WriterLock.{
  Processes, Owner, same_start, existing, liveness, is_dead, Flag, absent, held, Disk, Pending,
  no_claim, resolved, flag_identity_ok, pending_path_state, interrupted, recoverable,
  recover_stale_exclusive,
}

-- The owner ran on this host, and its process is gone: no such process, a process that has exited,
-- or another one that started at another time.
pub record IsGone (os : Processes) (o : Owner) : Type 0 where
  pub here : o.host ≡ os.this_host
  pub gone :
      (os.pid_exists o.pid ≡ some false)
      ⊎ (os.exited o.pid ≡ true)
      ⊎ ((t : String) × (u : String) × (os.start_time o.pid ≡ some t)
          × (o.proc_start ≡ some u)
          × (str_eq t u ≡ false))

dead-same_start :
    (a b : Option String)
    → is_dead (same_start a b) ≡ true
    → (t : String) × (u : String) × (a ≡ some t) × (b ≡ some u) × (str_eq t u ≡ false)
unfolding same_start
dead-same_start none b h = let bad : ⊥ = cc in elim bad [ ]
dead-same_start (some t) none h = let bad : ⊥ = cc in elim bad [ ]
dead-same_start (some t) (some u) h = (t, u, refl, refl, ground arith)

module _ (os : Processes) (o : Owner) where
  dead-existing :
      (e : Option Bool)
      → is_dead (existing os o e) ≡ true
      → (e ≡ some false)
        ⊎ (os.exited o.pid ≡ true)
        ⊎ (is_dead (same_start (os.start_time o.pid) o.proc_start) ≡ true)
  unfolding existing
  dead-existing none h = let bad : ⊥ = cc in elim bad [ ]
  dead-existing (some false) h = inl refl
  dead-existing (some true) h = ground arith

  dead-IsGone : is_dead (liveness os o) ≡ true → IsGone os o
  unfolding liveness
  dead-IsGone h =
      let dies : is_dead (existing os o (os.pid_exists o.pid)) ≡ true = ground arith in
      record {
        here = ground (arith, eq_iff o.host os.this_host);
        gone = elim (dead-existing (os.pid_exists o.pid) dies) [
          | inl e ↦ inl e
          | inr (inl e) ↦ inr (inl e)
          | inr (inr e) ↦ inr (inr (dead-same_start _ _ e))
        ];
      }

uninterrupted :
    (disk : Disk) (p : Pending)
    → interrupted disk p ≡ false
    → (p ≡ resolved) ⊎ ((p ≡ no_claim) × (disk.archive_has_pending_journal ≡ false))
unfolding interrupted
uninterrupted disk resolved h = inl refl
uninterrupted disk no_claim h = inr (refl, h)
uninterrupted disk _ h = let bad : ⊥ = cc in elim bad [ ]

-- A recovery removes the flag of another process only if its record is sound, its holder's process is gone,
-- the archive operation that it names left no journal, or, if it names none, the archive has no
-- journal, and the removal is on record.
pub recover_stale_exclusive_safe :
    (os : Processes) (disk : Disk) (f : Flag)
    → recover_stale_exclusive os disk (held f) ≡ absent
    → (flag_identity_ok disk f.owner ≡ true)
      × IsGone os f.owner
      × ((pending_path_state disk f ≡ resolved)
          ⊎ ((pending_path_state disk f ≡ no_claim) × (disk.archive_has_pending_journal ≡ false)))
      × (disk.record_written ≡ true)
unfolding recover_stale_exclusive recoverable
recover_stale_exclusive_safe os disk f h = (
  ground arith,
  dead-IsGone os f.owner (ground arith),
  uninterrupted disk (pending_path_state disk f) (ground arith),
  ground arith,
)
