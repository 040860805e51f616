-- ===== src/Examples/WriterLock.antt =====
-- The theorems on the writer lock at concrete registries.
use clear_wright.Prelude.{true, false, [], ◌∷◌, none, some, ◌==◌}
use clear_wright.WriterLock.{
  Processes, Owner, Token, Flag, absent, held, Registry, Disk, acquire_write_token,
  acquire_exclusive,
}
use clear_wright.WriterLock.Exclusion.{
  IsExclusive, Reaches, start, after, exclusive_asked, Reaches-IsExclusive,
}
use clear_wright.WriterLock.Removal.{Removal}

-- Process 7 is alive; no other process is.
abbrev processes : Processes
processes = record {
  this_host = "h";
  pid_exists = λ pid. some (pid == 7);
  exited = λ pid. false;
  start_time = λ pid. some "t";
}

abbrev disk : Disk
disk = record {
  pid_max = 4194304;
  is_abs = λ s. true;
  basename = λ s. s;
  in_archive = λ s. true;
  is_file = λ s. false;
  archive_has_pending_journal = false;
  record_written = true;
  flag_removed = true;
}

abbrev gone_owner : Owner
gone_owner = record { pid = 5; host = "h"; proc_start = some "t" }

abbrev gone_token : Token
gone_token = record { token_id = "a"; owner = gone_owner }

abbrev old_flag : Flag
old_flag = record { opid = "o"; nonce = "n"; owner = gone_owner; pending_path = none }

abbrev new_flag : Flag
new_flag = record {
  opid = "p";
  nonce = "m";
  owner = record gone_owner { pid = 7 };
  pending_path = none;
}

abbrev registry : Registry
registry = record { flag = absent; tokens = gone_token ∷ [] }

free : IsExclusive processes registry
free h = let bad : ⊥ = cc in elim bad [ ]

asked :
    Reaches
      (processes, registry)
      (processes, (acquire_exclusive processes disk registry new_flag (λ id. false)).1)
asked = after start (exclusive_asked disk new_flag (λ id. false))

Reaches-IsExclusive_example :
    IsExclusive processes (acquire_exclusive processes disk registry new_flag (λ id. false)).1
Reaches-IsExclusive_example = Reaches-IsExclusive processes registry asked free

-- A writer finds the flag of a process that is gone.
abbrev left_behind : Registry
left_behind = record { flag = held old_flag; tokens = [] }

abbrev found_gone : Registry
found_gone = (acquire_write_token processes disk left_behind gone_token).1
