-- ===== src/Alf/Journal/Recover/Complete.antt =====
-- The recovery of an operation that a crash cut off.
use clear_wright.Prelude.{
  String, ◌≡◌, refl, ap, arith, Bool, true, false, List, [], ◌∷◌, ◌++◌, some, str_eq, ok, err, All,
  Result-cases, inl, inr,
}
use clear_wright.Alf.Paths.{safe_id, safe_rel}
use clear_wright.Alf.Journal.{Codec, Staged, Files, apply_staged_write, apply_staged_writes}
use clear_wright.Alf.Journal.Recovery.{Crashed, AreApart, IsReady, apply_staged_writes-Crashed}
use clear_wright.Alf.Journal.Recover.{
  Entry, Begin, JournalEvent, op_begin, op_commit, Staging, staged_of, is_committed, begins, found,
  halted, is_unsafe, replay_entry, replay, recover_ops, commit_events, recover,
}

module _ (codec : Codec) where
  -- The bytes of the entry are staged, under the digest of the entry and under safe names.
  pub record IsIntact (staging : Staging) (id : String) (e : Entry) (w : Staged) : Type 0 where
    pub bytes : String
    pub held : staging id e.staged_file ≡ some bytes
    pub same : str_eq (codec.sha256 bytes) e.content_sha256 ≡ true
    pub safe_file : safe_id e.staged_file ≡ true
    pub safe_target : is_unsafe codec (safe_rel e.target_path) ≡ false
    pub write : staged_of e.target_path e.expected bytes ≡ w

  abbrev pub AreIntact : Staging → String → List Entry → List Staged → Type 0
  AreIntact staging id [] [] = Unit
  AreIntact staging id [] (w ∷ ws) = ⊥
  AreIntact staging id (e ∷ es) [] = ⊥
  AreIntact staging id (e ∷ es) (w ∷ ws) = IsIntact staging id e w × AreIntact staging id es ws

  replay_entry-IsIntact :
      (staging : Staging) (id : String) (f : Files) (e : Entry) (w : Staged)
      → IsIntact staging id e w
      → replay_entry codec staging id f e ≡ halted codec (apply_staged_write codec f w)
  unfolding replay_entry found
  replay_entry-IsIntact staging id f e w k =
      rw (k.safe_file, k.safe_target, k.held, k.same, k.write)

  replay-AreIntact :
      (staging : Staging) (id : String) (es : List Entry) (ws : List Staged) (f last : Files)
      → AreIntact staging id es ws
      → apply_staged_writes codec f ws ≡ ok last
      → replay codec staging id f es ≡ ok last
  unfolding replay apply_staged_writes halted
  replay-AreIntact staging id [] [] f last k e = ap ok (ap (λ r. elim r [ ok y ↦ y | err y ↦ f ]) e)
  replay-AreIntact staging id [] (w ∷ ws) f last k e = elim k [ ]
  replay-AreIntact staging id (x ∷ es) [] f last k e = elim k [ ]
  replay-AreIntact staging id (x ∷ es) (w ∷ ws) f last k e =
      elim (Result-cases (apply_staged_write codec f w)) [
        | inl (g, n) ↦
            let through : apply_staged_writes codec g ws ≡ ok last =
              rw (n, apply_staged_writes) at e in
            rw (replay_entry-IsIntact staging id f x w k.0, n, replay)
              (replay-AreIntact staging id es ws g last k.1 through)
        | inr (h, n) ↦
            let bad : false ≡ true =
              ap (λ r. elim r [ ok y ↦ true | err y ↦ false ]) (rw (n, apply_staged_writes) at e) in
            let none_left : ⊥ = ground arith in elim none_left [ ]
      ]

  recover_ops-settled :
      (staging : Staging) (committed : String → Bool) (f : Files) (bs cs : List Begin)
      → All (λ b. committed b.op_id ≡ true) bs
      → recover_ops codec staging committed f (bs ++ cs) ≡ recover_ops codec staging committed f cs
  unfolding recover_ops
  recover_ops-settled staging committed f [] cs all_done = refl
  recover_ops-settled staging committed f (b ∷ bs) cs all_done =
      rw (all_done.0, recover_ops) (recover_ops-settled staging committed f bs cs all_done.1)

  begins-append :
      (es : List JournalEvent) (b : Begin)
      → begins (es ++ (op_begin b ∷ [])) ≡ (begins es ++ (b ∷ []))
  unfolding begins
  begins-append [] b = refl
  begins-append (op_begin c ∷ es) b = ap (λ bs. c ∷ bs) (begins-append es b)
  begins-append (op_commit c ∷ es) b = begins-append es b

  -- Where a crash has cut off the writes of the last operation of the journal, an append torn midway
  -- included, and all before it are committed, a recovery leaves the files of the uninterrupted
  -- commit, records the commit and names this operation alone: the staged bytes are intact under safe
  -- names, the targets are distinct, the lines of a target that is appended to can be parsed, a staged
  -- append is one line with its newline, which reads as one record with a hash with and without it,
  -- and the writes would have gone through.
  pub recover-Crashed :
      (staging : Staging) (events : List JournalEvent) (b : Begin) (ws : List Staged)
      (f h last : Files)
      → All (λ c. is_committed (events ++ (op_begin b ∷ [])) c.op_id ≡ true) (begins events)
      → is_committed (events ++ (op_begin b ∷ [])) b.op_id ≡ false
      → AreIntact staging b.op_id b.staged_writes ws
      → AreApart codec ws
      → All (IsReady codec f) ws
      → apply_staged_writes codec f ws ≡ ok last
      → Crashed codec ws f h
      → recover codec staging h (events ++ (op_begin b ∷ []))
        ≡ ok (last, (((events ++ (op_begin b ∷ [])) ++ (op_commit b.op_id ∷ [])), b.op_id ∷ []))
  unfolding recover recover_ops commit_events
  recover-Crashed staging events b ws f h last settled is_open intact apart ready through crashed =
      let again = apply_staged_writes-Crashed codec ws f h last apart ready through crashed in
      rw (
        begins-append events b,
        recover_ops-settled staging (is_committed (events ++ (op_begin b ∷ []))) h (begins events)
            (b ∷ []) settled,
        is_open,
        recover_ops,
        replay-AreIntact staging b.op_id b.staged_writes ws h last intact again,
      )
