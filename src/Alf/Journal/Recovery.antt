-- ===== src/Alf/Journal/Recovery.antt =====
-- A crash within the writes of an operation, and their replay.
use clear_wright.Prelude.{
  ℕ, String, ◌≡◌, ◌≢◌, refl, sym, subst, ap, ◌∙◌, arith, true, false, List, [], ◌∷◌, ◌++◌, Option,
  none, some, str_eq, eq_iff, length, Result, ok, err, concat, has_char, All, Bool-cases,
  Option-cases, ◌⊎◌, Result-cases, inl, inr,
}
use clear_wright.Json.{Fields}
use clear_wright.Alf.Findings.{at_entry}
use clear_wright.Alf.Lines.{
  whole_part, complete_lines, valid_records, line_bytes, whole_part-concat, whole_part-IsWhole,
  line_bytes-IsWhole, complete_lines-concat, valid_records-append, AreParsed,
}
use clear_wright.Alf.Journal.{
  Codec, Staged, append_line, replace_file, Halt, Files, target, content, nth, stands, records,
  is_appended, appended, replaced, is_replaced, matches_old, new_content, with_content,
  apply_staged_write, apply_staged_writes,
}

nth-length : (rs : List Fields) (r : Fields) → nth (length rs) (rs ++ (r ∷ [])) ≡ some r
unfolding nth
nth-length [] r = refl
nth-length (q ∷ rs) r = nth-length rs r

at_entry-same : (f : Files) (p : String) → at_entry f p (f p) ≡ f
unfolding at_entry
at_entry-same f p = λ i k. same k i
  where
    same : (k : String) → at_entry f p (f p) k ≡ f k
    same k = elim (Bool-cases (str_eq p k)) [ inl e ↦ rw (e, (eq_iff p k).0 e) | inr e ↦ rw e ]

at_entry-twice :
    (f : Files) (p : String) (x y : Option String) → at_entry (at_entry f p x) p y ≡ at_entry f p y
unfolding at_entry
at_entry-twice f p x y = λ i k. same k i
  where
    same : (k : String) → at_entry (at_entry f p x) p y k ≡ at_entry f p y k
    same k = elim (Bool-cases (str_eq p k)) [ inl e ↦ rw e | inr e ↦ rw e ]

elsewhere : (f : Files) (p q : String) (x : Option String) → p ≢ q → at_entry f p x q ≡ f q
unfolding at_entry
elsewhere f p q x n = elim (Bool-cases (str_eq p q)) [
  | inl e ↦ elim (n ((eq_iff p q).0 e)) [ ]
  | inr e ↦ rw e
]

at_entry-here : (f : Files) (p : String) (x : Option String) → at_entry f p x p ≡ x
unfolding at_entry
at_entry-here f p x = rw (eq_iff p p).1 refl

module _ (codec : Codec) where
  -- The staged bytes are one line with its newline, which the parser reads as the same record with
  -- and without the newline.
  pub record IsLine (bytes line : String) : Type 0 where
    pub ended : bytes ≡ line_bytes line
    pub single : has_char 10 line ≡ false
    pub same : stands (codec.parse line) (codec.parse bytes) ≡ true

  -- The lines of the target can be parsed, and the staged bytes are one line with a hash.
  abbrev pub IsReady : Files → Staged → Type 0
  IsReady f (append_line t bytes place prev) =
      AreParsed codec.parse (complete_lines (whole_part (content (f t))))
      × ((line : String) × IsLine bytes line)
  IsReady f (replace_file t bytes old) = Unit

  parsed :
      (line bytes : String)
      → stands (codec.parse line) (codec.parse bytes) ≡ true
      → (r : Fields) × ((codec.parse line ≡ some r) × (stands (some r) (codec.parse bytes) ≡ true))
  unfolding stands
  parsed line bytes h = elim (Option-cases (codec.parse line)) [
    | inl n ↦ let g : stands none (codec.parse bytes) ≡ true = rw n at h in ground (arith, g)
    | inr (r, n) ↦ (r, (n, rw n at h))
  ]

  appended_lem :
      (line bytes s : String)
      → AreParsed codec.parse (complete_lines (whole_part s))
      → IsLine bytes line
      → is_appended codec bytes
          (length (records codec (whole_part s)))
          (concat (whole_part s) (line_bytes line))
        ≡ true
  unfolding is_appended records
  appended_lem line bytes s a k =
      let (r, (e, h)) = parsed line bytes k.same in
      rw (
        complete_lines-concat (whole_part s) line (whole_part-IsWhole s) k.single,
        valid_records-append codec.parse (complete_lines (whole_part s)) line r a e,
        nth-length (valid_records codec.parse (complete_lines (whole_part s))) r,
        h,
      )

  replaced_ok :
      (t bytes : String) (old s x : Option String)
      → replaced codec t bytes old s ≡ ok x
      → is_replaced codec bytes x ≡ true
  unfolding replaced is_replaced
  replaced_ok t bytes old s x e = elim (Bool-cases (is_replaced codec bytes s)) [
    | inl a ↦ let g = rw (a, replaced) at e in ground (arith, g)
    | inr a ↦ elim (Bool-cases (matches_old codec old s)) [
      | inl b ↦
          let same = (eq_iff (codec.sha256 bytes) (codec.sha256 bytes)).1 refl in
          let g = rw (a, b, replaced) at e in ground (arith, g, same)
      | inr b ↦ let g = rw (a, b, replaced) at e in ground (arith, g)
    ]
  ]

  appended_ok :
      (t line : String) (place : ℕ) (prev s : String) (x : Option String)
      → appended codec t line place prev s ≡ ok x
      → ((is_appended codec line place s ≡ true) × (x ≡ some s))
        ⊎ ((length (records codec s) ≡ place) × (x ≡ some (concat s line)))
  unfolding appended
  appended_ok t line place prev s x e = ground arith

  appended_redo :
      (t line : String) (place : ℕ) (prev s : String)
      → is_appended codec line place s ≡ true
      → appended codec t line place prev s ≡ ok (some s)
  unfolding appended
  appended_redo t line place prev s a = rw a

  replaced_redo :
      (t bytes : String) (old x : Option String)
      → is_replaced codec bytes x ≡ true
      → replaced codec t bytes old x ≡ ok x
  unfolding replaced
  replaced_redo t bytes old x a = rw a

  -- The second write of the same bytes changes nothing.
  new_content-twice :
      (f : Files) (w : Staged) (x : Option String)
      → IsReady f w
      → new_content codec w (f (target w)) ≡ ok x
      → new_content codec w x ≡ ok x
  unfolding new_content content
  new_content-twice f (append_line t bytes place prev) x ready e =
      elim (appended_ok t bytes place prev (whole_part (content (f t))) x e) [
        | inl (a, at) ↦ rw (
          at,
          whole_part-IsWhole (content (f t)),
          appended_redo t bytes place prev (whole_part (content (f t))) a,
        )
        | inr (n, at) ↦
            let (line, k) = ready.1 in
            let there = appended_lem line bytes (content (f t)) ready.0 k in
            rw (
              at,
              k.ended,
              line_bytes-IsWhole (whole_part (content (f t))) line,
              appended_redo t (line_bytes line) place prev
                  (concat (whole_part (content (f t))) (line_bytes line))
                  (rw (n, k.ended) at there),
            )
      ]
  new_content-twice f (replace_file t bytes old) x ready e =
      replaced_redo t bytes old x (replaced_ok t bytes old (f t) x e)

  -- What a crash leaves: nothing done; the line being appended torn; or a write done and a crash
  -- within the rest.
  pub data Crashed : List Staged → Files → Files → Type 0 where
    at_start : (ws : List Staged) (f : Files) → Crashed ws f f
    torn :
        (t line : String) (place : ℕ) (prev : String) (ws : List Staged) (f : Files) (part : String)
        → has_char 10 part ≡ false
        → Crashed
            (append_line t line place prev ∷ ws)
            f
            (at_entry f t (some (concat (whole_part (content (f t))) part)))
    after :
        (w : Staged) (ws : List Staged) (f g h : Files)
        → apply_staged_write codec f w ≡ ok g
        → Crashed ws g h
        → Crashed (w ∷ ws) f h

  abbrev pub AreApart : List Staged → Type 0
  AreApart [] = Unit
  AreApart (w ∷ ws) = All (λ v. target w ≢ target v) ws × AreApart ws

  with_content-twice :
      (f : Files) (t : String) (x : Option String) (r : Result Halt (Option String))
      → with_content codec (at_entry f t x) t r ≡ with_content codec f t r
  unfolding with_content
  with_content-twice f t x (err e) = refl
  with_content-twice f t x (ok y) = ap ok (at_entry-twice f t x y)

  torn_write :
      (t line : String) (place : ℕ) (prev : String) (f : Files) (part : String)
      → has_char 10 part ≡ false
      → apply_staged_write codec
          (at_entry f t (some (concat (whole_part (content (f t))) part)))
          (append_line t line place prev)
        ≡ apply_staged_write codec f (append_line t line place prev)
  unfolding apply_staged_write with_content new_content at_entry content
  torn_write t line place prev f part h =
      let here : str_eq t t ≡ true = (eq_iff t t).1 refl in
      rw
        (
          here,
          whole_part-concat (whole_part (content (f t))) part h,
          whole_part-IsWhole (content (f t)),
        )
        (with_content-twice f t (some (concat (whole_part (content (f t))) part))
          (appended codec t line place prev (whole_part (content (f t)))))

  applied :
      (f g : Files) (w : Staged)
      → apply_staged_write codec f w ≡ ok g
      → (x : Option String) × ((new_content codec w (f (target w)) ≡ ok x)
          × (g ≡ at_entry f (target w) x))
  unfolding apply_staged_write with_content
  applied f g w e = elim (Result-cases (new_content codec w (f (target w)))) [
    | inl (h, n) ↦
        let k = rw (n, with_content) at e in
        (h, (n, sym (ap (λ r. elim r [ ok y ↦ y | err y ↦ f ]) k)))
    | inr (x, n) ↦
        let k = rw (n, with_content) at e in
        let bad : false ≡ true = ap (λ r. elim r [ ok y ↦ true | err y ↦ false ]) k in
        let none_left : ⊥ = ground arith in elim none_left [ ]
  ]

  -- A crash within the writes has touched no other file.
  unchanged :
      (ws : List Staged) (f h : Files) (p : String)
      → Crashed ws f h
      → All (λ v. p ≢ target v) ws
      → h p ≡ f p
  unchanged ws f h p (at_start _ _) n = refl
  unchanged ws f h p (torn t line place prev rest _ part j) n =
      elsewhere f t p (some (concat (whole_part (content (f t))) part)) (λ e. n.0 (sym e))
  unchanged ws f h p (after w rest _ g _ done c) n =
      let (x, (fine, there)) = applied f g w done in
      rw (unchanged rest g h p c n.1, there, elsewhere f (target w) p x (λ e. n.0 (sym e)))

  -- A write leaves the files of the others ready.
  kept-IsReady :
      (ws : List Staged) (f : Files) (p : String) (x : Option String)
      → All (λ v. p ≢ target v) ws
      → All (IsReady f) ws
      → All (IsReady (at_entry f p x)) ws
  kept-IsReady [] f p x n r = r
  kept-IsReady (append_line t line place prev ∷ ws) f p x n r =
      (rw (elsewhere f p t x n.0) r.0, kept-IsReady ws f p x n.1 r.1)
  kept-IsReady (replace_file t bytes old ∷ ws) f p x n r = (r.0, kept-IsReady ws f p x n.1 r.1)

  -- A write of what already stands in its target leaves the files as they are.
  settled :
      (h : Files) (w : Staged) (x : Option String)
      → h (target w) ≡ x
      → new_content codec w x ≡ ok x
      → apply_staged_write codec h w ≡ ok h
  unfolding apply_staged_write with_content
  settled h w x e n = rw (e, n, sym e, at_entry-same h (target w))

  first_done :
      (f g : Files) (w : Staged) (ws : List Staged)
      → apply_staged_write codec f w ≡ ok g
      → apply_staged_writes codec f (w ∷ ws) ≡ apply_staged_writes codec g ws
  unfolding apply_staged_writes
  first_done f g w ws e = rw (e, apply_staged_writes)

  -- Where the staged writes go through from some files, they go through from whatever a crash among
  -- them leaves, and with the same files at the end: the targets are distinct, the lines of a target
  -- that is appended to can be parsed, and a staged append is one line with its newline, which reads
  -- as one record with a hash with and without it.
  pub apply_staged_writes-Crashed :
      (ws : List Staged) (f h last : Files)
      → AreApart ws
      → All (IsReady f) ws
      → apply_staged_writes codec f ws ≡ ok last
      → Crashed ws f h
      → apply_staged_writes codec h ws ≡ ok last
  unfolding apply_staged_writes
  apply_staged_writes-Crashed ws f h last apart ready e (at_start _ _) = e
  apply_staged_writes-Crashed ws f h last apart ready e (torn t line place prev rest _ part j) =
      rw (torn_write t line place prev f part j, apply_staged_writes) e
  apply_staged_writes-Crashed ws f h last apart ready e (after w rest _ g _ done c) =
      let (x, (fine, there)) = applied f g w done in
      let left : h (target w) ≡ x =
        unchanged rest g h (target w) c apart.0
        ∙ (ap (λ k. k (target w)) there ∙ at_entry-here f (target w) x) in
      let again = settled h w x left (new_content-twice f w x ready.0 fine) in
      let ready_then : All (IsReady g) rest =
        subst (λ k. All (IsReady k) rest) (sym there)
          (kept-IsReady rest f (target w) x apart.0 ready.1) in
      let e_rest : apply_staged_writes codec g rest ≡ ok last =
        rw (sym (first_done f g w rest done)) e in
      rw (first_done h h w rest again)
        (apply_staged_writes-Crashed rest g h last apart.1 ready_then e_rest c)
