-- ===== src/Gate/Subject/Alias.antt =====
-- Every alias of a packet has the packet's own subject.
use Prim.Native.String.{[], ◌∷◌}
use clear_wright.Prelude.{
  String, ◌≡◌, refl, true, false, arith, concat, is_blank, is_solid, is_space, strip, strip_solid,
  solid-concat, length-concat, take-concat, starts_with, ends_with, ends_with-concat, same_text,
  has_char,
}
use clear_wright.Gate.Subject.{subject_of, canonical_subject, slice}

-- A packet id with no colon and no white space, and at least one character.
pub record IsPacketId (s : String) : Type 0 where
  pub solid : is_solid s ≡ true
  pub uncoloned : has_char 58 s ≡ false
  pub nonempty : is_blank s ≡ false

ends_with_plain : (s : String) → has_char 58 s ≡ false → ends_with ":cta" s ≡ false
ends_with_plain [] h = refl
ends_with_plain (c ∷ s) h = ground (arith, ends_with_plain s)

starts_uncoloned :
    (t s : String) → has_char 58 t ≡ true → has_char 58 s ≡ false → starts_with t s ≡ false
starts_uncoloned [] s a b = cc
starts_uncoloned (x ∷ t) [] a b = refl
starts_uncoloned (x ∷ t) (c ∷ s) a b = ground (arith, starts_uncoloned t s)

module _ (pid : String) (i : IsPacketId pid) where
  stripped :
      (prefix : String) → is_solid prefix ≡ true → strip (concat prefix pid) ≡ concat prefix pid
  stripped prefix a = strip_solid _ (solid-concat prefix pid a i.solid)

  sliced : slice 7 4 (concat "packet:" (concat pid ":cta")) ≡ pid
  sliced = take-concat pid ":cta" _ (omega (arith, length-concat pid ":cta"))

  subject-cta : subject_of (concat "packet:" (concat pid ":cta")) ≡ concat "packet:" pid
  unfolding subject_of
  subject-cta = rw (ends_with-concat pid ":cta", sliced) (ground arith)

  subject-in_progress : subject_of (concat "in_progress:" pid) ≡ concat "packet:" pid
  unfolding subject_of
  subject-in_progress = refl

  subject-rfi : subject_of (concat "rfi:" pid) ≡ concat "packet:" pid
  unfolding subject_of
  subject-rfi = refl

  subject-packet :
      same_text "cta" pid ≡ false → subject_of (concat "packet:" pid) ≡ concat "packet:" pid
  unfolding subject_of
  subject-packet e = rw (ends_with_plain pid i.uncoloned) (ground arith)

  subject-bare : subject_of pid ≡ concat "packet:" pid
  unfolding subject_of
  subject-bare = rw (
    i.nonempty,
    starts_uncoloned "message:" pid refl i.uncoloned,
    starts_uncoloned "packet:" pid refl i.uncoloned,
    starts_uncoloned "in_progress:" pid refl i.uncoloned,
    starts_uncoloned "rfi:" pid refl i.uncoloned,
    i.uncoloned,
    subject_of,
  )

  -- Every alias of a packet has one subject: the clearance, in-progress and question ids of its
  -- work items, the packet's subject itself and its bare id, for an id without colons and white
  -- space. The id must not be `cta`: for that one, `packet:cta` reads as the clearance alias of
  -- an empty id.
  pub subject_of_alias :
      same_text "cta" pid ≡ false
      → (canonical_subject (concat "packet:" (concat pid ":cta")) ≡ concat "packet:" pid)
        × (canonical_subject (concat "in_progress:" pid) ≡ concat "packet:" pid)
        × (canonical_subject (concat "rfi:" pid) ≡ concat "packet:" pid)
        × (canonical_subject (concat "packet:" pid) ≡ concat "packet:" pid)
        × (canonical_subject pid ≡ concat "packet:" pid)
  unfolding canonical_subject is_space
  subject_of_alias e = (
    rw (strip_solid (concat "packet:" (concat pid ":cta")) (solid-concat pid ":cta" i.solid refl))
        subject-cta,
    rw (stripped "in_progress:" refl) subject-in_progress,
    rw (stripped "rfi:" refl) subject-rfi,
    rw (stripped "packet:" refl) (subject-packet e),
    rw (strip_solid pid i.solid) subject-bare,
  )
