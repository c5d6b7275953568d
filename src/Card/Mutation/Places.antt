-- ===== src/Card/Mutation/Places.antt =====
-- The places of a card change: which it may write, and what a write does to a file.
use holder_core.Common.{
  Bool, true, false, Option, List, [], ◌∷◌, ◌≡◌, refl, ap, inl, inr, ◌||◌, arith, Text,
  text_eq_sound, text_eq_refl, Bool-cases,
}
use holder_core.Card.Mutation.{
  Place, project_file, git_index, journal_file, journal_temporary, place_eq, JournalFile, put,
}

pub place_eq_refl : (p : Place) → place_eq p p ≡ true
unfolding place_eq
place_eq_refl (project_file a) = text_eq_refl a
place_eq_refl git_index = refl
place_eq_refl (journal_file true) = refl
place_eq_refl (journal_file false) = refl
place_eq_refl (journal_temporary true) = refl
place_eq_refl (journal_temporary false) = refl

pub place_eq_sound : (p q : Place) → place_eq p q ≡ true → p ≡ q
unfolding place_eq
place_eq_sound (project_file a) (project_file b) h = ap project_file (text_eq_sound a b h)
place_eq_sound git_index git_index h = refl
place_eq_sound (journal_file true) (journal_file true) h = refl
place_eq_sound (journal_file false) (journal_file false) h = refl
place_eq_sound (journal_temporary true) (journal_temporary true) h = refl
place_eq_sound (journal_temporary false) (journal_temporary false) h = refl
place_eq_sound _ _ h = ground arith

-- the place of one of the files
unfoldable pub is_journaled : List JournalFile → Place → Bool
is_journaled [] p = false
is_journaled (f ∷ fs) p = place_eq (project_file f.key) p || is_journaled fs p

-- what a card change and its recovery may write: the files of the journal, and the index
unfoldable pub is_touched : List JournalFile → Place → Bool
is_touched fs p = place_eq git_index p || is_journaled fs p

-- the journal under its final or its temporary name
unfoldable pub is_journal : Place → Bool
is_journal (journal_file b) = true
is_journal (journal_temporary b) = true
is_journal _ = false

pub is_journaled-is_journal :
    (fs : List JournalFile) (p : Place) → is_journal p ≡ true → is_journaled fs p ≡ false
unfolding is_journaled is_journal place_eq
is_journaled-is_journal [] p h = refl
is_journaled-is_journal (f ∷ fs) (journal_file b) h = is_journaled-is_journal fs (journal_file b) h
is_journaled-is_journal (f ∷ fs) (journal_temporary b) h =
    is_journaled-is_journal fs (journal_temporary b) h
is_journaled-is_journal (f ∷ fs) (project_file a) h = cc
is_journaled-is_journal (f ∷ fs) git_index h = cc

pub is_touched-is_journal :
    (fs : List JournalFile) (p : Place) → is_journal p ≡ true → is_touched fs p ≡ false
unfolding is_touched is_journal place_eq
is_touched-is_journal fs (journal_file b) h = is_journaled-is_journal fs (journal_file b) h
is_touched-is_journal fs (journal_temporary b) h =
    is_journaled-is_journal fs (journal_temporary b) h
is_touched-is_journal fs (project_file a) h = cc
is_touched-is_journal fs git_index h = cc

pub put_self :
    (disk : Place → Option Text) (p : Place) (content : Option Text)
    → put disk p content p ≡ content
unfolding put
put_self disk p content = rw (place_eq_refl p)

pub put_ne :
    (disk : Place → Option Text) (p q : Place) (content : Option Text)
    → place_eq p q ≡ false
    → put disk p content q ≡ disk q
unfolding put
put_ne disk p q content h = rw h

-- A test that tells two places apart.
pub apart :
    (test : Place → Bool) (p q : Place) → test p ≡ true → test q ≡ false → place_eq p q ≡ false
apart test p q a b = elim (Bool-cases (place_eq p q)) [
  | inl h ↦ absurd (cc (ap test (place_eq_sound p q h)))
  | inr h ↦ h
]
