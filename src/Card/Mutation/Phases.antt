-- ===== src/Card/Mutation/Phases.antt =====
-- Before and behind the moment at which the journal of a card change has its name, which is when
-- `begin` renames it.
use holder_core.Common.{
  ℕ, zero, suc, Bool, true, false, Option, none, some, List, ◌≡◌, refl, inl, inr, ◌⊎◌, ◌∙◌, Text,
  sym, subst,
}
use holder_core.Card.Mutation.{
  Fault, found, Place, journal_file, journal_temporary, JournalFile, SavedState, Git, World,
  Outcome, killed, next, exists, put, place_eq, opened, read_file, write_file, write_within,
  rename_file, rename_within,
}
use holder_core.Card.Mutation.Journal.{begin, read_head_tree}
use holder_core.Card.Mutation.Recovery.{recover_files, recover_journal, parsed_journal}
use holder_core.Card.Mutation.Places.{
  is_touched, is_journal, is_touched-is_journal, put_ne, put_self, apart,
}
use holder_core.Card.Mutation.Frame.{Frame, read_head_tree-Frame}
use holder_core.Card.Mutation.Restores.{read_back_same}

module _ (G : Git) (r : G.Repo) (saved : SavedState G.Oid) (first : World G) where
  -- before the journal has its name: nothing but its temporary file is written
  pub record Early (w : World G) : Type 0 where
    pub refs : w.repository ≡ found r
    pub journal : w.disk (journal_file true) ≡ none
    pub others : (p : Place) → is_journal p ≡ false → w.disk p ≡ first.disk p

  -- from then on: the journal is there, and files that it does not name are as they were
  pub record Late (w : World G) : Type 0 where
    pub refs : w.repository ≡ found r
    pub journal : w.disk (journal_file true) ≡ some (G.to_msgpack saved)
    pub others :
        (p : Place)
        → is_touched saved.files p ≡ false
        → is_journal p ≡ false
        → w.disk p ≡ first.disk p

pub Frame-refl : {G : Git} {fs : List JournalFile} (w : World G) → Frame G fs w w
Frame-refl w = record { refs = refl; others = λ p t. refl }

pub opened_found : {G : Git} {r : G.Repo} (w : World G) → w.repository ≡ found r → opened w ≡ some r
unfolding opened
opened_found w h = rw h

rename_found :
    {G : Git} (from to : Place) (content : Text) (w : World G)
    → w.disk from ≡ some content
    → rename_file from to w ≡ rename_within w.writes_left from to content w
unfolding rename_file
rename_found from to content w e = rw (e, rename_file)

module _ {G : Git} {r : G.Repo} {saved : SavedState G.Oid} {first : World G} where
  pub Late-Frame :
      {w w' : World G} → Late G r saved first w → Frame G saved.files w w' → Late G r saved first w'
  unfolding is_journal
  Late-Frame h k = record {
    refs = k.refs ∙ h.refs;
    journal =
        k.others (journal_file true) (is_touched-is_journal saved.files (journal_file true) refl)
        ∙ h.journal;
    others = λ p t j. k.others p t ∙ h.others p t j;
  }

-- With the journal in place, `recover_files` reads it back and works on it.
pub recover_files_lem :
    {G : Git} {r : G.Repo} {saved : SavedState G.Oid} (w : World G)
    → G.from_msgpack (G.to_msgpack saved) ≡ some saved
    → w.repository ≡ found r
    → w.disk (journal_file true) ≡ some (G.to_msgpack saved)
    → recover_files G w ≡ recover_journal G saved w
unfolding recover_files exists read_file parsed_journal next
recover_files_lem {saved} w packs o j =
    rw (opened_found w o) (rw (j, exists, read_file) (rw (packs, next, parsed_journal)))

module _ (G : Git) (r : G.Repo) (saved : SavedState G.Oid) where
  -- a world in which a repository is open
  abbrev opening : (Place → Option Text) → Bool → ℕ → Option Text → World G
  opening disk git n torn = record {
    disk = disk;
    repository = found r;
    git_directory = git;
    writes_left = n;
    torn = torn;
  }

  begin_written :
      (disk : Place → Option Text) (git : Bool) (n : ℕ) (torn : Option Text)
      → let with_temporary = put disk (journal_temporary true) (some (G.to_msgpack saved)) in
        begin G saved (opening disk git (suc n) torn)
        ≡ next
            (rename_within n
              (journal_temporary true)
              (journal_file true)
              (G.to_msgpack saved)
              (opening with_temporary git n torn))
            (λ _. read_head_tree G (some r) saved)
  unfolding begin opened write_file write_within next
  begin_written disk git n torn =
      let t = put_self disk (journal_temporary true) (some (G.to_msgpack saved)) in
      rw
        (read_back_same (journal_temporary true) (G.to_msgpack saved)
          Fault.incomplete_recovery_journal
          (opening (put disk (journal_temporary true) (some (G.to_msgpack saved))) git n torn) t)
        (rw (
          rename_found (journal_temporary true) (journal_file true) (G.to_msgpack saved)
            (opening (put disk (journal_temporary true) (some (G.to_msgpack saved))) git n torn) t))

  -- Writes of the temporary file, by a process that then has some writes left.
  Early-temporary :
      (disk : Place → Option Text) (git : Bool) (n m : ℕ) (torn content : Option Text)
      → disk (journal_file true) ≡ none
      → Early G r saved
          (opening disk git n torn)
          (opening (put disk (journal_temporary true) content) git m torn)
  unfolding is_journal place_eq
  Early-temporary disk git n m torn content c = record {
    refs = refl;
    journal = put_ne disk (journal_temporary true) (journal_file true) content refl ∙ c;
    others = λ p j.
        put_ne disk (journal_temporary true) p content
          (apart is_journal (journal_temporary true) p refl j);
  }

  Late-renamed :
      (disk : Place → Option Text) (git : Bool) (n m : ℕ) (torn : Option Text)
      → let content = some (G.to_msgpack saved) in
        let with_temporary = put disk (journal_temporary true) content in
        Late G r saved (opening disk git n torn) (
          opening
            (put (put with_temporary (journal_file true) content) (journal_temporary true) none)
            git
            m
            torn)
  unfolding is_journal place_eq
  Late-renamed disk git n m torn = record {
    refs = refl;
    journal =
        put_ne _ (journal_temporary true) (journal_file true) none refl
        ∙ put_self _ (journal_file true) (some (G.to_msgpack saved));
    others = λ p t j.
        put_ne _ (journal_temporary true) p none
          (apart is_journal (journal_temporary true) p refl j)
        ∙ put_ne _ (journal_file true) p _ (apart is_journal (journal_file true) p refl j)
        ∙ put_ne disk (journal_temporary true) p _
            (apart is_journal (journal_temporary true) p refl j);
  }

  -- `begin` is killed before the journal has its name, or gets further with the journal there.
  unfoldable pub Phase : World G → Outcome (Unit {0}) × World G → Type 0
  Phase w x = ((x.0 ≡ killed) × Early G r saved w x.1) ⊎ Late G r saved w x.1

  begin_at :
      (disk : Place → Option Text) (git : Bool) (n : ℕ) (torn : Option Text)
      → disk (journal_file true) ≡ none
      → Phase (opening disk git n torn) (begin G saved (opening disk git n torn))
  unfolding Phase begin opened write_file write_within rename_within next
  begin_at disk git zero torn c = inl (refl, Early-temporary disk git 0 0 torn torn c)
  begin_at disk git (suc zero) torn c =
      subst (Phase (opening disk git 1 torn)) (sym (begin_written disk git 0 torn))
        (inl (refl, Early-temporary disk git 1 0 torn (some (G.to_msgpack saved)) c))
  begin_at disk git (suc (suc n)) torn c =
      subst (Phase (opening disk git (suc (suc n)) torn))
        (sym (begin_written disk git (suc n) torn))
        (inr (
          Late-Frame (Late-renamed disk git (suc (suc n)) n torn)
            (read_head_tree-Frame (some r) saved _ (Frame-refl _))))

  pub begin-Phase :
      (w : World G)
      → w.repository ≡ found r
      → w.disk (journal_file true) ≡ none
      → Phase w (begin G saved w)
  begin-Phase w o c =
      subst (λ x. Phase (record w { repository = x }) (begin G saved (record w { repository = x })))
        (sym o) (begin_at w.disk w.git_directory w.writes_left w.torn c)
