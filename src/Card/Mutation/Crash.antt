-- ===== src/Card/Mutation/Crash.antt =====
-- A card change that is interrupted, and recoveries that are interrupted too: what holds at every
-- moment, and what a recovery that ends leaves.
use holder_core.Common.{
  ℕ, ◌+◌, ◌≤◌, true, false, Option, none, some, List, ◌≡◌, refl, inl, inr, ◌⊎◌, ◌∙◌, arith, Text,
  Bool-cases, length, ◌<◌, ==_iff, Option-cases, sym,
}
use holder_core.Card.Mutation.{
  thrown, place_eq, journal_file, ◌>>◌, found, Place, git_index, SavedState, Git, World, killed,
  done, next, exists, put, check, git_failure,
}
use holder_core.Card.Mutation.Journal.{begin, restore, construct, open_index, snapshot}
use holder_core.Card.Mutation.Recovery.{
  recover_files, recover_journal, recover_in, restore_original_files, same, index_path,
}
use holder_core.Card.Mutation.Places.{is_touched, is_journal, is_journaled, place_eq_refl, put_ne}
use holder_core.Card.Mutation.Frame.{recover_journal-Frame, put-Frame}
use holder_core.Card.Mutation.Restores.{restore_original_files-Restored, restore-Restored}
use holder_core.Card.Mutation.Saves.{IsGit, IsSaved, construct-Saved}
use holder_core.Card.Mutation.Phases.{
  Early, Late, Late-Frame, Frame-refl, Phase, begin-Phase, opened_found, recover_files_lem,
}

module _ (G : Git) (saved : SavedState G.Oid) (first : World G) where
  -- The worlds that can be met from the start of a card change that does not come to its commit:
  -- it writes any of its files in any way, and stages; it is killed, in any write or between
  -- them, and started again; and a recovery runs to its end or to where it is killed.
  pub data Interrupted : World G → Type 0 where
    began : Interrupted ((begin G saved first).1)
    wrote :
        {w : World G} (p : Place) (content : Option Text)
        → (begin G saved first).0 ≡ done tt
        → is_touched saved.files p ≡ true
        → Interrupted w
        → Interrupted (record w { disk = put w.disk p content })
    restarted :
        {w : World G} (writes : ℕ) (torn : Option Text)
        → Interrupted w
        → Interrupted (record w { writes_left = writes; torn = torn })
    recovering : {w : World G} → Interrupted w → Interrupted ((recover_files G w).1)

  -- What a recovery comes to: all is back; or the index on disk is one that libgit2 refuses, and
  -- all but the index is back, with the journal still there.
  pub data Recovered (w w' : World G) : Type 0 where
    all_back :
        recover_files G w ≡ (done tt, w')
        → w'.disk git_index ≡ first.disk git_index
        → Recovered w w'
    index_refused :
        recover_files G w ≡ (thrown git_failure, w')
        → G.index_open (w.disk git_index) ≡ none
        → w'.disk git_index ≡ w.disk git_index
        → w'.disk (journal_file true) ≡ some (G.to_msgpack saved)
        → Recovered w w'

  -- What holds at each of them.
  unfoldable pub Kept : G.Repo → World G → Type 0
  Kept r w = (((begin G saved first).0 ≡ killed) × Early G r saved first w) ⊎ Late G r saved first w

module _ {G : Git} where
  index_path-opens :
      (w : World G) (index : G.Index)
      → G.index_open (w.disk git_index) ≡ some index
      → index_path G w ≡ (done tt, w)
  unfolding index_path open_index snapshot next check
  index_path-opens w index e = rw (e, check)

  index_path-refuses :
      (w : World G)
      → G.index_open (w.disk git_index) ≡ none
      → index_path G w ≡ (thrown git_failure, w)
  unfolding index_path open_index snapshot next check
  index_path-refuses w e = rw (e, check)

-- An equation of optional commits holds of one and itself.
pub same_refl : {G : Git} → IsGit G → (h : Option G.Oid) → same G h h ≡ true
unfolding same
same_refl laws none = refl
same_refl laws (some oid) = laws.oid_refl oid

module _ {G : Git} (r : G.Repo) {saved : SavedState G.Oid} {first : World G} where
  no_journal_to_recover : (w : World G) → Early G r saved first w → recover_files G w ≡ (done tt, w)
  unfolding recover_files exists
  no_journal_to_recover w h = rw (opened_found w h.refs) (rw (h.journal, exists))

  Interrupted-Kept_from :
      G.from_msgpack (G.to_msgpack saved) ≡ some saved
      → Phase G r saved first (begin G saved first)
      → (w : World G) → Interrupted G saved first w
      → Kept G saved first r w
  unfolding Kept Phase
  Interrupted-Kept_from packs start w began = start
  Interrupted-Kept_from packs start _ (wrote {w} p content ok t i) =
      elim (Interrupted-Kept_from packs start w i) [
        | inl (k, early) ↦ absurd (cc)
        | inr late ↦ inr (Late-Frame late (put-Frame p content w.writes_left w t (Frame-refl w)))
      ]
  Interrupted-Kept_from packs start _ (restarted {w} writes torn i) =
      elim (Interrupted-Kept_from packs start w i) [
        | inl (k, early) ↦
            inl (k, record { refs = early.refs; journal = early.journal; others = early.others })
        | inr late ↦ inr (record { refs = late.refs; journal = late.journal; others = late.others })
      ]
  Interrupted-Kept_from packs start _ (recovering {w} i) =
      elim (Interrupted-Kept_from packs start w i) [
        | inl (k, early) ↦ inl (k, rw (no_journal_to_recover w early) early)
        | inr late ↦ inr (
            rw (recover_files_lem w packs late.refs late.journal)
              (Late-Frame late (recover_journal-Frame G saved w (Frame-refl w))))
      ]

  -- With the branch where it was, recovery restores all that was saved.
  recover_journal_at_head :
      (w : World G)
      → IsGit G
      → IsSaved G r first saved
      → w.repository ≡ found r
      → recover_journal G saved w
        ≡ next
            (restore_original_files G saved.files w)
            (λ _. index_path G >> restore G git_index saved.index)
  unfolding recover_journal recover_in next check
  recover_journal_at_head w laws s o =
      rw (opened_found w o)
        (rw ((==_iff saved.version 2).1 s.version) (rw (s.tip) (rw (same_refl laws saved.head))))

  -- the first half: every file but the index and the journal's own is back
  files_back :
      (w : World G)
      → IsSaved G r first saved
      → Late G r saved first w
      → length saved.files + 1 ≤ w.writes_left
      → (w1 : World G) × (restore_original_files G saved.files w ≡ (done tt, w1))
        × (w1.repository ≡ found r)
        × (0 < w1.writes_left)
        × (w1.disk git_index ≡ w.disk git_index)
        × ((p : Place)
            → is_journal p ≡ false
            → place_eq git_index p ≡ false
            → w1.disk p ≡ first.disk p)
  unfolding is_touched put place_eq
  files_back w s late left =
      let orig = put first.disk git_index (w.disk git_index) in
      let (w1, e1, r1) =
        restore_original_files-Restored {G = G} {orig = orig} saved.files w s.files
          (omega (arith, left)) in
      (
        w1,
        e1,
        r1.refs ∙ late.refs,
        omega (arith, left, r1.left),
        r1.back git_index (inr refl),
        λ p j n.
            r1.back p (elim (Bool-cases (is_journaled saved.files p)) [
              | inl t ↦ inl t
              | inr u ↦ inr (
                  late.others p (ground arith) j
                  ∙ sym (put_ne first.disk git_index p (w.disk git_index) n))
            ])
            ∙ put_ne first.disk git_index p (w.disk git_index) n,
      )

  Late-recovers :
      (w : World G)
      → IsGit G
      → G.from_msgpack (G.to_msgpack saved) ≡ some saved
      → IsSaved G r first saved
      → Late G r saved first w
      → length saved.files + 1 ≤ w.writes_left
      → (w' : World G) × Recovered G saved first w w'
        × (w'.repository ≡ found r)
        × ((p : Place)
            → is_journal p ≡ false
            → place_eq git_index p ≡ false
            → w'.disk p ≡ first.disk p)
  unfolding next
  Late-recovers w laws packs s late left =
      let (w1, e1, refs1, left1, index1, back1) = files_back w s late left in
      let run =
        recover_files_lem w packs late.refs late.journal
        ∙ recover_journal_at_head w laws s late.refs in
      elim (Option-cases (G.index_open (w.disk git_index))) [
        | inl n ↦
            let refused : recover_journal G saved w ≡ (thrown git_failure, w1) =
              recover_journal_at_head w laws s late.refs
              ∙ rw e1 (rw (index_path-refuses w1 (rw index1 n))) in
            let frame = recover_journal-Frame G saved w (Frame-refl w) in
            let kept = (rw refused at frame) in
            (
              w1,
              index_refused (recover_files_lem w packs late.refs late.journal ∙ refused) n index1
                  (Late-Frame late kept).journal,
              refs1,
              back1,
            )
        | inr (index, o) ↦
            let (w2, e2, r2) =
              restore-Restored {G = G} {orig = first.disk} git_index saved.index w1 s.index left1 in
            (
              w2,
              all_back (run ∙ rw e1 (rw (index_path-opens w1 index (rw index1 o)) e2))
                  (r2.back git_index (inl (place_eq_refl git_index))),
              r2.refs ∙ refs1,
              λ p j n. r2.back p (inr (back1 p j n)),
            )
      ]

  -- At every moment of an interrupted card change and of its recoveries, while the branch does
  -- not move: either `begin` was killed before its journal had its name and no file but the
  -- journal's has changed, or the journal is there with all that was saved, and no file has
  -- changed but its own, the index and those that it names. The refs are as before.
  pub Interrupted-Kept :
      (paths : List Text) (changes : List (Text × Option Text)) (w0 w : World G)
      → IsGit G
      → G.from_msgpack (G.to_msgpack saved) ≡ some saved
      → first.repository ≡ found r
      → construct G paths changes first ≡ (done saved, w0)
      → Interrupted G saved first w
      → Kept G saved first r w
  Interrupted-Kept paths changes w0 w laws packs o built i =
      let (same_world, s) = construct-Saved laws paths changes r first w0 saved o built in
      Interrupted-Kept_from packs (begin-Phase G r saved first o s.clear) w i

  -- Let the constructor of a card change save its journal, and let the change be interrupted:
  -- killed in `begin` or later, in any write or between two, with any bytes in the files it may
  -- write, and with any number of recoveries that are killed as well. Unless the branch has
  -- moved, a recovery that can make one write more than the journal has files then puts every
  -- file back but the index and the journal's own, and moves no ref. It ends with the index back
  -- too, or else libgit2 refuses to open the index that was left on disk, and the recovery throws
  -- with that index and the journal still there.
  pub Interrupted-recovers :
      (paths : List Text) (changes : List (Text × Option Text)) (w0 w : World G)
      → IsGit G
      → G.from_msgpack (G.to_msgpack saved) ≡ some saved
      → first.repository ≡ found r
      → construct G paths changes first ≡ (done saved, w0)
      → Interrupted G saved first w
      → length saved.files + 1 ≤ w.writes_left
      → (w' : World G) × Recovered G saved first w w'
        × (w'.repository ≡ found r)
        × ((p : Place)
            → is_journal p ≡ false
            → place_eq git_index p ≡ false
            → w'.disk p ≡ first.disk p)
  unfolding Kept is_journal
  Interrupted-recovers paths changes w0 w laws packs o built i left =
      let (same_world, s) = construct-Saved laws paths changes r first w0 saved o built in
      elim (Interrupted-Kept paths changes w0 w laws packs o built i) [
        | inl (k, early) ↦ (
          w,
          all_back (no_journal_to_recover w early) (early.others git_index refl),
          early.refs,
          λ p j n. early.others p j,
        )
        | inr late ↦ Late-recovers w laws packs s late left
      ]
