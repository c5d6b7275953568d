-- ===== src/Card/Mutation/RollBack.antt =====
-- A card change that fails and is rolled back by its own process: all is as before it.
use holder_core.Common.{
  ℕ, ◌+◌, ◌≤◌, ◌<◌, true, false, Option, none, some, List, ◌≡◌, refl, inl, inr, ◌⊎◌, ◌∙◌, arith,
  Text, ℕ-cases, length, ap, suc,
}
use holder_core.Card.Mutation.{
  found, Place, git_index, journal_file, SavedState, Git, World, done, next, check, set_repository,
  set_within,
}
use holder_core.Card.Mutation.Journal.{restore, construct, finish}
use holder_core.Card.Mutation.Recovery.{
  same, branch_tip, is_operation_commit, reset_branch, reset_own, roll_back_in, roll_back, rollback,
}
use holder_core.Card.Mutation.Places.{is_touched, apart, place_eq_refl}
use holder_core.Card.Mutation.Phases.{opened_found}
use holder_core.Card.Mutation.Restores.{
  restore_original_files-Restored, restore-Restored, Restored-trans,
}
use holder_core.Card.Mutation.Saves.{IsGit, IsSaved, construct-Saved}
use holder_core.Card.Mutation.Crash.{same_refl}

module _ (G : Git) (saved : SavedState G.Oid) where
  -- the branch back at the saved head, or gone if it was not born
  abbrev pub reset_target : G.Repo → Text → Option G.Oid → Option G.Repo
  reset_target r name none = G.delete_reference r name
  reset_target r name (some before) = G.set_target r name before

  -- The branch was not moved, or by the operation's own commit; with the repository behind the
  -- reset.
  pub data Reset (r : G.Repo) : G.Repo → Type 0 where
    unmoved : branch_tip G r saved ≡ some saved.head → Reset r r
    moved :
        {r' : G.Repo} (tip : G.Oid) (name : Text)
        → branch_tip G r saved ≡ some (some tip)
        → same G (some tip) saved.head ≡ false
        → is_operation_commit G r tip saved ≡ some true
        → saved.reference ≡ some name
        → reset_target r name saved.head ≡ some r'
        → Reset r r'

module _ {G : Git} (saved : SavedState G.Oid) where
  reset_same :
      (r : G.Repo) (tip : Option G.Oid) (w : World G)
      → same G tip saved.head ≡ true
      → reset_own G r saved tip w ≡ (done tt, w)
  unfolding reset_own
  reset_same r none w h = refl
  reset_same r (some tip) w h = rw h

  reset_branch_lem :
      (r r' : G.Repo) (name : Text) (head : Option G.Oid) (n : ℕ) (w : World G)
      → reset_target G saved r name head ≡ some r'
      → w.writes_left ≡ suc n
      → reset_branch G r name head w
        ≡ (done tt, record w { writes_left = n; repository = found r' })
  unfolding reset_branch next check set_repository set_within
  reset_branch_lem r r' name none n w t s = rw (t, check) (ap (λ k. set_within k r' w) s)
  reset_branch_lem r r' name (some before) n w t s = rw (t, check) (ap (λ k. set_within k r' w) s)

  reset_own_lem :
      {r r' : G.Repo} (n : ℕ) (w : World G)
      → IsGit G
      → Reset G saved r r'
      → w.repository ≡ found r
      → w.writes_left ≡ suc n
      → (tip : Option G.Oid) × (w' : World G) × (branch_tip G r saved ≡ some tip)
        × (reset_own G r saved tip w ≡ (done tt, w'))
        × (w'.repository ≡ found r')
        × (w'.disk ≡ w.disk)
        × (n ≤ w'.writes_left)
  unfolding reset_own next check
  reset_own_lem {r} n w laws (unmoved t) o s = (
    saved.head,
    w,
    t,
    reset_same r saved.head w (same_refl laws saved.head),
    o,
    refl,
    omega (arith, s),
  )
  reset_own_lem {r} n w laws (moved {r'} tip name t apart own ref target) o s = (
    some tip,
    record w { writes_left = n; repository = found r' },
    t,
    rw apart
        (rw (own, check) (rw (ref, check) (reset_branch_lem r r' name saved.head n w target s))),
    refl,
    refl,
    omega arith,
  )

  -- Behind the branch: the files, the index, and the journal itself.
  finish_lem :
      (r : G.Repo) (w : World G)
      → w.repository ≡ found r
      → finish G w ≡ restore G (journal_file true) none w
  unfolding finish restore
  finish_lem r w o = rw (opened_found w o)

  rollback_lem :
      {r0 r r' : G.Repo} (first w : World G)
      → IsGit G
      → IsSaved G r0 first saved
      → Reset G saved r r'
      → w.repository ≡ found r
      → length saved.files + 3 ≤ w.writes_left
      → (w' : World G) × (rollback G saved w ≡ (done tt, w'))
        × (w'.repository ≡ found r')
        × ((p : Place)
            → (is_touched saved.files p ≡ true)
              ⊎ ((p ≡ journal_file true) ⊎ (w.disk p ≡ first.disk p))
            → w'.disk p ≡ first.disk p)
  unfolding rollback roll_back roll_back_in next check is_touched
  rollback_lem {r} {r'} first w laws s reset o left = elim (ℕ-cases w.writes_left) [
    | inl z ↦ absurd (omega (arith, z, left))
    | inr (n, e) ↦
        let (tip, w1, t, e1, o1, d1, n1) = reset_own_lem n w laws reset o e in
        let (w2, e2, r2) =
          restore_original_files-Restored {G = G} {orig = first.disk} saved.files w1 s.files
            (omega (arith, left, n1, e)) in
        let enough2 : 0 < w2.writes_left = omega (arith, left, n1, r2.left, e) in
        let (w3, e3, r3) =
          restore-Restored {G = G} {orig = first.disk} git_index saved.index w2 s.index enough2 in
        let enough3 : 0 < w3.writes_left = omega (arith, left, n1, r2.left, r3.left, e) in
        let (w4, e4, r4) =
          restore-Restored {G = G} {orig = first.disk} (journal_file true) none w3 s.clear
            enough3 in
        let rest =
          Restored-trans {c = length saved.files + 2} (omega arith)
            (Restored-trans {c = length saved.files + 1} (omega arith) r2 r3) r4 in
        let opened3 = r3.refs ∙ r2.refs ∙ o1 in
        (
          w4,
          rw (opened_found w o)
              (rw (t, check) (rw e1 (rw e2 (rw e3 (finish_lem r' w3 opened3 ∙ e4))))),
          r4.refs ∙ opened3,
          λ p h. rest.back p (elim h [
            | inl touched ↦ inl (ground arith)
            | inr (inl journal) ↦ inl (ground (arith, place_eq_refl p))
            | inr (inr same_bytes) ↦ inr (ap (λ d. d p) d1 ∙ same_bytes)
          ]),
        )
  ]

  -- A rollback ends and undoes the change: if the branch was not moved, or by the operation's own
  -- commit alone, the branch is put back, the journal is gone, and each file that the operation
  -- may write, or that still has its bytes from before the change, is as it was when the
  -- constructor saved it. The process can make three writes more than the journal has files.
  pub rollback_restores :
      (paths : List Text) (changes : List (Text × Option Text)) (first w0 w : World G)
      (r0 r r' : G.Repo) (p : Place)
      → IsGit G
      → first.repository ≡ found r0
      → construct G paths changes first ≡ (done saved, w0)
      → w.repository ≡ found r
      → Reset G saved r r'
      → length saved.files + 3 ≤ w.writes_left
      → (is_touched saved.files p ≡ true) ⊎ ((p ≡ journal_file true) ⊎ (w.disk p ≡ first.disk p))
      → (w' : World G) × (rollback G saved w ≡ (done tt, w'))
        × (w'.repository ≡ found r')
        × (w'.disk p ≡ first.disk p)
  rollback_restores paths changes first w0 w r0 r r' p laws o0 built o reset left h =
      let (same_world, s) = construct-Saved laws paths changes r0 first w0 saved o0 built in
      let (w', e, refs, back) = rollback_lem first w laws s reset o left in (w', e, refs, back p h)
