-- ===== src/Card/Mutation/Restores.antt =====
-- Restoring files that the process survives: each is back, and no other is disturbed.
use holder_core.Common.{
  ℕ, suc, ◌+◌, ◌≤◌, ◌<◌, Bool, true, false, Option, none, some, List, [], ◌∷◌, ◌≡◌, refl, inl, inr,
  ◌⊎◌, ◌||◌, ◌∙◌, arith, Text, Bool-cases, Option-cases, ℕ-cases, All, length, text_eq_refl, sym,
  ap, subst,
}
use holder_core.Card.Mutation.{
  Place, project_file, place_eq, JournalFile, Git, World, done, put, next, write_within, write_file,
  remove_file, exists, read_file, Fault,
}
use holder_core.Card.Mutation.Journal.{journal_file_path, is_recovery_path, read_back, restore}
use holder_core.Card.Mutation.Recovery.{restore_original_files}
use holder_core.Card.Mutation.Places.{is_journaled, place_eq_sound, put_self, put_ne}

-- Files that the test picks are back, others that were as at first still are, and no ref moved.
pub record Restored {G : Git} (orig : Place → Option Text) (test : Place → Bool) (cost : ℕ)
    (w w' : World G) : Type 0 where
  pub refs : w'.repository ≡ w.repository
  pub left : w.writes_left ≤ w'.writes_left + cost
  pub back : (p : Place) → (test p ≡ true) ⊎ (w.disk p ≡ orig p) → w'.disk p ≡ orig p

module _ {G : Git} where
  pub read_back_same :
      (p : Place) (content : Text) (fault : Fault) (w : World G)
      → w.disk p ≡ some content
      → read_back G p content fault w ≡ (done tt, w)
  unfolding read_back read_file next
  read_back_same p content fault w e = rw (e, read_file) (rw (text_eq_refl content))

  restore-some :
      (p : Place) (content : Text) (n : ℕ) (w : World G)
      → w.writes_left ≡ suc n
      → restore G p (some content) w
        ≡ (done tt, record w { writes_left = n; disk = put w.disk p (some content) })
  unfolding restore write_within write_file next
  restore-some p content n w s =
      ap
        (λ k.
          next (write_within k p w.torn (some content) w)
            λ _. read_back G p content Fault.incomplete_recovery_write)
        s
      ∙ read_back_same p content Fault.incomplete_recovery_write _
          (put_self w.disk p (some content))

  restore_present :
      (p : Place) (content : Text) (n : ℕ) (w : World G)
      → w.writes_left ≡ suc n
      → w.disk p ≡ some content
      → restore G p none w ≡ (done tt, record w { writes_left = n; disk = put w.disk p none })
  unfolding restore remove_file write_within exists
  restore_present p content n w s e =
      rw (e, exists) (ap (λ k. write_within k p (some content) none w) s)

  restore_absent : (p : Place) (w : World G) → w.disk p ≡ none → restore G p none w ≡ (done tt, w)
  unfolding restore exists
  restore_absent p w e = rw (e, exists)

-- what the journal says of a file, against the files at first
abbrev pub SavedFrom : (Place → Option Text) → JournalFile → Type 0
SavedFrom orig f = (is_recovery_path f.key ≡ true) × (orig (project_file f.key) ≡ f.before)

module _ {G : Git} {orig : Place → Option Text} where
  pub Restored-none : (w : World G) → Restored orig (λ _. false) 0 w w
  Restored-none w = record {
    refs = refl;
    left = omega arith;
    back = λ p e. elim e [ inl t ↦ cc | inr same ↦ same ];
  }

  pub Restored-trans :
      {first second : Place → Bool} {a b c : ℕ} {u v w : World G}
      → a + b ≡ c
      → Restored orig first a u v
      → Restored orig second b v w
      → Restored orig (λ p. first p || second p) c u w
  Restored-trans {first} {second} sum h k = record {
    refs = k.refs ∙ h.refs;
    left = omega (arith, h.left, k.left, sum);
    back = λ p e. elim (Bool-cases (second p)) [
      | inl t ↦ k.back p (inl t)
      | inr f ↦
          k.back p (inr (h.back p (elim e [ inl t ↦ inl (ground arith) | inr same ↦ inr same ])))
    ];
  }

  put-Restored :
      (p : Place) (n : ℕ) (w : World G)
      → w.writes_left ≡ suc n
      → Restored orig (place_eq p) 1 w (record w { writes_left = n; disk = put w.disk p (orig p) })
  put-Restored p n w e = record {
    refs = refl;
    left = omega (arith, e);
    back = λ q h. elim (Bool-cases (place_eq p q)) [
      | inl t ↦
          subst (λ x. put w.disk p (orig p) x ≡ orig x) (place_eq_sound p q t)
            (put_self w.disk p (orig p))
      | inr f ↦ put_ne w.disk p q (orig p) f ∙ elim h [ inl t ↦ cc | inr same ↦ same ]
    ];
  }

  -- A file that is to be missing, and is.
  pub absent-Restored :
      (p : Place) (w : World G) → w.disk p ≡ orig p → Restored orig (place_eq p) 1 w w
  absent-Restored p w e = record {
    refs = refl;
    left = omega arith;
    back = λ q h. elim h [
      | inl t ↦ subst (λ x. w.disk x ≡ orig x) (place_eq_sound p q t) e
      | inr same ↦ same
    ];
  }

  restore-Restored_within :
      (p : Place) (content : Option Text) (n : ℕ) (w : World G)
      → orig p ≡ content
      → w.writes_left ≡ suc n
      → (w' : World G) × (restore G p content w ≡ (done tt, w')) × Restored orig (place_eq p) 1 w w'
  restore-Restored_within p (some content) n w e s =
      (_, restore-some p content n w s, rw (← e) (put-Restored p n w s))
  restore-Restored_within p none n w e s = elim (Option-cases (w.disk p)) [
    | inl a ↦ (w, restore_absent p w a, absent-Restored p w (a ∙ sym e))
    | inr (b, a) ↦ (_, restore_present p b n w s a, rw (← e) (put-Restored p n w s))
  ]

  pub restore-Restored :
      (p : Place) (content : Option Text) (w : World G)
      → orig p ≡ content
      → 0 < w.writes_left
      → (w' : World G) × (restore G p content w ≡ (done tt, w')) × Restored orig (place_eq p) 1 w w'
  restore-Restored p content w e left = elim (ℕ-cases w.writes_left) [
    | inl z ↦ absurd (omega (arith, z))
    | inr (n, s) ↦ restore-Restored_within p content n w e s
  ]

  pub restore_original_files-Restored :
      (fs : List JournalFile) (w : World G)
      → All (SavedFrom orig) fs
      → length fs ≤ w.writes_left
      → (w' : World G) × (restore_original_files G fs w ≡ (done tt, w'))
        × Restored orig (is_journaled fs) (length fs) w w'
  unfolding restore_original_files next journal_file_path is_journaled
  restore_original_files-Restored [] w h left = (w, refl, Restored-none w)
  restore_original_files-Restored (f ∷ fs) w h left =
      let (w1, e1, r1) =
        restore-Restored (project_file f.key) f.before w (h.0.1) (omega (arith, left)) in
      let (w2, e2, r2) = restore_original_files-Restored fs w1 h.1 (omega (arith, left, r1.left)) in
      (w2, rw (h.0.0) (rw e1 e2), Restored-trans (omega arith) r1 r2)
