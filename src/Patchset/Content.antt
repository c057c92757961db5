-- ===== src/Patchset/Content.antt =====
-- `PatchSet::file_content`: the newest id of a path.
use git_cvs_fast_import.Paths.{FilePath}
use git_cvs_fast_import.Prelude.{
  List, [], ◌∷◌, ◌++◌, Option, none, some, ◌≡◌, refl, sym, ap, ok, err, last?, if◌then◌else◌,
  last?-cons, Outcome, Bool-cases, inl, inr, append_assoc, append-nil,
}
use git_cvs_fast_import.Prelude.Equality.{◌=?◌, list_eq, nat_eq}
use git_cvs_fast_import.Prelude.Assoc.{lookup, lookup-upsert, or_else}
use git_cvs_fast_import.Patchset.{
  CommitKey, Commit, Files, Error, file_not_found, add_file, content, file_content,
}
use git_cvs_fast_import.Patchset.Runs.{group_onto, to_patchset}

module _ {ID : Type 0} (path : FilePath) where
  -- The ids that a list of commits gives to the path, in order.
  unfoldable pub ids_of : List (Commit ID) → List ID
  ids_of [] = []
  ids_of (c ∷ cs) = if c.path =? path then c.id ∷ ids_of cs else ids_of cs

  -- The path's ids are kept, and the new ones are put behind them.
  abbrev behind : Option (List ID) → List ID → Option (List ID)
  behind none [] = none
  behind none (i ∷ is) = some (i ∷ is)
  behind (some old) is = some (old ++ is)

  behind-nil : (o : Option (List ID)) → o ≡ behind o []
  behind-nil none = refl
  behind-nil (some old) = ap some (sym (append-nil old))

  behind-cons :
      (o : Option (List ID)) (i : ID) (is : List ID)
      → behind (some (or_else o [] ++ i ∷ [])) is ≡ behind o (i ∷ is)
  behind-cons none i is = refl
  behind-cons (some old) i is = ap some (append_assoc old (i ∷ []) is)

  lookup-group_onto :
      (files : Files ID) (cs : List (Commit ID))
      → lookup path (group_onto files cs) ≡ behind (lookup path files) (ids_of cs)
  unfolding group_onto ids_of add_file
  lookup-group_onto files [] = behind-nil _
  lookup-group_onto files (c ∷ cs) =
      let step = lookup-upsert c.path path [] (λ ids. ids ++ c.id ∷ []) files in
      elim (Bool-cases (c.path =? path)) [
        | inl same ↦
            rw (same, lookup-group_onto (add_file files c) cs, step, same)
              (behind-cons (lookup path files) c.id (ids_of cs))
        | inr other ↦ rw (other, lookup-group_onto (add_file files c) cs, step, other)
      ]

  -- The result of looking up a path in a list of its ids.
  unfoldable pub newest : List ID → Outcome Error ID
  newest ids = elim (last? ids) [ some id ↦ ok id | none ↦ err (file_not_found path) ]

  found :
      (ids : List ID)
      → (elim (behind none ids) [ some ids ↦ content ids | none ↦ err (file_not_found path) ])
        ≡ newest ids
  unfolding content newest
  found [] = refl
  found (i ∷ is) = let (a, e) = last?-cons i is in rw (e, content, newest)

  -- `file_content` of the patchset of a run gives the id of the last of the run's commits to the path,
  -- and an error just when no commit of the run is to the path.
  pub file_content-to_patchset :
      (key : CommitKey) (run : List (Commit ID))
      → file_content (to_patchset key run) path ≡ newest (ids_of run)
  unfolding file_content content to_patchset newest lookup ids_of
  file_content-to_patchset key run =
      rw (lookup-group_onto [] run, file_content) (found (ids_of run))
